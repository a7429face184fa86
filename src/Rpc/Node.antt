-- ===== src/Rpc/Node.antt =====
-- What a call works on: the environment behind Redis and the SQL driver, the degrade manager and the
-- database semaphore; and the calls' common ways out.
use apipro.Base.{ℕ, Bool, Text, ℤ, eq_ℤ, Option, none, some, Result, ok, err, if◌then◌else◌}
use apipro.Degrade.{Manager, Level, can_serve_level, mode_normal, mode_degraded, promote_if_worse}
use apipro.Models.{DbError, context_ended, UserTable}
use apipro.Password.{Hashing}
use apipro.Semaphore.{Semaphore, Wake, Ending, returned, with_token}
use apipro.Session.{SessionStore}
use apipro.Session.Env.{World}
use apipro.Sms.{SmsStore, Strings}
use apipro.Rpc.{code_business_error}
use apipro.Rpc.Wire.{
  AuthResponse, Exit, parked, refusal, invalid_request, busy, db_message, LoginReq, RegisterReq,
  SmsReq, SmsCheckReq,
}

-- What the handlers take from the standard library, the driver and the configuration. Redis is
-- connected: without it login and register dereference a nil client.
pub record Services (w : World) : Type 0 where
  pub users : UserTable w.redis.Db
  -- `time.Now()` in nanoseconds
  pub nanos : w.redis.Db → ℕ
  pub strings : Strings
  pub hashing : Hashing
  pub rune_count : Text → ℕ
  pub equal_fold : Text → Text → Bool
  -- the first result of `strconv.Atoi`
  pub atoi : Text → ℤ
  pub marshal_auth : AuthResponse → Result ℕ Text
  -- `json.Unmarshal`, whose error the guest login drops
  pub parse_login : Text → Option LoginReq
  pub parse_register : Text → Option RegisterReq
  pub parse_refresh : Text → Option Text
  pub parse_sms : Text → Option SmsReq
  pub parse_sms_check : Text → Option SmsCheckReq
  pub parse_plat : Text → ℤ
  pub sessions : SessionStore
  pub sms : SmsStore
  -- what a call that asks for a token is told by
  pub wake : Option Semaphore → w.redis.Db → Wake

pub record Node (Db : Type 0) : Type 0 where
  pub db : Db
  pub degrade : Manager
  pub semaphore : Option Semaphore

-- The outcome of the wrapped function, beside the number that stands for its error.
abbrev ended : {E A : Type 0} → Result E A → Ending
ended (ok a) = returned none
ended (err e) = returned (some 0)

-- Where the function did not run, the error is the context's, which `ctx` turns into one of the caller's.
abbrev pub outcome : {E A : Type 0} → (ℕ → E) → Option (Result E A) → Ending → Result E A
outcome ctx (some reply) ending = reply
outcome ctx none (returned (some e)) = err (ctx e)
outcome ctx none ending = err (ctx 0)

-- How `dbWithSem` maps an error.
abbrev pub db_failure : DbError → Exit
db_failure (context_ended e) = refusal code_business_error busy
db_failure e = refusal code_business_error (db_message e)

-- A step of a call: it may leave the call.
abbrev pub M : Type 0 → Type 0 → Type 0
M Db A = Node Db → Node Db × Result Exit A

module _ {Db : Type 0} where
  abbrev pub after :
      {A B : Type 0} → Node Db × Result Exit A → (A → M Db B) → Node Db × Result Exit B
  after (n, ok a) f = f a n
  after (n, err e) f = (n, err e)

  infixl 5 ◌>>=◌ ◌>>◌
  abbrev pub ◌>>=◌ : {A B : Type 0} → M Db A → (A → M Db B) → M Db B
  ◌>>=◌ m f n = after (m n) f

  abbrev pub ◌>>◌ : {B : Type 0} → M Db Unit → M Db B → M Db B
  m >> k = m >>= λ _. k

  abbrev pub return : {A : Type 0} → A → M Db A
  return a n = (n, ok a)

  abbrev pub exit : {A : Type 0} → Exit → M Db A
  exit e n = (n, err e)

  unfoldable pub require : Bool → Exit → M Db Unit
  require b e n = (n, if b then ok tt else err e)

  -- A step that touches the environment only.
  unfoldable pub on_db : {A : Type 0} → (Db → Db × A) → M Db A
  on_db f n = let r = f n.db in (record n { db = r.0 }, ok r.1)

  -- `json.Unmarshal`
  abbrev pub parsed : {A : Type 0} → Option A → M Db A
  parsed none n = (n, err (refusal code_business_error invalid_request))
  parsed (some a) n = (n, ok a)

  unfoldable pub gate : Level → Exit → M Db Unit
  gate level e n = (n, if can_serve_level n.degrade level then ok tt else err e)

  unfoldable pub record_db_error_for_degrade : M Db Unit
  record_db_error_for_degrade n =
      if eq_ℤ n.degrade.mode mode_normal
      then (record n { degrade = (promote_if_worse n.degrade mode_degraded).0 }, ok tt)
      else (n, ok tt)

  -- The wrapped query, as `WithToken` runs it.
  abbrev pub token_body :
      {E A : Type 0}
      → (Db → Db × Result E A)
      → Option Semaphore
      → Db × Option (Result E A)
      → Option Semaphore × (Db × Option (Result E A)) × Ending
  token_body f s seen = let r = f seen.0 in (s, (r.0, some r.1), ended r.1)

  abbrev pub settle :
      {E A : Type 0}
      → (ℕ → E)
      → Node Db
      → Option (Option Semaphore × (Db × Option (Result E A)) × Ending)
      → Node Db × Result Exit (Result E A)
  settle ctx n none = (n, err parked)
  settle ctx n (some (s, seen, ending)) =
      (record n { db = seen.0; semaphore = s }, ok (outcome ctx seen.1 ending))

  -- `DBSem.WithToken`
  unfoldable pub with_sem :
      {E A : Type 0}
      → (ℕ → E)
      → (Option Semaphore → Db → Wake)
      → (Db → Db × Result E A)
      → M Db (Result E A)
  with_sem ctx wake f n =
      settle ctx n (with_token n.semaphore (wake n.semaphore n.db) (token_body f) (n.db, none))

  abbrev pub or_db_failure : {A : Type 0} → Result DbError A → M Db (Result Exit A)
  or_db_failure (ok a) = return (ok a)
  or_db_failure (err e) = record_db_error_for_degrade >> return (err (db_failure e))

  unfoldable pub db_with_sem :
      {A : Type 0}
      → (Option Semaphore → Db → Wake)
      → (Db → Db × Result DbError A)
      → M Db (Result Exit A)
  db_with_sem wake f = with_sem context_ended wake f >>= or_db_failure

  -- `if dbErr != nil { return nil, code, meg }`
  abbrev pub or_exit : {A : Type 0} → Result Exit A → M Db A
  or_exit (ok a) = return a
  or_exit (err e) = exit e
