-- ===== src/Chat/Steps.antt =====
-- The steps that the chat handlers are made of; a handler is one step of the server.
use apipro.Base.{ℕ, Bool, true, false, Text, Option, none, some, codes}
use apipro.Chat.Server.{Server, Services, send_error}
use apipro.Chat.Wire.{err_code_unauthorized, Notice, login_required}
use apipro.Session.Env.{World}

-- A step of a handler: `none` is its return.
abbrev pub M : Type 0 → Type 0 → Type 0
M Db A = Server Db → Server Db × Option A

module _ {Db : Type 0} where
  abbrev pub after : {A B : Type 0} → Server Db × Option A → (A → M Db B) → Server Db × Option B
  after (s, some a) f = f a s
  after (s, none) f = (s, none)

  infixl 5 ◌>>=◌ ◌>>◌
  abbrev pub ◌>>=◌ : {A B : Type 0} → M Db A → (A → M Db B) → M Db B
  ◌>>=◌ m f s = after (m s) f

  abbrev pub ◌>>◌ : {B : Type 0} → M Db (Unit {0}) → M Db B → M Db B
  m >> k = m >>= λ _. k

  abbrev pub return : {A : Type 0} → A → M Db A
  return a s = (s, some a)

  -- The server as it stands.
  unfoldable pub here : M Db (Server Db)
  here s = (s, some s)

  unfoldable pub change : (Server Db → Server Db) → M Db (Unit {0})
  change f s = (f s, some tt)

  unfoldable pub on_db : {A : Type 0} → (Db → Db × A) → M Db A
  on_db f s = let r = f s.db in (record s { db = r.0 }, some r.1)

  -- Where the test fails, the handler does this and returns.
  unfoldable pub ensure : Bool → (Server Db → Server Db) → M Db (Unit {0})
  ensure true f s = (s, some tt)
  ensure false f s = (f s, none)

abbrev pub ack : Text
ack = codes "{}"

module _ (w : World) (v : Services w) (c : ℕ) where
  open w use {redis}
  open redis use {Db}

  abbrev pub fail : ℕ → Notice → Server Db → Server Db
  fail code msg = send_error w v c code msg

  unfoldable pub logged_in : M Db (Unit {0})
  logged_in = do
    s ← here
    ensure (s.client c).authenticated (fail err_code_unauthorized login_required)
