-- ===== src/RateLimit.antt =====
-- common/ratelimit: the limiter of several dimensions (multi.go) over the Redis of a parameter.
-- The clock is read from the same environment as Redis. Each function carries the number of lines
-- written to the error log, the only trace of a command that failed.
pub mod Checks
pub mod Acquiring
pub mod Pairing
pub mod Rollback
pub mod Limiter
pub mod ClientIp
mod Tests
use apipro.Base.{
  ℕ, zero, suc, ◌+◌, ◌-◌, ◌*◌, ◌^◌, Bool, true, false, not, ◌&&◌, ◌||◌, List, [], ◌∷◌, ◌++◌, Text,
  ℤ, pos, negsuc, Option, none, some, Result, ok, err, ltb, leb, ltb_ℤ, eq_ℤ, text_eq, codes,
  if◌then◌else◌,
}
use apipro.Redis.{Redis}
use apipro.Redis.Decimal.{parse_int}

abbrev pub Dimension : Type 0
Dimension = Text

abbrev pub dim_ip : Dimension
dim_ip = codes "ip"

abbrev pub dim_user : Dimension
dim_user = codes "user"

abbrev pub dim_device : Dimension
dim_device = codes "device"

abbrev pub dim_api : Dimension
dim_api = codes "api"

abbrev pub dim_global : Dimension
dim_global = codes "global"

abbrev pub dim_concurrent : Dimension
dim_concurrent = codes "concurrent"

pub record Rule : Type 0 where
  pub dimension : Dimension
  pub key : Text
  pub per_minute : ℤ
  pub max_concurrent : ℤ

abbrev pub multi_key_prefix : Text
multi_key_prefix = codes "apipro:rl"

abbrev pub concurrent_ttl : ℕ
concurrent_ttl = 300

abbrev pub sliding_window_ttl : ℕ
sliding_window_ttl = 61

-- `int64(time.Minute)`, in nanoseconds
abbrev pub minute : ℕ
minute = 60000000000

unfoldable pub redis_key : Dimension → Text → Text
redis_key dim key = multi_key_prefix ++ codes ":" ++ dim ++ codes ":" ++ key

abbrev pub is_concurrent : Rule → Bool
is_concurrent r = text_eq r.dimension dim_concurrent

unfoldable pub active : Rule → Bool
active r = if is_concurrent r then ltb_ℤ (pos 0) r.max_concurrent else ltb_ℤ (pos 0) r.per_minute

-- `r.Dimension != DimConcurrent || r.MaxConcurrent <= 0`
abbrev pub not_counted : Rule → Bool
not_counted r = not (is_concurrent r) || not (ltb_ℤ (pos 0) r.max_concurrent)

-- How a request is answered: by the wrapped handler, or by `httpx.ErrorCtx` with the dimension and the key of
-- a rule and the header Retry-After; its status is that library's.
pub data Answer : Type 0 where
  served : Answer
  over_limit : Rule → Answer

module _ (r : Redis) (clock : r.Db → ℕ) where
  -- the environment and the lines of the error log
  abbrev pub State : Type 0
  State = r.Db × ℕ

  unfoldable pub counter_check : Rule → r.Db × Result ℕ Text → r.Db × Result ℕ Bool
  counter_check rule (db, err e) = (db, err e)
  counter_check rule (db, ok []) = (db, ok true)
  counter_check rule (db, ok (c ∷ cs)) = elim (parse_int (c ∷ cs)) [
    | none ↦ (db, ok true)
    | some n ↦ (db, ok (ltb_ℤ n rule.max_concurrent))
  ]

  unfoldable pub card_check : Rule → r.Db × Result ℕ ℕ → r.Db × Result ℕ Bool
  card_check rule (db, err e) = (db, err e)
  card_check rule (db, ok n) = (db, ok (ltb_ℤ (pos n) rule.per_minute))

  unfoldable pub window_check : Rule → r.Db × Result ℕ ℕ → r.Db × Result ℕ Bool
  unfolding card_check
  window_check rule (db, err e) = (db, err e)
  window_check rule (db, ok n) = card_check rule (r.zcard (redis_key rule.dimension rule.key) db)

  unfoldable pub check_one : Rule → r.Db → r.Db × Result ℕ Bool
  check_one rule db =
      let key = redis_key rule.dimension rule.key in
      if is_concurrent rule
      then counter_check rule (r.get key db)
      else window_check rule (r.zremrangebyscore key 0 (clock db - minute) db)

  -- What the loop of `Check` does with the answer for one rule.
  unfoldable pub checked :
      Rule → (State → State × Option Rule) → ℕ → r.Db × Result ℕ Bool → State × Option Rule
  checked rule rest logged (db, err e) = ((db, suc logged), none)
  checked rule rest logged (db, ok true) = rest (db, logged)
  checked rule rest logged (db, ok false) = ((db, logged), some rule)

  unfoldable pub check_rules : List Rule → State → State × Option Rule
  unfolding checked
  check_rules [] s = (s, none)
  check_rules (rule ∷ rules) s =
      if active rule
      then checked rule (λ t. check_rules rules t) s.1 (check_one rule s.0)
      else check_rules rules s

  -- `connected` is false where the limiter or its client is nil.
  unfoldable pub check : Bool → List Rule → State → State × Option Rule
  check connected rules s = if connected then check_rules rules s else (s, none)

  unfoldable pub expired : r.Db × Result ℕ (Unit {0}) → r.Db × Option ℕ
  expired (db, err e) = (db, some e)
  expired (db, ok u) = (db, none)

  unfoldable pub counted : Text → r.Db × Result ℕ ℤ → r.Db × Option ℕ
  unfolding expired
  counted key (db, err e) = (db, some e)
  counted key (db, ok n) =
      if eq_ℤ n (pos 1) then expired (r.expire key concurrent_ttl db) else (db, none)

  unfoldable pub added : Text → r.Db × Result ℕ Bool → r.Db × Option ℕ
  unfolding expired
  added key (db, err e) = (db, some e)
  added key (db, ok fresh) = expired (r.expire key sliding_window_ttl db)

  unfoldable pub pruned : Text → ℕ → r.Db × Result ℕ ℕ → r.Db × Option ℕ
  unfolding added
  pruned key now (db, err e) = (db, some e)
  pruned key now (db, ok n) = added key (r.zadd key now db)

  -- `none` is Go's nil error.
  unfoldable pub acquire_one : Rule → r.Db → r.Db × Option ℕ
  acquire_one rule db =
      let key = redis_key rule.dimension rule.key in
      let now = clock db in
      if is_concurrent rule
      then counted key (r.incr key db)
      else pruned key now (r.zremrangebyscore key 0 (now - minute) db)

  unfoldable pub log_failure : ℕ → r.Db × Result ℕ ℤ → State
  log_failure logged (db, err e) = (db, suc logged)
  log_failure logged (db, ok n) = (db, logged)

  unfoldable pub rollback_one : Rule → State → State
  unfolding log_failure
  rollback_one rule s =
      if not_counted rule
      then s
      else log_failure s.1 (r.decr (redis_key rule.dimension rule.key) s.0)

  unfoldable pub rollback : List Rule → State → State
  rollback [] s = s
  rollback (rule ∷ rules) s = rollback rules (rollback_one rule s)

  unfoldable pub acquired : List Rule → (State → State) → ℕ → r.Db × Option ℕ → State
  acquired before rest logged (db, none) = rest (db, logged)
  acquired before rest logged (db, some e) = rollback before (db, suc logged)

  -- The second loop of `Acquire`; `before` is rules[0, i).
  unfoldable pub acquire_rules : List Rule → List Rule → State → State
  unfolding acquired
  acquire_rules before [] s = s
  acquire_rules before (rule ∷ rules) s =
      let rest = λ (t : State). acquire_rules (before ++ rule ∷ []) rules t in
      if active rule then acquired before rest s.1 (acquire_one rule s.0) else rest s

  unfoldable pub admit : List Rule → State × Option Rule → State × Option Rule
  admit rules (s, some rule) = (s, some rule)
  admit rules (s, none) = (acquire_rules [] rules s, none)

  -- The rule that denies, if any: Go's first result is whether there is none.
  unfoldable pub acquire : Bool → List Rule → State → State × Option Rule
  unfolding admit
  acquire connected rules s = if connected then admit rules (check connected rules s) else (s, none)

  unfoldable pub log_reset : ℕ → r.Db × Result ℕ (Unit {0}) → State
  log_reset logged (db, err e) = (db, suc logged)
  log_reset logged (db, ok u) = (db, logged)

  unfoldable pub decremented : Text → ℕ → r.Db × Result ℕ ℤ → State
  unfolding log_reset
  decremented key logged (db, err e) = (db, suc logged)
  decremented key logged (db, ok (pos n)) = (db, logged)
  decremented key logged (db, ok (negsuc n)) = log_reset logged (r.set key (codes "0") db)

  unfoldable pub release_one : Rule → State → State
  unfolding decremented
  release_one rule s =
      let key = redis_key rule.dimension rule.key in
      if not_counted rule then s else decremented key s.1 (r.decr key s.0)

  unfoldable pub release_rules : List Rule → State → State
  release_rules [] s = s
  release_rules (rule ∷ rules) s = release_rules rules (release_one rule s)

  unfoldable pub release : Bool → List Rule → State → State
  release connected rules s = if connected then release_rules rules s else s

  unfoldable pub finish : Bool → List Rule → (State → State) → State × Option Rule → State × Answer
  finish connected rules next (s, some rule) = (s, over_limit rule)
  finish connected rules next (s, none) = (release connected rules (next s), served)

  -- The rules are what `ruleGen` gives for the request, and `next` is the wrapped handler.
  unfoldable pub http_middleware : Bool → List Rule → (State → State) → State → State × Answer
  unfolding finish
  http_middleware connected [] next s = (next s, served)
  http_middleware connected (rule ∷ rules) next s =
      finish connected (rule ∷ rules) next (acquire connected (rule ∷ rules) s)
