-- ===== src/Rpc/Codes.antt =====
-- `handleSmsGetCode` and `handleSmsCheckCode`.
use apipro.Base.{
  ℕ, zero, suc, Bool, true, false, not, List, [], ◌∷◌, ◌++◌, Text, ℤ, pos, eq_ℤ, ltb_ℤ, Option,
  none, some, Result, ok, err, codes, if◌then◌else◌,
}
use apipro.Degrade.{level_auth}
use apipro.Models.{DbError, not_found, User, find_by_phone}
use apipro.Rpc.{
  code_business_error, code_phone_already_reg, code_sms_check_failed, code_rate_limited,
  code_phone_invalid,
}
use apipro.Rpc.Auth.{no_text, phone_key, answer}
use apipro.Rpc.Node.{
  Services, M, ◌>>=◌, ◌>>◌, return, exit, require, on_db, parsed, gate, db_with_sem, or_exit,
}
use apipro.Rpc.Phone.{normalize_cc, validate_phone}
use apipro.Rpc.Wire.{
  empty_object, Reply, refusal, phone_malformed, codes_closed, cooling_down, hourly_limit,
  already_registered, sms_message, sms_code_wrong,
}
use apipro.Session.Env.{World}
use apipro.Sms.{sms_key, issue, verify}

abbrev pub cooldown_key : Text → Text → Text
cooldown_key cc phone = phone_key (codes "yuyan:ratelimit:cooldown:sms:") cc phone

abbrev pub hour_key : Text → Text → Text
hour_key cc phone = phone_key (codes "yuyan:ratelimit:sms:") cc phone ++ codes ":hour"

abbrev type_or_register : ℤ → ℤ
type_or_register type = if eq_ℤ type (pos 0) then pos 1 else type

-- What one byte of random data is, where an error leaves it 0.
abbrev byte_or_zero : Result ℕ Text → ℕ
byte_or_zero (ok (b ∷ bs)) = b
byte_or_zero reply = 0

-- `ok, _ := rdb.SetnxEx(...)`
abbrev fresh : Result ℕ Bool → Bool
fresh (ok b) = b
fresh (err e) = false

module _ (w : World) (v : Services w) where
  open w use {redis, read_random}
  open redis use {Db, setnx_ex, incr, expire}

  -- The count of the hour is below its limit; a count that failed is 0.
  unfoldable pub hour_counted : Text → Db × Result ℕ ℤ → Db × Bool
  hour_counted key (db, err e) = (db, true)
  hour_counted key (db, ok n) =
      (if eq_ℤ n (pos 1) then (expire key 3600 db).0 else db, not (ltb_ℤ (pos 10) n))

  unfoldable pub sms_admitted : Text → Text → M Db (Unit {0})
  sms_admitted cc phone = do
    set ← on_db (setnx_ex (cooldown_key cc phone) (codes "1") 60)
    require (fresh set) (refusal code_rate_limited cooling_down)
    below ← on_db (λ db. hour_counted (hour_key cc phone) (incr (hour_key cc phone) db))
    require below (refusal code_rate_limited hourly_limit)

  unfoldable pub existing : Db × Result DbError User → Db × Result DbError (Option User)
  existing (db, ok u) = (db, ok (some u))
  existing (db, err not_found) = (db, ok none)
  existing (db, err e) = (db, err e)

  unfoldable pub none_or_exit : Option User → M Db (Unit {0})
  none_or_exit none = return tt
  none_or_exit (some u) = exit (refusal code_phone_already_reg already_registered)

  -- A code for registering is refused where the phone has an account.
  unfoldable pub unregistered : Text → Text → M Db (Unit {0})
  unregistered cc phone = do
    found ← db_with_sem v.wake (λ db. existing (find_by_phone v.users cc phone db))
    u ← or_exit found
    none_or_exit u

  unfoldable pub sms_guard : ℤ → Text → Text → M Db (Unit {0})
  sms_guard type cc phone = if eq_ℤ type (pos 1) then unregistered cc phone else return tt

  -- The bytes of `randomDigits`, drawn one by one.
  unfoldable pub draw : ℕ → Db → Db × List ℕ
  draw zero db = (db, [])
  draw (suc k) db =
      let drawn = read_random 1 db in
      let rest = draw k drawn.0 in (rest.0, byte_or_zero drawn.1 ∷ rest.1)

  unfoldable pub sms_issued : Text → Db × List ℕ → Db × Result ℕ Text
  sms_issued key (db, bytes) = issue redis key bytes db

  unfoldable pub issued_or_exit : Result ℕ Text → M Db (Unit {0})
  issued_or_exit (ok code) = return tt
  issued_or_exit (err e) = exit (refusal code_business_error (sms_message e))

  unfoldable pub handle_sms_get_code : Text → M Db Reply
  handle_sms_get_code param_json = do
    req ← parsed (v.parse_sms param_json)
    require (not (no_text req.phone)) (refusal code_phone_invalid phone_malformed)
    let cc = normalize_cc v.strings req.country_code
    let type = type_or_register req.type
    require (validate_phone v.strings cc req.phone) (refusal code_phone_invalid phone_malformed)
    gate level_auth (refusal code_rate_limited codes_closed)
    sms_admitted cc req.phone
    sms_guard type cc req.phone
    issued ← on_db (λ db. sms_issued (sms_key v.strings cc req.phone type) (draw 4 db))
    issued_or_exit issued
    return (answer empty_object)

  unfoldable pub handle_sms_check_code : Text → M Db Reply
  handle_sms_check_code param_json = do
    req ← parsed (v.parse_sms_check param_json)
    gate level_auth (refusal code_rate_limited codes_closed)
    let cc = normalize_cc v.strings req.country_code
    verified ← on_db (verify redis v.sms (sms_key v.strings cc req.phone req.type) req.sms_code)
    require verified (refusal code_sms_check_failed sms_code_wrong)
    return (answer empty_object)
