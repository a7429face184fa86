-- ===== src/Rpc/Register.antt =====
-- `handleRegister`, and `AllocUID` of cmd/rpc/internal/svc/serviceContext.go.
use apipro.Base.{
  ℕ, not, ◌&&◌, ◌∷◌, ◌++◌, Text, ℤ, pos, negsuc, ◌^◌, ◌-◌, eq_ℤ, leb, none, Result, ok, err, codes,
  if◌then◌else◌,
}
use apipro.Degrade.{level_write}
use apipro.Models.{DbError, duplicate, context_ended, User, find_by_phone, insert, next_uid}
use apipro.Password.{PasswordError, pwd_type_md5, hash_password}
use apipro.Rpc.{
  code_business_error, code_phone_already_reg, code_sms_check_failed, code_kaptcha_invalid,
  code_rate_limited, code_phone_invalid,
}
use apipro.Rpc.Auth.{no_text, text_or_empty, phone_key, answer, open_session}
use apipro.Rpc.Node.{
  Services, M, ◌>>=◌, ◌>>◌, return, exit, require, on_db, parsed, gate, record_db_error_for_degrade,
  with_sem,
}
use apipro.Rpc.Phone.{normalize_cc, validate_phone}
use apipro.Rpc.Wire.{
  auth, raw, Reply, refusal, replied, RegisterError, by_db, by_password, collision, register_failed,
  nick_name_short, phone_malformed, register_closed, sms_code_wrong, kaptcha_wrong,
  already_registered, busy, register_message, RegisterReq,
}
use apipro.Semaphore.{int32}
use apipro.Session.Env.{World}
use apipro.Sms.{sms_key, verify}

abbrev pub idem_key : Text → Text → Text
idem_key cc phone = phone_key (codes "yuyan:reg:idem:") cc phone

abbrev pub kaptcha_key : Text → Text
kaptcha_key phone = codes "yuyan:kaptcha:" ++ phone

-- `int32(n)` of an int
abbrev pub to_int32 : ℤ → ℤ
to_int32 (pos n) = int32 n
to_int32 (negsuc n) = int32 (2 ^ 64 - 1 - n)

-- The row of a new account.
abbrev new_user : Text → RegisterReq → ℤ → Text × Text → User
new_user cc req uid hashed = record {
  uid = uid;
  login_name = req.phone;
  nick_name = req.nick_name;
  phone = req.phone;
  country_code = cc;
  password = hashed.0;
  salt = hashed.1;
  pwd_type = pwd_type_md5;
  user_type = pos 1;
  score = pos 0;
  grow = pos 0;
  status = pos 1;
  icon = req.icon;
  gender = pos 0;
  birthday = none;
  plat = to_int32 req.plat;
  created_at = pos 0;
  updated_at = pos 0;
}

module _ (w : World) (v : Services w) where
  open w use {redis, unix, read_random}
  open redis use {Db, get, setex, del, incr}

  unfoldable pub allocated : Db × Result ℕ ℤ → Db × ℤ
  allocated (db, ok uid) = (db, uid)
  allocated (db, err e) = next_uid v.users db

  unfoldable pub alloc_uid : Db → Db × ℤ
  alloc_uid db = allocated (incr (codes "yuyan:uid:next") db)

  -- `HashPassword`: an empty password is refused before a random byte is read.
  unfoldable pub hash_drawn : Text → Db → Db × Result PasswordError (Text × Text)
  hash_drawn plain db =
      let drawn = read_random 32 db in
      if no_text plain
      then (db, hash_password v.hashing plain (err 0))
      else (drawn.0, hash_password v.hashing plain drawn.1)

  unfoldable pub inserted_user :
      User → Db × Result DbError (Unit {0}) → Db × Result RegisterError User
  inserted_user u (db, ok done) = (db, ok u)
  inserted_user u (db, err duplicate) = (db, err collision)
  inserted_user u (db, err e) = (db, err (by_db e))

  unfoldable pub insert_hashed :
      Text
      → RegisterReq
      → ℤ
      → Db × Result PasswordError (Text × Text)
      → Db × Result RegisterError User
  insert_hashed cc req uid (db, err e) = (db, err (by_password e))
  insert_hashed cc req uid (db, ok hashed) =
      let u = new_user cc req uid hashed in inserted_user u (insert v.users (pos (unix db)) u db)

  -- The closure that runs under the token, from the answer to whether the phone is taken.
  unfoldable pub register_row :
      Text → RegisterReq → Db × Result DbError User → Db × Result RegisterError User
  register_row cc req (db, ok existing) = (db, err (by_db duplicate))
  register_row cc req (db, err e) =
      let uid = alloc_uid db in insert_hashed cc req uid.1 (hash_drawn req.password uid.0)

  unfoldable pub register_user : Text → RegisterReq → Db → Db × Result RegisterError User
  register_user cc req db = register_row cc req (find_by_phone v.users cc req.phone db)

  unfoldable pub registered_or_exit : Result RegisterError User → M Db User
  registered_or_exit (ok u) = return u
  registered_or_exit (err (by_db duplicate)) =
      exit (refusal code_phone_already_reg already_registered)
  registered_or_exit (err (by_db (context_ended e))) =
      record_db_error_for_degrade >> exit (refusal code_business_error busy)
  registered_or_exit (err e) =
      record_db_error_for_degrade >> exit (refusal code_business_error (register_message e))

  unfoldable pub register_shape : RegisterReq → M Db (Unit {0})
  register_shape req = do
    require
        (eq_ℤ req.account_type (pos 1)
          && not (no_text req.phone)
          && not (no_text req.nick_name)
          && eq_ℤ req.pwd_type pwd_type_md5)
        (refusal code_business_error register_failed)
    require (leb 2 (v.rune_count req.nick_name)) (refusal code_business_error nick_name_short)
    require (validate_phone v.strings (normalize_cc v.strings req.country_code) req.phone)
        (refusal code_phone_invalid phone_malformed)

  -- The answer of the last minute, if there is one, ends the call.
  unfoldable pub replay : Result ℕ Text → M Db (Unit {0})
  replay (ok (c ∷ cs)) = exit (replied (answer (raw (c ∷ cs))))
  replay cached = return tt

  -- The codes of the request: the SMS code, and the image code, which is taken away with the look.
  unfoldable pub check_codes : Text → RegisterReq → M Db (Unit {0})
  check_codes cc req = do
    verified ← on_db (verify redis v.sms (sms_key v.strings cc req.phone (pos 1)) req.sms_code)
    require verified (refusal code_sms_check_failed sms_code_wrong)
    stored ← on_db (get (kaptcha_key req.phone))
    dropped ← on_db (del (kaptcha_key req.phone))
    require
        (v.equal_fold (v.strings.trim_space (text_or_empty stored))
          (v.strings.trim_space req.kaptcha))
        (refusal code_kaptcha_invalid kaptcha_wrong)

  unfoldable pub remember : Text → Text → Result ℕ Text → Db → Db × Unit {0}
  remember cc phone (ok body) db = ((setex (idem_key cc phone) body 60 db).0, tt)
  remember cc phone (err e) db = (db, tt)

  -- From the codes on: the row, the session and the record of the answer.
  unfoldable pub register_account : Text → RegisterReq → M Db Reply
  register_account cc req = do
    row ← with_sem (λ e. by_db (context_ended e)) v.wake (register_user cc req)
    u ← registered_or_exit row
    resp ← open_session w v u req.plat
    on_db (remember cc req.phone (v.marshal_auth resp))
    return (answer (auth resp))

  unfoldable pub handle_register : Text → M Db Reply
  handle_register param_json = do
    req ← parsed (v.parse_register param_json)
    register_shape req
    let cc = normalize_cc v.strings req.country_code
    gate level_write (refusal code_rate_limited register_closed)
    cached ← on_db (get (idem_key cc req.phone))
    replay cached
    check_codes cc req
    register_account cc req
