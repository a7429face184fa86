-- ===== src/Rpc/Auth.antt =====
-- `handleLogin` with its lockout, and the replies that carry a user.
use apipro.Base.{
  ℕ, Bool, true, false, not, ◌&&◌, [], ◌∷◌, ◌++◌, Text, ℤ, pos, eq_ℤ, ltb_ℤ, Option, none, some,
  Result, ok, err, codes, ◌==◌, if◌then◌else◌,
}
use apipro.Degrade.{level_auth}
use apipro.Models.{
  DbError, not_found, context_ended, User, find_by_phone, find_user_grow_for_value, UserGrow,
}
use apipro.Password.{pwd_type_md5, verify_password}
use apipro.RateLimit.Limiter.{Limiter, new, allow}
use apipro.Rpc.{
  code_ok, code_business_error, code_account_not_found, code_password_wrong, code_user_banned,
  code_login_locked, code_rate_limited, code_phone_invalid,
}
use apipro.Rpc.Node.{
  Services, M, ◌>>=◌, ◌>>◌, return, exit, require, on_db, parsed, gate, record_db_error_for_degrade,
  with_sem,
}
use apipro.Rpc.Phone.{normalize_cc, validate_phone}
use apipro.Rpc.Wire.{
  GrowDto, UserInfo, AuthResponse, Payload, auth, Reply, refusal, no_message, login_failed,
  pwd_type_unsupported, phone_malformed, auth_closed, too_frequent, account_locked, busy,
  not_registered, db_message, password_wrong, account_banned, session_message, LoginReq,
}
use apipro.Session.{Error, issue_user}
use apipro.Session.Env.{Session, World}
use apipro.Sms.{trim_plus}

abbrev pub no_text : Text → Bool
no_text [] = true
no_text (c ∷ cs) = false

-- What a read leaves in the string whose error is dropped.
abbrev pub text_or_empty : Result ℕ Text → Text
text_or_empty (ok t) = t
text_or_empty (err e) = []

abbrev pub phone_key : Text → Text → Text → Text
phone_key prefix cc phone = prefix ++ (cc ++ (codes ":" ++ phone))

abbrev pub lock_key : Text → Text → Text
lock_key cc phone = phone_key (codes "yuyan:login:lock:") cc phone

abbrev pub fail_key : Text → Text → Text
fail_key cc phone = phone_key (codes "yuyan:login:fail:") cc phone

unfoldable pub login_limiter : Limiter
login_limiter = new (pos 10) (codes "yuyan:ratelimit:login")

abbrev plus : Text → Text
plus [] = []
plus (c ∷ cs) = if c == 0x2B then c ∷ cs else 0x2B ∷ c ∷ cs

abbrev grow_dto_of : Result DbError UserGrow → GrowDto
grow_dto_of (ok g) = record { id = g.id; name = g.name; next_min_grow = g.next_min_grow }
grow_dto_of (err e) = record { id = pos 0; name = []; next_min_grow = pos 0 }

abbrev millis_or_zero : Option ℤ → ℤ
millis_or_zero none = pos 0
millis_or_zero (some ms) = ms

-- The reply that a handler ends with.
abbrev pub answer : Payload → Reply
answer payload = record { payload = payload; code = code_ok; meg = no_message }

module _ (w : World) (v : Services w) where
  open w use {redis}
  open redis use {Db, get, setex, del, incr, expire}

  unfoldable pub build_user_info : User → Db → Db × UserInfo
  build_user_info u db =
      let grow = find_user_grow_for_value v.users u.grow db in
      (
        grow.0,
        record {
          uid = u.uid;
          nick_name = u.nick_name;
          icon = u.icon;
          cut_out_icon = [];
          user_type = u.user_type;
          score = u.score;
          grow = u.grow;
          grow_dto = grow_dto_of grow.1;
          gender = u.gender;
          birthday = millis_or_zero u.birthday;
          login_name = u.login_name;
          phone = u.phone;
          country_code = plus u.country_code;
        },
      )

  unfoldable pub build_auth_response : Session → User → Db → Db × AuthResponse
  build_auth_response sess u db =
      let info = build_user_info u db in
      (
        info.0,
        record {
          access_token = sess.access_token;
          session_id = sess.access_token;
          refresh_token = sess.refresh_token;
          user_info = info.1;
          phone = u.phone;
          country_code = v.atoi (trim_plus u.country_code);
          login_name = u.login_name;
        },
      )

  -- After the tenth failure the phone is locked and its counter starts anew.
  unfoldable pub fail_counted : Text → Text → Db × Result ℕ ℤ → Db
  fail_counted cc phone (db, err e) = db
  fail_counted cc phone (db, ok n) =
      let db' = if eq_ℤ n (pos 1) then (expire (fail_key cc phone) 900 db).0 else db in
      if ltb_ℤ n (pos 10)
      then db'
      else (del (fail_key cc phone) (setex (lock_key cc phone) (codes "1") 1800 db').0).0

  unfoldable pub record_login_fail : Text → Text → Db → Db × Unit {0}
  record_login_fail cc phone db = (fail_counted cc phone (incr (fail_key cc phone) db), tt)

  unfoldable pub user_or_exit : Result DbError User → M Db User
  user_or_exit (ok u) = return u
  user_or_exit (err (context_ended e)) =
      record_db_error_for_degrade >> exit (refusal code_business_error busy)
  user_or_exit (err not_found) = exit (refusal code_account_not_found not_registered)
  user_or_exit (err e) =
      record_db_error_for_degrade >> exit (refusal code_business_error (db_message e))

  -- The two checks of the password, each of which counts a failure.
  unfoldable pub check_password : Text → LoginReq → User → M Db (Unit {0})
  check_password cc req u =
      if eq_ℤ u.pwd_type pwd_type_md5 && verify_password v.hashing req.password u.password u.salt
      then return tt
      else (on_db (record_login_fail cc req.phone)
          >> exit (refusal code_password_wrong password_wrong))

  abbrev pub session_or_exit : Result Error Session → M Db Session
  session_or_exit (ok sess) = return sess
  session_or_exit (err e) = exit (refusal code_business_error (session_message e))

  unfoldable pub login_shape : LoginReq → M Db (Unit {0})
  login_shape req = do
    require
        (not (eq_ℤ req.account_type (pos 0))
          && eq_ℤ req.login_mode (pos 1)
          && eq_ℤ req.login_type (pos 1)
          && not (no_text req.phone))
        (refusal code_business_error login_failed)
    require (eq_ℤ req.pwd_type pwd_type_md5) (refusal code_business_error pwd_type_unsupported)
    require (validate_phone v.strings (normalize_cc v.strings req.country_code) req.phone)
        (refusal code_phone_invalid phone_malformed)

  -- The level, the rate and the lock.
  unfoldable pub login_admitted : Text → LoginReq → M Db (Unit {0})
  login_admitted cc req = do
    gate level_auth (refusal code_rate_limited auth_closed)
    allowed ← on_db (allow redis v.nanos true login_limiter (cc ++ (codes ":" ++ req.phone)))
    require allowed (refusal code_rate_limited too_frequent)
    locked ← on_db (get (lock_key cc req.phone))
    require (no_text (text_or_empty locked)) (refusal code_login_locked account_locked)

  unfoldable pub login_user : Text → LoginReq → M Db User
  login_user cc req = do
    found ← with_sem context_ended v.wake (find_by_phone v.users cc req.phone)
    u ← user_or_exit found
    check_password cc req u
    require (eq_ℤ u.status (pos 1)) (refusal code_user_banned account_banned)
    return u

  -- `IssueUser` and `buildAuthResponse`
  unfoldable pub open_session : User → ℤ → M Db AuthResponse
  open_session u plat = do
    issued ← on_db (issue_user w v.sessions u.uid u.nick_name u.icon u.user_type plat)
    sess ← session_or_exit issued
    on_db (build_auth_response sess u)

  unfoldable pub handle_login : Text → M Db Reply
  handle_login param_json = do
    req ← parsed (v.parse_login param_json)
    login_shape req
    let cc = normalize_cc v.strings req.country_code
    login_admitted cc req
    u ← login_user cc req
    cleared ← on_db (del (fail_key cc req.phone))
    resp ← open_session u req.plat
    return (answer (auth resp))
