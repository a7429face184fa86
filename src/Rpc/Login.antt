-- ===== src/Rpc/Login.antt =====
-- What a login has checked.
use apipro.Base.{
  subst, ◌≡◌, sym, ap, ◌∙◌, true, Text, ℤ, pos, eq_ℤ_iff, some, Result, ok, err, arith, Bool-cases,
  inl, inr,
}
use apipro.Degrade.{can_serve_level, level_auth}
use apipro.Models.{
  DbError, not_found, duplicate, no_rows, context_ended, other, User, find_by_phone,
}
use apipro.Password.{verify_password}
use apipro.RateLimit.Limiter.{allow}
use apipro.Rpc.Auth.{
  no_text, text_or_empty, lock_key, user_or_exit, check_password, session_or_exit, login_shape,
  login_admitted, login_user, open_session, handle_login, answer, build_auth_response,
  build_user_info, login_limiter,
}
use apipro.Rpc.Node.{Services, Node, on_db, record_db_error_for_degrade}
use apipro.Rpc.Paths.{
  Ensures, Ensures-bind, Ensures-require, Ensures-gate, Ensures-on_db, Ensures-return,
  Ensures-parsed, Ensures-any, Ensures-then, Ensures-with_sem,
}
use apipro.Rpc.Phone.{normalize_cc, validate_phone}
use apipro.Rpc.Wire.{LoginReq, AuthResponse, auth, Reply}
use apipro.Session.Env.{World}
use apipro.Base.{codes, ◌++◌}

module _ (w : World) (v : Services w) where
  open w use {redis}

  user_ok :
      (r : Result DbError User) (n : Node redis.Db) (u : User)
      → (user_or_exit w v r n).1 ≡ ok u
      → r ≡ ok u
  unfolding user_or_exit record_db_error_for_degrade
  user_ok (ok x) n u h = ap ok (cc h)
  user_ok (err not_found) n u h = cc
  user_ok (err duplicate) n u h = ground arith
  user_ok (err no_rows) n u h = ground arith
  user_ok (err (context_ended e)) n u h = ground arith
  user_ok (err (other t)) n u h = ground arith

  check_password_ok :
      (cc : Text) (req : LoginReq) (u : User) (n : Node redis.Db) (a : Unit {0})
      → (check_password w v cc req u n).1 ≡ ok a
      → verify_password v.hashing req.password u.password u.salt ≡ true
  unfolding check_password on_db
  check_password_ok cc req u n a h =
      elim (Bool-cases (verify_password v.hashing req.password u.password u.salt)) [
        | inl e ↦ e
        | inr e ↦ ground arith
      ]

  Ensures-user :
      (r : Result DbError User) (n : Node redis.Db)
      → Ensures (user_or_exit w v r) n (λ u n'. r ≡ ok u)
  Ensures-user r n = record { at_end = user_ok r n }

  Ensures-check_password :
      (cc : Text) (req : LoginReq) (u : User) (n : Node redis.Db)
      → Ensures
          (check_password w v cc req u)
          n
          (λ a n'. verify_password v.hashing req.password u.password u.salt ≡ true)
  Ensures-check_password cc req u n = record { at_end = check_password_ok cc req u n }

  -- The row that the login found, and what it has of it.
  pub record Verified (cc : Text) (req : LoginReq) (db : redis.Db) (u : User) : Type 0 where
    pub found : (find_by_phone v.users cc req.phone db).1 ≡ ok u
    pub verified : verify_password v.hashing req.password u.password u.salt ≡ true
    pub active : u.status ≡ pos 1

  Verified-sym :
      (cc : Text) (req : LoginReq) (db : redis.Db) (u u' : User)
      → u ≡ u'
      → Verified cc req db u
      → Verified cc req db u'
  Verified-sym cc req db u u' e h = subst (Verified cc req db) e h

  login_user-Verified :
      (cc : Text) (req : LoginReq) (n : Node redis.Db)
      → Ensures (login_user w v cc req) n (λ u n'. Verified cc req n.db u)
  unfolding login_user
  login_user-Verified cc req n = Ensures-bind (Ensures-with_sem _ _ _ n) λ found n₁ h₁.
      Ensures-bind (Ensures-user found n₁) λ u n₂ h₂.
        Ensures-bind (Ensures-check_password cc req u n₂) λ a n₃ h₃.
          Ensures-bind (Ensures-require _ _ n₃) λ b n₄ h₄.
            Ensures-then (Ensures-return u n₄) λ u' n₅ h₅.
              Verified-sym cc req n.db u u' (sym h₅.0) record {
                found = h₁ u h₂;
                verified = h₃;
                active = (eq_ℤ_iff u.status (pos 1)).0 h₄.0;
              }

  -- The environment when the limiter has been asked, and after the look at the lock.
  abbrev pub limited : Text → LoginReq → redis.Db → redis.Db
  limited cc req db = (allow redis v.nanos true login_limiter (cc ++ (codes ":" ++ req.phone)) db).0

  abbrev pub looked : Text → LoginReq → redis.Db → redis.Db
  looked cc req db = (redis.get (lock_key cc req.phone) (limited cc req db)).0

  -- The look at the lock finds none, or fails.
  abbrev pub Unlocked : Text → LoginReq → redis.Db → Type 0
  Unlocked cc req db =
      no_text (text_or_empty (redis.get (lock_key cc req.phone) (limited cc req db)).1) ≡ true

  -- What a login that is answered has passed.
  pub record LoggedIn (param_json : Text) (n : Node redis.Db) (reply : Reply) : Type 0 where
    pub req : LoginReq
    pub parsed_req : v.parse_login param_json ≡ some req
    pub open_gate : can_serve_level n.degrade level_auth ≡ true
    pub valid : validate_phone v.strings (normalize_cc v.strings req.country_code) req.phone ≡ true
    pub unlocked : Unlocked (normalize_cc v.strings req.country_code) req n.db
    pub user : User
    -- the row is read right after the look at the lock
    pub row :
        Verified
          (normalize_cc v.strings req.country_code)
          req
          (looked (normalize_cc v.strings req.country_code) req n.db)
          user
    pub resp : AuthResponse
    pub answered : reply ≡ answer (auth resp)
    pub mine : resp.user_info.uid ≡ user.uid

  Ensures-open_session :
      (u : User) (plat : ℤ) (n : Node redis.Db)
      → Ensures (open_session w v u plat) n (λ resp n'. resp.user_info.uid ≡ u.uid)
  unfolding open_session build_auth_response build_user_info
  Ensures-open_session u plat n = Ensures-bind (Ensures-on_db _ n) λ issued n₁ h₁.
      Ensures-bind (Ensures-any (session_or_exit w v issued) n₁) λ sess n₂ h₂.
        Ensures-then (Ensures-on_db (build_auth_response w v sess u) n₂)
          λ resp n₃ h₃. ap (λ (r : AuthResponse). r.user_info.uid) h₃.0

  Ensures-login_shape :
      (req : LoginReq) (n : Node redis.Db)
      → Ensures (login_shape w v req) n (λ a n'.
        (validate_phone v.strings (normalize_cc v.strings req.country_code) req.phone ≡ true)
        × (n' ≡ n))
  unfolding login_shape
  Ensures-login_shape req n = Ensures-bind (Ensures-require _ _ n) λ a n₁ h₁.
      Ensures-bind (Ensures-require _ _ n₁)
        λ b n₂ h₂. Ensures-then (Ensures-require _ _ n₂) λ c n₃ h₃. (h₃.0, h₃.1 ∙ h₂.1 ∙ h₁.1)

  Ensures-login_admitted :
      (cc : Text) (req : LoginReq) (n : Node redis.Db)
      → Ensures (login_admitted w v cc req) n (λ a n'.
        (can_serve_level n.degrade level_auth ≡ true)
        × Unlocked cc req n.db
        × (n'.db ≡ looked cc req n.db))
  unfolding login_admitted
  Ensures-login_admitted cc req n = Ensures-bind (Ensures-gate _ _ n) λ a n₁ h₁.
      Ensures-bind (Ensures-on_db _ n₁) λ allowed n₂ h₂.
        Ensures-bind (Ensures-require _ _ n₂) λ b n₃ h₃.
          Ensures-bind (Ensures-on_db _ n₃) λ locked n₄ h₄.
            Ensures-then (Ensures-require _ _ n₄) λ c n₅ h₅.
              let asked : n₃.db ≡ limited cc req n.db =
                ap (λ (m : Node redis.Db). m.db) h₃.1
                ∙ h₂.1
                ∙ ap (λ (m : Node redis.Db). limited cc req m.db) h₁.1 in
              (
                h₁.0,
                ap (λ db. no_text (text_or_empty (redis.get (lock_key cc req.phone) db).1))
                      (sym asked)
                    ∙ ap (λ r. no_text (text_or_empty r)) (sym h₄.0)
                    ∙ h₅.0,
                ap (λ (m : Node redis.Db). m.db) h₅.1
                    ∙ h₄.1
                    ∙ ap (λ db. (redis.get (lock_key cc req.phone) db).0) asked,
              )

  Ensures-login :
      (param_json : Text) (n : Node redis.Db)
      → Ensures (handle_login w v param_json) n (λ reply n'. LoggedIn param_json n reply)
  unfolding handle_login
  Ensures-login param_json n = Ensures-bind (Ensures-parsed _ n) λ req n₁ h₁.
      Ensures-bind (Ensures-login_shape req n₁) λ a n₂ h₂.
        Ensures-bind (Ensures-login_admitted _ req n₂) λ b n₃ h₃.
          Ensures-bind (login_user-Verified _ req n₃) λ u n₄ h₄.
            Ensures-bind (Ensures-on_db _ n₄) λ c n₅ h₅.
              Ensures-bind (Ensures-open_session u _ n₅) λ resp n₆ h₆.
                Ensures-then (Ensures-return _ n₆) λ reply n₇ h₇. record {
                  req = req;
                  parsed_req = h₁.0;
                  open_gate =
                      ap (λ (m : Node redis.Db). can_serve_level m.degrade level_auth)
                        (sym (h₂.1 ∙ h₁.1))
                      ∙ h₃.0;
                  valid = h₂.0;
                  unlocked =
                      subst
                        (λ (m : Node redis.Db).
                          Unlocked (normalize_cc v.strings req.country_code) req m.db)
                        (h₂.1 ∙ h₁.1) h₃.1;
                  user = u;
                  row =
                      subst (λ db. Verified (normalize_cc v.strings req.country_code) req db u)
                        (h₃.2
                          ∙ ap
                              (λ (m : Node redis.Db).
                                looked (normalize_cc v.strings req.country_code) req m.db)
                              (h₂.1 ∙ h₁.1))
                        h₄;
                  resp = resp;
                  answered = h₇.0;
                  mine = h₆;
                }

  -- A login that is answered came at a mode that serves the auth level, with a request that can be decoded
  -- and a phone that is valid for its country; the look at the phone's lock, after the limiter was asked,
  -- found none or was failed by Redis; the row that the database then gave for the phone has a hash that
  -- the password verifies and the status 1, and the answer is for that row's user.
  pub handle_login-LoggedIn :
      (param_json : Text) (n : Node redis.Db) (reply : Reply)
      → (handle_login w v param_json n).1 ≡ ok reply
      → LoggedIn param_json n reply
  handle_login-LoggedIn param_json n reply h = (Ensures-login param_json n).at_end reply h
