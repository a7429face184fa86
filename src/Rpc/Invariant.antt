-- ===== src/Rpc/Invariant.antt =====
-- Each handler keeps what `Keeps` says of the node.
use apipro.Base.{ok, err, none, some, Result, Option, ℤ, Text, ℕ, [], ◌∷◌}
use apipro.Models.{User, DbError, not_found, duplicate, no_rows, context_ended, other}
use apipro.Session.{Error}
use apipro.Session.Env.{World, Session}
use apipro.Rpc.Node.{Services}
use apipro.Rpc.Wire.{LoginReq, RegisterReq, RegisterError, by_db, by_password, collision}
use apipro.Rpc.Keeps.{
  Steps, Steps-bind, Steps-on_db, Steps-require, Steps-gate, Steps-return, Steps-exit, Steps-parsed,
  Steps-record, Steps-with_sem, Steps-db_with_sem, Steps-or_exit, Steps-if,
}
use apipro.Rpc.Auth.{
  user_or_exit, check_password, session_or_exit, login_shape, login_admitted, login_user,
  open_session, handle_login,
}
use apipro.Rpc.Register.{
  registered_or_exit, register_shape, replay, check_codes, register_account, handle_register,
}
use apipro.Rpc.Account.{
  guest_or_exit, handle_guest_login, handle_logout, revoked, member_or_exit, handle_user_detail,
}
use apipro.Rpc.Codes.{
  sms_admitted, none_or_exit, unregistered, sms_guard, issued_or_exit, handle_sms_get_code,
  handle_sms_check_code,
}

module _ (w : World) (v : Services w) where
  Steps-user : (r : Result DbError User) → Steps (user_or_exit w v r)
  unfolding user_or_exit
  Steps-user (ok u) = Steps-return
  Steps-user (err (context_ended e)) = Steps-bind Steps-record λ u. Steps-exit
  Steps-user (err not_found) = Steps-exit
  Steps-user (err duplicate) = Steps-bind Steps-record λ u. Steps-exit
  Steps-user (err no_rows) = Steps-bind Steps-record λ u. Steps-exit
  Steps-user (err (other t)) = Steps-bind Steps-record λ u. Steps-exit

  Steps-session : (r : Result Error Session) → Steps (session_or_exit w v r)
  Steps-session (ok sess) = Steps-return
  Steps-session (err e) = Steps-exit

  Steps-open_session : (u : User) (plat : ℤ) → Steps (open_session w v u plat)
  unfolding open_session
  Steps-open_session u plat =
      Steps-bind (Steps-on_db _) λ issued. Steps-bind (Steps-session issued) λ sess. Steps-on_db _

  Steps-check_password :
      (cc : Text) (req : LoginReq) (u : User) → Steps (check_password w v cc req u)
  unfolding check_password
  Steps-check_password cc req u =
      Steps-if _ Steps-return (Steps-bind (Steps-on_db _) λ a. Steps-exit)

  Steps-login_shape : (req : LoginReq) → Steps (login_shape w v req)
  unfolding login_shape
  Steps-login_shape req =
      Steps-bind (Steps-require _ _) λ a. Steps-bind (Steps-require _ _) λ b. Steps-require _ _

  Steps-login_admitted : (cc : Text) (req : LoginReq) → Steps (login_admitted w v cc req)
  unfolding login_admitted
  Steps-login_admitted cc req = Steps-bind (Steps-gate _ _) λ a.
      Steps-bind (Steps-on_db _)
        λ b. Steps-bind (Steps-require _ _) λ c. Steps-bind (Steps-on_db _) λ d. Steps-require _ _

  Steps-login_user : (cc : Text) (req : LoginReq) → Steps (login_user w v cc req)
  unfolding login_user
  Steps-login_user cc req = Steps-bind (Steps-with_sem _ _ _) λ found.
      Steps-bind (Steps-user found) λ u.
        Steps-bind (Steps-check_password cc req u)
          λ a. Steps-bind (Steps-require _ _) λ b. Steps-return

  pub Steps-login : (param_json : Text) → Steps (handle_login w v param_json)
  unfolding handle_login
  Steps-login param_json = Steps-bind (Steps-parsed _) λ req.
      Steps-bind (Steps-login_shape req) λ a. Steps-bind (Steps-login_admitted _ req) λ b.
        Steps-bind (Steps-login_user _ req) λ u.
          Steps-bind (Steps-on_db _) λ d. Steps-bind (Steps-open_session u _) λ resp. Steps-return

  Steps-registered : (r : Result RegisterError User) → Steps (registered_or_exit w v r)
  unfolding registered_or_exit
  Steps-registered (ok u) = Steps-return
  Steps-registered (err (by_db duplicate)) = Steps-exit
  Steps-registered (err (by_db (context_ended e))) = Steps-bind Steps-record λ a. Steps-exit
  Steps-registered (err (by_db not_found)) = Steps-bind Steps-record λ a. Steps-exit
  Steps-registered (err (by_db no_rows)) = Steps-bind Steps-record λ a. Steps-exit
  Steps-registered (err (by_db (other t))) = Steps-bind Steps-record λ a. Steps-exit
  Steps-registered (err (by_password e)) = Steps-bind Steps-record λ a. Steps-exit
  Steps-registered (err collision) = Steps-bind Steps-record λ a. Steps-exit

  Steps-register_shape : (req : RegisterReq) → Steps (register_shape w v req)
  unfolding register_shape
  Steps-register_shape req =
      Steps-bind (Steps-require _ _) λ a. Steps-bind (Steps-require _ _) λ b. Steps-require _ _

  Steps-replay : (r : Result ℕ Text) → Steps (replay w v r)
  unfolding replay
  Steps-replay (ok (c ∷ cs)) = Steps-exit
  Steps-replay (ok []) = Steps-return
  Steps-replay (err e) = Steps-return

  Steps-check_codes : (cc : Text) (req : RegisterReq) → Steps (check_codes w v cc req)
  unfolding check_codes
  Steps-check_codes cc req = Steps-bind (Steps-on_db _) λ a.
      Steps-bind (Steps-require _ _)
        λ b. Steps-bind (Steps-on_db _) λ c. Steps-bind (Steps-on_db _) λ d. Steps-require _ _

  Steps-register_account : (cc : Text) (req : RegisterReq) → Steps (register_account w v cc req)
  unfolding register_account
  Steps-register_account cc req = Steps-bind (Steps-with_sem _ _ _) λ row.
      Steps-bind (Steps-registered row) λ u.
        Steps-bind (Steps-open_session u _) λ resp. Steps-bind (Steps-on_db _) λ a. Steps-return

  pub Steps-register : (param_json : Text) → Steps (handle_register w v param_json)
  unfolding handle_register
  Steps-register param_json = Steps-bind (Steps-parsed _) λ req.
      Steps-bind (Steps-register_shape req) λ a. Steps-bind (Steps-gate _ _) λ b.
        Steps-bind (Steps-on_db _) λ cached.
          Steps-bind (Steps-replay cached)
            λ c. Steps-bind (Steps-check_codes _ req) λ d. Steps-register_account _ req

  Steps-guest : (r : Result Error Session) → Steps (guest_or_exit w v r)
  unfolding guest_or_exit
  Steps-guest (ok sess) = Steps-return
  Steps-guest (err e) = Steps-exit

  pub Steps-guest_login : (param_json : Text) → Steps (handle_guest_login w v param_json)
  unfolding handle_guest_login
  Steps-guest_login param_json =
      Steps-bind (Steps-gate _ _) λ a.
        Steps-bind (Steps-on_db _) λ issued. Steps-bind (Steps-guest issued) λ sess. Steps-return

  Steps-revoked : (session_id : Text) → Steps (revoked w v session_id)
  unfolding revoked
  Steps-revoked session_id = Steps-if _ Steps-return (Steps-bind (Steps-on_db _) λ r. Steps-return)

  pub Steps-logout : (session_id : Text) → Steps (handle_logout w v session_id)
  unfolding handle_logout
  Steps-logout session_id =
      Steps-bind (Steps-gate _ _) λ a. Steps-bind (Steps-revoked session_id) λ b. Steps-return

  Steps-member : (r : Result Error Session) → Steps (member_or_exit w v r)
  unfolding member_or_exit
  Steps-member (ok sess) = Steps-bind (Steps-require _ _) λ a. Steps-return
  Steps-member (err e) = Steps-exit

  pub Steps-user_detail : (session_id : Text) → Steps (handle_user_detail w v session_id)
  unfolding handle_user_detail
  Steps-user_detail session_id = Steps-bind (Steps-require _ _) λ a.
      Steps-bind (Steps-gate _ _) λ b. Steps-bind (Steps-on_db _) λ found.
        Steps-bind (Steps-member found) λ sess. Steps-bind (Steps-db_with_sem _ _) λ seen.
          Steps-bind (Steps-or_exit seen) λ shown. Steps-bind (Steps-require _ _) λ c. Steps-return

  Steps-sms_admitted : (cc phone : Text) → Steps (sms_admitted w v cc phone)
  unfolding sms_admitted
  Steps-sms_admitted cc phone =
      Steps-bind (Steps-on_db _)
        λ a. Steps-bind (Steps-require _ _) λ b. Steps-bind (Steps-on_db _) λ c. Steps-require _ _

  Steps-none : (o : Option User) → Steps (none_or_exit w v o)
  unfolding none_or_exit
  Steps-none none = Steps-return
  Steps-none (some u) = Steps-exit

  Steps-sms_guard : (type : ℤ) (cc phone : Text) → Steps (sms_guard w v type cc phone)
  unfolding sms_guard unregistered
  Steps-sms_guard type cc phone =
      Steps-if _
        (Steps-bind (Steps-db_with_sem _ _) λ found. Steps-bind (Steps-or_exit found) Steps-none)
        Steps-return

  Steps-issued : (r : Result ℕ Text) → Steps (issued_or_exit w v r)
  unfolding issued_or_exit
  Steps-issued (ok code) = Steps-return
  Steps-issued (err e) = Steps-exit

  pub Steps-sms_get_code : (param_json : Text) → Steps (handle_sms_get_code w v param_json)
  unfolding handle_sms_get_code
  Steps-sms_get_code param_json = Steps-bind (Steps-parsed _) λ req.
      Steps-bind (Steps-require _ _) λ a. Steps-bind (Steps-require _ _) λ b.
        Steps-bind (Steps-gate _ _) λ c. Steps-bind (Steps-sms_admitted _ _) λ d.
          Steps-bind (Steps-sms_guard _ _ _) λ e.
            Steps-bind (Steps-on_db _) λ issued. Steps-bind (Steps-issued issued) λ f. Steps-return

  pub Steps-sms_check_code : (param_json : Text) → Steps (handle_sms_check_code w v param_json)
  unfolding handle_sms_check_code
  Steps-sms_check_code param_json = Steps-bind (Steps-parsed _) λ req.
      Steps-bind (Steps-gate _ _)
        λ a. Steps-bind (Steps-on_db _) λ b. Steps-bind (Steps-require _ _) λ c. Steps-return
