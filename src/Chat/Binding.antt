-- ===== src/Chat/Binding.antt =====
-- `handleLogin`, `handleSessionResume` and `handleLogout` of the chat.
use apipro.Base.{ℕ, true, false, not, Text, Result, ok, err}
use apipro.Chat.{unregister_all}
use apipro.Chat.Server.{Services, Client, set_client, send_binary}
use apipro.Chat.Wire.{
  op_login_success, op_logout_success, op_session_resume_success, err_code_unauthorized,
  missing_key, invalid_session,
}
use apipro.Rpc.Auth.{no_text}
use apipro.Session.{Error, get_session}
use apipro.Session.Env.{Session, World}
use apipro.Chat.Steps.{M, ◌>>=◌, ◌>>◌, change, on_db, ensure, ack, fail, logged_in}

abbrev bound_to : Session → Client → Client
bound_to sess x = record x {
  uid = sess.uid;
  nick_name = sess.nick_name;
  icon = sess.icon;
  is_guest = sess.is_guest;
  authenticated = true;
}

module _ (w : World) (v : Services w) (c : ℕ) where
  open w use {redis}
  open redis use {Db}

  abbrev pub bind_or_fail : ℕ → Result Error Session → M Db (Unit {0})
  bind_or_fail op (ok sess) = do
    change (λ s. set_client c (bound_to sess (s.client c)) s)
    change (send_binary w v c op ack)
  bind_or_fail op (err e) = ensure false (fail w v c err_code_unauthorized invalid_session)

  -- The end that `handleLogin` and `handleSessionResume` share.
  unfoldable pub bind_session : ℕ → Text → M Db (Unit {0})
  bind_session op key = do
    ensure (not (no_text key)) (fail w v c err_code_unauthorized missing_key)
    found ← on_db (get_session w v.sessions key)
    bind_or_fail op found

  unfoldable pub handle_login : Text → M Db (Unit {0})
  handle_login body = bind_session op_login_success (v.parse_key body)

  unfoldable pub handle_session_resume : Text → M Db (Unit {0})
  handle_session_resume body = do
    logged_in w v c
    bind_session op_session_resume_success (v.parse_key body)

  unfoldable pub handle_logout : Text → M Db (Unit {0})
  handle_logout body = do
    change (send_binary w v c op_logout_success ack)
    change (λ s. record s { hub = unregister_all c s.hub })
    change (λ s. set_client c (record (s.client c) { closed = true }) s)
