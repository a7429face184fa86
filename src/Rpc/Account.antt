-- ===== src/Rpc/Account.antt =====
-- `handleGuestLogin`, `handleRefresh`, `handleLogout` and `handleUserDetail`.
use apipro.Base.{
  ℕ, Bool, true, false, not, Text, ℤ, pos, eq_ℤ, some, Result, ok, err, [], if◌then◌else◌,
}
use apipro.Degrade.{level_auth}
use apipro.Models.{DbError, User, find_by_uid}
use apipro.Rpc.{code_business_error, code_login_required, code_user_banned, code_rate_limited}
use apipro.Rpc.Auth.{no_text, answer, build_user_info, build_auth_response}
use apipro.Rpc.Node.{
  Services, Node, M, ◌>>=◌, ◌>>◌, return, exit, require, on_db, parsed, gate, db_with_sem, or_exit,
}
use apipro.Rpc.Wire.{
  AuthResponse, UserInfo, auth, user, empty_object, Reply, Exit, parked, refusal, auth_closed,
  logout_closed, detail_closed, login_required, account_banned, guest_message, refresh_refused,
}
use apipro.Session.{Error, user_banned, issue_guest, refresh, revoke, get_session}
use apipro.Session.Env.{Session, World}

abbrev plat_or_h5 : ℤ → ℤ
plat_or_h5 plat = if eq_ℤ plat (pos 0) then pos 4 else plat

-- The reply to a guest, whose tier is the audience.
abbrev guest_response : Session → AuthResponse
guest_response sess = record {
  access_token = sess.access_token;
  session_id = sess.access_token;
  refresh_token = [];
  user_info = record {
    uid = pos 0;
    nick_name = sess.nick_name;
    icon = [];
    cut_out_icon = [];
    user_type = pos 1;
    score = pos 0;
    grow = pos 0;
    grow_dto = record { id = pos 0; name = []; next_min_grow = pos 0 };
    gender = pos 3;
    birthday = pos 0;
    login_name = [];
    phone = [];
    country_code = [];
  };
  phone = [];
  country_code = pos 0;
  login_name = [];
}

-- A node inside a function that the session store calls, which says if a query is still parked.
pub record Attempt (Db : Type 0) : Type 0 where
  pub node : Node Db
  pub stalled : Bool

abbrev at_node : {Db A : Type 0} → (Db → Db × A) → Attempt Db → Attempt Db × A
at_node f a = let r = f a.node.db in (record a { node = record (a.node) { db = r.0 } }, r.1)

-- The same Redis, clock and random source beside the rest of the node.
abbrev pub node_world : World → World
node_world w = record {
  redis = record {
    Db = Attempt w.redis.Db;
    get = λ k. at_node (w.redis.get k);
    set = λ k t. at_node (w.redis.set k t);
    setex = λ k t n. at_node (w.redis.setex k t n);
    setnx_ex = λ k t n. at_node (w.redis.setnx_ex k t n);
    del = λ k. at_node (w.redis.del k);
    incr = λ k. at_node (w.redis.incr k);
    decr = λ k. at_node (w.redis.decr k);
    expire = λ k n. at_node (w.redis.expire k n);
    zremrangebyscore = λ k lo hi. at_node (w.redis.zremrangebyscore k lo hi);
    zcard = λ k. at_node (w.redis.zcard k);
    zadd = λ k score. at_node (w.redis.zadd k score);
  };
  unix = λ a. w.unix a.node.db;
  read_random = λ n. at_node (w.read_random n);
  encode = w.encode;
  decode = w.decode;
}

module _ (w : World) (v : Services w) where
  open w use {redis}
  open redis use {Db}

  unfoldable pub guest_or_exit : Result Error Session → M Db Session
  guest_or_exit (ok sess) = return sess
  guest_or_exit (err e) = exit (refusal code_business_error (guest_message e))

  unfoldable pub handle_guest_login : Text → M Db Reply
  handle_guest_login param_json = do
    let plat = plat_or_h5 (v.parse_plat param_json)
    gate level_auth (refusal code_rate_limited auth_closed)
    issued ← on_db (issue_guest w v.sessions plat)
    sess ← guest_or_exit issued
    return (answer (auth (guest_response sess)))

  abbrev pub status_found : Node Db × Result Exit (Result Exit User) → Attempt Db × Result ℕ ℤ
  status_found (n, ok (ok u)) = (record { node = n; stalled = false }, ok u.status)
  status_found (n, ok (err e)) = (record { node = n; stalled = false }, err 0)
  status_found (n, err e) = (record { node = n; stalled = true }, err 0)

  -- `statusFn`; whatever its error is, the session store refuses the user.
  unfoldable pub status_fn : ℤ → Attempt Db → Attempt Db × Result ℕ ℤ
  status_fn uid a = status_found (db_with_sem v.wake (find_by_uid v.users uid) a.node)

  abbrev pub settled :
      Attempt Db × Result Error Session → Node Db × Result Exit (Result Error Session)
  settled (a, reply) = (a.node, if a.stalled then err parked else ok reply)

  unfoldable pub refresh_session : Text → M Db (Result Error Session)
  refresh_session token n = settled (
      refresh (node_world w) v.sessions token (some status_fn) record { node = n; stalled = false })

  unfoldable pub refreshed_or_exit : Result Error Session → M Db Session
  refreshed_or_exit (ok sess) = return sess
  refreshed_or_exit (err user_banned) = exit (refusal code_user_banned account_banned)
  refreshed_or_exit (err e) = exit (refusal code_business_error refresh_refused)

  unfoldable pub handle_refresh : Text → M Db Reply
  handle_refresh param_json = do
    token ← parsed (v.parse_refresh param_json)
    gate level_auth (refusal code_rate_limited auth_closed)
    refreshed ← refresh_session token
    sess ← refreshed_or_exit refreshed
    found ← db_with_sem v.wake (find_by_uid v.users sess.uid)
    u ← or_exit found
    resp ← on_db (build_auth_response w v sess u)
    return (answer (auth resp))

  -- `Revoke`, whose outcome is dropped; a call without a session has nothing to revoke.
  unfoldable pub revoked : Text → M Db (Unit {0})
  revoked session_id =
      if no_text session_id
      then return tt
      else (on_db (revoke w v.sessions session_id) >>= λ r. return tt)

  unfoldable pub handle_logout : Text → M Db Reply
  handle_logout session_id = do
    gate level_auth (refusal code_rate_limited logout_closed)
    revoked session_id
    return (answer empty_object)

  unfoldable pub member_or_exit : Result Error Session → M Db Session
  member_or_exit (ok sess) =
      require (not sess.is_guest) (refusal code_login_required login_required) >> return sess
  member_or_exit (err e) = exit (refusal code_login_required login_required)

  -- The closure of `handleUserDetail`.
  unfoldable pub with_info : Db × Result DbError User → Db × Result DbError (User × UserInfo)
  with_info (db, err e) = (db, err e)
  with_info (db, ok u) = let info = build_user_info w v u db in (info.0, ok (u, info.1))

  unfoldable pub profile : ℤ → Db → Db × Result DbError (User × UserInfo)
  profile uid db = with_info (find_by_uid v.users uid db)

  unfoldable pub handle_user_detail : Text → M Db Reply
  handle_user_detail session_id = do
    require (not (no_text session_id)) (refusal code_login_required login_required)
    gate level_auth (refusal code_rate_limited detail_closed)
    found ← on_db (get_session w v.sessions session_id)
    sess ← member_or_exit found
    seen ← db_with_sem v.wake (profile sess.uid)
    shown ← or_exit seen
    require (eq_ℤ shown.0.status (pos 1)) (refusal code_user_banned account_banned)
    return (answer (user shown.1))
