-- ===== src/Rpc/Calls.antt =====
-- What every call of the method keeps of its node.
use apipro.Base.{◌≡◌, refl, Text, ℤ, Option, none, some, Result, ok, err, inl, subst, false}
use apipro.Models.{User, find_by_uid}
use apipro.Session.{Error, refresh, user_banned}
use apipro.Session.Related.{Closed, refresh_db}
use apipro.Session.Env.{World, Session}
use apipro.Rpc.Account.{
  Attempt, node_world, status_found, status_fn, settled, refresh_session, refreshed_or_exit,
  handle_refresh,
}
use apipro.Rpc.Call.{CallReq, CallResp, Method, handler, method_of, responded, call}
use apipro.Rpc.Call
use apipro.Rpc.Invariant.{
  Steps-login, Steps-register, Steps-guest_login, Steps-logout, Steps-user_detail,
  Steps-sms_get_code, Steps-sms_check_code,
}
use apipro.Rpc.Keeps.{
  Keeps, Keeps-trans, Steps, Steps-bind, Steps-on_db, Steps-gate, Steps-return, Steps-exit,
  Steps-parsed, Steps-db_with_sem, Steps-or_exit,
}
use apipro.Rpc.Node.{Services, Node, M, db_with_sem}
use apipro.Rpc.Wire.{Reply, Exit, parked, replied}

module _ (w : World) (v : Services w) where
  open w use {redis}
  open redis use {Db}

  abbrev Around : Attempt Db → Attempt Db → Type 0
  Around a b = Keeps a.node b.node

  Around-Closed : Closed (node_world w) Around
  Around-Closed = record {
    here = λ a. (inl refl, refl);
    chain = λ a b c. Keeps-trans a.node b.node c.node;
    by_get = λ k a. (inl refl, refl);
    by_setex = λ k t n a. (inl refl, refl);
    by_del = λ k a. (inl refl, refl);
    by_random = λ n a. (inl refl, refl);
  }

  status_found-Keeps :
      (n : Node Db) (p : Node Db × Result Exit (Result Exit User))
      → Keeps n p.0
      → Keeps n (status_found w v p).0.node
  status_found-Keeps n (n', ok (ok u)) h = h
  status_found-Keeps n (n', ok (err e)) h = h
  status_found-Keeps n (n', err e) h = h

  status_fn-Keeps : (uid : ℤ) (a : Attempt Db) → Around a (status_fn w v uid a).0
  unfolding status_fn
  status_fn-Keeps uid a =
      status_found-Keeps a.node (db_with_sem v.wake (find_by_uid v.users uid) a.node)
        ((Steps-db_with_sem v.wake (find_by_uid v.users uid)).keeps a.node)

  settled-Keeps :
      (n : Node Db) (p : Attempt Db × Result Error Session)
      → Keeps n p.0.node
      → Keeps n (settled w v p).0
  settled-Keeps n (a, reply) h = h

  Steps-refresh_session : (token : Text) → Steps (refresh_session w v token)
  unfolding refresh_session
  Steps-refresh_session token = record {
    keeps = λ n.
        let a : Attempt Db = record { node = n; stalled = false } in
        settled-Keeps n (refresh (node_world w) v.sessions token (some (status_fn w v)) a) (
          refresh_db (node_world w) Around Around-Closed (status_fn w v) status_fn-Keeps v.sessions
            token a);
  }

  Steps-refreshed : (r : Result Error Session) → Steps (refreshed_or_exit w v r)
  unfolding refreshed_or_exit
  Steps-refreshed (ok sess) = Steps-return
  Steps-refreshed (err user_banned) = Steps-exit
  Steps-refreshed (err e) = Steps-exit

  pub Steps-refresh : (param_json : Text) → Steps (handle_refresh w v param_json)
  unfolding handle_refresh
  Steps-refresh param_json = Steps-bind (Steps-parsed _) λ token. Steps-bind (Steps-gate _ _) λ a.
      Steps-bind (Steps-refresh_session token) λ refreshed.
        Steps-bind (Steps-refreshed refreshed) λ sess. Steps-bind (Steps-db_with_sem _ _) λ found.
          Steps-bind (Steps-or_exit found) λ u. Steps-bind (Steps-on_db _) λ resp. Steps-return

  abbrev AllStep : Option (M Db Reply) → Type 0
  AllStep none = Unit
  AllStep (some handle) = Steps handle

  handler_steps : (m : Method) (req : CallReq) → AllStep (handler w v m req)
  unfolding handler
  handler_steps Call.login req = Steps-login w v req.param_json
  handler_steps Call.register req = Steps-register w v req.param_json
  handler_steps Call.guest_login req = Steps-guest_login w v req.param_json
  handler_steps Call.refresh req = Steps-refresh req.param_json
  handler_steps Call.logout req = Steps-logout w v req.session_id
  handler_steps Call.user_detail req = Steps-user_detail w v req.session_id
  handler_steps Call.sms_get_code req = Steps-sms_get_code w v req.param_json
  handler_steps Call.sms_check_code req = Steps-sms_check_code w v req.param_json
  handler_steps (Call.display d) req = tt
  handler_steps Call.unknown req = Steps-exit

  pub responded-Keeps :
      (req : CallReq) (n : Node Db) (p : Node Db × Result Exit Reply)
      → Keeps n p.0
      → Keeps n (responded w v req p).0
  responded-Keeps req n (n', ok reply) h = h
  responded-Keeps req n (n', err (replied reply)) h = h
  responded-Keeps req n (n', err parked) h = h

  answered-Keeps :
      (req : CallReq) (o : Option (M Db Reply)) (n n' : Node Db) (resp : Option CallResp)
      → AllStep o
      → (elim o [ none ↦ none | some handle ↦ some (responded w v req (handle n)) ])
        ≡ some (n', resp)
      → Keeps n n'
  answered-Keeps req none n n' resp s h = cc
  answered-Keeps req (some handle) n n' resp s h =
      let same : (responded w v req (handle n)).0 ≡ n' = cc h in
      subst (Keeps n) same (responded-Keeps req n (handle n) (s.keeps n))

  -- Whatever a call of a method that the model has a handler for is answered, and where it still waits for
  -- a token: it moves the mode at most from NORMAL to DEGRADED, and as many tokens of the database's
  -- semaphore are held after it as before.
  pub call-Keeps :
      (req : CallReq) (n n' : Node Db) (resp : Option CallResp)
      → call w v req n ≡ some (n', resp)
      → Keeps n n'
  unfolding call
  call-Keeps req n n' resp h =
      let m = method_of (v.strings.trim_space req.method) in
      answered-Keeps req (handler w v m req) n n' resp (handler_steps m req) h
