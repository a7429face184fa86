-- ===== src/Rpc/Served.antt =====
-- What every call, whether it shows or works on an account, keeps of the node.
use apipro.Base.{refl, inl, List, Result, ok, err}
use apipro.Cache
use apipro.Cache.{Stats, Task}
use apipro.Fallback.{Counters}
use apipro.Rpc.Call.{
  CallReq, Method, login, register, guest_login, refresh, logout, user_detail, sms_get_code,
  sms_check_code, display, unknown,
}
use apipro.Rpc.Calls.{responded-Keeps, Steps-refresh}
use apipro.Rpc.Invariant.{
  Steps-login, Steps-register, Steps-guest_login, Steps-logout, Steps-user_detail,
  Steps-sms_get_code, Steps-sms_check_code,
}
use apipro.Rpc.Keeps.{Keeps, Steps, Steps-exit}
use apipro.Rpc.Node.{Services, Node, M}
use apipro.Rpc.Pages.{Page}
use apipro.Rpc.Show.{Refused, Shelf, show}
use apipro.Rpc.Whole.{Whole, cache_node, shown, run, switch, whole_call}
use apipro.Rpc.{code_business_error}
use apipro.Rpc.Wire.{Reply, refusal, unknown_method}
use apipro.Session.Env.{World}

module _ (w : World) (v : Services w) {Json : Type 0} (shelf : Shelf w.redis Json) where
  open w use {redis}
  open redis use {Db}

  run-Keeps :
      (req : CallReq) (s : Whole Db) (handle : M Db Reply)
      → Steps handle
      → Keeps s.node (run w v shelf req s handle).0.node
  run-Keeps req s handle h = responded-Keeps w v req s.node (handle s.node) (h.keeps s.node)

  shown-Keeps :
      (req : CallReq) (s : Whole Db) (p : Cache.Node Db × Result Refused Page)
      → Keeps s.node (shown req s p).0.node
  shown-Keeps req s (c, ok page) = (inl refl, refl)
  shown-Keeps req s (c, err (code, meg)) = (inl refl, refl)

  switch-Keeps :
      (m : Method) (req : CallReq) (s : Whole Db) → Keeps s.node (switch w v shelf m req s).0.node
  switch-Keeps (display d) req s =
      shown-Keeps req s (show redis shelf s.node.degrade d req.param_json (cache_node s))
  switch-Keeps login req s = run-Keeps req s _ (Steps-login w v req.param_json)
  switch-Keeps register req s = run-Keeps req s _ (Steps-register w v req.param_json)
  switch-Keeps guest_login req s = run-Keeps req s _ (Steps-guest_login w v req.param_json)
  switch-Keeps refresh req s = run-Keeps req s _ (Steps-refresh w v req.param_json)
  switch-Keeps logout req s = run-Keeps req s _ (Steps-logout w v req.session_id)
  switch-Keeps user_detail req s = run-Keeps req s _ (Steps-user_detail w v req.session_id)
  switch-Keeps sms_get_code req s = run-Keeps req s _ (Steps-sms_get_code w v req.param_json)
  switch-Keeps sms_check_code req s = run-Keeps req s _ (Steps-sms_check_code w v req.param_json)
  switch-Keeps unknown req s = run-Keeps req s _ (
      Steps-exit
        {e = refusal code_business_error (unknown_method (v.strings.trim_space req.method))})

  -- Any call of any method moves the mode at most from NORMAL to DEGRADED and holds as many tokens of the
  -- database's semaphore after it as before.
  pub whole_call-Keeps :
      (req : CallReq) (s : Whole Db) → Keeps s.node (whole_call w v shelf req s).0.node
  unfolding whole_call
  whole_call-Keeps req s = switch-Keeps _ req s

  -- A later state of a node, after any calls of any methods, with any state of the cache manager.
  pub data Later (n : Node Db) : Node Db → Type 0 where
    now : Later n n
    then_ :
        {m : Node Db}
        → Later n m
        → (req : CallReq) (stats : Stats) (counters : Counters) (pending : List Task)
        → Later n
            (whole_call w v shelf req
              (record { node = m; stats = stats; counters = counters; pending = pending })).0.node
