-- ===== src/Rpc/Whole.antt =====
-- `Call` on a whole node: the accounts of Rpc.Call and the methods that show of Rpc.Show, which share the
-- environment, the mode and its watchers.
use apipro.Base.{ℕ, List, Text, ℤ, Option, none, some, Result, ok, err}
use apipro.Cache
use apipro.Cache.{Stats, Task}
use apipro.Fallback.{Counters}
use apipro.Rpc.{code_ok, code_business_error}
use apipro.Rpc.Call.{
  CallReq, CallResp, Method, login, register, guest_login, refresh, logout, user_detail,
  sms_get_code, sms_check_code, display, unknown, method_of, responded,
}
use apipro.Rpc.Account.{handle_guest_login, handle_refresh, handle_logout, handle_user_detail}
use apipro.Rpc.Auth.{handle_login}
use apipro.Rpc.Codes.{handle_sms_get_code, handle_sms_check_code}
use apipro.Rpc.Node.{Services, Node, M, exit}
use apipro.Rpc.Register.{handle_register}
use apipro.Rpc.Pages.{Page}
use apipro.Rpc.Show.{Refused, Shelf, show}
use apipro.Rpc.Wire.{Message, no_message, unknown_method, Payload, Reply, refusal}
use apipro.Session.Env.{World}

-- The node with what the cache manager keeps in it.
pub record Whole (Db : Type 0) : Type 0 where
  pub node : Node Db
  pub stats : Stats
  pub counters : Counters
  pub pending : List Task

-- What is encoded as the result; nothing where a page is refused.
pub data Body : Type 0 where
  nothing : Body
  payload : Payload → Body
  page : Page → Body

pub record Response : Type 0 where
  pub seq : ℤ
  pub new_session_id : Text
  pub code : ℕ
  pub meg : Message
  pub result : Body

abbrev widened : Option CallResp → Option Response
widened none = none
widened (some resp) = some record {
  seq = resp.seq;
  new_session_id = resp.new_session_id;
  code = resp.code;
  meg = resp.meg;
  result = payload resp.result;
}

module _ {Db : Type 0} where
  abbrev pub cache_node : Whole Db → Cache.Node Db
  cache_node s = record {
    db = s.node.db;
    stats = s.stats;
    counters = s.counters;
    pending = s.pending;
  }

  abbrev pub with_cache : Whole Db → Cache.Node Db → Whole Db
  with_cache s c = record {
    node = record (s.node) { db = c.db };
    stats = c.stats;
    counters = c.counters;
    pending = c.pending;
  }

  -- The answer of a method that shows.
  abbrev pub shown :
      CallReq → Whole Db → Cache.Node Db × Result Refused Page → Whole Db × Option Response
  shown req s (c, ok p) = (
    with_cache s c,
    some record {
      seq = req.seq;
      new_session_id = req.session_id;
      code = code_ok;
      meg = no_message;
      result = page p;
    },
  )
  shown req s (c, err (code, meg)) = (
    with_cache s c,
    some record {
      seq = req.seq;
      new_session_id = req.session_id;
      code = code;
      meg = meg;
      result = nothing;
    },
  )

  -- The answer of a method of accounts.
  abbrev pub accounted : Whole Db → Node Db × Option CallResp → Whole Db × Option Response
  accounted s (n, resp) = (record s { node = n }, widened resp)

module _ (w : World) (v : Services w) {Json : Type 0} (shelf : Shelf w.redis Json) where
  open w use {redis}
  open redis use {Db}

  abbrev pub run : CallReq → Whole Db → M Db Reply → Whole Db × Option Response
  run req s handle = accounted s (responded w v req (handle s.node))

  -- The `switch`; the handlers that show read the cache, whatever account the session is of.
  abbrev pub switch : Method → CallReq → Whole Db → Whole Db × Option Response
  switch (display d) req s =
      shown req s (show redis shelf s.node.degrade d req.param_json (cache_node s))
  switch login req s = run req s (handle_login w v req.param_json)
  switch register req s = run req s (handle_register w v req.param_json)
  switch guest_login req s = run req s (handle_guest_login w v req.param_json)
  switch refresh req s = run req s (handle_refresh w v req.param_json)
  switch logout req s = run req s (handle_logout w v req.session_id)
  switch user_detail req s = run req s (handle_user_detail w v req.session_id)
  switch sms_get_code req s = run req s (handle_sms_get_code w v req.param_json)
  switch sms_check_code req s = run req s (handle_sms_check_code w v req.param_json)
  switch unknown req s =
      run req s
        (exit (refusal code_business_error (unknown_method (v.strings.trim_space req.method))))

  -- The response, or `none` while the call waits for a token.
  unfoldable pub whole_call : CallReq → Whole Db → Whole Db × Option Response
  whole_call req s = switch (method_of (v.strings.trim_space req.method)) req s
