-- ===== src/Rpc/Call.antt =====
-- `Call`: the dispatch by the name of the method. It names the methods that show matches,
-- lives and rooms, and their handlers, which read through the cache manager, are in Rpc.Show.
use apipro.Base.{ℕ, Text, ℤ, Option, none, some, Result, ok, err, text_eq, codes, if◌then◌else◌}
use apipro.Rpc.{code_business_error}
use apipro.Rpc.Account.{handle_guest_login, handle_refresh, handle_logout, handle_user_detail}
use apipro.Rpc.Auth.{handle_login}
use apipro.Rpc.Codes.{handle_sms_get_code, handle_sms_check_code}
use apipro.Rpc.Node.{Services, Node, M, exit}
use apipro.Rpc.Register.{handle_register}
use apipro.Rpc.Wire.{Reply, Payload, Message, Exit, parked, replied, refusal, unknown_method}
use apipro.Session.Env.{World}

pub record CallReq : Type 0 where
  pub seq : ℤ
  pub method : Text
  pub session_id : Text
  pub param_json : Text

pub record CallResp : Type 0 where
  pub seq : ℤ
  pub new_session_id : Text
  pub code : ℕ
  pub meg : Message
  pub result : Payload

pub data Display : Type 0 where
  matches_jsonp match_recommend match_detail match_by_date : Display
  live_all_rooms live_types live_cate_list live_hot live_detail : Display
  room_detail room_schedule room_gift_rank : Display

pub data Method : Type 0 where
  login register guest_login refresh logout user_detail sms_get_code sms_check_code : Method
  display : Display → Method
  unknown : Method

-- The cases of the `switch` for display.
unfoldable pub display_method : Text → Method
display_method name =
    if text_eq name (codes "matches_jsonp")
    then display matches_jsonp
    else if text_eq name (codes "match_recommend")
    then display match_recommend
    else if text_eq name (codes "match_cateList")
    then display match_recommend
    else if text_eq name (codes "match_detail")
    then display match_detail
    else if text_eq name (codes "match_byDate")
    then display match_by_date
    else if text_eq name (codes "live_all_rooms")
    then display live_all_rooms
    else if text_eq name (codes "live_types")
    then display live_types
    else if text_eq name (codes "live_cateList")
    then display live_cate_list
    else if text_eq name (codes "live_hot")
    then display live_hot
    else if text_eq name (codes "live_detail")
    then display live_detail
    else if text_eq name (codes "room_detail")
    then display room_detail
    else if text_eq name (codes "room_schedule")
    then display room_schedule
    else if text_eq name (codes "room_gift_rank")
    then display room_gift_rank
    else unknown

unfoldable pub method_of : Text → Method
unfolding display_method
method_of name =
    if text_eq name (codes "login")
    then login
    else if text_eq name (codes "register")
    then register
    else if text_eq name (codes "guestLogin")
    then guest_login
    else if text_eq name (codes "refresh")
    then refresh
    else if text_eq name (codes "logout")
    then logout
    else if text_eq name (codes "user_detail")
    then user_detail
    else if text_eq name (codes "sms_getCode")
    then sms_get_code
    else if text_eq name (codes "sms_checkCode")
    then sms_check_code
    else display_method name

module _ (w : World) (v : Services w) where
  open w use {redis}
  open redis use {Db}

  -- The handler of a method; `none` for the ones that show.
  unfoldable pub handler : Method → CallReq → Option (M Db Reply)
  handler login req = some (handle_login w v req.param_json)
  handler register req = some (handle_register w v req.param_json)
  handler guest_login req = some (handle_guest_login w v req.param_json)
  handler refresh req = some (handle_refresh w v req.param_json)
  handler logout req = some (handle_logout w v req.session_id)
  handler user_detail req = some (handle_user_detail w v req.session_id)
  handler sms_get_code req = some (handle_sms_get_code w v req.param_json)
  handler sms_check_code req = some (handle_sms_check_code w v req.param_json)
  handler (display d) req = none
  handler unknown req =
      some (exit (refusal code_business_error (unknown_method (v.strings.trim_space req.method))))

  abbrev response : CallReq → Reply → CallResp
  response req reply = record {
    seq = req.seq;
    new_session_id = req.session_id;
    code = reply.code;
    meg = reply.meg;
    result = reply.payload;
  }

  -- The reply, or `none` while the call waits for a token.
  abbrev pub responded : CallReq → Node Db × Result Exit Reply → Node Db × Option CallResp
  responded req (n, ok reply) = (n, some (response req reply))
  responded req (n, err (replied reply)) = (n, some (response req reply))
  responded req (n, err parked) = (n, none)

  -- The session id of the response is the request's, whatever the code is.
  unfoldable pub call : CallReq → Node Db → Option (Node Db × Option CallResp)
  call req n = elim (handler (method_of (v.strings.trim_space req.method)) req) [
    | none ↦ none
    | some handle ↦ some (responded req (handle n))
  ]
