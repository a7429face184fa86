-- ===== src/Api.antt =====
-- cmd/api/internal/handler/encrypted.go: the encrypted endpoints, which pass a request on to the RPC, and the
-- picture with a code. The connection to the RPC is a parameter, as is encoding/json.
pub mod Lost
pub mod Kaptcha
mod Tests
use apipro.Base.{ℕ, [], Text, ℤ, pos, Result, ok, err, codes, Option, none, some}
use apipro.Codec.Transport.{Library, PlainResp, Context, Request, marshalled}
use apipro.Rpc.Call.{CallReq}

-- A response of the RPC as it comes over the wire.
pub record CallResp : Type 0 where
  pub seq : ℤ
  pub new_session_id : Text
  pub code : ℤ
  pub meg : Text
  pub result : Text

pub data Route : Type 0 where
  login register guest_login refresh logout live_hot live_cate_list live_detail match_recommend
        match_cate_list match_detail user_detail sms_get_code :
      Route

module _ (lib : Library) where
  -- `WriteResp`, whose result is already marshalled, and `WriteErr`.
  unfoldable pub write_resp : ℤ → Text → Option (Result ℕ Text) → Text
  write_resp code meg none =
      marshalled lib record { code = code; meg = meg; seq = pos 0; new_session = []; result = [] }
  write_resp code meg (some (err e)) = codes "{\"code\":500,\"meg\":\"marshal error\"}"
  write_resp code meg (some (ok raw)) =
      marshalled lib record { code = code; meg = meg; seq = pos 0; new_session = []; result = raw }

  unfoldable pub write_err : ℤ → Text → Text
  unfolding write_resp
  write_err code meg = write_resp code meg none

-- What `json.NewEncoder` writes of the map with the fields that are not empty.
module _ {W : Type 0} (lib : Library) (encode : PlainResp → Text)
    (cli : CallReq → W → W × Result ℕ CallResp) where
  abbrev pub write_envelope : CallResp → Text
  write_envelope resp = encode record {
    code = resp.code;
    meg = resp.meg;
    seq = resp.seq;
    new_session = resp.new_session_id;
    result = resp.result;
  }

  abbrev pub answered : W × Result ℕ CallResp → W × Text
  answered (s, ok resp) = (s, write_envelope resp)
  answered (s, err e) = (s, write_err lib (pos 500) (codes "rpc unavailable"))

  -- `callRPC`, whose session is the one of the header, and the answer.
  unfoldable pub call_rpc : Text → Text → Request → W → W × Text
  call_rpc method param_json r s = answered (
      cli record { seq = pos 0; method = method; session_id = r.x_session; param_json = param_json }
        s)

  abbrev Handler : Type 0
  Handler = Request → Context → W → W × Text

  -- `readParamBody` behind the middleware, which always sets the param.
  unfoldable pub login_handler : Handler
  unfolding call_rpc
  login_handler r ctx = call_rpc (codes "login") ctx.param r

  unfoldable pub register_handler : Handler
  unfolding call_rpc
  register_handler r ctx = call_rpc (codes "register") ctx.param r

  unfoldable pub guest_login_handler : Handler
  unfolding call_rpc
  guest_login_handler r ctx = call_rpc (codes "guestLogin") ctx.param r

  unfoldable pub refresh_handler : Handler
  unfolding call_rpc
  refresh_handler r ctx = call_rpc (codes "refresh") ctx.param r

  unfoldable pub logout_handler : Handler
  unfolding call_rpc
  logout_handler r ctx = call_rpc (codes "logout") ctx.param r

  unfoldable pub live_hot_handler : Handler
  unfolding call_rpc
  live_hot_handler r ctx = call_rpc (codes "live_hot") (codes "{}") r

  unfoldable pub live_cate_list_handler : Handler
  unfolding call_rpc
  live_cate_list_handler r ctx = call_rpc (codes "live_cateList") ctx.param r

  unfoldable pub live_detail_handler : Handler
  unfolding call_rpc
  live_detail_handler r ctx = call_rpc (codes "live_detail") ctx.param r

  unfoldable pub match_recommend_handler : Handler
  unfolding call_rpc
  match_recommend_handler r ctx = call_rpc (codes "match_recommend") (codes "{}") r

  unfoldable pub match_cate_list_handler : Handler
  unfolding call_rpc
  match_cate_list_handler r ctx = call_rpc (codes "match_cateList") (codes "{}") r

  unfoldable pub match_detail_handler : Handler
  unfolding call_rpc
  match_detail_handler r ctx = call_rpc (codes "match_detail") ctx.param r

  unfoldable pub user_detail_handler : Handler
  unfolding call_rpc
  user_detail_handler r ctx = call_rpc (codes "user_detail") (codes "{}") r

  unfoldable pub sms_get_code_handler : Handler
  unfolding call_rpc
  sms_get_code_handler r ctx = call_rpc (codes "sms_getCode") ctx.param r

  -- The routes that are wrapped in the middleware.
  unfoldable pub encrypted : Route → Handler
  unfolding login_handler register_handler guest_login_handler refresh_handler logout_handler
      live_hot_handler live_cate_list_handler live_detail_handler match_recommend_handler
      match_cate_list_handler match_detail_handler user_detail_handler sms_get_code_handler
  encrypted login = login_handler
  encrypted register = register_handler
  encrypted guest_login = guest_login_handler
  encrypted refresh = refresh_handler
  encrypted logout = logout_handler
  encrypted live_hot = live_hot_handler
  encrypted live_cate_list = live_cate_list_handler
  encrypted live_detail = live_detail_handler
  encrypted match_recommend = match_recommend_handler
  encrypted match_cate_list = match_cate_list_handler
  encrypted match_detail = match_detail_handler
  encrypted user_detail = user_detail_handler
  encrypted sms_get_code = sms_get_code_handler
