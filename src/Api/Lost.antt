-- ===== src/Api/Lost.antt =====
-- The session id of the envelope, which the encrypted endpoints do not read.
use apipro.Base.{ℕ, ◌^◌, ◌*◌, ◌<◌, ◌≡◌, refl, sym, ap, ◌∙◌, Text, length, Result, ok}
use apipro.Api.{
  CallResp, Route, login, register, guest_login, refresh, logout, live_hot, live_cate_list,
  live_detail, match_recommend, match_cate_list, match_detail, user_detail, sms_get_code, call_rpc,
  encrypted,
}
use apipro.Codec.{encode_frame}
use apipro.Codec.Cipher.{Aes, AesLaws, Bytes}
use apipro.Codec.Exchange.{transport_run}
use apipro.Codec.Transport.{
  TransportConfig, PlainResp, Context, Library, Request, context_of, transport,
}
use apipro.Rpc.Call.{CallReq}

module _ {W : Type 0} (lib : Library) (encode : PlainResp → Text)
    (cli : CallReq → W → W × Result ℕ CallResp) where
  same_param :
      (route : Route) (r r' : Request) (ctx ctx' : Context) (s : W)
      → r.x_session ≡ r'.x_session
      → ctx.param ≡ ctx'.param
      → encrypted lib encode cli route r ctx s ≡ encrypted lib encode cli route r' ctx' s
  unfolding encrypted call_rpc
  same_param login r r' ctx ctx' s x p = rw (x, p) refl
  same_param register r r' ctx ctx' s x p = rw (x, p) refl
  same_param guest_login r r' ctx ctx' s x p = rw (x, p) refl
  same_param refresh r r' ctx ctx' s x p = rw (x, p) refl
  same_param logout r r' ctx ctx' s x p = rw (x, p) refl
  same_param live_hot r r' ctx ctx' s x p = rw x refl
  same_param live_cate_list r r' ctx ctx' s x p = rw (x, p) refl
  same_param live_detail r r' ctx ctx' s x p = rw (x, p) refl
  same_param match_recommend r r' ctx ctx' s x p = rw x refl
  same_param match_cate_list r r' ctx ctx' s x p = rw x refl
  same_param match_detail r r' ctx ctx' s x p = rw (x, p) refl
  same_param user_detail r r' ctx ctx' s x p = rw x refl
  same_param sms_get_code r r' ctx ctx' s x p = rw (x, p) refl

  -- Two framed requests with the same session header, whose plain texts give the same param, have the
  -- same effect behind every encrypted endpoint, whatever session ids their envelopes carry.
  pub session_lost :
      (aes : Aes) (cfg : TransportConfig) (route : Route) (r r' : Request) (s : W)
      (plain plain' raw raw' : Text)
      → AesLaws aes
      → length cfg.request_key ≡ 16
      → Bytes plain × (length plain < 2 ^ 31)
      → Bytes plain' × (length plain' < 2 ^ 31)
      → encode_frame aes plain cfg.request_key ≡ ok raw
      → encode_frame aes plain' cfg.request_key ≡ ok raw'
      → r.read_all (8 * 1024 * 1024) ≡ ok raw
      → r'.read_all (8 * 1024 * 1024) ≡ ok raw'
      → r.x_session ≡ r'.x_session
      → (context_of lib r plain).param ≡ (context_of lib r' plain').param
      → (transport lib aes cfg (encrypted lib encode cli route r) r s).0
        ≡ (transport lib aes cfg (encrypted lib encode cli route r') r' s).0
  session_lost aes cfg route r r' s plain plain' raw raw' laws sized b b' e e' h h' x p =
      ap (λ q. q.0)
        (transport_run lib aes cfg laws (encrypted lib encode cli route r) r s sized plain raw b.0
          b.1 e h)
      ∙ ap (λ q. q.0) (same_param route r r' _ _ s x p)
      ∙ sym (
          ap (λ q. q.0)
            (transport_run lib aes cfg laws (encrypted lib encode cli route r') r' s sized plain'
              raw' b'.0 b'.1 e' h'))
