-- ===== src/Api/Tests.antt =====
-- Two requests for the details of a user, whose envelopes carry other session ids.
use apipro.Base.{
  ℕ, ◌+◌, ◌≡◌, refl, [], ◌∷◌, Text, codes, ok, err, arith, replicate, length, pos, Result, false,
  Bool-cases, inl, inr,
}
use apipro.Api.{CallResp, user_detail, encrypted}
use apipro.Api.Kaptcha.{
  Setnx, cooldown, code_from, gen_kaptcha_code, kaptcha_handler, kaptcha_blocked,
}
use apipro.Redis.Memory.{Db, next, memory, memory_laws}
use apipro.Api.Lost.{session_lost}
use apipro.Codec.{encode_frame, encrypt, pkcs7_pad, ecb_encrypt, ecb_rounds, put_uint32}
use apipro.Codec.Shift.{up, shift, shift-AesLaws}
use apipro.Codec.Transport.{
  TransportConfig, Library, Request, PlainResp, context_of, try_parse_envelope, transport,
}
use apipro.Rpc.Call.{CallReq}

-- The whole text is the session id.
abbrev lib : Library
lib = record {
  unmarshal_envelope =
      λ s. ok record { session_id = s; seq = pos 1; plat = []; param = codes "{}" };
  unmarshal_resp = λ s. err 1;
  marshal = λ pr. ok pr.result;
  atoi = λ s. err 1;
}

abbrev cfg : TransportConfig
cfg = record { request_key = codes "PHp1st5vEg5Ca8FH"; response_key = codes "0123456789abcdef" }

abbrev encode : PlainResp → Text
encode pr = pr.result

abbrev cli : CallReq → ℕ → ℕ × Result ℕ CallResp
cli req calls = (calls + 1 + length req.session_id, err 1)

abbrev frame_with : ℕ → Text
frame_with c = 0x00 ∷ 0xA0 ∷ 0 ∷ 0 ∷ 0 ∷ 16 ∷ 124 ∷ c ∷ replicate 14 15

abbrev request : Text → Request
request body = record { read_all = λ n. ok body; x_session = []; x_plat = []; x_seq = [] }

framed_a : encode_frame shift (codes "{a") cfg.request_key ≡ ok (frame_with 98)
unfolding encode_frame encrypt pkcs7_pad ecb_encrypt ecb_rounds put_uint32 up
framed_a = refl

framed_b : encode_frame shift (codes "{b") cfg.request_key ≡ ok (frame_with 99)
unfolding encode_frame encrypt pkcs7_pad ecb_encrypt ecb_rounds put_uint32 up
framed_b = refl

same :
    (context_of lib (request (frame_with 98)) (codes "{a")).param
    ≡ (context_of lib (request (frame_with 99)) (codes "{b")).param
unfolding context_of try_parse_envelope
same = refl

session_lost_example :
    (transport lib shift cfg
      (encrypted lib encode cli user_detail (request (frame_with 98)))
      (request (frame_with 98))
      0).0
    ≡ (transport lib shift cfg
        (encrypted lib encode cli user_detail (request (frame_with 99)))
        (request (frame_with 99))
        0).0
session_lost_example =
    session_lost lib encode cli shift cfg user_detail (request (frame_with 98))
      (request (frame_with 99)) 0 (codes "{a") (codes "{b") (frame_with 98) (frame_with 99)
      shift-AesLaws refl (omega arith, omega arith) (omega arith, omega arith) framed_a framed_b
      refl refl refl same

-- Redis without a failure, and bytes that give the code CCCCC.
abbrev empty : Db
empty = record { texts = λ k. []; windows = λ k. []; fails = [] }

setnx : Setnx memory (λ i. 2) memory_laws
setnx k v t db b e h = elim (Bool-cases (next db.fails).0) [
  | inl f ↦ ground (arith, e, f, h)
  | inr f ↦ ground (arith, e, f, h)
]

abbrev blocked : Db
unfolding kaptcha_handler gen_kaptcha_code code_from
blocked = (kaptcha_handler memory (λ i. 2) (codes "cd:138") empty).0

kaptcha_blocked_example :
    (length (codes "CCCCC") ≡ 5)
    × ((kaptcha_handler memory (λ i. 2) (codes "138") blocked).1 ≡ cooldown)
unfolding blocked kaptcha_handler gen_kaptcha_code code_from
kaptcha_blocked_example =
    kaptcha_blocked memory (λ i. 2) memory_laws 49 (codes "38") empty blocked (codes "CCCCC") false
      setnx refl refl refl
