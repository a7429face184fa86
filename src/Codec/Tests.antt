-- ===== src/Codec/Tests.antt =====
-- The theorems at concrete frames.
use apipro.Base.{ℕ, ◌+◌, ◌≡◌, ◌↔◌, refl, [], ◌∷◌, Text, codes, ok, err, arith, replicate, ◌++◌}
use apipro.Codec.{
  padding, length_mismatch, not_multiple, decrypt, invalid_frame, pkcs7_pad, pkcs7_unpad,
  block_size, encrypt, encode_frame, decode_frame, ecb_encrypt, ecb_rounds, put_uint32, get_uint32,
  has_magic,
}
use apipro.Codec.Exchange.{Sent, transport_exchange, transport_refused}
use apipro.Codec.Transport.{
  TransportConfig, Context, Library, Request, context_of, try_parse_envelope, build_envelope,
  opened, transport,
}
use apipro.Codec.Frame.{encode-decode_frame_iff}
use apipro.Codec.Shift.{up, shift, shift-AesLaws}

abbrev request_key : Text
request_key = codes "PHp1st5vEg5Ca8FH"

abbrev payload : Text
payload = codes "{}"

abbrev frame : Text
frame = 0x00 ∷ 0xA0 ∷ 0 ∷ 0 ∷ 0 ∷ 16 ∷ 124 ∷ 126 ∷ replicate 14 15

frame_of_payload : encode_frame shift payload request_key ≡ ok frame
unfolding encode_frame encrypt pkcs7_pad ecb_encrypt ecb_rounds put_uint32 up
frame_of_payload = refl

bad_padding : pkcs7_unpad (replicate 15 1 ++ 2 ∷ []) block_size ≡ err padding
unfolding pkcs7_unpad
bad_padding = refl

wrong_length : decode_frame shift (frame ++ 0 ∷ []) request_key ≡ err length_mismatch
unfolding decode_frame has_magic get_uint32
wrong_length = refl

too_short : decode_frame shift (0x00 ∷ 0xA0 ∷ []) request_key ≡ err invalid_frame
unfolding decode_frame
too_short = refl

encode-decode_frame_iff_example :
    (encode_frame shift payload request_key ≡ ok frame)
    ↔ (decode_frame shift frame request_key ≡ ok payload)
encode-decode_frame_iff_example =
    encode-decode_frame_iff shift request_key payload frame shift-AesLaws refl (omega arith)
      (omega arith) (omega arith)

-- A library for which no text is an envelope, and a handler that counts its runs and echoes.
abbrev lib : Library
lib = record {
  unmarshal_envelope = λ s. err 1;
  unmarshal_resp = λ s. err 1;
  marshal = λ pr. ok pr.result;
  atoi = λ s. err 1;
}

abbrev echo : Context → ℕ → ℕ × Text
echo ctx runs = (runs + 1, ctx.param)

abbrev cfg : TransportConfig
cfg = record { request_key = request_key; response_key = codes "0123456789abcdef" }

abbrev request : Text → Request
request body = record { read_all = λ n. ok body; x_session = []; x_plat = []; x_seq = [] }

transport_exchange_example :
    ((transport lib shift cfg echo (request frame) 4).0 ≡ 5)
    × Sent lib shift cfg shift-AesLaws payload (transport lib shift cfg echo (request frame) 4).1
unfolding context_of try_parse_envelope build_envelope
transport_exchange_example =
    transport_exchange lib shift cfg shift-AesLaws echo (request frame) 4 refl refl payload frame
      (omega arith) (omega arith) frame_of_payload refl (omega arith) (omega arith)

not_opened : opened shift cfg (0x00 ∷ 0xA0 ∷ []) ≡ err not_multiple
unfolding opened has_magic decode_frame decrypt
not_opened = refl

transport_refused_example :
    ((transport lib shift cfg echo (request (0x00 ∷ 0xA0 ∷ [])) 4).0 ≡ 4)
    × Sent lib shift cfg shift-AesLaws []
        (transport lib shift cfg echo (request (0x00 ∷ 0xA0 ∷ [])) 4).1
transport_refused_example =
    transport_refused lib shift cfg shift-AesLaws echo (request (0x00 ∷ 0xA0 ∷ [])) 4 refl refl
      (0x00 ∷ 0xA0 ∷ []) not_multiple refl not_opened tt (omega arith)
