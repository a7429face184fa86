-- ===== src/Codec/Exchange.antt =====
-- What a client of the middleware gets that shares its two keys.
use apipro.Base.{
  ◌*◌, ◌%◌, ◌^◌, ◌<◌, ◌≡◌, refl, sym, ap, subst, true, ◌&&◌, [], ◌∷◌, ◌++◌, Text, pos, length, leb,
  arith, ok, err, codes,
}
use apipro.Codec.{
  Error, frame_byte0, frame_byte1, frame_header_len, put_uint32, has_magic, block_size, pkcs7_pad,
  ecb_encrypt, encode_frame, decode_frame,
}
use apipro.Codec.Blocks.{encrypt_lem, length-encrypt}
use apipro.Codec.Cipher.{Aes, AesLaws, Bytes}
use apipro.Codec.Frame.{encode-decode_frame_iff}
use apipro.Codec.Transport.{
  TransportConfig, PlainResp, Context, Library, Request, Response, written, context_of, marshalled,
  build_envelope, framed, abort_encrypted, opened, respond, handled, transport,
}

module _ (aes : Aes) (key : Text) (laws : AesLaws aes) (sized : length key ≡ 16) where
  -- A text of bytes below 2 ^ 31 has a frame, which decodes to it.
  abbrev Carried : Text → Type 0
  Carried p =
      (ct : Text) × (encode_frame aes p key ≡ ok ct)
      × (decode_frame aes ct key ≡ ok p)
      × ((leb frame_header_len (length ct) && has_magic ct) ≡ true)

  carried : (p : Text) → Bytes p → length p < 2 ^ 31 → Carried p
  unfolding encode_frame put_uint32 has_magic
  carried p b short =
      let body = ecb_encrypt aes key (pkcs7_pad p block_size) in
      let enc = encrypt_lem aes laws key sized p in
      let (size, bytes) = length-encrypt aes laws key sized p body b enc in
      let n = length body % 2 ^ 32 in
      let raw = frame_byte0 ∷ frame_byte1 ∷ (put_uint32 n ++ body) in
      let made : encode_frame aes p key ≡ ok raw = rw enc refl in
      let all : Bytes raw = (
        omega arith,
        (omega arith, (omega arith, (omega arith, (omega arith, (omega arith, bytes))))),
      ) in
      (
        raw,
        made,
        (encode-decode_frame_iff aes key p raw laws sized b all (omega (arith, size))).0 made,
        ground arith,
      )

module _ (lib : Library) (aes : Aes) (cfg : TransportConfig) (laws : AesLaws aes) where
  -- A response that is the frame of a text under the response key.
  abbrev pub Sent : Text → Response → Type 0
  Sent p res = (ct : Text) × (res ≡ written ct) × (decode_frame aes ct cfg.response_key ≡ ok p)

  sent :
      (p : Text)
      → length cfg.response_key ≡ 16
      → Bytes p
      → length p < 2 ^ 31
      → Sent p (framed (encode_frame aes p cfg.response_key))
  sent p sized b short =
      let (ct, made, back, magic) = carried aes cfg.response_key laws sized p b short in
      (ct, ap framed made, back)

  opened_frame :
      (plain raw : Text)
      → length cfg.request_key ≡ 16
      → Bytes plain
      → length plain < 2 ^ 31
      → encode_frame aes plain cfg.request_key ≡ ok raw
      → opened aes cfg raw ≡ ok plain
  unfolding opened
  opened_frame plain raw sized b short e =
      let (ct, made, back, magic) = carried aes cfg.request_key laws sized plain b short in
      let same : ct ≡ raw = cc (made, e) in
      subst (λ t. opened aes cfg t ≡ ok plain) same (rw magic back)

  pub transport_run :
      {W : Type 0} (next : Context → W → W × Text) (r : Request) (s : W)
      → length cfg.request_key ≡ 16
      → (plain raw : Text) → Bytes plain
      → length plain < 2 ^ 31
      → encode_frame aes plain cfg.request_key ≡ ok raw
      → r.read_all (8 * 1024 * 1024) ≡ ok raw
      → transport lib aes cfg next r s
        ≡ respond lib aes cfg next (context_of lib r plain) (next (context_of lib r plain) s)
  unfolding transport
  transport_run next r s sized plain raw b short e body =
      rw (body, opened_frame plain raw sized b short e) refl

  module _ {W : Type 0} (next : Context → W → W × Text) (r : Request) (s : W)
      (request_sized : length cfg.request_key ≡ 16)
      (response_sized : length cfg.response_key ≡ 16) where
    -- The state and the bytes that the handler leaves, and the envelope around the bytes.
    abbrev pub ran : Text → W × Text
    ran plain = next (context_of lib r plain) s

    abbrev pub reply : Text → Text
    reply plain =
        let ctx = context_of lib r plain in build_envelope lib (ran plain).1 ctx.seq ctx.session_id

    -- A request that reaches the middleware as the frame of a plain text under the request key runs the
    -- handler once, on the context that the plain text and the headers give, and is answered by a frame
    -- under the response key that decodes to the envelope around what the handler wrote; plain text and
    -- envelope are bytes shorter than 2 ^ 31, the keys have 16 bytes, and the frame is read whole.
    pub transport_exchange :
        (plain raw : Text)
        → Bytes plain
        → length plain < 2 ^ 31
        → encode_frame aes plain cfg.request_key ≡ ok raw
        → r.read_all (8 * 1024 * 1024) ≡ ok raw
        → Bytes (reply plain)
        → length (reply plain) < 2 ^ 31
        → ((transport lib aes cfg next r s).0 ≡ (ran plain).0)
          × Sent (reply plain) (transport lib aes cfg next r s).1
    transport_exchange plain raw b short e body b' short' =
        let run : transport lib aes cfg next r s
            ≡ respond lib aes cfg next (context_of lib r plain) (ran plain) =
          transport_run next r s request_sized plain raw b short e body in
        (
          ap (λ p. p.0) run,
          subst (Sent (reply plain)) (sym (ap (λ p. p.1) run))
              (sent (reply plain) response_sized b' short'),
        )

    -- The answer to a body that is refused.
    abbrev pub refusal : PlainResp
    refusal = record {
      code = pos 101;
      meg = codes "invalid encrypted request";
      seq = pos 0;
      new_session = [];
      result = [];
    }

    -- A body that decrypts neither as a frame nor raw never reaches the handler: nothing changes, and the
    -- answer is a frame under the response key that decodes to the envelope of code 101.
    pub transport_refused :
        (body : Text) (e : Error)
        → r.read_all (8 * 1024 * 1024) ≡ ok body
        → opened aes cfg body ≡ err e
        → Bytes (marshalled lib refusal)
        → length (marshalled lib refusal) < 2 ^ 31
        → ((transport lib aes cfg next r s).0 ≡ s)
          × Sent (marshalled lib refusal) (transport lib aes cfg next r s).1
    unfolding transport abort_encrypted
    transport_refused body e read bad b short =
        let run : transport lib aes cfg next r s ≡ handled lib aes cfg next r s (err e) =
          rw (read, bad) refl in
        (
          ap (λ p. p.0) run,
          subst (Sent _) (sym (ap (λ p. p.1) run)) (sent _ response_sized b short),
        )
