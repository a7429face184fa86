-- ===== src/Codec/Frame.antt =====
-- The 6-byte header before the ciphertext.
use mathlib.Core.Path.{ap₂}
use apipro.Base.{
  ℕ, ◌+◌, ◌%◌, ◌^◌, ◌<◌, ◌≡◌, ◌↔◌, refl, sym, ap, ◌∙◌, subst, [], ◌∷◌, ◌++◌, Text, length, arith,
  ok,
}
use apipro.Codec.{
  frame_byte0, frame_byte1, put_uint32, get_uint32, has_magic, block_size, pkcs7_pad, ecb_encrypt,
  encrypt, decrypt, encode_frame, decode_frame,
}
use apipro.Codec.Cipher.{Aes, AesLaws, Bytes}
use apipro.Codec.Blocks.{encrypt-decrypt_iff, encrypt_lem}

pub get-put_uint32 : (n : ℕ) (rest : Text) → n < 2 ^ 32 → get_uint32 (put_uint32 n ++ rest) ≡ n
unfolding get_uint32 put_uint32
get-put_uint32 n rest h = omega arith

pub put-get_uint32 :
    (a b c d : ℕ) (rest : Text)
    → Bytes (a ∷ b ∷ c ∷ d ∷ [])
    → put_uint32 (get_uint32 (a ∷ b ∷ c ∷ d ∷ rest)) ≡ a ∷ b ∷ c ∷ d ∷ []
unfolding get_uint32 put_uint32
put-get_uint32 a b c d rest h =
    ap₂ ◌∷◌ (omega arith)
      (ap₂ ◌∷◌ (omega arith) (ap₂ ◌∷◌ (omega arith) (ap₂ ◌∷◌ (omega arith) refl)))

header : Text → Text
header ct = frame_byte0 ∷ frame_byte1 ∷ (put_uint32 (length ct) ++ ct)

module _ (aes : Aes) (laws : AesLaws aes) (key : Text) (sized : length key ≡ 16) where
  encode_frame_lem :
      (p ct : Text)
      → length ct < 2 ^ 32
      → encrypt aes p key ≡ ok ct
      → encode_frame aes p key ≡ ok (header ct)
  unfolding encode_frame header
  encode_frame_lem p ct h e =
      let small : length ct % 2 ^ 32 ≡ length ct = omega arith in rw e (rw small)

  decode_frame_lem :
      (ct : Text) → length ct < 2 ^ 32 → decode_frame aes (header ct) key ≡ decrypt aes ct key
  unfolding decode_frame header has_magic put_uint32
  decode_frame_lem ct h = ground (arith, get-put_uint32 (length ct) ct)

  decode_frame_inv :
      (raw p : Text)
      → Bytes raw
      → decode_frame aes raw key ≡ ok p
      → (ct : Text) × (raw ≡ header ct) × (decrypt aes ct key ≡ ok p)
  unfolding decode_frame has_magic header
  decode_frame_inv (m ∷ n ∷ a ∷ b ∷ c ∷ d ∷ ct) p h e =
      let size : get_uint32 (a ∷ b ∷ c ∷ d ∷ ct) ≡ length ct = ground arith in
      let word =
        sym (put-get_uint32 a b c d ct (h.1.1.0, (h.1.1.1.0, (h.1.1.1.1.0, (h.1.1.1.1.1.0, tt)))))
        ∙ ap put_uint32 size in
      (ct, ap₂ ◌∷◌ (ground arith) (ap₂ ◌∷◌ (ground arith) (ap (λ w. w ++ ct) word)), ground arith)
  decode_frame_inv _ p h e = ground arith

  encode_frame_inv :
      (p raw : Text)
      → length raw < 2 ^ 32
      → encode_frame aes p key ≡ ok raw
      → (ct : Text) × (encrypt aes p key ≡ ok ct) × (raw ≡ header ct) × (length ct < 2 ^ 32)
  unfolding encode_frame header put_uint32
  encode_frame_inv p raw small e =
      let ct = ecb_encrypt aes key (pkcs7_pad p block_size) in
      let enc = encrypt_lem aes laws key sized p in
      let framed : frame_byte0 ∷ frame_byte1 ∷ (put_uint32 (length ct % 2 ^ 32) ++ ct) ≡ raw = cc in
      let size : length ct < 2 ^ 32 = omega (arith, ap length framed) in
      let whole : length ct % 2 ^ 32 ≡ length ct = omega arith in
      (ct, enc, sym framed ∙ ap (λ n. frame_byte0 ∷ frame_byte1 ∷ (put_uint32 n ++ ct)) whole, size)

Bytes-header : (ct : Text) → Bytes (header ct) → Bytes ct
unfolding header put_uint32
Bytes-header ct h = h.1.1.1.1.1.1

length-header : (ct : Text) → length (header ct) ≡ length ct + 6
unfolding header put_uint32
length-header ct = omega arith

-- With a 16-byte key, and for frames shorter than 2 ^ 32 whose elements are bytes, a frame decodes
-- to a payload exactly if it is what the payload encodes to.
pub encode-decode_frame_iff :
    (aes : Aes) (key p raw : Text)
    → AesLaws aes
    → length key ≡ 16
    → Bytes p
    → Bytes raw
    → length raw < 2 ^ 32
    → (encode_frame aes p key ≡ ok raw) ↔ (decode_frame aes raw key ≡ ok p)
encode-decode_frame_iff aes key p raw laws sized bp br small = (
  (λ e.
      let (ct, enc, framed, size) = encode_frame_inv aes laws key sized p raw small e in
      let bc = Bytes-header ct (subst Bytes framed br) in
      ap (λ r. decode_frame aes r key) framed
      ∙ decode_frame_lem aes laws key sized ct size
      ∙ (encrypt-decrypt_iff aes laws key sized p ct bp bc).0 enc),
  (λ e.
      let (ct, framed, dec) = decode_frame_inv aes laws key sized raw p br e in
      let bc = Bytes-header ct (subst Bytes framed br) in
      let size : length ct < 2 ^ 32 = omega (arith, ap length framed, length-header ct) in
      encode_frame_lem aes laws key sized p ct size
        ((encrypt-decrypt_iff aes laws key sized p ct bp bc).1 dec)
      ∙ ap ok (sym framed)),
)
