-- ===== src/Chat/Frame.antt =====
-- The binary frames of pkg/wschat: `encodeBinaryFrame`, and `handleBinaryFrame` up to its dispatch.
-- pkg/wschat/util.go passes both directions on to pkg/codec.
use apipro.Base.{
  ℕ, ◌+◌, ◌-◌, ◌*◌, ◌/◌, ◌%◌, ◌^◌, ◌<◌, ◌≡◌, refl, ap, ◌∙◌, Bool, true, false, ◌&&◌, [], ◌∷◌, ◌++◌,
  Text, length, drop, ltb, leb, ◌==◌, if◌then◌else◌, arith, Result, ok, err, ◌>>◌, guard,
}
use apipro.Codec.{encrypt, decrypt, put_uint32, get_uint32, block_size, pkcs7_pad, ecb_encrypt}
use apipro.Codec.Cipher.{Aes, AesLaws, Bytes}
use apipro.Codec.Blocks.{encrypt-decrypt_iff, encrypt_lem, length-encrypt}
use apipro.Codec.Frame.{get-put_uint32}

abbrev frame_byte0 : ℕ
frame_byte0 = 0x00

abbrev frame_byte1 : ℕ
frame_byte1 = 0xA0

abbrev frame_header_len : ℕ
frame_header_len = 8

-- The errors that `handleBinaryFrame` reports to the client.
pub data FrameError : Type 0 where
  short_frame frame_mismatch decrypt_failed : FrameError

-- `binary.BigEndian.PutUint16` and `Uint16`
unfoldable pub put_uint16 : ℕ → Text
put_uint16 n = n / 2 ^ 8 % 256 ∷ n % 256 ∷ []

unfoldable pub get_uint16 : Text → ℕ
get_uint16 (a ∷ b ∷ rest) = a * 2 ^ 8 + b
get_uint16 _ = 0

-- The test of `readPump` on a binary message.
unfoldable pub is_frame : Text → Bool
is_frame (a ∷ b ∷ rest) = a == frame_byte0 && b == frame_byte1
is_frame _ = false

-- An error leaves Go's slice nil.
abbrev pub or_nothing : {E : Type 0} → Result E Text → Text
or_nothing (ok ct) = ct
or_nothing (err e) = []

module _ (aes : Aes) where
  unfoldable pub encrypt_body : Text → Text → Text
  encrypt_body [] key = []
  encrypt_body (b ∷ bs) key = or_nothing (encrypt aes (b ∷ bs) key)

  unfoldable pub encode_binary_frame : ℕ → Text → Text → Text
  encode_binary_frame op body key =
      let ct = encrypt_body body key in
      frame_byte0 ∷ frame_byte1 ∷ (put_uint16 op ++ (put_uint32 (length ct % 2 ^ 32) ++ ct))

  abbrev pub opened : {E : Type 0} → ℕ → Result E Text → Result FrameError (ℕ × Text)
  opened op (ok plain) = ok (op, plain)
  opened op (err e) = err decrypt_failed

  -- The opcode and the body that are dispatched.
  unfoldable pub read_frame : Text → Text → Result FrameError (ℕ × Text)
  read_frame frame key = do
    guard (leb frame_header_len (length frame)) short_frame
    let op = get_uint16 (drop 2 frame)
    let body_len = get_uint32 (drop 4 frame)
    guard (body_len == length frame - frame_header_len) frame_mismatch
    (if ltb 0 body_len
        then opened op (decrypt aes (drop frame_header_len frame) key)
        else ok (op, []))

get-put_uint16 : (n : ℕ) (rest : Text) → n < 2 ^ 16 → get_uint16 (put_uint16 n ++ rest) ≡ n
unfolding get_uint16 put_uint16
get-put_uint16 n rest h = omega arith

abbrev framed : ℕ → Text → Text
framed op ct = frame_byte0 ∷ frame_byte1 ∷ (put_uint16 op ++ (put_uint32 (length ct) ++ ct))

module _ (aes : Aes) (key : Text) (op : ℕ) (small : op < 2 ^ 16) where
  read_frame_lem :
      (ct : Text)
      → length ct < 2 ^ 32
      → read_frame aes (framed op ct) key
        ≡ (if ltb 0 (length ct) then opened aes op (decrypt aes ct key) else ok (op, []))
  unfolding read_frame put_uint16 put_uint32
  read_frame_lem ct h =
      let code = get-put_uint16 op (put_uint32 (length ct) ++ ct) small in
      let size = get-put_uint32 (length ct) ct h in ground (arith, code, size)

  encode_lem :
      (body ct : Text)
      → encrypt_body aes body key ≡ ct
      → length ct < 2 ^ 32
      → encode_binary_frame aes op body key ≡ framed op ct
  unfolding encode_binary_frame
  encode_lem body ct h short =
      let whole : length ct % 2 ^ 32 ≡ length ct = omega arith in rw (h, whole)

-- Under a 16-byte key, a frame that is written for an opcode below 2 ^ 16 and a body of bytes shorter
-- than 2 ^ 31 passes the probe for binary frames and is read back as that opcode and that body, the
-- empty body included, which is not encrypted.
pub read_frame-encode_binary_frame :
    (aes : Aes) (key body : Text) (op : ℕ)
    → AesLaws aes
    → length key ≡ 16
    → op < 2 ^ 16
    → Bytes body
    → length body < 2 ^ 31
    → (is_frame (encode_binary_frame aes op body key) ≡ true)
      × (read_frame aes (encode_binary_frame aes op body key) key ≡ ok (op, body))
unfolding is_frame encode_binary_frame encrypt_body
read_frame-encode_binary_frame aes key [] op laws sized small b short =
    (refl, read_frame_lem aes key op small [] (omega arith))
read_frame-encode_binary_frame aes key (x ∷ xs) op laws sized small b short =
    let p = x ∷ xs in
    let ct = ecb_encrypt aes key (pkcs7_pad p block_size) in
    let enc : encrypt aes p key ≡ ok ct = encrypt_lem aes laws key sized p in
    let (size, bc) = length-encrypt aes laws key sized p ct b enc in
    let fits : length ct < 2 ^ 32 = omega arith in
    let busy : 0 < length ct = omega arith in
    let dec = (encrypt-decrypt_iff aes laws key sized p ct b bc).0 enc in
    let full : ltb 0 (length ct) ≡ true = ground arith in
    (
      refl,
      ap (λ f. read_frame aes f key) (encode_lem aes key op small p ct (ap or_nothing enc) fits)
          ∙ read_frame_lem aes key op small ct fits
          ∙ rw (full, dec),
    )
