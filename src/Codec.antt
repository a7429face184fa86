-- ===== src/Codec.antt =====
-- pkg/codec/codec.go: AES-128-ECB with PKCS7 padding, framed. Bytes are numbers, and an error that
-- the caller sees is a constructor. The block cipher of Go's crypto/aes is a parameter.
pub mod Cipher
pub mod Padding
pub mod Blocks
pub mod Frame
pub mod Shift
pub mod Transport
pub mod Exchange
mod Tests
use Prim.Native.Nat.{bit_or, bit_xor}
use apipro.Base.{
  ℕ, zero, suc, ◌+◌, ◌-◌, ◌*◌, ◌/◌, ◌%◌, ◌^◌, Bool, true, false, not, ◌&&◌, ◌||◌, List, [], ◌∷◌,
  ◌++◌, Text, length, take, drop, replicate, ltb, leb, ◌==◌, if◌then◌else◌, Result, ok, err, ◌>>=◌,
  ◌>>◌, guard,
}
use Cipher.{Aes}

pub data Error : Type 0 where
  invalid_key new_cipher invalid_frame length_mismatch padding empty not_multiple : Error

abbrev pub frame_byte0 : ℕ
frame_byte0 = 0x00

abbrev pub frame_byte1 : ℕ
frame_byte1 = 0xA0

abbrev pub frame_header_len : ℕ
frame_header_len = 6

abbrev pub block_size : ℕ
block_size = 16

-- A block size outside 1..255 gives nil.
unfoldable pub pkcs7_pad : Text → ℕ → Text
pkcs7_pad data' size =
    if leb size 0 || ltb 255 size
    then []
    else let pad = size - length data' % size in data' ++ replicate pad (pad % 256)

-- `v |= data[i] ^ byte(pad)` over the bytes given.
unfoldable pub differences : ℕ → Text → ℕ → ℕ
differences v [] pad = v
differences v (b ∷ bs) pad = differences (bit_or v (bit_xor b (pad % 256))) bs pad

abbrev last_byte : Text → ℕ
last_byte [] = 0
last_byte (b ∷ []) = b
last_byte (b ∷ c ∷ bs) = last_byte (c ∷ bs)

unfoldable pub pkcs7_unpad : Text → ℕ → Result Error Text
unfolding differences
pkcs7_unpad data' size = do
  let n = length data'
  guard (not (n == 0 || not (n % size == 0))) padding
  let pad = last_byte data'
  guard (not (pad == 0 || ltb size pad || ltb n pad)) padding
  guard (differences 0 (drop (n - pad) data') pad == 0) padding
  ok (take (n - pad) data')

-- The loop of `ecbEncrypt` and `ecbDecrypt`, once for each whole block of the source.
unfoldable pub ecb_rounds : (Text → Text) → ℕ → Text → Text
ecb_rounds f zero src = []
ecb_rounds f (suc n) src = f (take block_size src) ++ ecb_rounds f n (drop block_size src)

-- `binary.BigEndian.PutUint32` and `Uint32`
unfoldable pub put_uint32 : ℕ → Text
put_uint32 n = n / 2 ^ 24 % 256 ∷ n / 2 ^ 16 % 256 ∷ n / 2 ^ 8 % 256 ∷ n % 256 ∷ []

unfoldable pub get_uint32 : Text → ℕ
get_uint32 (a ∷ b ∷ c ∷ d ∷ rest) = a * 2 ^ 24 + b * 2 ^ 16 + c * 2 ^ 8 + d
get_uint32 _ = 0

unfoldable pub has_magic : Text → Bool
has_magic (a ∷ b ∷ rest) = a == frame_byte0 && b == frame_byte1
has_magic _ = false

module _ (aes : Aes) where
  unfoldable pub ecb_encrypt : Text → Text → Text
  ecb_encrypt key src = ecb_rounds (aes.encrypt_block key) (length src / block_size) src

  unfoldable pub ecb_decrypt : Text → Text → Text
  ecb_decrypt key src = ecb_rounds (aes.decrypt_block key) (length src / block_size) src

  unfoldable pub encrypt : Text → Text → Result Error Text
  encrypt plaintext key = do
    guard (length key == 16) invalid_key
    guard (aes.new_cipher key) new_cipher
    let padded = pkcs7_pad plaintext block_size
    guard (not (length padded == 0)) empty
    ok (ecb_encrypt key padded)

  unfoldable pub decrypt : Text → Text → Result Error Text
  decrypt ciphertext key = do
    guard (length key == 16) invalid_key
    guard (not (length ciphertext == 0)) empty
    guard (length ciphertext % 16 == 0) not_multiple
    guard (aes.new_cipher key) new_cipher
    pkcs7_unpad (ecb_decrypt key ciphertext) block_size

  unfoldable pub encode_frame : Text → Text → Result Error Text
  encode_frame payload key = do
    ct ← encrypt payload key
    ok (frame_byte0 ∷ frame_byte1 ∷ (put_uint32 (length ct % 2 ^ 32) ++ ct))

  -- The two magic bytes are there because the length is at least that of the header.
  unfoldable pub decode_frame : Text → Text → Result Error Text
  decode_frame raw key = do
    guard (leb frame_header_len (length raw)) invalid_frame
    guard (has_magic raw) invalid_frame
    guard (get_uint32 (drop 2 raw) == length raw - frame_header_len) length_mismatch
    decrypt (drop frame_header_len raw) key
