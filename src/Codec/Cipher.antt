-- ===== src/Codec/Cipher.antt =====
-- The block cipher of Go's crypto/aes, as the code uses it: a key schedule that can refuse a key,
-- and two functions on 16-byte blocks.
use apipro.Base.{◌<◌, ◌≡◌, Bool, true, [], ◌∷◌, Text, length}

pub record Aes : Type 0 where
  pub new_cipher : Text → Bool
  pub encrypt_block : Text → Text → Text
  pub decrypt_block : Text → Text → Text

abbrev pub Bytes : Text → Type 0
Bytes [] = Unit {0}
Bytes (b ∷ bs) = (b < 256) × Bytes bs

abbrev pub IsBlock : Text → Type 0
IsBlock b = (length b ≡ 16) × Bytes b

-- What the documentation promises: a 16-byte key is taken, and under it the two functions are
-- inverse permutations of the blocks.
pub record AesLaws (aes : Aes) : Type 0 where
  pub accepts : (key : Text) → length key ≡ 16 → aes.new_cipher key ≡ true
  pub encrypt-IsBlock :
      (key block : Text) → length key ≡ 16 → IsBlock block → IsBlock (aes.encrypt_block key block)
  pub decrypt-IsBlock :
      (key block : Text) → length key ≡ 16 → IsBlock block → IsBlock (aes.decrypt_block key block)
  pub decrypt-encrypt :
      (key block : Text)
      → length key ≡ 16
      → IsBlock block
      → aes.decrypt_block key (aes.encrypt_block key block) ≡ block
  pub encrypt-decrypt :
      (key block : Text)
      → length key ≡ 16
      → IsBlock block
      → aes.encrypt_block key (aes.decrypt_block key block) ≡ block
