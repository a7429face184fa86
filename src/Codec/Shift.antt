-- ===== src/Codec/Shift.antt =====
-- A toy cipher that meets the laws of the parameter.
use apipro.Base.{ℕ, ◌<◌, ◌%◌, ◌+◌, ◌≡◌, refl, true, [], ◌∷◌, Text, length, arith, map}
use apipro.Codec.Cipher.{Aes, AesLaws, Bytes}

-- Every byte moved by one, whatever the key.
unfoldable pub up : ℕ → ℕ
up b = (b + 1) % 256

pub down : ℕ → ℕ
down b = (b + 255) % 256

abbrev pub shift : Aes
shift = record {
  new_cipher = λ key. true;
  encrypt_block = λ key block. map up block;
  decrypt_block = λ key block. map down block;
}

map-Bytes :
    (f : ℕ → ℕ) (bs : Text)
    → ((b : ℕ) → f b < 256)
    → (length (map f bs) ≡ length bs) × Bytes (map f bs)
map-Bytes f [] h = (refl, tt)
map-Bytes f (b ∷ bs) h = let rest = map-Bytes f bs h in (omega (arith, rest.0), (h b, rest.1))

map_back :
    (f g : ℕ → ℕ) (bs : Text) → ((b : ℕ) → b < 256 → g (f b) ≡ b) → Bytes bs → map g (map f bs) ≡ bs
map_back f g [] h k = refl
map_back f g (b ∷ bs) h k = rw (h b k.0, map_back f g bs h k.1)

up-down : (b : ℕ) → b < 256 → up (down b) ≡ b
unfolding up down
up-down b h = omega arith

down-up : (b : ℕ) → b < 256 → down (up b) ≡ b
unfolding up down
down-up b h = omega arith

up-lt : (b : ℕ) → up b < 256
unfolding up
up-lt b = omega arith

down-lt : (b : ℕ) → down b < 256
unfolding down
down-lt b = omega arith

pub shift-AesLaws : AesLaws shift
shift-AesLaws = record {
  accepts = λ key h. refl;
  encrypt-IsBlock =
      λ key block h k. let m = map-Bytes up block up-lt in (omega (arith, m.0, k.0), m.1);
  decrypt-IsBlock =
      λ key block h k. let m = map-Bytes down block down-lt in (omega (arith, m.0, k.0), m.1);
  decrypt-encrypt = λ key block h k. map_back up down block down-up k.1;
  encrypt-decrypt = λ key block h k. map_back down up block up-down k.1;
}
