-- ===== src/Session/Hex.antt =====
-- encoding/hex as the tokens use it, and the uppercase names of guests.
use apipro.Base.{
  ℕ, ◌+◌, ◌-◌, ◌*◌, ◌/◌, ◌%◌, ◌≡◌, refl, ◌&&◌, [], ◌∷◌, Text, ltb, leb, if◌then◌else◌, length,
  arith,
}

abbrev hex_digit : ℕ → ℕ
hex_digit n = if ltb n 10 then n + 0x30 else n + 0x57

unfoldable pub hex : Text → Text
hex [] = []
hex (b ∷ bs) = hex_digit (b / 16 % 16) ∷ hex_digit (b % 16) ∷ hex bs

upper : ℕ → ℕ
upper c = if leb 0x61 c && leb c 0x66 then c - 32 else c

upper_all : Text → Text
unfolding upper
upper_all [] = []
upper_all (c ∷ cs) = upper c ∷ upper_all cs

unfoldable pub upper_hex : Text → Text
unfolding upper_all hex
upper_hex bs = upper_all (hex bs)

pub length-hex : (bs : Text) → length (hex bs) ≡ length bs * 2
unfolding hex
length-hex [] = refl
length-hex (b ∷ bs) = omega (arith, length-hex bs)
