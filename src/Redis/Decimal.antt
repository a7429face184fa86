-- ===== src/Redis/Decimal.antt =====
-- Decimal texts, as strconv.ParseInt reads them in base 10 and fmt prints them with %d.
use apipro.Base.{
  ℕ, zero, suc, ◌+◌, ◌-◌, ◌*◌, ◌/◌, ◌%◌, ◌^◌, ◌≤◌, ◌<◌, ◌≡◌, Bool, true, ◌&&◌, [], ◌∷◌, ◌++◌, Text,
  ℤ, pos, negsuc, Option, none, some, ltb, leb, ◌==◌, if◌then◌else◌, arith, dec_lt,
}

abbrev is_digit : ℕ → Bool
is_digit c = leb 0x30 c && leb c 0x39

-- The digits read so far, then the rest.
unfoldable pub parse_digits : ℕ → Text → Option ℕ
parse_digits acc [] = some acc
parse_digits acc (c ∷ cs) =
    let rest = parse_digits (acc * 10 + (c - 0x30)) cs in if is_digit c then rest else none

abbrev in_range : Option ℕ → ℕ → Option ℕ
in_range none limit = none
in_range (some n) limit = if leb n limit then some n else none

abbrev negate : Option ℕ → Option ℤ
negate none = none
negate (some zero) = some (pos 0)
negate (some (suc n)) = some (negsuc n)

abbrev positive : Option ℕ → Option ℤ
positive none = none
positive (some n) = some (pos n)

parse_unsigned : Text → ℕ → Option ℕ
unfolding parse_digits
parse_unsigned [] limit = none
parse_unsigned (c ∷ cs) limit = in_range (parse_digits 0 (c ∷ cs)) limit

-- `strconv.ParseInt(s, 10, 64)`, `none` for its errors.
unfoldable pub parse_int : Text → Option ℤ
unfolding parse_unsigned
parse_int [] = none
parse_int (c ∷ cs) =
    if c == 0x2D
    then negate (parse_unsigned cs (2 ^ 63))
    else if c == 0x2B
    then positive (parse_unsigned cs (2 ^ 63 - 1))
    else positive (parse_unsigned (c ∷ cs) (2 ^ 63 - 1))

print_digits : ℕ → ℕ → Text
print_digits zero n = []
print_digits (suc f) n =
    let rest = print_digits f (n / 10) ++ (n % 10 + 0x30) ∷ [] in
    if ltb n 10 then (n + 0x30) ∷ [] else rest

-- `%d` of a number that is not negative
unfoldable pub print_ℕ : ℕ → Text
unfolding print_digits
print_ℕ n = print_digits (suc n) n

unfoldable pub print_int : ℤ → Text
print_int (pos n) = print_ℕ n
print_int (negsuc n) = 0x2D ∷ print_ℕ (suc n)

parse_digits-append :
    (acc c : ℕ) (cs : Text) (n : ℕ)
    → parse_digits acc cs ≡ some n
    → is_digit c ≡ true
    → parse_digits acc (cs ++ c ∷ []) ≡ some (n * 10 + (c - 0x30))
unfolding parse_digits
parse_digits-append acc c [] n e h = ground arith
parse_digits-append acc c (d ∷ cs) n e h =
    ground (arith, parse_digits-append (acc * 10 + (d - 0x30)) c cs n)

parse-print_digits : (f n : ℕ) → n < f → parse_digits 0 (print_digits f n) ≡ some n
unfolding print_digits parse_digits
parse-print_digits zero n h = absurd (omega arith)
parse-print_digits (suc f) n h = elim (dec_lt n 10) [
  | yes small ↦ ground arith
  | no large ↦ ground (
    arith,
    parse_digits-append 0 (n % 10 + 0x30) (print_digits f (n / 10)) (n / 10)
        (parse-print_digits f (n / 10) (omega arith)) (ground arith),
  )
]

-- A text that begins with a digit.
abbrev Numeric : Text → Type 0
Numeric [] = ⊥
Numeric (c ∷ cs) = is_digit c ≡ true

Numeric-append : (cs ds : Text) → Numeric cs → Numeric (cs ++ ds)
Numeric-append [] ds h = elim h [ ]
Numeric-append (c ∷ cs) ds h = h

print_digits-Numeric : (f n : ℕ) → n < f → Numeric (print_digits f n)
unfolding print_digits
print_digits-Numeric zero n h = absurd (omega arith)
print_digits-Numeric (suc f) n h = elim (dec_lt n 10) [
  | yes small ↦ ground arith
  | no large ↦
      let rest = print_digits-Numeric f (n / 10) (omega arith) in
      ground (arith, Numeric-append (print_digits f (n / 10)) ((n % 10 + 0x30) ∷ []) rest)
]

parse_int-pos :
    (cs : Text) (n : ℕ)
    → Numeric cs
    → parse_digits 0 cs ≡ some n
    → n ≤ 2 ^ 63 - 1
    → parse_int cs ≡ some (pos n)
unfolding parse_int parse_unsigned
parse_int-pos [] n h e small = elim h [ ]
parse_int-pos (c ∷ cs) n h e small = ground arith

parse_int-neg :
    (cs : Text) (n : ℕ)
    → Numeric cs
    → parse_digits 0 cs ≡ some (suc n)
    → suc n ≤ 2 ^ 63
    → parse_int (0x2D ∷ cs) ≡ some (negsuc n)
unfolding parse_int parse_unsigned
parse_int-neg [] n h e small = elim h [ ]
parse_int-neg (c ∷ cs) n h e small = ground arith

-- The int64 numbers.
abbrev pub IsInt64 : ℤ → Type 0
IsInt64 (pos n) = n ≤ 2 ^ 63 - 1
IsInt64 (negsuc n) = suc n ≤ 2 ^ 63

-- What is printed reads back.
pub parse-print_int : (z : ℤ) → IsInt64 z → parse_int (print_int z) ≡ some z
unfolding print_int print_ℕ
parse-print_int (pos n) h =
    parse_int-pos _ n (print_digits-Numeric (suc n) n (omega arith))
      (parse-print_digits (suc n) n (omega arith)) h
parse-print_int (negsuc n) h =
    parse_int-neg _ n (print_digits-Numeric (suc (suc n)) (suc n) (omega arith))
      (parse-print_digits (suc (suc n)) (suc n) (omega arith)) h
