-- ===== src/Codec/Padding.antt =====
-- PKCS7 padding to blocks of 16 bytes, and what its removal accepts.
use Prim.Native.Nat.{bit_or, bit_xor}
use mathlib.Core.Path.{ap₂}
use apipro.Base.{
  ◌*◌, ◌/◌, ℕ, zero, suc, ◌+◌, ◌-◌, ◌%◌, ◌≤◌, ◌<◌, ◌≡◌, refl, sym, ap, subst, ◌∙◌, Bool, true, not,
  ◌&&◌, ◌||◌, [], ◌∷◌, ◌++◌, Text, length, take, drop, replicate, ltb, ◌==◌, if◌then◌else◌, arith,
  ok, length-append, length-replicate, length-take, length-drop, take-append-drop,
  take-append_length, drop-append_length,
}
use apipro.Codec.{block_size, pkcs7_pad, differences, last_byte, pkcs7_unpad}
use apipro.Codec.Cipher.{Bytes}

-- The numbers below the bound that fail the test.
failures : (ℕ → Bool) → ℕ → ℕ
failures test zero = 0
failures test (suc bound) = let rest = failures test bound in if test bound then rest else suc rest

no_failure :
    (test : ℕ → Bool) (bound x : ℕ) → (failures test bound == 0) ≡ true → x < bound → test x ≡ true
unfolding failures
no_failure test zero x none_fails below = absurd (omega arith)
no_failure test (suc bound) x none_fails below = ground (arith, no_failure test bound x)

-- `x ^ y` on bytes is a byte, and 0 only where they agree.
abbrev xor_test : ℕ → ℕ → Bool
xor_test x y = (not (bit_xor x y == 0) || x == y) && ltb (bit_xor x y) 256 && bit_xor y y == 0

abbrev or_test : ℕ → ℕ → Bool
or_test x y = (not (bit_or x y == 0) || (x == 0 && y == 0)) && ltb (bit_or x y) 256

xor_table : (failures (λ x. failures (xor_test x) 17 == 0) 256 == 0) ≡ true
unfolding failures
xor_table = refl

or_table : (failures (λ x. failures (or_test x) 256 == 0) 256 == 0) ≡ true
unfolding failures
or_table = refl

xor_at : (x y : ℕ) → x < 256 → y < 17 → xor_test x y ≡ true
xor_at x y h =
    no_failure (xor_test x) 17 y (no_failure (λ v. failures (xor_test v) 17 == 0) 256 x xor_table h)

or_at : (x y : ℕ) → x < 256 → y < 256 → or_test x y ≡ true
or_at x y h =
    no_failure (or_test x) 256 y (no_failure (λ v. failures (or_test v) 256 == 0) 256 x or_table h)

xor_facts :
    (x y : ℕ)
    → x < 256
    → y < 17
    → (bit_xor x (y % 256) < 256) × (bit_xor x (y % 256) ≡ 0 → x ≡ y) × (bit_xor y (y % 256) ≡ 0)
xor_facts x y h k =
    let small : y % 256 ≡ y = omega arith in
    rw small (let t = xor_at x y h k in (ground arith, λ e. ground arith, ground arith))

or_facts : (x y : ℕ) → x < 256 → y < 256 → (bit_or x y < 256) × (bit_or x y ≡ 0 → (x ≡ 0) × (y ≡ 0))
or_facts x y h k = let t = or_at x y h k in (ground arith, λ e. ground arith)

differences-replicate : (k pad : ℕ) → pad < 17 → differences 0 (replicate k pad) pad ≡ 0
unfolding differences
differences-replicate zero pad h = refl
differences-replicate (suc k) pad h =
    let same = (xor_facts pad pad (omega arith) h).2 in
    ap (λ v. differences (bit_or 0 v) (replicate k pad) pad) same ∙ differences-replicate k pad h

differences_zero :
    (v : ℕ) (bs : Text) (pad : ℕ)
    → v < 256
    → pad < 17
    → Bytes bs
    → differences v bs pad ≡ 0
    → (v ≡ 0) × (bs ≡ replicate (length bs) pad)
unfolding differences
differences_zero v [] pad hv hp h e = (e, refl)
differences_zero v (b ∷ bs) pad hv hp h e =
    let x = xor_facts b pad h.0 hp in
    let o = or_facts v (bit_xor b (pad % 256)) hv x.0 in
    let rest = differences_zero (bit_or v (bit_xor b (pad % 256))) bs pad o.0 hp h.1 e in
    let both = o.1 rest.0 in (both.0, ap₂ ◌∷◌ (x.1 both.1) rest.1)

last_byte-append : (bs : Text) (k b : ℕ) → last_byte (bs ++ replicate (suc k) b) ≡ b
last_byte-append [] zero b = refl
last_byte-append [] (suc k) b = last_byte-append [] k b
last_byte-append (x ∷ []) k b = last_byte-append [] k b
last_byte-append (x ∷ y ∷ bs) k b = last_byte-append (y ∷ bs) k b

suc_pred : (n : ℕ) → 0 < n → suc (n - 1) ≡ n
suc_pred n h = omega arith

abbrev pad_of : Text → ℕ
pad_of bs = block_size - length bs % block_size

pkcs7_pad_lem : (bs : Text) → pkcs7_pad bs block_size ≡ bs ++ replicate (pad_of bs) (pad_of bs)
unfolding pkcs7_pad
pkcs7_pad_lem bs = let e : pad_of bs % 256 ≡ pad_of bs = omega arith in rw e

-- Padding fills up to a whole number of blocks, at least one.
pub length-pkcs7_pad : (bs : Text) → (length (pkcs7_pad bs block_size) ≡ (length bs / 16 + 1) * 16)
length-pkcs7_pad bs = rw (pkcs7_pad_lem bs) (
    omega (
      arith,
      length-append bs (replicate (pad_of bs) (pad_of bs)),
      length-replicate (pad_of bs) (pad_of bs),
    ))

-- What `pkcs7_unpad` demands of a text.
pub record IsPadded (bs : Text) : Type 0 where
  pub whole : length bs % 16 ≡ 0
  pub nonempty : 0 < length bs
  pub nonzero : 0 < last_byte bs
  pub small : last_byte bs ≤ 16
  pub fits : last_byte bs ≤ length bs
  pub tail : differences 0 (drop (length bs - last_byte bs) bs) (last_byte bs) ≡ 0

unpad_passes :
    (bs : Text) → IsPadded bs → pkcs7_unpad bs block_size ≡ ok (take (length bs - last_byte bs) bs)
unfolding pkcs7_unpad
unpad_passes bs h = ground arith

unpad_inv :
    (bs out : Text)
    → pkcs7_unpad bs block_size ≡ ok out
    → IsPadded bs × (take (length bs - last_byte bs) bs ≡ out)
unfolding pkcs7_unpad
unpad_inv bs out e = (ground arith, ground arith)

module _ (bs : Text) (j : ℕ) (small : suc j ≤ 16) (whole : (length bs + suc j) % 16 ≡ 0) where
  padded : Text
  padded = bs ++ replicate (suc j) (suc j)

  length-padded : length padded ≡ length bs + suc j
  unfolding padded
  length-padded =
      length-append bs (replicate (suc j) (suc j))
      ∙ ap (◌+◌ (length bs)) (length-replicate (suc j) (suc j))

  last_byte-padded : last_byte padded ≡ suc j
  unfolding padded
  last_byte-padded = last_byte-append bs j (suc j)

  cut_at : length padded - last_byte padded ≡ length bs
  cut_at = omega (arith, length-padded, last_byte-padded)

  padded-tail :
      differences 0 (drop (length padded - last_byte padded) padded) (last_byte padded) ≡ 0
  unfolding padded
  padded-tail =
      rw (cut_at, last_byte-padded, drop-append_length bs (replicate (suc j) (suc j)))
        (differences-replicate (suc j) (suc j) (omega arith))

  padded-IsPadded : IsPadded padded
  padded-IsPadded = record {
    whole = omega (arith, length-padded);
    nonempty = omega (arith, length-padded);
    nonzero = omega (arith, last_byte-padded);
    small = omega (arith, last_byte-padded);
    fits = omega (arith, length-padded, last_byte-padded);
    tail = padded-tail;
  }

  unpad_padded : pkcs7_unpad (bs ++ replicate (suc j) (suc j)) block_size ≡ ok bs
  unfolding padded
  unpad_padded =
      unpad_passes padded padded-IsPadded
      ∙ ap ok (ap (λ n. take n padded) cut_at ∙ take-append_length bs (replicate (suc j) (suc j)))

-- Removing the padding gives back what was padded.
pub unpad-pad : (bs : Text) → pkcs7_unpad (pkcs7_pad bs block_size) block_size ≡ ok bs
unpad-pad bs = rw (pkcs7_pad_lem bs) (
    subst (λ k. pkcs7_unpad (bs ++ replicate k k) block_size ≡ ok bs) (suc_pred _ (omega arith))
      (unpad_padded bs (pad_of bs - 1) (omega arith) (omega arith)))

pub Bytes-drop : (n : ℕ) (bs : Text) → Bytes bs → Bytes (drop n bs)
Bytes-drop zero bs h = h
Bytes-drop (suc n) [] h = tt
Bytes-drop (suc n) (b ∷ bs) h = Bytes-drop n bs h.1

IsPadded-split :
    (bs : Text)
    → Bytes bs
    → IsPadded bs
    → let k = last_byte bs in bs ≡ take (length bs - k) bs ++ replicate k k
IsPadded-split bs h p =
    let k = last_byte bs in
    let tail = drop (length bs - k) bs in
    let same =
      (differences_zero 0 tail k (omega arith) (omega (arith, p)) (Bytes-drop _ bs h) p.tail).1 in
    let count : length tail ≡ k = omega (arith, length-drop (length bs - k) bs, p) in
    sym (take-append-drop (length bs - k) bs)
    ∙ ap (◌++◌ (take (length bs - k) bs)) (same ∙ ap (λ n. replicate n k) count)

-- What is accepted is the padding of what comes out.
pub pad-unpad :
    (bs out : Text) → Bytes bs → pkcs7_unpad bs block_size ≡ ok out → pkcs7_pad out block_size ≡ bs
pad-unpad bs out h e =
    let (p, t) = unpad_inv bs out e in
    let k = last_byte bs in
    let size : pad_of out ≡ k = omega (arith, p, ap length t, length-take (length bs - k) bs) in
    pkcs7_pad_lem out
    ∙ ap (λ n. out ++ replicate n n) size
    ∙ ap (λ xs. xs ++ replicate k k) (sym t)
    ∙ sym (IsPadded-split bs h p)

pub Bytes-take : (n : ℕ) (bs : Text) → Bytes bs → Bytes (take n bs)
Bytes-take zero bs h = tt
Bytes-take (suc n) [] h = tt
Bytes-take (suc n) (b ∷ bs) h = (h.0, Bytes-take n bs h.1)

pub Bytes-append : (bs cs : Text) → Bytes bs → Bytes cs → Bytes (bs ++ cs)
Bytes-append [] cs h k = k
Bytes-append (b ∷ bs) cs h k = (h.0, Bytes-append bs cs h.1 k)

Bytes-replicate : (n b : ℕ) → b < 256 → Bytes (replicate n b)
Bytes-replicate zero b h = tt
Bytes-replicate (suc n) b h = (h, Bytes-replicate n b h)

pub pkcs7_pad-Bytes : (bs : Text) → Bytes bs → Bytes (pkcs7_pad bs block_size)
pkcs7_pad-Bytes bs h =
    rw (pkcs7_pad_lem bs)
      (Bytes-append bs _ h (Bytes-replicate (pad_of bs) (pad_of bs) (omega arith)))

pub unpad-Bytes : (bs out : Text) → Bytes bs → pkcs7_unpad bs block_size ≡ ok out → Bytes out
unpad-Bytes bs out h e =
    subst Bytes (unpad_inv bs out e).1 (Bytes-take (length bs - last_byte bs) bs h)
