-- ===== src/Base/Slices.antt =====
-- The fronts and the ends of lists.
use Prim.Native.Nat.{ℕ, zero, suc, ◌-◌, ◌<◌, ◌≤◌}
use mathlib.Core.Path.{◌≡◌, refl, sym, ap, ◌∙◌}
use mathlib.Core.List.{List, [], ◌∷◌, ◌++◌, reverse, reverse-append, reverse-reverse, reverse-cons}
use native.Mathlib.Decide.{dec_lt}
use native.Mathlib.Omega.{arith}
use apipro.Base.Lists.{
  length, take, drop, length-append, length-drop, take-append-drop, take-append_length,
}

module _ {ℓ} {A : Type ℓ} where
  -- The last so many of a list.
  abbrev pub last : ℕ → List A → List A
  last n xs = drop (length xs - n) xs

  pub take-take_le : (n m : ℕ) (xs : List A) → n ≤ m → take n (take m xs) ≡ take n xs
  take-take_le zero m xs h = refl
  take-take_le (suc n) zero xs h = absurd (omega arith)
  take-take_le (suc n) (suc m) [] h = refl
  take-take_le (suc n) (suc m) (x ∷ xs) h = ap (λ ys. x ∷ ys) (take-take_le n m xs (omega arith))

  pub take_more-take : (n : ℕ) (xs : List A) → take (suc n) (take n xs) ≡ take n xs
  take_more-take zero xs = refl
  take_more-take (suc n) [] = refl
  take_more-take (suc n) (x ∷ xs) = ap (λ ys. x ∷ ys) (take_more-take n xs)

  -- What is pushed on a list that was cut is what is pushed on the whole list, once both are cut.
  pub take-all : (n : ℕ) (xs : List A) → length xs ≤ n → take n xs ≡ xs
  take-all zero [] h = refl
  take-all (suc n) [] h = refl
  take-all zero (x ∷ xs) h = absurd (omega arith)
  take-all (suc n) (x ∷ xs) h = ap (λ ys. x ∷ ys) (take-all n xs (omega arith))

  pub length-reverse : (xs : List A) → length (reverse xs) ≡ length xs
  length-reverse [] = refl
  length-reverse (x ∷ xs) =
      ap length (reverse-cons x xs)
      ∙ omega (arith, length-append (reverse xs) (x ∷ []), length-reverse xs)

  pub reverse-take-reverse : (n : ℕ) (xs : List A) → reverse (take n (reverse xs)) ≡ last n xs
  reverse-take-reverse n xs = elim (dec_lt n (length xs)) [
    | yes p ↦
        let k = length xs - n in
        let front = take k xs in
        let back = drop k xs in
        let size : length (reverse back) ≡ n =
          length-reverse back ∙ length-drop k xs ∙ omega arith in
        let split : reverse xs ≡ reverse back ++ reverse front =
          ap reverse (sym (take-append-drop k xs)) ∙ reverse-append front back in
        ap reverse (
          ap (take n) split
          ∙ ap (λ m. take m (reverse back ++ reverse front)) (sym size)
          ∙ take-append_length (reverse back) (reverse front))
        ∙ reverse-reverse back
    | no p ↦
        let all : take n (reverse xs) ≡ reverse xs =
          take-all n (reverse xs) (omega (arith, length-reverse xs)) in
        let none_off : length xs - n ≡ 0 = omega arith in
        ap reverse all ∙ reverse-reverse xs ∙ sym (ap (λ k. drop k xs) none_off)
  ]

  pub take_none : (n : ℕ) (xs : List A) → n ≡ 0 → take n xs ≡ []
  take_none zero xs h = refl
  take_none (suc n) xs h = absurd (omega arith)

  pub take_some : (n : ℕ) (x : A) (xs : List A) → 0 < n → take n (x ∷ xs) ≡ x ∷ take (n - 1) xs
  take_some zero x xs h = absurd (omega arith)
  take_some (suc n) x xs h = ap (λ k. x ∷ take k xs) (omega arith)

  pub take_nil : (n : ℕ) → take {A = A} n [] ≡ []
  take_nil zero = refl
  take_nil (suc n) = refl
