-- ===== src/Chat/Sets.antt =====
-- Go's `map[T]struct{}` as a list without an order of its own, for an equality test.
use apipro.Base.{
  ◌≡◌, Bool, true, false, not, ◌&&◌, ◌||◌, List, [], ◌∷◌, if◌then◌else◌, Bool-cases, inl, inr, ap,
  ◌∙◌, sym,
}

module _ {A : Type 0} (eq : A → A → Bool) where
  unfoldable pub has : A → List A → Bool
  has x [] = false
  has x (y ∷ ys) = eq y x || has x ys

  unfoldable pub add : A → List A → List A
  add x xs = if has x xs then xs else x ∷ xs

  unfoldable pub delete : A → List A → List A
  delete x [] = []
  delete x (y ∷ ys) = let rest = delete x ys in if eq y x then rest else y ∷ rest

  module _ (sound : (x y : A) → eq x y ≡ true → x ≡ y) (same : (x : A) → eq x x ≡ true) where
    pub has-add : (x y : A) (xs : List A) → has y (add x xs) ≡ (eq x y || has y xs)
    unfolding has add
    has-add x y xs = elim (Bool-cases (has x xs)) [
      | inl e ↦ elim (Bool-cases (eq x y)) [
        | inl e' ↦ rw (e, e') (ap (λ z. has z xs) (sym (sound x y e')) ∙ e)
        | inr e' ↦ rw (e, e')
      ]
      | inr e ↦ rw e
    ]

    pub has-delete : (x y : A) (xs : List A) → has y (delete x xs) ≡ (not (eq x y) && has y xs)
    unfolding has delete
    has-delete x y [] = elim (Bool-cases (eq x y)) [ inl e ↦ rw e | inr e ↦ rw e ]
    has-delete x y (z ∷ zs) = elim (Bool-cases (eq z x)) [
      | inl e ↦
          let path : eq z y ≡ eq x y = ap (λ v. eq v y) (sound z x e) in
          rw (e, path, has-delete x y zs)
            (elim (Bool-cases (eq x y)) [ inl e' ↦ rw e' | inr e' ↦ rw e' ])
      | inr e ↦ elim (Bool-cases (eq x y)) [
        | inl e' ↦
            let apart : eq z y ≡ false = ap (eq z) (sym (sound x y e')) ∙ e in
            rw (e, has-delete x y zs, apart, e')
        | inr e' ↦ rw (e, has-delete x y zs, e')
      ]
    ]
