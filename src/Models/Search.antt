-- ===== src/Models/Search.antt =====
-- The substring search by which a duplicate is told from other errors.
use apipro.Base.{
  ℕ, suc, ◌≤◌, ◌≡◌, refl, sym, ap, ◌∙◌, ◌↔◌, true, [], ◌∷◌, ◌++◌, Text, text_eq, text_eq_refl,
  eq_of_text_eq, length, take, drop, arith, Bool-cases, inl, inr, take-append_length,
  take-append-drop, length-append,
}
use apipro.Models.{index_from, index_of, contains, is_some}

-- One text stands somewhere in another.
abbrev pub Occurs : Text → Text → Type 0
Occurs sub s = (before after : Text) × (s ≡ before ++ (sub ++ after))

found-Occurs : (i : ℕ) (s sub : Text) → is_some (index_from i s sub) ≡ true → Occurs sub s
unfolding index_from
found-Occurs i [] [] h = ([], [], refl)
found-Occurs i [] (x ∷ sub) h = ground arith
found-Occurs i (c ∷ cs) sub h = elim (Bool-cases (text_eq (take (length sub) (c ∷ cs)) sub)) [
  | inl e ↦ (
    [],
    drop (length sub) (c ∷ cs),
    sym (take-append-drop (length sub) (c ∷ cs))
        ∙ ap (λ t. t ++ drop (length sub) (c ∷ cs)) (eq_of_text_eq _ sub e),
  )
  | inr e ↦
      let (before, after, path) = found-Occurs (suc i) cs sub (ground arith) in
      (c ∷ before, after, ap (◌∷◌ c) path)
]

index_here :
    (i : ℕ) (s sub : Text)
    → length sub ≤ length s
    → text_eq (take (length sub) s) sub ≡ true
    → is_some (index_from i s sub) ≡ true
unfolding index_from
index_here i [] sub h e = ground arith
index_here i (c ∷ cs) sub h e = ground arith

index_later :
    (i c : ℕ) (cs sub : Text)
    → length sub ≤ length cs
    → is_some (index_from (suc i) cs sub) ≡ true
    → is_some (index_from i (c ∷ cs) sub) ≡ true
unfolding index_from
index_later i c cs sub h e = ground arith

-- A text that stands further on is found, if no earlier place fits.
Occurs-found :
    (i : ℕ) (before after sub : Text) → is_some (index_from i (before ++ (sub ++ after)) sub) ≡ true
Occurs-found i [] after sub =
    index_here i (sub ++ after) sub (omega (arith, length-append sub after))
      (rw (take-append_length sub after) (text_eq_refl sub))
Occurs-found i (c ∷ before) after sub =
    index_later i c (before ++ (sub ++ after)) sub
      (omega (arith, length-append sub after, length-append before (sub ++ after)))
      (Occurs-found (suc i) before after sub)

-- `contains` finds a text exactly where it stands as a contiguous part.
pub contains_iff : (s sub : Text) → (contains s sub ≡ true) ↔ Occurs sub s
unfolding contains index_of
contains_iff s sub = (
  (λ h. found-Occurs 0 s sub (ground arith)),
  (λ h.
      let (before, after, path) = h in
      let found = Occurs-found 0 before after sub in
      rw path
        (ground (arith, found, length-append sub after, length-append before (sub ++ after)))),
)
