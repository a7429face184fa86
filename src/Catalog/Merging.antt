-- ===== src/Catalog/Merging.antt =====
-- The merged group of matches.json, whatever order Go goes through its maps in.
use apipro.Base.{
  ℕ, zero, suc, ◌+◌, ◌≤◌, ◌≡◌, refl, sym, ap, ◌∙◌, Bool, true, false, ◌||◌, List, [], ◌∷◌, ◌++◌, ℤ,
  eq_ℤ, eq_ℤ_iff, ltb_ℤ, length, ltb, take, take-all, length-take, if◌then◌else◌, arith, Bool-cases,
  ◌⊎◌, inl, inr,
}
use apipro.Catalog.{MatchCatalogItem, Library, mem, ids}
use apipro.Catalog.Merged.{Orders, add_absent, add_groups, merge}

-- How often a match stands in a list.
abbrev pub count : ℤ → List MatchCatalogItem → ℕ
count id [] = 0
count id (it ∷ items) =
    let rest = count id items in if eq_ℤ id it.schedule_id then suc rest else rest

-- A match stands in one of the groups.
unfoldable pub grouped : ℤ → List (List MatchCatalogItem) → Bool
grouped id [] = false
grouped id (items ∷ groups) = let rest = grouped id groups in mem id (ids items) || rest

-- What is relied on: sorting, and going through a map, neither lose nor double anything.
pub record OrderLaws (lib : Library) (orders : Orders) : Type 0 where
  pub count-sort_slice :
      (less : MatchCatalogItem → MatchCatalogItem → Bool) (id : ℤ) (items : List MatchCatalogItem)
      → count id (lib.sort_slice less items) ≡ count id items
  pub count-items :
      (id : ℤ) (items : List MatchCatalogItem) → count id (orders.items items) ≡ count id items
  pub grouped-groups :
      (id : ℤ) (gs : List (List MatchCatalogItem)) → grouped id (orders.groups gs) ≡ grouped id gs

count-append :
    (id : ℤ) (xs ys : List MatchCatalogItem) → count id (xs ++ ys) ≡ count id xs + count id ys
count-append id [] ys = omega arith
count-append id (x ∷ xs) ys = ground (arith, count-append id xs ys)

abbrev pub bit : Bool → ℕ
bit b = if b then 1 else 0

mem-append :
    (id : ℤ) (xs : List MatchCatalogItem) (y : MatchCatalogItem)
    → mem id (ids (xs ++ y ∷ [])) ≡ (mem id (ids xs) || eq_ℤ id y.schedule_id)
mem-append id [] y = ground arith
mem-append id (x ∷ xs) y = ground (arith, mem-append id xs y)

or_assoc : (a b c : Bool) → ((a || b) || c) ≡ (a || (b || c))
or_assoc true b c = refl
or_assoc false b c = refl

or_false : (b : Bool) → (b || false) ≡ b
or_false true = refl
or_false false = refl

module _ (id : ℤ) where
  abbrev add_one : List MatchCatalogItem → MatchCatalogItem → List MatchCatalogItem
  add_one all it = if mem it.schedule_id (ids all) then all else all ++ it ∷ []

  count-add_one :
      (all : List MatchCatalogItem) (it : MatchCatalogItem)
      → count id all ≡ bit (mem id (ids all))
      → (count id (add_one all it) ≡ bit (mem id (ids (add_one all it))))
        × (mem id (ids (add_one all it)) ≡ (mem id (ids all) || eq_ℤ id it.schedule_id))
  count-add_one all it h = elim (Bool-cases (mem it.schedule_id (ids all))) [
    | inl m ↦ elim (Bool-cases (eq_ℤ id it.schedule_id)) [
      | inl e ↦
          let here : mem id (ids all) ≡ true = same_mem e ∙ m in rw (m, here) (h ∙ rw here, refl)
      | inr e ↦ rw (m, e) (h, sym (or_false (mem id (ids all))))
    ]
    | inr m ↦ elim (Bool-cases (eq_ℤ id it.schedule_id)) [
      | inl e ↦
          let none_yet : mem id (ids all) ≡ false = same_mem e ∙ m in
          let zero_now : count id all ≡ 0 = h ∙ ap bit none_yet in
          rw (m, count-append id all (it ∷ []), mem-append id all it, none_yet, e)
            (omega (arith, zero_now), refl)
      | inr e ↦
          rw (m, count-append id all (it ∷ []), mem-append id all it, e)
            (rw (or_false (mem id (ids all))) (omega (arith, h)), refl)
    ]
  ]
    where
      same_mem : eq_ℤ id it.schedule_id ≡ true → mem id (ids all) ≡ mem it.schedule_id (ids all)
      same_mem e = ap (λ x. mem x (ids all)) ((eq_ℤ_iff id it.schedule_id).0 e)

  count-add_absent :
      (items all : List MatchCatalogItem)
      → count id all ≡ bit (mem id (ids all))
      → (count id (add_absent all items) ≡ bit (mem id (ids (add_absent all items))))
        × (mem id (ids (add_absent all items)) ≡ (mem id (ids all) || mem id (ids items)))
  unfolding add_absent
  count-add_absent [] all h = (h, sym (or_false (mem id (ids all))))
  count-add_absent (it ∷ items) all h =
      let one = count-add_one all it h in
      let rest = count-add_absent items (add_one all it) one.0 in
      (
        rest.0,
        rest.1
            ∙ ap (λ b. b || mem id (ids items)) one.1
            ∙ or_assoc (mem id (ids all)) (eq_ℤ id it.schedule_id) (mem id (ids items)),
      )

  count-add_groups :
      (gs : List (List MatchCatalogItem)) (all : List MatchCatalogItem)
      → count id all ≡ bit (mem id (ids all))
      → count id (add_groups all gs) ≡ bit (mem id (ids all) || grouped id gs)
  unfolding add_groups grouped
  count-add_groups [] all h = h ∙ ap bit (sym (or_false (mem id (ids all))))
  count-add_groups (items ∷ gs) all h =
      let first = count-add_absent items all h in
      count-add_groups gs (add_absent all items) first.0
      ∙ ap (λ b. bit (b || grouped id gs)) first.1
      ∙ ap bit (or_assoc (mem id (ids all)) (mem id (ids items)) (grouped id gs))

  count-take-le : (n : ℕ) (items : List MatchCatalogItem) → count id (take n items) ≤ count id items
  count-take-le zero items = omega arith
  count-take-le (suc n) [] = omega arith
  count-take-le (suc n) (it ∷ items) = ground (arith, count-take-le n items)

-- Whatever the orders: the merged group has at most 30 matches, each of them once and each from one of
-- the groups, and it has 30 or every match of the groups.
pub merge_lem :
    (lib : Library) (orders : Orders) (gs : List (List MatchCatalogItem)) (id : ℤ)
    → OrderLaws lib orders
    → (length (merge lib orders gs) ≤ 30)
      × (count id (merge lib orders gs) ≤ bit (grouped id gs))
      × ((length (merge lib orders gs) ≡ 30)
          ⊎ (count id (merge lib orders gs) ≡ bit (grouped id gs)))
unfolding merge
merge_lem lib orders gs id laws =
    let less = λ (a b : MatchCatalogItem). ltb_ℤ a.match_time b.match_time in
    let all = add_groups [] (orders.groups gs) in
    let sorted = lib.sort_slice less (orders.items all) in
    let whole : count id sorted ≡ bit (grouped id gs) =
      laws.count-sort_slice less id (orders.items all)
      ∙ laws.count-items id all
      ∙ count-add_groups id (orders.groups gs) [] refl
      ∙ ap bit (laws.grouped-groups id gs) in
    (
      omega (arith, length-take 30 sorted),
      omega (arith, count-take-le id 30 sorted, whole),
      elim (Bool-cases (ltb 30 (length sorted))) [
        | inl more ↦ inl (ground (arith, length-take 30 sorted))
        | inr few ↦ inr (ap (count id) (take-all 30 sorted (ground arith)) ∙ whole)
      ],
    )
