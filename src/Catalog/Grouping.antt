-- ===== src/Catalog/Grouping.antt =====
-- The grouping of rows against a description that reads the rows for each match.
use apipro.Base.{
  not, ◌&&◌, ◌≡◌, refl, sym, ap, ◌∙◌, Bool, true, false, ◌||◌, List, [], ◌∷◌, ◌++◌, map, ℤ, eq_ℤ,
  eq_ℤ_iff, if◌then◌else◌, Bool-cases, inl, inr, arith,
}
use apipro.Catalog.{
  MatchCatalogRow, MatchCatalogItem, MatchAnchorItem, Library, mem, ids, anchors_of, with_anchor,
  new_item, add_row, group_rows, schedule_items, MatchItem,
}

-- The anchors that the rows have for a match, in their order.
unfoldable pub anchors_for : ℤ → List MatchCatalogRow → List MatchAnchorItem
anchors_for id [] = []
anchors_for id (r ∷ rows) =
    let rest = anchors_for id rows in if eq_ℤ id r.schedule_id then anchors_of r ++ rest else rest

abbrev pub extend : List MatchCatalogRow → MatchCatalogItem → MatchCatalogItem
extend rows it = record it { anchors = it.anchors ++ anchors_for it.schedule_id rows }

-- The first row of each match that is not among the seen ones, with all anchors of the match.
unfoldable pub matches : Library → List ℤ → List MatchCatalogRow → List MatchCatalogItem
matches lib seen [] = []
matches lib seen (r ∷ rows) =
    let skipped = matches lib seen rows in
    let taken = matches lib (seen ++ r.schedule_id ∷ []) rows in
    if mem r.schedule_id seen then skipped else extend (r ∷ rows) (new_item lib r) ∷ taken

append_nil : {A : Type 0} (xs : List A) → xs ++ [] ≡ xs
append_nil [] = refl
append_nil (x ∷ xs) = ap (λ ys. x ∷ ys) (append_nil xs)

append_assoc : {A : Type 0} (xs ys zs : List A) → (xs ++ ys) ++ zs ≡ xs ++ (ys ++ zs)
append_assoc [] ys zs = refl
append_assoc (x ∷ xs) ys zs = ap (λ us. x ∷ us) (append_assoc xs ys zs)

map-append : {A B : Type 0} (f : A → B) (xs ys : List A) → map f (xs ++ ys) ≡ map f xs ++ map f ys
map-append f [] ys = refl
map-append f (x ∷ xs) ys = ap (λ us. f x ∷ us) (map-append f xs ys)

ids-map-with_anchor :
    (r : MatchCatalogRow) (items : List MatchCatalogItem)
    → ids (map (with_anchor r) items) ≡ ids items
unfolding with_anchor
ids-map-with_anchor r [] = refl
ids-map-with_anchor r (it ∷ items) = elim (Bool-cases (eq_ℤ it.schedule_id r.schedule_id)) [
  | inl e ↦ rw (e, ids-map-with_anchor r items)
  | inr e ↦ rw (e, ids-map-with_anchor r items)
]

ids-append : (xs ys : List MatchCatalogItem) → ids (xs ++ ys) ≡ ids xs ++ ids ys
ids-append [] ys = refl
ids-append (x ∷ xs) ys = ap (λ us. x.schedule_id ∷ us) (ids-append xs ys)

-- Giving an item the anchor of a row and then those of the rest is giving it those of all.
extend-with_anchor :
    (r : MatchCatalogRow) (rows : List MatchCatalogRow) (it : MatchCatalogItem)
    → extend rows (with_anchor r it) ≡ extend (r ∷ rows) it
unfolding with_anchor anchors_for
extend-with_anchor r rows it = elim (Bool-cases (eq_ℤ it.schedule_id r.schedule_id)) [
  | inl e ↦ rw (e, append_assoc it.anchors (anchors_of r) (anchors_for it.schedule_id rows))
  | inr e ↦ rw e
]

map-extend-with_anchor :
    (r : MatchCatalogRow) (rows : List MatchCatalogRow) (items : List MatchCatalogItem)
    → map (extend rows) (map (with_anchor r) items) ≡ map (extend (r ∷ rows)) items
map-extend-with_anchor r rows [] = refl
map-extend-with_anchor r rows (it ∷ items) =
    rw (extend-with_anchor r rows it, map-extend-with_anchor r rows items)

map-extend_nil : (items : List MatchCatalogItem) → map (extend []) items ≡ items
unfolding anchors_for
map-extend_nil [] = refl
map-extend_nil (it ∷ items) = rw (append_nil it.anchors, map-extend_nil items)

module _ (lib : Library) where
  group_rows-from :
      (items : List MatchCatalogItem) (rows : List MatchCatalogRow)
      → group_rows lib items rows ≡ map (extend rows) items ++ matches lib (ids items) rows
  unfolding group_rows matches add_row
  group_rows-from items [] = rw (map-extend_nil items, append_nil items)
  group_rows-from items (r ∷ rows) = elim (Bool-cases (mem r.schedule_id (ids items))) [
    | inl e ↦ rw (
      e,
      group_rows-from (map (with_anchor r) items) rows,
      map-extend-with_anchor r rows items,
      ids-map-with_anchor r items,
    )
    | inr e ↦
        let items' = items ++ new_item lib r ∷ [] in
        rw (
          e,
          group_rows-from (map (with_anchor r) items') rows,
          map-extend-with_anchor r rows items',
          ids-map-with_anchor r items',
          map-append (extend (r ∷ rows)) items (new_item lib r ∷ []),
          ids-append items (new_item lib r ∷ []),
          append_assoc (map (extend (r ∷ rows)) items) (extend (r ∷ rows) (new_item lib r) ∷ [])
              (matches lib (ids items ++ r.schedule_id ∷ []) rows),
        )
  ]

  -- The loop that fills the map gives one item for each match of the rows, in the order of their first
  -- rows: the fields are those of the first row, and the anchors are those of all rows of the match that
  -- have one, in the order of the rows.
  pub group_rows-matches :
      (rows : List MatchCatalogRow) → group_rows lib [] rows ≡ matches lib [] rows
  group_rows-matches rows = group_rows-from [] rows

abbrev pub item_ids : List MatchItem → List ℤ
item_ids [] = []
item_ids (it ∷ items) = it.schedule_id ∷ item_ids items

mem-append : (x y : ℤ) (ys : List ℤ) → mem x (ys ++ y ∷ []) ≡ (eq_ℤ x y || mem x ys)
mem-append x y [] = refl
mem-append x y (z ∷ zs) = ground (arith, mem-append x y zs)

-- No number stands twice.
abbrev pub distinct : List ℤ → Bool
distinct [] = true
distinct (x ∷ xs) = not (mem x xs) && distinct xs

module _ (lib : Library) where
  ids-matches :
      (seen seen' : List ℤ) (rows : List MatchCatalogRow)
      → ((x : ℤ) → mem x seen ≡ mem x seen')
      → item_ids (schedule_items lib seen rows) ≡ ids (matches lib seen' rows)
  unfolding schedule_items matches
  ids-matches seen seen' [] same = refl
  ids-matches seen seen' (r ∷ rows) same = elim (Bool-cases (mem r.schedule_id seen')) [
    | inl e ↦ rw (same r.schedule_id, e, ids-matches seen seen' rows same)
    | inr e ↦
        let both : (x : ℤ) → mem x (r.schedule_id ∷ seen) ≡ mem x (seen' ++ r.schedule_id ∷ []) =
          λ x.
            ap (λ b. eq_ℤ x r.schedule_id || b) (same x) ∙ sym (mem-append x r.schedule_id seen') in
        rw (
          same r.schedule_id,
          e,
          ids-matches (r.schedule_id ∷ seen) (seen' ++ r.schedule_id ∷ []) rows both,
        )
  ]

  mem-matches :
      (x : ℤ) (seen : List ℤ) (rows : List MatchCatalogRow)
      → mem x seen ≡ true
      → mem x (ids (matches lib seen rows)) ≡ false
  unfolding matches
  mem-matches x seen [] h = refl
  mem-matches x seen (r ∷ rows) h = elim (Bool-cases (mem r.schedule_id seen)) [
    | inl e ↦ rw e (mem-matches x seen rows h)
    | inr e ↦ elim (Bool-cases (eq_ℤ x r.schedule_id)) [
      | inl same ↦
          let clash = sym h ∙ ap (λ y. mem y seen) ((eq_ℤ_iff x r.schedule_id).0 same) ∙ e in
          cc clash
      | inr other ↦
          let later : mem x (seen ++ r.schedule_id ∷ []) ≡ true =
            mem-append x r.schedule_id seen ∙ ap (λ b. eq_ℤ x r.schedule_id || b) h ∙ rw other in
          rw (e, other) (mem-matches x (seen ++ r.schedule_id ∷ []) rows later)
    ]
  ]

  distinct-matches :
      (seen : List ℤ) (rows : List MatchCatalogRow) → distinct (ids (matches lib seen rows)) ≡ true
  unfolding matches
  distinct-matches seen [] = refl
  distinct-matches seen (r ∷ rows) = elim (Bool-cases (mem r.schedule_id seen)) [
    | inl e ↦ rw e (distinct-matches seen rows)
    | inr e ↦
        let seen' = seen ++ r.schedule_id ∷ [] in
        let there : mem r.schedule_id seen' ≡ true =
          mem-append r.schedule_id r.schedule_id seen
          ∙ ap (λ b. b || mem r.schedule_id seen) ((eq_ℤ_iff r.schedule_id r.schedule_id).1 refl) in
        rw (e, mem-matches r.schedule_id seen' rows there, distinct-matches seen' rows)
  ]

  -- The schedule of a room lists the matches of its rows in the order in which the grouping of the same
  -- rows has them before it is sorted, and no match stands twice.
  pub schedule_items-group_rows :
      (rows : List MatchCatalogRow)
      → (item_ids (schedule_items lib [] rows) ≡ ids (group_rows lib [] rows))
        × (distinct (ids (group_rows lib [] rows)) ≡ true)
  schedule_items-group_rows rows =
      let grouped = sym (group_rows-matches lib rows) in
      (
        ids-matches [] [] rows (λ x. refl) ∙ ap ids grouped,
        ap (λ items. distinct (ids items)) (sym grouped) ∙ distinct-matches [] rows,
      )
