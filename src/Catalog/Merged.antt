-- ===== src/Catalog/Merged.antt =====
-- `BuildMatchCatalog`: the groups of matches.json, of which one merges the others.
use apipro.Base.{ℕ, List, [], ◌∷◌, ◌++◌, ℤ, pos, Result, ltb_ℤ, take, if◌then◌else◌}
use apipro.Catalog.{MatchCatalogRow, MatchCatalogItem, Library, mem, ids, build_items}

-- The orders in which Go goes through a map: of the groups, and of the merged items.
pub record Orders : Type 0 where
  pub groups : List (List MatchCatalogItem) → List (List MatchCatalogItem)
  pub items : List MatchCatalogItem → List MatchCatalogItem

-- The first item of each id stays.
unfoldable pub add_absent : List MatchCatalogItem → List MatchCatalogItem → List MatchCatalogItem
add_absent all [] = all
add_absent all (it ∷ items) =
    add_absent (if mem it.schedule_id (ids all) then all else all ++ it ∷ []) items

unfoldable pub add_groups :
    List MatchCatalogItem → List (List MatchCatalogItem) → List MatchCatalogItem
unfolding add_absent
add_groups all [] = all
add_groups all (items ∷ groups) = add_groups (add_absent all items) groups

-- The map by its keys, as the JSON object has them.
pub record CatalogGroups : Type 0 where
  pub merged : List MatchCatalogItem
  pub football : List MatchCatalogItem
  pub basketball : List MatchCatalogItem
  pub analysis : List MatchCatalogItem
  pub hot : List MatchCatalogItem

module _ (lib : Library) (orders : Orders) where
  unfoldable pub merge : List (List MatchCatalogItem) → List MatchCatalogItem
  unfolding add_groups
  merge groups = take 30 (
      lib.sort_slice (λ a b. ltb_ℤ a.match_time b.match_time)
        (orders.items (add_groups [] (orders.groups groups))))

  -- The keys are the parents 1, 2 and 5; a query that fails leaves its group empty.
  unfoldable pub build_match_catalog :
      (ℤ → Result ℕ (List MatchCatalogRow)) → Result ℕ (List MatchCatalogRow) → CatalogGroups
  unfolding merge
  build_match_catalog list_catalog recommended =
      let one = build_items lib (list_catalog (pos 1)) in
      let two = build_items lib (list_catalog (pos 2)) in
      let five = build_items lib (list_catalog (pos 5)) in
      record {
        merged = merge (one ∷ two ∷ five ∷ []);
        football = one;
        basketball = two;
        analysis = five;
        hot = build_items lib recommended;
      }
