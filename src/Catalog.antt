-- ===== src/Catalog.antt =====
-- cmd/rpc/internal/svc/builders.go: rows of matches and rooms turned into what the pages show. `time` and
-- `sort` of Go's standard library are parameters.
pub mod Grouping
pub mod Shapes
pub mod Rooms
pub mod Groups
pub mod Merged
pub mod Merging
mod Tests
use apipro.Base.{
  ℕ, ◌+◌, Bool, true, false, ◌||◌, List, [], ◌∷◌, ◌++◌, map, Text, ℤ, pos, negsuc, Option, none,
  some, Result, ok, err, ltb_ℤ, eq_ℤ, codes, length, ◌==◌, take, drop, if◌then◌else◌,
}

-- One row for a match and one of its anchors; a match without an anchor has the uid 0.
pub record MatchCatalogRow : Type 0 where
  pub schedule_id : ℤ
  pub match_time : Text
  pub host_name : Text
  pub guest_name : Text
  pub host_score : ℤ
  pub guest_score : ℤ
  pub match_status : ℤ
  pub host_icon : Text
  pub guest_icon : Text
  pub sub_cate_name : Text
  pub live_type : ℤ
  pub live_type_parent : ℤ
  pub category_icon : Text
  pub category_name : Text
  pub anchor_uid : ℤ
  pub anchor_nick_name : Text
  pub anchor_icon : Text
  pub room_num : Text
  pub room_detail : Text
  pub room_notice : Text

pub record MatchAnchorProfile : Type 0 where
  pub room_num : Text
  pub detail : Text
  pub notice : Text

pub record MatchAnchorItem : Type 0 where
  pub uid : ℤ
  pub nick_name : Text
  pub icon : Text
  pub cut_out_icon : Text
  pub anchor : MatchAnchorProfile

pub record MatchCatalogItem : Type 0 where
  pub schedule_id : ℤ
  pub match_time : ℤ
  pub host_name : Text
  pub guest_name : Text
  pub host_icon : Text
  pub guest_icon : Text
  pub sub_cate_name : Text
  pub category_id : ℤ
  pub category_name : Text
  pub category_icon : Text
  pub host_score : ℤ
  pub guest_score : ℤ
  pub match_status : ℤ
  pub status : ℤ
  pub match_status_desc : Text
  pub anchors : List MatchAnchorItem

pub record MatchItem : Type 0 where
  pub schedule_id : ℤ
  pub match_time : ℤ
  pub host_name : Text
  pub guest_name : Text
  pub host_icon : Text
  pub guest_icon : Text
  pub sub_cate_name : Text
  pub category_icon : Text

-- `time.ParseInLocation` in the local zone, in milliseconds; `sort.Slice` by a less function.
pub record Library : Type 0 where
  pub parse_in_location : Text → Text → Option ℤ
  pub sort_slice :
      (MatchCatalogItem → MatchCatalogItem → Bool) → List MatchCatalogItem → List MatchCatalogItem

abbrev layouts : List Text
layouts =
    codes "2006-01-02 15:04:05"
    ∷ codes "2006-01-02T15:04:05"
    ∷ codes "2006-01-02T15:04:05Z07:00"
    ∷ codes "2006-01-02"
    ∷ []

abbrev pub mem : ℤ → List ℤ → Bool
mem x [] = false
mem x (y ∷ ys) = eq_ℤ x y || mem x ys

abbrev pub ids : List MatchCatalogItem → List ℤ
ids [] = []
ids (it ∷ items) = it.schedule_id ∷ ids items

-- `it.Anchors = append(it.Anchors, ...)` for the row's anchor, if it has one.
abbrev pub anchors_of : MatchCatalogRow → List MatchAnchorItem
anchors_of r =
    if ltb_ℤ (pos 0) r.anchor_uid
    then record {
      uid = r.anchor_uid;
      nick_name = r.anchor_nick_name;
      icon = r.anchor_icon;
      cut_out_icon = r.anchor_icon;
      anchor = record { room_num = r.room_num; detail = r.room_detail; notice = r.room_notice };
    }
      ∷ []
    else []

unfoldable pub with_anchor : MatchCatalogRow → MatchCatalogItem → MatchCatalogItem
with_anchor r it =
    if eq_ℤ it.schedule_id r.schedule_id
    then record it { anchors = it.anchors ++ anchors_of r }
    else it

module _ (lib : Library) where
  -- The loop over the layouts.
  abbrev first_parsed : List Text → Text → ℤ
  first_parsed [] s = pos 0
  first_parsed (layout ∷ rest) s = elim (lib.parse_in_location layout s) [
    | none ↦ first_parsed rest s
    | some ms ↦ ms
  ]

  unfoldable pub match_time_to_ms : Text → ℤ
  match_time_to_ms [] = pos 0
  match_time_to_ms (c ∷ cs) = first_parsed layouts (c ∷ cs)

  abbrev pub new_item : MatchCatalogRow → MatchCatalogItem
  new_item r = record {
    schedule_id = r.schedule_id;
    match_time = match_time_to_ms r.match_time;
    host_name = r.host_name;
    guest_name = r.guest_name;
    host_icon = r.host_icon;
    guest_icon = r.guest_icon;
    sub_cate_name = r.sub_cate_name;
    category_id = r.live_type_parent;
    category_name = r.category_name;
    category_icon = r.category_icon;
    host_score = r.host_score;
    guest_score = r.guest_score;
    match_status = r.match_status;
    status = pos 1;
    match_status_desc = [];
    anchors = [];
  }

  -- One turn of the loop: the items stand in the order of their first rows, and the map from ids to items
  -- is the look-up by id.
  unfoldable pub add_row : List MatchCatalogItem → MatchCatalogRow → List MatchCatalogItem
  add_row items r =
      map (with_anchor r)
        (if mem r.schedule_id (ids items) then items else items ++ new_item r ∷ [])

  unfoldable pub group_rows : List MatchCatalogItem → List MatchCatalogRow → List MatchCatalogItem
  group_rows items [] = items
  group_rows items (r ∷ rows) = group_rows (add_row items r) rows

  unfoldable pub group_catalog_rows : List MatchCatalogRow → List MatchCatalogItem
  group_catalog_rows rows =
      lib.sort_slice (λ a b. ltb_ℤ a.match_time b.match_time) (group_rows [] rows)

  -- `BuildRecommend` and `BuildMatchByDate`, from what the query gave.
  unfoldable pub build_items : Result ℕ (List MatchCatalogRow) → List MatchCatalogItem
  build_items (ok rows) = group_catalog_rows rows
  build_items (err e) = []

  abbrev pub match_item : MatchCatalogRow → MatchItem
  match_item r = record {
    schedule_id = r.schedule_id;
    match_time = match_time_to_ms r.match_time;
    host_name = r.host_name;
    guest_name = r.guest_name;
    host_icon = r.host_icon;
    guest_icon = r.guest_icon;
    sub_cate_name = r.sub_cate_name;
    category_icon = r.category_icon;
  }

  -- The loop of `BuildRoomSchedule` with the ids it has seen.
  unfoldable pub schedule_items : List ℤ → List MatchCatalogRow → List MatchItem
  schedule_items seen [] = []
  schedule_items seen (r ∷ rows) =
      let skipped = schedule_items seen rows in
      let taken = schedule_items (r.schedule_id ∷ seen) rows in
      if mem r.schedule_id seen then skipped else match_item r ∷ taken

  unfoldable pub build_room_schedule : Result ℕ (List MatchCatalogRow) → List MatchItem
  build_room_schedule (ok rows) = schedule_items [] rows
  build_room_schedule (err e) = []
