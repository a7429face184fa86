-- ===== src/Catalog/Tests.antt =====
-- Rows of two matches, one of them with two anchors; the groups of three types of rooms.
use apipro.Base.{
  ◌≡◌, refl, [], ◌∷◌, List, ℤ, pos, negsuc, none, some, codes, ok, err, eq_ℤ, if◌then◌else◌, arith,
  length, ◌⊎◌, ◌≤◌,
}
use apipro.Catalog.{
  MatchCatalogRow, MatchCatalogItem, Library, group_rows, add_row, with_anchor, ids,
  match_time_to_ms,
}
use apipro.Catalog.Groups.{all_live_rooms-groups}
use apipro.Catalog.Rooms.{look, build_all_live_rooms, rooms_or_none, Scanned, scanned, add_int64}
use apipro.Catalog.Shapes.{LiveRoom, LiveType}
use apipro.Redis.Decimal.{print_int}
use apipro.Catalog.Merged.{Orders, merge}
use apipro.Catalog.Merging.{OrderLaws, count, grouped, bit, merge_lem}
use apipro.Catalog.Grouping.{matches, group_rows-matches}

abbrev lib : Library
lib = record { parse_in_location = λ layout s. some (pos 1000); sort_slice = λ less items. items }

abbrev row : ℤ → ℤ → MatchCatalogRow
row id anchor = record {
  schedule_id = id;
  match_time = codes "2026-08-08";
  host_name = codes "a";
  guest_name = codes "b";
  host_score = pos 0;
  guest_score = pos 0;
  match_status = pos 1;
  host_icon = [];
  guest_icon = [];
  sub_cate_name = [];
  live_type = pos 1;
  live_type_parent = pos 1;
  category_icon = [];
  category_name = [];
  anchor_uid = anchor;
  anchor_nick_name = [];
  anchor_icon = [];
  room_num = [];
  room_detail = [];
  room_notice = [];
}

abbrev rows : List MatchCatalogRow
rows = row (pos 3) (pos 7) ∷ row (pos 2) (pos 0) ∷ row (pos 3) (pos 8) ∷ []

grouped_ids : ids (group_rows lib [] rows) ≡ pos 3 ∷ pos 2 ∷ []
unfolding group_rows add_row with_anchor match_time_to_ms
grouped_ids = refl

group_rows-matches_example : group_rows lib [] rows ≡ matches lib [] rows
group_rows-matches_example = group_rows-matches lib rows

abbrev room : ℤ → LiveRoom
room uid = record {
  uid = uid;
  room_num = [];
  title = [];
  contact = [];
  cover = [];
  custom_cover = [];
  notice = [];
  detail = [];
  live_flv = [];
  live_m3u8 = [];
  live_status = pos 1;
  room_status = pos 1;
  live_type = pos 1;
  live_type_parent = pos 1;
  focus_count = pos 0;
  fictitious_focus_count = pos 0;
  visit_count = pos 9223372036854775807;
  fictitious_visit_count = pos 1;
  mark_type = pos 0;
  assistant_uid = pos 0;
  hd = pos 0;
  stream_type = pos 0;
  push_content = [];
  anchor_nick_name = [];
  anchor_icon = [];
  assistant_nick_name = [];
  assistant_icon = [];
}

abbrev live_type : ℤ → LiveType
live_type id = record {
  live_type_id = id;
  parent_id = pos 0;
  type_name = [];
  icon = [];
  status = pos 1;
  sort = pos 0;
}

abbrev types : List LiveType
types = live_type (pos 1) ∷ live_type (pos 0) ∷ live_type (pos 25) ∷ []

-- The query of type 25 fails after a row.
abbrev by_type : ℤ → Scanned
by_type id = if eq_ℤ id (pos 25) then (room id ∷ [], some 0) else (room id ∷ [], none)

-- The sum of views wraps around.
views_wrap :
    add_int64 (room (pos 1)).visit_count (room (pos 1)).fictitious_visit_count
    ≡ negsuc 9223372036854775807
views_wrap = refl

all_live_rooms-groups_example :
    let groups = build_all_live_rooms (ok (room (pos 4) ∷ [])) (ok types) by_type (err 0) in
    (look (codes "hot") groups ≡ some (rooms_or_none (ok (room (pos 4) ∷ []))))
    × (look (codes "0") groups ≡ some (rooms_or_none (err 0)))
    × (look (print_int (pos 25)) groups ≡ some (scanned (by_type (pos 25))))
all_live_rooms-groups_example =
    all_live_rooms-groups (ok (room (pos 4) ∷ [])) (err 0) types by_type (pos 25)
      (omega arith, (omega arith, (omega arith, tt))) refl refl

abbrev orders : Orders
orders = record { groups = λ gs. gs; items = λ items. items }

keeps : OrderLaws lib orders
keeps = record {
  count-sort_slice = λ less id items. refl;
  count-items = λ id items. refl;
  grouped-groups = λ id gs. refl;
}

abbrev groups : List (List MatchCatalogItem)
groups = group_rows lib [] rows ∷ group_rows lib [] rows ∷ []

merge_lem_example :
    (length (merge lib orders groups) ≤ 30)
    × (count (pos 3) (merge lib orders groups) ≤ bit (grouped (pos 3) groups))
    × ((length (merge lib orders groups) ≡ 30)
        ⊎ (count (pos 3) (merge lib orders groups) ≡ bit (grouped (pos 3) groups)))
merge_lem_example = merge_lem lib orders groups (pos 3) keeps
