-- ===== src/Rpc/Pages.antt =====
-- What the handlers that show read and build: the pages, the queries behind them and the loaders.
use apipro.Base.{
  ℕ, List, [], ◌∷◌, Text, ℤ, pos, Option, none, some, Result, ok, err, eq_ℤ, if◌then◌else◌,
}
use apipro.Cache.{CacheError, loading}
use apipro.Catalog.{
  MatchCatalogRow, MatchCatalogItem, MatchItem, Library, group_catalog_rows, build_items,
  build_room_schedule,
}
use apipro.Catalog.Merged.{Orders, CatalogGroups, build_match_catalog}
use apipro.Catalog.Rooms.{
  Groups, rooms_or_none, Scanned, unless_failed, scanned, build_all_live_rooms,
  build_live_types_json, build_room_detail, build_gift_rank,
}
use apipro.Catalog.Shapes.{
  LiveRoom, LiveType, RoomGiftRank, RoomResult, LiveTypeJson, RoomDetailResult, PlayStreamUrls,
  GiftRankItem,
}

-- What a handler shows; a nil map is `absent`.
pub data Page : Type 0 where
  catalog : CatalogGroups → Page
  matches : List MatchCatalogItem → Page
  -- the count, the number of the page and the matches
  recommended : ℕ → ℕ → List MatchCatalogItem → Page
  match_with_rooms : MatchItem → List RoomResult → Page
  all_rooms : Groups → Page
  live_types : List LiveTypeJson → Page
  rooms : List RoomResult → Page
  hot : List RoomResult → Page
  room : RoomDetailResult → PlayStreamUrls → Page
  schedule : List MatchItem → Page
  gift_rank : List GiftRankItem → Page
  absent : Page

-- The Go types that the pages have, by which the JSON codec reads them.
pub data Shape : Type 0 where
  catalog_map item_list any_map live_type_list schedule_map rank_list : Shape

-- The queries of common/model that the loaders make. They read, so that what they are asked in leaves
-- the environment as it is.
pub record Tables (Db : Type 0) : Type 0 where
  pub list_catalog : List ℤ → ℕ → Db → Result ℕ (List MatchCatalogRow)
  pub list_recommend : ℕ → Db → Result ℕ (List MatchCatalogRow)
  pub list_by_date : Text → ℕ → Db → Result ℕ (List MatchCatalogRow)
  pub list_by_room : Text → ℕ → Db → Result ℕ (List MatchCatalogRow)
  pub list_rooms_by_schedule : ℤ → ℕ → Db → Scanned
  pub list_hot : ℕ → Db → Result ℕ (List LiveRoom)
  pub list_by_type : ℤ → ℕ → Db → Scanned
  pub list_all_visible : ℕ → Db → Result ℕ (List LiveRoom)
  pub find_by_room_num : Text → Db → Result ℕ LiveRoom
  pub list_top_level : Db → Result ℕ (List LiveType)
  pub list_top_by_room : Text → ℕ → Db → Result ℕ (List RoomGiftRank)

-- The short form of a match.
abbrev pub short_item : MatchCatalogItem → MatchItem
short_item it = record {
  schedule_id = it.schedule_id;
  match_time = it.match_time;
  host_name = it.host_name;
  guest_name = it.guest_name;
  host_icon = it.host_icon;
  guest_icon = it.guest_icon;
  sub_cate_name = it.sub_cate_name;
  category_icon = it.category_icon;
}

-- The loop that looks for a match.
abbrev pub find_item : ℤ → List MatchCatalogItem → Option MatchCatalogItem
find_item id [] = none
find_item id (it ∷ items) =
    let rest = find_item id items in if eq_ℤ it.schedule_id id then some it else rest

module _ {Db : Type 0} (t : Tables Db) (lib : Library) (orders : Orders) where
  abbrev Loader : Type 0
  Loader = Db → Db × Result CacheError Page

  unfoldable pub load_catalog : Loader
  load_catalog db = (
    db,
    ok (
        catalog (
          build_match_catalog lib orders (λ parent. t.list_catalog (parent ∷ []) 30 db)
            (t.list_recommend 8 db))),
  )

  unfoldable pub load_recommend : Loader
  load_recommend db = (db, ok (matches (build_items lib (t.list_recommend 8 db))))

  unfoldable pub load_by_date : Text → Loader
  load_by_date date db = (db, ok (matches (build_items lib (t.list_by_date date 100 db))))

  abbrev with_rooms : Scanned → Option MatchCatalogItem → Page
  with_rooms linked none = absent
  with_rooms linked (some it) = match_with_rooms (short_item it) (scanned linked)

  abbrev match_payload : ℤ → Scanned → Result ℕ (List MatchCatalogRow) → Result CacheError Page
  match_payload id linked (err e) = err (loading e)
  match_payload id linked (ok rows) =
      ok (with_rooms linked (find_item id (group_catalog_rows lib rows)))

  unfoldable pub build_match_detail_payload : ℤ → Loader
  build_match_detail_payload id db = (
    db,
    match_payload id (t.list_rooms_by_schedule id 50 db)
        (t.list_catalog (pos 1 ∷ pos 2 ∷ pos 5 ∷ []) 200 db),
  )

  unfoldable pub load_all_rooms : Loader
  load_all_rooms db = (
    db,
    ok (
        all_rooms (
          build_all_live_rooms (t.list_hot 50 db) (t.list_top_level db)
            (λ id. t.list_by_type id 50 db) (t.list_all_visible 200 db))),
  )

  abbrev types_page : Result ℕ (List LiveType) → Result CacheError Page
  types_page (ok lts) = ok (live_types (build_live_types_json lts))
  types_page (err e) = err (loading e)

  unfoldable pub load_live_types : Loader
  load_live_types db = (db, types_page (t.list_top_level db))

  unfoldable pub load_by_type : ℤ → Loader
  load_by_type id db = (db, ok (rooms (unless_failed (t.list_by_type id 50 db))))

  unfoldable pub load_hot : Loader
  load_hot db = (db, ok (hot (rooms_or_none (t.list_hot 50 db))))

  abbrev pub room_page : Option (RoomDetailResult × PlayStreamUrls) → Page
  room_page none = absent
  room_page (some (detail, stream)) = room detail stream

  unfoldable pub load_room : Text → Loader
  load_room room_num db = (db, ok (room_page (build_room_detail (t.find_by_room_num room_num db))))

  unfoldable pub load_schedule : Text → Loader
  load_schedule room_num db =
      (db, ok (schedule (build_room_schedule lib (t.list_by_room room_num 50 db))))

  unfoldable pub load_gift_rank : Text → Loader
  load_gift_rank room_num db =
      (db, ok (gift_rank (build_gift_rank (t.list_top_by_room room_num 10 db))))
