-- ===== src/Rpc/Show.antt =====
-- The handlers of call.go that show matches, lives and rooms: each reads its page through the cache
-- manager.
use apipro.Base.{
  ℕ, Bool, List, [], ◌∷◌, ◌++◌, Text, ℤ, pos, Option, some, Result, ok, err, eq_ℤ, ◌==◌, ◌*◌, codes,
  length, if◌then◌else◌,
}
use apipro.Cache.{CacheError, degrade_closed, circuit_open, Outside, Node, second, get_or_load_t}
use apipro.Catalog.{Library}
use apipro.Catalog.Merged.{Orders}
use apipro.Degrade.{Manager, level_display}
use apipro.Fallback.{FallbackSource}
use apipro.Redis.{Redis}
use apipro.Redis.Decimal.{print_int}
use apipro.Rpc.{code_business_error, code_rate_limited}
use apipro.Rpc.Auth.{no_text}
use apipro.Rpc.Call.{
  Display, matches_jsonp, match_recommend, match_detail, match_by_date, live_all_rooms, live_types,
  live_cate_list, live_hot, live_detail, room_detail, room_schedule, room_gift_rank,
}
use apipro.Rpc.Pages.{
  Page, matches, recommended, absent, Shape, catalog_map, item_list, any_map, live_type_list,
  schedule_map, rank_list, Tables, load_catalog, load_recommend, load_by_date,
  build_match_detail_payload, load_all_rooms, load_live_types, load_by_type, load_hot, load_room,
  load_schedule, load_gift_rank,
}
use apipro.Rpc.Wire.{
  Message, show_closed, unavailable, schedule_missing, match_unknown, date_malformed,
  live_type_missing, room_missing, room_unknown, cache_message,
}

-- A refusal, by its code and message.
abbrev pub Refused : Type 0
Refused = ℕ × Message

unfoldable pub handle_cache_error : CacheError → Refused
handle_cache_error degrade_closed = (code_rate_limited, show_closed)
handle_cache_error circuit_open = (code_business_error, unavailable)
handle_cache_error e = (code_business_error, cache_message e)

-- What the handlers take from outside: the codecs of the cache by the Go type of the page, the tables and
-- the fields of the requests, zero where the JSON has none.
pub record Shelf (r : Redis) (Json : Type 0) : Type 0 where
  pub connected : Bool
  pub chain : Option (List (Option (FallbackSource r.Db)))
  pub outside : Shape → Outside r.Db Page Json
  pub tables : Tables r.Db
  pub lib : Library
  pub orders : Orders
  pub today_key : r.Db → Text
  pub parse_schedule_id : Text → ℤ
  pub parse_date : Text → Text
  pub parse_live_type_id : Text → ℤ
  pub parse_room_num : Text → Text

module _ (r : Redis) {Json : Type 0} (shelf : Shelf r Json) (dgr : Manager) where
  open shelf use {tables, lib, orders}

  abbrev Handler : Type 0
  Handler = Node r.Db → Node r.Db × Result Refused Page

  abbrev pub answered : Node r.Db × Result CacheError Page → Node r.Db × Result Refused Page
  answered (n, ok page) = (n, ok page)
  answered (n, err e) = (n, err (handle_cache_error e))

  -- `cache.GetOrLoadT` on the level of display, for so many seconds, with the mapping of its error.
  unfoldable pub cached : Shape → Text → Text → ℕ → (r.Db → r.Db × Result CacheError Page) → Handler
  cached shape family key seconds loader n = answered (
      get_or_load_t r (shelf.outside shape) shelf.connected shelf.chain dgr
        record {
          family = family;
          key = key;
          ttl = seconds * second;
          level = level_display;
          breaker_name = [];
          loader = some loader;
        }
        n)

  -- A nil map is not shown.
  abbrev pub present : Message → Node r.Db × Result Refused Page → Node r.Db × Result Refused Page
  present missing (n, ok absent) = (n, err (code_business_error, missing))
  present missing reply = reply

  unfoldable pub handle_matches_jsonp : Handler
  handle_matches_jsonp =
      cached catalog_map (codes "match") (codes "catalog") 60 (load_catalog tables lib orders)

  -- The list with its count.
  abbrev pub counted : Node r.Db × Result Refused Page → Node r.Db × Result Refused Page
  counted (n, ok (matches items)) = (n, ok (recommended (length items) 1 items))
  counted reply = reply

  unfoldable pub handle_match_recommend : Handler
  handle_match_recommend n =
      counted (
        cached item_list (codes "match") (codes "recommend") 60 (load_recommend tables lib orders)
          n)

  unfoldable pub handle_match_detail : Text → Handler
  handle_match_detail param_json n =
      let id = shelf.parse_schedule_id param_json in
      if eq_ℤ id (pos 0)
      then (n, err (code_business_error, schedule_missing))
      else present match_unknown (
          cached any_map (codes "match") (codes "detail:" ++ print_int id) 60
            (build_match_detail_payload tables lib orders id) n)

  abbrev date_or_today : Text → Node r.Db → Text
  date_or_today [] n = shelf.today_key n.db
  date_or_today (c ∷ cs) n = c ∷ cs

  unfoldable pub handle_match_by_date : Text → Handler
  handle_match_by_date param_json n =
      let date = date_or_today (shelf.parse_date param_json) n in
      if length date == 8
      then cached item_list (codes "match") (codes "date:" ++ date) 60
          (load_by_date tables lib orders date) n
      else (n, err (code_business_error, date_malformed))

  unfoldable pub handle_all_live_rooms : Handler
  handle_all_live_rooms =
      cached any_map (codes "live") (codes "all") 15 (load_all_rooms tables lib orders)

  unfoldable pub handle_live_types : Handler
  handle_live_types =
      cached live_type_list (codes "live") (codes "types") 15 (load_live_types tables lib orders)

  unfoldable pub handle_live_cate_list : Text → Handler
  handle_live_cate_list param_json n =
      let id = shelf.parse_live_type_id param_json in
      if eq_ℤ id (pos 0)
      then (n, err (code_business_error, live_type_missing))
      else cached any_map (codes "live") (codes "listByType:" ++ print_int id) 15
          (load_by_type tables lib orders id) n

  unfoldable pub handle_live_hot : Handler
  handle_live_hot = cached any_map (codes "live") (codes "hot") 15 (load_hot tables lib orders)

  -- `handleLiveDetail` and `handleRoomDetail`, which share their key.
  unfoldable pub handle_room_detail : Text → Handler
  handle_room_detail param_json n =
      let room_num = shelf.parse_room_num param_json in
      if no_text room_num
      then (n, err (code_business_error, room_missing))
      else present room_unknown (
          cached any_map (codes "room") (codes "detail:" ++ room_num) 30
            (load_room tables lib orders room_num) n)

  unfoldable pub handle_room_schedule : Text → Handler
  handle_room_schedule param_json n =
      let room_num = shelf.parse_room_num param_json in
      if no_text room_num
      then (n, err (code_business_error, room_missing))
      else cached schedule_map (codes "room") (codes "schedule:" ++ room_num) 60
          (load_schedule tables lib orders room_num) n

  unfoldable pub handle_room_gift_rank : Text → Handler
  handle_room_gift_rank param_json n =
      let room_num = shelf.parse_room_num param_json in
      if no_text room_num
      then (n, err (code_business_error, room_missing))
      else cached rank_list (codes "room") (codes "gift_rank:" ++ room_num) 30
          (load_gift_rank tables lib orders room_num) n

  -- The cases of the dispatch that show.
  unfoldable pub show : Display → Text → Handler
  show matches_jsonp param_json = handle_matches_jsonp
  show match_recommend param_json = handle_match_recommend
  show match_detail param_json = handle_match_detail param_json
  show match_by_date param_json = handle_match_by_date param_json
  show live_all_rooms param_json = handle_all_live_rooms
  show live_types param_json = handle_live_types
  show live_cate_list param_json = handle_live_cate_list param_json
  show live_hot param_json = handle_live_hot
  show live_detail param_json = handle_room_detail param_json
  show room_detail param_json = handle_room_detail param_json
  show room_schedule param_json = handle_room_schedule param_json
  show room_gift_rank param_json = handle_room_gift_rank param_json
