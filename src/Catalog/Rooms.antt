-- ===== src/Catalog/Rooms.antt =====
-- The builders of rooms, live types and gift ranks in cmd/rpc/internal/svc/builders.go, from what the
-- queries gave.
use apipro.Base.{
  ℕ, ◌+◌, ◌-◌, ◌%◌, ◌^◌, List, [], ◌∷◌, map, Text, ℤ, pos, negsuc, Option, none, some, Result, ok,
  err, ltb, ltb_ℤ, text_eq, codes, if◌then◌else◌,
}
use apipro.Catalog.Shapes.{
  LiveRoom, LiveType, RoomGiftRank, AnchorResult, RoomResult, LiveTypeJson, AssistantUserResult,
  RoomDetailResult, PlayStreamUrls, GiftRankItem,
}
use apipro.Redis.Decimal.{print_int}

-- Sums of int64 wrap around.
abbrev word : ℤ → ℕ
word (pos n) = n % 2 ^ 64
word (negsuc n) = 2 ^ 64 - 1 - n % 2 ^ 64

abbrev signed : ℕ → ℤ
signed w = if ltb w (2 ^ 63) then pos w else negsuc (2 ^ 64 - 1 - w)

abbrev pub add_int64 : ℤ → ℤ → ℤ
add_int64 a b = signed ((word a + word b) % 2 ^ 64)

abbrev anchor_of : LiveRoom → AnchorResult
anchor_of r = record {
  uid = r.uid;
  nick_name = r.anchor_nick_name;
  icon = r.anchor_icon;
  cut_out_icon = r.anchor_icon;
  room_num = r.room_num;
  notice = r.notice;
}

abbrev pub room_result : LiveRoom → RoomResult
room_result r = record {
  room_num = r.room_num;
  title = r.title;
  cover = r.cover;
  cut_out_custom_cover_url = [];
  mark_type = r.mark_type;
  live_status = r.live_status;
  hd = r.hd;
  view_count = add_int64 r.visit_count r.fictitious_visit_count;
  focus_count = add_int64 r.focus_count r.fictitious_focus_count;
  anchor = anchor_of r;
}

unfoldable pub rooms_to_results : List LiveRoom → List RoomResult
rooms_to_results rooms = map room_result rooms

abbrev live_type_json : LiveType → LiveTypeJson
live_type_json lt = record {
  live_type_id = lt.live_type_id;
  type_name = lt.type_name;
  parent_id = lt.parent_id;
  icon = lt.icon;
}

unfoldable pub build_live_types_json : List LiveType → List LiveTypeJson
build_live_types_json lts = map live_type_json lts

abbrev assistant_of : LiveRoom → Option AssistantUserResult
assistant_of r =
    if ltb_ℤ (pos 0) r.assistant_uid
    then some
        record { uid = r.assistant_uid; nick_name = r.assistant_nick_name; icon = r.assistant_icon }
    else none

abbrev room_detail : LiveRoom → RoomDetailResult
room_detail r = record {
  room_num = r.room_num;
  title = r.title;
  contact = r.contact;
  hd = r.hd;
  cover = r.cover;
  notice = r.notice;
  detail = r.detail;
  live_flv = r.live_flv;
  live_m3u8 = r.live_m3u8;
  live_status = r.live_status;
  view_count = add_int64 r.visit_count r.fictitious_visit_count;
  focus_count = add_int64 r.focus_count r.fictitious_focus_count;
  anchor = anchor_of r;
  assistant_user = assistant_of r;
}

abbrev stream_of : LiveRoom → PlayStreamUrls
stream_of r = record {
  flv = r.live_flv;
  hd_flv = r.live_flv;
  m3u8 = r.live_m3u8;
  hd_m3u8 = r.live_m3u8;
}

-- The fields `room` and `stream`; nothing where the query failed.
unfoldable pub build_room_detail : Result ℕ LiveRoom → Option (RoomDetailResult × PlayStreamUrls)
build_room_detail (ok r) = some (room_detail r, stream_of r)
build_room_detail (err e) = none

-- A map by its keys; a key is written over.
abbrev pub Groups : Type 0
Groups = List (Text × List RoomResult)

unfoldable pub look : Text → Groups → Option (List RoomResult)
look k [] = none
look k ((key, rooms) ∷ rest) =
    let found = look k rest in if text_eq k key then some rooms else found

abbrev pub put : Text → List RoomResult → Groups → Groups
put k rooms groups = (k, rooms) ∷ groups

abbrev pub rooms_or_none : Result ℕ (List LiveRoom) → List RoomResult
rooms_or_none (ok rooms) = map room_result rooms
rooms_or_none (err e) = []

-- The rows that a query has scanned and its error, if it has one: the end of the rows may report one
-- after some of them.
abbrev pub Scanned : Type 0
Scanned = List LiveRoom × Option ℕ

-- Where the error is looked at, and where it is not.
abbrev pub unless_failed : Scanned → List RoomResult
unless_failed (rooms, none) = map room_result rooms
unless_failed (rooms, some e) = []

abbrev pub scanned : Scanned → List RoomResult
scanned (rooms, e) = map room_result rooms

-- The loop over the top types, which drops the error of a query and keeps its rows.
unfoldable pub add_types : (ℤ → Scanned) → List LiveType → Groups → Groups
add_types list_by_type [] groups = groups
add_types list_by_type (lt ∷ lts) groups =
    add_types list_by_type lts
      (put (print_int lt.live_type_id) (scanned (list_by_type lt.live_type_id)) groups)

abbrev types_or_none : Result ℕ (List LiveType) → List LiveType
types_or_none (ok lts) = lts
types_or_none (err e) = []

unfoldable pub build_all_live_rooms :
    Result ℕ (List LiveRoom)
    → Result ℕ (List LiveType)
    → (ℤ → Scanned)
    → Result ℕ (List LiveRoom)
    → Groups
unfolding add_types
build_all_live_rooms hot lts list_by_type all =
    put (codes "0") (rooms_or_none all)
      (add_types list_by_type (types_or_none lts) (put (codes "hot") (rooms_or_none hot) []))

abbrev gift_rank_item : RoomGiftRank → GiftRankItem
gift_rank_item r = record {
  user = record {
    uid = r.uid;
    nick_name = r.nick_name;
    icon = r.icon;
    cut_out_icon = [];
    user_type = pos 0;
    score = pos 0;
    grow = pos 0;
    grow_dto = record { id = pos 0; name = []; next_min_grow = pos 0 };
    gender = pos 0;
    birthday = pos 0;
    login_name = [];
    phone = [];
    country_code = [];
  };
  contribution = r.score;
}

unfoldable pub build_gift_rank : Result ℕ (List RoomGiftRank) → List GiftRankItem
build_gift_rank (ok ranks) = map gift_rank_item ranks
build_gift_rank (err e) = []
