-- ===== src/Rpc/ShowTests.antt =====
-- A request for the hot rooms at a node whose mode is EMERGENCY.
use apipro.Base.{true, [], ◌∷◌, pos, none, some, ok, err, ℕ, codes}
use apipro.Cache.{Outside, Node}
use apipro.Catalog.{Library}
use apipro.Catalog.Merged.{Orders}
use apipro.Degrade.{Manager, mode_emergency}
use apipro.Fallback.{new_counters}
use apipro.Redis.Memory.{Db, memory}
use apipro.Rpc.Pages.{Page, absent, Tables}
use apipro.Rpc.Show.{Shelf}

abbrev outside : Outside Db Page ℕ
outside = record {
  l1_get = λ k db. (db, none);
  l1_set = λ k v t db. db;
  l1_del = λ k db. db;
  unix_nano = λ db. 1000;
  admits = λ name db. (db, true);
  mark = λ name b db. db;
  in_flight = λ name db. none;
  trim_space = λ s. s;
  marshal = λ t. ok [];
  unmarshal_any = λ s. err 1;
  marshal_any = λ v. ok (v ∷ []);
  unmarshal_t = λ s. ok absent;
  assert_t = λ v. none;
}

abbrev empty_tables : Tables Db
empty_tables = record {
  list_catalog = λ parents n db. ok [];
  list_recommend = λ n db. ok [];
  list_by_date = λ date n db. ok [];
  list_by_room = λ room n db. ok [];
  list_rooms_by_schedule = λ id n db. ([], none);
  list_hot = λ n db. ok [];
  list_by_type = λ id n db. ([], none);
  list_all_visible = λ n db. ok [];
  find_by_room_num = λ room db. err 1;
  list_top_level = λ db. ok [];
  list_top_by_room = λ room n db. ok [];
}

abbrev lib : Library
lib = record { parse_in_location = λ layout s. some (pos 1000); sort_slice = λ less items. items }

abbrev orders : Orders
orders = record { groups = λ gs. gs; items = λ its. its }

abbrev pub shelf : Shelf memory ℕ
shelf = record {
  connected = true;
  chain = none;
  outside = λ shape. outside;
  tables = empty_tables;
  lib = lib;
  orders = orders;
  today_key = λ db. codes "20260808";
  parse_schedule_id = λ s. pos 0;
  parse_date = λ s. s;
  parse_live_type_id = λ s. pos 0;
  parse_room_num = λ s. s;
}

abbrev emergency : Manager
emergency = record { mode = mode_emergency; watchers = [] }

abbrev node : Node Db
node = record {
  db = record { texts = λ k. []; windows = λ k. []; fails = [] };
  stats = record { hits = λ n. 0; misses = λ n. 0 };
  counters = new_counters;
  pending = [];
}
