-- ===== src/Cache/Tests.antt =====
-- A number that is cached as a text of one character.
use apipro.Base.{
  inr, ℕ, ◌≡◌, ◌≤◌, ◌<◌, refl, true, [], ◌∷◌, Text, none, some, Result, ok, err, codes, inl,
}
use apipro.Cache.{
  CacheError, loading, Outside, Options, Node, l1_l2_write, run_task, get_or_load_t, build_key,
  l1_ttl_of,
}
use apipro.Cache.Lifetimes.{l1_ttl_of-bounds}
use apipro.Cache.Reads.{get_or_load_t-run_task}
use apipro.Degrade.{Manager, mode_degraded, level_display, can_serve_level, serve_table}
use apipro.Fallback.{new_counters}
use apipro.Redis.Memory.{Db, memory, memory_laws}

abbrev first : Text → Result ℕ ℕ
first [] = err 1
first (c ∷ cs) = ok c

abbrev outside : Outside Db ℕ ℕ
outside = record {
  l1_get = λ k db. (db, none);
  l1_set = λ k v t db. db;
  l1_del = λ k db. db;
  unix_nano = λ db. 1000;
  admits = λ name db. (db, true);
  mark = λ name b db. db;
  in_flight = λ name db. none;
  trim_space = λ s. s;
  marshal = λ t. ok (t ∷ []);
  unmarshal_any = first;
  marshal_any = λ v. ok (v ∷ []);
  unmarshal_t = first;
  assert_t = λ v. none;
}

abbrev failing : Db → Db × Result CacheError ℕ
failing db = (db, err (loading 1))

abbrev opts : Options Db ℕ
opts = record {
  family = codes "live";
  key = codes "hot";
  ttl = 15000000000;
  level = level_display;
  breaker_name = [];
  loader = some failing;
}

abbrev empty : Db
empty = record { texts = λ k. []; windows = λ k. []; fails = [] }

abbrev key : Text
unfolding build_key
key = build_key memory outside opts.family opts.key

abbrev node : Node Db
unfolding run_task key
node = record {
  db = run_task memory outside true (l1_l2_write key (7 ∷ []) opts.ttl) empty;
  stats = record { hits = λ n. 0; misses = λ n. 0 };
  counters = new_counters;
  pending = [];
}

abbrev degraded : Manager
degraded = record { mode = mode_degraded; watchers = [] }

get_or_load_t-run_task_example :
    (get_or_load_t memory outside true none degraded opts node).1 ≡ ok 7
unfolding run_task build_key key node can_serve_level serve_table
get_or_load_t-run_task_example =
    get_or_load_t-run_task memory outside memory_laws none degraded opts failing node empty 7
      (7 ∷ []) (7 ∷ [])
      record {
        any = 7;
        body' = 7 ∷ [];
        full = λ e. cc e;
        written = refl;
        read_any = refl;
        back = inr (refl, refl, refl);
      }
      refl refl refl refl refl refl (inl refl) refl

l1_ttl_of-bounds_example :
    (4500000000 ≤ l1_ttl_of 1000000000 12345) × (l1_ttl_of 1000000000 12345 < 66000000000)
l1_ttl_of-bounds_example = l1_ttl_of-bounds 1000000000 12345
