-- ===== src/Cache.antt =====
-- common/cache/manager.go: the reads of the cache manager. The in-process cache, the breaker, the merging
-- of calls in flight and the JSON codec are not part of the repository: they are parameters. What the
-- program leaves to a goroutine of its own waits in `pending` until it runs.
pub mod Reads
pub mod Lifetimes
mod Tests
use apipro.Base.{
  ℕ, ◌+◌, ◌-◌, ◌*◌, ◌/◌, ◌%◌, Bool, true, false, List, [], ◌∷◌, ◌++◌, Text, ℤ, pos, Option, none,
  some, Result, ok, err, ltb, eq_ℤ, codes, if◌then◌else◌,
}
use apipro.Degrade.{Manager, Level, can_serve_level, level_write}
use apipro.Fallback.{FallbackSource, Counters, Found, get_or_error, bump}
use apipro.Redis.{Redis}

-- The errors of a read; those of the JSON codec with its own number.
pub data CacheError : Type 0 where
  no_loader no_family degrade_closed circuit_open no_fallback redis_nil : CacheError
  loading unmarshal marshal_conv unmarshal_conv : ℕ → CacheError

-- Go's `any`: what the loader gave, or decoded JSON.
pub data Value (T Json : Type 0) : Type 0 where
  loaded : T → Value T Json
  decoded : Json → Value T Json

-- What the manager takes from outside, for values of type T.
pub record Outside (Db T Json : Type 0) : Type 0 where
  pub l1_get : Text → Db → Db × Option Text
  pub l1_set : Text → Text → ℕ → Db → Db
  pub l1_del : Text → Db → Db
  pub unix_nano : Db → ℕ
  -- if the breaker of a name lets a call through, and how it is told if the outcome is acceptable
  pub admits : Text → Db → Db × Bool
  pub mark : Text → Bool → Db → Db
  -- the outcome of a call with the same key that is in flight, if there is one
  pub in_flight : Text → Db → Option (Db × Result CacheError T)
  pub trim_space : Text → Text
  pub marshal : T → Result ℕ Text
  pub unmarshal_any : Text → Result ℕ Json
  pub marshal_any : Json → Result ℕ Text
  pub unmarshal_t : Text → Result ℕ T
  -- the assertion `v.(T)` of decoded JSON, which holds where T is the type of decoded objects
  pub assert_t : Json → Option T

-- Times are in nanoseconds.
pub record Options (Db T : Type 0) : Type 0 where
  pub family : Text
  pub key : Text
  pub ttl : ℕ
  pub level : Level
  pub breaker_name : Text
  pub loader : Option (Db → Db × Result CacheError T)

-- What a goroutine is left to do.
pub data Task : Type 0 where
  l1_write : Text → Text → ℕ → Task
  l1_l2_write : Text → Text → ℕ → Task

pub record Stats : Type 0 where
  pub hits : Text → ℕ
  pub misses : Text → ℕ

pub record Node (Db : Type 0) : Type 0 where
  pub db : Db
  pub stats : Stats
  pub counters : Counters
  pub pending : List Task

abbrev pub second : ℕ
second = 1000000000

abbrev pub l1_ttl_min : ℕ
l1_ttl_min = 5 * second

abbrev pub l1_ttl_max : ℕ
l1_ttl_max = 60 * second

abbrev pub clamped : ℕ → ℕ
clamped half =
    let low = if ltb half l1_ttl_min then l1_ttl_min else half in
    if ltb l1_ttl_max low then l1_ttl_max else low

abbrev pub jittered : ℕ → ℕ → ℕ
jittered half nanos =
    let jitter = half / 10 in if ltb 0 jitter then half - jitter + nanos % (jitter * 2) else half

unfoldable pub l1_ttl_of : ℕ → ℕ → ℕ
l1_ttl_of ttl nanos = jittered (clamped (ttl / 2)) nanos

abbrev pub is_empty : Text → Bool
is_empty [] = true
is_empty (c ∷ cs) = false

-- `acceptable`
abbrev pub acceptable : {T : Type 0} → Result CacheError T → Bool
acceptable (err redis_nil) = true
acceptable (err no_fallback) = true
acceptable (err e) = false
acceptable (ok t) = true

module _ (r : Redis) {T Json : Type 0} (out : Outside r.Db T Json) where
  unfoldable pub build_key : Text → Text → Text
  build_key family key = codes "apipro:" ++ (family ++ (codes ":" ++ out.trim_space key))

  -- `Stats.Hit` and `Stats.Miss`
  abbrev pub hit_counted : Text → Node r.Db → Node r.Db
  hit_counted name n = record n { stats = record (n.stats) { hits = bump name n.stats.hits } }

  abbrev pub miss_counted : Text → Node r.Db → Node r.Db
  miss_counted name n = record n { stats = record (n.stats) { misses = bump name n.stats.misses } }

  -- `go ...`
  abbrev pub spawn : Task → Node r.Db → Node r.Db
  spawn task n = record n { pending = n.pending ++ task ∷ [] }

  -- The body of a goroutine. Redis and the in-process cache each take the write or do not.
  unfoldable pub run_task : Bool → Task → r.Db → r.Db
  run_task connected (l1_write key body ttl) db =
      out.l1_set key body (l1_ttl_of ttl (out.unix_nano db) / second) db
  run_task connected (l1_l2_write key body ttl) db =
      let db' = out.l1_set key body (l1_ttl_of ttl (out.unix_nano db) / second) db in
      if connected then (r.setex key body (ttl / second) db').0 else db'

  -- The value of `writeBack` is encoded when the goroutine runs; here, when it starts.
  abbrev write_back : Options r.Db T → T → Node r.Db → Node r.Db
  write_back opts t n = elim (out.marshal t) [
    | err e ↦ n
    | ok body ↦ spawn (l1_l2_write (build_key opts.family opts.key) body opts.ttl) n
  ]

  abbrev pub as_any : Result ℕ Json → Result CacheError (Value T Json)
  as_any (ok v) = ok (decoded v)
  as_any (err e) = err (unmarshal e)

  abbrev pub json_unmarshal_any : Text → Result CacheError (Value T Json)
  json_unmarshal_any raw = as_any (out.unmarshal_any raw)

  -- What a call that was turned away answers, after the chain of fallbacks was asked.
  unfoldable pub try_fallback :
      Bool
      → Option (List (Option (FallbackSource r.Db)))
      → Options r.Db T
      → Node r.Db
      → Node r.Db × CacheError
  try_fallback connected none opts n = (n, circuit_open)
  try_fallback connected (some sources) opts n =
      let f = get_or_error opts.family opts.key sources (n.counters, n.db) in
      let n' : Node r.Db = record n { db = f.0.1; counters = f.0.0 } in
      elim f.1 [
        | none ↦ (n', circuit_open)
        | some found ↦
            (spawn (l1_l2_write (build_key opts.family opts.key) found.0 opts.ttl) n', circuit_open)
      ]

  -- The leader of a flight runs the loader and leaves the write-back to a goroutine.
  abbrev led :
      Options r.Db T → Node r.Db → r.Db × Result CacheError T → Node r.Db × Result CacheError T
  led opts n (db, ok t) = (write_back opts t (record n { db = db }), ok t)
  led opts n (db, err e) = (record n { db = db }, err e)

  unfoldable pub flown :
      Text
      → (r.Db → r.Db × Result CacheError T)
      → Options r.Db T
      → Node r.Db
      → Node r.Db × Result CacheError T
  flown name loader opts n = elim (out.in_flight (name ++ (codes ":" ++ opts.key)) n.db) [
    | some shared ↦ (record n { db = shared.0 }, shared.1)
    | none ↦ led opts n (loader n.db)
  ]

  abbrev breaker_name_of : Options r.Db T → Text
  breaker_name_of opts = if is_empty opts.breaker_name then opts.family else opts.breaker_name

  abbrev marked :
      Text → Node r.Db × Result CacheError T → Node r.Db × Result CacheError (Value T Json)
  marked name (n, ok t) = (record n { db = out.mark name true n.db }, ok (loaded t))
  marked name (n, err e) =
      (record n { db = out.mark name (acceptable {T = T} (err e)) n.db }, err e)

  abbrev turned_away : Node r.Db × CacheError → Node r.Db × Result CacheError (Value T Json)
  turned_away (n, e) = (n, err e)

  -- The breaker asks its fallback where it turns a call away, and only there. A write is not given one.
  unfoldable pub load_through_breaker :
      Bool
      → Option (List (Option (FallbackSource r.Db)))
      → (r.Db → r.Db × Result CacheError T)
      → Options r.Db T
      → Node r.Db
      → Node r.Db × Result CacheError (Value T Json)
  load_through_breaker connected chain loader opts n =
      let name = breaker_name_of opts in
      let asked = out.admits name n.db in
      let n' : Node r.Db = record n { db = asked.0 } in
      if asked.1
      then marked name (flown name loader opts n')
      else if eq_ℤ opts.level level_write
      then (n', err circuit_open)
      else turned_away (try_fallback connected chain opts n')

  -- The look in Redis, where the in-process cache has nothing.
  unfoldable pub from_l2 :
      (Node r.Db → Node r.Db × Result CacheError (Value T Json))
      → Options r.Db T
      → Node r.Db
      → r.Db × Result ℕ Text
      → Node r.Db × Result CacheError (Value T Json)
  from_l2 miss opts n (db, ok (c ∷ cs)) = (
    spawn (l1_write (build_key opts.family opts.key) (c ∷ cs) opts.ttl)
        (hit_counted (opts.family ++ codes ":l2") (record n { db = db })),
    json_unmarshal_any (c ∷ cs),
  )
  from_l2 miss opts n (db, reply) = miss (record n { db = db })

  unfoldable pub from_l1 :
      (Node r.Db → Node r.Db × Result CacheError (Value T Json))
      → Options r.Db T
      → Node r.Db
      → r.Db × Option Text
      → Node r.Db × Result CacheError (Value T Json)
  from_l1 miss opts n (db, some (c ∷ cs)) =
      (hit_counted (opts.family ++ codes ":l1") (record n { db = db }), json_unmarshal_any (c ∷ cs))
  from_l1 miss opts n (db, reply) = miss (record n { db = db })

  -- A read with a loader, a family and an open gate.
  unfoldable pub read :
      Bool
      → Option (List (Option (FallbackSource r.Db)))
      → (r.Db → r.Db × Result CacheError T)
      → Options r.Db T
      → Node r.Db
      → Node r.Db × Result CacheError (Value T Json)
  read connected chain loader opts n =
      let key = build_key opts.family opts.key in
      let load = load_through_breaker connected chain loader opts in
      let miss = λ (n' : Node r.Db). load (miss_counted opts.family n') in
      let l2 =
        λ (n' : Node r.Db). if connected then from_l2 miss opts n' (r.get key n'.db) else miss n' in
      if eq_ℤ opts.level level_write then load n else from_l1 l2 opts n (out.l1_get key n.db)

  abbrev pub with_loader :
      Node r.Db
      → ((r.Db → r.Db × Result CacheError T) → Node r.Db × Result CacheError (Value T Json))
      → Option (r.Db → r.Db × Result CacheError T)
      → Node r.Db × Result CacheError (Value T Json)
  with_loader n k none = (n, err no_loader)
  with_loader n k (some loader) = k loader

  unfoldable pub get_or_load :
      Bool
      → Option (List (Option (FallbackSource r.Db)))
      → Manager
      → Options r.Db T
      → Node r.Db
      → Node r.Db × Result CacheError (Value T Json)
  get_or_load connected chain dgr opts n =
      with_loader n
        (λ loader.
          if is_empty opts.family
          then (n, err no_family)
          else if can_serve_level dgr opts.level
          then read connected chain loader opts n
          else (n, err degrade_closed))
        opts.loader

  abbrev pub slow_converted : Json → Result CacheError T
  slow_converted v = elim (out.marshal_any v) [
    | err e ↦ err (marshal_conv e)
    | ok body ↦ elim (out.unmarshal_t body) [ err e ↦ err (unmarshal_conv e) | ok t ↦ ok t ]
  ]

  -- The value as one of the type that is asked for: at once if it has the type, else through JSON.
  abbrev pub converted : Value T Json → Result CacheError T
  converted (loaded t) = ok t
  converted (decoded v) = elim (out.assert_t v) [ none ↦ slow_converted v | some t ↦ ok t ]

  abbrev pub typed : Node r.Db × Result CacheError (Value T Json) → Node r.Db × Result CacheError T
  typed (n, ok v) = (n, converted v)
  typed (n, err e) = (n, err e)

  unfoldable pub get_or_load_t :
      Bool
      → Option (List (Option (FallbackSource r.Db)))
      → Manager
      → Options r.Db T
      → Node r.Db
      → Node r.Db × Result CacheError T
  get_or_load_t connected chain dgr opts n = typed (get_or_load connected chain dgr opts n)

  unfoldable pub invalidate : Bool → Text → Text → r.Db → r.Db × Result ℕ ℕ
  invalidate connected family key db =
      let k = build_key family key in
      let db' = out.l1_del k db in if connected then r.del k db' else (db', ok 0)
