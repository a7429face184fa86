-- ===== src/Cache/Reads.antt =====
-- A value that was written back is read again without the loader.
use apipro.Base.{
  ℕ, ◌≡◌, ◌≢◌, ◌⊎◌, inl, inr, refl, sym, ap, ◌∙◌, true, false, List, [], ◌∷◌, Text, Option, none,
  some, Result, ok, err, eq_ℤ, if◌then◌else◌, ◌/◌,
}
use apipro.Cache.{
  CacheError, Value, loaded, decoded, Outside, Options, l1_l2_write, Node, second, l1_ttl_of,
  is_empty, build_key, run_task, json_unmarshal_any, as_any, read, with_loader,
  load_through_breaker, from_l1, from_l2, get_or_load, converted, slow_converted, typed,
  get_or_load_t, miss_counted, no_family, degrade_closed,
}
use apipro.Degrade.{Manager, can_serve_level, level_write}
use apipro.Fallback.{FallbackSource}
use apipro.Redis.{Redis, RedisLaws}

module _ (r : Redis) {T Json : Type 0} (out : Outside r.Db T Json) where
  -- The codec writes t as a body that is read as any, and any is t again: by the assertion of its type,
  -- or written once more and read as a T. An integer above 2 ^ 53, which JSON as any rounds, has none.
  pub record Codes (t : T) (body : Text) : Type 0 where
    pub any : Json
    pub body' : Text
    pub full : body ≢ []
    pub written : out.marshal t ≡ ok body
    pub read_any : out.unmarshal_any body ≡ ok any
    pub back :
        (out.assert_t any ≡ some t)
        ⊎ ((out.assert_t any ≡ none)
            × (out.marshal_any any ≡ ok body')
            × (out.unmarshal_t body' ≡ ok t))

  converted_back : (t : T) (body : Text) (k : Codes t body) → converted r out (decoded k.any) ≡ ok t
  converted_back t body k = elim k.back [
    | inl e ↦ rw (converted, e)
    | inr (none_yet, e, e') ↦ rw (converted, none_yet, slow_converted, e, e')
  ]

  abbrev answer : Text → Result CacheError (Value T Json)
  answer body = json_unmarshal_any r out body

  from_l2_hit :
      (miss : Node r.Db → Node r.Db × Result CacheError (Value T Json)) (opts : Options r.Db T)
      (n : Node r.Db) (p : r.Db × Result ℕ Text) (body : Text)
      → p.1 ≡ ok body
      → body ≢ []
      → (from_l2 r out miss opts n p).1 ≡ answer body
  unfolding from_l2
  from_l2_hit miss opts n (db, err e) body h full = cc
  from_l2_hit miss opts n (db, ok []) body h full = absurd (full (sym (cc h)))
  from_l2_hit miss opts n (db, ok (c ∷ cs)) body h full =
      let same : c ∷ cs ≡ body = cc h in ap answer same

  from_l1_hit :
      (miss : Node r.Db → Node r.Db × Result CacheError (Value T Json)) (opts : Options r.Db T)
      (n : Node r.Db) (p : r.Db × Option Text) (body : Text)
      → p.1 ≡ some body
      → body ≢ []
      → (from_l1 r out miss opts n p).1 ≡ answer body
  unfolding from_l1
  from_l1_hit miss opts n (db, none) body h full = cc
  from_l1_hit miss opts n (db, some []) body h full = absurd (full (sym (cc h)))
  from_l1_hit miss opts n (db, some (c ∷ cs)) body h full =
      let same : c ∷ cs ≡ body = cc h in ap answer same

  from_l1_miss :
      (miss : Node r.Db → Node r.Db × Result CacheError (Value T Json)) (opts : Options r.Db T)
      (n : Node r.Db) (p : r.Db × Option Text)
      → p.1 ≡ none
      → from_l1 r out miss opts n p ≡ miss (record n { db = p.0 })
  unfolding from_l1
  from_l1_miss miss opts n (db, none) h = refl
  from_l1_miss miss opts n (db, some t) h = cc

  typed-answer :
      (t : T) (body : Text) (p : Node r.Db × Result CacheError (Value T Json))
      → Codes t body
      → p.1 ≡ answer body
      → (typed r out p).1 ≡ ok t
  typed-answer t body (n, ok (loaded u)) k h =
      let e : ok (loaded u) ≡ ok (decoded k.any) = h ∙ ap (λ a. as_any r out a) k.read_any in cc e
  typed-answer t body (n, ok (decoded v)) k h =
      let e : ok (decoded v) ≡ ok (decoded k.any) = h ∙ ap (λ a. as_any r out a) k.read_any in
      let same : v ≡ k.any = cc e in
      ap (λ x. converted r out (decoded x)) same ∙ converted_back t body k
  typed-answer t body (n, err e) k h =
      let e' : err e ≡ ok (decoded k.any) = h ∙ ap (λ a. as_any r out a) k.read_any in cc e'

  -- A value that was written back to Redis is what the next read of its key answers, whichever of the two
  -- caches still has it and whatever the loader and the breaker would do: for a value that the codec gives
  -- back whole through decoded JSON, a level that is served and is not the write level, with Redis
  -- connected, as long as Redis keeps the text and answers, and the in-process cache has the text or
  -- nothing and leaves Redis as it is.
  pub get_or_load_t-run_task :
      (laws : RedisLaws r) (chain : Option (List (Option (FallbackSource r.Db)))) (dgr : Manager)
      (opts : Options r.Db T) (loader : r.Db → r.Db × Result CacheError T) (n : Node r.Db)
      (db : r.Db) (t : T) (body seen : Text)
      → let key = build_key r out opts.family opts.key in
        let looked = out.l1_get key n.db in
        let before = out.l1_set key body (l1_ttl_of opts.ttl (out.unix_nano db) / second) db in
        Codes t body
        → opts.loader ≡ some loader
        → is_empty opts.family ≡ false
        → can_serve_level dgr opts.level ≡ true
        → eq_ℤ opts.level level_write ≡ false
        → (r.setex key body (opts.ttl / second) before).1 ≡ ok tt
        → laws.text looked.0 key
          ≡ laws.text (run_task r out true (l1_l2_write key body opts.ttl) db) key
        → (looked.1 ≡ none) ⊎ (looked.1 ≡ some body)
        → (r.get key looked.0).1 ≡ ok seen
        → (get_or_load_t r out true chain dgr opts n).1 ≡ ok t
  unfolding get_or_load_t get_or_load run_task read
  get_or_load_t-run_task laws chain dgr opts loader n db t body seen k some_loader named served
        reads stored kept l1 answered =
      let key = build_key r out opts.family opts.key in
      let looked = out.l1_get key n.db in
      let before = out.l1_set key body (l1_ttl_of opts.ttl (out.unix_nano db) / second) db in
      let miss = λ (n' : Node r.Db).
        load_through_breaker r out true chain loader opts (miss_counted r out opts.family n') in
      let l2 = λ (n' : Node r.Db). from_l2 r out miss opts n' (r.get key n'.db) in
      let same : seen ≡ body =
        laws.get-text key looked.0 seen answered
        ∙ kept
        ∙ laws.setex-text key body (opts.ttl / second) before stored in
      let hit : (from_l1 r out l2 opts n looked).1 ≡ answer body = elim l1 [
        | inl e ↦
            ap (λ (p : Node r.Db × Result CacheError (Value T Json)). p.1)
              (from_l1_miss l2 opts n looked e)
            ∙ from_l2_hit miss opts (record n { db = looked.0 }) (r.get key looked.0) body
                (answered ∙ ap ok same) k.full
        | inr e ↦ from_l1_hit l2 opts n looked body e k.full
      ] in
      let reached : (read r out true chain loader opts n).1 ≡ answer body = rw reads hit in
      let opened : (get_or_load r out true chain dgr opts n).1
          ≡ (read r out true chain loader opts n).1 =
        ap
          (λ o.
            (with_loader r out n
              (λ f.
                if is_empty opts.family
                then (n, err no_family)
                else if can_serve_level dgr opts.level
                then read r out true chain f opts n
                else (n, err degrade_closed))
              o).1)
          some_loader
        ∙ rw (named, served) in
      typed-answer t body (get_or_load r out true chain dgr opts n) k (opened ∙ reached)
