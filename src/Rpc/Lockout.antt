-- ===== src/Rpc/Lockout.antt =====
-- The lock after ten failures.
use apipro.Base.{
  ℕ, ◌≡◌, ◌≢◌, ◌≤◌, ◌+◌, ◌-◌, ◌/◌, refl, sym, ap, ◌∙◌, true, false, ◌++◌, Text, ℤ, pos, some,
  Result, ok, err, codes, arith, subst, eq_ℤ, ltb_ℤ,
}
use apipro.Redis.{Redis, RedisLaws}
use apipro.RateLimit.Limiter.{Limiter, allow, decide, record_request, limiter_key}
use apipro.Rpc.Auth.{
  lock_key, fail_key, record_login_fail, fail_counted, login_limiter, handle_login, no_text,
  text_or_empty,
}
use apipro.Rpc.Login.{handle_login-LoggedIn, Unlocked}
use apipro.Rpc.Node.{Services, Node}
use apipro.Rpc.Phone.{normalize_cc}
use apipro.Rpc.Wire.{LoginReq, Reply}
use apipro.Session.Env.{World}

module _ (r : Redis) (clock : r.Db → ℕ) (laws : RedisLaws r) where
  open laws use {text}

  record_request-text :
      (l : Limiter) (key j : Text) (now : ℕ) (db : r.Db)
      → text (record_request r clock l key now db).0 j ≡ text db j
  unfolding record_request
  record_request-text l key j now db =
      laws.expire_keeps key j (l.window / 1000000000 + 1) (r.zadd key now db).0 (omega arith)
      ∙ laws.zadd_keeps key j now db

  decide-text :
      (l : Limiter) (key j : Text) (now : ℕ) (p : r.Db × Result ℕ ℕ)
      → text (decide r clock l key now p).0 j ≡ text p.0 j
  unfolding decide
  decide-text l key j now (db, err e) = refl
  decide-text l key j now (db, ok n) = ground (arith, record_request-text l key j now db)

  -- The limiter leaves the string keys alone.
  pub allow-text :
      (l : Limiter) (id j : Text) (db : r.Db) → text (allow r clock true l id db).0 j ≡ text db j
  unfolding allow
  allow-text l id j db =
      let key = limiter_key l id in
      let pruned = r.zremrangebyscore key 0 (clock db - l.window) db in
      decide-text l key j (clock db) (r.zcard key pruned.0)
      ∙ laws.zcard_keeps key j pruned.0
      ∙ laws.zrem_keeps key j 0 (clock db - l.window) db

module _ (w : World) (v : Services w) (laws : RedisLaws w.redis) where
  open w use {redis}
  open laws use {text}

  lock_stored :
      (country phone : Text) (k : ℕ) (db : redis.Db)
      → 10 ≤ k
      → (redis.setex (lock_key country phone) (codes "1") 1800 db).1 ≡ ok tt
      → text (fail_counted w v country phone (db, ok (pos k))) (lock_key country phone) ≡ codes "1"
  unfolding fail_counted
  lock_stored country phone k db many stored =
      let below : ltb_ℤ (pos k) (pos 10) ≡ false = ground arith in
      let later : eq_ℤ (pos k) (pos 1) ≡ false = ground arith in
      let locked = (redis.setex (lock_key country phone) (codes "1") 1800 db).0 in
      rw (below, later)
        (laws.del_others (fail_key country phone) (lock_key country phone) locked refl
          ∙ laws.setex-text (lock_key country phone) (codes "1") 1800 db stored)

  fail_counted-text :
      (country phone : Text) (k : ℕ) (p : redis.Db × Result ℕ ℤ)
      → p.1 ≡ ok (pos k)
      → 10 ≤ k
      → (redis.setex (lock_key country phone) (codes "1") 1800 p.0).1 ≡ ok tt
      → text (fail_counted w v country phone p) (lock_key country phone) ≡ codes "1"
  fail_counted-text country phone k (db, err e) h many stored = cc
  fail_counted-text country phone k (db, ok z) h many stored =
      let same : z ≡ pos k = cc h in
      subst
        (λ x. text (fail_counted w v country phone (db, ok x)) (lock_key country phone) ≡ codes "1")
        (sym same) (lock_stored country phone k db many stored)

  -- After a failure that makes the count ten or more, and whose lock Redis stores, no login with that
  -- phone is answered as long as the lock's key is as it was stored and Redis answers the look at it.
  pub handle_login_locked :
      (param_json : Text) (req : LoginReq) (k : ℕ) (t : Text) (db : redis.Db) (n : Node redis.Db)
      (reply : Reply)
      → let country = normalize_cc v.strings req.country_code in
        let counted = redis.incr (fail_key country req.phone) db in
        v.parse_login param_json ≡ some req
        → counted.1 ≡ ok (pos k)
        → 10 ≤ k
        → (redis.setex (lock_key country req.phone) (codes "1") 1800 counted.0).1 ≡ ok tt
        → text n.db (lock_key country req.phone)
          ≡ text (record_login_fail w v country req.phone db).0 (lock_key country req.phone)
        → (redis.get
            (lock_key country req.phone)
            (allow redis v.nanos true login_limiter (country ++ (codes ":" ++ req.phone)) n.db).0).1
          ≡ ok t
        → (handle_login w v param_json n).1 ≢ ok reply
  unfolding record_login_fail
  handle_login_locked param_json req k t db n reply parsed counted many stored kept answered login =
      let country = normalize_cc v.strings req.country_code in
      let id = country ++ (codes ":" ++ req.phone) in
      let key = lock_key country req.phone in
      let db' = (allow redis v.nanos true login_limiter id n.db).0 in
      let passed = handle_login-LoggedIn w v param_json n reply login in
      let same : passed.req ≡ req = cc (sym passed.parsed_req ∙ parsed) in
      let unlocked : Unlocked w v country req n.db =
        subst (λ (q : LoginReq). Unlocked w v (normalize_cc v.strings q.country_code) q n.db) same
          passed.unlocked in
      let one : t ≡ codes "1" =
        laws.get-text key db' t answered
        ∙ allow-text redis v.nanos laws login_limiter id key n.db
        ∙ kept
        ∙ fail_counted-text country req.phone k (redis.incr (fail_key country req.phone) db) counted
            many stored in
      let empty : no_text (codes "1") ≡ true =
        sym (ap no_text one) ∙ sym (ap (λ r. no_text (text_or_empty r)) answered) ∙ unlocked in
      cc empty
