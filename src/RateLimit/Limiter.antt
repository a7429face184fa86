-- ===== src/RateLimit/Limiter.antt =====
-- common/ratelimit/ratelimit.go: the per-IP limiter, a sliding window of one minute.
use apipro.Base.{
  ℕ, suc, ◌+◌, ◌-◌, ◌/◌, ◌≡◌, refl, ap, ◌∙◌, Bool, true, false, List, [], ◌∷◌, ◌++◌, Text, ℤ, pos,
  Result, ok, err, ltb, ltb_ℤ, if◌then◌else◌, codes, length, arith,
}
use apipro.Redis.{Redis, RedisLaws, outside}
use apipro.RateLimit.{minute}

pub record Limiter : Type 0 where
  pub per_min : ℤ
  pub window : ℕ
  pub key_pref : Text

unfoldable pub new : ℤ → Text → Limiter
new per_minute key_prefix = record {
  per_min = if ltb_ℤ (pos 0) per_minute then per_minute else pos 120;
  window = minute;
  key_pref = key_prefix;
}

abbrev pub limiter_key : Limiter → Text → Text
limiter_key l id = l.key_pref ++ codes ":rl:" ++ id

-- The scores that lie after the cut.
abbrev pub recent : ℕ → List ℕ → ℕ
recent cut [] = 0
recent cut (x ∷ xs) = let rest = recent cut xs in if ltb cut x then suc rest else rest

length-outside : (cut : ℕ) (xs : List ℕ) → length (outside 0 cut xs) ≡ recent cut xs
length-outside cut [] = refl
length-outside cut (x ∷ xs) = ground (arith, length-outside cut xs)

module _ (r : Redis) (clock : r.Db → ℕ) where
  unfoldable pub record_request : Limiter → Text → ℕ → r.Db → r.Db × Bool
  record_request l key now db =
      ((r.expire key (l.window / 1000000000 + 1) (r.zadd key now db).0).0, true)

  unfoldable pub decide : Limiter → Text → ℕ → r.Db × Result ℕ ℕ → r.Db × Bool
  decide l key now (db, err e) = (db, true)
  decide l key now (db, ok cnt) =
      if ltb_ℤ (pos cnt) l.per_min then record_request l key now db else (db, false)

  -- `connected` is false where the limiter or its client is nil. The window is `l.window`,
  -- and the key lives for its seconds and one more.
  unfoldable pub allow : Bool → Limiter → Text → r.Db → r.Db × Bool
  allow connected l id db =
      let now = clock db in
      let key = limiter_key l id in
      if connected
      then decide l key now (r.zcard key (r.zremrangebyscore key 0 (now - l.window) db).0)
      else (db, true)

  unfoldable pub http_middleware {ℓ} :
      {A : Type ℓ} → Bool → Limiter → Text → (r.Db → A) → (r.Db → A) → r.Db → A
  http_middleware connected l ip next refuse db =
      let a = allow connected l ip db in if a.1 then next a.0 else refuse a.0

module _ (r : Redis) (clock : r.Db → ℕ) (laws : RedisLaws r) where
  open laws use {window}

  decide_ok :
      (l : Limiter) (key : Text) (now n : ℕ) (p : r.Db × Result ℕ ℕ)
      → p.1 ≡ ok n
      → (decide r clock l key now p).1 ≡ ltb_ℤ (pos n) l.per_min
  unfolding decide record_request
  decide_ok l key now n (db, err e) h = cc
  decide_ok l key now n (db, ok m) h = ground arith

  -- While Redis answers both questions, a request passes exactly if fewer than the limit were
  -- recorded under its key in the last window.
  pub allow_exact :
      (l : Limiter) (id : Text) (db : r.Db) (m n : ℕ)
      → let key = limiter_key l id in
        let cut = clock db - l.window in
        let pruned = r.zremrangebyscore key 0 cut db in
        pruned.1 ≡ ok m
        → (r.zcard key pruned.0).1 ≡ ok n
        → (allow r clock true l id db).1 ≡ ltb_ℤ (pos (recent cut (window db key))) l.per_min
  unfolding allow
  allow_exact l id db m n h h' =
      let key = limiter_key l id in
      let cut = clock db - l.window in
      let pruned = r.zremrangebyscore key 0 cut db in
      decide_ok l key (clock db) n (r.zcard key pruned.0) h'
      ∙ ap (λ k. ltb_ℤ (pos k) l.per_min)
          (laws.zcard-window key n pruned.0 h'
            ∙ ap length (laws.zrem-window key 0 cut m db h)
            ∙ length-outside cut (window db key))
