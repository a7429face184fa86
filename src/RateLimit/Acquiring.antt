-- ===== src/RateLimit/Acquiring.antt =====
-- What taking and giving back slots does to the counters.
use apipro.Base.{
  ℕ, suc, ◌-◌, ◌≤◌, ◌≡◌, refl, sym, ap, subst, ◌∙◌, inl, inr, Bool, true, false, List, [], ◌∷◌,
  Text, ℤ, pos, negsuc, none, Result, ok, err, eq_ℤ, text_eq, eq_of_text_eq, codes, if◌then◌else◌,
  arith, Bool-cases, suc_ℤ, pred_ℤ,
}
use apipro.Redis.{Redis, RedisLaws, count_of}
use apipro.RateLimit.{
  Rule, State, redis_key, is_concurrent, active, not_counted, minute, expired, counted, added,
  pruned, acquire_one, log_reset, decremented, release_one,
}

-- Whether the rule takes a slot of the counter under the key `j`.
abbrev pub takes : Rule → Text → Bool
takes rule j = if not_counted rule then false else text_eq (redis_key rule.dimension rule.key) j

-- How many slots of it the rules take.
abbrev pub slots : List Rule → Text → ℕ
slots [] j = 0
slots (rule ∷ rules) j = let rest = slots rules j in if takes rule j then suc rest else rest

module _ (r : Redis) (clock : r.Db → ℕ) (laws : RedisLaws r) where
  open laws use {text}

  expired-db : (p : r.Db × Result ℕ (Unit {0})) → (expired r clock p).0 ≡ p.0
  unfolding expired
  expired-db (db, err e) = refl
  expired-db (db, ok u) = refl

  expired-text :
      (k j : Text) (t : ℕ) (db : r.Db)
      → text (expired r clock (r.expire k (suc t) db)).0 j ≡ text db j
  expired-text k j t db =
      ap (λ d. text d j) (expired-db (r.expire k (suc t) db))
      ∙ laws.expire_keeps k j (suc t) db (omega arith)

  counted-text : (k j : Text) (p : r.Db × Result ℕ ℤ) → text (counted r clock k p).0 j ≡ text p.0 j
  unfolding counted
  counted-text k j (db, err e) = refl
  counted-text k j (db, ok n) = elim (Bool-cases (eq_ℤ n (pos 1))) [
    | inl e ↦ rw e (expired-text k j 299 db)
    | inr e ↦ rw e
  ]

  added-text : (k j : Text) (p : r.Db × Result ℕ Bool) → text (added r clock k p).0 j ≡ text p.0 j
  unfolding added
  added-text k j (db, err e) = refl
  added-text k j (db, ok fresh) = expired-text k j 60 db

  pruned-text :
      (k j : Text) (now : ℕ) (p : r.Db × Result ℕ ℕ)
      → text (pruned r clock k now p).0 j ≡ text p.0 j
  unfolding pruned
  pruned-text k j now (db, err e) = refl
  pruned-text k j now (db, ok n) = added-text k j (r.zadd k now db) ∙ laws.zadd_keeps k j now db

  counted_ok :
      (k : Text) (p : r.Db × Result ℕ ℤ) → (counted r clock k p).1 ≡ none → (n : ℤ) × (p.1 ≡ ok n)
  unfolding counted
  counted_ok k (db, err e) h = cc
  counted_ok k (db, ok n) h = (n, refl)

  -- INCR that succeeds counts one up under its own key, and DECR one down.
  incr_count :
      (k j : Text) (z : ℤ) (n : ℕ) (db : r.Db)
      → (r.incr k db).1 ≡ ok z
      → count_of (text db j) ≡ pos n
      → count_of (text (r.incr k db).0 j) ≡ pos (if text_eq k j then suc n else n)
  incr_count k j z n db h c = elim (Bool-cases (text_eq k j)) [
    | inl e ↦ rw e (
        subst (λ i. count_of (text db i) ≡ pos n → count_of (text (r.incr k db).0 i) ≡ pos (suc n))
          (eq_of_text_eq k j e)
          (λ c'. (laws.incr-text k z db h).1 ∙ (laws.incr-text k z db h).0 ∙ ap suc_ℤ c') c)
    | inr e ↦ rw e (ap count_of (laws.incr_others k j db e) ∙ c)
  ]

  pub decr_count :
      (k j : Text) (z : ℤ) (n : ℕ) (db : r.Db)
      → (r.decr k db).1 ≡ ok z
      → count_of (text db j) ≡ pos (if text_eq k j then suc n else n)
      → count_of (text (r.decr k db).0 j) ≡ pos n
  decr_count k j z n db h c = elim (Bool-cases (text_eq k j)) [
    | inl e ↦
        subst (λ i. count_of (text db i) ≡ pos (suc n) → count_of (text (r.decr k db).0 i) ≡ pos n)
          (eq_of_text_eq k j e)
          (λ c'. (laws.decr-text k z db h).1 ∙ (laws.decr-text k z db h).0 ∙ ap pred_ℤ c')
          (rw e at c)
    | inr e ↦ ap count_of (laws.decr_others k j db e) ∙ (rw e at c)
  ]

  acquire_one-counted :
      (rule : Rule) (db : r.Db)
      → is_concurrent rule ≡ true
      → acquire_one r clock rule db
        ≡ counted r clock
            (redis_key rule.dimension rule.key)
            (r.incr (redis_key rule.dimension rule.key) db)
  unfolding acquire_one
  acquire_one-counted rule db e = rw e

  acquire_one_windowed :
      (rule : Rule) (db : r.Db) (j : Text)
      → is_concurrent rule ≡ false
      → text (acquire_one r clock rule db).0 j ≡ text db j
  unfolding acquire_one
  acquire_one_windowed rule db j e =
      let key = redis_key rule.dimension rule.key in
      rw e (
        pruned-text key j (clock db) (r.zremrangebyscore key 0 (clock db - minute) db)
        ∙ laws.zrem_keeps key j 0 (clock db - minute) db)

  takes_counted :
      (rule : Rule) (j : Text)
      → is_concurrent rule ≡ true
      → active rule ≡ true
      → takes rule j ≡ text_eq (redis_key rule.dimension rule.key) j
  unfolding active
  takes_counted rule j e a = ground arith

  takes_windowed : (rule : Rule) (j : Text) → is_concurrent rule ≡ false → takes rule j ≡ false
  takes_windowed rule j e = rw e

  pub takes_inactive : (rule : Rule) (j : Text) → active rule ≡ false → takes rule j ≡ false
  unfolding active
  takes_inactive rule j a = ground arith

  pub acquire_one-count :
      (rule : Rule) (j : Text) (n : ℕ) (db : r.Db)
      → active rule ≡ true
      → (acquire_one r clock rule db).1 ≡ none
      → count_of (text db j) ≡ pos n
      → count_of (text (acquire_one r clock rule db).0 j) ≡ pos (if takes rule j then suc n else n)
  acquire_one-count rule j n db a h c =
      let key = redis_key rule.dimension rule.key in
      elim (Bool-cases (is_concurrent rule)) [
        | inl e ↦
            let same = acquire_one-counted rule db e in
            let (z, replied) = counted_ok key (r.incr key db) (sym (ap (λ p. p.1) same) ∙ h) in
            ap (λ p. count_of (text p.0 j)) same
            ∙ ap count_of (counted-text key j (r.incr key db))
            ∙ incr_count key j z n db replied c
            ∙ ap (λ (b : Bool). pos (if b then suc n else n)) (sym (takes_counted rule j e a))
        | inr e ↦
            ap count_of (acquire_one_windowed rule db j e)
            ∙ c
            ∙ ap (λ (b : Bool). pos (if b then suc n else n)) (sym (takes_windowed rule j e))
      ]

  -- A rule that takes no slot of a counter leaves it alone, also when its acquisition fails.
  pub acquire_one_others :
      (rule : Rule) (j : Text) (db : r.Db)
      → active rule ≡ true
      → takes rule j ≡ false
      → text (acquire_one r clock rule db).0 j ≡ text db j
  acquire_one_others rule j db a h =
      let key = redis_key rule.dimension rule.key in
      elim (Bool-cases (is_concurrent rule)) [
        | inl e ↦
            ap (λ p. text p.0 j) (acquire_one-counted rule db e)
            ∙ counted-text key j (r.incr key db)
            ∙ laws.incr_others key j db (sym (takes_counted rule j e a) ∙ h)
        | inr e ↦ acquire_one_windowed rule db j e
      ]

  log_reset-logged : (l : ℕ) (p : r.Db × Result ℕ (Unit {0})) → l ≤ (log_reset r clock l p).1
  unfolding log_reset
  log_reset-logged l (db, err e) = omega arith
  log_reset-logged l (db, ok u) = omega arith

  log_reset-db : (l : ℕ) (p : r.Db × Result ℕ (Unit {0})) → (log_reset r clock l p).0 ≡ p.0
  unfolding log_reset
  log_reset-db l (db, err e) = refl
  log_reset-db l (db, ok u) = refl

  decremented-logged :
      (k : Text) (l : ℕ) (p : r.Db × Result ℕ ℤ) → l ≤ (decremented r clock k l p).1
  unfolding decremented
  decremented-logged k l (db, err e) = omega arith
  decremented-logged k l (db, ok (pos n)) = omega arith
  decremented-logged k l (db, ok (negsuc n)) = log_reset-logged l (r.set k (codes "0") db)

  decremented_ok :
      (k : Text) (l : ℕ) (p : r.Db × Result ℕ ℤ)
      → (decremented r clock k l p).1 ≡ l
      → (z : ℤ) × (p.1 ≡ ok z)
  unfolding decremented
  decremented_ok k l (db, err e) h = absurd (omega arith)
  decremented_ok k l (db, ok z) h = (z, refl)

  decremented_pos :
      (k : Text) (l m : ℕ) (p : r.Db × Result ℕ ℤ)
      → p.1 ≡ ok (pos m)
      → (decremented r clock k l p).0 ≡ p.0
  unfolding decremented
  decremented_pos k l m (db, err e) h = cc
  decremented_pos k l m (db, ok (pos n)) h = refl
  decremented_pos k l m (db, ok (negsuc n)) h = cc

  decremented_others :
      (k j : Text) (l : ℕ) (p : r.Db × Result ℕ ℤ)
      → text_eq k j ≡ false
      → text (decremented r clock k l p).0 j ≡ text p.0 j
  unfolding decremented
  decremented_others k j l (db, err e) h = refl
  decremented_others k j l (db, ok (pos n)) h = refl
  decremented_others k j l (db, ok (negsuc n)) h =
      ap (λ d. text d j) (log_reset-db l (r.set k (codes "0") db))
      ∙ laws.set_others k (codes "0") j db h

  -- A decrement of a positive counter is never followed by the reset.
  decremented-count :
      (k j : Text) (n l : ℕ) (db : r.Db)
      → (decremented r clock k l (r.decr k db)).1 ≡ l
      → count_of (text db j) ≡ pos (if text_eq k j then suc n else n)
      → count_of (text (decremented r clock k l (r.decr k db)).0 j) ≡ pos n
  decremented-count k j n l db h c =
      let (z, replied) = decremented_ok k l (r.decr k db) h in
      elim (Bool-cases (text_eq k j)) [
        | inl e ↦
            let own : count_of (text db k) ≡ pos (suc n) =
              ap (λ i. count_of (text db i)) (eq_of_text_eq k j e) ∙ (rw e at c) in
            let at_n : z ≡ pos n = (laws.decr-text k z db replied).0 ∙ ap pred_ℤ own in
            ap (λ d. count_of (text d j))
              (decremented_pos k l n (r.decr k db) (replied ∙ ap ok at_n))
            ∙ decr_count k j z n db replied c
        | inr e ↦
            ap count_of (decremented_others k j l (r.decr k db) e) ∙ decr_count k j z n db replied c
      ]

  takes-not_counted : (rule : Rule) (j : Text) → not_counted rule ≡ true → takes rule j ≡ false
  takes-not_counted rule j e = rw e

  takes_counted_key :
      (rule : Rule) (j : Text)
      → not_counted rule ≡ false
      → takes rule j ≡ text_eq (redis_key rule.dimension rule.key) j
  takes_counted_key rule j e = rw e

  pub release_one-logged : (rule : Rule) (s : State r clock) → s.1 ≤ (release_one r clock rule s).1
  unfolding release_one
  release_one-logged rule s =
      let key = redis_key rule.dimension rule.key in
      elim (Bool-cases (not_counted rule)) [
        | inl e ↦ rw e (omega arith)
        | inr e ↦ rw e (decremented-logged key s.1 (r.decr key s.0))
      ]

  pub release_one-count :
      (rule : Rule) (j : Text) (n : ℕ) (s : State r clock)
      → (release_one r clock rule s).1 ≡ s.1
      → count_of (text s.0 j) ≡ pos (if takes rule j then suc n else n)
      → count_of (text (release_one r clock rule s).0 j) ≡ pos n
  unfolding release_one
  release_one-count rule j n s h c = elim (Bool-cases (not_counted rule)) [
    | inl e ↦
        rw e (c ∙ ap (λ (b : Bool). pos (if b then suc n else n)) (takes-not_counted rule j e))
    | inr e ↦ rw e (
        decremented-count (redis_key rule.dimension rule.key) j n s.1 s.0 (rw e at h)
          (c ∙ ap (λ (b : Bool). pos (if b then suc n else n)) (takes_counted_key rule j e)))
  ]
