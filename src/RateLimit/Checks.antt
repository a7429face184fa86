-- ===== src/RateLimit/Checks.antt =====
-- The checks leave every counter as it is.
use apipro.Base.{
  ℕ, ◌-◌, ◌≤◌, ◌≡◌, refl, ap, ◌∙◌, inl, inr, Bool, true, false, List, [], ◌∷◌, Text, Option, Result,
  ok, err, arith, Bool-cases,
}
use apipro.Redis.{Redis, RedisLaws}
use apipro.RateLimit.{
  Rule, State, redis_key, is_concurrent, active, minute, counter_check, card_check, window_check,
  check_one, checked, check_rules,
}

module _ (r : Redis) (clock : r.Db → ℕ) (laws : RedisLaws r) where
  open laws use {text}

  counter_check-db :
      (rule : Rule) (p : r.Db × Result ℕ Text) → (counter_check r clock rule p).0 ≡ p.0
  unfolding counter_check
  counter_check-db rule (db, err e) = refl
  counter_check-db rule (db, ok []) = refl
  counter_check-db rule (db, ok (c ∷ cs)) = ground arith

  card_check-db : (rule : Rule) (p : r.Db × Result ℕ ℕ) → (card_check r clock rule p).0 ≡ p.0
  unfolding card_check
  card_check-db rule (db, err e) = refl
  card_check-db rule (db, ok n) = refl

  window_check-text :
      (rule : Rule) (p : r.Db × Result ℕ ℕ) (j : Text)
      → text (window_check r clock rule p).0 j ≡ text p.0 j
  unfolding window_check
  window_check-text rule (db, err e) j = refl
  window_check-text rule (db, ok n) j =
      ap (λ d. text d j) (card_check-db rule (r.zcard (redis_key rule.dimension rule.key) db))
      ∙ laws.zcard_keeps (redis_key rule.dimension rule.key) j db

  check_one-text :
      (rule : Rule) (db : r.Db) (j : Text) → text (check_one r clock rule db).0 j ≡ text db j
  unfolding check_one
  check_one-text rule db j =
      let key = redis_key rule.dimension rule.key in
      elim (Bool-cases (is_concurrent rule)) [
        | inl e ↦
            rw e
              (ap (λ d. text d j) (counter_check-db rule (r.get key db)) ∙ laws.get_keeps key j db)
        | inr e ↦ rw e (window_check-text rule _ j ∙ laws.zrem_keeps key j 0 (clock db - minute) db)
      ]

  checked-text :
      (rule : Rule) (rest : State r clock → State r clock × Option Rule) (l : ℕ)
      (p : r.Db × Result ℕ Bool) (j : Text)
      → ((t : State r clock) → (text (rest t).0.0 j ≡ text t.0 j) × (t.1 ≤ (rest t).0.1))
      → (text (checked r clock rule rest l p).0.0 j ≡ text p.0 j)
        × (l ≤ (checked r clock rule rest l p).0.1)
  unfolding checked
  checked-text rule rest l (db, err e) j keeps = (refl, omega arith)
  checked-text rule rest l (db, ok true) j keeps = keeps (db, l)
  checked-text rule rest l (db, ok false) j keeps = (refl, omega arith)

  pub check_rules-text :
      (rules : List Rule) (j : Text) (s : State r clock)
      → (text (check_rules r clock rules s).0.0 j ≡ text s.0 j)
        × (s.1 ≤ (check_rules r clock rules s).0.1)
  unfolding check_rules
  check_rules-text [] j s = (refl, omega arith)
  check_rules-text (rule ∷ rules) j s = elim (Bool-cases (active rule)) [
    | inl e ↦ rw e (
        let c =
          checked-text rule (λ t. check_rules r clock rules t) s.1 (check_one r clock rule s.0) j
            (check_rules-text rules j) in
        (c.0 ∙ check_one-text rule s.0 j, c.1))
    | inr e ↦ rw e (check_rules-text rules j s)
  ]
