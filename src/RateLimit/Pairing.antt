-- ===== src/RateLimit/Pairing.antt =====
-- A request that is served gives back exactly the slots that it took.
use apipro.Base.{
  ℕ, suc, ◌+◌, ◌≤◌, ◌≡◌, refl, sym, ap, ◌∙◌, inl, inr, Bool, true, List, [], ◌∷◌, ◌++◌, Text, ℤ,
  pos, Option, none, some, Result, ok, err, text_eq, if◌then◌else◌, arith, Bool-cases,
}
use apipro.Redis.{Redis, RedisLaws, count_of}
use apipro.RateLimit.{
  Rule, State, served, redis_key, active, not_counted, check_rules, check, acquire_one, log_failure,
  rollback, acquired, acquire_rules, admit, acquire, release_one, rollback_one, release_rules,
  release, finish, http_middleware,
}
use apipro.RateLimit.Checks.{check_rules-text}
use apipro.RateLimit.Acquiring.{
  takes, slots, acquire_one-count, release_one-count, release_one-logged, takes_inactive,
  decr_count,
}

module _ (r : Redis) (clock : r.Db → ℕ) (laws : RedisLaws r) where
  open laws use {text}

  log_failure-logged : (l : ℕ) (p : r.Db × Result ℕ ℤ) → l ≤ (log_failure r clock l p).1
  unfolding log_failure
  log_failure-logged l (db, err e) = omega arith
  log_failure-logged l (db, ok n) = omega arith

  pub rollback_one-logged :
      (rule : Rule) (s : State r clock) → s.1 ≤ (rollback_one r clock rule s).1
  unfolding rollback_one
  rollback_one-logged rule s = elim (Bool-cases (not_counted rule)) [
    | inl e ↦ rw e (omega arith)
    | inr e ↦ rw e (log_failure-logged s.1 (r.decr (redis_key rule.dimension rule.key) s.0))
  ]

  rollback-logged : (rules : List Rule) (s : State r clock) → s.1 ≤ (rollback r clock rules s).1
  unfolding rollback
  rollback-logged [] s = omega arith
  rollback-logged (rule ∷ rules) s =
      omega (arith, rollback_one-logged rule s, rollback-logged rules (rollback_one r clock rule s))

  acquired_ok :
      (before : List Rule) (rest : State r clock → State r clock) (l : ℕ) (p : r.Db × Option ℕ)
      → (acquired r clock before rest l p).1 ≡ l
      → (p.1 ≡ none) × (acquired r clock before rest l p ≡ rest (p.0, l))
  unfolding acquired
  acquired_ok before rest l (db, none) h = (refl, refl)
  acquired_ok before rest l (db, some e) h =
      absurd (omega (arith, rollback-logged before (db, suc l)))

  pub acquired_fine :
      (before : List Rule) (rest : State r clock → State r clock) (l : ℕ) (p : r.Db × Option ℕ)
      → p.1 ≡ none
      → acquired r clock before rest l p ≡ rest (p.0, l)
  unfolding acquired
  acquired_fine before rest l (db, none) h = refl
  acquired_fine before rest l (db, some e) h = cc

  pub acquired_failed :
      (before : List Rule) (rest : State r clock → State r clock) (l e : ℕ) (p : r.Db × Option ℕ)
      → p.1 ≡ some e
      → acquired r clock before rest l p ≡ rollback r clock before (p.0, suc l)
  unfolding acquired
  acquired_failed before rest l e (db, none) h = cc
  acquired_failed before rest l e (db, some e') h = refl

  log_failure_ok :
      (l : ℕ) (p : r.Db × Result ℕ ℤ)
      → (log_failure r clock l p).1 ≡ l
      → (z : ℤ) × (p.1 ≡ ok z) × ((log_failure r clock l p).0 ≡ p.0)
  unfolding log_failure
  log_failure_ok l (db, err e) h = absurd (omega arith)
  log_failure_ok l (db, ok z) h = (z, refl, refl)

  -- A round of the rollback that logs nothing gives its slot back.
  pub rollback_one-count :
      (rule : Rule) (j : Text) (n : ℕ) (s : State r clock)
      → takes rule j ≡ true
      → (rollback_one r clock rule s).1 ≡ s.1
      → count_of (text s.0 j) ≡ pos (suc n)
      → count_of (text (rollback_one r clock rule s).0 j) ≡ pos n
  unfolding rollback_one
  rollback_one-count rule j n s t h c = elim (Bool-cases (not_counted rule)) [
    | inl e ↦ cc (rw e at t)
    | inr e ↦
        let key = redis_key rule.dimension rule.key in
        let (z, replied, same) = log_failure_ok s.1 (r.decr key s.0) (rw e at h) in
        let hit : text_eq key j ≡ true = rw e at t in
        rw e (
          ap (λ d. count_of (text d j)) same
          ∙ decr_count r clock laws key j z n s.0 replied
              (c ∙ ap (λ (b : Bool). pos (if b then suc n else n)) (sym hit)))
  ]

  acquired-logged :
      (before : List Rule) (rest : State r clock → State r clock) (l : ℕ) (p : r.Db × Option ℕ)
      → ((t : State r clock) → t.1 ≤ (rest t).1)
      → l ≤ (acquired r clock before rest l p).1
  unfolding acquired
  acquired-logged before rest l (db, none) up = up (db, l)
  acquired-logged before rest l (db, some e) up = omega (arith, rollback-logged before (db, suc l))

  pub acquire_rules-logged :
      (before rules : List Rule) (s : State r clock)
      → s.1 ≤ (acquire_rules r clock before rules s).1
  unfolding acquire_rules
  acquire_rules-logged before [] s = omega arith
  acquire_rules-logged before (rule ∷ rules) s =
      let before' = before ++ rule ∷ [] in
      let rest = λ (t : State r clock). acquire_rules r clock before' rules t in
      elim (Bool-cases (active rule)) [
        | inl e ↦ rw e (
            acquired-logged before rest s.1 (acquire_one r clock rule s.0)
              (λ t. acquire_rules-logged before' rules t))
        | inr e ↦ rw e (acquire_rules-logged before' rules s)
      ]

  slots-cons :
      (rule : Rule) (rules : List Rule) (j : Text) (n : ℕ)
      → slots (rule ∷ rules) j + n
        ≡ (if takes rule j then suc (slots rules j + n) else slots rules j + n)
  slots-cons rule rules j n = elim (Bool-cases (takes rule j)) [
    | inl e ↦ rw e (omega arith)
    | inr e ↦ rw e
  ]

  slots-acquired :
      (rule : Rule) (rules : List Rule) (j : Text) (n : ℕ)
      → slots rules j + (if takes rule j then suc n else n) ≡ slots (rule ∷ rules) j + n
  slots-acquired rule rules j n = elim (Bool-cases (takes rule j)) [
    | inl e ↦ rw e (omega arith)
    | inr e ↦ rw e
  ]

  -- Where the second loop of `Acquire` logs nothing, every slot of the rules is taken.
  pub acquire_rules-count :
      (before rules : List Rule) (j : Text) (n : ℕ) (s : State r clock)
      → (acquire_rules r clock before rules s).1 ≡ s.1
      → count_of (text s.0 j) ≡ pos n
      → count_of (text (acquire_rules r clock before rules s).0 j) ≡ pos (slots rules j + n)
  unfolding acquire_rules
  acquire_rules-count before [] j n s h c = c ∙ ap pos (omega arith)
  acquire_rules-count before (rule ∷ rules) j n s h c =
      let before' = before ++ rule ∷ [] in
      let rest = λ (t : State r clock). acquire_rules r clock before' rules t in
      let p = acquire_one r clock rule s.0 in
      elim (Bool-cases (active rule)) [
        | inl e ↦
            let same : acquire_rules r clock before (rule ∷ rules) s
                ≡ acquired r clock before rest s.1 p =
              rw e in
            let (fine, onward) = acquired_ok before rest s.1 p (sym (ap (λ t. t.1) same) ∙ h) in
            let path = same ∙ onward in
            ap (λ t. count_of (text t.0 j)) path
            ∙ acquire_rules-count before' rules j (if takes rule j then suc n else n) (p.0, s.1)
                (sym (ap (λ t. t.1) path) ∙ h)
                (acquire_one-count r clock laws rule j n s.0 e fine c)
            ∙ ap pos (slots-acquired rule rules j n)
        | inr e ↦
            rw (e, takes_inactive r clock laws rule j e)
              (acquire_rules-count before' rules j n s (rw e at h) c)
      ]

  pub release_rules-logged :
      (rules : List Rule) (s : State r clock) → s.1 ≤ (release_rules r clock rules s).1
  unfolding release_rules
  release_rules-logged [] s = omega arith
  release_rules-logged (rule ∷ rules) s = omega (
    arith,
    release_one-logged r clock laws rule s,
    release_rules-logged rules (release_one r clock rule s),
  )

  -- Where `Release` logs nothing, every slot of the rules is given back.
  pub release_rules-count :
      (rules : List Rule) (j : Text) (n : ℕ) (s : State r clock)
      → (release_rules r clock rules s).1 ≡ s.1
      → count_of (text s.0 j) ≡ pos (slots rules j + n)
      → count_of (text (release_rules r clock rules s).0 j) ≡ pos n
  unfolding release_rules
  release_rules-count [] j n s h c = c ∙ ap pos (omega arith)
  release_rules-count (rule ∷ rules) j n s h c =
      let s' = release_one r clock rule s in
      let up = release_one-logged r clock laws rule s in
      let up' = release_rules-logged rules s' in
      release_rules-count rules j n s' (omega arith) (
        release_one-count r clock laws rule j (slots rules j + n) s (omega arith)
          (c ∙ ap pos (slots-cons rule rules j n)))

  -- What holds of a served request, from what the checks answered.
  served-count :
      (rules : List Rule) (next : State r clock → State r clock) (j : Text) (n l : ℕ)
      (q : State r clock × Option Rule)
      → ((t : State r clock) → (text (next t).0 j ≡ text t.0 j) × (t.1 ≤ (next t).1))
      → l ≤ q.0.1
      → count_of (text q.0.0 j) ≡ pos n
      → (finish r clock true rules next (admit r clock rules q)).1 ≡ served
      → (finish r clock true rules next (admit r clock rules q)).0.1 ≡ l
      → (t : State r clock) × ((finish r clock true rules next (admit r clock rules q)).0
          ≡ release r clock true rules (next t))
        × (count_of (text t.0 j) ≡ pos (slots rules j + n))
        × (count_of (text (finish r clock true rules next (admit r clock rules q)).0.0 j) ≡ pos n)
  unfolding finish admit release
  served-count rules next j n l (s, some rule) keeps up c answer quiet = cc
  served-count rules next j n l (s, none) keeps up c answer quiet =
      let t = acquire_rules r clock [] rules s in
      let up₁ = acquire_rules-logged [] rules s in
      let up₂ = (keeps t).1 in
      let up₃ = release_rules-logged rules (next t) in
      let taken = acquire_rules-count [] rules j n s (omega arith) c in
      (
        t,
        refl,
        taken,
        release_rules-count rules j n (next t) (omega arith) (ap count_of (keeps t).0 ∙ taken),
      )

  -- A request that is served with nothing written to the error log runs its handler with one slot
  -- taken for each concurrency rule of a positive limit, and ends with the counter as it was, for a
  -- counter that starts at 0 or more and that the handler itself leaves alone.
  pub http_middleware_pairs :
      (rules : List Rule) (next : State r clock → State r clock) (j : Text) (n : ℕ)
      (s : State r clock)
      → ((t : State r clock) → (text (next t).0 j ≡ text t.0 j) × (t.1 ≤ (next t).1))
      → count_of (text s.0 j) ≡ pos n
      → (http_middleware r clock true rules next s).1 ≡ served
      → (http_middleware r clock true rules next s).0.1 ≡ s.1
      → (t : State r clock) × ((http_middleware r clock true rules next s).0
          ≡ release r clock true rules (next t))
        × (count_of (text t.0 j) ≡ pos (slots rules j + n))
        × (count_of (text (http_middleware r clock true rules next s).0.0 j) ≡ pos n)
  unfolding http_middleware acquire check release release_rules
  http_middleware_pairs [] next j n s keeps c answer quiet =
      (s, refl, c ∙ ap pos (omega arith), ap count_of (keeps s).0 ∙ c)
  http_middleware_pairs (rule ∷ rules) next j n s keeps c answer quiet =
      let (kept, up) = check_rules-text r clock laws (rule ∷ rules) j s in
      served-count (rule ∷ rules) next j n s.1 (check_rules r clock (rule ∷ rules) s) keeps up
        (ap count_of kept ∙ c) answer quiet
