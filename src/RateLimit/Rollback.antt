-- ===== src/RateLimit/Rollback.antt =====
-- A request that is refused, and one whose acquisition breaks off half-way.
use apipro.Base.{
  ℕ, suc, ◌+◌, ◌≤◌, ◌≡◌, refl, sym, ap, ◌∙◌, Bool, true, false, List, [], ◌∷◌, Text, pos, Option,
  none, some, if◌then◌else◌, arith,
}
use apipro.Redis.{Redis, RedisLaws, count_of}
use apipro.RateLimit.{
  Rule, State, served, over_limit, active, check_rules, check, acquire_one, rollback, acquire_rules,
  admit, acquire, rollback_one, release_rules, release, finish, http_middleware,
}
use apipro.RateLimit.Checks.{check_rules-text}
use apipro.RateLimit.Acquiring.{takes, slots, acquire_one-count, acquire_one_others}
use apipro.RateLimit.Pairing.{
  acquired_fine, acquired_failed, rollback_one-count, release_rules-count, release_rules-logged,
  rollback_one-logged,
}

module _ (r : Redis) (clock : r.Db → ℕ) (laws : RedisLaws r) where
  open laws use {text}

  refused_lem :
      (rules : List Rule) (next next' : State r clock → State r clock) (rule : Rule)
      (q : State r clock × Option Rule)
      → (finish r clock true rules next (admit r clock rules q)).1 ≡ over_limit rule
      → ((finish r clock true rules next (admit r clock rules q)).0 ≡ q.0)
        × (finish r clock true rules next' (admit r clock rules q)
            ≡ finish r clock true rules next (admit r clock rules q))
  unfolding finish admit
  refused_lem rules next next' rule (s, some denied) answer = (refl, refl)
  refused_lem rules next next' rule (s, none) answer = cc

  -- A request that is turned away with the error of a rule changes no counter and runs no handler: any
  -- other handler in its place gives the same answer and the same state.
  pub http_middleware_refused :
      (rules : List Rule) (next next' : State r clock → State r clock) (rule : Rule)
      (s : State r clock)
      → (http_middleware r clock true rules next s).1 ≡ over_limit rule
      → (http_middleware r clock true rules next' s ≡ http_middleware r clock true rules next s)
        × ((j : Text) → text (http_middleware r clock true rules next s).0.0 j ≡ text s.0 j)
  unfolding http_middleware acquire check
  http_middleware_refused [] next next' rule s answer = cc
  http_middleware_refused (first ∷ rules) next next' rule s answer =
      let rules' = first ∷ rules in
      let q = check_rules r clock rules' s in
      let (stays, alike) = refused_lem rules' next next' rule q answer in
      (alike, λ j. ap (λ t. text t.0 j) stays ∙ (check_rules-text r clock laws rules' j s).0)

  -- The acquisition of two rules of which the second fails.
  acquire_rules_broken :
      (first second : Rule) (e : ℕ) (s : State r clock)
      → active first ≡ true
      → active second ≡ true
      → (acquire_one r clock first s.0).1 ≡ none
      → (acquire_one r clock second (acquire_one r clock first s.0).0).1 ≡ some e
      → acquire_rules r clock [] (first ∷ second ∷ []) s
        ≡ rollback_one r clock first
            ((acquire_one r clock second (acquire_one r clock first s.0).0).0, suc s.1)
  unfolding acquire_rules rollback
  acquire_rules_broken first second e s a a' fine failed =
      let p = acquire_one r clock first s.0 in
      let rest = λ (t : State r clock). acquire_rules r clock (first ∷ []) (second ∷ []) t in
      let rest' = λ (t : State r clock). t in
      rw a (
        acquired_fine r clock laws [] rest s.1 p fine
        ∙ rw a' (
            acquired_failed r clock laws (first ∷ []) rest' s.1 e (acquire_one r clock second p.0)
              failed))

  two_slots :
      (first second : Rule) (j : Text) (n : ℕ)
      → takes first j ≡ true
      → takes second j ≡ false
      → slots (first ∷ second ∷ []) j + n ≡ suc n
  two_slots first second j n hit miss = rw (hit, miss) (omega arith)

  -- With the one failure logged, the counter ends one below its start.
  broken-count :
      (first second : Rule) (next : State r clock → State r clock) (j : Text) (n : ℕ)
      (s mid t : State r clock)
      → ((u : State r clock) → (text (next u).0 j ≡ text u.0 j) × (u.1 ≤ (next u).1))
      → takes first j ≡ true
      → takes second j ≡ false
      → count_of (text mid.0 j) ≡ pos (suc (suc n))
      → mid.1 ≡ suc s.1
      → t ≡ rollback_one r clock first mid
      → (release_rules r clock (first ∷ second ∷ []) (next t)).1 ≡ suc s.1
      → count_of (text (release_rules r clock (first ∷ second ∷ []) (next t)).0 j) ≡ pos n
  broken-count first second next j n s mid t keeps hit miss c logged reached quiet =
      let same = ap (λ u. u.1) reached in
      let up₁ = rollback_one-logged r clock laws first mid in
      let up₂ = (keeps t).1 in
      let up₃ = release_rules-logged r clock laws (first ∷ second ∷ []) (next t) in
      let rolled = rollback_one-count r clock laws first j (suc n) mid hit (omega arith) c in
      release_rules-count r clock laws (first ∷ second ∷ []) j n (next t) (omega arith) (
        ap count_of (keeps t).0
        ∙ ap (λ u. count_of (text u.0 j)) reached
        ∙ rolled
        ∙ ap pos (sym (two_slots first second j n hit miss)))

  served_lem :
      (rules : List Rule) (next : State r clock → State r clock) (q : State r clock × Option Rule)
      → q.1 ≡ none
      → finish r clock true rules next (admit r clock rules q)
        ≡ (release_rules r clock rules (next (acquire_rules r clock [] rules q.0)), served)
  unfolding finish admit release
  served_lem rules next (s, none) h = refl
  served_lem rules next (s, some rule) h = cc

  -- If the acquisition fails at the second of two rules, the first being a concurrency rule, the
  -- request is served all the same, and its slot is given back twice: by the rollback and again by
  -- `Release`. With no other failure the counter ends one below where it began.
  pub http_middleware_overdrawn :
      (first second : Rule) (next : State r clock → State r clock) (j : Text) (n e : ℕ)
      (s : State r clock)
      → ((u : State r clock) → (text (next u).0 j ≡ text u.0 j) × (u.1 ≤ (next u).1))
      → active first ≡ true
      → active second ≡ true
      → takes first j ≡ true
      → takes second j ≡ false
      → (check_rules r clock (first ∷ second ∷ []) s).1 ≡ none
      → let checked_state = (check_rules r clock (first ∷ second ∷ []) s).0 in
        (acquire_one r clock first checked_state.0).1 ≡ none
        → (acquire_one r clock second (acquire_one r clock first checked_state.0).0).1 ≡ some e
        → (http_middleware r clock true (first ∷ second ∷ []) next s).0.1 ≡ suc checked_state.1
        → count_of (text s.0 j) ≡ pos (suc n)
        → ((http_middleware r clock true (first ∷ second ∷ []) next s).1 ≡ served)
          × (count_of (text (http_middleware r clock true (first ∷ second ∷ []) next s).0.0 j)
              ≡ pos n)
  unfolding http_middleware acquire check
  http_middleware_overdrawn first second next j n e s keeps a a' hit miss passed fine failed quiet
        c =
      let rules = first ∷ second ∷ [] in
      let q = check_rules r clock rules s in
      let path = served_lem rules next q passed in
      let d = (acquire_one r clock first q.0.0).0 in
      let mid : State r clock = ((acquire_one r clock second d).0, suc q.0.1) in
      let one =
        acquire_one-count r clock laws first j (suc n) q.0.0 a fine
          (ap count_of (check_rules-text r clock laws rules j s).0 ∙ c) in
      let taken : count_of (text mid.0 j) ≡ pos (suc (suc n)) =
        ap count_of (acquire_one_others r clock laws second j d a' miss)
        ∙ one
        ∙ ap (λ (b : Bool). pos (if b then suc (suc n) else suc n)) hit in
      (
        ap (λ o. o.1) path,
        ap (λ o. count_of (text o.0.0 j)) path
            ∙ broken-count first second next j n q.0 mid (acquire_rules r clock [] rules q.0) keeps
                hit miss taken refl (acquire_rules_broken first second e q.0 a a' fine failed)
                (sym (ap (λ o. o.0.1) path) ∙ quiet),
      )
