-- ===== src/Fallback/Chain.antt =====
-- The order of the chain and its counters.
use apipro.Base.{
  ℕ, ◌≡◌, ◌⊎◌, inl, inr, refl, sym, ap, subst, Bool, true, false, List, [], ◌∷◌, ◌++◌, Text, Option,
  none, some,
}
use apipro.Fallback.{
  FallbackSource, Counters, Outcome, failed, missed, hit, State, Found, answered, get_or_error,
  bump,
}

abbrev pub is_hit : Outcome → Bool
is_hit (failed e) = false
is_hit missed = false
is_hit (hit d) = true

abbrev pub hits_after : Option (Text × Text) → (Text → ℕ) → Text → ℕ
hits_after none count = count
hits_after (some (data', name)) count = bump name count

module _ {W : Type 0} (family key : Text) where
  -- All the sources of a chain, asked in order from one outside state to another, and none of them hits.
  abbrev pub Silent : List (Option (FallbackSource W)) → W → W → Type 0
  Silent [] w w' = w' ≡ w
  Silent (none ∷ srcs) w w' = Silent srcs w w'
  Silent (some src ∷ srcs) w w' =
      (is_hit (src.fetch family key w).1 ≡ false) × Silent srcs (src.fetch family key w).0 w'

  -- The first source that hits, and how its data was reached.
  pub record Hit (srcs : List (Option (FallbackSource W))) (w : W) (p : Found W) : Type 0 where
    pub before : List (Option (FallbackSource W))
    pub source : FallbackSource W
    pub after : List (Option (FallbackSource W))
    pub whole : srcs ≡ before ++ some source ∷ after
    pub reached : W
    pub silent : Silent before w reached
    pub data' : Text
    pub fetched : source.fetch family key reached ≡ (p.0.1, hit data')
    pub found : p.1 ≡ some (data', source.name)

  abbrev pub First : List (Option (FallbackSource W)) → W → Found W → Type 0
  First srcs w p = (Silent srcs w p.0.1 × (p.1 ≡ none)) ⊎ Hit srcs w p

  past_nil :
      (srcs : List (Option (FallbackSource W))) (w : W) (p : Found W)
      → First srcs w p
      → First (none ∷ srcs) w p
  past_nil srcs w p (inl h) = inl h
  past_nil srcs w p (inr h) = inr record {
    before = none ∷ h.before;
    source = h.source;
    after = h.after;
    whole = ap (λ xs. none ∷ xs) h.whole;
    reached = h.reached;
    silent = h.silent;
    data' = h.data';
    fetched = h.fetched;
    found = h.found;
  }

  past_source :
      (src : FallbackSource W) (srcs : List (Option (FallbackSource W))) (w : W) (p : Found W)
      → is_hit (src.fetch family key w).1 ≡ false
      → First srcs (src.fetch family key w).0 p
      → First (some src ∷ srcs) w p
  past_source src srcs w p quiet (inl h) = inl ((quiet, h.0), h.1)
  past_source src srcs w p quiet (inr h) = inr record {
    before = some src ∷ h.before;
    source = h.source;
    after = h.after;
    whole = ap (λ xs. some src ∷ xs) h.whole;
    reached = h.reached;
    silent = (quiet, h.silent);
    data' = h.data';
    fetched = h.fetched;
    found = h.found;
  }

  answered-First :
      (src : FallbackSource W) (srcs : List (Option (FallbackSource W))) (rest : State W → Found W)
      (fm : Counters) (w : W) (o : W × Outcome)
      → src.fetch family key w ≡ o
      → ((t : State W) → First srcs t.1 (rest t))
      → First (some src ∷ srcs) w (answered src.name rest fm o)
  unfolding answered
  answered-First src srcs rest fm w (w', failed x) e h =
      past_source src srcs w _ (ap (λ o. is_hit o.1) e) (
        subst
          (λ (o : W × Outcome).
            First srcs o.0 (rest (record fm { errors = bump src.name fm.errors }, w')))
          (sym e) (h _))
  answered-First src srcs rest fm w (w', missed) e h =
      past_source src srcs w _ (ap (λ o. is_hit o.1) e) (
        subst
          (λ (o : W × Outcome).
            First srcs o.0 (rest (record fm { misses = bump src.name fm.misses }, w')))
          (sym e) (h _))
  answered-First src srcs rest fm w (w', hit d) e h = inr record {
    before = [];
    source = src;
    after = srcs;
    whole = refl;
    reached = w;
    silent = refl;
    data' = d;
    fetched = e;
    found = refl;
  }

  -- The chain asks its sources in order and stops at the first that hits: either every one is asked and
  -- none hits, and there is no answer, or those before some source are asked without a hit, and that
  -- source is the last to be asked and its data and its name are the answer. Nil sources are passed over.
  pub get_or_error-First :
      (srcs : List (Option (FallbackSource W))) (s : State W)
      → First srcs s.1 (get_or_error family key srcs s)
  unfolding get_or_error
  get_or_error-First [] s = inl (refl, refl)
  get_or_error-First (none ∷ srcs) s = past_nil srcs s.1 _ (get_or_error-First srcs s)
  get_or_error-First (some src ∷ srcs) s =
      answered-First src srcs (λ t. get_or_error family key srcs t) s.0 s.1
        (src.fetch family key s.1) refl (λ t. get_or_error-First srcs t)

  answered-hits :
      (name : Text) (rest : State W → Found W) (fm : Counters) (o : W × Outcome) (n : Text)
      → ((t : State W) → (rest t).0.0.hits n ≡ hits_after (rest t).1 t.0.hits n)
      → (answered name rest fm o).0.0.hits n ≡ hits_after (answered name rest fm o).1 fm.hits n
  unfolding answered
  answered-hits name rest fm (w, failed e) n h = h _
  answered-hits name rest fm (w, missed) n h = h _
  answered-hits name rest fm (w, hit d) n h = refl

  -- The hit counters: the source that the answer names gains one, and no other does; without an answer
  -- all stay.
  pub get_or_error-hits :
      (srcs : List (Option (FallbackSource W))) (s : State W) (n : Text)
      → (get_or_error family key srcs s).0.0.hits n
        ≡ hits_after (get_or_error family key srcs s).1 s.0.hits n
  unfolding get_or_error
  get_or_error-hits [] s n = refl
  get_or_error-hits (none ∷ srcs) s n = get_or_error-hits srcs s n
  get_or_error-hits (some src ∷ srcs) s n =
      answered-hits src.name (λ t. get_or_error family key srcs t) s.0 (src.fetch family key s.1) n
        (λ t. get_or_error-hits srcs t n)
