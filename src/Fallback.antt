-- ===== src/Fallback.antt =====
-- common/cache/fallback.go: the chain of sources that is asked when the cache cannot answer. A source
-- is an interface of the program; each may read and change an outside state.
pub mod Chain
mod Tests
use apipro.Base.{
  ℕ, ◌+◌, ◌%◌, ◌^◌, Bool, true, false, List, [], ◌∷◌, Text, Option, none, some, text_eq,
  if◌then◌else◌,
}

-- What `Get` of a source returns: a real error, no hit, or the data.
pub data Outcome : Type 0 where
  failed : ℕ → Outcome
  missed : Outcome
  hit : Text → Outcome

pub record FallbackSource (W : Type 0) : Type 0 where
  pub name : Text
  pub fetch : Text → Text → W → W × Outcome

-- The counters by name, as the bits of an int64.
pub record Counters : Type 0 where
  pub hits : Text → ℕ
  pub misses : Text → ℕ
  pub errors : Text → ℕ

abbrev pub new_counters : Counters
new_counters = record { hits = λ n. 0; misses = λ n. 0; errors = λ n. 0 }

abbrev pub add_int64 : ℕ → ℕ
add_int64 n = (n + 1) % 2 ^ 64

abbrev pub bump : Text → (Text → ℕ) → Text → ℕ
bump name count n = if text_eq name n then add_int64 (count n) else count n

abbrev pub State : Type 0 → Type 0
State W = Counters × W

-- A source and its data, if one has answered.
abbrev pub Found : Type 0 → Type 0
Found W = State W × Option (Text × Text)

-- One turn of the loop of `GetOrError`, with what the rest of it does.
unfoldable pub answered :
    {W : Type 0} → Text → (State W → Found W) → Counters → W × Outcome → Found W
answered name rest fm (w, failed e) = rest (record fm { errors = bump name fm.errors }, w)
answered name rest fm (w, missed) = rest (record fm { misses = bump name fm.misses }, w)
answered name rest fm (w, hit data') =
    ((record fm { hits = bump name fm.hits }, w), some (data', name))

module _ {W : Type 0} (family key : Text) where
  -- `none` among the sources is a nil interface, and as a result it is ErrNoFallback.
  unfoldable pub get_or_error : List (Option (FallbackSource W)) → State W → Found W
  unfolding answered
  get_or_error [] s = (s, none)
  get_or_error (none ∷ sources) s = get_or_error sources s
  get_or_error (some src ∷ sources) s =
      answered src.name (λ t. get_or_error sources t) s.0 (src.fetch family key s.1)

unfoldable pub sources : {W : Type 0} → List (Option (FallbackSource W)) → List Text
sources [] = []
sources (none ∷ srcs) = sources srcs
sources (some src ∷ srcs) = src.name ∷ sources srcs
