-- ===== src/Fallback/Tests.antt =====
-- A chain of a source that fails, a nil source, one that misses and one that hits.
use apipro.Base.{ℕ, ◌+◌, ◌≡◌, refl, List, [], ◌∷◌, ◌++◌, Text, Option, none, some, codes}
use apipro.Fallback.{
  FallbackSource, Outcome, failed, missed, hit, answered, get_or_error, new_counters,
}
use apipro.Fallback.Chain.{First, get_or_error-First}

abbrev source : Text → Outcome → FallbackSource ℕ
source name o = record { name = name; fetch = λ family key w. (w + 1, o) }

abbrev broken : List (Option (FallbackSource ℕ))
broken =
    some (source (codes "l1_stale") missed) ∷ none ∷ some (source (codes "oss") (failed 500)) ∷ []

abbrev cdn : List (Option (FallbackSource ℕ))
cdn = some (source (codes "cdn") (hit (codes "[]"))) ∷ []

get_or_error-First_example :
    First
      (codes "live")
      (codes "1")
      (broken ++ cdn)
      0
      (get_or_error (codes "live") (codes "1") (broken ++ cdn) (new_counters, 0))
get_or_error-First_example =
    get_or_error-First (codes "live") (codes "1") (broken ++ cdn) (new_counters, 0)

answered_by :
    (get_or_error (codes "live") (codes "1") (broken ++ cdn) (new_counters, 0)).1
    ≡ some (codes "[]", codes "cdn")
unfolding get_or_error answered
answered_by = refl
