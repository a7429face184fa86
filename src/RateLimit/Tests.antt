-- ===== src/RateLimit/Tests.antt =====
-- The limiter on a Redis in memory.
use apipro.Base.{
  ℕ, ◌≡◌, refl, Bool, true, false, List, [], ◌∷◌, Text, pos, codes, arith, text_eq, if◌then◌else◌,
}
use apipro.Redis.{count_of}
use apipro.Redis.Decimal.{parse_int, print_int, print_ℕ, parse_digits}
use apipro.Redis.Memory.{Db, memory, memory_laws}
use apipro.RateLimit.{
  Rule, State, minute, served, over_limit, dim_concurrent, dim_ip, redis_key, http_middleware,
  active, check_one, check_rules, finish, admit, checked, counter_check, window_check, card_check,
  acquired, counted, pruned, added, expired, log_failure, decremented, log_reset, acquire_one,
  acquire_rules, rollback_one, rollback, release_one, release_rules, release, check, acquire,
}
use apipro.RateLimit.Limiter.{Limiter, allow, allow_exact}
use apipro.RateLimit.Pairing.{http_middleware_pairs}
use apipro.RateLimit.Rollback.{http_middleware_refused, http_middleware_overdrawn}

abbrev login : Rule
login = record {
  dimension = dim_concurrent;
  key = codes "/login";
  per_minute = pos 0;
  max_concurrent = pos 2;
}

abbrev by_ip : Rule
by_ip = record { dimension = dim_ip; key = codes "9"; per_minute = pos 1; max_concurrent = pos 0 }

abbrev login_key : Text
login_key = codes "apipro:rl:concurrent:/login"

abbrev clock : Db → ℕ
clock db = 1700000000000000000

-- A server that holds one slot of another request, and fails by the script.
abbrev server : Text → List Bool → State memory clock
server count fails = (
  record {
    texts = λ k. if text_eq k login_key then count else [];
    windows = λ k. [];
    fails = fails;
  },
  0,
)

abbrev handler : State memory clock → State memory clock
handler s = s

abbrev both : List Rule
both = login ∷ by_ip ∷ []

key_lem : redis_key dim_concurrent (codes "/login") ≡ login_key
unfolding redis_key
key_lem = refl

-- Opens the limiter for a run.
running : Bool
unfolding http_middleware finish acquire admit check check_rules checked check_one counter_check
    window_check card_check acquire_rules acquired acquire_one counted pruned added expired rollback
    rollback_one log_failure release release_rules release_one decremented log_reset active
    redis_key parse_int parse_digits print_int print_ℕ
running = true

run_clean : (http_middleware memory clock true both handler (server (codes "1") [])).0.1 ≡ 0
unfolding running
run_clean = refl

run_served : (http_middleware memory clock true both handler (server (codes "1") [])).1 ≡ served
unfolding running
run_served = refl

one_held : count_of (codes "1") ≡ pos 1
unfolding running
one_held = refl

http_middleware_pairs_example :
    (t : State memory clock) × ((http_middleware memory clock true both handler
        (server (codes "1") [])).0
      ≡ release memory clock true both (handler t))
    × (count_of (t.0.texts login_key) ≡ pos 2)
    × (count_of (
          (http_middleware memory clock true both handler (server (codes "1") [])).0.0.texts
            login_key)
        ≡ pos 1)
unfolding running
http_middleware_pairs_example =
    http_middleware_pairs memory clock memory_laws both handler login_key 1 (server (codes "1") [])
      (λ t. (refl, omega arith)) one_held run_served run_clean

run_refused :
    (http_middleware memory clock true both handler (server (codes "2") [])).1 ≡ over_limit login
unfolding running
run_refused = refl

http_middleware_refused_example :
    (http_middleware memory clock true both handler (server (codes "2") [])
      ≡ http_middleware memory clock true both handler (server (codes "2") []))
    × ((j : Text)
        → (http_middleware memory clock true both handler (server (codes "2") [])).0.0.texts j
          ≡ (server (codes "2") []).0.texts j)
http_middleware_refused_example =
    http_middleware_refused memory clock memory_laws both handler handler login
      (server (codes "2") []) run_refused

-- The fifth command fails, which is the first of the acquisition of the second rule.
abbrev failing : State memory clock
failing = server (codes "1") (false ∷ false ∷ false ∷ false ∷ true ∷ [])

http_middleware_overdrawn_example :
    ((http_middleware memory clock true both handler failing).1 ≡ served)
    × (count_of ((http_middleware memory clock true both handler failing).0.0.texts login_key)
        ≡ pos 0)
unfolding running
http_middleware_overdrawn_example =
    http_middleware_overdrawn memory clock memory_laws login by_ip handler login_key 0 1 failing
      (λ u. (refl, omega arith)) refl refl refl refl refl refl refl refl one_held

-- Two requests of the last minute, at the limit of 2.
abbrev two_per_minute : Limiter
two_per_minute = record { per_min = pos 2; window = minute; key_pref = codes "api" }

abbrev two_recent : Db
two_recent = record {
  texts = λ k. [];
  windows = λ k. 1699999999000000000 ∷ 1699999900000000000 ∷ 1699999998000000000 ∷ [];
  fails = [];
}

allow_exact_example :
    (allow memory clock true two_per_minute (codes "1.2.3.4") two_recent).1 ≡ false
allow_exact_example =
    allow_exact memory clock memory_laws two_per_minute (codes "1.2.3.4") two_recent 0 2 refl refl
