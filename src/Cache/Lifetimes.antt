-- ===== src/Cache/Lifetimes.antt =====
-- How long the in-process cache keeps an entry.
use native.Mathlib.Nat.{mod-lt}
use apipro.Base.{◌≡◌, true, ℕ, ◌*◌, ◌/◌, ◌%◌, ◌≤◌, ◌<◌, arith, ltb}
use apipro.Cache.{clamped, jittered, l1_ttl_of, l1_ttl_min, l1_ttl_max}

clamped-bounds : (half : ℕ) → (l1_ttl_min ≤ clamped half) × (clamped half ≤ l1_ttl_max)
clamped-bounds half = ground arith

jittered-bounds :
    (half nanos : ℕ)
    → l1_ttl_min ≤ half
    → half ≤ l1_ttl_max
    → (4500000000 ≤ jittered half nanos) × (jittered half nanos < 66000000000)
jittered-bounds half nanos low high =
    let some_jitter : 0 < half / 10 * 2 = omega arith in
    let spread : nanos % (half / 10 * 2) < half / 10 * 2 = mod-lt nanos some_jitter in
    let moved : ltb 0 (half / 10) ≡ true = ground arith in
    let jitter = half / 10 in
    let extra = nanos % (half / 10 * 2) in rw moved (omega arith, omega arith)

-- The time to live in the in-process cache is at least four and a half seconds, whatever the one in Redis
-- is, so that in whole seconds it is never 0, and below sixty-six seconds.
pub l1_ttl_of-bounds :
    (ttl nanos : ℕ) → (4500000000 ≤ l1_ttl_of ttl nanos) × (l1_ttl_of ttl nanos < 66000000000)
unfolding l1_ttl_of
l1_ttl_of-bounds ttl nanos =
    let (low, high) = clamped-bounds (ttl / 2) in jittered-bounds (clamped (ttl / 2)) nanos low high
