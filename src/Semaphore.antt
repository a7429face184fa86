-- ===== src/Semaphore.antt =====
-- common/db/semaphore.go: the gate above the connection pool. The buffered channel of tokens is
-- the number of tokens in it; the atomic int64 counters are their bit patterns below 2 ^ 64. A nil
-- *Semaphore is `none`.
pub mod Interleaving
pub mod Token
mod Tests
use apipro.Base.{
  ℕ, zero, suc, ◌+◌, ◌-◌, ◌%◌, ◌^◌, Bool, true, false, Option, none, some, Text, [], ℤ, pos, negsuc,
  ltb, leb, ltb_ℤ, ◌==◌, if◌then◌else◌,
}

pub record Semaphore : Type 0 where
  pub name : Text
  pub tokens : ℕ  -- len(tokens)
  pub capacity : ℕ  -- cap(tokens)
  pub total : ℤ  -- int32
  pub waiting : ℕ
  pub acquired : ℕ
  pub rejected : ℕ

abbrev pub int64_mod : ℕ
int64_mod = 2 ^ 64

-- `atomic.AddInt64(p, 1)` and `atomic.AddInt64(p, -1)`
abbrev pub add_one : ℕ → ℕ
add_one n = (n + 1) % int64_mod

abbrev pub sub_one : ℕ → ℕ
sub_one n = (n + int64_mod - 1) % int64_mod

-- `int32(n)`
abbrev pub int32 : ℕ → ℤ
int32 n = let w = n % 2 ^ 32 in if ltb w (2 ^ 31) then pos w else negsuc (2 ^ 32 - w - 1)

-- The argument is Go's `int`; one of 0 or less gives nil.
unfoldable pub new_semaphore : Text → ℤ → Option Semaphore
new_semaphore name (pos zero) = none
new_semaphore name (negsuc n) = none
new_semaphore name (pos (suc n)) = some (record {
  name = name;
  tokens = 0;
  capacity = suc n;
  total = int32 (suc n);
  waiting = 0;
  acquired = 0;
  rejected = 0;
})

-- The moments of `Acquire` that others can see: the entry, the send and the count that follows it or the
-- count of a call given up, and the deferred exit.
unfoldable pub enter : Semaphore → Semaphore
enter s = record s { waiting = add_one s.waiting }

-- `s.tokens <- struct{}{}` when there is room; else it stays blocked.
unfoldable pub take_token : Semaphore → Option Semaphore
take_token s = if ltb s.tokens s.capacity then some (record s { tokens = s.tokens + 1 }) else none

unfoldable pub count_acquired : Semaphore → Semaphore
count_acquired s = record s { acquired = add_one s.acquired }

unfoldable pub give_up : Semaphore → Semaphore
give_up s = record s { rejected = add_one s.rejected }

unfoldable pub leave : Semaphore → Semaphore
leave s = record s { waiting = sub_one s.waiting }

-- What a call is told by: a free slot of the channel, or the context's end with its error.
pub data Wake : Type 0 where
  slot : Wake
  done : ℕ → Wake

-- The case of the `select` that fires. `none`: the slot is not there, and the call stays parked.
unfoldable pub acquire : Option Semaphore → Wake → Option (Option Semaphore × Option ℕ)
unfolding enter take_token count_acquired give_up leave
acquire none wake = some (none, none)
acquire (some s) slot = elim (take_token (enter s)) [
  | none ↦ none
  | some t ↦ some (some (leave (count_acquired t)), none)
]
acquire (some s) (done e) = some (some (leave (give_up (enter s))), some e)

unfoldable pub try_acquire : Option Semaphore → Option Semaphore × Bool
unfolding take_token count_acquired
try_acquire none = (none, true)
try_acquire (some s) = elim (take_token s) [
  | none ↦ (some s, false)
  | some t ↦ (some (count_acquired t), true)
]

-- With no token to receive, the call only logs.
unfoldable pub release : Option Semaphore → Option Semaphore
release none = none
release (some s) = if ltb 0 s.tokens then some (record s { tokens = s.tokens - 1 }) else some s

-- How the wrapped function ends: with Go's error or nil, or with a panic.
pub data Ending : Type 0 where
  returned : Option ℕ → Ending
  panicked : Ending

-- The function runs on the semaphore as other calls may see it, and on a state of its own.
unfoldable pub with_token {ℓ} :
    {W : Type ℓ}
    → Option Semaphore
    → Wake
    → (Option Semaphore → W → Option Semaphore × W × Ending)
    → W
    → Option (Option Semaphore × W × Ending)
with_token none wake f w = some (f none w)
with_token (some s) wake f w = elim (acquire (some s) wake) [
  | none ↦ none
  | some (t, some e) ↦ some (t, w, returned (some e))
  | some (t, none) ↦ let (u, w', ending) = f t w in some (release u, w', ending)
]

pub record Stats : Type 0 where
  pub available : ℤ
  pub total : ℤ
  pub waiting : ℕ
  pub acquired_total : ℕ
  pub rejected_total : ℕ

-- `total - held` on int32 values that do not overflow, held at 0.
abbrev clamped_sub : ℤ → ℕ → ℤ
clamped_sub (pos n) held = pos (n - held)
clamped_sub (negsuc n) held = pos 0

unfoldable pub stats : Option Semaphore → Stats
stats none = record {
  available = pos 0;
  total = pos 0;
  waiting = 0;
  acquired_total = 0;
  rejected_total = 0;
}
stats (some s) = record {
  available = clamped_sub s.total s.tokens;
  total = s.total;
  waiting = s.waiting;
  acquired_total = s.acquired;
  rejected_total = s.rejected;
}

unfoldable pub name_of : Option Semaphore → Text
name_of none = []
name_of (some s) = s.name
