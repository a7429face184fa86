-- ===== src/Semaphore/Interleaving.antt =====
-- Any number of goroutines in `Acquire`, `TryAcquire` and `Release`, interleaved at the atomic
-- steps. The counts of goroutines stand beside the semaphore and are no part of the program.
use apipro.Base.{ℕ, suc, ◌+◌, ◌-◌, ◌%◌, ◌^◌, ◌<◌, ◌≤◌, ◌≡◌, some, arith, Text, pos}
use apipro.Semaphore.{
  Semaphore, int64_mod, int32, new_semaphore, enter, take_token, count_acquired, give_up, leave,
  release, stats,
}

pub record World : Type 0 where
  pub semaphore : Semaphore
  -- goroutines blocked in the `select` of `Acquire`
  pub parked : ℕ
  -- those of `Acquire` and of `TryAcquire` that have sent their token and not yet counted it
  pub sending : ℕ
  pub trying : ℕ
  -- those past it whose deferred decrement is still to run
  pub leaving : ℕ
  -- tokens out and counted
  pub holders : ℕ
  -- tokens given back so far, and calls of `Acquire` given up
  pub released : ℕ
  pub cancelled : ℕ

pub data Step (w : World) : World → Type 0 where
  enters : Step w (record w { semaphore = enter w.semaphore; parked = suc w.parked })
  takes :
      (n : ℕ) (s : Semaphore)
      → w.parked ≡ suc n
      → take_token w.semaphore ≡ some s
      → Step w (record w { semaphore = s; parked = n; sending = suc w.sending })
  counts :
      (n : ℕ)
      → w.sending ≡ suc n
      → Step w (record w {
        semaphore = count_acquired w.semaphore;
        sending = n;
        leaving = suc w.leaving;
        holders = suc w.holders;
      })
  gives_up :
      (n : ℕ)
      → w.parked ≡ suc n
      → Step w (record w {
        semaphore = give_up w.semaphore;
        parked = n;
        leaving = suc w.leaving;
        cancelled = suc w.cancelled;
      })
  leaves :
      (n : ℕ) → w.leaving ≡ suc n → Step w (record w { semaphore = leave w.semaphore; leaving = n })
  tries :
      (s : Semaphore)
      → take_token w.semaphore ≡ some s
      → Step w (record w { semaphore = s; trying = suc w.trying })
  tried :
      (n : ℕ)
      → w.trying ≡ suc n
      → Step w
          (record w { semaphore = count_acquired w.semaphore; trying = n; holders = suc w.holders })
  releases :
      (n : ℕ) (s : Semaphore)
      → w.holders ≡ suc n
      → release (some w.semaphore) ≡ some s
      → Step w (record w { semaphore = s; holders = n; released = suc w.released })

pub data Reach (w : World) : World → Type 0 where
  here : Reach w w
  next : {u v : World} → Reach w u → Step u v → Reach w v

pub record Inv (capacity : ℕ) (w : World) : Type 0 where
  pub capacity_kept : w.semaphore.capacity ≡ capacity
  pub total_kept : w.semaphore.total ≡ int32 capacity
  pub tokens_held : w.semaphore.tokens ≡ w.sending + w.trying + w.holders
  pub within : w.sending + w.trying + w.holders ≤ capacity
  pub waiting_count : w.semaphore.waiting ≡ (w.parked + w.sending + w.leaving) % int64_mod
  pub acquired_count : w.semaphore.acquired ≡ (w.holders + w.released) % int64_mod
  pub rejected_count : w.semaphore.rejected ≡ w.cancelled % int64_mod

abbrev pub initial : Semaphore → World
initial s = record {
  semaphore = s;
  parked = 0;
  sending = 0;
  trying = 0;
  leaving = 0;
  holders = 0;
  released = 0;
  cancelled = 0;
}

initial-Inv :
    (name : Text) (n : ℕ) (s : Semaphore)
    → new_semaphore name (pos (suc n)) ≡ some s
    → Inv (suc n) (initial s)
unfolding new_semaphore
initial-Inv name n s e = ground arith

Step-Inv : {c : ℕ} {w v : World} → Step w v → Inv c w → Inv c v
unfolding enter take_token count_acquired give_up leave release
Step-Inv enters h = ground arith
Step-Inv (takes n s p e) h = ground arith
Step-Inv (counts n p) h = ground arith
Step-Inv (gives_up n p) h = ground arith
Step-Inv (leaves n p) h = ground arith
Step-Inv (tries s e) h = ground arith
Step-Inv (tried n p) h = ground arith
Step-Inv (releases n s p e) h = ground arith

Reach-Inv : {c : ℕ} {w v : World} → Inv c w → Reach w v → Inv c v
Reach-Inv h here = h
Reach-Inv h (next r st) = Step-Inv st (Reach-Inv h r)

-- However the calls interleave at their atomic steps, from a new semaphore of a given capacity on: the
-- channel holds one token for each goroutine that holds one, whether it has counted it yet or not, there
-- are never more of them than the capacity, and the three counters count, modulo 2 ^ 64, the goroutines
-- inside `Acquire`, the tokens taken and counted, and the calls given up.
pub interleaving-Inv :
    (name : Text) (n : ℕ) (s : Semaphore) (w : World)
    → new_semaphore name (pos (suc n)) ≡ some s
    → Reach (initial s) w
    → Inv (suc n) w
interleaving-Inv name n s w e r = Reach-Inv (initial-Inv name n s e) r

int32_small : (n : ℕ) → n < 2 ^ 31 → int32 n ≡ pos n
int32_small n h = ground arith

-- With a capacity below 2 ^ 31, the free and the held tokens that `Stats` shows always add up to
-- the capacity.
pub stats_available :
    (name : Text) (n : ℕ) (s : Semaphore) (w : World)
    → new_semaphore name (pos (suc n)) ≡ some s
    → Reach (initial s) w
    → suc n < 2 ^ 31
    → (free : ℕ) × ((stats (some w.semaphore)).available ≡ pos free)
      × (free + (w.sending + w.trying + w.holders) ≡ suc n)
unfolding stats
stats_available name n s w e r h = (
  suc n - (w.sending + w.trying + w.holders),
  ground (arith, interleaving-Inv name n s w e r, int32_small (suc n)),
  omega (arith, interleaving-Inv name n s w e r),
)
