-- ===== src/Semaphore/Tests.antt =====
-- Runs of the semaphore, and its theorems at concrete inputs.
use apipro.Base.{ℕ, ◌+◌, ◌≡◌, refl, false, Option, none, some, [], pos, negsuc}
use apipro.Semaphore.{
  Semaphore, slot, Ending, panicked, new_semaphore, enter, take_token, acquire, try_acquire,
  release, with_token,
}
use apipro.Semaphore.Token.{held}
use apipro.Semaphore.Interleaving.{
  World, Reach, here, next, enters, takes, Inv, initial, interleaving-Inv,
}

abbrev pool : Semaphore
pool = record {
  name = [];
  tokens = 0;
  capacity = 2;
  total = pos 2;
  waiting = 0;
  acquired = 0;
  rejected = 0;
}

new_pool : new_semaphore [] (pos 2) ≡ some pool
unfolding new_semaphore
new_pool = refl

no_limit : new_semaphore [] (negsuc 4) ≡ none
unfolding new_semaphore
no_limit = refl

full_refuses : (try_acquire (some (record pool { tokens = 2 }))).1 ≡ false
unfolding try_acquire
full_refuses = refl

-- A function that panics, having run with the token held.
abbrev panics : Option Semaphore → ℕ → Option Semaphore × ℕ × Ending
panics t n = (t, n + held t, panicked)

with_token_run :
    with_token (some pool) slot panics 5 ≡ some (some (record pool { acquired = 1 }), 6, panicked)
unfolding with_token acquire release
with_token_run = refl

-- One call waits, another has sent its token and not yet counted it.
abbrev sent : World
sent = record (initial pool) {
  semaphore = record pool { waiting = 2; tokens = 1 };
  parked = 1;
  sending = 1;
}

one_sent : Reach (initial pool) sent
unfolding enter take_token
one_sent =
    next (next (next here enters) enters)
      (takes 1 (record pool { waiting = 2; tokens = 1 }) refl refl)

interleaving-Inv_example : Inv 2 sent
interleaving-Inv_example = interleaving-Inv [] 1 pool sent new_pool one_sent
