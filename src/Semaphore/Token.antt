-- ===== src/Semaphore/Token.antt =====
-- `WithToken` pairs what it takes with what it gives back.
use apipro.Base.{ℕ, ◌+◌, ◌-◌, ◌<◌, ◌≡◌, refl, Option, none, some, arith}
use apipro.Semaphore.{
  add_one, Semaphore, slot, done, Ending, returned, acquire, release, with_token, enter, give_up,
  leave,
}

abbrev pub held : Option Semaphore → ℕ
held none = 0
held (some s) = s.tokens

-- The semaphore as the wrapped function finds it.
taken : Semaphore → Semaphore
unfolding enter leave
taken s = leave (record (enter s) { tokens = s.tokens + 1; acquired = add_one s.acquired })

acquire_room :
    (s : Semaphore) → s.tokens < s.capacity → acquire (some s) slot ≡ some (some (taken s), none)
unfolding acquire taken
acquire_room s h = ground arith

taken-tokens : (s : Semaphore) → (taken s).tokens ≡ s.tokens + 1
unfolding taken
taken-tokens s = refl

held-release : (t : Option Semaphore) → held (release t) ≡ held t - 1
unfolding release
held-release none = omega arith
held-release (some t) = ground arith

module _ {ℓ} {W : Type ℓ} (f : Option Semaphore → W → Option Semaphore × W × Ending) where
  -- With a token free, `WithToken` runs the function on a semaphore with one more token taken, and
  -- ends with that run's state and ending, a panic included. If the function leaves as many tokens
  -- in the channel as it finds, so does `WithToken`.
  pub with_token_pairs :
      (s : Semaphore) (w : W)
      → ((t : Option Semaphore) (v : W) → held (f t v).0 ≡ held t)
      → s.tokens < s.capacity
      → (inside after : Option Semaphore) × (held inside ≡ s.tokens + 1)
        × (with_token (some s) slot f w ≡ some (after, (f inside w).1, (f inside w).2))
        × (held after ≡ s.tokens)
  unfolding with_token release taken
  with_token_pairs s w keeps room =
      let r = f (some (taken s)) w in
      (
        some (taken s),
        release r.0,
        taken-tokens s,
        rw (acquire_room s room, with_token),
        omega (arith, held-release r.0, keeps (some (taken s)) w, taken-tokens s),
      )

  -- A call whose context ends first never runs the function: its state is as it was, the error is
  -- the context's, and one more rejection is counted with no token moved.
  pub with_token_cancelled :
      (s : Semaphore) (e : ℕ) (w : W)
      → (t : Semaphore) × (with_token (some s) (done e) f w ≡ some (some t, w, returned (some e)))
        × (t.tokens ≡ s.tokens)
        × (t.rejected ≡ add_one s.rejected)
  unfolding with_token acquire
  with_token_cancelled s e w = (leave (give_up (enter s)), refl, refl, refl)
