-- ===== src/Degrade/Race.antt =====
-- Calls of `Set` from several goroutines. The swap is made under the lock and the sends after it
-- is released, so the sends of one call may come after those of a later one.
use apipro.Base.{subst, ◌≡◌, ◌≢◌, List, [], ◌∷◌, ◌++◌, eq_ℤ_iff, arith}
use apipro.Degrade.{Mode, Channel, Manager, notify, notify_one, try_send, set}

-- The manager, and the modes whose sends are still to be made.
pub record Shared : Type 0 where
  pub manager : Manager
  pub in_flight : List Mode

-- The critical section of `Set`.
pub swap_mode : Manager → Mode → Manager
swap_mode m mode = record m { mode = mode }

pub data Step : Shared → Shared → Type 0 where
  swap :
      (s : Shared) (mode : Mode)
      → s.manager.mode ≢ mode
      → Step s (record { manager = swap_mode s.manager mode; in_flight = mode ∷ s.in_flight })
  send :
      (m : Manager) (before after : List Mode) (mode : Mode)
      → Step
          (record { manager = m; in_flight = before ++ mode ∷ after })
          (record {
            manager = record m { watchers = notify m.watchers mode };
            in_flight = before ++ after;
          })

pub data Reach (s : Shared) : Shared → Type 0 where
  here : Reach s s
  next : {t u : Shared} → Reach s t → Step t u → Reach s u

set-swap_mode :
    (m : Manager) (mode : Mode)
    → m.mode ≢ mode
    → record (swap_mode m mode) { watchers = notify m.watchers mode } ≡ set m mode
unfolding set swap_mode
set-swap_mode m mode h = ground (arith, eq_ℤ_iff m.mode mode)

abbrev pub idle : Manager → Shared
idle m = record { manager = m; in_flight = [] }

-- A call of `set` with nothing else under way is a run of these steps.
pub set-Reach : (m : Manager) (mode : Mode) → m.mode ≢ mode → Reach (idle m) (idle (set m mode))
unfolding swap_mode
set-Reach m mode h =
    subst (λ m'. Reach (idle m) (idle m')) (set-swap_mode m mode h)
      (next (next here (swap (idle m) mode h)) (send (swap_mode m mode) [] [] mode))

abbrev pub at_rest : Mode → Channel → Shared
at_rest mode ch = idle (record { mode = mode; watchers = ch ∷ [] })

-- Two calls of `Set`, to `a` and then to `b`, may end with nothing under way, the manager at `b`
-- and `a` as the newest entry of a watcher's channel.
pub stale_watcher :
    (old a b : Mode) → old ≢ a → a ≢ b → Reach (at_rest old []) (at_rest b (b ∷ a ∷ []))
unfolding swap_mode notify notify_one try_send
stale_watcher old a b h h' =
    let s = at_rest old [] in
    let s' : Shared = record { manager = swap_mode s.manager a; in_flight = a ∷ [] } in
    let m = swap_mode s'.manager b in
    next (next (next (next here (swap s a h)) (swap s' b h')) (send m [] (a ∷ []) b))
      (send (record m { watchers = notify m.watchers b }) [] [] a)
