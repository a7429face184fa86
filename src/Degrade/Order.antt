-- ===== src/Degrade/Order.antt =====
-- Severity as an order: what promotion and demotion do to the mode, and which levels are served.
use apipro.Base.{
  ℕ, zero, suc, ◌≤◌, ◌<◌, max, ◌↔◌, ◌≡◌, ◌⊎◌, true, false, List, [], ◌∷◌, pos, negsuc, arith,
}
use apipro.Degrade.{
  Mode, Level, level_display, level_auth, level_write, mode_normal, Manager, severity, serve_table,
  can_serve_level, promote_if_worse, demote_if_better,
}

-- The four named modes.
abbrev pub IsMode : Mode → Type 0
IsMode (pos n) = n ≤ 3
IsMode (negsuc n) = ⊥

abbrev pub IsLevel : Level → Type 0
IsLevel l = (l ≡ level_display) ⊎ (l ≡ level_auth) ⊎ (l ≡ level_write)

severity-le : (m : Mode) → severity m ≤ 3
unfolding severity
severity-le (pos zero) = omega arith
severity-le (pos (suc zero)) = omega arith
severity-le (pos (suc (suc zero))) = omega arith
severity-le (pos (suc (suc (suc zero)))) = omega arith
severity-le _ = omega arith

serve_table-antitone :
    (m m' : Mode) (level : Level)
    → IsMode m
    → IsMode m'
    → severity m ≤ severity m'
    → serve_table m' level ≡ true
    → serve_table m level ≡ true
unfolding serve_table severity
serve_table-antitone (pos n) (pos n') level h h' s e = ground arith
serve_table-antitone (pos n) (negsuc n') level h h' s e = absurd h'
serve_table-antitone (negsuc n) m' level h h' s e = absurd h

serve_table-auth : (m : Mode) → IsMode m → serve_table m level_auth ≡ true
unfolding serve_table
serve_table-auth (pos n) h = ground arith
serve_table-auth (negsuc n) h = absurd h

-- A level that a named mode serves is served by every named mode of at most its severity, and the
-- auth level is served by every named mode.
pub can_serve_level-antitone :
    (m m' : Manager) (level : Level)
    → IsMode m.mode
    → IsMode m'.mode
    → severity m.mode ≤ severity m'.mode
    → (can_serve_level m' level ≡ true → can_serve_level m level ≡ true)
      × (can_serve_level m level_auth ≡ true)
unfolding can_serve_level
can_serve_level-antitone m m' level h h' s =
    (serve_table-antitone m.mode m'.mode level h h' s, serve_table-auth m.mode h)

-- The write level is served in the normal mode only.
pub can_serve_level-write :
    (m : Manager) → (can_serve_level m level_write ≡ true) ↔ (m.mode ≡ mode_normal)
unfolding can_serve_level serve_table
can_serve_level-write m = ground arith

-- From any mode worse than normal, demotion to a value that is none of the four constants is
-- carried out, and no level at all is served after it, the auth level included.
pub demote_if_better-unknown :
    (m : Manager) (mode : Mode)
    → ¬ IsMode mode
    → 0 < severity m.mode
    → ((demote_if_better m mode).1 ≡ true)
      × ((level : Level) → can_serve_level (demote_if_better m mode).0 level ≡ false)
unfolding demote_if_better can_serve_level severity serve_table
demote_if_better-unknown m (pos n) h s = (ground arith, λ level. ground arith)
demote_if_better-unknown m (negsuc n) h s = (ground arith, λ level. ground arith)

abbrev pub promote_all : Manager → List Mode → Manager
promote_all m [] = m
promote_all m (mode ∷ modes) = promote_all (promote_if_worse m mode).0 modes

abbrev pub worst : List Mode → ℕ
worst [] = 0
worst (mode ∷ modes) = max (severity mode) (worst modes)

promote-severity :
    (m : Manager) (mode : Mode)
    → severity (promote_if_worse m mode).0.mode ≡ max (severity m.mode) (severity mode)
unfolding promote_if_worse
promote-severity m mode = ground arith

-- After any sequence of promotions the severity is the largest of the starting one and all those
-- observed, in whatever order they came.
pub promote_all-worst :
    (m : Manager) (modes : List Mode)
    → severity (promote_all m modes).mode ≡ max (severity m.mode) (worst modes)
promote_all-worst m [] = omega arith
promote_all-worst m (mode ∷ modes) =
    omega (arith, promote-severity m mode, promote_all-worst (promote_if_worse m mode).0 modes)
