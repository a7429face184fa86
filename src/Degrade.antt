-- ===== src/Degrade.antt =====
-- common/degrade/degrade.go: the global degrade state machine. A `Mode` is Go's int32 value, so
-- that values outside the four constants are modelled too. A watcher's channel is the list of the
-- modes queued in it, oldest first; a method that changes the manager returns the new one.
pub mod Order
pub mod Watch
pub mod Race
mod Tests
use apipro.Base.{
  ℕ, zero, suc, Bool, true, false, not, ◌||◌, List, [], ◌∷◌, ◌++◌, ℤ, pos, negsuc, eq_ℤ, ltb,
  if◌then◌else◌, length,
}

abbrev pub Mode : Type 0
Mode = ℤ

abbrev pub mode_normal : Mode
mode_normal = pos 0

abbrev pub mode_degraded : Mode
mode_degraded = pos 1

abbrev pub mode_protected : Mode
mode_protected = pos 2

abbrev pub mode_emergency : Mode
mode_emergency = pos 3

unfoldable pub severity : Mode → ℕ
severity (pos zero) = 0
severity (pos (suc zero)) = 1
severity (pos (suc (suc zero))) = 2
severity (pos (suc (suc (suc zero)))) = 3
severity _ = 0

-- Go's `int`; the constants are 1, 2 and 3.
abbrev pub Level : Type 0
Level = ℤ

abbrev pub level_display : Level
level_display = pos 1

abbrev pub level_auth : Level
level_auth = pos 2

abbrev pub level_write : Level
level_write = pos 3

-- What queues in the 8-slot buffer of one watcher.
abbrev pub Channel : Type 0
Channel = List Mode

abbrev pub channel_cap : ℕ
channel_cap = 8

pub record Manager : Type 0 where
  pub mode : Mode
  pub watchers : List Channel

unfoldable pub new : Manager
new = record { mode = mode_normal; watchers = [] }

unfoldable pub serve_table : Mode → Level → Bool
serve_table (pos zero) level = true
serve_table (pos (suc zero)) level = eq_ℤ level level_display || eq_ℤ level level_auth
serve_table (pos (suc (suc zero))) level = eq_ℤ level level_display || eq_ℤ level level_auth
serve_table (pos (suc (suc (suc zero)))) level = eq_ℤ level level_auth
serve_table _ level = false

unfoldable pub can_serve_level : Manager → Level → Bool
unfolding serve_table
can_serve_level m level = serve_table m.mode level

-- `select { case ch <- mode: default: }` on a channel with 8 slots.
unfoldable pub try_send : Channel → Mode → Channel
try_send ch mode = if ltb (length ch) channel_cap then ch ++ mode ∷ [] else ch

-- `select { case <-ch: default: }`
abbrev drop_oldest : Channel → Channel
drop_oldest [] = []
drop_oldest (x ∷ xs) = xs

unfoldable pub notify_one : Channel → Mode → Channel
unfolding try_send
notify_one ch mode =
    if ltb (length ch) channel_cap then try_send ch mode else try_send (drop_oldest ch) mode

unfoldable pub notify : List Channel → Mode → List Channel
notify [] mode = []
notify (ch ∷ chs) mode = notify_one ch mode ∷ notify chs mode

unfoldable pub set : Manager → Mode → Manager
set m mode =
    if eq_ℤ m.mode mode
    then record m { mode = mode }
    else record m { mode = mode; watchers = notify m.watchers mode }

unfoldable pub promote_if_worse : Manager → Mode → Manager × Bool
promote_if_worse m mode =
    if ltb (severity m.mode) (severity mode)
    then (record m { mode = mode; watchers = notify m.watchers mode }, true)
    else (m, false)

unfoldable pub demote_if_better : Manager → Mode → Manager × Bool
demote_if_better m mode =
    if ltb (severity mode) (severity m.mode)
    then (record m { mode = mode; watchers = notify m.watchers mode }, true)
    else (m, false)

unfoldable pub watch : Manager → Manager
watch m = record m { watchers = m.watchers ++ [] ∷ [] }

-- The gauge is the int32 value itself, which a float64 holds exactly.
unfoldable pub mode_gauge : Manager → ℤ
mode_gauge m = m.mode
