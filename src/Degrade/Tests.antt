-- ===== src/Degrade/Tests.antt =====
-- Runs of the degrade manager, and its theorems at concrete inputs.
use apipro.Base.{◌≡◌, refl, List, [], ◌∷◌, pos, arith}
use apipro.Degrade.{
  Mode, Manager, mode_normal, mode_degraded, mode_emergency, mode_protected, severity, new, set,
  promote_if_worse, demote_if_better, watch, mode_gauge,
}
use apipro.Degrade.Order.{promote_all, promote_all-worst}
use apipro.Degrade.Watch.{step, sets, promotes, demotes, run, transitions, run-newest}
use apipro.Degrade.Race.{Reach, at_rest, stale_watcher}

abbrev watched : Manager
watched = record { mode = mode_normal; watchers = [] ∷ [] }

abbrev degraded : Manager
degraded = record { mode = mode_degraded; watchers = [] ∷ [] }

abbrev emergency : Manager
emergency = record { mode = mode_emergency; watchers = [] }

watch-new : (watch new) ≡ watched
unfolding watch new
watch-new = refl

gauge_emergency : mode_gauge emergency ≡ pos 3
unfolding mode_gauge
gauge_emergency = refl

set_to_same : set watched mode_normal ≡ watched
unfolding set
set_to_same = refl

abbrev incident : List Mode
incident = mode_degraded ∷ mode_protected ∷ mode_degraded ∷ []

promote_all-worst_example : severity (promote_all watched incident).mode ≡ 2
unfolding severity
promote_all-worst_example = promote_all-worst watched incident

run-newest_example :
    (run watched
      (promotes mode_protected ∷ sets mode_protected ∷ demotes mode_normal ∷ [])).watchers
    ≡ (mode_protected ∷ mode_normal ∷ []) ∷ []
unfolding transitions step set promote_if_worse demote_if_better severity
run-newest_example =
    run-newest watched (promotes mode_protected ∷ sets mode_protected ∷ demotes mode_normal ∷ [])
      (omega arith, tt)

stale_watcher_example :
    Reach (at_rest mode_normal []) (at_rest mode_normal (mode_normal ∷ mode_degraded ∷ []))
stale_watcher_example = stale_watcher mode_normal mode_degraded mode_normal (λ e. cc) (λ e. cc)
