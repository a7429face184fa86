-- ===== src/Degrade/Watch.antt =====
-- What a watcher that does not read finds in its channel after a sequence of transitions.
use mathlib.Core.List.{append_assoc, append-nil}
use mathlib.Core.Path.{◌≡⟨◌⟩◌, ◌∎, ap₂}
use apipro.Base.{
  ℕ, ◌+◌, ◌-◌, ◌≤◌, ◌≡◌, refl, ap, List, [], ◌∷◌, ◌++◌, map, arith, length, drop, length-append,
  length-drop, drop-drop, drop_zero, drop_one, drop-append_le, sym, Bool-cases, inl, inr, eq_ℤ,
  eq_ℤ_iff, if◌then◌else◌, ◌∙◌,
}
use apipro.Degrade.{
  Mode, Channel, channel_cap, Manager, severity, notify_one, notify, set, promote_if_worse,
  demote_if_better,
}

-- The newest `channel_cap` entries.
abbrev pub newest : Channel → Channel
newest ch = drop (length ch - channel_cap) ch

abbrev pub All {ℓ κ} : {A : Type ℓ} → (A → Type κ) → List A → Type κ
All P [] = Unit
All P (x ∷ xs) = P x × All P xs

abbrev pub IsBounded : Channel → Type 0
IsBounded ch = length ch ≤ channel_cap

notify_one-newest :
    (ch : Channel) (mode : Mode) → IsBounded ch → notify_one ch mode ≡ newest (ch ++ mode ∷ [])
unfolding notify_one
notify_one-newest [] mode h = refl
notify_one-newest (x ∷ ch) mode h = ground (
  arith,
  length-append ch (mode ∷ []),
  drop_zero (length (x ∷ ch ++ mode ∷ []) - channel_cap) (x ∷ ch ++ mode ∷ []),
  drop_one (length (x ∷ ch ++ mode ∷ []) - channel_cap) x (ch ++ mode ∷ []),
)

newest-IsBounded : (ch : Channel) → IsBounded (newest ch)
newest-IsBounded ch = omega (arith, length-drop (length ch - channel_cap) ch)

newest-newest : (xs ys : Channel) → newest (newest xs ++ ys) ≡ newest (xs ++ ys)
newest-newest xs ys =
    newest (newest xs ++ ys)
    ≡⟨ ap newest (sym (drop-append_le k xs ys (omega arith))) ⟩ newest (drop k (xs ++ ys))
    ≡⟨ drop-drop k _ (xs ++ ys) ⟩ drop (k + (length (drop k (xs ++ ys)) - channel_cap)) (xs ++ ys)
    ≡⟨ ap (λ m. drop m (xs ++ ys)) (omega (arith, length-drop k (xs ++ ys), length-append xs ys)) ⟩
      newest (xs ++ ys) ∎
  where
    k : ℕ
    k = length xs - channel_cap

notify-newest :
    (chs : List Channel) (mode : Mode)
    → All IsBounded chs
    → notify chs mode ≡ map (λ ch. newest (ch ++ mode ∷ [])) chs
unfolding notify
notify-newest [] mode h = refl
notify-newest (ch ∷ chs) mode h = rw (notify_one-newest ch mode h.0, notify-newest chs mode h.1)

-- The calls that change the mode.
pub data Call : Type 0 where
  sets promotes demotes : Mode → Call

unfoldable pub step : Manager → Call → Manager
step m (sets mode) = set m mode
step m (promotes mode) = (promote_if_worse m mode).0
step m (demotes mode) = (demote_if_better m mode).0

unfoldable pub run : Manager → List Call → Manager
run m [] = m
run m (c ∷ cs) = run (step m c) cs

-- The modes that the manager moves to, in order: one entry for each call after which the mode
-- differs from the one before it.
unfoldable pub transitions : Manager → List Call → List Mode
transitions m [] = []
transitions m (c ∷ cs) =
    let rest = transitions (step m c) cs in
    if eq_ℤ m.mode (step m c).mode then rest else (step m c).mode ∷ rest

pushes : Manager → Manager → List Channel
pushes m m' =
    if eq_ℤ m.mode m'.mode then m.watchers else map (λ ch. newest (ch ++ m'.mode ∷ [])) m.watchers

step-pushes :
    (m : Manager) (c : Call) → All IsBounded m.watchers → (step m c).watchers ≡ pushes m (step m c)
unfolding step pushes set promote_if_worse demote_if_better
step-pushes m (sets mode) h = ground (arith, notify-newest m.watchers mode h)
step-pushes m (promotes mode) h = ground (
  arith,
  notify-newest m.watchers mode h,
  eq_ℤ_iff m.mode mode,
  ap severity {x = m.mode} {y = mode},
)
step-pushes m (demotes mode) h = ground (
  arith,
  notify-newest m.watchers mode h,
  eq_ℤ_iff m.mode mode,
  ap severity {x = m.mode} {y = mode},
)

All-newest :
    (chs : List Channel) (mode : Mode) → All IsBounded (map (λ ch. newest (ch ++ mode ∷ [])) chs)
All-newest [] mode = tt
All-newest (ch ∷ chs) mode = (newest-IsBounded (ch ++ mode ∷ []), All-newest chs mode)

step-IsBounded :
    (m : Manager) (c : Call) → All IsBounded m.watchers → All IsBounded (step m c).watchers
unfolding pushes
step-IsBounded m c h = rw (step-pushes m c h) (elim (Bool-cases (eq_ℤ m.mode (step m c).mode)) [
  | inl e ↦ rw e h
  | inr e ↦ rw e (All-newest m.watchers (step m c).mode)
])

newest-each : (chs : List Channel) → All IsBounded chs → chs ≡ map (λ ch. newest (ch ++ [])) chs
newest-each [] h = refl
newest-each (ch ∷ chs) h =
    ap₂ ◌∷◌ (rw append-nil (sym (drop_zero (length ch - channel_cap) ch (omega arith))))
      (newest-each chs h.1)

newest-after :
    (chs : List Channel) (mode : Mode) (modes : List Mode)
    → map (λ ch. newest (ch ++ modes)) (map (λ ch. newest (ch ++ mode ∷ [])) chs)
      ≡ map (λ ch. newest (ch ++ mode ∷ modes)) chs
newest-after [] mode modes = refl
newest-after (ch ∷ chs) mode modes =
    ap₂ ◌∷◌ (newest-newest (ch ++ mode ∷ []) modes ∙ ap newest (append_assoc ch (mode ∷ []) modes))
      (newest-after chs mode modes)

pushes-newest :
    (m m' : Manager) (modes : List Mode)
    → map (λ ch. newest (ch ++ modes)) (pushes m m')
      ≡ map
          (λ ch. newest (ch ++ (if eq_ℤ m.mode m'.mode then modes else m'.mode ∷ modes)))
          m.watchers
unfolding pushes
pushes-newest m m' modes = elim (Bool-cases (eq_ℤ m.mode m'.mode)) [
  | inl e ↦ rw e
  | inr e ↦ rw e (newest-after m.watchers m'.mode modes)
]

-- A watcher that reads nothing holds, after any calls, the newest eight of what was queued before
-- followed by every mode that the manager moved to, in order.
pub run-newest :
    (m : Manager) (cs : List Call)
    → All IsBounded m.watchers
    → (run m cs).watchers ≡ map (λ ch. newest (ch ++ transitions m cs)) m.watchers
unfolding run transitions
run-newest m [] h = newest-each m.watchers h
run-newest m (c ∷ cs) h =
    run-newest (step m c) cs (step-IsBounded m c h)
    ∙ ap (map (λ ch. newest (ch ++ transitions (step m c) cs))) (step-pushes m c h)
    ∙ pushes-newest m (step m c) (transitions (step m c) cs)
