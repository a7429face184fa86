-- ===== src/Chat/Rate.antt =====
-- How `allowSend` bounds a client's messages.
use apipro.Base.{
  ℕ, suc, ◌-◌, ◌≤◌, ◌≡◌, refl, List, [], ◌∷◌, if◌then◌else◌, arith, Bool-cases, inl, inr, ap, ◌∙◌,
  sym, ltb, length,
}
use apipro.Chat.{minute, since, allow_send}

-- The times from the cut on.
abbrev pub count_since : ℕ → List ℕ → ℕ
count_since cut [] = 0
count_since cut (t ∷ ts) = let rest = count_since cut ts in if ltb t cut then rest else suc rest

-- Every time is at least the bound and at most the next.
abbrev pub AscendingFrom : ℕ → List ℕ → Type 0
AscendingFrom low [] = Unit
AscendingFrom low (t ∷ ts) = (low ≤ t) × AscendingFrom t ts

all_since :
    (cut low : ℕ) (ts : List ℕ) → cut ≤ low → AscendingFrom low ts → count_since cut ts ≡ length ts
all_since cut low [] h a = refl
all_since cut low (t ∷ ts) h (p, a) = ground (arith, all_since cut t ts (omega arith) a)

length-since :
    (cut low : ℕ) (ts : List ℕ) → AscendingFrom low ts → length (since cut ts) ≡ count_since cut ts
unfolding since
length-since cut low [] a = refl
length-since cut low (t ∷ ts) (p, a) = elim (Bool-cases (ltb t cut)) [
  | inl e ↦ rw e (length-since cut t ts a)
  | inr e ↦ rw e (ap suc (sym (all_since cut t ts (ground arith) a)))
]

-- For times that ascend, a message passes exactly if fewer than the limit were sent in the last minute.
pub allow_send_exact :
    (rate_per_min now low : ℕ) (times : List ℕ)
    → AscendingFrom low times
    → (allow_send rate_per_min now times).1 ≡ ltb (count_since (now - minute) times) rate_per_min
unfolding allow_send
allow_send_exact rate_per_min now low times a =
    let n = length-since (now - minute) low times a in
    elim (Bool-cases (ltb (length (since (now - minute) times)) rate_per_min)) [
      | inl e ↦ rw e (sym e ∙ ap (λ k. ltb k rate_per_min) n)
      | inr e ↦ rw e (sym e ∙ ap (λ k. ltb k rate_per_min) n)
    ]
