-- ===== src/Rpc/Keeps.antt =====
-- What every call keeps of its node.
use apipro.Base.{
  ℕ, ◌+◌, ◌≡◌, refl, sym, ◌∙◌, Bool, true, false, Option, none, some, Result, ok, err, ◌⊎◌, inl,
  inr, arith, eq_ℤ, eq_ℤ_iff, Bool-cases, if◌then◌else◌,
}
use apipro.Degrade.{Mode, mode_normal, mode_degraded, promote_if_worse, severity, Level}
use apipro.Models.{DbError}
use apipro.Semaphore.{
  Semaphore, Wake, slot, done, Ending, with_token, acquire, release, take_token, count_acquired,
  enter, leave, give_up, add_one,
}
use apipro.Semaphore.Token.{held}
use apipro.Rpc.Node.{
  Node, M, after, ◌>>=◌, return, exit, require, on_db, parsed, gate, record_db_error_for_degrade,
  with_sem, settle, token_body, db_with_sem, or_exit, or_db_failure,
}
use apipro.Rpc.Wire.{Exit}

-- The mode stays, or goes from NORMAL to DEGRADED.
abbrev pub Moved : Mode → Mode → Type 0
Moved old new = (new ≡ old) ⊎ ((old ≡ mode_normal) × (new ≡ mode_degraded))

Moved-trans : (a b c : Mode) → Moved a b → Moved b c → Moved a c
Moved-trans a b c (inl e) (inl e') = inl (e' ∙ e)
Moved-trans a b c (inl e) (inr (n, d)) = inr (sym e ∙ n, d)
Moved-trans a b c (inr (n, d)) (inl e) = inr (n, e ∙ d)
Moved-trans a b c (inr (n, d)) (inr (n', d')) = inr (n, d')

with_token-held :
    {W : Type 0} (f : Option Semaphore → W → Option Semaphore × W × Ending) (s : Option Semaphore)
    (wake : Wake) (w : W) (r : Option Semaphore × W × Ending)
    → ((t : Option Semaphore) (u : W) → held (f t u).0 ≡ held t)
    → with_token s wake f w ≡ some r
    → held r.0 ≡ held s
unfolding with_token acquire release take_token count_acquired enter leave give_up
with_token-held f none wake w r keeps h = ground (arith, keeps none w)
with_token-held f (some s) slot w r keeps h = ground (
  arith,
  keeps (some (leave (record (enter s) { tokens = s.tokens + 1; acquired = add_one s.acquired })))
      w,
)
with_token-held f (some s) (done e) w r keeps h = ground arith

module _ {Db : Type 0} where
  abbrev pub Keeps : Node Db → Node Db → Type 0
  Keeps n n' = Moved n.degrade.mode n'.degrade.mode × (held n'.semaphore ≡ held n.semaphore)

  pub record Steps {A : Type 0} (m : M Db A) : Type 0 where
    pub keeps : (n : Node Db) → Keeps n (m n).0

  pub Keeps-trans : (a b c : Node Db) → Keeps a b → Keeps b c → Keeps a c
  Keeps-trans a b c (h, e) (h', e') =
      (Moved-trans a.degrade.mode b.degrade.mode c.degrade.mode h h', e' ∙ e)

  Steps-after :
      {A B : Type 0} (n : Node Db) (p : Node Db × Result Exit A) (f : A → M Db B)
      → Keeps n p.0
      → ((a : A) → Steps (f a))
      → Keeps n (after p f).0
  Steps-after n (n', ok a) f h k = Keeps-trans n n' (f a n').0 h ((k a).keeps n')
  Steps-after n (n', err e) f h k = h

  pub Steps-bind :
      {A B : Type 0} {m : M Db A} {f : A → M Db B}
      → Steps m
      → ((a : A) → Steps (f a))
      → Steps (m >>= f)
  Steps-bind {m = m} {f = f} h k = record { keeps = λ n. Steps-after n (m n) f (h.keeps n) k }

  pub Steps-on_db : {A : Type 0} (f : Db → Db × A) → Steps (on_db f)
  unfolding on_db
  Steps-on_db f = record { keeps = λ n. (inl refl, refl) }

  pub Steps-require : (b : Bool) (e : Exit) → Steps {A = Unit {0}} (require b e)
  unfolding require
  Steps-require b e = record { keeps = λ n. (inl refl, refl) }

  pub Steps-gate : (level : Level) (e : Exit) → Steps {A = Unit {0}} (gate level e)
  unfolding gate
  Steps-gate level e = record { keeps = λ n. (inl refl, refl) }

  pub Steps-return : {A : Type 0} {a : A} → Steps (return a)
  Steps-return = record { keeps = λ n. (inl refl, refl) }

  pub Steps-exit : {A : Type 0} {e : Exit} → Steps {A = A} (exit e)
  Steps-exit = record { keeps = λ n. (inl refl, refl) }

  pub Steps-parsed : {A : Type 0} (o : Option A) → Steps (parsed o)
  Steps-parsed none = record { keeps = λ n. (inl refl, refl) }
  Steps-parsed (some a) = record { keeps = λ n. (inl refl, refl) }

  recorded : (n : Node Db) → Keeps n (record_db_error_for_degrade n).0
  unfolding record_db_error_for_degrade promote_if_worse severity
  recorded n = elim (Bool-cases (eq_ℤ n.degrade.mode mode_normal)) [
    | inl e ↦
        let normal : n.degrade.mode ≡ mode_normal = (eq_ℤ_iff n.degrade.mode mode_normal).0 e in
        let moved : Moved mode_normal mode_degraded × (held n.semaphore ≡ held n.semaphore) =
          (inr (refl, refl), refl) in
        rw (e, normal) moved
    | inr e ↦
        let still : Moved n.degrade.mode n.degrade.mode × (held n.semaphore ≡ held n.semaphore) =
          (inl refl, refl) in
        rw e still
  ]

  pub Steps-record : Steps record_db_error_for_degrade
  Steps-record = record { keeps = λ n. recorded n }

  pub Steps-if :
      {A : Type 0} (b : Bool) {m k : M Db A} → Steps m → Steps k → Steps (if b then m else k)
  Steps-if true hm hk = hm
  Steps-if false hm hk = hk

  settle-Keeps :
      {E A : Type 0} (ctx : ℕ → E) (n : Node Db)
      (o : Option (Option Semaphore × (Db × Option (Result E A)) × Ending))
      → ((r : Option Semaphore × (Db × Option (Result E A)) × Ending)
          → o ≡ some r
          → held r.0 ≡ held n.semaphore)
      → Keeps n (settle ctx n o).0
  settle-Keeps ctx n none h = (inl refl, refl)
  settle-Keeps ctx n (some r) h = (inl refl, h r refl)

  pub Steps-with_sem :
      {E A : Type 0} (ctx : ℕ → E) (wake : Option Semaphore → Db → Wake) (f : Db → Db × Result E A)
      → Steps (with_sem ctx wake f)
  unfolding with_sem
  Steps-with_sem ctx wake f = record {
    keeps = λ n.
        settle-Keeps ctx n
          (with_token n.semaphore (wake n.semaphore n.db) (token_body f) (n.db, none))
          λ r.
            with_token-held (token_body f) n.semaphore (wake n.semaphore n.db) (n.db, none) r
              (λ t u. refl);
  }

  Steps-or_db_failure : {A : Type 0} (r : Result DbError A) → Steps (or_db_failure r)
  Steps-or_db_failure (ok a) = Steps-return
  Steps-or_db_failure (err e) = Steps-bind Steps-record λ u. Steps-return

  pub Steps-db_with_sem :
      {A : Type 0} (wake : Option Semaphore → Db → Wake) (f : Db → Db × Result DbError A)
      → Steps (db_with_sem wake f)
  unfolding db_with_sem
  Steps-db_with_sem wake f = Steps-bind (Steps-with_sem _ wake f) Steps-or_db_failure

  pub Steps-or_exit : {A : Type 0} (r : Result Exit A) → Steps (or_exit r)
  Steps-or_exit (ok a) = Steps-return
  Steps-or_exit (err e) = Steps-exit
