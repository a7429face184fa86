-- ===== src/Rpc/Paths.antt =====
-- What a call that went on has passed.
use apipro.Base.{
  ◌∙◌, ◌⊎◌, inl, inr, ℕ, arith, ◌≡◌, refl, sym, ap, Bool, true, false, Option, none, some, Result,
  ok, err, if◌then◌else◌,
}
use apipro.Degrade.{Level, can_serve_level}
use apipro.Rpc.Node.{
  Node, M, after, ◌>>=◌, return, require, on_db, parsed, gate, with_sem, settle, token_body,
}
use apipro.Rpc.Wire.{Exit}
use apipro.Semaphore.{
  Semaphore, Wake, slot, done, Ending, returned, panicked, with_token, acquire, take_token,
  count_acquired,
}

if_ok :
    (b : Bool) (e : Exit) (u : Unit {0}) (r : Result Exit (Unit {0}))
    → r ≡ (if b then ok tt else err e)
    → r ≡ ok u
    → b ≡ true
if_ok true e u r h h' = refl
if_ok false e u r h h' = cc

module _ {Db : Type 0} where
  -- Where the step goes on from n, with a value and a node, Q holds of the two.
  pub record Ensures {A : Type 0} (m : M Db A) (n : Node Db) (Q : A → Node Db → Type 0)
      : Type 0 where
    pub at_end : (a : A) → (m n).1 ≡ ok a → Q a (m n).0

  Ensures-after :
      {A B : Type 0} (p : Node Db × Result Exit A) (f : A → M Db B) (R : A → Node Db → Type 0)
      (Q : B → Node Db → Type 0)
      → ((a : A) → p.1 ≡ ok a → R a p.0)
      → ((a : A) (n : Node Db) → R a n → Ensures (f a) n Q)
      → (b : B) → (after p f).1 ≡ ok b
      → Q b (after p f).0
  Ensures-after (n, ok a) f R Q h k b e = (k a n (h a refl)).at_end b e
  Ensures-after (n, err x) f R Q h k b e = cc

  pub Ensures-bind :
      {A B : Type 0} {m : M Db A} {f : A → M Db B} {n : Node Db} {R : A → Node Db → Type 0}
      {Q : B → Node Db → Type 0}
      → Ensures m n R
      → ((a : A) (n' : Node Db) → R a n' → Ensures (f a) n' Q)
      → Ensures (m >>= f) n Q
  Ensures-bind {m = m} {f = f} {n = n} {R = R} {Q = Q} h k = record {
    at_end = Ensures-after (m n) f R Q h.at_end k;
  }

  pub Ensures-require :
      (b : Bool) (e : Exit) (n : Node Db) → Ensures (require b e) n (λ u n'. (b ≡ true) × (n' ≡ n))
  unfolding require
  Ensures-require b e n = record { at_end = λ u h. (if_ok b e u (require b e n).1 refl h, refl) }

  pub Ensures-gate :
      (level : Level) (e : Exit) (n : Node Db)
      → Ensures (gate level e) n (λ u n'. (can_serve_level n.degrade level ≡ true) × (n' ≡ n))
  unfolding gate
  Ensures-gate level e n = record {
    at_end = λ u h. (if_ok (can_serve_level n.degrade level) e u (gate level e n).1 refl h, refl);
  }

  pub Ensures-on_db :
      {A : Type 0} (f : Db → Db × A) (n : Node Db)
      → Ensures
          (on_db f)
          n
          (λ a n'. (a ≡ (f n.db).1) × (n'.db ≡ (f n.db).0) × (n'.degrade ≡ n.degrade))
  unfolding on_db
  Ensures-on_db f n = record { at_end = λ a h. (sym (cc h), refl, refl) }

  pub Ensures-return :
      {A : Type 0} (a : A) (n : Node Db) → Ensures (return a) n (λ b n'. (b ≡ a) × (n' ≡ n))
  Ensures-return a n = record { at_end = λ b h. (sym (cc h), refl) }

  parsed_ok :
      {A : Type 0} (o : Option A) (n : Node Db) (a : A)
      → (parsed o n).1 ≡ ok a
      → (o ≡ some a) × ((parsed o n).0 ≡ n)
  parsed_ok none n a h = cc
  parsed_ok (some b) n a h = (ap some (cc h), refl)

  pub Ensures-parsed :
      {A : Type 0} (o : Option A) (n : Node Db)
      → Ensures (parsed o) n (λ a n'. (o ≡ some a) × (n' ≡ n))
  Ensures-parsed o n = record { at_end = parsed_ok o n }

  -- A step of which nothing is asked.
  pub Ensures-any : {A : Type 0} (m : M Db A) (n : Node Db) → Ensures m n (λ a n'. Unit {0})
  Ensures-any m n = record { at_end = λ a h. tt }

  pub Ensures-then :
      {A : Type 0} {m : M Db A} {n : Node Db} {R Q : A → Node Db → Type 0}
      → Ensures m n R
      → ((a : A) (n' : Node Db) → R a n' → Q a n')
      → Ensures m n Q
  Ensures-then {m = m} {n = n} h k = record { at_end = λ a e. k a (m n).0 (h.at_end a e) }

  -- The function under the token runs on the state of the call, or not at all.
  token_body_ran :
      {E A : Type 0} (f : Db → Db × Result E A) (s : Option Semaphore) (wake : Wake) (db : Db)
      (r : Option Semaphore × (Db × Option (Result E A)) × Ending)
      → with_token s wake (token_body f) (db, none) ≡ some r
      → (r.1.1 ≡ none) ⊎ (r.1.1 ≡ some (f db).1)
  unfolding with_token acquire take_token count_acquired
  token_body_ran f none wake db r h = inr (ground arith)
  token_body_ran f (some s) slot db r h = inr (ground arith)
  token_body_ran f (some s) (done e) db r h = inl (ground arith)

  settle_ok :
      {E A : Type 0} (ctx : ℕ → E) (n : Node Db) (reply : Result E A) (a : A)
      (o : Option (Option Semaphore × (Db × Option (Result E A)) × Ending))
      → ((r : Option Semaphore × (Db × Option (Result E A)) × Ending)
          → o ≡ some r
          → (r.1.1 ≡ none) ⊎ (r.1.1 ≡ some reply))
      → (settle ctx n o).1 ≡ ok (ok a)
      → reply ≡ ok a
  settle_ok ctx n reply a none ran h = cc
  settle_ok ctx n reply a (some (s, (db, none), returned none)) ran h = cc
  settle_ok ctx n reply a (some (s, (db, none), returned (some e))) ran h = cc
  settle_ok ctx n reply a (some (s, (db, none), panicked)) ran h = cc
  settle_ok ctx n reply a (some (s, (db, some r), ending)) ran h =
      elim (ran (s, (db, some r), ending) refl) [ inl e ↦ cc | inr e ↦ cc ]

  pub Ensures-with_sem :
      {E A : Type 0} (ctx : ℕ → E) (wake : Option Semaphore → Db → Wake) (f : Db → Db × Result E A)
      (n : Node Db)
      → Ensures (with_sem ctx wake f) n (λ r n'. (a : A) → r ≡ ok a → (f n.db).1 ≡ ok a)
  unfolding with_sem
  Ensures-with_sem ctx wake f n = record {
    at_end = λ r h a e.
        settle_ok ctx n (f n.db).1 a
          (with_token n.semaphore (wake n.semaphore n.db) (token_body f) (n.db, none))
          (token_body_ran f n.semaphore (wake n.semaphore n.db) n.db) (h ∙ ap ok e);
  }
