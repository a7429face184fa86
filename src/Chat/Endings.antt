-- ===== src/Chat/Endings.antt =====
-- What holds where a chain of steps returns early, and what where it goes on.
use apipro.Base.{◌≡◌, refl, sym, Bool, true, false, Option, none, some}
use apipro.Chat.Server.{Server}
use apipro.Chat.Steps.{M, after, ◌>>=◌, return, here, change, on_db, ensure}

module _ {Db : Type 0} where
  -- Where the step returns early, R holds of the server; where it goes on, Q of the value and the server.
  pub record Ends {A : Type 0} (m : M Db A) (s : Server Db) (R : Server Db → Type 0)
      (Q : A → Server Db → Type 0) : Type 0 where
    pub at_none : (m s).1 ≡ none → R (m s).0
    pub at_some : (a : A) → (m s).1 ≡ some a → Q a (m s).0

  module _ {R : Server Db → Type 0} where
    after_none :
        {A B : Type 0} (p : Server Db × Option A) (f : A → M Db B) (Q : A → Server Db → Type 0)
        (Q' : B → Server Db → Type 0)
        → (p.1 ≡ none → R p.0)
        → ((a : A) → p.1 ≡ some a → Q a p.0)
        → ((a : A) (s : Server Db) → Q a s → Ends (f a) s R Q')
        → (after p f).1 ≡ none
        → R (after p f).0
    after_none (s, some a) f Q Q' h h' k e = (k a s (h' a refl)).at_none e
    after_none (s, none) f Q Q' h h' k e = h refl

    after_some :
        {A B : Type 0} (p : Server Db × Option A) (f : A → M Db B) (Q : A → Server Db → Type 0)
        (Q' : B → Server Db → Type 0)
        → ((a : A) → p.1 ≡ some a → Q a p.0)
        → ((a : A) (s : Server Db) → Q a s → Ends (f a) s R Q')
        → (b : B) → (after p f).1 ≡ some b
        → Q' b (after p f).0
    after_some (s, some a) f Q Q' h' k b e = (k a s (h' a refl)).at_some b e
    after_some (s, none) f Q Q' h' k b e = cc

    pub Ends-bind :
        {A B : Type 0} {m : M Db A} {f : A → M Db B} {s : Server Db} {Q : A → Server Db → Type 0}
        {Q' : B → Server Db → Type 0}
        → Ends m s R Q
        → ((a : A) (s' : Server Db) → Q a s' → Ends (f a) s' R Q')
        → Ends (m >>= f) s R Q'
    Ends-bind {m = m} {f = f} {s = s} {Q = Q} {Q' = Q'} h k = record {
      at_none = after_none (m s) f Q Q' h.at_none h.at_some k;
      at_some = after_some (m s) f Q Q' h.at_some k;
    }

    pub Ends-ensure :
        (b : Bool) (f : Server Db → Server Db) (s : Server Db)
        → (b ≡ false → R (f s))
        → Ends (ensure b f) s R (λ u s'. (b ≡ true) × (s' ≡ s))
    unfolding ensure
    Ends-ensure true f s h = record { at_none = λ e. cc; at_some = λ u e. (refl, refl) }
    Ends-ensure false f s h = record { at_none = λ e. h refl; at_some = λ u e. cc }

    pub Ends-here : (s : Server Db) → Ends here s R (λ a s'. (a ≡ s) × (s' ≡ s))
    unfolding here
    Ends-here s = record { at_none = λ e. cc; at_some = λ a e. (sym (cc e), refl) }

    pub Ends-return :
        {A : Type 0} (a : A) (s : Server Db) → Ends (return a) s R (λ b s'. (b ≡ a) × (s' ≡ s))
    Ends-return a s = record { at_none = λ e. cc; at_some = λ b e. (sym (cc e), refl) }

    pub Ends-on_db :
        {A : Type 0} (f : Db → Db × A) (s : Server Db)
        → Ends (on_db f) s R (λ a s'. (a ≡ (f s.db).1) × (s' ≡ record s { db = (f s.db).0 }))
    unfolding on_db
    Ends-on_db f s = record { at_none = λ e. cc; at_some = λ a e. (sym (cc e), refl) }

    pub Ends-change :
        (f : Server Db → Server Db) (s : Server Db) → Ends (change f) s R (λ u s'. s' ≡ f s)
    unfolding change
    Ends-change f s = record { at_none = λ e. cc; at_some = λ u e. refl }

    pub Ends-weaken :
        {A : Type 0} {m : M Db A} {s : Server Db} {Q Q' : A → Server Db → Type 0}
        → Ends m s R Q
        → ((a : A) (s' : Server Db) → Q a s' → Q' a s')
        → Ends m s R Q'
    Ends-weaken {m = m} {s = s} h k = record {
      at_none = h.at_none;
      at_some = λ a e. k a (m s).0 (h.at_some a e);
    }

    -- What the step gives, and the server that it leaves, are known as well.
    pub Ends-self :
        {A : Type 0} {m : M Db A} {s : Server Db} {Q : A → Server Db → Type 0}
        → Ends m s R Q
        → Ends m s R (λ a s'. ((m s).1 ≡ some a) × (s' ≡ (m s).0) × Q a s')
    Ends-self h = record { at_none = h.at_none; at_some = λ a e. (e, refl, h.at_some a e) }
