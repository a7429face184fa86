-- ===== src/Chat/Rules.antt =====
-- What each step of a chain keeps, the chain keeps: the rules for a relation between the server before
-- and after.
use apipro.Base.{Bool, true, false, Option, none, some, if◌then◌else◌}
use apipro.Chat.Server.{Server}
use apipro.Chat.Steps.{M, after, ◌>>=◌, return, here, change, on_db, ensure}

module _ {Db : Type 0} where
  -- Every chain keeps the relation if it is one that chains up and looks at no environment.
  pub record Relation (R : Server Db → Server Db → Type 0) : Type 0 where
    pub still : (s : Server Db) → R s s
    pub chain : (a b c : Server Db) → R a b → R b c → R a c
    pub by_db : (db : Db) (s : Server Db) → R s record s { db = db }

  pub record Steps (R : Server Db → Server Db → Type 0) {A : Type 0} (m : M Db A) : Type 0 where
    pub keeps : (s : Server Db) → R s (m s).0

  module _ {R : Server Db → Server Db → Type 0} (rel : Relation R) where
    Steps-after :
        {A B : Type 0} (s : Server Db) (p : Server Db × Option A) (f : A → M Db B)
        → R s p.0
        → ((a : A) → Steps R (f a))
        → R s (after p f).0
    Steps-after s (s', some a) f h k = rel.chain s s' (f a s').0 h ((k a).keeps s')
    Steps-after s (s', none) f h k = h

    pub Steps-bind :
        {A B : Type 0} {m : M Db A} {f : A → M Db B}
        → Steps R m
        → ((a : A) → Steps R (f a))
        → Steps R (m >>= f)
    Steps-bind {m = m} {f = f} h k = record { keeps = λ s. Steps-after s (m s) f (h.keeps s) k }

    pub Steps-return : {A : Type 0} {a : A} → Steps R (return a)
    Steps-return = record { keeps = λ s. rel.still s }

    pub Steps-here : Steps R here
    unfolding here
    Steps-here = record { keeps = λ s. rel.still s }

    pub Steps-change :
        {f : Server Db → Server Db} → ((s : Server Db) → R s (f s)) → Steps R (change f)
    unfolding change
    Steps-change h = record { keeps = h }

    pub Steps-on_db : {A : Type 0} (f : Db → Db × A) → Steps R (on_db f)
    unfolding on_db
    Steps-on_db f = record { keeps = λ s. rel.by_db (f s.db).0 s }

    pub Steps-ensure :
        (b : Bool) {f : Server Db → Server Db}
        → ((s : Server Db) → R s (f s))
        → Steps R (ensure b f)
    unfolding ensure
    Steps-ensure true h = record { keeps = λ s. rel.still s }
    Steps-ensure false h = record { keeps = h }

    pub Steps-if :
        {A : Type 0} (b : Bool) {m k : M Db A}
        → Steps R m
        → Steps R k
        → Steps R (if b then m else k)
    Steps-if true h h' = h
    Steps-if false h h' = h'
