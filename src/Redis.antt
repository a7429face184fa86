-- ===== src/Redis.antt =====
-- The Redis client of go-zero as the code calls it. Redis is not part of the repository: its state,
-- its commands and what its documentation promises of them are parameters.
pub mod Decimal
pub mod Memory
use apipro.Base.{
  ℕ, ◌+◌, ◌-◌, ◌≤◌, ◌≡◌, ◌≢◌, Bool, true, false, List, [], ◌∷◌, Text, ℤ, pos, negsuc, Option, none,
  some, Result, ok, err, suc_ℤ, pred_ℤ, length, ◌<◌, ltb, leb, text_eq, if◌then◌else◌,
}
use Decimal.{parse_int}

pub record Redis : Type 1 where
  -- what the server holds, and whatever decides if it answers
  pub Db : Type 0
  -- the value of a string key; "" if the key is missing
  pub get : Text → Db → Db × Result ℕ Text
  pub set : Text → Text → Db → Db × Result ℕ (Unit {0})
  pub setex : Text → Text → ℕ → Db → Db × Result ℕ (Unit {0})
  pub setnx_ex : Text → Text → ℕ → Db → Db × Result ℕ Bool
  pub del : Text → Db → Db × Result ℕ ℕ
  pub incr : Text → Db → Db × Result ℕ ℤ
  pub decr : Text → Db → Db × Result ℕ ℤ
  pub expire : Text → ℕ → Db → Db × Result ℕ (Unit {0})
  -- sorted sets, whose members are here the decimal texts of their scores
  pub zremrangebyscore : Text → ℕ → ℕ → Db → Db × Result ℕ ℕ
  pub zcard : Text → Db → Db × Result ℕ ℕ
  pub zadd : Text → ℕ → Db → Db × Result ℕ Bool

-- The number that a counter's text stands for: a missing key counts as 0.
abbrev pub count_of : Text → ℤ
count_of [] = pos 0
count_of (c ∷ cs) = elim (parse_int (c ∷ cs)) [ none ↦ pos 0 | some n ↦ n ]

-- The scores that lie outside lo..hi.
abbrev pub outside : ℕ → ℕ → List ℕ → List ℕ
outside lo hi [] = []
outside lo hi (x ∷ xs) =
    let rest = outside lo hi xs in
    if leb lo x then (if leb x hi then rest else x ∷ rest) else x ∷ rest

abbrev pub IsOk {ℓ} : {A : Type ℓ} → Result ℕ A → Type 0
IsOk (ok a) = Unit
IsOk (err e) = ⊥

-- What the code relies on: a command that reports success has done what it is documented to do to
-- its own key, and a command leaves all other keys alone whether it succeeds or not.
pub record RedisLaws (r : Redis) : Type 1 where
  pub text : r.Db → Text → Text
  pub window : r.Db → Text → List ℕ
  pub get-text : (k : Text) (db : r.Db) (v : Text) → (r.get k db).1 ≡ ok v → v ≡ text db k
  pub get_keeps : (k j : Text) (db : r.Db) → text (r.get k db).0 j ≡ text db j
  pub set-text : (k v : Text) (db : r.Db) → (r.set k v db).1 ≡ ok tt → text (r.set k v db).0 k ≡ v
  pub set_others :
      (k v j : Text) (db : r.Db) → text_eq k j ≡ false → text (r.set k v db).0 j ≡ text db j
  pub setex-text :
      (k v : Text) (t : ℕ) (db : r.Db)
      → (r.setex k v t db).1 ≡ ok tt
      → text (r.setex k v t db).0 k ≡ v
  pub setex_others :
      (k v j : Text) (t : ℕ) (db : r.Db)
      → text_eq k j ≡ false
      → text (r.setex k v t db).0 j ≡ text db j
  pub del-text : (k : Text) (n : ℕ) (db : r.Db) → (r.del k db).1 ≡ ok n → text (r.del k db).0 k ≡ []
  pub del_others :
      (k j : Text) (db : r.Db) → text_eq k j ≡ false → text (r.del k db).0 j ≡ text db j
  pub incr-text :
      (k : Text) (n : ℤ) (db : r.Db)
      → (r.incr k db).1 ≡ ok n
      → (n ≡ suc_ℤ (count_of (text db k))) × (count_of (text (r.incr k db).0 k) ≡ n)
  pub incr_others :
      (k j : Text) (db : r.Db) → text_eq k j ≡ false → text (r.incr k db).0 j ≡ text db j
  pub decr-text :
      (k : Text) (n : ℤ) (db : r.Db)
      → (r.decr k db).1 ≡ ok n
      → (n ≡ pred_ℤ (count_of (text db k))) × (count_of (text (r.decr k db).0 k) ≡ n)
  pub decr_others :
      (k j : Text) (db : r.Db) → text_eq k j ≡ false → text (r.decr k db).0 j ≡ text db j
  -- a time to live that is not 0 leaves the value as it is
  pub expire_keeps :
      (k j : Text) (t : ℕ) (db : r.Db) → 0 < t → text (r.expire k t db).0 j ≡ text db j
  -- the commands on sorted sets leave the string keys alone
  pub zrem_keeps :
      (k j : Text) (lo hi : ℕ) (db : r.Db) → text (r.zremrangebyscore k lo hi db).0 j ≡ text db j
  pub zrem-window :
      (k : Text) (lo hi n : ℕ) (db : r.Db)
      → (r.zremrangebyscore k lo hi db).1 ≡ ok n
      → window (r.zremrangebyscore k lo hi db).0 k ≡ outside lo hi (window db k)
  pub zcard_keeps : (k j : Text) (db : r.Db) → text (r.zcard k db).0 j ≡ text db j
  pub zcard-window :
      (k : Text) (n : ℕ) (db : r.Db) → (r.zcard k db).1 ≡ ok n → n ≡ length (window db k)
  pub zadd_keeps : (k j : Text) (score : ℕ) (db : r.Db) → text (r.zadd k score db).0 j ≡ text db j
