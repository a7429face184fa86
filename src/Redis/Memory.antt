-- ===== src/Redis/Memory.antt =====
-- A Redis in memory that meets the laws, with a script that says which commands fail: a command
-- for which it holds `true` changes nothing and reports an error.
use apipro.Base.{
  ℕ, ◌+◌, ◌≡◌, Bool, true, false, List, [], ◌∷◌, ◌++◌, Text, ℤ, pos, negsuc, some, Result, ok, err,
  suc_ℤ, pred_ℤ, leb, ◌==◌, text_eq, text_eq_refl, if◌then◌else◌, length, arith, ◌^◌, ◌-◌,
}
use apipro.Redis.Decimal.{parse_int, print_int, parse-print_int, IsInt64}
use apipro.Redis.{Redis, RedisLaws, count_of, outside}

pub record Db : Type 0 where
  pub texts : Text → Text
  pub windows : Text → List ℕ
  pub fails : List Bool

abbrev pub put {ℓ} : {A : Type ℓ} → (Text → A) → Text → A → Text → A
put f k a j = if text_eq k j then a else f j

abbrev pub next : List Bool → Bool × List Bool
next [] = (false, [])
next (b ∷ bs) = (b, bs)

-- Runs the command unless the script fails it.
abbrev pub scripted : {A : Type 0} → (Db → Db × Result ℕ A) → Db → Db × Result ℕ A
scripted run db =
    let db' = record db { fails = (next db.fails).1 } in
    if (next db.fails).0 then (db', err 1) else run db'

abbrev pub in_int64 : ℤ → Bool
in_int64 (pos n) = leb n (2 ^ 63 - 1)
in_int64 (negsuc n) = leb (n + 1) (2 ^ 63)

abbrev pub count : (ℤ → ℤ) → Text → Db → Db × Result ℕ ℤ
count f k db =
    let n = f (count_of (db.texts k)) in
    if in_int64 n then (record db { texts = put db.texts k (print_int n) }, ok n) else (db, err 2)

abbrev pub member : ℕ → List ℕ → Bool
member x [] = false
member x (y ∷ ys) = let rest = member x ys in if x == y then true else rest

abbrev pub memory : Redis
memory = record {
  Db = Db;
  get = λ k. scripted (λ db. (db, ok (db.texts k)));
  set = λ k v. scripted (λ db. (record db { texts = put db.texts k v }, ok tt));
  setex = λ k v t. scripted (λ db. (record db { texts = put db.texts k v }, ok tt));
  setnx_ex = λ k v t. scripted λ db.
      if text_eq (db.texts k) []
      then (record db { texts = put db.texts k v }, ok true)
      else (db, ok false);
  del = λ k. scripted (λ db. (record db { texts = put db.texts k [] }, ok 1));
  incr = λ k. scripted (count suc_ℤ k);
  decr = λ k. scripted (count pred_ℤ k);
  expire = λ k t. scripted (λ db. (db, ok tt));
  zremrangebyscore = λ k lo hi.
      scripted
        λ db. (record db { windows = put db.windows k (outside lo hi (db.windows k)) }, ok 0);
  zcard = λ k. scripted (λ db. (db, ok (length (db.windows k))));
  zadd = λ k score. scripted λ db.
      if member score (db.windows k)
      then (db, ok false)
      else (record db { windows = put db.windows k (db.windows k ++ score ∷ []) }, ok true);
}

module _ (k j : Text) (db : Db) where
  pub get_lem : (v : Text) → (memory.get k db).1 ≡ ok v → v ≡ db.texts k
  get_lem v e = ground arith

  pub get_same : (memory.get k db).0.texts j ≡ db.texts j
  get_same = ground arith

  pub set_lem : (v : Text) → (memory.set k v db).1 ≡ ok tt → (memory.set k v db).0.texts k ≡ v
  set_lem v e = ground (arith, text_eq_refl k)

  pub set_same : (v : Text) → text_eq k j ≡ false → (memory.set k v db).0.texts j ≡ db.texts j
  set_same v e = ground arith

  pub setex_lem :
      (v : Text) (t : ℕ) → (memory.setex k v t db).1 ≡ ok tt → (memory.setex k v t db).0.texts k ≡ v
  setex_lem v t e = ground (arith, text_eq_refl k)

  pub setex_same :
      (v : Text) (t : ℕ) → text_eq k j ≡ false → (memory.setex k v t db).0.texts j ≡ db.texts j
  setex_same v t e = ground arith

  pub del_lem : (n : ℕ) → (memory.del k db).1 ≡ ok n → (memory.del k db).0.texts k ≡ []
  del_lem n e = ground (arith, text_eq_refl k)

  pub del_same : text_eq k j ≡ false → (memory.del k db).0.texts j ≡ db.texts j
  del_same e = ground arith

  pub count_same :
      (f : ℤ → ℤ) → text_eq k j ≡ false → (scripted (count f k) db).0.texts j ≡ db.texts j
  count_same f e = ground arith

  pub expire_same : (t : ℕ) → (memory.expire k t db).0.texts j ≡ db.texts j
  expire_same t = ground arith

  pub zrem_same : (lo hi : ℕ) → (memory.zremrangebyscore k lo hi db).0.texts j ≡ db.texts j
  zrem_same lo hi = ground arith

  pub zrem_lem :
      (lo hi n : ℕ)
      → (memory.zremrangebyscore k lo hi db).1 ≡ ok n
      → (memory.zremrangebyscore k lo hi db).0.windows k ≡ outside lo hi (db.windows k)
  zrem_lem lo hi n e = ground (arith, text_eq_refl k)

  pub zcard_same : (memory.zcard k db).0.texts j ≡ db.texts j
  zcard_same = ground arith

  pub zcard_lem : (n : ℕ) → (memory.zcard k db).1 ≡ ok n → n ≡ length (db.windows k)
  zcard_lem n e = ground arith

  pub zadd_same : (score : ℕ) → (memory.zadd k score db).0.texts j ≡ db.texts j
  zadd_same score = ground arith

count_of-parse_int : (t : Text) (z : ℤ) → parse_int t ≡ some z → count_of t ≡ z
unfolding parse_int
count_of-parse_int [] z e = cc
count_of-parse_int (c ∷ cs) z e = rw (e, count_of)

count_of-print_int : (z : ℤ) → IsInt64 z → count_of (print_int z) ≡ z
count_of-print_int z h = count_of-parse_int (print_int z) z (parse-print_int z h)

in_int64-IsInt64 : (z : ℤ) → in_int64 z ≡ true → IsInt64 z
in_int64-IsInt64 (pos n) h = ground arith
in_int64-IsInt64 (negsuc n) h = ground arith

pub count_lem :
    (f : ℤ → ℤ) (k : Text) (n : ℤ) (db : Db)
    → (scripted (count f k) db).1 ≡ ok n
    → (n ≡ f (count_of (db.texts k))) × (count_of ((scripted (count f k) db).0.texts k) ≡ n)
count_lem f k n db e = ground (
  arith,
  text_eq_refl k,
  count_of-print_int (f (count_of (db.texts k))),
  in_int64-IsInt64 (f (count_of (db.texts k))),
)

abbrev pub memory_laws : RedisLaws memory
memory_laws = record {
  text = λ db. db.texts;
  window = λ db. db.windows;
  get-text = λ k db. get_lem k k db;
  get_keeps = λ k j db. get_same k j db;
  set-text = λ k v db. set_lem k k db v;
  set_others = λ k v j db. set_same k j db v;
  setex-text = λ k v t db. setex_lem k k db v t;
  setex_others = λ k v j t db. setex_same k j db v t;
  del-text = λ k n db. del_lem k k db n;
  del_others = λ k j db. del_same k j db;
  incr-text = λ k n db. count_lem suc_ℤ k n db;
  incr_others = λ k j db. count_same k j db suc_ℤ;
  decr-text = λ k n db. count_lem pred_ℤ k n db;
  decr_others = λ k j db. count_same k j db pred_ℤ;
  expire_keeps = λ k j t db h. expire_same k j db t;
  zrem_keeps = λ k j lo hi db. zrem_same k j db lo hi;
  zrem-window = λ k lo hi n db. zrem_lem k k db lo hi n;
  zcard_keeps = λ k j db. zcard_same k j db;
  zcard-window = λ k n db. zcard_lem k k db n;
  zadd_keeps = λ k j score db. zadd_same k j db score;
}
