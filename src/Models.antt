-- ===== src/Models.antt =====
-- common/model/user_model.go: the user table. The SQL driver is a parameter: a query gives a row or an
-- error, of which `sql.ErrNoRows` and the end of the context are told apart.
pub mod Search
mod Tests
use apipro.Base.{
  ℕ, zero, suc, ◌+◌, Bool, true, false, ◌&&◌, ◌||◌, List, [], ◌∷◌, ◌++◌, Text, ℤ, pos, negsuc,
  Option, none, some, Result, ok, err, ltb, leb, ◌==◌, ltb_ℤ, eq_ℤ, text_eq, codes, if◌then◌else◌,
  length, suc_ℤ, take, drop,
}

-- The errors of the package and what the driver reports; `other` is an error by its text.
pub data DbError : Type 0 where
  not_found duplicate no_rows : DbError
  context_ended : ℕ → DbError
  other : Text → DbError

pub record User : Type 0 where
  pub uid : ℤ
  pub login_name : Text
  pub nick_name : Text
  pub phone : Text
  pub country_code : Text
  pub password : Text
  pub salt : Text
  pub pwd_type : ℤ
  pub user_type : ℤ
  pub score : ℤ
  pub grow : ℤ
  pub status : ℤ
  pub icon : Text
  pub gender : ℤ
  -- milliseconds, where the birthday is not NULL
  pub birthday : Option ℤ
  pub plat : ℤ
  pub created_at : ℤ
  pub updated_at : ℤ

pub record UserGrow : Type 0 where
  pub id : ℤ
  pub name : Text
  pub min_grow : ℤ
  pub sort : ℤ
  pub status : ℤ
  pub next_min_grow : ℤ

-- What the driver does for the statements of the file.
pub record UserTable (Db : Type 0) : Type 0 where
  pub select_uid : ℤ → Db → Db × Result DbError User
  pub select_phone : Text → Text → Db → Db × Result DbError User
  pub select_login_name : Text → Db → Db × Result DbError User
  pub insert_row : User → Db → Db × Result DbError (Unit {0})
  -- `COALESCE(MAX(uid), 1000)`, of which an error leaves 0, and `MAX(uid)`, `none` for NULL
  pub max_or_1000 : Db → Db × ℤ
  pub select_max : Db → Db × Result DbError (Option ℤ)
  pub select_grow : ℤ → Db → Db × Result DbError UserGrow

-- `strings.HasPrefix` by slices, `s[i:i+len(sub)] == sub`.
abbrev starts_with : Text → Text → Bool
starts_with sub s = text_eq (take (length sub) s) sub

-- The loop of `indexOf` from position i on: `i+len(sub) <= len(s)`.
unfoldable pub index_from : ℕ → Text → Text → Option ℕ
index_from i [] sub =
    if leb (length sub) 0 then (if starts_with sub [] then some i else none) else none
index_from i (c ∷ cs) sub =
    let rest = index_from (suc i) cs sub in
    if leb (length sub) (length (c ∷ cs))
    then (if starts_with sub (c ∷ cs) then some i else rest)
    else none

abbrev pub is_some : {A : Type 0} → Option A → Bool
is_some none = false
is_some (some a) = true

-- `indexOf`, whose -1 is `none`
unfoldable pub index_of : Text → Text → Option ℕ
index_of s sub = index_from 0 s sub

unfoldable pub contains : Text → Text → Bool
contains s sub = leb (length sub) (length s) && is_some (index_of s sub)

-- `err.Error()`
unfoldable pub error_text : DbError → Text
error_text not_found = codes "record not found"
error_text duplicate = codes "duplicate record"
error_text no_rows = codes "sql: no rows in result set"
error_text (context_ended e) = codes "context ended"
error_text (other t) = t

unfoldable pub is_dup : DbError → Bool
is_dup e =
    contains (error_text e) (codes "Duplicate entry")
    || contains (error_text e) (codes "UNIQUE constraint failed")

module _ {Db : Type 0} where
  unfoldable pub scan_user : Db × Result DbError User → Db × Result DbError User
  scan_user (db, ok u) = (db, ok u)
  scan_user (db, err no_rows) = (db, err not_found)
  scan_user (db, err e) = (db, err e)

  unfoldable pub inserted : Db × Result DbError (Unit {0}) → Db × Result DbError (Unit {0})
  inserted (db, ok u) = (db, ok u)
  inserted (db, err e) = if is_dup e then (db, err duplicate) else (db, err e)

  unfoldable pub max_found : Db × Result DbError (Option ℤ) → Db × Result DbError ℤ
  max_found (db, ok none) = (db, ok (pos 0))
  max_found (db, ok (some uid)) = (db, ok uid)
  max_found (db, err no_rows) = (db, ok (pos 0))
  max_found (db, err e) = (db, err e)

  unfoldable pub grow_found : Db × Result DbError UserGrow → Db × Result DbError UserGrow
  grow_found (db, ok g) = (db, ok g)
  grow_found (db, err no_rows) = (
    db,
    ok record {
      id = pos 0;
      name = codes "LV.1";
      min_grow = pos 0;
      sort = pos 0;
      status = pos 0;
      next_min_grow = pos 100;
    },
  )
  grow_found (db, err e) = (db, err e)

module _ {Db : Type 0} (table : UserTable Db) where
  unfoldable pub find_by_uid : ℤ → Db → Db × Result DbError User
  find_by_uid uid db = scan_user (table.select_uid uid db)

  unfoldable pub find_by_phone : Text → Text → Db → Db × Result DbError User
  find_by_phone cc phone db = scan_user (table.select_phone cc phone db)

  unfoldable pub find_by_login_name : Text → Db → Db × Result DbError User
  find_by_login_name name db = scan_user (table.select_login_name name db)

  -- `now` is `time.Now().Unix()`; the row that is written is the caller's struct as it leaves it.
  unfoldable pub insert : ℤ → User → Db → Db × Result DbError (Unit {0})
  insert now u db = inserted (
      table.insert_row
        (record u {
          created_at = if eq_ℤ u.created_at (pos 0) then now else u.created_at;
          updated_at = now;
        })
        db)

  -- The error that Go's signature allows is always nil.
  unfoldable pub next_uid : Db → Db × ℤ
  next_uid db =
      let found = table.max_or_1000 db in
      (found.0, if ltb_ℤ found.1 (pos 5000) then pos 5001 else suc_ℤ found.1)

  unfoldable pub max_uid : Db → Db × Result DbError ℤ
  max_uid db = max_found (table.select_max db)

  unfoldable pub find_user_grow_for_value : ℤ → Db → Db × Result DbError UserGrow
  find_user_grow_for_value value db = grow_found (table.select_grow value db)
