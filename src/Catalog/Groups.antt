-- ===== src/Catalog/Groups.antt =====
-- What stands under each key of `BuildAllLiveRooms`.
use apipro.Base.{
  ℕ, ◌≡◌, refl, ap, sym, subst, ◌∙◌, true, false, List, [], ◌∷◌, Text, ℤ, pos, none, some, Result,
  ok, eq_ℤ, eq_ℤ_iff, text_eq, text_eq_refl, eq_of_text_eq, codes, Bool-cases, arith, inl, inr,
  arith,
}
use apipro.Catalog.{mem}
use apipro.Catalog.Rooms.{
  Groups, look, put, add_types, rooms_or_none, Scanned, scanned, build_all_live_rooms,
}
use apipro.Catalog.Shapes.{LiveRoom, LiveType}
use apipro.Redis.Decimal.{print_int, parse_int, IsInt64, parse-print_int}

abbrev pub type_ids : List LiveType → List ℤ
type_ids [] = []
type_ids (lt ∷ lts) = lt.live_type_id ∷ type_ids lts

-- The ids are int64 numbers, as the column's are.
abbrev pub IdsInt64 : List LiveType → Type 0
IdsInt64 [] = Unit {0}
IdsInt64 (lt ∷ lts) = IsInt64 lt.live_type_id × IdsInt64 lts

some_inj : {a b : ℤ} → some a ≡ some b → a ≡ b
some_inj e = cc

print_int-injective :
    (a b : ℤ) → IsInt64 a → IsInt64 b → text_eq (print_int a) (print_int b) ≡ true → a ≡ b
print_int-injective a b ha hb e = some_inj (
    sym (parse-print_int a ha)
    ∙ ap parse_int (eq_of_text_eq (print_int a) (print_int b) e)
    ∙ parse-print_int b hb)

-- A text that is no number is the key of no type.
text_eq-print_int :
    (k : Text) (a : ℤ) → parse_int k ≡ none → IsInt64 a → text_eq k (print_int a) ≡ false
text_eq-print_int k a h ha = elim (Bool-cases (text_eq k (print_int a))) [
  | inl e ↦
      let same = sym h ∙ ap parse_int (eq_of_text_eq k (print_int a) e) ∙ parse-print_int a ha in cc
  | inr e ↦ e
]

mem-IsInt64 :
    (id : ℤ) (lts : List LiveType) → mem id (type_ids lts) ≡ true → IdsInt64 lts → IsInt64 id
mem-IsInt64 id [] m h = cc
mem-IsInt64 id (lt ∷ lts) m h = elim (Bool-cases (eq_ℤ id lt.live_type_id)) [
  | inl e ↦ subst IsInt64 (sym ((eq_ℤ_iff id lt.live_type_id).0 e)) h.0
  | inr e ↦ mem-IsInt64 id lts (ground arith) h.1
]

module _ (list_by_type : ℤ → Scanned) where
  look-add_types_other :
      (k : Text) (lts : List LiveType) (groups : Groups)
      → parse_int k ≡ none
      → IdsInt64 lts
      → look k (add_types list_by_type lts groups) ≡ look k groups
  unfolding look add_types
  look-add_types_other k [] groups n h = refl
  look-add_types_other k (lt ∷ lts) groups n h = rw (
    look-add_types_other k lts
        (put (print_int lt.live_type_id) (scanned (list_by_type lt.live_type_id)) groups) n h.1,
    text_eq-print_int k lt.live_type_id n h.0,
  )

  -- A group that is there is written over by itself only.
  look-add_types_kept :
      (id : ℤ) (lts : List LiveType) (groups : Groups)
      → IsInt64 id
      → IdsInt64 lts
      → look (print_int id) groups ≡ some (scanned (list_by_type id))
      → look (print_int id) (add_types list_by_type lts groups) ≡ some (scanned (list_by_type id))
  unfolding look add_types
  look-add_types_kept id [] groups hi h e = e
  look-add_types_kept id (lt ∷ lts) groups hi h e =
      look-add_types_kept id lts
        (put (print_int lt.live_type_id) (scanned (list_by_type lt.live_type_id)) groups) hi h.1
        (elim (Bool-cases (text_eq (print_int id) (print_int lt.live_type_id))) [
          | inl t ↦ rw (t, print_int-injective id lt.live_type_id hi h.0 t)
          | inr t ↦ rw (t, e)
        ])

  look-add_types_member :
      (id : ℤ) (lts : List LiveType) (groups : Groups)
      → mem id (type_ids lts) ≡ true
      → IdsInt64 lts
      → look (print_int id) (add_types list_by_type lts groups) ≡ some (scanned (list_by_type id))
  unfolding look add_types
  look-add_types_member id [] groups m h = cc
  look-add_types_member id (lt ∷ lts) groups m h = elim (Bool-cases (eq_ℤ id lt.live_type_id)) [
    | inl e ↦
        let same = (eq_ℤ_iff id lt.live_type_id).0 e in
        look-add_types_kept id lts
          (put (print_int lt.live_type_id) (scanned (list_by_type lt.live_type_id)) groups)
          (mem-IsInt64 id (lt ∷ lts) m h) h.1 (rw (sym same, text_eq_refl (print_int id)))
    | inr e ↦
        look-add_types_member id lts
          (put (print_int lt.live_type_id) (scanned (list_by_type lt.live_type_id)) groups)
          (ground arith) h.1
  ]

zero_key : parse_int (codes "0") ≡ some (pos 0)
unfolding parse_int
zero_key = refl

hot_key : parse_int (codes "hot") ≡ none
unfolding parse_int
hot_key = refl

-- The only number printed as 0 is 0.
text_eq-print_int-zero :
    (id : ℤ) → IsInt64 id → eq_ℤ id (pos 0) ≡ false → text_eq (print_int id) (codes "0") ≡ false
text_eq-print_int-zero id h n = elim (Bool-cases (text_eq (print_int id) (codes "0"))) [
  | inl e ↦
      let same = some_inj (
        sym (parse-print_int id h)
        ∙ ap parse_int (eq_of_text_eq (print_int id) (codes "0") e)
        ∙ zero_key) in
      let yes = (eq_ℤ_iff id (pos 0)).1 same in cc
  | inr e ↦ e
]

-- Whatever types there are, in whichever order and however often, where their query succeeded and their ids
-- are int64 numbers: the group `hot` is the hot rooms and the group `0` all the visible ones, each empty if
-- its query failed, and the group of an id of a type other than 0 is the rooms that the query for that type
-- scanned, whether or not it failed after them.
pub all_live_rooms-groups :
    (hot all : Result ℕ (List LiveRoom)) (lts : List LiveType) (list_by_type : ℤ → Scanned) (id : ℤ)
    → IdsInt64 lts
    → mem id (type_ids lts) ≡ true
    → eq_ℤ id (pos 0) ≡ false
    → let groups = build_all_live_rooms hot (ok lts) list_by_type all in
      (look (codes "hot") groups ≡ some (rooms_or_none hot))
      × (look (codes "0") groups ≡ some (rooms_or_none all))
      × (look (print_int id) groups ≡ some (scanned (list_by_type id)))
unfolding build_all_live_rooms look
all_live_rooms-groups hot all lts list_by_type id h m n =
    let start = put (codes "hot") (rooms_or_none hot) [] in
    (
      look-add_types_other list_by_type (codes "hot") lts start hot_key h,
      refl,
      rw (
        text_eq-print_int-zero id (mem-IsInt64 id lts m h) n,
        look-add_types_member list_by_type id lts start m h,
      ),
    )
