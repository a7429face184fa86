-- ===== src/Chat/Membership.antt =====
-- A room holds exactly the clients that hold the room, and no room stands empty.
use apipro.Base.{
  ℕ, ◌≡◌, ◌≢◌, refl, Bool, true, false, not, ◌&&◌, ◌||◌, List, [], ◌∷◌, arith, Bool-cases, inl, inr,
  ap, ◌∙◌, sym, Text, text_eq, text_eq_refl, eq_of_text_eq, ◌==◌, Option, none, some,
}
use apipro.Chat.{
  Hub, new_hub, join_room, leave_room, unregister_all, drop_from, drop_from_all, in_room,
  put_client, clients, kept, without,
}
use apipro.Chat.Sets.{has, add, delete, has-add, has-delete}

eq_sound : (x y : ℕ) → (x == y) ≡ true → x ≡ y
eq_sound x y h = ground arith

eq_same : (x : ℕ) → (x == x) ≡ true
eq_same x = ground arith

-- The hub's side and the clients' side of the membership agree.
abbrev pub Inv : Hub → Type 0
Inv h =
    ((room : Text) (c : ℕ) → in_room h room c ≡ has text_eq room (h.rooms_of c))
    × ((room : Text) → h.rooms room ≢ some [])

clients-kept : (cs : List ℕ) → clients (kept cs) ≡ cs
clients-kept [] = refl
clients-kept (c ∷ cs) = refl

kept_full : (cs : List ℕ) → kept cs ≢ some []
kept_full [] e = cc
kept_full (c ∷ cs) e = cc

has-without :
    (c d : ℕ) (o : Option (List ℕ))
    → has ◌==◌ d (clients (without c o)) ≡ (not (c == d) && has ◌==◌ d (clients o))
unfolding has
has-without c d none = elim (Bool-cases (c == d)) [ inl e ↦ rw e | inr e ↦ rw e ]
has-without c d (some cs) =
    ap (has ◌==◌ d) (clients-kept (delete ◌==◌ c cs)) ∙ has-delete ◌==◌ eq_sound eq_same c d cs

without_full : (c : ℕ) (o : Option (List ℕ)) → without c o ≢ some []
without_full c none e = cc
without_full c (some cs) e = kept_full (delete ◌==◌ c cs) e

-- Whether a room holds a client, for a map of rooms.
abbrev holds : (Text → Option (List ℕ)) → Text → ℕ → Bool
holds rooms room c = has ◌==◌ c (clients (rooms room))

drop_from_lem :
    (room r : Text) (c d : ℕ) (rooms : Text → Option (List ℕ))
    → holds (drop_from room c rooms) r d ≡ (not (text_eq room r && c == d) && holds rooms r d)
drop_from_lem room r c d rooms = elim (Bool-cases (text_eq room r)) [
  | inl e ↦ rw e (
      has-without c d (rooms room)
      ∙ ap (λ q. not (c == d) && holds rooms q d) (eq_of_text_eq room r e))
  | inr e ↦ rw e
]

drop_from_full :
    (room r : Text) (c : ℕ) (rooms : Text → Option (List ℕ))
    → ((q : Text) → rooms q ≢ some [])
    → drop_from room c rooms r ≢ some []
drop_from_full room r c rooms full e = elim (Bool-cases (text_eq room r)) [
  | inl e' ↦ without_full c (rooms room) (rw e' at e)
  | inr e' ↦ full r (rw e' at e)
]

not_twice : (a b e x : Bool) → (not (b && e) && (not (a && e) && x)) ≡ (not ((a || b) && e) && x)
not_twice true true true x = refl
not_twice true true false x = refl
not_twice true false true x = refl
not_twice true false false x = refl
not_twice false true true x = refl
not_twice false true false x = refl
not_twice false false true x = refl
not_twice false false false x = refl

drop_from_all_lem :
    (rs : List Text) (r : Text) (c d : ℕ) (rooms : Text → Option (List ℕ))
    → holds (drop_from_all rs c rooms) r d ≡ (not (has text_eq r rs && c == d) && holds rooms r d)
unfolding drop_from_all has
drop_from_all_lem [] r c d rooms = refl
drop_from_all_lem (room ∷ rs) r c d rooms =
    rw (drop_from_all_lem rs r c d (drop_from room c rooms), drop_from_lem room r c d rooms)
      (not_twice (text_eq room r) (has text_eq r rs) (c == d) (holds rooms r d))

drop_from_all_full :
    (rs : List Text) (r : Text) (c : ℕ) (rooms : Text → Option (List ℕ))
    → ((q : Text) → rooms q ≢ some [])
    → drop_from_all rs c rooms r ≢ some []
unfolding drop_from_all
drop_from_all_full [] r c rooms full = full r
drop_from_all_full (room ∷ rs) r c rooms full =
    drop_from_all_full rs r c (drop_from room c rooms) (λ q. drop_from_full room q c rooms full)

-- What each operation does to the membership.
pub in_room-join_room :
    (room r : Text) (c d : ℕ) (h : Hub)
    → in_room (join_room room c h) r d ≡ ((text_eq room r && c == d) || in_room h r d)
unfolding join_room
in_room-join_room room r c d h = elim (Bool-cases (text_eq room r)) [
  | inl e ↦ rw e (
      has-add ◌==◌ eq_sound eq_same c d (clients (h.rooms room))
      ∙ ap (λ q. c == d || in_room h q d) (eq_of_text_eq room r e))
  | inr e ↦ rw e
]

pub in_room-leave_room :
    (room r : Text) (c d : ℕ) (h : Hub)
    → in_room (leave_room room c h) r d ≡ (not (text_eq room r && c == d) && in_room h r d)
unfolding leave_room
in_room-leave_room room r c d h = drop_from_lem room r c d h.rooms

and_true : (a : Bool) → (a && true) ≡ a
and_true true = refl
and_true false = refl

and_false : (a : Bool) → (a && false) ≡ false
and_false true = refl
and_false false = refl

not_and : (x : Bool) → (not x && x) ≡ false
not_and true = refl
not_and false = refl

-- The list of one client is changed, and only it.
module _ (room r : Text) (c d : ℕ) (rooms_of : ℕ → List Text) where
  listed-add :
      has text_eq r (put_client rooms_of c (add text_eq room (rooms_of c)) d)
      ≡ ((text_eq room r && c == d) || has text_eq r (rooms_of d))
  listed-add = elim (Bool-cases (c == d)) [
    | inl e ↦
        rw (e, and_true (text_eq room r))
          (has-add text_eq eq_of_text_eq text_eq_refl room r (rooms_of c)
            ∙ ap (λ k. text_eq room r || has text_eq r (rooms_of k)) (eq_sound c d e))
    | inr e ↦ rw (e, and_false (text_eq room r))
  ]

  listed-delete :
      has text_eq r (put_client rooms_of c (delete text_eq room (rooms_of c)) d)
      ≡ (not (text_eq room r && c == d) && has text_eq r (rooms_of d))
  listed-delete = elim (Bool-cases (c == d)) [
    | inl e ↦
        rw (e, and_true (text_eq room r))
          (has-delete text_eq eq_of_text_eq text_eq_refl room r (rooms_of c)
            ∙ ap (λ k. not (text_eq room r) && has text_eq r (rooms_of k)) (eq_sound c d e))
    | inr e ↦ rw (e, and_false (text_eq room r))
  ]

add_full : (c : ℕ) (cs : List ℕ) → some (add ◌==◌ c cs) ≢ some []
unfolding add has
add_full c [] e = cc
add_full c (x ∷ xs) e = elim (Bool-cases (has ◌==◌ c (x ∷ xs))) [
  | inl e' ↦ cc (rw e' at e)
  | inr e' ↦ cc (rw e' at e)
]

pub join_room-Inv : (room : Text) (c : ℕ) (h : Hub) → Inv h → Inv (join_room room c h)
unfolding join_room
join_room-Inv room c h (agree, full) = (
  λ r d.
      in_room-join_room room r c d h
      ∙ ap (λ x. (text_eq room r && c == d) || x) (agree r d)
      ∙ sym (listed-add room r c d h.rooms_of),
  λ r e. elim (Bool-cases (text_eq room r)) [
    | inl e' ↦ add_full c (clients (h.rooms room)) (rw e' at e)
    | inr e' ↦ full r (rw e' at e)
  ],
)

pub leave_room-Inv : (room : Text) (c : ℕ) (h : Hub) → Inv h → Inv (leave_room room c h)
unfolding leave_room
leave_room-Inv room c h (agree, full) = (
  λ r d.
      in_room-leave_room room r c d h
      ∙ ap (λ x. not (text_eq room r && c == d) && x) (agree r d)
      ∙ sym (listed-delete room r c d h.rooms_of),
  λ r. drop_from_full room r c h.rooms full,
)

-- Where both sides agree, `unregisterAll` takes the client out of every room, and no other client out
-- of any.
pub in_room-unregister_all :
    (r : Text) (c d : ℕ) (h : Hub)
    → Inv h
    → in_room (unregister_all c h) r d ≡ (not (c == d) && in_room h r d)
unfolding unregister_all
in_room-unregister_all r c d h (agree, full) =
    drop_from_all_lem (h.rooms_of c) r c d h.rooms ∙ elim (Bool-cases (c == d)) [
      | inl e ↦
          rw
            (
              e,
              and_true (has text_eq r (h.rooms_of c)),
              agree r d,
              ap (λ k. has text_eq r (h.rooms_of k)) (eq_sound c d e),
            )
            (not_and (has text_eq r (h.rooms_of d)))
      | inr e ↦ rw (e, and_false (has text_eq r (h.rooms_of c)))
    ]

pub unregister_all-Inv : (c : ℕ) (h : Hub) → Inv h → Inv (unregister_all c h)
unfolding unregister_all has
unregister_all-Inv c h (agree, full) = (
  λ r d.
      in_room-unregister_all r c d h (agree, full)
      ∙ elim (Bool-cases (c == d)) [ inl e ↦ rw e | inr e ↦ rw e (agree r d) ],
  λ r. drop_from_all_full (h.rooms_of c) r c h.rooms full,
)

-- The calls that the pumps of all clients make, in the order in which they take the hub's lock.
pub data Call : Type 0 where
  join leave : Text → ℕ → Call
  unregister : ℕ → Call

unfoldable pub step : Call → Hub → Hub
step (join room c) h = join_room room c h
step (leave room c) h = leave_room room c h
step (unregister c) h = unregister_all c h

unfoldable pub run : List Call → Hub → Hub
run [] h = h
run (k ∷ ks) h = run ks (step k h)

step-Inv : (k : Call) (h : Hub) → Inv h → Inv (step k h)
unfolding step
step-Inv (join room c) h i = join_room-Inv room c h i
step-Inv (leave room c) h i = leave_room-Inv room c h i
step-Inv (unregister c) h i = unregister_all-Inv c h i

run_kept : (ks : List Call) (h : Hub) → Inv h → Inv (run ks h)
unfolding run
run_kept [] h i = i
run_kept (k ∷ ks) h i = run_kept ks (step k h) (step-Inv k h i)

-- In any order of calls from the empty hub, a room holds exactly the clients that hold the room, and
-- no room stands empty.
pub run-Inv : (ks : List Call) → Inv (run ks new_hub)
unfolding has
run-Inv ks = run_kept ks new_hub (λ r c. refl, λ r e. cc)

-- After any calls, a client that is unregistered is in no room, and every other client is in the rooms
-- it was in.
pub unregister_all-run :
    (ks : List Call) (r : Text) (c d : ℕ)
    → in_room (unregister_all c (run ks new_hub)) r d
      ≡ (not (c == d) && in_room (run ks new_hub) r d)
unregister_all-run ks r c d = in_room-unregister_all r c d (run ks new_hub) (run-Inv ks)
