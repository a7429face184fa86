-- ===== src/Chat/Sound.antt =====
-- The invariant of a chat server, and the changes that keep it.
use apipro.Base.{
  ℕ, ◌≤◌, ◌<◌, ◌≡◌, refl, Bool, true, false, not, ◌&&◌, ◌||◌, List, [], ◌∷◌, ◌++◌, Text,
  if◌then◌else◌, ltb, length, length-append, ◌==◌, text_eq, arith, Bool-cases, inl, inr, subst, sym,
  ◌∙◌,
}
use apipro.Chat.{Hub, in_room, join_room, leave_room, unregister_all}
use apipro.Chat.Membership.{
  Inv, in_room-join_room, in_room-leave_room, in_room-unregister_all, join_room-Inv, leave_room-Inv,
  unregister_all-Inv,
}
use apipro.Chat.History.{replay_frames}
use apipro.Chat.Rules.{Relation}
use apipro.Chat.Server.{
  Server, Client, set_client, try_send, send_frame, send_all, default_send_queue_size,
}

and_right : (a b : Bool) → (a && b) ≡ true → b ≡ true
and_right a b h = ground arith

eq_client : (c d : ℕ) → (c == d) ≡ true → c ≡ d
eq_client c d e = ground arith

pub try_send_size :
    (frame : Text) (x : Client)
    → length x.send ≤ default_send_queue_size
    → length (try_send frame x).send ≤ default_send_queue_size
unfolding try_send
try_send_size frame x h = elim (Bool-cases (ltb (length x.send) 256)) [
  | inl e ↦
      let small : length x.send < 256 = ground arith in
      rw e (omega (arith, length-append x.send (frame ∷ [])))
  | inr e ↦ rw e h
]

pub authenticated-try_send :
    (frame : Text) (x : Client) → (try_send frame x).authenticated ≡ x.authenticated
unfolding try_send
authenticated-try_send frame x = elim (Bool-cases (ltb (length x.send) 256)) [
  | inl e ↦ rw e
  | inr e ↦ rw e
]

replay_frames_size :
    (frames : List Text) (x : Client)
    → length x.send ≤ default_send_queue_size
    → length (replay_frames frames x).send ≤ default_send_queue_size
unfolding replay_frames
replay_frames_size [] x h = h
replay_frames_size (f ∷ fs) x h = elim (Bool-cases (ltb (length x.send) 256)) [
  | inl e ↦ rw e (replay_frames_size fs (try_send f x) (try_send_size f x h))
  | inr e ↦ rw e h
]

authenticated-replay_frames :
    (frames : List Text) (x : Client) → (replay_frames frames x).authenticated ≡ x.authenticated
unfolding replay_frames
authenticated-replay_frames [] x = refl
authenticated-replay_frames (f ∷ fs) x = elim (Bool-cases (ltb (length x.send) 256)) [
  | inl e ↦ rw e (authenticated-replay_frames fs (try_send f x) ∙ authenticated-try_send f x)
  | inr e ↦ rw e
]

module _ {Db : Type 0} where
  -- The two sides of the membership agree; who is in a room has logged in; no channel holds more than
  -- its size.
  abbrev pub Sound : Server Db → Type 0
  Sound s =
      Inv s.hub
      × ((room : Text) (c : ℕ) → in_room s.hub room c ≡ true → (s.client c).authenticated ≡ true)
      × ((c : ℕ) → length (s.client c).send ≤ default_send_queue_size)

  abbrev pub Grows : Server Db → Server Db → Type 0
  Grows s s' =
      (Sound s → Sound s')
      × ((d : ℕ) → (s.client d).authenticated ≡ true → (s'.client d).authenticated ≡ true)

  pub Grows-Relation : Relation Grows
  Grows-Relation = record {
    still = λ s. (λ h. h, λ d e. e);
    chain = λ a b c h k. (λ i. k.0 (h.0 i), λ d e. k.1 d (h.1 d e));
    by_db = λ db s. (λ h. h, λ d e. e);
  }

  -- The same, for a client that has logged in.
  abbrev pub GrowsFor : ℕ → Server Db → Server Db → Type 0
  GrowsFor c s s' = (s.client c).authenticated ≡ true → Grows s s'

  pub GrowsFor-Relation : (c : ℕ) → Relation (GrowsFor c)
  GrowsFor-Relation n = record {
    still = λ s e. (λ h. h, λ d e. e);
    chain = λ a b c h k e.
        let first = h e in
        let second = k (first.1 n e) in
        (λ i. second.0 (first.0 i), λ d f. second.1 d (first.1 d f));
    by_db = λ db s e. (λ h. h, λ d e. e);
  }

  -- A client is changed, whose login stays and whose channel is within its size if it was before.
  pub Grows-set_client :
      (c : ℕ) (x : Client) (s : Server Db)
      → ((s.client c).authenticated ≡ true → x.authenticated ≡ true)
      → (length (s.client c).send ≤ default_send_queue_size
          → length x.send ≤ default_send_queue_size)
      → Grows s (set_client c x s)
  Grows-set_client c x s login size =
      let logins : (d : ℕ)
          → (s.client d).authenticated ≡ true
          → (if c == d then x else s.client d).authenticated ≡ true =
        λ d h. elim (Bool-cases (c == d)) [
          | inl e ↦ rw e (login (rw (eq_client c d e) h))
          | inr e ↦ rw e h
        ] in
      (
        λ (i, members, sizes). (
          i,
          λ room d h. logins d (members room d h),
          λ d. elim (Bool-cases (c == d)) [
            | inl e ↦ rw e (size (sizes c))
            | inr e ↦ rw e (sizes d)
          ],
        ),
        logins,
      )

  pub Grows-send_frame : (c : ℕ) (frame : Text) (s : Server Db) → Grows s (send_frame c frame s)
  unfolding send_frame
  Grows-send_frame c frame s =
      let x = s.client c in
      Grows-set_client c (try_send frame x) s (λ e. authenticated-try_send frame x ∙ e)
        (try_send_size frame x)

  pub Grows-if :
      (b : Bool) (s a a' : Server Db) → Grows s a → Grows s a' → Grows s (if b then a else a')
  Grows-if true s a a' h h' = h
  Grows-if false s a a' h h' = h'

  pub Grows-send_all : (cs : List ℕ) (frame : Text) (s : Server Db) → Grows s (send_all cs frame s)
  unfolding send_all
  Grows-send_all [] frame s = (λ h. h, λ d e. e)
  Grows-send_all (c ∷ cs) frame s =
      let room_left = ltb (length (s.client c).send) default_send_queue_size in
      let sent = send_frame c frame s in
      let left = record s { leaving = s.leaving ++ c ∷ [] } in
      let next = if room_left then sent else left in
      Grows-Relation.chain s next (send_all cs frame next)
        (Grows-if room_left s sent left (Grows-send_frame c frame s) (λ h. h, λ d e. e))
        (Grows-send_all cs frame next)

  pub Grows-replay :
      (c : ℕ) (frames : List Text) (db : Db) (s : Server Db)
      → Grows s (set_client c (replay_frames frames (s.client c)) record s { db = db })
  Grows-replay c frames db s =
      let x = s.client c in
      Grows-set_client c (replay_frames frames x) (record s { db = db })
        (λ e. authenticated-replay_frames frames x ∙ e) (replay_frames_size frames x)

  -- The hub changes in a way that keeps its two sides, and nobody is in a room who was not.
  Grows-hub :
      (h : Hub) (s : Server Db)
      → (Inv s.hub → Inv h)
      → (Inv s.hub → (room : Text) (d : ℕ) → in_room h room d ≡ true → in_room s.hub room d ≡ true)
      → Grows s record s { hub = h }
  Grows-hub h s inv less = (
    λ (i, members, sizes). (inv i, λ room d e. members room d (less i room d e), sizes),
    λ d e. e,
  )

  pub Grows-leave_room :
      (room : Text) (c : ℕ) (s : Server Db) → Grows s record s { hub = leave_room room c s.hub }
  Grows-leave_room room c s =
      Grows-hub (leave_room room c s.hub) s (leave_room-Inv room c s.hub) (λ i r d e.
        and_right (not (text_eq room r && c == d)) (in_room s.hub r d)
          (sym (in_room-leave_room room r c d s.hub) ∙ e))

  pub Grows-unregister_all :
      (c : ℕ) (s : Server Db) → Grows s record s { hub = unregister_all c s.hub }
  Grows-unregister_all c s =
      Grows-hub (unregister_all c s.hub) s (unregister_all-Inv c s.hub) (λ i r d e.
        and_right (not (c == d)) (in_room s.hub r d)
          (sym (in_room-unregister_all r c d s.hub i) ∙ e))

  -- Who joins has logged in.
  pub Grows-join_room :
      (room : Text) (c : ℕ) (s : Server Db) → GrowsFor c s record s { hub = join_room room c s.hub }
  Grows-join_room room c s me = (
    λ (i, members, sizes). (
      join_room-Inv room c s.hub i,
      λ r d e. elim (Bool-cases (c == d)) [
        | inl e' ↦ subst (λ k. (s.client k).authenticated ≡ true) (eq_client c d e') me
        | inr e' ↦
            let was : (text_eq room r && (c == d)) || in_room s.hub r d ≡ true =
              sym (in_room-join_room room r c d s.hub) ∙ e in
            members r d (ground arith)
      ],
      sizes,
    ),
    λ d e. e,
  )
