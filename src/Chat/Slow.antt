-- ===== src/Chat/Slow.antt =====
-- A client that does not read: a broadcast finds its channel full, and a goroutine takes it out.
use apipro.Base.{
  ℕ, ◌≡◌, refl, sym, ap, subst, ◌∙◌, true, false, ◌||◌, List, [], ◌∷◌, ◌++◌, Text, if◌then◌else◌,
  ltb, ◌==◌, length, replicate, arith, Bool-cases, inl, inr,
}
use apipro.Chat.{in_room, clients, unregister_all}
use apipro.Chat.Membership.{Inv, in_room-unregister_all, unregister_all-Inv}
use apipro.Chat.Serve.{drop_slow, serve, serve_all}
use apipro.Chat.Server.{
  Server, Services, Client, send_frame, send_all, broadcast, frame_of, default_send_queue_size,
}
use apipro.Chat.Sets.{has}
use apipro.Session.Env.{World}

abbrev pub Full : Client → Type 0
Full x = ltb (length x.send) default_send_queue_size ≡ false

has-append : (d : ℕ) (xs : List ℕ) (c : ℕ) → has ◌==◌ d (xs ++ c ∷ []) ≡ (has ◌==◌ d xs || c == d)
unfolding has
has-append d [] c = ground arith
has-append d (x ∷ xs) c = ground (arith, has-append d xs c)

same_client : (c d : ℕ) → (c == d) ≡ true → c ≡ d
same_client c d e = ground arith

module _ {Db : Type 0} (d : ℕ) (frame : Text) where
  -- One turn of the loop.
  abbrev turn : ℕ → Server Db → Server Db
  turn c s =
      if ltb (length (s.client c).send) default_send_queue_size
      then send_frame c frame s
      else record s { leaving = s.leaving ++ c ∷ [] }

  turn-Full : (c : ℕ) (s : Server Db) → Full (s.client d) → Full ((turn c s).client d)
  unfolding send_frame
  turn-Full c s f = elim (Bool-cases (ltb (length (s.client c).send) default_send_queue_size)) [
    | inl e ↦ elim (Bool-cases (c == d)) [
      | inl e' ↦
          let none_left : false ≡ true =
            sym f ∙ ap (λ k. ltb (length (s.client k).send) 256) (sym (same_client c d e')) ∙ e in
          cc
      | inr e' ↦ rw (e, e') f
    ]
    | inr e ↦ rw e f
  ]

  turn-leaving :
      (c : ℕ) (s : Server Db) → has ◌==◌ d s.leaving ≡ true → has ◌==◌ d (turn c s).leaving ≡ true
  unfolding send_frame
  turn-leaving c s h = elim (Bool-cases (ltb (length (s.client c).send) default_send_queue_size)) [
    | inl e ↦ rw e h
    | inr e ↦ rw (e, has-append d s.leaving c, h)
  ]

  turn-Full-leaving :
      (c : ℕ) (s : Server Db)
      → (c == d) ≡ true
      → Full (s.client d)
      → has ◌==◌ d (turn c s).leaving ≡ true
  turn-Full-leaving c s e f =
      let full : ltb (length (s.client c).send) default_send_queue_size ≡ false =
        ap (λ k. ltb (length (s.client k).send) 256) (same_client c d e) ∙ f in
      rw (full, has-append d s.leaving c, e) (ground arith)

  send_all-leaving :
      (cs : List ℕ) (s : Server Db)
      → has ◌==◌ d s.leaving ≡ true
      → has ◌==◌ d (send_all cs frame s).leaving ≡ true
  unfolding send_all
  send_all-leaving [] s h = h
  send_all-leaving (c ∷ cs) s h = send_all-leaving cs (turn c s) (turn-leaving c s h)

  send_all-Full :
      (cs : List ℕ) (s : Server Db)
      → has ◌==◌ d cs ≡ true
      → Full (s.client d)
      → has ◌==◌ d (send_all cs frame s).leaving ≡ true
  unfolding send_all has
  send_all-Full [] s h f = cc
  send_all-Full (c ∷ cs) s h f = elim (Bool-cases (c == d)) [
    | inl e ↦ send_all-leaving cs (turn c s) (turn-Full-leaving c s e f)
    | inr e ↦ send_all-Full cs (turn c s) (rw e at h) (turn-Full c s f)
  ]

  send_all-hub : (cs : List ℕ) (s : Server Db) → (send_all cs frame s).hub ≡ s.hub
  unfolding send_all
  send_all-hub [] s = refl
  send_all-hub (c ∷ cs) s =
      send_all-hub cs (turn c s)
      ∙ elim (Bool-cases (ltb (length (s.client c).send) default_send_queue_size)) [
        | inl e ↦ unfold send_frame in rw e
        | inr e ↦ rw e
      ]

module _ (w : World) (v : Services w) where
  open w use {redis}
  open redis use {Db}

  -- So many goroutines have had their turn.
  abbrev pub turns : ℕ → Server Db → Server Db
  turns n s = serve_all w v (replicate n drop_slow) s

  -- Who is out stays out.
  turns_out :
      (cs : List ℕ) (d : ℕ) (s : Server Db)
      → Inv s.hub
      → s.leaving ≡ cs
      → ((room : Text) → in_room s.hub room d ≡ false)
      → (room : Text) → in_room (turns (length cs) s).hub room d ≡ false
  unfolding serve_all serve
  turns_out [] d s i e out room = out room
  turns_out (c ∷ cs) d s i e out room = rw e (
      turns_out cs d record s { hub = unregister_all c s.hub; leaving = cs }
        (unregister_all-Inv c s.hub i) refl
        (λ r. in_room-unregister_all r c d s.hub i ∙ rw (out r) (ground arith)) room)

  turns_leave :
      (cs : List ℕ) (d : ℕ) (s : Server Db)
      → Inv s.hub
      → s.leaving ≡ cs
      → has ◌==◌ d cs ≡ true
      → (room : Text) → in_room (turns (length cs) s).hub room d ≡ false
  unfolding serve_all serve has
  turns_leave [] d s i e h room = cc
  turns_leave (c ∷ cs) d s i e h room =
      let s' = record s { hub = unregister_all c s.hub; leaving = cs } in
      elim (Bool-cases (c == d)) [
        | inl e' ↦ rw e (
            turns_out cs d s' (unregister_all-Inv c s.hub i) refl
              (λ r. in_room-unregister_all r c d s.hub i ∙ rw e') room)
        | inr e' ↦ rw e (turns_leave cs d s' (unregister_all-Inv c s.hub i) refl (rw e' at h) room)
      ]

  -- A client of a room whose channel is full when something is broadcast there is in no room at all once
  -- the goroutines that are due have had their turns, as many as wait.
  pub broadcast_slow :
      (room : Text) (op : ℕ) (body : Text) (s : Server Db) (d : ℕ)
      → Inv s.hub
      → in_room s.hub room d ≡ true
      → Full (s.client d)
      → (r : Text)
      → let s' = broadcast w v room op body s in
        in_room (turns (length s'.leaving) s').hub r d ≡ false
  unfolding broadcast
  broadcast_slow room op body s d i h f r =
      let frame = frame_of w v op body in
      let cs = clients (s.hub.rooms room) in
      let s' = send_all cs frame s in
      turns_leave s'.leaving d s' (subst Inv (sym (send_all-hub d frame cs s)) i) refl
        (send_all-Full d frame cs s h f) r
