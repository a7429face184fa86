-- ===== src/Chat/Guarding.antt =====
-- Every handler keeps the invariant.
use apipro.Base.{
  ℕ, refl, Bool, true, false, Text, pos, eq_ℤ, Option, none, some, Result, ok, err, if◌then◌else◌,
  Bool-cases, inl, inr,
}
use apipro.Catalog.Shapes.{LiveRoom}
use apipro.Chat.{clients, leave_room}
use apipro.Chat.Binding.{
  bind_or_fail, bind_session, handle_login, handle_session_resume, handle_logout,
}
use apipro.Chat.Entering.{
  send_system_notice, mute, note_status, live_status, broadcast_enter_notice, join_and_tell,
  handle_room_enter, left, handle_room_leave,
}
use apipro.Chat.History.{replay_history, recent}
use apipro.Chat.Rules.{
  Steps, Steps-bind, Steps-return, Steps-here, Steps-change, Steps-on_db, Steps-ensure, Steps-if,
}
use apipro.Chat.Server.{
  Server, Services, send_binary, send_error, broadcast, broadcast_view_num, view_count,
}
use apipro.Chat.Sound.{
  Grows, GrowsFor, Grows-Relation, GrowsFor-Relation, Grows-set_client, Grows-send_frame,
  Grows-send_all, Grows-replay, Grows-leave_room, Grows-unregister_all, Grows-join_room,
}
use apipro.Chat.Steps.{M, ◌>>◌, here, ensure, logged_in}
use apipro.Chat.Wire.{Notice}
use apipro.Rpc.Auth.{no_text}
use apipro.Models.{DbError}
use apipro.Session.{Error, get_session}
use apipro.Session.Env.{Session, World}

module _ (w : World) (v : Services w) (c : ℕ) where
  open w use {redis}
  open redis use {Db, incr}

  module _ {A : Type 0} where
    abbrev pub Keeping : M Db A → Type 0
    Keeping m = Steps Grows m

  pub Grows-fail : (code : ℕ) (msg : Notice) (s : Server Db) → Grows s (send_error w v c code msg s)
  unfolding send_error send_binary
  Grows-fail code msg s = Grows-send_frame c _ s

  pub Grows-send_binary :
      (op : ℕ) (body : Text) (s : Server Db) → Grows s (send_binary w v c op body s)
  unfolding send_binary
  Grows-send_binary op body s = Grows-send_frame c _ s

  pub Grows-broadcast :
      (room : Text) (op : ℕ) (body : Text) (s : Server Db) → Grows s (broadcast w v room op body s)
  unfolding broadcast
  Grows-broadcast room op body s = Grows-send_all (clients (s.hub.rooms room)) _ s

  Grows-broadcast_view_num : (room : Text) (s : Server Db) → Grows s (broadcast_view_num w v room s)
  unfolding broadcast_view_num
  Grows-broadcast_view_num room s =
      let s' = record s { db = (view_count w v room s).0 } in Grows-broadcast room _ _ s'

  bind_or_fail-Keeps : (op : ℕ) (r : Result Error Session) → Keeping (bind_or_fail w v c op r)
  bind_or_fail-Keeps op (ok sess) =
      Steps-bind Grows-Relation
        (Steps-change Grows-Relation (λ s. Grows-set_client c _ s (λ e. refl) (λ h. h)))
        (λ u. Steps-change Grows-Relation (Grows-send_binary op _))
  bind_or_fail-Keeps op (err e) = Steps-ensure Grows-Relation false (Grows-fail _ _)

  bind_session-Keeps : (op : ℕ) (key : Text) → Keeping (bind_session w v c op key)
  unfolding bind_session
  bind_session-Keeps op key =
      Steps-bind Grows-Relation (Steps-ensure Grows-Relation _ (Grows-fail _ _)) (λ u.
        Steps-bind Grows-Relation (Steps-on_db Grows-Relation (get_session w v.sessions key))
          (λ found. bind_or_fail-Keeps op found))

  pub handle_login-Keeps : (body : Text) → Keeping (handle_login w v c body)
  unfolding handle_login
  handle_login-Keeps body = bind_session-Keeps _ (v.parse_key body)

  pub logged_in-Keeps : Keeping (logged_in w v c)
  unfolding logged_in
  logged_in-Keeps =
      Steps-bind Grows-Relation (Steps-here Grows-Relation)
        (λ s. Steps-ensure Grows-Relation _ (Grows-fail _ _))

  pub handle_session_resume-Keeps : (body : Text) → Keeping (handle_session_resume w v c body)
  unfolding handle_session_resume
  handle_session_resume-Keeps body =
      Steps-bind Grows-Relation logged_in-Keeps (λ u. bind_session-Keeps _ (v.parse_key body))

  pub handle_logout-Keeps : (body : Text) → Keeping (handle_logout w v c body)
  unfolding handle_logout
  handle_logout-Keeps body =
      Steps-bind Grows-Relation (Steps-change Grows-Relation (Grows-send_binary _ _)) (λ u.
        Steps-bind Grows-Relation (Steps-change Grows-Relation (Grows-unregister_all c)) (λ u'.
          Steps-change Grows-Relation
            (λ s. Grows-set_client c (record (s.client c) { closed = true }) s (λ e. e) (λ h. h))))

  Grows-mute : (room : Text) (b : Bool) (s : Server Db) → Grows s (mute w v c room b s)
  Grows-mute room b s = Grows-set_client c _ s (λ e. e) (λ h. h)

  left-Keeps : (room : Text) (s : Server Db) → Grows s (left w v c room s)
  unfolding left
  left-Keeps room s =
      let s1 = record s { hub = leave_room room c s.hub } in
      let s2 = broadcast_view_num w v room s1 in
      Grows-Relation.chain s s2 (mute w v c room false s2)
        (Grows-Relation.chain s s1 s2 (Grows-leave_room room c s)
          (Grows-broadcast_view_num room s1))
        (Grows-mute room false s2)

  pub handle_room_leave-Keeps : (body : Text) → Keeping (handle_room_leave w v c body)
  unfolding handle_room_leave
  handle_room_leave-Keeps body =
      Steps-bind Grows-Relation
        (Steps-change Grows-Relation (either (no_text (v.parse_room body)) (v.parse_room body)))
        (λ u. Steps-change Grows-Relation (Grows-send_binary _ _))
    where
      either :
          (b : Bool) (room : Text) (s : Server Db)
          → Grows s ((if b then (λ s. s) else left w v c room) s)
      either true room s = (λ h. h, λ d e. e)
      either false room s = left-Keeps room s

  -- The same steps under the relation of a client that has logged in.
  lifted : {A : Type 0} {m : M Db A} → Steps Grows m → Steps (GrowsFor c) m
  lifted h = record { keeps = λ s e. h.keeps s }

  note_status-Keeps :
      (room : Text) (r : Result DbError LiveRoom) → Keeping (note_status w v c room r)
  unfolding note_status send_system_notice
  note_status-Keeps room (err e) = Steps-return Grows-Relation
  note_status-Keeps room (ok r) =
      Steps-if Grows-Relation (eq_ℤ r.live_status (pos 1))
        (Steps-bind Grows-Relation (Steps-change Grows-Relation (Grows-mute room false))
          (λ u. Steps-return Grows-Relation))
        (Steps-bind Grows-Relation (Steps-change Grows-Relation (Grows-mute room true)) (λ u.
          Steps-bind Grows-Relation (Steps-change Grows-Relation (λ s. Grows-send_binary _ _ s))
            (λ u'. Steps-return Grows-Relation)))

  live_status-Keeps :
      (o : Option (Text → Db → Db × Result DbError LiveRoom)) (room : Text)
      → Keeping (live_status w v c o room)
  unfolding live_status
  live_status-Keeps none room = Steps-return Grows-Relation
  live_status-Keeps (some find) room =
      Steps-bind Grows-Relation (Steps-on_db Grows-Relation (find room))
        (λ found. note_status-Keeps room found)

  enter_notice-Keeps :
      (b : Bool) (room : Text) (s : Server Db)
      → Grows s ((if b then broadcast_enter_notice w v c room else (λ s. s)) s)
  unfolding broadcast_enter_notice
  enter_notice-Keeps true room s = Grows-broadcast room _ _ s
  enter_notice-Keeps false room s = (λ h. h, λ d e. e)

  replay-Keeps : (room : Text) (s : Server Db) → Grows s (replay_history w v c room s)
  unfolding replay_history
  replay-Keeps room s = Grows-replay c _ (recent w v room s.db).0 s

  -- What comes after the check of the login, for a client that has passed it.
  past_login : {A : Type 0} {m : M Db A} → Steps (GrowsFor c) m → Keeping (logged_in w v c >> m)
  unfolding logged_in here ensure
  past_login {m = m} h = record {
    keeps = λ s. elim (Bool-cases (s.client c).authenticated) [
      | inl e ↦ rw e (h.keeps s e)
      | inr e ↦ rw e (Grows-fail _ _ s)
    ];
  }

  join_and_tell-Keeps :
      (room : Text) (live : Bool) → Steps (GrowsFor c) (join_and_tell w v c room live)
  unfolding join_and_tell
  join_and_tell-Keeps room live =
      let r = GrowsFor-Relation {Db = Db} c in
      Steps-bind r (Steps-here r) (λ s. Steps-bind r (Steps-change r (Grows-join_room room c)) (λ u.
        Steps-bind r (Steps-change r (λ s e. Grows-send_binary _ _ s)) (λ u.
          Steps-bind r (Steps-change r (λ s e. Grows-broadcast_view_num room s)) (λ u.
            Steps-bind r (Steps-change r (λ s e. enter_notice-Keeps _ room s))
              (λ u. Steps-change r (λ s e. replay-Keeps room s))))))

  pub handle_room_enter-Keeps : (body : Text) → Keeping (handle_room_enter w v c body)
  unfolding handle_room_enter
  handle_room_enter-Keeps body =
      let room = v.parse_room body in
      let r = GrowsFor-Relation {Db = Db} c in
      past_login (
        Steps-bind r (Steps-ensure r _ (λ s e. Grows-fail _ _ s)) (λ u.
          Steps-bind r (Steps-ensure r _ (λ s e. Grows-fail _ _ s)) (λ u.
            Steps-bind r (lifted (live_status-Keeps v.rooms_model room))
              (λ live. join_and_tell-Keeps room live))))
