-- ===== src/Chat/Entering.antt =====
-- `handleRoomEnter` and `handleRoomLeave`.
use apipro.Base.{
  ℕ, Bool, true, false, not, ◌&&◌, Text, ℤ, pos, eq_ℤ, Option, none, some, Result, ok, err, text_eq,
  if◌then◌else◌,
}
use apipro.Catalog.Shapes.{LiveRoom}
use apipro.Chat.{join_room, leave_room}
use apipro.Chat.Content.{is_safe_room}
use apipro.Chat.History.{replay_history}
use apipro.Chat.Server.{
  Server, Services, Client, set_client, send_binary, broadcast, broadcast_view_num,
}
use apipro.Chat.Sets.{has}
use apipro.Chat.Wire.{
  op_room_enter_success, op_room_leave_success, op_comment_push, err_code_not_in_chat_server,
  Notice, missing_room, invalid_room, room_not_live, entered, system,
}
use apipro.Models.{DbError}
use apipro.Rpc.Auth.{no_text}
use apipro.Session.Env.{World}
use apipro.Chat.Steps.{M, ◌>>=◌, ◌>>◌, return, here, change, on_db, ensure, ack, fail, logged_in}

abbrev pub set_muted : Text → Bool → Client → Client
set_muted room b x = record x { muted_rooms = λ r. if text_eq room r then b else x.muted_rooms r }

module _ (w : World) (v : Services w) (c : ℕ) where
  open w use {redis}
  open redis use {Db}

  unfoldable pub send_system_notice : Text → Notice → ℤ → Server Db → Server Db
  send_system_notice room content msg_type s =
      send_binary w v c op_comment_push
        (v.marshal (system room content msg_type (pos (v.unix_milli s.db)))) s

  abbrev pub mute : Text → Bool → Server Db → Server Db
  mute room b s = set_client c (set_muted room b (s.client c)) s

  -- What is known of the room sets or clears the mute; the answer is whether it counts as live.
  unfoldable pub note_status : Text → Result DbError LiveRoom → M Db Bool
  note_status room (err e) = return true
  note_status room (ok r) =
      if eq_ℤ r.live_status (pos 1)
      then (change (mute room false) >>= λ u. return true)
      else (change (mute room true) >>= λ u.
          change (send_system_notice room room_not_live (pos 3)) >>= λ u. return false)

  unfoldable pub live_status : Option (Text → Db → Db × Result DbError LiveRoom) → Text → M Db Bool
  live_status none room = return true
  live_status (some find_by_room_num) room = do
    found ← on_db (find_by_room_num room)
    note_status room found

  unfoldable pub broadcast_enter_notice : Text → Server Db → Server Db
  broadcast_enter_notice room s =
      broadcast w v room op_comment_push
        (v.marshal (entered room (s.client c).nick_name (pos (v.unix_milli s.db)))) s

  -- From the join on.
  unfoldable pub join_and_tell : Text → Bool → M Db (Unit {0})
  join_and_tell room live = do
    s ← here
    let already_in = has text_eq room (s.hub.rooms_of c)
    change (λ s. record s { hub = join_room room c s.hub })
    change (send_binary w v c op_room_enter_success ack)
    change (broadcast_view_num w v room)
    change (
        if live && not (s.client c).is_guest && not already_in
        then broadcast_enter_notice room
        else (λ s. s))
    change (replay_history w v c room)

  unfoldable pub handle_room_enter : Text → M Db (Unit {0})
  handle_room_enter body = do
    logged_in w v c
    let room = v.parse_room body
    ensure (not (no_text room)) (fail w v c err_code_not_in_chat_server missing_room)
    ensure (is_safe_room room) (fail w v c err_code_not_in_chat_server invalid_room)
    live ← live_status v.rooms_model room
    join_and_tell room live

  unfoldable pub left : Text → Server Db → Server Db
  left room s =
      mute room false (broadcast_view_num w v room record s { hub = leave_room room c s.hub })

  unfoldable pub handle_room_leave : Text → M Db (Unit {0})
  handle_room_leave body = do
    let room = v.parse_room body
    change (if no_text room then (λ s. s) else left room)
    change (send_binary w v c op_room_leave_success ack)
