-- ===== src/Chat/Comments.antt =====
-- `handleComment` and `handleLike`.
use apipro.Base.{
  ℕ, not, Text, ℤ, pos, eq_ℤ, Option, none, some, Result, ok, err, codes, if◌then◌else◌,
}
use apipro.Chat.History.{persist_history}
use apipro.Chat.Server.{Server, Services, MessageTable, send_binary, broadcast}
use apipro.Chat.Wire.{
  op_comment_success, op_like_success, op_comment_push, comment, like, CommentPush, CommentBody,
  ChatRoomMessage,
}
use apipro.Rpc.Auth.{no_text}
use apipro.Rpc.Register.{to_int32}
use apipro.Session.Env.{World}
use apipro.Chat.Steps.{M, ◌>>=◌, ◌>>◌, here, change, on_db, ensure, ack, logged_in}
use apipro.Chat.Speaking.{may_speak, admitted_content}

module _ (w : World) (v : Services w) (c : ℕ) where
  open w use {redis}
  open redis use {Db, incr}

  -- The number that Redis draws, or the time where it draws none or 0.
  abbrev or_time : Server Db → Result ℕ ℤ → ℤ
  or_time s (ok id) = if eq_ℤ id (pos 0) then pos (v.unix_nano s.db) else id
  or_time s (err e) = pos (v.unix_nano s.db)

  abbrev row_of : Server Db → CommentPush → ChatRoomMessage
  row_of s m = record {
    id = m.msg_id;
    send_uid = m.send_uid;
    room_num = m.room_num;
    send_time = m.send_time;
    content = m.content;
    type = to_int32 m.msg_type;
    ip = (s.client c).ip;
    status = pos 1;
    created_at = pos 0;
  }

  abbrev insert_row : Option (MessageTable Db) → ChatRoomMessage → Db → Db
  insert_row none row db = db
  insert_row (some table) row db = (table.insert row db).0

  abbrev type_or_text : ℤ → ℤ
  type_or_text type = if eq_ℤ type (pos 0) then pos 1 else type

  abbrev push_of : Server Db → CommentBody → Text → ℤ → CommentPush
  push_of s b content id = record {
    send_uid = (s.client c).uid;
    room_num = b.room_num;
    msg_type = type_or_text b.msg_type;
    send_time = pos (v.unix_milli s.db);
    content = content;
    nick_name = (s.client c).nick_name;
    icon = (s.client c).icon;
    msg_id = id;
  }

  -- The row, the history, the ack and the push to the room.
  unfoldable pub deliver : CommentPush → Server Db → Server Db
  deliver m s =
      let push = v.marshal (comment m) in
      let stored = insert_row v.chat_messages (row_of s m) s.db in
      let kept = persist_history w v m.room_num push stored in
      broadcast w v m.room_num op_comment_push push
        (send_binary w v c op_comment_success ack record s { db = kept })

  unfoldable pub publish : CommentBody → Text → M Db (Unit {0})
  publish b content = do
    s ← here
    drawn ← on_db (incr (codes "yuyan:chat:message_id"))
    change (deliver (push_of s b content (or_time s drawn)))

  unfoldable pub handle_comment : Text → M Db (Unit {0})
  handle_comment body = do
    logged_in w v c
    let b = v.parse_comment body
    may_speak w v c b.room_num
    content ← admitted_content w v c b.content
    publish b content

  unfoldable pub handle_like : Text → M Db (Unit {0})
  handle_like body = do
    logged_in w v c
    let room = v.parse_room body
    ensure (not (no_text room)) (λ s. s)
    change (send_binary w v c op_like_success ack)
    s ← here
    change (broadcast w v room op_like_success (v.marshal (like (s.client c).uid room)))
