-- ===== src/Chat/History.antt =====
-- The history of a room: a list in Redis, and the table of messages behind it.
use apipro.Base.{
  ℕ, List, [], ◌∷◌, ◌++◌, map, reverse, Text, pos, pred_ℤ, Option, none, some, Result, ok, err, ltb,
  length, codes, if◌then◌else◌,
}
use apipro.Chat.Server.{
  Server, Services, Client, MessageTable, set_client, try_send, frame_of, default_send_queue_size,
}
use apipro.Chat.Wire.{ChatRoomMessage, replayed, op_comment_push}
use apipro.Session.Env.{World}

abbrev pub chat_history_key_prefix : Text
chat_history_key_prefix = codes "yuyan:live:chat:"

abbrev pub history_key : Text → Text
history_key room = chat_history_key_prefix ++ room

-- The loop of a replay: at the first frame that does not fit it returns.
unfoldable pub replay_frames : List Text → Client → Client
replay_frames [] x = x
replay_frames (frame ∷ frames) x =
    let rest = replay_frames frames (try_send frame x) in
    if ltb (length x.send) default_send_queue_size then rest else x

module _ (w : World) (v : Services w) where
  open w use {redis}
  open redis use {Db, expire}
  open v use {collections}

  unfoldable pub persist_history : Text → Text → Db → Db
  persist_history room body db =
      let pushed = (collections.lpush (history_key room) body db).0 in
      let trimmed =
        (collections.ltrim (history_key room) (pos 0) (pred_ℤ v.history_lim) pushed).0 in
      (expire (history_key room) 86400 trimmed).0

  -- The bodies, newest first, that the table has.
  abbrev table_rows : Db × Result ℕ (List ChatRoomMessage) → Db × List Text
  table_rows (db, ok ms) = (db, map (λ m. v.marshal (replayed m)) ms)
  table_rows (db, err e) = (db, [])

  abbrev table_bodies : Option (MessageTable Db) → Text → Db → Db × List Text
  table_bodies none room db = (db, [])
  table_bodies (some table) room db = table_rows (table.list_recent_by_room room v.history_lim db)

  -- The bodies that Redis has, or, where it has none or fails, those of the table.
  abbrev stored_or_table : Text → Db × Result ℕ (List Text) → Db × List Text
  stored_or_table room (db, ok (b ∷ bs)) = (db, b ∷ bs)
  stored_or_table room (db, ok []) = table_bodies v.chat_messages room db
  stored_or_table room (db, err e) = table_bodies v.chat_messages room db

  unfoldable pub recent : Text → Db → Db × List Text
  recent room db =
      stored_or_table room (collections.lrange (history_key room) (pos 0) v.history_lim db)

  unfoldable pub replay_history : ℕ → Text → Server Db → Server Db
  replay_history c room s =
      let found = recent room s.db in
      let frames = map (frame_of w v op_comment_push) (reverse found.1) in
      set_client c (replay_frames frames (s.client c)) record s { db = found.0 }
