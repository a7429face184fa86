-- ===== src/Chat/Server.antt =====
-- What a chat server holds, and how a frame comes to a client: the parts of `Client` and `Hub` of
-- pkg/wschat/hub.go that the handlers work on.
use apipro.Base.{
  ℕ, Bool, false, List, [], ◌∷◌, ◌++◌, Text, ℤ, pos, Option, none, some, Result, ok, err, ltb,
  ltb_ℤ, ◌==◌, length, if◌then◌else◌,
}
use apipro.Catalog.Rooms.{add_int64}
use apipro.Catalog.Shapes.{LiveRoom}
use apipro.Chat.{Hub, clients, room_size}
use apipro.Chat.Frame.{encode_binary_frame}
use apipro.Chat.Wire.{
  Body, error, view_num, Notice, op_error, op_view_num_push, CommentBody, TextFrame,
  ChatRoomMessage,
}
use apipro.Codec.Cipher.{Aes}
use apipro.Models.{DbError, UserTable}
use apipro.Session.{SessionStore}
use apipro.Session.Env.{World}
use apipro.Sms.{Strings}

-- A connection: the session it is bound to, its mutes, the times of its messages and the frames that
-- wait in its channel, the oldest first.
pub record Client : Type 0 where
  pub uid : ℤ
  pub nick_name : Text
  pub icon : Text
  pub is_guest : Bool
  pub authenticated : Bool
  pub ip : Text
  pub muted_rooms : Text → Bool
  pub send_times : List ℕ
  pub send : List Text
  -- the connection is closed, and the read pump has ended
  pub closed : Bool
  pub ended : Bool

abbrev pub new_client : Text → Client
new_client ip = record {
  uid = pos 0;
  nick_name = [];
  icon = [];
  is_guest = false;
  authenticated = false;
  ip = ip;
  muted_rooms = λ room. false;
  send_times = [];
  send = [];
  closed = false;
  ended = false;
}

-- The hub with its clients; `leaving` are the calls of `unregisterAll` that run as goroutines of
-- their own.
pub record Server (Db : Type 0) : Type 0 where
  pub db : Db
  pub hub : Hub
  pub client : ℕ → Client
  pub leaving : List ℕ

-- The commands on Redis's lists and sets.
pub record Collections (Db : Type 0) : Type 0 where
  pub lpush : Text → Text → Db → Db × Result ℕ ℤ
  pub ltrim : Text → ℤ → ℤ → Db → Db × Result ℕ (Unit {0})
  pub lrange : Text → ℤ → ℤ → Db → Db × Result ℕ (List Text)
  pub sismember : Text → Text → Db → Db × Result ℕ Bool

pub record MessageTable (Db : Type 0) : Type 0 where
  pub insert : ChatRoomMessage → Db → Db × Result ℕ (Unit {0})
  pub list_recent_by_room : Text → ℤ → Db → Db × Result ℕ (List ChatRoomMessage)

-- What the hub takes from outside, and its settings. Redis is connected: without it a login
-- dereferences a nil client.
pub record Services (w : World) : Type 0 where
  pub max_msg_len : ℤ
  pub history_lim : ℤ
  pub rate_per_min : ℤ
  pub req_key : Text
  pub resp_key : Text
  pub aes : Aes
  pub sessions : SessionStore
  pub collections : Collections w.redis.Db
  pub chat_messages : Option (MessageTable w.redis.Db)
  pub rooms_model : Option (Text → w.redis.Db → w.redis.Db × Result DbError LiveRoom)
  pub users_model : Option (UserTable w.redis.Db)
  -- `time.Now()` in nanoseconds and in milliseconds
  pub unix_nano : w.redis.Db → ℕ
  pub unix_milli : w.redis.Db → ℕ
  pub strings : Strings
  -- `json.Marshal`, and `json.Unmarshal` into a zero value, whose error is dropped
  pub marshal : Body → Text
  pub marshal_text_frame : TextFrame → Text
  pub parse_key : Text → Text
  pub parse_room : Text → Text
  pub parse_comment : Text → CommentBody
  pub parse_text_frame : Text → Option TextFrame

-- A setting that is not positive takes its default.
abbrev or_default : ℤ → ℕ → ℤ
or_default n d = if ltb_ℤ (pos 0) n then n else pos d

-- `NewHub`, as for the settings.
unfoldable pub new_settings : {w : World} → Services w → Services w
new_settings v = record v {
  max_msg_len = or_default v.max_msg_len 500;
  history_lim = or_default v.history_lim 50;
  rate_per_min = or_default v.rate_per_min 60;
}

abbrev pub default_send_queue_size : ℕ
default_send_queue_size = 256

-- `case c.send <- frame: default:` on the channel of a client.
unfoldable pub try_send : Text → Client → Client
try_send frame x =
    if ltb (length x.send) default_send_queue_size
    then record x { send = x.send ++ frame ∷ [] }
    else x

module _ {Db : Type 0} where
  abbrev pub set_client : ℕ → Client → Server Db → Server Db
  set_client c x s = record s { client = λ d. if c == d then x else s.client d }

  unfoldable pub send_frame : ℕ → Text → Server Db → Server Db
  send_frame c frame s = set_client c (try_send frame (s.client c)) s

  -- The loop of `broadcast`: a client whose channel is full is taken out by a goroutine.
  unfoldable pub send_all : List ℕ → Text → Server Db → Server Db
  send_all [] frame s = s
  send_all (c ∷ cs) frame s = send_all cs frame (
      if ltb (length (s.client c).send) default_send_queue_size
      then send_frame c frame s
      else record s { leaving = s.leaving ++ c ∷ [] })

module _ (w : World) (v : Services w) where
  open w use {redis}
  open redis use {Db}

  unfoldable pub frame_of : ℕ → Text → Text
  frame_of op body = encode_binary_frame v.aes op body v.resp_key

  unfoldable pub send_binary : ℕ → ℕ → Text → Server Db → Server Db
  send_binary c op body s = send_frame c (frame_of op body) s

  unfoldable pub send_error : ℕ → ℕ → Notice → Server Db → Server Db
  send_error c code msg s = send_binary c op_error (v.marshal (error code msg)) s

  unfoldable pub broadcast : Text → ℕ → Text → Server Db → Server Db
  broadcast room op body s = send_all (clients (s.hub.rooms room)) (frame_of op body) s

  -- The counts of the database, where the room is found there.
  abbrev with_visits : ℤ → Db × Result DbError LiveRoom → Db × ℤ
  with_visits n (db, ok r) = (db, add_int64 n (add_int64 r.visit_count r.fictitious_visit_count))
  with_visits n (db, err e) = (db, n)

  abbrev found_visits : Option (Text → Db → Db × Result DbError LiveRoom) → Text → ℤ → Db → Db × ℤ
  found_visits none room n db = (db, n)
  found_visits (some find_by_room_num) room n db = with_visits n (find_by_room_num room db)

  unfoldable pub view_count : Text → Server Db → Db × ℤ
  view_count room s = found_visits v.rooms_model room (pos (room_size s.hub room)) s.db

  unfoldable pub broadcast_view_num : Text → Server Db → Server Db
  broadcast_view_num room s =
      let counted = view_count room s in
      broadcast room op_view_num_push (v.marshal (view_num room counted.1))
        record s { db = counted.0 }
