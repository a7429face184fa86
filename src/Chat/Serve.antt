-- ===== src/Chat/Serve.antt =====
-- The read and write pumps, and the text frames of the old page.
use apipro.Base.{
  ℕ, Bool, true, not, ◌&&◌, List, [], ◌∷◌, Text, Option, none, some, Result, ok, err, ◌==◌,
  if◌then◌else◌,
}
use apipro.Chat.{new_hub, unregister_all}
use apipro.Chat.Dispatch.{dispatch}
use apipro.Chat.Frame.{
  FrameError, short_frame, frame_mismatch, decrypt_failed, is_frame, read_frame,
}
use apipro.Chat.Server.{Server, Services, new_client, set_client, send_error}
use apipro.Chat.Wire.{
  op_comment, err_code_unauthorized, Notice, invalid_frame, length_mismatch, decrypt_refused,
  TextFrame,
}
use apipro.Rpc.Auth.{no_text}
use apipro.Session.Env.{World}

abbrev pub notice_of : FrameError → Notice
notice_of short_frame = invalid_frame
notice_of frame_mismatch = length_mismatch
notice_of decrypt_failed = decrypt_refused

-- What the server meets: a message, with whether the reader of the socket held it already and whether it
-- is binary; the end of a connection; the turn of a goroutine
-- that takes a slow client out; a frame that is written to a socket.
pub data Event : Type 0 where
  message : ℕ → Bool → Bool → Text → Event
  read_error : ℕ → Event
  drop_slow : Event
  written : ℕ → Event

-- The frame that `writePump` takes from the channel.
abbrev pub rest_of : List Text → List Text
rest_of [] = []
rest_of (f ∷ fs) = fs

module _ (w : World) (v : Services w) where
  open w use {redis}
  open redis use {Db}

  abbrev pub dispatched : ℕ → Result FrameError (ℕ × Text) → Server Db → Server Db
  dispatched c (ok (op, body)) s = (dispatch w v c op body s).0
  dispatched c (err e) s = send_error w v c err_code_unauthorized (notice_of e) s

  unfoldable pub handle_binary_frame : ℕ → Text → Server Db → Server Db
  handle_binary_frame c frame s = dispatched c (read_frame v.aes frame v.req_key) s

  -- The body that goes on has the fields that are not zero, which is how the codec writes the rest.
  abbrev pub text_dispatched : ℕ → Option TextFrame → Server Db → Server Db
  text_dispatched c none s = s
  text_dispatched c (some msg) s =
      if msg.op == 0
      then (if no_text msg.content
          then s
          else (dispatch w v c op_comment (v.marshal_text_frame msg) s).0)
      else (dispatch w v c msg.op (v.marshal_text_frame msg) s).0

  unfoldable pub handle_json_text_frame : ℕ → Text → Server Db → Server Db
  handle_json_text_frame c text s = text_dispatched c (v.parse_text_frame text) s

  -- The end of `readPump`.
  unfoldable pub close_down : ℕ → Server Db → Server Db
  close_down c s =
      let s' = record s { hub = unregister_all c s.hub } in
      set_client c (record (s'.client c) { closed = true; ended = true }) s'

  abbrev pub take_out : List ℕ → Server Db → Server Db
  take_out [] s = s
  take_out (c ∷ cs) s = record s { hub = unregister_all c s.hub; leaving = cs }

  -- After the connection is closed, what the reader held still comes, and then the read fails.
  unfoldable pub serve : Event → Server Db → Server Db
  serve (message c held binary text) s =
      if (s.client c).ended
      then s
      else if (s.client c).closed && not held
      then close_down c s
      else if binary && is_frame text
      then handle_binary_frame c text s
      else handle_json_text_frame c text s
  serve (read_error c) s = if (s.client c).ended then s else close_down c s
  serve drop_slow s = take_out s.leaving s
  serve (written c) s = set_client c (record (s.client c) { send = rest_of (s.client c).send }) s

  unfoldable pub serve_all : List Event → Server Db → Server Db
  serve_all [] s = s
  serve_all (e ∷ es) s = serve_all es (serve e s)

-- A server that nobody has joined; the clients have their addresses.
abbrev pub new_server : {Db : Type 0} → Db → (ℕ → Text) → Server Db
new_server db ip_of = record {
  db = db;
  hub = new_hub;
  client = λ c. new_client (ip_of c);
  leaving = [];
}
