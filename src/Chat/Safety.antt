-- ===== src/Chat/Safety.antt =====
-- The invariant over everything that a server meets.
use apipro.Base.{
  ℕ, ◌≤◌, true, not, ◌&&◌, List, [], ◌∷◌, Text, Option, none, some, Result, ok, err, length, ◌==◌,
  arith,
}
use apipro.Chat.{unregister_all}
use apipro.Chat.Frame.{FrameError, is_frame, read_frame}
use apipro.Chat.Guarding.{Grows-fail}
use apipro.Chat.Routing.{dispatch-Keeps}
use apipro.Chat.Membership.{run, run-Inv}
use apipro.Chat.Sets.{has}
use apipro.Chat.Serve.{
  Event, message, read_error, drop_slow, written, dispatched, text_dispatched, take_out, rest_of,
  handle_binary_frame, handle_json_text_frame, close_down, serve, serve_all, new_server, notice_of,
}
use apipro.Chat.Server.{Server, Services, set_client}
use apipro.Chat.Sound.{
  Sound, Grows, Grows-Relation, Grows-set_client, Grows-unregister_all, Grows-if,
}
use apipro.Chat.Wire.{TextFrame, op_comment}
use apipro.Rpc.Auth.{no_text}
use apipro.Session.Env.{World}

rest_of_size : (fs : List Text) → length fs ≤ 256 → length (rest_of fs) ≤ 256
rest_of_size [] h = h
rest_of_size (f ∷ fs) h = omega arith

module _ (w : World) (v : Services w) where
  open w use {redis}
  open redis use {Db}

  dispatched-Keeps :
      (c : ℕ) (r : Result FrameError (ℕ × Text)) (s : Server Db) → Grows s (dispatched w v c r s)
  dispatched-Keeps c (ok (op, body)) s = (dispatch-Keeps w v c op body).keeps s
  dispatched-Keeps c (err e) s = Grows-fail w v c _ (notice_of e) s

  text_dispatched-Keeps :
      (c : ℕ) (o : Option TextFrame) (s : Server Db) → Grows s (text_dispatched w v c o s)
  text_dispatched-Keeps c none s = Grows-Relation.still s
  text_dispatched-Keeps c (some msg) s =
      let body = v.marshal_text_frame msg in
      Grows-if (msg.op == 0) s _ _
        (Grows-if (no_text msg.content) s _ _ (Grows-Relation.still s)
          ((dispatch-Keeps w v c op_comment body).keeps s))
        ((dispatch-Keeps w v c msg.op body).keeps s)

  close_down-Keeps : (c : ℕ) (s : Server Db) → Grows s (close_down w v c s)
  unfolding close_down
  close_down-Keeps c s =
      let s' = record s { hub = unregister_all c s.hub } in
      let x = record (s.client c) { closed = true; ended = true } in
      Grows-Relation.chain s s' (set_client c x s') (Grows-unregister_all c s)
        (Grows-set_client c x s' (λ e. e) (λ h. h))

  take_out-Keeps : (cs : List ℕ) (s : Server Db) → Grows s (take_out w v cs s)
  take_out-Keeps [] s = Grows-Relation.still s
  take_out-Keeps (c ∷ cs) s = Grows-unregister_all c s

  serve-Keeps : (e : Event) (s : Server Db) → Grows s (serve w v e s)
  unfolding serve handle_binary_frame handle_json_text_frame
  serve-Keeps (message c held binary text) s =
      Grows-if (s.client c).ended s _ _ (Grows-Relation.still s) (
        Grows-if ((s.client c).closed && not held) s _ _ (close_down-Keeps c s) (
          Grows-if (binary && is_frame text) s _ _
            (dispatched-Keeps c (read_frame v.aes text v.req_key) s)
            (text_dispatched-Keeps c (v.parse_text_frame text) s)))
  serve-Keeps (read_error c) s =
      Grows-if (s.client c).ended s _ _ (Grows-Relation.still s) (close_down-Keeps c s)
  serve-Keeps drop_slow s = take_out-Keeps s.leaving s
  serve-Keeps (written c) s = Grows-set_client c _ s (λ e. e) (rest_of_size (s.client c).send)

  Sound-serve_all : (es : List Event) (s : Server Db) → Sound s → Sound (serve_all w v es s)
  unfolding serve_all
  Sound-serve_all [] s h = h
  Sound-serve_all (e ∷ es) s h = Sound-serve_all es (serve w v e s) ((serve-Keeps e s).0 h)

  -- Whatever the clients send, and in whichever order messages, ends of connections, writes and the
  -- goroutines for slow clients come: the hub and the clients agree on who is in which room, no room
  -- stands empty, who is in a room has logged in, and no channel holds more than 256 frames.
  pub serve_all-Sound :
      (es : List Event) (db : Db) (ip_of : ℕ → Text)
      → Sound (serve_all w v es (new_server db ip_of))
  unfolding run has
  serve_all-Sound es db ip_of =
      Sound-serve_all es (new_server db ip_of) (run-Inv [], λ room c e. cc, λ c. omega arith)
