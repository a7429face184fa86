-- ===== src/Chat/ServerTests.antt =====
-- A server over a Redis that only has lists, and the chat at work on it.
use apipro.Base.{
  suc, ◌≡◌, refl, sym, true, false, List, [], ◌∷◌, Text, ℤ, pos, none, some, ok, err, codes, arith,
  length, replicate, take, last, map, text_eq, text_eq_refl, ◌⊎◌, if◌then◌else◌,
}
use apipro.Chat.{new_hub, in_room, join_room, allow_send, since}
use apipro.Chat.Comments.{handle_comment, publish}
use apipro.Chat.Speaking.{may_speak, address_allowed, ip_allowed, admitted_content, rate_allows}
use apipro.Chat.Steps.{logged_in, here, ensure, on_db, change}
use apipro.Models.{contains, index_from, index_of}
use apipro.Chat.Content.{sanitize, escape, match_blockword, is_safe_room}
use apipro.Chat.Escaping.{inert, inert-sanitize}
use apipro.Chat.History.{replay_history, persist_history}
use apipro.Chat.Membership.{Inv, run-Inv, run, join_room-Inv}
use apipro.Chat.Refusals.{Quiet, Heard, handle_comment-Heard}
use apipro.Chat.Replay.{ListLaws, replay_history-persist_all, persist_all}
use apipro.Chat.Safety.{serve_all-Sound}
use apipro.Chat.Serve.{Event, message, read_error, drop_slow, serve_all, new_server}
use apipro.Chat.Server.{Server, Services, new_client, set_client, broadcast, frame_of}
use apipro.Chat.Sets.{has, add}
use apipro.Chat.Slow.{broadcast_slow, turns}
use apipro.Chat.Sound.{Sound}
use apipro.Chat.Wire.{op_comment_push}
use apipro.Codec.Shift.{shift}
use apipro.Redis.{Redis}
use apipro.Session.Env.{World}
use apipro.Sms.{Strings}

abbrev Lists : Type 0
Lists = Text → List Text

abbrev put : Text → List Text → Lists → Lists
put k xs db j = if text_eq k j then xs else db j

abbrev only_lists : Redis
only_lists = record {
  Db = Lists;
  get = λ k db. (db, ok []);
  set = λ k v db. (db, ok tt);
  setex = λ k v n db. (db, ok tt);
  setnx_ex = λ k v n db. (db, ok true);
  del = λ k db. (db, ok 0);
  incr = λ k db. (db, ok (pos 1));
  decr = λ k db. (db, ok (pos 0));
  expire = λ k n db. (db, ok tt);
  zremrangebyscore = λ k lo hi db. (db, ok 0);
  zcard = λ k db. (db, ok 0);
  zadd = λ k score db. (db, ok true);
}

abbrev world : World
world = record {
  redis = only_lists;
  unix = λ db. 1000;
  read_random = λ n db. (db, ok (replicate n 1));
  encode = λ s. ok [];
  decode = λ t. err 0;
}

abbrev stop_at : ℤ → List Text → List Text
stop_at (pos n) xs = take (suc n) xs
stop_at n xs = xs

abbrev strings : Strings
strings = record { trim_space = λ s. s; to_lower = λ s. s }

abbrev services : Services world
services = record {
  max_msg_len = pos 500;
  history_lim = pos 2;
  rate_per_min = pos 60;
  req_key = codes "0123456789abcdef";
  resp_key = codes "0123456789abcdef";
  aes = shift;
  sessions = record {
    connected = true;
    user_access_ttl = 1800;
    user_refresh_ttl = 2592000;
    guest_access_ttl = 1800;
  };
  collections = record {
    lpush = λ k x db. (put k (x ∷ db k) db, ok (pos 1));
    ltrim = λ k start stop db. (put k (stop_at stop (db k)) db, ok tt);
    lrange = λ k start stop db. (db, ok (stop_at stop (db k)));
    sismember = λ k x db. (db, ok false);
  };
  chat_messages = none;
  rooms_model = none;
  users_model = none;
  unix_nano = λ db. 1000;
  unix_milli = λ db. 1;
  strings = strings;
  marshal = λ body. codes "{}";
  marshal_text_frame = λ msg. [];
  parse_key = λ t. t;
  parse_room = λ t. t;
  parse_comment =
      λ t. record { room_num = codes "7"; msg_type = pos 1; content = t; send_uid = pos 0 };
  parse_text_frame = λ t. none;
}

lists_laws : ListLaws world services.collections
lists_laws = record {
  list_at = λ k db. db k;
  lpush-list_at = λ k x db h. rw (text_eq_refl k);
  ltrim-list_at = λ k stop db h. rw (text_eq_refl k);
  lrange-list_at = λ k stop db xs h. sym (cc h);
  expire_keeps = λ k j n db h. refl;
}

abbrev nobody : Server Lists
nobody = new_server (λ k. []) (λ c. codes "1.2.3.4")

-- Two messages of clients that have not logged in, and the end of a connection.
abbrev evening : List Event
evening =
    message 1 false false (codes "hi")
    ∷ message 2 true true (0x00 ∷ 0xA0 ∷ [])
    ∷ read_error 1
    ∷ drop_slow
    ∷ []

serve_all-Sound_example :
    Sound (serve_all world services evening (new_server (λ k. []) (λ c. codes "1.2.3.4")))
serve_all-Sound_example = serve_all-Sound world services evening (λ k. []) (λ c. codes "1.2.3.4")

-- Client 1 has logged in and is alone in room 7.
abbrev talking : Server Lists
talking =
    set_client 1 (record (new_client (codes "1.2.3.4")) { authenticated = true; is_guest = false })
      (record nobody { hub = join_room (codes "7") 1 new_hub })

talked : (handle_comment world services 1 (codes "hi") talking).1 ≡ some tt
unfolding handle_comment logged_in here ensure may_speak has join_room add address_allowed
    ip_allowed on_db admitted_content sanitize rate_allows allow_send since match_blockword contains
    publish change index_from index_of escape
talked = refl

handle_comment-Heard_example :
    Quiet world services 1 talking (handle_comment world services 1 (codes "hi") talking).0
    ⊎ Heard world services 1 talking (services.parse_comment (codes "hi"))
handle_comment-Heard_example = handle_comment-Heard world services 1 talking (codes "hi")

inert-sanitize_example : inert (sanitize strings (codes "<b>&")) ≡ true
inert-sanitize_example = inert-sanitize strings (codes "<b>&")

sanitized : sanitize strings (codes "<b>&") ≡ codes "&lt;b&gt;&amp;"
unfolding sanitize
sanitized = refl

-- A byte that begins no rune.
sanitized_invalid :
    sanitize strings (0xE8 ∷ 0xB5 ∷ []) ≡ 0xEF ∷ 0xBF ∷ 0xBD ∷ 0xEF ∷ 0xBF ∷ 0xBD ∷ []
unfolding sanitize
sanitized_invalid = refl

room_names : (is_safe_room (codes "1001a") ≡ true) × (is_safe_room (codes "10/01") ≡ false)
unfolding is_safe_room
room_names = (refl, refl)

-- Client 1 is in a room and has not read for long.
abbrev crowded : Server Lists
crowded =
    set_client 1 (record (new_client []) { send = replicate 256 [] })
      record nobody { hub = join_room (codes "7") 1 new_hub }

empty-Inv : Inv new_hub
unfolding run
empty-Inv = run-Inv []

broadcast_slow_example :
    let s = broadcast world services (codes "7") 3000 [] crowded in
    in_room (turns world services (length s.leaving) s).hub (codes "8") 1 ≡ false
broadcast_slow_example =
    broadcast_slow world services (codes "7") 3000 [] crowded 1
      (join_room-Inv (codes "7") 1 new_hub empty-Inv)
      (unfold has in unfold add in unfold join_room in refl) refl (codes "8")

abbrev three : List Text
three = codes "a" ∷ codes "b" ∷ codes "c" ∷ []

replay_history-persist_all_example :
    let s = record nobody {
      db = persist_all world services lists_laws (codes "7") 1 refl three (λ k. []);
    } in
    ((replay_history world services 1 (codes "7") s).client 1).send
    ≡ take 256 (map (frame_of world services op_comment_push) (last 2 three))
unfolding persist_all persist_history lists_laws
replay_history-persist_all_example =
    let db = persist_all world services lists_laws (codes "7") 1 refl three (λ k. []) in
    replay_history-persist_all world services lists_laws (codes "7") 1 refl
      (record nobody { db = db }) 1 three (λ k. []) (codes "c" ∷ codes "b" ∷ []) (λ e. cc) refl
      ((tt, tt), ((tt, tt), ((tt, tt), tt))) refl refl (omega arith)
