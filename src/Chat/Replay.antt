-- ===== src/Chat/Replay.antt =====
-- The history in Redis against its specification, the last messages in the order of sending.
use mathlib.Core.List.{reverse-cons, append_assoc, append-nil}
use apipro.Base.{
  ℕ, suc, ◌+◌, ◌-◌, ◌<◌, ◌≤◌, ◌≡◌, ◌≢◌, refl, sym, ap, ◌∙◌, List, [], ◌∷◌, ◌++◌, map, reverse, Text,
  pos, ok, length, length-append, take, ◌==◌, length-take, ltb, arith, Bool-cases, inl, inr, true,
  last, take-take_le, take_more-take, length-reverse, reverse-take-reverse, take_none, take_some,
  take_nil,
}
use apipro.Redis.{IsOk}
use apipro.Chat.History.{history_key, persist_history, recent, replay_frames, replay_history}
use apipro.Chat.Server.{
  Server, Services, Client, Collections, try_send, frame_of, default_send_queue_size,
}
use apipro.Chat.Wire.{op_comment_push}
use apipro.Session.Env.{World}

-- What is relied on: a command on a list that reports success has done what is documented, and a time
-- to live that is not 0 leaves the lists alone.
pub record ListLaws (w : World) (collections : Collections w.redis.Db) : Type 0 where
  pub list_at : Text → w.redis.Db → List Text
  pub lpush-list_at :
      (k x : Text) (db : w.redis.Db)
      → IsOk (collections.lpush k x db).1
      → list_at k (collections.lpush k x db).0 ≡ x ∷ list_at k db
  pub ltrim-list_at :
      (k : Text) (stop : ℕ) (db : w.redis.Db)
      → IsOk (collections.ltrim k (pos 0) (pos stop) db).1
      → list_at k (collections.ltrim k (pos 0) (pos stop) db).0 ≡ take (suc stop) (list_at k db)
  pub lrange-list_at :
      (k : Text) (stop : ℕ) (db : w.redis.Db) (xs : List Text)
      → (collections.lrange k (pos 0) (pos stop) db).1 ≡ ok xs
      → xs ≡ take (suc stop) (list_at k db)
  pub expire_keeps :
      (k j : Text) (n : ℕ) (db : w.redis.Db)
      → 0 < n
      → list_at k (w.redis.expire j n db).0 ≡ list_at k db

-- What a replay leaves in the channel: as many of the frames as still fit.
send-replay_frames :
    (frames : List Text) (x : Client)
    → length x.send ≤ default_send_queue_size
    → (replay_frames frames x).send
      ≡ x.send ++ take (default_send_queue_size - length x.send) frames
unfolding replay_frames try_send
send-replay_frames [] x h =
    sym (ap (λ l. x.send ++ l) (take_nil (256 - length x.send)) ∙ append-nil x.send)
send-replay_frames (f ∷ fs) x h = elim (Bool-cases (ltb (length x.send) default_send_queue_size)) [
  | inl e ↦
      let small : length x.send < 256 = ground arith in
      let x' = record x { send = x.send ++ f ∷ [] } in
      let size : length (x.send ++ f ∷ []) ≡ length x.send + 1 = length-append x.send (f ∷ []) in
      let less : 256 - length (x.send ++ f ∷ []) ≡ 256 - length x.send - 1 = omega arith in
      rw e (
        send-replay_frames fs x' (omega arith)
        ∙ append_assoc x.send (f ∷ []) (take (256 - length (x.send ++ f ∷ [])) fs)
        ∙ ap (λ k. x.send ++ f ∷ take k fs) less
        ∙ ap (λ l. x.send ++ l) (sym (take_some (256 - length x.send) f fs (omega arith))))
  | inr e ↦
      let full : 256 - length x.send ≡ 0 = ground arith in
      rw e (
        sym (
          ap (λ l. x.send ++ l) (take_none (256 - length x.send) (f ∷ fs) full)
          ∙ append-nil x.send))
]

module _ (w : World) (v : Services w) (laws : ListLaws w v.collections) (room : Text) (n : ℕ)
    (limit : v.history_lim ≡ pos (suc n)) where
  open w use {redis}
  open redis use {Db}
  open v use {collections}
  open laws use {list_at}

  abbrev key : Text
  key = history_key room

  -- Both commands on the list report success.
  abbrev Stored : Text → Db → Type 0
  Stored body db =
      let pushed = collections.lpush key body db in
      IsOk pushed.1 × IsOk (collections.ltrim key (pos 0) (pos n) pushed.0).1

  unfoldable pub persist_all : List Text → Db → Db
  persist_all [] db = db
  persist_all (b ∷ bs) db = persist_all bs (persist_history w v room b db)

  abbrev pub AllStored : List Text → Db → Type 0
  AllStored [] db = Unit {0}
  AllStored (b ∷ bs) db = Stored b db × AllStored bs (persist_history w v room b db)

  list_at-persist_history :
      (body : Text) (db : Db)
      → Stored body db
      → list_at key (persist_history w v room body db) ≡ take (suc n) (body ∷ list_at key db)
  unfolding persist_history
  list_at-persist_history body db (h, h') =
      let pushed = collections.lpush key body db in
      rw limit (
        laws.expire_keeps key key 86400 (collections.ltrim key (pos 0) (pos n) pushed.0).0
          (omega arith)
        ∙ laws.ltrim-list_at key n pushed.0 h'
        ∙ ap (take (suc n)) (laws.lpush-list_at key body db h))

  list_at-persist_all :
      (bs : List Text) (db : Db) (old : List Text)
      → list_at key db ≡ take (suc n) old
      → AllStored bs db
      → list_at key (persist_all bs db) ≡ take (suc n) (reverse bs ++ old)
  unfolding persist_all
  list_at-persist_all [] db old e h = e
  list_at-persist_all (b ∷ bs) db old e (h, hs) =
      let now = persist_history w v room b db in
      let one : list_at key now ≡ take (suc n) (b ∷ old) =
        list_at-persist_history b db h
        ∙ ap (λ l. take (suc n) (b ∷ l)) e
        ∙ ap (λ l. b ∷ l) (take-take_le n (suc n) old (omega arith)) in
      list_at-persist_all bs now (b ∷ old) one hs
      ∙ ap (take (suc n)) (
          sym (append_assoc (reverse bs) (b ∷ []) old)
          ∙ ap (λ l. l ++ old) (sym (reverse-cons b bs)))

  -- The list is not empty, so that the table is not asked.
  recent_lem :
      (db : Db) (b : Text) (bs : List Text)
      → (collections.lrange key (pos 0) v.history_lim db).1 ≡ ok (b ∷ bs)
      → (recent w v room db).1 ≡ b ∷ bs
  unfolding recent
  recent_lem db b bs h = rw (h, recent) refl

  stored :
      (bs : List Text) (db : Db) (xs : List Text)
      → list_at key db ≡ []
      → AllStored bs db
      → (collections.lrange key (pos 0) v.history_lim (persist_all bs db)).1 ≡ ok xs
      → xs ≡ take (suc n) (reverse bs)
  stored bs db xs e h got =
      let now = persist_all bs db in
      let full : list_at key now ≡ take (suc n) (reverse bs) =
        list_at-persist_all bs db [] e h ∙ ap (take (suc n)) (append-nil (reverse bs)) in
      laws.lrange-list_at key (suc n) now xs (rw limit at got)
      ∙ ap (take (suc (suc n))) full
      ∙ take_more-take (suc n) (reverse bs)

  replayed_lem :
      (s : Server Db) (c : ℕ) (b : Text) (bs : List Text)
      → length (s.client c).send ≤ default_send_queue_size
      → (collections.lrange key (pos 0) v.history_lim s.db).1 ≡ ok (b ∷ bs)
      → ((replay_history w v c room s).client c).send
        ≡ (s.client c).send
          ++ take
              (default_send_queue_size - length (s.client c).send)
              (map (frame_of w v op_comment_push) (reverse (b ∷ bs)))
  unfolding replay_history
  replayed_lem s c b bs small got =
      let me : (c == c) ≡ true = ground arith in
      rw (me, recent_lem s.db b bs got)
        (send-replay_frames (map (frame_of w v op_comment_push) (reverse (b ∷ bs))) (s.client c)
          small)

  -- A room's history in Redis, empty at first, to which messages are added by commands that all report
  -- success, is replayed to a client as the last `history_lim` of the messages, in the order of sending,
  -- as far as they still fit in the client's channel.
  pub replay_history-persist_all :
      (s : Server Db) (c : ℕ) (bs : List Text) (db : Db) (xs : List Text)
      → bs ≢ []
      → list_at key db ≡ []
      → AllStored bs db
      → s.db ≡ persist_all bs db
      → (collections.lrange key (pos 0) v.history_lim s.db).1 ≡ ok xs
      → length (s.client c).send ≤ default_send_queue_size
      → ((replay_history w v c room s).client c).send
        ≡ (s.client c).send
          ++ take
              (default_send_queue_size - length (s.client c).send)
              (map (frame_of w v op_comment_push) (last (suc n) bs))
  replay_history-persist_all s c [] db xs some_sent e h at_db got small = absurd (some_sent refl)
  replay_history-persist_all s c (b ∷ bs) db [] some_sent e h at_db got small =
      let kept = stored (b ∷ bs) db [] e h (rw at_db at got) in
      absurd (
        omega
          (arith, ap length kept, length-take (suc n) (reverse (b ∷ bs)), length-reverse (b ∷ bs)))
  replay_history-persist_all s c (b ∷ bs) db (y ∷ ys) some_sent e h at_db got small =
      let kept = stored (b ∷ bs) db (y ∷ ys) e h (rw at_db at got) in
      replayed_lem s c y ys small got
      ∙ ap
          (λ l.
            (s.client c).send
            ++ take (default_send_queue_size - length (s.client c).send)
                (map (frame_of w v op_comment_push) l))
          (ap reverse kept ∙ reverse-take-reverse (suc n) (b ∷ bs))
