-- ===== src/Chat/Refusals.antt =====
-- Who is heard: what a comment that is delivered has passed, and what one that is refused leaves alone.
use apipro.Base.{
  ℕ, ◌≡◌, refl, sym, ap, subst, ◌∙◌, Bool, true, false, not, Text, ℤ, pos, ltb_ℤ, Option, none,
  some, ◌==◌, ◌⊎◌, inl, inr, Bool-cases, text_eq, codes, arith,
}
use apipro.Chat.{allow_send}
use apipro.Chat.Comments.{publish, handle_comment}
use apipro.Chat.Content.{sanitize, match_blockword}
use apipro.Chat.Endings.{
  Ends, Ends-bind, Ends-ensure, Ends-here, Ends-return, Ends-on_db, Ends-change, Ends-weaken,
  Ends-self,
}
use apipro.Chat.Server.{Server, Services, send_error, send_binary, send_frame}
use apipro.Chat.Sets.{has}
use apipro.Chat.Speaking.{
  user_active, active, listed, member, count, shortened, ip_allowed, address_allowed, may_speak,
  rate_allows, admitted_content,
}
use apipro.Chat.Steps.{M, ◌>>=◌, ◌>>◌, return, here, on_db, ensure, fail, logged_in}
use apipro.Chat.Wire.{
  Notice, CommentBody, err_code_muted, err_code_sensitive_word, rate_limited, sensitive,
}
use apipro.Models.{UserTable, find_by_uid}
use apipro.Rpc.Auth.{no_text}
use apipro.Session.Env.{World}

true_of_not : (b : Bool) → not b ≡ true → b ≡ false
true_of_not b h = ground arith

module _ (w : World) (v : Services w) (c : ℕ) (s : Server w.redis.Db) where
  open w use {redis}
  open redis use {Db}

  -- Nothing has changed for the other clients, nor who is in which room.
  abbrev pub Quiet : Server Db → Type 0
  Quiet s' =
      ((d : ℕ) → (c == d) ≡ false → s'.client d ≡ s.client d)
      × (s'.hub ≡ s.hub)
      × (s'.leaving ≡ s.leaving)

  -- Only the environment has moved on.
  abbrev At : Server Db → Type 0
  At s' = (db : Db) × (s' ≡ record s { db = db })

  -- The server after the look at the user's status, and after the look at the address.
  abbrev known_at : Server Db
  known_at = (user_active w v c v.users_model (s.client c).uid s).0

  abbrev placed_at : Server Db
  placed_at = (address_allowed w v c (s.client c).ip known_at).0

  -- What a comment has passed when it goes out.
  pub record Heard (b : CommentBody) : Type 0 where
    pub logged : (s.client c).authenticated ≡ true
    pub inside : has text_eq b.room_num (s.hub.rooms_of c) ≡ true
    pub member : (s.client c).is_guest ≡ false
    pub unmuted : (s.client c).muted_rooms b.room_num ≡ false
    -- the user's status, looked up at once, is 1 or not known
    pub in_good_standing : (user_active w v c v.users_model (s.client c).uid s).1 ≡ some true
    -- the looks for the address, which come next, let it pass
    pub address : (address_allowed w v c (s.client c).ip known_at).1 ≡ some tt
    -- fewer than the limit were sent in the last minute, by the clock after these looks
    pub in_time :
        (allow_send (count v.rate_per_min) (v.unix_nano placed_at.db) (s.client c).send_times).1
        ≡ true
    pub not_blank : no_text (sanitize v.strings b.content) ≡ false
    pub clean :
        match_blockword v.strings (shortened v.max_msg_len (sanitize v.strings b.content)) ≡ false

  quiet_fail :
      (code : ℕ) (msg : Notice) (s' : Server Db) → Quiet s' → Quiet (send_error w v c code msg s')
  unfolding send_error send_binary send_frame
  quiet_fail code msg s' (same, hub, leaving) = (λ d e. rw e (same d e), hub, leaving)

  quiet_at : (db : Db) → Quiet record s { db = db }
  quiet_at db = (λ d e. refl, refl, refl)

  module _ (db : Db) where
    abbrev s_db : Server Db
    s_db = record s { db = db }

    fail_at : (code : ℕ) (msg : Notice) → Quiet (send_error w v c code msg s_db)
    fail_at code msg = quiet_fail code msg s_db (quiet_at db)

    -- A look at the environment.
    looked :
        {A : Type 0} (f : Db → Db × A) → Ends (on_db f) s_db Quiet (λ a s'. (a ≡ (f db).1) × At s')
    looked f = Ends-weaken (Ends-on_db f s_db) (λ a s' (e, e'). (e, ((f db).0, e')))

    listed_ends : (key ip : Text) → Ends (listed w v c key ip) s_db Quiet (λ b s'. At s')
    listed_ends key ip =
        Ends-bind (looked (v.collections.sismember key ip))
          (λ r s' (e, at). Ends-weaken (Ends-return (member r) s') (λ b s'' (e', e''). rw e'' at))

    -- The chain goes on where the test holds.
    past :
        {B : Type 0} (b : Bool) (code : ℕ) (msg : Notice) (f : Unit {0} → M Db B)
        {Q : B → Server Db → Type 0}
        → (b ≡ true → Ends (f tt) s_db Quiet Q)
        → Ends (ensure b (send_error w v c code msg) >>= f) s_db Quiet Q
    past b code msg f {Q} k =
        Ends-bind (Ends-ensure b (send_error w v c code msg) s_db (λ e. fail_at code msg))
          (λ u s' (e, e'). subst (λ x. Ends (f u) x Quiet Q) (sym e') (k e))

  -- A chain that goes on wherever the environment has moved to.
  from_at :
      {A : Type 0} {m : M Db A} {Q : A → Server Db → Type 0} (s' : Server Db)
      → At s'
      → ((db : Db) → s' ≡ record s { db = db } → Ends m record s { db = db } Quiet Q)
      → Ends m s' Quiet Q
  from_at {m = m} {Q = Q} s' (db, e) k = subst (λ x. Ends m x Quiet Q) (sym e) (k db e)

  ip_allowed_ends :
      (db : Db) (ip : Text) → Ends (ip_allowed w v c ip) record s { db = db } Quiet (λ u s'. At s')
  unfolding ip_allowed
  ip_allowed_ends db ip = Ends-bind (listed_ends db (codes "ban:ip:list") ip) (λ banned s1 at.
      from_at s1 at (λ db1 eq1. past db1 (not banned) _ _ _ (λ e.
        Ends-bind (listed_ends db1 (codes "black:ip:list") ip) (λ black s2 at'.
          from_at s2 at' (λ db2 eq2.
            Ends-weaken (Ends-ensure (not black) _ (record s { db = db2 }) (λ e. fail_at db2 _ _))
              (λ u s3 (e, e'). (db2, e')))))))

  address_allowed_ends :
      (db : Db) (ip : Text)
      → Ends (address_allowed w v c ip) record s { db = db } Quiet (λ u s'. At s')
  unfolding address_allowed
  address_allowed_ends db ip = elim (Bool-cases (no_text ip)) [
    | inl e ↦ rw e (Ends-weaken (Ends-return tt (record s { db = db })) (λ u s' (e, e'). (db, e')))
    | inr e ↦ rw e (ip_allowed_ends db ip)
  ]

  user_active_ends :
      (o : Option (UserTable Db)) (uid : ℤ) → Ends (user_active w v c o uid) s Quiet (λ b s'. At s')
  user_active_ends none uid = Ends-weaken (Ends-return true s) (λ b s' (e, e'). (s.db, e'))
  user_active_ends (some users) uid = elim (Bool-cases (ltb_ℤ (pos 0) uid)) [
    | inl e ↦ rw e (
        Ends-bind (looked s.db (find_by_uid users uid)) (λ found s1 (e, at).
          Ends-weaken (Ends-return (active found) s1) (λ b s2 (e', e''). rw e'' at)))
    | inr e ↦ rw e (Ends-weaken (Ends-return true s) (λ b s' (e, e'). (s.db, e')))
  ]

  -- What is known of a client that may speak in a room.
  abbrev Allowed : Text → Type 0
  Allowed room =
      (has text_eq room (s.hub.rooms_of c) ≡ true)
      × ((s.client c).is_guest ≡ false)
      × ((s.client c).muted_rooms room ≡ false)
      × ((user_active w v c v.users_model (s.client c).uid s).1 ≡ some true)
      × ((address_allowed w v c (s.client c).ip known_at).1 ≡ some tt)

  past_here :
      {B : Type 0} (f : Server Db → M Db B) {Q : B → Server Db → Type 0}
      → Ends (f s) s Quiet Q
      → Ends (here >>= f) s Quiet Q
  unfolding here
  past_here f h = record { at_none = h.at_none; at_some = h.at_some }

  may_speak_ends :
      (room : Text)
      → Ends (may_speak w v c room) s Quiet (λ u s'. Allowed room × At s' × (s' ≡ placed_at))
  unfolding may_speak
  may_speak_ends room = past s.db (not (no_text room)) _ _ _ (λ h0. past_here _ (
      past s.db (has text_eq room (s.hub.rooms_of c)) _ _ _ (λ h1.
        past s.db (not (s.client c).is_guest) _ _ _ (λ h2.
          past s.db (not ((s.client c).muted_rooms room)) _ _ _ (λ h3.
            Ends-bind (Ends-self (user_active_ends v.users_model (s.client c).uid))
              (λ known s1 (e4, st, at). from_at s1 at (λ db eq. past db known _ _ _ (λ h5.
                Ends-weaken (Ends-self (address_allowed_ends db (s.client c).ip))
                  (λ u s2 (e6, st2, at').
                    let here_now : record s { db = db } ≡ known_at = sym eq ∙ st in
                    (
                      (
                        h1,
                        true_of_not (s.client c).is_guest h2,
                        true_of_not ((s.client c).muted_rooms room) h3,
                        e4 ∙ ap some h5,
                        subst
                            (λ (x : Server Db).
                              (address_allowed w v c (s.client c).ip x).1 ≡ some tt)
                            here_now e6,
                      ),
                      at',
                      st2
                          ∙ ap (λ (x : Server Db). (address_allowed w v c (s.client c).ip x).0)
                              here_now,
                    ))))))))))

  logged_in_ends :
      Ends (logged_in w v c) s Quiet (λ u s'. ((s.client c).authenticated ≡ true) × (s' ≡ s))
  unfolding logged_in
  logged_in_ends = past_here _ (Ends-ensure (s.client c).authenticated _ s (λ e. fail_at s.db _ _))

  -- What is known of content that is let through.
  abbrev Passed : Text → Text → Db → Type 0
  Passed raw content db =
      (no_text (sanitize v.strings raw) ≡ false)
      × (content ≡ shortened v.max_msg_len (sanitize v.strings raw))
      × ((allow_send (count v.rate_per_min) (v.unix_nano db) (s.client c).send_times).1 ≡ true)
      × (match_blockword v.strings content ≡ false)

  rate_ends :
      (db : Db)
      → Ends
          (rate_allows w v c)
          record s { db = db }
          Quiet
          (λ a s'.
            (a ≡ (allow_send (count v.rate_per_min) (v.unix_nano db) (s.client c).send_times).1)
            × Quiet s')
  unfolding rate_allows
  rate_ends db = record {
    at_none = λ e. cc;
    at_some = λ a e. (sym (cc e), (λ d ne. rw ne, refl, refl));
  }

  -- The guards past the look for blank content.
  abbrev allowed_content : Text → M Db Text
  allowed_content raw = do
    let content = shortened v.max_msg_len (sanitize v.strings raw)
    allowed ← rate_allows w v c
    ensure allowed (fail w v c err_code_muted rate_limited)
    ensure (not (match_blockword v.strings content)) (fail w v c err_code_sensitive_word sensitive)
    return content

  admitted_content_ends :
      (raw : Text) (db : Db)
      → Ends
          (admitted_content w v c raw)
          record s { db = db }
          Quiet
          (λ content s'. Passed raw content db)
  unfolding admitted_content
  admitted_content_ends raw db =
      let whole = sanitize v.strings raw in
      let content = shortened v.max_msg_len whole in
      Ends-bind (Ends-ensure (not (no_text whole)) _ (record s { db = db }) (λ e. quiet_at db))
        (λ u s1 (h0, e1).
          subst (λ x. Ends (allowed_content raw) x Quiet (λ a s'. Passed raw a db)) (sym e1)
            (Ends-bind (rate_ends db) (λ allowed s2 (e2, q).
              Ends-bind (Ends-ensure allowed _ s2 (λ e. quiet_fail _ _ s2 q)) (λ u s3 (h3, e3).
                let q3 = subst Quiet (sym e3) q in
                Ends-bind
                  (Ends-ensure (not (match_blockword v.strings content)) _ s3
                    (λ e. quiet_fail _ _ s3 q3))
                  (λ u s4 (h4, e4). Ends-weaken (Ends-return content s4) (λ a s5 (e5, e6). (
                    true_of_not (no_text whole) h0,
                    e5,
                    sym e2 ∙ h3,
                    rw e5 (true_of_not (match_blockword v.strings content) h4),
                  )))))))

  handle_comment_ends :
      (body : Text)
      → Ends (handle_comment w v c body) s Quiet (λ u s'. Heard (v.parse_comment body))
  unfolding handle_comment publish
  handle_comment_ends body =
      let b = v.parse_comment body in
      Ends-bind logged_in_ends (λ u s1 (h1, e1).
        subst
          (λ x.
            Ends
              (may_speak w v c b.room_num >> (admitted_content w v c b.content >>= publish w v c b))
              x Quiet (λ u s'. Heard b))
          (sym e1)
          (Ends-bind (may_speak_ends b.room_num) (λ u s2 ((i, g, m, k, a), at, st).
            from_at s2 at (λ db eq.
              Ends-bind (admitted_content_ends b.content db) (λ content s3 (nb, e, r, cl).
                Ends-bind (Ends-here s3) (λ s3' s4 e4. Ends-bind (Ends-on_db _ s4) (λ drawn s5 e5.
                  Ends-weaken (Ends-change _ s5) (λ u s6 e6. record {
                    logged = h1;
                    inside = i;
                    member = g;
                    unmuted = m;
                    in_good_standing = k;
                    address = a;
                    in_time =
                        subst
                          (λ (x : Server Db).
                            (allow_send (count v.rate_per_min) (v.unix_nano x.db)
                              (s.client c).send_times).1
                            ≡ true)
                          (sym eq ∙ st) r;
                    not_blank = nb;
                    clean = rw e at cl;
                  }))))))))

  outcome : (o : Option (Unit {0})) → (o ≡ none) ⊎ (o ≡ some tt)
  outcome none = inl refl
  outcome (some tt) = inr refl

  -- A comment either changes nothing for any other client, nor who is in which room, or has passed every
  -- check, one after the other: its sender has logged in, is in the room, is no guest and not muted there;
  -- the user's status is 1, or not known; the looks in the two lists of addresses, where the address is
  -- known and Redis answers, do not find it; fewer messages than the limit were sent in the minute before;
  -- and the content is neither blank nor has a blocked word.
  pub handle_comment-Heard :
      (body : Text) → Quiet (handle_comment w v c body s).0 ⊎ Heard (v.parse_comment body)
  handle_comment-Heard body = elim (outcome (handle_comment w v c body s).1) [
    | inl e ↦ inl ((handle_comment_ends body).at_none e)
    | inr e ↦ inr ((handle_comment_ends body).at_some tt e)
  ]
