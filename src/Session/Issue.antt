-- ===== src/Session/Issue.antt =====
-- Issuing a session, reading it back and revoking it.
use apipro.Base.{
  ℕ, suc, ◌+◌, ◌*◌, length, ◌≤◌, ◌≡◌, ◌≢◌, refl, sym, ap, ◌∙◌, false, not, ◌||◌, [], ◌∷◌, ◌++◌,
  Text, ℤ, pos, Result, ok, err, arith, Bool-cases, text_eq, inl, inr,
}
use apipro.Session.{
  SessionStore, Error, session_not_found, set_sess, random, sess_key_prefix, refresh_key_prefix,
  is_empty, ttl_of, persist, persist_refresh, after, or_error, issue_user, user_session, past,
  loaded, found, get_session, random_hex, return, marshal,
}
use apipro.Session.Env.{Session, World, WorldLaws}
use apipro.Session.Hex.{hex, length-hex}

module _ (w : World) (laws : WorldLaws w) where
  open w use {redis, unix, decode, encode, read_random}
  open redis use {Db}
  open laws use {redis_laws}
  open redis_laws use {text}

  pub keys_apart : (a b : Text) → text_eq (refresh_key_prefix ++ b) (sess_key_prefix ++ a) ≡ false
  keys_apart a b = refl

  -- A chain of calls that succeeds has a first call that succeeds.
  pub after_ok :
      {A B : Type 0} (p : Db × Result Error A) (f : A → Db → Db × Result Error B) (b : B)
      → (after w p f).1 ≡ ok b
      → (a : A) × (p.1 ≡ ok a) × (after w p f ≡ f a p.0)
  after_ok (db, ok a) f b h = (a, refl, refl)
  after_ok (db, err e) f b h = cc

  -- Redis holds the session under its access token.
  abbrev pub Stored : Session → Db → Type 0
  Stored sess db =
      (body : Text) × (decode body ≡ ok sess)
      × (body ≢ [])
      × (text db (sess_key_prefix ++ sess.access_token) ≡ body)

  or_error_ok :
      (f : ℕ → Error) {A : Type 0} (p : Db × Result ℕ A) (a : A) (d : Db)
      → or_error w f p ≡ (d, ok a)
      → (p.1 ≡ ok a) × (p.0 ≡ d)
  or_error_ok f (db, ok b) a d h = ground arith
  or_error_ok f (db, err e) a d h = ground arith

  persist_refresh-keeps :
      (sess : Session) (a : Text) (ttl : ℕ) (db : Db)
      → text (persist_refresh w sess ttl db).0 (sess_key_prefix ++ a)
        ≡ text db (sess_key_prefix ++ a)
  unfolding persist_refresh
  persist_refresh-keeps sess a ttl db =
      let key = refresh_key_prefix ++ sess.refresh_token in
      ground (
        arith,
        redis_laws.setex_others key sess.access_token (sess_key_prefix ++ a) ttl db
            (keys_apart a sess.refresh_token),
      )

  -- The two commands of `persist`, after the session was encoded.
  abbrev stores : SessionStore → Session → Text → Db → Db × Result Error (Unit {0})
  stores s sess body db =
      after w
        (or_error w set_sess
          (redis.setex (sess_key_prefix ++ sess.access_token) body (ttl_of w s sess) db))
        (λ u. persist_refresh w sess (ttl_of w s sess))

  stored-text :
      (s : SessionStore) (sess : Session) (body : Text) (p : Db × Result ℕ (Unit {0}))
      → (p.1 ≡ ok tt → text p.0 (sess_key_prefix ++ sess.access_token) ≡ body)
      → let q = after w (or_error w set_sess p) (λ u. persist_refresh w sess (ttl_of w s sess)) in
        q.1 ≡ ok tt → text q.0 (sess_key_prefix ++ sess.access_token) ≡ body
  stored-text s sess body (db, ok tt) holds h =
      persist_refresh-keeps sess sess.access_token (ttl_of w s sess) db ∙ holds refl
  stored-text s sess body (db, err e) holds h = cc

  encoded-Stored :
      (s : SessionStore) (sess : Session) (e : Result ℕ Text) (db : Db)
      → encode sess ≡ e
      → (after w (or_error w marshal (db, e)) (stores s sess)).1 ≡ ok tt
      → Stored sess (after w (or_error w marshal (db, e)) (stores s sess)).0
  encoded-Stored s sess (err n) db known h = cc
  encoded-Stored s sess (ok body) db known h =
      let key = sess_key_prefix ++ sess.access_token in
      let (back, filled) = laws.decode-encode sess body known in
      (
        body,
        back,
        filled,
        stored-text s sess body (redis.setex key body (ttl_of w s sess) db)
            (redis_laws.setex-text key body (ttl_of w s sess) db) h,
      )

  pub persist-Stored :
      (s : SessionStore) (sess : Session) (db : Db)
      → (persist w s sess db).1 ≡ ok tt
      → Stored sess (persist w s sess db).0
  unfolding persist
  persist-Stored s sess db h = elim (Bool-cases (not s.connected)) [
    | inl e ↦ cc (rw e at h)
    | inr e ↦ rw e (encoded-Stored s sess (encode sess) db refl (rw e at h))
  ]

  found-empty :
      (p : Db × Result ℕ Text)
      → ((v : Text) → p.1 ≡ ok v → v ≡ [])
      → (found w p).1 ≡ err session_not_found
  unfolding found
  found-empty (db, err e) h = refl
  found-empty (db, ok []) h = refl
  found-empty (db, ok (c ∷ cs)) h = cc (h (c ∷ cs) refl)

  loaded-fresh :
      (e : Result ℕ Session) (sess : Session) (db : Db)
      → e ≡ ok sess
      → past w sess.access_expire_at (unix db) ≡ false
      → (loaded w e db).1 ≡ ok sess
  unfolding loaded
  loaded-fresh e sess db h fresh = rw (h, fresh)

  found-Stored :
      (p : Db × Result ℕ Text) (v : Text) (sess : Session)
      → p.1 ≡ ok v
      → v ≢ []
      → decode v ≡ ok sess
      → past w sess.access_expire_at (unix p.0) ≡ false
      → (found w p).1 ≡ ok sess
  unfolding found
  found-Stored (db, err e) v sess h filled back fresh = cc
  found-Stored (db, ok []) v sess h filled back fresh = absurd (filled (cc h))
  found-Stored (db, ok (c ∷ cs)) v sess h filled back fresh =
      let same : c ∷ cs ≡ v = cc h in
      loaded-fresh (decode (c ∷ cs)) sess db (ap decode same ∙ back) fresh

  -- A key that holds nothing is no session, whatever Redis answers.
  pub get_session-empty :
      (s : SessionStore) (a : Text) (db : Db)
      → text db (sess_key_prefix ++ a) ≡ []
      → (get_session w s a db).1 ≡ err session_not_found
  unfolding get_session
  get_session-empty s a db h = elim (Bool-cases (not s.connected || is_empty a)) [
    | inl e ↦ rw e
    | inr e ↦ rw e (
        found-empty (redis.get (sess_key_prefix ++ a) db)
          (λ v r. redis_laws.get-text (sess_key_prefix ++ a) db v r ∙ h))
  ]

  pub get_session-Stored :
      (s : SessionStore) (sess : Session) (v : Text) (db : Db)
      → Stored sess db
      → not s.connected || is_empty sess.access_token ≡ false
      → let reply = redis.get (sess_key_prefix ++ sess.access_token) db in
        reply.1 ≡ ok v
        → past w sess.access_expire_at (unix reply.0) ≡ false
        → (get_session w s sess.access_token db).1 ≡ ok sess
  unfolding get_session
  get_session-Stored s sess v db (body, back, filled, holds) c reply fresh =
      let key = sess_key_prefix ++ sess.access_token in
      let same : v ≡ body = redis_laws.get-text key db v reply ∙ holds in
      rw c (
        found-Stored (redis.get key db) v sess reply (λ e. filled (sym same ∙ e))
          (ap decode same ∙ back) fresh)

  hex-of :
      (n : ℕ) (t : Text) (p : Db × Result ℕ Text)
      → ((bytes : Text) → p.1 ≡ ok bytes → length bytes ≡ n)
      → (after w (or_error w random p) (λ bytes. return w (hex bytes))).1 ≡ ok t
      → length t ≡ n * 2
  hex-of n t (db, err e) len h = cc
  hex-of n t (db, ok bytes) len h =
      ap length (sym (cc h)) ∙ length-hex bytes ∙ ap (λ k. k * 2) (len bytes refl)

  length-random_hex : (n : ℕ) (t : Text) (db : Db) → (random_hex w n db).1 ≡ ok t → length t ≡ n * 2
  unfolding random_hex
  length-random_hex n t db h =
      hex-of n t (read_random n db) (λ bytes. laws.length-read_random n bytes db) h

  persisted :
      (sess' sess : Session) (p : Db × Result Error (Unit {0}))
      → (after w p (λ u. return w sess')).1 ≡ ok sess
      → (sess ≡ sess') × (p ≡ ((after w p (λ u. return w sess')).0, ok tt))
  persisted sess' sess (db, ok tt) h = (cc h, refl)
  persisted sess' sess (db, err e) h = cc

  refresh_drawn :
      (f : Text → ℕ → Session) (s : SessionStore) (sess : Session) (p : Db × Result Error Text)
      → let q = after w p (λ refresh db.
        after w (persist w s (f refresh (unix db)) db) (λ u. return w (f refresh (unix db)))) in
        q.1 ≡ ok sess
        → (refresh : Text) × (p.1 ≡ ok refresh)
          × (sess ≡ f refresh (unix p.0))
          × (persist w s sess p.0 ≡ (q.0, ok tt))
  refresh_drawn f s sess (db, err e) h = cc
  refresh_drawn f s sess (db, ok refresh) h =
      let (same, done) =
        persisted (f refresh (unix db)) sess (persist w s (f refresh (unix db)) db) h in
      (refresh, refl, same, ap (λ v. persist w s v db) same ∙ done)

  access_drawn :
      (f : Text → Text → ℕ → Session) (s : SessionStore) (sess : Session)
      (p : Db × Result Error Text)
      → let q = after w p (λ access db. after w (random_hex w 32 db) (λ refresh db'.
        after w
          (persist w s (f access refresh (unix db')) db')
          (λ u. return w (f access refresh (unix db'))))) in
        let d = (random_hex w 32 p.0).0 in
        q.1 ≡ ok sess
        → (access : Text) × (refresh : Text) × (p.1 ≡ ok access)
          × (sess ≡ f access refresh (unix d))
          × (persist w s sess d ≡ (q.0, ok tt))
  access_drawn f s sess (db, err e) h = cc
  access_drawn f s sess (db, ok access) h =
      let (refresh, drawn, same, done) = refresh_drawn (f access) s sess (random_hex w 32 db) h in
      (access, refresh, refl, same, done)

  -- What a successful `IssueUser` has done: it drew two tokens and persisted the session it returns.
  pub issue_user-persist :
      (s : SessionStore) (uid : ℤ) (nick icon : Text) (user_type plat : ℤ) (sess : Session)
      (db : Db)
      → let issued = issue_user w s uid nick icon user_type plat db in
        let d = (random_hex w 32 (random_hex w 24 db).0).0 in
        issued.1 ≡ ok sess
        → (access : Text) × (refresh : Text) × ((random_hex w 24 db).1 ≡ ok access)
          × (sess ≡ user_session s access refresh uid nick icon user_type plat (unix d))
          × (persist w s sess d ≡ (issued.0, ok tt))
  unfolding issue_user
  issue_user-persist s uid nick icon user_type plat sess db h =
      access_drawn
        (λ access refresh t. user_session s access refresh uid nick icon user_type plat t) s sess
        (random_hex w 24 db) h

  persist-connected :
      (s : SessionStore) (sess : Session) (db : Db)
      → (persist w s sess db).1 ≡ ok tt
      → not s.connected ≡ false
  unfolding persist
  persist-connected s sess db h = elim (Bool-cases (not s.connected)) [
    | inl e ↦ cc (rw e at h)
    | inr e ↦ e
  ]

  is_empty-drawn : (t : Text) (n : ℕ) → length t ≡ suc n → is_empty t ≡ false
  is_empty-drawn [] n h = absurd (omega arith)
  is_empty-drawn (c ∷ cs) n h = refl

  not_past : (e t : ℕ) → t ≤ e → past w (pos e) t ≡ false
  not_past e t h = ground arith

  -- A session that `IssueUser` returns is for the user it was asked for, and `Get` finds it under its
  -- access token in every later state that Redis answers from, that keeps the key and that is not past the
  -- access expiry, `user_access_ttl` after the issue.
  pub get_session-issue_user :
      (s : SessionStore) (uid : ℤ) (nick icon : Text) (user_type plat : ℤ) (sess : Session)
      (v : Text) (db later : Db)
      → let issued = issue_user w s uid nick icon user_type plat db in
        let d = (random_hex w 32 (random_hex w 24 db).0).0 in
        let key = sess_key_prefix ++ sess.access_token in
        let reply = redis.get key later in
        issued.1 ≡ ok sess
        → text later key ≡ text issued.0 key
        → reply.1 ≡ ok v
        → unix reply.0 ≤ unix d + s.user_access_ttl
        → (sess.uid ≡ uid) × (get_session w s sess.access_token later).1 ≡ ok sess
  get_session-issue_user s uid nick icon user_type plat sess v db later h kept reply young =
      let (access, refresh, drawn, same, done) =
        issue_user-persist s uid nick icon user_type plat sess db h in
      let d = (random_hex w 32 (random_hex w 24 db).0).0 in
      let fine = ap (λ o. o.1) done in
      let (body, back, filled, holds) = persist-Stored s sess d fine in
      let token : sess.access_token ≡ access = ap (λ v. v.access_token) same in
      let named : is_empty sess.access_token ≡ false =
        ap is_empty token ∙ is_empty-drawn access 47 (length-random_hex 24 access db drawn) in
      let expiry : sess.access_expire_at ≡ pos (unix d + s.user_access_ttl) =
        ap (λ v. v.access_expire_at) same in
      (
        ap (λ v. v.uid) same,
        get_session-Stored s sess v later
            (
              body,
              back,
              filled,
              kept ∙ ap (λ o. text o.0 (sess_key_prefix ++ sess.access_token)) (sym done) ∙ holds,
            )
            (rw (persist-connected s sess d fine) named) reply
            (rw expiry (
              not_past (unix d + s.user_access_ttl)
                (unix (redis.get (sess_key_prefix ++ sess.access_token) later).0) young)),
      )
