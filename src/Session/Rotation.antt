-- ===== src/Session/Rotation.antt =====
-- `Refresh`: what it asks for before it issues new tokens.
use apipro.Base.{
  ℕ, ◌≡◌, refl, sym, ap, ◌∙◌, true, false, not, ◌||◌, [], ◌∷◌, ◌++◌, Text, ℤ, pos, none, some,
  Result, ok, err, arith, Bool-cases, eq_ℤ, inl, inr,
}
use apipro.Session.{
  SessionStore, Error, session_not_found, refresh_denied, sess_key_prefix, refresh_key_prefix,
  is_empty, after, issue_user, user_session, past, loaded, found, get_session, revoke_keys,
  random_hex, fail, M, StatusFn, check_status, status_checked, rotate, denied, refresh_found,
  refresh, revoke_all_for_uid,
}
use apipro.Session.Env.{Session, World, WorldLaws}
use apipro.Session.Issue.{after_ok, issue_user-persist}

module _ (w : World) (laws : WorldLaws w) where
  open w use {redis, unix, decode, encode, read_random}
  open redis use {Db}
  open laws use {redis_laws}
  open redis_laws use {text}

  loaded-stale :
      (e : Result ℕ Session) (sess : Session) (db : Db)
      → e ≡ ok sess
      → past w sess.access_expire_at (unix db) ≡ true
      → (loaded w e db).1 ≡ err session_not_found
  unfolding loaded
  loaded-stale e sess db h stale = rw (h, stale)

  found-stale :
      (p : Db × Result ℕ Text) (v : Text) (sess : Session)
      → p.1 ≡ ok v
      → decode v ≡ ok sess
      → past w sess.access_expire_at (unix p.0) ≡ true
      → (found w p).1 ≡ err session_not_found
  unfolding found
  found-stale (db, err e) v sess h back stale = refl
  found-stale (db, ok []) v sess h back stale = refl
  found-stale (db, ok (c ∷ cs)) v sess h back stale =
      let same : c ∷ cs ≡ v = cc h in
      loaded-stale (decode (c ∷ cs)) sess db (ap decode same ∙ back) stale

  get_session-stale :
      (s : SessionStore) (a v : Text) (sess : Session) (db : Db)
      → let reply = redis.get (sess_key_prefix ++ a) db in
        reply.1 ≡ ok v
        → decode v ≡ ok sess
        → past w sess.access_expire_at (unix reply.0) ≡ true
        → (get_session w s a db).1 ≡ err session_not_found
  unfolding get_session
  get_session-stale s a v sess db h back stale = elim (Bool-cases (not s.connected || is_empty a)) [
    | inl e ↦ rw e
    | inr e ↦ rw e (found-stale (redis.get (sess_key_prefix ++ a) db) v sess h back stale)
  ]

  after-denied :
      (p : Db × Result Error Session) (f : Session → M w Session)
      → p.1 ≡ err session_not_found
      → (after w (denied w p) f).1 ≡ err refresh_denied
  after-denied (db, ok a) f h = cc
  after-denied (db, err e) f h = refl

  refresh_found-stale :
      (s : SessionStore) (status : StatusFn w) (a : Text) (p : Db × Result ℕ Text)
      → p.1 ≡ ok a
      → (get_session w s a p.0).1 ≡ err session_not_found
      → (refresh_found w s status p).1 ≡ err refresh_denied
  unfolding refresh_found
  refresh_found-stale s status a (db, err e) h gone = refl
  refresh_found-stale s status a (db, ok []) h gone = refl
  refresh_found-stale s status a (db, ok (c ∷ cs)) h gone =
      let same : c ∷ cs ≡ a = cc h in
      after-denied (get_session w s (c ∷ cs) db) (rotate w s status (c ∷ cs))
        (ap (λ k. (get_session w s k db).1) same ∙ gone)

  -- `Refresh` is denied once the access token is past its own expiry, whatever the refresh expiry of
  -- the session is: the session it belongs to is loaded by `Get`.
  pub refresh_stale :
      (s : SessionStore) (token : Text) (status : StatusFn w) (a v : Text) (sess : Session)
      (db : Db)
      → let first = redis.get (refresh_key_prefix ++ token) db in
        let second = redis.get (sess_key_prefix ++ a) first.0 in
        first.1 ≡ ok a
        → second.1 ≡ ok v
        → decode v ≡ ok sess
        → past w sess.access_expire_at (unix second.0) ≡ true
        → (refresh w s token status db).1 ≡ err refresh_denied
  unfolding refresh
  refresh_stale s token status a v sess db h₁ h₂ back stale =
      let first = redis.get (refresh_key_prefix ++ token) db in
      elim (Bool-cases (not s.connected || is_empty token)) [
        | inl e ↦ rw e
        | inr e ↦ rw e (
            refresh_found-stale s status a first h₁
              (get_session-stale s a v sess first.0 h₂ back stale))
      ]

  checked_ok :
      (uid : ℤ) (p : Db × Result ℕ ℤ) → (status_checked w uid p).1 ≡ ok tt → p.1 ≡ ok (pos 1)
  unfolding revoke_all_for_uid
  checked_ok uid (db, ok st) h = elim (Bool-cases (eq_ℤ st (pos 1))) [
    | inl e ↦ ground arith
    | inr e ↦ cc (rw e at h)
  ]
  checked_ok uid (db, err e) h = cc

  -- The look-up of the user's status, where the caller gives one, answers 1.
  abbrev pub Allowed : StatusFn w → ℤ → Db → Type 0
  Allowed none uid db = Unit
  Allowed (some f) uid db = (f uid db).1 ≡ ok (pos 1)

  check_status-ok :
      (status : StatusFn w) (uid : ℤ) (db : Db)
      → (check_status w status uid db).1 ≡ ok tt
      → Allowed status uid db
  unfolding check_status
  check_status-ok none uid db h = tt
  check_status-ok (some g) uid db h = checked_ok uid (g uid db) h

  -- The state in which `Refresh` issues the new session: the user's status was looked up and the old
  -- keys deleted.
  abbrev pub issue_state : SessionStore → StatusFn w → Text → Session → Db → Db
  issue_state s status a old db =
      (revoke_keys w s a old.refresh_token (check_status w status old.uid db).0).0

  -- The clock once the two new tokens are drawn.
  abbrev pub issue_time : SessionStore → StatusFn w → Text → Session → Db → ℕ
  issue_time s status a old db =
      unix (random_hex w 32 (random_hex w 24 (issue_state s status a old db)).0).0

  -- What `Refresh` asks for, from the session that was loaded.
  rotate-ok :
      (s : SessionStore) (status : StatusFn w) (a : Text) (old new : Session) (db : Db)
      → let d = issue_state s status a old db in
        (rotate w s status a old db).1 ≡ ok new
        → (old.is_guest ≡ false)
          × (past w old.refresh_expire_at (unix db) ≡ false)
          × Allowed status old.uid db
          × ((issue_user w s old.uid old.nick_name old.icon old.user_type old.plat d).1 ≡ ok new)
          × ((rotate w s status a old db).0
              ≡ (issue_user w s old.uid old.nick_name old.icon old.user_type old.plat d).0)
  unfolding rotate
  rotate-ok s status a old new db h = elim (Bool-cases old.is_guest) [
    | inl e ↦ cc (rw e at h)
    | inr e ↦ elim (Bool-cases (past w old.refresh_expire_at (unix db))) [
      | inl e' ↦
          let (u, done, step) =
            after_ok w laws (revoke_keys w s a old.refresh_token db) (λ u. fail w refresh_denied)
              new (rw (e, e') at h) in
          cc (ap (λ o. o.1) (sym step) ∙ (rw (e, e') at h))
      | inr e' ↦
          let issue = issue_user w s old.uid old.nick_name old.icon old.user_type old.plat in
          let dropped = revoke_keys w s a old.refresh_token in
          let k : M w Session = λ d. after w (dropped d) (λ u. issue) in
          let (u, checked, step) =
            after_ok w laws (check_status w status old.uid db) (λ u. k) new (rw (e, e') at h) in
          let d = (check_status w status old.uid db).0 in
          let path : rotate w s status a old db ≡ k d = rw (e, e') step in
          let (u', done, step') =
            after_ok w laws (dropped d) (λ u. issue) new (ap (λ o. o.1) (sym path) ∙ h) in
          (
            e,
            e',
            check_status-ok status old.uid db checked,
            ap (λ o. o.1) (sym step' ∙ sym path) ∙ h,
            ap (λ o. o.0) (path ∙ step'),
          )
    ]
  ]

  denied_ok :
      (p : Db × Result Error Session) (old : Session)
      → (denied w p).1 ≡ ok old
      → (p.1 ≡ ok old) × ((denied w p).0 ≡ p.0)
  denied_ok (db, ok a) old h = (h, refl)
  denied_ok (db, err e) old h = cc

  refresh_found-ok :
      (s : SessionStore) (status : StatusFn w) (new : Session) (p : Db × Result ℕ Text)
      → (refresh_found w s status p).1 ≡ ok new
      → (a : Text) × (old : Session) × (p.1 ≡ ok a)
        × ((get_session w s a p.0).1 ≡ ok old)
        × (refresh_found w s status p ≡ rotate w s status a old (get_session w s a p.0).0)
  unfolding refresh_found
  refresh_found-ok s status new (db, err e) h = cc
  refresh_found-ok s status new (db, ok []) h = cc
  refresh_found-ok s status new (db, ok (c ∷ cs)) h =
      let a = c ∷ cs in
      let p = get_session w s a db in
      let (old, got, step) = after_ok w laws (denied w p) (rotate w s status a) new h in
      let (live, same) = denied_ok p old got in
      (a, old, refl, live, step ∙ ap (rotate w s status a old) same)

  -- The session that `Refresh` went from, and the one it returns.
  abbrev pub Rotated : SessionStore → Text → StatusFn w → Session → Db → Type 0
  Rotated s token status new db =
      let first = redis.get (refresh_key_prefix ++ token) db in
      (a : Text) × (old : Session) × (access fresh : Text) × (first.1 ≡ ok a)
      × ((get_session w s a first.0).1 ≡ ok old)
      × (old.is_guest ≡ false)
      × (past w old.refresh_expire_at (unix (get_session w s a first.0).0) ≡ false)
      × Allowed status old.uid (get_session w s a first.0).0
      × (new
          ≡ user_session s access fresh old.uid old.nick_name old.icon old.user_type old.plat
              (issue_time s status a old (get_session w s a first.0).0))

  -- A `Refresh` that succeeds was given a refresh token whose session `Get` still finds, which is no guest's
  -- and not past its refresh expiry, for a user whose status, where the caller looks it up, is 1. The
  -- new session is the same user's, and both of its expiries count from the time of the refresh: the
  -- refresh window starts again.
  pub refresh_rotates :
      (s : SessionStore) (token : Text) (status : StatusFn w) (new : Session) (db : Db)
      → (refresh w s token status db).1 ≡ ok new
      → Rotated s token status new db
  unfolding refresh
  refresh_rotates s token status new db h = elim (Bool-cases (not s.connected || is_empty token)) [
    | inl e ↦ cc (rw e at h)
    | inr e ↦
        let first = redis.get (refresh_key_prefix ++ token) db in
        let (a, old, got, live, path) = refresh_found-ok s status new first (rw e at h) in
        let d = (get_session w s a first.0).0 in
        let (user, unexpired, allowed, issued, same) =
          rotate-ok s status a old new d (ap (λ o. o.1) (sym path) ∙ (rw e at h)) in
        let (access, fresh, drawn, filled, done) =
          issue_user-persist w laws s old.uid old.nick_name old.icon old.user_type old.plat new
            (issue_state s status a old d) issued in
        (a, old, access, fresh, got, live, user, unexpired, allowed, filled)
  ]
