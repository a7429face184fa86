-- ===== src/Session/Revocation.antt =====
-- Revoking a session.
use apipro.Base.{
  ℕ, ◌≡◌, refl, ap, ◌∙◌, false, not, ◌||◌, [], ◌++◌, Text, Result, ok, err, if◌then◌else◌, arith,
  Bool-cases, text_eq, inl, inr,
}
use apipro.Session.{
  SessionStore, Error, session_not_found, sess_key_prefix, refresh_key_prefix, is_empty, after,
  get_session, revoke_keys, ignore, revoke, revoke_found, return, M,
}
use apipro.Session.Env.{Session, World, WorldLaws}
use apipro.Session.Issue.{get_session-empty, keys_apart}

module _ (w : World) (laws : WorldLaws w) where
  open w use {redis, unix, decode, encode, read_random}
  open redis use {Db}
  open laws use {redis_laws}
  open redis_laws use {text}

  ignore-state : {A : Type 0} (p : Db × Result ℕ A) → ignore w p ≡ (p.0, ok tt)
  ignore-state (db, ok a) = refl
  ignore-state (db, err e) = refl

  after-ignore :
      {A B : Type 0} (p : Db × Result ℕ A) (f : Unit {0} → M w B)
      → after w (ignore w p) f ≡ f tt p.0
  after-ignore (db, ok a) f = refl
  after-ignore (db, err e) f = refl

  refresh_key_dropped :
      (r key : Text) (db : Db)
      → text_eq (refresh_key_prefix ++ r) key ≡ false
      → text
          ((if is_empty r
              then return w tt
              else (λ d. ignore w (redis.del (refresh_key_prefix ++ r) d)))
            db).0
          key
        ≡ text db key
  refresh_key_dropped r key db other = elim (Bool-cases (is_empty r)) [
    | inl e ↦ rw e
    | inr e ↦ rw e (
        ap (λ o. text o.0 key) (ignore-state (redis.del (refresh_key_prefix ++ r) db))
        ∙ redis_laws.del_others (refresh_key_prefix ++ r) key db other)
  ]

  revoke_keys-text :
      (s : SessionStore) (a r : Text) (n : ℕ) (db : Db)
      → not s.connected ≡ false
      → (redis.del (sess_key_prefix ++ a) db).1 ≡ ok n
      → text (revoke_keys w s a r db).0 (sess_key_prefix ++ a) ≡ []
  unfolding revoke_keys
  revoke_keys-text s a r n db c h =
      let key = sess_key_prefix ++ a in
      let p = redis.del key db in
      rw c (
        ap (λ o. text o.0 key)
          (after-ignore p (λ u.
            if is_empty r
            then return w tt
            else (λ d. ignore w (redis.del (refresh_key_prefix ++ r) d))))
        ∙ refresh_key_dropped r key p.0 (keys_apart w laws a r)
        ∙ redis_laws.del-text key n db h)

  revoke_found-ok :
      (s : SessionStore) (a : Text) (sess : Session) (p : Db × Result Error Session)
      → p.1 ≡ ok sess
      → revoke_found w s a p ≡ revoke_keys w s a sess.refresh_token p.0
  revoke_found-ok s a sess (db, ok sess') h =
      let same : sess' ≡ sess = cc h in
      ap (λ (v : Session). revoke_keys w s a v.refresh_token db) same
  revoke_found-ok s a sess (db, err e) h = cc

  get_session-open :
      (s : SessionStore) (a : Text) (sess : Session) (db : Db)
      → (get_session w s a db).1 ≡ ok sess
      → not s.connected || is_empty a ≡ false
  unfolding get_session
  get_session-open s a sess db h = elim (Bool-cases (not s.connected || is_empty a)) [
    | inl e ↦ cc (rw e at h)
    | inr e ↦ e
  ]

  -- A session that `Get` finds and `Revoke` then removes, with Redis reporting the deletion, is found
  -- no more in any later state that keeps the key.
  pub get_session-revoke :
      (s : SessionStore) (a : Text) (sess : Session) (n : ℕ) (db later : Db)
      → let key = sess_key_prefix ++ a in
        (get_session w s a db).1 ≡ ok sess
        → (redis.del key (get_session w s a db).0).1 ≡ ok n
        → text later key ≡ text (revoke w s a db).0 key
        → (get_session w s a later).1 ≡ err session_not_found
  unfolding revoke
  get_session-revoke s a sess n db later h deleted kept =
      let guard = get_session-open s a sess db h in
      let c : not s.connected ≡ false = ground arith in
      let removed : revoke w s a db
          ≡ revoke_keys w s a sess.refresh_token (get_session w s a db).0 =
        rw guard (revoke_found-ok s a sess (get_session w s a db) h) in
      get_session-empty w laws s a later (
        kept
        ∙ ap (λ o. text o.0 (sess_key_prefix ++ a)) removed
        ∙ revoke_keys-text s a sess.refresh_token n (get_session w s a db).0 c deleted)
