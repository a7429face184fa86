-- ===== src/Session/Related.antt =====
-- A relation between the environments before and after that every command keeps is kept by `Refresh`.
use apipro.Base.{
  ◌++◌, Bool-cases, inl, inr, eq_ℤ, pos, ℕ, Bool, true, false, not, ◌&&◌, ◌||◌, [], ◌∷◌, Text, ℤ,
  some, Result, ok, err, if◌then◌else◌,
}
use apipro.Session.{
  SessionStore, Error, session_not_found, refresh_denied, M, after, ◌>>=◌, return, fail, or_error,
  ignore, random, marshal, set_sess, set_refresh, redis_unavailable, sess_key_prefix,
  refresh_key_prefix, ttl_of, now, user_session, random_hex, issue_user, persist, persist_refresh,
  revoke_keys, loaded, found, get_session, status_checked, check_status, rotate, refresh_found,
  refresh, denied, revoke_all_for_uid, is_empty, past,
}
use apipro.Session.Hex.{hex}
use apipro.Session.Env.{Session, World}

-- What is asked of the relation.
pub record Closed (w : World) (R : w.redis.Db → w.redis.Db → Type 0) : Type 0 where
  pub here : (a : w.redis.Db) → R a a
  pub chain : (a b c : w.redis.Db) → R a b → R b c → R a c
  pub by_get : (k : Text) (a : w.redis.Db) → R a (w.redis.get k a).0
  pub by_setex : (k v : Text) (t : ℕ) (a : w.redis.Db) → R a (w.redis.setex k v t a).0
  pub by_del : (k : Text) (a : w.redis.Db) → R a (w.redis.del k a).0
  pub by_random : (n : ℕ) (a : w.redis.Db) → R a (w.read_random n a).0

module _ (w : World) (R : w.redis.Db → w.redis.Db → Type 0) (closed : Closed w R) where
  open w use {redis}
  open redis use {Db, get, setex, del}

  record Moves {A : Type 0} (m : M w A) : Type 0 where
    moves : (a : Db) → R a (m a).0

  Moves-after :
      {A B : Type 0} (a : Db) (p : Db × Result Error A) (f : A → M w B)
      → R a p.0
      → ((x : A) → Moves (f x))
      → R a (after w p f).0
  Moves-after a (b, ok x) f h k = closed.chain a b (f x b).0 h ((k x).moves b)
  Moves-after a (b, err e) f h k = h

  Moves-bind :
      {A B : Type 0} {m : M w A} {f : A → M w B}
      → Moves m
      → ((x : A) → Moves (f x))
      → Moves (◌>>=◌ w m f)
  Moves-bind {m = m} {f = f} h k = record { moves = λ a. Moves-after a (m a) f (h.moves a) k }

  Moves-now : Moves (now w)
  Moves-now = record { moves = λ a. closed.here a }

  Moves-return : {A : Type 0} (x : A) → Moves (return w x)
  Moves-return x = record { moves = λ a. closed.here a }

  Moves-fail : {A : Type 0} (e : Error) → Moves {A = A} (fail w e)
  Moves-fail e = record { moves = λ a. closed.here a }

  Moves-if : {A : Type 0} (b : Bool) {m k : M w A} → Moves m → Moves k → Moves (if b then m else k)
  Moves-if true hm hk = hm
  Moves-if false hm hk = hk

  or_error_db :
      {A : Type 0} (a : Db) (wrap : ℕ → Error) (p : Db × Result ℕ A)
      → R a p.0
      → R a (or_error w wrap p).0
  or_error_db a wrap (b, ok x) h = h
  or_error_db a wrap (b, err e) h = h

  ignore_db : {A : Type 0} (a : Db) (p : Db × Result ℕ A) → R a p.0 → R a (ignore w p).0
  ignore_db a (b, r) h = h

  Moves-command :
      {A : Type 0} (wrap : ℕ → Error) (f : Db → Db × Result ℕ A)
      → ((a : Db) → R a (f a).0)
      → Moves (λ a. or_error w wrap (f a))
  Moves-command wrap f h = record { moves = λ a. or_error_db a wrap (f a) (h a) }

  Moves-ignored :
      {A : Type 0} (f : Db → Db × Result ℕ A)
      → ((a : Db) → R a (f a).0)
      → Moves (λ a. ignore w (f a))
  Moves-ignored f h = record { moves = λ a. ignore_db a (f a) (h a) }

  Moves-random_hex : (n : ℕ) → Moves (random_hex w n)
  unfolding random_hex
  Moves-random_hex n =
      Moves-bind (Moves-command random (w.read_random n) (closed.by_random n))
        λ bytes. Moves-return (hex bytes)

  Moves-persist_refresh : (sess : Session) (ttl : ℕ) → Moves (persist_refresh w sess ttl)
  unfolding persist_refresh
  Moves-persist_refresh sess ttl =
      Moves-if (not sess.is_guest && not (is_empty sess.refresh_token))
        (Moves-command set_refresh
          (setex (refresh_key_prefix ++ sess.refresh_token) sess.access_token ttl)
          (closed.by_setex _ _ _))
        (Moves-return tt)

  Moves-persist : (s : SessionStore) (sess : Session) → Moves (persist w s sess)
  unfolding persist
  Moves-persist s sess = Moves-if (not s.connected) (Moves-fail redis_unavailable) (
      Moves-bind (Moves-command marshal (λ a. (a, w.encode sess)) closed.here) λ body.
        Moves-bind
          (Moves-command set_sess
            (setex (sess_key_prefix ++ sess.access_token) body (ttl_of w s sess))
            (closed.by_setex _ _ _))
          λ u. Moves-persist_refresh sess (ttl_of w s sess))

  Moves-issue_user :
      (s : SessionStore) (uid : ℤ) (nick icon : Text) (user_type plat : ℤ)
      → Moves (issue_user w s uid nick icon user_type plat)
  unfolding issue_user
  Moves-issue_user s uid nick icon user_type plat = Moves-bind (Moves-random_hex 24) λ access.
      Moves-bind (Moves-random_hex 32) λ refresh_token. Moves-bind Moves-now λ t.
        let sess = user_session s access refresh_token uid nick icon user_type plat t in
        Moves-bind (Moves-persist s sess) λ u. Moves-return sess

  Moves-revoke_keys :
      (s : SessionStore) (access refresh_token : Text)
      → Moves (revoke_keys w s access refresh_token)
  unfolding revoke_keys
  Moves-revoke_keys s access refresh_token = Moves-if (not s.connected) (Moves-return tt) (
      Moves-bind (Moves-ignored (del (sess_key_prefix ++ access)) (closed.by_del _)) λ u.
        Moves-if (is_empty refresh_token) (Moves-return tt)
          (Moves-ignored (del (refresh_key_prefix ++ refresh_token)) (closed.by_del _)))

  Moves-loaded : (r : Result ℕ Session) → Moves (loaded w r)
  unfolding loaded
  Moves-loaded (ok sess) = Moves-bind Moves-now λ t.
      Moves-if (past w sess.access_expire_at t) (Moves-fail session_not_found) (Moves-return sess)
  Moves-loaded (err e) = Moves-fail session_not_found

  found_db : (a : Db) (p : Db × Result ℕ Text) → R a p.0 → R a (found w p).0
  unfolding found
  found_db a (b, err e) h = h
  found_db a (b, ok []) h = h
  found_db a (b, ok (c ∷ cs)) h = closed.chain a b _ h ((Moves-loaded (w.decode (c ∷ cs))).moves b)

  pub get_session_db :
      (s : SessionStore) (access : Text) (a : Db) → R a (get_session w s access a).0
  unfolding get_session
  get_session_db s access a = elim (Bool-cases (not s.connected || is_empty access)) [
    | inl e ↦ rw e (closed.here a)
    | inr e ↦ rw e (found_db a _ (closed.by_get _ a))
  ]

  module _ (f : ℤ → Db → Db × Result ℕ ℤ) (by_status : (uid : ℤ) (a : Db) → R a (f uid a).0) where
    status_checked_db :
        (uid : ℤ) (a : Db) (p : Db × Result ℕ ℤ) → R a p.0 → R a (status_checked w uid p).0
    unfolding revoke_all_for_uid
    status_checked_db uid a (b, err e) h = h
    status_checked_db uid a (b, ok st) h = elim (Bool-cases (eq_ℤ st (pos 1))) [
      | inl e ↦ rw e h
      | inr e ↦ rw e h
    ]

    Moves-check_status : (uid : ℤ) → Moves (check_status w (some f) uid)
    unfolding check_status
    Moves-check_status uid = record {
      moves = λ a. status_checked_db uid a (f uid a) (by_status uid a);
    }

    Moves-rotate :
        (s : SessionStore) (access : Text) (old : Session) → Moves (rotate w s (some f) access old)
    unfolding rotate
    Moves-rotate s access old = Moves-if old.is_guest (Moves-fail refresh_denied) (
        Moves-bind Moves-now λ t.
          Moves-if (past w old.refresh_expire_at t)
            (Moves-bind (Moves-revoke_keys s access old.refresh_token)
              λ u. Moves-fail refresh_denied)
            (Moves-bind (Moves-check_status old.uid) λ u.
              Moves-bind (Moves-revoke_keys s access old.refresh_token)
                λ u'. Moves-issue_user s old.uid old.nick_name old.icon old.user_type old.plat))

    denied_db : (a : Db) (p : Db × Result Error Session) → R a p.0 → R a (denied w p).0
    denied_db a (b, ok x) h = h
    denied_db a (b, err e) h = h

    refresh_found_db :
        (s : SessionStore) (a : Db) (p : Db × Result ℕ Text)
        → R a p.0
        → R a (refresh_found w s (some f) p).0
    unfolding refresh_found
    refresh_found_db s a (b, err e) h = h
    refresh_found_db s a (b, ok []) h = h
    refresh_found_db s a (b, ok (c ∷ cs)) h =
        Moves-after a (denied w (get_session w s (c ∷ cs) b)) (rotate w s (some f) (c ∷ cs))
          (denied_db a _ (closed.chain a b _ h (get_session_db s (c ∷ cs) b)))
          (Moves-rotate s (c ∷ cs))

    pub refresh_db :
        (s : SessionStore) (token : Text) (a : Db) → R a (refresh w s token (some f) a).0
    unfolding refresh
    refresh_db s token a = elim (Bool-cases (not s.connected || is_empty token)) [
      | inl e ↦ rw e (closed.here a)
      | inr e ↦ rw e (refresh_found_db s a _ (closed.by_get _ a))
    ]
