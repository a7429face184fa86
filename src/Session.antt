-- ===== src/Session.antt =====
-- common/auth/session.go: opaque tokens in Redis. The random source, the clock and the JSON codec
-- of Go's standard library are parameters, and times are in unix seconds.
pub mod Hex
pub mod Env
pub mod Issue
pub mod Revocation
pub mod Rotation
pub mod Related
pub mod Memory
mod Tests
use apipro.Base.{
  ℕ, zero, suc, ◌+◌, ◌*◌, Bool, true, false, not, ◌&&◌, ◌||◌, List, [], ◌∷◌, ◌++◌, Text, ℤ, pos,
  negsuc, Option, none, some, Result, ok, err, ltb, ltb_ℤ, eq_ℤ, text_eq, codes, replicate,
  if◌then◌else◌,
}
use apipro.Redis.{Redis}
use Hex.{hex, upper_hex}
use Env.{Session, World}

abbrev pub sess_key_prefix : Text
sess_key_prefix = codes "yuyan:sess:v2:"

abbrev pub refresh_key_prefix : Text
refresh_key_prefix = codes "yuyan:refresh:v2:"

abbrev pub default_user_access_ttl : ℕ
default_user_access_ttl = 1800

abbrev pub default_user_refresh_ttl : ℕ
default_user_refresh_ttl = 2592000

abbrev pub default_guest_access_ttl : ℕ
default_guest_access_ttl = 86400

pub data Error : Type 0 where
  session_not_found refresh_denied user_banned redis_unavailable : Error
  random marshal set_sess set_refresh : ℕ → Error

-- The store's lifetimes; `connected` is false where it has no client.
pub record SessionStore : Type 0 where
  pub connected : Bool
  pub user_access_ttl : ℕ
  pub user_refresh_ttl : ℕ
  pub guest_access_ttl : ℕ

unfoldable pub new_session_store : Bool → SessionStore
new_session_store connected = record {
  connected = connected;
  user_access_ttl = default_user_access_ttl;
  user_refresh_ttl = default_user_refresh_ttl;
  guest_access_ttl = default_guest_access_ttl;
}

unfoldable pub plat_to_device : ℤ → Text
plat_to_device (pos (suc zero)) = codes "android"
plat_to_device (pos (suc (suc zero))) = codes "ios"
plat_to_device (pos (suc (suc (suc zero)))) = codes "pc"
plat_to_device (pos (suc (suc (suc (suc zero))))) = codes "h5"
plat_to_device _ = codes "h5"

abbrev pub is_empty : Text → Bool
is_empty [] = true
is_empty (c ∷ cs) = false

-- The struct that `IssueUser` fills at time `t`.
abbrev pub user_session : SessionStore → Text → Text → ℤ → Text → Text → ℤ → ℤ → ℕ → Session
user_session s access refresh uid nick_name icon user_type plat t = record {
  access_token = access;
  refresh_token = refresh;
  uid = uid;
  nick_name = nick_name;
  icon = icon;
  user_type = user_type;
  device_type = plat_to_device plat;
  plat = plat;
  is_guest = false;
  access_expire_at = pos (t + s.user_access_ttl);
  refresh_expire_at = pos (t + s.user_refresh_ttl);
}

module _ (w : World) where
  open w use {redis, unix, read_random, encode, decode}
  open redis use {Db, get, setex, del}

  -- A call that may fail, with the environment as it leaves it.
  abbrev pub M {ℓ} : Type ℓ → Type ℓ
  M A = Db → Db × Result Error A

  abbrev pub after {ℓ κ} :
      {A : Type ℓ} {B : Type κ} → Db × Result Error A → (A → M B) → Db × Result Error B
  after (db, ok a) f = f a db
  after (db, err e) f = (db, err e)

  infixl 5 ◌>>=◌ ◌>>◌
  abbrev pub ◌>>=◌ {ℓ κ} : {A : Type ℓ} {B : Type κ} → M A → (A → M B) → M B
  ◌>>=◌ m f db = after (m db) f

  abbrev pub ◌>>◌ {ℓ} : {B : Type ℓ} → M (Unit {0}) → M B → M B
  m >> k = m >>= λ _. k

  abbrev pub return {ℓ} : {A : Type ℓ} → A → M A
  return a db = (db, ok a)

  abbrev pub fail {ℓ} : {A : Type ℓ} → Error → M A
  fail e db = (db, err e)

  abbrev pub now : M ℕ
  now db = (db, ok (unix db))

  -- A command whose error is turned into one of the package's.
  abbrev pub or_error {ℓ} : {A : Type ℓ} → (ℕ → Error) → Db × Result ℕ A → Db × Result Error A
  or_error wrap (db, ok a) = (db, ok a)
  or_error wrap (db, err e) = (db, err (wrap e))

  -- A command whose outcome is dropped.
  abbrev pub ignore {ℓ} : {A : Type ℓ} → Db × Result ℕ A → Db × Result Error (Unit {0})
  ignore (db, reply) = (db, ok tt)

  unfoldable pub random_hex : ℕ → M Text
  random_hex n = do bytes ← λ db. or_error random (read_random n db); return (hex bytes)

  abbrev pub bytes_or : ℕ → Db × Result ℕ Text → Db × Result Error Text
  bytes_or n (db, ok bytes) = (db, ok (upper_hex bytes))
  bytes_or n (db, err e) = (db, ok (upper_hex (replicate n 0)))

  -- An error of the source leaves the three bytes at 0.
  unfoldable pub guest_nick_name : M Text
  guest_nick_name db = bytes_or 3 (read_random 3 db)

  abbrev pub ttl_of : SessionStore → Session → ℕ
  ttl_of s sess =
      let ttl = if sess.is_guest then s.guest_access_ttl else s.user_refresh_ttl in
      if ltb 0 ttl then ttl else default_user_refresh_ttl

  unfoldable pub persist_refresh : Session → ℕ → M (Unit {0})
  persist_refresh sess ttl =
      if not sess.is_guest && not (is_empty sess.refresh_token)
      then (λ db.
          or_error set_refresh
            (setex (refresh_key_prefix ++ sess.refresh_token) sess.access_token ttl db))
      else return tt

  unfoldable pub persist : SessionStore → Session → M (Unit {0})
  persist s sess = if not s.connected then fail redis_unavailable else do
    body ← λ db. or_error marshal (db, encode sess)
    (λ db. or_error set_sess (setex (sess_key_prefix ++ sess.access_token) body (ttl_of s sess) db))
    persist_refresh sess (ttl_of s sess)

  unfoldable pub issue_user : SessionStore → ℤ → Text → Text → ℤ → ℤ → M Session
  issue_user s uid nick_name icon user_type plat = do
    access ← random_hex 24
    refresh ← random_hex 32
    t ← now
    let sess = user_session s access refresh uid nick_name icon user_type plat t
    persist s sess
    return sess

  unfoldable pub issue_guest : SessionStore → ℤ → M Session
  issue_guest s plat = do
    access ← random_hex 24
    t ← now
    nick ← guest_nick_name
    let sess : Session = record {
      access_token = access;
      refresh_token = [];
      uid = pos 0;
      nick_name = nick;
      icon = [];
      user_type = pos 1;
      device_type = plat_to_device plat;
      plat = plat;
      is_guest = true;
      access_expire_at = pos (t + s.guest_access_ttl);
      refresh_expire_at = pos 0;
    }
    persist s sess
    return sess

  abbrev pub past : ℤ → ℕ → Bool
  past expire_at t = ltb_ℤ (pos 0) expire_at && ltb_ℤ expire_at (pos t)

  unfoldable pub loaded : Result ℕ Session → M Session
  loaded (err e) = fail session_not_found
  loaded (ok sess) = do
    t ← now
    (if past sess.access_expire_at t then fail session_not_found else return sess)

  unfoldable pub found : Db × Result ℕ Text → Db × Result Error Session
  found (db, err e) = (db, err session_not_found)
  found (db, ok []) = (db, err session_not_found)
  found (db, ok (c ∷ cs)) = loaded (decode (c ∷ cs)) db

  unfoldable pub get_session : SessionStore → Text → M Session
  get_session s access db =
      if not s.connected || is_empty access
      then (db, err session_not_found)
      else found (get (sess_key_prefix ++ access) db)

  unfoldable pub revoke_keys : SessionStore → Text → Text → M (Unit {0})
  revoke_keys s access refresh = if not s.connected then return tt else do
    (λ db. ignore (del (sess_key_prefix ++ access) db))
    (if is_empty refresh
        then return tt
        else (λ db. ignore (del (refresh_key_prefix ++ refresh) db)))

  abbrev pub revoke_found :
      SessionStore → Text → Db × Result Error Session → Db × Result Error (Unit {0})
  revoke_found s access (db, err e) = (db, ok tt)
  revoke_found s access (db, ok sess) = revoke_keys s access sess.refresh_token db

  unfoldable pub revoke : SessionStore → Text → M (Unit {0})
  revoke s access db =
      if not s.connected || is_empty access
      then (db, ok tt)
      else revoke_found s access (get_session s access db)

  -- A no-op in this version of the program.
  unfoldable pub revoke_all_for_uid : ℤ → M (Unit {0})
  revoke_all_for_uid uid = return tt

  -- The caller's look-up of a user's status, if it gives one.
  abbrev pub StatusFn : Type 0
  StatusFn = Option (ℤ → Db → Db × Result ℕ ℤ)

  abbrev pub status_checked : ℤ → Db × Result ℕ ℤ → Db × Result Error (Unit {0})
  status_checked uid (db, ok st) =
      if eq_ℤ st (pos 1) then (db, ok tt) else (revoke_all_for_uid uid >> fail user_banned) db
  status_checked uid (db, err e) = (revoke_all_for_uid uid >> fail user_banned) db

  unfoldable pub check_status : StatusFn → ℤ → M (Unit {0})
  check_status none uid db = (db, ok tt)
  check_status (some f) uid db = status_checked uid (f uid db)

  -- Steps 3 to 5 of `Refresh`, from the session that was loaded.
  unfoldable pub rotate : SessionStore → StatusFn → Text → Session → M Session
  rotate s status access old = if old.is_guest then fail refresh_denied else do
    t ← now
    (if past old.refresh_expire_at t
        then (revoke_keys s access old.refresh_token >> fail refresh_denied)
        else do
          check_status status old.uid
          revoke_keys s access old.refresh_token
          issue_user s old.uid old.nick_name old.icon old.user_type old.plat)

  abbrev pub denied {ℓ} : {A : Type ℓ} → Db × Result Error A → Db × Result Error A
  denied (db, ok a) = (db, ok a)
  denied (db, err e) = (db, err refresh_denied)

  unfoldable pub refresh_found :
      SessionStore → StatusFn → Db × Result ℕ Text → Db × Result Error Session
  refresh_found s status (db, err e) = (db, err refresh_denied)
  refresh_found s status (db, ok []) = (db, err refresh_denied)
  refresh_found s status (db, ok (c ∷ cs)) =
      after (denied (get_session s (c ∷ cs) db)) (rotate s status (c ∷ cs))

  unfoldable pub refresh : SessionStore → Text → StatusFn → M Session
  refresh s token status db =
      if not s.connected || is_empty token
      then (db, err refresh_denied)
      else refresh_found s status (get (refresh_key_prefix ++ token) db)
