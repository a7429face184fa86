-- ===== src/Session/Tests.antt =====
-- Sessions in the world of Memory.
use apipro.Base.{◌≡◌, refl, Bool, true, [], ◌++◌, pos, ok, err, codes, arith, replicate, none, some}
use apipro.Redis.Memory.{Db}
use apipro.Session.{
  SessionStore, session_not_found, refresh_denied, new_session_store, issue_user, random_hex,
  get_session, found, loaded, persist, persist_refresh, revoke, revoke_keys, refresh, refresh_found,
  rotate, check_status, sess_key_prefix, plat_to_device, user_session, StatusFn, revoke_all_for_uid,
}
use apipro.Session.Env.{Session}
use apipro.Session.Hex.{hex}
use apipro.Session.Memory.{world, world_laws}
use apipro.Session.Revocation.{get_session-revoke}
use apipro.Session.Issue.{get_session-issue_user}
use apipro.Session.Rotation.{refresh_stale, refresh_rotates, Rotated}

abbrev empty : Db
empty = record { texts = λ k. []; windows = λ k. []; fails = [] }

abbrev store : SessionStore
store = record {
  connected = true;
  user_access_ttl = 1800;
  user_refresh_ttl = 2592000;
  guest_access_ttl = 86400;
}

-- Opens the store for a run.
running : Bool
unfolding new_session_store issue_user random_hex get_session found loaded persist persist_refresh
    revoke revoke_keys refresh refresh_found rotate check_status revoke_all_for_uid plat_to_device
    hex
running = true

new_session_store-store : new_session_store true ≡ store
unfolding running
new_session_store-store = refl

abbrev bob : Session
unfolding running
bob =
    user_session store (hex (replicate 24 7)) (hex (replicate 32 7)) (pos 5) (codes "bob") []
      (pos 1) (pos 2) 1000

abbrev signed_in : Db
unfolding running
signed_in = (issue_user (world 1000) store (pos 5) (codes "bob") [] (pos 1) (pos 2) empty).0

issued : (issue_user (world 1000) store (pos 5) (codes "bob") [] (pos 1) (pos 2) empty).1 ≡ ok bob
unfolding running
issued = refl

get_session-issue_user_example :
    (bob.uid ≡ pos 5) × (get_session (world 1000) store bob.access_token signed_in).1 ≡ ok bob
unfolding running
get_session-issue_user_example =
    get_session-issue_user (world 1000) (world_laws 1000) store (pos 5) (codes "bob") [] (pos 1)
      (pos 2) bob (signed_in.texts (sess_key_prefix ++ bob.access_token)) empty signed_in issued
      refl refl (omega arith)

abbrev signed_out : Db
unfolding running
signed_out = (revoke (world 1000) store bob.access_token signed_in).0

get_session-revoke_example :
    (get_session (world 1000) store bob.access_token signed_out).1 ≡ err session_not_found
unfolding running
get_session-revoke_example =
    get_session-revoke (world 1000) (world_laws 1000) store bob.access_token bob 1 signed_in
      signed_out refl refl refl

-- Half an hour and more after the session was issued, with 29 days of its refresh window left.
refresh_stale_example :
    (refresh (world 4000) store bob.refresh_token none signed_in).1 ≡ err refresh_denied
unfolding running
refresh_stale_example =
    refresh_stale (world 4000) (world_laws 4000) store bob.refresh_token none bob.access_token
      (signed_in.texts (sess_key_prefix ++ bob.access_token)) bob signed_in refl refl refl refl

abbrev active_user : StatusFn (world 2000)
active_user = some (λ uid db. (db, ok (pos 1)))

abbrev renewed : Session
unfolding running
renewed =
    user_session store (hex (replicate 24 7)) (hex (replicate 32 7)) (pos 5) (codes "bob") []
      (pos 1) (pos 2) 2000

refresh_rotates_example :
    Rotated (world 2000) (world_laws 2000) store bob.refresh_token active_user renewed signed_in
unfolding running
refresh_rotates_example =
    refresh_rotates (world 2000) (world_laws 2000) store bob.refresh_token active_user renewed
      signed_in refl
