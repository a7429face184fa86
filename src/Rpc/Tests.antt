-- ===== src/Rpc/Tests.antt =====
-- Calls over a Redis in memory and a table of one user.
use apipro.Base.{
  ◌≡◌, ◌≢◌, refl, Bool, true, false, [], Text, pos, none, some, Result, ok, err, codes, replicate,
  length, arith, text_eq, if◌then◌else◌,
}
use apipro.Degrade.{Mode, mode_normal, mode_degraded, mode_protected, can_serve_level, serve_table}
use apipro.Models.{
  User, UserTable, no_rows, find_by_phone, find_by_uid, scan_user, find_user_grow_for_value,
  grow_found,
}
use apipro.Password.{verify_password, db_password, md5_hex, empty_password}
use apipro.RateLimit.Limiter.{new, allow, decide, record_request}
use apipro.Redis.Decimal.{parse_int}
use apipro.Redis.Memory.{Db, memory_laws}
use apipro.Semaphore.{slot, with_token, acquire, enter, take_token, count_acquired, leave, release}
use apipro.Session.{
  Error, issue_user, random_hex, persist, persist_refresh, plat_to_device, get_session, found,
  loaded,
}
use apipro.Session.Hex.{hex}
use apipro.Session.Env.{World, Session}
use apipro.Session.Memory.{world}
use apipro.Sms.{Strings, verify, sms_key, compared, bypassed}
use apipro.Redis.Decimal.{print_int, print_ℕ}
use apipro.Rpc.Node.{Services, Node, on_db, require, gate, with_sem, record_db_error_for_degrade}
use apipro.Rpc.Phone.{validate_phone, normalize_cc}
use apipro.Rpc.Wire.{
  LoginReq, RegisterReq, Reply, Exit, replied, raw, refusal, register_message, by_password,
}
use apipro.Rpc.Auth.{
  handle_login, answer, build_user_info, build_auth_response, record_login_fail, fail_counted,
  user_or_exit, check_password, login_shape, login_admitted, login_user, open_session,
  login_limiter, fail_key,
}
use apipro.Rpc.Login.{handle_login-LoggedIn, LoggedIn}
use apipro.Rpc.Lockout.{handle_login_locked}
use apipro.Rpc.Closed.{
  register_closed, user_detail_closes_register, handle_register_unhashed, normal_node, closed_exit,
}
use apipro.Rpc.Served.{now, then_}
use apipro.Rpc.ShowTests.{shelf}
use apipro.Rpc.Whole.{whole_call}
use apipro.Cache.{Stats}
use apipro.Fallback.{new_counters}
use apipro.Rpc.Account.{handle_user_detail}
use apipro.Rpc.Register.{handle_register, register_shape, remember, check_codes}
use apipro.Rpc.Replay.{handle_register-remember}
use apipro.Rpc.Call.{CallReq, call, method_of, handler, display_method}
use apipro.Rpc.Calls.{call-Keeps}
use apipro.Rpc.Keeps.{Keeps}

abbrev strings : Strings
strings = record { trim_space = λ s. s; to_lower = λ s. s }

abbrev phone : Text
phone = codes "13800000000"

abbrev stored : Text
unfolding hex
stored = hex (replicate 16 9)

abbrev bob : User
unfolding stored
bob = record {
  uid = pos 7;
  login_name = phone;
  nick_name = codes "bob";
  phone = phone;
  country_code = codes "86";
  password = stored;
  salt = codes "s";
  pwd_type = pos 2;
  user_type = pos 1;
  score = pos 0;
  grow = pos 0;
  status = pos 1;
  icon = [];
  gender = pos 0;
  birthday = none;
  plat = pos 1;
  created_at = pos 1;
  updated_at = pos 1;
}

abbrev users : Bool → UserTable Db
users full = record {
  select_uid = λ uid db. (db, err no_rows);
  select_phone = λ cc p db. (db, if full then ok bob else err no_rows);
  select_login_name = λ name db. (db, err no_rows);
  insert_row = λ u db. (db, ok tt);
  max_or_1000 = λ db. (db, pos 1000);
  select_max = λ db. (db, ok none);
  select_grow = λ value db. (db, err no_rows);
}

abbrev login_req : LoginReq
login_req = record {
  account_type = pos 1;
  country_code = codes "+86";
  phone = phone;
  login_mode = pos 1;
  login_type = pos 1;
  password = codes "p";
  pwd_type = pos 2;
  plat = pos 1;
}

abbrev register_req : Text → RegisterReq
register_req password = record {
  account_type = pos 1;
  country_code = codes "86";
  phone = phone;
  sms_type = pos 1;
  sms_code = codes "1";
  password = password;
  nick_name = codes "bob";
  icon = [];
  pwd_type = pos 2;
  kaptcha = [];
  plat = pos 1;
}

abbrev w : World
w = world 1000

abbrev services : Bool → Services w
services full = record {
  users = users full;
  nanos = λ db. 1000000000000;
  strings = strings;
  hashing = record { md5_sum = λ s. replicate 16 9; encode_base64 = λ raw. raw };
  rune_count = length;
  equal_fold = text_eq;
  atoi = λ t. pos 86;
  marshal_auth = λ resp. ok (codes "{}");
  parse_login = λ t. some login_req;
  parse_register = λ t. some (register_req (codes "p"));
  parse_refresh = λ t. some t;
  parse_sms = λ t. none;
  parse_sms_check = λ t. none;
  parse_plat = λ t. pos 0;
  sessions = record {
    connected = true;
    user_access_ttl = 1800;
    user_refresh_ttl = 2592000;
    guest_access_ttl = 86400;
  };
  sms = record { connected = true; mode = codes "prod"; bypass = [] };
  wake = λ s db. slot;
}

abbrev empty : Db
empty = record { texts = λ k. []; windows = λ k. []; fails = [] }

abbrev node : Mode → Db → Node Db
node mode db = record {
  db = db;
  degrade = record { mode = mode; watchers = [] };
  semaphore = some (record {
    name = [];
    tokens = 3;
    capacity = 50;
    total = pos 50;
    waiting = 0;
    acquired = 3;
    rejected = 0;
  });
}

abbrev guest : Session
guest = record {
  access_token = [];
  refresh_token = [];
  uid = pos 0;
  nick_name = [];
  icon = [];
  user_type = pos 1;
  device_type = [];
  plat = pos 1;
  is_guest = true;
  access_expire_at = pos 0;
  refresh_expire_at = pos 0;
}

-- Opens the handlers for a run.
running : Bool
unfolding handle_login build_user_info build_auth_response record_login_fail fail_counted
    user_or_exit check_password login_shape login_admitted login_user open_session login_limiter
    on_db require gate with_sem record_db_error_for_degrade validate_phone normalize_cc
    can_serve_level serve_table find_by_phone find_by_uid scan_user find_user_grow_for_value
    grow_found verify_password db_password md5_hex hex new allow decide record_request with_token
    acquire enter take_token count_acquired leave release stored issue_user random_hex persist
    persist_refresh plat_to_device get_session found loaded
running = true

abbrev reply_or : Result Exit Reply → Reply
reply_or (ok reply) = reply
reply_or (err e) = answer (raw [])

abbrev logged_in : Node Db × Result Exit Reply
logged_in = handle_login w (services true) [] (node mode_degraded empty)

handle_login-LoggedIn_example :
    LoggedIn w (services true) [] (node mode_degraded empty) (reply_or logged_in.1)
unfolding running
handle_login-LoggedIn_example =
    handle_login-LoggedIn w (services true) [] (node mode_degraded empty) (reply_or logged_in.1)
      refl

abbrev login_call : CallReq
login_call = record { seq = pos 1; method = codes "login"; session_id = []; param_json = [] }

call-Keeps_example : Keeps (node mode_degraded empty) logged_in.0
unfolding running call method_of handler
call-Keeps_example =
    call-Keeps w (services true) login_call (node mode_degraded empty) logged_in.0
      (some (record {
        seq = pos 1;
        new_session_id = [];
        code = 200;
        meg = (reply_or logged_in.1).meg;
        result = (reply_or logged_in.1).payload;
      }))
      refl

-- Nine failures are counted already.
abbrev nine : Db
nine = record {
  texts = λ k. if text_eq k (fail_key (codes "86") phone) then codes "9" else [];
  windows = λ k. [];
  fails = [];
}

abbrev ten : Db
unfolding running
ten = (record_login_fail w (services true) (codes "86") phone nine).0

handle_login_locked_example :
    (handle_login w (services true) [] (node mode_normal ten)).1 ≢ ok (answer (raw []))
unfolding running parse_int
handle_login_locked_example =
    handle_login_locked w (services true) memory_laws [] login_req 10 (codes "1") nine
      (node mode_normal ten) (answer (raw [])) refl refl (omega arith) refl refl refl

register_closed_example : handle_register w (services false) [] (node mode_protected empty) ≡ (
  node mode_protected empty,
  err (closed_exit w (services false) (some (register_req (codes "p")))),
)
register_closed_example =
    register_closed w (services false) [] (node mode_protected empty) (λ e. cc e)

-- The environment after a session was issued to a user whose row is not in the table.
abbrev with_session : Db
unfolding running
with_session = (issue_user w (services false).sessions (pos 7) [] [] (pos 1) (pos 1) empty).0

abbrev token : Text
unfolding running
token = hex (replicate 24 7)

abbrev or_bob : Result Error Session → Session
or_bob (ok sess) = sess
or_bob (err e) = guest

-- The node after the details were asked for, and after one more call, of an unknown method.
abbrev lost : Node Db
lost =
    (handle_user_detail w (services false) token (normal_node w (services false) with_session [])).0

abbrev no_stats : Stats
no_stats = record { hits = λ n. 0; misses = λ n. 0 }

abbrev ping : CallReq
ping = record { seq = pos 1; method = codes "ping"; session_id = []; param_json = [] }

user_detail_closes_register_example :
    (lost.degrade.mode ≡ mode_degraded)
    × (handle_register w (services false) [] lost
        ≡ (lost, err (closed_exit w (services false) (some (register_req (codes "p"))))))
unfolding running whole_call method_of display_method
user_detail_closes_register_example =
    user_detail_closes_register w (services false) shelf token []
      (or_bob (get_session w (services false).sessions token with_session).1) [] with_session lost
      refl refl refl refl (then_ now ping no_stats new_counters [])

-- A request without a password, and a stored SMS code.
abbrev unhashed : Services w
unhashed = record (services false) { parse_register = λ t. some (register_req []) }

abbrev coded : Db
coded = record {
  texts = λ k. if text_eq k (codes "yuyan:sms:86:13800000000:1") then codes "1" else [];
  windows = λ k. [];
  fails = [];
}

abbrev with_codes : Node Db
unfolding running check_codes verify compared bypassed sms_key print_int print_ℕ
with_codes =
    (check_codes w unhashed (codes "86") (register_req []) (normal_node w unhashed coded [])).0

handle_register_unhashed_example :
    let ending = handle_register w unhashed [] (normal_node w unhashed coded []) in
    (ending.0.degrade.mode ≡ mode_degraded)
    × (ending.1 ≡ err (refusal 400 (register_message (by_password empty_password))))
unfolding running check_codes with_codes verify compared bypassed sms_key print_int print_ℕ
handle_register_unhashed_example =
    handle_register_unhashed w unhashed [] (register_req []) [] coded with_codes.db refl refl refl
      refl refl refl refl refl

abbrev remembered : Db
unfolding remember
remembered = (remember w (services false) (codes "86") phone (ok (codes "{}")) empty).0

handle_register-remember_example :
    (handle_register w (services false) [] (node mode_normal remembered)).1
    ≡ err (replied (answer (raw (codes "{}"))))
unfolding running register_shape remember remembered
handle_register-remember_example =
    handle_register-remember w (services false) memory_laws [] (codes "{}")
      (register_req (codes "p")) empty (node mode_normal remembered) (codes "{}") (λ e. cc e) refl
      refl refl refl refl refl
