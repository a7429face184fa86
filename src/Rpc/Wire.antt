-- ===== src/Rpc/Wire.antt =====
-- The requests and the replies of the RPC method, as the JSON codec gives and takes them.
use apipro.Cache.{CacheError}
use apipro.Base.{ℕ, Text, ℤ}
use apipro.Models.{DbError}
use apipro.Password.{PasswordError}
use apipro.Session.{Error}

pub record GrowDto : Type 0 where
  pub id : ℤ
  pub name : Text
  pub next_min_grow : ℤ

pub record UserInfo : Type 0 where
  pub uid : ℤ
  pub nick_name : Text
  pub icon : Text
  pub cut_out_icon : Text
  pub user_type : ℤ
  pub score : ℤ
  pub grow : ℤ
  pub grow_dto : GrowDto
  pub gender : ℤ
  pub birthday : ℤ
  pub login_name : Text
  pub phone : Text
  pub country_code : Text

-- The field `urls` is always empty, and then left out of the JSON.
pub record AuthResponse : Type 0 where
  pub access_token : Text
  pub session_id : Text
  pub refresh_token : Text
  pub user_info : UserInfo
  pub phone : Text
  pub country_code : ℤ
  pub login_name : Text

-- What the JSON encoder is given; `raw` is JSON already.
pub data Payload : Type 0 where
  nothing empty_object : Payload
  raw : Text → Payload
  auth : AuthResponse → Payload
  user : UserInfo → Payload

-- What the closure of `handleRegister` returns; `collision` is its own text, which asks for a retry.
pub data RegisterError : Type 0 where
  by_db : DbError → RegisterError
  by_password : PasswordError → RegisterError
  collision : RegisterError

-- The texts of the replies.
pub data Message : Type 0 where
  no_message invalid_request login_failed pwd_type_unsupported phone_malformed auth_closed : Message
  too_frequent account_locked busy not_registered password_wrong account_banned : Message
  register_failed nick_name_short register_closed sms_code_wrong kaptcha_wrong : Message
  already_registered logout_closed detail_closed codes_closed login_required : Message
  refresh_refused cooling_down hourly_limit : Message
  db_message : DbError → Message
  register_message : RegisterError → Message
  session_message guest_message : Error → Message
  sms_message : ℕ → Message
  unknown_method : Text → Message
  show_closed unavailable schedule_missing match_unknown date_malformed : Message
  live_type_missing room_missing room_unknown : Message
  cache_message : CacheError → Message

pub record Reply : Type 0 where
  pub payload : Payload
  pub code : ℕ
  pub meg : Message

-- How a call ends before its last line; `parked` waits for a token of the semaphore.
pub data Exit : Type 0 where
  parked : Exit
  replied : Reply → Exit

abbrev pub refusal : ℕ → Message → Exit
refusal code meg = replied record { payload = nothing; code = code; meg = meg }

pub record LoginReq : Type 0 where
  pub account_type : ℤ
  pub country_code : Text
  pub phone : Text
  pub login_mode : ℤ
  pub login_type : ℤ
  pub password : Text
  pub pwd_type : ℤ
  pub plat : ℤ

pub record RegisterReq : Type 0 where
  pub account_type : ℤ
  pub country_code : Text
  pub phone : Text
  pub sms_type : ℤ
  pub sms_code : Text
  pub password : Text
  pub nick_name : Text
  pub icon : Text
  pub pwd_type : ℤ
  pub kaptcha : Text
  pub plat : ℤ

pub record SmsReq : Type 0 where
  pub country_code : Text
  pub phone : Text
  pub type : ℤ

pub record SmsCheckReq : Type 0 where
  pub country_code : Text
  pub phone : Text
  pub type : ℤ
  pub sms_code : Text
