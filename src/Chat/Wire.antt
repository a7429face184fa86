-- ===== src/Chat/Wire.antt =====
-- The opcodes of the chat, and the bodies of its frames as the JSON codec gives and takes them.
use apipro.Base.{ℕ, Text, ℤ}

abbrev pub op_heart : ℕ
op_heart = 1000

abbrev pub op_login : ℕ
op_login = 1001

abbrev pub op_logout : ℕ
op_logout = 1002

abbrev pub op_room_enter : ℕ
op_room_enter = 1003

abbrev pub op_room_leave : ℕ
op_room_leave = 1004

abbrev pub op_comment : ℕ
op_comment = 1005

abbrev pub op_like : ℕ
op_like = 1007

abbrev pub op_session_resume : ℕ
op_session_resume = 1010

abbrev pub op_heart_success : ℕ
op_heart_success = 2000

abbrev pub op_login_success : ℕ
op_login_success = 2001

abbrev pub op_logout_success : ℕ
op_logout_success = 2002

abbrev pub op_room_enter_success : ℕ
op_room_enter_success = 2003

abbrev pub op_room_leave_success : ℕ
op_room_leave_success = 2004

abbrev pub op_comment_success : ℕ
op_comment_success = 2005

abbrev pub op_like_success : ℕ
op_like_success = 2007

abbrev pub op_session_resume_success : ℕ
op_session_resume_success = 2010

abbrev pub op_comment_push : ℕ
op_comment_push = 3000

abbrev pub op_view_num_push : ℕ
op_view_num_push = 3005

abbrev pub op_error : ℕ
op_error = 9999

-- The codes in the body of an error.
abbrev pub err_code_not_in_chat_server : ℕ
err_code_not_in_chat_server = 1000

abbrev pub err_code_sensitive_word : ℕ
err_code_sensitive_word = 1002

abbrev pub err_code_unauthorized : ℕ
err_code_unauthorized = 1003

abbrev pub err_code_muted : ℕ
err_code_muted = 1004

abbrev pub err_code_account_disabled : ℕ
err_code_account_disabled = 1005

-- The texts of the errors and notices, by what they say.
pub data Notice : Type 0 where
  invalid_frame length_mismatch decrypt_refused missing_key invalid_session login_required : Notice
  missing_room invalid_room not_in_room guests_muted room_not_live account_banned ip_banned : Notice
  rate_limited sensitive : Notice
  unknown_opcode : ℕ → Notice

-- A comment as it is pushed; the sender stands in it twice.
pub record CommentPush : Type 0 where
  pub send_uid : ℤ
  pub room_num : Text
  pub msg_type : ℤ
  pub send_time : ℤ
  pub content : Text
  pub nick_name : Text
  pub icon : Text
  pub msg_id : ℤ

-- A row of the table of messages; its time in milliseconds.
pub record ChatRoomMessage : Type 0 where
  pub id : ℤ
  pub send_uid : ℤ
  pub room_num : Text
  pub send_time : ℤ
  pub content : Text
  pub type : ℤ
  pub ip : Text
  pub status : ℤ
  pub created_at : ℤ

-- What the JSON encoder is given.
pub data Body : Type 0 where
  error : ℕ → Notice → Body
  comment : CommentPush → Body
  -- a row of the table, pushed again
  replayed : ChatRoomMessage → Body
  like : ℤ → Text → Body
  view_num : Text → ℤ → Body
  -- the room, who entered and when
  entered : Text → Text → ℤ → Body
  -- the room, the text, the type and when
  system : Text → Notice → ℤ → ℤ → Body

pub record CommentBody : Type 0 where
  pub room_num : Text
  pub msg_type : ℤ
  pub content : Text
  pub send_uid : ℤ

-- A text frame of the old page; a field that is absent is zero.
pub record TextFrame : Type 0 where
  pub op : ℕ
  pub key : Text
  pub plat : ℤ
  pub version : ℤ
  pub room_num : Text
  pub content : Text
  pub have_history : ℤ
  pub msg_type : ℤ
