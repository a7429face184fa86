-- ===== src/Rpc.antt =====
-- cmd/rpc/internal/logic/call.go: the one RPC method and the handlers it dispatches to. Requests come
-- decoded, and a reply's payload is what the JSON encoder is given.
pub mod Phone
pub mod Wire
pub mod Node
pub mod Auth
pub mod Register
pub mod Account
pub mod Codes
pub mod Keeps
mod Tests
pub mod Calls
pub mod Call
pub mod Pages
pub mod Show
pub mod Shut
pub mod Whole
pub mod Served
mod ShowTests
pub mod Replay
pub mod Lockout
pub mod Closed
pub mod Login
pub mod Paths
pub mod Invariant
use apipro.Base.{ℕ}

abbrev pub code_ok : ℕ
code_ok = 200

abbrev pub code_login_required : ℕ
code_login_required = 100

abbrev pub code_business_error : ℕ
code_business_error = 400

abbrev pub code_account_not_found : ℕ
code_account_not_found = 4101

abbrev pub code_password_wrong : ℕ
code_password_wrong = 4102

abbrev pub code_user_banned : ℕ
code_user_banned = 4103

abbrev pub code_phone_already_reg : ℕ
code_phone_already_reg = 4104

abbrev pub code_login_locked : ℕ
code_login_locked = 4105

abbrev pub code_sms_check_failed : ℕ
code_sms_check_failed = 4106

abbrev pub code_rate_limited : ℕ
code_rate_limited = 4113

abbrev pub code_phone_invalid : ℕ
code_phone_invalid = 4114

abbrev pub code_kaptcha_invalid : ℕ
code_kaptcha_invalid = 4120
