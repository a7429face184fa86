-- ===== src/Chat/Dispatch.antt =====
-- `dispatch`, the router of the opcodes.
use apipro.Base.{ℕ, false, [], Text, ◌==◌, if◌then◌else◌}
use apipro.Chat.Server.{Services, send_binary}
use apipro.Chat.Wire.{
  op_heart, op_login, op_logout, op_room_enter, op_room_leave, op_comment, op_like,
  op_session_resume, op_heart_success, err_code_unauthorized, unknown_opcode,
}
use apipro.Session.Env.{World}
use apipro.Chat.Steps.{M, change, ensure, fail}
use apipro.Chat.Binding.{handle_login, handle_logout, handle_session_resume}
use apipro.Chat.Entering.{handle_room_enter, handle_room_leave}
use apipro.Chat.Comments.{handle_comment, handle_like}

module _ (w : World) (v : Services w) (c : ℕ) where
  open w use {redis}
  open redis use {Db}

  unfoldable pub handle_heart : M Db (Unit {0})
  handle_heart = change (send_binary w v c op_heart_success [])

  unfoldable pub dispatch : ℕ → Text → M Db (Unit {0})
  dispatch op body =
      if op == op_heart
      then handle_heart
      else if op == op_login
      then handle_login w v c body
      else if op == op_logout
      then handle_logout w v c body
      else if op == op_room_enter
      then handle_room_enter w v c body
      else if op == op_room_leave
      then handle_room_leave w v c body
      else if op == op_comment
      then handle_comment w v c body
      else if op == op_like
      then handle_like w v c body
      else if op == op_session_resume
      then handle_session_resume w v c body
      else ensure false (fail w v c err_code_unauthorized (unknown_opcode op))
