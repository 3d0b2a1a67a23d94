-- ===== src/Req.antt =====
-- req.cpp: the client of the request/reply pattern.
pub mod Exchange
pub mod Conversation
use nng_examples.Prelude.{ℕ, ◌+◌, ◌++◌, List, length}
use nng_examples.Bytes.{Bytes, text, terminated}
use nng_examples.Platform.{
  req0, open_socket, dial, recvmsg, msg_free, print, stdout, Prog, exit, ◌>>=◌, ◌>>◌, act, deref,
  argv, body_string,
}
use nng_examples.Checked.{newline, check, checked, send_message, show_message}

-- Sends the request and gives the message that answers it.
unfoldable pub request : ℕ → Bytes → Prog ℕ
request s req = do
  send_message s (length req + 1) (terminated req) (text "Failed to allocate request message")
      (text "Failed to encapsualte request") (text "Failed to make request ")
  checked (recvmsg s) (text "Failed to get server response.")

-- Prints the reply and frees it.
unfoldable pub report : ℕ → Prog (Unit {0})
report m = do show_message stdout (text "Reply: ") m; exit 0

unfoldable pub main : List Bytes → Prog (Unit {0})
main args = do
  s ← checked (open_socket req0) (text "Failed to  open the req0 socket")
  uri ← deref (argv args 1)
  check (dial s uri) (text "Failed to dial the server")
  req ← deref (argv args 2)
  reply ← request s req
  report reply
