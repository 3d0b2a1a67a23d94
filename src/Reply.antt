-- ===== src/Reply.antt =====
-- reply.cpp: the server of the request/reply pattern.
pub mod Service
use nng_examples.Prelude.{ℕ, ◌+◌, ◌++◌, List, if◌then◌else◌, length}
use nng_examples.Bytes.{Bytes, text, bytes_eq, terminated}
use nng_examples.Bytes.Decimal.{decimal}
use nng_examples.Platform.{
  rep0, open_socket, listen, recvmsg, msg_free, time, ctime, getpid, Prog, ret, exit, ◌>>=◌, ◌>>◌,
  act, number, string, deref, argv, body_string,
}
use nng_examples.Platform.Loop.{forever}
use nng_examples.Checked.{check, checked, send_message}

unfoldable pub send : ℕ → Bytes → Prog (Unit {0})
send s msg =
    send_message s (length msg + 1) (terminated msg) (text "Could not allocate reply message")
      (text "Failed to encapsualte reply message.") (text "Failed to send response.")

-- The text that answers a request.
unfoldable pub compose : Bytes → Prog Bytes
compose req =
    if bytes_eq req (text "STOP")
    then ret (text "OK")
    else if bytes_eq req (text "DATE")
    then (do t ← number time; date ← string (ctime t); ret (text "OK " ++ date))
    else if bytes_eq req (text "PID")
    then (do pid ← number getpid; ret (text "OK " ++ decimal pid))
    else ret (text "ERROR - unrecognized request")

unfoldable pub process_request : ℕ → Bytes → Prog (Unit {0})
process_request s req = do
  reply ← compose req
  send s reply
  if bytes_eq req (text "STOP") then exit 0 else ret tt

-- One turn of the endless loop in `main`.
unfoldable pub serve : ℕ → Prog (Unit {0})
serve s = do
  m ← checked (recvmsg s) (text "Failed to recieve a request")
  request ← body_string m
  process_request s request
  act (msg_free m)

-- `main`, with the loop followed for `n` turns.
unfoldable pub main : ℕ → List Bytes → Prog (Unit {0})
main n args = do
  s ← checked (open_socket rep0) (text "Failed to open the reply socket.")
  uri ← deref (argv args 1)
  check (listen s uri) (text "Failed to listen on URI")
  forever n (serve s)
