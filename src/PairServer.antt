-- ===== src/PairServer.antt =====
-- onetoones.cpp: the listening side of a pair.
pub mod Service
use nng_examples.Prelude.{ℕ, ◌+◌, ◌++◌, List, length}
use nng_examples.Bytes.{Bytes, text, terminated}
use nng_examples.Bytes.Decimal.{decimal}
use nng_examples.Platform.{
  pair0, open_socket, listen, recvmsg, sendmsg, getpid, Prog, ◌>>=◌, ◌>>◌, number, deref, argv,
}
use nng_examples.Platform.Loop.{forever}
use nng_examples.Checked.{check, checked, send_message}

-- The text of the unsolicited message.
abbrev pub introduction : ℕ → Bytes
introduction pid = text "My Pid, by the way is, " ++ decimal pid

unfoldable pub service : ℕ → Prog (Unit {0})
service s = do
  m ← checked (recvmsg s) (text "Faield to get msg")
  check (sendmsg s m) (text "Failed to echo")
  pid ← number getpid
  let msg = introduction pid
  send_message s (length msg + 1) (terminated msg) (text "Unable to allocate message")
      (text "Failed to encapsualate message") (text "Failed to send unsolicited msg.")

-- `main`, with the loop followed for `n` turns.
unfoldable pub main : ℕ → List Bytes → Prog (Unit {0})
main n args = do
  s ← checked (open_socket pair0) (text "Failed to open the socket (pair0)")
  uri ← deref (argv args 1)
  check (listen s uri) (text "Failed to start listener ")
  forever n (service s)
