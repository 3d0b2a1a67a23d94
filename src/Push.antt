-- ===== src/Push.antt =====
-- push.cpp: the sending side of a pipeline, which listens.
pub mod Order
use nng_examples.Prelude.{ℕ, zero, suc, ◌+◌, ◌++◌, List, length}
use nng_examples.Bytes.{Bytes, text, terminated}
use nng_examples.Bytes.Decimal.{decimal}
use nng_examples.Platform.{
  push0, open_socket, listen, sleep, Prog, ret, exit, ◌>>=◌, ◌>>◌, act, deref, argv,
}
use nng_examples.Checked.{check, checked, send_message}

abbrev pub msg_count : ℕ
msg_count = 50

abbrev pub message : ℕ → Bytes
message seq = text "message number " ++ decimal seq

-- The body of the loop.
unfoldable pub push_one : ℕ → ℕ → Prog (Unit {0})
push_one s seq =
    send_message s (length (message seq) + 1) (terminated (message seq))
      (text "Could not allocate a message struct") (text "Could not append string to message")
      (text "Could not send message")

-- The loop from `seq` on, with `left` rounds to go.
unfoldable pub push_from : ℕ → ℕ → ℕ → Prog (Unit {0})
push_from s seq zero = ret tt
push_from s seq (suc left) = push_one s seq >> push_from s (suc seq) left

unfoldable pub main : List Bytes → Prog (Unit {0})
main args = do
  s ← checked (open_socket push0) (text "Failed to open push socket")
  uri ← deref (argv args 1)
  check (listen s uri) (text "Pusher coud not listen for socekt")
  act (sleep 2)
  push_from s 0 msg_count
  exit 0
