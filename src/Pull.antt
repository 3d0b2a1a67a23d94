-- ===== src/Pull.antt =====
-- pull.cpp: the receiving side of a pipeline, which dials.
pub mod Shown
use nng_examples.Prelude.{ℕ, ◌++◌, List}
use nng_examples.Bytes.{Bytes, text}
use nng_examples.Bytes.Decimal.{decimal}
use nng_examples.Platform.{
  pull0, open_socket, dial, recvmsg, getpid, stderr, Prog, ◌>>=◌, ◌>>◌, number, deref, argv,
}
use nng_examples.Platform.Loop.{forever}
use nng_examples.Checked.{check, checked, show_message}

-- One turn of the endless loop.
unfoldable pub pull : ℕ → Prog (Unit {0})
pull s = do
  m ← checked (recvmsg s) (text "Unable to receive mssage")
  pid ← number getpid
  show_message stderr (decimal pid ++ text " Received : ") m

-- `main`, with the loop followed for `n` turns.
unfoldable pub main : ℕ → List Bytes → Prog (Unit {0})
main n args = do
  s ← checked (open_socket pull0) (text "Could not open the pull socket")
  uri ← deref (argv args 1)
  check (dial s uri) (text "Unable to dial the push program")
  forever n (pull s)
