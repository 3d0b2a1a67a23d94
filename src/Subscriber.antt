-- ===== src/Subscriber.antt =====
-- subscriber.cpp: prints what it receives of the subject that it subscribes to.
pub mod Shown
use nng_examples.Prelude.{ℕ, ◌++◌, List}
use nng_examples.Bytes.{Bytes, text}
use nng_examples.Bytes.Decimal.{decimal}
use nng_examples.Platform.{
  sub0, sub_subscribe, open_socket, dial, set_option, recvmsg, getpid, stdout, Prog, ◌>>=◌, ◌>>◌,
  number, deref, argv,
}
use nng_examples.Platform.Loop.{forever}
use nng_examples.Checked.{check, checked, show_message}

-- One turn of the endless loop.
unfoldable pub show : ℕ → Prog (Unit {0})
show s = do
  m ← checked (recvmsg s) (text "Failed to receive from publisher")
  pid ← number getpid
  show_message stdout (decimal pid ++ text " Got ") m

-- `main`, with the loop followed for `n` turns. The option's value is the text without its
-- terminator, by `strlen`.
unfoldable pub main : ℕ → List Bytes → Prog (Unit {0})
main n args = do
  s ← checked (open_socket sub0) (text "Failed to open subscription socket")
  uri ← deref (argv args 1)
  check (dial s uri) (text "Failed to dial the publisher.")
  subscription ← deref (argv args 2)
  check (set_option s (sub_subscribe subscription)) (text "Failed to set subscription string")
  forever n (show s)
