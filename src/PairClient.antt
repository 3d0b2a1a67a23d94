-- ===== src/PairClient.antt =====
-- onetoonec.cpp: the dialing side of a pair.
pub mod Talk
pub mod Conversation
use nng_examples.Prelude.{
  ℕ, ◌+◌, ◌-◌, ◌%◌, ◌^◌, ◌++◌, List, Option, some, none, length, take, ltb, leb, if◌then◌else◌,
}
use nng_examples.Bytes.{Bytes, text, terminated}
use nng_examples.Platform.{
  pair0, open_socket, dial, recvmsg, sendmsg, msg_alloc, msg_insert, stdout, Prog, exit, ◌>>=◌,
  ◌>>◌, deref, argv,
}
use nng_examples.Checked.{check, checked, show_message}

-- A size_t that went through an int, as the size_t that it comes back as.
unfoldable pub through_int : ℕ → ℕ
through_int n = let low = n % 2 ^ 32 in if ltb low (2 ^ 31) then low else 2 ^ 64 - 2 ^ 32 + low

-- The first `n` bytes at a pointer to these; `none` if that reads past them.
unfoldable pub read_bytes : Bytes → ℕ → Option Bytes
read_bytes bs n = if leb n (length bs) then some (take n bs) else none

-- `int l = strlen(msg) + 1`, and `l` bytes are allocated and inserted.
unfoldable pub send : ℕ → Bytes → Prog (Unit {0})
send s msg = do
  let l = through_int (length msg + 1)
  m ← checked (msg_alloc l) (text "Failed to allocate nng_msg")
  d ← deref (read_bytes (terminated msg) l)
  check (msg_insert m d) (text "Failed to encapsulate string")
  check (sendmsg s m) (text "Failed to send message")

unfoldable pub recv_and_print : ℕ → Prog (Unit {0})
recv_and_print s = do
  m ← checked (recvmsg s) (text "Failed to receive a message")
  show_message stdout (text "Got: ") m

unfoldable pub recv : ℕ → Prog (Unit {0})
recv s = do recv_and_print s; recv_and_print s

-- The end of `main`.
unfoldable pub converse : ℕ → Bytes → Prog (Unit {0})
converse s msg = do send s msg; recv s; exit 0

unfoldable pub main : List Bytes → Prog (Unit {0})
main args = do
  s ← checked (open_socket pair0) (text "Failed to open pair.")
  uri ← deref (argv args 1)
  check (dial s uri) (text "Failed to dial the server")
  msg ← deref (argv args 2)
  converse s msg
