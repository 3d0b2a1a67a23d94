-- ===== src/Respondent.antt =====
-- respondent.cpp: answers the surveys that concern it.
pub mod Service
use nng_examples.Prelude.{
  ℕ, ◌+◌, ◌%◌, ◌==◌, Bool, true, false, not, ◌&&◌, List, length, if◌then◌else◌,
}
use nng_examples.Bytes.{Bytes, text, bytes_eq, terminated}
use nng_examples.Bytes.Decimal.{decimal}
use nng_examples.Platform.{
  respondent0, open_socket, dial, recvmsg, msg_free, getpid, Prog, ret, ◌>>=◌, ◌>>◌, act, number,
  deref, argv, body_string,
}
use nng_examples.Platform.Loop.{forever}
use nng_examples.Checked.{check, checked, send_message}

unfoldable pub getmsg : ℕ → Prog Bytes
getmsg s = do
  m ← checked (recvmsg s) (text "Failed to read a survey")
  result ← body_string m
  act (msg_free m)
  ret result

unfoldable pub reply : ℕ → ℕ → Prog (Unit {0})
reply s pid =
    send_message s (length (decimal pid) + 1) (terminated (decimal pid))
      (text "Failed to alloctae reply msg.") (text "Failed to encpasulate reply")
      (text "Failed to reply to the server")

-- `bool even = (me % 2) == 0;`
abbrev pub is_even : ℕ → Bool
is_even me = me % 2 == 0

-- The value of `respond`.
unfoldable pub responds : Bytes → Bool → Bool
responds survey even =
    if bytes_eq survey (text "ALL")
    then true
    else if bytes_eq survey (text "EVEN") && even
    then true
    else if bytes_eq survey (text "ODD") && not even
    then true
    else false

-- One turn of the endless loop.
unfoldable pub turn : ℕ → ℕ → Prog (Unit {0})
turn s me = do survey ← getmsg s; if responds survey (is_even me) then reply s me else ret tt

-- `main`, with the loop followed for `n` turns.
unfoldable pub main : ℕ → List Bytes → Prog (Unit {0})
main n args = do
  s ← checked (open_socket respondent0) (text "Failed to open a respondent socket")
  uri ← deref (argv args 1)
  check (dial s uri) (text "Failed to dial the surveyor")
  me ← number getpid
  forever n (turn s me)
