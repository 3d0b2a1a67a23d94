-- ===== src/Checked.antt =====
-- What every program does with nng: `checkstat` (each program has the same copy of it; here that of
-- req.cpp), and the patterns around it: a checked call, a message that is made and sent, a message
-- that is received. Checked/Rules has a rule for each.
pub mod Rules
pub mod Startup
pub mod Shown
use nng_examples.Prelude.{ℕ, ◌++◌, List, [], ◌∷◌, ◌==◌, if◌then◌else◌}
use nng_examples.Bytes.{Bytes, text}
use nng_examples.Platform.{
  Protocol, Call, open_socket, msg_alloc, msg_insert, sendmsg, recvmsg, msg_free, strerror, print,
  stderr, Prog, ret, exit, call, ◌>>=◌, ◌>>◌, ask, act, body_string, Stream,
}

-- std::endl
abbrev pub newline : Bytes
newline = 10 ∷ []

-- The line that says what failed and why.
abbrev pub diagnosis : Bytes → Bytes → Bytes
diagnosis doing why = doing ++ text ": " ++ why ++ newline

unfoldable pub checkstat : ℕ → Bytes → Prog (Unit {0})
checkstat status doing =
    if status == 0
    then ret tt
    else do a ← ask (strerror status); act (print stderr (diagnosis doing a.bytes)); exit 1

-- checkstat(f(...), doing)
unfoldable pub check : Call → Bytes → Prog (Unit {0})
check c doing = call c (λ a. checkstat a.status doing)

-- checkstat(f(&result, ...), doing)
unfoldable pub checked : Call → Bytes → Prog ℕ
checked c doing = call c (λ a. do checkstat a.status doing; ret a.value)

-- Allocate a message of `len` bytes, insert the `len` bytes `d` and send it.
unfoldable pub send_message : ℕ → ℕ → Bytes → Bytes → Bytes → Bytes → Prog (Unit {0})
unfolding check checked
send_message s len d alloc_doing insert_doing send_doing = do
  m ← checked (msg_alloc len) alloc_doing
  check (msg_insert m d) insert_doing
  check (sendmsg s m) send_doing

-- `std::cout << prefix << (const char*)nng_msg_body(m) << std::endl`, or the same to std::cerr, and
-- nng_msg_free(m).
unfoldable pub show_message : Stream → Bytes → ℕ → Prog (Unit {0})
show_message o prefix m = do
  body ← body_string m
  act (print o (prefix ++ body ++ newline))
  act (msg_free m)
