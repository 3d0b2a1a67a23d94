-- ===== src/Publisher.antt =====
-- publisher.cpp: sends its name, its process id and the time, every two seconds.
pub mod Topics
pub mod Service
use nng_examples.Prelude.{ℕ, ◌+◌, ◌++◌, List, Option, length}
use nng_examples.Bytes.{Bytes, text, terminated}
use nng_examples.Bytes.Decimal.{decimal}
use nng_examples.Platform.{
  pub0, open_socket, listen, time, ctime, getpid, sleep, Prog, ◌>>=◌, ◌>>◌, act, number, string,
  deref, argv,
}
use nng_examples.Platform.Loop.{forever}
use nng_examples.Checked.{check, checked, send_message}

unfoldable pub send : ℕ → Bytes → Prog (Unit {0})
send s msg =
    send_message s (length msg + 1) (terminated msg) (text "Failed to allocate message")
      (text "Failed to encapsulate message") (text "Failed to send message")

-- The texts of the three messages.
abbrev pub name_text : Bytes → Bytes
name_text name = text "NAME" ++ text " " ++ name

abbrev pub pid_text : ℕ → Bytes
pid_text pid = text "PID" ++ text " " ++ decimal pid

abbrev pub time_text : Bytes → Bytes
time_text date = text "TIME" ++ text " " ++ date

unfoldable pub publish : ℕ → Option Bytes → Prog (Unit {0})
publish s name = do
  n ← deref name
  send s (name_text n)
  pid ← number getpid
  send s (pid_text pid)
  t ← number time
  date ← string (ctime t)
  send s (time_text date)

-- One turn of the endless loop.
unfoldable pub turn : ℕ → Option Bytes → Prog (Unit {0})
turn s name = do publish s name; act (sleep 2)

-- `main`, with the loop followed for `n` turns.
unfoldable pub main : ℕ → List Bytes → Prog (Unit {0})
main n args = do
  s ← checked (open_socket pub0) (text "Failed to open pub socket.")
  uri ← deref (argv args 1)
  check (listen s uri) (text "Failed to start listner")
  forever n (turn s (argv args 0))
