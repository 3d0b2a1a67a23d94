-- ===== src/Performance/Pair.antt =====
-- performance/pair.cpp: one thread receives what the other sends.
use nng_examples.Performance.Crew.{start_job}
use nng_examples.Performance.Report.{Doubles, report}
use nng_examples.Platform.{
  argv, number, deref, print, exit, clock_now, get_key, join, stdout, sleep, dial, pair_receiver,
  pair0, open_socket, listen, send_bytes, delete_array, Prog, ◌>>=◌, ◌>>◌, act,
}
use nng_examples.Bytes.Strtol.{atol_size}
use nng_examples.Prelude.{Bool, List, [], ◌∷◌, ◌++◌, ◌*◌, ◌%◌, ◌^◌, ℕ}
use nng_examples.Bytes.{Bytes, text}
use nng_examples.Checked.{check, checked}
use nng_examples.Performance.{int_loop, new_bytes, receive_freed}

unfoldable pub receiver : Bytes → ℕ → Prog (Unit {0})
receiver uri nmsg = do
  s ← checked (open_socket pair0) (text "Creating the receiver socket.")
  check (listen s uri) (text "Receiver listening on socket.")
  int_loop nmsg (receive_freed s (text "Receiver receiving a message"))

unfoldable pub sender : ℕ → ℕ → ℕ → Prog (Unit {0})
sender s nmsg size = do
  p ← new_bytes size
  int_loop nmsg (check (send_bytes s p size) (text "Sender sending a message"))
  act (delete_array p)

unfoldable pub main : Doubles → List Bytes → Prog Bool
main d args = do
  uri ← deref (argv args 1)
  nmsg ← deref (argv args 2) >>= λ a. deref (atol_size a)
  size ← deref (argv args 3) >>= λ a. deref (atol_size a)
  thread ← start_job (pair_receiver uri nmsg)
  act (sleep 1)
  s ← checked (open_socket pair0) (text "Sender failed to open the socket")
  check (dial s uri) (text "Sender failed to dial the receiver")
  act (print stdout (text "Hit enter to start timing: "))
  act get_key
  act (print stdout (text "Let's go" ++ 10 ∷ []))
  begin ← number clock_now
  sender s nmsg size
  act (join thread)
  end ← number clock_now
  report d nmsg (nmsg * size % 2 ^ 64) begin end
  exit 0
