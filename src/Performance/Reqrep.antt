-- ===== src/Performance/Reqrep.antt =====
-- performance/reqrep.cpp: one thread answers the requests of the other.
use nng_examples.Performance.Crew.{start_job}
use nng_examples.Performance.Report.{Doubles, line, seconds, per_second}
use nng_examples.Platform.{
  argv, number, deref, print, exit, clock_now, join, stdout, sleep, dial, rep_replier, req0, ret,
  rep0, open_socket, listen, send_bytes, delete_array, close_socket, Prog, ◌>>=◌, ◌>>◌, act,
}
use nng_examples.Bytes.Strtol.{atol_size}
use nng_examples.Prelude.{Bool, List, [], ◌∷◌, ◌++◌, ◌*◌, ◌%◌, ◌^◌, ℕ}
use nng_examples.Bytes.{Bytes, text}
use nng_examples.Checked.{check, checked}
use nng_examples.Performance.{int_loop, new_bytes, receive_freed}

unfoldable pub replier : Bytes → ℕ → ℕ → Prog (Unit {0})
replier uri nmsg repsize = do
  reply ← new_bytes repsize
  s ← checked (open_socket rep0) (text "Unable to open reply socket.")
  check (listen s uri) (text "Reeplier unable to start listening.")
  int_loop nmsg (
      receive_freed s (text "Could not receive a request")
      >> check (send_bytes s reply repsize) (text "Could not send a reply."))
  act (delete_array reply)
  act (sleep 1)
  act (close_socket s)

unfoldable pub requestor : ℕ → ℕ → ℕ → Prog (Unit {0})
requestor s nmsg reqsize = do
  request ← new_bytes reqsize
  int_loop nmsg (
      check (send_bytes s request reqsize) (text "Unable to make request")
      >> receive_freed s (text "Unable to receive a reply to our request"))
  act (delete_array request)

-- One measurement: requests of `reqsize` bytes, replies of `repsize`, and the two times.
unfoldable pub measure : Bytes → ℕ → ℕ → ℕ → Prog (ℕ × ℕ)
measure uri nmsg reqsize repsize = do
  thread ← start_job (rep_replier uri nmsg repsize)
  act (sleep 1)
  s ← checked (open_socket req0) (text "Could not make requester socket")
  check (dial s uri) (text "Could not dial the replier.")
  begin ← number clock_now
  requestor s nmsg reqsize
  end ← number clock_now
  act (join thread)
  act (close_socket s)
  ret (begin, end)

unfoldable pub results : (d : Doubles) → Bytes → ℕ × ℕ → ℕ → ℕ → Prog (Unit {0})
results d title times nmsg bytes = do
  let time = seconds d times.0 times.1
  act (print stdout (title ++ 10 ∷ []))
  line d (text "Elapsed sec:  ") time
  line d (text "msgs/sec   :  ") (per_second d nmsg time)
  line d (text "Req KB/sec :  ") (d.divide (per_second d bytes time) (d.of_size 1024))

unfoldable pub main : Doubles → List Bytes → Prog Bool
main d args = do
  uri ← deref (argv args 1)
  nmsg ← deref (argv args 2) >>= λ a. deref (atol_size a)
  size ← deref (argv args 3) >>= λ a. deref (atol_size a)
  small ← measure uri nmsg size 1
  big ← measure uri nmsg 1 size
  results d (text "Large request timings") small nmsg (nmsg * size % 2 ^ 64)
  results d (text "Large reply timings") big nmsg (nmsg * size % 2 ^ 64)
  exit 0
