-- ===== src/Performance/Survey.antt =====
-- performance/survey.cpp: surveys of any number of threads that respond, timed with a big survey and
-- with a big response.
use nng_examples.Prelude.{ℕ, ◌*◌, ◌%◌, ◌^◌, ◌++◌, Bool, List, [], ◌∷◌, ltb, if◌then◌else◌}
use nng_examples.Bytes.{Bytes, text}
use nng_examples.Bytes.Strtol.{atoi_size}
use nng_examples.Platform.{
  surveyor0, respondent0, surveyor_surveytime, recvmaxsz, open_socket, listen, dial, set_option,
  send_bytes, recv_alloc, delete_array, close_socket, print, stdout, sleep, clock_now,
  respondent_responder, Prog, ret, exit, fault, ◌>>=◌, ◌>>◌, act, number, deref, argv,
}
use nng_examples.Checked.{check, checked}
use nng_examples.Performance.{int_loop, new_bytes, receive_freed}
use nng_examples.Performance.Crew.{start_all, join_all}
use nng_examples.Performance.Report.{Doubles, line, seconds, per_second}

-- `respsize*nresp*2` is computed in an int.
unfoldable pub set_options : ℕ → ℕ → ℕ → Prog (Unit {0})
set_options s nresp respsize =
    let max = respsize * nresp * 2 in
    if ltb max (2 ^ 31)
    then check (set_option s (recvmaxsz max)) (text "Unable to set RECVMAXSZ")
    else fault

unfoldable pub responder : Bytes → ℕ → ℕ → Prog (Unit {0})
responder uri nsurveys msgsize = do
  reply ← new_bytes msgsize
  s ← checked (open_socket respondent0) (text "Unable to open responder socket")
  set_options s 0 0
  check (dial s uri) (text "Unagle to dial into the survey ")
  int_loop nsurveys (
      receive_freed s (text "Unable to get a survey.")
      >> check (send_bytes s reply msgsize) (text "Unable to respond to survey"))
  check (recv_alloc s) (text "Unable to get extra measure survey")
  act (close_socket s)
  act (delete_array reply)

-- The survey of `size` bytes at `p`. The responses are not freed.
unfoldable pub survey : ℕ → ℕ → ℕ → ℕ → Prog (Unit {0})
survey s p size nresp = do
  check (send_bytes s p size) (text "Failed to send functional surveyt")
  int_loop nresp (check (recv_alloc s) (text "Failed to receive a functional response"))

-- The buffer is not deleted.
unfoldable pub surveyor : ℕ → ℕ → ℕ → ℕ → Prog (Unit {0})
surveyor s nsurvey size nresp = do
  p ← new_bytes size
  int_loop nsurvey (survey s p size nresp)
  check (send_bytes s p 1) (text "Unable to send ending survey")

abbrev pub surveytime : ℕ
surveytime = 8000

-- One measurement: surveys of `size` bytes, responses of `respsize`, and the two times.
unfoldable pub measure : ℕ → Bytes → ℕ → ℕ → ℕ → ℕ → Prog (ℕ × ℕ)
measure s uri nreq size respsize nsurveyed = do
  threads ← start_all nsurveyed (respondent_responder uri nreq respsize)
  act (sleep 1)
  begin ← number clock_now
  surveyor s nreq size nsurveyed
  join_all threads
  end ← number clock_now
  act (close_socket s)
  ret (begin, end)

unfoldable pub results : (d : Doubles) → Bytes → d.Double → ℕ → ℕ → Prog (Unit {0})
results d title time nreq bytes = do
  act (print stdout (title ++ 10 ∷ []))
  line d (text "Time         : ") time
  line d (text "Surveys/sec  : ") (per_second d nreq time)
  line d (text "Kb/sec       : ") (d.divide (d.of_size bytes) (d.times (d.of_size 1024) time))

unfoldable pub main : Doubles → List Bytes → Prog Bool
main d args = do
  uri ← deref (argv args 1)
  nreq ← deref (argv args 2) >>= λ a. deref (atoi_size a)
  size ← deref (argv args 3) >>= λ a. deref (atoi_size a)
  nsurveyed ← deref (argv args 4) >>= λ a. deref (atoi_size a)
  s ← checked (open_socket surveyor0) (text "Failed to open survey socket.")
  set_options s 0 0
  check (listen s uri) (text "Surveyor failed to start listening")
  check (set_option s (surveyor_surveytime surveytime))
      (text "Failed to set survey max response time.")
  big ← measure s uri nreq size 1 nsurveyed
  s2 ← checked (open_socket surveyor0) (text "Failed to open second survey socket")
  check (listen s2 uri) (text "Failed to start listening for second survey")
  check (set_option s2 (surveyor_surveytime surveytime))
      (text "Failed to set survey max response time.")
  small ← measure s2 uri nreq 1 size nsurveyed
  results d (text "Big survey small response:") (seconds d big.0 big.1) nreq (nreq * size % 2 ^ 64)
  results d (text "Small survey, big response:") (seconds d small.0 small.1) nreq
      (nreq * nsurveyed * size % 2 ^ 64)
  exit 0
