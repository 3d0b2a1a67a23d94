-- ===== src/Performance/Pushpull.antt =====
-- performance/pushpull.cpp: messages are pushed to any number of threads that pull. A message whose
-- first byte is not 0 ends the thread that gets it.
use nng_examples.Prelude.{
  ℕ, zero, suc, ◌*◌, ◌%◌, ◌^◌, ◌==◌, ◌++◌, Bool, true, false, List, [], ◌∷◌, get_elem?, length,
}
use nng_examples.Bytes.{Bytes, text}
use nng_examples.Bytes.Strtol.{atoi_size}
use nng_examples.Platform.{
  pull0, push0, open_socket, listen, dial, send_bytes, recv_alloc, free_bytes, delete_array,
  close_socket, print, stdout, clock_now, get_key, pull_puller, Prog, ret, exit, call, ◌>>=◌, ◌>>◌,
  act, number, deref, argv,
}
use nng_examples.Checked.{checkstat, check, checked}
use nng_examples.Performance.{int_loop, new_bytes, store_first}
use nng_examples.Performance.Crew.{start_all, join_all}
use nng_examples.Performance.Report.{Doubles, report}

-- The loop, for `fuel` messages at most: `false` if it is still going then.
unfoldable pub pull_until_end : ℕ → ℕ → Prog Bool
pull_until_end s zero = ret false
pull_until_end s (suc fuel) = call (recv_alloc s) λ a. do
  checkstat a.status (text "Pull of data failed.,")
  first ← deref (get_elem? a.bytes 0)
  elim (first == 0) [
    | true ↦ (act (free_bytes a.value (length a.bytes)) >> pull_until_end s fuel)
    | false ↦ (act (close_socket s) >> (act (free_bytes a.value (length a.bytes)) >> ret true))
  ]

unfoldable pub puller : ℕ → Bytes → Prog Bool
puller fuel uri = do
  s ← checked (open_socket pull0) (text "Unable to open a pull socket.")
  check (dial s uri) (text "Puller dial failed")
  pull_until_end s fuel

unfoldable pub pusher : ℕ → ℕ → ℕ → ℕ → Prog (Unit {0})
pusher s nmsg size npullers = do
  p ← new_bytes size
  store_first p size 0
  int_loop nmsg (check (send_bytes s p size) (text "Failed to push a messages"))
  store_first p size 1
  int_loop npullers (check (send_bytes s p size) (text "Failed to push end message"))
  act (delete_array p)

unfoldable pub main : Doubles → List Bytes → Prog Bool
main d args = do
  uri ← deref (argv args 1)
  nmsg ← deref (argv args 2) >>= λ a. deref (atoi_size a)
  size ← deref (argv args 3) >>= λ a. deref (atoi_size a)
  npullers ← deref (argv args 4) >>= λ a. deref (atoi_size a)
  s ← checked (open_socket push0) (text "Unable to create push socket.")
  check (listen s uri) (text "Unable to start pusher listening.")
  pullers ← start_all npullers (pull_puller uri)
  act (print stdout (text "Enter to start timing:"))
  act get_key
  act (print stdout (text "Lets go" ++ 10 ∷ []))
  begin ← number clock_now
  pusher s nmsg size npullers
  join_all pullers
  end ← number clock_now
  report d nmsg (nmsg * size % 2 ^ 64) begin end
  act (close_socket s)
  exit 0
