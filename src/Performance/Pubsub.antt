-- ===== src/Performance/Pubsub.antt =====
-- performance/pubsub.cpp: messages are published to any number of threads that subscribe to all. The
-- message whose first byte is not 0 is the last one.
use nng_examples.Prelude.{
  ℕ, zero, suc, ◌+◌, ◌-◌, ◌*◌, ◌%◌, ◌^◌, ◌==◌, ◌++◌, Bool, true, false, List, [], ◌∷◌, get_elem?,
  length,
}
use nng_examples.Bytes.{Bytes, text}
use nng_examples.Bytes.Strtol.{atol_size}
use nng_examples.Platform.{
  pub0, sub0, sub_subscribe, open_socket, listen, dial, set_option, send_bytes, recv_alloc,
  free_bytes, delete_array, close_socket, print, stdout, clock_now, get_key, sub_subscriber, Prog,
  ret, exit, call, ◌>>=◌, ◌>>◌, act, number, deref, argv,
}
use nng_examples.Checked.{checkstat, check, checked}
use nng_examples.Performance.{int_loop, new_bytes, store_first}
use nng_examples.Performance.Crew.{start_all, join_all}
use nng_examples.Performance.Report.{Doubles, report}

-- The loop, for `fuel` messages at most: `false` if it is still going then.
unfoldable pub read_until_last : ℕ → ℕ → Prog Bool
read_until_last s zero = ret false
read_until_last s (suc fuel) = call (recv_alloc s) λ a. do
  checkstat a.status (text "Failed to receive subscription msg")
  first ← deref (get_elem? a.bytes 0)
  act (free_bytes a.value (length a.bytes))
  elim (first == 0) [ true ↦ read_until_last s fuel | false ↦ ret true ]

unfoldable pub subscriber : ℕ → Bytes → Prog Bool
subscriber fuel uri = do
  s ← checked (open_socket sub0) (text "Subscriber not able to  open a socket.")
  check (dial s uri) (text "Subscsriber could not dial into the publisher")
  check (set_option s (sub_subscribe [])) (text "Subscsriber could not set subscription")
  done ← read_until_last s fuel
  elim done [
    | false ↦ ret false
    | true ↦ (check (close_socket s) (text "Subscriber closing socket.") >> ret true)
  ]

-- `nmsg - 1` is of type size_t.
unfoldable pub publisher : ℕ → ℕ → ℕ → Prog (Unit {0})
publisher s nmsg size = do
  p ← new_bytes size
  store_first p size 0
  int_loop ((nmsg + (2 ^ 64 - 1)) % 2 ^ 64)
      (check (send_bytes s p size) (text "Publisher, publishing a message"))
  store_first p size 1
  check (send_bytes s p size) (text "Publishing last message")
  act (delete_array p)

unfoldable pub main : Doubles → List Bytes → Prog Bool
main d args = do
  uri ← deref (argv args 1)
  nmsg ← deref (argv args 2) >>= λ a. deref (atol_size a)
  size ← deref (argv args 3) >>= λ a. deref (atol_size a)
  nsubs ← deref (argv args 4) >>= λ a. deref (atol_size a)
  s ← checked (open_socket pub0) (text "Publisher could not open socket")
  check (listen s uri) (text "Publisher could not start listening")
  subscribers ← start_all nsubs (sub_subscriber uri)
  act (print stdout (text "Enter to start timing: "))
  act get_key
  act (print stdout (text "Let's go" ++ 10 ∷ []))
  begin ← number clock_now
  publisher s nmsg size
  join_all subscribers
  check (close_socket s) (text "Publisher closing socket")
  end ← number clock_now
  report d nmsg (nmsg * size % 2 ^ 64) begin end
  exit 0
