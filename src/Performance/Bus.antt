-- ===== src/Performance/Bus.antt =====
-- performance/bus.cpp: member 0 of a bus sends numbered messages to the others, which are threads.
-- `formatted base i` is what snprintf makes of the base name and a position.
use nng_examples.Prelude.{
  ℕ, zero, suc, ◌+◌, ◌*◌, ◌%◌, ◌^◌, ◌==◌, ◌++◌, Bool, true, false, List, [], ◌∷◌, Option, none,
  some, get_elem?, length, take, map, ltb, leb, if◌then◌else◌, ◌-◌, ℤ, pos, negsuc,
}
use nng_examples.Bytes.{Bytes, text}
use nng_examples.Bytes.Decimal.{decimal}
use nng_examples.Bytes.Strtol.{atoi_size}
use nng_examples.Platform.{
  bus0, open_socket, listen, dial, send_bytes, recv_alloc, free_bytes, delete_array, close_socket,
  store_word, print, stderr, sleep, clock_now, new_promise, set_promise, poll, get_future,
  bus_receiver, Prog, ret, exit, fault, call, ◌>>=◌, ◌>>◌, act, number, deref, argv,
}
use nng_examples.Platform.Documented.{load_word}
use nng_examples.Checked.{checkstat, check, checked}
use nng_examples.Bus.{positions, targets}
use nng_examples.Performance.{new_bytes}
use nng_examples.Performance.Crew.{start_job, join_all}
use nng_examples.Performance.Report.{Doubles, report}

-- `char endpoint[500]` holds 499 characters. `none` if the loop's int overflows.
unfoldable pub construct_endpoints : (Bytes → ℕ → Bytes) → Bytes → ℕ → Option (List Bytes)
construct_endpoints formatted base size =
    if ltb size (2 ^ 31)
    then some (map (λ i. take 499 (formatted base i)) (positions 0 size))
    else none

-- A uint32_t that is converted to an int.
unfoldable pub as_int : ℕ → ℤ
as_int n = let low = n % 2 ^ 32 in if ltb low (2 ^ 31) then pos low else negsuc (2 ^ 32 - 1 - low)

-- What the three branches say of a dial that failed.
unfoldable pub dial_doing : ℕ → ℕ → Bytes
dial_doing n me =
    if me == 0
    then text "Unable to dial a bus member"
    else if me + 1 == n
    then text "Unable to dial bus member."
    else text "Unable to dial a bus member."

-- The loops over the positions to dial.
unfoldable pub dial_all : List Bytes → ℕ → Bytes → List ℕ → Prog (Unit {0})
dial_all us s doing [] = ret tt
dial_all us s doing (p ∷ ps) = do
  uri ← deref (get_elem? us p)
  check (dial s uri) doing
  dial_all us s doing ps

unfoldable pub setup_bus : List Bytes → ℕ → ℕ → Prog (Unit {0})
setup_bus us me s = do
  mine ← deref (get_elem? us me)
  check (listen s mine) (text "Bus member not able to listen")
  act (sleep 2)
  ps ← deref (targets (length us) me)
  dial_all us s (dial_doing (length us) me) ps
  act (sleep 3)

-- `while (lastseq < nmsg)`, for `fuel` messages at most: the number that ended it, or `none`.
unfoldable pub catch_up : ℕ → ℕ → ℕ → ℕ → Prog (Option ℕ)
catch_up s zero nmsg last = ret none
catch_up s (suc fuel) nmsg last = elim (ltb last nmsg) [
  | false ↦ ret (some last)
  | true ↦ call (recv_alloc s) λ a.
      (checkstat a.status (text "Unable to receive a message from the bus.")
        >> (deref (load_word a.bytes) >>= λ seq.
            act (free_bytes a.value (length a.bytes)) >> catch_up s fuel nmsg seq))
]

-- `while (!done)`, for `fuel` messages at most: `false` if it is still going then.
unfoldable pub await_end : ℕ → ℕ → Prog Bool
await_end s zero = ret false
await_end s (suc fuel) = call (recv_alloc s) λ a. do
  checkstat a.status (text "Failed read for termination message.")
  flag ← deref (load_word a.bytes)
  act (free_bytes a.value (length a.bytes))
  elim (flag == 0xffffffff) [ true ↦ ret true | false ↦ await_end s fuel ]

unfoldable pub say : ℕ → Bytes → Prog (Unit {0})
say me what = act (print stderr (text "Member " ++ decimal me ++ what ++ 10 ∷ []))

-- After the promise is set.
unfoldable pub leave : ℕ → ℕ → ℕ → Prog Bool
leave fuel me s = do
  say me (text " Waiting for end")
  ended ← await_end s fuel
  elim ended [
    | false ↦ ret false
    | true ↦ do
      say me (text " sleeping then exiting")
      act (sleep 2)
      check (close_socket s) (text "Failed to close receiver socket.")
      say me (text " exiting")
      ret true
  ]

unfoldable pub receiver : (Bytes → ℕ → Bytes) → ℕ → Bytes → ℕ → ℕ → ℕ → ℕ → Prog Bool
receiver formatted fuel base size me nmsg promise = do
  us ← deref (construct_endpoints formatted base size)
  s ← checked (open_socket bus0) (text "Unable to open bus socket.")
  setup_bus us me s
  last ← catch_up s fuel nmsg 0
  elim last [
    | none ↦ ret false
    | some seq ↦ act (set_promise promise (as_int seq)) >> leave fuel me s
  ]

-- The threads of the positions `is`, with their promises.
unfoldable pub start_receivers : Bytes → ℕ → ℕ → List ℕ → Prog (List ℕ × List ℕ)
start_receivers base size nmsg [] = ret ([], [])
start_receivers base size nmsg (i ∷ is) = do
  p ← number new_promise
  thread ← start_job (bus_receiver base size i nmsg p)
  rest ← start_receivers base size nmsg is
  ret (p ∷ rest.0, thread ∷ rest.1)

-- How many of the promises are set.
unfoldable pub count_done : List ℕ → Prog ℕ
count_done [] = ret 0
count_done (p ∷ ps) = do
  ready ← number (poll p)
  n ← count_done ps
  ret ((if ready == 0 then 0 else 1) + n)

-- `*(uint32_t*)p = x;` for an array of `size` bytes.
unfoldable pub put_word : ℕ → ℕ → ℕ → Prog (Unit {0})
put_word p size x = if leb 4 size then act (store_word p x) else fault

-- `while (done != futures.size())`, for `fuel` rounds at most: the next number, or `none`.
unfoldable pub spray : ℕ → ℕ → ℕ → List ℕ → ℕ → ℕ → ℕ → Prog (Option ℕ)
spray s p size promises zero done seq = ret none
spray s p size promises (suc fuel) done seq = elim (done == length promises) [
  | true ↦ ret (some seq)
  | false ↦
      (put_word p size seq
        >> ((if ltb (seq + 1) (2 ^ 31) then ret tt else fault)
            >> (check (send_bytes s p size) (text "Failed to send message on the bus")
                >> (count_done promises >>= λ now. spray s p size promises fuel now (seq + 1)))))
]

unfoldable pub get_all : List ℕ → Prog (Unit {0})
get_all [] = ret tt
get_all (p ∷ ps) = act (get_future p) >> get_all ps

-- The end of `main`, once all promises are set. The promises are not deleted.
unfoldable pub finish : Doubles → ℕ → ℕ → ℕ → List ℕ → List ℕ → ℕ → ℕ → Prog Bool
finish d s p size promises threads seq begin = do
  end ← number clock_now
  act (print stderr (decimal (length promises) ++ text " timing done" ++ 10 ∷ []))
  get_all promises
  act (sleep 2)
  act (print stderr (text "Sending the terminate  msg" ++ 10 ∷ []))
  put_word p size 0xffffffff
  check (send_bytes s p 4) (text "Failed to send terminate message" ++ 10 ∷ [])
  act (print stderr (text "Joining threads" ++ 10 ∷ []))
  join_all threads
  act (print stderr (text "Joined" ++ 10 ∷ []))
  check (close_socket s) (text "Failed to close sender socket")
  act (delete_array p)
  report d seq (seq * size % 2 ^ 64) begin end
  exit 0

-- `main`, whose loop goes on for `fuel` rounds at most: `false` if it is still going then.
unfoldable pub main : (Bytes → ℕ → Bytes) → Doubles → ℕ → List Bytes → Prog Bool
main formatted d fuel args = do
  base ← deref (argv args 1)
  nmsg ← deref (argv args 2) >>= λ a. deref (atoi_size a)
  size ← deref (argv args 3) >>= λ a. deref (atoi_size a)
  bus_size ← deref (argv args 4) >>= λ a. deref (atoi_size a)
  us ← deref (construct_endpoints formatted base bus_size)
  s ← checked (open_socket bus0) (text "Unable to open sender socket")
  others ← start_receivers base bus_size nmsg (positions 1 (bus_size - 1))
  setup_bus us 0 s
  p ← new_bytes size
  begin ← number clock_now
  last ← spray s p size others.0 fuel 0 0
  elim last [ none ↦ ret false | some seq ↦ finish d s p size others.0 others.1 seq begin ]
