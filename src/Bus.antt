-- ===== src/Bus.antt =====
-- bus.cpp: one member of a bus of four. The vector of addresses is an argument, `uris` below being the
-- program's.
pub mod Mesh
pub mod Setup
pub mod Talk
use nng_examples.Prelude.{
  ℕ, zero, suc, ◌+◌, ◌-◌, ◌*◌, ◌++◌, ◌==◌, leb, Bool, ◌&&◌, ◌||◌, List, [], ◌∷◌, Option, some, none,
  length, get_elem?, if◌then◌else◌,
}
use nng_examples.Bytes.{Bytes, text, terminated}
use nng_examples.Bytes.Decimal.{decimal}
use nng_examples.Bytes.Strtol.{atoi}
use nng_examples.Platform.{
  bus0, open_socket, listen, dial, msg_alloc, msg_insert, sendmsg, recvmsg, strerror, print, sleep,
  stdout, Prog, ret, exit, call, ◌>>=◌, ◌>>◌, ask, act, deref, argv, body_string,
}
use nng_examples.Platform.Loop.{forever}
use nng_examples.Checked.{newline, diagnosis, check, checked, show_message}

abbrev pub uris : List Bytes
uris =
    text "tcp://localhost:3000"
    ∷ text "tcp://localhost:3001"
    ∷ text "tcp://localhost:3002"
    ∷ text "tcp://localhost:3003"
    ∷ []

-- The positions from `a` on, `k` of them.
abbrev pub positions : ℕ → ℕ → List ℕ
positions a zero = []
positions a (suc k) = a ∷ positions (suc a) k

-- The positions that member `me` of `n` dials, by the iterators of the three branches; `none` if the
-- loop starts behind its end, and so runs past the vector.
unfoldable pub targets : ℕ → ℕ → Option (List ℕ)
targets n me =
    if me == 0
    then (if leb 1 (n - 1) then some (positions 1 (n - 1 - 1)) else none)
    else if me + 1 == n
    then some (0 ∷ [])
    else some (positions (me + 1) (n - (me + 1)))

-- `dial` reports its failure on stderr like `checkstat`.
unfoldable pub dial_member : ℕ → Bytes → Prog (Unit {0})
dial_member s uri = check (dial s uri) (text "Failed to dial " ++ uri ++ text " ")

-- The listener's failure goes to stdout.
unfoldable pub listen_member : ℕ → Bytes → Prog (Unit {0})
listen_member s uri = call (listen s uri) λ a. if a.status == 0 then ret tt else do
  why ← ask (strerror a.status)
  act (print stdout (diagnosis (text "Unable to listen on " ++ uri ++ text " ") why.bytes))
  exit 1

-- What is printed before a member's address is dialed, by the branch.
unfoldable pub dial_label : ℕ → ℕ → Bytes
dial_label n me =
    if me == 0
    then decimal me ++ text "(first) dialing "
    else if me + 1 == n
    then decimal me ++ text "(last)  dialing "
    else text "me " ++ text " dialing "

-- The loops over the positions to dial.
unfoldable pub dial_all : List Bytes → ℕ → Bytes → List ℕ → Prog (Unit {0})
dial_all us s label [] = ret tt
dial_all us s label (p ∷ ps) = do
  uri ← deref (get_elem? us p)
  act (print stdout (label ++ uri ++ newline))
  dial_member s uri
  dial_all us s label ps

-- The line that the first member prints.
unfoldable pub announce_end : List Bytes → ℕ → Prog (Unit {0})
announce_end us me =
    if me == 0
    then (do
      end ← deref (get_elem? us (length us - 1))
      act (print stdout (text "First ending before " ++ end ++ newline)))
    else ret tt

unfoldable pub setup_bus : List Bytes → ℕ → ℕ → Prog (Unit {0})
setup_bus us s me = do
  mine ← deref (get_elem? us me)
  act (print stdout (decimal me ++ text " listening on " ++ mine ++ newline))
  listen_member s mine
  act (sleep 2)
  announce_end us me
  ps ← deref (targets (length us) me)
  dial_all us s (dial_label (length us) me) ps
  act (sleep 2)

abbrev pub bus_text : ℕ → Bytes → Bytes
bus_text id msg = text "ID: " ++ decimal id ++ text " " ++ msg

unfoldable pub send_bus_msg : ℕ → ℕ → Bytes → Prog (Unit {0})
send_bus_msg s id msg = do
  m ← checked (msg_alloc (length (bus_text id msg) + 1)) (text "Failed to allocate message")
  check (msg_insert m (terminated (bus_text id msg))) (text "Failed to fill message body")
  body ← body_string m
  act (print stdout (decimal id ++ text " sending message " ++ body ++ newline))
  act (print stdout (text "Should be " ++ bus_text id msg ++ newline))
  check (sendmsg s m) (text "Failed to send the message")

-- One turn of the endless loop.
unfoldable pub receive_bus_msg : ℕ → ℕ → Prog (Unit {0})
receive_bus_msg me s = do
  m ← checked (recvmsg s) (text "Failed to receive a message from the bus")
  show_message stdout (text "Got a message " ++ decimal me ++ text " : ") m

-- `main`, with the loop followed for `n` turns. A negative position, or one behind the vector, is
-- undefined behaviour, at the first use of `uris[me]`.
unfoldable pub main : ℕ → List Bytes → Prog (Unit {0})
main n args = do
  arg ← deref (argv args 1)
  s ← checked (open_socket bus0) (text "Failed to opent he socket")
  me ← deref (atoi arg)
  setup_bus uris s me
  send_bus_msg s me (text "Joined the bus")
  send_bus_msg s me (text "I'll send another")
  forever n (receive_bus_msg me s)
