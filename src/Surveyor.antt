-- ===== src/Surveyor.antt =====
-- surveyor.cpp: sends out surveys in turn and prints the responses. The number for NNG_ETIMEDOUT comes
-- from nng's header and is an argument.
pub mod Collect
pub mod Timeout
pub mod Service
pub mod Unterminated
use nng_examples.Prelude.{
  ℕ, zero, suc, ◌+◌, ◌*◌, ◌%◌, ◌++◌, ◌==◌, Bool, true, false, List, [], ◌∷◌, Option, none, some,
  length, get_elem?, if◌then◌else◌, ltb, ◌^◌,
}
use nng_examples.Platform.{
  fault, surveyor0, surveyor_surveytime, open_socket, listen, set_option, recvmsg, print, sleep,
  stdout, stderr, Prog, ret, call, ◌>>=◌, ◌>>◌, act, deref, argv,
}
use nng_examples.Bytes.{Bytes, text}
use nng_examples.Checked.{newline, checkstat, check, checked, send_message, show_message}

abbrev pub surveys : List Bytes
surveys = text "ALL" ∷ text "EVEN" ∷ text "ODD" ∷ []

abbrev pub lifetime : ℕ
lifetime = 2 * 1000

-- `strlen(msg)` bytes: the terminator is not sent.
unfoldable pub send : ℕ → Bytes → Prog (Unit {0})
send s msg =
    send_message s (length msg) msg (text "Failed to allocate a message block.")
      (text "Failed to encapsulate a send message") (text "Failed to send a survey message.")

unfoldable pub receive_and_print : ℕ → Prog ℕ
receive_and_print s = call (recvmsg s) λ a.
    if a.status == 0
    then (show_message stdout (text "survey response: ") a.value >>= λ _. ret a.status)
    else ret a.status

-- `while ((stat = receiveAndPrint(s)) == 0) ;` for `fuel` rounds at most: `none` if it is still going
-- then, else the last status.
unfoldable pub collect : ℕ → ℕ → Prog (Option ℕ)
collect s zero = ret none
collect s (suc fuel) = do
  stat ← receive_and_print s
  elim (stat == 0) [ true ↦ collect s fuel | false ↦ ret (some stat) ]

-- After the loop: a time out is the normal end. `false` if the loop is still going.
unfoldable pub conclude : ℕ → Option ℕ → Prog Bool
conclude etimedout none = ret false
conclude etimedout (some stat) =
    if stat == etimedout
    then ret true
    else (checkstat stat (text "Suvey response failure") >>= λ _. ret true)

unfoldable pub survey : ℕ → ℕ → ℕ → Bytes → Prog Bool
survey etimedout fuel s name = do
  act (print stdout (text "Surveying " ++ name ++ newline))
  send s name
  stat ← collect s fuel
  conclude etimedout stat

-- `n` turns of the endless loop, from its counter `i` on, which is an int: undefined behaviour when it
-- is to go beyond 2^31 - 1. It goes no further than a survey that is still collecting.
unfoldable pub turns : ℕ → ℕ → ℕ → ℕ → ℕ → Prog (Unit {0})
turns etimedout fuel s i zero = ret tt
turns etimedout fuel s i (suc n) = do
  act (sleep 5)
  name ← deref (get_elem? surveys (i % length surveys))
  done ← survey etimedout fuel s name
  elim done [
    | true ↦
        (act (print stderr (text "Survey done" ++ newline)) >> elim (ltb (suc i) (2 ^ 31)) [
          | true ↦ turns etimedout fuel s (suc i) n
          | false ↦ fault
        ])
    | false ↦ ret tt
  ]

-- `main`, with the loop followed for `n` turns.
unfoldable pub main : ℕ → ℕ → ℕ → List Bytes → Prog (Unit {0})
main etimedout fuel n args = do
  s ← checked (open_socket surveyor0) (text "Failed to create the surveyor socket")
  uri ← deref (argv args 1)
  check (listen s uri) (text "Failed to listen on the survey")
  check (set_option s (surveyor_surveytime lifetime))
      (text "Failed to set survey max response time.")
  turns etimedout fuel s 0 n
