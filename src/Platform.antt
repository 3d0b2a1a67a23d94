-- ===== src/Platform.antt =====
-- What a program of the repository can do: the calls it makes to nng, to libc and to its streams,
-- and a program as the tree of those calls. Neither nng nor libc is defined here: a call is
-- answered by whatever runs the program (Platform/Host), of which Platform/Documented says what
-- the documentation promises.
pub mod Documented
pub mod Host
pub mod Rules
pub mod Loop
use nng_examples.Prelude.{ℕ, List, Option, none, some, get_elem?, ℤ}
use nng_examples.Bytes.{Bytes, c_string}

-- The nng_xxx0_open functions.
pub data Protocol : Type 0 where
  req0 rep0 push0 pull0 pub0 sub0 pair0 surveyor0 respondent0 bus0 : Protocol

pub data Stream : Type 0 where
  stdout stderr : Stream

-- The socket options that the programs set.
pub data Setting : Type 0 where
  sub_subscribe : Bytes → Setting
  surveyor_surveytime : ℕ → Setting
  recvmaxsz : ℕ → Setting

-- What the threads of performance/ run, with their arguments (Performance/Threads).
pub data Job : Type 0 where
  pair_receiver : Bytes → ℕ → Job
  rep_replier : Bytes → ℕ → ℕ → Job
  sub_subscriber : Bytes → Job
  pull_puller : Bytes → Job
  respondent_responder : Bytes → ℕ → ℕ → Job
  bus_receiver : Bytes → ℕ → ℕ → ℕ → ℕ → Job

-- A socket, a message, an address and a status are numbers. `send_bytes s p n` is nng_send of the `n`
-- bytes at `p`; `recv_alloc` is nng_recv with NNG_FLAG_ALLOC, whose size is that of the answer's bytes.
-- `store_byte p x` writes the first byte at `p`, `store_word p x` the first uint32_t. `join` waits for
-- a thread, `get_future` for a promise; `poll` looks at one and answers 0 while it is not set.
-- `get_key` is std::cin.get(), `clock_now` the high resolution clock.
pub data Call : Type 0 where
  open_socket : Protocol → Call
  listen dial : ℕ → Bytes → Call
  set_option : ℕ → Setting → Call
  msg_alloc : ℕ → Call
  msg_insert : ℕ → Bytes → Call
  msg_body msg_free : ℕ → Call
  sendmsg : ℕ → ℕ → Call
  recvmsg : ℕ → Call
  new_array : ℕ → Call
  delete_array : ℕ → Call
  send_bytes : ℕ → ℕ → ℕ → Call
  recv_alloc : ℕ → Call
  free_bytes : ℕ → ℕ → Call
  close_socket : ℕ → Call
  store_byte store_word : ℕ → ℕ → Call
  start_thread : Job → Call
  join : ℕ → Call
  new_promise : Call
  set_promise : ℕ → ℤ → Call
  poll get_future : ℕ → Call
  get_key : Call
  clock_now : Call
  strerror : ℕ → Call
  print : Stream → Bytes → Call
  sleep : ℕ → Call
  time : Call
  ctime : ℕ → Call
  getpid : Call

-- What a call gives back: a status, a handle or number, and bytes, as far as it has them.
pub record Answer : Type 0 where
  pub status : ℕ
  pub value : ℕ
  pub bytes : Bytes

-- `exit n` ends the process; `fault` is undefined behaviour (a null pointer, a read past an end).
pub data Prog {ℓ} (A : Type ℓ) : Type ℓ where
  ret : A → Prog A
  exit : ℕ → Prog A
  fault : Prog A
  call : Call → (Answer → Prog A) → Prog A

infixl 5 ◌>>=◌ ◌>>◌
abbrev pub ◌>>=◌ {ℓ κ} : {A : Type ℓ} {B : Type κ} → Prog A → (A → Prog B) → Prog B
ret a >>= f = f a
exit n >>= f = exit n
fault >>= f = fault
call c k >>= f = call c (λ a. k a >>= f)

abbrev pub ◌>>◌ {ℓ} : {B : Type ℓ} → Prog (Unit {0}) → Prog B → Prog B
m >> k = m >>= λ _. k

-- A call for its answer, and one for its effect alone.
abbrev pub ask : Call → Prog Answer
ask c = call c ret

abbrev pub number : Call → Prog ℕ
number c = call c (λ a. ret a.value)

abbrev pub string : Call → Prog Bytes
string c = call c (λ a. ret a.bytes)

abbrev pub act : Call → Prog (Unit {0})
act c = call c (λ _. ret tt)

-- The use of a pointer that may be null.
abbrev pub deref {ℓ} : {A : Type ℓ} → Option A → Prog A
deref none = fault
deref (some a) = ret a

-- argv[i]: the pointers from argv[argc] on are not to be used.
abbrev pub argv : List Bytes → ℕ → Option Bytes
argv args i = get_elem? args i

-- `(const char*)nng_msg_body(m)`, read as a C string.
abbrev pub body_string : ℕ → Prog Bytes
body_string m = call (msg_body m) (λ a. deref (c_string a.bytes))

-- How a program ends, if it is not still running.
pub data Outcome {ℓ} (A : Type ℓ) : Type ℓ where
  returns : A → Outcome A
  exits : ℕ → Outcome A
  faults : Outcome A
