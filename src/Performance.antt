-- ===== src/Performance.antt =====
-- performance/: the programs that time nng. Each starts its peer as a thread; here are the functions
-- that the threads run and what they share.
pub mod Pair
pub mod Crew
pub mod Report
pub mod Pushpull
pub mod Pubsub
pub mod Bus
pub mod Threads
pub mod Process
pub mod Drain
pub mod Subscribed
pub mod Pulled
pub mod Sends
pub mod Answers
pub mod Goals
pub mod BusSetup
pub mod Member
pub mod Timed
pub mod Exchanges
pub mod Surveys
pub mod Surveyed
pub mod Spray
pub mod Sprayed
pub mod Overflow
pub mod Leaks
pub mod Numbers
pub mod Crewed
pub mod Delivery
pub mod Filtered
pub mod Arrival
pub mod Carried
pub mod Delivered
pub mod BusDelivered
pub mod Ended
pub mod SurveyRun
pub mod BusRun
pub mod Addresses
pub mod Requested
pub mod Whole
pub mod Answering
pub mod Sound
pub mod Senders
pub mod Reqrep
pub mod Rules
pub mod Survey
pub mod Requests
pub mod Replies
pub mod Transfer
use nng_examples.Prelude.{ℕ, ◌^◌, ◌==◌, ltb, if◌then◌else◌, length}
use nng_examples.Bytes.{Bytes}
use nng_examples.Platform.{
  new_array, recv_alloc, free_bytes, Prog, ret, exit, fault, call, ◌>>◌, act, store_byte,
}
use nng_examples.Platform.Loop.{forever}
use nng_examples.Checked.{checkstat}

-- `for (int i = 0; i < n; i++)` with a size_t `n`: `n` rounds, or undefined behaviour when the int
-- is to go beyond 2^31 - 1.
unfoldable pub int_loop : ℕ → Prog (Unit {0}) → Prog (Unit {0})
int_loop n body = if ltb n (2 ^ 31) then forever n body else (forever (2 ^ 31) body >> fault)

-- `new uint8_t[n]`. std::bad_alloc is caught nowhere and aborts the process.
unfoldable pub new_bytes : ℕ → Prog ℕ
new_bytes n = call (new_array n) λ a. if a.status == 0 then ret a.value else exit 134

-- `p[0] = x;` for an array of `size` bytes.
unfoldable pub store_first : ℕ → ℕ → ℕ → Prog (Unit {0})
store_first p size x = if size == 0 then fault else act (store_byte p x)

-- Receives into a buffer that nng allocates, and frees it.
unfoldable pub receive_freed : ℕ → Bytes → Prog (Unit {0})
receive_freed s doing =
    call (recv_alloc s) λ a. (checkstat a.status doing >> act (free_bytes a.value (length a.bytes)))
