-- ===== src/Platform/Documented.antt =====
-- The documented behaviour of nng and libc, as the programs rely on it. It is a condition on
-- whatever answers the calls, never a definition of it: where the documentation leaves a choice (a
-- status, a received message, the contents of a new message) every choice is allowed.
use nng_examples.Prelude.{
  ℕ, drop, ◌≤◌, ◌/◌, ◌%◌, ◌^◌, ◌*◌, ◌+◌, [], ◌≡◌, ◌≢◌, ◌⊎◌, List, ◌∷◌, ◌++◌, Option, none, some,
  arith, ◌==◌, fun_ext, if◌then◌else◌, length, take, take-length,
}
use nng_examples.Bytes.{Bytes, IsText}
use nng_examples.Platform.{
  Protocol, Stream, Setting, Job, store_byte, store_word, start_thread, join, new_promise,
  set_promise, poll, get_future, get_key, clock_now, Call, open_socket, listen, dial, set_option,
  msg_alloc, msg_insert, msg_body, msg_free, sendmsg, recvmsg, new_array, delete_array, send_bytes,
  recv_alloc, free_bytes, close_socket, strerror, print, sleep, time, ctime, getpid, Answer, ℤ,
}

-- What texts nng_strerror and ctime give; the second depends on the time zone.
pub record Texts : Type 0 where
  pub error_text : ℕ → Bytes
  pub date_text : ℕ → Bytes
  pub date_text-IsText : (n : ℕ) → IsText (date_text n)

-- What the rest of the world sees of a process.
pub data Event : Type 0 where
  opened : Protocol → ℕ → Event
  listening dialed : ℕ → Bytes → Event
  configured : ℕ → Setting → Event
  sent : ℕ → Bytes → Event
  received : ℕ → Bytes → Event
  printed : Stream → Bytes → Event
  slept : ℕ → Event
  closed : ℕ → Event
  promised : ℕ → ℤ → Event

-- `log` has the newest event first. `body m` is the body of message `m`, or what stands in the
-- array `m`, while the process owns it.
-- `clock` is what time() gave last, `started` the threads that were started, in order, `joined` the
-- numbers of those that were waited for.
pub record View : Type 0 where
  pub log : List Event
  pub body : ℕ → Option Bytes
  pub clock : ℕ
  pub started : List Job
  pub joined : List ℕ
  pub pid : ℕ

abbrev pub update : (ℕ → Option Bytes) → ℕ → Option Bytes → ℕ → Option Bytes
update f m o k = if m == k then o else f k

abbrev pub happen : Event → View → View
happen e v = record v { log = e ∷ v.log }

abbrev pub set_body : ℕ → Option Bytes → View → View
set_body m o v = record v { body = update v.body m o }

-- A uint32_t in memory, on a little-endian machine, and what is read there.
abbrev pub word : ℕ → Bytes
word x = x % 256 ∷ x / 2 ^ 8 % 256 ∷ x / 2 ^ 16 % 256 ∷ x / 2 ^ 24 % 256 ∷ []

abbrev pub load_word : Bytes → Option ℕ
load_word (a ∷ b ∷ c ∷ d ∷ bs) = some (a + 2 ^ 8 * b + 2 ^ 16 * c + 2 ^ 24 * d)
load_word _ = none

-- A call that fails, by a status other than 0, changes nothing; else it has its effect.
abbrev pub Either : ℕ → View → View → View → Type 0
Either status v v' after = ((status ≢ 0) × (v' ≡ v)) ⊎ ((status ≡ 0) × (v' ≡ after))

-- What call `c` may do: from the view before it, its answer and the view after it.
-- nng_msg_alloc makes a message whose body has the given size already; nng_msg_insert puts its
-- bytes in front of the body; nng_sendmsg takes the message over if it succeeds. Nothing is
-- promised of a call on a message that the process does not own. A new array holds any bytes; if it
-- cannot be had, the status stands for std::bad_alloc, and for std::system_error if a thread cannot be
-- started. Threads are numbered as they are started. nng_free wants the size that nng_recv gave.
abbrev pub Effect : Texts → Call → View → Answer → View → Type 0
Effect t (open_socket p) v a v' = Either a.status v v' (happen (opened p a.value) v)
Effect t (listen s uri) v a v' = Either a.status v v' (happen (listening s uri) v)
Effect t (dial s uri) v a v' = Either a.status v v' (happen (dialed s uri) v)
Effect t (set_option s o) v a v' = Either a.status v v' (happen (configured s o) v)
Effect t (msg_alloc n) v a v' =
    ((a.status ≢ 0) × (v' ≡ v))
    ⊎ ((b : Bytes) × (length b ≡ n)
        × (a.status ≡ 0)
        × (v.body a.value ≡ none)
        × (v' ≡ set_body a.value (some b) v))
Effect t (msg_insert m d) v a v' =
    (b : Bytes) → v.body m ≡ some b → Either a.status v v' (set_body m (some (d ++ b)) v)
Effect t (msg_body m) v a v' = (b : Bytes) → v.body m ≡ some b → (a.bytes ≡ b) × (v' ≡ v)
Effect t (msg_free m) v a v' = (b : Bytes) → v.body m ≡ some b → v' ≡ set_body m none v
Effect t (sendmsg s m) v a v' =
    (b : Bytes) → v.body m ≡ some b → Either a.status v v' (happen (sent s b) (set_body m none v))
Effect t (recvmsg s) v a v' =
    ((a.status ≢ 0) × (v' ≡ v))
    ⊎ ((b : Bytes) × (a.status ≡ 0)
        × (v.body a.value ≡ none)
        × (v' ≡ happen (received s b) (set_body a.value (some b) v)))
Effect t (new_array n) v a v' =
    ((a.status ≢ 0) × (v' ≡ v))
    ⊎ ((b : Bytes) × (length b ≡ n)
        × (a.status ≡ 0)
        × (v.body a.value ≡ none)
        × (v' ≡ set_body a.value (some b) v))
Effect t (delete_array p) v a v' = (b : Bytes) → v.body p ≡ some b → v' ≡ set_body p none v
Effect t (send_bytes s p n) v a v' =
    (b : Bytes)
    → v.body p ≡ some b
    → n ≤ length b
    → Either a.status v v' (happen (sent s (take n b)) v)
Effect t (recv_alloc s) v a v' =
    ((a.status ≢ 0) × (v' ≡ v))
    ⊎ ((a.status ≡ 0)
        × (v.body a.value ≡ none)
        × (v' ≡ happen (received s a.bytes) (set_body a.value (some a.bytes) v)))
Effect t (free_bytes p n) v a v' =
    (b : Bytes) → v.body p ≡ some b → length b ≡ n → v' ≡ set_body p none v
Effect t (close_socket s) v a v' = Either a.status v v' (happen (closed s) v)
Effect t (store_byte p x) v a v' =
    (c : ℕ) (b : Bytes) → v.body p ≡ some (c ∷ b) → v' ≡ set_body p (some (x ∷ b)) v
Effect t (store_word p x) v a v' =
    (b : Bytes) → v.body p ≡ some b → 4 ≤ length b → v' ≡ set_body p (some (word x ++ drop 4 b)) v
Effect t (start_thread j) v a v' =
    ((a.status ≢ 0) × (v' ≡ v))
    ⊎ ((a.status ≡ 0)
        × (a.value ≡ length v.started)
        × (v' ≡ record v { started = v.started ++ j ∷ [] }))
Effect t (join n) v a v' = v' ≡ record v { joined = n ∷ v.joined }
Effect t new_promise v a v' = v' ≡ v
Effect t (set_promise p x) v a v' = v' ≡ happen (promised p x) v
Effect t (poll p) v a v' = v' ≡ v
Effect t (get_future p) v a v' = v' ≡ v
Effect t get_key v a v' = v' ≡ v
Effect t clock_now v a v' = v' ≡ v
Effect t (strerror n) v a v' = (a.bytes ≡ t.error_text n) × (v' ≡ v)
Effect t (print o b) v a v' = v' ≡ happen (printed o b) v
Effect t (sleep n) v a v' = v' ≡ happen (slept n) v
Effect t time v a v' = v' ≡ record v { clock = a.value }
Effect t (ctime n) v a v' = (a.bytes ≡ t.date_text n) × (v' ≡ v)
Effect t getpid v a v' = (a.value ≡ v.pid) × (v' ≡ v)

pub update_self : (f : ℕ → Option Bytes) (m : ℕ) (o : Option Bytes) → update f m o m ≡ o
update_self f m o = ground arith

-- A message that is received and freed leaves the owned messages as they were.
pub update_undo :
    (f : ℕ → Option Bytes) (m : ℕ) (o : Option Bytes)
    → f m ≡ none
    → update (update f m o) m none ≡ f
update_undo f m o e = fun_ext λ k. ground arith

-- A message that is made and given away again leaves the owned messages as they were.
pub update_restore :
    (f : ℕ → Option Bytes) (m : ℕ) (o p : Option Bytes)
    → f m ≡ none
    → update (update (update f m o) m p) m none ≡ f
update_restore f m o p e = fun_ext λ k. ground arith

-- An array that is sent as a whole.
pub sent_whole :
    (t : Texts) (s p : ℕ) (d : Bytes) (v : View) (a : Answer) (v' : View)
    → v.body p ≡ some d
    → Effect t (send_bytes s p (length d)) v a v'
    → Either a.status v v' (happen (sent s d) v)
sent_whole t s p d v a v' owned e =
    let take_all : take (length d) d ≡ d = take-length d in rw take_all at (e d owned (omega arith))
