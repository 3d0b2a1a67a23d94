-- ===== src/Performance/Delivered.antt =====
-- What arrives where in the programs of performance/ whose threads only receive.
use nng_examples.Prelude.{
  ℕ, zero, suc, ◌<◌, ◌≤◌, ◌≡◌, refl, ap, ◌∙◌, List, [], ◌∷◌, length, replicate, ◌^◌, arith,
  append-nil, some, ◌+◌,
}
use nng_examples.Bytes.{Bytes}
use nng_examples.Performance.Delivery.{sent_of, received_of, Genuine}
use nng_examples.Platform.{Job, exit, argv, pair_receiver, sub_subscriber, pull_puller, pair0}
use nng_examples.Platform.Documented.{Texts, View, listening, opened}
use nng_examples.Bytes.Strtol.{atol_size, atoi_size}
use nng_examples.Performance.Process.{Hosts}
use nng_examples.Performance.Goals.{Returned}
use nng_examples.Performance.Report.{Doubles}
use nng_examples.Performance.Ended.{reached}
use nng_examples.Performance.Filtered.{OneWay, sent_of-repeated, only_copies, ended_by}
use nng_examples.Performance.Whole.{pair_run_complete, push_run_complete, pub_run_complete}
use nng_examples.Performance.Pair
use nng_examples.Performance.Pubsub
use nng_examples.Performance.Pushpull
use nng_examples.Performance.Carried.{push_sent, pub_sent, puller-Carried, subscriber-Carried}
use nng_examples.Performance.Drain.{heard}
use nng_examples.Performance.Arrival.{Silent, from_main}

-- Whatever nng does within its documentation, without making messages up, and in whatever order the
-- threads run: when the program for pairs ends with success, what the receiver has received is what the
-- main thread has sent, which is one message of `size` bytes, `nmsg` times. (If an int can count them.)
pub pair_run-Delivered :
    {t : Texts} (h : Hosts t) (formatted : Bytes → ℕ → Bytes) (fuel : ℕ) (idle : View) (w : h.World)
    (d : Doubles) (args : List Bytes) (uri a2 a3 : Bytes) (nmsg size : ℕ) (is : List ℕ)
    → Silent h idle w
    → Genuine h
    → argv args 1 ≡ some uri
    → argv args 2 ≡ some a2
    → atol_size a2 ≡ some nmsg
    → argv args 3 ≡ some a3
    → atol_size a3 ≡ some size
    → nmsg < 2 ^ 31
    → (reached h formatted fuel w (Pair.main d args) is).main ≡ exit 0
    → (msg : Bytes) × (length msg ≡ size)
      × (sent_of (h.view (reached h formatted fuel w (Pair.main d args) is).world 0).log
          ≡ replicate nmsg msg)
      × (received_of (h.view (reached h formatted fuel w (Pair.main d args) is).world 1).log
          ≡ replicate nmsg msg)
pair_run-Delivered {t} h formatted fuel idle w d args uri a2 a3 nmsg size is silent genuine e1 e2
      is_nmsg e3 is_size few success =
    let (timed, done) =
      pair_run_complete h formatted fuel idle w d args uri a2 a3 nmsg size is silent.begins e1 e2
        is_nmsg e3 is_size few success in
    let (s, b, e, msg, fits, main_view) = timed in
    let (s', bs, many, thread_view) = done in
    let p = reached h formatted fuel w (Pair.main d args) is in
    let sends : sent_of (h.view p.world 0).log ≡ replicate nmsg msg =
      ap (λ (v : View). sent_of v.log) main_view
      ∙ sent_of-repeated s nmsg msg _
      ∙ rw silent.main_silent (append-nil _) in
    let crew : length (h.view p.world 0).started ≡ 1 =
      ap (λ (v : View). length v.started) main_view ∙ rw silent.begins.none_started refl in
    let sends_none : received_of (listening s' uri ∷ opened pair0 s' ∷ idle.log) ≡ [] =
      ap received_of silent.crew_silent in
    let arrives : received_of (h.view p.world 1).log ≡ received_of (heard s' bs _) =
      ap (λ (v : View). received_of v.log) thread_view in
    let all =
      from_main h formatted fuel idle w silent genuine (Pair.main d args) is 1 crew
        (λ i lt. receiver i lt) 1 in
    (
      msg,
      fits,
      sends,
      arrives
          ∙ only_copies nmsg s' msg bs _ sends_none (rw (sends, arrives) at all)
          ∙ ap (λ n. replicate n msg) many,
    )
  where
    receiver :
        (i : ℕ)
        → i < 1
        → (j : Job) × OneWay j
          × Returned formatted j idle
              (h.view (reached h formatted fuel w (Pair.main d args) is).world (suc i))
    receiver zero lt = (
      pair_receiver uri nmsg,
      tt,
      (pair_run_complete h formatted fuel idle w d args uri a2 a3 nmsg size is silent.begins e1 e2
          is_nmsg e3 is_size few success).1,
    )
    receiver (suc i) lt = absurd (omega arith)

-- Whatever nng does within its documentation, without making messages up, and in whatever order the
-- threads run: when the program for pipelines ends with success, all that each of its `npullers` threads
-- has received is some of the main thread's messages that begin with 0 and then one that begins with 1,
-- which are of `size` bytes and alike in the other bytes; the main thread has sent `nmsg` of the former and
-- then `npullers` of the latter. (If ints can count them and a message has a byte or more.)
pub push_run-Delivered :
    {t : Texts} (h : Hosts t) (formatted : Bytes → ℕ → Bytes) (fuel : ℕ) (idle : View) (w : h.World)
    (d : Doubles) (args : List Bytes) (uri a2 a3 a4 : Bytes) (nmsg size npullers : ℕ) (is : List ℕ)
    → Silent h idle w
    → Genuine h
    → argv args 1 ≡ some uri
    → argv args 2 ≡ some a2
    → atoi_size a2 ≡ some nmsg
    → argv args 3 ≡ some a3
    → atoi_size a3 ≡ some size
    → argv args 4 ≡ some a4
    → atoi_size a4 ≡ some npullers
    → nmsg < 2 ^ 31
    → npullers < 2 ^ 31
    → 1 ≤ size
    → (reached h formatted fuel w (Pushpull.main d args) is).main ≡ exit 0
    → (rest : Bytes) × (suc (length rest) ≡ size)
      × (sent_of (h.view (reached h formatted fuel w (Pushpull.main d args) is).world 0).log
          ≡ ended_by npullers nmsg rest)
      × ((i : ℕ)
          → i < npullers
          → (k : ℕ) × (received_of
                (h.view (reached h formatted fuel w (Pushpull.main d args) is).world (suc i)).log
              ≡ (1 ∷ rest) ∷ replicate k (0 ∷ rest)))
push_run-Delivered {t} h formatted fuel idle w d args uri a2 a3 a4 nmsg size npullers is silent
      genuine e1 e2 is_nmsg e3 is_size e4 is_npullers few few' some_bytes success =
    let p = reached h formatted fuel w (Pushpull.main d args) is in
    let (timed, done) =
      push_run_complete h formatted fuel idle w d args uri a2 a3 a4 nmsg size npullers is
        silent.begins e1 e2 is_nmsg e3 is_size e4 is_npullers few few' some_bytes success in
    let (rest, fits, sends, crew) =
      push_sent (h.view w 0) (h.view p.world 0) d uri nmsg size npullers silent.main_silent
        silent.begins.none_started timed in
    let all =
      from_main h formatted fuel idle w silent genuine (Pushpull.main d args) is npullers crew
        (λ i lt. (pull_puller uri, tt, done i lt)) in
    (
      rest,
      fits,
      sends,
      λ i lt.
          puller-Carried formatted idle (h.view p.world (suc i)) uri npullers nmsg rest
            silent.crew_silent (done i lt) (rw sends at (all (suc i))),
    )

-- Whatever nng does within its documentation, without making messages up, and in whatever order the
-- threads run: when the program for publishing, told to send one message or more, ends with success, all
-- that each of its `nsubs` threads has received is some of the main thread's messages that begin with 0
-- and then the one that begins with 1, which are of `size` bytes and alike in the other bytes; the main
-- thread has sent all messages but the last of the former kind. (If ints can count them and a message has
-- a byte or more.)
pub pub_run-Delivered :
    {t : Texts} (h : Hosts t) (formatted : Bytes → ℕ → Bytes) (fuel : ℕ) (idle : View) (w : h.World)
    (d : Doubles) (args : List Bytes) (uri a2 a3 a4 : Bytes) (n size nsubs : ℕ) (is : List ℕ)
    → Silent h idle w
    → Genuine h
    → argv args 1 ≡ some uri
    → argv args 2 ≡ some a2
    → atol_size a2 ≡ some (n + 1)
    → argv args 3 ≡ some a3
    → atol_size a3 ≡ some size
    → argv args 4 ≡ some a4
    → atol_size a4 ≡ some nsubs
    → n < 2 ^ 31
    → nsubs < 2 ^ 31
    → 1 ≤ size
    → (reached h formatted fuel w (Pubsub.main d args) is).main ≡ exit 0
    → (rest : Bytes) × (suc (length rest) ≡ size)
      × (sent_of (h.view (reached h formatted fuel w (Pubsub.main d args) is).world 0).log
          ≡ ended_by 1 n rest)
      × ((i : ℕ)
          → i < nsubs
          → (k : ℕ) × (received_of
                (h.view (reached h formatted fuel w (Pubsub.main d args) is).world (suc i)).log
              ≡ (1 ∷ rest) ∷ replicate k (0 ∷ rest)))
pub_run-Delivered {t} h formatted fuel idle w d args uri a2 a3 a4 n size nsubs is silent genuine e1
      e2 is_nmsg e3 is_size e4 is_nsubs few few' some_bytes success =
    let p = reached h formatted fuel w (Pubsub.main d args) is in
    let (timed, done) =
      pub_run_complete h formatted fuel idle w d args uri a2 a3 a4 n size nsubs is silent.begins e1
        e2 is_nmsg e3 is_size e4 is_nsubs few few' some_bytes success in
    let (rest, fits, sends, crew) =
      pub_sent (h.view w 0) (h.view p.world 0) d uri n size nsubs silent.main_silent
        silent.begins.none_started timed in
    let all =
      from_main h formatted fuel idle w silent genuine (Pubsub.main d args) is nsubs crew
        (λ i lt. (sub_subscriber uri, tt, done i lt)) in
    (
      rest,
      fits,
      sends,
      λ i lt.
          subscriber-Carried formatted idle (h.view p.world (suc i)) uri 1 n rest silent.crew_silent
            (done i lt) (rw sends at (all (suc i))),
    )
