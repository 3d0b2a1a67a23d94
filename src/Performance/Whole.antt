-- ===== src/Performance/Whole.antt =====
-- Whole runs of performance/pair.cpp, pushpull.cpp and pubsub.cpp: main thread and crew, in any order.
use nng_examples.Platform.Documented.{Event, Texts, View}
use nng_examples.Prelude.{
  ℕ, suc, ◌+◌, ◌<◌, ◌≤◌, ◌≡◌, ◌⊎◌, ◌^◌, ap, List, ◌++◌, length, replicate, some, inl, inr, arith,
}
use nng_examples.Bytes.{Bytes}
use nng_examples.Bytes.Strtol.{atol_size, atoi_size}
use nng_examples.Platform.{pair_receiver, pull_puller, sub_subscriber, exit, argv}
use nng_examples.Bus.{positions}
use nng_examples.Performance.Report.{Doubles}
use nng_examples.Performance.Crew.Rules.{waited_for}
use nng_examples.Performance.Process.{Hosts}
use nng_examples.Performance.Goals.{Returned}
use nng_examples.Performance.Ended.{Begins, reached, main_done, crew_done}
use nng_examples.Performance.Timed.{
  PairTimed, pair_main-Timed, PushTimed, push_main-Timed, PubTimed, pub_main-Timed,
}
use nng_examples.Performance.Pair
use nng_examples.Performance.Pubsub
use nng_examples.Performance.Pushpull

-- Whatever nng does within its documentation and in whatever order the threads run: when the program
-- for pairs ends with success, the main thread has sent its message `nmsg` times and waited, and the
-- receiver, which it started, has received `nmsg` messages, freed each of them and returned. (If an int
-- can count them.)
pub pair_run_complete :
    {t : Texts} (h : Hosts t) (formatted : Bytes → ℕ → Bytes) (fuel : ℕ) (idle : View) (w : h.World)
    (d : Doubles) (args : List Bytes) (uri a2 a3 : Bytes) (nmsg size : ℕ) (is : List ℕ)
    → Begins h idle w
    → argv args 1 ≡ some uri
    → argv args 2 ≡ some a2
    → atol_size a2 ≡ some nmsg
    → argv args 3 ≡ some a3
    → atol_size a3 ≡ some size
    → nmsg < 2 ^ 31
    → (reached h formatted fuel w (Pair.main d args) is).main ≡ exit 0
    → PairTimed d uri nmsg size
        (h.view w 0)
        (h.view (reached h formatted fuel w (Pair.main d args) is).world 0)
      × Returned formatted
          (pair_receiver uri nmsg)
          idle
          (h.view (reached h formatted fuel w (Pair.main d args) is).world 1)
pair_run_complete {t} h formatted fuel idle w d args uri a2 a3 nmsg size is begins e1 e2 is_nmsg e3
      is_size few success =
    let bound =
      pair_main-Timed t d args uri a2 a3 nmsg size (h.view w 0) e1 e2 is_nmsg e3 is_size few in
    let done = main_done h formatted fuel idle w begins (Pair.main d args) _ bound is success in
    let ended = done.5 in
    (
      done,
      crew_done h formatted fuel idle w begins (Pair.main d args) _ bound is success 1 0
          (pair_receiver uri nmsg) few (omega arith) (ap (λ (v : View). v.started) ended)
          (ap (λ (v : View). v.joined) ended),
    )

crew_of :
    (u w' : View) (l l' : List Event)
    → (u ≡ record w' { log = l }) ⊎ (u ≡ record w' { log = l' })
    → (u.started ≡ w'.started) × (u.joined ≡ w'.joined)
crew_of u w' l l' (inl e) = (ap (λ (v : View). v.started) e, ap (λ (v : View). v.joined) e)
crew_of u w' l l' (inr e) = (ap (λ (v : View). v.started) e, ap (λ (v : View). v.joined) e)

-- Whatever nng does within its documentation and in whatever order the threads run: when the program
-- for pipelines ends with success, the main thread has sent `nmsg` messages that begin with 0 and
-- `npullers` that begin with 1, and each of the `npullers`
-- threads that it started has received messages that begin with 0 and then one that does not, freed
-- them, and returned. (If ints can count them and a message has a byte or more.)
pub push_run_complete :
    {t : Texts} (h : Hosts t) (formatted : Bytes → ℕ → Bytes) (fuel : ℕ) (idle : View) (w : h.World)
    (d : Doubles) (args : List Bytes) (uri a2 a3 a4 : Bytes) (nmsg size npullers : ℕ) (is : List ℕ)
    → Begins h idle w
    → argv args 1 ≡ some uri
    → argv args 2 ≡ some a2
    → atoi_size a2 ≡ some nmsg
    → argv args 3 ≡ some a3
    → atoi_size a3 ≡ some size
    → argv args 4 ≡ some a4
    → atoi_size a4 ≡ some npullers
    → nmsg < 2 ^ 31
    → npullers < 2 ^ 31
    → 1 ≤ size
    → (reached h formatted fuel w (Pushpull.main d args) is).main ≡ exit 0
    → PushTimed d uri nmsg size npullers
        (h.view w 0)
        (h.view (reached h formatted fuel w (Pushpull.main d args) is).world 0)
      × ((i : ℕ)
          → i < npullers
          → Returned formatted
              (pull_puller uri)
              idle
              (h.view (reached h formatted fuel w (Pushpull.main d args) is).world (suc i)))
push_run_complete {t} h formatted fuel idle w d args uri a2 a3 a4 nmsg size npullers is begins e1 e2
      is_nmsg e3 is_size e4 is_npullers few few' some_bytes success =
    let bound =
      push_main-Timed t d args uri a2 a3 a4 nmsg size npullers (h.view w 0) e1 e2 is_nmsg e3 is_size
        e4 is_npullers few few' some_bytes in
    let done = main_done h formatted fuel idle w begins (Pushpull.main d args) _ bound is success in
    let v = h.view w 0 in
    let all : View = record v {
      started = v.started ++ replicate npullers (pull_puller uri);
      joined = waited_for (positions (length v.started) npullers) v.joined;
    } in
    let (started_all, joined_all) = crew_of _ all _ _ done.5 in
    (
      done,
      λ i lt.
          crew_done h formatted fuel idle w begins (Pushpull.main d args) _ bound is success
            npullers i (pull_puller uri) tt lt started_all joined_all,
    )

-- Whatever nng does within its documentation and in whatever order the threads run: when the program
-- for publishing, told to send one message or more, ends with success, the main thread has sent all
-- messages but the last with a first byte 0 and the last with 1,
-- and each of the `nsubs` threads that it started has subscribed to all messages, received messages that
-- begin with 0 and then one that does not, freed them, closed its socket, and returned. (If ints can
-- count them and a message has a byte or more.)
pub pub_run_complete :
    {t : Texts} (h : Hosts t) (formatted : Bytes → ℕ → Bytes) (fuel : ℕ) (idle : View) (w : h.World)
    (d : Doubles) (args : List Bytes) (uri a2 a3 a4 : Bytes) (n size nsubs : ℕ) (is : List ℕ)
    → Begins h idle w
    → argv args 1 ≡ some uri
    → argv args 2 ≡ some a2
    → atol_size a2 ≡ some (n + 1)
    → argv args 3 ≡ some a3
    → atol_size a3 ≡ some size
    → argv args 4 ≡ some a4
    → atol_size a4 ≡ some nsubs
    → n < 2 ^ 31
    → nsubs < 2 ^ 31
    → 1 ≤ size
    → (reached h formatted fuel w (Pubsub.main d args) is).main ≡ exit 0
    → PubTimed d uri n size nsubs
        (h.view w 0)
        (h.view (reached h formatted fuel w (Pubsub.main d args) is).world 0)
      × ((i : ℕ)
          → i < nsubs
          → Returned formatted
              (sub_subscriber uri)
              idle
              (h.view (reached h formatted fuel w (Pubsub.main d args) is).world (suc i)))
pub_run_complete {t} h formatted fuel idle w d args uri a2 a3 a4 n size nsubs is begins e1 e2
      is_nmsg e3 is_size e4 is_nsubs few few' some_bytes success =
    let bound =
      pub_main-Timed t d args uri a2 a3 a4 n size nsubs (h.view w 0) e1 e2 is_nmsg e3 is_size e4
        is_nsubs few few' some_bytes in
    let done = main_done h formatted fuel idle w begins (Pubsub.main d args) _ bound is success in
    (
      done,
      λ i lt.
          crew_done h formatted fuel idle w begins (Pubsub.main d args) _ bound is success nsubs i
            (sub_subscriber uri) tt lt (ap (λ (v : View). v.started) done.5)
            (ap (λ (v : View). v.joined) done.5),
    )
