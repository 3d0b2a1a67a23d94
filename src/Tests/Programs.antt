-- ===== src/Tests/Programs.antt =====
-- performance/ as whole programs, at concrete inputs.
use nng_examples.Prelude.{ℕ, suc, ◌≡◌, ◌<◌, refl, List, [], ◌∷◌, ◌++◌, replicate, arith, some}
use nng_examples.Bytes.{Bytes, text}
use nng_examples.Bytes.Strtol.{atol_size, atoi_size}
use nng_examples.Platform.{pair_receiver, sub_subscriber, pull_puller, exit}
use nng_examples.Platform.Loop.{forever}
use nng_examples.Checked.{checkstat, check, checked}
use nng_examples.Performance.{int_loop, new_bytes, receive_freed, store_first}
use nng_examples.Performance.Crew.{start_job, start_jobs, start_all, join_all}
use nng_examples.Performance.Report.{report, line}
use nng_examples.Performance.Process.{turns, turn, pick, main_turn, main_call, crew_turn}
use nng_examples.Performance.Threads.{work}
use nng_examples.Performance.Pair
use nng_examples.Performance.Pubsub
use nng_examples.Performance.Pushpull
use nng_examples.Performance.Goals.{Returned}
use nng_examples.Performance.Timed.{PairTimed, PushTimed, PubTimed}
use nng_examples.Performance.Ended.{reached}
use nng_examples.Performance.Whole.{pair_run_complete, push_run_complete, pub_run_complete}
use nng_examples.Tests.Machine.{start}
use nng_examples.Tests.Crew.{machines, begin, begin-Begins, counting, numbered}

abbrev pub pair_args : List Bytes
pair_args = text "pair" ∷ text "ipc:///tmp/t" ∷ text "2" ∷ text "3" ∷ []

pub two_is_2 : atol_size (text "2") ≡ some 2
unfolding atol_size text
two_is_2 = refl

pub three_is_3 : atol_size (text "3") ≡ some 3
unfolding atol_size text
three_is_3 = refl

-- The main thread up to its wait, the receiver, and the main thread again.
abbrev order : List ℕ
order = replicate 14 0 ++ (replicate 10 1 ++ replicate 10 0)

pair_ends :
    (reached machines numbered 3
      (begin [] ((1 ∷ []) ∷ (2 ∷ []) ∷ []))
      (Pair.main counting pair_args)
      order).main
    ≡ exit 0
unfolding turns turn pick main_turn main_call crew_turn work Pair.main Pair.sender Pair.receiver
    start_job int_loop new_bytes receive_freed report line forever check checked checkstat atol_size
    text
pair_ends = refl

pair_run_complete_example :
    PairTimed counting (text "ipc:///tmp/t") 2 3 (start []).view (
      machines.view
        (reached machines numbered 3
          (begin [] ((1 ∷ []) ∷ (2 ∷ []) ∷ []))
          (Pair.main counting pair_args)
          order).world
        0)
    × Returned numbered
        (pair_receiver (text "ipc:///tmp/t") 2)
        (start ((1 ∷ []) ∷ (2 ∷ []) ∷ [])).view
        (machines.view
          (reached machines numbered 3
            (begin [] ((1 ∷ []) ∷ (2 ∷ []) ∷ []))
            (Pair.main counting pair_args)
            order).world
          1)
pair_run_complete_example =
    pair_run_complete machines numbered 3 (start ((1 ∷ []) ∷ (2 ∷ []) ∷ [])).view
      (begin [] ((1 ∷ []) ∷ (2 ∷ []) ∷ [])) counting pair_args (text "ipc:///tmp/t") (text "2")
      (text "3") 2 3 order (begin-Begins [] ((1 ∷ []) ∷ (2 ∷ []) ∷ [])) refl refl two_is_2 refl
      three_is_3 (omega arith) pair_ends

-- The last message that a thread receives does not begin with 0.
abbrev ended : List Bytes
ended = (0 ∷ []) ∷ (1 ∷ []) ∷ []

abbrev pub crew_args : List Bytes
crew_args = text "push" ∷ text "ipc:///tmp/t" ∷ text "2" ∷ text "3" ∷ text "2" ∷ []

abbrev crew_order : List ℕ
crew_order = replicate 20 0 ++ (replicate 12 1 ++ (replicate 12 2 ++ replicate 12 0))

pub two_as_int : atoi_size (text "2") ≡ some 2
unfolding atoi_size text
two_as_int = refl

pub three_as_int : atoi_size (text "3") ≡ some 3
unfolding atoi_size text
three_as_int = refl

push_ends :
    (reached machines numbered 3
      (begin [] ended)
      (Pushpull.main counting crew_args)
      crew_order).main
    ≡ exit 0
unfolding turns turn pick main_turn main_call crew_turn work Pushpull.main Pushpull.pusher
    Pushpull.puller Pushpull.pull_until_end start_job start_jobs start_all join_all store_first
    int_loop new_bytes report line forever check checked checkstat atoi_size text
push_ends = refl

push_run_complete_example :
    PushTimed counting (text "ipc:///tmp/t") 2 3 2 (start []).view (
      machines.view
        (reached machines numbered 3
          (begin [] ended)
          (Pushpull.main counting crew_args)
          crew_order).world
        0)
    × ((i : ℕ)
        → i < 2
        → Returned numbered (pull_puller (text "ipc:///tmp/t")) (start ended).view (
            machines.view
              (reached machines numbered 3
                (begin [] ended)
                (Pushpull.main counting crew_args)
                crew_order).world
              (suc i)))
push_run_complete_example =
    push_run_complete machines numbered 3 (start ended).view (begin [] ended) counting crew_args
      (text "ipc:///tmp/t") (text "2") (text "3") (text "2") 2 3 2 crew_order
      (begin-Begins [] ended) refl refl two_as_int refl three_as_int refl two_as_int (omega arith)
      (omega arith) (omega arith) push_ends

pub_ends :
    (reached machines numbered 3 (begin [] ended) (Pubsub.main counting crew_args) crew_order).main
    ≡ exit 0
unfolding turns turn pick main_turn main_call crew_turn work Pubsub.main Pubsub.publisher
    Pubsub.subscriber Pubsub.read_until_last start_job start_jobs start_all join_all store_first
    int_loop new_bytes report line forever check checked checkstat atol_size text
pub_ends = refl

pub_run_complete_example :
    PubTimed counting (text "ipc:///tmp/t") 1 3 2 (start []).view (
      machines.view
        (reached machines numbered 3
          (begin [] ended)
          (Pubsub.main counting crew_args)
          crew_order).world
        0)
    × ((i : ℕ)
        → i < 2
        → Returned numbered (sub_subscriber (text "ipc:///tmp/t")) (start ended).view (
            machines.view
              (reached machines numbered 3
                (begin [] ended)
                (Pubsub.main counting crew_args)
                crew_order).world
              (suc i)))
pub_run_complete_example =
    pub_run_complete machines numbered 3 (start ended).view (begin [] ended) counting crew_args
      (text "ipc:///tmp/t") (text "2") (text "3") (text "2") 1 3 2 crew_order
      (begin-Begins [] ended) refl refl two_is_2 refl three_is_3 refl two_is_2 (omega arith)
      (omega arith) (omega arith) pub_ends
