-- ===== src/Tests/Deliveries.antt =====
-- What arrives in the processes of performance/, at concrete inputs: each thread hears the main thread.
use nng_examples.Prelude.{
  ℕ, suc, ◌^◌, ◌≡◌, ◌<◌, refl, List, [], ◌∷◌, ◌++◌, replicate, arith, some, length, All,
}
use nng_examples.Bytes.{Bytes, text}
use nng_examples.Bytes.Decimal.{decimal}
use nng_examples.Bytes.Strtol.{atol_size, atoi_size}
use nng_examples.Platform.{exit}
use nng_examples.Platform.Documented.{word}
use nng_examples.Platform.Loop.{forever}
use nng_examples.Checked.{checkstat, check, checked}
use nng_examples.Bus.{targets}
use nng_examples.Performance.{int_loop, new_bytes, receive_freed, store_first}
use nng_examples.Performance.Crew.{start_job, start_jobs, start_all, join_all}
use nng_examples.Performance.Report.{report, line}
use nng_examples.Performance.Process.{turns, turn, pick, main_turn, main_call, crew_turn}
use nng_examples.Performance.Threads.{work}
use nng_examples.Performance.Pair
use nng_examples.Performance.Pubsub
use nng_examples.Performance.Pushpull
use nng_examples.Performance.Bus
use nng_examples.Performance.Ended.{reached}
use nng_examples.Performance.Filtered.{ended_by}
use nng_examples.Performance.Delivery.{sent_of, received_of}
use nng_examples.Performance.Delivered.{pair_run-Delivered, push_run-Delivered, pub_run-Delivered}
use nng_examples.Performance.BusDelivered.{bus_run-Delivered, counted_down, OfBus}
use nng_examples.Tests.Machine.{start}
use nng_examples.Tests.Crew.{counting, numbered}
use nng_examples.Tests.Network.{network, network-Genuine, at_first, at_first-Silent}
use nng_examples.Tests.Programs.{
  pair_args, crew_args, two_is_2, three_is_3, two_as_int, three_as_int,
}

abbrev order : List ℕ
order = replicate 14 0 ++ (replicate 10 1 ++ replicate 10 0)

pair_ends : (reached network numbered 3 at_first (Pair.main counting pair_args) order).main ≡ exit 0
unfolding turns turn pick main_turn main_call crew_turn work Pair.main Pair.sender Pair.receiver
    start_job int_loop new_bytes receive_freed report line forever check checked checkstat atol_size
    text
pair_ends = refl

pair_run-Delivered_example :
    (msg : Bytes) × (length msg ≡ 3)
    × (sent_of
          (network.view
            (reached network numbered 3 at_first (Pair.main counting pair_args) order).world
            0).log
        ≡ replicate 2 msg)
    × (received_of
          (network.view
            (reached network numbered 3 at_first (Pair.main counting pair_args) order).world
            1).log
        ≡ replicate 2 msg)
pair_run-Delivered_example =
    pair_run-Delivered network numbered 3 (start []).view at_first counting pair_args
      (text "ipc:///tmp/t") (text "2") (text "3") 2 3 order at_first-Silent network-Genuine refl
      refl two_is_2 refl three_is_3 (omega arith) pair_ends

abbrev crew_order : List ℕ
crew_order = replicate 26 0 ++ (replicate 20 1 ++ (replicate 20 2 ++ replicate 16 0))

push_ends :
    (reached network numbered 3 at_first (Pushpull.main counting crew_args) crew_order).main
    ≡ exit 0
unfolding turns turn pick main_turn main_call crew_turn work Pushpull.main Pushpull.pusher
    Pushpull.puller Pushpull.pull_until_end start_job start_jobs start_all join_all store_first
    int_loop new_bytes report line forever check checked checkstat atoi_size text
push_ends = refl

push_run-Delivered_example :
    (rest : Bytes) × (suc (length rest) ≡ 3)
    × (sent_of
          (network.view
            (reached network numbered 3 at_first
              (Pushpull.main counting crew_args)
              crew_order).world
            0).log
        ≡ ended_by 2 2 rest)
    × ((i : ℕ)
        → i < 2
        → (k : ℕ) × (received_of
              (network.view
                (reached network numbered 3 at_first
                  (Pushpull.main counting crew_args)
                  crew_order).world
                (suc i)).log
            ≡ (1 ∷ rest) ∷ replicate k (0 ∷ rest)))
push_run-Delivered_example =
    push_run-Delivered network numbered 3 (start []).view at_first counting crew_args
      (text "ipc:///tmp/t") (text "2") (text "3") (text "2") 2 3 2 crew_order at_first-Silent
      network-Genuine refl refl two_as_int refl three_as_int refl two_as_int (omega arith)
      (omega arith) (omega arith) push_ends

pub_ends :
    (reached network numbered 3 at_first (Pubsub.main counting crew_args) crew_order).main ≡ exit 0
unfolding turns turn pick main_turn main_call crew_turn work Pubsub.main Pubsub.publisher
    Pubsub.subscriber Pubsub.read_until_last start_job start_jobs start_all join_all store_first
    int_loop new_bytes report line forever check checked checkstat atol_size text
pub_ends = refl

pub_run-Delivered_example :
    (rest : Bytes) × (suc (length rest) ≡ 3)
    × (sent_of
          (network.view
            (reached network numbered 3 at_first (Pubsub.main counting crew_args) crew_order).world
            0).log
        ≡ ended_by 1 1 rest)
    × ((i : ℕ)
        → i < 2
        → (k : ℕ) × (received_of
              (network.view
                (reached network numbered 3 at_first
                  (Pubsub.main counting crew_args)
                  crew_order).world
                (suc i)).log
            ≡ (1 ∷ rest) ∷ replicate k (0 ∷ rest)))
pub_run-Delivered_example =
    pub_run-Delivered network numbered 3 (start []).view at_first counting crew_args
      (text "ipc:///tmp/t") (text "2") (text "3") (text "2") 1 3 2 crew_order at_first-Silent
      network-Genuine refl refl two_is_2 refl three_is_3 refl two_is_2 (omega arith) (omega arith)
      (omega arith) pub_ends

abbrev base : Bytes
base = text "ipc:///tmp/b"

abbrev args : List Bytes
args = text "bus" ∷ base ∷ text "1" ∷ text "8" ∷ text "3" ∷ []

abbrev addresses : List Bytes
addresses = numbered base 0 ∷ numbered base 1 ∷ numbered base 2 ∷ []

abbrev bus_order : List ℕ
bus_order = replicate 36 0 ++ (replicate 40 1 ++ (replicate 40 2 ++ replicate 60 0))

one_is_1 : atoi_size (text "1") ≡ some 1
unfolding atoi_size text
one_is_1 = refl

eight_is_8 : atoi_size (text "8") ≡ some 8
unfolding atoi_size text
eight_is_8 = refl

addresses_are : Bus.construct_endpoints numbered base 3 ≡ some addresses
unfolding Bus.construct_endpoints text decimal
addresses_are = refl

bus_ends :
    (reached network numbered 9 at_first (Bus.main numbered counting 9 args) bus_order).main
    ≡ exit 0
unfolding turns turn pick main_turn main_call crew_turn work Bus.main Bus.start_receivers
    Bus.setup_bus Bus.dial_all Bus.dial_doing Bus.spray Bus.put_word Bus.count_done Bus.finish
    Bus.get_all Bus.construct_endpoints Bus.receiver Bus.catch_up Bus.await_end Bus.leave Bus.say
    start_job join_all new_bytes report line check checked checkstat atoi_size text targets
bus_ends = refl

bus_run-Delivered_example :
    (seq : ℕ) × (rest : Bytes) × (seq < 2 ^ 31)
    × (sent_of
          (network.view
            (reached network numbered 9 at_first
              (Bus.main numbered counting 9 args)
              bus_order).world
            0).log
        ≡ word 0xffffffff ∷ counted_down 0 seq rest)
    × ((i : ℕ)
        → suc i < 3
        → (others : List Bytes) × (received_of
              (network.view
                (reached network numbered 9 at_first
                  (Bus.main numbered counting 9 args)
                  bus_order).world
                (suc i)).log
            ≡ word 0xffffffff ∷ others)
          × All (OfBus seq rest) others)
bus_run-Delivered_example =
    bus_run-Delivered network numbered 9 (start []).view at_first counting args base (text "1")
      (text "8") (text "3") 1 8 3 addresses bus_order at_first-Silent network-Genuine refl refl
      one_is_1 refl eight_is_8 refl three_as_int addresses_are bus_ends
