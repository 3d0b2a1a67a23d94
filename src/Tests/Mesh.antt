-- ===== src/Tests/Mesh.antt =====
-- performance/bus.cpp as a whole, at a concrete input.
use nng_examples.Prelude.{ℕ, suc, ◌≡◌, ◌<◌, refl, List, [], ◌∷◌, ◌++◌, replicate, some}
use nng_examples.Bytes.{Bytes, text}
use nng_examples.Bytes.Decimal.{decimal}
use nng_examples.Bytes.Strtol.{atoi_size}
use nng_examples.Platform.{bus_receiver, exit}
use nng_examples.Platform.Documented.{word}
use nng_examples.Checked.{checkstat, check, checked}
use nng_examples.Bus.{targets}
use nng_examples.Performance.{new_bytes}
use nng_examples.Performance.Crew.{start_job, join_all}
use nng_examples.Performance.Report.{report, line}
use nng_examples.Performance.Process.{turns, turn, pick, main_turn, main_call, crew_turn}
use nng_examples.Performance.Threads.{work}
use nng_examples.Performance.Bus
use nng_examples.Performance.Goals.{Returned}
use nng_examples.Performance.Ended.{reached}
use nng_examples.Performance.Sprayed.{BusTimed}
use nng_examples.Performance.BusRun.{bus_run_complete}
use nng_examples.Tests.Machine.{start}
use nng_examples.Tests.Crew.{machines, begin, begin-Begins, counting, numbered}

abbrev base : Bytes
base = text "ipc:///tmp/b"

abbrev args : List Bytes
args = text "bus" ∷ base ∷ text "1" ∷ text "8" ∷ text "3" ∷ []

abbrev addresses : List Bytes
addresses = numbered base 0 ∷ numbered base 1 ∷ numbered base 2 ∷ []

abbrev sent_numbers : List Bytes
sent_numbers = word 0 ∷ word 1 ∷ word 0xffffffff ∷ []

abbrev order : List ℕ
order = replicate 30 0 ++ (replicate 40 1 ++ (replicate 40 2 ++ replicate 60 0))

one_is_1 : atoi_size (text "1") ≡ some 1
unfolding atoi_size text
one_is_1 = refl

eight_is_8 : atoi_size (text "8") ≡ some 8
unfolding atoi_size text
eight_is_8 = refl

three_is_3 : atoi_size (text "3") ≡ some 3
unfolding atoi_size text
three_is_3 = refl

addresses_are : Bus.construct_endpoints numbered base 3 ≡ some addresses
unfolding Bus.construct_endpoints text decimal
addresses_are = refl

bus_ends :
    (reached machines numbered 9
      (begin [] sent_numbers)
      (Bus.main numbered counting 9 args)
      order).main
    ≡ exit 0
unfolding turns turn pick main_turn main_call crew_turn work Bus.main Bus.start_receivers
    Bus.setup_bus Bus.dial_all Bus.dial_doing Bus.spray Bus.put_word Bus.count_done Bus.finish
    Bus.get_all Bus.construct_endpoints Bus.receiver Bus.catch_up Bus.await_end Bus.leave Bus.say
    start_job join_all new_bytes report line check checked checkstat atoi_size text targets
bus_ends = refl

bus_run_complete_example :
    BusTimed counting base addresses 1 8 3 (start []).view (
      machines.view
        (reached machines numbered 9
          (begin [] sent_numbers)
          (Bus.main numbered counting 9 args)
          order).world
        0)
    × ((i : ℕ)
        → suc i < 3
        → (p : ℕ) × Returned numbered (bus_receiver base 3 (suc i) 1 p) (start sent_numbers).view (
            machines.view
              (reached machines numbered 9
                (begin [] sent_numbers)
                (Bus.main numbered counting 9 args)
                order).world
              (suc i)))
bus_run_complete_example =
    bus_run_complete machines numbered 9 (start sent_numbers).view (begin [] sent_numbers) counting
      args base (text "1") (text "8") (text "3") 1 8 3 addresses order
      (begin-Begins [] sent_numbers) refl refl one_is_1 refl eight_is_8 refl three_is_3
      addresses_are bus_ends
