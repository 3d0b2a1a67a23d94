-- ===== src/Tests/Limits.antt =====
-- Limits of performance/ at concrete inputs: threads at any moment, loops that overflow, and numbers.
use nng_examples.Performance.Leaks.{Hoarded, survey-Hoarded}
use nng_examples.Performance.Survey.{survey}
use nng_examples.Performance.{int_loop, new_bytes, receive_freed}
use nng_examples.Platform.Loop.{forever}
use nng_examples.Checked.{check, checkstat, checked}
use nng_examples.Platform.Documented.{sent}
use nng_examples.Prelude.{
  ℕ, ◌≡◌, refl, List, [], ◌∷◌, ◌++◌, replicate, some, true, get_elem?, inl, arith,
}
use nng_examples.Bytes.{Bytes, text}
use nng_examples.Platform.{Job, returns, new_array, pair_receiver}
use nng_examples.Platform.Host.{run, after}
use nng_examples.Performance.Pair
use nng_examples.Performance.Crew.{start_job}
use nng_examples.Performance.Report.{report, line}
use nng_examples.Performance.Process.{
  Process, turns, turn, pick, main_turn, main_call, crew_turn, finished,
}
use nng_examples.Performance.Threads.{work}
use nng_examples.Bytes.Strtol.{atol_size}
use nng_examples.Tests.Machine.{texts, Machine, machine, start, step}
use nng_examples.Performance.Pubsub.{publisher}
use nng_examples.Performance.Goals.{Returned}
use nng_examples.Performance.Ended.{reached}
use nng_examples.Performance.Crewed.{crew-Returned}
use nng_examples.Performance.Overflow.{Flooded, publisher-Flooded}
use nng_examples.Tests.Crew.{machines, begin, begin-Begins, counting, numbered}

abbrev args : List Bytes
args = text "pair" ∷ text "ipc:///tmp/t" ∷ text "2" ∷ text "3" ∷ []

abbrev heard : List Bytes
heard = (1 ∷ []) ∷ (2 ∷ []) ∷ []

-- The receiver has returned, and the main thread has yet to wait for it.
abbrev midway : List ℕ
midway = replicate 6 0 ++ replicate 10 1

abbrev midway_process : Process machines.World
midway_process = reached machines numbered 3 (begin [] heard) (Pair.main counting args) midway

abbrev job : Job
job = pair_receiver (text "ipc:///tmp/t") 2

was_started : get_elem? (machines.view midway_process.world 0).started 0 ≡ some job
unfolding turns turn pick main_turn main_call crew_turn work Pair.main Pair.sender Pair.receiver
    start_job int_loop new_bytes receive_freed report line forever check checked checkstat atol_size
    text
was_started = refl

has_returned : finished (get_elem? midway_process.crew 0) ≡ true
unfolding turns turn pick main_turn main_call crew_turn work Pair.main Pair.sender Pair.receiver
    start_job int_loop new_bytes receive_freed report line forever check checked checkstat atol_size
    text
has_returned = refl

crew-Returned_example :
    Returned numbered job (start heard).view (machines.view midway_process.world 1)
crew-Returned_example =
    crew-Returned machines numbered 3 (start heard).view (begin [] heard) (Pair.main counting args)
      midway 0 job (begin-Begins [] heard) was_started (omega arith) (inl has_returned)

publisher-Flooded_example :
    Flooded texts 1 3
      (start []).view
      (run machine (publisher 1 0 3) (start [])).0
      (after machine (publisher 1 0 3) (start []))
publisher-Flooded_example = publisher-Flooded machine 1 0 3 (start []) (inl refl) (omega arith)

abbrev with_survey : Machine
with_survey = (step (start (replicate 2 (5 ∷ []))) (new_array 3)).1

surveys_well : (run machine (survey 1 0 3 2) with_survey).0 ≡ returns tt
unfolding survey int_loop forever check checkstat run
surveys_well = refl

survey-Hoarded_example :
    Hoarded 1 2
      (sent 1 (replicate 3 0) ∷ [])
      with_survey.view.body
      (after machine (survey 1 0 3 2) with_survey)
survey-Hoarded_example =
    survey-Hoarded machine 1 0 2 (replicate 3 0) with_survey refl (omega arith) surveys_well
