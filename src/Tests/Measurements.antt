-- ===== src/Tests/Measurements.antt =====
-- performance/reqrep.cpp and survey.cpp as whole programs, at concrete inputs.
use nng_examples.Prelude.{ℕ, suc, ◌≡◌, ◌<◌, refl, List, [], ◌∷◌, ◌++◌, replicate, arith, ◌+◌}
use nng_examples.Bytes.{Bytes, text}
use nng_examples.Bytes.Strtol.{atol_size, atoi_size}
use nng_examples.Platform.{exit, respondent_responder, rep_replier}
use nng_examples.Platform.Loop.{forever}
use nng_examples.Checked.{checkstat, check, checked}
use nng_examples.Performance.{int_loop, new_bytes, receive_freed}
use nng_examples.Performance.Crew.{start_job, start_jobs, start_all, join_all}
use nng_examples.Performance.Report.{line}
use nng_examples.Performance.Process.{turns, turn, pick, main_turn, main_call, crew_turn}
use nng_examples.Performance.Threads.{work}
use nng_examples.Performance.Reqrep
use nng_examples.Performance.Survey
use nng_examples.Performance.Surveyed.{SurveyTimed}
use nng_examples.Performance.SurveyRun.{survey_run_complete}
use nng_examples.Performance.Requested.{ReqTimed, req_run_complete}
use nng_examples.Performance.Goals.{Returned}
use nng_examples.Performance.Ended.{reached}
use nng_examples.Tests.Machine.{start}
use nng_examples.Tests.Crew.{machines, begin, begin-Begins, counting, numbered}
use nng_examples.Tests.Programs.{
  pair_args, crew_args, two_is_2, three_is_3, two_as_int, three_as_int,
}

-- Main thread, first replier, main thread, second replier, main thread.
abbrev turn_about : List ℕ
turn_about =
    replicate 24 0 ++ (replicate 20 1 ++ (replicate 30 0 ++ (replicate 20 2 ++ replicate 20 0)))

abbrev requests : List Bytes
requests = (1 ∷ []) ∷ (2 ∷ []) ∷ []

abbrev replies : List Bytes
replies = (1 ∷ []) ∷ (2 ∷ []) ∷ (3 ∷ []) ∷ (4 ∷ []) ∷ []

req_ends :
    (reached machines numbered 3
      (begin replies requests)
      (Reqrep.main counting pair_args)
      turn_about).main
    ≡ exit 0
unfolding turns turn pick main_turn main_call crew_turn work Reqrep.main Reqrep.measure
    Reqrep.requestor Reqrep.replier Reqrep.results start_job int_loop new_bytes receive_freed line
    forever check checked checkstat atol_size text
req_ends = refl

req_run_complete_example :
    ReqTimed counting (text "ipc:///tmp/t") 2 3 (start replies).view (
      machines.view
        (reached machines numbered 3
          (begin replies requests)
          (Reqrep.main counting pair_args)
          turn_about).world
        0)
    × Returned numbered (rep_replier (text "ipc:///tmp/t") 2 1) (start requests).view (
        machines.view
          (reached machines numbered 3
            (begin replies requests)
            (Reqrep.main counting pair_args)
            turn_about).world
          1)
    × Returned numbered (rep_replier (text "ipc:///tmp/t") 2 3) (start requests).view (
        machines.view
          (reached machines numbered 3
            (begin replies requests)
            (Reqrep.main counting pair_args)
            turn_about).world
          2)
req_run_complete_example =
    req_run_complete machines numbered 3 (start requests).view (begin replies requests) counting
      pair_args (text "ipc:///tmp/t") (text "2") (text "3") 2 3 turn_about
      (begin-Begins replies requests) refl refl two_is_2 refl three_is_3 (omega arith) req_ends

-- Main thread, responders of the first half, main thread, responders of the second half, main thread.
abbrev survey_order : List ℕ
survey_order =
    replicate 30 0
    ++ (replicate 20 1
        ++ (replicate 20 2
            ++ (replicate 40 0 ++ (replicate 20 3 ++ (replicate 20 4 ++ replicate 30 0)))))

abbrev responses : List Bytes
responses = replicate 8 (1 ∷ [])

abbrev questions : List Bytes
questions = replicate 3 (1 ∷ [])

survey_ends :
    (reached machines numbered 3
      (begin responses questions)
      (Survey.main counting crew_args)
      survey_order).main
    ≡ exit 0
unfolding turns turn pick main_turn main_call crew_turn work Survey.main Survey.measure
    Survey.set_options Survey.surveyor Survey.survey Survey.responder Survey.results start_job
    start_jobs start_all join_all int_loop new_bytes receive_freed line forever check checked
    checkstat atoi_size text
survey_ends = refl

survey_run_complete_example :
    SurveyTimed counting (text "ipc:///tmp/t") 2 3 2 (start responses).view (
      machines.view
        (reached machines numbered 3
          (begin responses questions)
          (Survey.main counting crew_args)
          survey_order).world
        0)
    × ((i : ℕ)
        → i < 2
        → Returned numbered
            (respondent_responder (text "ipc:///tmp/t") 2 1)
            (start questions).view
            (machines.view
              (reached machines numbered 3
                (begin responses questions)
                (Survey.main counting crew_args)
                survey_order).world
              (suc i))
          × Returned numbered
              (respondent_responder (text "ipc:///tmp/t") 2 3)
              (start questions).view
              (machines.view
                (reached machines numbered 3
                  (begin responses questions)
                  (Survey.main counting crew_args)
                  survey_order).world
                (suc (2 + i))))
survey_run_complete_example =
    survey_run_complete machines numbered 3 (start questions).view (begin responses questions)
      counting crew_args (text "ipc:///tmp/t") (text "2") (text "3") (text "2") 2 3 2 survey_order
      (begin-Begins responses questions) refl refl two_as_int refl three_as_int refl two_as_int
      (omega arith) (omega arith) (omega arith) survey_ends
