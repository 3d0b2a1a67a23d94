-- ===== src/Tests/Survey.antt =====
-- surveyor.cpp and respondent.cpp at concrete inputs. Status 7 stands for the time out.
use nng_examples.Prelude.{◌≡◌, refl, ◌⊎◌, ◌++◌, ◌∷◌, [], List, length, ℕ}
use nng_examples.Bytes.{Bytes, text, terminated, c_string, IsText, all_nonzero, all_nonzero-IsText}
use nng_examples.Platform.{argv, surveyor0, respondent0, returns, exits}
use nng_examples.Platform.Documented.{listening, dialed, sent}
use nng_examples.Platform.Host.{run, after}
use nng_examples.Platform.Loop.{Looped}
use nng_examples.Checked.Rules.{Failed}
use nng_examples.Checked.Startup.{Started}
use nng_examples.Tests.Machine.{machine, texts, start, Machine}
use nng_examples.Surveyor
use nng_examples.Surveyor.Timeout.{asking, Concluded}
use nng_examples.Surveyor.Service.{Conducted, surveyor_main-Started}
use nng_examples.Surveyor.Unterminated.{followed, survey-unterminated}
use nng_examples.Respondent
use nng_examples.Respondent.Service.{Surveyed, Unsurveyed, respondent_main-Started}

abbrev args : List Bytes
args = text "program" ∷ text "ipc:///tmp/s" ∷ []

abbrev responses : List Bytes
responses = terminated (text "17") ∷ terminated (text "42") ∷ []

abbrev questions : List Bytes
questions = terminated (text "EVEN") ∷ terminated (text "ODD") ∷ []

even-IsText : IsText (text "EVEN")
unfolding text all_nonzero
even-IsText = all_nonzero-IsText (text "EVEN") refl

surveyor_main-Started_example :
    Started texts surveyor0 listening
      (argv args 1)
      (start responses).view
      (Conducted texts 7 10 2)
      (run machine (Surveyor.main 7 10 2 args) (start responses)).0
      (after machine (Surveyor.main 7 10 2 args) (start responses))
    × ((s : ℕ) (name : Bytes) (w : Machine)
        → Concluded 7
            (run machine (asking 10 s name) w).0
            (run machine (Surveyor.survey 7 10 s name) w).0)
surveyor_main-Started_example = surveyor_main-Started machine 7 10 2 args (start responses)

survey-unterminated_example :
    ((run machine (Surveyor.send 1 (text "EVEN")) (start [])).0 ≡ exits 1)
      × Failed texts (start []).view.log (after machine (Surveyor.send 1 (text "EVEN")) (start []))
    ⊎ ((run machine (Surveyor.send 1 (text "EVEN")) (start [])).0 ≡ returns tt)
      × ((rest : Bytes) × (length rest ≡ length (text "EVEN"))
          × ((after machine (Surveyor.send 1 (text "EVEN")) (start [])).log
              ≡ sent 1 (text "EVEN" ++ rest) ∷ (start []).view.log)
          × (c_string (text "EVEN" ++ rest) ≡ followed (text "EVEN") (c_string rest)))
survey-unterminated_example = survey-unterminated machine (start []) 1 (text "EVEN") even-IsText

respondent_main-Started_example :
    Started texts respondent0 dialed
      (argv args 1)
      (start questions).view
      (λ s v. Looped (Surveyed s v.pid) (Unsurveyed texts s) 3 v)
      (run machine (Respondent.main 3 args) (start questions)).0
      (after machine (Respondent.main 3 args) (start questions))
respondent_main-Started_example = respondent_main-Started machine 3 args (start questions)
