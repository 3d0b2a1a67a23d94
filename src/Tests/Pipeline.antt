-- ===== src/Tests/Pipeline.antt =====
-- push.cpp and pull.cpp at concrete inputs.
use nng_examples.Prelude.{◌∷◌, [], List}
use nng_examples.Bytes.{Bytes, text, terminated}
use nng_examples.Platform.{argv, push0, pull0, stderr}
use nng_examples.Platform.Documented.{listening, dialed, slept, happen}
use nng_examples.Platform.Host.{run, after}
use nng_examples.Platform.Loop.{Looped}
use nng_examples.Checked.Startup.{Started}
use nng_examples.Checked.Shown.{Shown, Unshown}
use nng_examples.Tests.Machine.{machine, texts, start}
use nng_examples.Push
use nng_examples.Push.Order.{Pushed, push_main-Started}
use nng_examples.Pull
use nng_examples.Pull.Shown.{pull_main-Started}

abbrev args : List Bytes
args = text "program" ∷ text "tcp://localhost:4000" ∷ []

push_main-Started_example :
    Started texts push0 listening
      (argv args 1)
      (start []).view
      (λ s v. Pushed texts s 0 Push.msg_count (happen (slept 2) v))
      (run machine (Push.main args) (start [])).0
      (after machine (Push.main args) (start []))
push_main-Started_example = push_main-Started machine args (start [])

pull_main-Started_example :
    Started texts pull0 dialed
      (argv args 1)
      (start (terminated (text "message number 7") ∷ [])).view
      (λ s. Looped (Shown stderr (text " Received : ") s) (Unshown texts s) 2)
      (run machine (Pull.main 2 args) (start (terminated (text "message number 7") ∷ []))).0
      (after machine (Pull.main 2 args) (start (terminated (text "message number 7") ∷ [])))
pull_main-Started_example =
    pull_main-Started machine 2 args (start (terminated (text "message number 7") ∷ []))
