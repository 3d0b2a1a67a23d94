-- ===== src/Tests/Pubsub.antt =====
-- publisher.cpp and subscriber.cpp at concrete inputs.
use mathlib.Core.Option.{some-injective}
use nng_examples.Prelude.{refl, subst, ◌∷◌, [], List}
use nng_examples.Bytes.{Bytes, text, terminated, IsText, all_nonzero, all_nonzero-IsText}
use nng_examples.Platform.{argv, pub0, sub0}
use nng_examples.Platform.Documented.{listening, dialed}
use nng_examples.Platform.Host.{run, after}
use nng_examples.Platform.Loop.{Looped}
use nng_examples.Checked.Startup.{Started}
use nng_examples.Tests.Machine.{machine, texts, start}
use nng_examples.Publisher
use nng_examples.Publisher.Service.{Published, Unpublished, publisher_main-Started}
use nng_examples.Subscriber
use nng_examples.Subscriber.Shown.{Subscribed, subscriber_main-Started}

abbrev pub_args : List Bytes
pub_args = text "publisher" ∷ text "ipc:///tmp/n" ∷ []

abbrev sub_args : List Bytes
sub_args = text "subscriber" ∷ text "ipc:///tmp/n" ∷ text "PID" ∷ []

name-IsText : IsText (text "publisher")
unfolding text all_nonzero
name-IsText = all_nonzero-IsText (text "publisher") refl

publisher_main-Started_example :
    Started texts pub0 listening
      (argv pub_args 1)
      (start []).view
      (λ s. Looped (Published texts s (argv pub_args 0)) (Unpublished texts s (argv pub_args 0)) 2)
      (run machine (Publisher.main 2 pub_args) (start [])).0
      (after machine (Publisher.main 2 pub_args) (start []))
publisher_main-Started_example =
    publisher_main-Started machine 2 pub_args (start [])
      (λ name e. subst IsText (some-injective _ _ e) name-IsText)

subscriber_main-Started_example :
    Started texts sub0 dialed
      (argv sub_args 1)
      (start (terminated (text "PID 42") ∷ [])).view
      (λ s. Subscribed texts s 2 (argv sub_args 2))
      (run machine (Subscriber.main 2 sub_args) (start (terminated (text "PID 42") ∷ []))).0
      (after machine (Subscriber.main 2 sub_args) (start (terminated (text "PID 42") ∷ [])))
subscriber_main-Started_example =
    subscriber_main-Started machine 2 sub_args (start (terminated (text "PID 42") ∷ []))
