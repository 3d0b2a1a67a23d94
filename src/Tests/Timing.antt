-- ===== src/Tests/Timing.antt =====
-- performance/ at concrete inputs.
use nng_examples.Prelude.{◌∷◌, [], some, arith, true, List, ◌≡◌, refl}
use nng_examples.Bytes.{text, Bytes}
use nng_examples.Platform.{pair0, pull0, bus_receiver, returns}
use nng_examples.Platform.Documented.{listening, word, dialed}
use nng_examples.Platform.Host.{run, after}
use nng_examples.Platform.Loop.{Looped}
use nng_examples.Checked.Startup.{Started}
use nng_examples.Tests.Crew.{numbered}
use nng_examples.Performance.Bus
use nng_examples.Bus.{targets}
use nng_examples.Performance.Pulled.{Pulled, puller-Started}
use nng_examples.Performance.Subscribed.{Subscribed}
use nng_examples.Performance.Member.{receiver-Returned}
use nng_examples.Performance.Goals.{Returned}
use nng_examples.Performance.Pushpull.{puller}
use nng_examples.Checked.{check, checked, checkstat}
use nng_examples.Tests.Machine.{machine, texts, start}
use nng_examples.Performance.Pair.{receiver}
use nng_examples.Performance.Reqrep.{requestor, replier}
use nng_examples.Performance.Rules.{Received, Broken}
use nng_examples.Performance.Transfer.{receiver-Started}
use nng_examples.Performance.Replies.{Replied, replier-Replied}
use nng_examples.Performance.Requests.{Requested, requestor-Requested}

receiver-Started_example :
    Started texts pair0 listening
      (some (text "ipc:///tmp/t"))
      (start ((1 ∷ []) ∷ (2 ∷ []) ∷ [])).view
      (λ s. Looped (Received s) (Broken texts) 2)
      (run machine (receiver (text "ipc:///tmp/t") 2) (start ((1 ∷ []) ∷ (2 ∷ []) ∷ []))).0
      (after machine (receiver (text "ipc:///tmp/t") 2) (start ((1 ∷ []) ∷ (2 ∷ []) ∷ [])))
receiver-Started_example =
    receiver-Started machine 2 (text "ipc:///tmp/t") (start ((1 ∷ []) ∷ (2 ∷ []) ∷ []))
      (omega arith)

requestor-Requested_example :
    Requested texts 1 2 3
      (start ((1 ∷ []) ∷ (2 ∷ []) ∷ [])).view
      (run machine (requestor 1 2 3) (start ((1 ∷ []) ∷ (2 ∷ []) ∷ []))).0
      (after machine (requestor 1 2 3) (start ((1 ∷ []) ∷ (2 ∷ []) ∷ [])))
requestor-Requested_example =
    requestor-Requested machine 1 2 3 (start ((1 ∷ []) ∷ (2 ∷ []) ∷ [])) (omega arith)

replier-Replied_example :
    Replied texts
      (text "ipc:///tmp/t")
      2
      3
      (start ((1 ∷ []) ∷ (2 ∷ []) ∷ [])).view
      (run machine (replier (text "ipc:///tmp/t") 2 3) (start ((1 ∷ []) ∷ (2 ∷ []) ∷ []))).0
      (after machine (replier (text "ipc:///tmp/t") 2 3) (start ((1 ∷ []) ∷ (2 ∷ []) ∷ [])))
replier-Replied_example =
    replier-Replied machine (text "ipc:///tmp/t") 2 3 (start ((1 ∷ []) ∷ (2 ∷ []) ∷ []))
      (omega arith)

puller-Started_example :
    Started texts pull0 dialed
      (some (text "ipc:///tmp/t"))
      (start ((0 ∷ []) ∷ (1 ∷ []) ∷ [])).view
      (λ s v. Pulled texts s 5 v.log v)
      (run machine (puller 5 (text "ipc:///tmp/t")) (start ((0 ∷ []) ∷ (1 ∷ []) ∷ []))).0
      (after machine (puller 5 (text "ipc:///tmp/t")) (start ((0 ∷ []) ∷ (1 ∷ []) ∷ [])))
puller-Started_example =
    puller-Started machine 5 (text "ipc:///tmp/t") (start ((0 ∷ []) ∷ (1 ∷ []) ∷ []))

abbrev numbers : List Bytes
numbers = word 0 ∷ word 1 ∷ word 7 ∷ word 8 ∷ word 0xffffffff ∷ []

abbrev base : Bytes
base = text "ipc:///tmp/b"

member_returns :
    (run machine (Bus.receiver numbered 9 base 4 1 2 5) (start numbers)).0 ≡ returns true
unfolding Bus.receiver Bus.construct_endpoints Bus.setup_bus Bus.dial_all Bus.dial_doing
    Bus.catch_up Bus.await_end Bus.leave Bus.say check checked checkstat run text targets
member_returns = refl

receiver-Returned_example :
    Returned numbered
      (bus_receiver base 4 1 2 5)
      (start numbers).view
      (after machine (Bus.receiver numbered 9 base 4 1 2 5) (start numbers))
receiver-Returned_example =
    receiver-Returned machine numbered 9 base 4 1 2 5 (start numbers) member_returns
