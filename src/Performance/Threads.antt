-- ===== src/Performance/Threads.antt =====
-- The code that the threads of performance/ run.
use nng_examples.Prelude.{ℕ, Bool, true}
use nng_examples.Bytes.{Bytes}
use nng_examples.Platform.{
  Job, pair_receiver, rep_replier, sub_subscriber, pull_puller, respondent_responder, bus_receiver,
  Prog, ret, ◌>>◌,
}
use nng_examples.Performance.Pair
use nng_examples.Performance.Reqrep
use nng_examples.Performance.Pubsub
use nng_examples.Performance.Pushpull
use nng_examples.Performance.Survey
use nng_examples.Performance.Bus

-- What a thread runs: it returns `true`, or `false` if one of its loops is followed no further than
-- `fuel` rounds.
unfoldable pub work : (Bytes → ℕ → Bytes) → ℕ → Job → Prog Bool
work formatted fuel (pair_receiver uri nmsg) = Pair.receiver uri nmsg >> ret true
work formatted fuel (rep_replier uri nmsg repsize) = Reqrep.replier uri nmsg repsize >> ret true
work formatted fuel (sub_subscriber uri) = Pubsub.subscriber fuel uri
work formatted fuel (pull_puller uri) = Pushpull.puller fuel uri
work formatted fuel (respondent_responder uri n size) = Survey.responder uri n size >> ret true
work formatted fuel (bus_receiver base size me nmsg p) =
    Bus.receiver formatted fuel base size me nmsg p
