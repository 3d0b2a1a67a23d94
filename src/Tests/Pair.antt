-- ===== src/Tests/Pair.antt =====
-- onetoonec.cpp and onetoones.cpp at concrete inputs.
use mathlib.Core.Option.{some-injective}
use nng_examples.Prelude.{
  ◌+◌, ◌<◌, ◌^◌, ◌≡◌, refl, subst, ◌++◌, ◌∷◌, [], List, replicate, length, arith,
}
use nng_examples.Bytes.{Bytes, text, terminated, c_string, all_nonzero, all_nonzero-IsText, IsText}
use nng_examples.Bytes.Decimal.{decimal}
use nng_examples.Platform.{argv, pair0}
use nng_examples.Platform.Documented.{listening, dialed}
use nng_examples.Platform.Host.{run, after}
use nng_examples.Platform.Loop.{Looped}
use nng_examples.Checked.{checkstat, check, checked, send_message, show_message}
use nng_examples.Checked.Startup.{Started}
use nng_examples.Tests.Machine.{machine, texts, start}
use nng_examples.PairServer
use nng_examples.PairServer.Service.{Echoed, Stopped, pair_server_main-Started}
use nng_examples.PairClient
use nng_examples.PairClient.Talk.{Talked, got_line, pair_client_main-Started}
use nng_examples.PairClient.Conversation.{client-prints-echo}

abbrev server_args : List Bytes
server_args = text "onetoones" ∷ text "ipc:///tmp/p" ∷ []

abbrev client_args : List Bytes
client_args = text "onetoonec" ∷ text "ipc:///tmp/p" ∷ text "hi" ∷ []

abbrev hello : Bytes
hello = terminated (text "hi") ++ replicate 3 0

abbrev second : Bytes
second = terminated (PairServer.introduction 42) ++ replicate 26 0

hi-IsText : IsText (text "hi")
unfolding text all_nonzero
hi-IsText = all_nonzero-IsText (text "hi") refl

hi_fits : length (text "hi") + 1 < 2 ^ 31
unfolding text
hi_fits = omega arith

pair_server_main-Started_example :
    Started texts pair0 listening
      (argv server_args 1)
      (start (hello ∷ [])).view
      (λ s. Looped (Echoed s) (Stopped texts s) 2)
      (run machine (PairServer.main 2 server_args) (start (hello ∷ []))).0
      (after machine (PairServer.main 2 server_args) (start (hello ∷ [])))
pair_server_main-Started_example =
    pair_server_main-Started machine 2 server_args (start (hello ∷ []))

pair_client_main-Started_example :
    Started texts pair0 dialed
      (argv client_args 1)
      (start (hello ∷ second ∷ [])).view
      (λ s. Talked texts s (argv client_args 2))
      (run machine (PairClient.main client_args) (start (hello ∷ second ∷ []))).0
      (after machine (PairClient.main client_args) (start (hello ∷ second ∷ [])))
pair_client_main-Started_example =
    pair_client_main-Started machine client_args (start (hello ∷ second ∷ [])) (λ msg e. (
      subst IsText (some-injective _ _ e) hi-IsText,
      subst (λ m. length m + 1 < 2 ^ 31) (some-injective _ _ e) hi_fits,
    ))

-- The introduction is 25 bytes long, and the message 26 more.
client-prints-echo_example :
    (got_line (text "hi") ≡ got_line (text "hi"))
    × (got_line (PairServer.introduction 42) ≡ got_line (PairServer.introduction 42))
unfolding run PairServer.service PairClient.converse PairClient.send PairClient.recv
    PairClient.recv_and_print PairClient.through_int PairClient.read_bytes check checked checkstat
    send_message show_message c_string decimal text
client-prints-echo_example =
    client-prints-echo machine machine (start (hello ∷ second ∷ [])) (start (hello ∷ [])) 1 1
      (text "hi") hello hello second (got_line (text "hi")) (got_line (PairServer.introduction 42))
      hi-IsText hi_fits refl refl refl
