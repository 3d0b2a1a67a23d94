-- ===== src/Tests/Reqrep.antt =====
-- req.cpp and reply.cpp at concrete inputs.
use mathlib.Core.Option.{some-injective}
use nng_examples.Prelude.{◌≡◌, refl, ◌++◌, ◌∷◌, [], List, replicate, subst}
use nng_examples.Bytes.{
  Bytes, text, terminated, bytes_eq, c_string, all_nonzero, all_nonzero-IsText, IsText,
}
use nng_examples.Bytes.Decimal.{decimal}
use nng_examples.Platform.{argv, rep0, stdout, exits, req0}
use nng_examples.Platform.Documented.{listening, printed, dialed}
use nng_examples.Platform.Host.{run, after}
use nng_examples.Platform.Loop.{Looped, forever}
use nng_examples.Checked.{newline, checkstat, check, checked, send_message, show_message}
use nng_examples.Checked.Startup.{Started}
use nng_examples.Tests.Machine.{machine, texts, start}
use nng_examples.Reply
use nng_examples.Reply.Service.{Served, Stopped, IsReply, reply_main-Started}
use nng_examples.Req
use nng_examples.Req.Exchange.{Asked, req_main-Started}
use nng_examples.Req.Conversation.{client-prints-answer}

abbrev server_args : List Bytes
server_args = text "reply" ∷ text "ipc:///tmp/r" ∷ []

abbrev client_args : List Bytes
client_args = text "req" ∷ text "ipc:///tmp/r" ∷ text "PID" ∷ []

-- What a client that asks for PID sends, and what a server with process id 42 answers.
abbrev asked : Bytes
asked = terminated (text "PID") ++ replicate 4 0

abbrev answer : Bytes
answer = terminated (text "OK 42") ++ replicate 6 0

abbrev stopping : Bytes
stopping = terminated (text "STOP")

pid-IsText : IsText (text "PID")
unfolding text all_nonzero
pid-IsText = all_nonzero-IsText (text "PID") refl

-- PID is answered, STOP is answered and ends the program.
server_run :
    (run machine (Reply.main 3 server_args) (start (asked ∷ stopping ∷ asked ∷ []))).0 ≡ exits 0
unfolding run Reply.main Reply.serve Reply.process_request Reply.compose Reply.send forever check
    checked checkstat send_message c_string bytes_eq decimal text
server_run = refl

reply_main-Started_example :
    Started texts rep0 listening
      (argv server_args 1)
      (start (asked ∷ stopping ∷ [])).view
      (λ s. Looped (Served texts s) (Stopped texts s) 3)
      (run machine (Reply.main 3 server_args) (start (asked ∷ stopping ∷ []))).0
      (after machine (Reply.main 3 server_args) (start (asked ∷ stopping ∷ [])))
reply_main-Started_example =
    reply_main-Started machine 3 server_args (start (asked ∷ stopping ∷ []))

client-prints-answer_example :
    (reply : Bytes) × IsReply texts
      (after machine (Reply.serve 1) (start (asked ∷ [])))
      (text "PID")
      reply
    × (printed stdout (text "Reply: OK 42" ++ newline)
        ≡ printed stdout (text "Reply: " ++ reply ++ newline))
unfolding run Reply.serve Reply.process_request Reply.compose Reply.send Req.request Req.report
    check checked checkstat send_message show_message c_string bytes_eq decimal text
client-prints-answer_example =
    client-prints-answer machine machine (start (answer ∷ [])) (start (asked ∷ [])) 1 1 (text "PID")
      asked answer (printed stdout (text "Reply: OK 42" ++ newline)) pid-IsText refl refl refl

req_main-Started_example :
    Started texts req0 dialed
      (argv client_args 1)
      (start (answer ∷ [])).view
      (λ s. Asked texts s (argv client_args 2))
      (run machine (Req.main client_args) (start (answer ∷ []))).0
      (after machine (Req.main client_args) (start (answer ∷ [])))
req_main-Started_example =
    req_main-Started machine client_args (start (answer ∷ []))
      (λ req e. subst IsText (some-injective _ _ e) pid-IsText)
