-- ===== src/Req/Exchange.antt =====
-- What the client does on its socket, and a whole conversation with the server of reply.cpp.
use nng_examples.Prelude.{ℕ, ◌+◌, ◌≡◌, refl, ◌++◌, ◌∷◌, List, Option, some, none, length}
use nng_examples.Bytes.{Bytes, text, terminated, c_string, c_string-terminated, IsText}
use nng_examples.Platform.{exit, ◌>>=◌, req0, dial, argv, deref, stdout, Outcome, exits, faults}
use nng_examples.Platform.Documented.{
  Texts, View, sent, received, dialed, printed, happen, set_body,
}
use nng_examples.Platform.Host.{Host, run, after}
use nng_examples.Platform.Rules.{Always, Always-assoc, run-Always}
use nng_examples.Checked.{newline, send_message}
use nng_examples.Checked.Rules.{Failed, send-then, receive-then, show-then}
use nng_examples.Checked.Startup.{Started, startup-Always}
use nng_examples.Req.{request, report, main}

-- The ends of a client whose socket is `s` and whose third argument is `arg`: the argument is missing
-- and its null pointer used; a call failed, after sending at most the request; the answer that came
-- has no terminator; or it was printed and the program ended well, owning nothing more than before.
pub data Asked (t : Texts) (s : ℕ) (arg : Option Bytes) (v : View) (o : Outcome (Unit {0}))
    (u : View) : Type 0 where
  no_request : arg ≡ none → o ≡ faults → u.log ≡ v.log → Asked t s arg v o u
  not_sent : (req : Bytes) → arg ≡ some req → o ≡ exits 1 → Failed t v.log u → Asked t s arg v o u
  no_answer :
      (req gave : Bytes)
      → arg ≡ some req
      → c_string gave ≡ some req
      → o ≡ exits 1
      → Failed t (sent s gave ∷ v.log) u
      → Asked t s arg v o u
  bad_answer :
      (req gave got : Bytes)
      → arg ≡ some req
      → c_string gave ≡ some req
      → c_string got ≡ none
      → o ≡ faults
      → u.log ≡ received s got ∷ sent s gave ∷ v.log
      → Asked t s arg v o u
  answered :
      (req gave got reply : Bytes)
      → arg ≡ some req
      → c_string gave ≡ some req
      → c_string got ≡ some reply
      → o ≡ exits 0
      → u.log
        ≡ printed stdout (text "Reply: " ++ reply ++ newline) ∷ received s got ∷ sent s gave ∷ v.log
      → u.body ≡ v.body
      → Asked t s arg v o u

module _ (t : Texts) (s : ℕ) (arg : Option Bytes) (v : View) where
  report-Asked :
      (req gave got : Bytes) (m : ℕ)
      → arg ≡ some req
      → c_string gave ≡ some req
      → v.body m ≡ none
      → Always t
          (report m)
          (happen (received s got) (set_body m (some got) (happen (sent s gave) v)))
          (Asked t s arg v)
  unfolding report
  report-Asked req gave got m e g free =
      show-then t (happen (received s got) (set_body m (some got) (happen (sent s gave) v)))
        (Asked t s arg v) v.body stdout (text "Reply: ") m got (λ _. exit 0) refl free
        (λ bad. bad_answer req gave got e g bad refl refl)
        (λ reply reads. answered req gave got reply e g reads refl refl refl)

  pub request-Asked :
      (req : Bytes)
      → arg ≡ some req
      → IsText req
      → Always t (request s req >>= report) v (Asked t s arg v)
  unfolding request
  request-Asked req e is_text =
      Always-assoc t (send_message s (length req + 1) (terminated req) _ _ _) _ report v _ (
        send-then t v _ (λ u f. not_sent req e refl f) s _ (terminated req) _ _ _ _
          λ b size.
            let gave = terminated req ++ b in
            let g = c_string-terminated req b is_text in
            receive-then t (happen (sent s gave) v) _ (λ u f. no_answer req gave e g refl f) s _
              report λ m got free. report-Asked req gave got m e g free)

  ask-Asked :
      ((req : Bytes) → arg ≡ some req → IsText req)
      → Always t (deref arg >>= λ req. request s req >>= report) v (Asked t s arg v)
  ask-Asked texts = with_argument arg refl
    where
      with_argument :
          (o : Option Bytes)
          → arg ≡ o
          → Always t (deref o >>= λ req. request s req >>= report) v (Asked t s arg v)
      with_argument none e = no_request e refl refl
      with_argument (some req) e = request-Asked req e (texts req e)

-- The client, whatever nng does: arguments are C strings.
pub req_main-Started :
    {t : Texts} (h : Host t) (args : List Bytes) (w : h.World)
    → ((req : Bytes) → argv args 2 ≡ some req → IsText req)
    → Started t req0 dialed
        (argv args 1)
        (h.view w)
        (λ s. Asked t s (argv args 2))
        (run h (main args) w).0
        (after h (main args) w)
unfolding main
req_main-Started {t} h args w texts = run-Always h (main args) w _ (
    startup-Always t req0 dialed (argv args 1) (h.view w) dial _ _ _ _ (λ s uri x a u e. e)
      (λ s x _ _. ask-Asked t s (argv args 2) x texts))
