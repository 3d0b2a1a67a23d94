-- ===== src/Push/Order.antt =====
-- What the pushers's peers get, and in what order.
use nng_examples.Prelude.{
  ℕ, zero, suc, ◌<◌, ◌≡◌, refl, ap, ◌++◌, [], ◌∷◌, List, some, length, arith,
}
use nng_examples.Bytes.{
  Bytes, text, terminated, c_string, c_string-terminated, IsText, all_nonzero, all_nonzero-IsText,
  append-IsText,
}
use nng_examples.Bytes.Decimal.{decimal, decimal-IsText}
use nng_examples.Platform.{exit, ◌>>=◌, push0, listen, argv, Outcome, exits}
use nng_examples.Platform.Documented.{Texts, View, Event, sent, slept, listening, happen}
use nng_examples.Platform.Host.{Host, run, after}
use nng_examples.Platform.Rules.{Always, Always-assoc, Always-mono, sleep-then, run-Always}
use nng_examples.Checked.Rules.{Failed, send-then}
use nng_examples.Checked.Startup.{Started, startup-Always}
use nng_examples.Push.{msg_count, message, push_one, push_from, main}

-- The bodies `bs`, sent one after the other after the events `l`.
abbrev pub emit : ℕ → List Bytes → List Event → List Event
emit s [] l = l
emit s (b ∷ bs) l = emit s bs (sent s b ∷ l)

-- The bodies read as the messages from `seq` on.
abbrev pub Numbered : ℕ → List Bytes → Type 0
Numbered seq [] = Unit {0}
Numbered seq (b ∷ bs) = (c_string b ≡ some (message seq)) × Numbered (suc seq) bs

-- The ends of the loop with `left` rounds to go from `seq` on: all messages were sent in order, or a
-- call failed after fewer of them, in order.
pub data Pushed (t : Texts) (s seq left : ℕ) (v : View) (o : Outcome (Unit {0})) (u : View)
    : Type 0 where
  complete :
      (bs : List Bytes)
      → length bs ≡ left
      → Numbered seq bs
      → o ≡ exits 0
      → u.log ≡ emit s bs v.log
      → u.body ≡ v.body
      → Pushed t s seq left v o u
  cut_off :
      (bs : List Bytes)
      → length bs < left
      → Numbered seq bs
      → o ≡ exits 1
      → Failed t (emit s bs v.log) u
      → Pushed t s seq left v o u

message-IsText : (seq : ℕ) → IsText (message seq)
unfolding text all_nonzero
message-IsText seq =
    append-IsText (text "message number ") (decimal seq)
      (all_nonzero-IsText (text "message number ") refl) (decimal-IsText seq)

Pushed-suc :
    (t : Texts) (s seq left : ℕ) (v u : View) (o : Outcome (Unit {0})) (b : Bytes)
    → c_string b ≡ some (message seq)
    → Pushed t s (suc seq) left (happen (sent s b) v) o u
    → Pushed t s seq (suc left) v o u
Pushed-suc t s seq left v u o b r (complete bs n ns e l w) =
    complete (b ∷ bs) (ap suc n) (r, ns) e l w
Pushed-suc t s seq left v u o b r (cut_off bs n ns e f) = cut_off (b ∷ bs) (omega arith) (r, ns) e f

push-Pushed :
    (t : Texts) (s seq left : ℕ) (v : View)
    → Always t (push_from s seq left >>= λ _. exit 0) v (Pushed t s seq left v)
unfolding push_from push_one
push-Pushed t s seq zero v = complete [] refl tt refl refl refl
push-Pushed t s seq (suc left) v =
    Always-assoc t (push_one s seq) (λ _. push_from s (suc seq) left) (λ _. exit 0) v
      (Pushed t s seq (suc left) v)
      (send-then t v (Pushed t s seq (suc left) v) (λ u f. cut_off [] (omega arith) tt refl f) s _
        (terminated (message seq)) _ _ _ _
        λ b size.
          let gave = terminated (message seq) ++ b in
          Always-mono t (push_from s (suc seq) left >>= λ _. exit 0) (happen (sent s gave) v)
            (Pushed t s (suc seq) left (happen (sent s gave) v)) (Pushed t s seq (suc left) v)
            (λ o u p.
              Pushed-suc t s seq left v u o gave
                (c_string-terminated (message seq) b (message-IsText seq)) p)
            (push-Pushed t s (suc seq) left (happen (sent s gave) v)))

-- Whatever nng does within its documentation, the pusher ends by a failed start, by the use of a
-- missing argument, or after listening and a sleep of two seconds as `Pushed` says: it sends the fifty
-- messages numbered from 0 in order and ends well, or a call fails after fewer of them.
pub push_main-Started :
    {t : Texts} (h : Host t) (args : List Bytes) (w : h.World)
    → Started t push0 listening
        (argv args 1)
        (h.view w)
        (λ s v. Pushed t s 0 msg_count (happen (slept 2) v))
        (run h (main args) w).0
        (after h (main args) w)
unfolding main
push_main-Started {t} h args w = run-Always h (main args) w _ (
    startup-Always t push0 listening (argv args 1) (h.view w) listen _ _ _ _ (λ s uri x a u e. e)
      (λ s x _ _.
        sleep-then t x (Pushed t s 0 msg_count (happen (slept 2) x)) 2
          (λ _. push_from s 0 msg_count >>= λ _. exit 0)
          (push-Pushed t s 0 msg_count (happen (slept 2) x))))
