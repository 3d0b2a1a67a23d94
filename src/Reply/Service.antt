-- ===== src/Reply/Service.antt =====
-- What a client of the reply program gets.
use nng_examples.Prelude.{
  if◌then◌else◌, ℕ, zero, suc, ◌+◌, ◌≡◌, ◌≢◌, ◌⊎◌, inl, inr, refl, subst, ◌++◌, ◌∷◌, List, some,
  none, length, Bool-cases,
}
use nng_examples.Bytes.{
  Bytes, text, bytes_eq, bytes_eq_sound, bytes_eq-false, append-IsText, all_nonzero,
  all_nonzero-IsText, terminated, c_string, c_string-terminated, IsText,
}
use nng_examples.Bytes.Decimal.{decimal, decimal-IsText}
use nng_examples.Platform.{
  Prog, ret, exit, ◌>>=◌, ◌>>◌, act, rep0, listen, argv, msg_free, Outcome, returns, exits, faults,
}
use nng_examples.Platform.Documented.{
  Texts, View, sent, received, listening, happen, set_body, update_self, update_undo,
}
use nng_examples.Platform.Host.{Host, run, after}
use nng_examples.Platform.Rules.{
  run-Always, Always, Post, date-then, pid-then, body-then, free-last, Always-assoc,
}
use nng_examples.Platform.Loop.{forever, Round, Looped, forever-Always}
use nng_examples.Checked.Rules.{Failed, send-then, receive-then}
use nng_examples.Checked.Startup.{Started, startup-Always}
use nng_examples.Reply.{send, compose, process_request, serve, main}

-- The documented answers: OK to STOP, the date to DATE, the process id to PID, else an error.
abbrev pub IsReply : Texts → View → Bytes → Bytes → Type 0
IsReply t v req rep =
    ((req ≡ text "STOP") × (rep ≡ text "OK"))
    ⊎ (((req ≡ text "DATE") × (rep ≡ text "OK " ++ t.date_text v.clock))
        ⊎ (((req ≡ text "PID") × (rep ≡ text "OK " ++ decimal v.pid))
            ⊎ ((req ≢ text "STOP")
                × (req ≢ text "DATE")
                × (req ≢ text "PID")
                × (rep ≡ text "ERROR - unrecognized request"))))

ok-IsText : IsText (text "OK ")
unfolding text all_nonzero
ok-IsText = all_nonzero-IsText (text "OK ") refl

stop-IsText : IsText (text "OK")
unfolding text all_nonzero
stop-IsText = all_nonzero-IsText (text "OK") refl

error-IsText : IsText (text "ERROR - unrecognized request")
unfolding text all_nonzero
error-IsText = all_nonzero-IsText (text "ERROR - unrecognized request") refl

-- At most the clock moves while the answer is put together.
compose-then :
    (t : Texts) (req : Bytes) (v : View) (k : Bytes → Prog (Unit {0})) (Q : Post (Unit {0}))
    → ((rep : Bytes) (n : ℕ)
        → IsReply t (record v { clock = n }) req rep
        → IsText rep
        → Always t (k rep) (record v { clock = n }) Q)
    → Always t (compose req >>= k) v Q
unfolding compose
compose-then t req v k Q h = elim (Bool-cases (bytes_eq req (text "STOP"))) [
  | inl e ↦ rw e (h _ v.clock (inl (bytes_eq_sound _ _ e, refl)) stop-IsText)
  | inr n1 ↦ rw n1 (elim (Bool-cases (bytes_eq req (text "DATE"))) [
    | inl e ↦ rw e (
        date-then t v Q (λ date. k (text "OK " ++ date))
          λ n.
            h _ n (inr (inl (bytes_eq_sound _ _ e, refl)))
              (append-IsText (text "OK ") _ ok-IsText (t.date_text-IsText n)))
    | inr n2 ↦ rw n2 (elim (Bool-cases (bytes_eq req (text "PID"))) [
      | inl e ↦ rw e (
          pid-then t v Q (λ pid. k (text "OK " ++ decimal pid))
            (h _ v.clock (inr (inr (inl (bytes_eq_sound _ _ e, refl))))
              (append-IsText (text "OK ") _ ok-IsText (decimal-IsText v.pid))))
      | inr n3 ↦ rw n3 (
          h _ v.clock
            (inr (
              inr
                (inr (bytes_eq-false _ _ n1, bytes_eq-false _ _ n2, bytes_eq-false _ _ n3, refl))))
            error-IsText)
    ])
  ])
]

-- One request answered: what was received reads as `request`, one message was sent to the same
-- socket, which reads as the answer, and nothing else happened.
pub record Exchange (t : Texts) (s : ℕ) (request : Bytes) (v u : View) : Type 0 where
  pub reply : Bytes
  pub got : Bytes
  pub gave : Bytes
  pub reads : c_string got ≡ some request
  pub replies : c_string gave ≡ some reply
  pub right : IsReply t u request reply
  pub log : u.log ≡ sent s gave ∷ received s got ∷ v.log
  pub pid : u.pid ≡ v.pid

-- A turn after which the server goes on: it owns the messages that it owned before.
abbrev pub Served : Texts → ℕ → View → View → Type 0
Served t s v u =
    (request : Bytes) × (request ≢ text "STOP") × Exchange t s request v u × (u.body ≡ v.body)

-- The last turn: STOP is answered and ends the program well; a call that fails ends it with a
-- diagnosis; a request that no zero byte ends is undefined behaviour.
abbrev pub Stopped : Texts → ℕ → Outcome (Unit {0}) → View → View → Type 0
Stopped t s (returns _) v u = ⊥
Stopped t s (exits zero) v u = Exchange t s (text "STOP") v u
Stopped t s (exits (suc zero)) v u =
    Failed t v.log u ⊎ ((got : Bytes) × Failed t (received s got ∷ v.log) u)
Stopped t s (exits (suc (suc n))) v u = ⊥
Stopped t s faults v u = (got : Bytes) × (c_string got ≡ none) × (u.log ≡ received s got ∷ v.log)

send-reply :
    (t : Texts) (s : ℕ) (rep : Bytes) (k : Unit {0} → Prog (Unit {0})) (v : View)
    (Q : Post (Unit {0}))
    → IsText rep
    → ((gave : Bytes) → c_string gave ≡ some rep → Always t (k tt) (happen (sent s gave) v) Q)
    → ((u : View) → Failed t v.log u → Q (exits 1) u)
    → Always t (send s rep >>= k) v Q
unfolding send
send-reply t s rep k v Q is_text h bad =
    send-then t v Q bad s (length rep + 1) (terminated rep) _ _ _ k
      (λ b size. h (terminated rep ++ b) (c_string-terminated rep b is_text))

module _ (t : Texts) (s : ℕ) (v : View) where
  -- The request in message `m` and its answer have gone over the socket.
  abbrev answered : ℕ → Bytes → ℕ → Bytes → View
  answered m got n gave =
      happen (sent s gave)
        (record (happen (received s got) (set_body m (some got) v)) { clock = n })

  -- After the reply: the program ends, or frees the request.
  finish :
      (m : ℕ) (got request rep gave : Bytes) (n : ℕ)
      → v.body m ≡ none
      → Exchange t s request v (answered m got n gave)
      → Always t
          ((if bytes_eq request (text "STOP") then exit 0 else ret tt) >> act (msg_free m))
          (answered m got n gave)
          (Round (Served t s) (Stopped t s) v)
  finish m got request rep gave n free x = elim (Bool-cases (bytes_eq request (text "STOP"))) [
    | inl e ↦ rw e (subst (λ r. Exchange t s r v (answered m got n gave)) (bytes_eq_sound _ _ e) x)
    | inr e ↦ rw e (
        free-last t (answered m got n gave) (Round (Served t s) (Stopped t s) v) m got
          (update_self v.body m (some got))
          (request, bytes_eq-false _ _ e, kept x, update_undo v.body m (some got) free))
  ]
    where
      kept :
          Exchange t s request v (answered m got n gave)
          → Exchange t s request v (set_body m none (answered m got n gave))
      kept y = record {
        reply = y.reply;
        got = y.got;
        gave = y.gave;
        reads = y.reads;
        replies = y.replies;
        right = y.right;
        log = y.log;
        pid = y.pid;
      }

  -- A request in hand, as message `m`.
  answer-Round :
      (m : ℕ) (got request : Bytes)
      → v.body m ≡ none
      → c_string got ≡ some request
      → Always t
          (process_request s request >> act (msg_free m))
          (happen (received s got) (set_body m (some got) v))
          (Round (Served t s) (Stopped t s) v)
  unfolding process_request
  answer-Round m got request free reads =
      let w = happen (received s got) (set_body m (some got) v) in
      Always-assoc t (compose request) _ (λ _. act (msg_free m)) w _
        (compose-then t request w _ _ λ rep n right is_text.
          let w' = record w { clock = n } in
          Always-assoc t (send s rep) _ (λ _. act (msg_free m)) w' _
            (send-reply t s rep _ w' _ is_text
              (λ gave replies. finish m got request rep gave n free (record {
                reply = rep;
                got = got;
                gave = gave;
                reads = reads;
                replies = replies;
                right = right;
                log = refl;
                pid = refl;
              }))
              (λ u f. inr (got, f))))

  pub serve-Round : Always t (serve s) v (Round (Served t s) (Stopped t s) v)
  unfolding serve
  serve-Round =
      receive-then t v _ (λ u f. inl f) s _ _
        λ m got free.
          body-then t (happen (received s got) (set_body m (some got) v)) _ m got _
            (update_self v.body m (some got)) (λ bad. (got, bad, refl))
            λ request reads. answer-Round m got request free reads

-- The loop of the server, for any number of turns.
pub loop-Looped :
    (t : Texts) (s n : ℕ) (v : View)
    → Always t (forever n (serve s)) v (Looped (Served t s) (Stopped t s) n v)
loop-Looped t s n v = forever-Always (Served t s) (Stopped t s) t (serve s) (serve-Round t s) n v

-- The server from its start on, followed for `n` turns.
pub main-Started :
    (t : Texts) (n : ℕ) (args : List Bytes) (v : View)
    → Always t
        (main n args)
        v
        (Started t rep0 listening (argv args 1) v (λ s. Looped (Served t s) (Stopped t s) n))
unfolding main
main-Started t n args v =
    startup-Always t rep0 listening (argv args 1) v listen _ _ _ _ (λ s uri w a u e. e)
      (λ s w _ _. loop-Looped t s n w)

-- Whatever nng and libc do within their documentation, the server run for `n` turns ends by a failed
-- start, by the use of a missing argument, or after listening on its address as `Looped` says: each
-- turn answers one request rightly, by one message to the same socket, and frees what it owned; the
-- loop ends early only by a failed call (exit 1 and a diagnosis), by STOP (answered, exit 0) or on a
-- request without a terminator (undefined behaviour).
pub reply_main-Started :
    {t : Texts} (h : Host t) (n : ℕ) (args : List Bytes) (w : h.World)
    → Started t rep0 listening
        (argv args 1)
        (h.view w)
        (λ s. Looped (Served t s) (Stopped t s) n)
        (run h (main n args) w).0
        (after h (main n args) w)
reply_main-Started {t} h n args w =
    run-Always h (main n args) w _ (main-Started t n args (h.view w))
