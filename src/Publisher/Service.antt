-- ===== src/Publisher/Service.antt =====
-- What subscribers of the publisher can get.
use nng_examples.Prelude.{
  ℕ, zero, suc, ◌+◌, ◌≡◌, ◌⊎◌, inl, inr, refl, true, false, ◌++◌, ◌∷◌, List, Option, some, none,
  length,
}
use nng_examples.Bytes.{
  Bytes, text, terminated, c_string, c_string-terminated, IsText, all_nonzero, all_nonzero-IsText,
  append-IsText,
}
use nng_examples.Bytes.Decimal.{decimal, decimal-IsText}
use nng_examples.Platform.{
  Prog, ◌>>=◌, act, pub0, listen, sleep, argv, Outcome, returns, exits, faults, number, time,
  string, ctime,
}
use nng_examples.Platform.Documented.{Texts, View, sent, slept, listening, happen}
use nng_examples.Platform.Host.{Host, run, after}
use nng_examples.Platform.Rules.{
  Always, Post, Always-assoc, pid-then, date-then, run-Always, sleep-last,
}
use nng_examples.Platform.Loop.{Round, Looped, forever-Always}
use nng_examples.Checked.Rules.{Failed, send-then}
use nng_examples.Checked.Startup.{Started, startup-Always}
use nng_examples.Publisher.{send, name_text, pid_text, time_text, publish, turn, main}
use nng_examples.Publisher.Topics.{Matches, name-Matches, pid-Matches, time-Matches}

-- One turn: three messages, which read as the name, the process id and the time, in this order, and
-- then two seconds of sleep. Each matches its own subscription and the empty one, and none DATE.
pub record Published (t : Texts) (s : ℕ) (name : Option Bytes) (v u : View) : Type 0 where
  pub called : Bytes
  pub is_name : name ≡ some called
  pub first : Bytes
  pub second : Bytes
  pub third : Bytes
  pub reads_name : c_string first ≡ some (name_text called)
  pub reads_pid : c_string second ≡ some (pid_text v.pid)
  pub reads_time : c_string third ≡ some (time_text (t.date_text u.clock))
  pub matches_name : Matches first true false false false
  pub matches_pid : Matches second false true false false
  pub matches_time : Matches third false false true false
  pub log : u.log ≡ slept 2 ∷ sent s third ∷ sent s second ∷ sent s first ∷ v.log
  pub owned : u.body ≡ v.body
  pub pid : u.pid ≡ v.pid

-- The last turn: a call fails after none, one or two of the messages, or argv[0] is missing.
abbrev pub Unpublished : Texts → ℕ → Option Bytes → Outcome (Unit {0}) → View → View → Type 0
Unpublished t s name (returns _) v u = ⊥
Unpublished t s name (exits zero) v u = ⊥
Unpublished t s name (exits (suc zero)) v u =
    Failed t v.log u
    ⊎ ((a : Bytes) × (Failed t (sent s a ∷ v.log) u
          ⊎ ((b : Bytes) × Failed t (sent s b ∷ sent s a ∷ v.log) u)))
Unpublished t s name (exits (suc (suc n))) v u = ⊥
Unpublished t s name faults v u = (name ≡ none) × (u.log ≡ v.log)

labelled-IsText :
    (label rest : Bytes) → IsText label → IsText rest → IsText (label ++ text " " ++ rest)
unfolding text all_nonzero
labelled-IsText label rest h h' =
    append-IsText (label ++ text " ") rest
      (append-IsText label (text " ") h (all_nonzero-IsText (text " ") refl)) h'

labels-IsText : IsText (text "NAME") × IsText (text "PID") × IsText (text "TIME")
unfolding text all_nonzero
labels-IsText = (
  all_nonzero-IsText (text "NAME") refl,
  all_nonzero-IsText (text "PID") refl,
  all_nonzero-IsText (text "TIME") refl,
)

send-text :
    (t : Texts) (s : ℕ) (msg : Bytes) (v : View) (Q : Post (Unit {0}))
    (k : Unit {0} → Prog (Unit {0}))
    → IsText msg
    → ((u : View) → Failed t v.log u → Q (exits 1) u)
    → ((gave : Bytes) → c_string gave ≡ some msg → Always t (k tt) (happen (sent s gave) v) Q)
    → Always t (send s msg >>= k) v Q
unfolding send
send-text t s msg v Q k is_text bad h =
    send-then t v Q bad s (length msg + 1) (terminated msg) _ _ _ k
      (λ b size. h (terminated msg ++ b) (c_string-terminated msg b is_text))

module _ (t : Texts) (s : ℕ) (name : Option Bytes) (v : View) where
  named-Round :
      (n : Bytes)
      → name ≡ some n
      → IsText n
      → Always t (turn s (some n)) v (Round (Published t s name) (Unpublished t s name) v)
  unfolding turn publish
  named-Round n e is_text =
      let Q = Round (Published t s name) (Unpublished t s name) v in
      Always-assoc t (send s (name_text n)) _ (λ _. act (sleep 2)) v Q
        (send-text t s (name_text n) v Q _ (labelled-IsText _ n labels-IsText.0 is_text)
          (λ u f. inl f)
          λ a ra.
            let v1 = happen (sent s a) v in
            pid-then t v1 Q
              (λ pid.
                (send s (pid_text pid) >>= λ _.
                number time >>= λ m. string (ctime m) >>= λ d. send s (time_text d))
                >>= λ _. act (sleep 2))
              (Always-assoc t (send s (pid_text v.pid)) _ (λ _. act (sleep 2)) v1 Q
                (send-text t s (pid_text v.pid) v1 Q _
                  (labelled-IsText _ (decimal v.pid) labels-IsText.1 (decimal-IsText v.pid))
                  (λ u f. inr (a, inl f))
                  λ b rb.
                    let v2 = happen (sent s b) v1 in
                    date-then t v2 Q (λ d. send s (time_text d) >>= λ _. act (sleep 2))
                      λ m.
                        let v3 = record v2 { clock = m } in
                        send-text t s (time_text (t.date_text m)) v3 Q (λ _. act (sleep 2))
                          (labelled-IsText _ (t.date_text m) labels-IsText.2 (t.date_text-IsText m))
                          (λ u f. inr (
                            a,
                            inr (
                              b,
                              record {
                                doing = f.doing;
                                status = f.status;
                                status_ne = f.status_ne;
                                said = f.said;
                              },
                            ),
                          ))
                          λ c rc. sleep-last t (happen (sent s c) v3) Q 2 (record {
                            called = n;
                            is_name = e;
                            first = a;
                            second = b;
                            third = c;
                            reads_name = ra;
                            reads_pid = rb;
                            reads_time = rc;
                            matches_name = name-Matches a n ra;
                            matches_pid = pid-Matches b v.pid rb;
                            matches_time = time-Matches c (t.date_text m) rc;
                            log = refl;
                            owned = refl;
                            pid = refl;
                          }))))

  turn-Round :
      ((n : Bytes) → name ≡ some n → IsText n)
      → Always t (turn s name) v (Round (Published t s name) (Unpublished t s name) v)
  turn-Round texts = by_name name refl
    where
      by_name :
          (o : Option Bytes)
          → name ≡ o
          → Always t (turn s o) v (Round (Published t s name) (Unpublished t s name) v)
      by_name none e = unfold turn publish in (e, refl)
      by_name (some n) e = named-Round n e (texts n e)

-- Whatever nng and libc do within their documentation, the publisher run for `n` turns ends by a
-- failed start, by the use of a missing argument, or after listening as `Looped` says: each turn
-- publishes name, process id and time, of which none matches a subscription to DATE; the loop ends
-- early only by a failed call, or if argv[0] is missing.
pub publisher_main-Started :
    {t : Texts} (h : Host t) (n : ℕ) (args : List Bytes) (w : h.World)
    → ((name : Bytes) → argv args 0 ≡ some name → IsText name)
    → Started t pub0 listening
        (argv args 1)
        (h.view w)
        (λ s. Looped (Published t s (argv args 0)) (Unpublished t s (argv args 0)) n)
        (run h (main n args) w).0
        (after h (main n args) w)
unfolding main
publisher_main-Started {t} h n args w texts = run-Always h (main n args) w _ (
    startup-Always t pub0 listening (argv args 1) (h.view w) listen _ _ _ _ (λ s uri x a u e. e)
      (λ s x _ _.
        forever-Always (Published t s (argv args 0)) (Unpublished t s (argv args 0)) t
          (turn s (argv args 0)) (λ y. turn-Round t s (argv args 0) y texts) n x))
