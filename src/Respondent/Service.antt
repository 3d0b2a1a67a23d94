-- ===== src/Respondent/Service.antt =====
-- To which surveys the respondent answers, and what.
use nng_examples.Prelude.{
  if◌then◌else◌, ℕ, zero, suc, ◌%◌, ◌≡◌, ◌⊎◌, ◌↔◌, inl, inr, refl, subst, true, ◌++◌, ◌∷◌, List,
  some, none, arith, Bool-cases, sym,
}
use nng_examples.Bytes.{Bytes, text, terminated, c_string, c_string-terminated, bytes_eq_iff}
use nng_examples.Bytes.Decimal.{decimal, decimal-IsText}
use nng_examples.Platform.{
  Prog, ret, ◌>>=◌, act, msg_free, respondent0, dial, argv, Outcome, returns, exits, faults,
  recvmsg, body_string,
}
use nng_examples.Platform.Documented.{
  Texts, View, sent, received, dialed, happen, set_body, update_self,
}
use nng_examples.Platform.Host.{Host, run, after}
use nng_examples.Platform.Rules.{Always, Always-assoc, body-then, free-then, pid-then, run-Always}
use nng_examples.Platform.Loop.{Round, Looped, forever-Always, forever}
use nng_examples.Checked.Rules.{Failed, receive-then, send-last, undone}
use nng_examples.Checked.Startup.{Started, startup-Always}
use nng_examples.Respondent.{getmsg, reply, responds, is_even, turn, main, checked}

-- The surveys that a process has to answer.
abbrev pub Concerns : ℕ → Bytes → Type 0
Concerns pid survey =
    (survey ≡ text "ALL")
    ⊎ (((survey ≡ text "EVEN") × (pid % 2 ≡ 0)) ⊎ ((survey ≡ text "ODD") × (pid % 2 ≡ 1)))

-- The test of the program is that condition.
pub responds_iff :
    (pid : ℕ) (survey : Bytes) → (responds survey (is_even pid) ≡ true) ↔ Concerns pid survey
unfolding responds
responds_iff pid survey = (
  λ h. ground (
    arith,
    bytes_eq_iff survey (text "ALL"),
    bytes_eq_iff survey (text "EVEN"),
    bytes_eq_iff survey (text "ODD"),
  ),
  λ c. ground (
    arith,
    bytes_eq_iff survey (text "ALL"),
    bytes_eq_iff survey (text "EVEN"),
    bytes_eq_iff survey (text "ODD"),
  ),
)

-- What happened to one survey: an answer that reads as the process id, to a survey that concerns the
-- process, and no answer to any other.
abbrev pub Handled : ℕ → ℕ → Bytes → Bytes → View → View → Type 0
Handled s me got survey v u =
    (Concerns me survey
      × ((gave : Bytes) × (c_string gave ≡ some (decimal me))
          × (u.log ≡ sent s gave ∷ received s got ∷ v.log)))
    ⊎ ((¬ Concerns me survey) × (u.log ≡ received s got ∷ v.log))

-- One turn; the process owns the messages that it owned before.
pub record Surveyed (s me : ℕ) (v u : View) : Type 0 where
  pub got : Bytes
  pub survey : Bytes
  pub reads : c_string got ≡ some survey
  pub handled : Handled s me got survey v u
  pub owned : u.body ≡ v.body
  pub pid : u.pid ≡ v.pid

-- The last turn: a call failed before or after the survey came, or the survey has no terminator.
abbrev pub Unsurveyed : Texts → ℕ → Outcome (Unit {0}) → View → View → Type 0
Unsurveyed t s (returns _) v u = ⊥
Unsurveyed t s (exits zero) v u = ⊥
Unsurveyed t s (exits (suc zero)) v u =
    Failed t v.log u ⊎ ((got : Bytes) × Failed t (received s got ∷ v.log) u)
Unsurveyed t s (exits (suc (suc n))) v u = ⊥
Unsurveyed t s faults v u = (got : Bytes) × (c_string got ≡ none) × (u.log ≡ received s got ∷ v.log)

module _ (t : Texts) (s me : ℕ) (v : View) where
  answer-Round :
      (got survey : Bytes)
      → c_string got ≡ some survey
      → Always t
          (if responds survey (is_even me) then reply s me else ret tt)
          (happen (received s got) v)
          (Round (Surveyed s me) (Unsurveyed t s) v)
  unfolding reply
  answer-Round got survey reads =
      let w = happen (received s got) v in
      let Q = Round (Surveyed s me) (Unsurveyed t s) v in
      elim (Bool-cases (responds survey (is_even me))) [
        | inl e ↦ rw e (
            send-last t w Q (λ u f. inr (got, f)) s _ (terminated (decimal me)) _ _ _
              λ b size. record {
                got = got;
                survey = survey;
                reads = reads;
                handled = inl (
                  (responds_iff me survey).0 e,
                  (
                    terminated (decimal me) ++ b,
                    c_string-terminated (decimal me) b (decimal-IsText me),
                    refl,
                  ),
                );
                owned = refl;
                pid = refl;
              })
        | inr e ↦ rw e (record {
          got = got;
          survey = survey;
          reads = reads;
          handled = inr (λ c. cc (e, (responds_iff me survey).1 c), refl);
          owned = refl;
          pid = refl;
        })
      ]

  -- The survey is read and its message freed.
  getmsg-then :
      (k : Bytes → Prog (Unit {0}))
      → ((got survey : Bytes)
          → c_string got ≡ some survey
          → Always t
              (k survey)
              (happen (received s got) v)
              (Round (Surveyed s me) (Unsurveyed t s) v))
      → Always t (getmsg s >>= k) v (Round (Surveyed s me) (Unsurveyed t s) v)
  unfolding getmsg
  getmsg-then k h =
      let Q = Round (Surveyed s me) (Unsurveyed t s) v in
      Always-assoc t (checked (recvmsg s) (text "Failed to read a survey"))
        (λ m. body_string m >>= λ r. act (msg_free m) >>= λ _. ret r) k v Q
        (receive-then t v Q (λ u f. inl f) s _ _
          λ m got free.
            let w = happen (received s got) (set_body m (some got) v) in
            Always-assoc t (body_string m) (λ r. act (msg_free m) >>= λ _. ret r) k w Q
              (body-then t w Q m got _ (update_self v.body m (some got)) (λ z. (got, z, refl))
                λ survey reads.
                  free-then t w Q m got (λ _. k survey) (update_self v.body m (some got))
                    (subst (λ x. Always t (k survey) (happen (received s got) x) Q)
                      (sym (undone v m got free)) (h got survey reads))))

  turn-Round : Always t (turn s me) v (Round (Surveyed s me) (Unsurveyed t s) v)
  unfolding turn
  turn-Round = getmsg-then _ (λ got survey reads. answer-Round got survey reads)

-- Whatever nng does within its documentation, the respondent run for `n` turns ends by a failed start,
-- by the use of a missing argument, or after dialing as `Looped` says: each turn takes one survey and
-- answers it with the process id exactly if it is ALL, or EVEN and the id is even, or ODD and it is
-- odd; the loop ends early only by a failed call, or on a survey without a terminator.
pub respondent_main-Started :
    {t : Texts} (h : Host t) (n : ℕ) (args : List Bytes) (w : h.World)
    → Started t respondent0 dialed
        (argv args 1)
        (h.view w)
        (λ s v. Looped (Surveyed s v.pid) (Unsurveyed t s) n v)
        (run h (main n args) w).0
        (after h (main n args) w)
unfolding main
respondent_main-Started {t} h n args w = run-Always h (main n args) w _ (
    startup-Always t respondent0 dialed (argv args 1) (h.view w) dial _ _ _ _ (λ s uri x a u e. e)
      (λ s x _ _.
        pid-then t x (Looped (Surveyed s x.pid) (Unsurveyed t s) n x) (λ me. forever n (turn s me))
          (forever-Always (Surveyed s x.pid) (Unsurveyed t s) t (turn s x.pid)
            (turn-Round t s x.pid) n x)))
