-- ===== src/Surveyor/Collect.antt =====
-- The responses to one survey.
use nng_examples.Prelude.{
  ℕ, zero, suc, ◌<◌, ◌≡◌, ◌≢◌, inl, inr, refl, ap, true, false, ◌++◌, [], ◌∷◌, List, Option, some,
  none, length, arith, All, ◌==◌, ==_iff, Bool-cases,
}
use nng_examples.Bytes.{Bytes, text, c_string}
use nng_examples.Platform.{Prog, ret, ◌>>=◌, stdout, Outcome, returns, faults}
use nng_examples.Platform.Documented.{Texts, View, Event, received, printed, happen, set_body}
use nng_examples.Platform.Rules.{Always, Post, Always-assoc, Always-mono}
use nng_examples.Checked.{newline, show_message}
use nng_examples.Checked.Rules.{show-then}
use nng_examples.Surveyor.{receive_and_print, collect}

abbrev pub response_line : Bytes → Event
response_line x = printed stdout (text "survey response: " ++ x ++ newline)

-- Responses, each with the text that it reads as, received and printed one after the other after `l`.
abbrev pub collected : ℕ → List (Bytes × Bytes) → List Event → List Event
collected s [] l = l
collected s ((got, x) ∷ rs) l = collected s rs (response_line x ∷ received s got ∷ l)

abbrev pub Readable : List (Bytes × Bytes) → Type 0
Readable rs = All (λ (r : Bytes × Bytes). c_string r.0 ≡ some r.1) rs

-- The ends of `collect` with `fuel` rounds: they were used up by as many responses; a status that is
-- not 0 came, after fewer; or a response has no terminator.
pub data Collected (s fuel : ℕ) (v : View) (o : Outcome (Option ℕ)) (u : View) : Type 0 where
  going_on :
      (rs : List (Bytes × Bytes))
      → Readable rs
      → length rs ≡ fuel
      → o ≡ returns none
      → u.log ≡ collected s rs v.log
      → u.body ≡ v.body
      → Collected s fuel v o u
  over :
      (rs : List (Bytes × Bytes)) (stat : ℕ)
      → Readable rs
      → length rs < fuel
      → stat ≢ 0
      → o ≡ returns (some stat)
      → u.log ≡ collected s rs v.log
      → u.body ≡ v.body
      → Collected s fuel v o u
  unreadable :
      (rs : List (Bytes × Bytes)) (got : Bytes)
      → Readable rs
      → c_string got ≡ none
      → o ≡ faults
      → u.log ≡ received s got ∷ collected s rs v.log
      → Collected s fuel v o u

Collected-suc :
    {s fuel : ℕ} {v u : View} {o : Outcome (Option ℕ)} (got x : Bytes)
    → c_string got ≡ some x
    → Collected s fuel (happen (response_line x) (happen (received s got) v)) o u
    → Collected s (suc fuel) v o u
Collected-suc got x r (going_on rs a n e l b) = going_on ((got, x) ∷ rs) (r, a) (ap suc n) e l b
Collected-suc got x r (over rs st a n z e l b) =
    over ((got, x) ∷ rs) st (r, a) (omega arith) z e l b
Collected-suc got x r (unreadable rs g a z e l) = unreadable ((got, x) ∷ rs) g (r, a) z e l

-- One round: no message and a status that is not 0, or a message that is printed and freed.
receive_and_print-then :
    (t : Texts) (s : ℕ) (v : View) (Q : Post (Option ℕ)) (k : ℕ → Prog (Option ℕ))
    → ((st : ℕ) → st ≢ 0 → Always t (k st) v Q)
    → ((got : Bytes) (u : View) → c_string got ≡ none → u.log ≡ received s got ∷ v.log → Q faults u)
    → ((got x : Bytes)
        → c_string got ≡ some x
        → Always t (k 0) (happen (response_line x) (happen (received s got) v)) Q)
    → Always t (receive_and_print s >>= k) v Q
unfolding receive_and_print
receive_and_print-then t s v Q k fail bad good a u (inl (ne, same)) =
    elim (Bool-cases (a.status == 0)) [
      | inl e ↦ absurd (ne ((==_iff a.status 0).0 e))
      | inr e ↦ rw (e, same) (fail a.status ne)
    ]
receive_and_print-then t s v Q k fail bad good a u (inr (got, z, free, now)) =
    rw (z, now)
      (Always-assoc t (show_message stdout (text "survey response: ") a.value) (λ _. ret 0) k
        (happen (received s got) (set_body a.value (some got) v)) Q
        (show-then t (happen (received s got) (set_body a.value (some got) v)) Q v.body stdout
          (text "survey response: ") a.value got (λ _. k 0) refl free (λ x. bad got _ x refl)
          (λ x reads. good got x reads)))

pub collect-Collected :
    (t : Texts) (s fuel : ℕ) (v : View) → Always t (collect s fuel) v (Collected s fuel v)
unfolding collect
collect-Collected t s zero v = going_on [] tt refl refl refl refl
collect-Collected t s (suc fuel) v =
    receive_and_print-then t s v (Collected s (suc fuel) v) _ (λ st ne. ended st ne)
      (λ got u z l. unreadable [] got tt z refl l)
      λ got x r.
        Always-mono t (collect s fuel) (happen (response_line x) (happen (received s got) v))
          (Collected s fuel (happen (response_line x) (happen (received s got) v)))
          (Collected s (suc fuel) v) (λ o u c. Collected-suc got x r c)
          (collect-Collected t s fuel (happen (response_line x) (happen (received s got) v)))
  where
    ended :
        (st : ℕ)
        → st ≢ 0
        → Always t
            (elim (st == 0) [ true ↦ collect s fuel | false ↦ ret (some st) ])
            v
            (Collected s (suc fuel) v)
    ended st ne = elim (Bool-cases (st == 0)) [
      | inl e ↦ absurd (ne ((==_iff st 0).0 e))
      | inr e ↦ rw e (over [] st tt (omega arith) ne refl refl refl)
    ]
