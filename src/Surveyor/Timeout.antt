-- ===== src/Surveyor/Timeout.antt =====
-- When a survey is over, and when its end is a failure.
use nng_examples.Prelude.{
  ℕ, ◌≡◌, refl, ◌==◌, ◌++◌, Bool, true, false, Option, none, some, Bool-cases, inl, inr, ◌⊎◌, ◌≢◌,
  ==_iff,
}
use nng_examples.Platform.Rules.{bind_assoc}
use nng_examples.Bytes.{Bytes, text}
use nng_examples.Platform.{
  Prog, ret, exit, fault, call, ◌>>=◌, ◌>>◌, act, print, stdout, Outcome, returns, exits, faults,
}
use nng_examples.Platform.Documented.{Texts}
use nng_examples.Platform.Host.{Host, run}
use nng_examples.Checked.{checkstat, newline}
use nng_examples.Surveyor.{send, collect, conclude, survey}

-- A survey up to the status that ended its responses.
unfoldable pub asking : ℕ → ℕ → Bytes → Prog (Option ℕ)
asking fuel s name =
    act (print stdout (text "Surveying " ++ name ++ newline)) >> (send s name >> collect s fuel)

-- The outcome of a survey, by what its responses ended with: well at the time out, and at no other
-- status but 0.
abbrev pub Concluded : ℕ → Outcome (Option ℕ) → Outcome Bool → Type 0
Concluded etimedout (returns none) o = o ≡ returns false
Concluded etimedout (returns (some stat)) o =
    ((stat ≡ etimedout) × (o ≡ returns true))
    ⊎ (((stat ≢ etimedout) × (stat ≢ 0) × (o ≡ exits 1))
        ⊎ ((stat ≢ etimedout) × (stat ≡ 0) × (o ≡ returns true)))
Concluded etimedout (exits n) o = o ≡ exits n
Concluded etimedout faults o = o ≡ faults

module _ {t : Texts} (h : Host t) (etimedout : ℕ) where
  by_status :
      (stat : ℕ) (w : h.World)
      → Concluded etimedout (returns (some stat)) (run h (conclude etimedout (some stat)) w).0
  unfolding conclude checkstat run
  by_status stat w = elim (Bool-cases (stat == etimedout)) [
    | inl e ↦ rw e (inl ((==_iff stat etimedout).0 e, refl))
    | inr e ↦
        let other : stat ≢ etimedout = λ z. cc ((==_iff stat etimedout).1 z) in
        elim (Bool-cases (stat == 0)) [
          | inl z ↦ rw (e, z) (inr (inr (other, (==_iff stat 0).0 z, refl)))
          | inr z ↦ rw (e, z) (inr (inl (other, (λ y. cc ((==_iff stat 0).1 y)), refl)))
        ]
  ]

  conclude-Concluded :
      (p : Prog (Option ℕ)) (w : h.World)
      → Concluded etimedout (run h p w).0 (run h (p >>= conclude etimedout) w).0
  unfolding run conclude
  conclude-Concluded (ret none) w = refl
  conclude-Concluded (ret (some stat)) w = by_status stat w
  conclude-Concluded (exit n) w = refl
  conclude-Concluded fault w = refl
  conclude-Concluded (call c k) w = conclude-Concluded (k (h.answer w c)) (h.next w c)

  pub survey-Concluded :
      (fuel s : ℕ) (name : Bytes) (w : h.World)
      → Concluded etimedout
          (run h (asking fuel s name) w).0
          (run h (survey etimedout fuel s name) w).0
  unfolding asking survey
  survey-Concluded fuel s name w =
      let end : Prog (Option ℕ) → Prog Bool = λ p. p >>= conclude etimedout in
      let same : end (send s name >>= λ _. collect s fuel)
          ≡ (send s name >>= λ _. collect s fuel >>= conclude etimedout) =
        bind_assoc (send s name) (λ _. collect s fuel) (conclude etimedout) in
      rw same at (conclude-Concluded (asking fuel s name) w)
