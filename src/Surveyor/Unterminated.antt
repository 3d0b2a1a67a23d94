-- ===== src/Surveyor/Unterminated.antt =====
-- The surveys go out without a terminator: what a respondent reads depends on bytes that the surveyor
-- never wrote.
use nng_examples.Prelude.{
  ℕ, zero, suc, ◌≡◌, ◌⊎◌, inl, inr, refl, ◌++◌, [], ◌∷◌, Option, some, none, length, Option-cases,
}
use nng_examples.Bytes.{Bytes, c_string, IsText}
use nng_examples.Platform.{returns, exits}
use nng_examples.Platform.Documented.{Texts, sent}
use nng_examples.Platform.Host.{Host, run, after}
use nng_examples.Platform.Rules.{run-Always}
use nng_examples.Checked.Rules.{Failed, send-last}
use nng_examples.Surveyor.{send}

-- A text that another one follows, read as a C string.
abbrev pub followed : Bytes → Option Bytes → Option Bytes
followed t none = none
followed t (some r) = some (t ++ r)

pub c_string-append-followed :
    (t rest : Bytes) → IsText t → c_string (t ++ rest) ≡ followed t (c_string rest)
unfolding c_string
c_string-append-followed [] rest h = elim (Option-cases (c_string rest)) [
  | inl e ↦ rw e refl
  | inr (r, e) ↦ rw e refl
]
c_string-append-followed (zero ∷ t) rest h = absurd (h.0 refl)
c_string-append-followed (suc n ∷ t) rest h = elim (Option-cases (c_string rest)) [
  | inl e ↦ rw (c_string-append-followed t rest h.1) (rw e refl)
  | inr (r, e) ↦ rw (c_string-append-followed t rest h.1) (rw e refl)
]

-- A survey that is sent has the text and as many bytes more as nng_msg_alloc left there: it reads as
-- the text followed by what those bytes read as, if they hold a zero byte, and as no C string if not.
pub survey-unterminated :
    {t : Texts} (h : Host t) (w : h.World) (s : ℕ) (name : Bytes)
    → IsText name
    → ((run h (send s name) w).0 ≡ exits 1) × Failed t (h.view w).log (after h (send s name) w)
      ⊎ ((run h (send s name) w).0 ≡ returns tt)
        × ((rest : Bytes) × (length rest ≡ length name)
            × ((after h (send s name) w).log ≡ sent s (name ++ rest) ∷ (h.view w).log)
            × (c_string (name ++ rest) ≡ followed name (c_string rest)))
unfolding send
survey-unterminated {t} h w s name is_text =
    run-Always h (send s name) w
      (λ o u.
        (o ≡ exits 1) × Failed t (h.view w).log u
        ⊎ (o ≡ returns tt)
          × ((rest : Bytes) × (length rest ≡ length name)
              × (u.log ≡ sent s (name ++ rest) ∷ (h.view w).log)
              × (c_string (name ++ rest) ≡ followed name (c_string rest))))
      (send-last t (h.view w) _ (λ u f. inl (refl, f)) s (length name) name _ _ _
        λ rest size. inr (refl, (rest, size, refl, c_string-append-followed name rest is_text)))
