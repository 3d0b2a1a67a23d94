-- ===== src/Performance/Leaks.antt =====
-- What performance/survey.cpp keeps: survey frees none of the responses.
use nng_examples.Prelude.{
  ℕ, zero, suc, ◌<◌, ◌≡◌, ◌^◌, refl, ap, List, [], ◌∷◌, length, map, Option, none, some,
}
use nng_examples.Bytes.{Bytes}
use nng_examples.Platform.{returns, send_bytes, recv_alloc}
use nng_examples.Platform.Documented.{
  Texts, View, Event, sent, received, happen, update, sent_whole,
}
use nng_examples.Platform.Host.{Host, run, after}
use nng_examples.Platform.Rules.{Always, Post, Always-mono, run-Always}
use nng_examples.Platform.Loop.{forever}
use nng_examples.Checked.{check}
use nng_examples.Checked.Rules.{check-then}
use nng_examples.Performance.Rules.{int_loop-forever}
use nng_examples.Performance.Drain.{heard, recv_alloc-then}
use nng_examples.Performance.Surveys.{keeping}
use nng_examples.Performance.Survey.{survey}

-- What is owned grows by a buffer for each of a list of handles, each free before, with its content.
abbrev pub Grown : (ℕ → Option Bytes) → List (ℕ × Bytes) → (ℕ → Option Bytes) → Type 0
Grown f [] g = g ≡ f
Grown f (h ∷ hs) g = (f h.0 ≡ none) × Grown (update f h.0 (some h.1)) hs g

-- `n` messages were received after the events `l`, and are still owned besides `f`.
abbrev pub Hoarded : ℕ → ℕ → List Event → (ℕ → Option Bytes) → View → Type 0
Hoarded s n l f u =
    (hs : List (ℕ × Bytes)) × (length hs ≡ n)
    × Grown f hs u.body
    × (u.log ≡ heard s (map (λ (h : ℕ × Bytes). h.1) hs) l)

responses-Hoarded :
    (t : Texts) (s : ℕ) (doing : Bytes) (v : View) (n : ℕ) (l : List Event) (f : ℕ → Option Bytes)
    → Always t
        (forever n (check (recv_alloc s) doing))
        (keeping l f v)
        (λ o u. o ≡ returns tt → Hoarded s n l f u)
unfolding forever check
responses-Hoarded t s doing v zero l f = λ z. ([], refl, refl, refl)
responses-Hoarded t s doing v (suc n) l f =
    let Q : Post (Unit {0}) = λ o u. o ≡ returns tt → Hoarded s (suc n) l f u in
    recv_alloc-then t (keeping l f v) Q (λ u z e. cc) s doing
      (λ _. forever n (check (recv_alloc s) doing))
      λ a fresh.
        let m = received s a.bytes ∷ l in
        let g = update f a.value (some a.bytes) in
        Always-mono t (forever n (check (recv_alloc s) doing)) (keeping m g v)
          (λ o u. o ≡ returns tt → Hoarded s n m g u) Q
          (λ o u d z.
            let (hs, all, grown, log) = d z in
            ((a.value, a.bytes) ∷ hs, ap suc all, (fresh, grown), log))
          (responses-Hoarded t s doing v n m g)

-- Whatever nng does within its documentation: when survey returns, for an array that holds the survey
-- `d` and as many responses as an int can count, it has sent `d` once and received `nresp` responses;
-- and all of them are still owned, in buffers of their own, besides what was owned before.
pub survey-Hoarded :
    {t : Texts} (h : Host t) (s p nresp : ℕ) (d : Bytes) (w : h.World)
    → (h.view w).body p ≡ some d
    → nresp < 2 ^ 31
    → (run h (survey s p (length d) nresp) w).0 ≡ returns tt
    → Hoarded s nresp
        (sent s d ∷ (h.view w).log)
        (h.view w).body
        (after h (survey s p (length d) nresp) w)
unfolding survey
survey-Hoarded {t} h s p nresp d w owned few e =
    let v = h.view w in
    let Q : Post (Unit {0}) = λ o u. o ≡ returns tt → Hoarded s nresp (sent s d ∷ v.log) v.body u in
    run-Always h (survey s p (length d) nresp) w Q
      (check-then t v Q (λ u z e. cc) (send_bytes s p (length d)) _ _ v (happen (sent s d) v) refl
        (λ a u e. sent_whole t s p d v a u owned e)
        (rw (int_loop-forever nresp _ few)
          (responses-Hoarded t s _ v nresp (sent s d ∷ v.log) v.body)))
      e
