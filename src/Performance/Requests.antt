-- ===== src/Performance/Requests.antt =====
-- What the requesting thread of performance/reqrep.cpp does.
use nng_examples.Prelude.{
  ◌==◌, ℕ, ◌^◌, ◌<◌, ◌≡◌, ◌∙◌, ap, refl, none, some, length, inl, Bool-cases, Option, ==_iff, inr,
}
use nng_examples.Bytes.{Bytes, text}
use nng_examples.Platform.{faults, Outcome, returns, exits, delete_array, ◌>>◌, send_bytes}
use nng_examples.Platform.Documented.{Texts, View, set_body, update, update_self, update_undo}
use nng_examples.Platform.Host.{Host, run, after}
use nng_examples.Platform.Rules.{Always, run-Always, Then, Always-bind, Always-mono}
use nng_examples.Platform.Loop.{Looped, Rounds, Last}
use nng_examples.Checked.{check}
use nng_examples.Performance.{new_bytes, act, Prog, int_loop, receive_freed}
use nng_examples.Performance.Reqrep.{requestor}
use nng_examples.Performance.Rules.{Rounds-kept, Exchanged, Unanswered, exchange_loop-Looped}

-- The ends of the thread: no memory for the request, or a request `d` of the given size, in an array
-- `p`, went out for an answer `nmsg` times, after which the thread owns what it owned before, or a
-- call failed after fewer times.
pub data Requested (t : Texts) (s nmsg size : ℕ) (v : View) (o : Outcome (Unit {0})) (u : View)
    : Type 0 where
  no_memory : o ≡ exits 134 → u ≡ v → Requested t s nmsg size v o u
  broken :
      (p : ℕ) (d : Bytes)
      → length d ≡ size
      → Last (Exchanged s d) (Unanswered t s d) nmsg (set_body p (some d) v) o u
      → Requested t s nmsg size v o u
  answered :
      (p : ℕ) (d : Bytes) (w : View)
      → length d ≡ size
      → Rounds (Exchanged s d) nmsg (set_body p (some d) v) w
      → o ≡ returns tt
      → u.log ≡ w.log
      → u.body ≡ v.body
      → Requested t s nmsg size v o u

module _ (t : Texts) (s nmsg size : ℕ) (v : View) (p : ℕ) (d : Bytes) (unowned : v.body p ≡ none)
    (fits : length d ≡ size) where
  after_loop :
      (o : Outcome (Unit {0})) (w : View)
      → Looped (Exchanged s d) (Unanswered t s d) nmsg (set_body p (some d) v) o w
      → Then t (λ _. act (delete_array p)) (Requested t s nmsg size v) o w
  after_loop (returns _) w r = λ a u e.
      let kept =
        Rounds-kept (Exchanged s d) (λ y z h. ap (λ (q : View). q.body) h.1) nmsg
          (set_body p (some d) v) w r in
      let owned : w.body p ≡ some d =
        ap (λ (f : ℕ → Option Bytes). f p) kept ∙ update_self v.body p (some d) in
      let gone : u ≡ set_body p none w = e d owned in
      answered p d w fits r refl (ap (λ (x : View). x.log) gone) (
        ap (λ (x : View). x.body) gone
        ∙ ap (λ (f : ℕ → Option Bytes). update f p none) kept
        ∙ update_undo v.body p (some d) unowned)
  after_loop (exits c) w l = broken p d fits l
  after_loop faults w l = broken p d fits l

requestor-Always :
    (t : Texts) (s nmsg size : ℕ) (v : View)
    → nmsg < 2 ^ 31
    → Always t (requestor s nmsg size) v (Requested t s nmsg size v)
unfolding requestor new_bytes
requestor-Always t s nmsg size v few a u (inl (ne, same)) = elim (Bool-cases (a.status == 0)) [
  | inl e ↦ absurd (ne ((==_iff a.status 0).0 e))
  | inr e ↦ rw e (no_memory refl same)
]
requestor-Always t s nmsg size v few a u (inr (d, fits, z, unowned, now)) =
    let w = set_body a.value (some d) v in
    let loop : Prog (Unit {0}) = int_loop nmsg (
      check (send_bytes s a.value (length d)) (text "Unable to make request")
      >> receive_freed s (text "Unable to receive a reply to our request")) in
    rw (z, now, ← fits)
      (Always-bind t loop (λ _. act (delete_array a.value)) w (Requested t s nmsg (length d) v)
        (Always-mono t loop w (Looped (Exchanged s d) (Unanswered t s d) nmsg w)
          (Then t (λ _. act (delete_array a.value)) (Requested t s nmsg (length d) v))
          (after_loop t s nmsg (length d) v a.value d unowned refl)
          (exchange_loop-Looped t s nmsg a.value d _ _ w few
            (update_self v.body a.value (some d)))))

-- If an int can count the requests, the requesting thread, whatever nng does within its documentation,
-- ends the process for want of memory; or sends one and the same message of `size` bytes and receives
-- one answer, `nmsg` times, and then owns exactly what it owned before; or ends the process by a
-- failed call after fewer such exchanges, at most one message of the failed round having been sent.
pub requestor-Requested :
    {t : Texts} (h : Host t) (s nmsg size : ℕ) (w : h.World)
    → nmsg < 2 ^ 31
    → Requested t s nmsg size
        (h.view w)
        (run h (requestor s nmsg size) w).0
        (after h (requestor s nmsg size) w)
requestor-Requested {t} h s nmsg size w few =
    run-Always h (requestor s nmsg size) w _ (requestor-Always t s nmsg size (h.view w) few)
