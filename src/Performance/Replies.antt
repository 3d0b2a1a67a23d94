-- ===== src/Performance/Replies.antt =====
-- What the replying thread of performance/reqrep.cpp does.
use nng_examples.Prelude.{
  ℕ, ◌^◌, ◌<◌, ◌≡◌, ◌∙◌, ◌⊎◌, ap, refl, none, some, length, ◌∷◌, ◌==◌, Bool-cases, ==_iff, Option,
  inl, inr,
}
use nng_examples.Bytes.{Bytes, text}
use nng_examples.Platform.{
  Prog, Outcome, returns, exits, faults, rep0, listen, ◌>>◌, act, delete_array, sleep, close_socket,
  send_bytes,
}
use nng_examples.Platform.Documented.{
  Texts, View, set_body, update, update_self, listening, slept, closed,
}
use nng_examples.Platform.Host.{Host, run, after}
use nng_examples.Platform.Rules.{Always, Then, run-Always, Always-bind, Always-mono}
use nng_examples.Platform.Loop.{Looped, Rounds, Last}
use nng_examples.Checked.{check}
use nng_examples.Checked.Startup.{Started, startup-Always}
use nng_examples.Performance.{int_loop, new_bytes, receive_freed}
use nng_examples.Performance.Reqrep.{replier}
use nng_examples.Performance.Rules.{Rounds-kept, Answered, Unserved, answer_loop-Looped}

-- The ends of the thread once it listens, in view `w`: a call failed after fewer than `nmsg` rounds,
-- or all were served; then the array is deleted and, after a second, the socket closed or not.
pub data Served (t : Texts) (nmsg p : ℕ) (d : Bytes) (s : ℕ) (w : View) (o : Outcome (Unit {0}))
    (u : View) : Type 0 where
  broken : Last (Answered s d) (Unserved t s) nmsg w o u → Served t nmsg p d s w o u
  served :
      (x : View)
      → Rounds (Answered s d) nmsg w x
      → o ≡ returns tt
      → (u.log ≡ slept 1 ∷ x.log) ⊎ (u.log ≡ closed s ∷ slept 1 ∷ x.log)
      → u.body ≡ update w.body p none
      → Served t nmsg p d s w o u

-- The ends of the thread: no memory for the reply, or the start and the service with a reply `d` of
-- the given size in an array `p` that was not owned before.
pub data Replied (t : Texts) (uri : Bytes) (nmsg size : ℕ) (v : View) (o : Outcome (Unit {0}))
    (u : View) : Type 0 where
  no_memory : o ≡ exits 134 → u ≡ v → Replied t uri nmsg size v o u
  replying :
      (p : ℕ) (d : Bytes)
      → v.body p ≡ none
      → length d ≡ size
      → Started t rep0 listening (some uri) (set_body p (some d) v) (Served t nmsg p d) o u
      → Replied t uri nmsg size v o u

abbrev finish : ℕ → ℕ → Prog (Unit {0})
finish p s = act (delete_array p) >> (act (sleep 1) >> act (close_socket s))

module _ (t : Texts) (s nmsg : ℕ) (w : View) (p : ℕ) (d : Bytes) (owned : w.body p ≡ some d) where
  after_loop :
      (o : Outcome (Unit {0})) (x : View)
      → Looped (Answered s d) (Unserved t s) nmsg w o x
      → Then t (λ _. finish p s) (Served t nmsg p d s w) o x
  after_loop (returns _) x r = λ a u e a1 u1 e1 a2 u2 e2.
      let kept = Rounds-kept (Answered s d) (λ y z h. ap (λ (q : View). q.body) h.1) nmsg w x r in
      let gone : u ≡ set_body p none x = e d (ap (λ (f : ℕ → Option Bytes). f p) kept ∙ owned) in
      let left : u.body ≡ update w.body p none =
        ap (λ (y : View). y.body) gone ∙ ap (λ (f : ℕ → Option Bytes). update f p none) kept in
      let said : u1.log ≡ slept 1 ∷ x.log =
        ap (λ (y : View). y.log) e1 ∙ ap (λ (y : View). slept 1 ∷ y.log) gone in
      elim e2 [
        | inl (ne, same) ↦
            served x r refl (inl (ap (λ (y : View). y.log) same ∙ said))
              (ap (λ (y : View). y.body) same ∙ ap (λ (y : View). y.body) e1 ∙ left)
        | inr (z, now) ↦
            served x r refl (inr (ap (λ (y : View). y.log) now ∙ ap (λ l. closed s ∷ l) said))
              (ap (λ (y : View). y.body) now ∙ ap (λ (y : View). y.body) e1 ∙ left)
      ]
  after_loop (exits c) x l = broken l
  after_loop faults x l = broken l

replier-Always :
    (t : Texts) (uri : Bytes) (nmsg size : ℕ) (v : View)
    → nmsg < 2 ^ 31
    → Always t (replier uri nmsg size) v (Replied t uri nmsg size v)
unfolding replier new_bytes
replier-Always t uri nmsg size v few a u (inl (ne, same)) = elim (Bool-cases (a.status == 0)) [
  | inl e ↦ absurd (ne ((==_iff a.status 0).0 e))
  | inr e ↦ rw e (no_memory refl same)
]
replier-Always t uri nmsg size v few a u (inr (d, fits, z, unowned, now)) =
    let w = set_body a.value (some d) v in
    rw (z, now, ← fits)
      (Always-mono t _ w (Started t rep0 listening (some uri) w (Served t nmsg a.value d))
        (Replied t uri nmsg (length d) v) (λ o x h. replying a.value d unowned refl h)
        (startup-Always t rep0 listening (some uri) w listen _ _
          (λ s.
            int_loop nmsg (
              receive_freed s (text "Could not receive a request")
              >> check (send_bytes s a.value (length d)) (text "Could not send a reply."))
            >> finish a.value s)
          (Served t nmsg a.value d) (λ s x y b c e. e)
          (λ s x same_body _.
            let owned =
              ap (λ (f : ℕ → Option Bytes). f a.value) same_body
              ∙ update_self v.body a.value (some d) in
            Always-bind t _ (λ _. finish a.value s) x (Served t nmsg a.value d s x)
              (Always-mono t _ x (Looped (Answered s d) (Unserved t s) nmsg x)
                (Then t (λ _. finish a.value s) (Served t nmsg a.value d s x))
                (after_loop t s nmsg x a.value d owned)
                (answer_loop-Looped t s nmsg a.value d _ _ x few owned)))))

-- If an int can count the requests, the replying thread, whatever nng does within its documentation,
-- ends the process for want of memory, or ends by a failed start, or listens on the address and then,
-- `nmsg` times, receives one request, frees it and sends one and the same reply of `size` bytes; then
-- it deletes the reply, sleeps a second and asks to close the socket. A failed call ends the process
-- after fewer rounds.
pub replier-Replied :
    {t : Texts} (h : Host t) (uri : Bytes) (nmsg size : ℕ) (w : h.World)
    → nmsg < 2 ^ 31
    → Replied t uri nmsg size
        (h.view w)
        (run h (replier uri nmsg size) w).0
        (after h (replier uri nmsg size) w)
replier-Replied {t} h uri nmsg size w few =
    run-Always h (replier uri nmsg size) w _ (replier-Always t uri nmsg size (h.view w) few)
