-- ===== src/Performance/Answers.antt =====
-- A loop in which messages are received and answered by one and the same array, as a rule with the
-- rest of the program as `k`.
use nng_examples.Performance.Drain.{heard}
use nng_examples.Prelude.{ℕ, zero, suc, ◌<◌, ◌≡◌, ◌^◌, refl, ap, List, [], ◌∷◌, length}
use nng_examples.Bytes.{Bytes}
use nng_examples.Platform.{Prog, exits, send_bytes, ◌>>◌, ◌>>=◌}
use nng_examples.Platform.Documented.{Texts, View, Event, sent, received}
use nng_examples.Platform.Rules.{Always, Post, Always-assoc}
use nng_examples.Platform.Loop.{forever}
use nng_examples.Checked.{check}
use nng_examples.Performance.{int_loop, receive_freed}
use nng_examples.Performance.Rules.{int_loop-forever, receive_freed-then}
use nng_examples.Performance.Sends.{owning, send_array-then}

-- Each of the messages `bs` is received and answered by `d`, after the events `l`.
abbrev pub answers : ℕ → Bytes → List Bytes → List Event → List Event
answers s d [] l = l
answers s d (b ∷ bs) l = answers s d bs (sent s d ∷ received s b ∷ l)

module _ {ℓ} {A : Type ℓ} (t : Texts) (v : View) (Q : Post A) (bad : (u : View) → Q (exits 1) u)
    (s p : ℕ) (d e1 e2 : Bytes) (k : Unit {0} → Prog A) where
  rounds-then :
      (n : ℕ) (l : List Event)
      → ((bs : List Bytes) → length bs ≡ n → Always t (k tt) (owning p d (answers s d bs l) v) Q)
      → Always t
          (forever n (receive_freed s e1 >> check (send_bytes s p (length d)) e2) >>= k)
          (owning p d l v)
          Q
  unfolding forever
  rounds-then zero l h = h [] refl
  rounds-then (suc n) l h =
      let body = receive_freed s e1 >> check (send_bytes s p (length d)) e2 in
      let w = owning p d l v in
      Always-assoc t body (λ _. forever n body) k w Q
        (Always-assoc t (receive_freed s e1) (λ _. check (send_bytes s p (length d)) e2)
          (λ _. forever n body >>= k) w Q
          (receive_freed-then t w Q (λ u f. bad u) s e1 _
            λ b.
              send_array-then t v Q s p d e2 (received s b ∷ l) (λ _. forever n body >>= k)
                (λ u f. bad u)
                (rounds-then n (sent s d ∷ received s b ∷ l) (λ bs e. h (b ∷ bs) (ap suc e)))))

  -- A loop that an int can count.
  pub answer_loop-then :
      (n : ℕ) (l : List Event)
      → n < 2 ^ 31
      → ((bs : List Bytes) → length bs ≡ n → Always t (k tt) (owning p d (answers s d bs l) v) Q)
      → Always t
          (int_loop n (receive_freed s e1 >> check (send_bytes s p (length d)) e2) >>= k)
          (owning p d l v)
          Q
  answer_loop-then n l few h =
      rw (int_loop-forever n (receive_freed s e1 >> check (send_bytes s p (length d)) e2) few)
        (rounds-then n l h)

-- The same for messages that are received and freed.
module _ {ℓ} {A : Type ℓ} (t : Texts) (v : View) (Q : Post A) (bad : (u : View) → Q (exits 1) u)
    (s : ℕ) (doing : Bytes) (k : Unit {0} → Prog A) where
  receive_rounds-then :
      (n : ℕ) (l : List Event)
      → ((bs : List Bytes) → length bs ≡ n → Always t (k tt) (record v { log = heard s bs l }) Q)
      → Always t (forever n (receive_freed s doing) >>= k) (record v { log = l }) Q
  unfolding forever
  receive_rounds-then zero l h = h [] refl
  receive_rounds-then (suc n) l h =
      let w = record v { log = l } in
      Always-assoc t (receive_freed s doing) (λ _. forever n (receive_freed s doing)) k w Q
        (receive_freed-then t w Q (λ u f. bad u) s doing _
          λ b. receive_rounds-then n (received s b ∷ l) (λ bs e. h (b ∷ bs) (ap suc e)))

  pub receive_loop-then :
      (n : ℕ) (l : List Event)
      → n < 2 ^ 31
      → ((bs : List Bytes) → length bs ≡ n → Always t (k tt) (record v { log = heard s bs l }) Q)
      → Always t (int_loop n (receive_freed s doing) >>= k) (record v { log = l }) Q
  receive_loop-then n l few h =
      rw (int_loop-forever n (receive_freed s doing) few) (receive_rounds-then n l h)
