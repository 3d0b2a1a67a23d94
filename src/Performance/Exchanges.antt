-- ===== src/Performance/Exchanges.antt =====
-- A loop in which messages are sent and answered, and the thread that makes requests, as rules with
-- the rest of the program as `k`.
use nng_examples.Prelude.{ℕ, zero, suc, ◌<◌, ◌≡◌, ◌^◌, refl, ap, List, [], ◌∷◌, length}
use nng_examples.Bytes.{Bytes}
use nng_examples.Platform.{Prog, exits, send_bytes, ◌>>◌, ◌>>=◌}
use nng_examples.Platform.Documented.{Texts, View, Event, sent, received}
use nng_examples.Platform.Rules.{Always, Post, Always-assoc}
use nng_examples.Platform.Loop.{forever}
use nng_examples.Checked.{check}
use nng_examples.Performance.{int_loop, receive_freed, new_bytes}
use nng_examples.Performance.Rules.{int_loop-forever, receive_freed-then}
use nng_examples.Performance.Sends.{owning, send_array-then, new_bytes-then, delete_array-then}
use nng_examples.Performance.Reqrep.{requestor}

-- The message `d` is sent and answered by each of `bs`, after the events `l`.
abbrev pub exchanges : ℕ → Bytes → List Bytes → List Event → List Event
exchanges s d [] l = l
exchanges s d (b ∷ bs) l = exchanges s d bs (received s b ∷ sent s d ∷ l)

module _ {ℓ} {A : Type ℓ} (t : Texts) (v : View) (Q : Post A) (bad : (u : View) → Q (exits 1) u)
    (s : ℕ) where
  rounds-then :
      (p : ℕ) (d e1 e2 : Bytes) (k : Unit {0} → Prog A) (n : ℕ) (l : List Event)
      → ((bs : List Bytes) → length bs ≡ n → Always t (k tt) (owning p d (exchanges s d bs l) v) Q)
      → Always t
          (forever n (check (send_bytes s p (length d)) e1 >> receive_freed s e2) >>= k)
          (owning p d l v)
          Q
  unfolding forever
  rounds-then p d e1 e2 k zero l h = h [] refl
  rounds-then p d e1 e2 k (suc n) l h =
      let body = check (send_bytes s p (length d)) e1 >> receive_freed s e2 in
      Always-assoc t body (λ _. forever n body) k (owning p d l v) Q
        (Always-assoc t (check (send_bytes s p (length d)) e1) (λ _. receive_freed s e2)
          (λ _. forever n body >>= k) (owning p d l v) Q
          (send_array-then t v Q s p d e1 l _ (λ u f. bad u)
            (receive_freed-then t (owning p d (sent s d ∷ l) v) Q (λ u f. bad u) s e2 _
              λ b.
                rounds-then p d e1 e2 k n (received s b ∷ sent s d ∷ l)
                  (λ bs e. h (b ∷ bs) (ap suc e)))))

  pub requestor-then :
      (n size : ℕ) (k : Unit {0} → Prog A)
      → n < 2 ^ 31
      → Q (exits 134) v
      → ((d : Bytes) (bs : List Bytes)
          → length d ≡ size
          → length bs ≡ n
          → Always t (k tt) (record v { log = exchanges s d bs v.log }) Q)
      → Always t (requestor s n size >>= k) v Q
  unfolding requestor
  requestor-then n size k few none_left h = Always-assoc t (new_bytes size) _ k v Q (
      new_bytes-then t v Q size _ none_left λ p d fits unowned. rw (← fits) (
        Always-assoc t (int_loop n _) _ k (owning p d v.log v) Q (
          rw (int_loop-forever n _ few) (
            rounds-then p d _ _ _ n v.log λ bs e.
              delete_array-then t v Q p (exchanges s d bs v.log) k d unowned (h d bs fits e)))))
