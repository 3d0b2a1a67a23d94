-- ===== src/Performance/Senders.antt =====
-- What the sending sides of performance/pair.cpp, pushpull.cpp and pubsub.cpp do.
use nng_examples.Bytes.{text, Bytes}
use nng_examples.Checked.{check}
use nng_examples.Prelude.{
  none, ◌∙◌, ◌-◌, ℕ, suc, ◌+◌, ◌%◌, ◌<◌, ◌≤◌, ◌≡◌, ◌⊎◌, ◌^◌, refl, ◌∷◌, [], List, length, arith,
  inl, inr,
}
use nng_examples.Platform.{act, delete_array, send_bytes, Prog, exits, ◌>>=◌, ◌>>◌}
use nng_examples.Performance.{store_first, new_bytes, int_loop}
use nng_examples.Platform.Documented.{Texts, View, Event, sent}
use nng_examples.Platform.Rules.{Always, Post, Always-assoc}
use nng_examples.Checked.Rules.{Failed}
use nng_examples.Performance.Pair.{sender}
use nng_examples.Performance.Pushpull.{pusher}
use nng_examples.Performance.Pubsub.{publisher}
use nng_examples.Performance.Sends.{
  repeated, owning, new_bytes-then, store_first-then, send_loop-then, send_array-then,
  delete_array-then,
}

module _ {ℓ} {A : Type ℓ} (t : Texts) (v : View) (Q : Post A) (k : Unit {0} → Prog A) where
  -- One and the same message, `nmsg` times.
  pub sender-then :
      (s nmsg size : ℕ)
      → nmsg < 2 ^ 31
      → Q (exits 134) v
      → ((d : Bytes) (m : ℕ) (u : View)
          → m < nmsg
          → Failed t (repeated s m d v.log) u
          → Q (exits 1) u)
      → ((d : Bytes)
          → length d ≡ size
          → Always t (k tt) (record v { log = repeated s nmsg d v.log }) Q)
      → Always t (sender s nmsg size >>= k) v Q
  unfolding sender
  sender-then s nmsg size few none_left bad h = Always-assoc t (new_bytes size) _ k v Q (
      new_bytes-then t v Q size _ none_left λ p d fits unowned. rw (← fits) (
        Always-assoc t (int_loop nmsg _) _ k (owning p d v.log v) Q (
          send_loop-then t v Q s p nmsg d _ v.log _ few (λ m u lt f. bad d m u lt f)
            (delete_array-then t v Q p (repeated s nmsg d v.log) k d unowned (h d fits)))))

-- Where the pusher may break off, with `b` after the first byte.
abbrev pub Unpushed : Texts → ℕ → ℕ → ℕ → Bytes → List Event → View → Type 0
Unpushed t s nmsg npullers b l u =
    ((m : ℕ) × (m < nmsg) × Failed t (repeated s m (0 ∷ b) l) u)
    ⊎ ((m : ℕ) × (m < npullers) × Failed t (repeated s m (1 ∷ b) (repeated s nmsg (0 ∷ b) l)) u)

-- All messages, and after them an end for each puller.
abbrev pub pushed : ℕ → ℕ → ℕ → Bytes → List Event → List Event
pushed s nmsg npullers b l = repeated s npullers (1 ∷ b) (repeated s nmsg (0 ∷ b) l)

-- All messages but one, and the last one, which is marked.
abbrev pub published : ℕ → ℕ → Bytes → List Event → List Event
published s n b l = sent s (1 ∷ b) ∷ repeated s n (0 ∷ b) l

module _ {ℓ} {A : Type ℓ} (t : Texts) (v : View) (Q : Post A) (k : Unit {0} → Prog A) where
  push_from-then :
      (s p nmsg npullers : ℕ) (d : Bytes)
      → nmsg < 2 ^ 31
      → npullers < 2 ^ 31
      → 1 ≤ length d
      → v.body p ≡ none
      → ((b : Bytes) (u : View) → Unpushed t s nmsg npullers b v.log u → Q (exits 1) u)
      → ((b : Bytes)
          → suc (length b) ≡ length d
          → Always t (k tt) (record v { log = pushed s nmsg npullers b v.log }) Q)
      → Always t
          ((store_first p (length d) 0
              >> (int_loop nmsg
                    (check (send_bytes s p (length d)) (text "Failed to push a messages"))
                  >> (store_first p (length d) 1
                      >> (int_loop npullers
                            (check (send_bytes s p (length d)) (text "Failed to push end message"))
                          >> act (delete_array p)))))
            >>= k)
          (owning p d v.log v)
          Q
  push_from-then s p nmsg npullers [] few few' some_bytes unowned bad h = absurd (omega arith)
  push_from-then s p nmsg npullers (c ∷ b) few few' some_bytes unowned bad h =
      let l = repeated s nmsg (0 ∷ b) v.log in
      Always-assoc t (store_first p (suc (length b)) 0) _ k _ Q (
        store_first-then t v Q p v.log _ 0 c b (
          Always-assoc t (int_loop nmsg _) _ k _ Q (
            send_loop-then t v Q s p nmsg (0 ∷ b) _ v.log _ few
              (λ m u lt f. bad b u (inl (m, lt, f)))
              (Always-assoc t (store_first p (suc (length b)) 1) _ k _ Q (
                store_first-then t v Q p l _ 1 0 b (
                  Always-assoc t (int_loop npullers _) _ k _ Q (
                    send_loop-then t v Q s p npullers (1 ∷ b) _ l _ few'
                      (λ m u lt f. bad b u (inr (m, lt, f)))
                      (delete_array-then t v Q p (pushed s nmsg npullers b v.log) k (1 ∷ b) unowned
                        (h b refl)))))))))

  pub pusher-then :
      (s nmsg size npullers : ℕ)
      → nmsg < 2 ^ 31
      → npullers < 2 ^ 31
      → 1 ≤ size
      → Q (exits 134) v
      → ((b : Bytes) (u : View) → Unpushed t s nmsg npullers b v.log u → Q (exits 1) u)
      → ((b : Bytes)
          → suc (length b) ≡ size
          → Always t (k tt) (record v { log = pushed s nmsg npullers b v.log }) Q)
      → Always t (pusher s nmsg size npullers >>= k) v Q
  unfolding pusher
  pusher-then s nmsg size npullers few few' some_bytes none_left bad h =
      Always-assoc t (new_bytes size) _ k v Q (
        new_bytes-then t v Q size _ none_left λ p d fits unowned. rw (← fits) (
          push_from-then s p nmsg npullers d few few' (omega arith) unowned bad
            (λ b e. h b (e ∙ fits))))

  publish_from-then :
      (s p n : ℕ) (d : Bytes)
      → n < 2 ^ 31
      → 1 ≤ length d
      → v.body p ≡ none
      → ((b : Bytes) (m : ℕ) (u : View)
          → m ≤ n
          → Failed t (repeated s m (0 ∷ b) v.log) u
          → Q (exits 1) u)
      → ((b : Bytes)
          → suc (length b) ≡ length d
          → Always t (k tt) (record v { log = published s n b v.log }) Q)
      → Always t
          ((store_first p (length d) 0
              >> (int_loop n
                    (check (send_bytes s p (length d)) (text "Publisher, publishing a message"))
                  >> (store_first p (length d) 1
                      >> (check (send_bytes s p (length d)) (text "Publishing last message")
                          >> act (delete_array p)))))
            >>= k)
          (owning p d v.log v)
          Q
  publish_from-then s p n [] few some_bytes unowned bad h = absurd (omega arith)
  publish_from-then s p n (c ∷ b) few some_bytes unowned bad h =
      let l = repeated s n (0 ∷ b) v.log in
      Always-assoc t (store_first p (suc (length b)) 0) _ k _ Q (
        store_first-then t v Q p v.log _ 0 c b (
          Always-assoc t (int_loop n _) _ k _ Q (
            send_loop-then t v Q s p n (0 ∷ b) _ v.log _ few (λ m u lt f. bad b m u (omega arith) f)
              (Always-assoc t (store_first p (suc (length b)) 1) _ k _ Q (
                store_first-then t v Q p l _ 1 0 b (
                  Always-assoc t (check (send_bytes s p (suc (length b))) _) _ k _ Q (
                    send_array-then t v Q s p (1 ∷ b) _ l _ (λ u f. bad b n u (omega arith) f)
                      (delete_array-then t v Q p (published s n b v.log) k (1 ∷ b) unowned
                        (h b refl)))))))))

  -- For one message or more; there are as many as an int can count.
  pub publisher-then :
      (s n size : ℕ)
      → n < 2 ^ 31
      → 1 ≤ size
      → Q (exits 134) v
      → ((b : Bytes) (m : ℕ) (u : View)
          → m ≤ n
          → Failed t (repeated s m (0 ∷ b) v.log) u
          → Q (exits 1) u)
      → ((b : Bytes)
          → suc (length b) ≡ size
          → Always t (k tt) (record v { log = published s n b v.log }) Q)
      → Always t (publisher s (n + 1) size >>= k) v Q
  unfolding publisher
  publisher-then s n size few some_bytes none_left bad h =
      let count : (n + 1 + (2 ^ 64 - 1)) % 2 ^ 64 ≡ n = omega arith in
      Always-assoc t (new_bytes size) _ k v Q (
        new_bytes-then t v Q size _ none_left λ p d fits unowned.
          rw (← fits, count)
            (publish_from-then s p n d few (omega arith) unowned bad (λ b e. h b (e ∙ fits))))
