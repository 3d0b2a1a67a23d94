-- ===== src/Performance/Sends.antt =====
-- An array of a thread's own: how it is made, written, sent again and again, and deleted. Each rule
-- has the rest of the program as `k`.
use nng_examples.Prelude.{
  ℕ, zero, suc, ◌<◌, ◌≡◌, ◌^◌, ◌==◌, refl, ap, ◌∙◌, ◌∷◌, List, some, none, length, arith, false,
  Bool-cases, ==_iff, inl, inr, fun_ext, Option,
}
use nng_examples.Bytes.{Bytes}
use nng_examples.Platform.{Prog, exits, send_bytes, delete_array, ◌>>=◌, act}
use nng_examples.Platform.Documented.{
  Texts, View, Event, sent, happen, update, update_self, update_undo, sent_whole,
}
use nng_examples.Platform.Rules.{Always, Post, Always-assoc}
use nng_examples.Platform.Loop.{forever}
use nng_examples.Checked.{check}
use nng_examples.Checked.Rules.{Failed, check-then}
use nng_examples.Performance.{int_loop, store_first, new_bytes}
use nng_examples.Performance.Rules.{int_loop-forever}

-- `n` times the message `d` is sent after the events `l`.
abbrev pub repeated : ℕ → ℕ → Bytes → List Event → List Event
repeated s zero d l = l
repeated s (suc n) d l = repeated s n d (sent s d ∷ l)

-- View `v` after the events `l`, with an array `d` at `p` besides what is owned in `v`.
abbrev pub owning : ℕ → Bytes → List Event → View → View
owning p d l v = record v { log = l; body = update v.body p (some d) }

pub update_shadow :
    (f : ℕ → Option Bytes) (p : ℕ) (x y : Option Bytes) → update (update f p x) p y ≡ update f p y
update_shadow f p x y = fun_ext λ k. ground arith

module _ {ℓ} {A : Type ℓ} (t : Texts) (v : View) (Q : Post A) where
  pub new_bytes-then :
      (n : ℕ) (k : ℕ → Prog A)
      → Q (exits 134) v
      → ((p : ℕ) (d : Bytes)
          → length d ≡ n
          → v.body p ≡ none
          → Always t (k p) (owning p d v.log v) Q)
      → Always t (new_bytes n >>= k) v Q
  unfolding new_bytes
  new_bytes-then n k bad h a u (inl (ne, same)) = elim (Bool-cases (a.status == 0)) [
    | inl e ↦ absurd (ne ((==_iff a.status 0).0 e))
    | inr e ↦ rw (e, same) bad
  ]
  new_bytes-then n k bad h a u (inr (d, fits, z, unowned, now)) =
      rw (z, now) (h a.value d fits unowned)

  module _ (p : ℕ) (l : List Event) (k : Unit {0} → Prog A) where
    -- The first byte of an array of one byte or more is written.
    pub store_first-then :
        (x c : ℕ) (b : Bytes)
        → Always t (k tt) (owning p (x ∷ b) l v) Q
        → Always t (store_first p (suc (length b)) x >>= k) (owning p (c ∷ b) l v) Q
    unfolding store_first
    store_first-then x c b h =
        let some_bytes : (suc (length b) == 0) ≡ false = ground arith in
        rw some_bytes λ a u e.
          let now : u ≡ owning p (x ∷ b) l v =
            e c b (update_self v.body p (some (c ∷ b)))
            ∙ ap (λ (f : ℕ → Option Bytes). record v { log = l; body = f })
                (update_shadow v.body p (some (c ∷ b)) (some (x ∷ b))) in
          rw now h

    pub delete_array-then :
        (d : Bytes)
        → v.body p ≡ none
        → Always t (k tt) (record v { log = l }) Q
        → Always t (act (delete_array p) >>= k) (owning p d l v) Q
    delete_array-then d unowned h a u e =
        let now : u ≡ record v { log = l } =
          e d (update_self v.body p (some d))
          ∙ ap (λ (f : ℕ → Option Bytes). record v { log = l; body = f })
              (update_undo v.body p (some d) unowned) in
        rw now h

  pub send_array-then :
      (s p : ℕ) (d doing : Bytes) (l : List Event) (k : Unit {0} → Prog A)
      → ((u : View) → Failed t l u → Q (exits 1) u)
      → Always t (k tt) (owning p d (sent s d ∷ l) v) Q
      → Always t (check (send_bytes s p (length d)) doing >>= k) (owning p d l v) Q
  send_array-then s p d doing l k bad h =
      let w = owning p d l v in
      check-then t w Q bad (send_bytes s p (length d)) doing k w (happen (sent s d) w) refl
        (λ a u e. sent_whole t s p d w a u (update_self v.body p (some d)) e) h

  pub rounds-then :
      (s p : ℕ) (d doing : Bytes) (k : Unit {0} → Prog A) (n : ℕ) (l : List Event)
      → ((m : ℕ) (u : View) → m < n → Failed t (repeated s m d l) u → Q (exits 1) u)
      → Always t (k tt) (owning p d (repeated s n d l) v) Q
      → Always t (forever n (check (send_bytes s p (length d)) doing) >>= k) (owning p d l v) Q
  unfolding forever
  rounds-then s p d doing k zero l bad h = h
  rounds-then s p d doing k (suc n) l bad h =
      let body = check (send_bytes s p (length d)) doing in
      Always-assoc t body (λ _. forever n body) k (owning p d l v) Q
        (send_array-then s p d doing l _ (λ u f. bad 0 u (omega arith) f)
          (rounds-then s p d doing k n (sent s d ∷ l) (λ m u lt f. bad (suc m) u (omega arith) f)
            h))

  -- A loop that an int can count.
  pub send_loop-then :
      (s p n : ℕ) (d doing : Bytes) (l : List Event) (k : Unit {0} → Prog A)
      → n < 2 ^ 31
      → ((m : ℕ) (u : View) → m < n → Failed t (repeated s m d l) u → Q (exits 1) u)
      → Always t (k tt) (owning p d (repeated s n d l) v) Q
      → Always t (int_loop n (check (send_bytes s p (length d)) doing) >>= k) (owning p d l v) Q
  send_loop-then s p n d doing l k few bad h =
      rw (int_loop-forever n (check (send_bytes s p (length d)) doing) few)
        (rounds-then s p d doing k n l bad h)
