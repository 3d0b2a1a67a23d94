-- ===== src/Performance/Drain.antt =====
-- What the loops of the receiving threads have in common: a message into a buffer of nng's, the look
-- at its first byte, and the release of the buffer.
use nng_examples.Prelude.{
  true, false, Bool-cases, ==_iff, Bool, ℕ, ◌≡◌, ◌≢◌, ◌==◌, refl, ap, ◌∙◌, inl, inr, List, [], ◌∷◌,
  none, some, get_elem?, length,
}
use nng_examples.Bytes.{Bytes}
use nng_examples.Platform.{
  Answer, Prog, recv_alloc, free_bytes, call, ◌>>=◌, ◌>>◌, act, exits, faults, deref,
}
use nng_examples.Platform.Documented.{Texts, View, Event, received, happen, set_body, update_self}
use nng_examples.Platform.Rules.{Always, Post}
use nng_examples.Checked.{checkstat}
use nng_examples.Checked.Rules.{Failed, checkstat-ne, checkstat_ok, fails-Always, undone}

-- The messages `bs`, received one after the other after the events `l`.
abbrev pub heard : ℕ → List Bytes → List Event → List Event
heard s [] l = l
heard s (b ∷ bs) l = heard s bs (received s b ∷ l)

-- The first byte is 0, or another.
abbrev pub GoesOn : Bytes → Type 0
GoesOn [] = ⊥
GoesOn (x ∷ b) = x ≡ 0

abbrev pub IsLast : Bytes → Type 0
IsLast [] = ⊥
IsLast (x ∷ b) = x ≢ 0

-- A received buffer that is still owned.
abbrev pub holding : ℕ → Answer → View → View
holding s a v = happen (received s a.bytes) (set_body a.value (some a.bytes) v)

module _ {ℓ} {A : Type ℓ} (t : Texts) (v : View) (Q : Post A) where
  pub recv_alloc-then :
      (bad : (u : View) → Failed t v.log u → Q (exits 1) u)
      → (s : ℕ) (doing : Bytes) (k : Answer → Prog A)
      → ((a : Answer) → v.body a.value ≡ none → Always t (k a) (holding s a v) Q)
      → Always t (call (recv_alloc s) (λ a. checkstat a.status doing >> k a)) v Q
  recv_alloc-then bad s doing k h a u (inl (ne, same)) =
      rw (checkstat-ne a.status doing ne)
        (fails-Always t v Q bad a.status doing u ne (ap (λ (x : View). x.log) same))
  recv_alloc-then bad s doing k h a u (inr (z, fresh, now)) =
      rw (checkstat_ok a.status doing z, now) (h a fresh)

  -- The buffer is given back with its size, whatever happened since `e`.
  pub free_bytes-then :
      (a : Answer) (l : List Event) (k : Unit {0} → Prog A)
      → v.body a.value ≡ none
      → Always t (k tt) (record v { log = l }) Q
      → Always t
          (act (free_bytes a.value (length a.bytes)) >>= k)
          (record (set_body a.value (some a.bytes) v) { log = l })
          Q
  free_bytes-then a l k fresh h a' u' e =
      let back : u' ≡ record v { log = l } =
        e a.bytes (update_self v.body a.value (some a.bytes)) refl
        ∙ ap (λ (x : View). record x { log = l }) (undone v a.value a.bytes fresh) in
      rw back h

  -- The first byte of a message is looked at: undefined behaviour if there is none.
  pub first-then :
      (b : Bytes) (k : ℕ → Prog A)
      → (b ≡ [] → Q faults v)
      → ((x : ℕ) → (x ≡ 0 → GoesOn b) → (x ≢ 0 → IsLast b) → Always t (k x) v Q)
      → Always t (deref (get_elem? b 0) >>= k) v Q
  first-then [] k bad h = bad refl
  first-then (x ∷ b) k bad h = h x (λ e. e) (λ e. e)

  -- The test of the first byte.
  pub zero-then :
      (x : ℕ) (p q : Prog A)
      → (x ≡ 0 → Always t p v Q)
      → (x ≢ 0 → Always t q v Q)
      → Always t (elim (x == 0) [ true ↦ p | false ↦ q ]) v Q
  zero-then x p q hp hq = elim (Bool-cases (x == 0)) [
    | inl z ↦ rw z (hp ((==_iff x 0).0 z))
    | inr z ↦ rw z (hq (λ e. cc ((==_iff x 0).1 e)))
  ]

  pub cases-then :
      (b : Bool) (p q : Prog A)
      → (b ≡ true → Always t p v Q)
      → (b ≡ false → Always t q v Q)
      → Always t (elim b [ true ↦ p | false ↦ q ]) v Q
  cases-then true p q hp hq = hp refl
  cases-then false p q hp hq = hq refl
