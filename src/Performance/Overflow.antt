-- ===== src/Performance/Overflow.antt =====
-- The loops of performance/ whose int is to count a size_t that it cannot.
use nng_examples.Prelude.{
  ℕ, suc, ◌+◌, ◌-◌, ◌%◌, ◌<◌, ◌≤◌, ◌≡◌, ◌⊎◌, ◌^◌, refl, inl, inr, ltb, false, arith, List, [], ◌∷◌,
  length,
}
use nng_examples.Bytes.{Bytes, text}
use nng_examples.Checked.{check}
use nng_examples.Checked.Rules.{Failed}
use nng_examples.Platform.{send_bytes, Prog, fault, exits, faults, Outcome, ◌>>=◌, ◌>>◌}
use nng_examples.Platform.Documented.{Texts, View}
use nng_examples.Platform.Host.{Host, run, after}
use nng_examples.Platform.Loop.{forever}
use nng_examples.Platform.Rules.{Always, Always-assoc, run-Always}
use nng_examples.Performance.{int_loop, store_first}
use nng_examples.Performance.Sends.{repeated, owning, new_bytes-then, store_first-then, rounds-then}
use nng_examples.Performance.Drain.{heard}
use nng_examples.Performance.Pubsub.{publisher}

-- What the int cannot count is undefined behaviour after 2^31 rounds.
overflowing :
    (n : ℕ) (body : Prog (Unit {0}))
    → 2 ^ 31 ≤ n
    → (limit : ℕ) × (limit ≡ 2 ^ 31) × (int_loop n body ≡ (forever limit body >> fault))
unfolding int_loop
overflowing n body many = let e : ltb n (2 ^ 31) ≡ false = ground arith in (2 ^ 31, refl, rw e refl)

-- No memory for the array; a failed call after fewer than 2^31 messages that begin with 0; or undefined
-- behaviour after 2^31 of them.
abbrev pub Flooded : Texts → ℕ → ℕ → View → Outcome (Unit {0}) → View → Type 0
Flooded t s size v o u =
    ((o ≡ exits 134) × (u ≡ v))
    ⊎ ((rest : Bytes) × (m : ℕ) × (suc (length rest) ≡ size)
        × (((m < 2 ^ 31) × (o ≡ exits 1) × Failed t (repeated s m (0 ∷ rest) v.log) u)
            ⊎ ((m ≡ 2 ^ 31) × (o ≡ faults) × (u.log ≡ repeated s m (0 ∷ rest) v.log))))

module _ (t : Texts) (s size : ℕ) (v : View) where
  flood :
      (p limit : ℕ) (d doing : Bytes) (k : Unit {0} → Prog (Unit {0}))
      → limit ≡ 2 ^ 31
      → length d ≡ size
      → 1 ≤ size
      → Always t
          (store_first p (length d) 0 >>= λ _.
            (forever limit (check (send_bytes s p (length d)) doing) >> fault) >>= k)
          (owning p d v.log v)
          (Flooded t s size v)
  flood p limit [] doing k many fits some_bytes = absurd (omega arith)
  flood p limit (c ∷ b) doing k many fits some_bytes =
      let Q = Flooded t s size v in
      store_first-then t v Q p v.log _ 0 c b (
        Always-assoc t (forever limit _) (λ _. fault) k (owning p (0 ∷ b) v.log v) Q
          (rounds-then t v Q s p (0 ∷ b) doing _ limit v.log
            (λ m u lt f. inr (b, m, fits, inl (omega arith, refl, f)))
            (inr (b, limit, fits, inr (many, refl, refl)))))

-- Whatever nng does within its documentation: the publisher of the timing program, told to send 0
-- messages, or more than 2^31 of them, of a byte or more, has one of three ends: no memory; a failed
-- call after fewer than 2^31 messages that begin with 0; or undefined behaviour, an int that overflows,
-- after it has sent 2^31 of them, and no last message. (nmsg - 1 is a size_t, for 0 messages the
-- greatest.)
pub publisher-Flooded :
    {t : Texts} (h : Host t) (s nmsg size : ℕ) (w : h.World)
    → (nmsg ≡ 0) ⊎ ((2 ^ 31 < nmsg) × (nmsg < 2 ^ 64))
    → 1 ≤ size
    → Flooded t s size
        (h.view w)
        (run h (publisher s nmsg size) w).0
        (after h (publisher s nmsg size) w)
unfolding publisher
publisher-Flooded {t} h s nmsg size w out some_bytes =
    let n = (nmsg + (2 ^ 64 - 1)) % 2 ^ 64 in
    let many : 2 ^ 31 ≤ n = ground arith in
    run-Always h (publisher s nmsg size) w (Flooded t s size (h.view w)) (
      new_bytes-then t (h.view w) (Flooded t s size (h.view w)) size _ (inl (refl, refl))
        λ p d fits unowned.
          let doing = text "Publisher, publishing a message" in
          let (limit, is_limit, same) =
            overflowing n (check (send_bytes s p (length d)) doing) many in
          rw (← fits, same)
            (flood t s (length d) (h.view w) p limit d doing _ is_limit refl (omega arith)))

-- A failed call after fewer than 2^31 messages, or undefined behaviour after 2^31 of them.
abbrev pub Overrun : Texts → ℕ → View → Outcome (Unit {0}) → View → Type 0
Overrun t s v o u =
    (bs : List Bytes) × (((length bs < 2 ^ 31) × (o ≡ exits 1) × Failed t (heard s bs v.log) u)
      ⊎ ((length bs ≡ 2 ^ 31) × (o ≡ faults) × (u ≡ record v { log = heard s bs v.log })))
