-- ===== src/Platform/Loop.antt =====
-- Endless loops, followed for any number of rounds. `forever n` is `while (1)` cut off after `n`
-- rounds: a result `returns` means that the loop is still going then.
use nng_examples.Prelude.{ℕ, zero, suc, ◌<◌, ◌≡◌, refl, arith}
use nng_examples.Platform.{Prog, ret, ◌>>◌, Outcome, returns, exits, faults}
use nng_examples.Platform.Documented.{Texts, View}
use nng_examples.Platform.Rules.{Always, Then, Post, Always-bind, Always-mono}

unfoldable pub forever : ℕ → Prog (Unit {0}) → Prog (Unit {0})
forever zero body = ret tt
forever (suc n) body = body >> forever n body

-- `n` rounds, each from one view to another as `R` says.
abbrev pub Rounds : (View → View → Type 0) → ℕ → View → View → Type 0
Rounds R zero v w = v ≡ w
Rounds R (suc n) v w = (u : View) × R v u × Rounds R n u w

-- What one round comes to: it completes as `R` says, or ends the program as `S` says.
abbrev pub Round :
    (View → View → Type 0) → (Outcome (Unit {0}) → View → View → Type 0) → View → Post (Unit {0})
Round R S v (returns _) u = R v u
Round R S v (exits n) u = S (exits n) v u
Round R S v faults u = S faults v u

-- The last round of a loop that does not go on, after `k` whole ones.
abbrev pub Last :
    (View → View → Type 0)
    → (Outcome (Unit {0}) → View → View → Type 0)
    → ℕ
    → View
    → Outcome (Unit {0})
    → View
    → Type 0
Last R S n v o w = (k : ℕ) × (u : View) × (k < n) × Rounds R k v u × S o u w

-- What `n` rounds come to.
abbrev pub Looped :
    (View → View → Type 0)
    → (Outcome (Unit {0}) → View → View → Type 0)
    → ℕ
    → View
    → Post (Unit {0})
Looped R S n v (returns _) w = Rounds R n v w
Looped R S n v (exits c) w = Last R S n v (exits c) w
Looped R S n v faults w = Last R S n v faults w

module _ (R : View → View → Type 0) (S : Outcome (Unit {0}) → View → View → Type 0) where
  Last-suc :
      (n : ℕ) (v u w : View) (o : Outcome (Unit {0}))
      → R v u
      → Last R S n u o w
      → Last R S (suc n) v o w
  Last-suc n v u w o r (k, m, lt, rs, s) = (suc k, m, omega arith, (u, r, rs), s)

  Looped-suc :
      (n : ℕ) (v u : View)
      → R v u
      → (o : Outcome (Unit {0})) (w : View) → Looped R S n u o w
      → Looped R S (suc n) v o w
  Looped-suc n v u r (returns _) w l = (u, r, l)
  Looped-suc n v u r (exits c) w l = Last-suc n v u w (exits c) r l
  Looped-suc n v u r faults w l = Last-suc n v u w faults r l

  -- Rounds that go well from a view where `Inv` holds, and keep it so.
  module _ (t : Texts) (body : Prog (Unit {0})) (Inv : View → Type 0)
      (keeps : (v u : View) → R v u → Inv v → Inv u)
      (each : (v : View) → Inv v → Always t body v (Round R S v)) where
    after_round :
        (n : ℕ) (v : View)
        → Inv v
        → ((u : View) → Inv u → Always t (forever n body) u (Looped R S n u))
        → (o : Outcome (Unit {0})) (u : View) → Round R S v o u
        → Then t (λ _. forever n body) (Looped R S (suc n) v) o u
    after_round n v i rest (returns _) u r =
        Always-mono t (forever n body) u (Looped R S n u) (Looped R S (suc n) v)
          (Looped-suc n v u r) (rest u (keeps v u r i))
    after_round n v i rest (exits c) u s = (zero, v, omega arith, refl, s)
    after_round n v i rest faults u s = (zero, v, omega arith, refl, s)

    pub forever-Kept : (n : ℕ) (v : View) → Inv v → Always t (forever n body) v (Looped R S n v)
    unfolding forever
    forever-Kept zero v i = refl
    forever-Kept (suc n) v i =
        Always-bind t body (λ _. forever n body) v (Looped R S (suc n) v)
          (Always-mono t body v (Round R S v) (Then t (λ _. forever n body) (Looped R S (suc n) v))
            (after_round n v i (forever-Kept n)) (each v i))

  pub forever-Always :
      (t : Texts) (body : Prog (Unit {0}))
      → ((v : View) → Always t body v (Round R S v))
      → (n : ℕ) (v : View) → Always t (forever n body) v (Looped R S n v)
  forever-Always t body each n v =
      forever-Kept t body (λ u. Unit {0}) (λ v u r i. tt) (λ v i. each v) n v tt
