-- ===== src/Platform/Host.antt =====
-- A machine that runs programs: any state, any answers, as long as they are documented ones.
use nng_examples.Platform.{
  Call, Answer, Prog, ret, exit, fault, call, Outcome, returns, exits, faults,
}
use nng_examples.Platform.Documented.{Texts, View, Effect}

pub record Host (t : Texts) : Type 1 where
  pub World : Type 0
  pub answer : World → Call → Answer
  pub next : World → Call → World
  pub view : World → View
  pub documented : (w : World) (c : Call) → Effect t c (view w) (answer w c) (view (next w c))

module _ {t : Texts} (h : Host t) where
  -- The outcome of a program and the world that it leaves.
  unfoldable pub run {ℓ} : {A : Type ℓ} → Prog A → h.World → Outcome A × h.World
  run (ret a) w = (returns a, w)
  run (exit n) w = (exits n, w)
  run fault w = (faults, w)
  run (call c k) w = run (k (h.answer w c)) (h.next w c)

  -- What the run showed of itself.
  abbrev pub after {ℓ} : {A : Type ℓ} → Prog A → h.World → View
  after p w = h.view (run p w).1
