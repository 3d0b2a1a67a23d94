-- ===== src/Performance/Crewed.antt =====
-- What holds at every moment of a process of performance/, whatever its main thread is.
use nng_examples.Prelude.{
  ℕ, ◌≡◌, refl, List, [], some, true, get_elem?, All, Bool, suc, ◌∷◌, ◌⊎◌, inl, inr,
}
use mathlib.Core.List.{Memᴰ}
use mathlib.Core.List.Memᴰ
use nng_examples.Bytes.{Bytes}
use nng_examples.Platform.{Job, Prog, ret, exit, fault, call}
use nng_examples.Platform.Documented.{Texts, View}
use nng_examples.Platform.Rules.{Always, Post}
use nng_examples.Performance.Process.{Hosts, finished}
use nng_examples.Performance.Process.Turns.{turns-Kept, begun-Kept, returned-Goal}
use nng_examples.Performance.Threads.{work}
use nng_examples.Performance.Goals.{Returned, Goal, Countable}
use nng_examples.Performance.Sound.{work-Goal}
use nng_examples.Performance.Ended.{Begins, reached}

All-member : (P : ℕ → Type 0) (n : ℕ) (ns : List ℕ) → Memᴰ n ns → All P ns → P n
All-member P n [] m all = absurd (Memᴰ.not-nil m)
All-member P n (k ∷ ns) m all = elim (Memᴰ.cases_cons m) [
  | inl e ↦ rw e (all.0)
  | inr m' ↦ All-member P n ns m' (all.1)
]

abbrev pub Anything {ℓ} : {A : Type ℓ} → Post A
Anything o u = Unit {0}

pub anything-Always {ℓ} : {A : Type ℓ} (t : Texts) (p : Prog A) (v : View) → Always t p v Anything
anything-Always t (ret a) v = tt
anything-Always t (exit n) v = tt
anything-Always t fault v = tt
anything-Always t (call c k) v = λ a u e. anything-Always t (k a) u

-- Whatever nng does within its documentation, whatever the main thread is to do and in whatever order
-- the threads run, at every moment: a thread that has returned, or that the main thread has got past its
-- wait for, has done what the job was for which it was started, if an int can count its rounds.
pub crew-Returned :
    {t : Texts} (h : Hosts t) (formatted : Bytes → ℕ → Bytes) (fuel : ℕ) (idle : View) (w : h.World)
    (code : Prog Bool) (is : List ℕ) (i : ℕ) (j : Job)
    → Begins h idle w
    → get_elem? (h.view (reached h formatted fuel w code is).world 0).started i ≡ some j
    → Countable j
    → (finished (get_elem? (reached h formatted fuel w code is).crew i) ≡ true)
      ⊎ Memᴰ i (h.view (reached h formatted fuel w code is).world 0).joined
    → Returned formatted j idle (h.view (reached h formatted fuel w code is).world (suc i))
crew-Returned {t} h formatted fuel idle w code is i j begins is_job few past =
    let begun =
      begun-Kept h (work formatted fuel) idle Anything (Goal formatted idle) w code begins.quiet
        begins.none_started begins.none_joined (anything-Always t code (h.view w 0)) in
    let kept =
      turns-Kept h (work formatted fuel) idle Anything (Goal formatted idle)
        (work-Goal t formatted fuel idle) (record { world = w; main = code; crew = [] }) is begun in
    let p = reached h formatted fuel w code is in
    let ended : finished (get_elem? p.crew i) ≡ true = elim past [
      | inl e ↦ e
      | inr there ↦
          All-member (λ n. finished (get_elem? p.crew n) ≡ true) i (h.view p.world 0).joined there
            kept.waited
    ] in
    returned-Goal h (work formatted fuel) idle Anything (Goal formatted idle) p i j kept is_job
      ended refl few
