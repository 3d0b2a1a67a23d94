-- ===== src/Performance/Arrival.antt =====
-- Processes of performance/ whose threads only receive, and what arrives there.
use nng_examples.Prelude.{
  ℕ, zero, suc, ◌<◌, ◌≤◌, ◌≡◌, inl, inr, refl, ap, List, [], ◌∷◌, All, length, Bool, Bool-cases,
  ltb, map, arith,
}
use nng_examples.Bytes.{Bytes}
use nng_examples.Performance.Delivery.{
  sent_of, received_of, Genuine, Sourced, Sourced-next, turns-keeps,
}
use nng_examples.Platform.{Job, Prog}
use nng_examples.Platform.Documented.{Texts, View}
use nng_examples.Performance.Process.{Hosts, Thread}
use nng_examples.Performance.Process.Turns.{turns-Kept, begun-Kept}
use nng_examples.Performance.Threads.{work}
use nng_examples.Performance.Goals.{Returned, Goal}
use nng_examples.Performance.Sound.{work-Goal}
use nng_examples.Performance.Crewed.{Anything, anything-Always}
use nng_examples.Performance.Ended.{Begins, reached}
use nng_examples.Performance.Filtered.{OneWay, Returned-sent_of, All-of_members}
use mathlib.Core.List.{Memᴰ}
use mathlib.Core.List.Memᴰ

-- No message has been sent or received when the process begins.
pub record Silent {t : Texts} (h : Hosts t) (idle : View) (w : h.World) : Type 0 where
  pub begins : Begins h idle w
  pub main_silent : (h.view w 0).log ≡ []
  pub crew_silent : idle.log ≡ []

length-map : {A B : Type 0} (f : A → B) (xs : List A) → length (map f xs) ≡ length xs
length-map f [] = refl
length-map f (x ∷ xs) = ap suc (length-map f xs)

module _ {t : Texts} (h : Hosts t) (formatted : Bytes → ℕ → Bytes) (fuel : ℕ) (idle : View)
    (w : h.World) (silent : Silent h idle w) (genuine : Genuine h) (code : Prog Bool)
    (is : List ℕ) where
  abbrev End : ℕ → View
  End i = h.view (reached h formatted fuel w code is).world i

  sourced : Sourced h (reached h formatted fuel w code is).world
  sourced =
      turns-keeps h (work formatted fuel) (Sourced h) (Sourced-next h genuine)
        (record { world = w; main = code; crew = [] }) is none
    where
      none : Sourced h w
      none zero b there = absurd (Memᴰ.not-nil (rw silent.main_silent at there))
      none (suc i) b there =
          absurd (Memᴰ.not-nil (rw (silent.begins.quiet i, silent.crew_silent) at there))

  -- A thread that was not started has sent nothing.
  beyond : (i : ℕ) → length (End 0).started ≤ i → End (suc i) ≡ idle
  beyond i le =
      let kept =
        turns-Kept h (work formatted fuel) idle Anything (Goal formatted idle)
          (work-Goal t formatted fuel idle) (record { world = w; main = code; crew = [] }) is
          (begun-Kept h (work formatted fuel) idle Anything (Goal formatted idle) w code
            silent.begins.quiet silent.begins.none_started silent.begins.none_joined
            (anything-Always t code (h.view w 0))) in
      let same = length-map (λ (th : Thread). th.job) (reached h formatted fuel w code is).crew in
      let many = ap length kept.listed in kept.unstarted i (omega arith)

  -- If all threads have returned, and only receive, then all that they have received is the main
  -- thread's.
  pub from_main :
      (n : ℕ)
      → length (End 0).started ≡ n
      → ((i : ℕ) → i < n → (j : Job) × OneWay j × Returned formatted j idle (End (suc i)))
      → (i : ℕ) → All (λ b. Memᴰ b (sent_of (End 0).log)) (received_of (End i).log)
  from_main n many returned i =
      All-of_members _ _ (λ b m. let (j, at_j) = sourced i b m in of_main b j at_j)
    where
      of_main : (b : Bytes) (j : ℕ) → Memᴰ b (sent_of (End j).log) → Memᴰ b (sent_of (End 0).log)
      of_main b zero m = m
      of_main b (suc j) m = elim (Bool-cases (ltb j n)) [
        | inl e ↦
            let lt : j < n = ground arith in
            let (job, way, done) = returned j lt in
            absurd (
              Memᴰ.not-nil (
                rw (Returned-sent_of formatted job idle (End (suc j)) way done, silent.crew_silent)
                  at m))
        | inr e ↦
            let ge : n ≤ j = ground arith in
            absurd (Memᴰ.not-nil (rw (beyond j (omega arith), silent.crew_silent) at m))
      ]
