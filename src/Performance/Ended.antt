-- ===== src/Performance/Ended.antt =====
-- What is known when the main thread of a process has ended with success.
use nng_examples.Prelude.{
  ℕ, zero, suc, ◌+◌, ◌<◌, ◌≡◌, refl, subst, List, [], ◌++◌, length, replicate, some, true,
  get_elem?, All, Bool, arith,
}
use nng_examples.Bytes.{Bytes}
use nng_examples.Platform.{Job, Prog, exits, exit}
use nng_examples.Platform.Documented.{Texts, View}
use nng_examples.Platform.Rules.{Always}
use nng_examples.Bus.{positions}
use nng_examples.Performance.Crew.Rules.{waited_for, All-waited_for, All-positions}
use nng_examples.Performance.Process.{Hosts, Process, finished, turns}
use nng_examples.Performance.Process.Kept.{Kept}
use nng_examples.Performance.Process.Turns.{turns-Kept, begun-Kept, returned-Goal}
use nng_examples.Performance.Threads.{work}
use nng_examples.Performance.Goals.{Returned, Goal, Countable}
use nng_examples.Performance.Sound.{work-Goal}

-- Where a process begins: no thread has been started, and those that will be have the view `idle`.
pub record Begins {t : Texts} (h : Hosts t) (idle : View) (w : h.World) : Type 0 where
  pub quiet : (i : ℕ) → h.view w (suc i) ≡ idle
  pub none_started : (h.view w 0).started ≡ []
  pub none_joined : (h.view w 0).joined ≡ []

pub get_elem?-replicate : (n i : ℕ) (j : Job) → i < n → get_elem? (replicate n j) i ≡ some j
get_elem?-replicate zero i j lt = absurd (omega arith)
get_elem?-replicate (suc n) zero j lt = refl
get_elem?-replicate (suc n) (suc i) j lt = get_elem?-replicate n i j (omega arith)

-- The process after the turns `is`, if its main thread is to run `code`.
abbrev pub reached :
    {t : Texts} (h : Hosts t)
    → (Bytes → ℕ → Bytes)
    → ℕ
    → h.World
    → Prog Bool
    → List ℕ
    → Process h.World
reached h formatted fuel w code is =
    turns h (work formatted fuel) (record { world = w; main = code; crew = [] }) is

module _ {t : Texts} (h : Hosts t) (formatted : Bytes → ℕ → Bytes) (fuel : ℕ) (idle : View)
    (w : h.World) (begins : Begins h idle w) where
  module _ (code : Prog Bool) (P : View → Type 0)
      (bound : Always t code (h.view w 0) (λ o u. o ≡ exits 0 → P u)) (is : List ℕ)
      (success : (reached h formatted fuel w code is).main ≡ exit 0) where
    kept :
        Kept h
          (work formatted fuel)
          idle
          (λ o u. o ≡ exits 0 → P u)
          (Goal formatted idle)
          (reached h formatted fuel w code is)
    kept =
        turns-Kept h (work formatted fuel) idle (λ o u. o ≡ exits 0 → P u) (Goal formatted idle)
          (work-Goal t formatted fuel idle) (record { world = w; main = code; crew = [] }) is
          (begun-Kept h (work formatted fuel) idle (λ o u. o ≡ exits 0 → P u) (Goal formatted idle)
            w code begins.quiet begins.none_started begins.none_joined bound)

    pub main_done : P (h.view (reached h formatted fuel w code is).world 0)
    main_done =
        let at_end : Always t (exit 0) (h.view (reached h formatted fuel w code is).world 0)
            (λ o u. o ≡ exits 0 → P u) =
          subst
            (λ q.
              Always t q (h.view (reached h formatted fuel w code is).world 0)
                (λ o u. o ≡ exits 0 → P u))
            success kept.main_bound in
        at_end refl

    -- A thread that was started for a job and has been waited for.
    pub member_done :
        (i : ℕ) (j : Job)
        → Countable j
        → get_elem? (h.view (reached h formatted fuel w code is).world 0).started i ≡ some j
        → finished (get_elem? (reached h formatted fuel w code is).crew i) ≡ true
        → Returned formatted j idle (h.view (reached h formatted fuel w code is).world (suc i))
    member_done i j few is_job ended =
        returned-Goal h (work formatted fuel) idle (λ o u. o ≡ exits 0 → P u) (Goal formatted idle)
          (reached h formatted fuel w code is) i j kept is_job ended refl few

    -- The threads that were waited for last.
    pub joined_done :
        (is' js : List ℕ)
        → (h.view (reached h formatted fuel w code is).world 0).joined ≡ waited_for is' js
        → All (λ m. finished (get_elem? (reached h formatted fuel w code is).crew m) ≡ true) is'
          × All (λ m. finished (get_elem? (reached h formatted fuel w code is).crew m) ≡ true) js
    joined_done is' js all_joined = All-waited_for _ is' js (
        subst
          (λ ns.
            All (λ m. finished (get_elem? (reached h formatted fuel w code is).crew m) ≡ true) ns)
          all_joined kept.waited)

    -- Every thread of a crew that was started for one job and waited for as a whole.
    pub crew_done :
        (n i : ℕ) (j : Job)
        → Countable j
        → i < n
        → (h.view (reached h formatted fuel w code is).world 0).started
          ≡ (h.view w 0).started ++ replicate n j
        → (h.view (reached h formatted fuel w code is).world 0).joined
          ≡ waited_for (positions (length (h.view w 0).started) n) (h.view w 0).joined
        → Returned formatted j idle (h.view (reached h formatted fuel w code is).world (suc i))
    crew_done n i j few lt all_started all_joined =
        let below =
          (joined_done (positions (length (h.view w 0).started) n) (h.view w 0).joined
            all_joined).0 in
        let ended = All-positions _ 0 n i (rw begins.none_started at below) lt in
        let here : 0 + i ≡ i = omega arith in
        let is_job : get_elem? (h.view (reached h formatted fuel w code is).world 0).started i
            ≡ some j =
          rw (all_started, begins.none_started) (get_elem?-replicate n i j lt) in
        member_done i j few is_job (rw here at ended)
