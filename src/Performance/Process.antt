-- ===== src/Performance/Process.antt =====
-- A process with threads: its main thread and the threads that it has started take their steps in any
-- order. The order is a list of turns; turn 0 is the main thread's, turn i + 1 that of the i-th thread
-- started.
pub mod Lists
pub mod Kept
pub mod Turns
use nng_examples.Prelude.{
  ℕ, zero, suc, ◌==◌, ◌++◌, Bool, true, false, ◌||◌, List, [], ◌∷◌, Option, none, some, get_elem?,
  set, if◌then◌else◌, ◌≡◌, ◌≢◌,
}
use nng_examples.Platform.{Job, Call, start_thread, join, Answer, Prog, ret, exit, fault, call}
use nng_examples.Platform.Documented.{Texts, View, Effect}

-- Whatever runs a process of several threads. Each thread has a view of its own: its events, and the
-- storage that it owns. Only starting and joining change the lists of started and joined threads.
abbrev pub plain : Call → Bool
plain (start_thread j) = false
plain (join n) = false
plain _ = true

pub record Hosts (t : Texts) : Type 1 where
  pub World : Type 0
  pub answer : World → ℕ → Call → Answer
  pub next : World → ℕ → Call → World
  pub view : World → ℕ → View
  pub documented :
      (w : World) (i : ℕ) (c : Call) → Effect t c (view w i) (answer w i c) (view (next w i c) i)
  pub apart : (w : World) (i j : ℕ) (c : Call) → j ≢ i → view (next w i c) j ≡ view w j
  pub steady :
      (w : World) (i : ℕ) (c : Call)
      → plain c ≡ true
      → ((view (next w i c) i).started ≡ (view w i).started)
        × ((view (next w i c) i).joined ≡ (view w i).joined)

pub record Thread : Type 0 where
  pub job : Job
  pub code : Prog Bool

-- `main` is what the main thread has still to do.
pub record Process (World : Type 0) : Type 0 where
  pub world : World
  pub main : Prog Bool
  pub crew : List Thread

-- A thread that calls exit, or meets undefined behaviour, ends the process; so does the main thread
-- when it returns.
abbrev pub ends : Prog Bool → Bool
ends (ret b) = false
ends (exit n) = true
ends fault = true
ends (call c k) = false

abbrev pub any_ends : List Thread → Bool
any_ends [] = false
any_ends (th ∷ ths) = ends th.code || any_ends ths

abbrev pub done : Prog Bool → Bool
done (ret b) = b
done _ = false

-- A thread has returned.
abbrev pub finished : Option Thread → Bool
finished none = false
finished (some th) = done th.code

module _ {t : Texts} (h : Hosts t) (work : Job → Prog Bool) where
  -- The main thread makes call `c`, and goes on by `k` with the answer: a join waits.
  unfoldable pub main_call : Process h.World → Call → (Answer → Prog Bool) → Process h.World
  main_call p (start_thread j) k =
      let a = h.answer p.world 0 (start_thread j) in
      let w = h.next p.world 0 (start_thread j) in
      if a.status == 0
      then record { world = w; main = k a; crew = p.crew ++ record { job = j; code = work j } ∷ [] }
      else record { world = w; main = k a; crew = p.crew }
  main_call p (join n) k =
      if finished (get_elem? p.crew n)
      then record {
        world = h.next p.world 0 (join n);
        main = k (h.answer p.world 0 (join n));
        crew = p.crew;
      }
      else p
  main_call p c k = record {
    world = h.next p.world 0 c;
    main = k (h.answer p.world 0 c);
    crew = p.crew;
  }

  unfoldable pub main_turn : Process h.World → Prog Bool → Process h.World
  main_turn p (call c k) = main_call p c k
  main_turn p _ = p

  -- The threads themselves start and join none.
  unfoldable pub crew_turn : Process h.World → ℕ → Job → Prog Bool → Process h.World
  crew_turn p i j (call c k) =
      if plain c
      then record {
        world = h.next p.world (suc i) c;
        main = p.main;
        crew = set p.crew i (record { job = j; code = k (h.answer p.world (suc i) c) });
      }
      else p
  crew_turn p i j _ = p

  unfoldable pub pick : Process h.World → ℕ → Option Thread → Process h.World
  unfolding crew_turn
  pick p i none = p
  pick p i (some th) = crew_turn p i th.job th.code

  -- One turn, if there is anything to do in it.
  unfoldable pub turn : Process h.World → ℕ → Process h.World
  turn p zero = if ends p.main || any_ends p.crew then p else main_turn p p.main
  turn p (suc i) = if ends p.main || any_ends p.crew then p else pick p i (get_elem? p.crew i)

  unfoldable pub turns : Process h.World → List ℕ → Process h.World
  turns p [] = p
  turns p (i ∷ is) = turns (turn p i) is
