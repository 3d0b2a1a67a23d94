-- ===== src/Performance/Process/Turns.antt =====
-- Kept by the turns of the threads, and so by all turns; with what that gives at both ends of a run.
use nng_examples.Prelude.{
  ℕ, zero, suc, ◌≡◌, ◌≢◌, refl, sym, ap, subst, ◌∙◌, ◌==◌, Bool, true, ◌||◌, List, [], ◌∷◌, Option,
  none, some, get_elem?, set, All, inl, inr, arith, Bool-cases, ==_iff, lt_of_get_elem?,
  get_elem?-set_self, get_elem?-set_ne, length-set, Option-cases,
}
use mathlib.Core.Option.{some-injective}
use nng_examples.Performance.Process.Kept.{Kept, main_turn-Kept}
use nng_examples.Performance.Process.Lists.{
  All-map, map-set_job, get_elem?-map, done_ret, finished-set,
}
use nng_examples.Platform.{Job, Call, Answer, Prog, ret, exit, fault, call, returns}
use nng_examples.Platform.Documented.{Texts, View}
use nng_examples.Platform.Rules.{Always, Post}
use nng_examples.Performance.Process.{
  Hosts, Thread, Process, plain, done, finished, crew_turn, pick, turn, turns, ends, any_ends,
}

module _ {t : Texts} (h : Hosts t) (work : Job → Prog Bool) (idle : View) (Q : Post Bool)
    (Goal : Job → Post Bool) where
  abbrev Keeps : Process h.World → Type 0
  Keeps = Kept h work idle Q Goal

  module _ (sound : (j : Job) → Always t (work j) idle (Goal j)) where
    crew_call-Kept :
        (p : Process h.World) (i : ℕ) (th : Thread) (c : Call) (k : Answer → Prog Bool)
        → get_elem? p.crew i ≡ some th
        → th.code ≡ call c k
        → Keeps p
        → Keeps (crew_turn h work p i th.job (call c k))
    unfolding crew_turn
    crew_call-Kept p i th c k at_i now kept = elim (Bool-cases (plain c)) [
      | inr other ↦ rw other kept
      | inl e ↦
          let a = h.answer p.world (suc i) c in
          let w = h.next p.world (suc i) c in
          let main_view : h.view w 0 ≡ h.view p.world 0 =
            h.apart p.world (suc i) 0 c (λ z. omega arith) in
          let new : Thread = record { job = th.job; code = k a } in
          rw e (record {
            main_bound = subst (λ v. Always t p.main v Q) (sym main_view) kept.main_bound;
            crew_bound = λ m th' at_m. elim (Bool-cases (i == m)) [
              | inl here ↦
                  let same : i ≡ m = (==_iff i m).0 here in
                  let stands : get_elem? (set p.crew i new) i ≡ some th' =
                    subst (λ x. get_elem? (set p.crew i new) x ≡ some th') (sym same) at_m in
                  let is_new : th' ≡ new = cc (stands, get_elem?-set_self p.crew i th new at_i) in
                  rw (is_new, ← same)
                    (subst (λ q. Always t q (h.view p.world (suc i)) (Goal th.job)) now
                      (kept.crew_bound i th at_i) a (h.view w (suc i))
                      (h.documented p.world (suc i) c))
              | inr there ↦
                  let other : i ≢ m = λ z. cc ((==_iff i m).1 z) in
                  subst (λ v. Always t th'.code v (Goal th'.job))
                    (sym (h.apart p.world (suc i) (suc m) c (λ z. other (omega arith))))
                    (kept.crew_bound m th' (sym (get_elem?-set_ne p.crew i m new other) ∙ at_m))
            ];
            unstarted = λ m le.
                h.apart p.world (suc i) (suc m) c
                  (λ z. omega (arith, lt_of_get_elem? p.crew i th at_i, length-set p.crew i new))
                ∙ kept.unstarted m (omega (arith, length-set p.crew i new));
            listed =
                map-set_job p.crew i th (k a) at_i
                ∙ kept.listed
                ∙ ap (λ (v : View). v.started) (sym main_view);
            waited =
                subst
                  (λ (v : View).
                    All (λ n. finished (get_elem? (set p.crew i new) n) ≡ true) v.joined)
                  (sym main_view)
                  (All-map _ _ (λ n r. finished-set p.crew i n th new at_i (rw now refl) r) _
                    kept.waited);
          })
    ]

    crew_turn-Kept :
        (p : Process h.World) (i : ℕ) (th : Thread) (q : Prog Bool)
        → get_elem? p.crew i ≡ some th
        → th.code ≡ q
        → Keeps p
        → Keeps (crew_turn h work p i th.job q)
    unfolding crew_turn
    crew_turn-Kept p i th (ret b) at_i now kept = kept
    crew_turn-Kept p i th (exit n) at_i now kept = kept
    crew_turn-Kept p i th fault at_i now kept = kept
    crew_turn-Kept p i th (call c k) at_i now kept = crew_call-Kept p i th c k at_i now kept

    pick-Kept :
        (p : Process h.World) (i : ℕ) (o : Option Thread)
        → get_elem? p.crew i ≡ o
        → Keeps p
        → Keeps (pick h work p i o)
    unfolding pick
    pick-Kept p i none e kept = kept
    pick-Kept p i (some th) e kept = crew_turn-Kept p i th th.code e refl kept

    turn-Kept : (p : Process h.World) (i : ℕ) → Keeps p → Keeps (turn h work p i)
    unfolding turn
    turn-Kept p zero kept = elim (Bool-cases (ends p.main || any_ends p.crew)) [
      | inl over ↦ rw over kept
      | inr live ↦ rw live (main_turn-Kept h work idle Q Goal sound p p.main refl kept)
    ]
    turn-Kept p (suc i) kept = elim (Bool-cases (ends p.main || any_ends p.crew)) [
      | inl over ↦ rw over kept
      | inr live ↦ rw live (pick-Kept p i (get_elem? p.crew i) refl kept)
    ]

    pub turns-Kept : (p : Process h.World) (is : List ℕ) → Keeps p → Keeps (turns h work p is)
    unfolding turns
    turns-Kept p [] kept = kept
    turns-Kept p (i ∷ is) kept = turns-Kept (turn h work p i) is (turn-Kept p i kept)

  -- A process that has just begun.
  pub begun-Kept :
      (w : h.World) (code : Prog Bool)
      → ((i : ℕ) → h.view w (suc i) ≡ idle)
      → (h.view w 0).started ≡ []
      → (h.view w 0).joined ≡ []
      → Always t code (h.view w 0) Q
      → Keeps (record { world = w; main = code; crew = [] })
  begun-Kept w code quiet none_started none_joined bound = record {
    main_bound = bound;
    crew_bound = λ i th e. cc;
    unstarted = λ i le. quiet i;
    listed = sym none_started;
    waited = rw none_joined tt;
  }

  -- A thread of the crew that has returned is where its job wanted it.
  pub returned-Goal :
      (p : Process h.World) (i : ℕ) (j : Job)
      → Keeps p
      → get_elem? (h.view p.world 0).started i ≡ some j
      → finished (get_elem? p.crew i) ≡ true
      → Goal j (returns true) (h.view p.world (suc i))
  returned-Goal p i j kept is_job ended = elim (Option-cases (get_elem? p.crew i)) [
    | inl e ↦ cc (rw e at ended)
    | inr (th, e) ↦
        let of_job : th.job ≡ j = some-injective _ _ (
          sym (get_elem?-map p.crew i th e)
          ∙ ap (λ (js : List Job). get_elem? js i) kept.listed
          ∙ is_job) in
        let is_done : done th.code ≡ true = rw e at ended in
        subst (λ x. Goal x (returns true) (h.view p.world (suc i))) of_job
          (done_ret t th.code (h.view p.world (suc i)) (Goal th.job) is_done
            (kept.crew_bound i th e))
  ]
