-- ===== src/Performance/Process/Kept.antt =====
-- What every order of the turns keeps: each thread is still on a documented way to its goal, and the
-- main thread has joined only threads that have returned. Here for the turns of the main thread.
use nng_examples.Prelude.{
  ℕ, suc, ◌≤◌, ◌≡◌, refl, sym, ap, subst, ◌∙◌, ◌==◌, ◌++◌, Bool, true, false, List, [], ◌∷◌, some,
  get_elem?, length, map, All, inl, inr, arith, Bool-cases, get_elem?-append_one, length-append,
}
use nng_examples.Performance.Process.Lists.{All-map, map-append_one, finished_append}
use nng_examples.Platform.{Job, Call, start_thread, join, Answer, Prog, ret, exit, fault, call}
use nng_examples.Platform.Documented.{Texts, View}
use nng_examples.Platform.Rules.{Always, Post}
use nng_examples.Performance.Process.{
  Hosts, Thread, Process, plain, done, finished, main_call, main_turn,
}

module _ {t : Texts} (h : Hosts t) (work : Job → Prog Bool) (idle : View) (Q : Post Bool)
    (Goal : Job → Post Bool) where
  -- `Q` is where the main thread is bound for, `Goal` where the threads are; a thread that was not
  -- started yet has the view `idle`.
  pub record Kept (p : Process h.World) : Type 0 where
    pub main_bound : Always t p.main (h.view p.world 0) Q
    pub crew_bound :
        (i : ℕ) (th : Thread)
        → get_elem? p.crew i ≡ some th
        → Always t th.code (h.view p.world (suc i)) (Goal th.job)
    pub unstarted : (i : ℕ) → length p.crew ≤ i → h.view p.world (suc i) ≡ idle
    pub listed : map (λ (th : Thread). th.job) p.crew ≡ (h.view p.world 0).started
    pub waited : All (λ n. finished (get_elem? p.crew n) ≡ true) (h.view p.world 0).joined

  main_call-plain :
      (p : Process h.World) (c : Call) (k : Answer → Prog Bool)
      → plain c ≡ true
      → main_call h work p c k
        ≡ record { world = h.next p.world 0 c; main = k (h.answer p.world 0 c); crew = p.crew }
  unfolding main_call
  main_call-plain p (start_thread j) k e = cc
  main_call-plain p (join n) k e = cc
  main_call-plain p c k e = refl

  call-ne-done : (c : Call) (k : Answer → Prog Bool) → done (call c k) ≡ true → ⊥
  call-ne-done c k e = cc

  module _ (sound : (j : Job) → Always t (work j) idle (Goal j)) where
    main_plain-Kept :
        (p : Process h.World) (c : Call) (k : Answer → Prog Bool)
        → plain c ≡ true
        → p.main ≡ call c k
        → Kept p
        → Kept (main_call h work p c k)
    main_plain-Kept p c k e now kept =
        let w = h.next p.world 0 c in
        let same = h.steady p.world 0 c e in
        let bound : Always t (call c k) (h.view p.world 0) Q =
          subst (λ q. Always t q (h.view p.world 0) Q) now kept.main_bound in
        rw (main_call-plain p c k e) (record {
          main_bound = bound (h.answer p.world 0 c) (h.view w 0) (h.documented p.world 0 c);
          crew_bound = λ i th at_i.
              subst (λ v. Always t th.code v (Goal th.job))
                (sym (h.apart p.world 0 (suc i) c (λ z. omega arith))) (kept.crew_bound i th at_i);
          unstarted = λ i le. h.apart p.world 0 (suc i) c (λ z. omega arith) ∙ kept.unstarted i le;
          listed = kept.listed ∙ sym (same.0);
          waited =
              subst (λ ns. All (λ n. finished (get_elem? p.crew n) ≡ true) ns) (sym (same.1))
                kept.waited;
        })

    main_start-Kept :
        (p : Process h.World) (j : Job) (k : Answer → Prog Bool)
        → p.main ≡ call (start_thread j) k
        → Kept p
        → Kept (main_call h work p (start_thread j) k)
    unfolding main_call
    main_start-Kept p j k now kept =
        let c = start_thread j in
        let a = h.answer p.world 0 c in
        let w = h.next p.world 0 c in
        let bound : Always t (k a) (h.view w 0) Q =
          subst (λ q. Always t q (h.view p.world 0) Q) now kept.main_bound a (h.view w 0)
            (h.documented p.world 0 c) in
        let others : (i : ℕ) → h.view w (suc i) ≡ h.view p.world (suc i) =
          λ i. h.apart p.world 0 (suc i) c (λ z. omega arith) in
        let old : (i : ℕ) (th : Thread)
            → get_elem? p.crew i ≡ some th
            → Always t th.code (h.view w (suc i)) (Goal th.job) =
          λ i th at_i.
            subst (λ v. Always t th.code v (Goal th.job)) (sym (others i))
              (kept.crew_bound i th at_i) in
        elim (h.documented p.world 0 c) [
          | inl (ne, same) ↦
              let e : (a.status == 0) ≡ false = ground arith in
              rw e (record {
                main_bound = bound;
                crew_bound = old;
                unstarted = λ i le. others i ∙ kept.unstarted i le;
                listed = kept.listed ∙ ap (λ (v : View). v.started) (sym same);
                waited =
                    subst (λ (v : View). All (λ n. finished (get_elem? p.crew n) ≡ true) v.joined)
                      (sym same) kept.waited;
              })
          | inr (z, number, same) ↦
              let e : (a.status == 0) ≡ true = ground arith in
              let new : Thread = record { job = j; code = work j } in
              rw e (record {
                main_bound = bound;
                crew_bound = λ i th at_i. elim (get_elem?-append_one p.crew new i th at_i) [
                  | inl at_old ↦ old i th at_old
                  | inr (at_end, is_new) ↦ rw is_new (
                      subst (λ v. Always t (work j) v (Goal j))
                        (sym (others i ∙ kept.unstarted i (omega arith))) (sound j))
                ];
                unstarted = λ i le.
                    others i ∙ kept.unstarted i (omega (arith, length-append p.crew (new ∷ [])));
                listed =
                    map-append_one p.crew new
                    ∙ ap (λ (js : List Job). js ++ j ∷ []) kept.listed
                    ∙ ap (λ (v : View). v.started) (sym same);
                waited =
                    subst
                      (λ (v : View).
                        All (λ n. finished (get_elem? (p.crew ++ new ∷ []) n) ≡ true) v.joined)
                      (sym same)
                      (All-map _ _ (λ n r. finished_append p.crew n new r) _ kept.waited);
              })
        ]

    main_join-Kept :
        (p : Process h.World) (n : ℕ) (k : Answer → Prog Bool)
        → p.main ≡ call (join n) k
        → Kept p
        → Kept (main_call h work p (join n) k)
    unfolding main_call
    main_join-Kept p n k now kept = elim (Bool-cases (finished (get_elem? p.crew n))) [
      | inr going ↦ rw going kept
      | inl ended ↦
          let c = join n in
          let w = h.next p.world 0 c in
          let same = h.documented p.world 0 c in
          let others : (i : ℕ) → h.view w (suc i) ≡ h.view p.world (suc i) =
            λ i. h.apart p.world 0 (suc i) c (λ z. omega arith) in
          rw ended (record {
            main_bound =
                subst (λ q. Always t q (h.view p.world 0) Q) now kept.main_bound
                  (h.answer p.world 0 c) (h.view w 0) same;
            crew_bound = λ i th at_i.
                subst (λ v. Always t th.code v (Goal th.job)) (sym (others i))
                  (kept.crew_bound i th at_i);
            unstarted = λ i le. others i ∙ kept.unstarted i le;
            listed = kept.listed ∙ ap (λ (v : View). v.started) (sym same);
            waited =
                subst (λ (v : View). All (λ m. finished (get_elem? p.crew m) ≡ true) v.joined)
                  (sym same) (ended, kept.waited);
          })
    ]

    pub main_turn-Kept :
        (p : Process h.World) (q : Prog Bool) → p.main ≡ q → Kept p → Kept (main_turn h work p q)
    unfolding main_turn
    main_turn-Kept p (ret b) now kept = kept
    main_turn-Kept p (exit n) now kept = kept
    main_turn-Kept p fault now kept = kept
    main_turn-Kept p (call (start_thread j) k) now kept = main_start-Kept p j k now kept
    main_turn-Kept p (call (join n) k) now kept = main_join-Kept p n k now kept
    main_turn-Kept p (call c k) now kept = main_plain-Kept p c k refl now kept
