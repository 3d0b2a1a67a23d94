-- ===== src/Performance/Delivery.antt =====
-- What is sent and what is received in a process of performance/, if its threads hear from no other
-- process.
use nng_examples.Prelude.{
  ℕ, zero, suc, ◌≡◌, ◌⊎◌, inl, inr, List, [], ◌∷◌, Bool-cases, Bool, ◌==◌, Option, ◌||◌, ==_iff,
  some, subst, sym, ◌≢◌, none, get_elem?,
}
use nng_examples.Bytes.{Bytes}
use nng_examples.Platform.{Job, Call, start_thread, join, Prog, ret, exit, fault, call, Answer}
use nng_examples.Platform.Documented.{Texts, View, Event, sent, received}
use nng_examples.Performance.Process.{
  Thread, finished, plain, ends, any_ends, Hosts, Process, main_call, main_turn, crew_turn, pick,
  turn, turns,
}
use mathlib.Core.List.{Memᴰ}

-- The messages of a log that were sent, and those that were received, the newest first.
abbrev pub sent_of : List Event → List Bytes
sent_of [] = []
sent_of (sent s b ∷ l) = b ∷ sent_of l
sent_of (_ ∷ l) = sent_of l

abbrev pub received_of : List Event → List Bytes
received_of [] = []
received_of (received s b ∷ l) = b ∷ received_of l
received_of (_ ∷ l) = received_of l

-- The network makes no messages up: what a thread receives in a call, a thread of the process has sent
-- before. What is sent stays sent.
pub record Genuine {t : Texts} (h : Hosts t) : Type 0 where
  pub origin :
      (w : h.World) (i : ℕ) (c : Call) (b : Bytes)
      → Memᴰ b (received_of (h.view (h.next w i c) i).log)
      → Memᴰ b (received_of (h.view w i).log) ⊎ ((j : ℕ) × Memᴰ b (sent_of (h.view w j).log))
  pub lasting :
      (w : h.World) (i : ℕ) (c : Call) (b : Bytes)
      → Memᴰ b (sent_of (h.view w i).log)
      → Memᴰ b (sent_of (h.view (h.next w i c) i).log)

module _ {t : Texts} (h : Hosts t) where
  -- What every call keeps, every order of turns keeps.
  module _ (work : Job → Prog Bool) (P : h.World → Type 0)
      (keeps : (w : h.World) (i : ℕ) (c : Call) → P w → P (h.next w i c)) where
    main_call-keeps :
        (p : Process h.World) (c : Call) (k : Answer → Prog Bool)
        → P p.world
        → P (main_call h work p c k).world
    unfolding main_call
    main_call-keeps p (start_thread j) k now =
        elim (Bool-cases ((h.answer p.world 0 (start_thread j)).status == 0)) [
          | inl e ↦ rw e (keeps p.world 0 (start_thread j) now)
          | inr e ↦ rw e (keeps p.world 0 (start_thread j) now)
        ]
    main_call-keeps p (join n) k now = elim (Bool-cases (finished (get_elem? p.crew n))) [
      | inl e ↦ rw e (keeps p.world 0 (join n) now)
      | inr e ↦ rw e now
    ]
    main_call-keeps p c k now = keeps p.world 0 c now

    main_turn-keeps :
        (p : Process h.World) (q : Prog Bool) → P p.world → P (main_turn h work p q).world
    unfolding main_turn
    main_turn-keeps p (call c k) now = main_call-keeps p c k now
    main_turn-keeps p (ret b) now = now
    main_turn-keeps p (exit n) now = now
    main_turn-keeps p fault now = now

    crew_turn-keeps :
        (p : Process h.World) (i : ℕ) (j : Job) (q : Prog Bool)
        → P p.world
        → P (crew_turn h work p i j q).world
    unfolding crew_turn
    crew_turn-keeps p i j (call c k) now = elim (Bool-cases (plain c)) [
      | inl e ↦ rw e (keeps p.world (suc i) c now)
      | inr e ↦ rw e now
    ]
    crew_turn-keeps p i j (ret b) now = now
    crew_turn-keeps p i j (exit n) now = now
    crew_turn-keeps p i j fault now = now

    pick-keeps :
        (p : Process h.World) (i : ℕ) (o : Option Thread) → P p.world → P (pick h work p i o).world
    unfolding pick
    pick-keeps p i none now = now
    pick-keeps p i (some th) now = crew_turn-keeps p i th.job th.code now

    turn-keeps : (p : Process h.World) (i : ℕ) → P p.world → P (turn h work p i).world
    unfolding turn
    turn-keeps p zero now = elim (Bool-cases (ends p.main || any_ends p.crew)) [
      | inl over ↦ rw over now
      | inr live ↦ rw live (main_turn-keeps p p.main now)
    ]
    turn-keeps p (suc i) now = elim (Bool-cases (ends p.main || any_ends p.crew)) [
      | inl over ↦ rw over now
      | inr live ↦ rw live (pick-keeps p i (get_elem? p.crew i) now)
    ]

    pub turns-keeps : (p : Process h.World) (is : List ℕ) → P p.world → P (turns h work p is).world
    unfolding turns
    turns-keeps p [] now = now
    turns-keeps p (i ∷ is) now = turns-keeps (turn h work p i) is (turn-keeps p i now)

  -- Every message that a thread has received was sent by some thread.
  abbrev pub Sourced : h.World → Type 0
  Sourced w =
      (i : ℕ) (b : Bytes)
      → Memᴰ b (received_of (h.view w i).log)
      → (j : ℕ) × Memᴰ b (sent_of (h.view w j).log)

  module _ (genuine : Genuine h) where
    sent-next :
        (w : h.World) (i : ℕ) (c : Call) (b : Bytes) (j : ℕ)
        → Memᴰ b (sent_of (h.view w j).log)
        → Memᴰ b (sent_of (h.view (h.next w i c) j).log)
    sent-next w i c b j there = elim (Bool-cases (i == j)) [
      | inl e ↦
          let same : i ≡ j = (==_iff i j).0 e in
          subst (λ x. Memᴰ b (sent_of (h.view (h.next w i c) x).log)) same
            (genuine.lasting w i c b
              (subst (λ x. Memᴰ b (sent_of (h.view w x).log)) (sym same) there))
      | inr e ↦
          let other : j ≢ i = λ z. cc ((==_iff i j).1 (sym z)) in
          subst (λ (v : View). Memᴰ b (sent_of v.log)) (sym (h.apart w i j c other)) there
    ]

    pub Sourced-next : (w : h.World) (i : ℕ) (c : Call) → Sourced w → Sourced (h.next w i c)
    Sourced-next w i c now m b there = elim (source m there) [
      | inl old ↦ let (j, at_j) = now m b old in (j, sent-next w i c b j at_j)
      | inr (j, at_j) ↦ (j, sent-next w i c b j at_j)
    ]
      where
        source :
            (m : ℕ)
            → Memᴰ b (received_of (h.view (h.next w i c) m).log)
            → Memᴰ b (received_of (h.view w m).log) ⊎ ((j : ℕ) × Memᴰ b (sent_of (h.view w j).log))
        source m there = elim (Bool-cases (i == m)) [
          | inl e ↦
              let same : i ≡ m = (==_iff i m).0 e in
              subst
                (λ x.
                  Memᴰ b (received_of (h.view w x).log)
                  ⊎ ((j : ℕ) × Memᴰ b (sent_of (h.view w j).log)))
                same
                (genuine.origin w i c b (
                  subst (λ x. Memᴰ b (received_of (h.view (h.next w i c) x).log)) (sym same) there))
          | inr e ↦
              let other : m ≢ i = λ z. cc ((==_iff i m).1 (sym z)) in
              inl (subst (λ (v : View). Memᴰ b (received_of v.log)) (h.apart w i m c other) there)
        ]
