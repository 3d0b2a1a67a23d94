-- ===== src/Bus/Setup.antt =====
-- What a member of the bus does to join it.
use nng_examples.Prelude.{
  ℕ, zero, suc, ◌+◌, ◌-◌, ◌≤◌, ◌<◌, ◌≡◌, ◌≢◌, inl, inr, refl, ap, ◌++◌, ◌==◌, [], ◌∷◌, List, some,
  length, get_elem?, arith, if◌then◌else◌, All, Bool-cases, leb-true, ==_iff, subst,
}
use nng_examples.Bytes.{Bytes, text}
use nng_examples.Bytes.Decimal.{decimal}
use nng_examples.Platform.{Prog, ◌>>=◌, ◌>>◌, dial, stdout, Outcome, returns, exits}
use nng_examples.Platform.Documented.{Texts, View, Event, listening, dialed, printed, slept, happen}
use nng_examples.Platform.Host.{Host, run, after}
use nng_examples.Platform.Rules.{Always, Post, print-then, sleep-last, run-Always, Always-assoc}
use nng_examples.Checked.{newline, diagnosis}
use nng_examples.Checked.Rules.{Failed, check-then}
use nng_examples.Bus.{
  positions, targets, dial_member, listen_member, dial_label, dial_all, announce_end, setup_bus,
}

-- The addresses `xs` stand at the positions `ps`.
abbrev pub Resolves : List Bytes → List ℕ → List Bytes → Type 0
Resolves us [] [] = Unit {0}
Resolves us [] (x ∷ xs) = ⊥
Resolves us (p ∷ ps) [] = ⊥
Resolves us (p ∷ ps) (x ∷ xs) = (get_elem? us p ≡ some x) × Resolves us ps xs

-- These addresses, announced and dialed one after the other after the events `l`.
abbrev pub dialing : ℕ → Bytes → List Bytes → List Event → List Event
dialing s label [] l = l
dialing s label (x ∷ xs) l =
    dialing s label xs (dialed s x ∷ printed stdout (label ++ x ++ newline) ∷ l)

element_below : (us : List Bytes) (p : ℕ) → p < length us → (x : Bytes) × (get_elem? us p ≡ some x)
element_below [] p h = elim h [ ]
element_below (x ∷ us) zero h = (x, refl)
element_below (x ∷ us) (suc p) h = element_below us p (omega arith)

resolve :
    (us : List Bytes) (ps : List ℕ)
    → All (λ p. p < length us) ps
    → (xs : List Bytes) × Resolves us ps xs
resolve us [] h = ([], tt)
resolve us (p ∷ ps) h =
    let (x, e) = element_below us p h.0 in let (xs, r) = resolve us ps h.1 in (x ∷ xs, (e, r))

positions-below : (n a k : ℕ) → a + k ≤ n → All (λ p. p < n) (positions a k)
positions-below n a zero h = tt
positions-below n a (suc k) h = (omega arith, positions-below n (suc a) k (omega arith))

-- What a member dials stands in the vector.
targets-below :
    (n me : ℕ) → 2 ≤ n → me < n → (ps : List ℕ) × (targets n me ≡ some ps) × All (λ p. p < n) ps
unfolding targets
targets-below n me two h = elim (Bool-cases (me == 0)) [
  | inl first ↦ (
    positions 1 (n - 1 - 1),
    rw first (rw (leb-true 1 (n - 1) (omega arith)) refl),
    positions-below n 1 (n - 1 - 1) (omega arith),
  )
  | inr other ↦ elim (Bool-cases (me + 1 == n)) [
    | inl last ↦ (0 ∷ [], rw other (rw last refl), (omega arith, tt))
    | inr middle ↦ (
      positions (me + 1) (n - (me + 1)),
      rw other (rw middle refl),
      positions-below n (me + 1) (n - (me + 1)) (omega arith),
    )
  ]
]

module _ (t : Texts) (us : List Bytes) (s : ℕ) (label : Bytes) (Q : Post (Unit {0})) where
  -- All are dialed, or one fails after those before it.
  dial_all-then :
      (ps : List ℕ) (xs : List Bytes) (u : View) (k : Unit {0} → Prog (Unit {0}))
      → Resolves us ps xs
      → ((done rest : List Bytes) (x : Bytes) (w : View)
          → xs ≡ done ++ x ∷ rest
          → Failed t (printed stdout (label ++ x ++ newline) ∷ dialing s label done u.log) w
          → Q (exits 1) w)
      → Always t (k tt) (record u { log = dialing s label xs u.log }) Q
      → Always t (dial_all us s label ps >>= k) u Q
  unfolding dial_all dial_member
  dial_all-then [] [] u k r bad h = h
  dial_all-then [] (x ∷ xs) u k r bad h = absurd r
  dial_all-then (p ∷ ps) [] u k r bad h = absurd r
  dial_all-then (p ∷ ps) (x ∷ xs) u k r bad h =
      let u1 = happen (printed stdout (label ++ x ++ newline)) u in
      rw (r.0) (
        print-then t u Q stdout _ (λ _. (dial_member s x >> dial_all us s label ps) >>= k)
          (Always-assoc t (dial_member s x) (λ _. dial_all us s label ps) k u1 Q
            (check-then t u1 Q (λ w f. bad [] xs x w refl f) (dial s x) _ _ u1
              (happen (dialed s x) u1) refl (λ a w e. e)
              (dial_all-then ps xs (happen (dialed s x) u1) k r.1
                (λ done rest y w e f. bad (x ∷ done) rest y w (ap (λ z. x ∷ z) e) f) h))))

-- The events up to the first dial: the member `me`, whose address is `mine`, says so, listens and
-- sleeps; the first member also says before which address it stops.
abbrev pub before_dialing : ℕ → ℕ → Bytes → Bytes → List Event → List Event
before_dialing s me mine end l =
    let heard =
      slept 2
      ∷ listening s mine
      ∷ printed stdout (decimal me ++ text " listening on " ++ mine ++ newline)
      ∷ l in
    if me == 0
    then printed stdout (text "First ending before " ++ end ++ newline) ∷ heard
    else heard

-- The ends of setting up member `me`.
pub data Joined (t : Texts) (us : List Bytes) (s me : ℕ) (v : View) (o : Outcome (Unit {0}))
    (u : View) : Type 0 where
  not_listening :
      (mine : Bytes) (st : ℕ)
      → get_elem? us me ≡ some mine
      → st ≢ 0
      → o ≡ exits 1
      → u.log
        ≡ printed stdout
            (diagnosis (text "Unable to listen on " ++ mine ++ text " ") (t.error_text st))
          ∷ printed stdout (decimal me ++ text " listening on " ++ mine ++ newline)
          ∷ v.log
      → Joined t us s me v o u
  not_dialed :
      (mine end x : Bytes) (ps : List ℕ) (done rest : List Bytes)
      → get_elem? us me ≡ some mine
      → targets (length us) me ≡ some ps
      → Resolves us ps (done ++ x ∷ rest)
      → o ≡ exits 1
      → Failed t
          (printed stdout (dial_label (length us) me ++ x ++ newline)
            ∷ dialing s (dial_label (length us) me) done (before_dialing s me mine end v.log))
          u
      → Joined t us s me v o u
  joined :
      (mine end : Bytes) (ps : List ℕ) (xs : List Bytes)
      → get_elem? us me ≡ some mine
      → get_elem? us (length us - 1) ≡ some end
      → targets (length us) me ≡ some ps
      → Resolves us ps xs
      → o ≡ returns tt
      → u.log
        ≡ slept 2 ∷ dialing s (dial_label (length us) me) xs (before_dialing s me mine end v.log)
      → u.body ≡ v.body
      → Joined t us s me v o u

listen_member-then :
    (t : Texts) (s : ℕ) (mine : Bytes) (k : Unit {0} → Prog (Unit {0})) (v : View)
    (Q : Post (Unit {0}))
    → ((st : ℕ) (u : View)
        → st ≢ 0
        → u.log
          ≡ printed stdout
              (diagnosis (text "Unable to listen on " ++ mine ++ text " ") (t.error_text st))
            ∷ v.log
        → Q (exits 1) u)
    → Always t (k tt) (happen (listening s mine) v) Q
    → Always t (listen_member s mine >>= k) v Q
unfolding listen_member
listen_member-then t s mine k v Q bad h a u (inl (ne, same)) = elim (Bool-cases (a.status == 0)) [
  | inl e ↦ absurd (ne ((==_iff a.status 0).0 e))
  | inr e ↦
      rw e λ a1 u1 (why, same1) a2 u2 now. bad a.status u2 ne (rw (now, same1, why, same) refl)
]
listen_member-then t s mine k v Q bad h a u (inr (z, now)) = rw (z, now) h

module _ (t : Texts) (us : List Bytes) (s me : ℕ) (v : View) (two : 2 ≤ length us)
    (h : me < length us) where
  -- The line of the first member, or none.
  announce-then :
      (mine end : Bytes) (k : Unit {0} → Prog (Unit {0})) (Q : Post (Unit {0}))
      → get_elem? us (length us - 1) ≡ some end
      → Always t (k tt) (record v { log = before_dialing s me mine end v.log }) Q
      → Always t
          (announce_end us me >>= k)
          (record v {
            log =
                slept 2
                ∷ listening s mine
                ∷ printed stdout (decimal me ++ text " listening on " ++ mine ++ newline)
                ∷ v.log;
          })
          Q
  unfolding announce_end
  announce-then mine end k Q e g = elim (Bool-cases (me == 0)) [
    | inl first ↦ rw (first, e) λ a u now. rw now (rw first at g)
    | inr other ↦ rw other (rw other at g)
  ]

  pub setup-Joined : Always t (setup_bus us s me) v (Joined t us s me v)
  unfolding setup_bus
  setup-Joined =
      let (mine, at_me) = element_below us me h in
      let (end, at_end) = element_below us (length us - 1) (omega arith) in
      let (ps, aims, below) = targets-below (length us) me two h in
      let (xs, found) = resolve us ps below in
      let Q = Joined t us s me v in
      let label = dial_label (length us) me in
      let heard = printed stdout (decimal me ++ text " listening on " ++ mine ++ newline) in
      let w = record v { log = before_dialing s me mine end v.log } in
      rw at_me λ a0 u0 e0. rw e0 (
        listen_member-then t s mine _ (happen heard v) Q
          (λ st u ne l. not_listening mine st at_me ne refl l)
          λ a1 u1 e1. rw e1 (
            announce-then mine end _ Q at_end (
              rw aims (
                dial_all-then t us s label Q ps xs w _ found
                  (λ done rest x u e f.
                    not_dialed mine end x ps done rest at_me aims
                      (subst (λ z. Resolves us ps z) e found) refl f)
                  (sleep-last t (record w { log = dialing s label xs w.log }) Q 2
                    (joined mine end ps xs at_me at_end aims found refl refl refl))))))

-- A member of a bus of two or more, at a position of the vector, joins it whatever nng does, or ends
-- by a call that failed: it says where it listens, listens, sleeps, dials in order the addresses of
-- the positions that `targets` gives, each announced, and sleeps again. No index runs past the vector.
pub setup_bus-Joined :
    {t : Texts} (h : Host t) (w : h.World) (us : List Bytes) (s me : ℕ)
    → 2 ≤ length us
    → me < length us
    → Joined t us s me (h.view w) (run h (setup_bus us s me) w).0 (after h (setup_bus us s me) w)
setup_bus-Joined {t} h w us s me two bound =
    run-Always h (setup_bus us s me) w _ (setup-Joined t us s me (h.view w) two bound)
