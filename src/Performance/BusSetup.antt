-- ===== src/Performance/BusSetup.antt =====
-- How a member of the bus in performance/bus.cpp joins it, as rules with the rest of the program as `k`.
use nng_examples.Prelude.{ℕ, ◌≡◌, refl, List, [], ◌∷◌, Option, none, some, get_elem?, length, map}
use nng_examples.Bytes.{Bytes}
use nng_examples.Platform.{Prog, exits, faults, ◌>>=◌, deref, listen, dial}
use nng_examples.Platform.Documented.{Texts, View, Event, listening, dialed, slept, happen}
use nng_examples.Platform.Rules.{Always, Post, Always-assoc}
use nng_examples.Checked.{check}
use nng_examples.Checked.Rules.{check-then}
use nng_examples.Bus.{targets}
use nng_examples.Performance.Bus.{dial_all, dial_doing, setup_bus}

-- A pointer or a read that may be undefined behaviour.
pub deref-then {ℓ κ} :
    {X : Type κ} {A : Type ℓ} (t : Texts) (v : View) (Q : Post A) (o : Option X) (k : X → Prog A)
    → Q faults v
    → ((x : X) → o ≡ some x → Always t (k x) v Q)
    → Always t (deref o >>= k) v Q
deref-then t v Q none k bad h = bad
deref-then t v Q (some x) k bad h = h x refl

-- Dialing the addresses `xs`, after the events `l`.
abbrev pub dials : ℕ → List Bytes → List Event → List Event
dials s [] l = l
dials s (x ∷ xs) l = dials s xs (dialed s x ∷ l)

dial_all-then {ℓ} :
    {A : Type ℓ} (t : Texts) (us : List Bytes) (s : ℕ) (doing : Bytes) (v : View) (Q : Post A)
    (k : Unit {0} → Prog A)
    → ((u : View) → Q (exits 1) u)
    → ((u : View) → Q faults u)
    → (ps : List ℕ) (l : List Event)
    → ((xs : List Bytes)
        → map (get_elem? us) ps ≡ map some xs
        → Always t (k tt) (record v { log = dials s xs l }) Q)
    → Always t (dial_all us s doing ps >>= k) (record v { log = l }) Q
unfolding dial_all
dial_all-then t us s doing v Q k bad worse [] l h = h [] refl
dial_all-then t us s doing v Q k bad worse (p ∷ ps) l h =
    let w = record v { log = l } in
    Always-assoc t (deref (get_elem? us p)) _ k w Q (
      deref-then t w Q (get_elem? us p) _ (worse w) λ uri e.
        Always-assoc t (check (dial s uri) doing) _ k w Q (
          check-then t w Q (λ u f. bad u) (dial s uri) doing _ w (happen (dialed s uri) w) refl
            (λ a u z. z)
            (dial_all-then t us s doing v Q k bad worse ps (dialed s uri ∷ l)
              λ xs es. h (uri ∷ xs) (rw (e, es) refl))))

-- The events of joining at an own address, with the addresses `xs` to dial.
abbrev pub joining : ℕ → Bytes → List Bytes → List Event → List Event
joining s mine xs l = slept 3 ∷ dials s xs (slept 2 ∷ listening s mine ∷ l)

-- Setting up ends with the addresses dialed that stand at the positions of `targets`.
pub setup_bus-then {ℓ} :
    {A : Type ℓ} (t : Texts) (us : List Bytes) (me s : ℕ) (v : View) (Q : Post A)
    (k : Unit {0} → Prog A)
    → ((u : View) → Q (exits 1) u)
    → ((u : View) → Q faults u)
    → ((mine : Bytes) (ps : List ℕ) (xs : List Bytes)
        → get_elem? us me ≡ some mine
        → targets (length us) me ≡ some ps
        → map (get_elem? us) ps ≡ map some xs
        → Always t (k tt) (record v { log = joining s mine xs v.log }) Q)
    → Always t (setup_bus us me s >>= k) v Q
unfolding setup_bus
setup_bus-then t us me s v Q k bad worse h = Always-assoc t (deref (get_elem? us me)) _ k v Q (
    deref-then t v Q (get_elem? us me) _ (worse v) λ mine at_me.
      let w = happen (listening s mine) v in
      Always-assoc t (check (listen s mine) _) _ k v Q (
        check-then t v Q (λ u f. bad u) (listen s mine) _ _ v w refl (λ a u e. e)
          λ a u e. rw e (
            let w' = happen (slept 2) w in
            Always-assoc t (deref (targets (length us) me)) _ k w' Q (
              deref-then t w' Q (targets (length us) me) _ (worse w') λ ps aims.
                Always-assoc t (dial_all us s (dial_doing (length us) me) ps) _ k w' Q (
                  dial_all-then t us s (dial_doing (length us) me) v Q _ bad worse ps w'.log
                    (λ xs es a' u' e'. rw e' (h mine ps xs at_me aims es)))))))
