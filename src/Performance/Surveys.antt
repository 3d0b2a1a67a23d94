-- ===== src/Performance/Surveys.antt =====
-- What the surveying side of performance/survey.cpp does, as rules with the rest of the program as `k`.
-- The responses are not freed, so that the owned buffers grow.
use nng_examples.Prelude.{
  ℕ, zero, suc, ◌<◌, ◌≤◌, ◌≡◌, ◌^◌, refl, ap, List, [], ◌∷◌, length, take, Option, none, some, All,
  arith,
}
use nng_examples.Bytes.{Bytes}
use nng_examples.Platform.{Prog, exits, send_bytes, recv_alloc, ◌>>=◌}
use nng_examples.Platform.Documented.{
  Texts, View, Event, sent, received, happen, update, update_self, sent_whole,
}
use nng_examples.Platform.Rules.{Always, Post, Always-assoc}
use nng_examples.Platform.Loop.{forever}
use nng_examples.Checked.{check}
use nng_examples.Checked.Rules.{check-then}
use nng_examples.Performance.{int_loop, new_bytes}
use nng_examples.Performance.Rules.{int_loop-forever}
use nng_examples.Performance.Drain.{heard, recv_alloc-then}
use nng_examples.Performance.Sends.{new_bytes-then}
use nng_examples.Performance.Survey.{survey, surveyor}

-- The survey `d` is sent for each of the lists of responses, after the events `l`.
abbrev pub surveyed : ℕ → Bytes → List (List Bytes) → List Event → List Event
surveyed s d [] l = l
surveyed s d (bs ∷ bss) l = surveyed s d bss (heard s bs (sent s d ∷ l))

-- View `v` after the events `l`, with the messages and arrays `f`.
abbrev pub keeping : List Event → (ℕ → Option Bytes) → View → View
keeping l f v = record v { log = l; body = f }

-- What a fresh buffer leaves alone.
update_other :
    (f : ℕ → Option Bytes) (p q : ℕ) (d : Bytes) (o : Option Bytes)
    → f p ≡ some d
    → f q ≡ none
    → update f q o p ≡ some d
update_other f p q d o owned fresh = ground arith

module _ {ℓ} {A : Type ℓ} (t : Texts) (v : View) (Q : Post A) (bad : (u : View) → Q (exits 1) u)
    (s p : ℕ) (d : Bytes) where
  responses-then :
      (doing : Bytes) (k : Unit {0} → Prog A) (n : ℕ) (l : List Event) (f : ℕ → Option Bytes)
      → f p ≡ some d
      → ((bs : List Bytes) (g : ℕ → Option Bytes)
          → length bs ≡ n
          → g p ≡ some d
          → Always t (k tt) (keeping (heard s bs l) g v) Q)
      → Always t (forever n (check (recv_alloc s) doing) >>= k) (keeping l f v) Q
  unfolding forever check
  responses-then doing k zero l f owned h = h [] f refl owned
  responses-then doing k (suc n) l f owned h =
      Always-assoc t (check (recv_alloc s) doing) (λ _. forever n (check (recv_alloc s) doing)) k
        (keeping l f v) Q
        (recv_alloc-then t (keeping l f v) Q (λ u z. bad u) s doing
          (λ _. forever n (check (recv_alloc s) doing) >>= k)
          λ a fresh.
            responses-then doing k n (received s a.bytes ∷ l) (update f a.value (some a.bytes))
              (update_other f p a.value d (some a.bytes) owned fresh)
              (λ bs g e. h (a.bytes ∷ bs) g (ap suc e)))

  survey-then :
      (nresp : ℕ) (k : Unit {0} → Prog A) (l : List Event) (f : ℕ → Option Bytes)
      → nresp < 2 ^ 31
      → f p ≡ some d
      → ((bs : List Bytes) (g : ℕ → Option Bytes)
          → length bs ≡ nresp
          → g p ≡ some d
          → Always t (k tt) (keeping (heard s bs (sent s d ∷ l)) g v) Q)
      → Always t (survey s p (length d) nresp >>= k) (keeping l f v) Q
  unfolding survey
  survey-then nresp k l f few owned h =
      let w = keeping l f v in
      Always-assoc t (check (send_bytes s p (length d)) _) _ k w Q (
        check-then t w Q (λ u z. bad u) (send_bytes s p (length d)) _ _ w (happen (sent s d) w) refl
          (λ a u e. sent_whole t s p d w a u owned e)
          (rw (int_loop-forever nresp _ few) (responses-then _ k nresp (sent s d ∷ l) f owned h)))

  surveys-then :
      (nresp : ℕ) (k : Unit {0} → Prog A) (n : ℕ) (l : List Event) (f : ℕ → Option Bytes)
      → nresp < 2 ^ 31
      → f p ≡ some d
      → ((bss : List (List Bytes)) (g : ℕ → Option Bytes)
          → length bss ≡ n
          → All (λ bs. length bs ≡ nresp) bss
          → g p ≡ some d
          → Always t (k tt) (keeping (surveyed s d bss l) g v) Q)
      → Always t (forever n (survey s p (length d) nresp) >>= k) (keeping l f v) Q
  unfolding forever
  surveys-then nresp k zero l f few owned h = h [] f refl tt owned
  surveys-then nresp k (suc n) l f few owned h =
      Always-assoc t (survey s p (length d) nresp) _ k (keeping l f v) Q (
        survey-then nresp (λ _. forever n (survey s p (length d) nresp) >>= k) l f few owned
          λ bs g e owned'.
            surveys-then nresp k n (heard s bs (sent s d ∷ l)) g few owned'
              (λ bss g' e' all. h (bs ∷ bss) g' (ap suc e') (e, all)))

-- The last survey has one byte.
pub surveyor-then {ℓ} :
    {A : Type ℓ} (t : Texts) (v : View) (Q : Post A) (s nsurvey size nresp : ℕ)
    (k : Unit {0} → Prog A)
    → ((u : View) → Q (exits 1) u)
    → ((u : View) → Q (exits 134) u)
    → nsurvey < 2 ^ 31
    → nresp < 2 ^ 31
    → 1 ≤ size
    → ((d : Bytes) (bss : List (List Bytes)) (f : ℕ → Option Bytes)
        → length d ≡ size
        → length bss ≡ nsurvey
        → All (λ bs. length bs ≡ nresp) bss
        → Always t (k tt) (keeping (sent s (take 1 d) ∷ surveyed s d bss v.log) f v) Q)
    → Always t (surveyor s nsurvey size nresp >>= k) v Q
unfolding surveyor
surveyor-then t v Q s nsurvey size nresp k bad worse few few' some_bytes h =
    Always-assoc t (new_bytes size) _ k v Q (
      new_bytes-then t v Q size _ (worse v) λ p d fits unowned. rw (← fits) (
        let f = update v.body p (some d) in
        let w = keeping v.log f v in
        Always-assoc t (int_loop nsurvey _) _ k w Q (
          rw (int_loop-forever nsurvey _ few) (
            surveys-then t v Q bad s p d nresp _ nsurvey v.log f few'
              (update_self v.body p (some d))
              λ bss g all each owned.
                let u = keeping (surveyed s d bss v.log) g v in
                check-then t u Q (λ u z. bad u) (send_bytes s p 1) _ k u
                  (happen (sent s (take 1 d)) u) refl (λ a u e. e d owned (omega arith))
                  (h d bss g fits all each)))))
