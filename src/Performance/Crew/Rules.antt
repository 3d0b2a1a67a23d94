-- ===== src/Performance/Crew/Rules.antt =====
-- The rules for starting threads, waiting for them and reading the clock.
use nng_examples.Prelude.{
  ℕ, zero, suc, ◌+◌, ◌<◌, ◌≡◌, ◌==◌, ◌^◌, ltb, subst, List, [], ◌∷◌, ◌++◌, length, replicate,
  append_assoc, append-nil, length-append, inl, inr, arith, Bool-cases, ==_iff, All, true,
}
use nng_examples.Bytes.{text}
use nng_examples.Platform.{Job, Prog, exits, ◌>>=◌, stdout}
use nng_examples.Platform.Documented.{Texts, View, Event, printed}
use nng_examples.Platform.Rules.{Always, Post, Always-assoc}
use nng_examples.Checked.{newline}
use nng_examples.Bus.{positions}
use nng_examples.Performance.Crew.{start_job, start_jobs, start_all, join_all}
use nng_examples.Performance.Report.{Doubles, seconds, per_second, report, line}

-- The threads `is` are waited for, after those of `l`.
abbrev pub waited_for : List ℕ → List ℕ → List ℕ
waited_for [] l = l
waited_for (i ∷ is) l = waited_for is (i ∷ l)

pub All-waited_for : (P : ℕ → Type 0) (is l : List ℕ) → All P (waited_for is l) → All P is × All P l
All-waited_for P [] l a = (tt, a)
All-waited_for P (i ∷ is) l a =
    let (here, there) = All-waited_for P is (i ∷ l) a in ((there.0, here), there.1)

pub All-positions : (P : ℕ → Type 0) (a n i : ℕ) → All P (positions a n) → i < n → P (a + i)
All-positions P a zero i h lt = absurd (omega arith)
All-positions P a (suc n) zero h lt = let e : a ≡ a + 0 = omega arith in subst P e h.0
All-positions P a (suc n) (suc i) h lt =
    let e : suc a + i ≡ a + suc i = omega arith in
    subst P e (All-positions P (suc a) n i h.1 (omega arith))

module _ {ℓ} {A : Type ℓ} (t : Texts) (Q : Post A) where
  pub start_job-then :
      (v : View) (j : Job) (k : ℕ → Prog A)
      → ((u : View) → Q (exits 134) u)
      → Always t (k (length v.started)) (record v { started = v.started ++ j ∷ [] }) Q
      → Always t (start_job j >>= k) v Q
  unfolding start_job
  start_job-then v j k bad h a u (inl (ne, same)) = elim (Bool-cases (a.status == 0)) [
    | inl e ↦ absurd (ne ((==_iff a.status 0).0 e))
    | inr e ↦ rw e (bad u)
  ]
  start_job-then v j k bad h a u (inr (z, number_is, now)) = rw (z, number_is, now) h

  start_jobs-then :
      (n : ℕ) (v : View) (j : Job) (k : List ℕ → Prog A)
      → ((u : View) → Q (exits 134) u)
      → Always t
          (k (positions (length v.started) n))
          (record v { started = v.started ++ replicate n j })
          Q
      → Always t (start_jobs n j >>= k) v Q
  unfolding start_jobs
  start_jobs-then zero v j k bad h = rw (append-nil v.started) at h
  start_jobs-then (suc n) v j k bad h =
      let w = record v { started = v.started ++ j ∷ [] } in
      let next : length w.started ≡ suc (length v.started) =
        omega (arith, length-append v.started (j ∷ [])) in
      let all : w.started ++ replicate n j ≡ v.started ++ j ∷ replicate n j =
        append_assoc v.started (j ∷ []) (replicate n j) in
      Always-assoc t (start_job j) _ k v Q (
        start_job-then v j _ bad (
          Always-assoc t (start_jobs n j) _ k w Q (start_jobs-then n w j _ bad (rw (next, all) h))))

  pub start_all-then :
      (n : ℕ) (v : View) (j : Job) (k : List ℕ → Prog A)
      → n < 2 ^ 31
      → ((u : View) → Q (exits 134) u)
      → Always t
          (k (positions (length v.started) n))
          (record v { started = v.started ++ replicate n j })
          Q
      → Always t (start_all n j >>= k) v Q
  unfolding start_all
  start_all-then n v j k few bad h =
      let e : ltb n (2 ^ 31) ≡ true = ground arith in rw e (start_jobs-then n v j k bad h)

  pub join_all-then :
      (is : List ℕ) (v : View) (k : Unit {0} → Prog A)
      → Always t (k tt) (record v { joined = waited_for is v.joined }) Q
      → Always t (join_all is >>= k) v Q
  unfolding join_all
  join_all-then [] v k h = h
  join_all-then (i ∷ is) v k h =
      λ a u e. rw e (join_all-then is (record v { joined = i ∷ v.joined }) k h)

-- What the lines of a report add to the log.
abbrev pub reported : (d : Doubles) → ℕ → ℕ → ℕ → ℕ → List Event → List Event
reported d count bytes b e l =
    let time = seconds d b e in
    printed stdout (
      text "KB/sec:     "
      ++ d.shown (d.divide (per_second d bytes time) (d.of_size 1024))
      ++ newline)
    ∷ printed stdout (text "msgs/sec:   " ++ d.shown (per_second d count time) ++ newline)
    ∷ printed stdout (text "Time:       " ++ d.shown time ++ newline)
    ∷ l

pub report-then {ℓ} :
    {A : Type ℓ} (t : Texts) (Q : Post A) (v : View) (d : Doubles) (count bytes b e : ℕ)
    (k : Unit {0} → Prog A)
    → Always t (k tt) (record v { log = reported d count bytes b e v.log }) Q
    → Always t (report d count bytes b e >>= k) v Q
unfolding report line
report-then t Q v d count bytes b e k h a1 u1 e1 a2 u2 e2 a3 u3 e3 = rw (e3, e2, e1) h
