-- ===== src/Surveyor/Service.antt =====
-- The surveyor's turns.
use nng_examples.Prelude.{
  ℕ, zero, suc, ◌%◌, ◌≡◌, ◌⊎◌, inl, inr, refl, ap, true, false, ◌++◌, ◌∷◌, List, Option, some, none,
  length, get_elem?, arith, ◌==◌, Bool, Bool-cases, ◌<◌, ◌≤◌, ◌≢◌, ◌^◌, ltb, ==_iff,
}
use nng_examples.Surveyor.Timeout.{asking, Concluded, survey-Concluded}
use nng_examples.Platform.{
  fault, surveyor0, surveyor_surveytime, set_option, listen, argv, print, stderr, stdout, ret,
  ◌>>=◌, ◌>>◌, act, Outcome, returns, exits, faults,
}
use nng_examples.Bytes.{Bytes, text, c_string}
use nng_examples.Platform.Documented.{
  Texts, View, Event, sent, received, printed, slept, configured, listening, happen,
}
use nng_examples.Platform.Host.{Host, run, after}
use nng_examples.Platform.Rules.{
  Always, Post, Then, Always-bind, Always-mono, print-then, run-Always,
}
use nng_examples.Checked.{newline}
use nng_examples.Checked.Rules.{checkstat-ne, Failed, send-then, check-then}
use nng_examples.Checked.Startup.{Started, startup-Always}
use nng_examples.Surveyor.{surveys, lifetime, send, collect, conclude, survey, turns, main}
use nng_examples.Surveyor.Collect.{
  collected, Readable, Collected, going_on, over, unreadable, collect-Collected,
}

-- The survey of turn `i`: ALL, EVEN and ODD go round.
abbrev pub IsTurn : ℕ → Bytes → Type 0
IsTurn i name =
    ((i % 3 ≡ 0) × (name ≡ text "ALL"))
    ⊎ (((i % 3 ≡ 1) × (name ≡ text "EVEN")) ⊎ ((i % 3 ≡ 2) × (name ≡ text "ODD")))

-- The events of a turn up to its survey, and up to the last of the responses `rs`.
abbrev pub announced : Bytes → List Event → List Event
announced name l = printed stdout (text "Surveying " ++ name ++ newline) ∷ slept 5 ∷ l

abbrev pub asked : ℕ → Bytes → Bytes → List (Bytes × Bytes) → List Event → List Event
asked s name rest rs l = collected s rs (sent s (name ++ rest) ∷ announced name l)

-- The ends of one survey, after the events `l`: it timed out; it is still collecting after `fuel`
-- responses; a call failed before, or with a status other than the time out; or a response has no
-- terminator. The survey is its name and as many bytes that nobody wrote.
pub data Surveyed (t : Texts) (etimedout fuel s : ℕ) (name : Bytes) (l : List Event)
    (f : ℕ → Option Bytes) (o : Outcome Bool) (u : View) : Type 0 where
  timed_out :
      (rest : Bytes) (rs : List (Bytes × Bytes))
      → length rest ≡ length name
      → Readable rs
      → o ≡ returns true
      → u.log ≡ asked s name rest rs l
      → u.body ≡ f
      → Surveyed t etimedout fuel s name l f o u
  open_still :
      (rest : Bytes) (rs : List (Bytes × Bytes))
      → length rest ≡ length name
      → Readable rs
      → length rs ≡ fuel
      → o ≡ returns false
      → u.log ≡ asked s name rest rs l
      → Surveyed t etimedout fuel s name l f o u
  unsent : o ≡ exits 1 → Failed t (announced name l) u → Surveyed t etimedout fuel s name l f o u
  broken :
      (rest : Bytes) (rs : List (Bytes × Bytes))
      → length rest ≡ length name
      → Readable rs
      → o ≡ exits 1
      → (why : Failed t (asked s name rest rs l) u) → why.status ≢ etimedout
      → Surveyed t etimedout fuel s name l f o u
  misread :
      (rest got : Bytes) (rs : List (Bytes × Bytes))
      → length rest ≡ length name
      → Readable rs
      → c_string got ≡ none
      → o ≡ faults
      → u.log ≡ received s got ∷ asked s name rest rs l
      → Surveyed t etimedout fuel s name l f o u

module _ (t : Texts) (etimedout fuel s : ℕ) (name : Bytes) (v : View) where
  conclude-Surveyed :
      (rest : Bytes)
      → length rest ≡ length name
      → (o : Outcome (Option ℕ)) (u : View)
      → Collected s fuel
          (happen (sent s (name ++ rest)) (record v { log = announced name v.log }))
          o
          u
      → Then t (conclude etimedout) (Surveyed t etimedout fuel s name v.log v.body) o u
  unfolding conclude
  conclude-Surveyed rest size o u (going_on rs a n e l b) =
      rw e (open_still rest rs size a n refl l)
  conclude-Surveyed rest size o u (unreadable rs got a z e l) =
      rw e (misread rest got rs size a z refl l)
  conclude-Surveyed rest size o u (over rs stat a n ne e l b) =
      rw e (elim (Bool-cases (stat == etimedout)) [
        | inl q ↦ rw q (timed_out rest rs size a refl l b)
        | inr q ↦
            let other : stat ≢ etimedout = λ z. cc ((==_iff stat etimedout).1 z) in
            rw (q, checkstat-ne stat (text "Suvey response failure") ne)
              λ a1 u1 e1 a2 u2 e2.
                let failed : Failed t (asked s name rest rs v.log) u2 = record {
                  doing = text "Suvey response failure";
                  status = stat;
                  status_ne = ne;
                  said = rw (e2, e1.1, e1.0, l) refl;
                } in
                broken rest rs size a refl failed other
      ])

  pub survey-Surveyed :
      Always t
        (survey etimedout fuel s name)
        (happen (slept 5) v)
        (Surveyed t etimedout fuel s name v.log v.body)
  unfolding survey send
  survey-Surveyed =
      let Q = Surveyed t etimedout fuel s name v.log v.body in
      let w = record v { log = announced name v.log } in
      print-then t (happen (slept 5) v) Q stdout (text "Surveying " ++ name ++ newline)
        (λ _. send s name >>= λ _. collect s fuel >>= λ stat. conclude etimedout stat)
        (send-then t w Q (λ u f. unsent refl f) s (length name) name _ _ _ _
          λ rest size.
            let w' = happen (sent s (name ++ rest)) w in
            Always-bind t (collect s fuel) (conclude etimedout) w' Q (
              Always-mono t (collect s fuel) w' (Collected s fuel w')
                (Then t (conclude etimedout) Q) (conclude-Surveyed rest size)
                (collect-Collected t s fuel w')))

-- The line after a survey.
abbrev pub done_line : Event
done_line = printed stderr (text "Survey done" ++ newline)

-- The ends of `n` turns from counter `i` on: they are over; or the survey that is this turn's timed
-- out, its end was printed, and the turns went on, or the counter was to go beyond 2^31 - 1; or its
-- survey ended otherwise.
pub data Turned (t : Texts) (etimedout fuel s : ℕ)
    : ℕ → ℕ → View → Outcome (Unit {0}) → View → Type 0 where
  turned : {i : ℕ} {v : View} → Turned t etimedout fuel s i zero v (returns tt) v
  next :
      {i n : ℕ} {v u w : View} {o : Outcome (Unit {0})} (name rest : Bytes)
      (rs : List (Bytes × Bytes))
      → IsTurn i name
      → length rest ≡ length name
      → Readable rs
      → w.log ≡ done_line ∷ asked s name rest rs v.log
      → w.body ≡ v.body
      → suc i < 2 ^ 31
      → Turned t etimedout fuel s (suc i) n w o u
      → Turned t etimedout fuel s i (suc n) v o u
  overflow :
      {i n : ℕ} {v u : View} {o : Outcome (Unit {0})} (name rest : Bytes)
      (rs : List (Bytes × Bytes))
      → IsTurn i name
      → length rest ≡ length name
      → Readable rs
      → u.log ≡ done_line ∷ asked s name rest rs v.log
      → 2 ^ 31 ≤ suc i
      → o ≡ faults
      → Turned t etimedout fuel s i (suc n) v o u
  last :
      {i n : ℕ} {v u : View} {o : Outcome (Unit {0})} (name : Bytes) (o' : Outcome Bool)
      → IsTurn i name
      → Surveyed t etimedout fuel s name v.log v.body o' u
      → ((o' ≡ returns false) × (o ≡ returns tt))
        ⊎ (((o' ≡ exits 1) × (o ≡ exits 1)) ⊎ ((o' ≡ faults) × (o ≡ faults)))
      → Turned t etimedout fuel s i (suc n) v o u

mod_three : (i : ℕ) → (i % 3 ≡ 0) ⊎ ((i % 3 ≡ 1) ⊎ (i % 3 ≡ 2))
mod_three i = grind arith

survey_of : (i : ℕ) → (name : Bytes) × (get_elem? surveys (i % 3) ≡ some name) × IsTurn i name
survey_of i = elim (mod_three i) [
  | inl e ↦ (text "ALL", rw e refl, inl (e, refl))
  | inr (inl e) ↦ (text "EVEN", rw e refl, inr (inl (e, refl)))
  | inr (inr e) ↦ (text "ODD", rw e refl, inr (inr (e, refl)))
]

module _ (t : Texts) (etimedout fuel s : ℕ) where
  -- After the survey of turn `i`.
  after_survey :
      (i n : ℕ) (v : View) (name : Bytes)
      → IsTurn i name
      → ((w : View)
          → Always t (turns etimedout fuel s (suc i) n) w (Turned t etimedout fuel s (suc i) n w))
      → (o : Outcome Bool) (u : View) → Surveyed t etimedout fuel s name v.log v.body o u
      → Then t
          (λ done. elim done [
            | true ↦
                (act (print stderr (text "Survey done" ++ newline)) >> elim (ltb (suc i) (2 ^ 31)) [
                  | true ↦ turns etimedout fuel s (suc i) n
                  | false ↦ fault
                ])
            | false ↦ ret tt
          ])
          (Turned t etimedout fuel s i (suc n) v)
          o
          u
  after_survey i n v name it rest o u (timed_out b rs size a e l k) =
      let Q = Turned t etimedout fuel s i (suc n) v in
      let w = happen done_line u in
      rw e (
        print-then t u Q stderr (text "Survey done" ++ newline)
          (λ _. elim (ltb (suc i) (2 ^ 31)) [
            | true ↦ turns etimedout fuel s (suc i) n
            | false ↦ fault
          ])
          (elim (Bool-cases (ltb (suc i) (2 ^ 31))) [
            | inl few ↦
                let lt : suc i < 2 ^ 31 = ground arith in
                rw few (
                  Always-mono t (turns etimedout fuel s (suc i) n) w
                    (Turned t etimedout fuel s (suc i) n w) Q
                    (λ o u p. next name b rs it size a (ap (λ x. done_line ∷ x) l) k lt p) (rest w))
            | inr many ↦
                let le : 2 ^ 31 ≤ suc i = ground arith in
                rw many (overflow name b rs it size a (ap (λ x. done_line ∷ x) l) le refl)
          ]))
  after_survey i n v name it rest o u (open_still b rs size a f e l) =
      rw e (last name (returns false) it (open_still b rs size a f refl l) (inl (refl, refl)))
  after_survey i n v name it rest o u (unsent e f) =
      rw e (last name (exits 1) it (unsent refl f) (inr (inl (refl, refl))))
  after_survey i n v name it rest o u (broken b rs size a e f ne) =
      rw e (last name (exits 1) it (broken b rs size a refl f ne) (inr (inl (refl, refl))))
  after_survey i n v name it rest o u (misread b got rs size a z e l) =
      rw e (last name faults it (misread b got rs size a z refl l) (inr (inr (refl, refl))))

  turns-Turned :
      (i n : ℕ) (v : View)
      → Always t (turns etimedout fuel s i n) v (Turned t etimedout fuel s i n v)
  unfolding turns
  turns-Turned i zero v = turned
  turns-Turned i (suc n) v =
      let (name, found, it) = survey_of i in
      let Q = Turned t etimedout fuel s i (suc n) v in
      λ a u e.
        rw (e, found)
          (Always-bind t (survey etimedout fuel s name) _ (happen (slept 5) v) Q (
            Always-mono t (survey etimedout fuel s name) (happen (slept 5) v)
              (Surveyed t etimedout fuel s name v.log v.body) (Then t _ Q)
              (after_survey i n v name it (λ w. turns-Turned (suc i) n w))
              (survey-Surveyed t etimedout fuel s name v)))

-- The ends of the program on its socket `s`: the life time of a survey was refused, or it was set and
-- the turns followed.
abbrev pub Conducted : Texts → ℕ → ℕ → ℕ → ℕ → View → Post (Unit {0})
Conducted t etimedout fuel n s v o u =
    ((o ≡ exits 1) × Failed t v.log u)
    ⊎ Turned t etimedout fuel s 0 n (happen (configured s (surveyor_surveytime 2000)) v) o u

-- Whatever nng does within its documentation, the surveyor run for `n` turns, and for `fuel` responses
-- in each, ends by a failed start, by the use of a missing argument, or after listening and setting
-- the life time of 2000 ms as `Turned` says: turn i sleeps, announces and sends ALL, EVEN or ODD as i
-- is 0, 1 or 2 modulo 3, and prints the responses in the order in which they come; the program ends only
-- by a failure other than the time out, on a response without a terminator, or when the int that counts
-- the turns overflows. And each survey, from wherever it starts, goes well if its responses end with
-- the time out, and ends the program with exit 1 if they end with any other status but 0.
pub surveyor_main-Started :
    {t : Texts} (h : Host t) (etimedout fuel n : ℕ) (args : List Bytes) (w : h.World)
    → Started t surveyor0 listening
        (argv args 1)
        (h.view w)
        (Conducted t etimedout fuel n)
        (run h (main etimedout fuel n args) w).0
        (after h (main etimedout fuel n args) w)
      × ((s : ℕ) (name : Bytes) (w' : h.World)
          → Concluded etimedout
              (run h (asking fuel s name) w').0
              (run h (survey etimedout fuel s name) w').0)
unfolding main
surveyor_main-Started {t} h etimedout fuel n args w = (
  run-Always h (main etimedout fuel n args) w _ (
      startup-Always t surveyor0 listening (argv args 1) (h.view w) listen _ _ _ _
        (λ s uri x a u e. e)
        (λ s x _ _.
          let x' = happen (configured s (surveyor_surveytime 2000)) x in
          check-then t x (Conducted t etimedout fuel n s x) (λ u f. inl (refl, f))
            (set_option s (surveyor_surveytime lifetime)) _ (λ _. turns etimedout fuel s 0 n) x x'
            refl (λ a u e. e)
            (Always-mono t (turns etimedout fuel s 0 n) x' (Turned t etimedout fuel s 0 n x')
              (Conducted t etimedout fuel n s x) (λ o u p. inr p)
              (turns-Turned t etimedout fuel s 0 n x')))),
  (λ s name w'. survey-Concluded h etimedout fuel s name w'),
)
