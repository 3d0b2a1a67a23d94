-- ===== src/Performance/Surveyed.antt =====
-- What the main thread of performance/survey.cpp has done when the program ends with success.
use nng_examples.Prelude.{
  ℕ, ◌*◌, ◌%◌, ◌<◌, ◌≤◌, ◌≡◌, ◌⊎◌, ◌^◌, refl, ap, List, [], ◌∷◌, ◌++◌, length, take, replicate, All,
  Option, some, inl, inr, arith, Bool,
}
use nng_examples.Bytes.{Bytes, text}
use nng_examples.Bytes.Strtol.{atoi_size}
use nng_examples.Platform.{
  respondent_responder, surveyor0, surveyor_surveytime, recvmaxsz, Prog, Setting, exits, argv,
  listen, set_option, stdout, ◌>>=◌,
}
use nng_examples.Platform.Documented.{
  Texts, View, Event, opened, listening, configured, closed, slept, printed, sent, happen,
}
use nng_examples.Platform.Rules.{Always, Post, Always-assoc}
use nng_examples.Checked.{newline, check}
use nng_examples.Checked.Rules.{open-then, check-then}
use nng_examples.Bus.{positions}
use nng_examples.Performance.Report.{Doubles, seconds, per_second, line}
use nng_examples.Performance.Crew.{start_all, join_all}
use nng_examples.Performance.Crew.Rules.{start_all-then, join_all-then, waited_for}
use nng_examples.Performance.Surveys.{surveyed, surveyor-then}
use nng_examples.Performance.Survey.{set_options, surveyor, surveytime, measure, results}
use nng_examples.Performance.Survey

-- One measurement, of `n` responders: the main thread has sent a survey of `size` bytes `nreq` times,
-- each time received `n` responses, sent one byte more, and waited for all responders, which are the
-- threads that it started. What it owns then is left open.
abbrev pub Measured : ℕ → Bytes → ℕ → ℕ → ℕ → ℕ → View → View → Type 0
Measured s uri nreq size respsize n v u =
    (d : Bytes) × (bss : List (List Bytes)) × (f : ℕ → Option Bytes) × (length d ≡ size)
    × (length bss ≡ nreq)
    × All (λ bs. length bs ≡ n) bss
    × (let l = sent s (take 1 d) ∷ surveyed s d bss (slept 1 ∷ v.log) in
        let w = record v {
          body = f;
          started = v.started ++ replicate n (respondent_responder uri nreq respsize);
          joined = waited_for (positions (length v.started) n) v.joined;
        } in
        (u ≡ record w { log = l }) ⊎ (u ≡ record w { log = closed s ∷ l }))

pub crew_after :
    (s : ℕ) (uri : Bytes) (nreq size respsize n : ℕ) (v u : View)
    → Measured s uri nreq size respsize n v u
    → (u.started ≡ v.started ++ replicate n (respondent_responder uri nreq respsize))
      × (u.joined ≡ waited_for (positions (length v.started) n) v.joined)
crew_after s uri nreq size respsize n v u (d, bss, f, fits, all, each, inl e) =
    (ap (λ (x : View). x.started) e, ap (λ (x : View). x.joined) e)
crew_after s uri nreq size respsize n v u (d, bss, f, fits, all, each, inr e) =
    (ap (λ (x : View). x.started) e, ap (λ (x : View). x.joined) e)

module _ {ℓ} {A : Type ℓ} (t : Texts) (Q : Post A) (bad : (u : View) → Q (exits 1) u)
    (worse : (u : View) → Q (exits 134) u) where
  measure-then :
      (s : ℕ) (uri : Bytes) (nreq size respsize n : ℕ) (v : View) (k : ℕ × ℕ → Prog A)
      → nreq < 2 ^ 31
      → n < 2 ^ 31
      → 1 ≤ size
      → ((times : ℕ × ℕ) (u : View)
          → Measured s uri nreq size respsize n v u
          → Always t (k times) u Q)
      → Always t (measure s uri nreq size respsize n >>= k) v Q
  unfolding measure
  measure-then s uri nreq size respsize n v k few few' some_bytes h =
      let j = respondent_responder uri nreq respsize in
      let w = record v { started = v.started ++ replicate n j } in
      Always-assoc t (start_all n j) _ k v Q (
        start_all-then t Q n v j _ few' worse λ a u e begin u1 e1.
          rw (e1, e)
            (let w1 = happen (slept 1) w in
              Always-assoc t (surveyor s nreq size n) _ k w1 Q (
                surveyor-then t w1 Q s nreq size n _ bad worse few few' some_bytes
                  λ d bss f fits all each.
                    let w2 = record w1 {
                      log = sent s (take 1 d) ∷ surveyed s d bss w1.log;
                      body = f;
                    } in
                    Always-assoc t (join_all (positions (length v.started) n)) _ k w2 Q (
                      join_all-then t Q (positions (length v.started) n) w2 _ λ end u3 e3 a4 u4 e4.
                        elim (rw e3 at e4) [
                          | inl (ne, same) ↦
                              h (begin.value, end.value) u4 (d, bss, f, fits, all, each, inl same)
                          | inr (good, now) ↦
                              h (begin.value, end.value) u4 (d, bss, f, fits, all, each, inr now)
                        ]))))

  -- A checked option.
  option-then :
      (s : ℕ) (o : Setting) (doing : Bytes) (v : View) (k : Unit {0} → Prog A)
      → Always t (k tt) (happen (configured s o) v) Q
      → Always t (check (set_option s o) doing >>= k) v Q
  option-then s o doing v k h =
      check-then t v Q (λ u f. bad u) (set_option s o) doing k v (happen (configured s o) v) refl
        (λ a u e. e) h

  listen-then :
      (s : ℕ) (uri doing : Bytes) (v : View) (k : Unit {0} → Prog A)
      → Always t (k tt) (happen (listening s uri) v) Q
      → Always t (check (listen s uri) doing >>= k) v Q
  listen-then s uri doing v k h =
      check-then t v Q (λ u f. bad u) (listen s uri) doing k v (happen (listening s uri) v) refl
        (λ a u e. e) h

-- What one half of the report adds to the log.
abbrev pub resulted : (d : Doubles) → Bytes → ℕ × ℕ → ℕ → ℕ → List Event → List Event
resulted d title times nreq bytes l =
    let time = seconds d times.0 times.1 in
    printed stdout (
      text "Kb/sec       : "
      ++ d.shown (d.divide (d.of_size bytes) (d.times (d.of_size 1024) time))
      ++ newline)
    ∷ printed stdout (text "Surveys/sec  : " ++ d.shown (per_second d nreq time) ++ newline)
    ∷ printed stdout (text "Time         : " ++ d.shown time ++ newline)
    ∷ printed stdout (title ++ 10 ∷ [])
    ∷ l

results-then {ℓ} :
    {A : Type ℓ} (t : Texts) (Q : Post A) (v : View) (d : Doubles) (title : Bytes) (times : ℕ × ℕ)
    (nreq bytes : ℕ) (k : Unit {0} → Prog A)
    → Always t (k tt) (record v { log = resulted d title times nreq bytes v.log }) Q
    → Always t (results d title (seconds d times.0 times.1) nreq bytes >>= k) v Q
unfolding results line
results-then t Q v d title times nreq bytes k h a1 u1 e1 a2 u2 e2 a3 u3 e3 a4 u4 e4 =
    rw (e4, e3, e2, e1) h

-- The sockets of the two measurements when their surveys begin.
abbrev pub ready_big : ℕ → Bytes → View → View
ready_big s uri v =
    happen (configured s (surveyor_surveytime surveytime)) (
      happen (listening s uri)
        (happen (configured s (recvmaxsz 0)) (happen (opened surveyor0 s) v)))

abbrev pub ready_small : ℕ → Bytes → View → View
ready_small s uri v =
    happen (configured s (surveyor_surveytime surveytime))
      (happen (listening s uri) (happen (opened surveyor0 s) v))

-- Two measurements, one after the other: big surveys with responses of one byte, and surveys of one
-- byte with big responses; and then the report.
abbrev pub SurveyTimed : Doubles → Bytes → ℕ → ℕ → ℕ → View → View → Type 0
SurveyTimed d uri nreq size n v u =
    (s s2 : ℕ) × (v1 v2 : View) × (big small : ℕ × ℕ) × Measured s uri nreq size 1 n
      (ready_big s uri v) v1
    × Measured s2 uri nreq 1 size n (ready_small s2 uri v1) v2
    × (u ≡ record v2 {
      log =
          resulted d (text "Small survey, big response:") small nreq (nreq * n * size % 2 ^ 64)
            (resulted d (text "Big survey small response:") big nreq (nreq * size % 2 ^ 64) v2.log);
    })

pub survey_main-Timed :
    (t : Texts) (d : Doubles) (args : List Bytes) (uri a2 a3 a4 : Bytes) (nreq size n : ℕ)
    (v : View)
    → argv args 1 ≡ some uri
    → argv args 2 ≡ some a2
    → atoi_size a2 ≡ some nreq
    → argv args 3 ≡ some a3
    → atoi_size a3 ≡ some size
    → argv args 4 ≡ some a4
    → atoi_size a4 ≡ some n
    → nreq < 2 ^ 31
    → n < 2 ^ 31
    → 1 ≤ size
    → Always t (Survey.main d args) v (λ o u. o ≡ exits 0 → SurveyTimed d uri nreq size n v u)
unfolding Survey.main set_options
survey_main-Timed t d args uri a2 a3 a4 nreq size n v e1 e2 is_nreq e3 is_size e4 is_n few few'
      some_bytes =
    let Q : Post Bool = λ o u. o ≡ exits 0 → SurveyTimed d uri nreq size n v u in
    let bad : (u : View) → Q (exits 1) u = λ u z. cc in
    let worse : (u : View) → Q (exits 134) u = λ u z. cc in
    rw (e1, e2, is_nreq, e3, is_size, e4, is_n)
      (open-then t v Q (λ u f. bad u) surveyor0 _ _
        λ s. option-then t Q bad worse s (recvmaxsz 0) _ _ _ (
          listen-then t Q bad worse s uri _ _ _ (
            option-then t Q bad worse s (surveyor_surveytime surveytime) _ _ _ (
              measure-then t Q bad worse s uri nreq size 1 n (ready_big s uri v) _ few few'
                some_bytes
                λ big v1 first.
                  open-then t v1 Q (λ u f. bad u) surveyor0 _ _
                    λ s2. listen-then t Q bad worse s2 uri _ _ _ (
                      option-then t Q bad worse s2 (surveyor_surveytime surveytime) _ _ _ (
                        measure-then t Q bad worse s2 uri nreq 1 size n (ready_small s2 uri v1) _
                          few few' (omega arith)
                          λ small v2 second.
                            results-then t Q v2 d (text "Big survey small response:") big nreq
                              (nreq * size % 2 ^ 64) _
                              (results-then t Q _ d (text "Small survey, big response:") small nreq
                                (nreq * n * size % 2 ^ 64) _
                                (λ z. (s, s2, v1, v2, big, small, first, second, refl)))))))))
