-- ===== src/Performance/SurveyRun.antt =====
-- Whole runs of performance/survey.cpp: main thread and responders, in any order.
use nng_examples.Prelude.{
  ℕ, zero, suc, ◌+◌, ◌<◌, ◌≤◌, ◌≡◌, ◌^◌, refl, ap, ◌∙◌, List, [], ◌++◌, length, replicate, some,
  get_elem?, arith,
}
use nng_examples.Bytes.{Bytes}
use nng_examples.Bytes.Strtol.{atoi_size}
use nng_examples.Platform.{Job, respondent_responder, exit, argv}
use nng_examples.Platform.Documented.{Texts, View}
use nng_examples.Bus.{positions}
use nng_examples.Performance.Report.{Doubles}
use nng_examples.Performance.Crew.Rules.{waited_for, All-positions, All-waited_for}
use nng_examples.Performance.Process.{Hosts}
use nng_examples.Performance.Goals.{Returned}
use nng_examples.Performance.Ended.{
  Begins, reached, main_done, member_done, joined_done, get_elem?-replicate,
}
use nng_examples.Performance.Surveyed.{
  SurveyTimed, survey_main-Timed, crew_after, ready_big, ready_small,
}
use nng_examples.Performance.Survey

get_elem?-second :
    (n i : ℕ) (j : Job) (js : List Job) → get_elem? (replicate n j ++ js) (n + i) ≡ get_elem? js i
get_elem?-second zero i j js = let e : 0 + i ≡ i = omega arith in ap (get_elem? js) e
get_elem?-second (suc n) i j js =
    let e : suc n + i ≡ suc (n + i) = omega arith in
    ap (get_elem? (replicate (suc n) j ++ js)) e ∙ get_elem?-second n i j js

get_elem?-first :
    (n i : ℕ) (j : Job) (js : List Job) → i < n → get_elem? (replicate n j ++ js) i ≡ some j
get_elem?-first zero i j js lt = absurd (omega arith)
get_elem?-first (suc n) zero j js lt = refl
get_elem?-first (suc n) (suc i) j js lt = get_elem?-first n i j js (omega arith)

length-replicate : (n : ℕ) (j : Job) → length (replicate n j) ≡ n
length-replicate zero j = refl
length-replicate (suc n) j = ap suc (length-replicate n j)

-- Whatever nng does within its documentation and in whatever order the threads run: when the program
-- ends with success, the main thread has made `nreq` surveys of `size` bytes and then `nreq` of one
-- byte, each with a response for every responder, and one byte more after either; and each of the `n`
-- responders of the first half has answered `nreq` surveys by one byte, each of the `n` of the second
-- half by `size` bytes, has received one survey more, and returned. (If ints can count the surveys and
-- the responders, and a big survey has a byte or more.)
pub survey_run_complete :
    {t : Texts} (h : Hosts t) (formatted : Bytes → ℕ → Bytes) (fuel : ℕ) (idle : View) (w : h.World)
    (d : Doubles) (args : List Bytes) (uri a2 a3 a4 : Bytes) (nreq size n : ℕ) (is : List ℕ)
    → Begins h idle w
    → argv args 1 ≡ some uri
    → argv args 2 ≡ some a2
    → atoi_size a2 ≡ some nreq
    → argv args 3 ≡ some a3
    → atoi_size a3 ≡ some size
    → argv args 4 ≡ some a4
    → atoi_size a4 ≡ some n
    → nreq < 2 ^ 31
    → n < 2 ^ 31
    → 1 ≤ size
    → (reached h formatted fuel w (Survey.main d args) is).main ≡ exit 0
    → SurveyTimed d uri nreq size n
        (h.view w 0)
        (h.view (reached h formatted fuel w (Survey.main d args) is).world 0)
      × ((i : ℕ)
          → i < n
          → Returned formatted
              (respondent_responder uri nreq 1)
              idle
              (h.view (reached h formatted fuel w (Survey.main d args) is).world (suc i))
            × Returned formatted
                (respondent_responder uri nreq size)
                idle
                (h.view (reached h formatted fuel w (Survey.main d args) is).world (suc (n + i))))
survey_run_complete {t} h formatted fuel idle w d args uri a2 a3 a4 nreq size n is begins e1 e2
      is_nreq e3 is_size e4 is_n few few' some_bytes success =
    let code = Survey.main d args in
    let bound =
      survey_main-Timed t d args uri a2 a3 a4 nreq size n (h.view w 0) e1 e2 is_nreq e3 is_size e4
        is_n few few' some_bytes in
    let (s, s2, v1, v2, big, small, first, second, last) =
      main_done h formatted fuel idle w begins code _ bound is success in
    let j1 = respondent_responder uri nreq 1 in
    let j2 = respondent_responder uri nreq size in
    let (started1, joined1) =
      crew_after s uri nreq size 1 n (ready_big s uri (h.view w 0)) v1 first in
    let (started2, joined2) = crew_after s2 uri nreq 1 size n (ready_small s2 uri v1) v2 second in
    let after1 : v1.started ≡ replicate n j1 = started1 ∙ rw begins.none_started refl in
    let both : (h.view (reached h formatted fuel w code is).world 0).started
        ≡ replicate n j1 ++ replicate n j2 =
      ap (λ (x : View). x.started) last ∙ started2 ∙ ap (λ js. js ++ replicate n j2) after1 in
    let many : length v1.started ≡ n = ap length after1 ∙ length-replicate n j1 in
    let waited1 : v1.joined ≡ waited_for (positions 0 n) [] =
      joined1 ∙ rw (begins.none_started, begins.none_joined) refl in
    let waited : (h.view (reached h formatted fuel w code is).world 0).joined
        ≡ waited_for (positions n n) (waited_for (positions 0 n) []) =
      ap (λ (x : View). x.joined) last
      ∙ joined2
      ∙ ap (λ m. waited_for (positions m n) v1.joined) many
      ∙ ap (waited_for (positions n n)) waited1 in
    let (ended2, rest) =
      joined_done h formatted fuel idle w begins code _ bound is success (positions n n)
        (waited_for (positions 0 n) []) waited in
    let ended1 = (All-waited_for _ (positions 0 n) [] rest).0 in
    (
      (s, s2, v1, v2, big, small, first, second, last),
      λ i lt.
          let here : 0 + i ≡ i = omega arith in
          (
            member_done h formatted fuel idle w begins code _ bound is success i j1 few
                (ap (λ js. get_elem? js i) both ∙ get_elem?-first n i j1 (replicate n j2) lt)
                (rw here at (All-positions _ 0 n i ended1 lt)),
            member_done h formatted fuel idle w begins code _ bound is success (n + i) j2 few
                (ap (λ js. get_elem? js (n + i)) both
                  ∙ get_elem?-second n i j1 (replicate n j2)
                  ∙ get_elem?-replicate n i j2 lt)
                (All-positions _ n n i ended2 lt),
          ),
    )
