-- ===== src/Performance/Requested.antt =====
-- What the main thread of performance/reqrep.cpp has done when the program ends with success, and what
-- its threads have.
use nng_examples.Prelude.{
  ℕ, ◌*◌, ◌%◌, ◌<◌, ◌≡◌, ◌⊎◌, ◌^◌, refl, ap, List, [], ◌∷◌, ◌++◌, length, some, inl, inr, Bool,
}
use nng_examples.Bytes.{Bytes, text}
use nng_examples.Bytes.Strtol.{atol_size}
use nng_examples.Platform.{
  open_socket, rep_replier, req0, Prog, exits, exit, argv, dial, stdout, ◌>>=◌,
}
use nng_examples.Platform.Documented.{
  Texts, View, Event, opened, dialed, closed, slept, printed, happen,
}
use nng_examples.Platform.Rules.{Always, Post, Always-assoc}
use nng_examples.Checked.{newline, check, checked}
use nng_examples.Performance.Crew.{start_job}
use nng_examples.Checked.Rules.{open-then, check-then}
use nng_examples.Performance.Report.{Doubles, seconds, per_second, line}
use nng_examples.Performance.Crew.Rules.{start_job-then, waited_for}
use nng_examples.Performance.Exchanges.{exchanges, requestor-then}
use nng_examples.Performance.Reqrep.{requestor, measure, results}
use nng_examples.Performance.Reqrep
use nng_examples.Performance.Process.{Hosts}
use nng_examples.Performance.Goals.{Returned}
use nng_examples.Performance.Ended.{Begins, reached, main_done, member_done, joined_done}

-- One measurement: the main thread has sent a request of `reqsize` bytes `nmsg` times, each time
-- received an answer, and waited for the replier, which is the thread that it started.
abbrev pub Measured : Bytes → ℕ → ℕ → ℕ → View → View → Type 0
Measured uri nmsg reqsize repsize v u =
    (s : ℕ) × (d : Bytes) × (bs : List Bytes) × (length d ≡ reqsize)
    × (length bs ≡ nmsg)
    × (let l = exchanges s d bs (dialed s uri ∷ opened req0 s ∷ slept 1 ∷ v.log) in
        let w = record v {
          started = v.started ++ rep_replier uri nmsg repsize ∷ [];
          joined = length v.started ∷ v.joined;
        } in
        (u ≡ record w { log = l }) ⊎ (u ≡ record w { log = closed s ∷ l }))

crew_after :
    (uri : Bytes) (nmsg reqsize repsize : ℕ) (v u : View)
    → Measured uri nmsg reqsize repsize v u
    → (u.started ≡ v.started ++ rep_replier uri nmsg repsize ∷ [])
      × (u.joined ≡ length v.started ∷ v.joined)
crew_after uri nmsg reqsize repsize v u (s, d, bs, fits, all, inl e) =
    (ap (λ (x : View). x.started) e, ap (λ (x : View). x.joined) e)
crew_after uri nmsg reqsize repsize v u (s, d, bs, fits, all, inr e) =
    (ap (λ (x : View). x.started) e, ap (λ (x : View). x.joined) e)

module _ {ℓ} {A : Type ℓ} (t : Texts) (Q : Post A) (bad : (u : View) → Q (exits 1) u)
    (worse : (u : View) → Q (exits 134) u) where
  measure-then :
      (uri : Bytes) (nmsg reqsize repsize : ℕ) (v : View) (k : ℕ × ℕ → Prog A)
      → nmsg < 2 ^ 31
      → ((times : ℕ × ℕ) (u : View)
          → Measured uri nmsg reqsize repsize v u
          → Always t (k times) u Q)
      → Always t (measure uri nmsg reqsize repsize >>= k) v Q
  unfolding measure
  measure-then uri nmsg reqsize repsize v k few h =
      let w = record v { started = v.started ++ rep_replier uri nmsg repsize ∷ [] } in
      Always-assoc t (start_job (rep_replier uri nmsg repsize)) _ k v Q (
        start_job-then t Q v (rep_replier uri nmsg repsize) _ worse λ a u e. rw e (
          let w1 = happen (slept 1) w in
          Always-assoc t (checked (open_socket req0) _) _ k w1 Q (
            open-then t w1 Q (λ u f. bad u) req0 _ _
              λ s.
                let w2 = happen (opened req0 s) w1 in
                let w3 = happen (dialed s uri) w2 in
                Always-assoc t (check (dial s uri) _) _ k w2 Q (
                  check-then t w2 Q (λ u f. bad u) (dial s uri) _ _ w2 w3 refl (λ a u e. e)
                    λ begin u4 e4. rw e4 (
                      Always-assoc t (requestor s nmsg reqsize) _ k w3 Q (
                        requestor-then t w3 Q bad s nmsg reqsize _ few (worse _)
                          λ d bs fits all end u5 e5 a6 u6 e6 a7 u7 e7. elim (rw (e6, e5) at e7) [
                            | inl (ne, same) ↦
                                h (begin.value, end.value) u7 (s, d, bs, fits, all, inl same)
                            | inr (good, now) ↦
                                h (begin.value, end.value) u7 (s, d, bs, fits, all, inr now)
                          ]))))))

-- What one half of the report adds to the log.
abbrev pub resulted : (d : Doubles) → Bytes → ℕ × ℕ → ℕ → ℕ → List Event → List Event
resulted d title times nmsg bytes l =
    let time = seconds d times.0 times.1 in
    printed stdout (
      text "Req KB/sec :  "
      ++ d.shown (d.divide (per_second d bytes time) (d.of_size 1024))
      ++ newline)
    ∷ printed stdout (text "msgs/sec   :  " ++ d.shown (per_second d nmsg time) ++ newline)
    ∷ printed stdout (text "Elapsed sec:  " ++ d.shown time ++ newline)
    ∷ printed stdout (title ++ 10 ∷ [])
    ∷ l

results-then {ℓ} :
    {A : Type ℓ} (t : Texts) (Q : Post A) (v : View) (d : Doubles) (title : Bytes) (times : ℕ × ℕ)
    (nmsg bytes : ℕ) (k : Unit {0} → Prog A)
    → Always t (k tt) (record v { log = resulted d title times nmsg bytes v.log }) Q
    → Always t (results d title times nmsg bytes >>= k) v Q
unfolding results line
results-then t Q v d title times nmsg bytes k h a1 u1 e1 a2 u2 e2 a3 u3 e3 a4 u4 e4 =
    rw (e4, e3, e2, e1) h

-- Two measurements, one after the other: big requests with replies of one byte, and requests of one
-- byte with big replies; and then the report.
abbrev pub ReqTimed : Doubles → Bytes → ℕ → ℕ → View → View → Type 0
ReqTimed d uri nmsg size v u =
    (v1 v2 : View) × (small big : ℕ × ℕ) × Measured uri nmsg size 1 v v1
    × Measured uri nmsg 1 size v1 v2
    × (u ≡ record v2 {
      log =
          resulted d (text "Large reply timings") big nmsg (nmsg * size % 2 ^ 64)
            (resulted d (text "Large request timings") small nmsg (nmsg * size % 2 ^ 64) v2.log);
    })

req_main-Timed :
    (t : Texts) (d : Doubles) (args : List Bytes) (uri a2 a3 : Bytes) (nmsg size : ℕ) (v : View)
    → argv args 1 ≡ some uri
    → argv args 2 ≡ some a2
    → atol_size a2 ≡ some nmsg
    → argv args 3 ≡ some a3
    → atol_size a3 ≡ some size
    → nmsg < 2 ^ 31
    → Always t (Reqrep.main d args) v (λ o u. o ≡ exits 0 → ReqTimed d uri nmsg size v u)
unfolding Reqrep.main
req_main-Timed t d args uri a2 a3 nmsg size v e1 e2 is_nmsg e3 is_size few =
    let Q : Post Bool = λ o u. o ≡ exits 0 → ReqTimed d uri nmsg size v u in
    rw (e1, e2, is_nmsg, e3, is_size)
      (measure-then t Q (λ u z. cc) (λ u z. cc) uri nmsg size 1 v _ few
        λ small v1 first.
          measure-then t Q (λ u z. cc) (λ u z. cc) uri nmsg 1 size v1 _ few
            λ big v2 second.
              results-then t Q v2 d (text "Large request timings") small nmsg (nmsg * size % 2 ^ 64)
                _
                (results-then t Q _ d (text "Large reply timings") big nmsg (nmsg * size % 2 ^ 64) _
                  (λ z. (v1, v2, small, big, first, second, refl))))

-- Whatever nng does within its documentation and in whatever order the threads run: when the program
-- ends with success, the main thread has sent requests of `size` bytes, and then requests of one byte,
-- `nmsg` of each and each answered before the next, and the two threads that it started, one after the
-- other, have answered `nmsg` requests each, the first by replies of one byte, the second of `size`
-- bytes, and returned. (If an int can count the requests.)
pub req_run_complete :
    {t : Texts} (h : Hosts t) (formatted : Bytes → ℕ → Bytes) (fuel : ℕ) (idle : View) (w : h.World)
    (d : Doubles) (args : List Bytes) (uri a2 a3 : Bytes) (nmsg size : ℕ) (is : List ℕ)
    → Begins h idle w
    → argv args 1 ≡ some uri
    → argv args 2 ≡ some a2
    → atol_size a2 ≡ some nmsg
    → argv args 3 ≡ some a3
    → atol_size a3 ≡ some size
    → nmsg < 2 ^ 31
    → (reached h formatted fuel w (Reqrep.main d args) is).main ≡ exit 0
    → ReqTimed d uri nmsg size
        (h.view w 0)
        (h.view (reached h formatted fuel w (Reqrep.main d args) is).world 0)
      × Returned formatted
          (rep_replier uri nmsg 1)
          idle
          (h.view (reached h formatted fuel w (Reqrep.main d args) is).world 1)
      × Returned formatted
          (rep_replier uri nmsg size)
          idle
          (h.view (reached h formatted fuel w (Reqrep.main d args) is).world 2)
req_run_complete {t} h formatted fuel idle w d args uri a2 a3 nmsg size is begins e1 e2 is_nmsg e3
      is_size few success =
    let code = Reqrep.main d args in
    let bound =
      req_main-Timed t d args uri a2 a3 nmsg size (h.view w 0) e1 e2 is_nmsg e3 is_size few in
    let (v1, v2, small, big, first, second, last) =
      main_done h formatted fuel idle w begins code _ bound is success in
    let (started1, joined1) = crew_after uri nmsg size 1 (h.view w 0) v1 first in
    let (started2, joined2) = crew_after uri nmsg 1 size v1 v2 second in
    let both : (h.view (reached h formatted fuel w code is).world 0).started
        ≡ rep_replier uri nmsg 1 ∷ rep_replier uri nmsg size ∷ [] =
      rw (last, started2, started1, begins.none_started) refl in
    let waited : (h.view (reached h formatted fuel w code is).world 0).joined
        ≡ waited_for (0 ∷ 1 ∷ []) [] =
      rw (last, joined2, started1, joined1, begins.none_started, begins.none_joined) refl in
    let ended =
      (joined_done h formatted fuel idle w begins code _ bound is success (0 ∷ 1 ∷ []) []
        waited).0 in
    (
      (v1, v2, small, big, first, second, last),
      member_done h formatted fuel idle w begins code _ bound is success 0 (rep_replier uri nmsg 1)
          few (rw both refl) ended.0,
      member_done h formatted fuel idle w begins code _ bound is success 1
          (rep_replier uri nmsg size) few (rw both refl) ended.1.0,
    )
