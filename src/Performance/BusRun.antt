-- ===== src/Performance/BusRun.antt =====
-- Whole runs of performance/bus.cpp: main thread and the other members, in any order.
use nng_examples.Prelude.{
  ℕ, zero, suc, ◌+◌, ◌-◌, ◌<◌, ◌≡◌, refl, ap, ◌∙◌, List, [], ◌∷◌, ◌++◌, length, some, get_elem?,
  arith,
}
use nng_examples.Bytes.{Bytes}
use nng_examples.Bytes.Strtol.{atoi_size}
use nng_examples.Platform.{bus_receiver, exit, argv}
use nng_examples.Platform.Documented.{Texts, View}
use nng_examples.Bus.{positions}
use nng_examples.Performance.Report.{Doubles}
use nng_examples.Performance.Crew.Rules.{waited_for, All-positions}
use nng_examples.Performance.Process.{Hosts}
use nng_examples.Performance.Goals.{Returned}
use nng_examples.Performance.Ended.{Begins, reached, main_done, member_done, joined_done}
use nng_examples.Performance.Spray.{members}
use nng_examples.Performance.Sprayed.{BusTimed, bus_main-Timed}
use nng_examples.Performance.Bus.{construct_endpoints}
use nng_examples.Performance.Bus

pub length-positions : (a n : ℕ) → length (positions a n) ≡ n
length-positions a zero = refl
length-positions a (suc n) = ap suc (length-positions (suc a) n)

-- The i-th of the threads is member i + 1, with a promise of its own.
members_at :
    (base : Bytes) (size nmsg a n i : ℕ) (ps : List ℕ)
    → i < n
    → length ps ≡ n
    → (p : ℕ) × (get_elem? ps i ≡ some p)
      × (get_elem? (members base size nmsg (positions a n) ps) i
          ≡ some (bus_receiver base size (a + i) nmsg p))
members_at base size nmsg a zero i ps lt all = absurd (omega arith)
members_at base size nmsg a (suc n) i [] lt all = absurd (omega arith)
members_at base size nmsg a (suc n) zero (p ∷ ps) lt all =
    let e : a + 0 ≡ a = omega arith in (p, refl, rw e refl)
members_at base size nmsg a (suc n) (suc i) (p ∷ ps) lt all =
    let e : suc a + i ≡ a + suc i = omega arith in
    rw e at (members_at base size nmsg (suc a) n i ps (omega arith) (omega arith))

-- Whatever nng does within its documentation and in whatever order the threads run: when the program
-- ends with success, the main thread has joined the bus as member 0, sent messages numbered from 0 on,
-- below 2^31, and then the word 0xffffffff, and waited for all other members; and each of them, which are
-- the threads that it started, has listened on the address of its own position, dialed the addresses of
-- the positions that `targets` gives, in their order, received messages up to the first number that is
-- at least `nmsg`, set its promise to it as an int, received messages up to one that starts with
-- 0xffffffff, closed its socket and returned. (Loops are followed for `fuel` rounds.)
pub bus_run_complete :
    {t : Texts} (h : Hosts t) (formatted : Bytes → ℕ → Bytes) (fuel : ℕ) (idle : View) (w : h.World)
    (d : Doubles) (args : List Bytes) (base a2 a3 a4 : Bytes) (nmsg size n : ℕ) (us : List Bytes)
    (is : List ℕ)
    → Begins h idle w
    → argv args 1 ≡ some base
    → argv args 2 ≡ some a2
    → atoi_size a2 ≡ some nmsg
    → argv args 3 ≡ some a3
    → atoi_size a3 ≡ some size
    → argv args 4 ≡ some a4
    → atoi_size a4 ≡ some n
    → construct_endpoints formatted base n ≡ some us
    → (reached h formatted fuel w (Bus.main formatted d fuel args) is).main ≡ exit 0
    → BusTimed d base us nmsg size n
        (h.view w 0)
        (h.view (reached h formatted fuel w (Bus.main formatted d fuel args) is).world 0)
      × ((i : ℕ)
          → suc i < n
          → (p : ℕ) × Returned formatted (bus_receiver base n (suc i) nmsg p) idle (
              h.view
                (reached h formatted fuel w (Bus.main formatted d fuel args) is).world
                (suc i)))
bus_run_complete {t} h formatted fuel idle w d args base a2 a3 a4 nmsg size n us is begins e1 e2
      is_nmsg e3 is_size e4 is_n are success =
    let code = Bus.main formatted d fuel args in
    let bound =
      bus_main-Timed t formatted d fuel args base a2 a3 a4 nmsg size n us (h.view w 0) e1 e2 is_nmsg
        e3 is_size e4 is_n are in
    let timed = main_done h formatted fuel idle w begins code _ bound is success in
    let (s, seq, begin, end, mine, rest, aims, xs, ps, below, at_me, aim, dialed_xs, all, last) =
      timed in
    let m = n - 1 in
    let many = length-positions 1 m in
    let crew : (h.view (reached h formatted fuel w code is).world 0).started
        ≡ members base n nmsg (positions 1 m) ps =
      ap (λ (x : View). x.started) last
      ∙ ap (λ js. js ++ members base n nmsg (positions 1 m) ps) begins.none_started in
    let waited : (h.view (reached h formatted fuel w code is).world 0).joined
        ≡ waited_for (positions 0 m) [] =
      ap (λ (x : View). x.joined) last ∙ rw (many, begins.none_started, begins.none_joined) refl in
    let ended =
      (joined_done h formatted fuel idle w begins code _ bound is success (positions 0 m) []
        waited).0 in
    (
      timed,
      λ i lt.
          let here : 0 + i ≡ i = omega arith in
          let next : 1 + i ≡ suc i = omega arith in
          let (p, at_p, at_i) = members_at base n nmsg 1 m i ps (omega arith) (all ∙ many) in
          (
            p,
            member_done h formatted fuel idle w begins code _ bound is success i
                (bus_receiver base n (suc i) nmsg p) tt
                (ap (λ js. get_elem? js i) crew ∙ (rw next at at_i))
                (rw here at (All-positions _ 0 m i ended (omega arith))),
          ),
    )
