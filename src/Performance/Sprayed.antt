-- ===== src/Performance/Sprayed.antt =====
-- What the main thread of performance/bus.cpp has done when the program ends with success.
use nng_examples.Prelude.{
  ℕ, ◌+◌, ◌-◌, ◌*◌, ◌%◌, ◌≡◌, ◌^◌, refl, List, [], ◌∷◌, ◌++◌, length, drop, map, get_elem?, some,
  none, arith, Bool, ◌<◌,
}
use nng_examples.Bytes.{Bytes, text}
use nng_examples.Bytes.Decimal.{decimal}
use nng_examples.Bytes.Strtol.{atoi_size}
use nng_examples.Platform.{bus0, exit, exits, faults, argv, stderr, close_socket, send_bytes, ◌>>◌}
use nng_examples.Platform.Documented.{
  Texts, View, Event, opened, closed, slept, printed, sent, happen, word, update_self,
}
use nng_examples.Platform.Rules.{Always, Post}
use nng_examples.Checked.Rules.{open-then, check-then}
use nng_examples.Bus.{positions, targets}
use nng_examples.Performance.Report.{Doubles, report}
use nng_examples.Performance.Crew.Rules.{join_all-then, report-then, reported, waited_for}
use nng_examples.Performance.Sends.{owning, new_bytes-then, delete_array-then}
use nng_examples.Performance.BusSetup.{setup_bus-then, joining}
use nng_examples.Performance.Spray.{
  members, numbered, start_receivers-then, spray-then, put_word-then, get_all-then,
}
use nng_examples.Performance.Bus.{construct_endpoints, finish}
use nng_examples.Performance.Bus

-- The events after the last numbered message, with `count` members told to end.
abbrev pub finishing : Doubles → ℕ → ℕ → ℕ → ℕ → ℕ → ℕ → List Event → List Event
finishing d s count seq size begin end l = reported d seq (seq * size % 2 ^ 64) begin end (
    closed s
    ∷ printed stderr (text "Joined" ++ 10 ∷ [])
    ∷ printed stderr (text "Joining threads" ++ 10 ∷ [])
    ∷ sent s (word 0xffffffff)
    ∷ printed stderr (text "Sending the terminate  msg" ++ 10 ∷ [])
    ∷ slept 2
    ∷ printed stderr (decimal count ++ text " timing done" ++ 10 ∷ [])
    ∷ l)

module _ (t : Texts) (Q : Post Bool) (bad : (u : View) → Q (exits 1) u)
    (worse : (u : View) → Q (exits 134) u) (worst : (u : View) → Q faults u) where
  finish-then :
      (d : Doubles) (v : View) (s p size : ℕ) (ps threads : List ℕ) (seq begin : ℕ) (c : Bytes)
      (l : List Event)
      → v.body p ≡ none
      → length c ≡ size
      → ((end : ℕ)
          → Q (exits 0) (record v {
            log = finishing d s (length ps) seq size begin end l;
            joined = waited_for threads v.joined;
          }))
      → Always t (finish d s p size ps threads seq begin) (owning p c l v) Q
  unfolding finish
  finish-then d v s p size ps threads seq begin c l unowned fits h end u1 e1 a2 u2 e2 =
      let l2 = printed stderr (decimal (length ps) ++ text " timing done" ++ 10 ∷ []) ∷ l in
      rw (e2, e1)
        (get_all-then t Q bad worse worst ps (owning p c l2 v) _ λ a3 u3 e3 a4 u4 e4.
          rw (e4, e3)
            (let l4 =
                printed stderr (text "Sending the terminate  msg" ++ 10 ∷ []) ∷ slept 2 ∷ l2 in
              put_word-then t Q bad worse worst v s p size 0xffffffff c l4 _ fits λ room.
                let b = word 0xffffffff ++ drop 4 c in
                let w = owning p b l4 v in
                check-then t w Q (λ u f. bad u) (send_bytes s p 4) _ _ w
                  (happen (sent s (word 0xffffffff)) w) refl
                  (λ a u e. e b (update_self v.body p (some b)) (omega arith))
                  λ a5 u5 e5. rw e5 (
                    let w5 =
                      happen (printed stderr (text "Joining threads" ++ 10 ∷ []))
                        (happen (sent s (word 0xffffffff)) w) in
                    join_all-then t Q threads w5 _ λ a6 u6 e6. rw e6 (
                      let w6 =
                        happen (printed stderr (text "Joined" ++ 10 ∷ []))
                          (record w5 { joined = waited_for threads v.joined }) in
                      check-then t w6 Q (λ u f. bad u) (close_socket s) _ _ w6
                        (happen (closed s) w6) refl (λ a u e. e)
                        (let v7 = record v { joined = waited_for threads v.joined } in
                          delete_array-then t v7 Q p (closed s ∷ w6.log)
                            (λ _. report d seq (seq * size % 2 ^ 64) begin end.value >> exit 0) b
                            unowned
                            (report-then t Q (record v7 { log = closed s ∷ w6.log }) d seq
                              (seq * size % 2 ^ 64) begin end.value (λ _. exit 0)
                              (h end.value)))))))

-- The main thread has joined the bus as member 0, started the other members with promises of their
-- own, sent `seq` messages of the given size, numbered from 0 on, below 2^31, and then the word that
-- ends the bus, and waited for all other members.
abbrev pub BusTimed : Doubles → Bytes → List Bytes → ℕ → ℕ → ℕ → View → View → Type 0
BusTimed d base us nmsg size n v u =
    (s seq begin end : ℕ) × (mine rest : Bytes) × (aims : List ℕ) × (xs : List Bytes) × (ps : List
      ℕ)
    × (seq < 2 ^ 31)
    × (get_elem? us 0 ≡ some mine)
    × (targets (length us) 0 ≡ some aims)
    × (map (get_elem? us) aims ≡ map some xs)
    × (length ps ≡ length (positions 1 (n - 1)))
    × (u ≡ record v {
      log =
          finishing d s (length ps) seq size begin end
            (numbered s rest seq 0 (joining s mine xs (opened bus0 s ∷ v.log)));
      started = v.started ++ members base n nmsg (positions 1 (n - 1)) ps;
      joined = waited_for (positions (length v.started) (length (positions 1 (n - 1)))) v.joined;
    })

pub bus_main-Timed :
    (t : Texts) (formatted : Bytes → ℕ → Bytes) (d : Doubles) (fuel : ℕ) (args : List Bytes)
    (base a2 a3 a4 : Bytes) (nmsg size n : ℕ) (us : List Bytes) (v : View)
    → argv args 1 ≡ some base
    → argv args 2 ≡ some a2
    → atoi_size a2 ≡ some nmsg
    → argv args 3 ≡ some a3
    → atoi_size a3 ≡ some size
    → argv args 4 ≡ some a4
    → atoi_size a4 ≡ some n
    → construct_endpoints formatted base n ≡ some us
    → Always t
        (Bus.main formatted d fuel args)
        v
        (λ o u. o ≡ exits 0 → BusTimed d base us nmsg size n v u)
unfolding Bus.main
bus_main-Timed t formatted d fuel args base a2 a3 a4 nmsg size n us v e1 e2 is_nmsg e3 is_size e4
      is_n are =
    let Q : Post Bool = λ o u. o ≡ exits 0 → BusTimed d base us nmsg size n v u in
    let bad : (u : View) → Q (exits 1) u = λ u z. cc in
    let worse : (u : View) → Q (exits 134) u = λ u z. cc in
    let worst : (u : View) → Q faults u = λ u z. cc in
    let is = positions 1 (n - 1) in
    rw (e1, e2, is_nmsg, e3, is_size, e4, is_n, are)
      (open-then t v Q (λ u f. bad u) bus0 _ _
        λ s.
          start_receivers-then t Q bad worse worst base n nmsg is (happen (opened bus0 s) v) _
            λ ps all.
              let w = record v {
                log = opened bus0 s ∷ v.log;
                started = v.started ++ members base n nmsg is ps;
              } in
              setup_bus-then t us 0 s w Q _ bad worst λ mine aims xs at_me aim dialed_xs.
                let w1 = record w { log = joining s mine xs w.log } in
                new_bytes-then t w1 Q size _ (worse w1) λ p c fits unowned begin u1 f1. rw f1 (
                  spray-then t Q bad worse worst w1 s p size ps _ (drop 4 c) (λ u z. cc) fuel 0 0 c
                    w1.log fits refl (omega arith)
                    λ seq b fits_b few.
                      let none_before : 0 + seq ≡ seq = omega arith in
                      rw none_before (
                        finish-then t Q bad worse worst d w1 s p size ps
                          (positions (length v.started) (length is)) seq begin.value b
                          (numbered s (drop 4 c) seq 0 w1.log) unowned fits_b
                          λ end z. (
                            s,
                            seq,
                            begin.value,
                            end,
                            mine,
                            drop 4 c,
                            aims,
                            xs,
                            ps,
                            rw none_before at few,
                            at_me,
                            aim,
                            dialed_xs,
                            all,
                            refl,
                          ))))
