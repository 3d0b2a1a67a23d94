-- ===== src/Performance/Timed.antt =====
-- What the main threads of performance/pair.cpp, pushpull.cpp and pubsub.cpp have done when the program
-- ends with success.
use nng_examples.Performance.Pubsub
use nng_examples.Performance.Pushpull
use nng_examples.Platform.{
  push0, pub0, pull_puller, sub_subscriber, listen, close_socket, pair_receiver, exits, pair0, dial,
  stdout, argv,
}
use nng_examples.Bus.{positions}
use nng_examples.Performance.Crew.Rules.{
  waited_for, start_all-then, join_all-then, start_job-then, report-then, reported,
}
use nng_examples.Prelude.{
  suc, ◌⊎◌, ◌≤◌, replicate, inl, inr, ℕ, ◌+◌, ◌*◌, ◌%◌, ◌<◌, ◌≡◌, ◌^◌, refl, List, [], ◌∷◌, ◌++◌,
  length, some, Bool,
}
use nng_examples.Bytes.Strtol.{atoi_size, atol_size}
use nng_examples.Platform.Documented.{
  closed, listening, Texts, View, opened, dialed, printed, slept, happen,
}
use nng_examples.Performance.Senders.{pusher-then, publisher-then, pushed, published, sender-then}
use nng_examples.Bytes.{Bytes, text}
use nng_examples.Platform.Rules.{Always, Post}
use nng_examples.Checked.Rules.{open-then, check-then}
use nng_examples.Performance.Report.{Doubles}
use nng_examples.Performance.Sends.{repeated}
use nng_examples.Performance.Pair
use nng_examples.Performance.Pair.{sender}

-- The main thread has sent one message `nmsg` times and then waited for the receiver, which is the
-- thread that it started.
abbrev pub PairTimed : Doubles → Bytes → ℕ → ℕ → View → View → Type 0
PairTimed d uri nmsg size v u =
    (s b e : ℕ) × (msg : Bytes) × (length msg ≡ size)
    × (u ≡ record v {
      log = reported d nmsg (nmsg * size % 2 ^ 64) b e (
          repeated s nmsg msg (
            printed stdout (text "Let's go" ++ 10 ∷ [])
            ∷ printed stdout (text "Hit enter to start timing: ")
            ∷ dialed s uri
            ∷ opened pair0 s
            ∷ slept 1
            ∷ v.log));
      started = v.started ++ pair_receiver uri nmsg ∷ [];
      joined = length v.started ∷ v.joined;
    })

pub pair_main-Timed :
    (t : Texts) (d : Doubles) (args : List Bytes) (uri a2 a3 : Bytes) (nmsg size : ℕ) (v : View)
    → argv args 1 ≡ some uri
    → argv args 2 ≡ some a2
    → atol_size a2 ≡ some nmsg
    → argv args 3 ≡ some a3
    → atol_size a3 ≡ some size
    → nmsg < 2 ^ 31
    → Always t (Pair.main d args) v (λ o u. o ≡ exits 0 → PairTimed d uri nmsg size v u)
unfolding Pair.main
pair_main-Timed t d args uri a2 a3 nmsg size v e1 e2 is_nmsg e3 is_size few =
    let Q : Post Bool = λ o u. o ≡ exits 0 → PairTimed d uri nmsg size v u in
    rw (e1, e2, is_nmsg, e3, is_size)
      (start_job-then t Q v (pair_receiver uri nmsg) _ (λ u z. cc)
        λ a u e. rw e (
          let v1 =
            happen (slept 1) (record v { started = v.started ++ pair_receiver uri nmsg ∷ [] }) in
          open-then t v1 Q (λ u f z. cc) pair0 _ _
            λ s.
              let v2 = happen (opened pair0 s) v1 in
              let v3 = happen (dialed s uri) v2 in
              check-then t v2 Q (λ u f z. cc) (dial s uri) _ _ v2 v3 refl (λ a u e. e)
                λ a4 u4 e4 a5 u5 e5 a6 u6 e6 begin u7 e7.
                  rw (e7, e6, e5, e4)
                    (let v4 =
                        happen (printed stdout (text "Let's go" ++ 10 ∷ []))
                          (happen (printed stdout (text "Hit enter to start timing: ")) v3) in
                      sender-then t v4 Q _ s nmsg size few (λ z. cc) (λ msg m u lt f z. cc)
                        λ msg fits a8 u8 e8 end u9 e9.
                          rw (e9, e8)
                            (report-then t Q _ d nmsg (nmsg * size % 2 ^ 64) begin.value end.value _
                              (λ z. (s, begin.value, end.value, msg, fits, refl))))))

-- The main thread has sent `nmsg` messages that begin with 0 and one
-- that begins with 1 for each puller, and then waited for all pullers, which are the threads that it
-- started.
abbrev pub PushTimed : Doubles → Bytes → ℕ → ℕ → ℕ → View → View → Type 0
PushTimed d uri nmsg size npullers v u =
    (s b e : ℕ) × (rest : Bytes) × (suc (length rest) ≡ size)
    × (let l = reported d nmsg (nmsg * size % 2 ^ 64) b e (
          pushed s nmsg npullers rest (
            printed stdout (text "Lets go" ++ 10 ∷ [])
            ∷ printed stdout (text "Enter to start timing:")
            ∷ listening s uri
            ∷ opened push0 s
            ∷ v.log)) in
        let w = record v {
          started = v.started ++ replicate npullers (pull_puller uri);
          joined = waited_for (positions (length v.started) npullers) v.joined;
        } in
        (u ≡ record w { log = l }) ⊎ (u ≡ record w { log = closed s ∷ l }))

pub push_main-Timed :
    (t : Texts) (d : Doubles) (args : List Bytes) (uri a2 a3 a4 : Bytes) (nmsg size npullers : ℕ)
    (v : View)
    → argv args 1 ≡ some uri
    → argv args 2 ≡ some a2
    → atoi_size a2 ≡ some nmsg
    → argv args 3 ≡ some a3
    → atoi_size a3 ≡ some size
    → argv args 4 ≡ some a4
    → atoi_size a4 ≡ some npullers
    → nmsg < 2 ^ 31
    → npullers < 2 ^ 31
    → 1 ≤ size
    → Always t
        (Pushpull.main d args)
        v
        (λ o u. o ≡ exits 0 → PushTimed d uri nmsg size npullers v u)
unfolding Pushpull.main
push_main-Timed t d args uri a2 a3 a4 nmsg size npullers v e1 e2 is_nmsg e3 is_size e4 is_npullers
      few few' some_bytes =
    let Q : Post Bool = λ o u. o ≡ exits 0 → PushTimed d uri nmsg size npullers v u in
    rw (e1, e2, is_nmsg, e3, is_size, e4, is_npullers)
      (open-then t v Q (λ u f z. cc) push0 _ _
        λ s.
          let v1 = happen (opened push0 s) v in
          let v2 = happen (listening s uri) v1 in
          check-then t v1 Q (λ u f z. cc) (listen s uri) _ _ v1 v2 refl (λ a u e. e)
            (start_all-then t Q npullers v2 (pull_puller uri) _ few' (λ u z. cc)
              λ a4 u4 e4 a5 u5 e5 a6 u6 e6 begin u7 e7.
                rw (e7, e6, e5, e4)
                  (let v3 = happen (printed stdout (text "Lets go" ++ 10 ∷ [])) (
                      happen (printed stdout (text "Enter to start timing:")) (record v2 {
                        started = v.started ++ replicate npullers (pull_puller uri);
                      })) in
                    pusher-then t v3 Q _ s nmsg size npullers few few' some_bytes (λ z. cc)
                      (λ b u f z. cc)
                      λ rest fits.
                        let v4 = record v3 { log = pushed s nmsg npullers rest v3.log } in
                        join_all-then t Q (positions (length v.started) npullers) v4 _ λ end u9 e9.
                          rw e9 (
                            report-then t Q _ d nmsg (nmsg * size % 2 ^ 64) begin.value end.value _
                              λ a u e z. elim e [
                                | inl (ne, same) ↦ (s, begin.value, end.value, rest, fits, inl same)
                                | inr (good, now) ↦ (s, begin.value, end.value, rest, fits, inr now)
                              ]))))

-- The main thread has sent `n` messages that begin with 0 and a last
-- one that begins with 1, and then waited for all subscribers, which are the threads that it started,
-- and closed its socket.
abbrev pub PubTimed : Doubles → Bytes → ℕ → ℕ → ℕ → View → View → Type 0
PubTimed d uri n size nsubs v u =
    (s b e : ℕ) × (rest : Bytes) × (suc (length rest) ≡ size)
    × (u ≡ record v {
      log = reported d (n + 1) ((n + 1) * size % 2 ^ 64) b e (
          closed s
          ∷ published s n rest (
              printed stdout (text "Let's go" ++ 10 ∷ [])
              ∷ printed stdout (text "Enter to start timing: ")
              ∷ listening s uri
              ∷ opened pub0 s
              ∷ v.log));
      started = v.started ++ replicate nsubs (sub_subscriber uri);
      joined = waited_for (positions (length v.started) nsubs) v.joined;
    })

pub pub_main-Timed :
    (t : Texts) (d : Doubles) (args : List Bytes) (uri a2 a3 a4 : Bytes) (n size nsubs : ℕ)
    (v : View)
    → argv args 1 ≡ some uri
    → argv args 2 ≡ some a2
    → atol_size a2 ≡ some (n + 1)
    → argv args 3 ≡ some a3
    → atol_size a3 ≡ some size
    → argv args 4 ≡ some a4
    → atol_size a4 ≡ some nsubs
    → n < 2 ^ 31
    → nsubs < 2 ^ 31
    → 1 ≤ size
    → Always t (Pubsub.main d args) v (λ o u. o ≡ exits 0 → PubTimed d uri n size nsubs v u)
unfolding Pubsub.main
pub_main-Timed t d args uri a2 a3 a4 n size nsubs v e1 e2 is_nmsg e3 is_size e4 is_nsubs few few'
      some_bytes =
    let Q : Post Bool = λ o u. o ≡ exits 0 → PubTimed d uri n size nsubs v u in
    rw (e1, e2, is_nmsg, e3, is_size, e4, is_nsubs)
      (open-then t v Q (λ u f z. cc) pub0 _ _
        λ s.
          let v1 = happen (opened pub0 s) v in
          let v2 = happen (listening s uri) v1 in
          check-then t v1 Q (λ u f z. cc) (listen s uri) _ _ v1 v2 refl (λ a u e. e)
            (start_all-then t Q nsubs v2 (sub_subscriber uri) _ few' (λ u z. cc)
              λ a4 u4 e4 a5 u5 e5 a6 u6 e6 begin u7 e7.
                rw (e7, e6, e5, e4)
                  (let v3 = happen (printed stdout (text "Let's go" ++ 10 ∷ [])) (
                      happen (printed stdout (text "Enter to start timing: ")) (record v2 {
                        started = v.started ++ replicate nsubs (sub_subscriber uri);
                      })) in
                    publisher-then t v3 Q _ s n size few some_bytes (λ z. cc) (λ b m u lt f z. cc)
                      λ rest fits.
                        let v4 = record v3 { log = published s n rest v3.log } in
                        join_all-then t Q (positions (length v.started) nsubs) v4 _ (
                          let v5 = record v4 {
                            joined = waited_for (positions (length v.started) nsubs) v.joined;
                          } in
                          check-then t v5 Q (λ u f z. cc) (close_socket s) _ _ v5
                            (happen (closed s) v5) refl (λ a u e. e)
                            λ end u9 e9. rw e9 (
                              report-then t Q _ d (n + 1) ((n + 1) * size % 2 ^ 64) begin.value
                                end.value _
                                (λ z. (s, begin.value, end.value, rest, fits, refl)))))))
