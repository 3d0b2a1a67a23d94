-- ===== src/Performance/Goals.antt =====
-- What a thread of performance/ has done when it returns.
use nng_examples.Platform.Documented.{
  load_word, promised, printed, View, Event, opened, listening, dialed, configured, closed,
  received, slept,
}
use nng_examples.Platform.{
  stderr, bus0, Job, pair_receiver, rep_replier, sub_subscriber, pull_puller, respondent_responder,
  bus_receiver, returns, pair0, rep0, sub0, pull0, respondent0, sub_subscribe, recvmaxsz,
}
use nng_examples.Bytes.Decimal.{decimal}
use nng_examples.Bytes.{text, Bytes}
use nng_examples.Bus.{targets}
use nng_examples.Prelude.{
  ℤ, pos, negsuc, map, take, ◌+◌, ◌%◌, ◌≤◌, ◌++◌, ◌≢◌, ℕ, ◌<◌, ◌≡◌, ◌⊎◌, ◌^◌, List, [], ◌∷◌, some,
  length, All, Bool, true,
}
use nng_examples.Platform.Rules.{Post}
use nng_examples.Performance.BusSetup.{joining}
use nng_examples.Performance.Drain.{heard, GoesOn, IsLast}
use nng_examples.Performance.Answers.{answers}

-- What a member of the bus prints.
abbrev pub said : ℕ → Bytes → Event
said me what = printed stderr (text "Member " ++ decimal me ++ what ++ 10 ∷ [])

-- After the number `last`, messages were received while the number was below `nmsg`; `seq` is the
-- first that is not.
abbrev pub Counted : ℕ → ℕ → List Bytes → ℕ → Type 0
Counted nmsg last [] seq = (last ≡ seq) × (nmsg ≤ seq)
Counted nmsg last (b ∷ bs) seq =
    (last < nmsg) × ((n : ℕ) × (load_word b ≡ some n) × Counted nmsg n bs seq)

-- The int that a uint32_t becomes: the one that is equal to it modulo 2^32.
abbrev pub IsIntOf : ℕ → ℤ → Type 0
IsIntOf n (pos k) = (k < 2 ^ 31) × (k ≡ n % 2 ^ 32)
IsIntOf n (negsuc k) = (k < 2 ^ 31) × (n % 2 ^ 32 + (k + 1) ≡ 2 ^ 32)

-- The address of member `i` of a bus: what fits into the buffer of it.
abbrev pub address : (Bytes → ℕ → Bytes) → Bytes → ℕ → Bytes
address formatted base i = take 499 (formatted base i)

-- A message that does not end the bus.
abbrev pub Other : Bytes → Type 0
Other b = load_word b ≢ some 0xffffffff

-- The loops that an int counts must be such as it can count.
abbrev pub Countable : Job → Type 0
Countable (pair_receiver uri n) = n < 2 ^ 31
Countable (rep_replier uri n size) = n < 2 ^ 31
Countable (respondent_responder uri n size) = n < 2 ^ 31
Countable _ = Unit {0}

-- The thread was in view `v` and is in view `u`. The receiver of a pair has received as many messages
-- as it was told; the replier and the responder have answered as many, by messages of the given size,
-- and the responder has received one more; the subscriber and the puller have received messages
-- that begin with 0 and one that does not; the member of the bus has listened on the address of its own
-- position, dialed the addresses of the positions that are its targets,
-- received messages up to the first number that is at least `nmsg`, set its promise to that number as an
-- int, and received messages up to the first that starts with 0xffffffff.
abbrev pub Returned : (Bytes → ℕ → Bytes) → Job → View → View → Type 0
Returned formatted (pair_receiver uri n) v u =
    (s : ℕ) × (bs : List Bytes) × (length bs ≡ n)
    × (u ≡ record v { log = heard s bs (listening s uri ∷ opened pair0 s ∷ v.log) })
Returned formatted (rep_replier uri n size) v u =
    (s : ℕ) × (d : Bytes) × (bs : List Bytes) × (length d ≡ size)
    × (length bs ≡ n)
    × (let l = slept 1 ∷ answers s d bs (listening s uri ∷ opened rep0 s ∷ v.log) in
        (u ≡ record v { log = l }) ⊎ (u ≡ record v { log = closed s ∷ l }))
Returned formatted (sub_subscriber uri) v u =
    (s : ℕ) × (bs : List Bytes) × (last : Bytes) × All GoesOn bs
    × IsLast last
    × (u ≡ record v {
      log =
          closed s
          ∷ received s last
          ∷ heard s bs (configured s (sub_subscribe []) ∷ dialed s uri ∷ opened sub0 s ∷ v.log);
    })
Returned formatted (pull_puller uri) v u =
    (s : ℕ) × (bs : List Bytes) × (last : Bytes) × All GoesOn bs
    × IsLast last
    × (let l = received s last ∷ heard s bs (dialed s uri ∷ opened pull0 s ∷ v.log) in
        (u ≡ record v { log = l }) ⊎ (u ≡ record v { log = closed s ∷ l }))
Returned formatted (respondent_responder uri n size) v u =
    (s : ℕ) × (d : Bytes) × (bs : List Bytes) × (more : Bytes) × (length d ≡ size)
    × (length bs ≡ n)
    × (let l =
          received s more
          ∷ answers s d bs
              (dialed s uri ∷ configured s (recvmaxsz 0) ∷ opened respondent0 s ∷ v.log) in
        (u.log ≡ l) ⊎ (u.log ≡ closed s ∷ l))
Returned formatted (bus_receiver base size me nmsg promise) v u =
    (s : ℕ) × (aims : List ℕ) × (bs ends : List Bytes) × (last : Bytes) × (seq : ℕ) × (x : ℤ)
    × (targets size me ≡ some aims)
    × Counted nmsg 0 bs seq
    × IsIntOf seq x
    × All Other ends
    × (load_word last ≡ some 0xffffffff)
    × (let l =
          joining s (address formatted base me) (map (address formatted base) aims)
            (opened bus0 s ∷ v.log) in
        u ≡ record v {
          log =
              said me (text " exiting")
              ∷ closed s
              ∷ slept 2
              ∷ said me (text " sleeping then exiting")
              ∷ received s last
              ∷ heard s ends
                  (said me (text " Waiting for end") ∷ promised promise x ∷ heard s bs l);
        })

abbrev pub Reaches : (Bytes → ℕ → Bytes) → View → Job → Post Bool
Reaches formatted v j o u = o ≡ returns true → Returned formatted j v u

abbrev pub Goal : (Bytes → ℕ → Bytes) → View → Job → Post Bool
Goal formatted v j o u = o ≡ returns true → Countable j → Returned formatted j v u
