-- ===== src/Performance/BusDelivered.antt =====
-- What arrives at the members of the bus that performance/bus.cpp times.
use nng_examples.Prelude.{
  ℕ, zero, suc, ◌+◌, ◌-◌, ◌<◌, ◌≡◌, ◌⊎◌, inl, inr, refl, ap, ◌∙◌, List, [], ◌∷◌, ◌++◌, All, length,
  some, arith, append-nil, sym, ◌^◌,
}
use nng_examples.Bytes.{Bytes}
use nng_examples.Bytes.Strtol.{atoi_size}
use nng_examples.Platform.{exit, argv, bus_receiver}
use nng_examples.Platform.Documented.{Texts, View, Event, sent, word, load_word}
use nng_examples.Bus.{positions}
use nng_examples.Performance.Numbers.{load_word-word}
use mathlib.Core.Option.{some-injective}
use nng_examples.Performance.Process.{Hosts}
use nng_examples.Performance.Goals.{Returned}
use nng_examples.Performance.Report.{Doubles}
use nng_examples.Performance.Ended.{reached}
use nng_examples.Performance.Spray.{members, numbered}
use nng_examples.Performance.Sprayed.{BusTimed}
use nng_examples.Performance.BusRun.{bus_run_complete, length-positions}
use nng_examples.Performance.Bus.{construct_endpoints}
use nng_examples.Performance.Bus
use nng_examples.Performance.Delivery.{sent_of, received_of, Genuine}
use nng_examples.Performance.Filtered.{All-implies, sent_of-dials}
use nng_examples.Performance.Arrival.{Silent, from_main}
use mathlib.Core.List.{Memᴰ}
use mathlib.Core.List.Memᴰ

-- `n` messages numbered from `i` on, the newest first.
abbrev pub counted_down : ℕ → ℕ → Bytes → List Bytes
counted_down i zero rest = []
counted_down i (suc n) rest = (word (i + n) ++ rest) ∷ counted_down i n rest

counted_down-suc :
    (i n : ℕ) (rest : Bytes) (l : List Bytes)
    → counted_down (suc i) n rest ++ (word i ++ rest) ∷ l ≡ counted_down i (suc n) rest ++ l
counted_down-suc i zero rest l = let e : i + 0 ≡ i = omega arith in rw e refl
counted_down-suc i (suc n) rest l =
    let e : suc i + n ≡ i + suc n = omega arith in
    ap (λ bs. (word (suc i + n) ++ rest) ∷ bs) (counted_down-suc i n rest l)
    ∙ ap (λ k. (word k ++ rest) ∷ (counted_down i (suc n) rest ++ l)) e

sent_of-numbered :
    (s : ℕ) (rest : Bytes) (n i : ℕ) (l : List Event)
    → sent_of (numbered s rest n i l) ≡ counted_down i n rest ++ sent_of l
sent_of-numbered s rest zero i l = refl
sent_of-numbered s rest (suc n) i l =
    sent_of-numbered s rest n (suc i) (sent s (word i ++ rest) ∷ l)
    ∙ counted_down-suc i n rest (sent_of l)

-- One of the messages that end the bus, or that are numbered below `seq`.
abbrev pub OfBus : ℕ → Bytes → Bytes → Type 0
OfBus seq rest b = (b ≡ word 0xffffffff) ⊎ ((k : ℕ) × (k < seq) × (b ≡ word k ++ rest))

from_counted :
    (n : ℕ) (rest b : Bytes)
    → Memᴰ b (counted_down 0 n rest)
    → (k : ℕ) × (k < n) × (b ≡ word k ++ rest)
from_counted zero rest b m = absurd (Memᴰ.not-nil m)
from_counted (suc n) rest b m = elim (Memᴰ.cases_cons m) [
  | inl e ↦ let here : 0 + n ≡ n = omega arith in (n, omega arith, rw here at e)
  | inr m' ↦ let (k, lt, e) = from_counted n rest b m' in (k, omega arith, e)
]

sent-OfBus :
    (seq : ℕ) (rest b : Bytes)
    → Memᴰ b (word 0xffffffff ∷ counted_down 0 seq rest)
    → OfBus seq rest b
sent-OfBus seq rest b m = elim (Memᴰ.cases_cons m) [
  | inl e ↦ inl e
  | inr m' ↦ inr (from_counted seq rest b m')
]

length-members :
    (base : Bytes) (size nmsg : ℕ) (is ps : List ℕ)
    → length ps ≡ length is
    → length (members base size nmsg is ps) ≡ length is
length-members base size nmsg [] ps e = refl
length-members base size nmsg (i ∷ is) [] e = absurd (omega arith)
length-members base size nmsg (i ∷ is) (p ∷ ps) e =
    ap suc (length-members base size nmsg is ps (omega arith))

-- What the main thread leaves.
sprayed :
    (v u : View) (d : Doubles) (base : Bytes) (us : List Bytes) (nmsg size n : ℕ)
    → v.log ≡ []
    → v.started ≡ []
    → BusTimed d base us nmsg size n v u
    → (seq : ℕ) × (rest : Bytes) × (seq < 2 ^ 31)
      × (sent_of u.log ≡ word 0xffffffff ∷ counted_down 0 seq rest)
      × (length u.started ≡ n - 1)
sprayed v u d base us nmsg size n before none
      (s, seq, begin, end, mine, rest, aims, xs, ps, below, at_me, aim, dialed_xs, all, same) =
    (
      seq,
      rest,
      below,
      ap (λ (x : View). sent_of x.log) same
          ∙ ap (λ bs. word 0xffffffff ∷ bs)
              (sent_of-numbered s rest seq 0 _
                ∙ ap (λ bs. counted_down 0 seq rest ++ bs)
                    (sent_of-dials s xs _ ∙ ap sent_of before)
                ∙ append-nil _),
      ap (λ (x : View). length x.started) same
          ∙ rw none (length-members base n nmsg (positions 1 (n - 1)) ps all)
          ∙ length-positions 1 (n - 1),
    )

-- A list of these that begins with a message that reads as 0xffffffff begins with that word: no number
-- below 2^31 reads as it.
terminated :
    (seq : ℕ) (rest last : Bytes) (others bs : List Bytes)
    → seq < 2 ^ 31
    → load_word last ≡ some 0xffffffff
    → bs ≡ last ∷ others
    → All (OfBus seq rest) bs
    → (bs ≡ word 0xffffffff ∷ others) × All (OfBus seq rest) others
terminated seq rest last others bs below is_end seen all =
    let all' = rw seen at all in
    (
      seen
          ∙ ap (λ b. b ∷ others)
              (elim (all'.0) [
                | inl e ↦ e
                | inr (k, lt, e) ↦
                    let reads : some k ≡ some 0xffffffff =
                      sym (load_word-word k rest (omega arith)) ∙ ap load_word (sym e) ∙ is_end in
                    let number : k ≡ 0xffffffff = some-injective _ _ reads in absurd (omega arith)
              ]),
      all'.1,
    )

heard_last :
    (formatted : Bytes → ℕ → Bytes) (v u : View) (base : Bytes) (size me nmsg promise seq : ℕ)
    (rest : Bytes)
    → seq < 2 ^ 31
    → Returned formatted (bus_receiver base size me nmsg promise) v u
    → All (OfBus seq rest) (received_of u.log)
    → (others : List Bytes) × (received_of u.log ≡ word 0xffffffff ∷ others)
      × All (OfBus seq rest) others
heard_last formatted v u base size me nmsg promise seq rest below
      (s, aims, bs, ends, last, number, x, aim, counted, is_int, other, is_end, same) all =
    let (is_last, of_bus) =
      terminated seq rest last _ _ below is_end (ap (λ (w : View). received_of w.log) same) all in
    (_, is_last, of_bus)

-- Whatever nng does within its documentation, without making messages up, and in whatever order the
-- threads run: when the program for buses ends with success, the main thread has sent messages with the
-- numbers from 0 on, all below 2^31, alike in the bytes after the number, and then the word 0xffffffff;
-- every message that any other member has received is one of them, and its last is that word. (Loops are
-- followed for `fuel` rounds.)
pub bus_run-Delivered :
    {t : Texts} (h : Hosts t) (formatted : Bytes → ℕ → Bytes) (fuel : ℕ) (idle : View) (w : h.World)
    (d : Doubles) (args : List Bytes) (base a2 a3 a4 : Bytes) (nmsg size n : ℕ) (us : List Bytes)
    (is : List ℕ)
    → Silent h idle w
    → Genuine h
    → argv args 1 ≡ some base
    → argv args 2 ≡ some a2
    → atoi_size a2 ≡ some nmsg
    → argv args 3 ≡ some a3
    → atoi_size a3 ≡ some size
    → argv args 4 ≡ some a4
    → atoi_size a4 ≡ some n
    → construct_endpoints formatted base n ≡ some us
    → (reached h formatted fuel w (Bus.main formatted d fuel args) is).main ≡ exit 0
    → (seq : ℕ) × (rest : Bytes) × (seq < 2 ^ 31)
      × (sent_of
            (h.view (reached h formatted fuel w (Bus.main formatted d fuel args) is).world 0).log
          ≡ word 0xffffffff ∷ counted_down 0 seq rest)
      × ((i : ℕ)
          → suc i < n
          → (others : List Bytes) × (received_of
                (h.view
                  (reached h formatted fuel w (Bus.main formatted d fuel args) is).world
                  (suc i)).log
              ≡ word 0xffffffff ∷ others)
            × All (OfBus seq rest) others)
bus_run-Delivered {t} h formatted fuel idle w d args base a2 a3 a4 nmsg size n us is silent genuine
      e1 e2 is_nmsg e3 is_size e4 is_n are success =
    let code = Bus.main formatted d fuel args in
    let p = reached h formatted fuel w code is in
    let (timed, done) =
      bus_run_complete h formatted fuel idle w d args base a2 a3 a4 nmsg size n us is silent.begins
        e1 e2 is_nmsg e3 is_size e4 is_n are success in
    let (seq, rest, below, sends, crew) =
      sprayed (h.view w 0) (h.view p.world 0) d base us nmsg size n silent.main_silent
        silent.begins.none_started timed in
    let all = from_main h formatted fuel idle w silent genuine code is (n - 1) crew (λ i lt.
      let (promise, ends) = done i (omega arith) in
      (bus_receiver base n (suc i) nmsg promise, tt, ends)) in
    (
      seq,
      rest,
      below,
      sends,
      λ i lt.
          let (promise, ends) = done i lt in
          heard_last formatted idle (h.view p.world (suc i)) base n (suc i) nmsg promise seq rest
            below ends (All-implies _ _ (sent-OfBus seq rest) _ (rw sends at (all (suc i)))),
    )
