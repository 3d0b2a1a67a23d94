-- ===== src/Performance/Filtered.antt =====
-- What the logs of performance/'s threads hold of messages sent and received.
use nng_examples.Prelude.{
  ℕ, zero, suc, ◌≡◌, ◌⊎◌, inl, inr, refl, ap, ◌∙◌, List, [], ◌∷◌, ◌++◌, All, length, replicate,
  append-nil, map,
}
use nng_examples.Bytes.{Bytes}
use nng_examples.Performance.Goals.{address, Returned}
use nng_examples.Performance.Delivery.{sent_of, received_of}
use nng_examples.Platform.Documented.{View, Event, sent, received, dialed}
use nng_examples.Platform.{
  Job, pair_receiver, rep_replier, sub_subscriber, pull_puller, respondent_responder, bus_receiver,
}
use nng_examples.Performance.Drain.{heard, GoesOn, IsLast}
use nng_examples.Performance.Sends.{repeated}
use nng_examples.Performance.BusSetup.{dials}
use mathlib.Core.List.{Memᴰ}
use mathlib.Core.List.Memᴰ

-- An element that is put in before, and one that is put in after, equal ones.
replicate-cons :
    {A : Type 0} (n : ℕ) (d : A) (l : List A) → replicate n d ++ d ∷ l ≡ d ∷ replicate n d ++ l
replicate-cons zero d l = refl
replicate-cons (suc n) d l = ap (λ m. d ∷ m) (replicate-cons n d l)

pub sent_of-repeated :
    (s n : ℕ) (d : Bytes) (l : List Event) → sent_of (repeated s n d l) ≡ replicate n d ++ sent_of l
sent_of-repeated s zero d l = refl
sent_of-repeated s (suc n) d l =
    sent_of-repeated s n d (sent s d ∷ l) ∙ replicate-cons n d (sent_of l)

pub received_of-repeated :
    (s n : ℕ) (d : Bytes) (l : List Event) → received_of (repeated s n d l) ≡ received_of l
received_of-repeated s zero d l = refl
received_of-repeated s (suc n) d l = received_of-repeated s n d (sent s d ∷ l)

pub sent_of-heard : (s : ℕ) (bs : List Bytes) (l : List Event) → sent_of (heard s bs l) ≡ sent_of l
sent_of-heard s [] l = refl
sent_of-heard s (b ∷ bs) l = sent_of-heard s bs (received s b ∷ l)

pub received_of-heard :
    (s n : ℕ) (d : Bytes) (l : List Event)
    → received_of (heard s (replicate n d) l) ≡ replicate n d ++ received_of l
received_of-heard s zero d l = refl
received_of-heard s (suc n) d l =
    received_of-heard s n d (received s d ∷ l) ∙ replicate-cons n d (received_of l)

-- What holds of all received messages.
pub All-heard :
    (P : Bytes → Type 0) (s : ℕ) (bs : List Bytes) (l : List Event)
    → All P (received_of (heard s bs l))
    → All P bs × All P (received_of l)
All-heard P s [] l all = (tt, all)
All-heard P s (b ∷ bs) l all =
    let (rest, here) = All-heard P s bs (received s b ∷ l) all in ((here.0, rest), here.1)

pub sent_of-dials : (s : ℕ) (xs : List Bytes) (l : List Event) → sent_of (dials s xs l) ≡ sent_of l
sent_of-dials s [] l = refl
sent_of-dials s (x ∷ xs) l = sent_of-dials s xs (dialed s x ∷ l)

pub received_of-dials :
    (s : ℕ) (xs : List Bytes) (l : List Event) → received_of (dials s xs l) ≡ received_of l
received_of-dials s [] l = refl
received_of-dials s (x ∷ xs) l = received_of-dials s xs (dialed s x ∷ l)

pub all_same : (bs : List Bytes) (d : Bytes) → All (λ b. b ≡ d) bs → bs ≡ replicate (length bs) d
all_same [] d all = refl
all_same (b ∷ bs) d all = rw (all.0) (ap (λ m. d ∷ m) (all_same bs d all.1))

pub from_replicate :
    (n : ℕ) (b d : Bytes) (l : List Bytes) → Memᴰ b (replicate n d ++ l) → (b ≡ d) ⊎ Memᴰ b l
from_replicate zero b d l m = inr m
from_replicate (suc n) b d l m = elim (Memᴰ.cases_cons m) [
  | inl e ↦ inl e
  | inr m' ↦ from_replicate n b d l m'
]

pub All-implies :
    (P R : Bytes → Type 0) → ((b : Bytes) → P b → R b) → (bs : List Bytes) → All P bs → All R bs
All-implies P R f [] all = tt
All-implies P R f (b ∷ bs) all = (f b all.0, All-implies P R f bs all.1)

pub All-both :
    (P R : Bytes → Type 0) (bs : List Bytes) → All P bs → All R bs → All (λ b. P b × R b) bs
All-both P R [] ps rs = tt
All-both P R (b ∷ bs) ps rs = ((ps.0, rs.0), All-both P R bs ps.1 rs.1)

pub All-of_members :
    (P : Bytes → Type 0) (bs : List Bytes) → ((b : Bytes) → Memᴰ b bs → P b) → All P bs
All-of_members P [] f = tt
All-of_members P (b ∷ bs) f = (f b (Memᴰ.head refl), All-of_members P bs (λ c m. f c (Memᴰ.tail m)))

-- The jobs whose threads only receive.
abbrev pub OneWay : Job → Type 0
OneWay (pair_receiver uri n) = Unit {0}
OneWay (sub_subscriber uri) = Unit {0}
OneWay (pull_puller uri) = Unit {0}
OneWay (bus_receiver base size me nmsg promise) = Unit {0}
OneWay _ = ⊥

-- They have sent nothing when they have returned.
pub Returned-sent_of :
    (formatted : Bytes → ℕ → Bytes) (j : Job) (v u : View)
    → OneWay j
    → Returned formatted j v u
    → sent_of u.log ≡ sent_of v.log
Returned-sent_of formatted (pair_receiver uri n) v u way (s, bs, many, e) =
    rw e (sent_of-heard s bs _)
Returned-sent_of formatted (sub_subscriber uri) v u way (s, bs, last, go, ends, e) =
    rw e (sent_of-heard s bs _)
Returned-sent_of formatted (pull_puller uri) v u way (s, bs, last, go, ends, inl e) =
    rw e (sent_of-heard s bs _)
Returned-sent_of formatted (pull_puller uri) v u way (s, bs, last, go, ends, inr e) =
    rw e (sent_of-heard s bs _)
Returned-sent_of formatted (bus_receiver base size me nmsg promise) v u way
      (s, aims, bs, others, last, seq, x, aim, counted, is_int, other, ends, e) =
    rw e (
      sent_of-heard s others _
      ∙ sent_of-heard s bs _
      ∙ sent_of-dials s (map (address formatted base) aims) _)
Returned-sent_of formatted (rep_replier uri n size) v u way done = absurd way
Returned-sent_of formatted (respondent_responder uri n size) v u way done = absurd way

-- Where only copies of one message were sent, only copies of it are received.
pub only_copies :
    (n s : ℕ) (d : Bytes) (bs : List Bytes) (l : List Event)
    → received_of l ≡ []
    → All (λ b. Memᴰ b (replicate n d)) (received_of (heard s bs l))
    → received_of (heard s bs l) ≡ replicate (length bs) d
only_copies n s d bs l before all =
    let copies : bs ≡ replicate (length bs) d =
      all_same bs d (All-implies _ _ copy bs (All-heard _ s bs l all).0) in
    ap (λ bs'. received_of (heard s bs' l)) copies
    ∙ received_of-heard s (length bs) d l
    ∙ rw before (append-nil _)
  where
    copy : (b : Bytes) → Memᴰ b (replicate n d) → b ≡ d
    copy b m = elim (from_replicate n b d [] (rw (append-nil (replicate n d)) m)) [
      | inl e ↦ e
      | inr m' ↦ absurd (Memᴰ.not-nil m')
    ]

-- What is sent by the programs with a last message: `n` messages that begin with 0 and `m` that begin
-- with 1.
abbrev pub ended_by : ℕ → ℕ → Bytes → List Bytes
ended_by m n rest = replicate m (1 ∷ rest) ++ replicate n (0 ∷ rest)

one_of : (m n : ℕ) (rest b : Bytes) → Memᴰ b (ended_by m n rest) → (b ≡ 1 ∷ rest) ⊎ (b ≡ 0 ∷ rest)
one_of m n rest b there = elim (from_replicate m b (1 ∷ rest) _ there) [
  | inl e ↦ inl e
  | inr m' ↦ elim (from_replicate n b (0 ∷ rest) [] (rw (append-nil (replicate n (0 ∷ rest))) m')) [
    | inl e ↦ inr e
    | inr none ↦ absurd (Memᴰ.not-nil none)
  ]
]

-- A thread that receives up to the last message has received that and some that begin with 0.
pub up_to_last :
    (m n s : ℕ) (rest : Bytes) (bs : List Bytes) (last : Bytes) (l : List Event)
    → All GoesOn bs
    → IsLast last
    → received_of l ≡ []
    → All (λ b. Memᴰ b (ended_by m n rest)) (received_of (received s last ∷ heard s bs l))
    → received_of (received s last ∷ heard s bs l) ≡ (1 ∷ rest) ∷ replicate (length bs) (0 ∷ rest)
up_to_last m n s rest bs last l go ends before all =
    let inner = All-both _ _ bs go (All-heard _ s bs l all.1).0 in
    let copies : bs ≡ replicate (length bs) (0 ∷ rest) =
      all_same bs (0 ∷ rest) (All-implies _ _ begins_0 bs inner) in
    ap (λ b. b ∷ received_of (heard s bs l)) (begins_1 last (ends, all.0))
    ∙ ap (λ bs'. (1 ∷ rest) ∷ received_of (heard s bs' l)) copies
    ∙ ap (λ bs'. (1 ∷ rest) ∷ bs')
        (received_of-heard s (length bs) (0 ∷ rest) l ∙ rw before (append-nil _))
  where
    begins_0 : (b : Bytes) → GoesOn b × Memᴰ b (ended_by m n rest) → b ≡ 0 ∷ rest
    begins_0 b (goes, there) = elim (one_of m n rest b there) [
      | inl e ↦ cc (rw e at goes)
      | inr e ↦ e
    ]

    begins_1 : (b : Bytes) → IsLast b × Memᴰ b (ended_by m n rest) → b ≡ 1 ∷ rest
    begins_1 b (is_last, there) = elim (one_of m n rest b there) [
      | inl e ↦ e
      | inr e ↦ absurd ((rw e at is_last) refl)
    ]
