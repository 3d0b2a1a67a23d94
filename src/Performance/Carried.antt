-- ===== src/Performance/Carried.antt =====
-- The messages in the logs that the threads of performance/pushpull.cpp and pubsub.cpp leave.
use nng_examples.Prelude.{
  ℕ, suc, ◌≡◌, inl, inr, ap, ◌∙◌, List, [], ◌∷◌, ◌++◌, All, length, replicate, append-nil,
  length-replicate,
}
use nng_examples.Bytes.{Bytes}
use nng_examples.Platform.{pull_puller, sub_subscriber}
use nng_examples.Platform.Documented.{View, Event}
use nng_examples.Performance.Sends.{repeated}
use nng_examples.Performance.Delivery.{sent_of, received_of}
use nng_examples.Performance.Goals.{Returned}
use nng_examples.Performance.Report.{Doubles}
use nng_examples.Performance.Timed.{PushTimed, PubTimed}
use nng_examples.Performance.Filtered.{sent_of-repeated, up_to_last, ended_by}
use mathlib.Core.List.{Memᴰ}

sent_of-ended :
    (s m n : ℕ) (rest : Bytes) (l : List Event)
    → sent_of l ≡ []
    → sent_of (repeated s m (1 ∷ rest) (repeated s n (0 ∷ rest) l)) ≡ ended_by m n rest
sent_of-ended s m n rest l before =
    sent_of-repeated s m (1 ∷ rest) _
    ∙ ap (λ bs. replicate m (1 ∷ rest) ++ bs)
        (sent_of-repeated s n (0 ∷ rest) l ∙ rw before (append-nil _))

pub push_sent :
    (v u : View) (d : Doubles) (uri : Bytes) (nmsg size npullers : ℕ)
    → v.log ≡ []
    → v.started ≡ []
    → PushTimed d uri nmsg size npullers v u
    → (rest : Bytes) × (suc (length rest) ≡ size)
      × (sent_of u.log ≡ ended_by npullers nmsg rest)
      × (length u.started ≡ npullers)
push_sent v u d uri nmsg size npullers before none (s, b, e, rest, fits, ends) = (
  rest,
  fits,
  elim ends [
    | inl same ↦
        ap (λ (x : View). sent_of x.log) same
        ∙ sent_of-ended s npullers nmsg rest _ (ap sent_of before)
    | inr same ↦
        ap (λ (x : View). sent_of x.log) same
        ∙ sent_of-ended s npullers nmsg rest _ (ap sent_of before)
  ],
  elim ends [
    | inl same ↦ ap (λ (x : View). length x.started) same ∙ crew
    | inr same ↦ ap (λ (x : View). length x.started) same ∙ crew
  ],
)
  where
    crew : length (v.started ++ replicate npullers (pull_puller uri)) ≡ npullers
    crew = rw none (length-replicate npullers (pull_puller uri))

pub pub_sent :
    (v u : View) (d : Doubles) (uri : Bytes) (n size nsubs : ℕ)
    → v.log ≡ []
    → v.started ≡ []
    → PubTimed d uri n size nsubs v u
    → (rest : Bytes) × (suc (length rest) ≡ size)
      × (sent_of u.log ≡ ended_by 1 n rest)
      × (length u.started ≡ nsubs)
pub_sent v u d uri n size nsubs before none (s, b, e, rest, fits, same) = (
  rest,
  fits,
  ap (λ (x : View). sent_of x.log) same ∙ sent_of-ended s 1 n rest _ (ap sent_of before),
  ap (λ (x : View). length x.started) same ∙ rw none (length-replicate nsubs (sub_subscriber uri)),
)

-- What a thread that ends with the last message has received.
abbrev pub Carried : ℕ → ℕ → Bytes → View → Type 0
Carried m n rest u =
    All (λ b. Memᴰ b (ended_by m n rest)) (received_of u.log)
    → (k : ℕ) × (received_of u.log ≡ (1 ∷ rest) ∷ replicate k (0 ∷ rest))

pub puller-Carried :
    (formatted : Bytes → ℕ → Bytes) (v u : View) (uri : Bytes) (m n : ℕ) (rest : Bytes)
    → v.log ≡ []
    → Returned formatted (pull_puller uri) v u
    → Carried m n rest u
puller-Carried formatted v u uri m n rest before (s, bs, last, go, ends, inl same) all =
    let seen = ap (λ (x : View). received_of x.log) same in
    (
      length bs,
      seen ∙ up_to_last m n s rest bs last _ go ends (ap received_of before) (rw seen at all),
    )
puller-Carried formatted v u uri m n rest before (s, bs, last, go, ends, inr same) all =
    let seen = ap (λ (x : View). received_of x.log) same in
    (
      length bs,
      seen ∙ up_to_last m n s rest bs last _ go ends (ap received_of before) (rw seen at all),
    )

pub subscriber-Carried :
    (formatted : Bytes → ℕ → Bytes) (v u : View) (uri : Bytes) (m n : ℕ) (rest : Bytes)
    → v.log ≡ []
    → Returned formatted (sub_subscriber uri) v u
    → Carried m n rest u
subscriber-Carried formatted v u uri m n rest before (s, bs, last, go, ends, same) all =
    let seen = ap (λ (x : View). received_of x.log) same in
    (
      length bs,
      seen ∙ up_to_last m n s rest bs last _ go ends (ap received_of before) (rw seen at all),
    )
