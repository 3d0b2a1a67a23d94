-- ===== src/Tests/Network.antt =====
-- Machines for the threads of one process that hear what its main thread sends, all of it and in order.
mod Steps
use nng_examples.Tests.Network.Steps.{in_order, from_in_order, from_drop, step-received, step-sent}
use nng_examples.Prelude.{
  ℕ, zero, suc, ◌≡◌, ◌⊎◌, inl, inr, refl, true, List, [], ◌∷◌, ◌++◌, drop, length, Option-cases,
  if◌then◌else◌, leb,
}
use nng_examples.Bytes.{Bytes}
use nng_examples.Platform.Documented.{Effect}
use nng_examples.Platform.{
  Answer, Call, poll, recvmsg, recv_alloc, msg_alloc, new_array, msg_insert, msg_body, sendmsg,
  send_bytes, store_byte, store_word,
}
use nng_examples.Performance.Process.{Hosts, plain}
use nng_examples.Performance.Delivery.{sent_of, received_of, Genuine}
use nng_examples.Performance.Arrival.{Silent}
use nng_examples.Tests.Machine.{
  Machine, texts, step, step-documented, start, deliver, deliver_array, ok,
}
use nng_examples.Tests.Crew.{Machines, put, put_self, put_apart, Steady, step-Steady}
use mathlib.Core.List.{Memᴰ}
use mathlib.Core.List.Memᴰ

-- A thread with what is left for it of the main thread's messages.
abbrev pub tuned : Machines → ℕ → Machine
tuned ms i = record (ms i) {
  incoming = drop (length (received_of (ms i).view.log)) (in_order (sent_of (ms 0).view.log));
}

-- The promises are ready once two messages have been sent.
abbrev pub respond : Machines → ℕ → Call → Answer × Machine
respond ms i (poll p) = (ok (if leb 2 (length (sent_of (ms i).view.log)) then 1 else 0) [], ms i)
respond ms i c = step (tuned ms i) c

pub respond-documented :
    (ms : Machines) (i : ℕ) (c : Call)
    → Effect texts c (ms i).view (respond ms i c).0 (respond ms i c).1.view
respond-documented ms i (poll p) = refl
respond-documented ms i c = step-documented (tuned ms i) c

pub respond-Steady :
    (ms : Machines) (i : ℕ) (c : Call) → plain c ≡ true → Steady (ms i).view (respond ms i c).1.view
respond-Steady ms i (poll p) e = (refl, refl)
respond-Steady ms i c e = step-Steady (tuned ms i) c e

tuned-received :
    (ms : Machines) (i : ℕ) (c : Call) (b : Bytes)
    → Memᴰ b (received_of (step (tuned ms i) c).1.view.log)
    → Memᴰ b (received_of (ms i).view.log) ⊎ ((j : ℕ) × Memᴰ b (sent_of (ms j).view.log))
tuned-received ms i c b here = elim (step-received (tuned ms i) c b here) [
  | inl old ↦ inl old
  | inr new ↦ inr (
    0,
    from_in_order b (sent_of (ms 0).view.log)
        (from_drop b (length (received_of (ms i).view.log)) _ new),
  )
]

respond-received :
    (ms : Machines) (i : ℕ) (c : Call) (b : Bytes)
    → Memᴰ b (received_of (respond ms i c).1.view.log)
    → Memᴰ b (received_of (ms i).view.log) ⊎ ((j : ℕ) × Memᴰ b (sent_of (ms j).view.log))
respond-received ms i (poll p) b here = inl here
respond-received ms i c b here = tuned-received ms i c b here

respond-sent :
    (ms : Machines) (i : ℕ) (c : Call) (b : Bytes)
    → Memᴰ b (sent_of (ms i).view.log)
    → Memᴰ b (sent_of (respond ms i c).1.view.log)
respond-sent ms i (poll p) b here = here
respond-sent ms i c b here = step-sent (tuned ms i) c b here

abbrev pub network : Hosts texts
network = record {
  World = Machines;
  answer = λ ms i c. (respond ms i c).0;
  next = λ ms i c. put ms i (respond ms i c).1;
  view = λ ms i. (ms i).view;
  documented = λ ms i c. rw (put_self ms i (respond ms i c).1) (respond-documented ms i c);
  apart = λ ms i j c ne. rw (put_apart ms i j (respond ms i c).1 ne) refl;
  steady = λ ms i c e. rw (put_self ms i (respond ms i c).1) (respond-Steady ms i c e);
}

pub network-Genuine : Genuine network
network-Genuine = record {
  origin =
      λ ms i c b here. respond-received ms i c b (rw (put_self ms i (respond ms i c).1) at here);
  lasting = λ ms i c b here. rw (put_self ms i (respond ms i c).1) (respond-sent ms i c b here);
}

abbrev pub at_first : Machines
at_first i = start []

pub at_first-Silent : Silent network (start []).view at_first
at_first-Silent = record {
  begins = record { quiet = λ i. refl; none_started = refl; none_joined = refl };
  main_silent = refl;
  crew_silent = refl;
}
