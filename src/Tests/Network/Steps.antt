-- ===== src/Tests/Network/Steps.antt =====
-- What a step of the machine adds to the messages of its log.
use nng_examples.Prelude.{ℕ, zero, suc, ◌⊎◌, inl, inr, List, [], ◌∷◌, ◌++◌, drop, Option-cases}
use nng_examples.Bytes.{Bytes}
use nng_examples.Platform.{
  Call, recvmsg, recv_alloc, msg_alloc, new_array, msg_insert, msg_body, sendmsg, send_bytes,
  store_byte, store_word,
}
use nng_examples.Performance.Delivery.{sent_of, received_of}
use nng_examples.Tests.Machine.{Machine, step, deliver, deliver_array}
use mathlib.Core.List.{Memᴰ}
use mathlib.Core.List.Memᴰ

abbrev pub in_order : List Bytes → List Bytes
in_order [] = []
in_order (b ∷ bs) = in_order bs ++ b ∷ []

pub from_in_order : (b : Bytes) (bs : List Bytes) → Memᴰ b (in_order bs) → Memᴰ b bs
from_in_order b [] m = m
from_in_order b (c ∷ bs) m = elim (Memᴰ.append_cases (in_order bs) m) [
  | inl m' ↦ Memᴰ.tail (from_in_order b bs m')
  | inr m' ↦ elim (Memᴰ.cases_cons m') [
    | inl e ↦ Memᴰ.head e
    | inr none ↦ absurd (Memᴰ.not-nil none)
  ]
]

pub from_drop : (b : Bytes) (n : ℕ) (bs : List Bytes) → Memᴰ b (drop n bs) → Memᴰ b bs
from_drop b zero bs m = m
from_drop b (suc n) [] m = m
from_drop b (suc n) (c ∷ bs) m = Memᴰ.tail (from_drop b n bs m)

-- What a log with one message more holds.
received_more :
    (b : Bytes) (bs : List Bytes) (s : ℕ) (m : Machine)
    → Memᴰ b (received_of (deliver bs s m).1.view.log)
    → Memᴰ b (received_of m.view.log) ⊎ Memᴰ b bs
received_more b [] s m there = inl there
received_more b (x ∷ bs) s m there = elim (Option-cases (m.view.body m.handle)) [
  | inl z ↦ elim (Memᴰ.cases_cons (rw z at there)) [ inl e ↦ inr (Memᴰ.head e) | inr old ↦ inl old ]
  | inr (c, z) ↦ inl (rw z at there)
]

array_received_more :
    (b : Bytes) (bs : List Bytes) (s : ℕ) (m : Machine)
    → Memᴰ b (received_of (deliver_array bs s m).1.view.log)
    → Memᴰ b (received_of m.view.log) ⊎ Memᴰ b bs
array_received_more b [] s m there = inl there
array_received_more b (x ∷ bs) s m there = elim (Option-cases (m.view.body m.handle)) [
  | inl z ↦ elim (Memᴰ.cases_cons (rw z at there)) [ inl e ↦ inr (Memᴰ.head e) | inr old ↦ inl old ]
  | inr (c, z) ↦ inl (rw z at there)
]

pub step-received :
    (m : Machine) (c : Call) (b : Bytes)
    → Memᴰ b (received_of (step m c).1.view.log)
    → Memᴰ b (received_of m.view.log) ⊎ Memᴰ b m.incoming
step-received m (recvmsg s) b here = received_more b m.incoming s m here
step-received m (recv_alloc s) b here = array_received_more b m.incoming s m here
step-received m (msg_alloc n) b here = elim (Option-cases (m.view.body (m.handle))) [
  | inl z ↦ inl (rw z at here)
  | inr (c, z) ↦ inl (rw z at here)
]
step-received m (new_array n) b here = elim (Option-cases (m.view.body (m.handle))) [
  | inl z ↦ inl (rw z at here)
  | inr (c, z) ↦ inl (rw z at here)
]
step-received m (msg_insert p d) b here = elim (Option-cases (m.view.body (p))) [
  | inl z ↦ inl (rw z at here)
  | inr (c, z) ↦ inl (rw z at here)
]
step-received m (msg_body p) b here = elim (Option-cases (m.view.body (p))) [
  | inl z ↦ inl (rw z at here)
  | inr (c, z) ↦ inl (rw z at here)
]
step-received m (sendmsg s p) b here = elim (Option-cases (m.view.body (p))) [
  | inl z ↦ inl (rw z at here)
  | inr (c, z) ↦ inl (rw z at here)
]
step-received m (send_bytes s p n) b here = elim (Option-cases (m.view.body (p))) [
  | inl z ↦ inl (rw z at here)
  | inr (c, z) ↦ inl (rw z at here)
]
step-received m (store_byte p x) b here = elim (Option-cases (m.view.body (p))) [
  | inl z ↦ inl (rw z at here)
  | inr (c, z) ↦ inl (rw z at here)
]
step-received m (store_word p x) b here = elim (Option-cases (m.view.body (p))) [
  | inl z ↦ inl (rw z at here)
  | inr (c, z) ↦ inl (rw z at here)
]
step-received m c b here = inl here

sent_more :
    (b : Bytes) (bs : List Bytes) (s : ℕ) (m : Machine)
    → Memᴰ b (sent_of m.view.log)
    → Memᴰ b (sent_of (deliver bs s m).1.view.log)
sent_more b [] s m here = here
sent_more b (x ∷ bs) s m here = elim (Option-cases (m.view.body m.handle)) [
  | inl z ↦ rw z here
  | inr (c, z) ↦ rw z here
]

array_sent_more :
    (b : Bytes) (bs : List Bytes) (s : ℕ) (m : Machine)
    → Memᴰ b (sent_of m.view.log)
    → Memᴰ b (sent_of (deliver_array bs s m).1.view.log)
array_sent_more b [] s m here = here
array_sent_more b (x ∷ bs) s m here = elim (Option-cases (m.view.body m.handle)) [
  | inl z ↦ rw z here
  | inr (c, z) ↦ rw z here
]

pub step-sent :
    (m : Machine) (c : Call) (b : Bytes)
    → Memᴰ b (sent_of m.view.log)
    → Memᴰ b (sent_of (step m c).1.view.log)
step-sent m (recvmsg s) b here = sent_more b m.incoming s m here
step-sent m (recv_alloc s) b here = array_sent_more b m.incoming s m here
step-sent m (msg_alloc n) b here = elim (Option-cases (m.view.body (m.handle))) [
  | inl z ↦ rw z here
  | inr (c, z) ↦ rw z here
]
step-sent m (new_array n) b here = elim (Option-cases (m.view.body (m.handle))) [
  | inl z ↦ rw z here
  | inr (c, z) ↦ rw z here
]
step-sent m (msg_insert p d) b here = elim (Option-cases (m.view.body (p))) [
  | inl z ↦ rw z here
  | inr (c, z) ↦ rw z here
]
step-sent m (msg_body p) b here = elim (Option-cases (m.view.body (p))) [
  | inl z ↦ rw z here
  | inr (c, z) ↦ rw z here
]
step-sent m (sendmsg s p) b here = elim (Option-cases (m.view.body (p))) [
  | inl z ↦ rw z here
  | inr (c, z) ↦ rw z (Memᴰ.tail here)
]
step-sent m (send_bytes s p n) b here = elim (Option-cases (m.view.body (p))) [
  | inl z ↦ rw z here
  | inr (c, z) ↦ rw z (Memᴰ.tail here)
]
step-sent m (store_byte p x) b here = elim (Option-cases (m.view.body (p))) [
  | inl z ↦ rw z here
  | inr (c, z) ↦ rw z here
]
step-sent m (store_word p x) b here = elim (Option-cases (m.view.body (p))) [
  | inl z ↦ rw z here
  | inr (c, z) ↦ rw z here
]
step-sent m c b here = here
