-- ===== src/Tests/Crew.antt =====
-- A machine for a process with threads: each thread has a small machine of its own.
use nng_examples.Prelude.{
  ℕ, zero, suc, ◌≡◌, ◌≢◌, ◌==◌, refl, inl, inr, true, List, [], ◌∷◌, if◌then◌else◌, arith,
  Option-cases, Bool-cases, ==_iff, sym, ◌++◌, ◌-◌, ◌/◌, ◌*◌,
}
use nng_examples.Bytes.{Bytes}
use nng_examples.Platform.{
  Call, start_thread, join, msg_alloc, msg_insert, msg_body, sendmsg, recvmsg, new_array,
  send_bytes, recv_alloc, store_byte, store_word,
}
use nng_examples.Platform.Documented.{View}
use nng_examples.Performance.Process.{Hosts, plain}
use nng_examples.Performance.Report.{Doubles}
use nng_examples.Bytes.Decimal.{decimal}
use nng_examples.Performance.Ended.{Begins}
use nng_examples.Tests.Machine.{
  Machine, texts, step, step-documented, start, deliver, deliver_array,
}

abbrev pub Machines : Type 0
Machines = ℕ → Machine

abbrev pub put : Machines → ℕ → Machine → Machines
put ms i m j = if i == j then m else ms j

pub put_self : (ms : Machines) (i : ℕ) (m : Machine) → put ms i m i ≡ m
put_self ms i m = ground arith

pub put_apart : (ms : Machines) (i j : ℕ) (m : Machine) → j ≢ i → put ms i m j ≡ ms j
put_apart ms i j m ne = elim (Bool-cases (i == j)) [
  | inl e ↦ absurd (ne (sym ((==_iff i j).0 e)))
  | inr e ↦ rw e refl
]

-- The same lists of started and joined threads.
abbrev pub Steady : View → View → Type 0
Steady v v' = (v'.started ≡ v.started) × (v'.joined ≡ v.joined)

deliver-Steady : (bs : List Bytes) (s : ℕ) (m : Machine) → Steady m.view (deliver bs s m).1.view
deliver-Steady [] s m = (refl, refl)
deliver-Steady (b ∷ bs) s m = elim (Option-cases (m.view.body m.handle)) [
  | inl e ↦ rw e (refl, refl)
  | inr (c, e) ↦ rw e (refl, refl)
]

deliver_array-Steady :
    (bs : List Bytes) (s : ℕ) (m : Machine) → Steady m.view (deliver_array bs s m).1.view
deliver_array-Steady [] s m = (refl, refl)
deliver_array-Steady (b ∷ bs) s m = elim (Option-cases (m.view.body m.handle)) [
  | inl e ↦ rw e (refl, refl)
  | inr (c, e) ↦ rw e (refl, refl)
]

pub step-Steady : (m : Machine) (c : Call) → plain c ≡ true → Steady m.view (step m c).1.view
step-Steady m (start_thread j) e = cc
step-Steady m (join n) e = cc
step-Steady m (recvmsg s) e = deliver-Steady m.incoming s m
step-Steady m (recv_alloc s) e = deliver_array-Steady m.incoming s m
step-Steady m (msg_alloc n) e = elim (Option-cases (m.view.body m.handle)) [
  | inl z ↦ rw z (refl, refl)
  | inr (c, z) ↦ rw z (refl, refl)
]
step-Steady m (new_array n) e = elim (Option-cases (m.view.body m.handle)) [
  | inl z ↦ rw z (refl, refl)
  | inr (c, z) ↦ rw z (refl, refl)
]
step-Steady m (msg_insert p d) e = elim (Option-cases (m.view.body p)) [
  | inl z ↦ rw z (refl, refl)
  | inr (c, z) ↦ rw z (refl, refl)
]
step-Steady m (msg_body p) e = elim (Option-cases (m.view.body p)) [
  | inl z ↦ rw z (refl, refl)
  | inr (c, z) ↦ rw z (refl, refl)
]
step-Steady m (sendmsg s p) e = elim (Option-cases (m.view.body p)) [
  | inl z ↦ rw z (refl, refl)
  | inr (c, z) ↦ rw z (refl, refl)
]
step-Steady m (send_bytes s p n) e = elim (Option-cases (m.view.body p)) [
  | inl z ↦ rw z (refl, refl)
  | inr (c, z) ↦ rw z (refl, refl)
]
step-Steady m (store_byte p x) e = elim (Option-cases (m.view.body p)) [
  | inl z ↦ rw z (refl, refl)
  | inr (c, z) ↦ rw z (refl, refl)
]
step-Steady m (store_word p x) e = elim (Option-cases (m.view.body p)) [
  | inl z ↦ rw z (refl, refl)
  | inr (c, z) ↦ rw z (refl, refl)
]
step-Steady m c e = (refl, refl)

abbrev pub machines : Hosts texts
machines = record {
  World = Machines;
  answer = λ ms i c. (step (ms i) c).0;
  next = λ ms i c. put ms i (step (ms i) c).1;
  view = λ ms i. (ms i).view;
  documented = λ ms i c. rw (put_self ms i (step (ms i) c).1) (step-documented (ms i) c);
  apart = λ ms i j c ne. rw (put_apart ms i j (step (ms i) c).1 ne) refl;
  steady = λ ms i c e. rw (put_self ms i (step (ms i) c).1) (step-Steady (ms i) c e);
}

-- The main thread receives `mine`, the others `bs` each.
abbrev pub begin : List Bytes → List Bytes → Machines
begin mine bs zero = start mine
begin mine bs (suc i) = start bs

pub begin-Begins : (mine bs : List Bytes) → Begins machines (start bs).view (begin mine bs)
begin-Begins mine bs = record { quiet = λ i. refl; none_started = refl; none_joined = refl }

-- Whole numbers for the doubles.
abbrev pub counting : Doubles
counting = record {
  Double = ℕ;
  of_size = λ n. n;
  milliseconds = λ b e. e - b;
  divide = λ a b. a / b;
  times = λ a b. a * b;
  shown = decimal;
}

abbrev pub numbered : Bytes → ℕ → Bytes
numbered base i = base ++ decimal i
