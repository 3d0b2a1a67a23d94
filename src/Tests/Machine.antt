-- ===== src/Tests/Machine.antt =====
-- A small machine that answers every call as documented: it shows that the documented behaviour can
-- be met, and runs the programs. Each new message gets the next handle; what is received comes from
-- the list `incoming`, which ends with a closed socket; sockets are opened as number 1.
use nng_examples.Prelude.{
  take, ℕ, suc, inl, inr, refl, ◌++◌, ◌∷◌, [], List, Option, some, none, replicate,
  length-replicate, arith, Option-cases, drop, length,
}
use nng_examples.Platform.{
  store_byte, store_word, start_thread, join, new_promise, set_promise, poll, get_future, get_key,
  clock_now, Call, open_socket, listen, dial, set_option, msg_alloc, msg_insert, msg_body, msg_free,
  sendmsg, recvmsg, new_array, delete_array, send_bytes, recv_alloc, free_bytes, close_socket,
  strerror, print, sleep, time, ctime, getpid, Answer,
}
use nng_examples.Platform.Documented.{
  promised, word, Texts, View, opened, listening, dialed, configured, sent, received, printed,
  slept, closed, Effect, happen, set_body,
}
use nng_examples.Bytes.{Bytes, text, IsText, all_nonzero, all_nonzero-IsText}
use nng_examples.Platform.Host.{Host}

pub record Machine : Type 0 where
  pub view : View
  pub incoming : List Bytes
  pub handle : ℕ

abbrev pub ok : ℕ → Bytes → Answer
ok n b = record { status = 0; value = n; bytes = b }

abbrev pub failed_with : ℕ → Answer
failed_with n = record { status = n; value = 0; bytes = [] }

pub dates : ℕ → Bytes
dates n = text "Thu Jan  1 00:00:00 1970"

pub dates-IsText : (n : ℕ) → IsText (dates n)
unfolding dates text all_nonzero
dates-IsText n = all_nonzero-IsText (text "Thu Jan  1 00:00:00 1970") refl

abbrev pub texts : Texts
texts = record {
  error_text = λ n. text "Object closed";
  date_text = dates;
  date_text-IsText = dates-IsText;
}

abbrev pub see : (View → View) → Machine → Machine
see f m = record m { view = f m.view }

-- A message under the next handle, if that is free.
abbrev pub take_handle : Option Bytes → Machine → Machine → Answer × Machine
take_handle (some b) m m' = (failed_with 2, m)
take_handle none m m' = (ok m.handle [], record m' { handle = suc m.handle })

abbrev pub deliver : List Bytes → ℕ → Machine → Answer × Machine
deliver [] s m = (failed_with 7, m)
deliver (b ∷ rest) s m =
    take_handle (m.view.body m.handle) m (record m {
      view = happen (received s b) (set_body m.handle (some b) m.view);
      incoming = rest;
    })

-- The same with the bytes in the answer.
abbrev pub take_array : Option Bytes → Bytes → Machine → Machine → Answer × Machine
take_array (some c) b m m' = (failed_with 2, m)
take_array none b m m' = (ok m.handle b, record m' { handle = suc m.handle })

abbrev pub deliver_array : List Bytes → ℕ → Machine → Answer × Machine
deliver_array [] s m = (failed_with 7, m)
deliver_array (b ∷ rest) s m =
    take_array (m.view.body m.handle) b m (record m {
      view = happen (received s b) (set_body m.handle (some b) m.view);
      incoming = rest;
    })

abbrev pub with_message : Option Bytes → Machine → (Bytes → Answer × Machine) → Answer × Machine
with_message none m f = (failed_with 3, m)
with_message (some b) m f = f b

abbrev pub store_first : ℕ → Bytes → Bytes
store_first x [] = []
store_first x (c ∷ b) = x ∷ b

abbrev pub change_to : Option Bytes → ℕ → (Bytes → Bytes) → View → View
change_to none p f v = v
change_to (some b) p f v = set_body p (some (f b)) v

abbrev pub change_body : ℕ → (Bytes → Bytes) → View → View
change_body p f v = change_to (v.body p) p f v

abbrev pub step : Machine → Call → Answer × Machine
step m (open_socket p) = (ok 1 [], see (happen (opened p 1)) m)
step m (listen s uri) = (ok 0 [], see (happen (listening s uri)) m)
step m (dial s uri) = (ok 0 [], see (happen (dialed s uri)) m)
step m (set_option s o) = (ok 0 [], see (happen (configured s o)) m)
step m (msg_alloc n) =
    take_handle (m.view.body m.handle) m (see (set_body m.handle (some (replicate n 0))) m)
step m (msg_insert h d) =
    with_message (m.view.body h) m (λ b. (ok 0 [], see (set_body h (some (d ++ b))) m))
step m (msg_body h) = with_message (m.view.body h) m (λ b. (ok 0 b, m))
step m (msg_free h) = (ok 0 [], see (set_body h none) m)
step m (sendmsg s h) =
    with_message (m.view.body h) m
      (λ b. (ok 0 [], see (λ v. happen (sent s b) (set_body h none v)) m))
step m (recvmsg s) = deliver m.incoming s m
step m (new_array n) =
    take_handle (m.view.body m.handle) m (see (set_body m.handle (some (replicate n 0))) m)
step m (delete_array p) = (ok 0 [], see (set_body p none) m)
step m (send_bytes s p n) =
    with_message (m.view.body p) m (λ b. (ok 0 [], see (happen (sent s (take n b))) m))
step m (recv_alloc s) = deliver_array m.incoming s m
step m (free_bytes p n) = (ok 0 [], see (set_body p none) m)
step m (close_socket s) = (ok 0 [], see (happen (closed s)) m)
step m (store_byte p x) = (ok 0 [], see (change_body p (store_first x)) m)
step m (store_word p x) = (ok 0 [], see (change_body p (λ b. word x ++ drop 4 b)) m)
step m (start_thread j) =
    (ok (length m.view.started) [], see (λ v. record v { started = v.started ++ j ∷ [] }) m)
step m (join n) = (ok 0 [], see (λ v. record v { joined = n ∷ v.joined }) m)
step m new_promise = (ok 0 [], m)
step m (set_promise p x) = (ok 0 [], see (happen (promised p x)) m)
step m (poll p) = (ok 1 [], m)
step m (get_future p) = (ok 0 [], m)
step m get_key = (ok 0 [], m)
step m clock_now = (ok 0 [], m)
step m (strerror n) = (ok 0 (text "Object closed"), m)
step m (print o b) = (ok 0 [], see (happen (printed o b)) m)
step m (sleep n) = (ok 0 [], see (happen (slept n)) m)
step m time = (ok 0 [], see (λ v. record v { clock = 0 }) m)
step m (ctime n) = (ok 0 (dates n), m)
step m getpid = (ok m.view.pid [], m)

deliver-documented :
    (bs : List Bytes) (s : ℕ) (m : Machine)
    → Effect texts (recvmsg s) m.view (deliver bs s m).0 (deliver bs s m).1.view
deliver-documented [] s m = inl ((λ z. omega arith), refl)
deliver-documented (b ∷ rest) s m = elim (Option-cases (m.view.body m.handle)) [
  | inl free ↦ rw free (inr (b, refl, free, refl))
  | inr (b', e) ↦ rw e (inl ((λ z. omega arith), refl))
]

deliver_array-documented :
    (bs : List Bytes) (s : ℕ) (m : Machine)
    → Effect texts (recv_alloc s) m.view (deliver_array bs s m).0 (deliver_array bs s m).1.view
deliver_array-documented [] s m = inl ((λ z. omega arith), refl)
deliver_array-documented (b ∷ rest) s m = elim (Option-cases (m.view.body m.handle)) [
  | inl free ↦ rw free (inr (refl, free, refl))
  | inr (b', e) ↦ rw e (inl ((λ z. omega arith), refl))
]

pub step-documented :
    (m : Machine) (c : Call) → Effect texts c m.view (step m c).0 (step m c).1.view
step-documented m (open_socket p) = inr (refl, refl)
step-documented m (listen s uri) = inr (refl, refl)
step-documented m (dial s uri) = inr (refl, refl)
step-documented m (set_option s o) = inr (refl, refl)
step-documented m (msg_alloc n) = elim (Option-cases (m.view.body m.handle)) [
  | inl free ↦ rw free (inr (replicate n 0, length-replicate n 0, refl, free, refl))
  | inr (b, e) ↦ rw e (inl ((λ z. omega arith), refl))
]
step-documented m (msg_insert h d) = λ b e. rw e (inr (refl, refl))
step-documented m (msg_body h) = λ b e. rw e (refl, refl)
step-documented m (msg_free h) = λ b e. refl
step-documented m (sendmsg s h) = λ b e. rw e (inr (refl, refl))
step-documented m (recvmsg s) = deliver-documented m.incoming s m
step-documented m (new_array n) = elim (Option-cases (m.view.body m.handle)) [
  | inl free ↦ rw free (inr (replicate n 0, length-replicate n 0, refl, free, refl))
  | inr (b, e) ↦ rw e (inl ((λ z. omega arith), refl))
]
step-documented m (delete_array p) = λ b e. refl
step-documented m (send_bytes s p n) = λ b e z. rw e (inr (refl, refl))
step-documented m (recv_alloc s) = deliver_array-documented m.incoming s m
step-documented m (free_bytes p n) = λ b e z. refl
step-documented m (close_socket s) = inr (refl, refl)
step-documented m (store_byte p x) = λ c b e. rw e refl
step-documented m (store_word p x) = λ b e z. rw e refl
step-documented m (start_thread j) = inr (refl, refl, refl)
step-documented m (join n) = refl
step-documented m new_promise = refl
step-documented m (set_promise p x) = refl
step-documented m (poll p) = refl
step-documented m (get_future p) = refl
step-documented m get_key = refl
step-documented m clock_now = refl
step-documented m (strerror n) = (refl, refl)
step-documented m (print o b) = refl
step-documented m (sleep n) = refl
step-documented m time = refl
step-documented m (ctime n) = (refl, refl)
step-documented m getpid = (refl, refl)

-- A machine that is about to receive `bs`.
abbrev pub machine : Host texts
machine = record {
  World = Machine;
  answer = λ m c. (step m c).0;
  next = λ m c. (step m c).1;
  view = λ m. m.view;
  documented = step-documented;
}

abbrev pub start : List Bytes → Machine
start bs = record {
  view = record { log = []; body = λ k. none; clock = 0; pid = 42; started = []; joined = [] };
  incoming = bs;
  handle = 0;
}
