-- ===== src/Checked/Shown.antt =====
-- A loop that receives messages and prints each on a line of its own, under the process id: pull.cpp
-- and subscriber.cpp.
use nng_examples.Prelude.{ℕ, zero, suc, ◌≡◌, refl, ◌++◌, ◌∷◌, some, none}
use nng_examples.Bytes.{Bytes, c_string}
use nng_examples.Bytes.Decimal.{decimal}
use nng_examples.Platform.{Stream, recvmsg, getpid, ◌>>=◌, number, Outcome, returns, exits, faults}
use nng_examples.Platform.Documented.{Texts, View, received, printed, happen, set_body}
use nng_examples.Platform.Rules.{Always, pid-then}
use nng_examples.Platform.Loop.{Round}
use nng_examples.Checked.{newline, checked, show_message}
use nng_examples.Checked.Rules.{Failed, receive-then, show-last}

-- One message received and printed, as its text under the process id; the program owns the messages
-- that it owned before.
pub record Shown (o : Stream) (label : Bytes) (s : ℕ) (v u : View) : Type 0 where
  pub got : Bytes
  pub shown : Bytes
  pub reads : c_string got ≡ some shown
  pub log :
      u.log ≡ printed o ((decimal v.pid ++ label) ++ shown ++ newline) ∷ received s got ∷ v.log
  pub owned : u.body ≡ v.body
  pub pid : u.pid ≡ v.pid

-- The loop ends when receiving fails, or on a message without a terminator.
abbrev pub Unshown : Texts → ℕ → Outcome (Unit {0}) → View → View → Type 0
Unshown t s (returns _) v u = ⊥
Unshown t s (exits zero) v u = ⊥
Unshown t s (exits (suc zero)) v u = Failed t v.log u
Unshown t s (exits (suc (suc n))) v u = ⊥
Unshown t s faults v u = (got : Bytes) × (c_string got ≡ none) × (u.log ≡ received s got ∷ v.log)

pub show-Round :
    (t : Texts) (o : Stream) (label doing : Bytes) (s : ℕ) (v : View)
    → Always t
        (checked (recvmsg s) doing >>= λ m.
          number getpid >>= λ pid. show_message o (decimal pid ++ label) m)
        v
        (Round (Shown o label s) (Unshown t s) v)
show-Round t o label doing s v =
    receive-then t v _ (λ u f. f) s doing _
      λ m got free.
        let w = happen (received s got) (set_body m (some got) v) in
        let Q = Round (Shown o label s) (Unshown t s) v in
        pid-then t w Q _ (
          show-last t w Q v.body o (decimal v.pid ++ label) m got refl free (λ z. (got, z, refl))
            (λ x reads. record {
              got = got;
              shown = x;
              reads = reads;
              log = refl;
              owned = refl;
              pid = refl;
            }))
