-- ===== src/Checked/Startup.antt =====
-- How each program starts: it opens a socket, then listens on or dials the address of its first
-- argument, which it takes from argv unchecked.
use nng_examples.Prelude.{ℕ, ◌≡◌, refl, Option, none, some, ◌∷◌}
use nng_examples.Bytes.{Bytes}
use nng_examples.Platform.{
  Protocol, Call, open_socket, Answer, Prog, ◌>>=◌, deref, Outcome, exits, faults,
}
use nng_examples.Platform.Documented.{Texts, Event, opened, View, Effect, Either, happen}
use nng_examples.Platform.Rules.{Always, Post, Always-mono}
use nng_examples.Checked.{check, checked}
use nng_examples.Checked.Rules.{Failed, open-then, check-then}

module _ {A : Type 0} (t : Texts) (p : Protocol) (ev : ℕ → Bytes → Event) (arg : Option Bytes)
    (v : View) where
  -- The ends of a program from view `v`: a call of the start failed, the argument is missing and its
  -- null pointer is used, or the rest of the program ends as `P` says from a connected socket on.
  pub data Started (P : ℕ → View → Post A) (o : Outcome A) (u : View) : Type 0 where
    not_opened : o ≡ exits 1 → Failed t v.log u → Started P o u
    no_argument : (s : ℕ) → arg ≡ none → o ≡ faults → u.log ≡ opened p s ∷ v.log → Started P o u
    not_connected :
        (s : ℕ) (uri : Bytes)
        → arg ≡ some uri
        → o ≡ exits 1
        → Failed t (opened p s ∷ v.log) u
        → Started P o u
    running :
        (s : ℕ) (uri : Bytes)
        → arg ≡ some uri
        → P s (happen (ev s uri) (happen (opened p s) v)) o u
        → Started P o u

  pub startup-Always :
      (c : ℕ → Bytes → Call) (e1 e2 : Bytes) (k : ℕ → Prog A) (P : ℕ → View → Post A)
      → ((s : ℕ) (uri : Bytes) (w : View) (a : Answer) (u : View)
          → Effect t (c s uri) w a u
          → Either a.status w u (happen (ev s uri) w))
      → ((s : ℕ) (w : View) → w.body ≡ v.body → w.pid ≡ v.pid → Always t (k s) w (P s w))
      → Always t
          (checked (open_socket p) e1 >>= λ s. deref arg >>= λ uri. check (c s uri) e2 >>= λ _. k s)
          v
          (Started P)
  startup-Always c e1 e2 k P each rest =
      open-then t v (Started P) (λ u f. not_opened refl f) p e1 _ λ s. with_argument s arg refl
    where
      with_argument :
          (s : ℕ) (o : Option Bytes)
          → arg ≡ o
          → Always t
              (deref o >>= λ uri. check (c s uri) e2 >>= λ _. k s)
              (happen (opened p s) v)
              (Started P)
      with_argument s none e = no_argument s e refl refl
      with_argument s (some uri) e =
          check-then t (happen (opened p s) v) (Started P) (λ u f. not_connected s uri e refl f)
            (c s uri) e2 (λ _. k s) (happen (opened p s) v)
            (happen (ev s uri) (happen (opened p s) v)) refl (each s uri (happen (opened p s) v))
            (Always-mono t (k s) _ (P s (happen (ev s uri) (happen (opened p s) v))) (Started P)
              (λ o u h. running s uri e h)
              (rest s (happen (ev s uri) (happen (opened p s) v)) refl refl))
