-- ===== src/Platform/Rules.antt =====
-- All documented behaviours of a program at once: `Always` is its weakest precondition, with a rule
-- for each way to build a program and `run-Always` to come back to a host.
use nng_examples.Prelude.{ℕ, ◌≡◌, inl, inr, refl, none, some, Option-cases}
use nng_examples.Bytes.{Bytes, c_string}
use nng_examples.Platform.{
  Stream, msg_free, print, sleep, time, ctime, getpid, Answer, Prog, ret, exit, fault, call, ◌>>=◌,
  act, number, string, body_string, Outcome, returns, exits, faults,
}
use nng_examples.Platform.Documented.{Texts, printed, slept, View, Effect, happen, set_body}
use nng_examples.Platform.Host.{Host, run}

abbrev pub Post {ℓ} : Type ℓ → Type (ℓ ⊔ 1)
Post A = Outcome A → View → Type 0

-- Whatever documented answers program `p` gets from view `v` on, it ends as `Q` says.
abbrev pub Always {ℓ} : {A : Type ℓ} → Texts → Prog A → View → Post A → Type 0
Always t (ret a) v Q = Q (returns a) v
Always t (exit n) v Q = Q (exits n) v
Always t fault v Q = Q faults v
Always t (call c k) v Q = (a : Answer) (v' : View) → Effect t c v a v' → Always t (k a) v' Q

-- The rest of a program, after a part of it.
abbrev pub Then {ℓ κ} : {A : Type ℓ} {B : Type κ} → Texts → (A → Prog B) → Post B → Post A
Then t f Q (returns a) v = Always t (f a) v Q
Then t f Q (exits n) v = Q (exits n) v
Then t f Q faults v = Q faults v

-- Programs in a row may be grouped either way.
pub bind_assoc {ℓ κ μ} :
    {A : Type ℓ} {B : Type κ} {C : Type μ} (p : Prog A) (f : A → Prog B) (g : B → Prog C)
    → ((p >>= f) >>= g) ≡ (p >>= λ a. f a >>= g)
bind_assoc (ret a) f g = refl
bind_assoc (exit n) f g = refl
bind_assoc fault f g = refl
bind_assoc (call c k) f g = λ i. call c (λ a. bind_assoc (k a) f g i)

pub bind_ret {ℓ} : {A : Type ℓ} (p : Prog A) → (p >>= ret) ≡ p
bind_ret (ret a) = refl
bind_ret (exit n) = refl
bind_ret fault = refl
bind_ret (call c k) = λ i. call c (λ a. bind_ret (k a) i)

module _ (t : Texts) where
  pub Always-assoc {ℓ κ μ} :
      {A : Type ℓ} {B : Type κ} {C : Type μ} (p : Prog A) (f : A → Prog B) (g : B → Prog C)
      (v : View) (Q : Post C)
      → Always t (p >>= λ a. f a >>= g) v Q
      → Always t ((p >>= f) >>= g) v Q
  Always-assoc p f g v Q h = rw bind_assoc h

  pub Always-bind {ℓ κ} :
      {A : Type ℓ} {B : Type κ} (p : Prog A) (f : A → Prog B) (v : View) (Q : Post B)
      → Always t p v (Then t f Q)
      → Always t (p >>= f) v Q
  Always-bind (ret a) f v Q h = h
  Always-bind (exit n) f v Q h = h
  Always-bind fault f v Q h = h
  Always-bind (call c k) f v Q h = λ a v' e. Always-bind (k a) f v' Q (h a v' e)

  pub Always-mono {ℓ} :
      {A : Type ℓ} (p : Prog A) (v : View) (P Q : Post A)
      → ((o : Outcome A) (u : View) → P o u → Q o u)
      → Always t p v P
      → Always t p v Q
  Always-mono (ret a) v P Q i h = i _ _ h
  Always-mono (exit n) v P Q i h = i _ _ h
  Always-mono fault v P Q i h = i _ _ h
  Always-mono (call c k) v P Q i h = λ a v' e. Always-mono (k a) v' P Q i (h a v' e)

-- A hypothesis that the end may use.
pub Always-imply {ℓ} :
    {A : Type ℓ} (t : Texts) (X : Type 0) (p : Prog A) (v : View) (Q : Post A)
    → (X → Always t p v Q)
    → Always t p v (λ o u. X → Q o u)
Always-imply t X (ret a) v Q h = h
Always-imply t X (exit n) v Q h = h
Always-imply t X fault v Q h = h
Always-imply t X (call c k) v Q h = λ a v' e. Always-imply t X (k a) v' Q (λ x. h x a v' e)

-- The calls that cannot fail, each with the rest of the program as `k`.
module _ {ℓ} {A : Type ℓ} (t : Texts) (v : View) (Q : Post A) where
  pub print-then :
      (o : Stream) (b : Bytes) (k : Unit {0} → Prog A)
      → Always t (k tt) (happen (printed o b) v) Q
      → Always t (act (print o b) >>= k) v Q
  print-then o b k h a u e = rw e h

  pub sleep-then :
      (n : ℕ) (k : Unit {0} → Prog A)
      → Always t (k tt) (happen (slept n) v) Q
      → Always t (act (sleep n) >>= k) v Q
  sleep-then n k h a u e = rw e h

  pub pid-then : (k : ℕ → Prog A) → Always t (k v.pid) v Q → Always t (number getpid >>= k) v Q
  pid-then k h a u (e, same) = rw (e, same) h

  -- The date of the time that was read, which `clock` then holds.
  pub date-then :
      (k : Bytes → Prog A)
      → ((n : ℕ) → Always t (k (t.date_text n)) (record v { clock = n }) Q)
      → Always t (number time >>= λ n. string (ctime n) >>= k) v Q
  date-then k h a u e a' u' (e', same) = rw (e', same, e) (h a.value)

  -- The body of an owned message, read as a C string: undefined if no zero byte ends it.
  pub body-then :
      (m : ℕ) (b : Bytes) (k : Bytes → Prog A)
      → v.body m ≡ some b
      → (c_string b ≡ none → Q faults v)
      → ((x : Bytes) → c_string b ≡ some x → Always t (k x) v Q)
      → Always t (body_string m >>= k) v Q
  body-then m b k owned bad good a u e = elim (Option-cases (c_string b)) [
    | inl z ↦ rw ((e b owned).1, (e b owned).0, z) (bad z)
    | inr (x, z) ↦ rw ((e b owned).1, (e b owned).0, z) (good x z)
  ]

  pub free-then :
      (m : ℕ) (b : Bytes) (k : Unit {0} → Prog A)
      → v.body m ≡ some b
      → Always t (k tt) (set_body m none v) Q
      → Always t (act (msg_free m) >>= k) v Q
  free-then m b k owned h a u e = rw (e b owned) h

-- The same at the end of a program.
module _ (t : Texts) (v : View) (Q : Post (Unit {0})) where
  pub free-last :
      (m : ℕ) (b : Bytes)
      → v.body m ≡ some b
      → Q (returns tt) (set_body m none v)
      → Always t (act (msg_free m)) v Q
  free-last m b owned h a u e = rw (e b owned) h

  pub sleep-last : (n : ℕ) → Q (returns tt) (happen (slept n) v) → Always t (act (sleep n)) v Q
  sleep-last n h a u e = rw e h

-- What always holds holds of every run.
pub run-Always {ℓ} :
    {t : Texts} (h : Host t) {A : Type ℓ} (p : Prog A) (w : h.World) (Q : Post A)
    → Always t p (h.view w) Q
    → Q (run h p w).0 (h.view (run h p w).1)
unfolding run
run-Always h (ret a) w Q g = g
run-Always h (exit n) w Q g = g
run-Always h fault w Q g = g
run-Always h (call c k) w Q g =
    run-Always h (k (h.answer w c)) (h.next w c) Q (g _ _ (h.documented w c))
