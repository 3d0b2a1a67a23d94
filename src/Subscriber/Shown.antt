-- ===== src/Subscriber/Shown.antt =====
-- What the subscriber prints.
use nng_examples.Prelude.{ℕ, ◌≡◌, refl, List, Option, some, none}
use nng_examples.Bytes.{Bytes, text}
use nng_examples.Platform.{
  sub0, sub_subscribe, set_option, dial, argv, deref, stdout, ◌>>=◌, Outcome, exits, faults,
}
use nng_examples.Platform.Documented.{Texts, View, dialed, configured, happen}
use nng_examples.Platform.Host.{Host, run, after}
use nng_examples.Platform.Rules.{Always, Always-mono, run-Always}
use nng_examples.Platform.Loop.{forever, Looped, forever-Always}
use nng_examples.Checked.{check}
use nng_examples.Checked.Rules.{Failed, check-then}
use nng_examples.Checked.Startup.{Started, startup-Always}
use nng_examples.Checked.Shown.{Shown, Unshown, show-Round}
use nng_examples.Subscriber.{show, main}

-- The ends of a subscriber on socket `s` with third argument `arg`: the argument is missing and its
-- null pointer used, the subscription failed, or it was made, to just that text, and the loop ended.
pub data Subscribed (t : Texts) (s n : ℕ) (arg : Option Bytes) (v : View) (o : Outcome (Unit {0}))
    (u : View) : Type 0 where
  no_subject : arg ≡ none → o ≡ faults → u.log ≡ v.log → Subscribed t s n arg v o u
  refused : o ≡ exits 1 → Failed t v.log u → Subscribed t s n arg v o u
  followed :
      (subject : Bytes)
      → arg ≡ some subject
      → Looped
          (Shown stdout (text " Got ") s)
          (Unshown t s)
          n
          (happen (configured s (sub_subscribe subject)) v)
          o
          u
      → Subscribed t s n arg v o u

subscribe-Subscribed :
    (t : Texts) (s n : ℕ) (arg o : Option Bytes) (doing : Bytes) (v : View)
    → arg ≡ o
    → Always t
        (deref o >>= λ x. check (set_option s (sub_subscribe x)) doing >>= λ _. forever n (show s))
        v
        (Subscribed t s n arg v)
unfolding show
subscribe-Subscribed t s n arg none doing v e = no_subject e refl refl
subscribe-Subscribed t s n arg (some x) doing v e =
    let w = happen (configured s (sub_subscribe x)) v in
    let R = Shown stdout (text " Got ") s in
    check-then t v (Subscribed t s n arg v) (λ u f. refused refl f) (set_option s (sub_subscribe x))
      doing (λ _. forever n (show s)) v w refl (λ a u z. z)
      (Always-mono t (forever n (show s)) w (Looped R (Unshown t s) n w) (Subscribed t s n arg v)
        (λ o u l. followed x e l)
        (forever-Always R (Unshown t s) t (show s) (show-Round t stdout (text " Got ") _ s) n w))

-- Whatever nng does within its documentation, the subscriber run for `n` turns ends by a failed start,
-- by the use of a missing argument, or after dialing and one subscription, to the very text of its
-- argument, as `Looped` says: each turn prints one received message on stdout, under the process id,
-- and frees it.
pub subscriber_main-Started :
    {t : Texts} (h : Host t) (n : ℕ) (args : List Bytes) (w : h.World)
    → Started t sub0 dialed
        (argv args 1)
        (h.view w)
        (λ s. Subscribed t s n (argv args 2))
        (run h (main n args) w).0
        (after h (main n args) w)
unfolding main
subscriber_main-Started {t} h n args w = run-Always h (main n args) w _ (
    startup-Always t sub0 dialed (argv args 1) (h.view w) dial _ _ _ _ (λ s uri x a u e. e)
      (λ s x _ _. subscribe-Subscribed t s n (argv args 2) (argv args 2) _ x refl))
