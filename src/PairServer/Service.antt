-- ===== src/PairServer/Service.antt =====
-- What the peer of onetoones.cpp gets.
use nng_examples.Prelude.{ℕ, zero, suc, ◌≡◌, ◌⊎◌, inl, inr, refl, ◌++◌, ◌∷◌, List, some}
use nng_examples.Bytes.{
  Bytes, text, terminated, c_string, c_string-terminated, IsText, all_nonzero, all_nonzero-IsText,
  append-IsText,
}
use nng_examples.Bytes.Decimal.{decimal, decimal-IsText}
use nng_examples.Platform.{pair0, listen, argv, Outcome, returns, exits, faults}
use nng_examples.Platform.Documented.{Texts, View, sent, received, listening, happen, set_body}
use nng_examples.Platform.Host.{Host, run, after}
use nng_examples.Platform.Rules.{Always, pid-then, run-Always}
use nng_examples.Platform.Loop.{Round, Looped, forever-Always}
use nng_examples.Checked.Rules.{Failed, receive-then, forward-then, send-last}
use nng_examples.Checked.Startup.{Started, startup-Always}
use nng_examples.PairServer.{introduction, service, main}

-- One message served: it was sent back byte for byte, then a second one, which reads as the
-- introduction with the server's process id; the server owns the messages that it owned before.
pub record Echoed (s : ℕ) (v u : View) : Type 0 where
  pub got : Bytes
  pub gave : Bytes
  pub introduces : c_string gave ≡ some (introduction v.pid)
  pub log : u.log ≡ sent s gave ∷ sent s got ∷ received s got ∷ v.log
  pub owned : u.body ≡ v.body
  pub pid : u.pid ≡ v.pid

-- The server stops only by a call that fails: before a message came, before its echo, or after it.
abbrev pub Stopped : Texts → ℕ → Outcome (Unit {0}) → View → View → Type 0
Stopped t s (returns _) v u = ⊥
Stopped t s (exits zero) v u = ⊥
Stopped t s (exits (suc zero)) v u =
    Failed t v.log u
    ⊎ ((got : Bytes) × (Failed t (received s got ∷ v.log) u
          ⊎ Failed t (sent s got ∷ received s got ∷ v.log) u))
Stopped t s (exits (suc (suc n))) v u = ⊥
Stopped t s faults v u = ⊥

greeting-IsText : IsText (text "My Pid, by the way is, ")
unfolding text all_nonzero
greeting-IsText = all_nonzero-IsText (text "My Pid, by the way is, ") refl

introduction-IsText : (pid : ℕ) → IsText (introduction pid)
introduction-IsText pid = append-IsText _ (decimal pid) greeting-IsText (decimal-IsText pid)

pub service-Round :
    (t : Texts) (s : ℕ) (v : View) → Always t (service s) v (Round (Echoed s) (Stopped t s) v)
unfolding service
service-Round t s v =
    receive-then t v _ (λ u f. inl f) s _ _
      λ m got free.
        let w = happen (received s got) v in
        let Q = Round (Echoed s) (Stopped t s) v in
        forward-then t w Q (λ u f. inr (got, inl f)) s m got _ _ (set_body m (some got) w) refl refl
          free
          (pid-then t (happen (sent s got) w) Q _ (
            send-last t (happen (sent s got) w) Q (λ u f. inr (got, inr f)) s _
              (terminated (introduction v.pid)) _ _ _
              λ b size. record {
                got = got;
                gave = terminated (introduction v.pid) ++ b;
                introduces = c_string-terminated (introduction v.pid) b (introduction-IsText v.pid);
                log = refl;
                owned = refl;
                pid = refl;
              }))

-- Whatever nng does within its documentation, the server run for `n` turns ends by a failed start, by
-- the use of a missing argument, or after listening as `Looped` says: each turn echoes one message
-- and introduces itself, and the loop ends early by a failed call alone.
pub pair_server_main-Started :
    {t : Texts} (h : Host t) (n : ℕ) (args : List Bytes) (w : h.World)
    → Started t pair0 listening
        (argv args 1)
        (h.view w)
        (λ s. Looped (Echoed s) (Stopped t s) n)
        (run h (main n args) w).0
        (after h (main n args) w)
unfolding main
pair_server_main-Started {t} h n args w = run-Always h (main n args) w _ (
    startup-Always t pair0 listening (argv args 1) (h.view w) listen _ _ _ _ (λ s uri x a u e. e)
      (λ s x _ _. forever-Always (Echoed s) (Stopped t s) t (service s) (service-Round t s) n x))
