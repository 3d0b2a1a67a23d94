-- ===== src/Pull/Shown.antt =====
-- What the puller prints.
use nng_examples.Prelude.{ℕ, List}
use nng_examples.Bytes.{Bytes, text}
use nng_examples.Platform.{pull0, dial, argv, stderr}
use nng_examples.Platform.Documented.{Texts, dialed}
use nng_examples.Platform.Host.{Host, run, after}
use nng_examples.Platform.Rules.{run-Always}
use nng_examples.Platform.Loop.{Looped, forever-Always}
use nng_examples.Checked.Startup.{Started, startup-Always}
use nng_examples.Checked.Shown.{Shown, Unshown, show-Round}
use nng_examples.Pull.{pull, main}

-- Whatever nng does within its documentation, the puller run for `n` turns ends by a failed start, by
-- the use of a missing argument, or after dialing as `Looped` says: each turn prints one received
-- message on stderr, under the process id, and frees it; the loop ends early only by a failed call or
-- on a message without a terminator.
pub pull_main-Started :
    {t : Texts} (h : Host t) (n : ℕ) (args : List Bytes) (w : h.World)
    → Started t pull0 dialed
        (argv args 1)
        (h.view w)
        (λ s. Looped (Shown stderr (text " Received : ") s) (Unshown t s) n)
        (run h (main n args) w).0
        (after h (main n args) w)
unfolding main pull
pull_main-Started {t} h n args w = run-Always h (main n args) w _ (
    startup-Always t pull0 dialed (argv args 1) (h.view w) dial _ _ _ _ (λ s uri x a u e. e)
      (λ s x _ _.
        forever-Always (Shown stderr (text " Received : ") s) (Unshown t s) t (pull s)
          (show-Round t stderr (text " Received : ") _ s) n x))
