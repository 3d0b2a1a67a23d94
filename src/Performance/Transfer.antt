-- ===== src/Performance/Transfer.antt =====
-- What the receiving thread of performance/pair.cpp does.
use nng_examples.Prelude.{ℕ, ◌^◌, ◌<◌, some}
use nng_examples.Bytes.{Bytes}
use nng_examples.Platform.{pair0, listen}
use nng_examples.Platform.Documented.{Texts, listening}
use nng_examples.Platform.Host.{Host, run, after}
use nng_examples.Platform.Rules.{run-Always}
use nng_examples.Platform.Loop.{Looped}
use nng_examples.Checked.Startup.{Started, startup-Always}
use nng_examples.Performance.Pair.{receiver}
use nng_examples.Performance.Rules.{Received, Broken, receive_loop-Looped}

-- If an int can count the messages, the receiving thread, whatever nng does within its documentation,
-- ends by a failed start or after listening on the address as `Looped` says: it receives `nmsg`
-- messages and frees the buffer of each with its size, or the process ends by a failed call after
-- fewer of them.
pub receiver-Started :
    {t : Texts} (h : Host t) (nmsg : ℕ) (uri : Bytes) (w : h.World)
    → nmsg < 2 ^ 31
    → Started t pair0 listening
        (some uri)
        (h.view w)
        (λ s. Looped (Received s) (Broken t) nmsg)
        (run h (receiver uri nmsg) w).0
        (after h (receiver uri nmsg) w)
unfolding receiver
receiver-Started {t} h nmsg uri w few = run-Always h (receiver uri nmsg) w _ (
    startup-Always t pair0 listening (some uri) (h.view w) listen _ _ _ _ (λ s x y a u e. e)
      (λ s v _ _. receive_loop-Looped t s nmsg _ v few))
