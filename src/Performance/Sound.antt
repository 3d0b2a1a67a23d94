-- ===== src/Performance/Sound.antt =====
-- Each thread that returns has done its job.
use nng_examples.Performance.Answering.{replier-Reaches, responder-Reaches}
use nng_examples.Performance.Member
use nng_examples.Performance.Goals.{Countable, Reaches, Goal}
use nng_examples.Performance.Threads.{work}
use nng_examples.Performance.Pubsub
use nng_examples.Performance.Pushpull
use nng_examples.Checked.Startup.{Started, not_opened, no_argument, not_connected, running}
use nng_examples.Performance.Pulled.{Pulled, ended, still, failed, empty, puller-Always}
use nng_examples.Performance.Subscribed.{
  Subscribed, not_subscribed, closing, looping, subscriber-Always,
}
use nng_examples.Prelude.{ℕ, ◌<◌, ◌≡◌, ◌^◌, refl, ◌∷◌, some, inl, inr, Bool, true}
use nng_examples.Bytes.{Bytes}
use nng_examples.Platform.{
  Job, pair_receiver, rep_replier, sub_subscriber, pull_puller, respondent_responder, bus_receiver,
  Prog, ret, Outcome, ◌>>◌, pair0, sub0, pull0, listen, open_socket,
}
use nng_examples.Platform.Documented.{Texts, View, opened, listening, dialed, happen}
use nng_examples.Platform.Rules.{Always, Always-mono, Always-imply, Always-assoc}
use nng_examples.Checked.{check, checked}
use nng_examples.Checked.Rules.{open-then, check-then}
use nng_examples.Performance.Pair
use nng_examples.Performance.Answers.{receive_loop-then}

countably :
    (t : Texts) (formatted : Bytes → ℕ → Bytes) (v : View) (j : Job) (p : Prog Bool)
    → (Countable j → Always t p v (Reaches formatted v j))
    → Always t p v (Goal formatted v j)
countably t formatted v j p h =
    Always-mono t p v (λ o u. Countable j → Reaches formatted v j o u) (Goal formatted v j)
      (λ o u f z few. f few z) (Always-imply t (Countable j) p v (Reaches formatted v j) h)

module _ (t : Texts) (formatted : Bytes → ℕ → Bytes) (uri : Bytes) (v : View) where
  receiver-Reaches :
      (n : ℕ)
      → n < 2 ^ 31
      → Always t (Pair.receiver uri n >> ret true) v (Reaches formatted v (pair_receiver uri n))
  unfolding Pair.receiver
  receiver-Reaches n few =
      let Q = Reaches formatted v (pair_receiver uri n) in
      Always-assoc t (checked (open_socket pair0) _) _ (λ _. ret true) v Q
        (open-then t v Q (λ u f z. cc) pair0 _ _
          λ s.
            let w = happen (opened pair0 s) v in
            Always-assoc t (check (listen s uri) _) _ (λ _. ret true) w Q
              (check-then t w Q (λ u f z. cc) (listen s uri) _ _ w (happen (listening s uri) w) refl
                (λ a u e. e)
                (receive_loop-then t v Q (λ u z. cc) s _ (λ _. ret true) n
                  (listening s uri ∷ opened pair0 s ∷ v.log) few (λ bs e z. (s, bs, e, refl)))))

  subscriber-Reaches :
      (fuel : ℕ)
      → Always t (Pubsub.subscriber fuel uri) v (Reaches formatted v (sub_subscriber uri))
  subscriber-Reaches fuel =
      Always-mono t (Pubsub.subscriber fuel uri) v
        (Started t sub0 dialed (some uri) v (Subscribed t fuel))
        (Reaches formatted v (sub_subscriber uri)) reached (subscriber-Always t fuel uri v)
    where
      all_of :
          (s : ℕ) (w : View) (o : Outcome Bool) (u : View)
          → w ≡ happen (dialed s uri) (happen (opened sub0 s) v)
          → Subscribed t fuel s w o u
          → Reaches formatted v (sub_subscriber uri) o u
      all_of s w o u from (not_subscribed e f) z = cc
      all_of s w o u from (closing bs last n gs l (inl (e, now))) z =
          (s, bs, last, gs, l, rw from at now)
      all_of s w o u from (closing bs last n gs l (inr (e, f))) z = cc
      all_of s w o u from (looping ne d) z = absurd (ne z)

      reached :
          (o : Outcome Bool) (u : View)
          → Started t sub0 dialed (some uri) v (Subscribed t fuel) o u
          → Reaches formatted v (sub_subscriber uri) o u
      reached o u (not_opened e f) z = cc
      reached o u (no_argument s e f l) z = cc
      reached o u (not_connected s x e e' f) z = cc
      reached o u (running s x e d) z = let same : uri ≡ x = cc in all_of s _ o u (rw same refl) d z

  puller-Reaches :
      (fuel : ℕ) → Always t (Pushpull.puller fuel uri) v (Reaches formatted v (pull_puller uri))
  puller-Reaches fuel =
      Always-mono t (Pushpull.puller fuel uri) v
        (Started t pull0 dialed (some uri) v (λ s w. Pulled t s fuel w.log w))
        (Reaches formatted v (pull_puller uri)) reached (puller-Always t fuel uri v)
    where
      all_of :
          (s : ℕ) (w : View) (o : Outcome Bool) (u : View)
          → w ≡ happen (dialed s uri) (happen (opened pull0 s) v)
          → Pulled t s fuel w.log w o u
          → Reaches formatted v (pull_puller uri) o u
      all_of s w o u from (ended bs last n gs l e now) z = (s, bs, last, gs, l, rw from at now)
      all_of s w o u from (still bs n gs e now) z = cc
      all_of s w o u from (failed bs n gs e f) z = cc
      all_of s w o u from (empty bs n gs e l) z = cc

      reached :
          (o : Outcome Bool) (u : View)
          → Started t pull0 dialed (some uri) v (λ s w. Pulled t s fuel w.log w) o u
          → Reaches formatted v (pull_puller uri) o u
      reached o u (not_opened e f) z = cc
      reached o u (no_argument s e f l) z = cc
      reached o u (not_connected s x e e' f) z = cc
      reached o u (running s x e d) z = let same : uri ≡ x = cc in all_of s _ o u (rw same refl) d z

-- Every job, in the code of its thread.
pub work-Goal :
    (t : Texts) (formatted : Bytes → ℕ → Bytes) (fuel : ℕ) (v : View) (j : Job)
    → Always t (work formatted fuel j) v (Goal formatted v j)
unfolding work
work-Goal t formatted fuel v (pair_receiver uri n) =
    countably t formatted v (pair_receiver uri n) _ (receiver-Reaches t formatted uri v n)
work-Goal t formatted fuel v (rep_replier uri n size) =
    countably t formatted v (rep_replier uri n size) _ (replier-Reaches t formatted uri v n size)
work-Goal t formatted fuel v (sub_subscriber uri) =
    countably t formatted v (sub_subscriber uri) _ (λ _. subscriber-Reaches t formatted uri v fuel)
work-Goal t formatted fuel v (pull_puller uri) =
    countably t formatted v (pull_puller uri) _ (λ _. puller-Reaches t formatted uri v fuel)
work-Goal t formatted fuel v (respondent_responder uri n size) =
    countably t formatted v (respondent_responder uri n size) _
      (responder-Reaches t formatted uri v n size)
work-Goal t formatted fuel v (bus_receiver base size me nmsg p) =
    countably t formatted v (bus_receiver base size me nmsg p) _
      (λ _. Member.receiver-Reaches t v formatted base size me nmsg p fuel)
