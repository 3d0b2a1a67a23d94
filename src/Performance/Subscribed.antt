-- ===== src/Performance/Subscribed.antt =====
-- What the subscribing threads of performance/pubsub.cpp do.
use nng_examples.Prelude.{
  ℕ, zero, suc, ◌<◌, ◌≡◌, ◌≢◌, ◌⊎◌, ◌==◌, refl, ap, inl, inr, List, [], ◌∷◌, some, true, false,
  length, All, arith, Bool,
}
use nng_examples.Bytes.{Bytes, text}
use nng_examples.Platform.{
  Outcome, returns, exits, faults, sub0, sub_subscribe, dial, set_option, close_socket, ◌>>◌, ◌>>=◌,
  ret,
}
use nng_examples.Platform.Documented.{
  Texts, View, Event, received, dialed, configured, closed, happen,
}
use nng_examples.Platform.Host.{Host}
use nng_examples.Platform.Rules.{Always, Then, Always-bind, Always-mono}
use nng_examples.Checked.{check}
use nng_examples.Checked.Rules.{Failed, check-then}
use nng_examples.Checked.Startup.{Started, startup-Always}
use nng_examples.Performance.Drain.{
  heard, GoesOn, IsLast, holding, recv_alloc-then, free_bytes-then, first-then, zero-then,
}
use nng_examples.Performance.Pubsub.{read_until_last, subscriber}

-- The ends of the loop, as far as it is followed: messages of which all but the last begin with 0
-- came, and nothing of them is kept; or `fuel` came that begin with 0; or the process ends by a call
-- that failed, or on a message of no bytes.
pub data Drained (t : Texts) (s fuel : ℕ) (l : List Event) (v : View) (o : Outcome Bool) (u : View)
    : Type 0 where
  ended :
      (bs : List Bytes) (last : Bytes)
      → length bs < fuel
      → All GoesOn bs
      → IsLast last
      → o ≡ returns true
      → u ≡ record v { log = received s last ∷ heard s bs l }
      → Drained t s fuel l v o u
  still :
      (bs : List Bytes)
      → length bs ≡ fuel
      → All GoesOn bs
      → o ≡ returns false
      → u ≡ record v { log = heard s bs l }
      → Drained t s fuel l v o u
  failed :
      (bs : List Bytes)
      → length bs < fuel
      → All GoesOn bs
      → o ≡ exits 1
      → Failed t (heard s bs l) u
      → Drained t s fuel l v o u
  empty :
      (bs : List Bytes)
      → length bs < fuel
      → All GoesOn bs
      → o ≡ faults
      → u.log ≡ received s [] ∷ heard s bs l
      → Drained t s fuel l v o u

pub Drained-suc :
    (t : Texts) (s fuel : ℕ) (l : List Event) (v : View) (o : Outcome Bool) (u : View) (b : Bytes)
    → GoesOn b
    → Drained t s fuel (received s b ∷ l) v o u
    → Drained t s (suc fuel) l v o u
Drained-suc t s fuel l v o u b g (ended bs last n gs z e w) =
    ended (b ∷ bs) last (omega arith) (g, gs) z e w
Drained-suc t s fuel l v o u b g (still bs n gs e w) = still (b ∷ bs) (ap suc n) (g, gs) e w
Drained-suc t s fuel l v o u b g (failed bs n gs e f) = failed (b ∷ bs) (omega arith) (g, gs) e f
Drained-suc t s fuel l v o u b g (empty bs n gs e w) = empty (b ∷ bs) (omega arith) (g, gs) e w

drain-Always :
    (t : Texts) (s fuel : ℕ) (v : View) (l : List Event)
    → Always t (read_until_last s fuel) (record v { log = l }) (Drained t s fuel l v)
unfolding read_until_last
drain-Always t s zero v l = still [] refl tt refl refl
drain-Always t s (suc fuel) v l =
    let w = record v { log = l } in
    let Q = Drained t s (suc fuel) l v in
    recv_alloc-then t w Q (λ u f. failed [] (omega arith) tt refl f) s _ _
      λ a fresh.
        first-then t (holding s a w) Q a.bytes _ (λ e. empty [] (omega arith) tt refl (rw e refl))
          λ x goes last.
            free_bytes-then t w Q a (received s a.bytes ∷ l)
              (λ _. elim (x == 0) [ true ↦ read_until_last s fuel | false ↦ ret true ]) fresh
              (zero-then t (happen (received s a.bytes) w) Q x (read_until_last s fuel) (ret true)
                (λ z.
                  Always-mono t (read_until_last s fuel) (happen (received s a.bytes) w)
                    (Drained t s fuel (received s a.bytes ∷ l) v) Q
                    (λ o u d. Drained-suc t s fuel l v o u a.bytes (goes z) d)
                    (drain-Always t s fuel v (received s a.bytes ∷ l)))
                (λ ne. ended [] a.bytes (omega arith) tt (last ne) refl refl))

-- The ends of a thread that has dialed and whose socket is `s`: the subscription to all messages
-- failed, or the loop ended and the socket was closed, or closing it failed.
pub data Subscribed (t : Texts) (fuel s : ℕ) (v : View) (o : Outcome Bool) (u : View) : Type 0 where
  not_subscribed : o ≡ exits 1 → Failed t v.log u → Subscribed t fuel s v o u
  closing :
      (bs : List Bytes) (last : Bytes)
      → length bs < fuel
      → All GoesOn bs
      → IsLast last
      → ((o ≡ returns true)
          × (u ≡ record v {
            log = closed s ∷ received s last ∷ heard s bs (configured s (sub_subscribe []) ∷ v.log);
          }))
        ⊎ ((o ≡ exits 1)
            × Failed t (received s last ∷ heard s bs (configured s (sub_subscribe []) ∷ v.log)) u)
      → Subscribed t fuel s v o u
  looping :
      o ≢ returns true
      → Drained t s fuel (configured s (sub_subscribe []) ∷ v.log) v o u
      → Subscribed t fuel s v o u

module _ (t : Texts) (fuel s : ℕ) (v : View) where
  after_loop :
      (o : Outcome Bool) (w : View)
      → Drained t s fuel (configured s (sub_subscribe []) ∷ v.log) v o w
      → Then t
          (λ done. elim done [
            | false ↦ ret false
            | true ↦ (check (close_socket s) (text "Subscriber closing socket.") >> ret true)
          ])
          (Subscribed t fuel s v)
          o
          w
  after_loop o w (ended bs last n gs z e now) =
      rw (e, now)
        (check-then t w' _ (λ u f. closing bs last n gs z (inr (refl, f))) (close_socket s) _ _ w'
          (happen (closed s) w') refl (λ a u x. x) (closing bs last n gs z (inl (refl, refl))))
    where
      w' : View
      w' = record v { log = received s last ∷ heard s bs (configured s (sub_subscribe []) ∷ v.log) }
  after_loop o w (still bs n gs e now) = rw (e, now) (looping (λ z. cc) (still bs n gs refl refl))
  after_loop o w (failed bs n gs e f) = rw e (looping (λ z. cc) (failed bs n gs refl f))
  after_loop o w (empty bs n gs e l) = rw e (looping (λ z. cc) (empty bs n gs refl l))

  subscribed-Always :
      Always t
        (check (set_option s (sub_subscribe [])) (text "Subscsriber could not set subscription")
          >> (read_until_last s fuel >>= λ done. elim done [
            | false ↦ ret false
            | true ↦ (check (close_socket s) (text "Subscriber closing socket.") >> ret true)
          ]))
        v
        (Subscribed t fuel s v)
  subscribed-Always =
      let w = happen (configured s (sub_subscribe [])) v in
      check-then t v (Subscribed t fuel s v) (λ u f. not_subscribed refl f)
        (set_option s (sub_subscribe [])) _ _ v w refl (λ a u e. e)
        (Always-bind t (read_until_last s fuel) _ w (Subscribed t fuel s v) (
          Always-mono t (read_until_last s fuel) w (Drained t s fuel w.log v) _ after_loop
            (drain-Always t s fuel v w.log)))

pub subscriber-Always :
    (t : Texts) (fuel : ℕ) (uri : Bytes) (v : View)
    → Always t (subscriber fuel uri) v (Started t sub0 dialed (some uri) v (Subscribed t fuel))
unfolding subscriber
subscriber-Always t fuel uri v =
    startup-Always t sub0 dialed (some uri) v dial _ _ _ _ (λ s x y a u e. e)
      (λ s w _ _. subscribed-Always t fuel s w)
