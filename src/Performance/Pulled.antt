-- ===== src/Performance/Pulled.antt =====
-- What the pulling threads of performance/pushpull.cpp do.
use nng_examples.Prelude.{
  ℕ, zero, suc, ◌<◌, ◌≡◌, ◌⊎◌, refl, ap, inl, inr, List, [], ◌∷◌, some, true, false, length, All,
  arith, Bool,
}
use nng_examples.Bytes.{Bytes}
use nng_examples.Platform.{
  Outcome, returns, exits, faults, pull0, dial, close_socket, ◌>>◌, ret, act, free_bytes,
}
use nng_examples.Platform.Documented.{Texts, View, Event, received, dialed, closed}
use nng_examples.Platform.Host.{Host, run, after}
use nng_examples.Platform.Rules.{Always, Always-mono, run-Always}
use nng_examples.Checked.Rules.{Failed}
use nng_examples.Checked.Startup.{Started, startup-Always}
use nng_examples.Performance.Drain.{
  heard, GoesOn, IsLast, holding, recv_alloc-then, free_bytes-then, first-then, zero-then,
}
use nng_examples.Performance.Pushpull.{pull_until_end, puller}

-- The ends of the loop, as far as it is followed, after the events `l`: messages of which all but the
-- last begin with 0 came, nothing of them is kept, and closing the socket was asked for; or `fuel`
-- came that begin with 0; or the process ends by a call that failed, or on a message of no bytes.
pub data Pulled (t : Texts) (s fuel : ℕ) (l : List Event) (v : View) (o : Outcome Bool) (u : View)
    : Type 0 where
  ended :
      (bs : List Bytes) (last : Bytes)
      → length bs < fuel
      → All GoesOn bs
      → IsLast last
      → o ≡ returns true
      → (u ≡ record v { log = received s last ∷ heard s bs l })
        ⊎ (u ≡ record v { log = closed s ∷ received s last ∷ heard s bs l })
      → Pulled t s fuel l v o u
  still :
      (bs : List Bytes)
      → length bs ≡ fuel
      → All GoesOn bs
      → o ≡ returns false
      → u ≡ record v { log = heard s bs l }
      → Pulled t s fuel l v o u
  failed :
      (bs : List Bytes)
      → length bs < fuel
      → All GoesOn bs
      → o ≡ exits 1
      → Failed t (heard s bs l) u
      → Pulled t s fuel l v o u
  empty :
      (bs : List Bytes)
      → length bs < fuel
      → All GoesOn bs
      → o ≡ faults
      → u.log ≡ received s [] ∷ heard s bs l
      → Pulled t s fuel l v o u

Pulled-suc :
    (t : Texts) (s fuel : ℕ) (l : List Event) (v : View) (o : Outcome Bool) (u : View) (b : Bytes)
    → GoesOn b
    → Pulled t s fuel (received s b ∷ l) v o u
    → Pulled t s (suc fuel) l v o u
Pulled-suc t s fuel l v o u b g (ended bs last n gs z e w) =
    ended (b ∷ bs) last (omega arith) (g, gs) z e w
Pulled-suc t s fuel l v o u b g (still bs n gs e w) = still (b ∷ bs) (ap suc n) (g, gs) e w
Pulled-suc t s fuel l v o u b g (failed bs n gs e f) = failed (b ∷ bs) (omega arith) (g, gs) e f
Pulled-suc t s fuel l v o u b g (empty bs n gs e w) = empty (b ∷ bs) (omega arith) (g, gs) e w

pull-Always :
    (t : Texts) (s fuel : ℕ) (v : View) (l : List Event)
    → Always t (pull_until_end s fuel) (record v { log = l }) (Pulled t s fuel l v)
unfolding pull_until_end
pull-Always t s zero v l = still [] refl tt refl refl
pull-Always t s (suc fuel) v l =
    let w = record v { log = l } in
    let Q = Pulled t s (suc fuel) l v in
    recv_alloc-then t w Q (λ u f. failed [] (omega arith) tt refl f) s _ _
      λ a fresh.
        let m = received s a.bytes ∷ l in
        let end =
          λ (k : List Event)
              (e : (record v { log = k } ≡ record v { log = m })
                ⊎ (record v { log = k } ≡ record v { log = closed s ∷ m }))
              (last : IsLast a.bytes).
            free_bytes-then t w Q a k (λ _. ret true) fresh
              (ended [] a.bytes (omega arith) tt last refl e) in
        first-then t (holding s a w) Q a.bytes _ (λ e. empty [] (omega arith) tt refl (rw e refl))
          λ x goes last.
            zero-then t (holding s a w) Q x
              (act (free_bytes a.value (length a.bytes)) >> pull_until_end s fuel)
              (act (close_socket s) >> (act (free_bytes a.value (length a.bytes)) >> ret true))
              (λ z.
                free_bytes-then t w Q a m (λ _. pull_until_end s fuel) fresh
                  (Always-mono t (pull_until_end s fuel) (record v { log = m })
                    (Pulled t s fuel m v) Q
                    (λ o u d. Pulled-suc t s fuel l v o u a.bytes (goes z) d)
                    (pull-Always t s fuel v m)))
              (λ ne a1 u1 e1. elim e1 [
                | inl (bad, same) ↦ rw same (end m (inl refl) (last ne))
                | inr (good, now) ↦ rw now (end (closed s ∷ m) (inr refl) (last ne))
              ])

pub puller-Always :
    (t : Texts) (fuel : ℕ) (uri : Bytes) (v : View)
    → Always t
        (puller fuel uri)
        v
        (Started t pull0 dialed (some uri) v (λ s w. Pulled t s fuel w.log w))
unfolding puller
puller-Always t fuel uri v =
    startup-Always t pull0 dialed (some uri) v dial _ _ _ _ (λ s x y a u e. e)
      (λ s w _ _. pull-Always t s fuel w w.log)

-- All ends of a thread that pulls, whatever nng does within its documentation and if its loop is
-- followed for `fuel` messages: a failed start, or after dialing the address as `Pulled` says: it
-- returns after the first message that does not begin with 0, every message before which does begin
-- with 0, and each of which it has freed; or all of the `fuel` messages begin with 0; or a call fails,
-- or a message has no bytes.
pub puller-Started :
    {t : Texts} (h : Host t) (fuel : ℕ) (uri : Bytes) (w : h.World)
    → Started t pull0 dialed
        (some uri)
        (h.view w)
        (λ s v. Pulled t s fuel v.log v)
        (run h (puller fuel uri) w).0
        (after h (puller fuel uri) w)
puller-Started {t} h fuel uri w =
    run-Always h (puller fuel uri) w _ (puller-Always t fuel uri (h.view w))
