-- ===== src/Performance/Member.antt =====
-- What the receiving members of the bus in performance/bus.cpp do.
use nng_examples.Bus.{targets}
use nng_examples.Prelude.{
  map, ℕ, zero, suc, ◌≡◌, ◌==◌, refl, List, [], ◌∷◌, Option, none, some, Bool, true, false, ltb,
  arith, inl, inr, Bool-cases, ==_iff, length, All, sym, ◌∙◌,
}
use nng_examples.Performance.Goals.{address, Counted, Other, said, Returned, Reaches}
use nng_examples.Performance.Bus.{
  as_int, construct_endpoints, catch_up, await_end, say, leave, receiver,
}
use nng_examples.Performance.Addresses.{construct_endpoints-Addressed, as_int-IsIntOf}
use nng_examples.Performance.BusSetup.{deref-then, setup_bus-then, joining}
use nng_examples.Performance.Drain.{cases-then, heard, holding, recv_alloc-then, free_bytes-then}
use nng_examples.Bytes.{Bytes, text}
use nng_examples.Platform.{
  ret, exits, returns, faults, ◌>>◌, ◌>>=◌, deref, act, bus0, close_socket, free_bytes,
  bus_receiver,
}
use nng_examples.Platform.Documented.{
  Texts, View, Event, received, slept, closed, opened, promised, happen, load_word,
}
use mathlib.Core.Option.{some-injective}
use nng_examples.Platform.Host.{Host, run, after}
use nng_examples.Platform.Rules.{Always, Post, Always-bind, Then, run-Always}
use nng_examples.Checked.Rules.{check-then, open-then}

-- The loop up to the number `nmsg`, where `Q` does not mind the other ends.
catch_up-Always :
    (t : Texts) (s nmsg : ℕ) (v : View) (Q : Post (Option ℕ))
    → ((u : View) → Q (exits 1) u)
    → ((u : View) → Q faults u)
    → (fuel last : ℕ) (l : List Event)
    → ((bs : List Bytes) → Q (returns none) (record v { log = heard s bs l }))
    → ((seq : ℕ) (bs : List Bytes)
        → Counted nmsg last bs seq
        → Q (returns (some seq)) (record v { log = heard s bs l }))
    → Always t (catch_up s fuel nmsg last) (record v { log = l }) Q
unfolding catch_up
catch_up-Always t s nmsg v Q bad worse zero last l more done = more []
catch_up-Always t s nmsg v Q bad worse (suc fuel) last l more done =
    let w = record v { log = l } in
    cases-then t w Q (ltb last nmsg) _ _
      (λ low.
        recv_alloc-then t w Q (λ u f. bad u) s (text "Unable to receive a message from the bus.")
          (λ a. deref (load_word a.bytes) >>= λ seq.
            act (free_bytes a.value (length a.bytes)) >> catch_up s fuel nmsg seq)
          λ a fresh. deref-then t (holding s a w) Q (load_word a.bytes) _ (worse _) λ seq e.
            free_bytes-then t w Q a (received s a.bytes ∷ l) (λ _. catch_up s fuel nmsg seq) fresh
              (catch_up-Always t s nmsg v Q bad worse fuel seq (received s a.bytes ∷ l)
                (λ bs. more (a.bytes ∷ bs))
                (λ n bs c. done n (a.bytes ∷ bs) (ground arith, (seq, e, c)))))
      (λ high. done last [] (refl, ground arith))

await_end-Always :
    (t : Texts) (s : ℕ) (v : View) (Q : Post Bool)
    → ((u : View) → Q (exits 1) u)
    → ((u : View) → Q faults u)
    → (fuel : ℕ) (l : List Event)
    → ((bs : List Bytes) → Q (returns false) (record v { log = heard s bs l }))
    → ((bs : List Bytes) (last : Bytes)
        → All Other bs
        → load_word last ≡ some 0xffffffff
        → Q (returns true) (record v { log = received s last ∷ heard s bs l }))
    → Always t (await_end s fuel) (record v { log = l }) Q
unfolding await_end
await_end-Always t s v Q bad worse zero l more done = more []
await_end-Always t s v Q bad worse (suc fuel) l more done =
    let w = record v { log = l } in
    recv_alloc-then t w Q (λ u f. bad u) s _ _
      λ a fresh. deref-then t (holding s a w) Q (load_word a.bytes) _ (worse _) λ flag e.
        free_bytes-then t w Q a (received s a.bytes ∷ l)
          (λ _. elim (flag == 0xffffffff) [ true ↦ ret true | false ↦ await_end s fuel ]) fresh
          (elim (Bool-cases (flag == 0xffffffff)) [
            | inl z ↦ rw z (done [] a.bytes tt (rw (← (==_iff flag 0xffffffff).0 z) e))
            | inr z ↦
                let other : Other a.bytes =
                  λ y. cc ((==_iff flag 0xffffffff).1 (some-injective _ _ (sym e ∙ y))) in
                rw z (
                  await_end-Always t s v Q bad worse fuel (received s a.bytes ∷ l)
                    (λ bs. more (a.bytes ∷ bs))
                    (λ bs last others. done (a.bytes ∷ bs) last (other, others)))
          ])

module _ (t : Texts) (v : View) (formatted : Bytes → ℕ → Bytes) (base : Bytes)
    (size me nmsg promise : ℕ) where
  -- What the thread is bound for.
  abbrev Q : Post Bool
  Q = Reaches formatted v (bus_receiver base size me nmsg promise)

  -- The events up to the last of the numbers.
  abbrev joined : ℕ → List ℕ → List Bytes → List Event
  joined s aims bs = heard s bs (
      joining s (address formatted base me) (map (address formatted base) aims)
        (opened bus0 s ∷ v.log))

  -- After the wait for the last message.
  leave-Reaches :
      (s fuel seq : ℕ) (aims : List ℕ) (bs : List Bytes)
      → targets size me ≡ some aims
      → Counted nmsg 0 bs seq
      → Always t
          (leave fuel me s)
          (record v { log = promised promise (as_int seq) ∷ joined s aims bs })
          Q
  unfolding leave say
  leave-Reaches s fuel seq aims bs aim high a u e =
      let m =
        said me (text " Waiting for end") ∷ promised promise (as_int seq) ∷ joined s aims bs in
      rw e (
        Always-bind t (await_end s fuel) _ (record v { log = m }) Q
          (await_end-Always t s v (Then t _ Q) (λ u z. cc) (λ u z. cc) fuel m (λ ends z. cc)
            λ ends last others flag a1 u1 e1 a2 u2 e2.
              rw (e2, e1)
                (let w = record v {
                  log =
                      slept 2
                      ∷ said me (text " sleeping then exiting")
                      ∷ received s last
                      ∷ heard s ends m;
                } in
                  check-then t w Q (λ u f z. cc) (close_socket s) _ _ w (happen (closed s) w) refl
                    (λ a u e. e)
                    λ a3 u3 e3 z. (
                      s,
                      aims,
                      bs,
                      ends,
                      last,
                      seq,
                      as_int seq,
                      aim,
                      high,
                      as_int-IsIntOf seq,
                      others,
                      flag,
                      e3,
                    ))))

  pub receiver-Reaches :
      (fuel : ℕ) → Always t (receiver formatted fuel base size me nmsg promise) v Q
  unfolding receiver
  receiver-Reaches fuel =
      deref-then t v Q (construct_endpoints formatted base size) _ (λ z. cc)
        λ us e.
          let known = construct_endpoints-Addressed formatted base size us e in
          open-then t v Q (λ u f z. cc) bus0 _ _
            λ s.
              setup_bus-then t us me s (happen (opened bus0 s) v) Q _ (λ u z. cc) (λ u z. cc)
                λ mine aims xs at_me aim es.
                  rw (known.one me mine at_me, known.all aims xs es)
                    (let l = joined s aims [] in
                      let aim' : targets size me ≡ some aims = rw known.many at aim in
                      Always-bind t (catch_up s fuel nmsg 0) _ (record v { log = l }) Q
                        (catch_up-Always t s nmsg v (Then t _ Q) (λ u z. cc) (λ u z. cc) fuel 0 l
                          (λ bs z. cc)
                          λ seq bs high a u e. rw e (leave-Reaches s fuel seq aims bs aim' high)))

-- Whatever nng does within its documentation: a receiving member of the bus that returns has listened
-- on the address of its own position, dialed the addresses of the positions that `targets` gives, in
-- their order, received messages while their numbers, from 0 on, were below `nmsg`, set its promise,
-- once, to the first number that is not, as an int, and then received messages up to the first that starts with
-- 0xffffffff, before it slept and closed its socket; and it owns what it owned before. (Its loops are
-- followed for `fuel` messages each.)
pub receiver-Returned :
    {t : Texts} (h : Host t) (formatted : Bytes → ℕ → Bytes) (fuel : ℕ) (base : Bytes)
    (size me nmsg promise : ℕ) (w : h.World)
    → (run h (receiver formatted fuel base size me nmsg promise) w).0 ≡ returns true
    → Returned formatted
        (bus_receiver base size me nmsg promise)
        (h.view w)
        (after h (receiver formatted fuel base size me nmsg promise) w)
receiver-Returned {t} h formatted fuel base size me nmsg promise w e =
    run-Always h (receiver formatted fuel base size me nmsg promise) w _
      (receiver-Reaches t (h.view w) formatted base size me nmsg promise fuel) e
