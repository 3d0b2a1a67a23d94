-- ===== src/Performance/Spray.antt =====
-- What the main thread of performance/bus.cpp does with its threads and its messages, as rules with the
-- rest of the program as `k`.
use nng_examples.Prelude.{
  ℕ, zero, suc, ◌+◌, ◌≤◌, ◌≡◌, ◌==◌, ◌^◌, refl, ap, ◌∙◌, List, [], ◌∷◌, ◌++◌, length, drop, Option,
  none, some, Bool, true, false, ltb, leb, if◌then◌else◌, inl, inr, Bool-cases, arith, append_assoc,
  append-nil, length-append, ◌<◌,
}
use nng_examples.Bytes.{Bytes}
use nng_examples.Platform.{Job, bus_receiver, Prog, ret, fault, exits, faults, send_bytes, ◌>>=◌}
use nng_examples.Platform.Documented.{Texts, View, Event, sent, word, update_self}
use nng_examples.Platform.Rules.{Always, Post, Always-assoc}
use nng_examples.Checked.{check}
use nng_examples.Bus.{positions}
use nng_examples.Performance.Crew.{start_job}
use nng_examples.Performance.Crew.Rules.{start_job-then}
use nng_examples.Performance.Sends.{owning, send_array-then, update_shadow}
use nng_examples.Performance.Bus.{start_receivers, count_done, put_word, spray, get_all}

-- The jobs of the members at the positions `is`, with the promises `ps`.
abbrev pub members : Bytes → ℕ → ℕ → List ℕ → List ℕ → List Job
members base size nmsg [] ps = []
members base size nmsg (i ∷ is) [] = []
members base size nmsg (i ∷ is) (p ∷ ps) =
    bus_receiver base size i nmsg p ∷ members base size nmsg is ps

-- `n` messages, numbered from `i` on, with the bytes `rest` after the number.
abbrev pub numbered : ℕ → Bytes → ℕ → ℕ → List Event → List Event
numbered s rest zero i l = l
numbered s rest (suc n) i l = numbered s rest n (suc i) (sent s (word i ++ rest) ∷ l)

pub length-word-drop : (d : Bytes) (x : ℕ) → 4 ≤ length d → length (word x ++ drop 4 d) ≡ length d
length-word-drop [] x le = absurd (omega arith)
length-word-drop (a ∷ []) x le = absurd (omega arith)
length-word-drop (a ∷ b ∷ []) x le = absurd (omega arith)
length-word-drop (a ∷ b ∷ c ∷ []) x le = absurd (omega arith)
length-word-drop (a ∷ b ∷ c ∷ e ∷ d) x le = refl

module _ {ℓ} {A : Type ℓ} (t : Texts) (Q : Post A) (bad : (u : View) → Q (exits 1) u)
    (worse : (u : View) → Q (exits 134) u) (worst : (u : View) → Q faults u) where
  pub start_receivers-then :
      (base : Bytes) (size nmsg : ℕ) (is : List ℕ) (v : View) (k : List ℕ × List ℕ → Prog A)
      → ((ps : List ℕ)
          → length ps ≡ length is
          → Always t
              (k (ps, positions (length v.started) (length is)))
              (record v { started = v.started ++ members base size nmsg is ps })
              Q)
      → Always t (start_receivers base size nmsg is >>= k) v Q
  unfolding start_receivers
  start_receivers-then base size nmsg [] v k h = rw (append-nil v.started) at (h [] refl)
  start_receivers-then base size nmsg (i ∷ is) v k h = λ a u e. rw e (
      let j = bus_receiver base size i nmsg a.value in
      let w = record v { started = v.started ++ j ∷ [] } in
      let next : length w.started ≡ suc (length v.started) =
        omega (arith, length-append v.started (j ∷ [])) in
      Always-assoc t (start_job j) _ k v Q (
        start_job-then t Q v j _ worse (
          Always-assoc t (start_receivers base size nmsg is) _ k w Q (
            start_receivers-then base size nmsg is w _ λ ps all.
              let jobs : w.started ++ members base size nmsg is ps
                  ≡ v.started ++ j ∷ members base size nmsg is ps =
                append_assoc v.started (j ∷ []) (members base size nmsg is ps) in
              rw (next, jobs) (h (a.value ∷ ps) (ap suc all))))))

  count_done-then :
      (ps : List ℕ) (v : View) (k : ℕ → Prog A)
      → ((n : ℕ) → Always t (k n) v Q)
      → Always t (count_done ps >>= k) v Q
  unfolding count_done
  count_done-then [] v k h = h 0
  count_done-then (p ∷ ps) v k h = λ a u e. rw e (
      Always-assoc t (count_done ps) _ k v Q
        (count_done-then ps v _ λ n. h ((if a.value == 0 then 0 else 1) + n)))

  pub get_all-then :
      (ps : List ℕ) (v : View) (k : Unit {0} → Prog A)
      → Always t (k tt) v Q
      → Always t (get_all ps >>= k) v Q
  unfolding get_all
  get_all-then [] v k h = h
  get_all-then (p ∷ ps) v k h = λ a u e. rw e (get_all-then ps v k h)

  either-then {κ} :
      {B : Type κ} (b : Bool) (p q : Prog B) (v : View) (k : B → Prog A)
      → (b ≡ true → Always t (p >>= k) v Q)
      → (b ≡ false → Always t (q >>= k) v Q)
      → Always t ((elim b [ true ↦ p | false ↦ q ]) >>= k) v Q
  either-then true p q v k hp hq = hp refl
  either-then false p q v k hp hq = hq refl

  -- An int that must not overflow.
  test-then :
      (b : Bool) (v : View) (k : Unit {0} → Prog A)
      → (b ≡ true → Always t (k tt) v Q)
      → Always t ((if b then ret tt else fault) >>= k) v Q
  test-then true v k h = h refl
  test-then false v k h = worst v

  module _ (v : View) (s p : ℕ) where
    pub put_word-then :
        (size x : ℕ) (d : Bytes) (l : List Event) (k : Unit {0} → Prog A)
        → length d ≡ size
        → (4 ≤ length d → Always t (k tt) (owning p (word x ++ drop 4 d) l v) Q)
        → Always t (put_word p size x >>= k) (owning p d l v) Q
    unfolding put_word
    put_word-then size x d l k fits h = elim (Bool-cases (leb 4 size)) [
      | inr small ↦ rw small (worst _)
      | inl big ↦
          let room : 4 ≤ length d = ground arith in
          rw big λ a u e.
            let now : u ≡ owning p (word x ++ drop 4 d) l v =
              e d (update_self v.body p (some d)) room
              ∙ ap (λ (f : ℕ → Option Bytes). record v { log = l; body = f })
                  (update_shadow v.body p (some d) (some (word x ++ drop 4 d))) in
            rw now (h room)
    ]

    send_sized-then :
        (size : ℕ) (d : Bytes) (l : List Event) (doing : Bytes) (k : Unit {0} → Prog A)
        → length d ≡ size
        → Always t (k tt) (owning p d (sent s d ∷ l) v) Q
        → Always t (check (send_bytes s p size) doing >>= k) (owning p d l v) Q
    send_sized-then size d l doing k fits h =
        rw (← fits) (send_array-then t v Q s p d doing l k (λ u f. bad u) h)

    -- At the end the array may hold another number, but has the same bytes after it.
    pub spray-then :
        (size : ℕ) (ps : List ℕ) (k : Option ℕ → Prog A) (rest : Bytes)
        → ((u : View) → Always t (k none) u Q)
        → (fuel done seq : ℕ) (d : Bytes) (l : List Event) → length d ≡ size
        → drop 4 d ≡ rest
        → seq < 2 ^ 31
        → ((n : ℕ) (c : Bytes)
            → length c ≡ size
            → seq + n < 2 ^ 31
            → Always t (k (some (seq + n))) (owning p c (numbered s rest n seq l) v) Q)
        → Always t (spray s p size ps fuel done seq >>= k) (owning p d l v) Q
    unfolding spray
    spray-then size ps k rest more zero done seq d l fits same few h = more _
    spray-then size ps k rest more (suc fuel) done seq d l fits same few h =
        let w = owning p d l v in
        either-then (done == length ps) (ret (some seq)) _ w k
          (λ all. let e : seq + 0 ≡ seq = omega arith in rw e at (h 0 d fits (omega arith)))
          λ some_left. Always-assoc t (put_word p size seq) _ k w Q (
            put_word-then size seq d l _ fits λ room.
              let c = word seq ++ drop 4 d in
              let size_c : length c ≡ size = length-word-drop d seq room ∙ fits in
              Always-assoc t (if ltb (seq + 1) (2 ^ 31) then ret tt else fault) _ k (owning p c l v)
                Q
                (test-then (ltb (seq + 1) (2 ^ 31)) (owning p c l v) _ λ is_few.
                  (Always-assoc t (check (send_bytes s p size) _) _ k (owning p c l v) Q (
                    send_sized-then size c l _ _ size_c (
                      Always-assoc t (count_done ps) _ k (owning p c (sent s c ∷ l) v) Q (
                        count_done-then ps _ _ λ now.
                          spray-then size ps k rest more fuel now (seq + 1) c (sent s c ∷ l) size_c
                            same (ground arith)
                            λ n b fits_b few_n.
                              let e : seq + 1 + n ≡ seq + suc n = omega arith in
                              let e1 : seq + 1 ≡ suc seq = omega arith in
                              let e2 : sent s c ≡ sent s (word seq ++ rest) =
                                ap (λ r. sent s (word seq ++ r)) same in
                              rw (e, e1, e2) (h (suc n) b fits_b (omega arith))))))))
