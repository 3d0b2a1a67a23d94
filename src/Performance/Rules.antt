-- ===== src/Performance/Rules.antt =====
-- The loops of the threads.
use nng_examples.Checked.{check}
use nng_examples.Platform.{faults, send_bytes, ◌>>◌, Prog, Outcome, exits, returns, ◌>>=◌}
use nng_examples.Prelude.{
  ℕ, ◌^◌, zero, suc, ◌<◌, ◌≡◌, refl, ltb, arith, inl, inr, ◌∷◌, subst, true, suc, ap, some, ◌⊎◌,
  ◌∙◌, none, sym,
}
use nng_examples.Bytes.{Bytes}
use nng_examples.Platform.Documented.{
  Texts, View, received, happen, sent, update_self, set_body, sent_whole,
}
use nng_examples.Platform.Rules.{Always, Post, bind_ret}
use nng_examples.Platform.Loop.{forever, Looped, Round, forever-Always, forever-Kept, Rounds}
use nng_examples.Checked.Rules.{
  Failed, checkstat-ne, fails-Always, checkstat_ok, undone, check-then,
}
use nng_examples.Performance.{int_loop, receive_freed, ret, length}

-- A loop that the int can count.
pub int_loop-forever :
    (n : ℕ) (body : Prog (Unit {0})) → n < 2 ^ 31 → int_loop n body ≡ forever n body
unfolding int_loop
int_loop-forever n body h = let e : ltb n (2 ^ 31) ≡ true = ground arith in rw e refl

-- A buffer that nng allocates is freed with its size: nothing is kept.
pub receive_freed-then {ℓ} :
    {A : Type ℓ} (t : Texts) (v : View) (Q : Post A)
    (bad : (u : View) → Failed t v.log u → Q (exits 1) u) (s : ℕ) (doing : Bytes)
    (k : Unit {0} → Prog A)
    → ((b : Bytes) → Always t (k tt) (happen (received s b) v) Q)
    → Always t (receive_freed s doing >>= k) v Q
unfolding receive_freed
receive_freed-then t v Q bad s doing k h a u (inl (ne, same)) =
    rw (checkstat-ne a.status doing ne)
      (fails-Always t v Q bad a.status doing u ne (ap (λ (x : View). x.log) same))
receive_freed-then t v Q bad s doing k h a u (inr (z, free, now)) =
    rw (checkstat_ok a.status doing z) λ a' u' e.
      let owned : u.body a.value ≡ some a.bytes =
        rw now (update_self v.body a.value (some a.bytes)) in
      let back : u' ≡ happen (received s a.bytes) v =
        e a.bytes owned refl
        ∙ ap (set_body a.value none) now
        ∙ ap (happen (received s a.bytes)) (undone v a.value a.bytes free) in
      subst (λ x. Always t (k tt) x Q) (sym back) (h a.bytes)

-- The failed call of a loop's last round.
abbrev pub Broken : Texts → Outcome (Unit {0}) → View → View → Type 0
Broken t (returns _) v u = ⊥
Broken t (exits zero) v u = ⊥
Broken t (exits (suc zero)) v u = Failed t v.log u
Broken t (exits (suc (suc n))) v u = ⊥
Broken t faults v u = ⊥

-- One message came, and nothing of it is kept.
abbrev pub Received : ℕ → View → View → Type 0
Received s v u = (b : Bytes) × (u ≡ happen (received s b) v)

receive-Round :
    (t : Texts) (s : ℕ) (doing : Bytes) (v : View)
    → Always t (receive_freed s doing) v (Round (Received s) (Broken t) v)
receive-Round t s doing v =
    subst (λ p. Always t p v (Round (Received s) (Broken t) v)) (bind_ret (receive_freed s doing))
      (receive_freed-then t v (Round (Received s) (Broken t) v) (λ u f. f) s doing ret
        (λ b. (b, refl)))

-- A loop of such rounds.
pub receive_loop-Looped :
    (t : Texts) (s n : ℕ) (doing : Bytes) (v : View)
    → n < 2 ^ 31
    → Always t (int_loop n (receive_freed s doing)) v (Looped (Received s) (Broken t) n v)
receive_loop-Looped t s n doing v h =
    rw (int_loop-forever n (receive_freed s doing) h) (
      forever-Always (Received s) (Broken t) t (receive_freed s doing) (receive-Round t s doing) n
        v)

-- The array at `p` goes out, a message comes back, and nothing of it is kept.
abbrev pub Exchanged : ℕ → Bytes → View → View → Type 0
Exchanged s d v u = (b : Bytes) × (u ≡ happen (received s b) (happen (sent s d) v))

-- The failed call of a loop's last round: no message was sent, or none came for the one that was.
abbrev pub Unanswered : Texts → ℕ → Bytes → Outcome (Unit {0}) → View → View → Type 0
Unanswered t s d (returns _) v u = ⊥
Unanswered t s d (exits zero) v u = ⊥
Unanswered t s d (exits (suc zero)) v u = Failed t v.log u ⊎ Failed t (sent s d ∷ v.log) u
Unanswered t s d (exits (suc (suc n))) v u = ⊥
Unanswered t s d faults v u = ⊥

exchange-Round :
    (t : Texts) (s p : ℕ) (d e1 e2 : Bytes) (v : View)
    → v.body p ≡ some d
    → Always t
        (check (send_bytes s p (length d)) e1 >> receive_freed s e2)
        v
        (Round (Exchanged s d) (Unanswered t s d) v)
exchange-Round t s p d e1 e2 v owned =
    let Q = Round (Exchanged s d) (Unanswered t s d) v in
    check-then t v Q (λ u f. inl f) (send_bytes s p (length d)) e1 _ v (happen (sent s d) v) refl
      (λ a u e. sent_whole t s p d v a u owned e)
      (subst (λ q. Always t q (happen (sent s d) v) Q) (bind_ret (receive_freed s e2))
        (receive_freed-then t (happen (sent s d) v) Q (λ u f. inr f) s e2 ret (λ b. (b, refl))))

-- A loop of such rounds.
pub exchange_loop-Looped :
    (t : Texts) (s n p : ℕ) (d e1 e2 : Bytes) (v : View)
    → n < 2 ^ 31
    → v.body p ≡ some d
    → Always t
        (int_loop n (check (send_bytes s p (length d)) e1 >> receive_freed s e2))
        v
        (Looped (Exchanged s d) (Unanswered t s d) n v)
exchange_loop-Looped t s n p d e1 e2 v h owned =
    let body = check (send_bytes s p (length d)) e1 >> receive_freed s e2 in
    rw (int_loop-forever n body h) (
      forever-Kept (Exchanged s d) (Unanswered t s d) t body (λ u. u.body p ≡ some d)
        (λ v u r i. ap (λ (x : View). x.body p) r.1 ∙ i) (λ v i. exchange-Round t s p d e1 e2 v i) n
        v owned)

-- The same the other way round: a message comes and is freed, and the array goes out.
abbrev pub Answered : ℕ → Bytes → View → View → Type 0
Answered s d v u = (b : Bytes) × (u ≡ happen (sent s d) (happen (received s b) v))

-- No message came, or the one that came was not answered.
abbrev pub Unserved : Texts → ℕ → Outcome (Unit {0}) → View → View → Type 0
Unserved t s (returns _) v u = ⊥
Unserved t s (exits zero) v u = ⊥
Unserved t s (exits (suc zero)) v u =
    Failed t v.log u ⊎ ((b : Bytes) × Failed t (received s b ∷ v.log) u)
Unserved t s (exits (suc (suc n))) v u = ⊥
Unserved t s faults v u = ⊥

answer-Round :
    (t : Texts) (s p : ℕ) (d e1 e2 : Bytes) (v : View)
    → v.body p ≡ some d
    → Always t
        (receive_freed s e1 >> check (send_bytes s p (length d)) e2)
        v
        (Round (Answered s d) (Unserved t s) v)
answer-Round t s p d e1 e2 v owned =
    let Q = Round (Answered s d) (Unserved t s) v in
    receive_freed-then t v Q (λ u f. inl f) s e1 (λ _. check (send_bytes s p (length d)) e2)
      λ b.
        let w = happen (received s b) v in
        subst (λ q. Always t q w Q) (bind_ret (check (send_bytes s p (length d)) e2))
          (check-then t w Q (λ u f. inr (b, f)) (send_bytes s p (length d)) e2 ret w
            (happen (sent s d) w) refl (λ a u e. sent_whole t s p d w a u owned e) (b, refl))

-- A loop of such rounds.
pub answer_loop-Looped :
    (t : Texts) (s n p : ℕ) (d e1 e2 : Bytes) (v : View)
    → n < 2 ^ 31
    → v.body p ≡ some d
    → Always t
        (int_loop n (receive_freed s e1 >> check (send_bytes s p (length d)) e2))
        v
        (Looped (Answered s d) (Unserved t s) n v)
answer_loop-Looped t s n p d e1 e2 v h owned =
    let body = receive_freed s e1 >> check (send_bytes s p (length d)) e2 in
    rw (int_loop-forever n body h) (
      forever-Kept (Answered s d) (Unserved t s) t body (λ u. u.body p ≡ some d)
        (λ v u r i. ap (λ (x : View). x.body p) r.1 ∙ i) (λ v i. answer-Round t s p d e1 e2 v i) n v
        owned)

-- What a process owns stays as it is through rounds that keep it.
pub Rounds-kept :
    (R : View → View → Type 0)
    → ((v u : View) → R v u → u.body ≡ v.body)
    → (n : ℕ) (v w : View) → Rounds R n v w
    → w.body ≡ v.body
Rounds-kept R keeps zero v w r = ap (λ (x : View). x.body) (sym r)
Rounds-kept R keeps (suc n) v w (u, e, r) = Rounds-kept R keeps n u w r ∙ keeps v u e
