-- ===== src/Checked/Rules.antt =====
-- The rules of `Always` for the checked calls, each with the rest of the program as `k`.
use nng_examples.Prelude.{
  ℕ, ◌≡◌, ◌≢◌, inl, inr, refl, sym, ap, subst, ◌∙◌, List, ◌∷◌, ◌++◌, none, some, ◌==◌, Bool-cases,
  ==_iff, length, Option,
}
use nng_examples.Bytes.{Bytes, c_string}
use nng_examples.Platform.{
  Stream, faults, Protocol, Call, open_socket, msg_alloc, msg_insert, sendmsg, recvmsg, strerror,
  print, stderr, Answer, Prog, ret, exit, call, ◌>>=◌, ◌>>◌, exits, returns,
}
use nng_examples.Platform.Documented.{
  Texts, Event, opened, sent, received, printed, View, Effect, Either, happen, set_body,
  update_self, update_restore, update_undo, update,
}
use nng_examples.Platform.Rules.{
  Always, Post, Always-assoc, body-then, print-then, free-then, bind_ret,
}
use nng_examples.Checked.{
  diagnosis, checkstat, check, checked, send_message, show_message, newline, body_string, act,
  msg_free,
}

-- After the events `l` the program said on stderr what failed, with a status that is not 0, and that
-- was all.
pub record Failed (t : Texts) (l : List Event) (u : View) : Type 0 where
  pub doing : Bytes
  pub status : ℕ
  pub status_ne : status ≢ 0
  pub said : u.log ≡ printed stderr (diagnosis doing (t.error_text status)) ∷ l

pub checkstat_ok : (st : ℕ) (doing : Bytes) → st ≡ 0 → checkstat st doing ≡ ret tt
unfolding checkstat
checkstat_ok st doing e = rw ((==_iff st 0).1 e)

-- The branch of `checkstat` that ends the program.
abbrev pub fails {ℓ} : {A : Type ℓ} → ℕ → Bytes → Prog A
fails st doing = call (strerror st) λ a. call (print stderr (diagnosis doing a.bytes)) λ _. exit 1

pub checkstat-ne : (st : ℕ) (doing : Bytes) → st ≢ 0 → checkstat st doing ≡ fails st doing
unfolding checkstat
checkstat-ne st doing ne = elim (Bool-cases (st == 0)) [
  | inl e ↦ absurd (ne ((==_iff st 0).0 e))
  | inr e ↦ rw e
]

-- A message that is made and given away again leaves the view as it was.
pub restored :
    (v : View) (m : ℕ) (b b' : Bytes)
    → v.body m ≡ none
    → set_body m none (set_body m (some b') (set_body m (some b) v)) ≡ v
restored v m b b' free = λ i. record v { body = update_restore v.body m (some b) (some b') free i }

-- So does one that is received and freed.
pub undone :
    (v : View) (m : ℕ) (b : Bytes) → v.body m ≡ none → set_body m none (set_body m (some b) v) ≡ v
undone v m b free = λ i. record v { body = update_undo v.body m (some b) free i }

module _ {ℓ} {A : Type ℓ} (t : Texts) (v : View) (Q : Post A)
    (bad : (u : View) → Failed t v.log u → Q (exits 1) u) where
  pub fails-Always :
      (st : ℕ) (doing : Bytes) (u : View) → st ≢ 0 → u.log ≡ v.log → Always t (fails st doing) u Q
  fails-Always st doing u ne same a u1 (ea, e1) _ u2 e2 =
      bad u2
        (record { doing = doing; status = st; status_ne = ne; said = rw (e2, e1, ea, same) refl })

  -- A checked call that either fails and changes nothing, or leads from `v` to `good`.
  pub check-then :
      (c : Call) (doing : Bytes) (k : Unit {0} → Prog A) (u good : View)
      → u.log ≡ v.log
      → ((a : Answer) (u' : View) → Effect t c u a u' → Either a.status u u' good)
      → Always t (k tt) good Q
      → Always t (check c doing >>= k) u Q
  unfolding check
  check-then c doing k u good l each h a u' e = elim (each a u' e) [
    | inl (ne, same) ↦
        rw (checkstat-ne a.status doing ne)
          (fails-Always a.status doing u' ne (ap (λ (x : View). x.log) same ∙ l))
    | inr (z, now) ↦
        rw (checkstat_ok a.status doing z) (subst (λ x. Always t (k tt) x Q) (sym now) h)
  ]

  -- A socket that is opened, under whatever number.
  pub open-then :
      (p : Protocol) (doing : Bytes) (k : ℕ → Prog A)
      → ((s : ℕ) → Always t (k s) (happen (opened p s) v) Q)
      → Always t (checked (open_socket p) doing >>= k) v Q
  unfolding checked
  open-then p doing k h a u (inl (ne, same)) =
      rw (checkstat-ne a.status doing ne)
        (fails-Always a.status doing u ne (ap (λ (x : View). x.log) same))
  open-then p doing k h a u (inr (z, now)) =
      rw (checkstat_ok a.status doing z)
        (subst (λ x. Always t (k a.value) x Q) (sym now) (h a.value))

  -- A message that is received, under a handle that was free.
  pub receive-then :
      (s : ℕ) (doing : Bytes) (k : ℕ → Prog A)
      → ((m : ℕ) (b : Bytes)
          → v.body m ≡ none
          → Always t (k m) (happen (received s b) (set_body m (some b) v)) Q)
      → Always t (checked (recvmsg s) doing >>= k) v Q
  unfolding checked
  receive-then s doing k h a u (inl (ne, same)) =
      rw (checkstat-ne a.status doing ne)
        (fails-Always a.status doing u ne (ap (λ (x : View). x.log) same))
  receive-then s doing k h a u (inr (b, z, free, now)) =
      rw (checkstat_ok a.status doing z)
        (subst (λ x. Always t (k a.value) x Q) (sym now) (h a.value b free))

  -- A new message of `n` bytes, whatever they are.
  pub alloc-then :
      (n : ℕ) (doing : Bytes) (k : ℕ → Prog A)
      → ((m : ℕ) (b : Bytes)
          → length b ≡ n
          → v.body m ≡ none
          → Always t (k m) (set_body m (some b) v) Q)
      → Always t (checked (msg_alloc n) doing >>= k) v Q
  unfolding checked
  alloc-then n doing k h a u (inl (ne, same)) =
      rw (checkstat-ne a.status doing ne)
        (fails-Always a.status doing u ne (ap (λ (x : View). x.log) same))
  alloc-then n doing k h a u (inr (b, size, z, free, now)) =
      rw (checkstat_ok a.status doing z)
        (subst (λ x. Always t (k a.value) x Q) (sym now) (h a.value b size free))

  -- A message that is made and sent: its body is the bytes `d` and `n` more, which nobody wrote, and
  -- the process owns what it owned before.
  pub send-then :
      (s n : ℕ) (d e1 e2 e3 : Bytes) (k : Unit {0} → Prog A)
      → ((b : Bytes) → length b ≡ n → Always t (k tt) (happen (sent s (d ++ b)) v) Q)
      → Always t (send_message s n d e1 e2 e3 >>= k) v Q
  unfolding send_message
  send-then s n d e1 e2 e3 k h =
      Always-assoc t (checked (msg_alloc n) e1)
        (λ m. check (msg_insert m d) e2 >> check (sendmsg s m) e3) k v Q
        (alloc-then n e1 _ λ m b size free.
          let w = set_body m (some b) v in
          let w' = set_body m (some (d ++ b)) w in
          Always-assoc t (check (msg_insert m d) e2) (λ _. check (sendmsg s m) e3) k w Q
            (check-then (msg_insert m d) e2 _ w w' refl
              (λ a u e. e b (update_self v.body m (some b)))
              (check-then (sendmsg s m) e3 k w' (happen (sent s (d ++ b)) v) refl
                (λ a u e.
                  rw (← ap (happen (sent s (d ++ b))) (restored v m b (d ++ b) free))
                    (e (d ++ b) (update_self w.body m (some (d ++ b)))))
                (h b size))))

  -- The message that stands under a fresh handle `m` of `u` is sent on as it is.
  pub forward-then :
      (s m : ℕ) (b doing : Bytes) (k : Unit {0} → Prog A) (u : View)
      → u.log ≡ v.log
      → u.body ≡ update v.body m (some b)
      → v.body m ≡ none
      → Always t (k tt) (record u { log = sent s b ∷ u.log; body = v.body }) Q
      → Always t (check (sendmsg s m) doing >>= k) u Q
  forward-then s m b doing k u l owned free h =
      check-then (sendmsg s m) doing k u (record u { log = sent s b ∷ u.log; body = v.body }) l
        (λ a u' e.
          subst
            (λ (f : ℕ → Option Bytes).
              Either a.status u u' (record u { log = sent s b ∷ u.log; body = f }))
            (ap (λ (f : ℕ → Option Bytes). update f m none) owned
              ∙ update_undo v.body m (some b) free)
            (e b (rw owned (update_self v.body m (some b)))))
        h

module _ {ℓ} {A : Type ℓ} (t : Texts) (v : View) (Q : Post A) (f : ℕ → Option Bytes) where
  -- The message under a fresh handle is printed and freed.
  pub show-then :
      (o : Stream) (prefix : Bytes) (m : ℕ) (b : Bytes) (k : Unit {0} → Prog A)
      → v.body ≡ update f m (some b)
      → f m ≡ none
      → (c_string b ≡ none → Q faults v)
      → ((x : Bytes)
          → c_string b ≡ some x
          → Always t
              (k tt)
              (record v { log = printed o (prefix ++ x ++ newline) ∷ v.log; body = f })
              Q)
      → Always t (show_message o prefix m >>= k) v Q
  unfolding show_message
  show-then o prefix m b k owned free bad good =
      let here : v.body m ≡ some b = rw owned (update_self f m (some b)) in
      Always-assoc t (body_string m) _ k v Q (
        body-then t v Q m b _ here bad λ x reads.
          print-then t v Q o _ (λ _. act (msg_free m) >>= k)
            (free-then t (happen (printed o (prefix ++ x ++ newline)) v) Q m b k here (
              subst
                (λ (g : ℕ → Option Bytes).
                  Always t (k tt)
                    (record v { log = printed o (prefix ++ x ++ newline) ∷ v.log; body = g }) Q)
                (sym (update_undo f m (some b) free)
                  ∙ ap (λ (g : ℕ → Option Bytes). update g m none) (sym owned))
                (good x reads))))

-- A message that is made and sent last.
pub send-last :
    (t : Texts) (v : View) (Q : Post (Unit {0}))
    → ((u : View) → Failed t v.log u → Q (exits 1) u)
    → (s n : ℕ) (d e1 e2 e3 : Bytes)
    → ((b : Bytes) → length b ≡ n → Q (returns tt) (happen (sent s (d ++ b)) v))
    → Always t (send_message s n d e1 e2 e3) v Q
send-last t v Q bad s n d e1 e2 e3 h =
    subst (λ p. Always t p v Q) (bind_ret (send_message s n d e1 e2 e3))
      (send-then t v Q bad s n d e1 e2 e3 ret h)

-- A message that is printed and freed last.
pub show-last :
    (t : Texts) (v : View) (Q : Post (Unit {0})) (f : ℕ → Option Bytes) (o : Stream)
    (prefix : Bytes) (m : ℕ) (b : Bytes)
    → v.body ≡ update f m (some b)
    → f m ≡ none
    → (c_string b ≡ none → Q faults v)
    → ((x : Bytes)
        → c_string b ≡ some x
        → Q (returns tt) (record v { log = printed o (prefix ++ x ++ newline) ∷ v.log; body = f }))
    → Always t (show_message o prefix m) v Q
show-last t v Q f o prefix m b owned free bad good =
    subst (λ p. Always t p v Q) (bind_ret (show_message o prefix m))
      (show-then t v Q f o prefix m b ret owned free bad good)

-- A status that is known not to be 0.
pub checkstat-fails {ℓ} :
    {A : Type ℓ} (t : Texts) (u : View) (Q : Post A) (st : ℕ) (doing : Bytes)
    (k : Unit {0} → Prog A)
    → st ≢ 0
    → ((u' : View) → Failed t u.log u' → Q (exits 1) u')
    → Always t (checkstat st doing >>= k) u Q
checkstat-fails t u Q st doing k ne bad =
    rw (checkstat-ne st doing ne) (fails-Always t u Q bad st doing u ne refl)
