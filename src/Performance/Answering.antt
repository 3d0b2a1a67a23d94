-- ===== src/Performance/Answering.antt =====
-- The threads that answer: the replier of performance/reqrep.cpp and the responder of survey.cpp.
use nng_examples.Prelude.{
  false, ◌==◌, Bool-cases, ==_iff, none, ◌∙◌, ap, ℕ, ◌<◌, ◌≡◌, ◌^◌, refl, List, ◌∷◌, some, length,
  inl, inr, true,
}
use nng_examples.Checked.Rules.{checkstat-ne, checkstat_ok, open-then, check-then}
use nng_examples.Performance.Survey
use nng_examples.Bytes.{Bytes, text}
use nng_examples.Platform.{
  rep_replier, respondent_responder, ret, ◌>>◌, rep0, respondent0, recvmaxsz, listen, dial,
  open_socket, set_option, act, delete_array, sleep, close_socket, recv_alloc,
}
use nng_examples.Platform.Documented.{
  Texts, View, opened, listening, dialed, configured, closed, received, happen, update_self,
}
use nng_examples.Platform.Rules.{Always, Always-assoc}
use nng_examples.Checked.{check, checked}
use nng_examples.Performance.{int_loop, new_bytes}
use nng_examples.Performance.Reqrep
use nng_examples.Performance.Answers.{answer_loop-then, answers}
use nng_examples.Performance.Sends.{owning, new_bytes-then, delete_array-then}
use nng_examples.Performance.Goals.{Reaches}

module _ (t : Texts) (formatted : Bytes → ℕ → Bytes) (uri : Bytes) (v : View) where
  -- After the loops: the array is deleted, and closing the socket asked for.
  replier_finish :
      (n s p : ℕ) (d : Bytes) (bs : List Bytes)
      → v.body p ≡ none
      → length bs ≡ n
      → Always t
          ((act (delete_array p) >> (act (sleep 1) >> act (close_socket s))) >> ret true)
          (owning p d (answers s d bs (listening s uri ∷ opened rep0 s ∷ v.log)) v)
          (Reaches formatted v (rep_replier uri n (length d)))
  replier_finish n s p d bs unowned e =
      let l = answers s d bs (listening s uri ∷ opened rep0 s ∷ v.log) in
      delete_array-then t v (Reaches formatted v (rep_replier uri n (length d))) p l
        (λ _. act (sleep 1) >> (act (close_socket s) >> ret true)) d unowned
        λ a1 u1 e1 a2 u2 e2 z. elim e2 [
          | inl (ne, same) ↦ (s, d, bs, refl, e, inl (same ∙ e1))
          | inr (good, now) ↦ (s, d, bs, refl, e, inr (now ∙ ap (happen (closed s)) e1))
        ]

  responder_finish :
      (n s p : ℕ) (d : Bytes) (bs : List Bytes)
      → v.body p ≡ none
      → length bs ≡ n
      → Always t
          ((check (recv_alloc s) (text "Unable to get extra measure survey")
              >> (act (close_socket s) >> act (delete_array p)))
            >> ret true)
          (owning p d
            (answers s d bs
              (dialed s uri ∷ configured s (recvmaxsz 0) ∷ opened respondent0 s ∷ v.log))
            v)
          (Reaches formatted v (respondent_responder uri n (length d)))
  unfolding check
  responder_finish n s p d bs unowned e a u (inl (ne, same)) =
      rw (checkstat-ne a.status (text "Unable to get extra measure survey") ne)
        λ a1 u1 e1 a2 u2 e2 z. cc
  responder_finish n s p d bs unowned e a u (inr (z, fresh, now)) =
      rw (checkstat_ok a.status (text "Unable to get extra measure survey") z)
        λ a1 u1 e1 a2 u2 e2 y.
          let w =
            owning p d
              (answers s d bs
                (dialed s uri ∷ configured s (recvmaxsz 0) ∷ opened respondent0 s ∷ v.log))
              v in
          let l = received s a.bytes ∷ w.log in
          let apart : (a.value == p) ≡ false = elim (Bool-cases (a.value == p)) [
            | inl same ↦ cc (fresh, update_self v.body p (some d), (==_iff a.value p).0 same)
            | inr other ↦ other
          ] in
          let owned : u.body p ≡ some d = rw now (rw apart (update_self v.body p (some d))) in
          elim e1 [
            | inl (ne, same) ↦ (
              s,
              d,
              bs,
              a.bytes,
              refl,
              e,
              inl (
                  ap (λ (x : View). x.log) (e2 d (rw same owned))
                  ∙ ap (λ (x : View). x.log) (same ∙ now)),
            )
            | inr (good, shut) ↦ (
              s,
              d,
              bs,
              a.bytes,
              refl,
              e,
              inr (
                  ap (λ (x : View). x.log) (e2 d (rw shut owned))
                  ∙ ap (λ (x : View). x.log) shut
                  ∙ ap (λ (x : View). closed s ∷ x.log) now),
            )
          ]

  pub replier-Reaches :
      (n size : ℕ)
      → n < 2 ^ 31
      → Always t
          (Reqrep.replier uri n size >> ret true)
          v
          (Reaches formatted v (rep_replier uri n size))
  unfolding Reqrep.replier
  replier-Reaches n size few =
      let Q = Reaches formatted v (rep_replier uri n size) in
      Always-assoc t (new_bytes size) _ (λ _. ret true) v Q
        (new_bytes-then t v Q size _ (λ z. cc)
          λ p d fits unowned.
            let w0 = owning p d v.log v in
            let R = Reaches formatted v (rep_replier uri n (length d)) in
            rw (← fits) (
              Always-assoc t (checked (open_socket rep0) _) _ (λ _. ret true) w0 R
                (open-then t w0 R (λ u f z. cc) rep0 _ _
                  λ s.
                    let w = happen (opened rep0 s) w0 in
                    Always-assoc t (check (listen s uri) _) _ (λ _. ret true) w R
                      (check-then t w R (λ u f z. cc) (listen s uri) _ _ w
                        (happen (listening s uri) w) refl (λ a u e. e)
                        (let l = listening s uri ∷ opened rep0 s ∷ v.log in
                          Always-assoc t (int_loop n _) _ (λ _. ret true) (owning p d l v) R
                            (answer_loop-then t v R (λ u z. cc) s p d _ _ _ n l few
                              λ bs e. replier_finish n s p d bs unowned e))))))

  pub responder-Reaches :
      (n size : ℕ)
      → n < 2 ^ 31
      → Always t
          (Survey.responder uri n size >> ret true)
          v
          (Reaches formatted v (respondent_responder uri n size))
  unfolding Survey.responder Survey.set_options
  responder-Reaches n size few =
      let Q = Reaches formatted v (respondent_responder uri n size) in
      Always-assoc t (new_bytes size) _ (λ _. ret true) v Q
        (new_bytes-then t v Q size _ (λ z. cc)
          λ p d fits unowned.
            let w0 = owning p d v.log v in
            let R = Reaches formatted v (respondent_responder uri n (length d)) in
            rw (← fits) (
              Always-assoc t (checked (open_socket respondent0) _) _ (λ _. ret true) w0 R
                (open-then t w0 R (λ u f z. cc) respondent0 _ _
                  λ s.
                    let w = happen (opened respondent0 s) w0 in
                    let w1 = happen (configured s (recvmaxsz 0)) w in
                    Always-assoc t (check (set_option s (recvmaxsz 0)) _) _ (λ _. ret true) w R
                      (check-then t w R (λ u f z. cc) (set_option s (recvmaxsz 0)) _ _ w w1 refl
                        (λ a u e. e)
                        (Always-assoc t (check (dial s uri) _) _ (λ _. ret true) w1 R
                          (check-then t w1 R (λ u f z. cc) (dial s uri) _ _ w1
                            (happen (dialed s uri) w1) refl (λ a u e. e)
                            (let l =
                                dialed s uri
                                ∷ configured s (recvmaxsz 0)
                                ∷ opened respondent0 s
                                ∷ v.log in
                              Always-assoc t (int_loop n _) _ (λ _. ret true) (owning p d l v) R
                                (answer_loop-then t v R (λ u z. cc) s p d _ _ _ n l few
                                  λ bs e. responder_finish n s p d bs unowned e))))))))
