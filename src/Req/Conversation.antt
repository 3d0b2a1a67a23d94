-- ===== src/Req/Conversation.antt =====
-- req.cpp and reply.cpp together. What lies between them is nng: that a message arrives as it was
-- sent is a hypothesis here.
use nng_examples.Prelude.{ℕ, zero, suc, ◌≡◌, refl, inl, inr, subst, sym, ◌∙◌, ◌++◌, ◌∷◌, some}
use nng_examples.Bytes.{Bytes, text, c_string, IsText}
use nng_examples.Platform.{◌>>=◌, stdout, Outcome, returns, exits, faults}
use nng_examples.Platform.Documented.{Texts, View, Event, sent, received, printed}
use nng_examples.Platform.Host.{Host, run, after}
use nng_examples.Platform.Rules.{run-Always}
use nng_examples.Platform.Loop.{Round}
use nng_examples.Checked.{newline}
use nng_examples.Reply.{serve}
use nng_examples.Reply.Service.{IsReply, Exchange, Served, Stopped, serve-Round}
use nng_examples.Req.{request, report}
use nng_examples.Req.Exchange.{
  Asked, no_request, not_sent, no_answer, bad_answer, answered, request-Asked,
}

-- A turn that sent something after receiving something is an exchange.
Round-Exchange :
    (t : Texts) (s : ℕ) (a b : Bytes) (v u : View) (o : Outcome (Unit {0}))
    → Round (Served t s) (Stopped t s) v o u
    → u.log ≡ sent s b ∷ received s a ∷ v.log
    → (req : Bytes) × Exchange t s req v u
Round-Exchange t s a b v u (returns _) r l = (r.0, r.2)
Round-Exchange t s a b v u (exits zero) r l = (text "STOP", r)
Round-Exchange t s a b v u (exits (suc zero)) (inl f) l = cc (f.said)
Round-Exchange t s a b v u (exits (suc zero)) (inr (got, f)) l = cc (f.said)
Round-Exchange t s a b v u (exits (suc (suc n))) r l = absurd r
Round-Exchange t s a b v u faults (got, _, l') l = cc

Asked-answered :
    {t : Texts} {s : ℕ} {req : Bytes} {v u : View} {o : Outcome (Unit {0})}
    → Asked t s (some req) v o u
    → o ≡ exits 0
    → (gave got reply : Bytes) × (c_string gave ≡ some req)
      × (c_string got ≡ some reply)
      × (u.log
          ≡ printed stdout (text "Reply: " ++ reply ++ newline)
            ∷ received s got
            ∷ sent s gave
            ∷ v.log)
Asked-answered (no_request e f l) h = cc
Asked-answered (not_sent r e f l) h = cc
Asked-answered (no_answer r g e f i l) h = cc
Asked-answered (bad_answer r g x e f i j l) h = cc
Asked-answered (answered r gave got reply e g x o l b) h = (gave, got, reply, g ∙ sym e, x, l)

-- A client that ends well while one server turn receives what it sent and sends what it receives
-- prints the right answer to its own request.
pub client-prints-answer :
    {t t' : Texts} (h : Host t) (h' : Host t') (w : h.World) (w' : h'.World) (s s' : ℕ)
    (req a b : Bytes) (e : Event)
    → IsText req
    → (run h (request s req >>= report) w).0 ≡ exits 0
    → (after h (request s req >>= report) w).log ≡ e ∷ received s b ∷ sent s a ∷ (h.view w).log
    → (after h' (serve s') w').log ≡ sent s' b ∷ received s' a ∷ (h'.view w').log
    → (reply : Bytes) × IsReply t' (after h' (serve s') w') req reply
      × (e ≡ printed stdout (text "Reply: " ++ reply ++ newline))
client-prints-answer {t} {t'} h h' w w' s s' req a b e is_text ends l l' =
    joined
      (Asked-answered
        (run-Always h (request s req >>= report) w _
          (request-Asked t s (some req) (h.view w) req refl is_text))
        ends)
      (Round-Exchange t' s' a b (h'.view w') (after h' (serve s') w') (run h' (serve s') w').0
        (run-Always h' (serve s') w' _ (serve-Round t' s' (h'.view w'))) l')
  where
    joined :
        (gave got reply : Bytes) × (c_string gave ≡ some req)
          × (c_string got ≡ some reply)
          × ((after h (request s req >>= report) w).log
              ≡ printed stdout (text "Reply: " ++ reply ++ newline)
                ∷ received s got
                ∷ sent s gave
                ∷ (h.view w).log)
        → (req' : Bytes) × Exchange t' s' req' (h'.view w') (after h' (serve s') w')
        → (reply : Bytes) × IsReply t' (after h' (serve s') w') req reply
          × (e ≡ printed stdout (text "Reply: " ++ reply ++ newline))
    joined (gave, got, reply, g, r, cl) (req', x) =
        let same_a : x.got ≡ a = cc (x.log, l') in
        let same_b : x.gave ≡ b = cc (x.log, l') in
        let req_same : req' ≡ req = cc (x.reads, g, same_a, cl, l) in
        let rep_same : x.reply ≡ reply = cc (x.replies, r, same_b, cl, l) in
        (
          reply,
          subst (λ q. IsReply t' (after h' (serve s') w') q reply) req_same
              (subst (λ p. IsReply t' (after h' (serve s') w') req' p) rep_same x.right),
          cc (cl, l),
        )
