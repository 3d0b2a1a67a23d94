-- ===== src/PairClient/Conversation.antt =====
-- onetoonec.cpp and onetoones.cpp together. That a message arrives as it was sent is a hypothesis.
use nng_examples.Prelude.{
  ℕ, zero, suc, ◌+◌, ◌<◌, ◌^◌, ◌≡◌, refl, inl, inr, ◌∷◌, ◌∙◌, sym, some, length,
}
use nng_examples.Bytes.{Bytes, c_string, IsText}
use nng_examples.Platform.{Outcome, returns, exits, faults}
use nng_examples.Platform.Documented.{Texts, View, Event, sent, received}
use nng_examples.Platform.Host.{Host, run, after}
use nng_examples.Platform.Rules.{run-Always}
use nng_examples.Platform.Loop.{Round}
use nng_examples.PairServer.{introduction, service}
use nng_examples.PairServer.Service.{Echoed, Stopped, service-Round}
use nng_examples.PairClient.{converse}
use nng_examples.PairClient.Talk.{
  Talked, no_message, not_sent, no_echo, bad_echo, no_second, bad_second, talked, got_line,
  talk-Talked,
}

Round-Echoed :
    (t : Texts) (s : ℕ) (a b c : Bytes) (v u : View) (o : Outcome (Unit {0}))
    → Round (Echoed s) (Stopped t s) v o u
    → u.log ≡ sent s c ∷ sent s b ∷ received s a ∷ v.log
    → Echoed s v u
Round-Echoed t s a b c v u (returns _) r l = r
Round-Echoed t s a b c v u (exits zero) r l = absurd r
Round-Echoed t s a b c v u (exits (suc zero)) (inl f) l = cc (f.said)
Round-Echoed t s a b c v u (exits (suc zero)) (inr (got, inl f)) l = cc (f.said)
Round-Echoed t s a b c v u (exits (suc zero)) (inr (got, inr f)) l = cc (f.said)
Round-Echoed t s a b c v u (exits (suc (suc n))) r l = absurd r
Round-Echoed t s a b c v u faults r l = absurd r

-- What the client received reads as what it printed, and what it sent as its message.
abbrev Heard : ℕ → Bytes → View → View → Type 0
Heard s msg v u =
    (gave got x more y : Bytes) × (c_string gave ≡ some msg)
    × (c_string got ≡ some x)
    × (c_string more ≡ some y)
    × (u.log ≡ got_line y ∷ received s more ∷ got_line x ∷ received s got ∷ sent s gave ∷ v.log)

Talked-Heard :
    {t : Texts} {s : ℕ} {msg : Bytes} {v u : View} {o : Outcome (Unit {0})}
    → Talked t s (some msg) v o u
    → o ≡ exits 0
    → Heard s msg v u
Talked-Heard (no_message e f l) h = cc
Talked-Heard (not_sent f l) h = cc
Talked-Heard (no_echo m g a e f l) h = cc
Talked-Heard (bad_echo g x e f l) h = cc
Talked-Heard (no_second g x e i f l) h = cc
Talked-Heard (bad_second g x y m e f l) h = cc
Talked-Heard (talked m gave got x more y e g r r' o l b) h =
    (gave, got, x, more, y, g ∙ sym e, r, r', l)

-- A client that ends well while one turn of the server receives what it sent, and sends the two
-- messages that it receives, prints its own message and then the server's introduction.
pub client-prints-echo :
    {t t' : Texts} (h : Host t) (h' : Host t') (w : h.World) (w' : h'.World) (s s' : ℕ)
    (msg a b c : Bytes) (e1 e2 : Event)
    → IsText msg
    → length msg + 1 < 2 ^ 31
    → (run h (converse s msg) w).0 ≡ exits 0
    → (after h (converse s msg) w).log
      ≡ e2 ∷ received s c ∷ e1 ∷ received s b ∷ sent s a ∷ (h.view w).log
    → (after h' (service s') w').log ≡ sent s' c ∷ sent s' b ∷ received s' a ∷ (h'.view w').log
    → (e1 ≡ got_line msg) × (e2 ≡ got_line (introduction (h'.view w').pid))
client-prints-echo {t} {t'} h h' w w' s s' msg a b c e1 e2 is_text fits ends l l' =
    joined
      (Talked-Heard
        (run-Always h (converse s msg) w _
          (talk-Talked t s (some msg) (h.view w) msg refl is_text fits))
        ends)
      (Round-Echoed t' s' a b c (h'.view w') (after h' (service s') w') (run h' (service s') w').0
        (run-Always h' (service s') w' _ (service-Round t' s' (h'.view w'))) l')
  where
    joined :
        Heard s msg (h.view w) (after h (converse s msg) w)
        → Echoed s' (h'.view w') (after h' (service s') w')
        → (e1 ≡ got_line msg) × (e2 ≡ got_line (introduction (h'.view w').pid))
    joined (gave, got, x, more, y, g, r, r', cl) q =
        let same_a : q.got ≡ gave = cc (q.log, l', cl, l) in
        let same_b : q.got ≡ got = cc (q.log, l', cl, l) in
        let same_c : q.gave ≡ more = cc (q.log, l', cl, l) in
        let own : x ≡ msg = cc in
        let intro : y ≡ introduction (h'.view w').pid = cc (q.introduces) in
        (cc (cl, l), cc (cl, l))
