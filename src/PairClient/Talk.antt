-- ===== src/PairClient/Talk.antt =====
-- What the client of a pair does, alone and with the server of onetoones.cpp.
use nng_examples.Prelude.{
  ℕ, ◌+◌, ◌<◌, ◌^◌, ◌≡◌, refl, ◌++◌, ◌∷◌, List, Option, some, none, length, arith, leb_refl,
  take-length,
}
use nng_examples.Bytes.{
  Bytes, text, terminated, c_string, c_string-terminated, IsText, length-terminated,
}
use nng_examples.Platform.{
  Prog, exit, ◌>>=◌, pair0, dial, argv, deref, stdout, Outcome, exits, faults,
}
use nng_examples.Platform.Documented.{
  Texts, View, Event, sent, received, dialed, printed, happen, set_body,
}
use nng_examples.Platform.Host.{Host, run, after}
use nng_examples.Platform.Rules.{Always, Post, Always-assoc, run-Always}
use nng_examples.Checked.{newline, send_message, checked, show_message}
use nng_examples.Checked.Rules.{Failed, send-then, receive-then, show-then}
use nng_examples.Checked.Startup.{Started, startup-Always}
use nng_examples.PairClient.{
  through_int, read_bytes, send, recv_and_print, recv, main, recvmsg, converse,
}

read_bytes_whole : (d : Bytes) (n : ℕ) → n ≡ length d → read_bytes d n ≡ some d
unfolding read_bytes
read_bytes_whole d n e = rw (e, leb_refl (length d), take-length d) refl

through_int_small : (n : ℕ) → n < 2 ^ 31 → through_int n ≡ n
unfolding through_int
through_int_small n h = ground arith

-- While the length fits an int the whole text is sent, with its terminator.
send_fits :
    (s : ℕ) (msg : Bytes)
    → length msg + 1 < 2 ^ 31
    → send s msg
      ≡ send_message s
          (length msg + 1)
          (terminated msg)
          (text "Failed to allocate nng_msg")
          (text "Failed to encapsulate string")
          (text "Failed to send message")
unfolding send send_message
send_fits s msg h =
    rw (through_int_small (length msg + 1) h)
      (rw (read_bytes_whole (terminated msg) (length msg + 1) (length-terminated msg)) refl)

-- The line for a message that was received.
abbrev pub got_line : Bytes → Event
got_line x = printed stdout (text "Got: " ++ x ++ newline)

-- The ends of a client on socket `s` with third argument `arg`, in the order in which they can come:
-- the argument is missing and its null pointer used; a call failed, after the message was sent or
-- before, with no, one or two lines printed; one of the two messages that came has no terminator; or
-- both were printed and the program ended well, owning nothing more than before.
pub data Talked (t : Texts) (s : ℕ) (arg : Option Bytes) (v : View) (o : Outcome (Unit {0}))
    (u : View) : Type 0 where
  no_message : arg ≡ none → o ≡ faults → u.log ≡ v.log → Talked t s arg v o u
  not_sent : o ≡ exits 1 → Failed t v.log u → Talked t s arg v o u
  no_echo :
      (msg gave : Bytes)
      → arg ≡ some msg
      → c_string gave ≡ some msg
      → o ≡ exits 1
      → Failed t (sent s gave ∷ v.log) u
      → Talked t s arg v o u
  bad_echo :
      (gave got : Bytes)
      → c_string got ≡ none
      → o ≡ faults
      → u.log ≡ received s got ∷ sent s gave ∷ v.log
      → Talked t s arg v o u
  no_second :
      (gave got x : Bytes)
      → c_string got ≡ some x
      → o ≡ exits 1
      → Failed t (got_line x ∷ received s got ∷ sent s gave ∷ v.log) u
      → Talked t s arg v o u
  bad_second :
      (gave got x more : Bytes)
      → c_string more ≡ none
      → o ≡ faults
      → u.log ≡ received s more ∷ got_line x ∷ received s got ∷ sent s gave ∷ v.log
      → Talked t s arg v o u
  talked :
      (msg gave got x more y : Bytes)
      → arg ≡ some msg
      → c_string gave ≡ some msg
      → c_string got ≡ some x
      → c_string more ≡ some y
      → o ≡ exits 0
      → u.log ≡ got_line y ∷ received s more ∷ got_line x ∷ received s got ∷ sent s gave ∷ v.log
      → u.body ≡ v.body
      → Talked t s arg v o u

recv_and_print-then :
    (t : Texts) (s : ℕ) (v : View) (Q : Post (Unit {0})) (k : Unit {0} → Prog (Unit {0}))
    → ((u : View) → Failed t v.log u → Q (exits 1) u)
    → ((got : Bytes) (u : View) → c_string got ≡ none → u.log ≡ received s got ∷ v.log → Q faults u)
    → ((got x : Bytes)
        → c_string got ≡ some x
        → Always t (k tt) (happen (got_line x) (happen (received s got) v)) Q)
    → Always t (recv_and_print s >>= k) v Q
unfolding recv_and_print
recv_and_print-then t s v Q k fail bad good =
    Always-assoc t (checked (recvmsg s) _) (λ m. show_message stdout (text "Got: ") m) k v Q
      (receive-then t v Q fail s _ _ λ m got free.
        show-then t (happen (received s got) (set_body m (some got) v)) Q v.body stdout
          (text "Got: ") m got k refl free (λ z. bad got _ z refl) (λ x reads. good got x reads))

module _ (t : Texts) (s : ℕ) (arg : Option Bytes) (v : View) (msg : Bytes)
    (is_arg : arg ≡ some msg) where
  recv-Talked :
      (gave : Bytes)
      → c_string gave ≡ some msg
      → Always t (recv s >>= λ _. exit 0) (happen (sent s gave) v) (Talked t s arg v)
  unfolding recv
  recv-Talked gave g =
      let w = happen (sent s gave) v in
      Always-assoc t (recv_and_print s) (λ _. recv_and_print s) (λ _. exit 0) w (Talked t s arg v)
        (recv_and_print-then t s w (Talked t s arg v) _ (λ u f. no_echo msg gave is_arg g refl f)
          (λ got u z l. bad_echo gave got z refl l)
          λ got x reads.
            recv_and_print-then t s (happen (got_line x) (happen (received s got) w))
              (Talked t s arg v) (λ _. exit 0) (λ u f. no_second gave got x reads refl f)
              (λ more u z l. bad_second gave got x more z refl l)
              (λ more y reads'. talked msg gave got x more y is_arg g reads reads' refl refl refl))

  pub talk-Talked :
      IsText msg → length msg + 1 < 2 ^ 31 → Always t (converse s msg) v (Talked t s arg v)
  unfolding converse
  talk-Talked is_text fits = rw (send_fits s msg fits) (
      send-then t v (Talked t s arg v) (λ u f. not_sent refl f) s (length msg + 1) (terminated msg)
        _ _ _ (λ _. recv s >>= λ _. exit 0)
        (λ b size. recv-Talked (terminated msg ++ b) (c_string-terminated msg b is_text)))

with_argument :
    (t : Texts) (s : ℕ) (arg : Option Bytes) (v : View)
    → ((msg : Bytes) → arg ≡ some msg → IsText msg × (length msg + 1 < 2 ^ 31))
    → (o : Option Bytes) → arg ≡ o
    → Always t (deref o >>= λ msg. converse s msg) v (Talked t s arg v)
with_argument t s arg v texts none e = no_message e refl refl
with_argument t s arg v texts (some msg) e =
    talk-Talked t s arg v msg e (texts msg e).0 (texts msg e).1

-- Whatever nng does within its documentation, the client ends by a failed start, by the use of a
-- missing argument, or after dialing as `Talked` says, if its message is a C string shorter than an int
-- can count.
pub pair_client_main-Started :
    {t : Texts} (h : Host t) (args : List Bytes) (w : h.World)
    → ((msg : Bytes) → argv args 2 ≡ some msg → IsText msg × (length msg + 1 < 2 ^ 31))
    → Started t pair0 dialed
        (argv args 1)
        (h.view w)
        (λ s. Talked t s (argv args 2))
        (run h (main args) w).0
        (after h (main args) w)
unfolding main
pair_client_main-Started {t} h args w texts = run-Always h (main args) w _ (
    startup-Always t pair0 dialed (argv args 1) (h.view w) dial _ _ _ _ (λ s uri x a u e. e)
      (λ s x _ _. with_argument t s (argv args 2) x texts (argv args 2) refl))
