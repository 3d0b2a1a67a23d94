-- ===== src/Bus/Talk.antt =====
-- What a member of the bus says once it has joined, and what it prints after that.
use nng_examples.Prelude.{ℕ, ◌≡◌, ◌≢◌, ◌⊎◌, List, ◌∷◌, ◌++◌, some}
use nng_examples.Bytes.{Bytes, text, c_string}
use nng_examples.Bytes.Decimal.{decimal}
use nng_examples.Platform.{Outcome, returns, exits, stdout}
use nng_examples.Platform.Documented.{Texts, View, Event, sent, received, printed}
use nng_examples.Platform.Host.{Host}
use nng_examples.Platform.Loop.{Looped}
use nng_examples.Checked.{newline}
use nng_examples.Checked.Shown.{Unshown}
use nng_examples.Checked.Rules.{Failed}
use nng_examples.Bus.{uris, bus_text}
use nng_examples.Bus.Setup.{Joined}

-- The lines about the message `msg` of member `id`.
abbrev pub saying : ℕ → Bytes → List Event → List Event
saying id msg l =
    printed stdout (text "Should be " ++ bus_text id msg ++ newline)
    ∷ printed stdout (decimal id ++ text " sending message " ++ bus_text id msg ++ newline)
    ∷ l

-- The message could not be made, or not be sent.
abbrev pub Unsaid : Texts → ℕ → Bytes → List Event → View → Type 0
Unsaid t id msg l u = Failed t l u ⊎ Failed t (saying id msg l) u

-- One message received and printed, as its text under the member's number; the member owns what it
-- owned before.
pub record Heard (me s : ℕ) (v u : View) : Type 0 where
  pub got : Bytes
  pub shown : Bytes
  pub reads : c_string got ≡ some shown
  pub log :
      u.log
      ≡ printed stdout (text "Got a message " ++ decimal me ++ text " : " ++ shown ++ newline)
        ∷ received s got
        ∷ v.log
  pub owned : u.body ≡ v.body

-- The ends of a member whose socket is `s`, followed for `n` received messages: it does not join; or it
-- joins and one of its two messages fails; or both are sent, each reading as the text, and the loop
-- comes to what `Looped` says.
pub data Talked (t : Texts) (me n s : ℕ) (v : View) (o : Outcome (Unit {0})) (u : View)
    : Type 0 where
  apart : o ≢ returns tt → Joined t uris s me v o u → Talked t me n s v o u
  silent :
      (w : View)
      → Joined t uris s me v (returns tt) w
      → o ≡ exits 1
      → Unsaid t me (text "Joined the bus") w.log u
      → Talked t me n s v o u
  interrupted :
      (w : View) (a : Bytes)
      → Joined t uris s me v (returns tt) w
      → c_string a ≡ some (bus_text me (text "Joined the bus"))
      → o ≡ exits 1
      → Unsaid t me
          (text "I'll send another")
          (sent s a ∷ saying me (text "Joined the bus") w.log)
          u
      → Talked t me n s v o u
  talking :
      (w : View) (a b : Bytes)
      → Joined t uris s me v (returns tt) w
      → c_string a ≡ some (bus_text me (text "Joined the bus"))
      → c_string b ≡ some (bus_text me (text "I'll send another"))
      → Looped
          (Heard me s)
          (Unshown t s)
          n
          (record w {
            log =
                sent s b
                ∷ saying me
                    (text "I'll send another")
                    (sent s a ∷ saying me (text "Joined the bus") w.log);
          })
          o
          u
      → Talked t me n s v o u
