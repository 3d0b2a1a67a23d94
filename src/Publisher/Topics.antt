-- ===== src/Publisher/Topics.antt =====
-- Which subscriptions the published messages match. A subscription is matched, as nng documents it,
-- by the messages whose body begins with it.
use nng_examples.Prelude.{ℕ, ◌≡◌, refl, Bool, true, false, ◌&&◌, [], ◌∷◌, some, ◌==◌}
use nng_examples.Bytes.{Bytes, text, c_string, c_string_split}
use nng_examples.Publisher.{name_text, pid_text, time_text}

unfoldable pub has_prefix : Bytes → Bytes → Bool
has_prefix [] bs = true
has_prefix (p ∷ ps) [] = false
has_prefix (p ∷ ps) (b ∷ bs) = p == b && has_prefix ps bs

-- Whether a body matches the subscriptions NAME, PID, TIME, DATE and the empty one.
abbrev pub Matches : Bytes → Bool → Bool → Bool → Bool → Type 0
Matches b n p t d =
    (has_prefix (text "NAME") b ≡ n)
    × (has_prefix (text "PID") b ≡ p)
    × (has_prefix (text "TIME") b ≡ t)
    × (has_prefix (text "DATE") b ≡ d)
    × (has_prefix [] b ≡ true)

pub name-Matches :
    (b name : Bytes) → c_string b ≡ some (name_text name) → Matches b true false false false
unfolding has_prefix text
name-Matches b name e =
    let (rest, r) = c_string_split b (name_text name) e in rw r (refl, refl, refl, refl, refl)

pub pid-Matches :
    (b : Bytes) (pid : ℕ) → c_string b ≡ some (pid_text pid) → Matches b false true false false
unfolding has_prefix text
pid-Matches b pid e =
    let (rest, r) = c_string_split b (pid_text pid) e in rw r (refl, refl, refl, refl, refl)

pub time-Matches :
    (b date : Bytes) → c_string b ≡ some (time_text date) → Matches b false false true false
unfolding has_prefix text
time-Matches b date e =
    let (rest, r) = c_string_split b (time_text date) e in rw r (refl, refl, refl, refl, refl)
