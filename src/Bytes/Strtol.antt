-- ===== src/Bytes/Strtol.antt =====
-- atoi and atol: what the programs read of their arguments.
use nng_examples.Prelude.{
  ℕ, ◌+◌, ◌-◌, ◌*◌, ◌^◌, ◌≡◌, refl, ◌==◌, ltb, leb, Bool, true, false, ◌&&◌, ◌||◌, List, [], ◌∷◌,
  Option, none, some, if◌then◌else◌,
}

is_digit : ℕ → Bool
is_digit c = ltb 47 c && ltb c 58

-- The number of the digits at the start, after those that make `acc`.
leading_number : ℕ → List ℕ → ℕ
unfolding is_digit
leading_number acc [] = acc
leading_number acc (c ∷ cs) =
    let more = leading_number (acc * 10 + c - 48) cs in if is_digit c then more else acc

is_space : ℕ → Bool
is_space c = c == 32 || ltb 8 c && ltb c 14

-- A number and whether a minus stands before it, after the white space and the sign, if any.
signed_number : List ℕ → Bool × ℕ
unfolding leading_number is_space
signed_number [] = (false, 0)
signed_number (c ∷ cs) =
    let later = signed_number cs in
    if is_space c
    then later
    else if c == 45
    then (true, leading_number 0 cs)
    else if c == 43
    then (false, leading_number 0 cs)
    else (false, leading_number 0 (c ∷ cs))

-- As a value of a type that goes from -`half` up to `half`: `none` is undefined behaviour.
natural_below : ℕ → Bool × ℕ → Option ℕ
natural_below half (negative, m) =
    if ltb m half then (if negative && ltb 0 m then none else some m) else none

-- The same, converted to a size_t, where a negative number wraps around.
size_below : ℕ → Bool × ℕ → Option ℕ
size_below half (negative, m) =
    if negative && ltb 0 m
    then (if leb m half then some (2 ^ 64 - m) else none)
    else if ltb m half
    then some m
    else none

-- `int n = atoi(...)`, for a use of `n` as an index: `none` also for a negative number.
unfoldable pub atoi : List ℕ → Option ℕ
unfolding signed_number natural_below
atoi cs = natural_below (2 ^ 31) (signed_number cs)

-- `size_t n = atoi(...)`
unfoldable pub atoi_size : List ℕ → Option ℕ
unfolding signed_number size_below
atoi_size cs = size_below (2 ^ 31) (signed_number cs)

-- `size_t n = atol(...)`
unfoldable pub atol_size : List ℕ → Option ℕ
unfolding signed_number size_below
atol_size cs = size_below (2 ^ 63) (signed_number cs)

atoi_of_two : (atoi (32 ∷ 50 ∷ 120 ∷ []) ≡ some 2) × (atoi (45 ∷ 49 ∷ []) ≡ none)
unfolding atoi
atoi_of_two = (refl, refl)

atol_of_minus_one : atol_size (45 ∷ 49 ∷ []) ≡ some (2 ^ 64 - 1)
unfolding atol_size
atol_of_minus_one = refl
