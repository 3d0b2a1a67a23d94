-- ===== src/Bytes/Decimal.antt =====
-- operator<< of a stream for non-negative integers: decimal, no leading zeros.
use nng_examples.Prelude.{
  ℕ, zero, suc, ◌+◌, ◌-◌, ◌*◌, ◌/◌, ◌%◌, ◌<◌, ◌≡◌, ◌≢◌, refl, ◌∙◌, List, [], ◌∷◌, ◌++◌, arith, ltb,
  if◌then◌else◌, inl, inr, Bool-cases, All, All-append,
}

-- The digits, most significant first; the fuel bounds their number.
digits : ℕ → ℕ → List ℕ
digits zero n = []
digits (suc f) n =
    let rest = digits f (n / 10) in if ltb n 10 then (48 + n) ∷ [] else rest ++ (48 + n % 10) ∷ []

-- `stream << n`
unfoldable pub decimal : ℕ → List ℕ
unfolding digits
decimal n = digits (suc n) n

-- The number that decimal digits stand for, after those that make `acc`.
unfoldable pub number_from : ℕ → List ℕ → ℕ
number_from acc [] = acc
number_from acc (c ∷ cs) = number_from (acc * 10 + c - 48) cs

number_from-append :
    (acc : ℕ) (xs ys : List ℕ) → number_from acc (xs ++ ys) ≡ number_from (number_from acc xs) ys
unfolding number_from
number_from-append acc [] ys = refl
number_from-append acc (x ∷ xs) ys = number_from-append (acc * 10 + x - 48) xs ys

number_from-digits : (f n : ℕ) → n < f → number_from 0 (digits f n) ≡ n
unfolding digits number_from
number_from-digits zero n h = elim h [ ]
number_from-digits (suc f) n h = elim (Bool-cases (ltb n 10)) [
  | inl small ↦ rw small (omega arith)
  | inr big ↦ rw big (
      number_from-append 0 (digits f (n / 10)) ((48 + n % 10) ∷ [])
      ∙ rw (number_from-digits f (n / 10) (ground arith)) (omega arith))
]

-- The digits of a number read back as the number, so no two numbers are printed alike.
pub number_from-decimal : (n : ℕ) → number_from 0 (decimal n) ≡ n
unfolding decimal
number_from-decimal n = number_from-digits (suc n) n (omega arith)

digits-IsText : (f n : ℕ) → All (λ b. b ≢ 0) (digits f n)
unfolding digits
digits-IsText zero n = tt
digits-IsText (suc f) n = elim (Bool-cases (ltb n 10)) [
  | inl small ↦ rw small ((λ z. omega arith), tt)
  | inr big ↦ rw big (
      All-append (λ b. b ≢ 0) (digits f (n / 10)) _ (digits-IsText f (n / 10))
        ((λ z. omega arith), tt))
]

pub decimal-IsText : (n : ℕ) → All (λ b. b ≢ 0) (decimal n)
unfolding decimal
decimal-IsText n = digits-IsText (suc n) n
