-- ===== src/Performance/Addresses.antt =====
-- The addresses of the members of the bus in performance/bus.cpp.
use nng_examples.Prelude.{
  ℕ, zero, suc, ◌+◌, ◌^◌, ◌%◌, ◌<◌, ◌≡◌, refl, sym, ap, ltb, List, [], ◌∷◌, some, get_elem?, length,
  map, arith, Bool-cases, inl, inr, ◌≤◌,
}
use nng_examples.Bytes.{Bytes}
use nng_examples.Bus.{positions}
use nng_examples.Performance.Goals.{address, IsIntOf}
use nng_examples.Performance.Bus.{construct_endpoints, as_int}
use mathlib.Core.Option.{some-injective}

module _ (f : ℕ → Bytes) where
  at_position :
      (a n i : ℕ) (x : Bytes) → get_elem? (map f (positions a n)) i ≡ some x → x ≡ f (a + i)
  at_position a zero i x e = cc
  at_position a (suc n) zero x e =
      let here : a + 0 ≡ a = omega arith in rw here (some-injective _ _ (sym e))
  at_position a (suc n) (suc i) x e =
      let there : suc a + i ≡ a + suc i = omega arith in rw there at (at_position (suc a) n i x e)

  length-at : (a n : ℕ) → length (map f (positions a n)) ≡ n
  length-at a zero = refl
  length-at a (suc n) = ap suc (length-at (suc a) n)

  at_positions :
      (n : ℕ) (ps : List ℕ) (xs : List Bytes)
      → map (get_elem? (map f (positions 0 n))) ps ≡ map some xs
      → xs ≡ map f ps
  at_positions n [] [] e = refl
  at_positions n [] (x ∷ xs) e = cc
  at_positions n (p ∷ ps) [] e = cc
  at_positions n (p ∷ ps) (x ∷ xs) e =
      let here : get_elem? (map f (positions 0 n)) p ≡ some x = cc in
      let rest : map (get_elem? (map f (positions 0 n))) ps ≡ map some xs = cc in
      let zero_up : 0 + p ≡ p = omega arith in
      rw (rw zero_up at (at_position 0 n p x here), at_positions n ps xs rest) refl

-- What stands in the vector of addresses.
pub record Addressed (f : ℕ → Bytes) (size : ℕ) (us : List Bytes) : Type 0 where
  pub many : length us ≡ size
  pub one : (i : ℕ) (x : Bytes) → get_elem? us i ≡ some x → x ≡ f i
  pub all : (ps : List ℕ) (xs : List Bytes) → map (get_elem? us) ps ≡ map some xs → xs ≡ map f ps

pub construct_endpoints-Addressed :
    (formatted : Bytes → ℕ → Bytes) (base : Bytes) (size : ℕ) (us : List Bytes)
    → construct_endpoints formatted base size ≡ some us
    → Addressed (address formatted base) size us
unfolding construct_endpoints
construct_endpoints-Addressed formatted base size us e = elim (Bool-cases (ltb size (2 ^ 31))) [
  | inr many ↦ cc (rw many at e)
  | inl few ↦
      let f = address formatted base in
      let same : us ≡ map f (positions 0 size) = sym (some-injective _ _ (rw few at e)) in
      rw same (record {
        many = length-at f 0 size;
        one = λ i x at_i.
            let zero_up : 0 + i ≡ i = omega arith in rw zero_up at (at_position f 0 size i x at_i);
        all = at_positions f size;
      })
]

pub as_int-IsIntOf : (n : ℕ) → IsIntOf n (as_int n)
unfolding as_int
as_int-IsIntOf n = elim (Bool-cases (ltb (n % 2 ^ 32) (2 ^ 31))) [
  | inl low ↦ rw low (ground arith, refl)
  | inr high ↦
      let le : 2 ^ 31 ≤ n % 2 ^ 32 = ground arith in
      let lt : n % 2 ^ 32 < 2 ^ 32 = omega arith in rw high (omega arith, omega arith)
]
