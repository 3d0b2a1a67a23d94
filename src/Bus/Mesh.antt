-- ===== src/Bus/Mesh.antt =====
-- The members of a bus dial one another into a complete mesh.
use nng_examples.Prelude.{
  ℕ, zero, suc, ◌+◌, ◌-◌, ◌≤◌, ◌<◌, ◌≡◌, ◌≢◌, ◌==◌, leb, List, [], ◌∷◌, Option, some, none, arith,
  if◌then◌else◌, ltb, ◌&&◌, Bool-cases, inl, inr, leb-true,
}
use nng_examples.Bus.{positions, targets}

-- How often position `j` is dialed.
abbrev pub dials : ℕ → List ℕ → ℕ
dials j [] = 0
dials j (x ∷ xs) = (if x == j then 1 else 0) + dials j xs

abbrev pub dials_of : ℕ → Option (List ℕ) → ℕ
dials_of j none = 0
dials_of j (some xs) = dials j xs

dials-positions :
    (j a k : ℕ) → dials j (positions a k) ≡ (if leb a j && ltb j (a + k) then 1 else 0)
dials-positions j a zero = ground arith
dials-positions j a (suc k) = ground (arith, dials-positions j (suc a) k)

dials-positions_between :
    (j a b : ℕ) → a ≤ b → dials j (positions a (b - a)) ≡ (if leb a j && ltb j b then 1 else 0)
dials-positions_between j a b h = ground (arith, dials-positions j a (b - a))

-- The three branches at once.
targets_lem :
    (n me x : ℕ)
    → 2 ≤ n
    → me < n
    → (targets n me ≢ none)
      × (dials_of x (targets n me) ≡ (
          if me == 0
          then (if leb 1 x && ltb x (n - 1) then 1 else 0)
          else if me + 1 == n
          then (if 0 == x then 1 else 0)
          else (if leb (me + 1) x && ltb x n then 1 else 0)))
unfolding targets
targets_lem n me x two h = (
  λ e. ground arith,
  elim (Bool-cases (me == 0)) [
    | inl first ↦
        rw first (
          rw (leb-true 1 (n - 1) (omega arith)) (dials-positions_between x 1 (n - 1) (omega arith)))
    | inr other ↦ rw other (elim (Bool-cases (me + 1 == n)) [
      | inl last ↦ rw last (ground arith)
      | inr middle ↦ rw middle (dials-positions_between x (me + 1) n (omega arith))
    ])
  ],
)

-- On a bus of two members or more every member has a well-defined list to dial, does not dial
-- itself, and of any two members exactly one dials the other, once.
pub targets-mesh :
    (n i j : ℕ)
    → 2 ≤ n
    → i < j
    → j < n
    → (targets n i ≢ none)
      × (targets n j ≢ none)
      × (dials_of i (targets n i) ≡ 0)
      × (dials_of j (targets n j) ≡ 0)
      × (dials_of j (targets n i) + dials_of i (targets n j) ≡ 1)
targets-mesh n i j two lt bound = (
  (targets_lem n i 0 two (omega arith)).0,
  (targets_lem n j 0 two bound).0,
  ground (arith, (targets_lem n i i two (omega arith)).1),
  ground (arith, (targets_lem n j j two bound).1),
  ground (arith, (targets_lem n i j two (omega arith)).1, (targets_lem n j i two bound).1),
)
