-- ===== src/Bytes.antt =====
-- Text as the programs hold it: bytes of ASCII, C strings (ended by a zero byte), std::string
-- comparison and the decimal output of integers.
pub mod Decimal
pub mod Strtol
use Prim.Native.Char.{code}
use nng_examples.Prelude.{
  ℕ, zero, suc, ◌≡◌, ◌≢◌, refl, ap, ◌↔◌, String, Bool, true, false, ◌&&◌, List, [], ◌∷◌, ◌++◌,
  Option, none, some, inl, inr, arith, subst, not, ◌==◌, All, All-append, length, length-append,
  ◌+◌, append_assoc, Option-cases,
}

abbrev pub Bytes : Type 0
Bytes = List ℕ

-- The bytes of a literal.
unfoldable pub text : String → Bytes
text String.[] = []
text (String.◌∷◌ c s) = code c ∷ text s

-- What a `const char*` to these bytes reads as; `none` when no zero byte ends it.
unfoldable pub c_string : Bytes → Option Bytes
c_string [] = none
c_string (zero ∷ bs) = some []
c_string (suc n ∷ bs) = elim (c_string bs) [ none ↦ none | some t ↦ some (suc n ∷ t) ]

-- std::string's operator==
unfoldable pub bytes_eq : Bytes → Bytes → Bool
bytes_eq [] [] = true
bytes_eq [] (b ∷ bs) = false
bytes_eq (a ∷ as') [] = false
bytes_eq (a ∷ as') (b ∷ bs) = a == b && bytes_eq as' bs

-- No byte is zero, so that the bytes and the C string of them are one text.
abbrev pub IsText : Bytes → Type 0
IsText bs = All (λ b. b ≢ 0) bs

-- `.c_str()` with its terminator.
abbrev pub terminated : Bytes → Bytes
terminated bs = bs ++ 0 ∷ []

pub bytes_eq_refl : (a : Bytes) → bytes_eq a a ≡ true
unfolding bytes_eq
bytes_eq_refl [] = refl
bytes_eq_refl (x ∷ a) = ground (arith, bytes_eq_refl a)

pub bytes_eq_sound : (a b : Bytes) → bytes_eq a b ≡ true → a ≡ b
unfolding bytes_eq
bytes_eq_sound [] [] h = refl
bytes_eq_sound [] (y ∷ b) h = cc
bytes_eq_sound (x ∷ a) [] h = cc
bytes_eq_sound (x ∷ a) (y ∷ b) h = ground (arith, bytes_eq_sound a b)

pub bytes_eq_iff : (a b : Bytes) → (bytes_eq a b ≡ true) ↔ (a ≡ b)
bytes_eq_iff a b = (bytes_eq_sound a b, λ e. rw e (bytes_eq_refl b))

-- Whatever follows the terminator, the text is read back.
pub c_string-append : (t rest : Bytes) → IsText t → c_string (t ++ 0 ∷ rest) ≡ some t
unfolding c_string
c_string-append [] rest h = refl
c_string-append (zero ∷ t) rest h = absurd (h.0 refl)
c_string-append (suc n ∷ t) rest h = rw (c_string-append t rest h.1)

pub c_string-terminated : (t rest : Bytes) → IsText t → c_string (terminated t ++ rest) ≡ some t
c_string-terminated t rest h = rw append_assoc (c_string-append t rest h)

-- A C string holds no zero byte.
pub c_string-IsText : (b t : Bytes) → c_string b ≡ some t → IsText t
unfolding c_string
c_string-IsText [] t h = cc
c_string-IsText (zero ∷ bs) t h = ground arith
c_string-IsText (suc n ∷ bs) t h = elim (Option-cases (c_string bs)) [
  | inl e ↦ cc (rw e at h)
  | inr (u, e) ↦
      let e' : some (suc n ∷ u) ≡ some t = rw e at h in
      let same : suc n ∷ u ≡ t = cc in
      subst IsText same ((λ z. omega arith), c_string-IsText bs u e)
]

pub bytes_eq-false : (a b : Bytes) → bytes_eq a b ≡ false → a ≢ b
bytes_eq-false a b h e = cc ((bytes_eq_iff a b).1 e)

-- A way to check that a literal is a text, by evaluation.
unfoldable pub all_nonzero : Bytes → Bool
all_nonzero [] = true
all_nonzero (b ∷ bs) = not (b == 0) && all_nonzero bs

pub all_nonzero-IsText : (bs : Bytes) → all_nonzero bs ≡ true → IsText bs
unfolding all_nonzero
all_nonzero-IsText [] h = tt
all_nonzero-IsText (b ∷ bs) h = (λ z. ground arith, all_nonzero-IsText bs (ground arith))

pub append-IsText : (a b : Bytes) → IsText a → IsText b → IsText (a ++ b)
append-IsText a b = All-append (λ x. x ≢ 0) a b

pub length-terminated : (t : Bytes) → length t + 1 ≡ length (terminated t)
length-terminated t = omega (arith, length-append t (0 ∷ []))

-- The bytes that a C string leaves out.
pub c_string_split : (b t : Bytes) → c_string b ≡ some t → (rest : Bytes) × (b ≡ t ++ 0 ∷ rest)
unfolding c_string
c_string_split [] t h = cc
c_string_split (zero ∷ bs) t h = (bs, cc)
c_string_split (suc n ∷ bs) t h = elim (Option-cases (c_string bs)) [
  | inl e ↦ cc (rw e at h)
  | inr (u, e) ↦
      let e' : some (suc n ∷ u) ≡ some t = rw e at h in
      let same : suc n ∷ u ≡ t = cc in
      let (rest, r) = c_string_split bs u e in (rest, rw (← same, r) refl)
]
