-- ===== src/Text/CString/Laws.antt =====
-- What the string comparison of source/stdlib.c promises.
use u_acpi.Base.{ℕ, ◌<◌, ◌≡◌, ◌↔◌, refl, List, [], ◌∷◌, arith, ◌⊎◌}
use u_acpi.Base.Int.{ℤ, pos, negsuc, neg}
use u_acpi.Text.CString.{strcmp}

-- The bytes of a C string are not NUL.
abbrev pub NulFree : List ℕ → Type 0
NulFree [] = Unit {0}
NulFree (x ∷ xs) = (0 < x) × NulFree xs

-- Swapping the strings negates the result.
pub strcmp_swap : (a b : List ℕ) → strcmp b a ≡ neg (strcmp a b)
unfolding strcmp
strcmp_swap [] [] = refl
strcmp_swap [] (y ∷ ys) = ground arith
strcmp_swap (x ∷ xs) [] = ground arith
strcmp_swap (x ∷ xs) (y ∷ ys) = ground (arith, strcmp_swap xs ys)

strcmp_zero : (a b : List ℕ) → NulFree a → NulFree b → strcmp a b ≡ pos 0 → a ≡ b
unfolding strcmp
strcmp_zero [] [] p q e = refl
strcmp_zero [] (y ∷ ys) p q e = ground arith
strcmp_zero (x ∷ xs) [] p q e = ground arith
strcmp_zero (x ∷ xs) (y ∷ ys) p q e = ground (arith, strcmp_zero xs ys p.1 q.1)

pub strcmp_self : (a : List ℕ) → strcmp a a ≡ pos 0
unfolding strcmp
strcmp_self [] = refl
strcmp_self (x ∷ xs) = ground (arith, strcmp_self xs)

-- Strings that compare equal compare alike with any third.
pub strcmp_trans : (a b c : List ℕ) → strcmp a b ≡ pos 0 → strcmp a c ≡ strcmp b c
unfolding strcmp
strcmp_trans [] [] c h = refl
strcmp_trans [] (y ∷ ys) [] h = ground arith
strcmp_trans [] (y ∷ ys) (z ∷ zs) h = ground arith
strcmp_trans (x ∷ xs) [] [] h = ground arith
strcmp_trans (x ∷ xs) [] (z ∷ zs) h = ground arith
strcmp_trans (x ∷ xs) (y ∷ ys) [] h = ground arith
strcmp_trans (x ∷ xs) (y ∷ ys) (z ∷ zs) h = ground (arith, strcmp_trans xs ys zs)

-- The lexicographic order of the bytes.
abbrev pub Lex : List ℕ → List ℕ → Type 0
Lex a [] = ⊥
Lex [] (y ∷ ys) = Unit {0}
Lex (x ∷ xs) (y ∷ ys) = (x < y) ⊎ ((x ≡ y) × Lex xs ys)

abbrev pub IsNeg : ℤ → Type 0
IsNeg (pos n) = ⊥
IsNeg (negsuc n) = Unit {0}

strcmp_neg : (a b : List ℕ) → NulFree a → NulFree b → IsNeg (strcmp a b) → Lex a b
unfolding strcmp
strcmp_neg [] [] p q h = h
strcmp_neg [] (y ∷ ys) p q h = tt
strcmp_neg (x ∷ xs) [] p q h = ground arith
strcmp_neg (x ∷ xs) (y ∷ ys) p q h = ground (arith, strcmp_neg xs ys p.1 q.1)

strcmp-Lex : (a b : List ℕ) → NulFree a → NulFree b → Lex a b → IsNeg (strcmp a b)
unfolding strcmp
strcmp-Lex a [] p q h = absurd h
strcmp-Lex [] (y ∷ ys) p q h = ground arith
strcmp-Lex (x ∷ xs) (y ∷ ys) p q h = ground (arith, strcmp-Lex xs ys p.1 q.1)

-- On C strings, whose bytes are not NUL, the result is zero exactly when they are equal, and
-- negative exactly when the first comes first in the lexicographic order.
pub strcmp_iff :
    (a b : List ℕ)
    → NulFree a
    → NulFree b
    → ((strcmp a b ≡ pos 0) ↔ (a ≡ b)) × (IsNeg (strcmp a b) ↔ Lex a b)
strcmp_iff a b p q =
    ((strcmp_zero a b p q, λ e. rw e (strcmp_self b)), (strcmp_neg a b p q, strcmp-Lex a b p q))
