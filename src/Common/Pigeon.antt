-- ===== src/Common/Pigeon.antt =====
-- Distinct numbers below n are at most n.
use xv6_memory_management_im.Common.{
  ℕ, zero, suc, ◌≤◌, ◌<◌, ◌≡◌, refl, false, List, [], ◌∷◌, arith, if◌then◌else◌, ◌==◌, length, has,
  All, inl, inr, Bool-cases,
}

abbrev pub Distinct : List ℕ → Type 0
Distinct [] = Unit
Distinct (x ∷ xs) = (has x xs ≡ false) × Distinct xs

erase : ℕ → List ℕ → List ℕ
erase a [] = []
erase a (x ∷ xs) = if a == x then xs else x ∷ erase a xs

has-erase : (a b : ℕ) (xs : List ℕ) → has b xs ≡ false → has b (erase a xs) ≡ false
unfolding erase
has-erase a b [] h = refl
has-erase a b (x ∷ xs) h = ground (arith, has-erase a b xs)

erase-Distinct :
    (a : ℕ) (xs : List ℕ) → Distinct xs → Distinct (erase a xs) × (has a (erase a xs) ≡ false)
unfolding erase
erase-Distinct a [] h = (tt, refl)
erase-Distinct a (x ∷ xs) h = ground (arith, has-erase a x xs, erase-Distinct a xs)

length-erase : (a : ℕ) (xs : List ℕ) → length xs ≤ suc (length (erase a xs))
unfolding erase
length-erase a [] = omega arith
length-erase a (x ∷ xs) = ground (arith, length-erase a xs)

All-below : (n : ℕ) (xs : List ℕ) → All (λ x. x < suc n) xs → has n xs ≡ false → All (λ x. x < n) xs
All-below n [] h m = tt
All-below n (x ∷ xs) h m = (ground arith, All-below n xs h.1 (ground arith))

Below-erase :
    (n : ℕ) (xs : List ℕ)
    → All (λ x. x < suc n) xs
    → has n (erase n xs) ≡ false
    → All (λ x. x < n) (erase n xs)
unfolding erase
Below-erase n [] h m = tt
Below-erase n (x ∷ xs) h m = elim (Bool-cases (n == x)) [
  | inl e ↦ rw e (All-below n xs h.1 (ground arith))
  | inr e ↦ rw e (ground arith, Below-erase n xs h.1 (ground arith))
]

pub length-le : (n : ℕ) (xs : List ℕ) → Distinct xs → All (λ x. x < n) xs → length xs ≤ n
length-le zero [] d h = omega arith
length-le zero (x ∷ xs) d h = absurd (omega arith)
length-le (suc n) xs d h =
    let (d', m) = erase-Distinct n xs d in
    omega (arith, length-erase n xs, length-le n (erase n xs) d' (Below-erase n xs h m))
