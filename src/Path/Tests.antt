-- ===== src/Path/Tests.antt =====
-- Paths and numbers printed and taken apart.
use xv6_memory_management_im.Common.{
  ℕ, arith, ◌≡◌, refl, true, List, [], ◌∷◌, Option, none, some, ◌⊎◌,
}
use xv6_memory_management_im.Kernel.{Run, ok, panic, stuck, Panic, Returns}
use xv6_memory_management_im.Path.{
  skipelem, skip_slashes, next_element, element, itoa, end_of, put_digits,
}
use xv6_memory_management_im.Path.Elements.{elements, IsTaken, skipelem-IsTaken}
use xv6_memory_management_im.Path.Itoa.{IsPrinted, itoa-IsPrinted, value}

-- "/a//bb"
abbrev path : List ℕ
path = 47 ∷ 97 ∷ 47 ∷ 47 ∷ 98 ∷ 98 ∷ []

abbrev empty : ℕ → ℕ
empty = λ i. 0

two_parts : elements [] path ≡ (97 ∷ []) ∷ (98 ∷ 98 ∷ []) ∷ []
two_parts = refl

abbrev rest_of : Option (List ℕ × (ℕ → ℕ)) → List ℕ
rest_of none = []
rest_of (some (rest, j)) = rest

rest_after : rest_of (skipelem path empty) ≡ 98 ∷ 98 ∷ []
unfolding skipelem skip_slashes next_element element
rest_after = refl

skipelem-IsTaken_example :
    ((skipelem path empty ≡ none) × (elements [] path ≡ []))
    ⊎ ((s : List ℕ) × (rest : List ℕ) × (j : ℕ → ℕ) × (skipelem path empty ≡ some (rest, j))
        × IsTaken path empty s rest j)
skipelem-IsTaken_example = skipelem-IsTaken path empty

written : Run (ℕ → ℕ) → ℕ → ℕ
written (ok b) = b
written (panic e) = empty
written stuck = empty

printed_digits : value 3 1 (written (itoa true 407 empty)) ≡ 407
unfolding itoa end_of put_digits written
printed_digits = refl

-- The least int has no negative.
least_int : itoa true 0x8000_0000 empty ≡ panic Panic.out_of_bounds
unfolding itoa
least_int = refl

itoa-IsPrinted_example : Returns (IsPrinted true 407 empty) (itoa true 407 empty)
itoa-IsPrinted_example = itoa-IsPrinted true 407 empty (omega arith)
