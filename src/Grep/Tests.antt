-- ===== src/Grep/Tests.antt =====
-- grep.c: the matcher on an expression with each of its operators.
use xv6_memory_management_im.Common.{ℕ, ◌≡◌, refl, true, false, List, [], ◌∷◌, ◌↔◌}
use xv6_memory_management_im.Grep.{match}
use xv6_memory_management_im.Grep.Match.{Found, match-Found}

-- b.*d
abbrev expression : List ℕ
expression = 98 ∷ 46 ∷ 42 ∷ 100 ∷ []

-- abccd
abbrev line : List ℕ
line = 97 ∷ 98 ∷ 99 ∷ 99 ∷ 100 ∷ []

match-Found_example : (match expression line ≡ true) ↔ Found expression line
match-Found_example = match-Found expression line

found : match expression line ≡ true
unfolding match
found = refl

-- ^b
at_start : match (94 ∷ 98 ∷ []) line ≡ false
unfolding match
at_start = refl

-- d$
at_the_end : match (100 ∷ 36 ∷ []) line ≡ true
unfolding match
at_the_end = refl
