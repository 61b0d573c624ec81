-- ===== src/Grep.antt =====
-- grep.c: the matcher of regular expressions with ^ . * and $. A text is the list of its bytes, which
-- are not 0; the byte after the last is 0.
pub mod Match
mod Tests
use xv6_memory_management_im.Common.{
  ℕ, zero, suc, ◌+◌, ◌-◌, ◌*◌, ◌/◌, ◌%◌, ◌≤◌, ◌<◌, ◌≡◌, ◌≢◌, refl, ap, sym, ◌∙◌, Bool, true, false,
  not, ◌||◌, ◌&&◌, List, [], ◌∷◌, ◌++◌, arith, if◌then◌else◌, ◌==◌, ==-false_of_ne, ==_iff, length,
  length-append, has, has-append, has-ne, update, ltb, leb, All, Option, none, some, ◌⊎◌, inl, inr,
  Bool-cases, Option-cases, some_eq, ltb→lt, lt→ltb, get_elem?, set,
}
use xv6_memory_management_im.Common.Word.{
  add32, sub32, pgsize, word_mod, pg_round_up, pg_round_down, test_bit, set_bit, clear_bit,
}
use xv6_memory_management_im.Kernel.Layout.{kernbase, phystop, v2p, p2v, frame}
use xv6_memory_management_im.Kernel.{
  Run, ok, panic, stuck, Panic, panic_if, Returns, returns, bind, mono, result, >>=-eq-ok, ok_eq,
  ◌>>=◌, ◌>>◌,
}

abbrev pub caret : ℕ
caret = 94

abbrev pub dot : ℕ
dot = 46

abbrev pub star : ℕ
star = 42

abbrev pub dollar : ℕ
dollar = 36

-- The loop of `matchstar`; `rest` is the call of `matchhere` on the expression after the star.
unfoldable pub match_star : (List ℕ → Bool) → ℕ → List ℕ → Bool
match_star rest c [] = rest []
match_star rest c (t ∷ text) =
    let more = match_star rest c text in rest (t ∷ text) || (((t == c) || (c == dot)) && more)

-- A byte of the expression against the first byte of the text, and then `rest`.
unfoldable pub match_byte : (List ℕ → Bool) → ℕ → List ℕ → Bool
match_byte rest c [] = false
match_byte rest c (t ∷ text) = ((c == dot) || (c == t)) && rest text

abbrev pub at_end : List ℕ → Bool
at_end [] = true
at_end (t ∷ text) = false

-- `matchhere`
unfoldable pub match_here : List ℕ → List ℕ → Bool
unfolding match_star match_byte
match_here [] text = true
match_here (c ∷ []) text = if c == dollar then at_end text else match_byte (match_here []) c text
match_here (c ∷ d ∷ re) text =
    let starred = match_star (match_here re) c text in
    let plain = match_byte (match_here (d ∷ re)) c text in if d == star then starred else plain

-- The loop of `match`.
unfoldable pub match_any : List ℕ → List ℕ → Bool
unfolding match_here
match_any re [] = match_here re []
match_any re (t ∷ text) = let rest = match_any re text in match_here re (t ∷ text) || rest

unfoldable pub match : List ℕ → List ℕ → Bool
unfolding match_here match_any
match [] text = match_any [] text
match (c ∷ re) text = if c == caret then match_here re text else match_any (c ∷ re) text
