-- ===== src/Text.antt =====
-- string.c: bytes moved and texts copied. Memory is a function from addresses to bytes; a range that is moved
-- does not wrap around the end of the address space.
pub mod Move
pub mod Copy
mod Tests
use xv6_memory_management_im.Common.{
  ℕ, zero, suc, ◌+◌, ◌-◌, ◌*◌, ◌/◌, ◌%◌, ◌≤◌, ◌<◌, ◌≡◌, ◌≢◌, refl, ap, sym, ◌∙◌, Bool, true, false,
  not, ◌||◌, ◌&&◌, List, [], ◌∷◌, ◌++◌, arith, if◌then◌else◌, ◌==◌, ==-false_of_ne, ==_iff, length,
  length-append, has, has-append, has-ne, update, ltb, leb, All, Option, none, some, ◌⊎◌, inl, inr,
  Bool-cases, Option-cases, ◌↔◌, some_inj, some_eq, ltb→lt, lt→ltb, get_elem?, set,
}
use xv6_memory_management_im.Common.Word.{
  add32, sub32, pgsize, word_mod, pg_round_up, pg_round_down, test_bit, set_bit, clear_bit,
}
use xv6_memory_management_im.Kernel.Layout.{kernbase, phystop, v2p, p2v, frame}
use xv6_memory_management_im.Kernel.{
  Run, ok, panic, stuck, Panic, panic_if, Returns, returns, bind, mono, result, >>=-eq-ok, ok_eq,
  ◌>>=◌, ◌>>◌,
}

-- The loop of `memmove` that goes down from the end of the ranges.
unfoldable pub move_down : ℕ → ℕ → ℕ → (ℕ → ℕ) → ℕ → ℕ
move_down zero d s mem = mem
move_down (suc n) d s mem = move_down n d s (update mem (d + n) (mem (s + n)))

-- The loop that goes up.
unfoldable pub move_up : ℕ → ℕ → ℕ → (ℕ → ℕ) → ℕ → ℕ
move_up zero d s mem = mem
move_up (suc n) d s mem = move_up n (d + 1) (s + 1) (update mem d (mem s))

unfoldable pub memmove : ℕ → ℕ → ℕ → (ℕ → ℕ) → ℕ → ℕ
memmove d s n mem = if ltb s d && ltb d (s + n) then move_down n d s mem else move_up n d s mem

-- The loop of `safestrcpy`, with room for `n` bytes before the last.
unfoldable pub copy_text : ℕ → ℕ → ℕ → (ℕ → ℕ) → ℕ → ℕ
copy_text zero s t mem = update mem s 0
copy_text (suc n) s t mem =
    let mem1 = update mem s (mem t) in
    let rest = copy_text n (s + 1) (t + 1) mem1 in
    if mem t == 0 then update mem1 (s + 1) 0 else rest

unfoldable pub safestrcpy : ℕ → ℕ → ℕ → (ℕ → ℕ) → ℕ → ℕ
safestrcpy s t zero mem = mem
safestrcpy s t (suc n) mem = copy_text n s t mem
