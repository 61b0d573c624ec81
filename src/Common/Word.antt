-- ===== src/Common/Word.antt =====
-- Unsigned 32-bit words (`uint` of types.h) as numbers below 2 ^ 32, page arithmetic (mmu.h), and
-- single bits of a word, named by the mask that has only that bit.
use xv6_memory_management_im.Common.Tests.{◌==◌, if◌then◌else◌}
use Prim.Native.Nat.{ℕ, ◌+◌, ◌-◌, ◌/◌, ◌%◌, ◌^◌}
use mathlib.Core.Bool.{Bool}

abbrev pub word_mod : ℕ
word_mod = 2 ^ 32

abbrev pub add32 : ℕ → ℕ → ℕ
add32 a b = (a + b) % word_mod

abbrev pub sub32 : ℕ → ℕ → ℕ
sub32 a b = (a + word_mod - b) % word_mod

abbrev pub pgsize : ℕ
pgsize = 4096

-- `PGROUNDDOWN(a)`: the low twelve bits cleared.
abbrev pub pg_round_down : ℕ → ℕ
pg_round_down a = a - a % pgsize

-- `PGROUNDUP(sz)`, with the wrap of `sz + PGSIZE - 1`.
abbrev pub pg_round_up : ℕ → ℕ
pg_round_up sz = pg_round_down (add32 sz (pgsize - 1))

-- `x & m` as a test, for a mask of one bit.
abbrev pub test_bit : ℕ → ℕ → Bool
test_bit x m = x / m % 2 == 1

-- `x | m`
abbrev pub set_bit : ℕ → ℕ → ℕ
set_bit x m = if test_bit x m then x else x + m

-- `x & ~m`
abbrev pub clear_bit : ℕ → ℕ → ℕ
clear_bit x m = if test_bit x m then x - m else x
