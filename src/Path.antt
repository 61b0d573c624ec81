-- ===== src/Path.antt =====
-- fs.c: path names, and the number in the name of a swap file. A path is the list of its bytes before the
-- final 0; a buffer is a function from the index of a byte to the byte.
pub mod Elements
pub mod Itoa
mod Tests
use xv6_memory_management_im.Common.{
  ℕ, zero, suc, ◌+◌, ◌-◌, ◌*◌, ◌/◌, ◌%◌, ◌≤◌, ◌<◌, ◌≡◌, ◌≢◌, refl, ap, sym, ◌∙◌, Bool, true, false,
  not, ◌||◌, ◌&&◌, List, [], ◌∷◌, ◌++◌, arith, if◌then◌else◌, ◌==◌, ==-false_of_ne, ==_iff, length,
  length-append, has, has-append, has-ne, update, ltb, leb, All, Option, none, some, ◌⊎◌, inl, inr,
  Bool-cases, Option-cases, ◌↔◌, some_inj, some_eq, ltb→lt, lt→ltb, get_elem?, set,
}
use xv6_memory_management_im.Common.Word.{
  add32, sub32, pgsize, word_mod, pg_round_up, pg_round_down, test_bit, set_bit, clear_bit,
}
use xv6_memory_management_im.Kernel.Layout.{kernbase, phystop, v2p, p2v, frame}
use xv6_memory_management_im.Kernel.{
  Run, ok, panic, stuck, Panic, panic_if, Returns, returns, bind, mono, result, >>=-eq-ok, ok_eq,
  ◌>>=◌, ◌>>◌,
}

abbrev pub slash : ℕ
slash = 47

abbrev pub dirsiz : ℕ
dirsiz = 14

-- `while(*path == '/') path++;`
unfoldable pub skip_slashes : List ℕ → List ℕ
skip_slashes [] = []
skip_slashes (x ∷ xs) = let rest = skip_slashes xs in if x == slash then rest else x ∷ xs

-- `while(*path != '/' && *path != 0) path++;`: the bytes passed over, and the path from there.
unfoldable pub element : List ℕ → List ℕ × List ℕ
element [] = ([], [])
element (x ∷ xs) =
    let rest = element xs in if x == slash then ([], x ∷ xs) else (x ∷ rest.0, rest.1)

-- `memmove(name, s, n)` for the first `n` of the bytes, from the index `k` of the buffer on.
unfoldable pub move_bytes : ℕ → ℕ → List ℕ → (ℕ → ℕ) → ℕ → ℕ
move_bytes zero k s name = name
move_bytes (suc n) k [] name = name
move_bytes (suc n) k (x ∷ s) name = move_bytes n (k + 1) s (update name k x)

unfoldable pub set_name : List ℕ → (ℕ → ℕ) → ℕ → ℕ
set_name s name =
    if leb dirsiz (length s)
    then move_bytes dirsiz 0 s name
    else update (move_bytes (length s) 0 s name) (length s) 0

-- `skipelem` on a path that does not begin with a slash.
unfoldable pub next_element : List ℕ → (ℕ → ℕ) → Option (List ℕ × (ℕ → ℕ))
next_element [] name = none
next_element (x ∷ xs) name =
    let (s, path) = element (x ∷ xs) in some (skip_slashes path, set_name s name)

unfoldable pub skipelem : List ℕ → (ℕ → ℕ) → Option (List ℕ × (ℕ → ℕ))
skipelem path name = next_element (skip_slashes path) name

-- The first loop of `itoa`: where the representation ends, from `p` on.
unfoldable pub end_of : ℕ → ℕ → ℕ → ℕ
end_of zero p shifter = p
end_of (suc n) p shifter =
    let rest = end_of n (p + 1) (shifter / 10) in if shifter / 10 == 0 then p + 1 else rest

-- The second one, which writes the digits backwards from `p`.
unfoldable pub put_digits : ℕ → ℕ → ℕ → (ℕ → ℕ) → ℕ → ℕ
put_digits zero p i b = b
put_digits (suc n) p i b =
    let b1 = update b (p - 1) (48 + i % 10) in
    let rest = put_digits n (p - 1) (i / 10) b1 in if i / 10 == 0 then b1 else rest

-- `itoa` of the number `i`, or of its negative. An int has a magnitude below 2 ^ 31, but for the least
-- one, whose negative is no int: `i *= -1` leaves it as it is, and the index `i % 10` of `digit` is
-- negative.
unfoldable pub itoa : Bool → ℕ → (ℕ → ℕ) → Run (ℕ → ℕ)
itoa negative i b =
    let start = if negative then 1 else 0 in
    let b1 = if negative then update b 0 45 else b in
    let p = end_of (i + 1) start i in
    panic_if (leb 0x8000_0000 i) Panic.out_of_bounds >> ok (put_digits (i + 1) p i (update b1 p 0))
