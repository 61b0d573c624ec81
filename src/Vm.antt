-- ===== src/Vm.antt =====
-- vm.c: two-level page tables. A page directory and its tables are pages of `Kmem.mem`, read and
-- written word by word; the address of an entry is a number, 0 for a null pointer.
pub mod Bits
pub mod Pte
pub mod Table
pub mod Map
pub mod Space
pub mod Beside
pub mod Walk
pub mod Frame
pub mod Free
pub mod Mapped
mod Tests
use xv6_memory_management_im.Common.{
  ℕ, zero, suc, ◌+◌, ◌-◌, ◌*◌, ◌/◌, ◌%◌, Bool, true, false, not, ◌==◌, leb, ltb, if◌then◌else◌,
  update, ◌&&◌, ◌||◌,
}
use Prim.Native.Nat.{bit_or}
use xv6_memory_management_im.Common.Word.{
  add32, sub32, pgsize, pg_round_down, pg_round_up, test_bit, set_bit, clear_bit,
}
use xv6_memory_management_im.Kernel.{Panic, Run, ok, panic, stuck, ◌>>=◌, ◌>>◌, panic_if}
use xv6_memory_management_im.Kernel.Layout.{v2p, p2v}
use xv6_memory_management_im.Kalloc.{Kmem, kalloc, kfree, fill_page, increment_ref}
use xv6_memory_management_im.Vm.Pte.{
  pte_p, pte_w, pte_u, pte_a, pte_pg, pte_cow, pte_addr, pte_flags, pdx, ptx,
}

-- `*a = w`
abbrev pub store : ℕ → ℕ → Kmem → Kmem
store a w k = record k { mem = update k.mem a w }

-- `walkpgdir` without allocation, which only reads.
unfoldable pub walk : Kmem → ℕ → ℕ → ℕ
walk k pgdir va =
    let pde = k.mem (pgdir + 4 * pdx va) in
    if test_bit pde pte_p then p2v (pte_addr pde) + 4 * ptx va else 0

-- A new page table, cleared and entered in the directory with all permissions.
unfoldable pub add_table : ℕ → ℕ → ℕ → Kmem → Kmem
add_table pgdir va r k =
    let cleared = record k { mem = fill_page k.mem r 0 } in
    store (pgdir + 4 * pdx va) (set_bit (set_bit (set_bit (v2p r) pte_p) pte_w) pte_u) cleared

unfoldable pub walkpgdir : ℕ → ℕ → Bool → Kmem → Run (ℕ × Kmem)
unfolding walk add_table
walkpgdir pgdir va alloc k =
    if test_bit (k.mem (pgdir + 4 * pdx va)) pte_p
    then ok (walk k pgdir va, k)
    else if alloc
    then (do
      (r, k1) ← kalloc k
      if r == 0 then ok (0, k1) else ok (r + 4 * ptx va, add_table pgdir va r k1))
    else ok (0, k)

-- The loop of `mappages`; the flag says whether it returned 0.
unfoldable pub mappages_loop : ℕ → ℕ → ℕ → ℕ → ℕ → ℕ → Kmem → Run (Bool × Kmem)
unfolding walkpgdir
mappages_loop zero pgdir a last pa perm k = stuck
mappages_loop (suc n) pgdir a last pa perm k =
    let rest = λ (j : Kmem). mappages_loop n pgdir (add32 a pgsize) last (add32 pa pgsize) perm j in
    do
      (pte, k1) ← walkpgdir pgdir a true k
      if pte == 0 then ok (false, k1) else do
        panic_if (test_bit (k1.mem pte) pte_p) Panic.remap
        let k2 = store pte (set_bit (bit_or pa perm) pte_p) k1
        if a == last then ok (true, k2) else rest k2

-- One round for each page from the first to the last.
unfoldable pub mappages : ℕ → ℕ → ℕ → ℕ → ℕ → Kmem → Run (Bool × Kmem)
unfolding mappages_loop
mappages pgdir va size pa perm k =
    let a = pg_round_down va in
    let last = pg_round_down (sub32 (add32 va size) 1) in
    mappages_loop (suc (sub32 last a / pgsize)) pgdir a last pa perm k

-- `setFlagsOnSwap`
unfoldable pub set_flags_on_swap : ℕ → ℕ → Bool → Kmem → Run Kmem
unfolding walk
set_flags_on_swap pgdir va swap_in k =
    let pte = walk k pgdir va in
    if pte == 0
    then panic Panic.set_flags
    else ok (
        if swap_in
        then store pte (set_bit (clear_bit (k.mem pte) pte_pg) pte_p) k
        else store pte (set_bit (clear_bit (k.mem pte) pte_p) pte_pg) k)

-- `is_PTE_A`
unfoldable pub is_pte_a : ℕ → ℕ → Kmem → Run ℕ
unfolding walk
is_pte_a pgdir va k =
    let pte = walk k pgdir va in
    if pte == 0 then panic Panic.is_pte_a else ok (if test_bit (k.mem pte) pte_a then 1 else 0)

-- `PTE_A_off`
unfoldable pub pte_a_off : ℕ → ℕ → Kmem → Run Kmem
unfolding walk
pte_a_off pgdir va k =
    let pte = walk k pgdir va in
    if pte == 0 then panic Panic.pte_a_off else ok (store pte (clear_bit (k.mem pte) pte_a) k)

unfoldable pub clearpteu : ℕ → ℕ → Kmem → Run Kmem
unfolding walk
clearpteu pgdir uva k =
    let pte = walk k pgdir uva in
    if pte == 0 then panic Panic.clearpteu else ok (store pte (clear_bit (k.mem pte) pte_u) k)

-- `uva2ka`: 0 for a page that is not there or not the user's. It reads the entry unchecked.
unfoldable pub uva2ka : ℕ → ℕ → Kmem → Run ℕ
unfolding walk
uva2ka pgdir uva k =
    let pte = walk k pgdir uva in
    if pte == 0
    then panic Panic.null_deref
    else if not (test_bit (k.mem pte) pte_p)
    then ok 0
    else if not (test_bit (k.mem pte) pte_u)
    then ok 0
    else ok (p2v (pte_addr (k.mem pte)))
