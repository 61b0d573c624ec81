-- ===== src/Trap.antt =====
-- trap.c: the page fault of a write to a page that is present, after a copy-on-write fork.
pub mod Cow
pub mod Last
mod Tests
use xv6_memory_management_im.Common.{
  ℕ, zero, suc, ◌+◌, ◌-◌, ◌*◌, ◌/◌, ◌%◌, ◌≤◌, ◌<◌, ◌≡◌, ◌≢◌, refl, ap, sym, ◌∙◌, Bool, true, false,
  not, ◌||◌, ◌&&◌, List, [], ◌∷◌, ◌++◌, arith, if◌then◌else◌, ◌==◌, ==-false_of_ne, ==_iff, length,
  length-append, has, has-append, has-ne, update, ltb, leb, All, Option, none, some, ◌⊎◌, inl, inr,
  Bool-cases, Option-cases, some_eq, ltb→lt, lt→ltb, get_elem?, set,
}
use xv6_memory_management_im.Common.Word.{
  add32, sub32, pgsize, word_mod, pg_round_up, pg_round_down, test_bit, set_bit, clear_bit,
}
use xv6_memory_management_im.Kernel.Layout.{kernbase, phystop, v2p, p2v, frame}
use xv6_memory_management_im.Kernel.{
  Run, ok, panic, stuck, Panic, panic_if, Returns, returns, bind, mono, result, >>=-eq-ok, ok_eq,
  ◌>>=◌, ◌>>◌,
}
use Prim.Native.Nat.{bit_or}
use xv6_memory_management_im.Kalloc.{Kmem, kalloc, get_ref, kmem_lock, kmem_release, decrement_ref}
use xv6_memory_management_im.Vm.Pte.{pte_w, pte_cow, pte_addr, pte_flags}
use xv6_memory_management_im.Vm.{store}

-- How the case ends: with the fault handled, with `killed` set, or at `pg_fault`.
pub data Outcome : Type 0 where
  handled out_of_memory pg_fault : Outcome

-- `memmove(dst, src, PGSIZE)` of two pages by words; they are different pages.
unfoldable pub copy_page : (ℕ → ℕ) → ℕ → ℕ → ℕ → ℕ
copy_page mem dst src a = if leb dst a && ltb a (dst + pgsize) then mem (src + (a - dst)) else mem a

-- The flags of the writable copy: a copy-on-write page becomes writable, another keeps its flags.
unfoldable pub writable : ℕ → ℕ
writable w = if test_bit w pte_cow then set_bit (clear_bit w pte_cow) pte_w else w

-- The copy of a shared page `v`, whose entry is at `pte`, into the page `r`; 0 is no page. The kernel
-- reads `v` through the user's address, which the entry at `pte` maps.
unfoldable pub copy_shared : ℕ → ℕ → ℕ → Kmem → Outcome × Kmem
unfolding copy_page writable
copy_shared pte v r k =
    let flags = writable (pte_flags (k.mem pte)) in
    if r == 0
    then (out_of_memory, k)
    else (handled, store pte (bit_or (v2p r) flags) (record k { mem = copy_page k.mem r v }))

-- `if(*pte & PTE_P)`: by the number of references to the page.
unfoldable pub cow_write : ℕ → Kmem → Run (Outcome × Kmem)
unfolding copy_shared writable
cow_write pte k =
    let v = p2v (pte_addr (k.mem pte)) in
    do
      (ref, k1) ← get_ref v k
      if ref == 1
          then ok (
            handled,
            if test_bit (k1.mem pte) pte_cow then store pte (writable (k1.mem pte)) k1 else k1,
          )
          else if ltb 1 ref
          then (do
            (r, k2) ← kalloc k1
            k3 ← kmem_lock k2
            let (outcome, k4) = copy_shared pte v r k3
            k5 ← kmem_release k4
            k6 ← decrement_ref v k5
            ok (outcome, k6))
          else ok (pg_fault, k1)
