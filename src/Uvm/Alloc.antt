-- ===== src/Uvm/Alloc.antt =====
-- vm.c: `allocuvm`, which grows the user part of an address space.
use xv6_memory_management_im.Common.{
  ℕ, zero, suc, ◌+◌, ◌/◌, Bool, true, false, not, ◌&&◌, if◌then◌else◌, ◌==◌, ltb, leb, Option, none,
  some,
}
use xv6_memory_management_im.Common.Word.{add32, pgsize, pg_round_up}
use xv6_memory_management_im.Kernel.Layout.{kernbase, v2p}
use xv6_memory_management_im.Kernel.{Run, ok, panic, stuck, Panic, ◌>>=◌}
use xv6_memory_management_im.Kalloc.{kalloc, kfree, fill_page}
use xv6_memory_management_im.Vm.Pte.{pte_w, pte_u}
use xv6_memory_management_im.Vm.{mappages}
use xv6_memory_management_im.Paging.{Selection, max_psyc_pages, max_total_pages, add_page_to_ram}
use xv6_memory_management_im.Paging.Select.{choose_page_to_swap}
use xv6_memory_management_im.Paging.Swap.{SwapFile, World, with_kmem, with_proc, move_to_disk}
use xv6_memory_management_im.Uvm.{is_paging, deallocuvm}

module _ {S : Type 0} (io : SwapFile S) where
  -- `moveToDisk(choosePageToSwap())`
  unfoldable pub give_chosen : Option ℕ → World S → Run (Bool × World S)
  unfolding move_to_disk
  give_chosen none w = panic Panic.null_deref
  give_chosen (some x) w = move_to_disk io x w

  -- The page that `allocuvm` gives up when the process has 16 in RAM: false for its return of 0.
  -- `create` is `createSwapFile`.
  unfoldable pub make_room : (S → S) → Selection → World S → Run (Bool × World S)
  unfolding choose_page_to_swap give_chosen
  make_room create sel w =
      let p = w.machine.proc in
      let w1 =
        if p.has_swap_file
        then w
        else with_proc (record w { file = create w.file }) (record p { has_swap_file = true }) in
      let moved = (do
        (out, m) ← choose_page_to_swap sel w1.machine
        give_chosen out (record w1 { machine = m })) in
      if not (p.num_pages_ram == max_psyc_pages)
      then ok (true, w)
      else if add32 p.num_pages_disk max_psyc_pages == max_total_pages
      then ok (false, w)
      else moved

  -- The end of `allocuvm` without memory: the pages of this call are given back.
  unfoldable pub give_back : Selection → Bool → ℕ → ℕ → ℕ → World S → Run (ℕ × World S)
  unfolding deallocuvm
  give_back sel garbage pgdir newsz oldsz w = do
    (size, w1) ← deallocuvm io sel garbage pgdir newsz oldsz w
    ok (0, w1)

  abbrev is_listed : Selection → World S → Bool
  is_listed sel w = is_paging sel && ltb 2 w.machine.proc.pid

  -- A new page `r` for the address `a`: none when the loop goes on.
  unfoldable pub add_page :
      Selection → Bool → ℕ → ℕ → ℕ → ℕ → ℕ → World S → Run (Option ℕ × World S)
  unfolding mappages kfree give_back add_page_to_ram
  add_page sel garbage pgdir newsz oldsz r a w = do
    let k1 = record w.machine.kmem { mem = fill_page w.machine.kmem.mem r 0 }
    (mapped, k2) ← mappages pgdir a pgsize (v2p r) (pte_w + pte_u) k1
    let w2 = with_kmem w k2
    let listed = (do p ← add_page_to_ram sel a w2.machine.proc; ok (none, with_proc w2 p))
    let failed = (do
      (res, w3) ← give_back sel garbage pgdir newsz oldsz w2
      k4 ← kfree r w3.machine.kmem
      ok (some res, with_kmem w3 k4))
    if not mapped then failed else if is_listed sel w2 then listed else ok (none, w2)

  -- A round of `allocuvm`: some result when it returns.
  unfoldable pub alloc_page :
      (S → S) → Selection → Bool → ℕ → ℕ → ℕ → ℕ → World S → Run (Option ℕ × World S)
  unfolding make_room give_back add_page
  alloc_page create sel garbage pgdir newsz oldsz a w = do
    (room, w1) ← (if is_listed sel w then make_room create sel w else ok (true, w))
    if not room then ok (some 0, w1) else do
      (r, k) ← kalloc w1.machine.kmem
      let w2 = with_kmem w1 k
      let failed = (do (res, w3) ← give_back sel garbage pgdir newsz oldsz w2; ok (some res, w3))
      if r == 0 then failed else add_page sel garbage pgdir newsz oldsz r a w2

  unfoldable pub alloc_loop :
      (S → S) → Selection → Bool → ℕ → ℕ → ℕ → ℕ → ℕ → World S → Run (ℕ × World S)
  unfolding alloc_page
  alloc_loop create sel garbage zero pgdir newsz oldsz a w = stuck
  alloc_loop create sel garbage (suc n) pgdir newsz oldsz a w =
      let round = alloc_page create sel garbage pgdir newsz oldsz a w >>= λ (res, w1). elim res [
        | none ↦ alloc_loop create sel garbage n pgdir newsz oldsz (add32 a pgsize) w1
        | some size ↦ ok (size, w1)
      ] in
      if ltb a newsz then round else ok (newsz, w)

  unfoldable pub allocuvm : (S → S) → Selection → Bool → ℕ → ℕ → ℕ → World S → Run (ℕ × World S)
  unfolding alloc_loop
  allocuvm create sel garbage pgdir oldsz newsz w =
      let grow =
        alloc_loop create sel garbage (suc (newsz / pgsize + 1)) pgdir newsz oldsz
          (pg_round_up oldsz) w in
      if leb kernbase newsz then ok (0, w) else if ltb newsz oldsz then ok (oldsz, w) else grow
