-- ===== src/Uvm.antt =====
-- vm.c: the address space of a process as a whole: the kernel part of a page table, growing,
-- shrinking and freeing the user part, and the copies that fork makes of it.
pub mod Apart
pub mod Share
pub mod Alloc
pub mod Drop
pub mod Freed
pub mod Dealloc
pub mod Forked
pub mod Protected
pub mod Copy
mod Tests
use xv6_memory_management_im.Common.{
  ◌^◌, ℕ, zero, suc, ◌+◌, ◌-◌, ◌*◌, ◌/◌, ◌%◌, ◌≤◌, ◌<◌, ◌≡◌, ◌≢◌, refl, ap, sym, ◌∙◌, Bool, true,
  false, not, ◌||◌, ◌&&◌, List, [], ◌∷◌, ◌++◌, arith, if◌then◌else◌, ◌==◌, ==-false_of_ne, ==_iff,
  length, length-append, has, has-append, has-ne, update, ltb, leb, All, Option, none, some, ◌⊎◌,
  inl, inr, Bool-cases, Option-cases, ◌↔◌, some_inj, some_eq, ltb→lt, lt→ltb, get_elem?, set,
}
use xv6_memory_management_im.Common.Word.{
  add32, sub32, pgsize, word_mod, pg_round_up, pg_round_down, test_bit, set_bit, clear_bit,
}
use xv6_memory_management_im.Kernel.Layout.{kernbase, phystop, v2p, p2v, frame}
use xv6_memory_management_im.Kernel.{
  Run, ok, panic, stuck, Panic, panic_if, Returns, returns, bind, mono, result, >>=-eq-ok, ok_eq,
  ◌>>=◌, ◌>>◌,
}
use xv6_memory_management_im.Kalloc.{Kmem, kalloc, kfree, fill_page, increment_ref}
use xv6_memory_management_im.Kernel.Layout.{extmem, devspace}
use xv6_memory_management_im.Vm.Pte.{pte_p, pte_w, pte_u, pte_pg, pte_cow, pte_addr, pte_flags, pdx}
use xv6_memory_management_im.Vm.{store, walk, walkpgdir, mappages}
use xv6_memory_management_im.Paging.{
  Proc, Selection, none_selected, not_used, max_psyc_pages, max_total_pages, find_link,
  add_page_to_ram,
}
use xv6_memory_management_im.Paging.Select.{choose_page_to_swap}
use xv6_memory_management_im.Paging.Swap.{
  SwapFile, World, with_kmem, with_proc, minus_one, move_to_disk, delete_page,
}
use xv6_memory_management_im.Trap.{copy_page}

-- `SELECTION != NONE`
abbrev pub is_paging : Selection → Bool
is_paging none_selected = false
is_paging _ = true

-- `struct kmap`
pub record Kmap : Type 0 where
  pub virt : ℕ
  pub phys_start : ℕ
  pub phys_end : ℕ
  pub perm : ℕ

-- `kmap`; `data_start` is the linker's `data`.
abbrev pub kmap : ℕ → List Kmap
kmap data_start =
    record { virt = kernbase; phys_start = 0; phys_end = extmem; perm = pte_w }
    ∷ record { virt = kernbase + extmem; phys_start = extmem; phys_end = v2p data_start; perm = 0 }
    ∷ record { virt = data_start; phys_start = v2p data_start; phys_end = phystop; perm = pte_w }
    ∷ record { virt = devspace; phys_start = devspace; phys_end = 0; perm = pte_w }
    ∷ []

-- The loop of `setupkvm`; the flag says that every `mappages` returned 0.
unfoldable pub kmap_loop : List Kmap → ℕ → Kmem → Run (Bool × Kmem)
unfolding mappages
kmap_loop [] pgdir k = ok (true, k)
kmap_loop (m ∷ ms) pgdir k = do
  (mapped, k1) ← mappages pgdir m.virt (sub32 m.phys_end m.phys_start) m.phys_start m.perm k
  if mapped then kmap_loop ms pgdir k1 else ok (false, k1)

-- A writable page becomes copy-on-write.
unfoldable pub protect : ℕ → ℕ
protect w = if test_bit w pte_w then set_bit (clear_bit w pte_w) pte_cow else w

-- A round of `copyuvm` for a page in RAM, whose entry is at `pte`.
unfoldable pub share_present : ℕ → ℕ → ℕ → Kmem → Run (Bool × Kmem)
unfolding mappages increment_ref protect
share_present pte d i k =
    let w = protect (k.mem pte) in
    do
      (mapped, k1) ← mappages d i pgsize (pte_addr (k.mem pte)) (pte_flags w) (store pte w k)
      if mapped
          then (do k2 ← increment_ref (p2v (pte_addr (k.mem pte))) k1; ok (true, k2))
          else ok (false, k1)

-- The entry of a page in the swap file is copied without its address; a table that is missing for it
-- is not checked for.
unfoldable pub copy_swapped : ℕ → ℕ → ℕ → Kmem → Run (Bool × Kmem)
unfolding walkpgdir
copy_swapped pte d i k = do
  (pte2, k1) ← walkpgdir d i true k
  panic_if (pte2 == 0) Panic.null_deref
  ok (true, store pte2 (pte_flags (k1.mem pte)) k1)

unfoldable pub share_page : ℕ → ℕ → ℕ → Kmem → Run (Bool × Kmem)
unfolding walk share_present copy_swapped
share_page pgdir d i k =
    let pte = walk k pgdir i in
    do
      panic_if (pte == 0) Panic.pte_should_exist
      panic_if (not (test_bit (k.mem pte) pte_p || test_bit (k.mem pte) pte_pg))
          Panic.page_not_present
      if test_bit (k.mem pte) pte_p then share_present pte d i k else copy_swapped pte d i k

-- A round of `copyuvm_no_COW` for a page in RAM.
unfoldable pub copy_present : ℕ → ℕ → ℕ → Kmem → Run (Bool × Kmem)
unfolding kalloc kfree mappages copy_page
copy_present pte d i k = do
  (r, k1) ← kalloc k
  if r == 0 then ok (false, k1) else do
    let k2 = record k1 { mem = copy_page k1.mem r (p2v (pte_addr (k.mem pte))) }
    (mapped, k3) ← mappages d i pgsize (v2p r) (pte_flags (k.mem pte)) k2
    if mapped then ok (true, k3) else (do k4 ← kfree r k3; ok (false, k4))

unfoldable pub copy_one : ℕ → ℕ → ℕ → Kmem → Run (Bool × Kmem)
unfolding walk copy_present copy_swapped
copy_one pgdir d i k =
    let pte = walk k pgdir i in
    do
      panic_if (pte == 0) Panic.pte_should_exist
      panic_if (not (test_bit (k.mem pte) pte_p || test_bit (k.mem pte) pte_pg))
          Panic.page_not_present
      if test_bit (k.mem pte) pte_p then copy_present pte d i k else copy_swapped pte d i k

-- The loop of the two copies, with the round `one`.
unfoldable pub copy_loop : (ℕ → Kmem → Run (Bool × Kmem)) → ℕ → ℕ → ℕ → Kmem → Run (Bool × Kmem)
copy_loop one zero i sz k = stuck
copy_loop one (suc n) i sz k =
    let round = one i k >>= λ (good, k1).
    if good then copy_loop one n (add32 i pgsize) sz k1 else ok (false, k1) in
    if ltb i sz then round else ok (true, k)

module _ {S : Type 0} (io : SwapFile S) where
  -- `deallocuvm` after the search for the entry of the page: `hit` is what was found. The flag
  -- `pageFound` is not initialised, so `found` may be true when nothing was.
  unfoldable pub forget_present : Option ℕ → Bool → World S → Run (Bool × World S)
  unfolding delete_page
  forget_present none found w = do panic_if found Panic.out_of_bounds; ok (found, w)
  forget_present (some i) found w = do w1 ← delete_page io i w; ok (true, w1)

  unfoldable pub forget_swapped : Option ℕ → Bool → World S → Run (Bool × World S)
  forget_swapped none found w = do panic_if found Panic.out_of_bounds; ok (found, w)
  forget_swapped (some i) found w =
      let p = w.machine.proc in
      let o = (p.links i).offset_in_file / pgsize in
      do
        panic_if (leb 17 o) Panic.out_of_bounds
        ok (
          true,
          with_proc w (record p {
            num_pages_disk = sub32 p.num_pages_disk 1;
            offsets = update p.offsets o 0;
            links = update p.links i (record (p.links i) {
              page_id = minus_one;
              offset_in_file = minus_one;
              state = not_used;
            });
          }),
        )

  -- A round of `deallocuvm` for a page in RAM, and for one in the swap file; `own` says that paging
  -- is on and the page table is that of the current process.
  unfoldable pub drop_present : ℕ → ℕ → Bool → Bool → World S → Run (Bool × World S)
  unfolding kfree forget_present find_link
  drop_present pte a own found w =
      let k = w.machine.kmem in
      let pa = pte_addr (k.mem pte) in
      do
        panic_if (pa == 0) Panic.kfree_deallocuvm
        k1 ← kfree (p2v pa) k
        let w1 = with_kmem w (store pte 0 k1)
        let hit = find_link max_total_pages 0 (λ l. l.page_id == a) w1.machine.proc.links
        if own then forget_present hit found w1 else ok (found, w1)

  unfoldable pub drop_swapped : ℕ → ℕ → Bool → World S → Run (Bool × World S)
  unfolding forget_swapped find_link
  drop_swapped pte a found w =
      let hit = find_link max_total_pages 0 (λ l. l.page_id == pte_addr a) w.machine.proc.links in
      do
        (found1, w1) ← forget_swapped hit found w
        ok (found1, with_kmem w1 (store pte 0 w1.machine.kmem))

  unfoldable pub drop_page : Selection → ℕ → ℕ → ℕ → Bool → World S → Run (Bool × World S)
  unfolding drop_present drop_swapped
  drop_page sel pgdir pte a found w =
      let own = is_paging sel && (w.machine.proc.pgdir == pgdir) in
      let e = w.machine.kmem.mem pte in
      if test_bit e pte_p
      then drop_present pte a own found w
      else if own && test_bit e pte_pg
      then drop_swapped pte a found w
      else ok (found, w)

  -- The loop of `deallocuvm`; where a table is missing it goes on with the next one.
  unfoldable pub dealloc_loop : Selection → ℕ → ℕ → ℕ → ℕ → Bool → World S → Run (World S)
  unfolding walk drop_page
  dealloc_loop sel zero pgdir a oldsz found w = stuck
  dealloc_loop sel (suc n) pgdir a oldsz found w =
      let pte = walk w.machine.kmem pgdir a in
      let beyond = (pdx a + 1) * 2 ^ 22 % word_mod in
      let next = add32 (sub32 beyond pgsize) pgsize in
      let skip = dealloc_loop sel n pgdir next oldsz found w in
      let drop = drop_page sel pgdir pte a found w >>= λ (found1, w1).
      dealloc_loop sel n pgdir (add32 a pgsize) oldsz found1 w1 in
      if ltb a oldsz then (if pte == 0 then skip else drop) else ok w

  -- `deallocuvm`, where `garbage` is what `pageFound` happens to hold at first.
  unfoldable pub deallocuvm : Selection → Bool → ℕ → ℕ → ℕ → World S → Run (ℕ × World S)
  unfolding dealloc_loop
  deallocuvm sel garbage pgdir oldsz newsz w =
      let drop = (do
        w1 ← dealloc_loop sel (suc (oldsz / pgsize + 1)) pgdir (pg_round_up newsz) oldsz garbage w
        ok (newsz, w1)) in
      if leb oldsz newsz then ok (oldsz, w) else drop

  -- The loop of `freevm` over the page directory.
  unfoldable pub free_tables : ℕ → ℕ → ℕ → Kmem → Run Kmem
  unfolding kfree
  free_tables zero i pgdir k = ok k
  free_tables (suc n) i pgdir k =
      let e = k.mem (pgdir + 4 * i) in
      let freed = kfree (p2v (pte_addr e)) k >>= free_tables n (i + 1) pgdir in
      let kept = free_tables n (i + 1) pgdir k in if test_bit e pte_p then freed else kept

  abbrev with_global : World S → Option ℕ → World S
  with_global w g = record w { machine = record w.machine { global_pgdir = g } }

  unfoldable pub freevm : Selection → Bool → ℕ → World S → Run (World S)
  unfolding deallocuvm free_tables
  freevm sel garbage pgdir w = do
    panic_if (pgdir == 0) Panic.no_pgdir
    (size, w1) ← deallocuvm sel garbage pgdir kernbase 0 (with_global w (some pgdir))
    k1 ← free_tables 1024 0 pgdir w1.machine.kmem
    k2 ← kfree pgdir k1
    ok (with_global (with_kmem w1 k2) none)

  -- The end of `setupkvm` and of the copies of an address space: the page table `d`, or 0 after it
  -- has been freed.
  unfoldable pub or_free : Selection → Bool → ℕ → Bool → World S → Run (ℕ × World S)
  unfolding freevm
  or_free sel garbage d good w =
      let freed = (do w1 ← freevm sel garbage d w; ok (0, w1)) in if good then ok (d, w) else freed

  unfoldable pub setupkvm : Selection → Bool → ℕ → World S → Run (ℕ × World S)
  unfolding kmap_loop or_free
  setupkvm sel garbage data_start w = do
    (d, k1) ← kalloc w.machine.kmem
    if d == 0 then ok (0, with_kmem w k1) else do
      let k2 = record k1 { mem = fill_page k1.mem d 0 }
      panic_if (ltb devspace (p2v phystop)) Panic.too_high
      (mapped, k3) ← kmap_loop (kmap data_start) d k2
      or_free sel garbage d mapped (with_kmem w k3)

  unfoldable pub copyuvm : Selection → Bool → ℕ → ℕ → ℕ → World S → Run (ℕ × World S)
  unfolding setupkvm share_page copy_loop or_free
  copyuvm sel garbage data_start pgdir sz w = do
    (d, w1) ← setupkvm sel garbage data_start w
    if d == 0 then ok (0, w1) else do
      (good, k1) ← copy_loop (share_page pgdir d) (suc (sz / pgsize + 1)) 0 sz w1.machine.kmem
      or_free sel garbage d good (with_kmem w1 k1)

  unfoldable pub copyuvm_no_cow : Selection → Bool → ℕ → ℕ → ℕ → World S → Run (ℕ × World S)
  unfolding setupkvm copy_one copy_loop or_free
  copyuvm_no_cow sel garbage data_start pgdir sz w = do
    (d, w1) ← setupkvm sel garbage data_start w
    if d == 0 then ok (0, w1) else do
      (good, k1) ← copy_loop (copy_one pgdir d) (suc (sz / pgsize + 1)) 0 sz w1.machine.kmem
      or_free sel garbage d good (with_kmem w1 k1)
