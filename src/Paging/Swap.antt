-- ===== src/Paging/Swap.antt =====
-- vm.c: pages between RAM and the swap file.
use xv6_memory_management_im.Common.{
  ℕ, ◌+◌, ◌-◌, ◌*◌, ◌/◌, Bool, true, false, not, ◌||◌, ◌&&◌, if◌then◌else◌, ◌==◌, update, ltb, leb,
  Option, none, some,
}
use xv6_memory_management_im.Common.Word.{add32, sub32, pgsize, test_bit}
use xv6_memory_management_im.Kernel.Layout.{v2p, p2v}
use xv6_memory_management_im.Kernel.{Run, ok, panic, Panic, panic_if, ◌>>=◌, ◌>>◌}
use xv6_memory_management_im.Kalloc.{Kmem, kalloc, kfree}
use xv6_memory_management_im.Vm.Pte.{pte_p, pte_w, pte_u, pte_addr}
use xv6_memory_management_im.Vm.{walk, mappages, set_flags_on_swap}
use xv6_memory_management_im.Paging.{
  in_disk, in_memory, not_used, PageLink, Proc, Selection, max_total_pages, find_link, is_in_disk,
  next_av_offset, remove_page_from_list, add_page_to_list,
}
use xv6_memory_management_im.Paging.Select.{Machine, pgdir_in_use, choose_page_to_swap}

-- The swap file of a process, as `writeToSwapFile` and `readFromSwapFile` of fs.c use it a page at a
-- time: a page is a function from offsets to words. The flag says that the call has not failed, and a
-- read that fails may still have changed the page that it reads into.
pub record SwapFile (S : Type 0) : Type 0 where
  pub write : ℕ → (ℕ → ℕ) → S → Bool × S
  pub read : ℕ → (ℕ → ℕ) → S → Bool × (ℕ → ℕ)

pub record World (S : Type 0) : Type 0 where
  pub machine : Machine
  pub file : S

-- The value -1 of an unsigned field.
abbrev pub minus_one : ℕ
minus_one = 0xFFFF_FFFF

abbrev pub links_of : {S : Type 0} → World S → ℕ → PageLink
links_of w = w.machine.proc.links

abbrev pub dir_of : {S : Type 0} → World S → ℕ
dir_of w = pgdir_in_use w.machine.global_pgdir w.machine.proc.pgdir

abbrev pub with_kmem : {S : Type 0} → World S → Kmem → World S
with_kmem w k = record w { machine = record w.machine { kmem = k } }

abbrev pub with_proc : {S : Type 0} → World S → Proc → World S
with_proc w p = record w { machine = record w.machine { proc = p } }

-- The words at a user address, read through the page table that is loaded.
unfoldable pub user_words : ℕ → Machine → Run (ℕ → ℕ)
unfolding walk
user_words va m =
    let pte = walk m.kmem m.proc.pgdir va in
    do
      panic_if ((pte == 0) || not (test_bit (m.kmem.mem pte) pte_p)) Panic.trap
      ok (λ o. m.kmem.mem (p2v (pte_addr (m.kmem.mem pte)) + o))

-- The words of a page put at the kernel address `a`.
unfoldable pub fill_words : (ℕ → ℕ) → ℕ → (ℕ → ℕ) → ℕ → ℕ
fill_words mem a words b = if leb a b && ltb b (a + pgsize) then words (b - a) else mem b

-- The bookkeeping of `movePageToFile` for the entry `x`, written at the offset `o`.
unfoldable pub note_out : ℕ → ℕ → Proc → Proc
note_out x o p = record p {
  links = update p.links x (record (p.links x) { offset_in_file = pgsize * o; state = in_disk });
  offsets = update p.offsets o 1;
  num_pages_disk = add32 p.num_pages_disk 1;
}

-- The bookkeeping of `getPageFromFile`; the offset is outside `available_Offsets` when the page has
-- none.
unfoldable pub note_in : ℕ → Proc → Run Proc
note_in x p =
    let o = (p.links x).offset_in_file / pgsize in
    do
      panic_if (leb 17 o) Panic.out_of_bounds
      ok (record p {
        links =
            update p.links x (record (p.links x) { offset_in_file = minus_one; state = in_memory });
        offsets = update p.offsets o 0;
        num_pages_ram = add32 p.num_pages_ram 1;
        num_pages_disk = sub32 p.num_pages_disk 1;
      })

module _ {S : Type 0} (io : SwapFile S) where
  unfoldable pub move_page_at : ℕ → Option ℕ → World S → Run (Bool × World S)
  unfolding user_words note_out
  move_page_at x none w = panic Panic.swap_full
  move_page_at x (some o) w = do
    words ← user_words (links_of w x).page_id w.machine
    let (written, file) = io.write o words w.file
    let w1 = record w { file = file }
    if written then ok (true, with_proc w1 (note_out x o w1.machine.proc)) else ok (false, w1)

  unfoldable pub move_page_to_file : ℕ → World S → Run (Bool × World S)
  unfolding walk move_page_at
  move_page_to_file x w =
      let pte = walk w.machine.kmem (dir_of w) (links_of w x).page_id in
      do
        panic_if (pte == 0) Panic.move_no_page
        panic_if (not (test_bit (w.machine.kmem.mem pte) pte_p)) Panic.move_not_present
        move_page_at x (next_av_offset w.machine.proc) w

  -- The part of `moveToDisk` after the page has been written.
  unfoldable pub give_up : ℕ → World S → Run (World S)
  give_up x w =
      let pte = walk w.machine.kmem (dir_of w) (links_of w x).page_id in
      let p =
        remove_page_from_list x
          (record w.machine.proc { num_of_page_outs = add32 w.machine.proc.num_of_page_outs 1 }) in
      do
        k1 ← set_flags_on_swap (dir_of w) (links_of w x).page_id false w.machine.kmem
        k2 ← kfree (p2v (pte_addr (k1.mem pte))) k1
        ok (with_kmem (with_proc w (record p { num_pages_ram = sub32 p.num_pages_ram 1 })) k2)

  unfoldable pub move_to_disk : ℕ → World S → Run (Bool × World S)
  unfolding move_page_to_file give_up
  move_to_disk x w = do
    (moved, w1) ← move_page_to_file x w
    if moved then (do w2 ← give_up x w1; ok (true, w2)) else ok (false, w1)

  -- The part of `getPageFromFile` that has the page `a`. The result of `mappages` is not looked at.
  unfoldable pub bring_in : ℕ → ℕ → World S → Run (Bool × World S)
  unfolding mappages set_flags_on_swap fill_words note_in add_page_to_list
  bring_in x a w = do
    (mapped, k1) ←
        mappages (dir_of w) (links_of w x).page_id pgsize (v2p a) (pte_w + pte_u) w.machine.kmem
    let (good, words) =
        io.read ((links_of w x).offset_in_file / pgsize) (λ o. k1.mem (a + o)) w.file
    let k2 = record k1 { mem = fill_words k1.mem a words }
    if good
        then (do
          k3 ← set_flags_on_swap (dir_of w) (links_of w x).page_id true k2
          p1 ← note_in x w.machine.proc
          p2 ← add_page_to_list x p1
          ok (true, with_kmem (with_proc w p2) k3))
        else ok (false, with_kmem w k2)

  -- `getPageFromFile`. Its test `offset_in_file < 0` is false for an unsigned field.
  unfoldable pub get_page_from_file : ℕ → World S → Run (Bool × World S)
  unfolding bring_in
  get_page_from_file x w = do
    (a, k) ← kalloc w.machine.kmem
    panic_if (a == 0) Panic.get_out_of_memory
    bring_in x a (with_kmem w k)

  -- The rest of `swapPages`, for the entry found and the page chosen; the results of the two moves
  -- are not looked at.
  unfoldable pub swap_with : Option ℕ → Option ℕ → World S → Run (Bool × World S)
  unfolding move_to_disk get_page_from_file
  swap_with none out w = ok (false, w)
  swap_with (some i) none w = do (got, w1) ← get_page_from_file i w; ok (true, w1)
  swap_with (some i) (some o) w = do
    (moved, w1) ← move_to_disk o w
    (got, w2) ← get_page_from_file i w1
    ok (true, w2)

  unfoldable pub swap_pages : Selection → ℕ → World S → Run (Bool × World S)
  unfolding choose_page_to_swap find_link swap_with
  swap_pages sel addr w = do
    (out, m) ← choose_page_to_swap sel w.machine
    let w1 = record w { machine = m }
    swap_with (find_link max_total_pages 0 (λ l. l.page_id == addr) m.proc.links) out w1

  -- `deletePage` for the first entry in the swap file, if there is one.
  unfoldable pub refill : Option ℕ → World S → Run (World S)
  unfolding get_page_from_file
  refill none w = ok w
  refill (some i) w = do (got, w1) ← get_page_from_file i w; ok w1

  -- The entry `x` is cleared but stays on the list of pages in RAM.
  unfoldable pub delete_page : ℕ → World S → Run (World S)
  unfolding refill find_link
  delete_page x w =
      let p = w.machine.proc in
      let p1 = record p {
        num_pages_ram = if ltb 0 p.num_pages_ram then p.num_pages_ram - 1 else p.num_pages_ram;
        links = update p.links x (record (p.links x) {
          page_id = minus_one;
          state = not_used;
          offset_in_file = minus_one;
        });
      } in
      let next = find_link max_total_pages 0 (λ l. is_in_disk l.state) p1.links in
      if ltb 0 p1.num_pages_disk then refill next (with_proc w p1) else ok (with_proc w p1)
