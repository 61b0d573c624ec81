-- ===== src/Paging/EvictTests.antt =====
-- vm.c: `moveToDisk` at a process with one page.
use xv6_memory_management_im.Common.{
  ℕ, ◌+◌, ◌<◌, ◌≡◌, refl, sym, ◌∙◌, true, false, [], ◌∷◌, arith, if◌then◌else◌, ◌==◌, update, none,
  some,
}
use xv6_memory_management_im.Common.Word.{word_mod}
use xv6_memory_management_im.Kernel.Layout.{frame}
use xv6_memory_management_im.Kernel.{Returns}
use xv6_memory_management_im.Kalloc.{Kmem}
use xv6_memory_management_im.Vm.Table.{entry, present, page_of}
use xv6_memory_management_im.Vm.Space.{IsSpace}
use xv6_memory_management_im.Vm.Map.{IsOther}
use xv6_memory_management_im.Paging.{in_memory, Proc}
use xv6_memory_management_im.Paging.Swap.{SwapFile, move_to_disk}
use xv6_memory_management_im.Paging.Evict.{IsMovedOut, world, swapped_out, move_to_disk-IsSpace}

abbrev pgdir : ℕ
pgdir = 0x8010_1000

abbrev table_page : ℕ
table_page = 0x8010_2000

abbrev user_page : ℕ
user_page = 0x8010_3000

abbrev spare : ℕ
spare = 0x8010_4000

abbrev one_page : Kmem
one_page = record {
  kernel_end = 0x8010_0800;
  mem = update (update (λ _. 0) pgdir 0x10_2007) table_page 0x10_3007;
  locked = false;
  use_lock = true;
  freelist = spare;
  refs = update (λ _. 0) (frame user_page) 1;
  free_pages = 1;
  total_pages = 4;
}

only_table : (i : ℕ) → i < 1024 → present one_page pgdir i ≡ true → i ≡ 0
only_table i l p = ground arith

one_page-IsSpace : IsSpace one_page pgdir (spare ∷ []) 0
one_page-IsSpace = record {
  kmem = record {
    unlocked = refl;
    base = omega arith;
    free = (refl, omega arith, refl, refl, refl);
    counted = refl;
  };
  dir = record {
    dir = omega arith;
    base = omega arith;
    tables = λ i l p. let e = only_table i l p in rw e (omega arith, λ z. omega arith);
    apart = λ i j l m p q r. only_table i l p ∙ sym (only_table j m q);
  };
  dir_used = refl;
  table_used = λ i l p. let e = only_table i l p in rw e;
}

user_page-IsOther : IsOther one_page pgdir user_page
user_page-IsOther = (omega arith, λ i l p. let e = only_table i l p in rw e (λ z. omega arith))

abbrev process : Proc
process = record {
  pgdir = pgdir;
  pid = 3;
  killed = false;
  has_swap_file = true;
  links = λ _. record {
    page_id = 0;
    state = in_memory;
    offset_in_file = 0xFFFF_FFFF;
    shift_counter = 0;
    index = 0;
    next = none;
    prev = none;
  };
  head = some 0;
  num_pages_ram = 1;
  num_pages_disk = 0;
  offsets = λ _. 0;
  num_of_page_faults = 0;
  num_of_page_outs = 0;
}

-- A swap file that keeps every page that is written.
abbrev Slots : Type 0
Slots = ℕ → ℕ → ℕ

abbrev disk : SwapFile Slots
disk = record {
  write = λ o words f. (true, λ q. if q == o then words else f q);
  read = λ o old f. (true, f o);
}

abbrev after : Slots
after q = if q == 0 then (λ i. one_page.mem (user_page + i)) else (λ _. 0)

move_to_disk-IsSpace_example :
    Returns
      (λ (moved, w).
        (moved ≡ true)
        × (w.file ≡ after)
        × IsMovedOut process w.machine.proc 0 0 [] []
        × IsSpace w.machine.kmem pgdir (user_page ∷ spare ∷ []) 0
        × ((vb : ℕ)
            → vb < word_mod
            → entry w.machine.kmem pgdir vb
              ≡ (if 0 == page_of vb then swapped_out 0x10_3007 else entry one_page pgdir vb)))
      (move_to_disk disk 0 (world one_page process (λ _ _. 0)))
unfolding xv6_memory_management_im.Vm.walk
move_to_disk-IsSpace_example =
    move_to_disk-IsSpace disk one_page process (λ _ _. 0) after 0 0 (spare ∷ []) 0 [] []
      (refl, refl, omega arith, refl, refl) one_page-IsSpace (omega arith) (omega arith) refl
      (omega arith) user_page-IsOther refl (omega arith) refl (λ a l. absurd (omega arith)) refl
