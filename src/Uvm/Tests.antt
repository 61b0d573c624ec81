-- ===== src/Uvm/Tests.antt =====
-- vm.c: the theorem about the copy of an address space, at a process of one page.
use xv6_memory_management_im.Common.{
  none, ℕ, ◌<◌, ◌≡◌, refl, sym, ◌∙◌, true, false, List, [], ◌∷◌, arith, update,
}
use xv6_memory_management_im.Kernel.Layout.{frame}
use xv6_memory_management_im.Kernel.{Returns}
use xv6_memory_management_im.Kalloc.{Kmem}
use xv6_memory_management_im.Kalloc.Invariant.{IsKmem}
use xv6_memory_management_im.Vm.{walk}
use xv6_memory_management_im.Vm.Table.{entry, present, page_of}
use xv6_memory_management_im.Uvm.{share_page, copy_loop}
use xv6_memory_management_im.Uvm.Apart.{IsFork}
use xv6_memory_management_im.Uvm.Copy.{copy_loop-IsForked}
use xv6_memory_management_im.Uvm.Protected.{IsForked}
use xv6_memory_management_im.Uvm.Forked.{IsShareable, entry_page, inside}
use xv6_memory_management_im.Vm.Map.{IsOther}
use xv6_memory_management_im.Paging.{in_memory, scfifo}
use xv6_memory_management_im.Paging.Swap.{SwapFile, World, with_kmem}
use xv6_memory_management_im.Uvm.{deallocuvm}
use xv6_memory_management_im.Uvm.Freed.{IsOwned, IsFreed, maps}
use xv6_memory_management_im.Uvm.Dealloc.{deallocuvm-IsFreed}

abbrev parent_dir : ℕ
parent_dir = 0x8010_1000

abbrev parent_table : ℕ
parent_table = 0x8010_2000

abbrev user_page : ℕ
user_page = 0x8010_3000

abbrev child_dir : ℕ
child_dir = 0x8010_4000

abbrev spare : ℕ
spare = 0x8010_5000

-- The parent has one writable page, at address 0; the child's directory is empty.
abbrev before : Kmem
before = record {
  kernel_end = 0x8010_0800;
  mem = update (update (λ _. 0) parent_dir 0x10_2007) parent_table 0x10_3007;
  locked = false;
  use_lock = true;
  freelist = spare;
  refs = update (λ _. 0) (frame user_page) 1;
  free_pages = 1;
  total_pages = 5;
}

one_table : (i : ℕ) → i < 1024 → present before parent_dir i ≡ true → i ≡ 0
one_table i l p = ground arith

no_table : (i : ℕ) → i < 1024 → present before child_dir i ≡ true → ⊥
no_table i l p = ground arith

before-IsKmem : IsKmem before (spare ∷ []) 0
before-IsKmem = record {
  unlocked = refl;
  base = omega arith;
  free = (refl, omega arith, refl, refl, refl);
  counted = refl;
}

before-IsFork : IsFork before parent_dir child_dir (spare ∷ []) 0
before-IsFork = record {
  parent = record {
    kmem = before-IsKmem;
    dir = record {
      dir = omega arith;
      base = omega arith;
      tables = λ i l p. let e = one_table i l p in rw e (omega arith, λ z. omega arith);
      apart = λ i j l m p q r. one_table i l p ∙ sym (one_table j m q);
    };
    dir_used = refl;
    table_used = λ i l p. let e = one_table i l p in rw e;
  };
  child = record {
    kmem = before-IsKmem;
    dir = record {
      dir = omega arith;
      base = omega arith;
      tables = λ i l p. absurd (no_table i l p);
      apart = λ i j l m p. absurd (no_table i l p);
    };
    dir_used = refl;
    table_used = λ i l p. absurd (no_table i l p);
  };
  dirs = (λ e. omega arith, λ i l p. absurd (no_table i l p));
  tables = λ i l p. (
    λ e. let q = one_table i l p in let z = rw q at e in omega arith,
    λ m n r. absurd (no_table m n r),
  );
}

first_page : (vb : ℕ) → inside 0 4096 vb ≡ true → page_of 0 ≡ page_of vb
first_page vb h = ground arith

parent_entry : entry before parent_dir 0 ≡ 0x10_3007
unfolding entry walk
parent_entry = refl

child_entry : entry before child_dir 0 ≡ 0
unfolding entry walk
child_entry = refl

parent_entry_at : (vb : ℕ) → inside 0 4096 vb ≡ true → entry before parent_dir vb ≡ 0x10_3007
parent_entry_at vb h = sym (entry_page before parent_dir 0 vb (first_page vb h)) ∙ parent_entry

child_entry_at : (vb : ℕ) → inside 0 4096 vb ≡ true → entry before child_dir vb ≡ 0
child_entry_at vb h = sym (entry_page before child_dir 0 vb (first_page vb h)) ∙ child_entry

before-IsShareable : IsShareable before parent_dir child_dir 0 4096 (spare ∷ [])
before-IsShareable = record {
  here = λ vb l h. rw (parent_entry_at vb h);
  page = λ vb l h. rw (parent_entry_at vb h) (omega arith);
  used = λ vb l h. rw (parent_entry_at vb h);
  new = λ vb l h. rw (child_entry_at vb h);
}

copy_loop-IsForked_example :
    Returns
      (λ (done, j).
        (ys : List ℕ) × IsForked before parent_dir child_dir 0 2 4096 (spare ∷ []) 0 done j ys)
      (copy_loop (share_page parent_dir child_dir) 2 0 4096 before)
copy_loop-IsForked_example =
    copy_loop-IsForked 1 before parent_dir child_dir 0 4096 (spare ∷ []) 0 before-IsFork refl
      (omega arith) (omega arith) before-IsShareable

-- A swap file that holds nothing.
abbrev no_file : SwapFile (Unit {0})
no_file = record { write = λ o words s. (true, s); read = λ o page s. (true, page) }

-- The current process is the one with the other page table.
abbrev child : World (Unit {0})
child = record {
  machine = record {
    kmem = before;
    proc = record {
      pgdir = child_dir;
      pid = 4;
      killed = false;
      has_swap_file = true;
      links = λ _. record {
        page_id = 0;
        state = in_memory;
        offset_in_file = 0xFFFF_FFFF;
        shift_counter = 0;
        index = 0;
        next = none;
        prev = none;
      };
      head = none;
      num_pages_ram = 0;
      num_pages_disk = 0;
      offsets = λ _. 0;
      num_of_page_faults = 0;
      num_of_page_outs = 0;
    };
    global_pgdir = none;
  };
  file = tt;
}

only_page : (vb : ℕ) → maps before parent_dir 0 4096 vb ≡ true → inside 0 4096 vb ≡ true
only_page vb m = ground arith

user_page-IsOther : IsOther before parent_dir user_page
user_page-IsOther = (omega arith, λ i l p. let e = one_table i l p in rw e (λ z. omega arith))

before-IsOwned : IsOwned before parent_dir 0 4096
before-IsOwned = record {
  page = λ vb l m. rw (parent_entry_at vb (only_page vb m)) (omega arith);
  other = λ vb l m. rw (parent_entry_at vb (only_page vb m)) user_page-IsOther;
  live = λ vb l m. rw (parent_entry_at vb (only_page vb m)) (omega arith);
  apart = λ vb vc l lc m n e. sym (first_page vb (only_page vb m)) ∙ first_page vc (only_page vc n);
}

deallocuvm-IsFreed_example :
    Returns
      (λ (size, v).
        (size ≡ 0)
        × (j : Kmem) × (v ≡ with_kmem child j)
        × (ys : List ℕ) × IsFreed before parent_dir 0 4096 (spare ∷ []) 0 j ys)
      (deallocuvm no_file scfifo true parent_dir 4096 0 child)
deallocuvm-IsFreed_example =
    deallocuvm-IsFreed no_file scfifo child parent_dir refl true 4096 0 (spare ∷ []) 0
      before-IsFork.parent (omega arith) (omega arith) before-IsOwned
