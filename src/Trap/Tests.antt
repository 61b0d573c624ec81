-- ===== src/Trap/Tests.antt =====
-- trap.c: the theorems at a page that two processes share.
use xv6_memory_management_im.Common.{
  ℕ, ◌+◌, ◌<◌, ◌≡◌, refl, sym, ◌∙◌, true, false, [], ◌∷◌, arith, if◌then◌else◌, ◌==◌, update,
}
use xv6_memory_management_im.Common.Word.{pgsize, word_mod}
use xv6_memory_management_im.Kernel.Layout.{frame}
use xv6_memory_management_im.Kernel.{ok, Returns}
use xv6_memory_management_im.Kalloc.{Kmem, kfree}
use xv6_memory_management_im.Kalloc.Invariant.{IsKmem}
use xv6_memory_management_im.Vm.Table.{entry, present, page_of}
use xv6_memory_management_im.Vm.Space.{IsSpace}
use xv6_memory_management_im.Trap.{handled, out_of_memory, cow_write}
use xv6_memory_management_im.Trap.Cow.{IsWritable, cow_write-shared}
use xv6_memory_management_im.Trap.Last.{kfree-cow_write, lost}

abbrev pgdir : ℕ
pgdir = 0x8010_1000

abbrev table_page : ℕ
table_page = 0x8010_2000

abbrev user_page : ℕ
user_page = 0x8010_3000

abbrev spare : ℕ
spare = 0x8010_4000

-- One user page at address 0, present and copy-on-write, with `n` references.
abbrev forked : ℕ → ℕ → Kmem
forked n list = record {
  kernel_end = 0x8010_0800;
  mem = update (update (λ _. 0) pgdir 0x10_2007) table_page 0x10_3405;
  locked = false;
  use_lock = true;
  freelist = list;
  refs = update (λ _. 0) (frame user_page) n;
  free_pages = 1;
  total_pages = 4;
}

forked_dir : (n i : ℕ) → i < 1024 → present (forked n spare) pgdir i ≡ true → i ≡ 0
forked_dir n i l p = ground arith

forked-IsSpace : (n : ℕ) → IsSpace (forked n spare) pgdir (spare ∷ []) 0
forked-IsSpace n = record {
  kmem = record {
    unlocked = refl;
    base = omega arith;
    free = (refl, omega arith, refl, refl, refl);
    counted = refl;
  };
  dir = record {
    dir = omega arith;
    base = omega arith;
    tables = λ i l p. let e = forked_dir n i l p in rw e (omega arith, λ z. omega arith);
    apart = λ i j l m p q r. forked_dir n i l p ∙ sym (forked_dir n j m q);
  };
  dir_used = refl;
  table_used = λ i l p. let e = forked_dir n i l p in rw e;
}

cow_write-shared_example :
    Returns
      (λ (outcome, j).
        (outcome ≡ handled)
        × IsSpace j pgdir [] 0
        × ((f : ℕ) × IsWritable 0x405 f
            × ((vb : ℕ)
                → vb < word_mod
                → entry j pgdir vb
                  ≡ (if 0 == page_of vb then 0x10_4000 + f else entry (forked 2 spare) pgdir vb)))
        × ((o : ℕ) → o < pgsize → j.mem (spare + o) ≡ (forked 2 spare).mem (user_page + o))
        × (j.refs (frame user_page) + 1 ≡ 2)
        × (j.refs (frame spare) ≡ 1))
      (cow_write table_page (forked 2 spare))
unfolding xv6_memory_management_im.Vm.walk
cow_write-shared_example =
    cow_write-shared (forked 2 spare) pgdir 0 spare [] 0 (forked-IsSpace 2) (omega arith)
      (omega arith) (omega arith) (omega arith) (omega arith)

full-IsKmem : IsKmem (forked 2 0) [] 1
full-IsKmem = record { unlocked = refl; base = omega arith; free = refl; counted = refl }

kfree-cow_write_example :
    (cow_write table_page (forked 2 0)
      ≡ ok (out_of_memory, lost (forked 2 0) table_page 1 full-IsKmem (omega arith) refl))
    × ((lost (forked 2 0) table_page 1 full-IsKmem (omega arith) refl).mem ≡ (forked 2 0).mem)
    × Returns
        (λ j. IsKmem j (user_page ∷ []) 1)
        (kfree user_page (lost (forked 2 0) table_page 1 full-IsKmem (omega arith) refl))
kfree-cow_write_example = kfree-cow_write (forked 2 0) table_page 1 full-IsKmem (omega arith) refl
