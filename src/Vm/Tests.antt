-- ===== src/Vm/Tests.antt =====
-- vm.c: the theorems at a concrete page directory, and runs.
use xv6_memory_management_im.Common.{ℕ, ◌≡◌, refl, true, false, [], ◌∷◌, arith, update}
use xv6_memory_management_im.Common.Word.{test_bit}
use xv6_memory_management_im.Kernel.Layout.{frame}
use xv6_memory_management_im.Kernel.{ok, Returns, ◌>>=◌}
use xv6_memory_management_im.Kalloc.{Kmem}
use xv6_memory_management_im.Vm.{mappages}
use xv6_memory_management_im.Vm.Table.{entry}
use xv6_memory_management_im.Vm.Space.{IsSpace}
use xv6_memory_management_im.Vm.Mapped.{IsMapped, mappages-IsMapped}

abbrev pub pgdir : ℕ
pgdir = 0x8010_1000

abbrev pub spare : ℕ
spare = 0x8010_2000

-- An empty directory and one free page.
abbrev pub empty_space : Kmem
empty_space = record {
  kernel_end = 0x8010_0800;
  mem = λ _. 0;
  locked = false;
  use_lock = true;
  freelist = spare;
  refs = update (λ _. 0) (frame pgdir) 1;
  free_pages = 1;
  total_pages = 2;
}

pub empty_space-IsSpace : IsSpace empty_space pgdir (spare ∷ []) 0
empty_space-IsSpace = record {
  kmem = record {
    unlocked = refl;
    base = omega arith;
    free = (refl, omega arith, refl, refl, refl);
    counted = refl;
  };
  dir = record {
    dir = omega arith;
    base = omega arith;
    tables = λ i l p. cc;
    apart = λ i j l m p. cc;
  };
  dir_used = refl;
  table_used = λ i l p. cc;
}

unmapped_entry : (vb : ℕ) → test_bit (entry empty_space pgdir vb) 1 ≡ false
unfolding entry xv6_memory_management_im.Vm.walk
unmapped_entry vb = refl

mappages-IsMapped_example :
    Returns
      (λ (done, j). IsMapped empty_space pgdir 0 0x1000 2 0x20_0000 6 done j)
      (mappages pgdir 0x1000 0x2000 0x20_0000 6 empty_space)
mappages-IsMapped_example =
    mappages-IsMapped 1 empty_space pgdir 0x1000 0x20_0000 6 (spare ∷ []) 0 empty_space-IsSpace refl
      (omega arith) (omega arith) (λ vb l h. unmapped_entry vb)

mapped_run :
    mappages pgdir 0x1000 0x2000 0x20_0000 6 empty_space
      >>= (λ (done, j). ok (entry j pgdir 0x2345))
    ≡ ok 0x20_1007
unfolding mappages entry xv6_memory_management_im.Vm.walk xv6_memory_management_im.Kalloc.kalloc
    xv6_memory_management_im.Kalloc.fill_page
mapped_run = refl
