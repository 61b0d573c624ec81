-- ===== src/Kalloc/Tests.antt =====
-- kalloc.c: the theorems at concrete allocators, and a run.
use xv6_memory_management_im.Common.{
  has, ◌||◌, ℕ, ◌+◌, ◌≡◌, refl, true, false, List, [], ◌∷◌, arith, length, update,
}
use xv6_memory_management_im.Kernel.Layout.{frame}
use xv6_memory_management_im.Kernel.{Run, ok, Returns, ◌>>=◌}
use xv6_memory_management_im.Kalloc.{Kmem, fill_page, kfree, kalloc, page_count, kinit1, kinit2}
use xv6_memory_management_im.Kalloc.Invariant.{IsPage, IsKmem}
use xv6_memory_management_im.Kalloc.Alloc.{kalloc-cons, kfree-last}
use xv6_memory_management_im.Kalloc.Init.{is_whole, kinit1_lem, kinit2_lem}

abbrev first : ℕ
first = 0x8010_1000

abbrev second : ℕ
second = 0x8010_2000

abbrev third : ℕ
third = 0x8010_3000

-- Two free pages, and a third with `n` references.
abbrev two_free : ℕ → Kmem
two_free n = record {
  kernel_end = 0x8010_0800;
  mem = update (λ _. 0) first second;
  locked = false;
  use_lock = true;
  freelist = first;
  refs = update (λ _. 0) (frame third) n;
  free_pages = 2;
  total_pages = 3;
}

abbrev pages : List ℕ
pages = first ∷ second ∷ []

two_free-IsKmem : (n : ℕ) → IsKmem (two_free n) pages 0
two_free-IsKmem n = record {
  unlocked = refl;
  base = omega arith;
  free = (refl, omega arith, refl, refl, (refl, omega arith, refl, refl, refl));
  counted = refl;
}

third-IsPage : (n : ℕ) → IsPage (two_free n) third
third-IsPage n = omega arith

kalloc-cons_example :
    Returns
      (λ (r, j).
        (r ≡ first)
        × IsPage (two_free 1) first
        × IsKmem j (second ∷ []) 0
        × (j.refs ≡ update (two_free 1).refs (frame first) 1)
        × (j.mem ≡ (two_free 1).mem)
        × (j.use_lock ≡ true))
      (kalloc (two_free 1))
kalloc-cons_example = kalloc-cons (two_free 1) first (second ∷ []) 0 (two_free-IsKmem 1)

kfree-last_example :
    Returns
      (λ j.
        IsKmem j (third ∷ pages) 0
        × (j.refs ≡ update (two_free 1).refs (frame third) 0)
        × (j.use_lock ≡ true))
      (kfree third (two_free 1))
kfree-last_example =
    kfree-last third (two_free 1) pages 0 (two_free-IsKmem 1) (third-IsPage 1) refl (omega arith)
      (λ _. omega arith)

-- The machine as it starts: the memory of the kernel's data is zero.
abbrev blank : Kmem
blank = record {
  kernel_end = 0x8010_0800;
  mem = λ _. 0;
  locked = false;
  use_lock = false;
  freelist = 0;
  refs = λ _. 0;
  free_pages = 0;
  total_pages = 0;
}

kinit1_lem_example :
    Returns
      (λ j.
        (ys : List ℕ) × IsKmem j ys 0
        × (length ys ≡ page_count 0x8010_0800 0x8010_4000)
        × ((a : ℕ) → has a ys ≡ is_whole 0x8010_0800 0x8010_4000 a)
        × (j.total_pages ≡ page_count 0x8010_0800 0x8010_4000)
        × (j.use_lock ≡ false))
      (kinit1 0x8010_0800 0x8010_4000 blank)
kinit1_lem_example =
    kinit1_lem 0x8010_0800 0x8010_4000 blank (omega arith) (omega arith) refl refl (λ a. refl)

-- Three pages were found by `kinit1`, and one of them is in use when `kinit2` runs.
abbrev half_way : Kmem
half_way = record (two_free 1) { use_lock = false }

half_way-IsKmem : IsKmem half_way pages 0
half_way-IsKmem = record {
  unlocked = refl;
  base = omega arith;
  free = (refl, omega arith, refl, refl, (refl, omega arith, refl, refl, refl));
  counted = refl;
}

kinit2_lem_example :
    Returns
      (λ j.
        (ys : List ℕ) × IsKmem j ys 1
        × (length ys ≡ page_count 0x8010_4000 0x8010_8000 + 2)
        × ((a : ℕ) → has a ys ≡ (is_whole 0x8010_4000 0x8010_8000 a || has a pages))
        × (j.free_pages ≡ j.total_pages)
        × (j.use_lock ≡ true))
      (kinit2 0x8010_4000 0x8010_8000 half_way)
kinit2_lem_example =
    kinit2_lem 0x8010_4000 0x8010_8000 half_way (omega arith) pages 1 half_way-IsKmem refl
      (omega arith) (λ a above below. (ground arith, ground arith))

abbrev summary : Kmem → Run (ℕ × ℕ × ℕ)
summary j = ok (j.freelist, j.mem j.freelist, j.total_pages)

-- The run that `kinit1_lem` speaks of.
kinit1_test : (kinit1 0x8010_0800 0x8010_4000 blank >>= summary) ≡ ok (0x8010_3000, 0x8010_2000, 3)
unfolding kinit1 fill_page
kinit1_test = refl
