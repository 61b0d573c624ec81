-- ===== src/Vm/Free.antt =====
-- vm.c and kalloc.c: a page that is freed beside a page table.
use xv6_memory_management_im.Common.{
  ℕ, ◌≡◌, refl, ap, false, List, ◌∷◌, arith, ==-false_of_ne, has, update, inl, inr,
}
use xv6_memory_management_im.Kernel.Layout.{frame}
use xv6_memory_management_im.Kernel.{ok}
use xv6_memory_management_im.Kalloc.{Kmem, kfree, fill_page}
use xv6_memory_management_im.Kalloc.Invariant.{IsPage, not-Free, not-bad_page}
use xv6_memory_management_im.Kalloc.Alloc.{kfree_lem, drop_ref-last, pushed, pushed-IsKmem}
use xv6_memory_management_im.Vm.{walk}
use xv6_memory_management_im.Vm.Table.{entry}
use xv6_memory_management_im.Vm.Map.{IsOther}
use xv6_memory_management_im.Vm.Space.{IsSpace}
use xv6_memory_management_im.Vm.Frame.{IsKept, kept-IsSpace, entry-kept, walk-kept, dir-kept}

module _ (k : Kmem) (d v : ℕ) (xs : List ℕ) (off : ℕ) (s : IsSpace k d xs off) (pv : IsPage k v)
    (o : IsOther k d v) (one : k.refs (frame v) ≡ 1) where
  new : has v xs ≡ false
  new = not-Free k k.freelist v xs s.kmem.free (ground arith)

  abbrev pub freed : Kmem
  freed = pushed v k xs off s.kmem pv

  -- The allocator with the page overwritten but not yet on the list.
  abbrev filled : Kmem
  filled = record k { mem = update (fill_page k.mem v 0x0101_0101) v k.freelist; locked = false }

  filled-IsKept : IsKept k filled v xs
  unfolding fill_page
  filled-IsKept = record {
    kernel_end = refl;
    unlocked = refl;
    freelist = refl;
    free_pages = refl;
    mem = λ a o. elim o [ inl l ↦ ground arith | inr l ↦ ground arith ];
    refs = λ a i. refl;
  }

  filled-IsSpace : IsSpace filled d xs off
  filled-IsSpace = kept-IsSpace k filled d v xs off s pv o new filled-IsKept

  filled-IsOther : IsOther filled d v
  filled-IsOther =
      (o.0, λ i l. rw (dir-kept k filled d v xs off s pv o new filled-IsKept i l) (o.1 i l))

  pub entry-freed : (vb : ℕ) → entry freed d vb ≡ entry k d vb
  unfolding entry walk
  entry-freed vb = entry-kept k filled d v xs off s pv o new filled-IsKept vb

  pub walk-freed : (vb : ℕ) → walk freed d vb ≡ walk k d vb
  unfolding walk
  walk-freed vb = walk-kept k filled d v xs off s pv o new filled-IsKept vb

  pub IsOther-freed : (y : ℕ) → IsOther k d y → IsOther freed d y
  IsOther-freed y e =
      (e.0, λ i l. rw (dir-kept k filled d v xs off s pv o new filled-IsKept i l) (e.1 i l))

  pub freed-IsSpace : IsSpace freed d (v ∷ xs) off
  freed-IsSpace =
      let f = filled-IsSpace in
      record {
        kmem = pushed-IsKmem v k xs off s.kmem pv new;
        dir = record {
          dir = f.dir.dir;
          base = f.dir.base;
          tables = f.dir.tables;
          apart = f.dir.apart;
        };
        dir_used = let u = s.dir_used in let n = o.0 in ground arith;
        table_used = λ i l p. rw (==-false_of_ne _ _ (filled-IsOther.1 i l p)) (f.table_used i l p);
      }

  pub kfree-freed : kfree v k ≡ ok freed
  kfree-freed =
      rw (kfree_lem v k s.kmem.unlocked (not-bad_page k v s.dir.base pv) (λ u. ground arith))
        (ap (λ (i : Kmem). ok i) (drop_ref-last v k xs off s.kmem pv (omega arith)))
