-- ===== src/Uvm/Drop.antt =====
-- vm.c, deallocuvm: a round gives up one page of a page table that is not the current process's.
use xv6_memory_management_im.Common.{
  ℕ, ◌-◌, ◌<◌, ◌≡◌, ◌≢◌, refl, sym, ◌∙◌, false, List, ◌∷◌, arith, if◌then◌else◌, ◌==◌,
  ==-false_of_ne, ==_iff, has, inl, inr, Bool-cases,
}
use xv6_memory_management_im.Common.Word.{word_mod}
use xv6_memory_management_im.Kernel.Layout.{frame}
use xv6_memory_management_im.Kernel.{Returns, returns}
use xv6_memory_management_im.Kalloc.{Kmem, kfree}
use xv6_memory_management_im.Kalloc.Invariant.{IsPage, not-Free, not-bad_page, frame-ne}
use xv6_memory_management_im.Kalloc.Alloc.{kfree_lem, drop_ref-shared}
use xv6_memory_management_im.Vm.{walk, store}
use xv6_memory_management_im.Vm.Table.{page_of, entry, entry-stored, mem-dir}
use xv6_memory_management_im.Vm.Map.{IsOther}
use xv6_memory_management_im.Vm.Space.{IsSpace, stored-IsSpace}
use xv6_memory_management_im.Vm.Free.{
  freed, entry-freed, walk-freed, IsOther-freed, freed-IsSpace, kfree-freed,
}
use xv6_memory_management_im.Uvm.Apart.{counted, counted-IsSpace}
use mathlib.Core.Path.{subst}

-- The page `v`, which the entry for `a` maps, has lost a reference and the entry is 0.
pub record IsDropped (k : Kmem) (d a v : ℕ) (xs : List ℕ) (off : ℕ) (j : Kmem) (ys : List ℕ)
    : Type 0 where
  pub space : IsSpace j d ys off
  pub kernel_end : j.kernel_end ≡ k.kernel_end
  pub other : (y : ℕ) → IsOther k d y → IsOther j d y
  pub entries :
      (vb : ℕ)
      → vb < word_mod
      → entry j d vb ≡ (if page_of a == page_of vb then 0 else entry k d vb)
  pub count : j.refs (frame v) ≡ k.refs (frame v) - 1
  pub free : has v ys ≡ (k.refs (frame v) == 1)
  pub rest :
      (y : ℕ) → IsPage k y → y ≢ v → (j.refs (frame y) ≡ k.refs (frame y)) × (has y ys ≡ has y xs)

module _ (k : Kmem) (d a v : ℕ) (xs : List ℕ) (off : ℕ) (s : IsSpace k d xs off) (pv : IsPage k v)
    (la : a < word_mod) (h : walk k d a ≢ 0) (live : k.refs (frame v) ≢ 0) where
  unfree : has v xs ≡ false
  unfree = not-Free k k.freelist v xs s.kmem.free live

  -- The frame of another page is another.
  frame_other : (y : ℕ) → IsPage k y → y ≢ v → (frame y == frame v) ≡ false
  frame_other y p n = ==-false_of_ne _ _ (frame-ne k v y s.dir.base pv p (λ e. n (sym e)))

  -- The allocator when another process has the page too.
  abbrev less : Kmem
  less = counted k d v (k.refs (frame v) - 1) xs off pv unfree

  less-IsSpace : IsSpace less d xs off
  less-IsSpace = counted-IsSpace k d v (k.refs (frame v) - 1) xs off pv unfree s

  kept : (k.refs (frame v) == 1) ≡ false → IsDropped k d a v xs off (store (walk k d a) 0 less) xs
  unfolding entry walk
  kept e = record {
    space = stored-IsSpace less d a 0 xs off less-IsSpace h;
    kernel_end = refl;
    other = λ y o. (o.0, λ i l. rw (mem-dir less d a 0 less-IsSpace.dir h i l) (o.1 i l));
    entries = λ vb lb. entry-stored less d a 0 less-IsSpace.dir h vb la lb;
    count = ground arith;
    free = unfree ∙ sym e;
    rest = λ y p n. (let z = frame_other y p n in rw z, refl);
  }

  module _ (o : IsOther k d v) (one : k.refs (frame v) ≡ 1) where
    -- The allocator when this was the only reference.
    abbrev given : Kmem
    given = freed k d v xs off s pv o one

    given-IsSpace : IsSpace given d (v ∷ xs) off
    given-IsSpace = freed-IsSpace k d v xs off s pv o one

    walk-given : walk given d a ≡ walk k d a
    walk-given = walk-freed k d v xs off s pv o one a

    placed : walk given d a ≢ 0
    placed e = h (sym walk-given ∙ e)

    last : IsDropped k d a v xs off (store (walk given d a) 0 given) (v ∷ xs)
    last = record {
      space = stored-IsSpace given d a 0 (v ∷ xs) off given-IsSpace placed;
      kernel_end = refl;
      other = λ y p.
          let q = IsOther-freed k d v xs off s pv o one y p in
          (q.0, λ i l. rw (mem-dir given d a 0 given-IsSpace.dir placed i l) (q.1 i l));
      entries = λ vb lb.
          entry-stored given d a 0 given-IsSpace.dir placed vb la lb
          ∙ (rw (entry-freed k d v xs off s pv o one vb));
      count = rw one (ground arith);
      free = rw one (ground arith);
      rest = λ y p n.
          (let z = frame_other y p n in rw z, let z = ==-false_of_ne _ _ n in ground arith);
    }

  -- `kfree` of the page, and the entry cleared.
  pub kfree-IsDropped :
      IsOther k d v
      → Returns
          (λ k1. (ys : List ℕ) × IsDropped k d a v xs off (store (walk k d a) 0 k1) ys)
          (kfree v k)
  kfree-IsDropped o = elim (Bool-cases (k.refs (frame v) == 1)) [
    | inl e ↦
        let one = (==_iff _ _).0 e in
        rw (kfree-freed k d v xs off s pv o one) (
          returns (
            v ∷ xs,
            subst (λ (t : ℕ). IsDropped k d a v xs off (store t 0 (given o one)) (v ∷ xs))
                (walk-given o one) (last o one),
          ))
    | inr e ↦
        let more : 1 < k.refs (frame v) = ground arith in
        rw
          (
            kfree_lem v k s.kmem.unlocked (not-bad_page k v s.dir.base pv) (λ u. live),
            drop_ref-shared v k xs off s.kmem pv more,
          )
          (returns (xs, kept e))
  ]
