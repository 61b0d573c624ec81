-- ===== src/Vm/Frame.antt =====
-- vm.c: what keeps a page table and the free list: a change of one other page's words.
use xv6_memory_management_im.Common.{
  ℕ, ◌+◌, ◌*◌, ◌≤◌, ◌<◌, ◌≡◌, ◌≢◌, sym, ◌∙◌, true, false, List, arith, has, ltb, ◌⊎◌, inl, inr,
  Bool-cases,
}
use xv6_memory_management_im.Common.Word.{pgsize}
use xv6_memory_management_im.Kernel.Layout.{frame}
use xv6_memory_management_im.Kalloc.{Kmem}
use xv6_memory_management_im.Kalloc.Invariant.{IsPage, Free, Free-IsPage, Free-frame}
use xv6_memory_management_im.Vm.Pte.{pdx, ptx}
use xv6_memory_management_im.Vm.Table.{
  present, table, entry, pdx-lt, entry_of_present, entry_of_absent, walk_of_present, walk_of_absent,
}
use xv6_memory_management_im.Vm.{walk}
use xv6_memory_management_im.Vm.Map.{IsOther}
use xv6_memory_management_im.Vm.Space.{IsSpace, listed-ne}

-- `j` is `k` but for the words of the page `x`, the use of the lock and the counters of pages that
-- are not free.
pub record IsKept (k j : Kmem) (x : ℕ) (xs : List ℕ) : Type 0 where
  pub kernel_end : j.kernel_end ≡ k.kernel_end
  pub unlocked : j.locked ≡ false
  pub freelist : j.freelist ≡ k.freelist
  pub free_pages : j.free_pages ≡ k.free_pages
  pub mem : (a : ℕ) → (a < x) ⊎ (x + pgsize ≤ a) → j.mem a ≡ k.mem a
  pub refs : (a : ℕ) → has a xs ≡ true → j.refs (frame a) ≡ k.refs (frame a)

module _ (k j : Kmem) (d x : ℕ) (xs : List ℕ) (off : ℕ) (s : IsSpace k d xs off) (px : IsPage k x)
    (o : IsOther k d x) (nx : has x xs ≡ false) (kept : IsKept k j x xs) where
  word-kept : (t o : ℕ) → IsPage k t → t ≢ x → o < pgsize → j.mem (t + o) ≡ k.mem (t + o)
  word-kept t o p n l =
      kept.mem (t + o)
        (elim (Bool-cases (ltb t x)) [ inl e ↦ inl (ground arith) | inr e ↦ inr (ground arith) ])

  pub dir-kept : (i : ℕ) → i < 1024 → j.mem (d + 4 * i) ≡ k.mem (d + 4 * i)
  dir-kept i l = word-kept d (4 * i) s.dir.dir (λ e. o.0 (sym e)) (omega arith)

  first-kept : (t : ℕ) → IsPage k t → t ≢ x → j.mem t ≡ k.mem t
  first-kept t p n =
      kept.mem t
        (elim (Bool-cases (ltb t x)) [ inl e ↦ inl (ground arith) | inr e ↦ inr (ground arith) ])

  page-kept : (t : ℕ) → IsPage k t → IsPage j t
  page-kept t (a, b, c) = let e : j.kernel_end ≤ t = rw kept.kernel_end b in (a, e, c)

  pub kept-IsSpace : IsSpace j d xs off
  kept-IsSpace =
      let e = kept.kernel_end in
      let f = kept.freelist in
      let b = s.dir.base in
      let q = kept.free_pages in
      let c = s.kmem.counted in
      let free : Free j k.freelist xs =
        Free-frame k j k.freelist xs e
          (λ a i.
            let p = Free-IsPage k k.freelist a xs s.kmem.free i in
            (first-kept a p (listed-ne xs a x i nx), kept.refs a i))
          s.kmem.free in
      record {
        kmem = record {
          unlocked = kept.unlocked;
          base = rw e b;
          free = rw f free;
          counted = q ∙ c;
        };
        dir = record {
          dir = page-kept d s.dir.dir;
          base = rw e b;
          tables = λ i l.
              rw (dir-kept i l)
                (λ p. (page-kept (table k d i) (s.dir.tables i l p).0, (s.dir.tables i l p).1));
          apart = λ i m l n. rw (dir-kept i l, dir-kept m n) (s.dir.apart i m l n);
        };
        dir_used = s.dir_used;
        table_used = λ i l. rw (dir-kept i l) (s.table_used i l);
      }

  pub entry-kept : (vb : ℕ) → entry j d vb ≡ entry k d vb
  entry-kept vb =
      let l = pdx-lt vb in
      let e : present j d (pdx vb) ≡ present k d (pdx vb) = rw (dir-kept (pdx vb) l) in
      let t : table j d (pdx vb) ≡ table k d (pdx vb) = rw (dir-kept (pdx vb) l) in
      elim (Bool-cases (present k d (pdx vb))) [
        | inl p ↦
            let w =
              word-kept (table k d (pdx vb)) (4 * ptx vb) (s.dir.tables (pdx vb) l p).0
                (o.1 (pdx vb) l p) (omega arith) in
            rw
              (entry_of_present k d vb s.dir p, entry_of_present j d vb kept-IsSpace.dir (e ∙ p), t)
              w
        | inr p ↦ rw (entry_of_absent k d vb p, entry_of_absent j d vb (e ∙ p))
      ]

  pub walk-kept : (vb : ℕ) → walk j d vb ≡ walk k d vb
  walk-kept vb =
      let l = pdx-lt vb in
      let e : present j d (pdx vb) ≡ present k d (pdx vb) = rw (dir-kept (pdx vb) l) in
      let t : table j d (pdx vb) ≡ table k d (pdx vb) = rw (dir-kept (pdx vb) l) in
      elim (Bool-cases (present k d (pdx vb))) [
        | inl p ↦ rw (walk_of_present k d vb p, walk_of_present j d vb (e ∙ p), t)
        | inr p ↦ rw (walk_of_absent k d vb p, walk_of_absent j d vb (e ∙ p))
      ]
