-- ===== src/Vm/Space.antt =====
-- vm.c: a page table beside the free list. The pages of the table are not on the list.
use xv6_memory_management_im.Common.{
  ℕ, ◌+◌, ◌*◌, ◌<◌, ◌≡◌, ◌≢◌, refl, ap, true, false, List, ◌∷◌, arith, ◌==◌, ==-false_of_ne, has,
  inl, inr, Bool-cases,
}
use xv6_memory_management_im.Kernel.Layout.{kernbase}
use xv6_memory_management_im.Kalloc.{Kmem, fill_page}
use xv6_memory_management_im.Kalloc.Invariant.{IsKmem, Free-IsPage, Free-frame}
use xv6_memory_management_im.Kalloc.Alloc.{taken, taken-IsKmem}
use xv6_memory_management_im.Vm.Pte.{pdx}
use xv6_memory_management_im.Vm.{walk, add_table}
use xv6_memory_management_im.Vm.Table.{
  IsPgdir, present, table, pdx-lt, walk-present, stored, stored-IsPgdir, mem-dir,
}
use xv6_memory_management_im.Vm.Map.{IsOther, tabled-IsPgdir, present-tabled, table-tabled}

pub record IsSpace (k : Kmem) (d : ℕ) (xs : List ℕ) (off : ℕ) : Type 0 where
  pub kmem : IsKmem k xs off
  pub dir : IsPgdir k d
  pub dir_used : has d xs ≡ false
  pub table_used : (i : ℕ) → i < 1024 → present k d i ≡ true → has (table k d i) xs ≡ false

-- A listed page is none of the pages in use.
pub listed-ne : (xs : List ℕ) (x y : ℕ) → has x xs ≡ true → has y xs ≡ false → x ≢ y
listed-ne xs x y h g e = cc (ap (λ (t : ℕ). has t xs) e)

module _ (k : Kmem) (d va w : ℕ) (xs : List ℕ) (off : ℕ) (s : IsSpace k d xs off)
    (h : walk k d va ≢ 0) where
  -- A write to an entry leaves the first word of every free page.
  free-stored : (a : ℕ) → has a xs ≡ true → (stored k d va w s.dir h).mem a ≡ k.mem a
  free-stored a i =
      let (p, e) = walk-present k d va h in
      let (q, n) = s.dir.tables (pdx va) (pdx-lt va) p in
      let r = Free-IsPage k k.freelist a xs s.kmem.free i in
      let ne = listed-ne xs a (table k d (pdx va)) i (s.table_used (pdx va) (pdx-lt va) p) in
      let z : (a == walk k d va) ≡ false = ==-false_of_ne _ _ (λ z. ne (omega arith)) in rw z

  pub stored-IsSpace : IsSpace (stored k d va w s.dir h) d xs off
  stored-IsSpace = record {
    kmem = record {
      unlocked = s.kmem.unlocked;
      base = s.kmem.base;
      free =
          Free-frame k (stored k d va w s.dir h) k.freelist xs refl (λ a i. (free-stored a i, refl))
            s.kmem.free;
      counted = s.kmem.counted;
    };
    dir = stored-IsPgdir k d va w s.dir h;
    dir_used = s.dir_used;
    table_used = λ i l. rw (mem-dir k d va w s.dir h i l) (s.table_used i l);
  }

module _ (k : Kmem) (d x : ℕ) (xs : List ℕ) (off : ℕ) (s : IsSpace k d (x ∷ xs) off) where
  pub got-IsPgdir : IsPgdir (taken k x xs off s.kmem) d
  got-IsPgdir = record {
    dir = s.dir.dir;
    base = s.dir.base;
    tables = s.dir.tables;
    apart = s.dir.apart;
  }

  pub other : IsOther (taken k x xs off s.kmem) d x
  other =
      let u = s.dir_used in (ground arith, λ i l p e. let t = s.table_used i l p in ground arith)

  pub taken-IsSpace : IsSpace (taken k x xs off s.kmem) d xs off
  taken-IsSpace =
      let u = s.dir_used in
      record {
        kmem = taken-IsKmem k x xs off s.kmem;
        dir = got-IsPgdir;
        dir_used = ground arith;
        table_used = λ i l p. let t = s.table_used i l p in ground arith;
      }

module _ (k : Kmem) (d va x : ℕ) (xs : List ℕ) (off : ℕ) (s : IsSpace k d (x ∷ xs) off)
    (absent : present k d (pdx va) ≡ false) where
  -- The allocator after the new table has been taken and entered.
  abbrev pub grown : Kmem
  grown = add_table d va x (taken k x xs off s.kmem)

  free-grown : (a : ℕ) → has a xs ≡ true → grown.mem a ≡ k.mem a
  unfolding add_table fill_page
  free-grown a i =
      let f = s.kmem.free in
      let r = Free-IsPage k (k.mem x) a xs f.4 i in
      let ne : a ≢ d = listed-ne (x ∷ xs) a d (ground arith) s.dir_used in
      let nx : a ≢ x = listed-ne xs a x i f.3 in
      let dd = s.dir.dir in
      let z : (a == d + 4 * pdx va) ≡ false = ==-false_of_ne _ _ (λ z. ne (omega arith)) in
      rw z (ground arith)

  pub grown-IsSpace : IsSpace grown d xs off
  unfolding add_table
  grown-IsSpace =
      let t = taken-IsKmem k x xs off s.kmem in
      let u = s.dir_used in
      let b : kernbase < k.kernel_end = s.dir.base in
      record {
        kmem = record {
          unlocked = t.unlocked;
          base = t.base;
          free =
              Free-frame (taken k x xs off s.kmem) grown (k.mem x) xs refl
                (λ a i. (free-grown a i, refl)) t.free;
          counted = t.counted;
        };
        dir =
            tabled-IsPgdir (taken k x xs off s.kmem) d va x (got-IsPgdir k d x xs off s) absent
              s.kmem.free.1 (other k d x xs off s);
        dir_used = ground arith;
        table_used = λ i l.
            rw
              (
                present-tabled (taken k x xs off s.kmem) d va x (got-IsPgdir k d x xs off s) absent
                    s.kmem.free.1 (other k d x xs off s) i l,
                table-tabled (taken k x xs off s.kmem) d va x (got-IsPgdir k d x xs off s) absent
                    s.kmem.free.1 (other k d x xs off s) i l,
              )
              (elim (Bool-cases (i == pdx va)) [
                | inl e ↦ rw e (λ z. s.kmem.free.3)
                | inr e ↦ rw e (λ p. let t = s.table_used i l p in ground arith)
              ]);
      }
