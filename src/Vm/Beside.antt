-- ===== src/Vm/Beside.antt =====
-- vm.c: what a change of one page table leaves of the pages that are neither its own nor free.
use xv6_memory_management_im.Common.{
  ℕ, ◌+◌, ◌*◌, ◌≤◌, ◌<◌, ◌≡◌, ◌≢◌, refl, sym, ◌∙◌, false, List, ◌∷◌, arith, ◌==◌, ==-false_of_ne,
  has, inl, inr, Bool-cases,
}
use xv6_memory_management_im.Common.Word.{pgsize}
use xv6_memory_management_im.Kernel.Layout.{frame}
use xv6_memory_management_im.Kalloc.{Kmem, fill_page}
use xv6_memory_management_im.Kalloc.Invariant.{IsPage, frame-ne}
use xv6_memory_management_im.Kalloc.Alloc.{taken}
use xv6_memory_management_im.Vm.Pte.{pdx}
use xv6_memory_management_im.Vm.{walk, add_table}
use xv6_memory_management_im.Vm.Table.{IsPgdir, present, pdx-lt, walk-present, stored, mem-dir}
use xv6_memory_management_im.Vm.Map.{IsOther, present-tabled, table-tabled}
use xv6_memory_management_im.Vm.Space.{IsSpace, grown, other, got-IsPgdir}

-- `j` comes from `k`, with the free pages `xs`, by a change of the page table `d` that leaves `ys`
-- free: of a page in use the counter is kept, and its words too when it is no page of the table,
-- which it then does not become.
pub record IsBeside (k j : Kmem) (d : ℕ) (xs ys : List ℕ) : Type 0 where
  pub kernel_end : j.kernel_end ≡ k.kernel_end
  pub used : (y : ℕ) → has y xs ≡ false → has y ys ≡ false
  pub other : (y : ℕ) → IsPage k y → has y xs ≡ false → IsOther k d y → IsOther j d y
  pub word :
      (y o : ℕ)
      → IsPage k y
      → has y xs ≡ false
      → IsOther k d y
      → o < pgsize
      → j.mem (y + o) ≡ k.mem (y + o)
  pub refs : (y : ℕ) → IsPage k y → has y xs ≡ false → j.refs (frame y) ≡ k.refs (frame y)

pub same-IsBeside : (k : Kmem) (d : ℕ) (xs : List ℕ) → IsBeside k k d xs xs
same-IsBeside k d xs = record {
  kernel_end = refl;
  used = λ y u. u;
  other = λ y p u o. o;
  word = λ y o p u e l. refl;
  refs = λ y p u. refl;
}

pub still_page : (k j : Kmem) (y : ℕ) → j.kernel_end ≡ k.kernel_end → IsPage k y → IsPage j y
still_page k j y e (a, b, c) = let f : j.kernel_end ≤ y = rw e b in (a, f, c)

module _ (k i j : Kmem) (d : ℕ) (xs ys zs : List ℕ) (p : IsBeside k i d xs ys)
    (q : IsBeside i j d ys zs) where
  pub trans-IsBeside : IsBeside k j d xs zs
  trans-IsBeside = record {
    kernel_end = q.kernel_end ∙ p.kernel_end;
    used = λ y u. q.used y (p.used y u);
    other = λ y s u o. q.other y (still_page k i y p.kernel_end s) (p.used y u) (p.other y s u o);
    word = λ y b s u o l.
        q.word y b (still_page k i y p.kernel_end s) (p.used y u) (p.other y s u o) l
        ∙ p.word y b s u o l;
    refs = λ y s u. q.refs y (still_page k i y p.kernel_end s) (p.used y u) ∙ p.refs y s u;
  }

module _ (k : Kmem) (d va w : ℕ) (xs : List ℕ) (s : IsPgdir k d) (h : walk k d va ≢ 0) where
  stored_word :
      (y o : ℕ)
      → IsPage k y
      → IsOther k d y
      → o < pgsize
      → (stored k d va w s h).mem (y + o) ≡ k.mem (y + o)
  stored_word y o p u l =
      let (q, e) = walk-present k d va h in
      let (t, n) = s.tables (pdx va) (pdx-lt va) q in
      let ne = u.1 (pdx va) (pdx-lt va) q in
      let z : (y + o == walk k d va) ≡ false = ==-false_of_ne _ _ (λ z. ne (omega arith)) in rw z

  pub stored-IsBeside : IsBeside k (stored k d va w s h) d xs xs
  stored-IsBeside = record {
    kernel_end = refl;
    used = λ y u. u;
    other = λ y p u o. (o.0, λ i l. rw (mem-dir k d va w s h i l) (o.1 i l));
    word = λ y o p u e l. stored_word y o p e l;
    refs = λ y p u. refl;
  }

module _ (k : Kmem) (d va x : ℕ) (xs : List ℕ) (off : ℕ) (s : IsSpace k d (x ∷ xs) off)
    (absent : present k d (pdx va) ≡ false) where
  abbrev j : Kmem
  j = grown k d va x xs off s absent

  abbrev t : Kmem
  t = taken k x xs off s.kmem

  new_ne : (y : ℕ) → has y (x ∷ xs) ≡ false → y ≢ x
  new_ne y u = ground arith

  grown_word :
      (y o : ℕ)
      → IsPage k y
      → has y (x ∷ xs) ≡ false
      → IsOther k d y
      → o < pgsize
      → j.mem (y + o) ≡ k.mem (y + o)
  unfolding add_table fill_page
  grown_word y o p u e l =
      let n = new_ne y u in
      let m = e.0 in
      let f = s.kmem.free.1 in
      let dd = s.dir.dir in
      let c = pdx-lt va in
      let z : (y + o == d + 4 * pdx va) ≡ false = ==-false_of_ne _ _ (λ z. m (omega arith)) in
      rw z (ground arith)

  grown-IsOther : (y : ℕ) → has y (x ∷ xs) ≡ false → IsOther k d y → IsOther j d y
  grown-IsOther y u e = (
    e.0,
    λ i l.
        rw
          (
            present-tabled t d va x (got-IsPgdir k d x xs off s) absent s.kmem.free.1
                (other k d x xs off s) i l,
            table-tabled t d va x (got-IsPgdir k d x xs off s) absent s.kmem.free.1
                (other k d x xs off s) i l,
          )
          (elim (Bool-cases (i == pdx va)) [
            | inl q ↦ rw q (λ r z. new_ne y u (sym z))
            | inr q ↦ rw q (e.1 i l)
          ]),
  )

  grown_refs : (y : ℕ) → IsPage k y → has y (x ∷ xs) ≡ false → j.refs (frame y) ≡ k.refs (frame y)
  unfolding add_table
  grown_refs y p u =
      let z : (frame y == frame x) ≡ false =
        ==-false_of_ne _ _ (frame-ne k x y s.dir.base s.kmem.free.1 p (λ e. new_ne y u (sym e))) in
      rw z

  pub grown-IsBeside : IsBeside k j d (x ∷ xs) xs
  unfolding add_table
  grown-IsBeside = record {
    kernel_end = refl;
    used = λ y u. ground arith;
    other = λ y p u o. grown-IsOther y u o;
    word = grown_word;
    refs = grown_refs;
  }
