-- ===== src/Uvm/Dealloc.antt =====
-- vm.c, deallocuvm: the loop over the pages of a page table that is not the current process's.
use xv6_memory_management_im.Common.{
  ℕ, zero, suc, ◌+◌, ◌*◌, ◌/◌, ◌%◌, ◌≤◌, ◌<◌, ◌≡◌, ◌≢◌, refl, ap, sym, ◌∙◌, Bool, true, false, ◌&&◌,
  List, arith, ◌==◌, ==-false_of_ne, ==_iff, ltb, leb, inl, inr, Bool-cases, ltb→lt, lt→ltb,
}
use xv6_memory_management_im.Common.Word.{
  add32, sub32, pgsize, word_mod, pg_round_up, pg_round_down, test_bit,
}
use xv6_memory_management_im.Kernel.Layout.{kernbase, frame}
use xv6_memory_management_im.Kernel.{ok, Returns, returns, bind, mono, ◌>>=◌}
use xv6_memory_management_im.Kalloc.{Kmem}
use xv6_memory_management_im.Kalloc.Invariant.{IsPage}
use xv6_memory_management_im.Vm.Pte.{pte_p, pte_addr, pdx}
use xv6_memory_management_im.Vm.{walk, store}
use xv6_memory_management_im.Vm.Table.{
  page_of, entry, present, walk_of_present, entry_of_absent, pdx-lt,
}
use xv6_memory_management_im.Vm.Space.{IsSpace}
use xv6_memory_management_im.Vm.Map.{IsOther}
use xv6_memory_management_im.Vm.Mapped.{entry_at}
use xv6_memory_management_im.Paging.{Selection}
use xv6_memory_management_im.Paging.Swap.{SwapFile, World, with_kmem}
use xv6_memory_management_im.Uvm.{is_paging, drop_page, drop_present, dealloc_loop, deallocuvm}
use xv6_memory_management_im.Uvm.Share.{page_at}
use xv6_memory_management_im.Uvm.Forked.{inside_here, inside_next, entry_page}
use xv6_memory_management_im.Uvm.Drop.{IsDropped, kfree-IsDropped}
use xv6_memory_management_im.Uvm.Freed.{
  maps, IsOwned, IsFreed, IsFreed-skip, IsOwned-skip, IsFreed-end, IsFreed-more, next-IsOwned,
}

-- The first address of the next page table.
abbrev next_table : ℕ → ℕ
next_table a = (a / 0x40_0000 + 1) * 0x40_0000

-- Where a table is missing nothing is in RAM up to the next one.
module _ (k : Kmem) (d a sz : ℕ) (xs : List ℕ) (off : ℕ) (s : IsSpace k d xs off)
    (al : a % pgsize ≡ 0) (z : walk k d a ≡ 0) where
  absent : present k d (pdx a) ≡ false
  absent = elim (Bool-cases (present k d (pdx a))) [
    | inr e ↦ e
    | inl e ↦
        let (t, n) = s.dir.tables (pdx a) (pdx-lt a) e in
        let b = s.dir.base in let c = walk_of_present k d a e in absurd (omega arith)
  ]

  hole : (vb : ℕ) → pdx vb ≡ pdx a → test_bit (entry k d vb) pte_p ≡ false
  hole vb e = let q : present k d (pdx vb) ≡ false = rw e absent in rw (entry_of_absent k d vb q)

  maps_hole : (vb : ℕ) → vb < word_mod → maps k d a sz vb ≡ maps k d (next_table a) sz vb
  maps_hole vb lb = elim (Bool-cases (leb (next_table a) (pg_round_down vb))) [
    | inl e ↦ let q : leb a (pg_round_down vb) ≡ true = ground arith in rw (e, q)
    | inr e ↦ rw e (elim (Bool-cases (leb a (pg_round_down vb))) [
      | inr f ↦ rw f
      | inl f ↦
          let b1 : pg_round_down vb < next_table a = ground arith in
          let b2 : a ≤ pg_round_down vb = ground arith in
          let q : pdx vb ≡ pdx a = omega arith in let h = hole vb q in rw (f, h) (ground arith)
    ])
  ]

maps_absent :
    (k : Kmem) (d a sz : ℕ)
    → a % pgsize ≡ 0
    → test_bit (entry k d a) pte_p ≡ false
    → (vb : ℕ) → vb < word_mod
    → maps k d a sz vb ≡ maps k d (a + pgsize) sz vb
maps_absent k d a sz al z vb lb = elim (Bool-cases (page_of a == page_of vb)) [
  | inr q ↦ let e = inside_next a sz vb al (ground arith) in rw e
  | inl q ↦
      let c = entry_page k d a vb ((==_iff _ _).0 q) in
      let h : test_bit (entry k d vb) pte_p ≡ false =
        sym (ap (λ (t : ℕ). test_bit t pte_p) c) ∙ z in
      rw h (ground arith)
]

module _ {S : Type 0} (io : SwapFile S) (sel : Selection) (w : World S) (d : ℕ)
    (foreign : (is_paging sel && (w.machine.proc.pgdir == d)) ≡ false) where
  -- A round at a page in RAM.
  drop_page-IsDropped :
      (k : Kmem) (a : ℕ) (xs : List ℕ) (off : ℕ) (found : Bool)
      → IsSpace k d xs off
      → a < word_mod
      → walk k d a ≢ 0
      → test_bit (entry k d a) pte_p ≡ true
      → IsPage k (page_at (entry k d a))
      → k.refs (frame (page_at (entry k d a))) ≢ 0
      → IsOther k d (page_at (entry k d a))
      → Returns
          (λ (f, v).
            (i : Kmem) × (v ≡ with_kmem w i)
            × (ys : List ℕ) × IsDropped k d a (page_at (entry k d a)) xs off i ys)
          (drop_page io sel d (walk k d a) a found (with_kmem w k))
  unfolding drop_page drop_present
  drop_page-IsDropped k a xs off found s la h here pv live o =
      let e = sym (entry_at k d a h) in
      let b = s.dir.base in
      let z : (pte_addr (entry k d a) == 0) ≡ false = ==-false_of_ne _ _ (λ q. omega arith) in
      rw (foreign, e, here, z)
        (bind (kfree-IsDropped k d a (page_at (entry k d a)) xs off s pv la h live o)
          (λ k1 (ys, r). returns (store (walk k d a) 0 k1, refl, ys, r)))

  -- A round at a page that is not in RAM.
  drop_page-absent :
      (k : Kmem) (a : ℕ) (found : Bool)
      → walk k d a ≢ 0
      → test_bit (entry k d a) pte_p ≡ false
      → drop_page io sel d (walk k d a) a found (with_kmem w k) ≡ ok (found, with_kmem w k)
  unfolding drop_page
  drop_page-absent k a found h here = let e = sym (entry_at k d a h) in rw (foreign, e, here)

  -- What the loop comes to, from the page `a` on.
  abbrev Freed : Kmem → ℕ → ℕ → List ℕ → ℕ → World S → Type 0
  Freed k a sz xs off v =
      (j : Kmem) × (v ≡ with_kmem w j) × (ys : List ℕ) × IsFreed k d a sz xs off j ys

  -- The induction hypothesis, with `n` rounds left after one.
  abbrev Hypothesis : ℕ → ℕ → Type 0
  Hypothesis n sz =
      (k : Kmem) (a : ℕ) (xs : List ℕ) (off : ℕ) (found : Bool)
      → IsSpace k d xs off
      → a % pgsize ≡ 0
      → sz ≤ a + n * pgsize
      → IsOwned k d a sz
      → Returns (Freed k a sz xs off) (dealloc_loop io sel (suc n) d a sz found (with_kmem w k))

  module _ (n sz : ℕ) (ih : Hypothesis n sz) (k : Kmem) (a : ℕ) (xs : List ℕ) (off : ℕ)
      (found : Bool) (s : IsSpace k d xs off) (al : a % pgsize ≡ 0) (fuel : sz ≤ a + suc n * pgsize)
      (user : sz ≤ kernbase) (l : a < sz) (o : IsOwned k d a sz) where
    no_table :
        walk k d a ≡ 0
        → Returns
            (Freed k a sz xs off)
            (dealloc_loop io sel (suc n) d (next_table a) sz found (with_kmem w k))
    no_table z =
        let same = maps_hole k d a sz xs off s al z in
        mono
          (ih k (next_table a) xs off found s (omega arith) (omega arith)
            (IsOwned-skip k d a (next_table a) sz same o))
          (λ v (j, e, ys, f). (j, e, ys, IsFreed-skip k d a (next_table a) sz xs off j ys same f))

    not_present :
        test_bit (entry k d a) pte_p ≡ false
        → Returns
            (Freed k a sz xs off)
            (dealloc_loop io sel (suc n) d (a + pgsize) sz found (with_kmem w k))
    not_present z =
        let same = maps_absent k d a sz al z in
        mono
          (ih k (a + pgsize) xs off found s (omega arith) (omega arith)
            (IsOwned-skip k d a (a + pgsize) sz same o))
          (λ v (j, e, ys, f). (j, e, ys, IsFreed-skip k d a (a + pgsize) sz xs off j ys same f))

    in_ram :
        walk k d a ≢ 0
        → test_bit (entry k d a) pte_p ≡ true
        → Returns (Freed k a sz xs off) (
            drop_page io sel d (walk k d a) a found (with_kmem w k) >>= λ (f, v).
            dealloc_loop io sel (suc n) d (a + pgsize) sz f v)
    in_ram h here =
        let la : a < word_mod = omega arith in
        let fit : a + pgsize ≤ word_mod = omega arith in
        let m : maps k d a sz a ≡ true =
          (let (u, t) = inside_here a sz a al l refl in rw (u, here)) in
        bind
          (drop_page-IsDropped k a xs off found s la h here (o.page a la m) (o.live a la m)
            (o.other a la m))
          (λ (f, v) (i, e, ys, r). rw e (
            mono
              (ih i (a + pgsize) ys off f r.space (omega arith) (omega arith)
                (next-IsOwned k d a sz xs off al l fit here o i ys r))
              (λ u (j, q, zs, g).
                (j, q, zs, IsFreed-more k d a sz xs off al l fit here o i ys r j zs g))))

    round-Freed :
        Returns
          (Freed k a sz xs off)
          (dealloc_loop io sel (suc (suc n)) d a sz found (with_kmem w k))
    unfolding dealloc_loop
    round-Freed =
        let t = lt→ltb _ _ l in
        let e : add32 (sub32 ((pdx a + 1) * 0x40_0000 % word_mod) pgsize) pgsize ≡ next_table a =
          omega arith in
        let b : add32 a pgsize ≡ a + pgsize = omega arith in
        elim (Bool-cases (walk k d a == 0)) [
          | inl z ↦ rw (t, z, e) (no_table ((==_iff _ _).0 z))
          | inr z ↦
              let h : walk k d a ≢ 0 = ground arith in
              elim (Bool-cases (test_bit (entry k d a) pte_p)) [
                | inl c ↦ rw (t, z, b) (in_ram h c)
                | inr c ↦ rw (t, z, drop_page-absent k a found h c, b) (not_present c)
              ]
        ]

  dealloc_loop-Freed : (n sz : ℕ) → sz ≤ kernbase → Hypothesis n sz
  unfolding dealloc_loop
  dealloc_loop-Freed zero sz u k a xs off found s al fuel o =
      let z : ltb a sz ≡ false = ground arith in
      rw z (returns (k, refl, xs, IsFreed-end k d a sz xs off s (omega arith)))
  dealloc_loop-Freed (suc n) sz u k a xs off found s al fuel o = elim (Bool-cases (ltb a sz)) [
    | inl z ↦
        round-Freed n sz (dealloc_loop-Freed n sz u) k a xs off found s al fuel u (ltb→lt _ _ z) o
    | inr z ↦ rw z (returns (k, refl, xs, IsFreed-end k d a sz xs off s (ground arith)))
  ]

  -- `deallocuvm` on a page table that is not the current process's returns the new size within its
  -- fuel: the entry of each page in RAM from the new size, rounded up, to the old one is 0, the page
  -- has one reference fewer, and it is free if it had one. Other entries, other pages and the current
  -- process are as they were, and the page table stays well formed beside the free list. The range is
  -- not empty and the user's, and its pages in RAM are different ones, in use, and none of the table.
  pub deallocuvm-IsFreed :
      (garbage : Bool) (oldsz newsz : ℕ) (xs : List ℕ) (off : ℕ)
      → IsSpace w.machine.kmem d xs off
      → newsz < oldsz
      → oldsz ≤ kernbase
      → IsOwned w.machine.kmem d (pg_round_up newsz) oldsz
      → Returns
          (λ (size, v).
            (size ≡ newsz)
            × (j : Kmem) × (v ≡ with_kmem w j)
            × (ys : List ℕ) × IsFreed w.machine.kmem d (pg_round_up newsz) oldsz xs off j ys)
          (deallocuvm io sel garbage d oldsz newsz w)
  unfolding deallocuvm
  deallocuvm-IsFreed garbage oldsz newsz xs off s l u o =
      let z : leb oldsz newsz ≡ false = ground arith in
      rw z (
        bind
          (dealloc_loop-Freed (oldsz / pgsize + 1) oldsz u w.machine.kmem (pg_round_up newsz) xs off
            garbage s (omega arith) (omega arith) o)
          (λ v (j, e, ys, f). returns (refl, j, e, ys, f)))
