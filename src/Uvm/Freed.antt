-- ===== src/Uvm/Freed.antt =====
-- vm.c, deallocuvm: what the loop comes to, a page and then the others.
use xv6_memory_management_im.Common.{
  ℕ, ◌+◌, ◌-◌, ◌%◌, ◌≤◌, ◌<◌, ◌≡◌, ◌≢◌, refl, ap, sym, ◌∙◌, Bool, true, false, ◌&&◌, List, arith,
  if◌then◌else◌, ◌==◌, ==_iff, has, inl, inr, Bool-cases,
}
use xv6_memory_management_im.Common.Word.{pgsize, word_mod, test_bit}
use xv6_memory_management_im.Kernel.Layout.{frame}
use xv6_memory_management_im.Kalloc.{Kmem}
use xv6_memory_management_im.Kalloc.Invariant.{IsPage}
use xv6_memory_management_im.Vm.Pte.{pte_p}
use xv6_memory_management_im.Vm.Table.{page_of, entry}
use xv6_memory_management_im.Vm.Map.{IsOther}
use xv6_memory_management_im.Vm.Space.{IsSpace}
use xv6_memory_management_im.Vm.Beside.{still_page}
use xv6_memory_management_im.Uvm.Share.{page_at}
use xv6_memory_management_im.Uvm.Forked.{inside, inside_here, inside_next, entry_page}
use xv6_memory_management_im.Uvm.Drop.{IsDropped}

-- The page of `vb` is one of those from `a` up to `sz`, and in RAM.
abbrev pub maps : Kmem → ℕ → ℕ → ℕ → ℕ → Bool
maps k d a sz vb = inside a sz vb && test_bit (entry k d vb) pte_p

-- The pages of the range that are in RAM are different ones, in use, and none of the page table.
pub record IsOwned (k : Kmem) (d a sz : ℕ) : Type 0 where
  pub page : (vb : ℕ) → vb < word_mod → maps k d a sz vb ≡ true → IsPage k (page_at (entry k d vb))
  pub other :
      (vb : ℕ) → vb < word_mod → maps k d a sz vb ≡ true → IsOther k d (page_at (entry k d vb))
  pub live :
      (vb : ℕ)
      → vb < word_mod
      → maps k d a sz vb ≡ true
      → k.refs (frame (page_at (entry k d vb))) ≢ 0
  pub apart :
      (vb vc : ℕ)
      → vb < word_mod
      → vc < word_mod
      → maps k d a sz vb ≡ true
      → maps k d a sz vc ≡ true
      → page_at (entry k d vb) ≡ page_at (entry k d vc)
      → page_of vb ≡ page_of vc

-- Each of these pages has one reference fewer, and is free if it had one; its entry is 0. Other
-- entries, and other pages, are as they were.
pub record IsFreed (k : Kmem) (d a sz : ℕ) (xs : List ℕ) (off : ℕ) (j : Kmem) (ys : List ℕ)
    : Type 0 where
  pub space : IsSpace j d ys off
  pub entries :
      (vb : ℕ) → vb < word_mod → entry j d vb ≡ (if maps k d a sz vb then 0 else entry k d vb)
  pub given :
      (vb : ℕ)
      → vb < word_mod
      → maps k d a sz vb ≡ true
      → (j.refs (frame (page_at (entry k d vb))) ≡ k.refs (frame (page_at (entry k d vb))) - 1)
        × (has (page_at (entry k d vb)) ys ≡ (k.refs (frame (page_at (entry k d vb))) == 1))
  pub kept :
      (y : ℕ)
      → IsPage k y
      → ((vb : ℕ) → vb < word_mod → maps k d a sz vb ≡ true → page_at (entry k d vb) ≢ y)
      → (j.refs (frame y) ≡ k.refs (frame y)) × (has y ys ≡ has y xs)

-- Pages that are not in RAM are passed over.
pub IsFreed-skip :
    (k : Kmem) (d a b sz : ℕ) (xs : List ℕ) (off : ℕ) (j : Kmem) (ys : List ℕ)
    → ((vb : ℕ) → vb < word_mod → maps k d a sz vb ≡ maps k d b sz vb)
    → IsFreed k d b sz xs off j ys
    → IsFreed k d a sz xs off j ys
IsFreed-skip k d a b sz xs off j ys same f = record {
  space = f.space;
  entries = λ vb lb. f.entries vb lb ∙ (rw (same vb lb));
  given = λ vb lb m. f.given vb lb (sym (same vb lb) ∙ m);
  kept = λ y p n. f.kept y p (λ vb lb m. n vb lb (same vb lb ∙ m));
}

pub IsOwned-skip :
    (k : Kmem) (d a b sz : ℕ)
    → ((vb : ℕ) → vb < word_mod → maps k d a sz vb ≡ maps k d b sz vb)
    → IsOwned k d a sz
    → IsOwned k d b sz
IsOwned-skip k d a b sz same o = record {
  page = λ vb lb m. o.page vb lb (same vb lb ∙ m);
  other = λ vb lb m. o.other vb lb (same vb lb ∙ m);
  live = λ vb lb m. o.live vb lb (same vb lb ∙ m);
  apart = λ vb vc lb lc m n. o.apart vb vc lb lc (same vb lb ∙ m) (same vc lc ∙ n);
}

pub IsFreed-end :
    (k : Kmem) (d a sz : ℕ) (xs : List ℕ) (off : ℕ)
    → IsSpace k d xs off
    → sz ≤ a
    → IsFreed k d a sz xs off k xs
IsFreed-end k d a sz xs off s l =
    let out = λ (vb : ℕ). (let q : inside a sz vb ≡ false = ground arith in q) in
    record {
      space = s;
      entries = λ vb lb. rw (out vb);
      given = λ vb lb m.
          (let e : false ≡ true =
              sym (ap (λ (t : Bool). t && test_bit (entry k d vb) pte_p) (out vb)) ∙ m in
            cc);
      kept = λ y p n. (refl, refl);
    }

module _ (k : Kmem) (d a sz : ℕ) (xs : List ℕ) (off : ℕ) (al : a % pgsize ≡ 0) (l : a < sz)
    (fit : a + pgsize ≤ word_mod) (here : test_bit (entry k d a) pte_p ≡ true)
    (o : IsOwned k d a sz) (i : Kmem) (ys : List ℕ)
    (r : IsDropped k d a (page_at (entry k d a)) xs off i ys) where
  abbrev v : ℕ
  v = page_at (entry k d a)

  maps_here : maps k d a sz a ≡ true
  maps_here = let (u, w) = inside_here a sz a al l refl in rw (u, here)

  la : a < word_mod
  la = omega arith

  -- Another page that the rest of the loop meets is one that it would have met before.
  maps_next :
      (vb : ℕ)
      → vb < word_mod
      → (page_of a == page_of vb) ≡ false
      → (maps i d (a + pgsize) sz vb ≡ maps k d a sz vb) × (entry i d vb ≡ entry k d vb)
  maps_next vb lb q =
      let e : entry i d vb ≡ entry k d vb = r.entries vb lb ∙ (rw q) in
      let n = inside_next a sz vb al (ground arith) in (rw (e, n), e)

  next_apart : (vb : ℕ) → maps i d (a + pgsize) sz vb ≡ true → (page_of a == page_of vb) ≡ false
  next_apart vb m = elim (Bool-cases (page_of a == page_of vb)) [
    | inr q ↦ q
    | inl q ↦ let (u, w) = inside_here a sz vb al l ((==_iff _ _).0 q) in let z = rw w at m in cc
  ]

  next_other :
      (vb : ℕ)
      → vb < word_mod
      → maps i d (a + pgsize) sz vb ≡ true
      → (maps k d a sz vb ≡ true) × (entry i d vb ≡ entry k d vb) × (page_at (entry k d vb) ≢ v)
  next_other vb lb m =
      let q = next_apart vb m in
      let (n, e) = maps_next vb lb q in
      let g : maps k d a sz vb ≡ true = sym n ∙ m in
      (
        g,
        e,
        λ z.
            let c = o.apart vb a lb la g maps_here z in
            let w : page_of a ≢ page_of vb = ground arith in w (sym c),
      )

  pub next-IsOwned : IsOwned i d (a + pgsize) sz
  next-IsOwned = record {
    page = λ vb lb m.
        let (g, e, n) = next_other vb lb m in rw e (still_page k i _ r.kernel_end (o.page vb lb g));
    other = λ vb lb m. let (g, e, n) = next_other vb lb m in rw e (r.other _ (o.other vb lb g));
    live = λ vb lb m.
        let (g, e, n) = next_other vb lb m in
        let c = (r.rest _ (o.page vb lb g) n).0 in rw (e, c) (o.live vb lb g);
    apart = λ vb vc lb lc m p.
        let (g, e, n) = next_other vb lb m in
        let (h, f, q) = next_other vc lc p in rw (e, f) (o.apart vb vc lb lc g h);
  }

  module _ (j : Kmem) (zs : List ℕ) (f : IsFreed i d (a + pgsize) sz ys off j zs) where
    more-entries :
        (vb : ℕ) → vb < word_mod → entry j d vb ≡ (if maps k d a sz vb then 0 else entry k d vb)
    more-entries vb lb = f.entries vb lb ∙ elim (Bool-cases (page_of a == page_of vb)) [
      | inr q ↦ let (n, e) = maps_next vb lb q in rw (n, e)
      | inl q ↦
          let g = (==_iff _ _).0 q in
          let (u, w) = inside_here a sz vb al l g in
          let c = sym (entry_page k d a vb g) in
          let e : entry i d vb ≡ 0 = r.entries vb lb ∙ (rw q) in rw (u, w, c, here, e)
    ]

    -- The page itself is not met again.
    here_kept : (j.refs (frame v) ≡ i.refs (frame v)) × (has v zs ≡ has v ys)
    here_kept =
        f.kept v (still_page k i v r.kernel_end (o.page a la maps_here))
          (λ vb lb m. let (g, e, n) = next_other vb lb m in rw e n)

    more-given :
        (vb : ℕ)
        → vb < word_mod
        → maps k d a sz vb ≡ true
        → (j.refs (frame (page_at (entry k d vb))) ≡ k.refs (frame (page_at (entry k d vb))) - 1)
          × (has (page_at (entry k d vb)) zs ≡ (k.refs (frame (page_at (entry k d vb))) == 1))
    more-given vb lb m = elim (Bool-cases (page_of a == page_of vb)) [
      | inl q ↦
          let c = sym (entry_page k d a vb ((==_iff _ _).0 q)) in
          let (x, y) = here_kept in rw c (x ∙ r.count, y ∙ r.free)
      | inr q ↦
          let (n, e) = maps_next vb lb q in
          let (g, e1, ne) = next_other vb lb (n ∙ m) in
          let (x, y) = f.given vb lb (n ∙ m) in
          let c = (r.rest _ (o.page vb lb m) ne).0 in
          let x1 = rw (e, c) at x in let y1 = rw (e, c) at y in (x1, y1)
    ]

    more-kept :
        (y : ℕ)
        → IsPage k y
        → ((vb : ℕ) → vb < word_mod → maps k d a sz vb ≡ true → page_at (entry k d vb) ≢ y)
        → (j.refs (frame y) ≡ k.refs (frame y)) × (has y zs ≡ has y xs)
    more-kept y p n =
        let (x, z) =
          f.kept y (still_page k i y r.kernel_end p)
            (λ vb lb m. let (g, e, ne) = next_other vb lb m in rw e (n vb lb g)) in
        let (x1, z1) = r.rest y p (λ e. n a la maps_here (sym e)) in (x ∙ x1, z ∙ z1)

    pub IsFreed-more : IsFreed k d a sz xs off j zs
    IsFreed-more = record {
      space = f.space;
      entries = more-entries;
      given = more-given;
      kept = more-kept;
    }
