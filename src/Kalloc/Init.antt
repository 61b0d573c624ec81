-- ===== src/Kalloc/Init.antt =====
-- kalloc.c: the two phases in which the allocator is given its pages.
use xv6_memory_management_im.Common.{
  sym, Bool, ◌==◌, ◌&&◌, ◌||◌, ==_iff, ◌∙◌, ℕ, zero, suc, ◌+◌, ◌-◌, ◌/◌, ◌%◌, ◌≤◌, ◌<◌, ◌≡◌, refl,
  true, false, List, [], ◌∷◌, arith, length, has, leb, inl, inr, Bool-cases,
}
use xv6_memory_management_im.Common.Word.{add32, pgsize, pg_round_up}
use xv6_memory_management_im.Kernel.Layout.{kernbase, phystop, frame}
use xv6_memory_management_im.Kernel.{Returns, returns, bind, mono}
use xv6_memory_management_im.Kalloc.{Kmem, freerange_loop, freerange, page_count, kinit1, kinit2}
use xv6_memory_management_im.Kalloc.Invariant.{IsPage, IsKmem, Free-frame, not-bad_page}
use xv6_memory_management_im.Kalloc.Alloc.{kfree_lem, drop_ref-last, pushed-IsKmem}

-- No page from `p` on is referenced or free.
abbrev pub Untouched : Kmem → List ℕ → ℕ → Type 0
Untouched k xs p =
    (a : ℕ) → p ≤ a → a < kernbase + phystop → (k.refs (frame a) ≡ 0) × (has a xs ≡ false)

-- `a` is a whole page between `p` and `vend`.
abbrev pub is_whole : ℕ → ℕ → ℕ → Bool
is_whole p vend a = (a % pgsize == 0) && (leb p a && leb (a + pgsize) vend)

whole_next :
    (p vend a : ℕ)
    → p % pgsize ≡ 0
    → p + pgsize ≤ vend
    → is_whole p vend a ≡ ((a == p) || is_whole (p + pgsize) vend a)
whole_next p vend a al l = elim (Bool-cases (a == p)) [
  | inl e ↦
      let q = (==_iff a p).0 e in let h : is_whole p vend a ≡ true = ground arith in rw (e, h) refl
  | inr e ↦ elim (Bool-cases (a % pgsize == 0)) [
    | inl m ↦ let c : leb p a ≡ leb (p + pgsize) a = ground arith in rw (e, m, c) refl
    | inr m ↦ rw (e, m) refl
  ]
]

whole_none : (p vend a : ℕ) → vend < p + pgsize → is_whole p vend a ≡ false
whole_none p vend a l = ground arith

or_swap : (x y z : Bool) → (x || (y || z)) ≡ ((y || x) || z)
or_swap true true z = refl
or_swap true false z = refl
or_swap false true z = refl
or_swap false false z = refl

or_none : (x : Bool) → (x || false) ≡ x
or_none true = refl
or_none false = refl

-- The loop frees each page from `p` up to `vend`.
freerange_loop-IsKmem :
    (n p vend : ℕ) (k : Kmem) (xs : List ℕ) (off : ℕ)
    → IsKmem k xs off
    → k.use_lock ≡ false
    → p % pgsize ≡ 0
    → k.kernel_end ≤ p
    → p < kernbase + phystop + pgsize
    → vend ≤ kernbase + phystop
    → Untouched k xs p
    → (vend - p) / pgsize < n
    → (m : ℕ) → (vend - p) / pgsize + length xs ≡ m
    → Returns
        (λ j.
          (ys : List ℕ) × IsKmem j ys off
          × (j.kernel_end ≡ k.kernel_end)
          × (length ys ≡ m)
          × ((a : ℕ) → has a ys ≡ (is_whole p vend a || has a xs))
          × (j.use_lock ≡ false)
          × (j.total_pages ≡ k.total_pages))
        (freerange_loop n p vend k)
unfolding freerange_loop
freerange_loop-IsKmem zero p vend k xs off i u al lo hi ve un f m e = absurd (omega arith)
freerange_loop-IsKmem (suc n) p vend k xs off i u al lo hi ve un f m e =
    elim (Bool-cases (leb (add32 p pgsize) vend)) [
      | inl more ↦
          let q : IsPage k p = (al, lo, ground arith) in
          let le : p + pgsize ≤ vend = ground arith in
          let (r, new) = un p (omega arith) (ground arith) in
          let i' = pushed-IsKmem p k xs off i q new in
          let b : kernbase < k.kernel_end = i.base in
          rw
            (
              more,
              kfree_lem p k i.unlocked (not-bad_page k p i.base q) (λ h. cc),
              drop_ref-last p k xs off i q (omega arith),
            )
            (mono
              (freerange_loop-IsKmem n (add32 p pgsize) vend _ (p ∷ xs) off i' u (omega arith)
                (omega arith) (omega arith) ve
                (λ a above below. let old = un a (omega arith) below in ground arith) (omega arith)
                m (omega arith))
              (λ j (ys, w, ke, ln, here, lk, tp). (
                ys,
                w,
                ke,
                ln,
                (λ a.
                    let h = here a in
                    let e1 : add32 p pgsize ≡ p + pgsize = omega arith in
                    let h1 = rw e1 at h in
                    let w1 = whole_next p vend a al le in
                    rw w1 (h1 ∙ or_swap (is_whole (p + pgsize) vend a) (a == p) (has a xs))),
                lk,
                tp,
              )))
      | inr done ↦ rw done (
          returns (
            xs,
            i,
            refl,
            ground arith,
            (λ a. let w = whole_none p vend a (ground arith) in rw w refl),
            u,
            refl,
          ))
    ]

-- A range whose first page boundary lies inside it, above the kernel and below the end of memory.
pub record IsRange (k : Kmem) (vstart vend : ℕ) : Type 0 where
  pub above : k.kernel_end ≤ vstart
  pub inside : pg_round_up vstart ≤ vend
  pub below : vend ≤ kernbase + phystop
  pub small : vstart ≤ vend

-- The whole pages of the range are those from its first page boundary on.
whole_from :
    (vstart vend a : ℕ)
    → vstart ≤ vend
    → vend ≤ kernbase + phystop
    → is_whole (pg_round_up vstart) vend a ≡ is_whole vstart vend a
whole_from vstart vend a l m = elim (Bool-cases (a % pgsize == 0)) [
  | inr e ↦ rw e refl
  | inl e ↦ let c : leb (pg_round_up vstart) a ≡ leb vstart a = ground arith in rw (e, c) refl
]

-- `freerange` puts each whole page of the range on the free list.
freerange-IsKmem :
    (vstart vend : ℕ) (k : Kmem) (xs : List ℕ) (off : ℕ)
    → IsKmem k xs off
    → k.use_lock ≡ false
    → IsRange k vstart vend
    → Untouched k xs (pg_round_up vstart)
    → Returns
        (λ j.
          (ys : List ℕ) × IsKmem j ys off
          × (j.kernel_end ≡ k.kernel_end)
          × (length ys ≡ page_count vstart vend + length xs)
          × ((a : ℕ) → has a ys ≡ (is_whole (pg_round_up vstart) vend a || has a xs))
          × (j.use_lock ≡ false)
          × (j.total_pages ≡ k.total_pages))
        (freerange vstart vend k)
unfolding freerange page_count
freerange-IsKmem vstart vend k xs off i u r un =
    freerange_loop-IsKmem (suc (vend / pgsize)) (pg_round_up vstart) vend k xs off i u (omega arith)
      (omega arith) (omega arith) r.below un (omega arith) _ (omega arith)

module _ (vstart vend : ℕ) (k : Kmem) (r : IsRange k vstart vend) where
  -- `kinit1`, from memory in which nothing is free or referenced, puts exactly the whole pages of
  -- the range on the free list, leaves the lock out of use, and counts those pages in both global
  -- counters.
  pub kinit1_lem :
      kernbase < k.kernel_end
      → k.freelist ≡ 0
      → k.free_pages ≡ 0
      → ((a : ℕ) → k.refs a ≡ 0)
      → Returns
          (λ j.
            (ys : List ℕ) × IsKmem j ys 0
            × (length ys ≡ page_count vstart vend)
            × ((a : ℕ) → has a ys ≡ is_whole vstart vend a)
            × (j.total_pages ≡ page_count vstart vend)
            × (j.use_lock ≡ false))
          (kinit1 vstart vend k)
  unfolding kinit1
  kinit1_lem b f c z =
      let k' : Kmem = record k { locked = false; use_lock = false } in
      let i : IsKmem k' [] 0 = record {
        unlocked = refl;
        base = b;
        free = f;
        counted = omega arith;
      } in
      let run =
        freerange-IsKmem vstart vend k' [] 0 i refl
          (record { above = r.above; inside = r.inside; below = r.below; small = r.small })
          (λ a above below. (z (frame a), refl)) in
      bind run λ j (ys, w, e, l, these, v, t). returns (
        ys,
        record {
          unlocked = w.unlocked;
          base = w.base;
          free =
              Free-frame j (record j { total_pages = page_count vstart vend }) j.freelist ys refl
                (λ a h. (refl, refl)) w.free;
          counted = w.counted;
        },
        omega arith,
        λ a.
            these a
            ∙ (or_none (is_whole (pg_round_up vstart) vend a)
                ∙ whole_from vstart vend a r.small r.below),
        refl,
        v,
      )

  -- `kinit2` adds exactly the whole pages of its range to the free list and turns the lock on. It
  -- also resets the global count of free pages to the total, so the pages that have left the list
  -- since `kinit1` stay counted as free: the count exceeds the list by their number.
  pub kinit2_lem :
      (xs : List ℕ) (used : ℕ)
      → IsKmem k xs 0
      → k.use_lock ≡ false
      → k.total_pages ≡ length xs + used
      → Untouched k xs (pg_round_up vstart)
      → Returns
          (λ j.
            (ys : List ℕ) × IsKmem j ys used
            × (length ys ≡ page_count vstart vend + length xs)
            × ((a : ℕ) → has a ys ≡ (is_whole vstart vend a || has a xs))
            × (j.free_pages ≡ j.total_pages)
            × (j.use_lock ≡ true))
          (kinit2 vstart vend k)
  unfolding kinit2
  kinit2_lem xs used i u t un =
      let run = freerange-IsKmem vstart vend k xs 0 i u r un in
      bind run λ j (ys, w, e, l, these, v, tj). returns (
        ys,
        record {
          unlocked = w.unlocked;
          base = w.base;
          free =
              Free-frame j
                (record j {
                  total_pages = add32 j.total_pages (page_count vstart vend);
                  use_lock = true;
                  free_pages = add32 j.total_pages (page_count vstart vend);
                })
                j.freelist ys refl (λ a h. (refl, refl)) w.free;
          counted = omega arith;
        },
        l,
        λ a. let w = sym (whole_from vstart vend a r.small r.below) in rw w (these a),
        refl,
        refl,
      )
