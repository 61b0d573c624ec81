-- ===== src/Uvm/Copy.antt =====
-- vm.c, copyuvm: the loop over the pages of the parent.
use xv6_memory_management_im.Common.{
  ℕ, zero, suc, ◌+◌, ◌*◌, ◌%◌, ◌≤◌, ◌<◌, ◌≡◌, ◌≢◌, refl, sym, ◌∙◌, Bool, true, false, List, arith,
  if◌then◌else◌, ◌==◌, ==-false_of_ne, ==_iff, ltb, inl, inr, Bool-cases, ltb→lt,
}
use xv6_memory_management_im.Common.Word.{add32, pgsize, word_mod}
use xv6_memory_management_im.Kernel.{Run, ok, Returns, returns, bind, mono}
use xv6_memory_management_im.Kalloc.{Kmem}
use xv6_memory_management_im.Vm.Table.{page_of, entry}
use xv6_memory_management_im.Vm.Beside.{still_page}
use xv6_memory_management_im.Uvm.{share_page, copy_loop}
use xv6_memory_management_im.Uvm.Apart.{IsFork}
use xv6_memory_management_im.Uvm.Share.{IsShared, share_page-IsShared}
use xv6_memory_management_im.Uvm.Protected.{IsForked, IsLooped-IsForked}
use xv6_memory_management_im.Uvm.Forked.{
  inside, IsShareable, IsLooped, entry_page, IsLooped-end, inside_here, inside_next, IsLooped-more,
}

module _ (k : Kmem) (p d i sz : ℕ) (xs : List ℕ) (off : ℕ) (al : i % pgsize ≡ 0) (l : i < sz)
    (fit : sz + pgsize ≤ word_mod) (g : IsShareable k p d i sz xs) where
  apart_next :
      (vb : ℕ)
      → inside (i + pgsize) sz vb ≡ true
      → (page_of i ≢ page_of vb) × (inside i sz vb ≡ true)
  apart_next vb h =
      let ne : page_of i ≢ page_of vb = λ e. let (u, v) = inside_here i sz vb al l e in cc in
      (ne, sym (inside_next i sz vb al ne) ∙ h)

  next-IsShareable :
      (j : Kmem) (ys : List ℕ)
      → IsShared k p d i xs off true j ys
      → IsShareable j p d (i + pgsize) sz ys
  next-IsShareable j ys a =
      let parent = λ (vb : ℕ) (lb : vb < word_mod) (h : inside (i + pgsize) sz vb ≡ true).
        (let q : (page_of i == page_of vb) ≡ false = ==-false_of_ne _ _ (apart_next vb h).0 in
          let e : entry j p vb ≡ entry k p vb = a.parent vb lb ∙ (rw q) in e) in
      record {
        here = λ vb lb h. rw (parent vb lb h) (g.here vb lb (apart_next vb h).1);
        page = λ vb lb h.
            rw (parent vb lb h) (still_page k j _ a.kernel_end (g.page vb lb (apart_next vb h).1));
        used = λ vb lb h. rw (parent vb lb h) (a.used _ (g.used vb lb (apart_next vb h).1));
        new = λ vb lb h.
            let q : (page_of i == page_of vb) ≡ false = ==-false_of_ne _ _ (apart_next vb h).0 in
            rw (a.child vb lb, q) (g.new vb lb (apart_next vb h).1);
      }

  -- The round at `i`.
  round-IsShared :
      IsFork k p d xs off
      → Returns
          (λ (done, j). (ys : List ℕ) × IsShared k p d i xs off done j ys)
          (share_page p d i k)
  round-IsShared f =
      let h : inside i sz i ≡ true = (inside_here i sz i al l refl).0 in
      let lb : i < word_mod = omega arith in
      share_page-IsShared k p d i xs off f al (omega arith) (g.here i lb h) (g.new i lb h)
        (g.page i lb h) (g.used i lb h)

-- The round failed.
IsLooped-full :
    (k : Kmem) (p d i n sz : ℕ) (xs : List ℕ) (off : ℕ) (j : Kmem) (ys : List ℕ)
    → IsShared k p d i xs off false j ys
    → IsLooped k p d i n sz xs off false j ys
IsLooped-full k p d i n sz xs off j ys a = record {
  fork = a.fork;
  parent = λ t. cc;
  child = λ t. cc;
  refs = λ t. cc;
  full = a.full;
  kept = λ t vb lb.
      let c = a.parent vb lb in
      elim (Bool-cases (page_of i == page_of vb)) [
        | inl q ↦ let g = entry_page k p i vb ((==_iff _ _).0 q) in inr (c ∙ (rw (q, g)))
        | inr q ↦ inl (c ∙ (rw q))
      ];
}

-- The rest of the loop after a round.
after_round :
    (k : Kmem) (p d i n sz : ℕ) (xs : List ℕ) (off : ℕ)
    → i % pgsize ≡ 0
    → i < sz
    → sz + pgsize ≤ word_mod
    → (done : Bool) (j : Kmem) (ys : List ℕ) → IsShared k p d i xs off done j ys
    → (rest : Run (Bool × Kmem))
    → (IsShared k p d i xs off true j ys
        → Returns
            (λ (good, m). (zs : List ℕ) × IsLooped j p d (i + pgsize) n sz ys off good m zs)
            rest)
    → Returns
        (λ (good, m). (zs : List ℕ) × IsLooped k p d i (suc n) sz xs off good m zs)
        (if done then rest else ok (false, j))
after_round k p d i n sz xs off al l fit true j ys a rest h =
    mono (h a)
      (λ (good, m) (zs, b). (zs, IsLooped-more k p d i n sz xs off j ys good m zs al l fit a b))
after_round k p d i n sz xs off al l fit false j ys a rest h =
    returns (ys, IsLooped-full k p d i (suc n) sz xs off j ys a)

copy_loop-IsLooped :
    (n : ℕ) (k : Kmem) (p d i sz : ℕ) (xs : List ℕ) (off : ℕ)
    → IsFork k p d xs off
    → i % pgsize ≡ 0
    → sz ≤ i + n * pgsize
    → sz + pgsize ≤ word_mod
    → IsShareable k p d i sz xs
    → Returns
        (λ (done, j). (ys : List ℕ) × IsLooped k p d i (suc n) sz xs off done j ys)
        (copy_loop (share_page p d) (suc n) i sz k)
unfolding copy_loop
copy_loop-IsLooped zero k p d i sz xs off f al fuel fit g =
    let z : ltb i sz ≡ false = ground arith in
    rw z (returns (xs, IsLooped-end k p d i zero sz xs off f (omega arith)))
copy_loop-IsLooped (suc n) k p d i sz xs off f al fuel fit g = elim (Bool-cases (ltb i sz)) [
  | inr z ↦ rw z (returns (xs, IsLooped-end k p d i (suc n) sz xs off f (ground arith)))
  | inl z ↦
      let l = ltb→lt _ _ z in
      let e : add32 i pgsize ≡ i + pgsize = omega arith in
      rw (z, e)
        (bind (round-IsShared k p d i sz xs off al l fit g f) (λ (done, j) (ys, a).
          after_round k p d i (suc n) sz xs off al l fit done j ys a
            (copy_loop (share_page p d) (suc n) (i + pgsize) sz j)
            (λ b.
              copy_loop-IsLooped n j p d (i + pgsize) sz ys off b.fork (omega arith) (omega arith)
                fit (next-IsShareable k p d i sz xs off al l fit g j ys b))))
]

-- The loop of `copyuvm`, from the page `i` on: it returns within its fuel. If it succeeds, every page
-- of the range has the same entry in parent and child, the one of the parent before, with copy-on-write
-- in place of write permission; all other entries are as they were, and the counter of each page in use has grown by the
-- number of entries of the range that map it, modulo 2 ^ 32. It fails only when no page is free, and
-- then entries of the parent are as they were or protected. The two page tables, which share no
-- page, stay so, beside a well-formed free list. The parent's pages of the range are in RAM, in pages
-- that are in use, and the child has no page there.
pub copy_loop-IsForked :
    (n : ℕ) (k : Kmem) (p d i sz : ℕ) (xs : List ℕ) (off : ℕ)
    → IsFork k p d xs off
    → i % pgsize ≡ 0
    → sz ≤ i + n * pgsize
    → sz + pgsize ≤ word_mod
    → IsShareable k p d i sz xs
    → Returns
        (λ (done, j). (ys : List ℕ) × IsForked k p d i (suc n) sz xs off done j ys)
        (copy_loop (share_page p d) (suc n) i sz k)
copy_loop-IsForked n k p d i sz xs off f al fuel fit g =
    mono (copy_loop-IsLooped n k p d i sz xs off f al fuel fit g)
      (λ (done, j) (ys, a). (ys, IsLooped-IsForked k p d i (suc n) sz xs off done j ys a))
