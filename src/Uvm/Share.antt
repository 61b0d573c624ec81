-- ===== src/Uvm/Share.antt =====
-- vm.c, copyuvm: a round shares one page between parent and child, copy-on-write.
use xv6_memory_management_im.Common.{
  ℕ, ◌+◌, ◌%◌, ◌≤◌, ◌<◌, ◌≡◌, ◌≢◌, ap, sym, ◌∙◌, Bool, true, false, ◌&&◌, List, [], arith,
  if◌then◌else◌, ◌==◌, ==-false_of_ne, ==_iff, has, update, inl, inr, Bool-cases,
}
use xv6_memory_management_im.Common.Word.{add32, pgsize, word_mod, test_bit, set_bit}
use xv6_memory_management_im.Kernel.Layout.{p2v, frame}
use xv6_memory_management_im.Kernel.{ok, Returns, returns, bind, ◌>>=◌}
use Prim.Native.Nat.{bit_or}
use xv6_memory_management_im.Kalloc.{Kmem, increment_ref}
use xv6_memory_management_im.Kalloc.Invariant.{IsPage, frame-ne}
use xv6_memory_management_im.Kalloc.Refs.{increment_ref-more}
use xv6_memory_management_im.Vm.Pte.{pte_p, pte_addr, pte_flags}
use xv6_memory_management_im.Vm.Bits.{bit_or-add}
use xv6_memory_management_im.Vm.{walk}
use xv6_memory_management_im.Vm.Table.{page_of, entry, entry-stored, stored}
use xv6_memory_management_im.Vm.Space.{stored-IsSpace}
use xv6_memory_management_im.Vm.Mapped.{entry_at}
use xv6_memory_management_im.Vm.Beside.{IsBeside, still_page, stored-IsBeside}
use xv6_memory_management_im.Uvm.{protect, share_present, share_page}
use xv6_memory_management_im.Uvm.Apart.{
  IsFork, IsPlaced, mappages-one, sym-IsFork, beside-IsFork, entry-beside, counted-IsSpace,
  counted-IsFork, entry-counted,
}

-- The page that an entry maps.
abbrev pub page_at : ℕ → ℕ
page_at w = p2v (pte_addr w)

protect-addr : (w : ℕ) → pte_addr (protect w) ≡ pte_addr w
unfolding protect
protect-addr w = ground arith

protect-present : (w : ℕ) → test_bit w pte_p ≡ true → test_bit (protect w) pte_p ≡ true
unfolding protect
protect-present w h = ground arith

-- The child's entry is the parent's.
mapped_word :
    (w : ℕ)
    → test_bit w pte_p ≡ true
    → set_bit (bit_or (pte_addr w) (pte_flags (protect w))) pte_p ≡ protect w
mapped_word w h =
    let e = bit_or-add (pte_addr w) (pte_flags (protect w)) (omega arith) (omega arith) in
    let a = protect-addr w in
    let b = protect-present w h in
    let c : pte_addr w + pte_flags (protect w) ≡ protect w = omega arith in rw (e, c, b)

-- What sharing the page `i` comes to: the parent's entry is protected, and the child has the same
-- entry and the page one more reference if it succeeds. It fails only when no page is free.
pub record IsShared (k : Kmem) (p d i : ℕ) (xs : List ℕ) (off : ℕ) (done : Bool) (j : Kmem)
    (ys : List ℕ) : Type 0 where
  pub fork : IsFork j p d ys off
  pub kernel_end : j.kernel_end ≡ k.kernel_end
  pub used : (y : ℕ) → has y xs ≡ false → has y ys ≡ false
  pub parent :
      (vb : ℕ)
      → vb < word_mod
      → entry j p vb ≡ (if page_of i == page_of vb then protect (entry k p i) else entry k p vb)
  pub child :
      (vb : ℕ)
      → vb < word_mod
      → entry j d vb
        ≡ (if done && (page_of i == page_of vb) then protect (entry k p i) else entry k d vb)
  pub refs :
      (y : ℕ)
      → IsPage k y
      → has y xs ≡ false
      → j.refs (frame y) ≡ (
          if done && (page_at (entry k p i) == y)
          then add32 (k.refs (frame y)) 1
          else k.refs (frame y))
  pub full : done ≡ false → ys ≡ []

module _ (k : Kmem) (p d i : ℕ) (xs : List ℕ) (off : ℕ) (f : IsFork k p d xs off)
    (al : i % pgsize ≡ 0) (fit : i + pgsize ≤ word_mod) (here : test_bit (entry k p i) pte_p ≡ true)
    (new : test_bit (entry k d i) pte_p ≡ false) (pv : IsPage k (page_at (entry k p i)))
    (used : has (page_at (entry k p i)) xs ≡ false) where
  placed : walk k p i ≢ 0
  unfolding entry
  placed = ground arith

  word : k.mem (walk k p i) ≡ entry k p i
  word = sym (entry_at k p i placed)

  -- The allocator after the parent's entry has been written.
  abbrev cowed : Kmem
  cowed = stored k p i (protect (entry k p i)) f.parent.dir placed

  beside : IsBeside k cowed p xs xs
  beside = stored-IsBeside k p i (protect (entry k p i)) xs f.parent.dir placed

  cowed-IsFork : IsFork cowed p d xs off
  cowed-IsFork = sym-IsFork cowed d p xs off (
      beside-IsFork k cowed d p xs xs off (sym-IsFork k p d xs off f)
        (stored-IsSpace k p i (protect (entry k p i)) xs off f.parent placed) beside)

  entry-cowed :
      (vb : ℕ)
      → vb < word_mod
      → entry cowed p vb ≡ (if page_of i == page_of vb then protect (entry k p i) else entry k p vb)
  entry-cowed vb lb =
      entry-stored k p i (protect (entry k p i)) f.parent.dir placed vb (omega arith) lb

  child-cowed : (vb : ℕ) → entry cowed d vb ≡ entry k d vb
  child-cowed vb =
      entry-beside k cowed d p xs xs off (sym-IsFork k p d xs off f)
        (stored-IsSpace k p i (protect (entry k p i)) xs off f.parent placed) beside vb

  abbrev v : ℕ
  v = page_at (entry k p i)

  abbrev Placed : Bool → Kmem → Type 0
  Placed =
      IsPlaced cowed d i
        (set_bit (bit_or (pte_addr (entry k p i)) (pte_flags (protect (entry k p i)))) pte_p) xs off

  -- When `mappages` has failed.
  failed : (j : Kmem) → Placed false j → (ys : List ℕ) × IsShared k p d i xs off false j ys
  unfolding IsPlaced
  failed j (ys, s, e, full, b) = (
    ys,
    record {
      fork = beside-IsFork cowed j p d xs ys off cowed-IsFork s b;
      kernel_end = b.kernel_end;
      used = b.used;
      parent = λ vb lb. entry-beside cowed j p d xs ys off cowed-IsFork s b vb ∙ entry-cowed vb lb;
      child = λ vb lb. e vb lb ∙ child-cowed vb;
      refs = b.refs;
      full = full;
    },
  )

  count :
      (j : Kmem)
      → ((y : ℕ) → IsPage k y → has y xs ≡ false → j.refs (frame y) ≡ k.refs (frame y))
      → (y : ℕ) → IsPage k y
      → has y xs ≡ false
      → update j.refs (frame v) (add32 (j.refs (frame v)) 1) (frame y)
        ≡ (if v == y then add32 (k.refs (frame y)) 1 else k.refs (frame y))
  count j same y py uy = elim (Bool-cases (v == y)) [
    | inl q ↦
        let e = (==_iff _ _).0 q in
        let c = same y py uy in
        let z : (frame y == frame v) ≡ true = (==_iff _ _).1 (omega arith) in
        let u : j.refs (frame v) ≡ k.refs (frame y) = ap (λ (t : ℕ). j.refs (frame t)) e ∙ c in
        rw (q, z, u)
    | inr q ↦
        let c = same y py uy in
        let ne : v ≢ y = ground arith in
        let z : (frame y == frame v) ≡ false =
          ==-false_of_ne _ _ (frame-ne k v y f.parent.dir.base pv py ne) in
        rw (q, z) c
  ]

  shared :
      (j : Kmem)
      → Placed true j
      → Returns
          (λ m. (ys : List ℕ) × IsShared k p d i xs off true m ys)
          (increment_ref (page_at (entry k p i)) j)
  unfolding IsPlaced
  shared j (ys, s, e, full, b) =
      let g = beside-IsFork cowed j p d xs ys off cowed-IsFork s b in
      let pj = still_page k j v b.kernel_end pv in
      let uj = b.used v used in
      let n = add32 (j.refs (frame v)) 1 in
      let ps = counted-IsSpace j p v n ys off pj uj g.parent in
      rw (increment_ref-more v j ys off s.kmem pj) (
        returns (
          ys,
          record {
            fork = counted-IsFork j d v n ys off pj uj p g ps;
            kernel_end = b.kernel_end;
            used = b.used;
            parent = λ vb lb.
                entry-counted j d v n ys off pj uj p vb
                ∙ entry-beside cowed j p d xs ys off cowed-IsFork s b vb
                ∙ entry-cowed vb lb;
            child = λ vb lb.
                entry-counted j d v n ys off pj uj d vb
                ∙ e vb lb
                ∙ (rw (mapped_word _ here, child-cowed vb));
            refs = λ y py uy. count j (λ z pz uz. b.refs z pz uz) y py uy;
            full = full;
          },
        ))

  finish :
      (done : Bool) (j : Kmem)
      → Placed done j
      → Returns
          (λ (good, m). (ys : List ℕ) × IsShared k p d i xs off good m ys)
          (if done
            then (increment_ref (page_at (entry k p i)) j >>= λ m. ok (true, m))
            else ok (false, j))
  finish true j m = bind (shared j m) (λ i1 t. returns t)
  finish false j m = returns (failed j m)

  -- A round of `copyuvm` for a page in RAM.
  pub share_page-IsShared :
      Returns (λ (done, j). (ys : List ℕ) × IsShared k p d i xs off done j ys) (share_page p d i k)
  unfolding share_page share_present
  share_page-IsShared =
      let z = ==-false_of_ne _ _ placed in
      let new1 : test_bit (entry cowed d i) pte_p ≡ false = rw (child-cowed i) new in
      rw (z, word, here)
        (bind
          (mappages-one cowed d i (pte_addr (entry k p i)) (pte_flags (protect (entry k p i))) xs
            off cowed-IsFork.child al fit new1)
          (λ (done, j) m. finish done j m))
