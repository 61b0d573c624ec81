-- ===== src/Kalloc/Alloc.antt =====
-- kalloc.c: `kalloc` and `kfree` keep the free list.
use xv6_memory_management_im.Common.{
  ℕ, ◌-◌, ◌≤◌, ◌<◌, ◌≡◌, ◌≢◌, refl, true, false, List, [], ◌∷◌, arith, ◌==◌, ==-false_of_ne, ap,
  has, update,
}
use xv6_memory_management_im.Common.Word.{add32, sub32}
use xv6_memory_management_im.Kernel.Layout.{frame}
use xv6_memory_management_im.Kernel.{ok, panic, Panic, Returns, returns, ◌>>=◌}
use xv6_memory_management_im.Kalloc.{
  Kmem, enter, leave, kfree, kalloc, drop_ref, take_free, fill_page, bad_page,
}
use xv6_memory_management_im.Kalloc.Invariant.{
  IsPage, IsKmem, Free-frame, Free-IsPage, frame-ne, not-bad_page, not-Free,
}

-- Between calls the lock is free, and the two ends of a call leave it so.
pub kalloc_lem : (k : Kmem) → k.locked ≡ false → kalloc k ≡ ok (take_free k)
unfolding kalloc
kalloc_lem k u = ground arith

pub kfree_lem :
    (v : ℕ) (k : Kmem)
    → k.locked ≡ false
    → bad_page k v ≡ false
    → (k.use_lock ≡ true → k.refs (frame v) ≢ 0)
    → kfree v k ≡ ok (drop_ref v k)
unfolding enter leave drop_ref kfree
kfree_lem v k u b n = rw b (ground arith)

module _ (k : Kmem) (x : ℕ) (xs : List ℕ) (off : ℕ) (i : IsKmem k (x ∷ xs) off) where
  abbrev pub taken : Kmem
  taken = record k {
    freelist = k.mem x;
    refs = update k.refs (frame x) 1;
    free_pages = sub32 k.free_pages 1;
  }

  spared : (a : ℕ) → has a xs ≡ true → (frame a == frame x) ≡ false
  spared a h =
      let p = Free-IsPage k (k.mem x) a xs i.free.4 h in
      let d : x ≢ a = ground arith in ==-false_of_ne _ _ (frame-ne k x a i.base i.free.1 p d)

  pub take_free-cons : take_free k ≡ (x, taken)
  unfolding take_free
  take_free-cons = ground arith

  pub taken-IsKmem : IsKmem taken xs off
  taken-IsKmem = record {
    unlocked = i.unlocked;
    base = i.base;
    free = Free-frame k taken (k.mem x) xs refl (λ a h. (refl, rw (spared a h))) i.free.4;
    counted = omega arith;
  }

  -- `kalloc` takes the first page of a free list that is not empty, gives it one reference, leaves
  -- the other pages on the list and no other counter changed, and writes nothing to memory.
  pub kalloc-cons :
      Returns
        (λ (r, j).
          (r ≡ x)
          × IsPage k x
          × IsKmem j xs off
          × (j.refs ≡ update k.refs (frame x) 1)
          × (j.mem ≡ k.mem)
          × (j.use_lock ≡ k.use_lock))
        (kalloc k)
  kalloc-cons =
      rw (kalloc_lem k i.unlocked, take_free-cons)
        (returns (refl, i.free.1, taken-IsKmem, refl, refl, refl))

-- With no free page `kalloc` returns 0 and changes nothing.
pub kalloc-nil : (k : Kmem) (off : ℕ) → IsKmem k [] off → kalloc k ≡ ok (0, k)
unfolding take_free
kalloc-nil k off i = rw (kalloc_lem k i.unlocked) (ground arith)

module _ (v : ℕ) (k : Kmem) (xs : List ℕ) (off : ℕ) (i : IsKmem k xs off) (p : IsPage k v) where
  -- The allocator with `v` put on its free list.
  abbrev pub pushed : Kmem
  pushed = record k {
    refs = update k.refs (frame v) 0;
    mem = update (fill_page k.mem v 0x0101_0101) v k.freelist;
    freelist = v;
    free_pages = add32 k.free_pages 1;
  }

  abbrev pub fewer : Kmem
  fewer = record k { refs = update k.refs (frame v) (k.refs (frame v) - 1) }

  pub drop_ref-last : k.refs (frame v) ≤ 1 → drop_ref v k ≡ pushed
  unfolding drop_ref
  drop_ref-last h = let e : k.refs (frame v) - 1 ≡ 0 = omega arith in rw e

  pub drop_ref-shared : 1 < k.refs (frame v) → drop_ref v k ≡ fewer
  unfolding drop_ref
  drop_ref-shared h = let e : (k.refs (frame v) - 1 == 0) ≡ false = ground arith in rw e

  pub frame_ne : (a : ℕ) → has a xs ≡ true → v ≢ a → (frame a == frame v) ≡ false
  frame_ne a h d =
      ==-false_of_ne _ _ (frame-ne k v a i.base p (Free-IsPage k k.freelist a xs i.free h) d)

  ne_of_absent : has v xs ≡ false → (a : ℕ) → has a xs ≡ true → v ≢ a
  ne_of_absent new a h e = cc (ap (λ (t : ℕ). has t xs) e)

  kept_word :
      has v xs ≡ false
      → (a : ℕ) → has a xs ≡ true
      → update (fill_page k.mem v 0x0101_0101) v k.freelist a ≡ k.mem a
  unfolding fill_page
  kept_word new a h =
      let q = Free-IsPage k k.freelist a xs i.free h in let d = ne_of_absent new a h in ground arith

  pub pushed-IsKmem : has v xs ≡ false → IsKmem pushed (v ∷ xs) off
  unfolding fill_page
  pushed-IsKmem new =
      let e : pushed.mem v ≡ k.freelist = ground arith in
      let same = λ (a : ℕ) (h : has a xs ≡ true).
        (let q : (pushed.mem a ≡ k.mem a) × (pushed.refs (frame a) ≡ k.refs (frame a)) =
            (kept_word new a h, rw (frame_ne a h (ne_of_absent new a h))) in
          q) in
      record {
        unlocked = i.unlocked;
        base = i.base;
        free =
            (refl, p, ground arith, new, rw e (Free-frame k pushed k.freelist xs refl same i.free));
        counted = omega arith;
      }

  -- The counter of a page that is not free may change.
  pub refs-IsKmem :
      (n : ℕ) → has v xs ≡ false → IsKmem (record k { refs = update k.refs (frame v) n }) xs off
  refs-IsKmem n new =
      let j : Kmem = record k { refs = update k.refs (frame v) n } in
      let same = λ (a : ℕ) (h : has a xs ≡ true).
        (let q : (j.mem a ≡ k.mem a) × (j.refs (frame a) ≡ k.refs (frame a)) =
            (refl, rw (frame_ne a h (ne_of_absent new a h))) in
          q) in
      record {
        unlocked = i.unlocked;
        base = i.base;
        free = Free-frame k j k.freelist xs refl same i.free;
        counted = i.counted;
      }

  -- `kfree` of a page that is not free and has one reference, or none while the lock is not in
  -- use, puts it in front of the free list with no reference; no other counter changes.
  pub kfree-last :
      has v xs ≡ false
      → k.refs (frame v) ≤ 1
      → (k.use_lock ≡ true → k.refs (frame v) ≢ 0)
      → Returns
          (λ j.
            IsKmem j (v ∷ xs) off
            × (j.refs ≡ update k.refs (frame v) 0)
            × (j.use_lock ≡ k.use_lock))
          (kfree v k)
  kfree-last new one live =
      rw (kfree_lem v k i.unlocked (not-bad_page k v i.base p) live, drop_ref-last one)
        (returns (pushed-IsKmem new, refl, refl))

  -- `kfree` of a page with several references takes one away, and neither frees nor writes.
  pub kfree-shared :
      1 < k.refs (frame v)
      → Returns
          (λ j.
            IsKmem j xs off
            × (j.refs ≡ update k.refs (frame v) (k.refs (frame v) - 1))
            × (j.mem ≡ k.mem))
          (kfree v k)
  kfree-shared many =
      rw
        (
          kfree_lem v k i.unlocked (not-bad_page k v i.base p) (λ _. omega arith),
          drop_ref-shared many,
        )
        (returns (refs-IsKmem _ (not-Free k k.freelist v xs i.free (omega arith)), refl, refl))

  -- Once the lock is in use, `kfree` of a page without references, a double free, panics.
  pub kfree-ref_zero :
      k.use_lock ≡ true → k.refs (frame v) ≡ 0 → kfree v k ≡ panic Panic.kfree_ref_zero
  unfolding kfree
  kfree-ref_zero u z = rw (not-bad_page k v i.base p) (ground arith)

  -- The page that `kfree` has just freed is the one that the next `kalloc` returns, and the free
  -- list is as it was.
  pub kalloc-kfree :
      has v xs ≡ false
      → k.refs (frame v) ≡ 1
      → Returns
          (λ (r, j).
            (r ≡ v) × IsKmem j xs off × (j.refs ≡ update (update k.refs (frame v) 0) (frame v) 1))
          (kfree v k >>= kalloc)
  kalloc-kfree new one =
      let i' = pushed-IsKmem new in
      rw
        (
          kfree_lem v k i.unlocked (not-bad_page k v i.base p) (λ _. omega arith),
          drop_ref-last (omega arith),
          kalloc_lem pushed i.unlocked,
          take_free-cons pushed v xs off i',
        )
        (returns (refl, taken-IsKmem pushed v xs off i', refl))
