-- ===== src/Trap/Last.antt =====
-- trap.c: a copy-on-write fault on a page with one reference, and one without a free page.
use xv6_memory_management_im.Common.{
  ℕ, ◌<◌, ◌≡◌, ◌≢◌, refl, ap, true, false, List, [], ◌∷◌, arith, if◌then◌else◌, ◌==◌, ==_iff,
  update, ltb,
}
use xv6_memory_management_im.Common.Word.{sub32, word_mod, test_bit}
use xv6_memory_management_im.Kernel.Layout.{frame}
use xv6_memory_management_im.Kernel.{Run, ok, Returns, returns, mono, ◌>>=◌}
use xv6_memory_management_im.Kalloc.{Kmem, kfree, kmem_lock, kmem_release, decrement_ref, bad_ref}
use xv6_memory_management_im.Kalloc.Invariant.{IsPage, IsKmem}
use xv6_memory_management_im.Kalloc.Alloc.{kalloc-nil, kfree-last}
use xv6_memory_management_im.Kalloc.Refs.{get_ref_lem, not-bad_ref}
use xv6_memory_management_im.Vm.Pte.{pte_cow}
use xv6_memory_management_im.Vm.{walk, store}
use xv6_memory_management_im.Vm.Table.{page_of, entry, entry-stored}
use xv6_memory_management_im.Vm.Space.{IsSpace, stored-IsSpace}
use xv6_memory_management_im.Trap.{handled, out_of_memory, cow_write, copy_shared, writable}
use xv6_memory_management_im.Trap.Cow.{page_at}

cow_write-writable :
    (k : Kmem) (pte : ℕ) (xs : List ℕ) (off : ℕ)
    → IsKmem k xs off
    → IsPage k (page_at k pte)
    → k.refs (frame (page_at k pte)) ≡ 1
    → test_bit (k.mem pte) pte_cow ≡ true
    → cow_write pte k ≡ ok (handled, store pte (writable (k.mem pte)) k)
unfolding cow_write
cow_write-writable k pte xs off s pv one cow =
    rw (get_ref_lem (page_at k pte) k xs off s pv, one, cow)

-- A write to a page that only this process refers to makes a copy-on-write page writable, in place:
-- no page is taken, no counter, no other word and no other entry changes.
pub cow_write-sole :
    (k : Kmem) (d va : ℕ) (xs : List ℕ) (off : ℕ)
    → IsSpace k d xs off
    → walk k d va ≢ 0
    → va < word_mod
    → IsPage k (page_at k (walk k d va))
    → k.refs (frame (page_at k (walk k d va))) ≡ 1
    → test_bit (k.mem (walk k d va)) pte_cow ≡ true
    → Returns
        (λ (outcome, j).
          (outcome ≡ handled)
          × IsSpace j d xs off
          × (j.refs ≡ k.refs)
          × ((a : ℕ) → a ≢ walk k d va → j.mem a ≡ k.mem a)
          × ((vb : ℕ)
              → vb < word_mod
              → entry j d vb ≡ (
                  if page_of va == page_of vb
                  then writable (k.mem (walk k d va))
                  else entry k d vb)))
        (cow_write (walk k d va) k)
cow_write-sole k d va xs off s h la pv one cow =
    rw (cow_write-writable k (walk k d va) xs off s.kmem pv one cow) (
      returns (
        refl,
        stored-IsSpace k d va (writable (k.mem (walk k d va))) xs off s h,
        refl,
        λ a n. ground arith,
        λ vb lb. entry-stored k d va (writable (k.mem (walk k d va))) s.dir h vb la lb,
      ))

module _ (k : Kmem) (pte off : ℕ) (s : IsKmem k [] off) (pv : IsPage k (page_at k pte))
    (two : k.refs (frame (page_at k pte)) ≡ 2) where
  abbrev v : ℕ
  v = page_at k pte

  -- The allocator after the fault: one reference fewer, and the entry as it was.
  abbrev pub lost : Kmem
  lost = record k { refs = update k.refs (frame v) (sub32 (k.refs (frame v)) 1); locked = false }

  lost-decrement : decrement_ref v (record k { locked = false }) ≡ ok lost
  unfolding decrement_ref bad_ref
  lost-decrement =
      let b : bad_ref k v ≡ false = not-bad_ref v k [] off s pv in
      let c : bad_ref lost v ≡ false = b in rw c (ground arith)

  lock_lem : kmem_lock k ≡ ok (record k { locked = true })
  unfolding kmem_lock
  lock_lem = let u = s.unlocked in ground arith

  cow_write-lost : cow_write pte k ≡ ok (out_of_memory, lost)
  unfolding cow_write copy_shared kmem_release
  cow_write-lost =
      let a : (k.refs (frame v) == 1) ≡ false = ground arith in
      let b : ltb 1 (k.refs (frame v)) ≡ true = ground arith in
      rw (get_ref_lem v k [] off s pv, a, b, kalloc-nil k off s, lock_lem)
        (ap (λ (m : Run Kmem). (m >>= λ i. ok (out_of_memory, i))) lost-decrement)

  -- A copy-on-write fault that finds no free page takes a reference away although the entry still
  -- maps the page: of two processes that share the page, the one that is killed then frees it while
  -- the other still maps it.
  pub kfree-cow_write :
      (cow_write pte k ≡ ok (out_of_memory, lost))
      × (lost.mem ≡ k.mem)
      × Returns (λ j. IsKmem j (v ∷ []) off) (kfree v lost)
  kfree-cow_write =
      let u : sub32 (k.refs (frame v)) 1 ≡ 1 = rw two in
      let same : (frame v == frame v) ≡ true = (==_iff _ _).1 refl in
      let e : lost.refs (frame v) ≡ 1 = rw (same, u) in
      let i : IsKmem lost [] off = record {
        unlocked = refl;
        base = s.base;
        free = s.free;
        counted = s.counted;
      } in
      (
        cow_write-lost,
        refl,
        mono (kfree-last v lost [] off i pv refl (omega arith) (λ z. ground arith)) (λ j h. h.0),
      )
