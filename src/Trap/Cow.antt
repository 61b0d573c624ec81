-- ===== src/Trap/Cow.antt =====
-- trap.c: the effect of a copy-on-write fault on the page table, on memory and on the counters.
use xv6_memory_management_im.Common.{
  ℕ, ◌+◌, ◌-◌, ◌<◌, ◌≡◌, ◌≢◌, refl, ap, sym, ◌∙◌, true, false, List, ◌∷◌, arith, if◌then◌else◌,
  ◌==◌, ==-false_of_ne, ==_iff, has, update, ltb, leb, inl, inr, ◌||◌, false, Bool-cases,
}
use xv6_memory_management_im.Common.Word.{sub32, pgsize, word_mod, test_bit, clear_bit}
use mathlib.Core.Path.{subst}
use xv6_memory_management_im.Kernel.Layout.{v2p, p2v, frame}
use xv6_memory_management_im.Kernel.{Run, ok, Returns, returns, ◌>>=◌}
use Prim.Native.Nat.{bit_or}
use xv6_memory_management_im.Vm.Bits.{bit_or-add}
use xv6_memory_management_im.Kalloc.{Kmem, kmem_lock, kmem_release, decrement_ref, bad_ref}
use xv6_memory_management_im.Kalloc.Invariant.{IsPage, IsKmem, Free-IsPage, not-Free, frame-ne}
use xv6_memory_management_im.Kalloc.Alloc.{kalloc_lem, take_free-cons, taken}
use xv6_memory_management_im.Kalloc.Refs.{get_ref_lem, not-bad_ref}
use xv6_memory_management_im.Vm.Pte.{pte_w, pte_cow, pte_addr, pte_flags, pdx}
use xv6_memory_management_im.Vm.{walk, store}
use xv6_memory_management_im.Vm.Table.{page_of, entry, entry-stored, walk-present, pdx-lt}
use xv6_memory_management_im.Vm.Space.{IsSpace, taken-IsSpace, other, stored-IsSpace, listed-ne}
use xv6_memory_management_im.Vm.Frame.{IsKept, kept-IsSpace, entry-kept, walk-kept}
use xv6_memory_management_im.Trap.{handled, cow_write, copy_page, copy_shared, writable}

copy_page-at :
    (mem : ℕ → ℕ) (dst src o : ℕ) → o < pgsize → copy_page mem dst src (dst + o) ≡ mem (src + o)
unfolding copy_page
copy_page-at mem dst src o l =
    let e : dst + o - dst ≡ o = omega arith in
    let a : leb dst (dst + o) ≡ true = ground arith in
    let b : ltb (dst + o) (dst + pgsize) ≡ true = ground arith in rw (a, b, e)

-- A new counter at one frame and one less at another.
counted :
    (f : ℕ → ℕ) (a b : ℕ)
    → (b == a) ≡ false
    → 1 < f b
    → f b < word_mod
    → let g = update (update f a 1) b (sub32 (update f a 1 b) 1) in (g b + 1 ≡ f b) × (g a ≡ 1)
counted f a b z l m =
    let same : (b == b) ≡ true = (==_iff _ _).1 refl in
    let this : (a == a) ≡ true = (==_iff _ _).1 refl in
    let y : (a == b) ≡ false = ground arith in rw (same, z, y, this) (omega arith, refl)

-- The flags `f` are those of `w` with write permission if they were copy-on-write, which they no longer
-- are.
pub record IsWritable (w f : ℕ) : Type 0 where
  pub write : test_bit f pte_w ≡ (test_bit w pte_w || test_bit w pte_cow)
  pub cow : test_bit f pte_cow ≡ false
  pub rest : clear_bit (clear_bit f pte_w) pte_cow ≡ clear_bit (clear_bit w pte_w) pte_cow

rest-writable :
    (w : ℕ)
    → clear_bit (clear_bit (writable w) pte_w) pte_cow ≡ clear_bit (clear_bit w pte_w) pte_cow
unfolding writable
rest-writable w = elim (Bool-cases (test_bit w pte_cow)) [
  | inr c ↦ rw c refl
  | inl c ↦ elim (Bool-cases (test_bit w pte_w)) [
    | inl b ↦
        let b1 : test_bit (w - 0x400) pte_w ≡ true = ground arith in
        let c1 : test_bit (w - 0x400 - 2) pte_cow ≡ false = ground arith in
        let c2 : test_bit (w - 2) pte_cow ≡ true = ground arith in
        let e : w - 0x400 - 2 ≡ w - 2 - 0x400 = omega arith in rw (c, b1, b, b1, c1, c2) e
    | inr b ↦
        let b1 : test_bit (w - 0x400) pte_w ≡ false = ground arith in
        let b2 : test_bit (w - 0x400 + 2) pte_w ≡ true = ground arith in
        let e : w - 0x400 + 2 - 2 ≡ w - 0x400 = omega arith in
        let c1 : test_bit (w - 0x400) pte_cow ≡ false = ground arith in
        rw (c, b1, b, b2, e, c1, c) refl
  ]
]

writable-IsWritable : (w : ℕ) → IsWritable w (writable w)
unfolding writable
writable-IsWritable w = record { write = ground arith; cow = ground arith; rest = rest-writable w }

-- The page that an entry maps.
abbrev pub page_at : Kmem → ℕ → ℕ
page_at k pte = p2v (pte_addr (k.mem pte))

module _ (k : Kmem) (pte x : ℕ) (xs : List ℕ) (off : ℕ) (s : IsKmem k (x ∷ xs) off)
    (pv : IsPage k (page_at k pte)) (shared : 1 < k.refs (frame (page_at k pte))) where
  abbrev v : ℕ
  v = page_at k pte

  v-new : has v (x ∷ xs) ≡ false
  v-new = not-Free k k.freelist v (x ∷ xs) s.free (ground arith)

  -- The allocator after the copy, but for the entry.
  abbrev pub copied : Kmem
  copied = record (taken k x xs off s) {
    mem = copy_page k.mem x v;
    refs =
        update (update k.refs (frame x) 1) (frame v)
          (sub32 (update k.refs (frame x) 1 (frame v)) 1);
    locked = false;
  }

  abbrev pub replaced : Kmem
  replaced = store pte (bit_or (v2p x) (writable (pte_flags (k.mem pte)))) copied

  pub copied-IsKept : IsKept (taken k x xs off s) copied x xs
  unfolding copy_page
  copied-IsKept = record {
    kernel_end = refl;
    unlocked = refl;
    freelist = refl;
    free_pages = refl;
    mem = λ a o. elim o [ inl l ↦ ground arith | inr l ↦ ground arith ];
    refs = λ a i.
        let p = Free-IsPage k k.freelist a (x ∷ xs) s.free (ground arith) in
        let n = v-new in
        let ne : v ≢ a = λ e. listed-ne (x ∷ xs) a v (ground arith) n (sym e) in
        let f = ==-false_of_ne _ _ (frame-ne k v a s.base pv p ne) in rw f;
  }

  -- The last call.
  decrement-copied :
      decrement_ref v (record replaced { refs = update k.refs (frame x) 1 }) ≡ ok replaced
  unfolding decrement_ref bad_ref
  decrement-copied =
      let b : bad_ref k v ≡ false = not-bad_ref v k (x ∷ xs) off s pv in
      let c : bad_ref replaced v ≡ false = b in rw c (ground arith)

  lock_lem : kmem_lock (taken k x xs off s) ≡ ok (record (taken k x xs off s) { locked = true })
  unfolding kmem_lock
  lock_lem = let u = s.unlocked in ground arith

  pub cow_write-replaced : cow_write pte k ≡ ok (handled, replaced)
  unfolding cow_write copy_shared kmem_release
  cow_write-replaced =
      let g = get_ref_lem v k (x ∷ xs) off s pv in
      let one : (k.refs (frame v) == 1) ≡ false = ground arith in
      let two : ltb 1 (k.refs (frame v)) ≡ true = ground arith in
      let b = s.base in
      let f = s.free.1 in
      let z : (x == 0) ≡ false = ground arith in
      let c = decrement-copied in
      rw (g, one, two, kalloc_lem k s.unlocked, take_free-cons k x xs off s, lock_lem, z)
        (ap (λ (m : Run Kmem). (m >>= λ i. ok (handled, i))) c)

module _ (k : Kmem) (d va x : ℕ) (xs : List ℕ) (off : ℕ) (s : IsSpace k d (x ∷ xs) off)
    (h : walk k d va ≢ 0) (pv : IsPage k (page_at k (walk k d va)))
    (shared : 1 < k.refs (frame (page_at k (walk k d va))))
    (small : k.refs (frame (page_at k (walk k d va))) < word_mod) where
  abbrev c : Kmem
  c = copied k (walk k d va) x xs off s.kmem pv shared

  abbrev j : Kmem
  j = replaced k (walk k d va) x xs off s.kmem pv shared

  abbrev t : Kmem
  t = taken k x xs off s.kmem

  kept : IsKept t c x xs
  kept = copied-IsKept k (walk k d va) x xs off s.kmem pv shared

  c-IsSpace : IsSpace c d xs off
  c-IsSpace =
      kept-IsSpace t c d x xs off (taken-IsSpace k d x xs off s) s.kmem.free.1
        (other k d x xs off s) s.kmem.free.3 kept

  c-entry : (vb : ℕ) → entry c d vb ≡ entry k d vb
  unfolding entry walk
  c-entry vb =
      entry-kept t c d x xs off (taken-IsSpace k d x xs off s) s.kmem.free.1 (other k d x xs off s)
        s.kmem.free.3 kept vb

  c-walk : walk c d va ≡ walk k d va
  unfolding walk
  c-walk =
      walk-kept t c d x xs off (taken-IsSpace k d x xs off s) s.kmem.free.1 (other k d x xs off s)
        s.kmem.free.3 kept va

  c-walk_ne : walk c d va ≢ 0
  c-walk_ne = rw c-walk h

  word :
      bit_or (v2p x) (writable (pte_flags (k.mem (walk k d va))))
      ≡ v2p x + writable (pte_flags (k.mem (walk k d va)))
  unfolding writable
  word = let b = s.dir.base in let p = s.kmem.free.1 in bit_or-add _ _ (omega arith) (ground arith)

  j-IsSpace : IsSpace j d xs off
  j-IsSpace =
      let r =
        stored-IsSpace c d va (bit_or (v2p x) (writable (pte_flags (k.mem (walk k d va))))) xs off
          c-IsSpace c-walk_ne in
      subst
        (λ (a : ℕ).
          IsSpace (store a (bit_or (v2p x) (writable (pte_flags (k.mem (walk k d va))))) c) d xs
            off)
        c-walk r

  j-entry :
      (vb : ℕ)
      → va < word_mod
      → vb < word_mod
      → entry j d vb ≡ (
          if page_of va == page_of vb
          then v2p x + writable (pte_flags (k.mem (walk k d va)))
          else entry k d vb)
  j-entry vb la lb =
      let e =
        entry-stored c d va (bit_or (v2p x) (writable (pte_flags (k.mem (walk k d va)))))
          c-IsSpace.dir c-walk_ne vb la lb in
      let f =
        subst
          (λ (a : ℕ).
            entry (store a (bit_or (v2p x) (writable (pte_flags (k.mem (walk k d va))))) c) d vb ≡ (
              if page_of va == page_of vb
              then bit_or (v2p x) (writable (pte_flags (k.mem (walk k d va))))
              else entry c d vb))
          c-walk e in
      f ∙ (rw (c-entry vb, word))

  j-mem : (o : ℕ) → o < pgsize → j.mem (x + o) ≡ k.mem (page_at k (walk k d va) + o)
  j-mem o l =
      let (p, e) = walk-present k d va h in
      let (q, n) = s.dir.tables (pdx va) (pdx-lt va) p in
      let b = s.dir.base in
      let px = s.kmem.free.1 in
      let f = (other k d x xs off s).1 (pdx va) (pdx-lt va) p in
      let z : (x + o == walk k d va) ≡ false = ==-false_of_ne _ _ (λ z. f (omega arith)) in
      rw z (copy_page-at k.mem x (page_at k (walk k d va)) o l)

  j-refs :
      (j.refs (frame (page_at k (walk k d va))) + 1 ≡ k.refs (frame (page_at k (walk k d va))))
      × (j.refs (frame x) ≡ 1)
  j-refs =
      let n = not-Free k k.freelist (page_at k (walk k d va)) (x ∷ xs) s.kmem.free (ground arith) in
      let f = ==-false_of_ne _ _ (
        frame-ne k x (page_at k (walk k d va)) s.dir.base s.kmem.free.1 pv
          (listed-ne (x ∷ xs) x (page_at k (walk k d va)) (ground arith) n)) in
      counted k.refs (frame x) (frame (page_at k (walk k d va))) f shared small

  -- A write to a page that is shared and copy-on-write gives the process a copy: the entry of the
  -- page maps a free page with the same words; its flags are the old ones with write permission in
  -- place of copy-on-write, and every other entry is as it was; the old page has one reference
  -- fewer and the new one has one. The page table and the free list stay well formed. Before the
  -- fault they are, a page is free, the old page has several references and their number is a word.
  pub cow_write-shared :
      va < word_mod
      → Returns
          (λ (outcome, i).
            (outcome ≡ handled)
            × IsSpace i d xs off
            × ((f : ℕ) × IsWritable (pte_flags (k.mem (walk k d va))) f
                × ((vb : ℕ)
                    → vb < word_mod
                    → entry i d vb
                      ≡ (if page_of va == page_of vb then v2p x + f else entry k d vb)))
            × ((o : ℕ) → o < pgsize → i.mem (x + o) ≡ k.mem (page_at k (walk k d va) + o))
            × (i.refs (frame (page_at k (walk k d va))) + 1
                ≡ k.refs (frame (page_at k (walk k d va))))
            × (i.refs (frame x) ≡ 1))
          (cow_write (walk k d va) k)
  cow_write-shared la = rw (cow_write-replaced k (walk k d va) x xs off s.kmem pv shared) (
      returns (
        refl,
        j-IsSpace,
        (writable (pte_flags (k.mem (walk k d va))), writable-IsWritable _, λ vb. j-entry vb la),
        j-mem,
        j-refs.0,
        j-refs.1,
      ))
