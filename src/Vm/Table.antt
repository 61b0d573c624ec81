-- ===== src/Vm/Table.antt =====
-- Page tables that share no page: a write to one entry is seen at its own addresses only.
use xv6_memory_management_im.Common.{
  ℕ, ◌+◌, ◌*◌, ◌/◌, ◌<◌, ◌≡◌, ◌≢◌, Bool, true, false, arith, if◌then◌else◌, ◌==◌, ==-false_of_ne,
  ==_iff, inl, inr, Bool-cases,
}
use xv6_memory_management_im.Common.Word.{pgsize, word_mod, test_bit}
use xv6_memory_management_im.Kernel.Layout.{kernbase, p2v}
use xv6_memory_management_im.Kalloc.{Kmem}
use xv6_memory_management_im.Kalloc.Invariant.{IsPage}
use xv6_memory_management_im.Vm.Pte.{pte_p, pte_addr, pdx, ptx}
use xv6_memory_management_im.Vm.{walk, store}

-- The entry `i` of a directory names a table, and where that table is.
abbrev pub present : Kmem → ℕ → ℕ → Bool
present k d i = test_bit (k.mem (d + 4 * i)) pte_p

abbrev pub table : Kmem → ℕ → ℕ → ℕ
table k d i = p2v (pte_addr (k.mem (d + 4 * i)))

-- The directory and its tables are different pages of memory.
pub record IsPgdir (k : Kmem) (d : ℕ) : Type 0 where
  pub dir : IsPage k d
  pub base : kernbase < k.kernel_end
  pub tables :
      (i : ℕ) → i < 1024 → present k d i ≡ true → IsPage k (table k d i) × (table k d i ≢ d)
  pub apart :
      (i j : ℕ)
      → i < 1024
      → j < 1024
      → present k d i ≡ true
      → present k d j ≡ true
      → table k d i ≡ table k d j
      → i ≡ j

-- The page of a linear address.
abbrev pub page_of : ℕ → ℕ
page_of va = va / pgsize

pub pdx-lt : (va : ℕ) → pdx va < 1024
pdx-lt va = omega arith

pub same_page :
    (va vb : ℕ)
    → va < word_mod
    → vb < word_mod
    → pdx va ≡ pdx vb
    → ptx va ≡ ptx vb
    → page_of va ≡ page_of vb
same_page va vb p q e f = omega arith

pub walk-present :
    (k : Kmem) (d va : ℕ)
    → walk k d va ≢ 0
    → (present k d (pdx va) ≡ true) × (walk k d va ≡ table k d (pdx va) + 4 * ptx va)
unfolding walk
walk-present k d va h = ground arith

pub walk_of_present :
    (k : Kmem) (d va : ℕ)
    → present k d (pdx va) ≡ true
    → walk k d va ≡ table k d (pdx va) + 4 * ptx va
unfolding walk
walk_of_present k d va h = rw h

pub walk_of_absent : (k : Kmem) (d va : ℕ) → present k d (pdx va) ≡ false → walk k d va ≡ 0
unfolding walk
walk_of_absent k d va h = rw h

-- The value of the entry for an address; 0 where there is no table.
unfoldable pub entry : Kmem → ℕ → ℕ → ℕ
entry k d va = if walk k d va == 0 then 0 else k.mem (walk k d va)

pub entry_of_present :
    (k : Kmem) (d vb : ℕ)
    → IsPgdir k d
    → present k d (pdx vb) ≡ true
    → entry k d vb ≡ k.mem (table k d (pdx vb) + 4 * ptx vb)
unfolding entry
entry_of_present k d vb s h =
    let (t, n) = s.tables (pdx vb) (pdx-lt vb) h in
    let b = s.base in
    let z : (table k d (pdx vb) + 4 * ptx vb == 0) ≡ false =
      ==-false_of_ne _ _ (λ z. omega arith) in
    rw (walk_of_present k d vb h, z)

pub entry_of_absent : (k : Kmem) (d vb : ℕ) → present k d (pdx vb) ≡ false → entry k d vb ≡ 0
unfolding entry
entry_of_absent k d vb h = rw (walk_of_absent k d vb h)

-- Addresses of one page have one entry.
pub walk_page : (k : Kmem) (d va vb : ℕ) → page_of va ≡ page_of vb → walk k d va ≡ walk k d vb
unfolding walk
walk_page k d va vb e =
    let p : pdx va ≡ pdx vb = omega arith in let t : ptx va ≡ ptx vb = omega arith in rw (p, t)

module _ (k : Kmem) (d va w : ℕ) (s : IsPgdir k d) (h : walk k d va ≢ 0) where
  abbrev pub stored : Kmem
  stored = store (walk k d va) w k

  -- The directory is not written.
  pub mem-dir : (i : ℕ) → i < 1024 → stored.mem (d + 4 * i) ≡ k.mem (d + 4 * i)
  mem-dir i l =
      let (p, e) = walk-present k d va h in
      let (q, ne) = s.tables (pdx va) (pdx-lt va) p in
      let b = s.base in
      let dd = s.dir in
      let z : (d + 4 * i == walk k d va) ≡ false = ==-false_of_ne _ _ (λ z. ne (omega arith)) in
      rw z

  pub walk-stored : (vb : ℕ) → walk stored d vb ≡ walk k d vb
  unfolding walk
  walk-stored vb = rw (mem-dir (pdx vb) (pdx-lt vb))

  pub stored-IsPgdir : IsPgdir stored d
  stored-IsPgdir = record {
    dir = s.dir;
    base = s.base;
    tables = λ i l. rw (mem-dir i l) (s.tables i l);
    apart = λ i j l m. rw (mem-dir i l, mem-dir j m) (s.apart i j l m);
  }

  -- Entries of different pages are different words.
  pub walk-ne :
      (vb : ℕ)
      → va < word_mod
      → vb < word_mod
      → walk k d vb ≢ 0
      → page_of va ≢ page_of vb
      → walk k d vb ≢ walk k d va
  walk-ne vb la lb hb ne e =
      let (p, ea) = walk-present k d va h in
      let (q, eb) = walk-present k d vb hb in
      let (ta, na) = s.tables (pdx va) (pdx-lt va) p in
      let (tb, nb) = s.tables (pdx vb) (pdx-lt vb) q in
      let b = s.base in
      let t : table k d (pdx va) ≡ table k d (pdx vb) = omega arith in
      ne (
        same_page va vb la lb (s.apart (pdx va) (pdx vb) (pdx-lt va) (pdx-lt vb) p q t)
          (omega arith))

  -- A write to the entry of one page changes that entry and no other.
  pub entry-stored :
      (vb : ℕ)
      → va < word_mod
      → vb < word_mod
      → entry stored d vb ≡ (if page_of va == page_of vb then w else entry k d vb)
  unfolding entry
  entry-stored vb la lb = rw (walk-stored vb) (elim (Bool-cases (page_of va == page_of vb)) [
    | inl e ↦ let x = walk_page k d va vb ((==_iff _ _).0 e) in rw (e, ← x) (ground arith)
    | inr e ↦ rw e (
        let ne : page_of va ≢ page_of vb = ground arith in
        elim (Bool-cases (walk k d vb == 0)) [
          | inl z ↦ rw z
          | inr z ↦
              let hb : walk k d vb ≢ 0 = ground arith in
              let x = ==-false_of_ne _ _ (walk-ne vb la lb hb ne) in rw (z, x)
        ])
  ])
