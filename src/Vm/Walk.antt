-- ===== src/Vm/Walk.antt =====
-- vm.c: `walkpgdir` that may allocate.
use xv6_memory_management_im.Common.{
  ℕ, ◌+◌, ◌*◌, ◌≡◌, refl, sym, ◌∙◌, true, false, List, [], ◌∷◌, arith, ◌==◌, ==_iff, inl, inr,
  Bool-cases,
}
use xv6_memory_management_im.Kernel.{Returns, returns}
use xv6_memory_management_im.Kalloc.{Kmem}
use xv6_memory_management_im.Kalloc.Alloc.{kalloc_lem, kalloc-nil, take_free-cons, taken}
use xv6_memory_management_im.Vm.Pte.{pdx, ptx}
use xv6_memory_management_im.Vm.{walk, walkpgdir}
use xv6_memory_management_im.Vm.Table.{
  present, table, entry, pdx-lt, walk_of_present, walk_of_absent,
}
use xv6_memory_management_im.Vm.Beside.{IsBeside, same-IsBeside, grown-IsBeside}
use xv6_memory_management_im.Vm.Map.{present-tabled, table-tabled, entry-tabled}
use xv6_memory_management_im.Vm.Space.{IsSpace, grown, grown-IsSpace, other, got-IsPgdir}

module _ (k : Kmem) (d va x : ℕ) (xs : List ℕ) (off : ℕ) (s : IsSpace k d (x ∷ xs) off)
    (absent : present k d (pdx va) ≡ false) where
  entry-grown : (vb : ℕ) → entry (grown k d va x xs off s absent) d vb ≡ entry k d vb
  unfolding entry walk
  entry-grown vb =
      entry-tabled (taken k x xs off s.kmem) d va x (got-IsPgdir k d x xs off s) absent
        s.kmem.free.1 (other k d x xs off s) vb

  walk-grown : walk (grown k d va x xs off s absent) d va ≡ x + 4 * ptx va
  walk-grown =
      let c = pdx-lt va in
      let g = got-IsPgdir k d x xs off s in
      let o = other k d x xs off s in
      let t = taken k x xs off s.kmem in
      let e1 = present-tabled t d va x g absent s.kmem.free.1 o (pdx va) c in
      let e2 = table-tabled t d va x g absent s.kmem.free.1 o (pdx va) c in
      let same : (pdx va == pdx va) ≡ true = (==_iff _ _).1 refl in
      let p : present (grown k d va x xs off s absent) d (pdx va) ≡ true = e1 ∙ (rw same) in
      let q : table (grown k d va x xs off s absent) d (pdx va) ≡ x = e2 ∙ (rw same) in
      rw (walk_of_present (grown k d va x xs off s absent) d va p, q)

-- What `walkpgdir` with allocation leaves: no entry is changed, and it gives the place of the
-- entry, or 0 when a table is missing and no page is free; other pages in use are left alone.
unfoldable pub IsWalked : Kmem → ℕ → ℕ → List ℕ → ℕ → ℕ → Kmem → Type 0
IsWalked k d va xs off pte j =
    (ys : List ℕ) × IsSpace j d ys off
    × ((vb : ℕ) → entry j d vb ≡ entry k d vb)
    × (pte ≡ walk j d va)
    × (pte ≡ 0 → ys ≡ [])
    × IsBeside k j d xs ys

walkpgdir-absent :
    (k : Kmem) (d va : ℕ) (xs : List ℕ) (off : ℕ)
    → IsSpace k d xs off
    → present k d (pdx va) ≡ false
    → Returns (λ (pte, j). IsWalked k d va xs off pte j) (walkpgdir d va true k)
unfolding walkpgdir IsWalked
walkpgdir-absent k d va [] off s a =
    rw (a, kalloc-nil k off s.kmem)
      (returns ([], s, λ vb. refl, sym (walk_of_absent k d va a), λ e. refl, same-IsBeside k d []))
walkpgdir-absent k d va (x ∷ xs) off s a =
    let b = s.dir.base in
    let f = s.kmem.free.1 in
    let z : (x == 0) ≡ false = ground arith in
    rw (a, kalloc_lem k s.kmem.unlocked, take_free-cons k x xs off s.kmem, z)
      (returns (
        xs,
        grown-IsSpace k d va x xs off s a,
        entry-grown k d va x xs off s a,
        sym (walk-grown k d va x xs off s a),
        λ e. absurd (omega arith),
        grown-IsBeside k d va x xs off s a,
      ))

pub walkpgdir_lem :
    (k : Kmem) (d va : ℕ) (xs : List ℕ) (off : ℕ)
    → IsSpace k d xs off
    → Returns (λ (pte, j). IsWalked k d va xs off pte j) (walkpgdir d va true k)
unfolding walkpgdir IsWalked
walkpgdir_lem k d va xs off s = elim (Bool-cases (present k d (pdx va))) [
  | inr a ↦ walkpgdir-absent k d va xs off s a
  | inl p ↦
      let (t, n) = s.dir.tables (pdx va) (pdx-lt va) p in
      let b = s.dir.base in
      let w = walk_of_present k d va p in
      rw p (returns (xs, s, λ vb. refl, sym w, λ e. absurd (omega arith), same-IsBeside k d xs))
]
