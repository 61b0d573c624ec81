-- ===== src/Vm/Map.antt =====
-- vm.c: a new page table, entered in the directory by `walkpgdir`, changes no entry.
use xv6_memory_management_im.Common.{
  ℕ, ◌+◌, ◌*◌, ◌%◌, ◌<◌, ◌≡◌, ◌≢◌, sym, ◌∙◌, true, false, arith, if◌then◌else◌, ◌==◌,
  ==-false_of_ne, ==_iff, inl, inr, Bool-cases,
}
use xv6_memory_management_im.Common.Word.{pgsize, set_bit}
use xv6_memory_management_im.Kernel.Layout.{v2p, p2v}
use xv6_memory_management_im.Kalloc.{Kmem, fill_page}
use xv6_memory_management_im.Kalloc.Invariant.{IsPage}
use xv6_memory_management_im.Vm.Pte.{pte_p, pte_w, pte_u, pdx, ptx}
use xv6_memory_management_im.Vm.{add_table}
use xv6_memory_management_im.Vm.Table.{
  IsPgdir, present, table, entry, pdx-lt, entry_of_present, entry_of_absent,
}

-- A page that is neither the directory nor one of its tables.
abbrev pub IsOther : Kmem → ℕ → ℕ → Type 0
IsOther k d x = (x ≢ d) × ((i : ℕ) → i < 1024 → present k d i ≡ true → table k d i ≢ x)

module _ (k : Kmem) (d va x : ℕ) (s : IsPgdir k d) (absent : present k d (pdx va) ≡ false)
    (px : IsPage k x) (other : IsOther k d x) where
  abbrev pub tabled : Kmem
  tabled = add_table d va x k

  table_word : set_bit (set_bit (set_bit (v2p x) pte_p) pte_w) pte_u ≡ v2p x + 7
  table_word = let b = s.base in ground arith

  page_back : p2v (v2p x) ≡ x
  page_back = let b = s.base in omega arith

  page_aligned : v2p x % pgsize ≡ 0
  page_aligned = let b = s.base in omega arith

  -- The directory is another page than the new one.
  fill-dir : (o : ℕ) → o < pgsize → fill_page k.mem x 0 (d + o) ≡ k.mem (d + o)
  unfolding fill_page
  fill-dir o l = let dd = s.dir in let ne = other.0 in ground arith

  tabled-dir :
      (i : ℕ)
      → i < 1024
      → tabled.mem (d + 4 * i) ≡ (if i == pdx va then v2p x + 7 else k.mem (d + 4 * i))
  unfolding add_table
  tabled-dir i l = rw table_word (elim (Bool-cases (i == pdx va)) [
    | inl e ↦ let q = (==_iff _ _).0 e in rw q (ground arith)
    | inr e ↦
        let z : (d + 4 * i == d + 4 * pdx va) ≡ false = ground arith in
        rw (e, z) (fill-dir (4 * i) (omega arith))
  ])

  pub present-tabled :
      (i : ℕ) → i < 1024 → present tabled d i ≡ (if i == pdx va then true else present k d i)
  present-tabled i l = rw (tabled-dir i l) (
      let z = page_aligned in
      elim (Bool-cases (i == pdx va)) [ inl e ↦ rw e (ground arith) | inr e ↦ rw e ])

  pub table-tabled :
      (i : ℕ) → i < 1024 → table tabled d i ≡ (if i == pdx va then x else table k d i)
  table-tabled i l = rw (tabled-dir i l) (
      let z = page_aligned in
      let b = s.base in
      elim (Bool-cases (i == pdx va)) [ inl e ↦ rw e (omega arith) | inr e ↦ rw e ])

  pub tabled-IsPgdir : IsPgdir tabled d
  unfolding add_table
  tabled-IsPgdir = record {
    dir = s.dir;
    base = s.base;
    tables = λ i l.
        rw (present-tabled i l, table-tabled i l)
          (elim (Bool-cases (i == pdx va)) [
            | inl e ↦ rw e (λ z. (px, other.0))
            | inr e ↦ rw e (s.tables i l)
          ]);
    apart = λ i j l m.
        rw (present-tabled i l, table-tabled i l, present-tabled j m, table-tabled j m)
          (elim (Bool-cases (i == pdx va)) [
            | inl e ↦ elim (Bool-cases (j == pdx va)) [
              | inl f ↦ λ p q r. ground arith
              | inr f ↦ rw (e, f) (λ p q r. absurd (other.1 j m q (sym r)))
            ]
            | inr e ↦ elim (Bool-cases (j == pdx va)) [
              | inl f ↦ rw (e, f) (λ p q r. absurd (other.1 i l p r))
              | inr f ↦ rw (e, f) (s.apart i j l m)
            ]
          ]);
  }

  -- Words outside the new table and the directory stay, those of the new table are 0.
  pub tabled-mem :
      (t o : ℕ)
      → IsPage k t
      → t ≢ d
      → o < pgsize
      → tabled.mem (t + o) ≡ (if t == x then 0 else k.mem (t + o))
  unfolding add_table fill_page
  tabled-mem t o p n l =
      let dd = s.dir in
      let c = pdx-lt va in
      let z : (t + o == d + 4 * pdx va) ≡ false = ==-false_of_ne _ _ (λ z. n (omega arith)) in
      rw z (ground arith)

  -- The entries of the pages under the new table were 0 and are 0.
  pub entry-tabled : (vb : ℕ) → entry tabled d vb ≡ entry k d vb
  entry-tabled vb =
      let l = pdx-lt vb in
      let e1 = present-tabled (pdx vb) l in
      let e2 = table-tabled (pdx vb) l in
      elim (Bool-cases (pdx vb == pdx va)) [
        | inl e ↦
            let a : present k d (pdx vb) ≡ false = ground (arith, absent) in
            let p : present tabled d (pdx vb) ≡ true = e1 ∙ (rw e) in
            let t : table tabled d (pdx vb) ≡ x = e2 ∙ (rw e) in
            let m = tabled-mem x (4 * ptx vb) px other.0 (omega arith) in
            rw (entry_of_absent k d vb a, entry_of_present tabled d vb tabled-IsPgdir p, t, m)
              (ground arith)
        | inr e ↦ elim (Bool-cases (present k d (pdx vb))) [
          | inl q ↦
              let p : present tabled d (pdx vb) ≡ true = e1 ∙ (rw (e, q)) in
              let t : table tabled d (pdx vb) ≡ table k d (pdx vb) = e2 ∙ (rw e) in
              let (it, nt) = s.tables (pdx vb) l q in
              let z : (table k d (pdx vb) == x) ≡ false =
                ==-false_of_ne _ _ (other.1 (pdx vb) l q) in
              let m = tabled-mem (table k d (pdx vb)) (4 * ptx vb) it nt (omega arith) in
              rw (
                entry_of_present k d vb s q,
                entry_of_present tabled d vb tabled-IsPgdir p,
                t,
                m,
                z,
              )
          | inr q ↦
              let p : present tabled d (pdx vb) ≡ false = e1 ∙ (rw (e, q)) in
              rw (entry_of_absent k d vb q, entry_of_absent tabled d vb p)
        ]
      ]
