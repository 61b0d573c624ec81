-- ===== src/Uvm/Apart.antt =====
-- vm.c: one page mapped, and what that leaves of another page table.
use xv6_memory_management_im.Common.{
  ℕ, ◌+◌, ◌*◌, ◌/◌, ◌%◌, ◌≤◌, ◌<◌, ◌≡◌, ◌≢◌, refl, sym, ◌∙◌, Bool, true, false, ◌&&◌, List, [],
  arith, if◌then◌else◌, ◌==◌, ==_iff, has, update, inl, inr, Bool-cases,
}
use xv6_memory_management_im.Common.Word.{
  add32, sub32, pgsize, word_mod, pg_round_down, test_bit, set_bit,
}
use xv6_memory_management_im.Kernel.Layout.{frame}
use xv6_memory_management_im.Kernel.{ok, Panic, panic_if, Returns, returns, bind, ◌>>◌}
use Prim.Native.Nat.{bit_or}
use xv6_memory_management_im.Kalloc.{Kmem}
use xv6_memory_management_im.Kalloc.Invariant.{IsPage}
use xv6_memory_management_im.Kalloc.Alloc.{refs-IsKmem}
use xv6_memory_management_im.Vm.Pte.{pte_p, pdx, ptx}
use xv6_memory_management_im.Vm.{walk, store, mappages_loop, mappages}
use xv6_memory_management_im.Vm.Table.{
  present, table, page_of, entry, pdx-lt, entry-stored, stored, entry_of_present, entry_of_absent,
}
use xv6_memory_management_im.Vm.Map.{IsOther}
use xv6_memory_management_im.Vm.Space.{IsSpace, stored-IsSpace}
use xv6_memory_management_im.Vm.Walk.{IsWalked, walkpgdir_lem}
use xv6_memory_management_im.Vm.Mapped.{entry_at}
use xv6_memory_management_im.Vm.Beside.{IsBeside, trans-IsBeside, stored-IsBeside, still_page}

-- The entry of the page `va` holds `w`, if the run succeeds; no other entry is changed, and it fails
-- only when no page is free.
unfoldable pub IsPlaced : Kmem → ℕ → ℕ → ℕ → List ℕ → ℕ → Bool → Kmem → Type 0
IsPlaced k d va w xs off done j =
    (ys : List ℕ) × IsSpace j d ys off
    × ((vb : ℕ)
        → vb < word_mod
        → entry j d vb ≡ (if done && (page_of va == page_of vb) then w else entry k d vb))
    × (done ≡ false → ys ≡ [])
    × IsBeside k j d xs ys

module _ (k : Kmem) (d va pa perm : ℕ) (xs : List ℕ) (off : ℕ) (fit : va + pgsize ≤ word_mod)
    (new : test_bit (entry k d va) pte_p ≡ false) where
  abbrev w : ℕ
  w = set_bit (bit_or pa perm) pte_p

  -- The rest of the round when the place is found.
  place_at :
      (j : Kmem) (ys : List ℕ)
      → IsSpace j d ys off
      → ((vb : ℕ) → entry j d vb ≡ entry k d vb)
      → IsBeside k j d xs ys
      → walk j d va ≢ 0
      → Returns
          (λ (done, i). IsPlaced k d va w xs off done i)
          (panic_if (test_bit (j.mem (walk j d va)) pte_p) Panic.remap
            >> ok (true, store (walk j d va) w j))
  unfolding IsPlaced
  place_at j ys s same beside h =
      let e0 = same va in
      let e : j.mem (walk j d va) ≡ entry k d va = sym (entry_at j d va h) ∙ e0 in
      let la : va < word_mod = omega arith in
      rw (e, new)
        (returns (
          ys,
          stored-IsSpace j d va w ys off s h,
          λ vb lb. entry-stored j d va w s.dir h vb la lb ∙ (rw (same vb)),
          λ z. cc,
          trans-IsBeside k j (stored j d va w s.dir h) d xs ys ys beside
              (stored-IsBeside j d va w ys s.dir h),
        ))

  map_page_lem :
      IsSpace k d xs off
      → Returns (λ (done, j). IsPlaced k d va w xs off done j) (mappages_loop 1 d va va pa perm k)
  unfolding mappages_loop IsWalked IsPlaced
  map_page_lem s =
      bind (walkpgdir_lem k d va xs off s) (λ (pte, j) (ys, s1, same, at, empty, beside).
        let here : (va == va) ≡ true = (==_iff _ _).1 refl in
        rw (at, here)
          (elim (Bool-cases (walk j d va == 0)) [
            | inl z ↦
                rw z
                  (returns (ys, s1, λ vb lb. same vb, λ e. empty (at ∙ (==_iff _ _).0 z), beside))
            | inr z ↦ rw z (place_at j ys s1 same beside (ground arith))
          ]))

-- `mappages` of one page.
pub mappages-one :
    (k : Kmem) (d va pa perm : ℕ) (xs : List ℕ) (off : ℕ)
    → IsSpace k d xs off
    → va % pgsize ≡ 0
    → va + pgsize ≤ word_mod
    → test_bit (entry k d va) pte_p ≡ false
    → Returns
        (λ (done, j). IsPlaced k d va (set_bit (bit_or pa perm) pte_p) xs off done j)
        (mappages d va pgsize pa perm k)
unfolding mappages
mappages-one k d va pa perm xs off s al fit new =
    let ea : pg_round_down va ≡ va = omega arith in
    let el : pg_round_down (sub32 (add32 va pgsize) 1) ≡ va = omega arith in
    let en : sub32 va va / pgsize ≡ 0 = omega arith in
    rw (ea, el, en) (map_page_lem k d va pa perm xs off fit new s)

-- Two page tables that share no page.
pub record IsFork (k : Kmem) (p d : ℕ) (xs : List ℕ) (off : ℕ) : Type 0 where
  pub parent : IsSpace k p xs off
  pub child : IsSpace k d xs off
  pub dirs : IsOther k d p
  pub tables : (i : ℕ) → i < 1024 → present k p i ≡ true → IsOther k d (table k p i)

pub sym-IsFork :
    (k : Kmem) (p d : ℕ) (xs : List ℕ) (off : ℕ) → IsFork k p d xs off → IsFork k d p xs off
sym-IsFork k p d xs off f = record {
  parent = f.child;
  child = f.parent;
  dirs = (λ e. f.dirs.0 (sym e), λ i l q. (f.tables i l q).0);
  tables = λ i l q. (f.dirs.1 i l q, λ m n r e. (f.tables m n r).1 i l q (sym e));
}

-- A change of the child beside the parent.
module _ (k j : Kmem) (p d : ℕ) (xs ys : List ℕ) (off : ℕ) (f : IsFork k p d xs off)
    (s : IsSpace j d ys off) (b : IsBeside k j d xs ys) where
  dir_word : (i : ℕ) → i < 1024 → j.mem (p + 4 * i) ≡ k.mem (p + 4 * i)
  dir_word i l = b.word p (4 * i) f.parent.dir.dir f.parent.dir_used f.dirs (omega arith)

  table_word :
      (i o : ℕ)
      → i < 1024
      → present k p i ≡ true
      → o < pgsize
      → j.mem (table k p i + o) ≡ k.mem (table k p i + o)
  table_word i o l q m =
      b.word (table k p i) o (f.parent.dir.tables i l q).0 (f.parent.table_used i l q)
        (f.tables i l q) m

  pub beside-IsFork : IsFork j p d ys off
  beside-IsFork = record {
    parent = record {
      kmem = s.kmem;
      dir = record {
        dir = still_page k j p b.kernel_end f.parent.dir.dir;
        base = s.dir.base;
        tables = λ i l.
            rw (dir_word i l)
              (λ q. let (t, n) = f.parent.dir.tables i l q in (still_page k j _ b.kernel_end t, n));
        apart = λ i m l n. rw (dir_word i l, dir_word m n) (f.parent.dir.apart i m l n);
      };
      dir_used = b.used p f.parent.dir_used;
      table_used = λ i l. rw (dir_word i l) (λ q. b.used _ (f.parent.table_used i l q));
    };
    child = s;
    dirs = b.other p f.parent.dir.dir f.parent.dir_used f.dirs;
    tables = λ i l.
        rw (dir_word i l) (λ q.
          b.other _ (f.parent.dir.tables i l q).0 (f.parent.table_used i l q) (f.tables i l q));
  }

  pub entry-beside : (vb : ℕ) → entry j p vb ≡ entry k p vb
  entry-beside vb =
      let l = pdx-lt vb in
      let e : present j p (pdx vb) ≡ present k p (pdx vb) = rw (dir_word (pdx vb) l) in
      let t : table j p (pdx vb) ≡ table k p (pdx vb) = rw (dir_word (pdx vb) l) in
      elim (Bool-cases (present k p (pdx vb))) [
        | inl q ↦
            let w = table_word (pdx vb) (4 * ptx vb) l q (omega arith) in
            rw
              (
                entry_of_present k p vb f.parent.dir q,
                entry_of_present j p vb beside-IsFork.parent.dir (e ∙ q),
                t,
              )
              w
        | inr q ↦ rw (entry_of_absent k p vb q, entry_of_absent j p vb (e ∙ q))
      ]

-- The counter of a page in use is changed.
module _ (k : Kmem) (d v n : ℕ) (xs : List ℕ) (off : ℕ) (pv : IsPage k v)
    (used : has v xs ≡ false) where
  abbrev pub counted : Kmem
  counted = record k { refs = update k.refs (frame v) n }

  pub counted-IsSpace : IsSpace k d xs off → IsSpace counted d xs off
  counted-IsSpace s = record {
    kmem = refs-IsKmem v k xs off s.kmem pv n used;
    dir = record { dir = s.dir.dir; base = s.dir.base; tables = s.dir.tables; apart = s.dir.apart };
    dir_used = s.dir_used;
    table_used = s.table_used;
  }

  pub counted-IsFork :
      (p : ℕ) → IsFork k p d xs off → IsSpace counted p xs off → IsFork counted p d xs off
  counted-IsFork p f s = record {
    parent = s;
    child = counted-IsSpace f.child;
    dirs = f.dirs;
    tables = f.tables;
  }

  pub entry-counted : (p vb : ℕ) → entry counted p vb ≡ entry k p vb
  unfolding entry walk
  entry-counted p vb = refl
