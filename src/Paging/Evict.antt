-- ===== src/Paging/Evict.antt =====
-- vm.c: `moveToDisk` writes a page to the swap file and frees it.
use xv6_memory_management_im.Common.{
  ◌*◌, sym, zero, suc, ◌≤◌, ap, update, ◌++◌, Bool-cases, inl, inr, ℕ, ◌+◌, ◌<◌, ◌≡◌, ◌≢◌, refl,
  ◌∙◌, true, false, List, ◌∷◌, arith, if◌then◌else◌, ◌==◌, ==-false_of_ne, ==_iff, none, some,
}
use xv6_memory_management_im.Common.Word.{
  add32, sub32, pgsize, word_mod, test_bit, set_bit, clear_bit,
}
use xv6_memory_management_im.Kernel.Layout.{p2v, frame}
use xv6_memory_management_im.Kernel.{ok, Returns, returns, bind}
use xv6_memory_management_im.Kalloc.{Kmem, kfree}
use xv6_memory_management_im.Kalloc.Invariant.{IsPage}
use xv6_memory_management_im.Vm.Pte.{pte_p, pte_pg, pte_addr}
use xv6_memory_management_im.Vm.{walk, store, set_flags_on_swap}
use xv6_memory_management_im.Vm.Table.{page_of, entry, entry-stored, mem-dir}
use xv6_memory_management_im.Vm.Map.{IsOther}
use xv6_memory_management_im.Vm.Space.{IsSpace, stored-IsSpace}
use xv6_memory_management_im.Vm.Free.{freed, freed-IsSpace, entry-freed, kfree-freed}
use xv6_memory_management_im.Paging.{
  PageState, Proc, next_av_offset, free_offset, remove_page_from_list,
}
use xv6_memory_management_im.Paging.Chain.{IsRam, Chain-frame}
use xv6_memory_management_im.Paging.Links.{body, body-remove}
use xv6_memory_management_im.Paging.Remove.{remove_page_from_list-IsRam}
use xv6_memory_management_im.Paging.Swap.{
  SwapFile, World, user_words, note_out, move_page_at, move_page_to_file, give_up, move_to_disk,
}

-- The word of an entry whose page is in the swap file.
unfoldable pub swapped_out : ℕ → ℕ
swapped_out e = set_bit (clear_bit e pte_p) pte_pg

-- It keeps the address.
swapped_out-addr : (e : ℕ) → pte_addr (swapped_out e) ≡ pte_addr e
unfolding swapped_out
swapped_out-addr e = ground arith

abbrev pub world : {S : Type 0} → Kmem → Proc → S → World S
world k p f = record { machine = record { kmem = k; proc = p; global_pgdir = none }; file = f }

-- The process once `moveToDisk` has counted the page and taken it off the list.
off_list : ℕ → Proc → Proc
off_list x p =
    let q = remove_page_from_list x (record p { num_of_page_outs = add32 p.num_of_page_outs 1 }) in
    record q { num_pages_ram = sub32 q.num_pages_ram 1 }

-- The process `q` is `p` once the page of the entry `x`, between `pre` and `ys` on the list of pages in
-- RAM, is in the slot `o` of the swap file.
pub record IsMovedOut (p q : Proc) (x o : ℕ) (pre ys : List ℕ) : Type 0 where
  pub list : IsRam q (pre ++ ys)
  pub rest :
      body q
      ≡ body (record p {
        links =
            update p.links x
              (record (p.links x) { offset_in_file = pgsize * o; state = PageState.in_disk });
        offsets = update p.offsets o 1;
        num_pages_disk = add32 p.num_pages_disk 1;
        num_pages_ram = sub32 p.num_pages_ram 1;
        num_of_page_outs = add32 p.num_of_page_outs 1;
      })

off_list-IsMovedOut :
    (p : Proc) (x o : ℕ) (pre ys : List ℕ)
    → IsRam p (pre ++ (x ∷ ys))
    → IsMovedOut p (off_list x (note_out x o p)) x o pre ys
unfolding note_out off_list
off_list-IsMovedOut p x o pre ys h =
    let n = note_out x o p in
    let c : Proc = record n { num_of_page_outs = add32 n.num_of_page_outs 1 } in
    let same : (a : ℕ)
        → ((c.links a).next ≡ (p.links a).next) × ((c.links a).prev ≡ (p.links a).prev) =
      λ a. (elim (Bool-cases (a == x)) [
        | inl e ↦
            let q = sym ((==_iff a x).0 e) in
            rw e (ap (λ t. (p.links t).next) q, ap (λ t. (p.links t).prev) q)
        | inr e ↦ rw e (refl, refl)
      ]) in
    let i : IsRam c (pre ++ (x ∷ ys)) =
      Chain-frame p.links c.links none p.head (pre ++ (x ∷ ys)) (λ a j. same a) h in
    record {
      list = remove_page_from_list-IsRam c pre x ys i;
      rest =
          ap (λ (t : Proc). record t { num_pages_ram = sub32 t.num_pages_ram 1 }) (body-remove x c);
    }

-- The search takes the first slot that is free.
free_offset-first :
    (n i o : ℕ) (offsets : ℕ → ℕ)
    → i ≤ o
    → o < i + n
    → offsets o ≡ 0
    → ((a : ℕ) → i ≤ a → a < o → offsets a ≢ 0)
    → free_offset n i offsets ≡ some o
unfolding free_offset
free_offset-first zero i o offsets l g z f = absurd (omega arith)
free_offset-first (suc n) i o offsets l g z f = elim (Bool-cases (i == o)) [
  | inl e ↦ let q = (==_iff i o).0 e in rw (q, z) refl
  | inr e ↦
      let ne : (offsets i == 0) ≡ false = ==-false_of_ne _ _ (f i (omega arith) (ground arith)) in
      rw ne (
        free_offset-first n (i + 1) o offsets (ground arith) (omega arith) z
          (λ a u v. f a (omega arith) v))
]

next_av_offset-first :
    (p : Proc) (o : ℕ)
    → o < 17
    → p.offsets o ≡ 0
    → ((a : ℕ) → a < o → p.offsets a ≢ 0)
    → next_av_offset p ≡ some o
unfolding next_av_offset
next_av_offset-first p o l z f =
    free_offset-first 17 0 o p.offsets (omega arith) (omega arith) z (λ a u v. f a v)

set_flags_on_swap-out :
    (k : Kmem) (d va : ℕ)
    → walk k d va ≢ 0
    → set_flags_on_swap d va false k
      ≡ ok (store (walk k d va) (swapped_out (k.mem (walk k d va))) k)
unfolding set_flags_on_swap swapped_out
set_flags_on_swap-out k d va h = let z = ==-false_of_ne _ _ h in rw z

module _ (k : Kmem) (d va : ℕ) (xs : List ℕ) (off : ℕ) (s : IsSpace k d xs off)
    (h : walk k d va ≢ 0) (pv : IsPage k (p2v (pte_addr (k.mem (walk k d va)))))
    (other : IsOther k d (p2v (pte_addr (k.mem (walk k d va)))))
    (one : k.refs (frame (p2v (pte_addr (k.mem (walk k d va))))) ≡ 1) where
  -- The page that leaves.
  abbrev pub out_page : ℕ
  out_page = p2v (pte_addr (k.mem (walk k d va)))

  abbrev flagged : Kmem
  flagged = store (walk k d va) (swapped_out (k.mem (walk k d va))) k

  flagged-IsSpace : IsSpace flagged d xs off
  flagged-IsSpace = stored-IsSpace k d va (swapped_out (k.mem (walk k d va))) xs off s h

  flagged-IsOther : IsOther flagged d out_page
  flagged-IsOther = (
    other.0,
    λ i l. rw (mem-dir k d va (swapped_out (k.mem (walk k d va))) s.dir h i l) (other.1 i l),
  )

  abbrev evicted : Kmem
  evicted = freed flagged d out_page xs off flagged-IsSpace pv flagged-IsOther one

  give_up-evicted :
      {S : Type 0} (io : SwapFile S) (p : Proc) (f : S) (x : ℕ)
      → p.pgdir ≡ d
      → (p.links x).page_id ≡ va
      → Returns
          (λ w. (w.file ≡ f) × (w.machine.kmem ≡ evicted) × (w.machine.proc ≡ off_list x p))
          (give_up io x (world k p f))
  unfolding give_up off_list
  give_up-evicted io p f x ed ev =
      let here : (walk k d va == walk k d va) ≡ true = (==_iff _ _).1 refl in
      let kf : kfree out_page flagged ≡ ok evicted =
        kfree-freed flagged d out_page xs off flagged-IsSpace pv flagged-IsOther one in
      let c : kfree (p2v (pte_addr (flagged.mem (walk k d va)))) flagged ≡ ok evicted =
        rw (here, swapped_out-addr (k.mem (walk k d va))) kf in
      rw (ed, ev, set_flags_on_swap-out k d va h, c) (returns (refl, refl, refl))

  evicted-IsSpace : IsSpace evicted d (out_page ∷ xs) off
  evicted-IsSpace = freed-IsSpace flagged d out_page xs off flagged-IsSpace pv flagged-IsOther one

  evicted-entry :
      (vb : ℕ)
      → va < word_mod
      → vb < word_mod
      → entry evicted d vb
        ≡ (if page_of va == page_of vb then swapped_out (k.mem (walk k d va)) else entry k d vb)
  evicted-entry vb la lb =
      entry-freed flagged d out_page xs off flagged-IsSpace pv flagged-IsOther one vb
      ∙ entry-stored k d va (swapped_out (k.mem (walk k d va))) s.dir h vb la lb

move_page_to_file-written :
    {S : Type 0} (io : SwapFile S) (k : Kmem) (p : Proc) (f f1 : S) (x o : ℕ)
    → walk k p.pgdir (p.links x).page_id ≢ 0
    → test_bit (k.mem (walk k p.pgdir (p.links x).page_id)) pte_p ≡ true
    → next_av_offset p ≡ some o
    → io.write o (λ i. k.mem (p2v (pte_addr (k.mem (walk k p.pgdir (p.links x).page_id))) + i)) f
      ≡ (true, f1)
    → move_page_to_file io x (world k p f) ≡ ok (true, world k (note_out x o p) f1)
unfolding move_page_to_file move_page_at user_words
move_page_to_file-written io k p f f1 x o h here e g =
    let z = ==-false_of_ne _ _ h in rw (z, here, e, z, here, g)

same_page_id : (x o : ℕ) (p : Proc) → ((note_out x o p).links x).page_id ≡ (p.links x).page_id
unfolding note_out
same_page_id x o p = let e : (x == x) ≡ true = (==_iff _ _).1 refl in rw e

-- `moveToDisk` of a page on the list of pages in RAM that is present, when one of the 17 slots of the
-- swap file is free and the write succeeds: the words of the page go to the first free slot, which is
-- noted with the page and taken, the page is off the list, its entry is marked as swapped out and no
-- other entry changes, and the page, which has one reference and is no page of the page table, is the
-- first of the free list. The page table is loaded and stays well formed beside the free list.
pub move_to_disk-IsSpace :
    {S : Type 0} (io : SwapFile S) (k : Kmem) (p : Proc) (f f1 : S) (x o : ℕ) (xs : List ℕ)
    (off : ℕ) (pre ys : List ℕ)
    → IsRam p (pre ++ (x ∷ ys))
    → IsSpace k p.pgdir xs off
    → (p.links x).page_id < word_mod
    → walk k p.pgdir (p.links x).page_id ≢ 0
    → test_bit (k.mem (walk k p.pgdir (p.links x).page_id)) pte_p ≡ true
    → let v = p2v (pte_addr (k.mem (walk k p.pgdir (p.links x).page_id))) in
      IsPage k v
      → IsOther k p.pgdir v
      → k.refs (frame v) ≡ 1
      → o < 17
      → p.offsets o ≡ 0
      → ((a : ℕ) → a < o → p.offsets a ≢ 0)
      → io.write o (λ i. k.mem (v + i)) f ≡ (true, f1)
      → Returns
          (λ (moved, w).
            (moved ≡ true)
            × (w.file ≡ f1)
            × IsMovedOut p w.machine.proc x o pre ys
            × IsSpace w.machine.kmem p.pgdir (v ∷ xs) off
            × ((vb : ℕ)
                → vb < word_mod
                → entry w.machine.kmem p.pgdir vb ≡ (
                    if page_of (p.links x).page_id == page_of vb
                    then swapped_out (k.mem (walk k p.pgdir (p.links x).page_id))
                    else entry k p.pgdir vb)))
          (move_to_disk io x (world k p f))
unfolding move_to_disk
move_to_disk-IsSpace io k p f f1 x o xs off pre ys ram s la h here pv other one lo zo fo g =
    let e = next_av_offset-first p o lo zo fo in
    rw (move_page_to_file-written io k p f f1 x o h here e g) (
      bind
        (give_up-evicted k p.pgdir (p.links x).page_id xs off s h pv other one io (note_out x o p)
          f1 x refl (same_page_id x o p))
        (λ w (wf, wk, wp). returns (
          refl,
          wf,
          rw wp (off_list-IsMovedOut p x o pre ys ram),
          rw wk (evicted-IsSpace k p.pgdir (p.links x).page_id xs off s h pv other one),
          λ vb lb.
              rw wk (evicted-entry k p.pgdir (p.links x).page_id xs off s h pv other one vb la lb),
        )))
