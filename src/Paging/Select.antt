-- ===== src/Paging/Select.antt =====
-- vm.c: the choice of the page that is written to the swap file.
use xv6_memory_management_im.Common.{
  ℕ, zero, suc, ◌*◌, Bool, true, false, not, ◌||◌, ◌&&◌, if◌then◌else◌, ◌==◌, ltb, leb, Option,
  none, some,
}
use xv6_memory_management_im.Common.Word.{test_bit}
use xv6_memory_management_im.Kernel.{Run, ok, panic, stuck, Panic, ◌>>=◌}
use xv6_memory_management_im.Kalloc.{Kmem}
use xv6_memory_management_im.Vm.Pte.{pte_u}
use xv6_memory_management_im.Vm.{walk, is_pte_a, pte_a_off}
use xv6_memory_management_im.Paging.{
  PageLink, Proc, Selection, nfua, lapa, scfifo, aq, none_selected, lifo, max_total_pages,
  last_link, add_page_to_list, remove_page_from_list, num_of_ones,
}

-- The allocator with its memory, the current process, and `global_pgdir` while
-- `global_pgdir_flag` is 1.
pub record Machine : Type 0 where
  pub kmem : Kmem
  pub proc : Proc
  pub global_pgdir : Option ℕ

-- `(global_pgdir_flag == 1) ? global_pgdir : myproc()->pgdir`
abbrev pub pgdir_in_use : Option ℕ → ℕ → ℕ
pgdir_in_use none d = d
pgdir_in_use (some g) d = g

-- `pte = walkpgdir(pgdir, va, 0); if(!(*pte & PTE_U))`, the entry read unchecked.
unfoldable pub is_user : Kmem → ℕ → ℕ → Run Bool
unfolding walk
is_user k d va =
    let pte = walk k d va in
    if pte == 0 then panic Panic.null_deref else ok (test_bit (k.mem pte) pte_u)

-- The loop of the NFUA case, with `tmp` and `page_link`.
unfoldable pub nfua_loop : ℕ → Kmem → ℕ → (ℕ → PageLink) → ℕ → ℕ → Run ℕ
unfolding is_user
nfua_loop zero k d f tmp best = stuck
nfua_loop (suc n) k d f tmp best = elim ((f tmp).next) [
  | none ↦ ok best
  | some t ↦ do
    user ← is_user k d (f t).page_id
    nfua_loop n k d f t (if user && ltb (f t).shift_counter (f best).shift_counter then t else best)
]

-- The test `page_id >= 0 || page_id <= 0x2000` of the LAPA case, on an unsigned number.
abbrev pub lapa_skips : ℕ → Bool
lapa_skips page_id = leb 0 page_id || leb page_id 0x2000

-- The candidate after entry `t`: fewer ones win, then the smaller counter.
unfoldable pub lapa_better : (ℕ → PageLink) → ℕ → ℕ → ℕ → Bool
unfolding num_of_ones
lapa_better f t best min =
    let ones = num_of_ones (f t).shift_counter in
    ltb ones min || (ones == min && ltb (f t).shift_counter (f best).shift_counter)

-- The loop of the LAPA case, with `tmp`, `page_link` and `min_number_of_ones`.
unfoldable pub lapa_loop : ℕ → Kmem → ℕ → (ℕ → PageLink) → ℕ → ℕ → ℕ → Run ℕ
unfolding is_user lapa_better num_of_ones
lapa_loop zero k d f tmp best min = stuck
lapa_loop (suc n) k d f tmp best min = elim ((f tmp).next) [
  | none ↦ ok best
  | some t ↦
      let skipped = lapa_loop n k d f t best min in
      let looked = (do
        user ← is_user k d (f t).page_id
        let better = user && lapa_better f t best min
        lapa_loop n k d f t (if better then t else best)
            (if better then num_of_ones (f t).shift_counter else min)) in
      if lapa_skips (f t).page_id then skipped else looked
]

-- `removePageFromList(l); addPageToList(l);`
unfoldable pub requeue : ℕ → Machine → Run Machine
requeue x m = do p ← add_page_to_list x (remove_page_from_list x m.proc); ok (record m { proc = p })

-- What the SCFIFO loop does with the first entry `x`: true when the entry is the choice.
unfoldable pub second_chance : ℕ → Machine → Run (Bool × Machine)
second_chance x m =
    let id = (m.proc.links x).page_id in
    let d = pgdir_in_use m.global_pgdir m.proc.pgdir in
    do
      user ← is_user m.kmem m.proc.pgdir id
      if not user then (do m1 ← requeue x m; ok (false, m1)) else do
        a ← is_pte_a d id m.kmem
        if ltb 0 a
            then (do
              k ← pte_a_off d id m.kmem
              m1 ← requeue x (record m { kmem = k })
              ok (false, m1))
            else ok (true, m)

-- `while(!found)`; it takes up the head again after each entry that is not the choice. A list
-- that has become empty is a null pointer.
unfoldable pub scfifo_loop : ℕ → ℕ → Machine → Run (ℕ × Machine)
scfifo_loop zero x m = stuck
scfifo_loop (suc n) x m = do
  (found, m1) ← second_chance x m
  elim found [
    | true ↦ ok (x, m1)
    | false ↦ elim m1.proc.head [ none ↦ panic Panic.null_deref | some y ↦ scfifo_loop n y m1 ]
  ]

-- Each page is looked at twice at most, if one of them is the user's.
abbrev pub scfifo_fuel : ℕ
scfifo_fuel = suc (2 * max_total_pages)

-- The `switch` of `choosePageToSwap`, for a list with head `x`.
unfoldable pub choose : Selection → ℕ → Machine → Run (ℕ × Machine)
unfolding last_link nfua_loop lapa_loop scfifo_loop num_of_ones
choose lifo x m = do y ← last_link (suc max_total_pages) m.proc.links x; ok (y, m)
choose nfua x m = do
  y ← nfua_loop (suc max_total_pages) m.kmem m.proc.pgdir m.proc.links x x
  ok (y, m)
choose lapa x m = do
  y ←
      lapa_loop (suc max_total_pages) m.kmem m.proc.pgdir m.proc.links x x
        (num_of_ones (m.proc.links x).shift_counter)
  ok (y, m)
choose scfifo x m = scfifo_loop scfifo_fuel x m
choose aq x m = ok (x, m)
choose none_selected x m = ok (x, m)

-- `if(!page_link) return 0;`
unfoldable pub choose_from : Selection → Option ℕ → Machine → Run (Option ℕ × Machine)
unfolding choose
choose_from s none m = ok (none, m)
choose_from s (some x) m = do (y, m1) ← choose s x m; ok (some y, m1)

unfoldable pub choose_page_to_swap : Selection → Machine → Run (Option ℕ × Machine)
unfolding choose_from
choose_page_to_swap s m = choose_from s m.proc.head m
