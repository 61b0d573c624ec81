-- ===== src/Paging/Tick.antt =====
-- trap.c and vm.c: what a clock tick does to the pages in RAM, ageing their counters or letting a
-- used page change places with the unused one behind it.
use xv6_memory_management_im.Common.{
  ℕ, zero, suc, ◌+◌, ◌/◌, Bool, not, if◌then◌else◌, ◌==◌, update, Option, none, some,
}
use xv6_memory_management_im.Common.Word.{set_bit}
use xv6_memory_management_im.Kernel.{Run, ok, stuck, ◌>>=◌}
use xv6_memory_management_im.Vm.{is_pte_a, pte_a_off}
use xv6_memory_management_im.Paging.{
  Proc, Selection, nfua, lapa, aq, max_total_pages, set_next, set_prev, set_prev_of,
}
use xv6_memory_management_im.Paging.Select.{Machine}

-- `shiftCounter >>= 1`, and `|= 0x80000000` for a page that has been used.
unfoldable pub aged : Bool → ℕ → ℕ
aged used c = if used then set_bit (c / 2) 0x8000_0000 else c / 2

-- A page of the loop of `update_meta_data`.
unfoldable pub age_page : ℕ → Machine → Run Machine
age_page t m =
    let p = m.proc in
    let l = p.links t in
    do
      a ← is_pte_a p.pgdir l.page_id m.kmem
      let used = not (a == 0)
      let p1 = record p {
        links = update p.links t (record l { shift_counter = aged used l.shift_counter });
      }
      k ← (if used then pte_a_off p.pgdir l.page_id m.kmem else ok m.kmem)
      ok (record m { kmem = k; proc = p1 })

unfoldable pub age_loop : ℕ → Option ℕ → Machine → Run Machine
age_loop n none m = ok m
age_loop zero (some t) m = stuck
age_loop (suc n) (some t) m = do m1 ← age_page t m; age_loop n (m1.proc.links t).next m1

-- `if(q != 0) q->next = v;`
unfoldable pub set_next_of : Option ℕ → Option ℕ → Proc → Proc
set_next_of none v p = p
set_next_of (some q) v p = set_next q v p

-- `if(page_link->prev == 0) page_list_head_ram = nextLink;`
unfoldable pub head_at : Option ℕ → ℕ → Proc → Proc
head_at none n p = record p { head = some n }
head_at (some q) n p = p

-- The entry `x` changes places with the entry `n` behind it.
unfoldable pub swap_next : ℕ → ℕ → Proc → Proc
swap_next x n p =
    let tmp = (p.links x).prev in
    let tmp2 = (p.links n).next in
    let p0 = head_at tmp n p in
    let p1 = set_prev x (some n) p0 in
    let p2 = set_next x (p1.links n).next p1 in
    let p3 = set_next n (some x) (set_prev n tmp p2) in
    set_prev_of tmp2 (some x) (set_next_of tmp (some n) p3)

-- A round of `switchQueueAQ` at `x`, with `n` behind it: what the next round is at.
unfoldable pub queue_round : ℕ → ℕ → ℕ → Machine → Run (ℕ × Machine)
queue_round d x n m = do
  a ← is_pte_a d (m.proc.links x).page_id m.kmem
  if a == 0 then ok (n, m) else do
    k ← pte_a_off d (m.proc.links x).page_id m.kmem
    b ← is_pte_a d (m.proc.links n).page_id k
    ok (x, record m { kmem = k; proc = if b == 0 then swap_next x n m.proc else m.proc })

-- The loop from `x` on, whose next entry is the third argument, and the page it ends at.
unfoldable pub queue_loop : ℕ → ℕ → ℕ → Option ℕ → Machine → Run Machine
queue_loop fuel d x none m = do
  k ← pte_a_off d (m.proc.links x).page_id m.kmem
  ok (record m { kmem = k })
queue_loop zero d x (some n) m = stuck
queue_loop (suc fuel) d x (some n) m = do
  (y, m1) ← queue_round d x n m
  queue_loop fuel d y (m1.proc.links y).next m1

-- Two rounds for each entry, and one.
abbrev pub queue_fuel : ℕ
queue_fuel = 65

unfoldable pub queue_from : ℕ → Option ℕ → Machine → Run Machine
queue_from d none m = ok m
queue_from d (some x) m = queue_loop queue_fuel d x (m.proc.links x).next m

unfoldable pub switch_queue_aq : ℕ → Machine → Run Machine
switch_queue_aq d m = queue_from d m.proc.head m

unfoldable pub update_meta_data : Selection → Machine → Run Machine
update_meta_data nfua m = age_loop (max_total_pages + 1) m.proc.head m
update_meta_data lapa m = age_loop (max_total_pages + 1) m.proc.head m
update_meta_data aq m = switch_queue_aq m.proc.pgdir m
update_meta_data _ m = ok m
