-- ===== src/Paging.antt =====
-- vm.c, proc.c and trap.c: what a process knows about its pages, and the list of its pages in RAM.
-- A `struct page_link *` into `pages_meta_data` is the index of the entry, `none` for null.
pub mod Links
pub mod Chain
pub mod Append
pub mod Select
mod Tests
pub mod SecondChance
pub mod Choice
pub mod Remove
pub mod Swap
pub mod Fork
pub mod Tick
pub mod Trade
pub mod Cleared
pub mod Queue
pub mod Age
pub mod Evict
mod EvictTests
use xv6_memory_management_im.Common.{
  ℕ, zero, suc, ◌+◌, ◌-◌, ◌*◌, ◌/◌, ◌%◌, Bool, true, false, not, ◌==◌, leb, ltb, if◌then◌else◌,
  update, ◌&&◌, ◌||◌, Option, none, some,
}
use xv6_memory_management_im.Common.Word.{add32, sub32, pgsize, word_mod}
use xv6_memory_management_im.Kernel.{Panic, Run, ok, panic, stuck, ◌>>=◌, ◌>>◌, panic_if}
use xv6_memory_management_im.Vm.Pte.{pte_addr}

abbrev pub max_psyc_pages : ℕ
max_psyc_pages = 16

abbrev pub max_total_pages : ℕ
max_total_pages = 32

-- `enum pagestate`
pub data PageState : Type 0 where
  not_used in_memory in_disk : PageState

-- `struct page_link` with the `struct page_meta_data` inside it.
pub record PageLink : Type 0 where
  pub page_id : ℕ
  pub state : PageState
  pub offset_in_file : ℕ
  pub shift_counter : ℕ
  pub index : ℕ
  pub next : Option ℕ
  pub prev : Option ℕ

-- The paging part of `struct proc`. `links i` is `pages_meta_data[i]`, `offsets i` is
-- `available_Offsets[i]`, and `swap i` is the page of the swap file at offset `i * PGSIZE`.
pub record Proc : Type 0 where
  pub pgdir : ℕ
  pub pid : ℕ
  pub killed : Bool
  pub has_swap_file : Bool
  pub links : ℕ → PageLink
  pub head : Option ℕ
  pub num_pages_ram : ℕ
  pub num_pages_disk : ℕ
  pub offsets : ℕ → ℕ
  pub num_of_page_faults : ℕ
  pub num_of_page_outs : ℕ

-- The page replacement scheme that the kernel is compiled with.
pub data Selection : Type 0 where
  nfua lapa scfifo aq none_selected lifo : Selection

-- `l->next = v` and `l->prev = v`
unfoldable pub set_next : ℕ → Option ℕ → Proc → Proc
set_next i v p = record p { links = update p.links i (record (p.links i) { next = v }) }

unfoldable pub set_prev : ℕ → Option ℕ → Proc → Proc
set_prev i v p = record p { links = update p.links i (record (p.links i) { prev = v }) }

-- `if(q != 0) q->prev = v;`
unfoldable pub set_prev_of : Option ℕ → Option ℕ → Proc → Proc
unfolding set_prev
set_prev_of none v p = p
set_prev_of (some i) v p = set_prev i v p

-- The entry leaves the list: its neighbours, or the head, are joined.
unfoldable pub unlink : ℕ → Option ℕ → Proc → Proc
unlink i none p = set_prev_of (p.links i).next none (record p { head = (p.links i).next })
unlink i (some q) p =
    let p1 = set_next q (p.links i).next p in set_prev_of (p1.links q).next (some q) p1

unfoldable pub remove_page_from_list : ℕ → Proc → Proc
unfolding unlink
remove_page_from_list i p = set_next i none (set_prev i none (unlink i (p.links i).prev p))

-- The walk to the last entry, from `l` on.
unfoldable pub last_link : ℕ → (ℕ → PageLink) → ℕ → Run ℕ
last_link zero links l = stuck
last_link (suc n) links l = elim ((links l).next) [ none ↦ ok l | some m ↦ last_link n links m ]

-- `if(myproc()->page_list_head_ram == 0)`: the entry becomes the head.
unfoldable pub start_list : ℕ → Option ℕ → Proc → ℕ × Proc
start_list i none p = (i, set_prev i none (set_next i none (record p { head = some i })))
start_list i (some h) p = (h, p)

-- One round of the walk for each entry of the array and one more.
unfoldable pub add_page_to_list : ℕ → Proc → Run Proc
unfolding start_list last_link
add_page_to_list i p = do
  let (h, p1) = start_list i p.head p
  l ← last_link (suc max_total_pages) p1.links h
  ok (set_next i none (set_prev i (some l) (set_next l (some i) p1)))

-- The search of the loops over `pages_meta_data` for the first entry that passes a test: an index
-- below 32, or `none` when the loop runs off the end.
unfoldable pub find_link : ℕ → ℕ → (PageLink → Bool) → (ℕ → PageLink) → Option ℕ
find_link zero i test links = none
find_link (suc n) i test links =
    let rest = find_link n (i + 1) test links in if test (links i) then some i else rest

abbrev pub is_not_used : PageState → Bool
is_not_used PageState.not_used = true
is_not_used _ = false

abbrev pub is_in_disk : PageState → Bool
is_in_disk PageState.in_disk = true
is_in_disk _ = false

-- `nextAvOffset`: the first of the 17 flags that is 0; `none` for -1.
unfoldable pub free_offset : ℕ → ℕ → (ℕ → ℕ) → Option ℕ
free_offset zero i offsets = none
free_offset (suc n) i offsets =
    let rest = free_offset n (i + 1) offsets in if offsets i == 0 then some i else rest

unfoldable pub next_av_offset : Proc → Option ℕ
unfolding free_offset
next_av_offset p = free_offset 17 0 p.offsets

-- `numOfOnes`
unfoldable pub ones_loop : ℕ → ℕ → ℕ → ℕ
ones_loop zero x counter = counter
ones_loop (suc n) x counter = ones_loop n (x / 2) (if x % 2 == 1 then counter + 1 else counter)

unfoldable pub num_of_ones : ℕ → ℕ
unfolding ones_loop
num_of_ones x = ones_loop 32 x 0

-- What `addPageToRam` makes of the entry `i` for the page of `addr`.
abbrev pub fresh_link : Selection → ℕ → ℕ → PageLink → PageLink
fresh_link sel addr i l = record l {
  next = none;
  page_id = pte_addr addr;
  index = i;
  state = PageState.in_memory;
  offset_in_file = 0xFFFF_FFFF;
  shift_counter = elim sel [ Selection.lapa ↦ 0xFFFF_FFFF | _ ↦ 0 ];
}

-- The entry of `pages_meta_data` for a page: the one that has it, or else the first unused one.
unfoldable pub entry_for : ℕ → Proc → Option ℕ
unfolding find_link
entry_for addr p = elim (find_link max_total_pages 0 (λ l. l.page_id == pte_addr addr) p.links) [
  | some i ↦ some i
  | none ↦ find_link max_total_pages 0 (λ l. is_not_used l.state) p.links
]

-- The link of the list's end `l` to the new entry; without one the kernel writes outside the array.
unfoldable pub link_new : ℕ → Option ℕ → Proc → Run (ℕ × Proc)
link_new l none p = panic Panic.out_of_bounds
link_new l (some i) p = ok (i, set_prev i (some l) (set_next l (some i) p))

-- On an empty list the new page takes entry 0, whose `prev` stays.
unfoldable pub place_new : ℕ → Option ℕ → Proc → Run (ℕ × Proc)
unfolding entry_for last_link link_new
place_new addr none p = ok (0, record p { head = some 0 })
place_new addr (some h) p = do
  l ← last_link (suc max_total_pages) p.links h
  link_new l (entry_for addr p) p

unfoldable pub add_page_to_ram : Selection → ℕ → Proc → Run Proc
unfolding place_new
add_page_to_ram sel addr p = do
  (i, p1) ← place_new addr p.head p
  ok (record p1 {
    links = update p1.links i (fresh_link sel addr i (p1.links i));
    num_pages_ram = add32 p1.num_pages_ram 1;
  })
