-- ===== src/Paging/Tests.antt =====
-- vm.c: the theorems about the page list and the replacement schemes at a process of three pages.
use xv6_memory_management_im.Common.{
  ◌==◌, Bool-cases, ℕ, ◌+◌, ◌*◌, ◌<◌, ◌≡◌, refl, sym, ◌∙◌, true, false, [], ◌∷◌, arith, has, update,
  Option, none, some, ◌⊎◌, inl, inr,
}
use xv6_memory_management_im.Common.Word.{word_mod}
use xv6_memory_management_im.Kernel.{ok, Returns}
use xv6_memory_management_im.Kalloc.{Kmem}
use xv6_memory_management_im.Vm.{walk}
use xv6_memory_management_im.Vm.Table.{IsPgdir, present, page_of}
use xv6_memory_management_im.Paging.{
  max_total_pages, PageLink, PageState, Proc, nfua, lapa, scfifo, add_page_to_list,
  remove_page_from_list,
}
use xv6_memory_management_im.Paging.Links.{body}
use xv6_memory_management_im.Paging.Chain.{IsRam}
use xv6_memory_management_im.Paging.Tick.{switch_queue_aq, update_meta_data}
use xv6_memory_management_im.Paging.Age.{IsAged, update_meta_data-IsAged}
use xv6_memory_management_im.Paging.Cleared.{trade, IsCleared}
use xv6_memory_management_im.Paging.Queue.{switch_queue_aq-trade}
use xv6_memory_management_im.Paging.Fork.{
  deep_copy_proc, init_meta_data, SamePage, deep_copy_proc-IsRam,
}
use xv6_memory_management_im.Paging.Remove.{remove_page_from_list-IsRam}
use xv6_memory_management_im.Paging.Append.{add_page_to_list-IsRam, add_page_to_list-empty}
use xv6_memory_management_im.Paging.Select.{Machine, is_user, choose_page_to_swap}
use xv6_memory_management_im.Paging.Choice.{choose-lapa, AllUser}
use xv6_memory_management_im.Paging.SecondChance.{IsReady, accessed, unmark_all, choose-scfifo}

abbrev dir : ℕ
dir = 0x8010_2000

abbrev tab : ℕ
tab = 0x8010_3000

-- One page table, with entries for the pages 3, 4 and 5: the first two have been used.
abbrev words : ℕ → ℕ
words =
    update
      (update (update (update (λ _. 0) dir 0x0010_3007) (tab + 12) 0x0020_0027) (tab + 16)
        0x0020_1027)
      (tab + 20) 0x0020_2007

abbrev kmem : Kmem
kmem = record {
  kernel_end = 0x8010_0800;
  mem = words;
  locked = false;
  use_lock = true;
  freelist = 0;
  refs = λ _. 1;
  free_pages = 0;
  total_pages = 5;
}

abbrev link : ℕ → ℕ → Option ℕ → Option ℕ → PageLink
link i n p q = record {
  page_id = (i + 3) * 0x1000;
  state = PageState.in_memory;
  offset_in_file = 0xffff_ffff;
  shift_counter = n;
  index = i;
  next = p;
  prev = q;
}

abbrev links : ℕ → PageLink
links =
    update
      (update (update (λ a. link a 0 none none) 0 (link 0 5 (some 1) none)) 1
        (link 1 2 (some 2) (some 0)))
      2 (link 2 7 none (some 1))

abbrev proc : Proc
proc = record {
  pgdir = dir;
  pid = 3;
  killed = false;
  has_swap_file = true;
  links = links;
  head = some 0;
  num_pages_ram = 3;
  num_pages_disk = 0;
  offsets = λ _. 0;
  num_of_page_faults = 0;
  num_of_page_outs = 0;
}

abbrev machine : Machine
machine = record { kmem = kmem; proc = proc; global_pgdir = none }

three-IsRam : IsRam proc (0 ∷ 1 ∷ 2 ∷ [])
three-IsRam = (
  refl,
  refl,
  omega arith,
  refl,
  (refl, refl, omega arith, refl, (refl, refl, omega arith, refl, refl)),
)

remove_page_from_list-IsRam_example : IsRam (remove_page_from_list 1 proc) (0 ∷ 2 ∷ [])
remove_page_from_list-IsRam_example =
    remove_page_from_list-IsRam proc (0 ∷ []) 1 (2 ∷ []) three-IsRam

add_page_to_list-IsRam_example :
    Returns (λ g. IsRam g (0 ∷ 1 ∷ 2 ∷ 7 ∷ [])) (add_page_to_list 7 proc)
add_page_to_list-IsRam_example =
    add_page_to_list-IsRam proc 0 (1 ∷ 2 ∷ []) 7 three-IsRam (omega arith) refl

abbrev no_pages : Proc
no_pages = record proc { head = none }

add_page_to_list-empty_example :
    Returns
      (λ g.
        (g.head ≡ some 4)
        × ((g.links 4).prev ≡ some 4)
        × (¬ IsRam g (4 ∷ []))
        × ((remove_page_from_list 4 g).head ≡ some 4))
      (add_page_to_list 4 no_pages)
add_page_to_list-empty_example = add_page_to_list-empty no_pages 4 refl

-- The head is given up although both other pages have fewer ones or a smaller counter.
choose-lapa_example : choose_page_to_swap lapa machine ≡ ok (some 0, machine)
choose-lapa_example = choose-lapa machine 0 (1 ∷ 2 ∷ []) three-IsRam

all_user : AllUser kmem dir links (1 ∷ 2 ∷ [])
unfolding is_user walk
all_user = (refl, (refl, tt))

three_cases : (a : ℕ) → has a (0 ∷ 1 ∷ 2 ∷ []) ≡ true → (a ≡ 0) ⊎ ((a ≡ 1) ⊎ (a ≡ 2))
three_cases a h = ground arith

abbrev ids : ℕ → ℕ
ids a = (links a).page_id

two_cases : (a : ℕ) → has a (0 ∷ 1 ∷ []) ≡ true → (a ≡ 0) ⊎ (a ≡ 1)
two_cases a h = ground arith

id_page : (a : ℕ) → has a (0 ∷ 1 ∷ 2 ∷ []) ≡ true → page_of (ids a) ≡ a + 3
id_page a h = elim (three_cases a h) [ inl e ↦ rw e | inr (inl e) ↦ rw e | inr (inr e) ↦ rw e ]

only_first : (i : ℕ) → i < 1024 → present kmem dir i ≡ true → i ≡ 0
only_first i l h = ground arith

dir-IsPgdir : IsPgdir kmem dir
dir-IsPgdir = record {
  dir = omega arith;
  base = omega arith;
  tables = λ i l h. rw (only_first i l h) (omega arith, omega arith);
  apart = λ i j l m h g e. only_first i l h ∙ sym (only_first j m g);
}

three-IsReady : IsReady dir ids kmem (0 ∷ 1 ∷ 2 ∷ [])
unfolding walk
three-IsReady = record {
  dirs = dir-IsPgdir;
  pages = λ a h. elim (three_cases a h) [
    | inl e ↦ rw e (omega arith, omega arith, refl)
    | inr (inl e) ↦ rw e (omega arith, omega arith, refl)
    | inr (inr e) ↦ rw e (omega arith, omega arith, refl)
  ];
  apart = λ a b h g n e. n (omega (arith, id_page a h, id_page b g, e));
}

used : (a : ℕ) → has a (0 ∷ 1 ∷ []) ≡ true → accessed dir ids kmem a ≡ true
unfolding walk
used a h = elim (two_cases a h) [ inl e ↦ rw e | inr e ↦ rw e ]

choose-scfifo_example :
    Returns
      (λ (o, j).
        (o ≡ some 2)
        × IsRam j.proc (2 ∷ 0 ∷ 1 ∷ [])
        × (j.kmem ≡ unmark_all dir ids kmem (0 ∷ 1 ∷ []))
        × (body j.proc ≡ body proc))
      (choose_page_to_swap scfifo machine)
unfolding walk
choose-scfifo_example =
    choose-scfifo machine (0 ∷ 1 ∷ []) 2 [] refl three-IsRam three-IsReady used refl

deep_copy_proc-IsRam_example :
    IsRam (deep_copy_proc proc (init_meta_data scfifo no_pages)) (0 ∷ 1 ∷ 2 ∷ [])
    × ((a : ℕ)
        → a < max_total_pages
        → SamePage ((deep_copy_proc proc (init_meta_data scfifo no_pages)).links a) (proc.links a))
deep_copy_proc-IsRam_example =
    deep_copy_proc-IsRam scfifo proc no_pages (0 ∷ 1 ∷ 2 ∷ []) three-IsRam (λ a i. ground arith)

switch_queue_aq-trade_example :
    Returns
      (λ j.
        IsRam j.proc (trade (accessed dir ids kmem) (0 ∷ 1 ∷ 2 ∷ []))
        × IsCleared dir ids kmem j.kmem (0 ∷ 1 ∷ 2 ∷ [])
        × (body j.proc ≡ body proc))
      (switch_queue_aq dir machine)
switch_queue_aq-trade_example =
    switch_queue_aq-trade machine (0 ∷ 1 ∷ 2 ∷ []) refl three-IsRam three-IsReady

-- The third page has not been used and passes the second.
traded_order : trade (accessed dir ids kmem) (0 ∷ 1 ∷ 2 ∷ []) ≡ 0 ∷ 2 ∷ 1 ∷ []
unfolding trade walk
traded_order = refl

small_counters : (a : ℕ) → (links a).shift_counter < word_mod
small_counters a = elim (Bool-cases (a == 2)) [
  | inl e ↦ rw e (omega arith)
  | inr e ↦ elim (Bool-cases (a == 1)) [
    | inl f ↦ rw (e, f) (omega arith)
    | inr f ↦ elim (Bool-cases (a == 0)) [
      | inl g ↦ rw (e, f, g) (omega arith)
      | inr g ↦ rw (e, f, g) (omega arith)
    ]
  ]
]

update_meta_data-IsAged_example :
    Returns (λ j. IsAged dir ids machine j (0 ∷ 1 ∷ 2 ∷ [])) (update_meta_data nfua machine)
update_meta_data-IsAged_example =
    update_meta_data-IsAged nfua machine (0 ∷ 1 ∷ 2 ∷ []) (inl refl) refl three-IsRam three-IsReady
      (λ a i. small_counters a)
