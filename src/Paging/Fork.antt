-- ===== src/Paging/Fork.antt =====
-- proc.c: what a process knows about its pages, cleared for a new process and copied by fork.
use xv6_memory_management_im.Common.{
  ℕ, zero, suc, ◌+◌, ◌≤◌, ◌<◌, ◌≡◌, refl, ap, ◌∙◌, true, false, ◌||◌, ◌&&◌, List, [], ◌∷◌, arith,
  if◌then◌else◌, ◌==◌, ==_iff, has, update, ltb, Option, none, some, inl, inr, Bool-cases,
}
use xv6_memory_management_im.Paging.{
  PageLink, not_used, Proc, Selection, nfua, lapa, max_total_pages,
}
use xv6_memory_management_im.Paging.Swap.{minus_one}
use xv6_memory_management_im.Paging.Chain.{Chain, IsRam, Chain-frame, Chain-lt}

-- `for(int i = 0; i < MAX_TOTAL_PAGES; i++)` over `pages_meta_data`, each entry by its index.
unfoldable pub for_links : ℕ → ℕ → (ℕ → PageLink → PageLink) → (ℕ → PageLink) → ℕ → PageLink
for_links zero i step links = links
for_links (suc n) i step links = for_links n (i + 1) step (update links i (step i (links i)))

unfoldable pub clear_counter : Selection → ℕ → ℕ
clear_counter nfua c = 0
clear_counter lapa c = minus_one
clear_counter _ c = c

unfoldable pub clear_link : Selection → ℕ → PageLink → PageLink
unfolding clear_counter
clear_link sel i l = record l {
  page_id = minus_one;
  offset_in_file = minus_one;
  state = not_used;
  index = i;
  next = none;
  prev = none;
  shift_counter = clear_counter sel l.shift_counter;
}

unfoldable pub init_meta_data : Selection → Proc → Proc
unfolding for_links clear_link
init_meta_data sel p = record p {
  has_swap_file = false;
  head = none;
  num_pages_disk = 0;
  num_pages_ram = 0;
  num_of_page_faults = 0;
  num_of_page_outs = 0;
  offsets = λ o. if ltb o 17 then 0 else p.offsets o;
  links = for_links max_total_pages 0 (clear_link sel) p.links;
}

-- A pointer of the father's array as one into the child's, by the index that the entry holds; where
-- the father has none the child keeps its own.
unfoldable pub moved : (ℕ → PageLink) → Option ℕ → Option ℕ → Option ℕ
moved father none own = own
moved father (some q) own = some (father q).index

unfoldable pub copy_link : (ℕ → PageLink) → ℕ → PageLink → PageLink
unfolding moved
copy_link father i l = record (father i) {
  next = moved father (father i).next l.next;
  prev = moved father (father i).prev l.prev;
}

-- `deepCopyProc` but for the pages of the swap file.
unfoldable pub deep_copy_proc : Proc → Proc → Proc
unfolding for_links copy_link moved
deep_copy_proc father child = record child {
  has_swap_file = father.has_swap_file || child.has_swap_file;
  offsets = λ o. if father.has_swap_file && ltb o 17 then father.offsets o else child.offsets o;
  links = for_links max_total_pages 0 (copy_link father.links) child.links;
  head = moved father.links father.head child.head;
  num_pages_disk = father.num_pages_disk;
  num_pages_ram = father.num_pages_ram;
}

-- Each entry of the range is changed once, from what it was.
for_links_before :
    (n i a : ℕ) (step : ℕ → PageLink → PageLink) (links : ℕ → PageLink)
    → a < i
    → for_links n i step links a ≡ links a
unfolding for_links
for_links_before zero i a step links l = refl
for_links_before (suc n) i a step links l =
    let ih = for_links_before n (i + 1) a step (update links i (step i (links i))) (omega arith) in
    let z : (a == i) ≡ false = ground arith in ih ∙ (rw z)

for_links_at :
    (n i a : ℕ) (step : ℕ → PageLink → PageLink) (links : ℕ → PageLink)
    → i ≤ a
    → a < i + n
    → for_links n i step links a ≡ step a (links a)
unfolding for_links
for_links_at zero i a step links l m = absurd (omega arith)
for_links_at (suc n) i a step links l m = elim (Bool-cases (a == i)) [
  | inr z ↦
      for_links_at n (i + 1) a step (update links i (step i (links i))) (ground arith) (omega arith)
      ∙ (rw z)
  | inl z ↦
      let e = (==_iff _ _).0 z in
      for_links_before n (i + 1) a step (update links i (step i (links i))) (omega arith)
      ∙ (rw (z, e))
]

-- The pointers of a list whose entries hold their indices stay when they are moved.
Chain-moved :
    (f : ℕ → PageLink) (q p : Option ℕ) (xs : List ℕ)
    → Chain f q p xs
    → moved f q none ≡ q
    → ((a : ℕ) → has a xs ≡ true → (f a).index ≡ a)
    → (moved f p none ≡ p)
      × ((a : ℕ)
          → has a xs ≡ true
          → (moved f (f a).next none ≡ (f a).next) × (moved f (f a).prev none ≡ (f a).prev))
unfolding moved
Chain-moved f q p [] h b same = (rw h, λ a i. cc)
Chain-moved f q p (x ∷ xs) (e, b1, l, new, h) b same =
    let ix : (f x).index ≡ x = same x (ground arith) in
    let (n, r) = Chain-moved f (some x) (f x).next xs h (rw ix) (λ a i. same a (ground arith)) in
    (
      rw (e, ix),
      λ a i. elim (Bool-cases (a == x)) [
        | inl z ↦ let c = (==_iff _ _).0 z in rw c (n, rw b1 b)
        | inr z ↦ r a (ground arith)
      ],
    )

-- The entries describe their pages in the same way.
abbrev pub SamePage : PageLink → PageLink → Type 0
SamePage l m =
    (l.page_id ≡ m.page_id)
    × (l.state ≡ m.state)
    × (l.offset_in_file ≡ m.offset_in_file)
    × (l.shift_counter ≡ m.shift_counter)
    × (l.index ≡ m.index)

module _ (sel : Selection) (father child : Proc) where
  abbrev forked : Proc
  forked = deep_copy_proc father (init_meta_data sel child)

  links-forked :
      (a : ℕ)
      → a < max_total_pages
      → forked.links a ≡ copy_link father.links a (clear_link sel a (child.links a))
  unfolding deep_copy_proc init_meta_data
  links-forked a l =
      for_links_at max_total_pages 0 a (copy_link father.links)
        (for_links max_total_pages 0 (clear_link sel) child.links) (omega arith) l
      ∙ ap (copy_link father.links a)
          (for_links_at max_total_pages 0 a (clear_link sel) child.links (omega arith) l)

  page-forked : (a : ℕ) → a < max_total_pages → SamePage (forked.links a) (father.links a)
  unfolding copy_link
  page-forked a l = rw (links-forked a l) (refl, refl, refl, refl, refl)

  next-forked :
      (a : ℕ)
      → a < max_total_pages
      → ((forked.links a).next ≡ moved father.links (father.links a).next none)
        × ((forked.links a).prev ≡ moved father.links (father.links a).prev none)
  unfolding copy_link clear_link
  next-forked a l = rw (links-forked a l) (refl, refl)

  head-forked : forked.head ≡ moved father.links father.head none
  unfolding deep_copy_proc init_meta_data
  head-forked = refl

-- fork gives the child, whose data is cleared by allocproc, the father's list of pages in RAM, linked
-- both ways through the child's own array, and the father's description of every page. The entries
-- on the father's list hold their own indices.
pub deep_copy_proc-IsRam :
    (sel : Selection) (father child : Proc) (xs : List ℕ)
    → IsRam father xs
    → ((a : ℕ) → has a xs ≡ true → (father.links a).index ≡ a)
    → IsRam (deep_copy_proc father (init_meta_data sel child)) xs
      × ((a : ℕ)
          → a < max_total_pages
          → SamePage ((deep_copy_proc father (init_meta_data sel child)).links a) (father.links a))
unfolding moved
deep_copy_proc-IsRam sel father child xs h same =
    let (e, m) = Chain-moved father.links none father.head xs h refl same in
    let g = (deep_copy_proc father (init_meta_data sel child)).links in
    let c : Chain g none father.head xs =
      Chain-frame father.links g none father.head xs
        (λ a i.
          let (n, r) =
            next-forked sel father child a (Chain-lt father.links none father.head xs a h i) in
          (n ∙ (m a i).0, r ∙ (m a i).1))
        h in
    let d = head-forked sel father child ∙ e in (rw d c, page-forked sel father child)
