-- ===== src/Paging/Choice.antt =====
-- vm.c: which page each replacement scheme gives up.
use xv6_memory_management_im.Common.{
  ℕ, zero, suc, ◌≤◌, ◌<◌, ◌≡◌, refl, true, List, [], ◌∷◌, arith, if◌then◌else◌, length, has, ltb,
  All, Option, none, some, ◌⊎◌, inl, inr, Bool-cases,
}
use xv6_memory_management_im.Kernel.{ok, Returns, returns, mono, result}
use xv6_memory_management_im.Kalloc.{Kmem}
use xv6_memory_management_im.Paging.{PageLink, nfua, lapa, lifo}
use xv6_memory_management_im.Paging.Chain.{Chain, IsRam}
use xv6_memory_management_im.Paging.Append.{last, last_link-last, Chain-fits}
use xv6_memory_management_im.Paging.Select.{
  Machine, is_user, nfua_loop, lapa_loop, lapa_skips, choose, choose_from, choose_page_to_swap,
}

module _ (m : Machine) (x : ℕ) (xs : List ℕ) (h : IsRam m.proc (x ∷ xs)) where
  abbrev links : ℕ → PageLink
  links = m.proc.links

  chain : Chain links none (some x) (x ∷ xs)
  chain = (refl, h.1, h.2, h.3, h.4)

  -- LIFO gives up the page that was put on the list last, and changes nothing.
  pub choose-lifo : choose_page_to_swap lifo m ≡ ok (some (last x xs), m)
  unfolding choose_page_to_swap
  choose-lifo =
      rw (
        h.0,
        choose_from,
        choose,
        last_link-last 33 links none x xs chain (Chain-fits m.proc x xs h),
      )

-- Every page after the head is skipped, whatever its counter.
lapa_loop-skips :
    (n : ℕ) (k : Kmem) (d : ℕ) (f : ℕ → PageLink) (q : Option ℕ) (x : ℕ) (xs : List ℕ)
    (best min : ℕ)
    → Chain f q (some x) (x ∷ xs)
    → length xs < n
    → lapa_loop n k d f x best min ≡ ok best
unfolding lapa_loop
lapa_loop-skips zero k d f q x xs best min h l = absurd (omega arith)
lapa_loop-skips (suc n) k d f q x [] best min h l = rw (h.4, lapa_loop)
lapa_loop-skips (suc n) k d f q x (y ∷ xs) best min (e, b, l, new, h) lt =
    let s : lapa_skips (f y).page_id ≡ true = ground arith in
    rw (h.0, lapa_loop, s)
      (lapa_loop-skips n k d f (some x) y xs best min (refl, h.1, h.2, h.3, h.4) (omega arith))

-- LAPA gives up the head of the list whatever the ageing counters are: the test that is meant to
-- spare the code and stack pages passes for every page.
pub choose-lapa :
    (m : Machine) (x : ℕ) (xs : List ℕ)
    → IsRam m.proc (x ∷ xs)
    → choose_page_to_swap lapa m ≡ ok (some x, m)
unfolding choose_page_to_swap
choose-lapa m x xs h = rw (
  h.0,
  choose_from,
  choose,
  lapa_loop-skips 33 m.kmem m.proc.pgdir m.proc.links none x xs x _ (refl, h.1, h.2, h.3, h.4)
      (Chain-fits m.proc x xs h),
)

-- The user may reach each page of the list.
abbrev pub AllUser : Kmem → ℕ → (ℕ → PageLink) → List ℕ → Type 0
AllUser k d f xs = All (λ a. is_user k d (f a).page_id ≡ ok true) xs

-- No page of the list was used less than `r`.
abbrev pub IsLeast : (ℕ → PageLink) → List ℕ → ℕ → Type 0
IsLeast f xs r = All (λ a. (f r).shift_counter ≤ (f a).shift_counter) xs

nfua_loop-IsLeast :
    (n : ℕ) (k : Kmem) (d : ℕ) (f : ℕ → PageLink) (q : Option ℕ) (x : ℕ) (xs : List ℕ) (best : ℕ)
    → Chain f q (some x) (x ∷ xs)
    → AllUser k d f xs
    → length xs < n
    → Returns
        (λ r.
          IsLeast f xs r
          × ((f r).shift_counter ≤ (f best).shift_counter)
          × ((r ≡ best) ⊎ (has r xs ≡ true)))
        (nfua_loop n k d f x best)
unfolding nfua_loop
nfua_loop-IsLeast zero k d f q x xs best h u l = absurd (omega arith)
nfua_loop-IsLeast (suc n) k d f q x [] best h u l =
    rw (h.4, nfua_loop) (returns (tt, omega arith, inl refl))
nfua_loop-IsLeast (suc n) k d f q x (y ∷ xs) best (e, b, l, new, h) u lt =
    let next = if ltb (f y).shift_counter (f best).shift_counter then y else best in
    rw (h.0, nfua_loop, u.0)
      (mono
        (nfua_loop-IsLeast n k d f (some x) y xs next (refl, h.1, h.2, h.3, h.4) u.1 (omega arith))
        λ r (least, le, mem). elim (Bool-cases (ltb (f y).shift_counter (f best).shift_counter)) [
          | inl t ↦ ((ground arith, least), ground arith, ground arith)
          | inr t ↦ ((ground arith, least), ground arith, ground arith)
        ])

has_of : (r x : ℕ) (xs : List ℕ) → (r ≡ x) ⊎ (has r xs ≡ true) → has r (x ∷ xs) ≡ true
has_of r x xs h = ground arith

-- NFUA, where the user may reach every page after the head, gives up a page of the list with the
-- smallest ageing counter, and changes nothing.
pub choose-nfua :
    (m : Machine) (x : ℕ) (xs : List ℕ)
    → IsRam m.proc (x ∷ xs)
    → AllUser m.kmem m.proc.pgdir m.proc.links xs
    → Returns
        (λ (o, j).
          (r : ℕ) × (o ≡ some r)
          × (has r (x ∷ xs) ≡ true)
          × IsLeast m.proc.links (x ∷ xs) r
          × (j ≡ m))
        (choose_page_to_swap nfua m)
unfolding choose_page_to_swap
choose-nfua m x xs h u =
    let (r, e, (least, le, mem)) = result (
      nfua_loop-IsLeast 33 m.kmem m.proc.pgdir m.proc.links none x xs x (refl, h.1, h.2, h.3, h.4) u
        (Chain-fits m.proc x xs h)) in
    rw (h.0, choose_from, choose, e) (returns (r, refl, has_of r x xs mem, (le, least), refl))
