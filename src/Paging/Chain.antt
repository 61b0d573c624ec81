-- ===== src/Paging/Chain.antt =====
-- The doubly linked list of the pages in RAM, as the list of its indices.
use xv6_memory_management_im.Common.{
  ℕ, ◌<◌, ◌≡◌, ◌∙◌, true, false, List, [], ◌∷◌, arith, has, Option, none, some,
}
use xv6_memory_management_im.Paging.{PageLink, Proc, max_total_pages}

-- From `p` on, with `q` behind it, the entries `xs` are linked both ways up to the end.
abbrev pub Chain : (ℕ → PageLink) → Option ℕ → Option ℕ → List ℕ → Type 0
Chain f q p [] = p ≡ none
Chain f q p (x ∷ xs) =
    (p ≡ some x)
    × ((f x).prev ≡ q)
    × (x < max_total_pages)
    × (has x xs ≡ false)
    × Chain f (some x) (f x).next xs

abbrev pub IsRam : Proc → List ℕ → Type 0
IsRam p xs = Chain p.links none p.head xs

-- A chain survives a change that spares its links.
pub Chain-frame :
    (f g : ℕ → PageLink) (q p : Option ℕ) (xs : List ℕ)
    → ((a : ℕ) → has a xs ≡ true → ((g a).next ≡ (f a).next) × ((g a).prev ≡ (f a).prev))
    → Chain f q p xs
    → Chain g q p xs
Chain-frame f g q p [] same h = h
Chain-frame f g q p (x ∷ xs) same (e, b, l, new, h) =
    let (n, r) = same x (ground arith) in
    (
      e,
      r ∙ b,
      l,
      new,
      rw n (Chain-frame f g (some x) (f x).next xs (λ a i. same a (ground arith)) h),
    )

pub Chain-lt :
    (f : ℕ → PageLink) (q p : Option ℕ) (xs : List ℕ) (a : ℕ)
    → Chain f q p xs
    → has a xs ≡ true
    → a < max_total_pages
Chain-lt f q p [] a h i = cc
Chain-lt f q p (x ∷ xs) a h i = ground (arith, Chain-lt f (some x) (f x).next xs a)
