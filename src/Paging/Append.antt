-- ===== src/Paging/Append.antt =====
-- vm.c: `addPageToList`, at the end of a list and on an empty one.
use xv6_memory_management_im.Common.{
  ℕ, zero, suc, ◌≤◌, ◌<◌, ◌≡◌, ◌≢◌, refl, sym, ◌∙◌, true, false, List, [], ◌∷◌, ◌++◌, arith, length,
  has, has-append, has-ne, All, Option, none, some,
}
use xv6_memory_management_im.Kernel.{ok, Returns, returns}
use xv6_memory_management_im.Paging.{
  PageLink, Proc, max_total_pages, last_link, start_list, add_page_to_list, remove_page_from_list,
  set_next, set_prev,
}
use xv6_memory_management_im.Paging.Links.{link_laws}
use xv6_memory_management_im.Common.Pigeon.{Distinct, length-le}
use xv6_memory_management_im.Paging.Remove.{kept_head}
use xv6_memory_management_im.Paging.Chain.{Chain, IsRam}

-- The last entry of a list that is not empty.
abbrev pub last : ℕ → List ℕ → ℕ
last x [] = x
last x (y ∷ xs) = last y xs

-- The walk finds the last entry within one round for each.
pub last_link-last :
    (n : ℕ) (f : ℕ → PageLink) (q : Option ℕ) (x : ℕ) (xs : List ℕ)
    → Chain f q (some x) (x ∷ xs)
    → length xs < n
    → last_link n f x ≡ ok (last x xs)
unfolding last_link
last_link-last zero f q x xs h l = absurd (omega arith)
last_link-last (suc n) f q x [] (e, b, l, new, h) lt = rw (h, last_link)
last_link-last (suc n) f q x (y ∷ xs) (e, b, l, new, h) lt =
    rw (h.0, last_link) (last_link-last n f (some x) y xs (refl, h.1, h.2, h.3, h.4) (omega arith))

-- `g` is `f` with `i` hung behind `z`.
record IsHung (f g : ℕ → PageLink) (z i : ℕ) : Type 0 where
  z_next : (g z).next ≡ some i
  z_prev : (g z).prev ≡ (f z).prev
  i_next : (g i).next ≡ none
  i_prev : (g i).prev ≡ some z
  rest : (a : ℕ) → a ≢ z → a ≢ i → ((g a).next ≡ (f a).next) × ((g a).prev ≡ (f a).prev)

has-last : (x : ℕ) (xs : List ℕ) → has (last x xs) (x ∷ xs) ≡ true
has-last x [] = ground arith
has-last x (y ∷ xs) = ground (arith, has-last y xs)

hung-Chain :
    (f g : ℕ → PageLink) (q p : Option ℕ) (x : ℕ) (xs : List ℕ) (i : ℕ)
    → IsHung f g (last x xs) i
    → i < max_total_pages
    → has i (x ∷ xs) ≡ false
    → Chain f q p (x ∷ xs)
    → Chain g q p ((x ∷ xs) ++ (i ∷ []))
hung-Chain f g q p x [] i u li new (e, b, l, nw, h) =
    (e, u.z_prev ∙ b, l, ground arith, (u.z_next, u.i_prev, li, refl, u.i_next))
hung-Chain f g q p x (y ∷ xs) i u li new (e, b, l, nw, h) =
    let ne : x ≢ last y xs = λ z. has-ne (last y xs) x (y ∷ xs) (has-last y xs) nw (sym z) in
    let (n, r) = u.rest x ne (ground arith) in
    let w = has-append x (y ∷ xs) (i ∷ []) in
    (
      e,
      r ∙ b,
      l,
      ground arith,
      rw n (hung-Chain f g (some x) (f x).next y xs i u li (ground arith) h),
    )

Chain-Distinct :
    (f : ℕ → PageLink) (q p : Option ℕ) (xs : List ℕ)
    → Chain f q p xs
    → Distinct xs × All (λ x. x < max_total_pages) xs
Chain-Distinct f q p [] h = (tt, tt)
Chain-Distinct f q p (x ∷ xs) (e, b, l, new, h) =
    let (d, a) = Chain-Distinct f (some x) (f x).next xs h in ((new, d), (l, a))

-- A chain has at most as many entries as the array.
pub Chain-length :
    (f : ℕ → PageLink) (q p : Option ℕ) (xs : List ℕ) → Chain f q p xs → length xs ≤ max_total_pages
Chain-length f q p xs h = let (d, a) = Chain-Distinct f q p xs h in length-le max_total_pages xs d a

pub Chain-fits : (p : Proc) (x : ℕ) (xs : List ℕ) → IsRam p (x ∷ xs) → length xs < 33
Chain-fits p x xs h = omega (arith, Chain-length p.links none p.head (x ∷ xs) h)

-- The writes of `addPageToList`, behind the last entry `z`.
abbrev attach : ℕ → ℕ → Proc → Proc
attach i z p = set_next i none (set_prev i (some z) (set_next z (some i) p))

attach-IsHung : (i z : ℕ) (p : Proc) → z ≢ i → IsHung p.links (attach i z p).links z i
attach-IsHung i z p ne = record {
  z_next = simp link_laws (ground arith);
  z_prev = simp link_laws (ground arith);
  i_next = simp link_laws;
  i_prev = simp link_laws;
  rest = λ a nz ni. (simp link_laws (ground arith), simp link_laws (ground arith));
}

last_link-end :
    (n : ℕ) (f : ℕ → PageLink) (l : ℕ) → (f l).next ≡ none → last_link (suc n) f l ≡ ok l
unfolding last_link
last_link-end n f l e = rw (e, last_link)

-- `addPageToList` of an entry that is not on the list, which is not empty, puts it at the end. The
-- walk to the end is within its fuel.
pub add_page_to_list-IsRam :
    (p : Proc) (x : ℕ) (xs : List ℕ) (i : ℕ)
    → IsRam p (x ∷ xs)
    → i < max_total_pages
    → has i (x ∷ xs) ≡ false
    → Returns (λ g. IsRam g ((x ∷ xs) ++ (i ∷ []))) (add_page_to_list i p)
unfolding add_page_to_list
add_page_to_list-IsRam p x xs i h li new =
    let w = last_link-last 33 p.links none x xs (refl, h.1, h.2, h.3, h.4) (Chain-fits p x xs h) in
    let ne : last x xs ≢ i = has-ne (last x xs) i (x ∷ xs) (has-last x xs) new in
    let q : Proc = record p { head = some x } in
    let hd : (attach i (last x xs) q).head ≡ some x = simp link_laws in
    rw (h.0, start_list, w)
      (returns (
        rw hd (
          hung-Chain p.links (attach i (last x xs) q).links none (some x) x xs i
            (attach-IsHung i (last x xs) q ne) li new (refl, h.1, h.2, h.3, h.4))))

-- On an empty list `addPageToList` makes the entry its own predecessor: the list that it leaves is
-- not linked, and taking the entry off again does not empty it.
pub add_page_to_list-empty :
    (p : Proc) (i : ℕ)
    → p.head ≡ none
    → Returns
        (λ g.
          (g.head ≡ some i)
          × ((g.links i).prev ≡ some i)
          × (¬ IsRam g (i ∷ []))
          × ((remove_page_from_list i g).head ≡ some i))
        (add_page_to_list i p)
unfolding add_page_to_list
add_page_to_list-empty p i e =
    let q : Proc = set_prev i none (set_next i none (record p { head = some i })) in
    let w : last_link 33 q.links i ≡ ok i = last_link-end 32 q.links i (simp link_laws) in
    let b : ((attach i i q).links i).prev ≡ some i = simp link_laws in
    let hd : (attach i i q).head ≡ some i = simp link_laws in
    rw (e, start_list, w)
      (returns (hd, b, (λ z. cc (sym z.1 ∙ b)), kept_head (attach i i q) i i b ∙ hd))
