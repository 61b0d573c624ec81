-- ===== src/Uvm/Forked.antt =====
-- vm.c, copyuvm: what the loop comes to, a page and then the others.
use xv6_memory_management_im.Common.{
  ℕ, zero, suc, ◌+◌, ◌%◌, ◌≤◌, ◌<◌, ◌≡◌, ◌≢◌, refl, ap, ◌∙◌, Bool, true, false, ◌&&◌, List, [],
  arith, if◌then◌else◌, ◌==◌, ==-false_of_ne, ==_iff, has, ltb, leb, ◌⊎◌, inl, inr, Bool-cases,
  ltb→lt, lt→ltb,
}
use xv6_memory_management_im.Common.Word.{pgsize, word_mod, pg_round_down, test_bit}
use xv6_memory_management_im.Kernel.Layout.{frame}
use xv6_memory_management_im.Kalloc.{Kmem}
use xv6_memory_management_im.Kalloc.Invariant.{IsPage}
use xv6_memory_management_im.Vm.Pte.{pte_p}
use xv6_memory_management_im.Vm.Table.{page_of, entry, walk_page}
use xv6_memory_management_im.Vm.Beside.{still_page}
use xv6_memory_management_im.Uvm.{protect}
use xv6_memory_management_im.Uvm.Apart.{IsFork}
use xv6_memory_management_im.Uvm.Share.{page_at, IsShared}

-- The page of `vb` is one of those from `i` up to `sz`.
abbrev pub inside : ℕ → ℕ → ℕ → Bool
inside i sz vb = leb i (pg_round_down vb) && ltb (pg_round_down vb) sz

-- How many of the entries `e` of these pages, at most `n` of them, map the page `y`.
unfoldable pub shares : (ℕ → ℕ) → ℕ → ℕ → ℕ → ℕ → ℕ
shares e zero i sz y = 0
shares e (suc n) i sz y =
    let rest = shares e n (i + pgsize) sz y in
    if ltb i sz then (if page_at (e i) == y then 1 else 0) + rest else 0

shares_eq :
    (e f : ℕ → ℕ) (n i sz y : ℕ)
    → ((vb : ℕ) → i ≤ vb → vb < sz → page_at (e vb) ≡ page_at (f vb))
    → shares e n i sz y ≡ shares f n i sz y
unfolding shares
shares_eq e f zero i sz y same = refl
shares_eq e f (suc n) i sz y same =
    let ih = shares_eq e f n (i + pgsize) sz y (λ vb l m. same vb (omega arith) m) in
    elim (Bool-cases (ltb i sz)) [
      | inl l ↦ let a = same i (omega arith) (ltb→lt _ _ l) in rw (l, a, ih)
      | inr l ↦ rw l
    ]

-- Every page from `i` up to `sz` is in RAM, in a page that is in use, and the child has none of them.
pub record IsShareable (k : Kmem) (p d i sz : ℕ) (xs : List ℕ) : Type 0 where
  pub here : (vb : ℕ) → vb < word_mod → inside i sz vb ≡ true → test_bit (entry k p vb) pte_p ≡ true
  pub page : (vb : ℕ) → vb < word_mod → inside i sz vb ≡ true → IsPage k (page_at (entry k p vb))
  pub used :
      (vb : ℕ) → vb < word_mod → inside i sz vb ≡ true → has (page_at (entry k p vb)) xs ≡ false
  pub new : (vb : ℕ) → vb < word_mod → inside i sz vb ≡ true → test_bit (entry k d vb) pte_p ≡ false

-- What the loop comes to.
pub record IsLooped (k : Kmem) (p d i n sz : ℕ) (xs : List ℕ) (off : ℕ) (done : Bool) (j : Kmem)
    (ys : List ℕ) : Type 0 where
  pub fork : IsFork j p d ys off
  pub parent :
      done ≡ true
      → (vb : ℕ) → vb < word_mod
      → entry j p vb ≡ (if inside i sz vb then protect (entry k p vb) else entry k p vb)
  pub child :
      done ≡ true
      → (vb : ℕ) → vb < word_mod
      → entry j d vb ≡ (if inside i sz vb then protect (entry k p vb) else entry k d vb)
  pub refs :
      done ≡ true
      → (y : ℕ) → IsPage k y
      → has y xs ≡ false
      → j.refs (frame y) % word_mod ≡ (k.refs (frame y) + shares (entry k p) n i sz y) % word_mod
  pub full : done ≡ false → ys ≡ []
  pub kept :
      done ≡ false
      → (vb : ℕ) → vb < word_mod
      → (entry j p vb ≡ entry k p vb) ⊎ (entry j p vb ≡ protect (entry k p vb))

pub entry_page : (k : Kmem) (d va vb : ℕ) → page_of va ≡ page_of vb → entry k d va ≡ entry k d vb
unfolding entry
entry_page k d va vb e = rw (walk_page k d va vb e)

-- No page is left.
pub IsLooped-end :
    (k : Kmem) (p d i n sz : ℕ) (xs : List ℕ) (off : ℕ)
    → IsFork k p d xs off
    → sz ≤ i
    → IsLooped k p d i (suc n) sz xs off true k xs
unfolding shares
IsLooped-end k p d i n sz xs off f l =
    let z : ltb i sz ≡ false = ground arith in
    let out = λ (vb : ℕ). (let q : inside i sz vb ≡ false = ground arith in q) in
    record {
      fork = f;
      parent = λ t vb lb. rw (out vb);
      child = λ t vb lb. rw (out vb);
      refs = λ t y py uy. rw z (omega arith);
      full = λ e. cc;
      kept = λ t vb lb. inl refl;
    }

protect-protect : (w : ℕ) → protect (protect w) ≡ protect w
unfolding protect
protect-protect w = ground arith

pub inside_here :
    (i sz vb : ℕ)
    → i % pgsize ≡ 0
    → i < sz
    → page_of i ≡ page_of vb
    → (inside i sz vb ≡ true) × (inside (i + pgsize) sz vb ≡ false)
inside_here i sz vb al l e =
    let q : pg_round_down vb ≡ i = omega arith in rw q (ground arith, ground arith)

pub inside_next :
    (i sz vb : ℕ)
    → i % pgsize ≡ 0
    → page_of i ≢ page_of vb
    → inside (i + pgsize) sz vb ≡ inside i sz vb
inside_next i sz vb al n =
    let q : leb (i + pgsize) (pg_round_down vb) ≡ leb i (pg_round_down vb) = ground arith in rw q

-- A page and then the others.
module _ (k : Kmem) (p d i n sz : ℕ) (xs : List ℕ) (off : ℕ) (j : Kmem) (ys : List ℕ) (done : Bool)
    (m : Kmem) (zs : List ℕ) (al : i % pgsize ≡ 0) (l : i < sz) (fit : sz + pgsize ≤ word_mod)
    (a : IsShared k p d i xs off true j ys)
    (b : IsLooped j p d (i + pgsize) n sz ys off done m zs) where
  more-parent :
      done ≡ true
      → (vb : ℕ) → vb < word_mod
      → entry m p vb ≡ (if inside i sz vb then protect (entry k p vb) else entry k p vb)
  more-parent t vb lb = b.parent t vb lb ∙ elim (Bool-cases (page_of i == page_of vb)) [
    | inl q ↦
        let e = (==_iff _ _).0 q in
        let (u, v) = inside_here i sz vb al l e in
        let c = a.parent vb lb in let g = entry_page k p i vb e in rw (u, v, c, q, g)
    | inr q ↦
        let e : page_of i ≢ page_of vb = ground arith in
        let u = inside_next i sz vb al e in let c = a.parent vb lb in rw (u, c, q)
  ]

  more-child :
      done ≡ true
      → (vb : ℕ) → vb < word_mod
      → entry m d vb ≡ (if inside i sz vb then protect (entry k p vb) else entry k d vb)
  more-child t vb lb = b.child t vb lb ∙ elim (Bool-cases (page_of i == page_of vb)) [
    | inl q ↦
        let e = (==_iff _ _).0 q in
        let (u, v) = inside_here i sz vb al l e in
        let c = a.child vb lb in let g = entry_page k p i vb e in rw (u, v, c, q, g)
    | inr q ↦
        let e : page_of i ≢ page_of vb = ground arith in
        let u = inside_next i sz vb al e in
        let c = a.child vb lb in let g = a.parent vb lb in rw (u, c, g, q)
  ]

  more-kept :
      done ≡ false
      → (vb : ℕ) → vb < word_mod
      → (entry m p vb ≡ entry k p vb) ⊎ (entry m p vb ≡ protect (entry k p vb))
  more-kept t vb lb =
      let c = a.parent vb lb in
      elim (Bool-cases (page_of i == page_of vb)) [
        | inl q ↦
            let g = entry_page k p i vb ((==_iff _ _).0 q) in
            let h : entry j p vb ≡ protect (entry k p vb) = c ∙ (rw (q, g)) in
            elim (b.kept t vb lb) [
              | inl e ↦ inr (e ∙ h)
              | inr e ↦ inr (e ∙ ap protect h ∙ protect-protect _)
            ]
        | inr q ↦
            let h : entry j p vb ≡ entry k p vb = c ∙ (rw q) in
            elim (b.kept t vb lb) [ inl e ↦ inl (e ∙ h) | inr e ↦ inr (e ∙ ap protect h) ]
      ]

  rest_shares :
      (y : ℕ) → shares (entry j p) n (i + pgsize) sz y ≡ shares (entry k p) n (i + pgsize) sz y
  rest_shares y = shares_eq (entry j p) (entry k p) n (i + pgsize) sz y (λ vb g h.
      let q : (page_of i == page_of vb) ≡ false = ==-false_of_ne _ _ (λ e. omega arith) in
      let c = a.parent vb (omega arith) in rw (c, q))

  more-refs :
      done ≡ true
      → (y : ℕ) → IsPage k y
      → has y xs ≡ false
      → m.refs (frame y) % word_mod
        ≡ (k.refs (frame y) + shares (entry k p) (suc n) i sz y) % word_mod
  unfolding shares
  more-refs t y py uy =
      let c = b.refs t y (still_page k j y a.kernel_end py) (a.used y uy) in
      let g = a.refs y py uy in
      let r = rest_shares y in
      let z = lt→ltb _ _ l in
      rw z (elim (Bool-cases (page_at (entry k p i) == y)) [
        | inl q ↦ let h = rw q at g in rw q (omega (arith, c, h, r))
        | inr q ↦ let h = rw q at g in rw q (omega (arith, c, h, r))
      ])

  pub IsLooped-more : IsLooped k p d i (suc n) sz xs off done m zs
  IsLooped-more = record {
    fork = b.fork;
    parent = more-parent;
    child = more-child;
    refs = more-refs;
    full = b.full;
    kept = more-kept;
  }
