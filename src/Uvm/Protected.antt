-- ===== src/Uvm/Protected.antt =====
-- vm.c, copyuvm: the flags of a page that parent and child share.
use xv6_memory_management_im.Common.{
  ℕ, ◌+◌, ◌-◌, ◌%◌, ◌<◌, ◌≡◌, refl, sym, ◌∙◌, Bool, true, false, ◌||◌, List, [], arith, has, ◌⊎◌,
  inl, inr, Bool-cases,
}
use xv6_memory_management_im.Common.Word.{word_mod, test_bit, clear_bit}
use xv6_memory_management_im.Kernel.Layout.{frame}
use mathlib.Core.Path.{subst}
use xv6_memory_management_im.Kalloc.{Kmem}
use xv6_memory_management_im.Kalloc.Invariant.{IsPage}
use xv6_memory_management_im.Vm.Pte.{pte_w, pte_cow}
use xv6_memory_management_im.Vm.Table.{entry}
use xv6_memory_management_im.Uvm.{protect}
use xv6_memory_management_im.Uvm.Apart.{IsFork}
use xv6_memory_management_im.Uvm.Forked.{inside, shares, IsLooped}

-- The entry `f` is `w` with copy-on-write in place of write permission, if it had that.
pub record IsProtected (w f : ℕ) : Type 0 where
  pub write : test_bit f pte_w ≡ false
  pub cow : test_bit f pte_cow ≡ (test_bit w pte_cow || test_bit w pte_w)
  pub rest : clear_bit (clear_bit f pte_w) pte_cow ≡ clear_bit (clear_bit w pte_w) pte_cow

rest-protect :
    (w : ℕ)
    → clear_bit (clear_bit (protect w) pte_w) pte_cow ≡ clear_bit (clear_bit w pte_w) pte_cow
unfolding protect
rest-protect w = elim (Bool-cases (test_bit w pte_w)) [
  | inr c ↦ rw (c, c) refl
  | inl c ↦ elim (Bool-cases (test_bit (w - 2) pte_cow)) [
    | inl b ↦ let c1 : test_bit (w - 2) pte_w ≡ false = ground arith in rw (c, b, c1, b) refl
    | inr b ↦
        let c1 : test_bit (w - 2 + 0x400) pte_w ≡ false = ground arith in
        let b1 : test_bit (w - 2 + 0x400) pte_cow ≡ true = ground arith in
        let e : w - 2 + 0x400 - 0x400 ≡ w - 2 = omega arith in rw (c, b, c1, b1, e) refl
  ]
]

protect-IsProtected : (w : ℕ) → IsProtected w (protect w)
unfolding protect
protect-IsProtected w = record { write = ground arith; cow = ground arith; rest = rest-protect w }

-- What the loop of `copyuvm` comes to.
pub record IsForked (k : Kmem) (p d i n sz : ℕ) (xs : List ℕ) (off : ℕ) (done : Bool) (j : Kmem)
    (ys : List ℕ) : Type 0 where
  pub fork : IsFork j p d ys off
  pub parent :
      done ≡ true
      → (vb : ℕ) → vb < word_mod
      → inside i sz vb ≡ true
      → IsProtected (entry k p vb) (entry j p vb)
  pub child :
      done ≡ true → (vb : ℕ) → vb < word_mod → inside i sz vb ≡ true → entry j d vb ≡ entry j p vb
  pub others :
      done ≡ true
      → (vb : ℕ) → vb < word_mod
      → inside i sz vb ≡ false
      → (entry j p vb ≡ entry k p vb) × (entry j d vb ≡ entry k d vb)
  pub refs :
      done ≡ true
      → (y : ℕ) → IsPage k y
      → has y xs ≡ false
      → j.refs (frame y) % word_mod ≡ (k.refs (frame y) + shares (entry k p) n i sz y) % word_mod
  pub full : done ≡ false → ys ≡ []
  pub kept :
      done ≡ false
      → (vb : ℕ) → vb < word_mod
      → (entry j p vb ≡ entry k p vb) ⊎ IsProtected (entry k p vb) (entry j p vb)

protect-IsProtected_of : (w f : ℕ) → f ≡ protect w → IsProtected w f
protect-IsProtected_of w f e = subst (IsProtected w) (sym e) (protect-IsProtected w)

pub IsLooped-IsForked :
    (k : Kmem) (p d i n sz : ℕ) (xs : List ℕ) (off : ℕ) (done : Bool) (j : Kmem) (ys : List ℕ)
    → IsLooped k p d i n sz xs off done j ys
    → IsForked k p d i n sz xs off done j ys
IsLooped-IsForked k p d i n sz xs off done j ys g = record {
  fork = g.fork;
  parent = λ t vb l z.
      let e = rw z at (g.parent t vb l) in protect-IsProtected_of (entry k p vb) (entry j p vb) e;
  child = λ t vb l z.
      let e = rw z at (g.parent t vb l) in let c = rw z at (g.child t vb l) in c ∙ sym e;
  others =
      λ t vb l z. let e = rw z at (g.parent t vb l) in let c = rw z at (g.child t vb l) in (e, c);
  refs = g.refs;
  full = g.full;
  kept = λ t vb l. elim (g.kept t vb l) [
    | inl e ↦ inl e
    | inr e ↦ inr (protect-IsProtected_of (entry k p vb) (entry j p vb) e)
  ];
}
