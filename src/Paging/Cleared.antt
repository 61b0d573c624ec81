-- ===== src/Paging/Cleared.antt =====
-- vm.c: the reference bits of several pages off, and the order that `switchQueueAQ` makes.
use xv6_memory_management_im.Common.{
  ℕ, ◌≡◌, ◌≢◌, refl, sym, ◌∙◌, Bool, true, false, not, ◌||◌, ◌&&◌, List, [], ◌∷◌, arith,
  if◌then◌else◌, ◌==◌, ==-false_of_ne, ==_iff, has, has-ne, inl, inr, Bool-cases,
}
use xv6_memory_management_im.Common.Word.{clear_bit}
use xv6_memory_management_im.Kalloc.{Kmem}
use xv6_memory_management_im.Vm.Pte.{pte_a}
use xv6_memory_management_im.Vm.{walk}
use xv6_memory_management_im.Vm.Table.{walk-stored, walk-ne}
use xv6_memory_management_im.Paging.SecondChance.{accessed, unmark, IsReady}

-- The list with every used page that has an unused one behind it behind that one, from the front.
unfoldable pub trade : (ℕ → Bool) → List ℕ → List ℕ
trade used [] = []
trade used (x ∷ []) = x ∷ []
trade used (x ∷ n ∷ zs) =
    let rest = trade used (n ∷ zs) in
    if used x && not (used n) then n ∷ x ∷ trade used zs else x ∷ rest

pub trade_one : (used : ℕ → Bool) (x : ℕ) → trade used (x ∷ []) ≡ x ∷ []
unfolding trade
trade_one used x = refl

pub trade_two :
    (used : ℕ → Bool) (x n : ℕ) (zs : List ℕ)
    → trade used (x ∷ n ∷ zs)
      ≡ (if used x && not (used n) then n ∷ x ∷ trade used zs else x ∷ trade used (n ∷ zs))
unfolding trade
trade_two used x n zs = refl

-- The front of the list is not traded when it has not been used.
pub trade_unused :
    (used : ℕ → Bool) (x : ℕ) (zs : List ℕ)
    → used x ≡ false
    → trade used (x ∷ zs) ≡ x ∷ trade used zs
unfolding trade
trade_unused used x [] e = refl
trade_unused used x (n ∷ zs) e = rw e

pub trade_none : (f : ℕ → Bool) → trade f [] ≡ []
unfolding trade
trade_none f = refl

pub trade_eq :
    (f g : ℕ → Bool) (xs : List ℕ)
    → ((a : ℕ) → has a xs ≡ true → f a ≡ g a)
    → trade f xs ≡ trade g xs
trade_eq f g [] same = trade_none f ∙ sym (trade_none g)
trade_eq f g (x ∷ []) same = trade_one f x ∙ sym (trade_one g x)
trade_eq f g (x ∷ n ∷ zs) same =
    let a = same x (ground arith) in
    let b = same n (ground arith) in
    let t = trade_eq f g zs (λ c i. same c (ground arith)) in
    let u = trade_eq f g (n ∷ zs) (λ c i. same c (ground arith)) in
    rw (trade_two f x n zs, trade_two g x n zs, a, b, t, u)

module _ (d : ℕ) (ids : ℕ → ℕ) where
  -- The reference bits of the pages are off, and no other word is changed.
  pub record IsCleared (k j : Kmem) (xs : List ℕ) : Type 0 where
    pub off :
        (a : ℕ)
        → has a xs ≡ true
        → j.mem (walk k d (ids a)) ≡ clear_bit (k.mem (walk k d (ids a))) pte_a
    pub rest : (b : ℕ) → ((a : ℕ) → has a xs ≡ true → b ≢ walk k d (ids a)) → j.mem b ≡ k.mem b

  module _ (k : Kmem) (x : ℕ) (xs : List ℕ) (r : IsReady d ids k xs) (i : has x xs ≡ true) where
    walk-unmark : (a : ℕ) → walk (unmark d ids k x) d (ids a) ≡ walk k d (ids a)
    walk-unmark a = walk-stored k d (ids x) _ r.dirs (r.pages x i).1 (ids a)

    pub accessed-unmark_self : accessed d ids (unmark d ids k x) x ≡ false
    accessed-unmark_self = let e = walk-unmark x in rw e (ground arith)

    mem-unmark :
        (a : ℕ)
        → has a xs ≡ true
        → x ≢ a
        → (unmark d ids k x).mem (walk k d (ids a)) ≡ k.mem (walk k d (ids a))
    mem-unmark a m ne =
        let q = ==-false_of_ne _ _ (
          walk-ne k d (ids x) 0 r.dirs (r.pages x i).1 (ids a) (r.pages x i).0 (r.pages a m).0
            (r.pages a m).1 (r.apart x a i m ne)) in
        rw q

  clear_twice : (w : ℕ) → clear_bit (clear_bit w pte_a) pte_a ≡ clear_bit w pte_a
  clear_twice w = ground arith

  -- Clearing one page and then all of them clears them all.
  pub unmark-IsCleared :
      (k j : Kmem) (x : ℕ) (xs : List ℕ)
      → IsReady d ids k xs
      → has x xs ≡ true
      → IsCleared (unmark d ids k x) j xs
      → IsCleared k j xs
  unmark-IsCleared k j x xs r i c =
      let wk = walk-unmark k x xs r i in
      record {
        off = λ a m.
            let e = c.off a m in
            let w = wk a in
            let e1 = rw w at e in
            e1 ∙ elim (Bool-cases (a == x)) [
              | inl q ↦ let z = (==_iff _ _).0 q in rw z (ground arith)
              | inr q ↦ let z = mem-unmark k x xs r i a m (ground arith) in rw z
            ];
        rest = λ b n.
            let z = ==-false_of_ne _ _ (n x i) in
            c.rest b (λ a m. let w = wk a in rw w (n a m)) ∙ (rw z);
      }

  -- A page whose bit is off need not be cleared.
  pub skip-IsCleared :
      (k j : Kmem) (y : ℕ) (xs ys : List ℕ)
      → IsReady d ids k xs
      → has y xs ≡ true
      → has y ys ≡ false
      → ((a : ℕ) → has a xs ≡ (a == y) || has a ys)
      → accessed d ids k y ≡ false
      → IsCleared k j ys
      → IsCleared k j xs
  skip-IsCleared k j y xs ys r i new split spare c = record {
    off = λ a m. elim (Bool-cases (a == y)) [
      | inl q ↦
          let z = (==_iff _ _).0 q in
          let u = c.rest (walk k d (ids y)) (λ b l.
            let t : has b xs ≡ true = split b ∙ (rw l (ground arith)) in
            let ne : b ≢ y = has-ne b y ys l new in
            walk-ne k d (ids b) 0 r.dirs (r.pages b t).1 (ids y) (r.pages b t).0 (r.pages y i).0
              (r.pages y i).1 (r.apart b y t i ne)) in
          rw (z, u) (ground arith)
      | inr q ↦ c.off a (let e = split a in ground arith)
    ];
    rest = λ b n. c.rest b (λ a m. n a (let e = split a in ground arith));
  }
