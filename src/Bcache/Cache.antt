-- ===== src/Bcache/Cache.antt =====
-- bio.c: no block is in two buffers, and changes to a buffer that keep this.
use xv6_memory_management_im.Common.{
  ℕ, ◌≡◌, ◌≢◌, refl, ap, sym, ◌∙◌, true, false, List, arith, ◌==◌, ==-false_of_ne, ==_iff, has,
  update, inl, inr, Bool-cases,
}
use mathlib.Core.Path.{subst}
use xv6_memory_management_im.Bcache.{Buf, nbuf, caches}
use xv6_memory_management_im.Bcache.Ring.{Seg, IsRing, Seg-frame}

-- The buffers `xs` form the list, the most recently used first, and no block of a device is in two of
-- them. A buffer that has never been used has device 0.
pub record IsCache (f : ℕ → Buf) (xs : List ℕ) : Type 0 where
  pub ring : IsRing f xs
  pub once :
      (a b : ℕ)
      → has a xs ≡ true
      → has b xs ≡ true
      → (f a).dev ≢ 0
      → (f a).dev ≡ (f b).dev
      → (f a).blockno ≡ (f b).blockno
      → a ≡ b

module _ (f : ℕ → Buf) (b : ℕ) (y : Buf) where
  pub update-here : update f b y b ≡ y
  update-here = let z : (b == b) ≡ true = (==_iff b b).1 refl in rw z

  pub update-else : (a : ℕ) → a ≢ b → update f b y a ≡ f a
  update-else a ne = let z : (a == b) ≡ false = ==-false_of_ne a b ne in rw z

  pub update-links :
      y.next ≡ (f b).next
      → y.prev ≡ (f b).prev
      → (a : ℕ) → ((update f b y a).next ≡ (f a).next) × ((update f b y a).prev ≡ (f a).prev)
  update-links n p a = elim (Bool-cases (a == b)) [
    | inl e ↦
        let q = sym ((==_iff a b).0 e) in
        rw e (n ∙ ap (λ t. (f t).next) q, p ∙ ap (λ t. (f t).prev) q)
    | inr e ↦ rw e (refl, refl)
  ]

  -- A buffer may be given a block that no other one has.
  pub update-IsCache :
      (xs : List ℕ)
      → y.next ≡ (f b).next
      → y.prev ≡ (f b).prev
      → ((a : ℕ) → has a xs ≡ true → a ≢ b → y.dev ≢ 0 → caches y.dev y.blockno (f a) ≡ false)
      → IsCache f xs
      → IsCache (update f b y) xs
  update-IsCache xs n p alone s =
      let links = update-links n p in
      let here = update-here in
      record {
        ring =
            subst (λ (t : ℕ). Seg (update f b y) nbuf t xs) (sym (links nbuf).0)
              (Seg-frame f (update f b y) nbuf (f nbuf).next xs links s.ring);
        once = λ a d ia id re de be. elim (Bool-cases (a == b)) [
          | inl ea ↦ elim (Bool-cases (d == b)) [
            | inl ed ↦ (==_iff a b).0 ea ∙ sym ((==_iff d b).0 ed)
            | inr ed ↦
                let h1 = rw (ea, ed) at de in
                let h2 = rw (ea, ed) at be in
                let h3 = rw ea at re in
                let z = alone d id (λ q. ground arith) h3 in absurd (ground arith)
          ]
          | inr ea ↦ elim (Bool-cases (d == b)) [
            | inl ed ↦
                let h1 = rw (ea, ed) at de in
                let h2 = rw (ea, ed) at be in
                let h3 = rw ea at re in
                let z = alone a ia (λ q. ground arith) (λ q. h3 (h1 ∙ q)) in absurd (ground arith)
            | inr ed ↦
                let h1 = rw (ea, ed) at de in
                let h2 = rw (ea, ed) at be in let h3 = rw ea at re in s.once a d ia id h3 h1 h2
          ]
        ];
      }

-- A change to a buffer on the list that spares its links and its block.
pub same_block-IsCache :
    (f : ℕ → Buf) (b : ℕ) (y : Buf) (xs : List ℕ)
    → has b xs ≡ true
    → y.next ≡ (f b).next
    → y.prev ≡ (f b).prev
    → y.dev ≡ (f b).dev
    → y.blockno ≡ (f b).blockno
    → IsCache f xs
    → IsCache (update f b y) xs
same_block-IsCache f b y xs i n p d k s =
    update-IsCache f b y xs n p
      (λ a ia ne re. elim (Bool-cases (caches y.dev y.blockno (f a))) [
        | inr e ↦ e
        | inl e ↦
            let q = s.once b a i ia (λ z. re (d ∙ z)) (ground arith) (ground arith) in
            absurd (ne (sym q))
      ])
      s
