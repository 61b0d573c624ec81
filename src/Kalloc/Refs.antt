-- ===== src/Kalloc/Refs.antt =====
-- kalloc.c: the reference counters.
use xv6_memory_management_im.Common.{
  ℕ, ◌+◌, ◌%◌, ◌<◌, ◌≡◌, ◌≢◌, refl, ap, false, List, arith, has, update,
}
use xv6_memory_management_im.Common.Word.{add32, sub32, word_mod}
use xv6_memory_management_im.Kernel.Layout.{frame}
use xv6_memory_management_im.Kernel.{ok, Returns, returns, ◌>>=◌}
use xv6_memory_management_im.Kalloc.{Kmem, kfree, bad_ref, increment_ref, decrement_ref, get_ref}
use xv6_memory_management_im.Kalloc.Invariant.{IsPage, IsKmem, not-Free, not-bad_page}
use xv6_memory_management_im.Kalloc.Alloc.{kfree_lem, drop_ref-shared, refs-IsKmem}
use mathlib.Core.Path.{fun_ext}

module _ (v : ℕ) (k : Kmem) (xs : List ℕ) (off : ℕ) (i : IsKmem k xs off) (p : IsPage k v) where
  pub not-bad_ref : bad_ref k v ≡ false
  unfolding bad_ref
  not-bad_ref = let b = i.base in ground arith

  abbrev pub more : Kmem
  more = record k { refs = update k.refs (frame v) (add32 (k.refs (frame v)) 1) }

  pub increment_ref-more : increment_ref v k ≡ ok more
  unfolding increment_ref
  increment_ref-more = let u = i.unlocked in rw not-bad_ref (ground arith)

  -- `incrementRef` adds one reference to a page, up to the wrap of the counter, and keeps the free
  -- list and the memory.
  pub increment_ref-IsKmem :
      has v xs ≡ false
      → Returns
          (λ j.
            IsKmem j xs off
            × (j.refs ≡ update k.refs (frame v) ((k.refs (frame v) + 1) % word_mod))
            × (j.mem ≡ k.mem))
          (increment_ref v k)
  increment_ref-IsKmem new =
      rw increment_ref-more (returns (refs-IsKmem v k xs off i p _ new, refl, refl))

  -- `getRef` returns the counter and changes nothing.
  pub get_ref_lem : get_ref v k ≡ ok (k.refs (frame v), k)
  unfolding get_ref
  get_ref_lem = let u = i.unlocked in ground arith

  pub decrement_ref_lem :
      decrement_ref v k
      ≡ ok (record k { refs = update k.refs (frame v) (sub32 (k.refs (frame v)) 1) })
  unfolding decrement_ref
  decrement_ref_lem = let u = i.unlocked in rw not-bad_ref (ground arith)

-- Two updates at one point, the second of which restores the value, change nothing.
update_back : (f : ℕ → ℕ) (a x y : ℕ) → y ≡ f a → update (update f a x) a y ≡ f
update_back f a x y e = fun_ext λ b. ground arith

module _ (v : ℕ) (k : Kmem) (xs : List ℕ) (off : ℕ) (i : IsKmem k xs off) (p : IsPage k v)
    (live : k.refs (frame v) ≢ 0) (small : k.refs (frame v) + 1 < word_mod) where
  new : has v xs ≡ false
  new = not-Free k k.freelist v xs i.free live

  abbrev j : Kmem
  j = more v k xs off i p

  j-IsKmem : IsKmem j xs off
  j-IsKmem = refs-IsKmem v k xs off i p _ new

  j_count : j.refs (frame v) ≡ k.refs (frame v) + 1
  j_count = ground arith

  -- `kfree` takes back exactly what `incrementRef` of a page in use has done: together they leave
  -- the whole allocator as it was.
  pub kfree-increment_ref : (increment_ref v k >>= kfree v) ≡ ok k
  kfree-increment_ref =
      rw
        (
          increment_ref-more v k xs off i p,
          kfree_lem v j i.unlocked (not-bad_page j v i.base p) (λ _. omega (arith, j_count)),
          drop_ref-shared v j xs off j-IsKmem p (omega (arith, j_count)),
        )
        (ap (λ (f : ℕ → ℕ). ok (record k { refs = f }))
          (update_back k.refs (frame v) _ _ (omega (arith, j_count))))

  -- So does `decrementRef`.
  pub decrement_ref-increment_ref : (increment_ref v k >>= decrement_ref v) ≡ ok k
  decrement_ref-increment_ref =
      rw (increment_ref-more v k xs off i p, decrement_ref_lem v j xs off j-IsKmem p)
        (ap (λ (f : ℕ → ℕ). ok (record k { refs = f }))
          (update_back k.refs (frame v) _ _ (omega (arith, j_count))))
