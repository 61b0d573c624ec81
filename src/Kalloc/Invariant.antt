-- ===== src/Kalloc/Invariant.antt =====
-- kalloc.c: what holds of the allocator between calls.
use xv6_memory_management_im.Common.{
  ℕ, ◌+◌, ◌%◌, ◌≤◌, ◌<◌, ◌≡◌, ◌≢◌, true, false, List, [], ◌∷◌, arith, length, has,
}
use xv6_memory_management_im.Common.Word.{pgsize, word_mod}
use xv6_memory_management_im.Kernel.Layout.{kernbase, phystop, frame}
use xv6_memory_management_im.Kalloc.{Kmem, bad_page}

-- An address that `kfree` accepts: aligned, above the kernel and below the end of memory.
abbrev pub IsPage : Kmem → ℕ → Type 0
IsPage k v = (v % pgsize ≡ 0) × (k.kernel_end ≤ v) × (v < kernbase + phystop)

-- The words from `p` on lead through the distinct unreferenced pages `xs` to the end of the list.
abbrev pub Free : (k : Kmem) → ℕ → List ℕ → Type 0
Free k p [] = p ≡ 0
Free k p (x ∷ xs) =
    (p ≡ x) × IsPage k x × (k.refs (frame x) ≡ 0) × (has x xs ≡ false) × Free k (k.mem x) xs

-- `off` is the number of pages that the global count takes for free although they are in use.
pub record IsKmem (k : Kmem) (xs : List ℕ) (off : ℕ) : Type 0 where
  pub unlocked : k.locked ≡ false
  pub base : kernbase < k.kernel_end
  pub free : Free k k.freelist xs
  pub counted : k.free_pages ≡ (length xs + off) % word_mod

-- A free list survives a change that spares its own pages.
pub Free-frame :
    (k j : Kmem) (p : ℕ) (xs : List ℕ)
    → j.kernel_end ≡ k.kernel_end
    → ((a : ℕ) → has a xs ≡ true → (j.mem a ≡ k.mem a) × (j.refs (frame a) ≡ k.refs (frame a)))
    → Free k p xs
    → Free j p xs
Free-frame k j p [] e same h = h
Free-frame k j p (x ∷ xs) e same h =
    let (m, r) = same x (ground arith) in
    (
      h.0,
      omega arith,
      omega arith,
      h.3,
      rw m (Free-frame k j (k.mem x) xs e (λ a i. same a (ground arith)) h.4),
    )

-- Every page of a free list has no reference.
pub Free-refs :
    (k : Kmem) (p v : ℕ) (xs : List ℕ) → Free k p xs → has v xs ≡ true → k.refs (frame v) ≡ 0
Free-refs k p v [] h i = cc
Free-refs k p v (x ∷ xs) h i = ground (arith, Free-refs k (k.mem x) v xs)

pub Free-IsPage : (k : Kmem) (p v : ℕ) (xs : List ℕ) → Free k p xs → has v xs ≡ true → IsPage k v
Free-IsPage k p v [] h i = cc
Free-IsPage k p v (x ∷ xs) h i = ground (arith, Free-IsPage k (k.mem x) v xs)

-- Different pages have different frames.
pub frame-ne :
    (k : Kmem) (v x : ℕ)
    → kernbase < k.kernel_end
    → IsPage k v
    → IsPage k x
    → v ≢ x
    → frame x ≢ frame v
frame-ne k v x b p q n = omega arith

pub not-bad_page : (k : Kmem) (v : ℕ) → kernbase < k.kernel_end → IsPage k v → bad_page k v ≡ false
unfolding bad_page
not-bad_page k v b p = ground arith

-- A referenced page is not on the free list.
pub not-Free :
    (k : Kmem) (p v : ℕ) (xs : List ℕ) → Free k p xs → k.refs (frame v) ≢ 0 → has v xs ≡ false
not-Free k p v xs h n = ground (arith, Free-refs k p v xs h)
