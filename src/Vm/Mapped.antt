-- ===== src/Vm/Mapped.antt =====
-- vm.c: `mappages` maps the pages of its range and no others.
use xv6_memory_management_im.Common.{
  ℕ, zero, suc, ◌+◌, ◌-◌, ◌*◌, ◌/◌, ◌%◌, ◌≤◌, ◌<◌, ◌≡◌, ◌≢◌, refl, sym, ◌∙◌, Bool, true, false,
  List, [], arith, if◌then◌else◌, ◌==◌, ==-false_of_ne, ==_iff, ◌⊎◌, inl, inr, Bool-cases,
}
use xv6_memory_management_im.Common.Word.{
  add32, sub32, pgsize, word_mod, pg_round_down, test_bit, set_bit,
}
use xv6_memory_management_im.Kernel.{Returns, returns, bind, mono}
use Prim.Native.Nat.{bit_or}
use mathlib.Core.Path.{subst}
use xv6_memory_management_im.Kalloc.{Kmem}
use xv6_memory_management_im.Vm.Pte.{pte_p}
use xv6_memory_management_im.Vm.{walk, store, walkpgdir, mappages_loop, mappages}
use xv6_memory_management_im.Vm.Table.{page_of, entry, entry-stored}
use xv6_memory_management_im.Vm.Space.{IsSpace, stored-IsSpace}
use xv6_memory_management_im.Vm.Walk.{IsWalked, walkpgdir_lem}

-- The word that `mappages` writes for the page `i` of its range.
unfoldable pub mapping : ℕ → ℕ → ℕ → ℕ
mapping pa perm i = set_bit (bit_or (add32 pa (i * pgsize)) perm) pte_p

-- The page of `vb` is one of the `n` pages from `a` on.
abbrev pub Within : ℕ → ℕ → ℕ → Type 0
Within a n vb = (page_of a ≤ page_of vb) × (page_of vb < page_of a + n)

abbrev pub Outside : ℕ → ℕ → ℕ → Type 0
Outside a n vb = (page_of vb < page_of a) ⊎ (page_of a + n ≤ page_of vb)

-- Of the entries only those of the range are changed; when the run succeeds they hold the new
-- mapping, and when it fails no page is free.
unfoldable pub IsMapped : Kmem → ℕ → ℕ → ℕ → ℕ → ℕ → ℕ → Bool → Kmem → Type 0
IsMapped k d off a n pa perm done j =
    (ys : List ℕ) × IsSpace j d ys off
    × ((vb : ℕ) → vb < word_mod → Outside a n vb → entry j d vb ≡ entry k d vb)
    × (done ≡ true
        → (vb : ℕ) → vb < word_mod
        → Within a n vb
        → entry j d vb ≡ mapping pa perm (page_of vb - page_of a))
    × (done ≡ false → ys ≡ [])

pub entry_at : (k : Kmem) (d va : ℕ) → walk k d va ≢ 0 → entry k d va ≡ k.mem (walk k d va)
unfolding entry
entry_at k d va h = rw (==-false_of_ne _ _ h)

-- What a round finds: no page for a table, or a place whose entry it may write.
data IsRound (k : Kmem) (d off a w pte : ℕ) (j : Kmem) : Type 0 where
  full :
      IsSpace j d [] off
      → ((vb : ℕ) → entry j d vb ≡ entry k d vb)
      → (pte == 0) ≡ true
      → IsRound k d off a w pte j
  place :
      (ys : List ℕ)
      → (pte == 0) ≡ false
      → test_bit (j.mem pte) pte_p ≡ false
      → IsSpace (store pte w j) d ys off
      → ((vb : ℕ)
          → vb < word_mod
          → entry (store pte w j) d vb ≡ (if page_of a == page_of vb then w else entry k d vb))
      → IsRound k d off a w pte j

module _ (k : Kmem) (d a w off : ℕ) (la : a < word_mod)
    (free : test_bit (entry k d a) pte_p ≡ false) where
  IsRound-at :
      (j : Kmem) (ys : List ℕ)
      → IsSpace j d ys off
      → ((vb : ℕ) → entry j d vb ≡ entry k d vb)
      → (walk j d a ≡ 0 → ys ≡ [])
      → IsRound k d off a w (walk j d a) j
  IsRound-at j ys s same empty = elim (Bool-cases (walk j d a == 0)) [
    | inl z ↦ full (subst (λ (l : List ℕ). IsSpace j d l off) (empty ((==_iff _ _).0 z)) s) same z
    | inr z ↦
        let h : walk j d a ≢ 0 = ground arith in
        let e0 = same a in
        let e : j.mem (walk j d a) ≡ entry k d a = sym (entry_at j d a h) ∙ e0 in
        place ys z (rw e free) (stored-IsSpace j d a w ys off s h)
          (λ vb lb. entry-stored j d a w s.dir h vb la lb ∙ (rw (same vb)))
  ]

  IsRound-of :
      (pte : ℕ) (j : Kmem) (xs : List ℕ) → IsWalked k d a xs off pte j → IsRound k d off a w pte j
  unfolding IsWalked
  IsRound-of pte j xs (ys, s, same, at, empty, beside) =
      rw at (IsRound-at j ys s same (λ z. empty (at ∙ z)))

  map-IsRound :
      (xs : List ℕ)
      → IsSpace k d xs off
      → Returns (λ (pte, j). IsRound k d off a w pte j) (walkpgdir d a true k)
  map-IsRound xs s = mono (walkpgdir_lem k d a xs off s) (λ (pte, j) h. IsRound-of pte j xs h)

-- The pages from `a` on have no mapping.
abbrev pub Unmapped : Kmem → ℕ → ℕ → ℕ → Type 0
Unmapped k d a n = (vb : ℕ) → vb < word_mod → Within a n vb → test_bit (entry k d vb) pte_p ≡ false

-- A single page, or the last one.
IsMapped-last :
    (k : Kmem) (d off a pa perm pte : ℕ) (j : Kmem) (ys : List ℕ)
    → IsSpace (store pte (set_bit (bit_or pa perm) pte_p) j) d ys off
    → pa < word_mod
    → ((vb : ℕ)
        → vb < word_mod
        → entry (store pte (set_bit (bit_or pa perm) pte_p) j) d vb
          ≡ (if page_of a == page_of vb then set_bit (bit_or pa perm) pte_p else entry k d vb))
    → IsMapped k d off a 1 pa perm true (store pte (set_bit (bit_or pa perm) pte_p) j)
unfolding IsMapped mapping
IsMapped-last k d off a pa perm pte j ys s lp e = (
  ys,
  s,
  λ vb l o.
      e vb l
      ∙ (let z : (page_of a == page_of vb) ≡ false =
            ==-false_of_ne _ _ (λ q. elim o [ inl x ↦ omega arith | inr x ↦ omega arith ]) in
          rw z),
  λ t vb l h.
      e vb l
      ∙ (let q : page_of vb ≡ page_of a = omega arith in
          let c : add32 pa ((page_of vb - page_of a) * pgsize) ≡ pa = omega arith in
          let z : (page_of a == page_of vb) ≡ true = (==_iff _ _).1 (sym q) in rw (c, z)),
  λ t. cc,
)

IsMapped-full :
    (k : Kmem) (d off a n pa perm : ℕ) (j : Kmem)
    → IsSpace j d [] off
    → ((vb : ℕ) → entry j d vb ≡ entry k d vb)
    → IsMapped k d off a n pa perm false j
unfolding IsMapped
IsMapped-full k d off a n pa perm j s e = ([], s, λ vb l o. e vb, λ t. cc, λ t. refl)

-- A page and then the rest.
IsMapped-more :
    (k : Kmem) (d off a n pa perm : ℕ) (j i : Kmem) (done : Bool)
    → a % pgsize ≡ 0
    → a + suc n * pgsize ≤ word_mod
    → pa < word_mod
    → ((vb : ℕ)
        → vb < word_mod
        → entry j d vb
          ≡ (if page_of a == page_of vb then set_bit (bit_or pa perm) pte_p else entry k d vb))
    → 0 < n
    → IsMapped j d off (add32 a pgsize) n (add32 pa pgsize) perm done i
    → IsMapped k d off a (suc n) pa perm done i
unfolding IsMapped mapping
IsMapped-more k d off a n pa perm j i done al fit lp e pos (ys, s, out, ins, bad) =
    let step : page_of (add32 a pgsize) ≡ page_of a + 1 = omega arith in
    (
      ys,
      s,
      λ vb l o.
          out vb l (elim o [ inl x ↦ inl (omega arith) | inr x ↦ inr (omega arith) ])
          ∙ e vb l
          ∙ (let z : (page_of a == page_of vb) ≡ false =
                ==-false_of_ne _ _ (λ q. elim o [ inl x ↦ omega arith | inr x ↦ omega arith ]) in
              rw z),
      λ t vb l h. elim (Bool-cases (page_of a == page_of vb)) [
        | inl q ↦
            let q1 = (==_iff _ _).0 q in
            let c : add32 pa ((page_of vb - page_of a) * pgsize) ≡ pa = omega arith in
            out vb l (inl (omega arith)) ∙ e vb l ∙ (rw (c, q))
        | inr q ↦
            let q1 : page_of a ≢ page_of vb = ground arith in
            let c : add32 (add32 pa pgsize) ((page_of vb - page_of (add32 a pgsize)) * pgsize)
                ≡ add32 pa ((page_of vb - page_of a) * pgsize) =
              omega arith in
            ins t vb l (omega arith, omega arith) ∙ (rw c)
      ],
      bad,
    )

mappages_loop-IsMapped :
    (n : ℕ) (k : Kmem) (d a last pa perm : ℕ) (xs : List ℕ) (off : ℕ)
    → IsSpace k d xs off
    → last ≡ a + n * pgsize
    → a % pgsize ≡ 0
    → a + suc n * pgsize ≤ word_mod
    → pa < word_mod
    → Unmapped k d a (suc n)
    → Returns
        (λ (done, j). IsMapped k d off a (suc n) pa perm done j)
        (mappages_loop (suc n) d a last pa perm k)
unfolding mappages_loop
mappages_loop-IsMapped zero k d a last pa perm xs off s el al fit lp new =
    let w = set_bit (bit_or pa perm) pte_p in
    let la : a < word_mod = omega arith in
    let here : (a == last) ≡ true = (==_iff _ _).1 (omega arith) in
    bind (map-IsRound k d a w off la (new a la (omega arith, omega arith)) xs s) (λ (pte, j) r.
      elim r [
        | full t e z ↦ rw z (returns (IsMapped-full k d off a 1 pa perm j t e))
        | place ys z f t e ↦
            rw (z, f, here) (returns (IsMapped-last k d off a pa perm pte j ys t lp e))
      ])
mappages_loop-IsMapped (suc n) k d a last pa perm xs off s el al fit lp new =
    let w = set_bit (bit_or pa perm) pte_p in
    let la : a < word_mod = omega arith in
    let here : (a == last) ≡ false = ==-false_of_ne _ _ (λ e. omega arith) in
    bind (map-IsRound k d a w off la (new a la (omega arith, omega arith)) xs s) (λ (pte, j) r.
      elim r [
        | full t e z ↦ rw z (returns (IsMapped-full k d off a (suc (suc n)) pa perm j t e))
        | place ys z f t e ↦
            rw (z, f, here)
              (mono
                (mappages_loop-IsMapped n (store pte w j) d (add32 a pgsize) last (add32 pa pgsize)
                  perm ys off t (omega arith) (omega arith) (omega arith) (omega arith)
                  (λ vb l h.
                    let q : (page_of a == page_of vb) ≡ false =
                      ==-false_of_ne _ _ (λ q. omega arith) in
                    let g = new vb l (omega arith, omega arith) in let e1 = e vb l in rw (e1, q) g))
                (λ (done, i) m.
                  IsMapped-more k d off a (suc n) pa perm (store pte w j) i done al fit lp e
                    (omega arith) m))
      ])

-- `mappages` maps the pages of its range to consecutive pages of physical memory with the given
-- permissions and changes no other entry; if it fails then no page is free, and again no other entry
-- is changed. It always returns. The range is aligned, ends within the address space and is not
-- mapped yet, and the pages of the page table are not on the free list.
pub mappages-IsMapped :
    (n : ℕ) (k : Kmem) (d a pa perm : ℕ) (xs : List ℕ) (off : ℕ)
    → IsSpace k d xs off
    → a % pgsize ≡ 0
    → a + suc n * pgsize ≤ word_mod
    → pa < word_mod
    → Unmapped k d a (suc n)
    → Returns
        (λ (done, j). IsMapped k d off a (suc n) pa perm done j)
        (mappages d a (suc n * pgsize) pa perm k)
unfolding mappages
mappages-IsMapped n k d a pa perm xs off s al fit lp new =
    let ea : pg_round_down a ≡ a = omega arith in
    let el : pg_round_down (sub32 (add32 a (suc n * pgsize)) 1) ≡ a + n * pgsize = omega arith in
    let en : sub32 (a + n * pgsize) a / pgsize ≡ n = omega arith in
    rw (ea, el, en)
      (mappages_loop-IsMapped n k d a (a + n * pgsize) pa perm xs off s refl al fit lp new)
