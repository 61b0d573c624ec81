-- ===== src/Bcache/Roundtrip.antt =====
-- bio.c: a block written and read again.
use xv6_memory_management_im.Common.{
  ◌≢◌, ==-false_of_ne, ℕ, ◌≡◌, refl, ap, sym, ◌∙◌, Bool, true, false, List, ◌∷◌, ◌++◌, arith, ◌==◌,
  ==_iff, has, has-append, Option, some, inl, inr, Bool-cases,
}
use xv6_memory_management_im.Common.Word.{sub32}
use xv6_memory_management_im.Kernel.{Returns, bind, mono, ◌>>=◌}
use xv6_memory_management_im.Sleeplock.{acquiresleep-some, holdingsleep}
use xv6_memory_management_im.Bcache.{Buf, Bcache, brelse, caches, bread, bwrite}
use xv6_memory_management_im.Bcache.Cache.{IsCache}
use xv6_memory_management_im.Bcache.Get.{bget-IsGot}
use xv6_memory_management_im.Bcache.Release.{brelse-IsReleased, released}
use xv6_memory_management_im.Bcache.Disk.{IsReady, bwrite-IsWritten}
use xv6_memory_management_im.Bcache.Read.{bread_locked-hit}

-- `bread` of a block that a valid buffer has, which nobody holds.
bread-again :
    (me : ℕ) (c : Bcache) (blockno : ℕ) (xs : List ℕ) (b : ℕ)
    → IsCache c.buf xs
    → has b xs ≡ true
    → caches 1 blockno (c.buf b) ≡ true
    → (c.buf b).valid ≡ true
    → (c.buf b).lock.locked ≡ false
    → Returns
        (λ ((r, k) : Option ℕ × Bcache).
          (r ≡ some b)
          × ((k.buf b).block ≡ (c.buf b).block)
          × (holdingsleep me (k.buf b).lock ≡ true)
          × (k.disk ≡ c.disk))
        (bread me 1 blockno c)
unfolding bread
bread-again me c blockno xs b s i h v u = elim (bget-IsGot c 1 blockno xs s) [
  | inr (e, full) ↦ absurd (let z = (full b i).0 in cc)
  | inl r ↦ bind r (λ (a, j) g. elim g.how [
    | inr (none_has, idle, e) ↦ absurd (let z = none_has b i in cc)
    | inl (w, e) ↦
        let q : b ≡ a = s.once b a i g.held (ground arith) (ground arith) (ground arith) in
        let free =
          ap (λ (t : Buf). t.lock.locked) e ∙ (ap (λ t. (c.buf t).lock.locked) (sym q) ∙ u) in
        let valid = ap (λ (t : Buf). t.valid) e ∙ (ap (λ t. (c.buf t).valid) (sym q) ∙ v) in
        let e2 = acquiresleep-some me (j.buf a).lock free in
        rw e2 (
          mono (bread_locked-hit me c blockno xs s a j g valid) (λ (o, k) (p, d). (
            p ∙ ap some (sym q),
            ap (λ t. (k.buf t).block) q
                ∙ (elim d.bytes [
                  | inl (_, _, n) ↦ n
                  | inr (n, _) ↦ absurd (let z = n b i in ground arith)
                ]
                    ∙ ap (λ t. (c.buf t).block) (sym q)),
            ap (λ t. holdingsleep me (k.buf t).lock) q ∙ d.holds,
            d.disk.0,
          )))
  ])
]

released-has :
    (idle : Bool) (pre : List ℕ) (b : ℕ) (ys : List ℕ) → has b (released idle pre b ys) ≡ true
released-has idle pre b ys =
    let u = has-append b pre (b ∷ ys) in
    let z : (b == b) ≡ true = (==_iff b b).1 refl in
    elim (Bool-cases idle) [ inl e ↦ rw (e, z) refl | inr e ↦ rw e (ground arith) ]

-- What a holder writes with `bwrite` and gives back with `brelse` is what the next `bread` of the block
-- returns, in the same buffer, now held by the reader; it is on the disk, where no other block changes.
-- No block is in two buffers, and the block is one of the disk.
pub bread-bwrite :
    (me reader : ℕ) (c : Bcache) (pre : List ℕ) (b : ℕ) (ys : List ℕ)
    → IsCache c.buf (pre ++ (b ∷ ys))
    → IsReady me c b
    → Returns
        (λ ((r, k) : Option ℕ × Bcache).
          (r ≡ some b)
          × ((k.buf b).block ≡ (c.buf b).block)
          × (holdingsleep reader (k.buf b).lock ≡ true)
          × (k.disk (c.buf b).blockno ≡ (c.buf b).block)
          × ((n : ℕ) → n ≢ (c.buf b).blockno → k.disk n ≡ c.disk n))
        (bwrite me b c >>= λ c1. brelse me b c1 >>= λ c2. bread reader 1 (c.buf b).blockno c2)
bread-bwrite me reader c pre b ys s r =
    let u = has-append b pre (b ∷ ys) in
    let z : (b == b) ≡ true = (==_iff b b).1 refl in
    let xs = pre ++ (b ∷ ys) in
    bind (bwrite-IsWritten me c xs b s (ground arith) r) (λ c1 w.
      let h1 = w.this in
      bind (brelse-IsReleased me c1 pre b ys w.cache (rw h1 r.holds)) (λ c2 q.
        let new = sub32 (c1.buf b).refcnt 1 == 0 in
        let bytes = ap (λ (t : Buf). t.block) q.this ∙ ap (λ (t : Buf). t.block) h1 in
        let dev = ap (λ (t : Buf). t.dev) q.this ∙ (ap (λ (t : Buf). t.dev) h1 ∙ r.dev) in
        let no = ap (λ (t : Buf). t.blockno) q.this ∙ ap (λ (t : Buf). t.blockno) h1 in
        let valid = ap (λ (t : Buf). t.valid) q.this ∙ ap (λ (t : Buf). t.valid) h1 in
        let free = ap (λ (t : Buf). t.lock.locked) q.this in
        mono
          (bread-again reader c2 (c.buf b).blockno (released new pre b ys) b q.cache
            (released-has new pre b ys) (rw (dev, no) ((==_iff _ _).1 refl)) valid free)
          (λ (o, k) (p, n, l, e).
            let at_disk = e ∙ (q.disk.0 ∙ w.disk) in
            let no = (c.buf b).blockno in
            let same : (no == no) ≡ true = (==_iff _ _).1 refl in
            (
              p,
              n ∙ bytes,
              l,
              ap (λ (f : ℕ → ℕ → ℕ). f no) at_disk ∙ rw same refl,
              λ a ne.
                  let z : (a == no) ≡ false = ==-false_of_ne a no ne in
                  ap (λ (f : ℕ → ℕ → ℕ). f a) at_disk ∙ rw z refl,
            ))))
