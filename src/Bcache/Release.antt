-- ===== src/Bcache/Release.antt =====
-- bio.c: `brelse` gives a buffer back.
use xv6_memory_management_im.Common.{
  ℕ, ◌<◌, ◌≡◌, ◌≢◌, refl, ap, sym, ◌∙◌, Bool, true, false, List, [], ◌∷◌, ◌++◌, arith,
  if◌then◌else◌, ◌==◌, ==_iff, has, has-append, update, inl, inr, Bool-cases,
}
use xv6_memory_management_im.Common.Word.{sub32}
use xv6_memory_management_im.Kernel.{Returns, returns}
use xv6_memory_management_im.Sleeplock.{releasesleep, holdingsleep}
use xv6_memory_management_im.Bcache.{
  Buf, Bcache, nbuf, set_prev, set_next, unlink, push_front, brelse,
}
use xv6_memory_management_im.Bcache.Ring.{Seg, unlink-IsRing, push_front-IsRing}
use xv6_memory_management_im.Bcache.Cache.{IsCache, same_block-IsCache, update-here, update-else}

-- A buffer without its place on the list.
abbrev pub bare : Buf → Buf
bare x = record x { prev = 0; next = 0 }

module _ (i a v : ℕ) (f : ℕ → Buf) where
  pub bare-set_next : bare (set_next i v f a) ≡ bare (f a)
  unfolding set_next
  bare-set_next = elim (Bool-cases (a == i)) [
    | inl e ↦ rw e (ap (λ t. bare (f t)) (sym ((==_iff a i).0 e)))
    | inr e ↦ rw e refl
  ]

  pub bare-set_prev : bare (set_prev i v f a) ≡ bare (f a)
  unfolding set_prev
  bare-set_prev = elim (Bool-cases (a == i)) [
    | inl e ↦ rw e (ap (λ t. bare (f t)) (sym ((==_iff a i).0 e)))
    | inr e ↦ rw e refl
  ]

-- Moving a buffer changes links only.
bare-moved : (b a : ℕ) (f : ℕ → Buf) → bare (push_front b (unlink b f) a) ≡ bare (f a)
unfolding push_front unlink
bare-moved b a f = simp (bare-set_next, bare-set_prev) refl

Seg-new :
    (f : ℕ → Buf) (q p : ℕ) (pre : List ℕ) (b : ℕ) (ys : List ℕ)
    → Seg f q p (pre ++ (b ∷ ys))
    → (b < nbuf) × (has b (pre ++ ys) ≡ false)
Seg-new f q p [] b ys (e, w, l, new, h) = (l, new)
Seg-new f q p (x ∷ pre) b ys (e, w, l, new, h) =
    let (lb, nb) = Seg-new f x (f x).next pre b ys h in
    let u = has-append x pre (b ∷ ys) in (lb, ground arith)

-- The list once `b` is given back.
abbrev pub released : Bool → List ℕ → ℕ → List ℕ → List ℕ
released idle pre b ys = if idle then b ∷ (pre ++ ys) else pre ++ (b ∷ ys)

move-IsCache :
    (f : ℕ → Buf) (pre : List ℕ) (b : ℕ) (ys : List ℕ)
    → IsCache f (pre ++ (b ∷ ys))
    → IsCache (push_front b (unlink b f)) (b ∷ (pre ++ ys))
move-IsCache f pre b ys s =
    let (l, new) = Seg-new f nbuf (f nbuf).next pre b ys s.ring in
    let in_list : (a : ℕ) → has a (b ∷ (pre ++ ys)) ≡ true → has a (pre ++ (b ∷ ys)) ≡ true =
      λ a i. (let h = has-append a pre ys in let k = has-append a pre (b ∷ ys) in ground arith) in
    let d = λ (a : ℕ). ap (λ (t : Buf). t.dev) (bare-moved b a f) in
    let n = λ (a : ℕ). ap (λ (t : Buf). t.blockno) (bare-moved b a f) in
    record {
      ring = push_front-IsRing (unlink b f) b (pre ++ ys) l new (unlink-IsRing f pre b ys s.ring);
      once = λ a e ia ie re de be.
          s.once a e (in_list a ia) (in_list e ie) (λ z. re (d a ∙ z)) (sym (d a) ∙ (de ∙ d e))
            (sym (n a) ∙ (be ∙ n e));
    }

-- What `brelse` comes to.
pub record IsReleased (c : Bcache) (pre : List ℕ) (b : ℕ) (ys : List ℕ) (j : Bcache) : Type 0 where
  pub cache : IsCache j.buf (released (sub32 (c.buf b).refcnt 1 == 0) pre b ys)
  pub this :
      bare (j.buf b)
      ≡ bare (record (c.buf b) {
        lock = record { locked = false; pid = 0 };
        refcnt = sub32 (c.buf b).refcnt 1;
      })
  pub rest : (a : ℕ) → a ≢ b → bare (j.buf a) ≡ bare (c.buf a)
  pub disk : (j.disk ≡ c.disk) × (j.disksize ≡ c.disksize)

-- Of a buffer whose lock the caller holds, `brelse` frees the lock and drops a reference. When none is
-- left the buffer moves to the front of the list, the most recently used first, and else it stays; no
-- block is then in two buffers. The other buffers change their links only, the disk not at all.
pub brelse-IsReleased :
    (me : ℕ) (c : Bcache) (pre : List ℕ) (b : ℕ) (ys : List ℕ)
    → IsCache c.buf (pre ++ (b ∷ ys))
    → holdingsleep me (c.buf b).lock ≡ true
    → Returns (IsReleased c pre b ys) (brelse me b c)
unfolding brelse releasesleep
brelse-IsReleased me c pre b ys s h =
    let y : Buf = record (c.buf b) {
      lock = releasesleep (c.buf b).lock;
      refcnt = sub32 (c.buf b).refcnt 1;
    } in
    let f = update c.buf b y in
    let here : f b ≡ y = update-here c.buf b y in
    let u = has-append b pre (b ∷ ys) in
    let z : (b == b) ≡ true = (==_iff b b).1 refl in
    let t = same_block-IsCache c.buf b y (pre ++ (b ∷ ys)) (ground arith) refl refl refl refl s in
    let other = λ (a : ℕ) (ne : a ≢ b). ap bare (update-else c.buf b y a ne) in
    elim (Bool-cases (sub32 (c.buf b).refcnt 1 == 0)) [
      | inl e ↦
          rw (h, here, e)
            (returns record {
              cache = rw e (move-IsCache f pre b ys t);
              this = bare-moved b b f ∙ ap bare here;
              rest = λ a ne. bare-moved b a f ∙ other a ne;
              disk = (refl, refl);
            })
      | inr e ↦
          rw (h, here, e)
            (returns
              record { cache = rw e t; this = ap bare here; rest = other; disk = (refl, refl) })
    ]
