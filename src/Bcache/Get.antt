-- ===== src/Bcache/Get.antt =====
-- bio.c: `bget` finds the buffer of a block, or recycles the least recently used idle one.
use xv6_memory_management_im.Common.{
  ◌==◌, Bool-cases, ◌++◌, ◌∷◌, ◌≢◌, refl, ℕ, ◌≡◌, ◌≢◌, refl, true, false, List, [], arith, has,
  none, some, ◌⊎◌, inl, inr, Option-cases,
}
use xv6_memory_management_im.Common.Word.{add32}
use xv6_memory_management_im.Kernel.{panic, Panic, Returns, returns}
use xv6_memory_management_im.Bcache.{
  Buf, Bcache, nbuf, caches, is_idle, with_buf, recycle, bget_found, bget,
}
use xv6_memory_management_im.Bcache.Find.{
  found, rev_onto, Back, Seg-Back, find_next_lem, find_prev_lem, length-rev, has-rev, Seg-length,
  found-some, found-none, found-rev, found-last,
}
use xv6_memory_management_im.Bcache.Cache.{
  IsCache, update-here, update-else, update-IsCache, same_block-IsCache,
}

-- A buffer in use, or to be written.
abbrev pub IsBusy : Buf → Type 0
IsBusy x = (x.refcnt ≢ 0) ⊎ (x.dirty ≡ true)

-- The buffer has no reference and is not to be written, and those less recently used are all busy.
pub record IsOldest (f : ℕ → Buf) (xs : List ℕ) (b : ℕ) : Type 0 where
  pub unused : (f b).refcnt ≡ 0
  pub clean : (f b).dirty ≡ false
  pub newer : List ℕ
  pub older : List ℕ
  pub place : xs ≡ newer ++ (b ∷ older)
  pub busy : (a : ℕ) → has a older ≡ true → IsBusy (f a)

is_idle-IsBusy : (x : Buf) → is_idle x ≡ false → IsBusy x
is_idle-IsBusy x e = elim (Bool-cases (x.refcnt == 0)) [
  | inl z ↦ let h = rw z at e in inr (ground arith)
  | inr z ↦ inl (λ q. ground arith)
]

found-IsOldest :
    (f : ℕ → Buf) (xs : List ℕ) (b : ℕ)
    → found (λ a. is_idle (f a)) (rev_onto xs []) ≡ some b
    → IsOldest f xs b
found-IsOldest f xs b e =
    let (i, t) = found-rev (λ a. is_idle (f a)) xs b e in
    elim (found-last (λ a. is_idle (f a)) xs [] b e) [
      | inl (pre, post, q, g) ↦ record {
        unused = ground arith;
        clean = ground arith;
        newer = pre;
        older = post;
        place = q;
        busy = λ a h. is_idle-IsBusy (f a) (g a h);
      }
      | inr (h, g) ↦ absurd (cc)
    ]

-- What `bget` comes to: the buffer of the block with one reference more, or, when it is in none, the
-- least recently used buffer without reference that is not to be written.
pub record IsGot (c : Bcache) (dev blockno : ℕ) (xs : List ℕ) (b : ℕ) (j : Bcache) : Type 0 where
  pub held : has b xs ≡ true
  pub block : caches dev blockno (j.buf b) ≡ true
  pub cache : IsCache j.buf xs
  pub rest : (a : ℕ) → a ≢ b → j.buf a ≡ c.buf a
  pub disk : (j.disk ≡ c.disk) × (j.disksize ≡ c.disksize)
  pub how :
      ((caches dev blockno (c.buf b) ≡ true)
        × (j.buf b ≡ record (c.buf b) { refcnt = add32 (c.buf b).refcnt 1 }))
      ⊎ (((a : ℕ) → has a xs ≡ true → caches dev blockno (c.buf a) ≡ false)
          × IsOldest c.buf xs b
          × (j.buf b ≡ record (c.buf b) {
            dev = dev;
            blockno = blockno;
            valid = false;
            dirty = false;
            refcnt = 1;
          }))

-- No buffer has the block, and each is in use or to be written.
abbrev pub IsFull : Bcache → ℕ → ℕ → List ℕ → Type 0
IsFull c dev blockno xs =
    (a : ℕ) → has a xs ≡ true → (caches dev blockno (c.buf a) ≡ false) × IsBusy (c.buf a)

module _ (c : Bcache) (dev blockno : ℕ) (xs : List ℕ) (s : IsCache c.buf xs) where
  hit-IsGot :
      (b : ℕ)
      → found (λ a. caches dev blockno (c.buf a)) xs ≡ some b
      → IsGot c dev blockno xs b
          (with_buf b (record (c.buf b) { refcnt = add32 (c.buf b).refcnt 1 }) c)
  hit-IsGot b e =
      let (i, t) = found-some (λ a. caches dev blockno (c.buf a)) xs b e in
      let y : Buf = record (c.buf b) { refcnt = add32 (c.buf b).refcnt 1 } in
      let here = update-here c.buf b y in
      record {
        held = i;
        block = rw here t;
        cache = same_block-IsCache c.buf b y xs i refl refl refl refl s;
        rest = λ a ne. update-else c.buf b y a ne;
        disk = (refl, refl);
        how = inl (t, here);
      }

  recycle-IsGot :
      (b : ℕ)
      → found (λ a. caches dev blockno (c.buf a)) xs ≡ none
      → found (λ a. is_idle (c.buf a)) (rev_onto xs []) ≡ some b
      → Returns
          (λ ((b', j) : ℕ × Bcache). IsGot c dev blockno xs b' j)
          (recycle dev blockno (some b) c)
  unfolding recycle
  recycle-IsGot b miss e =
      let (i, t) = found-rev (λ a. is_idle (c.buf a)) xs b e in
      let y : Buf = record (c.buf b) {
        dev = dev;
        blockno = blockno;
        valid = false;
        dirty = false;
        refcnt = 1;
      } in
      let here = update-here c.buf b y in
      let absent = found-none (λ a. caches dev blockno (c.buf a)) xs miss in
      returns record {
        held = i;
        block = rw here (ground arith);
        cache = update-IsCache c.buf b y xs refl refl (λ a ia ne re. absent a ia) s;
        rest = λ a ne. update-else c.buf b y a ne;
        disk = (refl, refl);
        how = inr (absent, found-IsOldest c.buf xs b e, here);
      }

  bget-miss :
      found (λ a. caches dev blockno (c.buf a)) xs ≡ none
      → Returns
          (λ ((b, j) : ℕ × Bcache). IsGot c dev blockno xs b j)
          (bget_found dev blockno none c)
        ⊎ ((bget_found dev blockno none c ≡ panic Panic.no_buffers) × IsFull c dev blockno xs)
  unfolding bget_found recycle Back
  bget-miss miss =
      let idle = λ (a : ℕ). is_idle (c.buf a) in
      let back = Seg-Back c.buf nbuf (c.buf nbuf).next xs [] s.ring refl in
      let l = Seg-length c.buf nbuf (c.buf nbuf).next xs s.ring in
      let n = length-rev xs [] in
      let e =
        find_prev_lem nbuf is_idle c.buf (c.buf nbuf).prev (rev_onto xs []) back (omega arith) in
      elim (Option-cases (found idle (rev_onto xs []))) [
        | inl z ↦ inr (
          rw (e, z),
          λ a i.
              let h = has-rev a xs [] in
              (
                found-none (λ a. caches dev blockno (c.buf a)) xs miss a i,
                is_idle-IsBusy (c.buf a) (found-none idle (rev_onto xs []) z a (ground arith)),
              ),
        )
        | inr (b, z) ↦ inl (rw (e, z) (recycle-IsGot b miss z))
      ]

  -- Over a cache in which no block is in two buffers, `bget` returns the buffer that has the block, with
  -- one reference more, or else the least recently used buffer without reference that is not to be
  -- written, now with this block, not valid and with one reference. The list keeps its order, no block is
  -- in two buffers, and no other buffer and nothing on disk changes. Only when no buffer has the block
  -- and each is in use or to be written does it panic.
  pub bget-IsGot :
      Returns (λ ((b, j) : ℕ × Bcache). IsGot c dev blockno xs b j) (bget dev blockno c)
      ⊎ ((bget dev blockno c ≡ panic Panic.no_buffers) × IsFull c dev blockno xs)
  unfolding bget bget_found
  bget-IsGot =
      let hit = λ (a : ℕ). caches dev blockno (c.buf a) in
      let l = Seg-length c.buf nbuf (c.buf nbuf).next xs s.ring in
      let e = find_next_lem nbuf (caches dev blockno) c.buf nbuf (c.buf nbuf).next xs s.ring l in
      elim (Option-cases (found hit xs)) [
        | inl z ↦ let r = bget-miss z in rw (e, z) r
        | inr (b, z) ↦ inl (rw (e, z) (returns (hit-IsGot b z)))
      ]
