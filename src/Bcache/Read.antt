-- ===== src/Bcache/Read.antt =====
-- bio.c: what `bread` returns.
use xv6_memory_management_im.Common.{
  ℕ, ◌<◌, ◌≡◌, ◌≢◌, refl, ap, sym, ◌∙◌, true, false, ◌||◌, ◌&&◌, List, arith, ◌==◌, ==_iff, has,
  update, Option, some, ◌⊎◌, inl, inr, Bool-cases,
}
use xv6_memory_management_im.Kernel.{ok, panic, Panic, Returns, returns, bind, mono}
use xv6_memory_management_im.Sleeplock.{acquiresleep-some, Sleeplock, acquiresleep, holdingsleep}
use xv6_memory_management_im.Bcache.{
  Buf, Bcache, with_buf, caches, is_idle, bread, bread_locked, iderw,
}
use xv6_memory_management_im.Bcache.Cache.{IsCache, same_block-IsCache, update-here, update-else}
use xv6_memory_management_im.Bcache.Get.{IsGot, IsFull, bget-IsGot}
use xv6_memory_management_im.Bcache.Disk.{IsReady, iderw-read}

-- What `bread` comes to: a locked buffer of the block, the bytes from the buffer that had them or else
-- from the disk.
pub record IsRead (me : ℕ) (c : Bcache) (dev blockno : ℕ) (xs : List ℕ) (b : ℕ) (j : Bcache)
    : Type 0 where
  pub cache : IsCache j.buf xs
  pub held : has b xs ≡ true
  pub block : caches dev blockno (j.buf b) ≡ true
  pub holds : holdingsleep me (j.buf b).lock ≡ true
  pub valid : (j.buf b).valid ≡ true
  pub rest : (a : ℕ) → a ≢ b → j.buf a ≡ c.buf a
  pub disk : (j.disk ≡ c.disk) × (j.disksize ≡ c.disksize)
  pub bytes :
      ((caches dev blockno (c.buf b) ≡ true)
        × ((c.buf b).valid ≡ true)
        × ((j.buf b).block ≡ (c.buf b).block))
      ⊎ (((a : ℕ) → has a xs ≡ true → (caches dev blockno (c.buf a) && (c.buf a).valid) ≡ false)
          × ((j.buf b).block ≡ c.disk blockno))

-- A buffer that `bget` may return for the block is not locked, and a buffer that is not valid is not to
-- be written.
pub record IsSettled (c : Bcache) (dev blockno : ℕ) (xs : List ℕ) : Type 0 where
  pub free :
      (a : ℕ)
      → has a xs ≡ true
      → (caches dev blockno (c.buf a) || is_idle (c.buf a)) ≡ true
      → (c.buf a).lock.locked ≡ false
  pub clean : (a : ℕ) → has a xs ≡ true → (c.buf a).valid ≡ false → (c.buf a).dirty ≡ false

module _ (c : Bcache) (dev blockno : ℕ) (xs : List ℕ) (t : IsSettled c dev blockno xs) (b : ℕ)
    (j : Bcache) (g : IsGot c dev blockno xs b j) where
  got_free : (j.buf b).lock.locked ≡ false
  got_free = elim g.how [
    | inl (u, e) ↦ ap (λ (t : Buf). t.lock.locked) e ∙ t.free b g.held (rw u refl)
    | inr (none_has, idle, e) ↦
        let n = idle.unused in
        let m = idle.clean in ap (λ (t : Buf). t.lock.locked) e ∙ t.free b g.held (ground arith)
  ]

  got_clean : (j.buf b).valid ≡ false → (j.buf b).dirty ≡ false
  got_clean v = elim g.how [
    | inl (u, e) ↦
        ap (λ (t : Buf). t.dirty) e ∙ t.clean b g.held (sym (ap (λ (t : Buf). t.valid) e) ∙ v)
    | inr (none_has, idle, e) ↦ ap (λ (t : Buf). t.dirty) e
  ]

module _ (c : Bcache) (blockno : ℕ) (xs : List ℕ) (s : IsCache c.buf xs) (b : ℕ) (j : Bcache)
    (g : IsGot c 1 blockno xs b j) where
  got_hit :
      (j.buf b).valid ≡ true
      → (caches 1 blockno (c.buf b) ≡ true)
        × ((c.buf b).valid ≡ true)
        × ((j.buf b).block ≡ (c.buf b).block)
  got_hit v = elim g.how [
    | inl (u, e) ↦ (u, sym (ap (λ (t : Buf). t.valid) e) ∙ v, ap (λ (t : Buf). t.block) e)
    | inr (none_has, idle, e) ↦ absurd (let h = ap (λ (t : Buf). t.valid) e in cc)
  ]

  got_miss :
      (j.buf b).valid ≡ false
      → (a : ℕ) → has a xs ≡ true
      → (caches 1 blockno (c.buf a) && (c.buf a).valid) ≡ false
  got_miss v a i = elim g.how [
    | inl (u, e) ↦ elim (Bool-cases (caches 1 blockno (c.buf a))) [
      | inr z ↦ rw z refl
      | inl z ↦
          let q = s.once b a g.held i (ground arith) (ground arith) (ground arith) in
          let w = sym (ap (λ (t : Buf). t.valid) e) ∙ v in let h = rw q at w in ground arith
    ]
    | inr (none_has, idle, e) ↦ let z = none_has a i in rw z refl
  ]

module _ (me b : ℕ) (lk : Sleeplock) (c : Bcache) where
  abbrev with_lock : Bcache
  with_lock = with_buf b (record (c.buf b) { lock = lk }) c

  bread_locked-valid :
      (with_lock.buf b).valid ≡ true → bread_locked me b (some lk) c ≡ ok (some b, with_lock)
  unfolding bread_locked
  bread_locked-valid v = rw v refl

  bread_locked-iderw :
      (d : Bcache)
      → (with_lock.buf b).valid ≡ false
      → iderw me b with_lock ≡ ok d
      → bread_locked me b (some lk) c ≡ ok (some b, d)
  unfolding bread_locked
  bread_locked-iderw d v e = rw (v, e) refl

module _ (me : ℕ) (c : Bcache) (blockno : ℕ) (xs : List ℕ) (s : IsCache c.buf xs) where
  abbrev Read : ℕ → Option ℕ × Bcache → Type 0
  Read b = λ ((r, k) : Option ℕ × Bcache). (r ≡ some b) × IsRead me c 1 blockno xs b k

  module _ (b : ℕ) (j : Bcache) (g : IsGot c 1 blockno xs b j) where
    abbrev mine : Sleeplock
    mine = record { locked = true; pid = me }

    abbrev locked_buf : Buf
    locked_buf = record (j.buf b) { lock = mine }

    abbrev locked_cache : Bcache
    locked_cache = with_lock me b mine j

    here : locked_cache.buf b ≡ locked_buf
    here = update-here j.buf b locked_buf

    holds_mine : holdingsleep me mine ≡ true
    unfolding holdingsleep
    holds_mine = let z : (me == me) ≡ true = (==_iff me me).1 refl in rw z refl

    locked-IsCache : IsCache locked_cache.buf xs
    locked-IsCache = same_block-IsCache j.buf b locked_buf xs g.held refl refl refl refl g.cache

    pub bread_locked-hit :
        (j.buf b).valid ≡ true → Returns (Read b) (bread_locked me b (some mine) j)
    bread_locked-hit v =
        let (h, w, y) = got_hit c blockno xs s b j g v in
        let e = bread_locked-valid me b mine j (rw here v) in
        rw e (
          returns (
            refl,
            record {
              cache = locked-IsCache;
              held = g.held;
              block = rw here g.block;
              holds = rw here holds_mine;
              valid = rw here v;
              rest = λ a ne. update-else j.buf b locked_buf a ne ∙ g.rest a ne;
              disk = g.disk;
              bytes = inl (h, w, ap (λ (t : Buf). t.block) here ∙ y);
            },
          ))

    bread_locked-miss :
        IsSettled c 1 blockno xs
        → blockno < c.disksize
        → (j.buf b).valid ≡ false
        → Returns (Read b) (bread_locked me b (some mine) j)
    bread_locked-miss t l v =
        let f = locked_cache.buf in
        let h = g.block in
        let n : (j.buf b).blockno ≡ blockno = ground arith in
        let r : IsReady me locked_cache b = record {
          holds = rw here holds_mine;
          dev = rw here (ground arith);
          size = (let z = g.disk.1 in rw (here, n, z) l);
        } in
        let w : Buf = record (f b) { block = j.disk (f b).blockno; valid = true } in
        let i =
          iderw-read me b locked_cache r (rw here (got_clean c 1 blockno xs t b j g v))
            (rw here v) in
        let e = bread_locked-iderw me b mine j (with_buf b w locked_cache) (rw here v) i in
        let now : update f b w b
            ≡ record locked_buf { block = j.disk (j.buf b).blockno; valid = true } =
          update-here f b w
          ∙ ap (λ (t : Buf). record t { block = j.disk t.blockno; valid = true }) here in
        rw e (
          returns (
            refl,
            record {
              cache = same_block-IsCache f b w xs g.held refl refl refl refl locked-IsCache;
              held = g.held;
              block = rw now h;
              holds = rw now holds_mine;
              valid = rw now refl;
              rest = λ a ne.
                  update-else f b w a ne ∙ (update-else j.buf b locked_buf a ne ∙ g.rest a ne);
              disk = g.disk;
              bytes = inr (
                got_miss c blockno xs s b j g v,
                ap (λ (t : Buf). t.block) now ∙ (ap j.disk n ∙ ap (λ d. d blockno) g.disk.0),
              );
            },
          ))

    got-Read :
        IsSettled c 1 blockno xs
        → blockno < c.disksize
        → Returns (Read b) (bread_locked me b (acquiresleep me (j.buf b).lock) j)
    got-Read t l =
        let e = acquiresleep-some me (j.buf b).lock (got_free c 1 blockno xs t b j g) in
        rw e (elim (Bool-cases (j.buf b).valid) [
          | inl v ↦ bread_locked-hit v
          | inr v ↦ bread_locked-miss t l v
        ])

  -- Over a cache in which no block is in two buffers and no candidate is locked, `bread` of a block of the
  -- disk returns a valid buffer of the block, locked by the caller: with the bytes of the valid buffer that
  -- had the block, or, when none did, those on the disk. No other buffer and nothing on disk changes. It
  -- panics only as `bget` does, when there is no buffer to use.
  pub bread-IsRead :
      IsSettled c 1 blockno xs
      → blockno < c.disksize
      → Returns
          (λ ((r, k) : Option ℕ × Bcache). (b : ℕ) × (r ≡ some b) × IsRead me c 1 blockno xs b k)
          (bread me 1 blockno c)
        ⊎ ((bread me 1 blockno c ≡ panic Panic.no_buffers) × IsFull c 1 blockno xs)
  unfolding bread
  bread-IsRead t l = elim (bget-IsGot c 1 blockno xs s) [
    | inl r ↦ inl (bind r (λ (b, j) g. mono (got-Read b j g t l) (λ (o, k) h. (b, h.0, h.1))))
    | inr (e, full) ↦ inr (rw e refl, full)
  ]
