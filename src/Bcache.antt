-- ===== src/Bcache.antt =====
-- bio.c: the cache of disk blocks, a circular list of buffers with the most recently used first, over
-- the disk in memory of memide.c. A `struct buf *` is an index, `nbuf` for the head of the list. The
-- spin lock of the cache is held by one call at a time.
pub mod Ring
pub mod Find
pub mod Cache
pub mod Get
pub mod Release
pub mod Init
pub mod Disk
pub mod Read
pub mod Roundtrip
mod Tests
use xv6_memory_management_im.Common.{
  ℕ, zero, suc, ◌+◌, ◌-◌, ◌*◌, ◌/◌, ◌%◌, ◌≤◌, ◌<◌, ◌≡◌, ◌≢◌, refl, ap, sym, ◌∙◌, Bool, true, false,
  not, ◌||◌, ◌&&◌, List, [], ◌∷◌, ◌++◌, arith, if◌then◌else◌, ◌==◌, ==-false_of_ne, ==_iff, length,
  length-append, has, has-append, has-ne, update, ltb, leb, All, Option, none, some, ◌⊎◌, inl, inr,
  Bool-cases, Option-cases, ◌↔◌, some_inj, some_eq, ltb→lt, lt→ltb, get_elem?, set,
}
use xv6_memory_management_im.Common.Word.{
  add32, sub32, pgsize, word_mod, pg_round_up, pg_round_down, test_bit, set_bit, clear_bit,
}
use xv6_memory_management_im.Kernel.Layout.{kernbase, phystop, v2p, p2v, frame}
use xv6_memory_management_im.Kernel.{
  Run, ok, panic, stuck, Panic, panic_if, Returns, returns, bind, mono, result, >>=-eq-ok, ok_eq,
  ◌>>=◌, ◌>>◌,
}
use xv6_memory_management_im.Sleeplock.{
  Sleeplock, initsleeplock, acquiresleep, releasesleep, holdingsleep,
}

abbrev pub nbuf : ℕ
nbuf = 30

-- `struct buf`, with its two flags; the queue of the driver of ide.c is left out. A block is a function from the index of a word to the word.
pub record Buf : Type 0 where
  pub valid : Bool
  pub dirty : Bool
  pub dev : ℕ
  pub blockno : ℕ
  pub lock : Sleeplock
  pub refcnt : ℕ
  pub prev : ℕ
  pub next : ℕ
  pub block : ℕ → ℕ

-- `bcache` with `memdisk` and `disksize`.
pub record Bcache : Type 0 where
  pub buf : ℕ → Buf
  pub disk : ℕ → ℕ → ℕ
  pub disksize : ℕ

unfoldable pub set_prev : ℕ → ℕ → (ℕ → Buf) → ℕ → Buf
set_prev i v f = update f i (record (f i) { prev = v })

unfoldable pub set_next : ℕ → ℕ → (ℕ → Buf) → ℕ → Buf
set_next i v f = update f i (record (f i) { next = v })

-- `b` put behind the head of the list.
unfoldable pub push_front : ℕ → (ℕ → Buf) → ℕ → Buf
push_front b f =
    let f1 = set_prev b nbuf (set_next b (f nbuf).next f) in
    let f2 = set_prev (f1 nbuf).next b f1 in set_next nbuf b f2

-- `b` taken off the list.
unfoldable pub unlink : ℕ → (ℕ → Buf) → ℕ → Buf
unlink b f = let f1 = set_prev (f b).next (f b).prev f in set_next (f1 b).prev (f1 b).next f1

-- The loop of `binit`.
unfoldable pub binit_loop : ℕ → ℕ → (ℕ → Buf) → ℕ → Buf
binit_loop zero b f = f
binit_loop (suc n) b f =
    let g = push_front b f in
    binit_loop n (b + 1) (update g b (record (g b) { lock = initsleeplock (g b).lock }))

unfoldable pub binit : Bcache → Bcache
binit c = record c { buf = binit_loop nbuf 0 (set_next nbuf nbuf (set_prev nbuf nbuf c.buf)) }

-- The loops of `bget`: the first buffer that passes the test, from `b` on, forwards or backwards.
unfoldable pub find_next : ℕ → ℕ → (Buf → Bool) → (ℕ → Buf) → Run (Option ℕ)
find_next zero b test f = stuck
find_next (suc n) b test f =
    let rest = find_next n (f b).next test f in
    if b == nbuf then ok none else if test (f b) then ok (some b) else rest

unfoldable pub find_prev : ℕ → ℕ → (Buf → Bool) → (ℕ → Buf) → Run (Option ℕ)
find_prev zero b test f = stuck
find_prev (suc n) b test f =
    let rest = find_prev n (f b).prev test f in
    if b == nbuf then ok none else if test (f b) then ok (some b) else rest

abbrev pub caches : ℕ → ℕ → Buf → Bool
caches dev blockno b = (b.dev == dev) && (b.blockno == blockno)

abbrev pub is_idle : Buf → Bool
is_idle b = (b.refcnt == 0) && not b.dirty

abbrev pub with_buf : ℕ → Buf → Bcache → Bcache
with_buf b x c = record c { buf = update c.buf b x }

-- `bget` when the block is not cached: the buffer found is recycled.
unfoldable pub recycle : ℕ → ℕ → Option ℕ → Bcache → Run (ℕ × Bcache)
recycle dev blockno none c = panic Panic.no_buffers
recycle dev blockno (some b) c =
    let x = record (c.buf b) {
      dev = dev;
      blockno = blockno;
      valid = false;
      dirty = false;
      refcnt = 1;
    } in
    ok (b, with_buf b x c)

unfoldable pub bget_found : ℕ → ℕ → Option ℕ → Bcache → Run (ℕ × Bcache)
bget_found dev blockno (some b) c =
    ok (b, with_buf b (record (c.buf b) { refcnt = add32 (c.buf b).refcnt 1 }) c)
bget_found dev blockno none c = do
  idle ← find_prev (nbuf + 1) (c.buf nbuf).prev is_idle c.buf
  recycle dev blockno idle c

-- `bget` up to the call of `acquiresleep`.
unfoldable pub bget : ℕ → ℕ → Bcache → Run (ℕ × Bcache)
bget dev blockno c = do
  hit ← find_next (nbuf + 1) (c.buf nbuf).next (caches dev blockno) c.buf
  bget_found dev blockno hit c

-- `iderw` of memide.c.
unfoldable pub iderw : ℕ → ℕ → Bcache → Run Bcache
iderw me b c =
    let x = c.buf b in
    do
      panic_if (not (holdingsleep me x.lock)) Panic.iderw_not_locked
      panic_if (x.valid && not x.dirty) Panic.iderw_nothing
      panic_if (not (x.dev == 1)) Panic.iderw_disk
      panic_if (leb c.disksize x.blockno) Panic.iderw_range
      ok (
          if x.dirty
          then record (with_buf b (record x { dirty = false; valid = true }) c) {
            disk = update c.disk x.blockno x.block;
          }
          else with_buf b (record x { block = c.disk x.blockno; valid = true }) c)

-- `bread` once the buffer `b` has been found: none when the caller sleeps on its lock.
unfoldable pub bread_locked : ℕ → ℕ → Option Sleeplock → Bcache → Run (Option ℕ × Bcache)
bread_locked me b none c = ok (none, c)
bread_locked me b (some lk) c =
    let c1 = with_buf b (record (c.buf b) { lock = lk }) c in
    do c2 ← (if (c1.buf b).valid then ok c1 else iderw me b c1); ok (some b, c2)

unfoldable pub bread : ℕ → ℕ → ℕ → Bcache → Run (Option ℕ × Bcache)
bread me dev blockno c = do
  (b, c1) ← bget dev blockno c
  bread_locked me b (acquiresleep me (c1.buf b).lock) c1

unfoldable pub bwrite : ℕ → ℕ → Bcache → Run Bcache
bwrite me b c = do
  panic_if (not (holdingsleep me (c.buf b).lock)) Panic.bwrite
  iderw me b (with_buf b (record (c.buf b) { dirty = true }) c)

unfoldable pub brelse : ℕ → ℕ → Bcache → Run Bcache
brelse me b c = do
  panic_if (not (holdingsleep me (c.buf b).lock)) Panic.brelse
  let f =
      update c.buf b
        (record (c.buf b) { lock = releasesleep (c.buf b).lock; refcnt = sub32 (c.buf b).refcnt 1 })
  ok (record c { buf = if (f b).refcnt == 0 then push_front b (unlink b f) else f })
