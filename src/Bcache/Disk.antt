-- ===== src/Bcache/Disk.antt =====
-- bio.c and memide.c: `bwrite` writes a buffer to the disk.
use xv6_memory_management_im.Common.{
  ℕ, ◌<◌, ◌≡◌, ◌≢◌, refl, ap, ◌∙◌, true, false, List, arith, has, update, leb, inl, inr, Bool-cases,
}
use xv6_memory_management_im.Kernel.{ok, Returns, returns}
use xv6_memory_management_im.Sleeplock.{holdingsleep}
use xv6_memory_management_im.Bcache.{Buf, Bcache, with_buf, bwrite, iderw}
use xv6_memory_management_im.Bcache.Cache.{IsCache, same_block-IsCache, update-here, update-else}

-- The buffer `b` is held, and its block is one of the disk.
pub record IsReady (me : ℕ) (c : Bcache) (b : ℕ) : Type 0 where
  pub holds : holdingsleep me (c.buf b).lock ≡ true
  pub dev : (c.buf b).dev ≡ 1
  pub size : (c.buf b).blockno < c.disksize

pub iderw-write :
    (me b : ℕ) (c : Bcache)
    → IsReady me c b
    → (c.buf b).dirty ≡ true
    → iderw me b c
      ≡ ok (record (with_buf b (record (c.buf b) { dirty = false; valid = true }) c) {
        disk = update c.disk (c.buf b).blockno (c.buf b).block;
      })
unfolding iderw
iderw-write me b c r d =
    let h = r.holds in
    let v = r.dev in
    let e : leb c.disksize (c.buf b).blockno ≡ false = (let l = r.size in ground arith) in
    elim (Bool-cases (c.buf b).valid) [
      | inl z ↦ rw (h, d, z, v, e) refl
      | inr z ↦ rw (h, d, z, v, e) refl
    ]

pub iderw-read :
    (me b : ℕ) (c : Bcache)
    → IsReady me c b
    → (c.buf b).dirty ≡ false
    → (c.buf b).valid ≡ false
    → iderw me b c
      ≡ ok (with_buf b (record (c.buf b) { block = c.disk (c.buf b).blockno; valid = true }) c)
unfolding iderw
iderw-read me b c r d z =
    let h = r.holds in
    let v = r.dev in
    let e : leb c.disksize (c.buf b).blockno ≡ false = (let l = r.size in ground arith) in
    rw (h, d, z, v, e) refl

-- What `bwrite` comes to.
pub record IsWritten (c : Bcache) (xs : List ℕ) (b : ℕ) (j : Bcache) : Type 0 where
  pub cache : IsCache j.buf xs
  pub this : j.buf b ≡ record (c.buf b) { valid = true; dirty = false }
  pub rest : (a : ℕ) → a ≢ b → j.buf a ≡ c.buf a
  pub disk : j.disk ≡ update c.disk (c.buf b).blockno (c.buf b).block
  pub disksize : j.disksize ≡ c.disksize

pub bwrite-IsWritten :
    (me : ℕ) (c : Bcache) (xs : List ℕ) (b : ℕ)
    → IsCache c.buf xs
    → has b xs ≡ true
    → IsReady me c b
    → Returns (IsWritten c xs b) (bwrite me b c)
unfolding bwrite
bwrite-IsWritten me c xs b s i r =
    let y : Buf = record (c.buf b) { dirty = true } in
    let f = update c.buf b y in
    let here : f b ≡ y = update-here c.buf b y in
    let w : Buf = record (f b) { dirty = false; valid = true } in
    let t = same_block-IsCache c.buf b y xs i refl refl refl refl s in
    let h = r.holds in
    let v =
      iderw-write me b (with_buf b y c)
        record {
          holds = ap (λ (t : Buf). holdingsleep me t.lock) here ∙ r.holds;
          dev = ap (λ (t : Buf). t.dev) here ∙ r.dev;
          size = (let e = ap (λ (t : Buf). t.blockno) here in let l = r.size in rw e l);
        }
        (ap (λ (t : Buf). t.dirty) here) in
    rw h (
      rw v (
        returns record {
          cache = same_block-IsCache f b w xs i refl refl refl refl t;
          this =
              update-here f b w ∙ ap (λ (t : Buf). record t { dirty = false; valid = true }) here;
          rest = λ a ne. update-else f b w a ne ∙ update-else c.buf b y a ne;
          disk = ap (λ (t : Buf). update c.disk t.blockno t.block) here;
          disksize = refl;
        }))
