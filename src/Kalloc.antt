-- ===== src/Kalloc.antt =====
-- kalloc.c: the allocator of 4096-byte pages with its reference counters.
pub mod Alloc
mod Tests
pub mod Refs
pub mod Init
pub mod Invariant
use xv6_memory_management_im.Common.{
  ℕ, zero, suc, ◌+◌, ◌-◌, ◌/◌, ◌%◌, Bool, true, false, not, ◌&&◌, ◌||◌, ltb, leb, ◌==◌,
  if◌then◌else◌, update,
}
use xv6_memory_management_im.Common.Word.{add32, sub32, pgsize, pg_round_down, pg_round_up}
use xv6_memory_management_im.Kernel.{Panic, Run, ok, panic, stuck, ◌>>=◌, ◌>>◌, panic_if}
use xv6_memory_management_im.Kernel.Layout.{phystop, v2p, frame}

-- `kmem` and `gloabl_memory_meta_data`, with the memory that the kernel reaches by its own
-- addresses: `mem a` is the word at the aligned address `a`. A free page holds `struct run`, so
-- `mem r` is `r->next`. `kernel_end` is the linker's `end`, which nothing writes.
pub record Kmem : Type 0 where
  pub kernel_end : ℕ
  pub mem : ℕ → ℕ
  pub locked : Bool
  pub use_lock : Bool
  pub freelist : ℕ
  pub refs : ℕ → ℕ
  pub free_pages : ℕ
  pub total_pages : ℕ

-- `acquire` and `release` of `kmem.lock`, as one CPU sees them.
unfoldable pub acquire : Kmem → Run Kmem
acquire k = if k.locked then panic Panic.acquire else ok (record k { locked = true })

unfoldable pub release : Kmem → Run Kmem
release k = if k.locked then ok (record k { locked = false }) else panic Panic.release

-- `if(kmem.use_lock) acquire(&kmem.lock);` and its end.
unfoldable pub enter : Kmem → Run Kmem
unfolding acquire
enter k = if k.use_lock then acquire k else ok k

unfoldable pub leave : Kmem → Run Kmem
unfolding release
leave k = if k.use_lock then release k else ok k

-- `memset(v, c, PGSIZE)` by words: the word `w` is the byte `c` four times.
unfoldable pub fill_page : (ℕ → ℕ) → ℕ → ℕ → ℕ → ℕ
fill_page mem v w a = if leb v a && ltb a (v + pgsize) then w else mem a

-- The tests by which `kfree` rejects an address.
unfoldable pub bad_page : Kmem → ℕ → Bool
bad_page k v = not (v % pgsize == 0) || ltb v k.kernel_end || leb phystop (v2p v)

-- One reference fewer, if there is any; the page is put on the free list when none is left.
unfoldable pub drop_ref : ℕ → Kmem → Kmem
drop_ref v k =
    let left = k.refs (frame v) - 1 in
    if left == 0
    then record k {
      refs = update k.refs (frame v) left;
      mem = update (fill_page k.mem v 0x0101_0101) v k.freelist;
      freelist = v;
      free_pages = add32 k.free_pages 1;
    }
    else record k { refs = update k.refs (frame v) left }

unfoldable pub kfree : ℕ → Kmem → Run Kmem
unfolding enter leave bad_page drop_ref
kfree v k = do
  panic_if (bad_page k v) Panic.kfree
  k1 ← enter k
  panic_if (k1.use_lock && (k1.refs (frame v) == 0)) Panic.kfree_ref_zero
  leave (drop_ref v k1)

-- The head of the free list is taken off, with one reference; 0 if there is none.
unfoldable pub take_free : Kmem → ℕ × Kmem
take_free k = if k.freelist == 0 then (0, k) else (
  k.freelist,
  record k {
    freelist = k.mem k.freelist;
    free_pages = sub32 k.free_pages 1;
    refs = update k.refs (frame k.freelist) 1;
  },
)

unfoldable pub kalloc : Kmem → Run (ℕ × Kmem)
unfolding enter leave take_free
kalloc k = do k1 ← enter k; let (r, k2) = take_free k1; k3 ← leave k2; ok (r, k3)

-- The range test of `incrementRef` and `decrementRef`.
unfoldable pub bad_ref : Kmem → ℕ → Bool
bad_ref k v = ltb (v2p v) (v2p k.kernel_end) || leb phystop (v2p v)

unfoldable pub increment_ref : ℕ → Kmem → Run Kmem
unfolding enter leave bad_ref
increment_ref v k = do
  panic_if (bad_ref k v) Panic.increment_ref
  k1 ← enter k
  leave (record k1 { refs = update k1.refs (frame v) (add32 (k1.refs (frame v)) 1) })

unfoldable pub decrement_ref : ℕ → Kmem → Run Kmem
unfolding enter leave bad_ref
decrement_ref v k = do
  panic_if (bad_ref k v) Panic.decrement_ref
  k1 ← enter k
  leave (record k1 { refs = update k1.refs (frame v) (sub32 (k1.refs (frame v)) 1) })

unfoldable pub get_ref : ℕ → Kmem → Run (ℕ × Kmem)
unfolding enter leave
get_ref v k = do k1 ← enter k; let res = k1.refs (frame v); k2 ← leave k1; ok (res, k2)

-- `kmemLock` and `kmemRelease`
unfoldable pub kmem_lock : Kmem → Run Kmem
unfolding acquire
kmem_lock k = acquire k

unfoldable pub kmem_release : Kmem → Run Kmem
unfolding release
kmem_release k = release k

-- The loop of `freerange`, from `p` on.
unfoldable pub freerange_loop : ℕ → ℕ → ℕ → Kmem → Run Kmem
unfolding kfree
freerange_loop zero p vend k = stuck
freerange_loop (suc n) p vend k =
    let rest = kfree p k >>= freerange_loop n (add32 p pgsize) vend in
    if leb (add32 p pgsize) vend then rest else ok k

-- One round for each page below `vend`, and one for the test that ends the loop.
unfoldable pub freerange : ℕ → ℕ → Kmem → Run Kmem
unfolding freerange_loop
freerange vstart vend k = freerange_loop (suc (vend / pgsize)) (pg_round_up vstart) vend k

-- The number of whole pages between two addresses, as `kinit1` and `kinit2` compute it.
unfoldable pub page_count : ℕ → ℕ → ℕ
page_count vstart vend = sub32 (pg_round_down vend) (pg_round_up vstart) / pgsize

-- `initlock` clears the lock.
unfoldable pub kinit1 : ℕ → ℕ → Kmem → Run Kmem
unfolding freerange page_count
kinit1 vstart vend k = do
  k1 ← freerange vstart vend (record k { locked = false; use_lock = false })
  ok (record k1 { total_pages = page_count vstart vend })

unfoldable pub kinit2 : ℕ → ℕ → Kmem → Run Kmem
unfolding freerange page_count
kinit2 vstart vend k = do
  k1 ← freerange vstart vend k
  let total = add32 k1.total_pages (page_count vstart vend)
  ok (record k1 { total_pages = total; use_lock = true; free_pages = total })
