-- ===== src/Bcache/Tests.antt =====
-- Blocks read, written and given back, with the buffers 0 and 1 of a fresh cache.
use xv6_memory_management_im.Common.{
  ℕ, ◌≡◌, ◌≢◌, refl, ap, sym, ◌∙◌, true, false, ◌||◌, [], ◌∷◌, arith, if◌then◌else◌, ◌==◌, ==_iff,
  has, Option, none, some, ◌⊎◌, inl, inr, Bool-cases,
}
use xv6_memory_management_im.Kernel.{Run, ok, panic, Panic, Returns, ◌>>=◌}
use mathlib.Core.Bool.{false≢true}
use xv6_memory_management_im.Sleeplock.{acquiresleep, holdingsleep, initsleeplock}
use xv6_memory_management_im.Bcache.{
  Buf, Bcache, binit, binit_loop, push_front, set_prev, set_next, brelse, caches, is_idle, bget,
  bget_found, recycle, bread, bread_locked, bwrite, iderw, find_next, find_prev,
}
use xv6_memory_management_im.Bcache.Cache.{IsCache}
use xv6_memory_management_im.Bcache.Get.{IsGot, IsFull, bget-IsGot}
use xv6_memory_management_im.Bcache.Release.{IsReleased, brelse-IsReleased}
use xv6_memory_management_im.Bcache.Disk.{IsReady}
use xv6_memory_management_im.Bcache.Read.{IsSettled, IsRead, bread-IsRead}
use xv6_memory_management_im.Bcache.Roundtrip.{bread-bwrite}

abbrev blank : Buf
blank = record {
  valid = false;
  dirty = false;
  dev = 0;
  blockno = 0;
  lock = record { locked = false; pid = 0 };
  refcnt = 0;
  prev = 0;
  next = 0;
  block = λ i. 0;
}

-- Memory set to 0, over a disk of 100 blocks of which block k is filled with k.
abbrev start : Bcache
start = record { buf = λ i. blank; disk = λ k i. k; disksize = 100 }

abbrev ready : Bcache
ready = binit start

-- Two buffers on the list: number 4 with block 7, held by process 3, and number 2 without a block.
abbrev two : Bcache
two = record start {
  buf = λ i.
      if i == 4
      then record blank {
        valid = true;
        dev = 1;
        blockno = 7;
        lock = record { locked = true; pid = 3 };
        refcnt = 1;
        prev = 2;
        next = 30;
        block = λ w. 5;
      }
      else if i == 2
      then record blank { prev = 30; next = 4 }
      else record blank { prev = 4; next = 2 };
}

two-number : (a : ℕ) → has a (2 ∷ 4 ∷ []) ≡ true → (a ≡ 2) ⊎ (a ≡ 4)
two-number a i = elim (Bool-cases (a == 2)) [
  | inl e ↦ inl ((==_iff a 2).0 e)
  | inr e ↦ inr (ground arith)
]

two-used : (a : ℕ) → has a (2 ∷ 4 ∷ []) ≡ true → (two.buf a).dev ≢ 0 → a ≡ 4
two-used a i real = elim (two-number a i) [
  | inl e ↦ absurd (real (ap (λ t. (two.buf t).dev) e))
  | inr e ↦ e
]

two-IsCache : IsCache two.buf (2 ∷ 4 ∷ [])
two-IsCache = record {
  ring = (refl, refl, omega arith, refl, (refl, refl, omega arith, refl, (refl, refl)));
  once = λ a b ia ib re de be. two-used a ia re ∙ sym (two-used b ib (λ z. re (de ∙ z)));
}

two-IsReady : IsReady 3 two 4
unfolding holdingsleep
two-IsReady = record { holds = refl; dev = refl; size = omega arith }

two-IsSettled : IsSettled two 1 9 (2 ∷ 4 ∷ [])
two-IsSettled = record {
  free = λ a i candidate. elim (two-number a i) [
    | inl e ↦ ap (λ t. (two.buf t).lock.locked) e
    | inr e ↦
        let z = ap (λ t. caches 1 9 (two.buf t) || is_idle (two.buf t)) (sym e) in
        absurd (false≢true (z ∙ candidate))
  ];
  clean = λ a i v. elim (two-number a i) [
    | inl e ↦ ap (λ t. (two.buf t).dirty) e
    | inr e ↦ ap (λ t. (two.buf t).dirty) e
  ];
}

bget-IsGot_example :
    Returns (λ ((b, j) : ℕ × Bcache). IsGot two 1 9 (2 ∷ 4 ∷ []) b j) (bget 1 9 two)
    ⊎ ((bget 1 9 two ≡ panic Panic.no_buffers) × IsFull two 1 9 (2 ∷ 4 ∷ []))
bget-IsGot_example = bget-IsGot two 1 9 (2 ∷ 4 ∷ []) two-IsCache

brelse-IsReleased_example : Returns (IsReleased two (2 ∷ []) 4 []) (brelse 3 4 two)
brelse-IsReleased_example = brelse-IsReleased 3 two (2 ∷ []) 4 [] two-IsCache two-IsReady.holds

bread-bwrite_example :
    Returns
      (λ ((r, k) : Option ℕ × Bcache).
        (r ≡ some 4)
        × ((k.buf 4).block ≡ (two.buf 4).block)
        × (holdingsleep 8 (k.buf 4).lock ≡ true)
        × (k.disk 7 ≡ (two.buf 4).block)
        × ((n : ℕ) → n ≢ 7 → k.disk n ≡ two.disk n))
      (bwrite 3 4 two >>= λ c1. brelse 3 4 c1 >>= λ c2. bread 8 1 7 c2)
bread-bwrite_example = bread-bwrite 3 8 two (2 ∷ []) 4 [] two-IsCache two-IsReady

bread-IsRead_example :
    Returns
      (λ ((r, k) : Option ℕ × Bcache). (b : ℕ) × (r ≡ some b) × IsRead 5 two 1 9 (2 ∷ 4 ∷ []) b k)
      (bread 5 1 9 two)
    ⊎ ((bread 5 1 9 two ≡ panic Panic.no_buffers) × IsFull two 1 9 (2 ∷ 4 ∷ []))
bread-IsRead_example = bread-IsRead 5 two 9 (2 ∷ 4 ∷ []) two-IsCache two-IsSettled (omega arith)

-- The word 0 of what process 5 reads of block `n` in a fresh cache.
abbrev first_word : Run (Option ℕ × Bcache) → Option ℕ
first_word (ok (some b, c)) = some ((c.buf b).block 0)
first_word (ok (none, c)) = none
first_word _ = none

fresh_read : first_word (bread 5 1 42 ready) ≡ some 42
unfolding binit binit_loop push_front set_prev set_next initsleeplock bread bget bget_found
    find_next find_prev recycle bread_locked acquiresleep iderw holdingsleep
fresh_read = refl
