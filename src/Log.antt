-- ===== src/Log.antt =====
-- log.c: the log of file system calls. A block is a function from the index of a word to the word.
pub mod Recover
pub mod Commit
pub mod Space
pub mod Absorb
pub mod Full
mod Tests
use xv6_memory_management_im.Common.{
  ℕ, zero, suc, ◌+◌, ◌-◌, ◌*◌, ◌/◌, ◌%◌, ◌≤◌, ◌<◌, ◌≡◌, ◌≢◌, refl, ap, sym, ◌∙◌, Bool, true, false,
  not, ◌||◌, ◌&&◌, List, [], ◌∷◌, ◌++◌, arith, if◌then◌else◌, ◌==◌, ==-false_of_ne, ==_iff, length,
  length-append, has, has-append, has-ne, update, ltb, leb, All, Option, none, some, ◌⊎◌, inl, inr,
  Bool-cases, Option-cases, some_eq, ltb→lt, lt→ltb, get_elem?, set,
}
use xv6_memory_management_im.Common.Word.{
  add32, sub32, pgsize, word_mod, pg_round_up, pg_round_down, test_bit, set_bit, clear_bit,
}
use xv6_memory_management_im.Kernel.Layout.{kernbase, phystop, v2p, p2v, frame}
use xv6_memory_management_im.Kernel.{
  Run, ok, panic, stuck, Panic, panic_if, Returns, returns, bind, mono, result, >>=-eq-ok, ok_eq,
  ◌>>=◌, ◌>>◌,
}

abbrev pub Block : Type 0
Block = ℕ → ℕ

abbrev pub Disk : Type 0
Disk = ℕ → Block

abbrev pub logsize : ℕ
logsize = 30

abbrev pub maxopblocks : ℕ
maxopblocks = 10

-- `struct log` (`count` and `block` are its header) with the device below it. The buffer cache is
-- seen through the blocks that differ from the disk: `cache b` is the block `b` of a buffer that is
-- pinned by B_DIRTY. `past` are the disks before each write to the device, the last first: what a
-- crash may leave.
pub record Log : Type 0 where
  pub start : ℕ
  pub size : ℕ
  pub outstanding : ℕ
  pub committing : Bool
  pub count : ℕ
  pub block : ℕ → ℕ
  pub disk : Disk
  pub cache : ℕ → Option Block
  pub past : List Disk

abbrev cached : Option Block → Block → Block
cached (some data1) old = data1
cached none old = old

-- The data of the buffer that `bread` returns.
unfoldable pub bread : ℕ → Log → Block
bread b s = cached (s.cache b) (s.disk b)

-- `bwrite` of a buffer with the given data: the device is written and the buffer is clean.
unfoldable pub bwrite : ℕ → Block → Log → Log
bwrite b data1 s = record s {
  disk = update s.disk b data1;
  cache = update s.cache b none;
  past = s.disk ∷ s.past;
}

-- `install_trans`: from the log to the home blocks, from the entry `tail` on.
unfoldable pub install_loop : ℕ → ℕ → Log → Log
install_loop zero tail s = s
install_loop (suc m) tail s =
    install_loop m (tail + 1) (bwrite (s.block tail) (bread (s.start + tail + 1) s) s)

unfoldable pub install_trans : Log → Log
unfolding install_loop
install_trans s = install_loop s.count 0 s

-- `write_log`: from the cache to the log.
unfoldable pub write_loop : ℕ → ℕ → Log → Log
write_loop zero tail s = s
write_loop (suc m) tail s =
    write_loop m (tail + 1) (bwrite (s.start + tail + 1) (bread (s.block tail) s) s)

unfoldable pub write_log : Log → Log
unfolding write_loop
write_log s = write_loop s.count 0 s

-- The words of the header block: the count, then the block numbers; the rest stays.
unfoldable pub header : ℕ → (ℕ → ℕ) → Block → Block
header n block old i = if i == 0 then n else if leb i n then block (i - 1) else old i

unfoldable pub write_head : Log → Log
write_head s = bwrite s.start (header s.count s.block (bread s.start s)) s

unfoldable pub read_head : Log → Log
read_head s =
    let hb = bread s.start s in
    record s { count = hb 0; block = λ i. if ltb i (hb 0) then hb (i + 1) else s.block i }

unfoldable pub recover_from_log : Log → Log
unfolding read_head install_trans write_head
recover_from_log s = let s1 = install_trans (read_head s) in write_head (record s1 { count = 0 })

-- The log when the machine starts on the disk `d`: nothing is cached.
abbrev pub mounted : ℕ → ℕ → Disk → Log
mounted start size d = record {
  start = start;
  size = size;
  outstanding = 0;
  committing = false;
  count = 0;
  block = λ _. 0;
  disk = d;
  cache = λ _. none;
  past = [];
}

unfoldable pub initlog : ℕ → ℕ → Disk → Log
unfolding recover_from_log
initlog start size d = recover_from_log (mounted start size d)

unfoldable pub commit : Log → Log
unfolding write_log write_head install_trans
commit s =
    let done = install_trans (write_head (write_log s)) in
    if ltb 0 s.count then write_head (record done { count = 0 }) else s

-- One turn of the loop of `begin_op`: none when the caller sleeps.
unfoldable pub begin_op : Log → Option Log
begin_op s =
    if s.committing
    then none
    else if ltb logsize (s.count + (s.outstanding + 1) * maxopblocks)
    then none
    else some (record s { outstanding = s.outstanding + 1 })

-- `end_op`: the last of the calls commits.
unfoldable pub end_op : Log → Run Log
unfolding commit
end_op s =
    let s1 = record s { outstanding = sub32 s.outstanding 1 } in
    do
      panic_if s1.committing Panic.log_committing
      let s2 = commit (record s1 { committing = true })
      ok (if s1.outstanding == 0 then record s2 { committing = false } else s1)

-- The place of a block in the header: the first entry that has it, or the count.
unfoldable pub absorb : ℕ → ℕ → (ℕ → ℕ) → ℕ → ℕ
absorb zero i block b = i
absorb (suc m) i block b = let rest = absorb m (i + 1) block b in if block i == b then i else rest

-- `log_write` of the block `b`, whose buffer holds `data1`.
unfoldable pub log_write : ℕ → Block → Log → Run Log
unfolding absorb
log_write b data1 s =
    let i = absorb s.count 0 s.block b in
    do
      panic_if (leb logsize s.count || leb (s.size - 1) s.count) Panic.log_too_big
      panic_if (ltb s.outstanding 1) Panic.log_outside
      ok (record s {
        block = update s.block i b;
        count = if i == s.count then s.count + 1 else s.count;
        cache = update s.cache b (some data1);
      })
