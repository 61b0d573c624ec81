-- ===== src/Fs.antt =====
-- fs.c: blocks, inodes and the cache of inodes, for one device, with the blocks as `bread` shows them (the
-- cache of blocks and the log are bio.c and log.c). A block is what it holds: bytes of the bitmap, inodes,
-- or words, as the addresses of an indirect block. A `struct inode *` is an index of the cache. The count
-- `ref` of an entry is a number without a bound: it counts working directories, open files and calls at
-- work, at most a few for each of 64 processes and 100 files, far below the limit of the int.
pub mod Bits
pub mod Blocks
pub mod Alloc
pub mod Address
pub mod Bmap
pub mod Put
pub mod Inodes
mod Tests
use xv6_memory_management_im.Common.{◌^◌}
use xv6_memory_management_im.Common.{
  ℕ, zero, suc, ◌+◌, ◌-◌, ◌*◌, ◌/◌, ◌%◌, ◌≤◌, ◌<◌, ◌≡◌, ◌≢◌, refl, ap, sym, ◌∙◌, Bool, true, false,
  not, ◌||◌, ◌&&◌, List, [], ◌∷◌, ◌++◌, arith, if◌then◌else◌, ◌==◌, ==-false_of_ne, ==_iff, length,
  length-append, has, has-append, has-ne, update, ltb, leb, All, Option, none, some, ◌⊎◌, inl, inr,
  Bool-cases, Option-cases, ◌↔◌, some_inj, some_eq, ltb→lt, lt→ltb, get_elem?, set,
}
use xv6_memory_management_im.Common.Word.{
  add32, sub32, pgsize, word_mod, pg_round_up, pg_round_down, test_bit, set_bit, clear_bit,
}
use xv6_memory_management_im.Kernel.Layout.{kernbase, phystop, v2p, p2v, frame}
use xv6_memory_management_im.Kernel.{
  Run, ok, panic, stuck, Panic, panic_if, Returns, returns, bind, mono, result, >>=-eq-ok, ok_eq,
  ◌>>=◌, ◌>>◌,
}
use xv6_memory_management_im.Sleeplock.{Sleeplock, acquiresleep, releasesleep, holdingsleep}

-- The fields of `struct superblock` that the functions below read.
pub record Super : Type 0 where
  pub size : ℕ
  pub ninodes : ℕ
  pub bmapstart : ℕ

-- `struct dinode`
pub record Dinode : Type 0 where
  pub kind : ℕ
  pub major : ℕ
  pub minor : ℕ
  pub nlink : ℕ
  pub size : ℕ
  pub addrs : ℕ → ℕ

-- `struct inode`, with its copy of the inode on disk.
pub record Inode : Type 0 where
  pub dev : ℕ
  pub inum : ℕ
  pub ref : ℕ
  pub lock : Sleeplock
  pub valid : Bool
  pub disk : Dinode

-- `sb`, the blocks of the disk, and `icache`. An inode of the disk is at its number, which `IBLOCK` and
-- `inum % IPB` locate.
pub record Fs : Type 0 where
  pub sb : Super
  pub bitmap : ℕ → ℕ → ℕ
  pub dinode : ℕ → Dinode
  pub words : ℕ → ℕ → ℕ
  pub inode : ℕ → Inode

abbrev pub bpb : ℕ
bpb = 4096

abbrev pub ndirect : ℕ
ndirect = 12

abbrev pub nindirect : ℕ
nindirect = 128

abbrev pub ninode : ℕ
ninode = 50

abbrev pub bblock : ℕ → Super → ℕ
bblock b sb = b / bpb + sb.bmapstart

-- `bzero`
unfoldable pub bzero : ℕ → Fs → Fs
bzero bno d = record d { words = update d.words bno (λ i. 0) }

-- The inner loop of `balloc`: the first free bit of the bitmap block of `b`, from `bi` on.
unfoldable pub scan_bits : ℕ → ℕ → ℕ → Fs → Option ℕ
scan_bits zero bi b d = none
scan_bits (suc n) bi b d =
    let rest = scan_bits n (bi + 1) b d in
    if ltb (b + bi) d.sb.size
    then (if test_bit (d.bitmap (bblock b d.sb) (bi / 8)) (2 ^ (bi % 8)) then rest else some bi)
    else none

-- `data[bi/8] |= m` in the bitmap block of `b`.
unfoldable pub mark_bit : ℕ → ℕ → Fs → Fs
mark_bit b bi d =
    let bytes = d.bitmap (bblock b d.sb) in
    record d {
      bitmap =
          update d.bitmap (bblock b d.sb)
            (update bytes (bi / 8) (set_bit (bytes (bi / 8)) (2 ^ (bi % 8))));
    }

-- `balloc` once it has looked at the bitmap block of `b`.
unfoldable pub balloc_found : ℕ → Option ℕ → Fs → Run (ℕ × Fs) → Run (ℕ × Fs)
balloc_found b none d rest = rest
balloc_found b (some bi) d rest = ok (b + bi, bzero (b + bi) (mark_bit b bi d))

unfoldable pub balloc_loop : ℕ → ℕ → Fs → Run (ℕ × Fs)
balloc_loop zero b d = stuck
balloc_loop (suc n) b d =
    let rest = balloc_loop n (b + bpb) d in
    if ltb b d.sb.size
    then balloc_found b (scan_bits bpb 0 b d) d rest
    else panic Panic.out_of_blocks

unfoldable pub balloc : Fs → Run (ℕ × Fs)
balloc d = balloc_loop (d.sb.size + 1) 0 d

unfoldable pub bfree : ℕ → Fs → Run Fs
bfree b d =
    let bytes = d.bitmap (bblock b d.sb) in
    let bi = b % bpb in
    do
      panic_if (not (test_bit (bytes (bi / 8)) (2 ^ (bi % 8)))) Panic.freeing_free_block
      ok (record d {
        bitmap =
            update d.bitmap (bblock b d.sb)
              (update bytes (bi / 8) (clear_bit (bytes (bi / 8)) (2 ^ (bi % 8))));
      })

abbrev pub with_inode : ℕ → Inode → Fs → Fs
with_inode ip x d = record d { inode = update d.inode ip x }

abbrev pub addr_of : ℕ → ℕ → Fs → ℕ
addr_of ip i d = (d.inode ip).disk.addrs i

-- `ip->addrs[i] = a`
unfoldable pub set_addr : ℕ → ℕ → ℕ → Fs → Fs
set_addr ip i a d =
    let x = d.inode ip in
    with_inode ip (record x { disk = record x.disk { addrs = update x.disk.addrs i a } }) d

unfoldable pub iupdate : ℕ → Fs → Fs
iupdate ip d = record d { dinode = update d.dinode (d.inode ip).inum (d.inode ip).disk }

-- `if(empty == 0 && ip->ref == 0) empty = ip;`
abbrev pub first_empty : Option ℕ → Bool → ℕ → Option ℕ
first_empty (some e) idle ip = some e
first_empty none idle ip = if idle then some ip else none

-- The loop of `iget`: the entry of the inode, or the first entry without a reference.
unfoldable pub find_inode : ℕ → ℕ → ℕ → ℕ → Option ℕ → Fs → Option ℕ ⊎ ℕ
find_inode zero ip dev inum empty d = inl empty
find_inode (suc n) ip dev inum empty d =
    let x = d.inode ip in
    let rest = find_inode n (ip + 1) dev inum (first_empty empty (x.ref == 0) ip) d in
    if ltb 0 x.ref && ((x.dev == dev) && (x.inum == inum)) then inr ip else rest

unfoldable pub iget_found : ℕ → ℕ → Option ℕ ⊎ ℕ → Fs → Run (ℕ × Fs)
iget_found dev inum (inr ip) d =
    ok (ip, with_inode ip (record (d.inode ip) { ref = (d.inode ip).ref + 1 }) d)
iget_found dev inum (inl none) d = panic Panic.iget_no_inodes
iget_found dev inum (inl (some ip)) d =
    ok
      (ip, with_inode ip (record (d.inode ip) { dev = dev; inum = inum; ref = 1; valid = false }) d)

unfoldable pub iget : ℕ → ℕ → Fs → Run (ℕ × Fs)
iget dev inum d = iget_found dev inum (find_inode ninode 0 dev inum none d) d

unfoldable pub idup : ℕ → Fs → Fs
idup ip d = with_inode ip (record (d.inode ip) { ref = (d.inode ip).ref + 1 }) d

-- The loop of `ialloc`, from the inode number `inum` on.
unfoldable pub ialloc_loop : ℕ → ℕ → ℕ → ℕ → Fs → Run (ℕ × Fs)
ialloc_loop zero inum dev kind d = stuck
ialloc_loop (suc n) inum dev kind d =
    let rest = ialloc_loop n (inum + 1) dev kind d in
    let fresh : Dinode = record {
      kind = kind;
      major = 0;
      minor = 0;
      nlink = 0;
      size = 0;
      addrs = λ i. 0;
    } in
    if ltb inum d.sb.ninodes
    then (if (d.dinode inum).kind == 0
        then iget dev inum (record d { dinode = update d.dinode inum fresh })
        else rest)
    else panic Panic.ialloc_no_inodes

unfoldable pub ialloc : ℕ → ℕ → Fs → Run (ℕ × Fs)
ialloc dev kind d = ialloc_loop (d.sb.ninodes + 1) 1 dev kind d

-- `ilock` once it holds the lock: a copy of the inode on disk is read unless there is one.
unfoldable pub ilock_read : ℕ → Fs → Run Fs
ilock_read ip d =
    let x = d.inode ip in
    if x.valid then ok d else (do
      panic_if ((d.dinode x.inum).kind == 0) Panic.ilock_no_type
      ok (with_inode ip (record x { disk = d.dinode x.inum; valid = true }) d))

-- none when the caller sleeps on the lock.
unfoldable pub ilock : ℕ → ℕ → Fs → Run (Option Fs)
ilock me ip d = do
  panic_if (ltb (d.inode ip).ref 1) Panic.ilock
  elim (acquiresleep me (d.inode ip).lock) [
    | none ↦ ok none
    | some lk ↦ do
      d1 ← ilock_read ip (with_inode ip (record (d.inode ip) { lock = lk }) d)
      ok (some d1)
  ]

unfoldable pub iunlock : ℕ → ℕ → Fs → Run Fs
iunlock me ip d = do
  panic_if (not (holdingsleep me (d.inode ip).lock) || ltb (d.inode ip).ref 1) Panic.iunlock
  ok (with_inode ip (record (d.inode ip) { lock = releasesleep (d.inode ip).lock }) d)

-- `bmap` for a block behind the direct ones: the entry `bn` of the indirect block `table`.
unfoldable pub bmap_indirect : ℕ → ℕ → Fs → Run (ℕ × Fs)
bmap_indirect table bn d =
    if d.words table bn == 0
    then (do
      (addr, d1) ← balloc d
      ok (addr, record d1 { words = update d1.words table (update (d1.words table) bn addr) }))
    else ok (d.words table bn, d)

-- The address `i` of the inode, with a block allocated for it if it has none.
unfoldable pub own_addr : ℕ → ℕ → Fs → Run (ℕ × Fs)
own_addr ip i d =
    if addr_of ip i d == 0
    then (do (addr, d1) ← balloc d; ok (addr, set_addr ip i addr d1))
    else ok (addr_of ip i d, d)

unfoldable pub bmap : ℕ → ℕ → Fs → Run (ℕ × Fs)
bmap ip bn d =
    if ltb bn ndirect
    then own_addr ip bn d
    else if ltb (bn - ndirect) nindirect
    then (do (table, d1) ← own_addr ip ndirect d; bmap_indirect table (bn - ndirect) d1)
    else panic Panic.bmap_out_of_range

-- The loops of `itrunc`: over the direct blocks, and over the entries of the indirect block.
unfoldable pub free_direct : ℕ → ℕ → ℕ → Fs → Run Fs
free_direct zero i ip d = ok d
free_direct (suc n) i ip d = do
  d1 ←
      (if addr_of ip i d == 0
        then ok d
        else (do d1 ← bfree (addr_of ip i d) d; ok (set_addr ip i 0 d1)))
  free_direct n (i + 1) ip d1

unfoldable pub free_entries : ℕ → ℕ → (ℕ → ℕ) → Fs → Run Fs
free_entries zero j a d = ok d
free_entries (suc n) j a d = do
  d1 ← (if a j == 0 then ok d else bfree (a j) d)
  free_entries n (j + 1) a d1

unfoldable pub free_indirect : ℕ → Fs → Run Fs
free_indirect ip d =
    let table = addr_of ip ndirect d in
    if table == 0 then ok d else (do
      d1 ← free_entries nindirect 0 (d.words table) d
      d2 ← bfree table d1
      ok (set_addr ip ndirect 0 d2))

-- `ip->size = 0`
unfoldable pub set_empty : ℕ → Fs → Fs
set_empty ip d =
    let x = d.inode ip in with_inode ip (record x { disk = record x.disk { size = 0 } }) d

unfoldable pub itrunc : ℕ → Fs → Run Fs
itrunc ip d = do
  d1 ← free_direct ndirect 0 ip d
  d2 ← free_indirect ip d1
  ok (iupdate ip (set_empty ip d2))

-- The part of `iput` that frees an inode without links and without other references.
unfoldable pub iput_free : ℕ → Fs → Run Fs
iput_free ip d =
    let x = d.inode ip in
    if (x.valid && (x.disk.nlink == 0)) && (x.ref == 1)
    then (do
      d1 ← itrunc ip d
      let y = d1.inode ip
      let d2 = iupdate ip (with_inode ip (record y { disk = record y.disk { kind = 0 } }) d1)
      ok (with_inode ip (record (d2.inode ip) { valid = false }) d2))
    else ok d

-- `iput` once it has asked for the lock: none when the caller sleeps on it.
unfoldable pub iput_locked : ℕ → Option Sleeplock → Fs → Run (Option Fs)
iput_locked ip none d = ok none
iput_locked ip (some lk) d = do
  d1 ← iput_free ip (with_inode ip (record (d.inode ip) { lock = lk }) d)
  let x = d1.inode ip
  ok (some (with_inode ip (record x { lock = releasesleep x.lock; ref = x.ref - 1 }) d1))

unfoldable pub iput : ℕ → ℕ → Fs → Run (Option Fs)
iput me ip d = iput_locked ip (acquiresleep me (d.inode ip).lock) d

unfoldable pub iunlockput : ℕ → ℕ → Fs → Run (Option Fs)
iunlockput me ip d = do d1 ← iunlock me ip d; iput me ip d1
