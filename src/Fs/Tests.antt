-- ===== src/Fs/Tests.antt =====
-- A small file system: blocks 0, 1 and 2 in use, and the inode 7 in entry 1 with one reference.
use xv6_memory_management_im.Common.{
  ℕ, ◌<◌, ◌≡◌, refl, sym, ◌∙◌, true, false, arith, if◌then◌else◌, ◌==◌, ==_iff, Option, none, some,
  ◌⊎◌, inl, inr, Bool-cases,
}
use xv6_memory_management_im.Kernel.{Run, ok, panic, Panic, Returns}
use xv6_memory_management_im.Fs.{
  Fs, Inode, ninode, balloc, balloc_loop, balloc_found, scan_bits, bzero, mark_bit, bmap, iget,
}
use xv6_memory_management_im.Fs.Inodes.{is_cached, IsIcache, IsFound, iget-IsFound}
use xv6_memory_management_im.Fs.Blocks.{in_use, IsAllocated}
use xv6_memory_management_im.Fs.Alloc.{balloc-IsAllocated}
use xv6_memory_management_im.Fs.Bmap.{NoRoom, IsMapped, bmap-IsMapped}

abbrev unused : Inode
unused = record {
  dev = 0;
  inum = 0;
  ref = 0;
  lock = record { locked = false; pid = 0 };
  valid = false;
  disk = record { kind = 0; major = 0; minor = 0; nlink = 0; size = 0; addrs = λ i. 0 };
}

abbrev small : Fs
small = record {
  sb = record { size = 100; ninodes = 20; bmapstart = 5 };
  bitmap = λ b i. if i == 0 then 7 else 0;
  dinode = λ i. unused.disk;
  words = λ b i. 9;
  inode = λ i. if i == 1 then record unused { dev = 1; inum = 7; ref = 1 } else unused;
}

small-used : (a : ℕ) → 0 < (small.inode a).ref → a ≡ 1
small-used a r = elim (Bool-cases (a == 1)) [
  | inl e ↦ (==_iff a 1).0 e
  | inr e ↦ let h = rw e at r in absurd (omega arith)
]

small-IsIcache : IsIcache small.inode
unfolding IsIcache
small-IsIcache a b la lb ra rb de ie = small-used a ra ∙ sym (small-used b rb)

iget-IsFound_example :
    Returns (λ ((ip, j) : ℕ × Fs). IsFound 1 7 small ip j) (iget 1 7 small)
    ⊎ ((iget 1 7 small ≡ panic Panic.iget_no_inodes)
        × ((a : ℕ)
            → a < ninode
            → (is_cached 1 7 (small.inode a) ≡ false) × (0 < (small.inode a).ref)))
iget-IsFound_example = iget-IsFound 1 7 small small-IsIcache

balloc-IsAllocated_example :
    Returns (λ ((x, j) : ℕ × Fs). IsAllocated small x j) (balloc small)
    ⊎ ((balloc small ≡ panic Panic.out_of_blocks) × ((y : ℕ) → y < 100 → in_use small y ≡ true))
balloc-IsAllocated_example = balloc-IsAllocated small

bmap-IsMapped_example :
    Returns (λ ((x, j) : ℕ × Fs). IsMapped 1 20 small x j) (bmap 1 20 small)
    ⊎ ((bmap 1 20 small ≡ panic Panic.out_of_blocks) × NoRoom 1 20 small)
bmap-IsMapped_example = bmap-IsMapped 1 20 small (omega arith) refl (λ i l ne. absurd (ne refl))

-- The block a run allocates.
abbrev block_of : Run (ℕ × Fs) → Option ℕ
block_of (ok (x, d)) = some x
block_of _ = none

first_free_block : block_of (balloc_loop 1 0 small) ≡ some 3
unfolding balloc_loop balloc_found scan_bits bzero mark_bit
first_free_block = refl
