-- ===== src/Fs/Put.antt =====
-- fs.c: `iput` drops a reference.
use xv6_memory_management_im.Common.{
  ℕ, ◌-◌, ◌<◌, ◌≡◌, ◌≢◌, refl, Bool, true, false, ◌&&◌, ◌==◌, ==-false_of_ne, ==_iff, update, some,
}
use xv6_memory_management_im.Kernel.{ok, Returns, returns}
use xv6_memory_management_im.Sleeplock.{Sleeplock, releasesleep, acquiresleep-some}
use xv6_memory_management_im.Fs.{Fs, Inode, ninode, with_inode, iput, iput_locked, iput_free}
use xv6_memory_management_im.Fs.Inodes.{IsIcache, same_inode-IsIcache}

-- The entry `ip` of `j` is `y`, and nothing else differs from `d`.
pub record IsChanged (ip : ℕ) (y : Inode) (d j : Fs) : Type 0 where
  pub this : j.inode ip ≡ y
  pub others : (a : ℕ) → a ≢ ip → j.inode a ≡ d.inode a
  pub rest : (j.sb ≡ d.sb) × (j.bitmap ≡ d.bitmap) × (j.dinode ≡ d.dinode) × (j.words ≡ d.words)

-- The inode is to be freed when `iput` drops a reference.
abbrev pub is_last : Inode → Bool
is_last x = (x.valid && (x.disk.nlink == 0)) && (x.ref == 1)

iput_free-kept : (ip : ℕ) (d : Fs) → is_last (d.inode ip) ≡ false → iput_free ip d ≡ ok d
unfolding iput_free
iput_free-kept ip d e = rw e refl

iput_locked-some :
    (ip : ℕ) (lk : Sleeplock) (d d1 : Fs)
    → iput_free ip (with_inode ip (record (d.inode ip) { lock = lk }) d) ≡ ok d1
    → iput_locked ip (some lk) d
      ≡ ok (
          some (
            with_inode ip
              (record (d1.inode ip) {
                lock = releasesleep (d1.inode ip).lock;
                ref = (d1.inode ip).ref - 1;
              })
              d1))
unfolding iput_locked
iput_locked-some ip lk d d1 e = rw e refl

-- Of an entry in use whose lock is free, and which is not the last reference to a valid inode without
-- links, `iput` drops one reference and leaves the lock free. The cache keeps no inode in two entries, and
-- nothing else changes, on disk or in the cache.
pub iput-IsChanged :
    (me ip : ℕ) (d : Fs)
    → IsIcache d.inode
    → ip < ninode
    → 0 < (d.inode ip).ref
    → (d.inode ip).lock.locked ≡ false
    → is_last (d.inode ip) ≡ false
    → Returns
        (λ r.
          (j : Fs) × (r ≡ some j)
          × IsIcache j.inode
          × IsChanged ip
              (record (d.inode ip) {
                ref = (d.inode ip).ref - 1;
                lock = record { locked = false; pid = 0 };
              })
              d
              j)
        (iput me ip d)
unfolding iput releasesleep
iput-IsChanged me ip d s l r u k =
    let z : (ip == ip) ≡ true = (==_iff ip ip).1 refl in
    let y : Inode = record (d.inode ip) { lock = record { locked = true; pid = me } } in
    let f = update d.inode ip y in
    let here : f ip ≡ y = rw z refl in
    let a = acquiresleep-some me (d.inode ip).lock u in
    let e = iput_free-kept ip (with_inode ip y d) (rw here k) in
    let w : Inode = record (f ip) { lock = releasesleep (f ip).lock; ref = (f ip).ref - 1 } in
    let v =
      same_inode-IsIcache f ip w l (rw here r) refl refl
        (same_inode-IsIcache d.inode ip y l r refl refl s) in
    let h = iput_locked-some ip record { locked = true; pid = me } d (with_inode ip y d) e in
    rw a (
      rw h (
        returns (
          with_inode ip w (with_inode ip y d),
          refl,
          v,
          record {
            this = rw z refl;
            others = λ b ne. (let n : (b == ip) ≡ false = ==-false_of_ne b ip ne in rw n refl);
            rest = (refl, refl, refl, refl);
          },
        )))
