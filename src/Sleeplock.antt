-- ===== src/Sleeplock.antt =====
-- sleeplock.c: a lock that a process may hold while it sleeps. Its spin lock is held by one call at a
-- time.
use xv6_memory_management_im.Common.{◌≡◌, refl}
use xv6_memory_management_im.Common.{
  ℕ, Bool, true, false, ◌&&◌, if◌then◌else◌, ◌==◌, Option, none, some,
}

-- `struct sleeplock`, less its spin lock and its name.
pub record Sleeplock : Type 0 where
  pub locked : Bool
  pub pid : ℕ

unfoldable pub initsleeplock : Sleeplock → Sleeplock
initsleeplock lk = record lk { locked = false; pid = 0 }

-- A turn of the loop of `acquiresleep` by the process `me`: none when it sleeps on the lock.
unfoldable pub acquiresleep : ℕ → Sleeplock → Option Sleeplock
acquiresleep me lk = if lk.locked then none else some (record lk { locked = true; pid = me })

-- `releasesleep`, which wakes the processes that sleep on the lock.
unfoldable pub releasesleep : Sleeplock → Sleeplock
releasesleep lk = record lk { locked = false; pid = 0 }

unfoldable pub holdingsleep : ℕ → Sleeplock → Bool
holdingsleep me lk = lk.locked && (lk.pid == me)

-- A lock that nobody holds is had at once.
pub acquiresleep-some :
    (me : ℕ) (lk : Sleeplock)
    → lk.locked ≡ false
    → acquiresleep me lk ≡ some record { locked = true; pid = me }
unfolding acquiresleep
acquiresleep-some me lk u = rw u refl
