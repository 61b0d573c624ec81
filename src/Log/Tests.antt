-- ===== src/Log/Tests.antt =====
-- log.c: the theorems at a log of two blocks, and a run.
use xv6_memory_management_im.Common.{
  ℕ, zero, suc, ◌+◌, ◌-◌, ◌<◌, ◌≡◌, ◌≢◌, refl, true, false, List, [], ◌∷◌, has, ==-false_of_ne,
  arith, if◌then◌else◌, ◌==◌, length, update, All, none, some, inl, inr, Bool-cases,
}
use xv6_memory_management_im.Kernel.{panic, Panic, Returns}
use xv6_memory_management_im.Log.{
  Block, Disk, Log, logsize, bread, begin_op, log_write, commit, initlog, mounted,
}
use xv6_memory_management_im.Log.Recover.{IsHome, IsCommitted, IsRecovered, initlog-again}
use xv6_memory_management_im.Log.Commit.{IsReady, Outcome, commit-atomic}
use xv6_memory_management_im.Log.Space.{IsReserved, log_write-IsReserved}
use xv6_memory_management_im.Log.Full.{begin_all, write_all, log_write-full}
use xv6_memory_management_im.Common.Pigeon.{Distinct}
use xv6_memory_management_im.Log.Absorb.{IsDistinct, log_write-IsDistinct}

abbrev blocks : ℕ → ℕ
blocks i = if i == 0 then 50 else 60

-- Two blocks have been written in a call, on a disk that is all zeros. The log starts at block 2.
abbrev two_written : Log
two_written = record {
  start = 2;
  size = 31;
  outstanding = 0;
  committing = true;
  count = 2;
  block = blocks;
  disk = λ _ _. 0;
  cache = update (update (λ _. none) 50 (some (λ _. 7))) 60 (some (λ _. 8));
  past = [];
}

homes : (i : ℕ) → i < 2 → IsHome 2 31 (blocks i)
homes i l = elim (Bool-cases (i == 0)) [
  | inl e ↦ rw e (inr (omega arith))
  | inr e ↦ rw e (inr (omega arith))
]

two_written-IsReady : IsReady two_written
two_written-IsReady = record {
  empty = refl;
  fits = omega arith;
  homes = homes;
  uncached = λ i l. ground arith;
  fresh = refl;
}

commit-atomic_example :
    All
      (λ d. Outcome two_written two_written-IsReady (initlog 2 31 d).disk)
      ((commit two_written).disk ∷ (commit two_written).past)
commit-atomic_example = commit-atomic two_written two_written-IsReady

installed_run :
    ((commit two_written).disk 50 0 ≡ 7)
    × ((commit two_written).disk 60 3 ≡ 8)
    × (length (commit two_written).past ≡ 6)
unfolding commit xv6_memory_management_im.Log.bwrite bread
installed_run = (refl, refl, refl)

-- A disk on which the transaction is committed and not installed.
abbrev committed : Disk
committed =
    update (update (update (λ _ _. 0) 2 (λ i. if i == 0 then 2 else blocks (i - 1))) 3 (λ _. 7)) 4
      (λ _. 8)

abbrev contents : ℕ → Block
contents b i = if b == 50 then 7 else 8

committed_entry : (i : ℕ) → i < 2 → committed 2 (i + 1) ≡ blocks i
committed_entry zero l = refl
committed_entry (suc zero) l = refl
committed_entry (suc (suc i)) l = absurd (omega arith)

committed_copy : (i : ℕ) → i < 2 → committed (2 + i + 1) ≡ contents (blocks i)
committed_copy zero l = refl
committed_copy (suc zero) l = refl
committed_copy (suc (suc i)) l = absurd (omega arith)

committed-IsCommitted : IsCommitted 2 31 2 blocks contents committed (omega arith) homes committed
committed-IsCommitted = (
  record { count = refl; entry = λ i l. committed_entry i l; copy = λ i l. committed_copy i l },
  λ b u. refl,
)

initlog-again_example :
    All
      (λ e. IsRecovered 2 31 2 blocks contents committed (omega arith) homes (initlog 2 31 e).disk)
      (initlog 2 31 committed).past
    × IsRecovered 2 31 2 blocks contents committed (omega arith) homes (initlog 2 31 committed).disk
initlog-again_example =
    initlog-again 2 31 2 blocks contents committed (omega arith) homes committed
      committed-IsCommitted

abbrev open_log : Log
open_log = record (mounted 2 31 (λ _ _. 0)) { outstanding = 1 }

one_call-IsReserved : IsReserved open_log (10 ∷ [])
one_call-IsReserved = record { calls = refl; room = omega arith; each = (omega arith, tt) }

log_write-IsReserved_example : Returns (λ j. IsReserved j (9 ∷ [])) (log_write 50 (λ _. 7) open_log)
log_write-IsReserved_example =
    log_write-IsReserved open_log 50 9 (λ _. 7) [] [] (omega arith) one_call-IsReserved

-- The blocks from `b` to `b + n - 1`.
abbrev range : ℕ → ℕ → List ℕ
range zero b = []
range (suc n) b = b ∷ range n (b + 1)

abbrev made : Log
made = mounted 2 30 (λ _ _. 0)

range-has : (n a b : ℕ) → a < b → has a (range n b) ≡ false
range-has zero a b l = refl
range-has (suc n) a b l =
    let e = ==-false_of_ne a b (omega arith) in rw (e, range-has n a (b + 1) (omega arith)) refl

range-Distinct : (n b : ℕ) → Distinct (range n b)
range-Distinct zero b = tt
range-Distinct (suc n) b = (range-has n b (b + 1) (omega arith), range-Distinct n (b + 1))

log_write-full_example :
    (j : Log) × (begin_all 3 made ≡ some j)
    × Returns
        (λ k. (k.count ≡ 29) × (log_write 90 (λ _. 7) k ≡ panic Panic.log_too_big))
        (write_all (λ _ _. 7) (range 29 50) j)
log_write-full_example =
    log_write-full made (range 29 50) 90 (λ _ _. 7) refl refl refl refl refl (range-Distinct 29 50)

log_write-IsDistinct_example :
    Returns
      (λ j.
        IsDistinct j
        × (bread 50 j ≡ λ _. 7)
        × ((a : ℕ) → a ≢ 50 → bread a j ≡ bread a open_log)
        × ((i : ℕ) × (i < j.count) × (j.block i ≡ 50))
        × ((i : ℕ) → i < 0 → (i < j.count) × (j.block i ≡ open_log.block i)))
      (log_write 50 (λ _. 7) open_log)
log_write-IsDistinct_example =
    log_write-IsDistinct open_log 50 (λ _. 7) (λ i j l m e. absurd (omega arith)) (omega arith)
      (omega arith) (omega arith)
