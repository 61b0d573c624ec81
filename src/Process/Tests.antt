-- ===== src/Process/Tests.antt =====
-- proc.c: the theorems at a table with init and a shell that waits.
use xv6_memory_management_im.Common.{
  ℕ, zero, suc, ◌+◌, ◌≡◌, ◌≢◌, refl, true, false, arith, Option, none, some, some_inj,
}
use xv6_memory_management_im.Process.{
  ProcState, unused, sleeping, running, zombie, Chan, no_chan, of_proc, Process, Ptable, Resources,
  nproc, is_unused, is_proc, find_proc, woken, wakeup1, kill, allocproc, exit,
}
use xv6_memory_management_im.Process.Wait.{IsWatched}
use xv6_memory_management_im.Process.Steps.{IsTable, Step, start, next, Steps-IsTable}
use xv6_memory_management_im.Process.Kill.{allocproc-kill}

abbrev process : ProcState → ℕ → Option ℕ → Chan → Process
process state pid parent chan = record {
  state = state;
  pid = pid;
  parent = parent;
  chan = chan;
  killed = false;
  kstack = 0;
  pgdir = 0;
  sz = 0;
}

-- init, the shell asleep in wait, its child that runs, and free entries.
abbrev four : ℕ → Process
four zero = process running 1 none no_chan
four (suc zero) = process sleeping 2 (some 0) (of_proc 1)
four (suc (suc zero)) = process running 3 (some 1) no_chan
four (suc (suc (suc p))) = process unused 0 none no_chan

-- Memory that never runs out, counted.
abbrev pages : Resources ℕ
pages = record {
  kalloc = λ m. (m + 1, m + 1);
  kfree = λ a m. m;
  copyuvm = λ pgdir sz m. (m + 1, m + 1);
  freevm = λ pgdir m. m;
  dup_files = λ p q m. m;
  close_files = λ p m. m;
}

abbrev table : Ptable ℕ
table = record { proc = four; nextpid = 4; initproc = 0; held = 0 }

four-IsWatched : IsWatched four
four-IsWatched p c lp lc l = not_exited c l.exited
  where
    not_exited : (c : ℕ) → (four c).state ≢ zombie
    not_exited zero h = cc
    not_exited (suc zero) h = cc
    not_exited (suc (suc zero)) h = cc
    not_exited (suc (suc (suc c))) h = cc

no_self : (p : ℕ) → (four p).parent ≢ some p
no_self zero h = cc
no_self (suc zero) h = let e = some_inj 0 1 h in omega arith
no_self (suc (suc zero)) h = let e = some_inj 1 2 h in omega arith
no_self (suc (suc (suc p))) h = cc

four-IsTable : IsTable table
four-IsTable = record {
  watched = four-IsWatched;
  rooted = record { root = refl; started = (λ h. cc, λ h. cc); other = no_self };
}

Steps-IsTable_example : IsTable (record table { proc = wakeup1 (of_proc 1) four })
unfolding xv6_memory_management_im.Process.wakeup
Steps-IsTable_example =
    Steps-IsTable pages table (record table { proc = wakeup1 (of_proc 1) four })
      (next table (record table { proc = wakeup1 (of_proc 1) four }) start (Step.woke (of_proc 1)))
      four-IsTable

allocproc-kill_example :
    ((kill 0 table).0 ≡ true)
    × ((allocproc pages (kill 0 table).1).0 ≡ some 3)
    × (((allocproc pages (kill 0 table).1).1.proc 3).killed ≡ true)
unfolding find_proc
allocproc-kill_example = allocproc-kill pages table 3 refl refl (omega arith)
