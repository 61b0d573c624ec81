-- ===== src/Process.antt =====
-- proc.c: the process table. A `struct proc *` into it is an index; registers and stacks are not
-- followed. What a process holds of memory and files is behind an interface.
pub mod Wakeup
pub mod Wait
pub mod Root
pub mod Steps
pub mod Kill
mod Tests
use xv6_memory_management_im.Common.{
  ℕ, zero, suc, ◌+◌, ◌-◌, ◌*◌, ◌/◌, ◌%◌, ◌≤◌, ◌<◌, ◌≡◌, ◌≢◌, refl, ap, sym, ◌∙◌, Bool, true, false,
  not, ◌||◌, ◌&&◌, List, [], ◌∷◌, ◌++◌, arith, if◌then◌else◌, ◌==◌, ==-false_of_ne, ==_iff, length,
  length-append, has, has-append, has-ne, update, ltb, leb, All, Option, none, some, ◌⊎◌, inl, inr,
  Bool-cases, Option-cases, ◌↔◌, some_inj, some_eq, ltb→lt, lt→ltb, get_elem?, set,
}
use xv6_memory_management_im.Common.Word.{
  add32, sub32, pgsize, word_mod, pg_round_up, pg_round_down, test_bit, set_bit, clear_bit,
}
use xv6_memory_management_im.Kernel.Layout.{kernbase, phystop, v2p, p2v, frame}
use xv6_memory_management_im.Kernel.{
  Run, ok, panic, stuck, Panic, panic_if, Returns, returns, bind, mono, result, >>=-eq-ok, ok_eq,
  ◌>>=◌, ◌>>◌,
}

pub data ProcState : Type 0 where
  unused embryo sleeping runnable running zombie : ProcState

-- What a process sleeps on: a process of the table, for `wait`, or some other address.
pub data Chan : Type 0 where
  no_chan : Chan
  of_proc of_other : ℕ → Chan

abbrev pub same_chan : Chan → Chan → Bool
same_chan no_chan no_chan = true
same_chan (of_proc a) (of_proc b) = a == b
same_chan (of_other a) (of_other b) = a == b
same_chan _ _ = false

abbrev pub is_sleeping : ProcState → Bool
is_sleeping sleeping = true
is_sleeping _ = false

abbrev pub is_zombie : ProcState → Bool
is_zombie zombie = true
is_zombie _ = false

abbrev pub is_unused : ProcState → Bool
is_unused unused = true
is_unused _ = false

abbrev pub is_proc : Option ℕ → ℕ → Bool
is_proc none p = false
is_proc (some q) p = q == p

pub record Process : Type 0 where
  pub state : ProcState
  pub pid : ℕ
  pub parent : Option ℕ
  pub chan : Chan
  pub killed : Bool
  pub kstack : ℕ
  pub pgdir : ℕ
  pub sz : ℕ

-- The calls of `allocproc`, `fork`, `exit` and `wait` on memory and files, which are `m`: a kernel
-- stack or a page table is 0 when there is no memory; `dup_files` and `close_files` are for all the
-- files, the directory and the swap file of a process. The meta data of its pages is in Paging.
pub record Resources (M : Type 0) : Type 0 where
  pub kalloc : M → ℕ × M
  pub kfree : ℕ → M → M
  pub copyuvm : ℕ → ℕ → M → ℕ × M
  pub freevm : ℕ → M → M
  pub dup_files : ℕ → ℕ → M → M
  pub close_files : ℕ → M → M

-- `ptable` with `nextpid` and `initproc`.
pub record Ptable (M : Type 0) : Type 0 where
  pub proc : ℕ → Process
  pub nextpid : ℕ
  pub initproc : ℕ
  pub held : M

abbrev pub nproc : ℕ
nproc = 64

-- The loops that look for a process: the first that passes a test, from `p` on.
unfoldable pub find_proc : ℕ → ℕ → (Process → Bool) → (ℕ → Process) → Option ℕ
find_proc zero p test proc = none
find_proc (suc n) p test proc =
    let rest = find_proc n (p + 1) test proc in if test (proc p) then some p else rest

abbrev pub set_proc : {M : Type 0} → ℕ → Process → Ptable M → Ptable M
set_proc p x t = record t { proc = update t.proc p x }

-- `if(p->state == SLEEPING && p->chan == chan) p->state = RUNNABLE;`
unfoldable pub woken : Chan → Process → Process
woken c x = if is_sleeping x.state && same_chan x.chan c then record x { state = runnable } else x

-- `wakeup1`
unfoldable pub wakeup_loop : ℕ → ℕ → Chan → (ℕ → Process) → ℕ → Process
wakeup_loop zero p c proc = proc
wakeup_loop (suc n) p c proc = wakeup_loop n (p + 1) c (update proc p (woken c (proc p)))

unfoldable pub wakeup1 : Chan → (ℕ → Process) → ℕ → Process
unfolding wakeup_loop woken
wakeup1 c proc = wakeup_loop nproc 0 c proc

unfoldable pub wakeup : {M : Type 0} → Chan → Ptable M → Ptable M
unfolding wakeup1
wakeup c t = record t { proc = wakeup1 c t.proc }

-- `kill`: false for -1.
unfoldable pub kill_proc : {M : Type 0} → Option ℕ → Ptable M → Bool × Ptable M
kill_proc none t = (false, t)
kill_proc (some p) t =
    let x = record (t.proc p) { killed = true } in
    (true, set_proc p (if is_sleeping x.state then record x { state = runnable } else x) t)

unfoldable pub kill : {M : Type 0} → ℕ → Ptable M → Bool × Ptable M
unfolding kill_proc
kill pid t = kill_proc (find_proc nproc 0 (λ x. x.pid == pid) t.proc) t

-- The first half of `sleep`, up to the switch to the scheduler, and `yield`, likewise.
unfoldable pub sleep : {M : Type 0} → ℕ → Chan → Ptable M → Ptable M
sleep p c t = set_proc p (record (t.proc p) { chan = c; state = sleeping }) t

unfoldable pub yield : {M : Type 0} → ℕ → Ptable M → Ptable M
yield p t = set_proc p (record (t.proc p) { state = runnable }) t

-- The turn of `scheduler` that runs `p`, which is `RUNNABLE`.
unfoldable pub run : {M : Type 0} → ℕ → Ptable M → Ptable M
run p t = set_proc p (record (t.proc p) { state = running }) t

-- The second half of `sleep`.
unfoldable pub wake : {M : Type 0} → ℕ → Ptable M → Ptable M
wake p t = set_proc p (record (t.proc p) { chan = no_chan }) t

-- How a turn of the loop of `wait` ends: with the pid of a child, with -1, or asleep.
pub data Waited : Type 0 where
  reaped : ℕ → Waited
  no_child waits : Waited

-- The loop of `exit` that passes the children of `cur` to init.
unfoldable pub abandon_loop : ℕ → ℕ → ℕ → ℕ → (ℕ → Process) → ℕ → Process
unfolding wakeup1
abandon_loop zero p cur init proc = proc
abandon_loop (suc n) p cur init proc =
    let moved = update proc p (record (proc p) { parent = some init }) in
    let woken = if is_zombie (proc p).state then wakeup1 (of_proc init) moved else moved in
    abandon_loop n (p + 1) cur init (if is_proc (proc p).parent cur then woken else proc)

abbrev pub wake_parent : Option ℕ → (ℕ → Process) → ℕ → Process
wake_parent none proc = wakeup1 no_chan proc
wake_parent (some q) proc = wakeup1 (of_proc q) proc

-- `wait` when no child has exited: by whether there is a child.
unfoldable pub wait_children : {M : Type 0} → ℕ → Option ℕ → Ptable M → Waited × Ptable M
wait_children cur none t = (no_child, t)
wait_children cur (some p) t =
    if (t.proc cur).killed then (no_child, t) else (waits, sleep cur (of_proc cur) t)

module _ {M : Type 0} (held : Resources M) where
  -- `allocproc` after the search.
  unfoldable pub alloc_found : Option ℕ → Ptable M → Option ℕ × Ptable M
  alloc_found none t = (none, t)
  alloc_found (some p) t =
      let x = record (t.proc p) { state = embryo; pid = t.nextpid } in
      let (stack, m) = held.kalloc t.held in
      let t1 = record t { nextpid = t.nextpid + 1; held = m } in
      if stack == 0
      then (none, set_proc p (record x { kstack = 0; state = unused }) t1)
      else (some p, set_proc p (record x { kstack = stack }) t1)

  unfoldable pub allocproc : Ptable M → Option ℕ × Ptable M
  unfolding alloc_found
  allocproc t = alloc_found (find_proc nproc 0 (λ x. is_unused x.state) t.proc) t

  -- `fork` by `cur` after `allocproc`: none for -1, else the pid of the child.
  unfoldable pub fork_into : ℕ → Option ℕ → Ptable M → Option ℕ × Ptable M
  fork_into cur none t = (none, t)
  fork_into cur (some np) t =
      let x = t.proc np in
      let (pgdir, m) = held.copyuvm (t.proc cur).pgdir (t.proc cur).sz t.held in
      if pgdir == 0
      then (
        none,
        set_proc np (record x { pgdir = 0; kstack = 0; state = unused })
            (record t { held = held.kfree x.kstack m }),
      )
      else (
        some x.pid,
        set_proc np
            (record x { pgdir = pgdir; sz = (t.proc cur).sz; parent = some cur; state = runnable })
            (record t { held = held.dup_files cur np m }),
      )

  unfoldable pub fork : ℕ → Ptable M → Option ℕ × Ptable M
  unfolding allocproc fork_into
  fork cur t = let (np, t1) = allocproc t in fork_into cur np t1

  -- `exit`, up to the switch to the scheduler.
  unfoldable pub exit : ℕ → Ptable M → Run (Ptable M)
  exit cur t = do
    panic_if (cur == t.initproc) Panic.init_exiting
    let proc1 = wake_parent (t.proc cur).parent t.proc
    let proc2 = abandon_loop nproc 0 cur t.initproc proc1
    ok (record t {
      proc = update proc2 cur (record (proc2 cur) { state = zombie });
      held = held.close_files cur t.held;
    })

  -- The exited child `p` is freed.
  unfoldable pub reap : ℕ → Ptable M → Ptable M
  reap p t =
      let x = t.proc p in
      set_proc p (record x { kstack = 0; pid = 0; parent = none; killed = false; state = unused })
        (record t { held = held.freevm x.pgdir (held.kfree x.kstack t.held) })

  unfoldable pub wait_found : ℕ → Option ℕ → Ptable M → Waited × Ptable M
  unfolding reap wait_children
  wait_found cur (some p) t = (reaped (t.proc p).pid, reap p t)
  wait_found cur none t = wait_children cur (find_proc nproc 0 (λ x. is_proc x.parent cur) t.proc) t

  unfoldable pub wait : ℕ → Ptable M → Waited × Ptable M
  unfolding wait_found
  wait cur t =
      wait_found cur (find_proc nproc 0 (λ x. is_proc x.parent cur && is_zombie x.state) t.proc) t
