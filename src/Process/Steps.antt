-- ===== src/Process/Steps.antt =====
-- proc.c: every order of the calls on the process table. A step is what one process does while it
-- holds the lock of the table, or to a process that it is making.
use xv6_memory_management_im.Common.{
  ℕ, ◌+◌, ◌<◌, ◌≡◌, ◌≢◌, refl, ap, sym, ◌∙◌, Bool, true, ◌&&◌, arith, ◌==◌, ==_iff, Option, none,
  some, inl, inr, Bool-cases, some_inj,
}
use xv6_memory_management_im.Kernel.{ok, result, ok_eq}
use mathlib.Core.Path.{subst}
use mathlib.Core.Bool.{false≢true}
use xv6_memory_management_im.Process.{
  ProcState, unused, embryo, running, sleeping, runnable, zombie, Chan, of_proc, is_sleeping,
  is_unused, is_zombie, is_proc, Process, Ptable, Resources, nproc, find_proc, wakeup, kill,
  kill_proc, sleep, yield, run, wake, set_proc, allocproc, alloc_found, fork_into, exit, wait,
  wait_found, wait_children, reap,
}
use xv6_memory_management_im.Process.Wakeup.{find_proc-none, find_proc-some}
use xv6_memory_management_im.Process.Wait.{
  IsWatched, IsQuiet, IsWatched-update, IsWatched-wakeup1, exit-IsWatched, is_proc-some,
}
use xv6_memory_management_im.Process.Root.{
  IsStarted, IsRooted, IsRooted-update, IsRooted-wakeup1, child-ne, exit-IsRooted,
}

pub record IsTable {M : Type 0} (t : Ptable M) : Type 0 where
  pub watched : IsWatched t.proc
  pub rooted : IsRooted t.initproc t.proc

is_unused-unused : (s : ProcState) → is_unused s ≡ true → s ≡ unused
is_unused-unused s h = ground arith

and_true : (a b : Bool) → (a && b) ≡ true → (a ≡ true) × (b ≡ true)
and_true a b h = ground arith

module _ {M : Type 0} (held : Resources M) where
  pub data Step (t : Ptable M) : Ptable M → Type 0 where
    woke : (c : Chan) → Step t (wakeup c t)
    killed : (pid : ℕ) → Step t (kill pid t).1
    slept :
        (p : ℕ) (c : Chan)
        → (t.proc p).state ≡ running
        → ((q : ℕ) → c ≢ of_proc q)
        → Step t (sleep p c t)
    yielded : (p : ℕ) → (t.proc p).state ≡ running → Step t (yield p t)
    ran : (p : ℕ) → (t.proc p).state ≡ runnable → Step t (run p t)
    awoke : (p : ℕ) → (t.proc p).state ≡ running → Step t (wake p t)
    allocated : Step t (allocproc held t).1
    filled :
        (cur np : ℕ)
        → (t.proc cur).state ≡ running
        → (t.proc np).state ≡ embryo
        → Step t (fork_into held cur (some np) t).1
    exited : (cur : ℕ) (j : Ptable M) → cur ≢ t.initproc → exit held cur t ≡ ok j → Step t j
    waited : (cur : ℕ) → (t.proc cur).state ≡ running → Step t (wait held cur t).1

  -- A change of one process that neither exits it nor puts it to sleep in `wait`.
  set_proc-IsTable :
      (t : Ptable M) (p : ℕ) (x : Process)
      → IsQuiet p (t.proc p) x
      → (p ≡ t.initproc → IsStarted x.state × (x.parent ≡ none))
      → x.parent ≢ some p
      → IsTable t
      → IsTable (set_proc p x t)
  set_proc-IsTable t p x q f n s = record {
    watched = IsWatched-update t.proc p x q s.watched;
    rooted = IsRooted-update t.initproc t.proc p x f n s.rooted;
  }

  -- A new state with the same parent.
  state-IsTable :
      (t : Ptable M) (p : ℕ) (x : Process)
      → IsStarted x.state
      → x.parent ≡ (t.proc p).parent
      → (x.state ≡ zombie → (t.proc p).state ≡ zombie)
      → (x.state ≡ sleeping
          → x.chan ≡ of_proc p
          → ((t.proc p).state ≡ sleeping) × ((t.proc p).chan ≡ of_proc p))
      → IsTable t
      → IsTable (set_proc p x t)
  state-IsTable t p x st e z f s =
      set_proc-IsTable t p x (record { exits = λ h. (z h, e); sleeps = f })
        (λ h. (st, e ∙ ap (λ (i : ℕ). (t.proc i).parent) h ∙ s.rooted.root))
        (λ h. s.rooted.other p (sym e ∙ h)) s

  -- A process other than init is neither asleep nor a zombie after the change.
  busy-IsTable :
      (t : Ptable M) (p n : ℕ) (x : Process) (m : M)
      → p ≢ t.initproc
      → x.parent ≢ some p
      → x.state ≢ zombie
      → x.state ≢ sleeping
      → IsTable t
      → IsTable (set_proc p x (record t { nextpid = n; held = m }))
  busy-IsTable t p n x m ne self z a s =
      set_proc-IsTable (record t { nextpid = n; held = m }) p x
        (record { exits = λ h. absurd (z h); sleeps = λ h. absurd (a h) }) (λ h. absurd (ne h)) self
        (record { watched = s.watched; rooted = s.rooted })

  kill_proc-IsTable : (o : Option ℕ) (t : Ptable M) → IsTable t → IsTable (kill_proc o t).1
  unfolding kill_proc
  kill_proc-IsTable none t s = s
  kill_proc-IsTable (some p) t s = elim (Bool-cases (is_sleeping (t.proc p).state)) [
    | inl e ↦ rw e (state-IsTable t p _ (λ h. cc, λ h. cc) refl (λ h. cc) (λ h. cc) s)
    | inr e ↦ rw e (
        set_proc-IsTable t p (record (t.proc p) { killed = true })
          (record { exits = λ h. (h, refl); sleeps = λ a b. (a, b) })
          (λ h. (
            subst (λ (i : ℕ). IsStarted (t.proc i).state) (sym h) s.rooted.started,
            ap (λ (i : ℕ). (t.proc i).parent) h ∙ s.rooted.root,
          ))
          (s.rooted.other p) s)
  ]

  alloc_found-IsTable :
      (o : Option ℕ) (t : Ptable M)
      → ((p : ℕ) → o ≡ some p → (t.proc p).state ≡ unused)
      → IsTable t
      → IsTable (alloc_found held o t).1
  unfolding alloc_found
  alloc_found-IsTable none t h s = s
  alloc_found-IsTable (some p) t h s =
      let ne : p ≢ t.initproc =
        λ e. s.rooted.started.0 (ap (λ (i : ℕ). (t.proc i).state) (sym e) ∙ h p refl) in
      elim (Bool-cases ((held.kalloc t.held).0 == 0)) [
        | inl e ↦
            rw e (busy-IsTable t p (t.nextpid + 1) _ _ ne (s.rooted.other p) (λ z. cc) (λ z. cc) s)
        | inr e ↦
            rw e (busy-IsTable t p (t.nextpid + 1) _ _ ne (s.rooted.other p) (λ z. cc) (λ z. cc) s)
      ]

  fork_into-IsTable :
      (cur np : ℕ) (t : Ptable M)
      → (t.proc cur).state ≡ running
      → (t.proc np).state ≡ embryo
      → IsTable t
      → IsTable (fork_into held cur (some np) t).1
  unfolding fork_into
  fork_into-IsTable cur np t r e s =
      let ne : np ≢ t.initproc =
        λ q. s.rooted.started.1 (ap (λ (i : ℕ). (t.proc i).state) (sym q) ∙ e) in
      let self : cur ≢ np =
        λ q. let z : running ≡ embryo = sym r ∙ ap (λ (i : ℕ). (t.proc i).state) q ∙ e in cc in
      elim (Bool-cases ((held.copyuvm (t.proc cur).pgdir (t.proc cur).sz t.held).0 == 0)) [
        | inl q ↦
            rw q (busy-IsTable t np t.nextpid _ _ ne (s.rooted.other np) (λ z. cc) (λ z. cc) s)
        | inr q ↦ rw q (
            busy-IsTable t np t.nextpid _ _ ne (λ h. self (some_inj cur np h)) (λ z. cc) (λ z. cc)
              s)
      ]

  reap-IsTable :
      (p cur : ℕ) (t : Ptable M)
      → (t.proc p).parent ≡ some cur
      → IsTable t
      → IsTable (reap held p t)
  unfolding reap
  reap-IsTable p cur t h s =
      busy-IsTable t p t.nextpid _ _ (child-ne t.initproc t.proc p cur s.rooted h) (λ z. cc)
        (λ z. cc) (λ z. cc) s

  -- The wait of a process that has children and none that has exited.
  sleep-IsTable :
      (cur : ℕ) (t : Ptable M)
      → (t.proc cur).state ≡ running
      → ((c : ℕ) → c < nproc → (t.proc c).parent ≡ some cur → (t.proc c).state ≢ zombie)
      → IsTable t
      → IsTable (sleep cur (of_proc cur) t)
  unfolding sleep
  sleep-IsTable cur t r none_exited s = record {
    watched = λ a b la lb l. elim (Bool-cases (b == cur)) [
      | inl f ↦ let z = rw f at l.exited in cc
      | inr f ↦
          let c = rw f at l.child in
          let z = rw f at l.exited in
          elim (Bool-cases (a == cur)) [
            | inl e ↦ none_exited b lb (c ∙ ap some ((==_iff _ _).0 e)) z
            | inr e ↦ s.watched a b la lb (record {
              asleep = rw e at l.asleep;
              waiting = rw e at l.waiting;
              child = c;
              exited = z;
            })
          ]
    ];
    rooted =
        IsRooted-update t.initproc t.proc cur
          (record (t.proc cur) { chan = of_proc cur; state = sleeping })
          (λ h. ((λ z. cc, λ z. cc), ap (λ (i : ℕ). (t.proc i).parent) h ∙ s.rooted.root))
          (s.rooted.other cur) s.rooted;
  }

  wait_children-IsTable :
      (cur : ℕ) (o : Option ℕ) (t : Ptable M)
      → (t.proc cur).state ≡ running
      → ((c : ℕ) → c < nproc → (t.proc c).parent ≡ some cur → (t.proc c).state ≢ zombie)
      → IsTable t
      → IsTable (wait_children cur o t).1
  unfolding wait_children
  wait_children-IsTable cur none t r g s = s
  wait_children-IsTable cur (some p) t r g s = elim (Bool-cases (t.proc cur).killed) [
    | inl e ↦ rw e s
    | inr e ↦ rw e (sleep-IsTable cur t r g s)
  ]

  wait_found-IsTable :
      (cur : ℕ) (o : Option ℕ) (t : Ptable M)
      → (t.proc cur).state ≡ running
      → ((p : ℕ) → o ≡ some p → (t.proc p).parent ≡ some cur)
      → (o ≡ none → (c : ℕ) → c < nproc → (t.proc c).parent ≡ some cur → (t.proc c).state ≢ zombie)
      → IsTable t
      → IsTable (wait_found held cur o t).1
  unfolding wait_found
  wait_found-IsTable cur (some p) t r f g s = reap-IsTable p cur t (f p refl) s
  wait_found-IsTable cur none t r f g s =
      wait_children-IsTable cur (find_proc nproc 0 (λ x. is_proc x.parent cur) t.proc) t r (g refl)
        s

  wait-IsTable :
      (cur : ℕ) (t : Ptable M)
      → (t.proc cur).state ≡ running
      → IsTable t
      → IsTable (wait held cur t).1
  unfolding wait
  wait-IsTable cur t r s =
      let test = λ (x : Process). is_proc x.parent cur && is_zombie x.state in
      wait_found-IsTable cur _ t r
        (λ p e.
          let (a, b, c) = find_proc-some nproc 0 test t.proc p e in
          is_proc-some (t.proc p).parent cur (and_true _ _ c).0)
        (λ e c l h z.
          let f = find_proc-none nproc 0 test t.proc e c (omega arith) (omega arith) in
          let a : is_proc (t.proc c).parent cur ≡ true =
            ap (λ (o : Option ℕ). is_proc o cur) h ∙ (==_iff cur cur).1 refl in
          let b : is_zombie (t.proc c).state ≡ true = ap is_zombie z in
          let d : test (t.proc c) ≡ true = rw (a, b) in absurd (false≢true (sym f ∙ d)))
        s

  allocproc-IsTable : (t : Ptable M) → IsTable t → IsTable (allocproc held t).1
  unfolding allocproc
  allocproc-IsTable t s =
      alloc_found-IsTable _ t
        (λ p e.
          let (a, b, c) = find_proc-some nproc 0 (λ x. is_unused x.state) t.proc p e in
          is_unused-unused (t.proc p).state c)
        s

  -- Every step keeps the table.
  pub Step-IsTable : (t j : Ptable M) → Step t j → IsTable t → IsTable j
  unfolding wakeup kill sleep yield run wake
  Step-IsTable t _ (woke c) s = record {
    watched = IsWatched-wakeup1 c t.proc s.watched;
    rooted = IsRooted-wakeup1 c t.initproc t.proc s.rooted;
  }
  Step-IsTable t _ (killed pid) s = kill_proc-IsTable _ t s
  Step-IsTable t _ (slept p c r n) s =
      state-IsTable t p _ (λ h. cc, λ h. cc) refl (λ h. cc) (λ a b. absurd (n p b)) s
  Step-IsTable t _ (yielded p r) s =
      state-IsTable t p _ (λ h. cc, λ h. cc) refl (λ h. cc) (λ h. cc) s
  Step-IsTable t _ (ran p r) s = state-IsTable t p _ (λ h. cc, λ h. cc) refl (λ h. cc) (λ h. cc) s
  Step-IsTable t _ (awoke p r) s =
      state-IsTable t p _
        (
          λ h. let z : running ≡ unused = sym r ∙ h in cc,
          λ h. let z : running ≡ embryo = sym r ∙ h in cc,
        )
        refl (λ h. h) (λ a b. cc) s
  Step-IsTable t _ allocated s = allocproc-IsTable t s
  Step-IsTable t _ (filled cur np r e) s = fork_into-IsTable cur np t r e s
  Step-IsTable t _ (exited cur j n e) s =
      let (a, f, w) = result (exit-IsWatched held cur t n (s.rooted.other cur) s.watched) in
      let (b, g, r) = result (exit-IsRooted held cur t n s.rooted) in
      let ea : a ≡ j = ok_eq a j (sym f ∙ e) in
      let eb : b ≡ j = ok_eq b j (sym g ∙ e) in
      record {
        watched = subst (λ (i : Ptable M). IsWatched i.proc) ea w.0;
        rooted = subst (λ (i : Ptable M). IsRooted i.initproc i.proc) eb r;
      }
  Step-IsTable t _ (waited cur r) s = wait-IsTable cur t r s

  -- Any number of steps, the last first.
  pub data Steps (t : Ptable M) : Ptable M → Type 0 where
    start : Steps t t
    next : (i j : Ptable M) → Steps t i → Step i j → Steps t j

  -- In whatever order processes make their calls, from a table in which it holds: no process sleeps in
  -- `wait` while one of its children has exited, init has no parent and is never free, and no process
  -- is its own parent.
  pub Steps-IsTable : (t j : Ptable M) → Steps t j → IsTable t → IsTable j
  Steps-IsTable t _ start s = s
  Steps-IsTable t _ (next i j before last) s = Step-IsTable i j last (Steps-IsTable t i before s)
