-- ===== src/Process/Kill.antt =====
-- proc.c: `kill` and the processes that are not there.
use xv6_memory_management_im.Common.{
  ℕ, zero, suc, ◌+◌, ◌<◌, ◌≡◌, ◌≢◌, refl, ap, sym, ◌∙◌, Bool, true, false, arith, ◌==◌,
  ==-false_of_ne, ==_iff, update, none, some, ◌⊎◌, inl, inr, Bool-cases, Option-cases,
}
use mathlib.Core.Bool.{false≢true}
use xv6_memory_management_im.Process.{
  sleeping, Process, Ptable, Resources, nproc, is_sleeping, is_unused, find_proc, kill, kill_proc,
  allocproc, alloc_found,
}
use xv6_memory_management_im.Process.Wakeup.{find_proc-none, find_proc-some}

-- The search depends on what the test says of each process.
find_proc-same :
    (n p : ℕ) (test : Process → Bool) (f g : ℕ → Process)
    → ((q : ℕ) → test (f q) ≡ test (g q))
    → find_proc n p test f ≡ find_proc n p test g
unfolding find_proc
find_proc-same zero p test f g h = refl
find_proc-same (suc n) p test f g h = rw (h p, find_proc-same n (p + 1) test f g h)

none_killed : {M : Type 0} {t : Ptable M} → kill_proc none t ≡ (false, t)
unfolding kill_proc
none_killed = refl

one_killed :
    {M : Type 0} (p : ℕ) (t : Ptable M)
    → ((kill_proc (some p) t).0 ≡ true)
      × (((kill_proc (some p) t).1.proc p).killed ≡ true)
      × (((kill_proc (some p) t).1.proc p).state ≢ sleeping)
      × ((q : ℕ) → q ≢ p → (kill_proc (some p) t).1.proc q ≡ t.proc q)
unfolding kill_proc
one_killed p t =
    let same : (p == p) ≡ true = (==_iff _ _).1 refl in
    (
      refl,
      rw same (elim (Bool-cases (is_sleeping (t.proc p).state)) [ inl e ↦ rw e | inr e ↦ rw e ]),
      rw same (elim (Bool-cases (is_sleeping (t.proc p).state)) [
        | inl e ↦ rw e (λ z. cc)
        | inr e ↦ rw e (λ z. absurd (false≢true (sym e ∙ ap is_sleeping z)))
      ]),
      λ q n. rw (==-false_of_ne _ _ n),
    )

killed_alloc :
    {M : Type 0} (held : Resources M) (t : Ptable M) (p : ℕ)
    → is_unused (t.proc p).state ≡ true
    → find_proc nproc 0 (λ x. is_unused x.state) t.proc ≡ some p
    → (held.kalloc t.held).0 ≢ 0
    → ((allocproc held (kill_proc (some p) t).1).0 ≡ some p)
      × (((allocproc held (kill_proc (some p) t).1).1.proc p).killed ≡ true)
unfolding allocproc alloc_found kill_proc
killed_alloc held t p u free stack =
    let s : is_sleeping (t.proc p).state ≡ false = ground arith in
    let z = ==-false_of_ne _ _ stack in
    let same : (p == p) ≡ true = (==_iff _ _).1 refl in
    let f =
      find_proc-same nproc 0 (λ x. is_unused x.state)
        (update t.proc p (record (t.proc p) { killed = true })) t.proc
        (λ q. elim (Bool-cases (q == p)) [
          | inl e ↦ let k = (==_iff _ _).0 e in rw (e, k)
          | inr e ↦ rw e
        ]) in
    rw (s, f, free, z) (refl, rw same)

-- `kill` returns -1, and changes nothing, when no process of the table has the pid, and otherwise marks
-- one that has it, which it does not leave asleep; no other process changes.
pub kill-proc :
    {M : Type 0} (pid : ℕ) (t : Ptable M)
    → ((kill pid t ≡ (false, t)) × ((q : ℕ) → q < nproc → (t.proc q).pid ≢ pid))
      ⊎ ((p : ℕ) × (p < nproc)
          × ((t.proc p).pid ≡ pid)
          × ((kill pid t).0 ≡ true)
          × (((kill pid t).1.proc p).killed ≡ true)
          × (((kill pid t).1.proc p).state ≢ sleeping)
          × ((q : ℕ) → q ≢ p → (kill pid t).1.proc q ≡ t.proc q))
unfolding kill
kill-proc pid t = elim (Option-cases (find_proc nproc 0 (λ x. x.pid == pid) t.proc)) [
  | inl e ↦ inl (
    rw e none_killed,
    λ q l z.
        let f = find_proc-none nproc 0 (λ x. x.pid == pid) t.proc e q (omega arith) (omega arith) in
        ground arith,
  )
  | inr (p, e) ↦
      let (a, b, c) = find_proc-some nproc 0 (λ x. x.pid == pid) t.proc p e in
      let (f, g, h, i) = one_killed p t in
      inr (p, omega arith, (==_iff _ _).0 c, rw e f, rw e g, rw e h, rw e i)
]

-- A free entry of the table has pid 0, and `allocproc` keeps its mark: `kill` of pid 0 succeeds, and
-- the process that is made next is killed from the start. The entry that it is made in is the first
-- one with pid 0, as it is when no process in use has pid 0, and there is memory for its stack.
pub allocproc-kill :
    {M : Type 0} (held : Resources M) (t : Ptable M) (p : ℕ)
    → find_proc nproc 0 (λ x. is_unused x.state) t.proc ≡ some p
    → find_proc nproc 0 (λ x. x.pid == 0) t.proc ≡ some p
    → (held.kalloc t.held).0 ≢ 0
    → ((kill 0 t).0 ≡ true)
      × ((allocproc held (kill 0 t).1).0 ≡ some p)
      × (((allocproc held (kill 0 t).1).1.proc p).killed ≡ true)
unfolding kill
allocproc-kill held t p free first stack =
    let (a, b, c) = find_proc-some nproc 0 (λ x. is_unused x.state) t.proc p free in
    rw first (let (u, v) = killed_alloc held t p c free stack in ((one_killed p t).0, u, v))
