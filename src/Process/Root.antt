-- ===== src/Process/Root.antt =====
-- proc.c: init is always there, has no parent, and no process is its own parent.
use xv6_memory_management_im.Common.{
  ℕ, zero, suc, ◌+◌, ◌≡◌, ◌≢◌, ap, sym, ◌∙◌, false, ◌&&◌, ◌==◌, ==-false_of_ne, ==_iff, update, ltb,
  Option, none, some, inl, inr, Bool-cases, some_inj,
}
use xv6_memory_management_im.Kernel.{Returns, returns}
use mathlib.Core.Path.{subst}
use xv6_memory_management_im.Process.{
  ProcState, unused, embryo, Chan, no_chan, of_proc, is_sleeping, same_chan, is_zombie, is_proc,
  Process, Ptable, Resources, nproc, woken, wakeup1, wake_parent, abandon_loop, exit,
}
use xv6_memory_management_im.Process.Wakeup.{wakeup1-at, wakeup1-parent}
use xv6_memory_management_im.Process.Wait.{is_proc-some}

abbrev pub IsStarted : ProcState → Type 0
IsStarted s = (s ≢ unused) × (s ≢ embryo)

pub record IsRooted (init : ℕ) (proc : ℕ → Process) : Type 0 where
  pub root : (proc init).parent ≡ none
  pub started : IsStarted (proc init).state
  pub other : (p : ℕ) → (proc p).parent ≢ some p

woken-IsStarted : (c : Chan) (x : Process) → IsStarted x.state → IsStarted (woken c x).state
unfolding woken
woken-IsStarted c x (a, b) = elim (Bool-cases (is_sleeping x.state && same_chan x.chan c)) [
  | inl e ↦ rw e (λ h. cc, λ h. cc)
  | inr e ↦ rw e (a, b)
]

pub IsRooted-wakeup1 :
    (c : Chan) (init : ℕ) (proc : ℕ → Process) → IsRooted init proc → IsRooted init (wakeup1 c proc)
IsRooted-wakeup1 c init proc r = record {
  root = wakeup1-parent c proc init ∙ r.root;
  started = rw (wakeup1-at c proc init) (elim (Bool-cases (ltb init nproc)) [
    | inl e ↦ rw e (woken-IsStarted c (proc init) r.started)
    | inr e ↦ rw e r.started
  ]);
  other = λ p h. r.other p (sym (wakeup1-parent c proc p) ∙ h);
}

-- A change of one process; init keeps its state up to a start and has no parent.
pub IsRooted-update :
    (init : ℕ) (proc : ℕ → Process) (p : ℕ) (x : Process)
    → (p ≡ init → IsStarted x.state × (x.parent ≡ none))
    → x.parent ≢ some p
    → IsRooted init proc
    → IsRooted init (update proc p x)
IsRooted-update init proc p x f n r = record {
  root = elim (Bool-cases (init == p)) [
    | inl e ↦ let k = (==_iff _ _).0 e in rw e (f (sym k)).1
    | inr e ↦ rw e r.root
  ];
  started = elim (Bool-cases (init == p)) [
    | inl e ↦ let k = (==_iff _ _).0 e in rw e (f (sym k)).0
    | inr e ↦ rw e r.started
  ];
  other = λ q. elim (Bool-cases (q == p)) [
    | inl e ↦
        let k = (==_iff _ _).0 e in let m = subst (λ (z : ℕ). x.parent ≢ some z) (sym k) n in rw e m
    | inr e ↦ rw e (r.other q)
  ];
}

-- A process with a parent is not init.
pub child-ne :
    (init : ℕ) (proc : ℕ → Process) (p q : ℕ)
    → IsRooted init proc
    → (proc p).parent ≡ some q
    → p ≢ init
child-ne init proc p q r h e =
    let a : (proc p).parent ≡ (proc init).parent = ap (λ (z : ℕ). (proc z).parent) e in
    let b : some q ≡ none = sym h ∙ a ∙ r.root in cc

abandon_loop-IsRooted :
    (n p cur init : ℕ) (proc : ℕ → Process)
    → IsRooted init proc
    → IsRooted init (abandon_loop n p cur init proc)
unfolding abandon_loop
abandon_loop-IsRooted zero p cur init proc r = r
abandon_loop-IsRooted (suc n) p cur init proc r = elim (Bool-cases (is_proc (proc p).parent cur)) [
  | inr e ↦ rw e (abandon_loop-IsRooted n (p + 1) cur init proc r)
  | inl e ↦
      let ne = child-ne init proc p cur r (is_proc-some (proc p).parent cur e) in
      let m =
        IsRooted-update init proc p (record (proc p) { parent = some init }) (λ z. absurd (ne z))
          (λ z. ne (sym (some_inj init p z))) r in
      elim (Bool-cases (is_zombie (proc p).state)) [
        | inl z ↦
            rw (e, z)
              (abandon_loop-IsRooted n (p + 1) cur init _
                (IsRooted-wakeup1 (of_proc init) init _ m))
        | inr z ↦ rw (e, z) (abandon_loop-IsRooted n (p + 1) cur init _ m)
      ]
]

wake_parent-IsRooted :
    (o : Option ℕ) (init : ℕ) (proc : ℕ → Process)
    → IsRooted init proc
    → IsRooted init (wake_parent o proc)
wake_parent-IsRooted none init proc r = IsRooted-wakeup1 no_chan init proc r
wake_parent-IsRooted (some q) init proc r = IsRooted-wakeup1 (of_proc q) init proc r

pub exit-IsRooted :
    {M : Type 0} (held : Resources M) (cur : ℕ) (t : Ptable M)
    → cur ≢ t.initproc
    → IsRooted t.initproc t.proc
    → Returns (λ j. IsRooted j.initproc j.proc) (exit held cur t)
unfolding exit
exit-IsRooted held cur t n r =
    let z : (cur == t.initproc) ≡ false = ==-false_of_ne _ _ n in
    let l =
      abandon_loop-IsRooted nproc 0 cur t.initproc _
        (wake_parent-IsRooted (t.proc cur).parent t.initproc t.proc r) in
    rw z (returns (IsRooted-update t.initproc _ cur _ (λ e. absurd (n e)) (l.other cur) l))
