-- ===== src/Process/Wait.antt =====
-- proc.c: no process sleeps in `wait` while one of its children has exited.
use xv6_memory_management_im.Common.{
  ℕ, zero, suc, ◌+◌, ◌<◌, ◌≡◌, ◌≢◌, refl, ap, sym, ◌∙◌, true, false, ◌==◌, ==-false_of_ne, ==_iff,
  update, Option, none, some, ◌⊎◌, inl, inr, Bool-cases, Option-cases, some_inj,
}
use xv6_memory_management_im.Kernel.{Returns, returns}
use mathlib.Core.Path.{subst}
use mathlib.Core.Bool.{false≢true}
use xv6_memory_management_im.Process.{
  ProcState, sleeping, zombie, Chan, no_chan, of_proc, is_zombie, is_proc, Process, Ptable,
  Resources, nproc, woken, wakeup1, wake_parent, abandon_loop, exit,
}
use xv6_memory_management_im.Process.Wakeup.{
  wakeup1-in, wakeup1-parent, woken-sleeping, woken-zombie,
}

-- The process `p` sleeps in `wait` although its child `c` has exited.
pub record IsLost (proc : ℕ → Process) (p c : ℕ) : Type 0 where
  pub asleep : (proc p).state ≡ sleeping
  pub waiting : (proc p).chan ≡ of_proc p
  pub child : (proc c).parent ≡ some p
  pub exited : (proc c).state ≡ zombie

abbrev pub IsWatched : (ℕ → Process) → Type 0
IsWatched proc = (p c : ℕ) → p < nproc → c < nproc → ¬ IsLost proc p c

-- A change of one process that does not make it exit and does not put it to sleep in `wait`.
pub record IsQuiet (p : ℕ) (old new : Process) : Type 0 where
  pub exits : new.state ≡ zombie → (old.state ≡ zombie) × (new.parent ≡ old.parent)
  pub sleeps :
      new.state ≡ sleeping → new.chan ≡ of_proc p → (old.state ≡ sleeping) × (old.chan ≡ of_proc p)

pub IsWatched-update :
    (proc : ℕ → Process) (p : ℕ) (x : Process)
    → IsQuiet p (proc p) x
    → IsWatched proc
    → IsWatched (update proc p x)
IsWatched-update proc p x q w a c la lc l = w a c la lc (record {
  asleep = (sleeper a l.asleep l.waiting).0;
  waiting = (sleeper a l.asleep l.waiting).1;
  child = (goner c l.exited).1 ∙ l.child;
  exited = (goner c l.exited).0;
})
  where
    sleeper :
        (a : ℕ)
        → (update proc p x a).state ≡ sleeping
        → (update proc p x a).chan ≡ of_proc a
        → ((proc a).state ≡ sleeping) × ((proc a).chan ≡ of_proc a)
    sleeper a = elim (Bool-cases (a == p)) [
      | inl e ↦ let k = (==_iff _ _).0 e in rw (e, k) q.sleeps
      | inr e ↦ rw e (λ s t. (s, t))
    ]

    goner :
        (c : ℕ)
        → (update proc p x c).state ≡ zombie
        → ((proc c).state ≡ zombie) × ((proc c).parent ≡ (update proc p x c).parent)
    goner c = elim (Bool-cases (c == p)) [
      | inl e ↦ let k = (==_iff _ _).0 e in rw (e, k) (λ s. ((q.exits s).0, sym (q.exits s).1))
      | inr e ↦ rw e (λ s. (s, refl))
    ]

-- Only the process `r` may be lost.
abbrev IsWatchedBut : ℕ → (ℕ → Process) → Type 0
IsWatchedBut r proc = (p c : ℕ) → p < nproc → c < nproc → IsLost proc p c → p ≡ r

-- A process is not asleep in `wait`.
abbrev IsAwake : (ℕ → Process) → ℕ → Type 0
IsAwake proc q = (proc q).state ≡ sleeping → (proc q).chan ≢ of_proc q

IsLost-wakeup1 :
    (c : Chan) (proc : ℕ → Process) (a b : ℕ)
    → a < nproc
    → b < nproc
    → IsLost (wakeup1 c proc) a b
    → IsLost proc a b × (c ≢ of_proc a)
IsLost-wakeup1 c proc a b la lb l =
    let ea = wakeup1-in c proc a la in
    let eb = wakeup1-in c proc b lb in
    let s : (woken c (proc a)).state ≡ sleeping =
      ap (λ (x : Process). x.state) (sym ea) ∙ l.asleep in
    let (s1, n, same) = woken-sleeping c (proc a) s in
    let at : (proc a).chan ≡ of_proc a =
      sym same ∙ ap (λ (x : Process). x.chan) (sym ea) ∙ l.waiting in
    (
      record {
        asleep = s1;
        waiting = at;
        child = sym (wakeup1-parent c proc b) ∙ l.child;
        exited = woken-zombie c (proc b) (ap (λ (x : Process). x.state) (sym eb) ∙ l.exited);
      },
      λ e. n (at ∙ sym e),
    )

-- Waking keeps what is watched, and whom it wakes is not lost.
pub IsWatched-wakeup1 :
    (c : Chan) (proc : ℕ → Process) → IsWatched proc → IsWatched (wakeup1 c proc)
IsWatched-wakeup1 c proc w a b la lb l = w a b la lb (IsLost-wakeup1 c proc a b la lb l).0

IsWatchedBut-wakeup1 :
    (r : ℕ) (proc : ℕ → Process) → IsWatchedBut r proc → IsWatched (wakeup1 (of_proc r) proc)
IsWatchedBut-wakeup1 r proc w a b la lb l =
    let (l1, n) = IsLost-wakeup1 (of_proc r) proc a b la lb l in
    n (ap of_proc (sym (w a b la lb l1)))

IsAwake-wakeup1 :
    (c : Chan) (proc : ℕ → Process) (q : ℕ)
    → q < nproc
    → (c ≡ of_proc q) ⊎ IsAwake proc q
    → IsAwake (wakeup1 c proc) q
IsAwake-wakeup1 c proc q l h = rw (wakeup1-in c proc q l) (λ s t.
    let (s1, n, same) = woken-sleeping c (proc q) s in
    elim h [ inl e ↦ n (sym same ∙ t ∙ sym e) | inr w ↦ w s1 (sym same ∙ t) ])

IsWatchedBut-moved :
    (proc : ℕ → Process) (p init : ℕ)
    → IsWatched proc
    → IsWatchedBut init (update proc p (record (proc p) { parent = some init }))
IsWatchedBut-moved proc p init w a b la lb l = elim (Bool-cases (b == p)) [
  | inl e ↦ some_inj a init (sym l.child ∙ new_parent b e)
  | inr e ↦ absurd (
      w a b la lb (record {
        asleep = state_kept a ∙ l.asleep;
        waiting = chan_kept a ∙ l.waiting;
        child = sym (old_parent b e) ∙ l.child;
        exited = state_kept b ∙ l.exited;
      }))
]
  where
    state_kept :
        (a : ℕ) → (proc a).state ≡ (update proc p (record (proc p) { parent = some init }) a).state
    state_kept a = elim (Bool-cases (a == p)) [
      | inl e ↦ let k = (==_iff _ _).0 e in rw (e, k)
      | inr e ↦ rw e
    ]

    chan_kept :
        (a : ℕ) → (proc a).chan ≡ (update proc p (record (proc p) { parent = some init }) a).chan
    chan_kept a = elim (Bool-cases (a == p)) [
      | inl e ↦ let k = (==_iff _ _).0 e in rw (e, k)
      | inr e ↦ rw e
    ]

    new_parent :
        (b : ℕ)
        → (b == p) ≡ true
        → (update proc p (record (proc p) { parent = some init }) b).parent ≡ some init
    new_parent b e = rw e

    old_parent :
        (b : ℕ)
        → (b == p) ≡ false
        → (update proc p (record (proc p) { parent = some init }) b).parent ≡ (proc b).parent
    old_parent b e = rw e

-- What `exit` of `cur` keeps while it passes on the children.
record IsExiting (cur : ℕ) (par : Option ℕ) (proc : ℕ → Process) : Type 0 where
  watched : IsWatched proc
  awake : (q : ℕ) → q < nproc → par ≡ some q → IsAwake proc q
  same : (proc cur).parent ≡ par

IsExiting-wakeup1 :
    (c : Chan) (cur : ℕ) (par : Option ℕ) (proc : ℕ → Process)
    → IsExiting cur par proc
    → IsExiting cur par (wakeup1 c proc)
IsExiting-wakeup1 c cur par proc x = record {
  watched = IsWatched-wakeup1 c proc x.watched;
  awake = λ q l e. IsAwake-wakeup1 c proc q l (inr (x.awake q l e));
  same = wakeup1-parent c proc cur ∙ x.same;
}

IsAwake-moved :
    (proc : ℕ → Process) (p init q : ℕ)
    → IsAwake proc q
    → IsAwake (update proc p (record (proc p) { parent = some init })) q
IsAwake-moved proc p init q w = elim (Bool-cases (q == p)) [
  | inl e ↦ let k = (==_iff _ _).0 e in let v = subst (λ (z : ℕ). IsAwake proc z) k w in rw (e, k) v
  | inr e ↦ rw e w
]

pub is_proc-some : (o : Option ℕ) (p : ℕ) → is_proc o p ≡ true → o ≡ some p
is_proc-some none p h = cc
is_proc-some (some q) p h = ap some ((==_iff q p).0 h)

is_zombie-zombie : (s : ProcState) → s ≡ zombie → is_zombie s ≡ true
is_zombie-zombie s h = rw h

module _ (p cur init : ℕ) (par : Option ℕ) (proc : ℕ → Process) (n : par ≢ some cur)
    (x : IsExiting cur par proc) (child : is_proc (proc p).parent cur ≡ true) where
  abbrev moved : ℕ → Process
  moved = update proc p (record (proc p) { parent = some init })

  same-moved : (moved cur).parent ≡ par
  same-moved =
      let z : (cur == p) ≡ false = ==-false_of_ne _ _ (λ e.
        let c = is_proc-some (proc p).parent cur child in
        n (sym x.same ∙ ap (λ (z : ℕ). (proc z).parent) e ∙ c)) in
      rw z x.same

  moved-IsAwake : (q : ℕ) → q < nproc → par ≡ some q → IsAwake moved q
  moved-IsAwake q l e = IsAwake-moved proc p init q (x.awake q l e)

  IsExiting-woken : IsExiting cur par (wakeup1 (of_proc init) moved)
  IsExiting-woken = record {
    watched = IsWatchedBut-wakeup1 init moved (IsWatchedBut-moved proc p init x.watched);
    awake = λ q l e. IsAwake-wakeup1 (of_proc init) moved q l (inr (moved-IsAwake q l e));
    same = wakeup1-parent (of_proc init) moved cur ∙ same-moved;
  }

  IsExiting-moved : is_zombie (proc p).state ≡ false → IsExiting cur par moved
  IsExiting-moved z = record {
    watched =
        IsWatched-update proc p (record (proc p) { parent = some init })
          (record {
            exits = λ e. absurd (false≢true (sym z ∙ is_zombie-zombie _ e));
            sleeps = λ a b. (a, b);
          })
          x.watched;
    awake = moved-IsAwake;
    same = same-moved;
  }

abandon_loop-IsExiting :
    (n p cur init : ℕ) (par : Option ℕ) (proc : ℕ → Process)
    → par ≢ some cur
    → IsExiting cur par proc
    → IsExiting cur par (abandon_loop n p cur init proc)
unfolding abandon_loop
abandon_loop-IsExiting zero p cur init par proc ne x = x
abandon_loop-IsExiting (suc n) p cur init par proc ne x =
    elim (Bool-cases (is_proc (proc p).parent cur)) [
      | inr e ↦ rw e (abandon_loop-IsExiting n (p + 1) cur init par proc ne x)
      | inl e ↦ elim (Bool-cases (is_zombie (proc p).state)) [
        | inl z ↦
            rw (e, z)
              (abandon_loop-IsExiting n (p + 1) cur init par _ ne
                (IsExiting-woken p cur init par proc ne x e))
        | inr z ↦
            rw (e, z)
              (abandon_loop-IsExiting n (p + 1) cur init par _ ne
                (IsExiting-moved p cur init par proc ne x e z))
      ]
    ]

-- After its parent has been woken, `cur` may begin to exit.
IsExiting-wake_parent :
    (cur : ℕ) (proc : ℕ → Process)
    → IsWatched proc
    → IsExiting cur (proc cur).parent (wake_parent (proc cur).parent proc)
IsExiting-wake_parent cur proc w = elim (Option-cases (proc cur).parent) [
  | inl e ↦ rw e (record {
    watched = IsWatched-wakeup1 no_chan proc w;
    awake = λ q l z. cc;
    same = wakeup1-parent no_chan proc cur ∙ e;
  })
  | inr (r, e) ↦ rw e (record {
    watched = IsWatched-wakeup1 (of_proc r) proc w;
    awake = λ q l z. IsAwake-wakeup1 (of_proc r) proc q l (inl (ap of_proc (some_inj r q z)));
    same = wakeup1-parent (of_proc r) proc cur ∙ e;
  })
]

-- The last step of `exit`.
IsWatched-zombie :
    (cur : ℕ) (par : Option ℕ) (proc : ℕ → Process)
    → IsExiting cur par proc
    → IsWatched (update proc cur (record (proc cur) { state = zombie }))
IsWatched-zombie cur par proc x a b la lb l = elim (Bool-cases (a == cur)) [
  | inl e ↦ let s = rw e at l.asleep in cc
  | inr e ↦ elim (Bool-cases (b == cur)) [
    | inl f ↦
        let c = rw f at l.child in
        let s = rw e at l.asleep in let w = rw e at l.waiting in x.awake a la (sym x.same ∙ c) s w
    | inr f ↦ x.watched a b la lb (record {
      asleep = rw e at l.asleep;
      waiting = rw e at l.waiting;
      child = rw f at l.child;
      exited = rw f at l.exited;
    })
  ]
]

-- `exit`, by a process other than init that is not its own parent, keeps that no process sleeps in
-- `wait` while one of its children has exited: the parent of the process and, for its children that
-- have exited, init are woken.
pub exit-IsWatched :
    {M : Type 0} (held : Resources M) (cur : ℕ) (t : Ptable M)
    → cur ≢ t.initproc
    → (t.proc cur).parent ≢ some cur
    → IsWatched t.proc
    → Returns (λ j. IsWatched j.proc × ((j.proc cur).state ≡ zombie)) (exit held cur t)
unfolding exit
exit-IsWatched held cur t n ne w =
    let z : (cur == t.initproc) ≡ false = ==-false_of_ne _ _ n in
    let here : (cur == cur) ≡ true = (==_iff _ _).1 refl in
    rw z (
      returns (
        IsWatched-zombie cur (t.proc cur).parent _ (
            abandon_loop-IsExiting nproc 0 cur t.initproc (t.proc cur).parent _ ne
              (IsExiting-wake_parent cur t.proc w)),
        rw here,
      ))
