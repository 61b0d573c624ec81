-- ===== src/Process/Wakeup.antt =====
-- proc.c: `wakeup1` wakes exactly the processes that sleep on a channel.
use xv6_memory_management_im.Common.{
  ℕ, zero, suc, ◌+◌, ◌≤◌, ◌<◌, ◌≡◌, ◌≢◌, refl, ap, sym, ◌∙◌, Bool, true, false, ◌&&◌, arith,
  if◌then◌else◌, ◌==◌, ==_iff, update, ltb, leb, none, some, inl, inr, Bool-cases, some_inj, lt→ltb,
}
use mathlib.Core.Path.{subst}
use mathlib.Core.Bool.{false≢true}
use xv6_memory_management_im.Process.{
  sleeping, zombie, Chan, no_chan, of_proc, of_other, same_chan, is_sleeping, Process, nproc,
  find_proc, woken, wakeup_loop, wakeup1,
}

wakeup_loop-at :
    (n p : ℕ) (c : Chan) (proc : ℕ → Process) (q : ℕ)
    → wakeup_loop n p c proc q ≡ (if leb p q && ltb q (p + n) then woken c (proc q) else proc q)
unfolding wakeup_loop
wakeup_loop-at zero p c proc q = ground arith
wakeup_loop-at (suc n) p c proc q =
    wakeup_loop-at n (p + 1) c (update proc p (woken c (proc p))) q ∙ (elim (Bool-cases (q == p)) [
      | inl e ↦
          let i = (==_iff _ _).0 e in
          let a : (leb (p + 1) q && ltb q (p + 1 + n)) ≡ false = ground arith in
          let b : (leb p q && ltb q (p + suc n)) ≡ true = ground arith in rw (a, b, e, i)
      | inr e ↦
          let a : (leb (p + 1) q && ltb q (p + 1 + n)) ≡ (leb p q && ltb q (p + suc n)) =
            ground arith in
          rw (a, e)
    ])

-- `wakeup1` makes every process of the table runnable that sleeps on the channel, and changes nothing
-- else.
pub wakeup1-at :
    (c : Chan) (proc : ℕ → Process) (q : ℕ)
    → wakeup1 c proc q ≡ (if ltb q nproc then woken c (proc q) else proc q)
unfolding wakeup1
wakeup1-at c proc q =
    let a : (leb 0 q && ltb q (0 + nproc)) ≡ ltb q nproc = ground arith in
    wakeup_loop-at nproc 0 c proc q ∙ (rw a)

pub woken-parent : (c : Chan) (x : Process) → (woken c x).parent ≡ x.parent
unfolding woken
woken-parent c x = ground arith

pub wakeup1-in :
    (c : Chan) (proc : ℕ → Process) (q : ℕ) → q < nproc → wakeup1 c proc q ≡ woken c (proc q)
wakeup1-in c proc q l =
    let e : (if ltb q nproc then woken c (proc q) else proc q) ≡ woken c (proc q) =
      rw (lt→ltb q nproc l) in
    wakeup1-at c proc q ∙ e

pub wakeup1-parent :
    (c : Chan) (proc : ℕ → Process) (q : ℕ) → (wakeup1 c proc q).parent ≡ (proc q).parent
wakeup1-parent c proc q =
    rw (wakeup1-at c proc q)
      (elim (Bool-cases (ltb q nproc)) [ inl e ↦ rw e (woken-parent c (proc q)) | inr e ↦ rw e ])

pub same_chan_self : (c : Chan) → same_chan c c ≡ true
same_chan_self no_chan = refl
same_chan_self (of_proc a) = (==_iff a a).1 refl
same_chan_self (of_other a) = (==_iff a a).1 refl

-- What waking leaves: a sleeper is as it was and sleeps on another channel; a zombie was one.
pub woken-sleeping :
    (c : Chan) (x : Process)
    → (woken c x).state ≡ sleeping
    → (x.state ≡ sleeping) × (x.chan ≢ c) × ((woken c x).chan ≡ x.chan)
unfolding woken
woken-sleeping c x h = elim (Bool-cases (is_sleeping x.state && same_chan x.chan c)) [
  | inl e ↦ let g = rw e at h in cc
  | inr e ↦
      let g = rw e at h in
      (
        g,
        λ q.
            let a : is_sleeping x.state ≡ true = ap is_sleeping g in
            let b : same_chan x.chan c ≡ true =
              ap (λ (z : Chan). same_chan z c) q ∙ same_chan_self c in
            let d : (is_sleeping x.state && same_chan x.chan c) ≡ true = rw (a, b) in
            absurd (false≢true (sym e ∙ d)),
        rw e,
      )
]

pub woken-zombie : (c : Chan) (x : Process) → (woken c x).state ≡ zombie → x.state ≡ zombie
unfolding woken
woken-zombie c x h = ground arith

-- What the search of the table gives.
pub find_proc-none :
    (n p : ℕ) (test : Process → Bool) (proc : ℕ → Process)
    → find_proc n p test proc ≡ none
    → (q : ℕ) → p ≤ q
    → q < p + n
    → test (proc q) ≡ false
unfolding find_proc
find_proc-none zero p test proc h q a b = absurd (omega arith)
find_proc-none (suc n) p test proc h q a b = elim (Bool-cases (test (proc p))) [
  | inl e ↦ let g = rw e at h in cc
  | inr e ↦
      let g = rw e at h in
      elim (Bool-cases (q == p)) [
        | inl i ↦ let k = (==_iff _ _).0 i in rw k e
        | inr i ↦ find_proc-none n (p + 1) test proc g q (ground arith) (omega arith)
      ]
]

pub find_proc-some :
    (n p : ℕ) (test : Process → Bool) (proc : ℕ → Process) (q : ℕ)
    → find_proc n p test proc ≡ some q
    → (p ≤ q) × (q < p + n) × (test (proc q) ≡ true)
unfolding find_proc
find_proc-some zero p test proc q h = cc
find_proc-some (suc n) p test proc q h = elim (Bool-cases (test (proc p))) [
  | inl e ↦
      let g = rw e at h in
      let k : p ≡ q = some_inj p q g in
      (omega arith, omega arith, subst (λ (z : ℕ). test (proc z) ≡ true) k e)
  | inr e ↦
      let g = rw e at h in
      let (a, b, c) = find_proc-some n (p + 1) test proc q g in (omega arith, omega arith, c)
]
