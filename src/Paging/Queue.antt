-- ===== src/Paging/Queue.antt =====
-- vm.c: `switchQueueAQ` on the list of pages in RAM.
use xv6_memory_management_im.Common.{
  ℕ, zero, suc, ◌+◌, ◌*◌, ◌≤◌, ◌≡◌, ◌≢◌, refl, ap, sym, ◌∙◌, Bool, true, false, List, [], ◌∷◌, ◌++◌,
  arith, if◌then◌else◌, ==-false_of_ne, length, has, has-ne, Option, none, some, inl, inr,
  Bool-cases,
}
use xv6_memory_management_im.Kernel.{ok, Returns, returns, mono}
use xv6_memory_management_im.Kalloc.{Kmem}
use xv6_memory_management_im.Vm.{is_pte_a}
use xv6_memory_management_im.Paging.Select.{Machine}
use mathlib.Core.Path.{subst}
use mathlib.Core.List.{append_assoc}
use xv6_memory_management_im.Paging.Links.{body}
use xv6_memory_management_im.Paging.Chain.{IsRam}
use xv6_memory_management_im.Paging.Remove.{first, first-Chain}
use xv6_memory_management_im.Paging.Append.{Chain-length}
use xv6_memory_management_im.Paging.SecondChance.{
  accessed, unmark, IsReady, unmark-IsReady, accessed-unmark, IsAt, IsReady-mono, IsAt-body,
  is_pte_a_lem, pte_a_off_lem,
}
use xv6_memory_management_im.Paging.Trade.{swap_next-IsRam, body-swap_next, Chain-later}
use xv6_memory_management_im.Paging.Tick.{
  queue_fuel, queue_from, swap_next, queue_round, queue_loop, switch_queue_aq,
}
use xv6_memory_management_im.Paging.Cleared.{
  trade, trade_one, trade_two, trade_unused, trade_none, trade_eq, IsCleared, unmark-IsCleared,
  skip-IsCleared, accessed-unmark_self,
}

module _ (d : ℕ) (ids : ℕ → ℕ) where
  module _ (m : Machine) (x n : ℕ) (xs : List ℕ) (w : IsAt d ids m) (r : IsReady d ids m.kmem xs)
      (i : has x xs ≡ true) where
    abbrev cleared : Machine
    cleared = record m { kmem = unmark d ids m.kmem x }

    queue_round-passed : accessed d ids m.kmem x ≡ false → queue_round d x n m ≡ ok (n, m)
    unfolding queue_round
    queue_round-passed e = simp (w.named, is_pte_a_lem d ids m x xs w r i, e)

    queue_round-used :
        has n xs ≡ true
        → x ≢ n
        → accessed d ids m.kmem x ≡ true
        → queue_round d x n m
          ≡ ok (
            x,
            record cleared {
              proc = if accessed d ids m.kmem n then m.proc else swap_next x n m.proc;
            },
          )
    unfolding queue_round
    queue_round-used l ne e =
        let w1 = IsAt-body d ids m cleared w refl refl in
        let r1 = unmark-IsReady d ids m.kmem x xs r i in
        let b = is_pte_a_lem d ids cleared n xs w1 r1 l in
        let c = accessed-unmark d ids m.kmem x n xs r i l ne in
        let on : is_pte_a d (ids x) m.kmem ≡ ok 1 =
          is_pte_a_lem d ids m x xs w r i ∙ ap (λ (t : Bool). ok (if t then 1 else 0)) e in
        let o = pte_a_off_lem d ids m x xs w r i in
        let next : is_pte_a d (ids n) (unmark d ids m.kmem x)
            ≡ ok (if accessed d ids m.kmem n then 1 else 0) =
          b ∙ ap (λ (t : Bool). ok (if t then 1 else 0)) c in
        let nx = w.named x in
        let nn = w.named n in
        rw (nx, on, o, nn, next)
          (elim (Bool-cases (accessed d ids m.kmem n)) [ inl q ↦ rw q | inr q ↦ rw q ])

    queue_end : (fuel : ℕ) → queue_loop fuel d x none m ≡ ok cleared
    unfolding queue_loop
    queue_end zero = simp (w.named, pte_a_off_lem d ids m x xs w r i)
    queue_end (suc fuel) = simp (w.named, pte_a_off_lem d ids m x xs w r i)

  queue_step :
      (fuel x n y : ℕ) (m j : Machine)
      → queue_round d x n m ≡ ok (y, j)
      → queue_loop (suc fuel) d x (some n) m ≡ queue_loop fuel d y (j.proc.links y).next j
  unfolding queue_loop
  queue_step fuel x n y m j e = rw e

  has_two :
      (ps : List ℕ) (x n : ℕ) (zs : List ℕ) (m : Machine)
      → IsRam m.proc (ps ++ (x ∷ n ∷ zs))
      → ((m.proc.links x).next ≡ some n)
        × ((m.proc.links n).next ≡ first zs)
        × (has x (n ∷ zs) ≡ false)
        × (has n zs ≡ false)
  has_two ps x n zs m h =
      let (t, o, (e, b, l, new, (e1, b1, l1, new1, h1))) =
        Chain-later m.proc.links none m.proc.head ps (x ∷ n ∷ zs) h in
      (e1, first-Chain m.proc.links (some n) (m.proc.links n).next zs h1, new, new1)

  end-IsCleared : (k : Kmem) (x : ℕ) → IsCleared d ids k (unmark d ids k x) (x ∷ [])
  end-IsCleared k x = record {
    off = λ a i. let e : a ≡ x = ground arith in rw e (ground arith);
    rest = λ b n. let z = ==-false_of_ne _ _ (n x (ground arith)) in rw z;
  }

  abbrev Queued : Machine → List ℕ → List ℕ → Machine → Type 0
  Queued m ps xs j =
      IsRam j.proc (ps ++ trade (accessed d ids m.kmem) xs)
      × IsCleared d ids m.kmem j.kmem xs
      × (body j.proc ≡ body m.proc)

  abbrev cost : Machine → ℕ → List ℕ → ℕ
  cost m x zs = 2 * length zs + (if accessed d ids m.kmem x then 1 else 0)

  abbrev Hypothesis : ℕ → Type 0
  Hypothesis fuel =
      (m : Machine) (ps : List ℕ) (x : ℕ) (zs : List ℕ)
      → IsAt d ids m
      → IsRam m.proc (ps ++ (x ∷ zs))
      → IsReady d ids m.kmem (x ∷ zs)
      → cost m x zs ≤ fuel
      → Returns (Queued m ps (x ∷ zs)) (queue_loop fuel d x (first zs) m)

  module _ (fuel : ℕ) (m : Machine) (ps : List ℕ) (x n : ℕ) (zs : List ℕ) (w : IsAt d ids m)
      (h : IsRam m.proc (ps ++ (x ∷ n ∷ zs))) (r : IsReady d ids m.kmem (x ∷ n ∷ zs))
      (l : cost m x (n ∷ zs) ≤ suc fuel) where
    abbrev all : List ℕ
    all = x ∷ n ∷ zs

    abbrev bits : ℕ → Bool
    bits = accessed d ids m.kmem

    x_in : has x all ≡ true
    x_in = ground arith

    n_in : has n all ≡ true
    n_in = ground arith

    x_ne : x ≢ n
    x_ne = let (a, b, c, e) = has_two ps x n zs m h in ground arith

    -- The other bits do not change with that of `x`.
    bits_kept : (a : ℕ) → has a (n ∷ zs) ≡ true → accessed d ids (unmark d ids m.kmem x) a ≡ bits a
    bits_kept a i =
        let (a1, b, c, e) = has_two ps x n zs m h in
        accessed-unmark d ids m.kmem x a all r x_in (ground arith)
          (λ q. has-ne a x (n ∷ zs) i c (sym q))

    passed :
        bits x ≡ false
        → Hypothesis fuel
        → Returns (Queued m ps all) (queue_loop (suc fuel) d x (some n) m)
    passed e ih =
        let (nx, nn, new, new1) = has_two ps x n zs m h in
        let two : x ∷ trade bits (n ∷ zs) ≡ trade bits all = sym (trade_unused bits x (n ∷ zs) e) in
        let h1 = subst (IsRam m.proc) (sym (append_assoc ps (x ∷ []) (n ∷ zs))) h in
        let r1 = IsReady-mono d ids m.kmem all (n ∷ zs) (λ a i. ground arith) r in
        rw (queue_step fuel x n n m m (queue_round-passed m x n all w r x_in e), nn)
          (mono (ih m (ps ++ (x ∷ [])) n zs w h1 r1 (ground arith)) (λ j (hj, c, b). (
            subst (IsRam j.proc)
                (append_assoc ps (x ∷ []) (trade bits (n ∷ zs)) ∙ ap (λ t. ps ++ t) two) hj,
            skip-IsCleared d ids m.kmem j.kmem x all (n ∷ zs) r x_in new (λ a. refl) e c,
            b,
          )))

    abbrev off : Machine
    off = cleared m x n all w r x_in

    both_used :
        bits x ≡ true
        → bits n ≡ true
        → Hypothesis fuel
        → Returns (Queued m ps all) (queue_loop (suc fuel) d x (some n) m)
    both_used e f ih =
        let (nx, nn, new, new1) = has_two ps x n zs m h in
        let q = queue_round-used m x n all w r x_in n_in x_ne e in
        let q1 : queue_round d x n m ≡ ok (x, off) = q ∙ (rw f) in
        let xo = accessed-unmark_self d ids m.kmem x all r x_in in
        let same : trade (accessed d ids off.kmem) all ≡ trade bits all =
          trade_unused (accessed d ids off.kmem) x (n ∷ zs) xo
          ∙ ap (◌∷◌ x) (trade_eq (accessed d ids off.kmem) bits (n ∷ zs) bits_kept)
          ∙ sym (trade_two bits x n zs ∙ (rw (e, f))) in
        rw (queue_step fuel x n x m off q1, nx)
          (mono
            (ih off ps x (n ∷ zs) (IsAt-body d ids m off w refl refl) h
              (unmark-IsReady d ids m.kmem x all r x_in) (rw xo (ground arith)))
            (λ j (hj, c, b). (
              subst (IsRam j.proc) (ap (λ t. ps ++ t) same) hj,
              unmark-IsCleared d ids m.kmem j.kmem x all r x_in c,
              b,
            )))

    abbrev turned : Machine
    turned = record off { proc = swap_next x n m.proc }

    traded :
        bits x ≡ true
        → bits n ≡ false
        → Hypothesis fuel
        → Returns (Queued m ps all) (queue_loop (suc fuel) d x (some n) m)
    traded e f ih =
        let (nx, nn, new, new1) = has_two ps x n zs m h in
        let q = queue_round-used m x n all w r x_in n_in x_ne e in
        let q1 : queue_round d x n m ≡ ok (x, turned) = q ∙ (rw f) in
        let xo = accessed-unmark_self d ids m.kmem x all r x_in in
        let h1 =
          subst (IsRam turned.proc) (sym (append_assoc ps (n ∷ []) (x ∷ zs)))
            (swap_next-IsRam m.proc ps x n zs h) in
        let (t, o, (e1, b1, l1, new2, c1)) =
          Chain-later turned.proc.links none turned.proc.head (ps ++ (n ∷ [])) (x ∷ zs) h1 in
        let nx1 = first-Chain turned.proc.links (some x) (turned.proc.links x).next zs c1 in
        let same : n ∷ trade (accessed d ids off.kmem) (x ∷ zs) ≡ trade bits all =
          ap (◌∷◌ n) (
            trade_unused (accessed d ids off.kmem) x zs xo
            ∙ ap (◌∷◌ x)
                (trade_eq (accessed d ids off.kmem) bits zs (λ a i. bits_kept a (ground arith))))
          ∙ sym (trade_two bits x n zs ∙ (rw (e, f))) in
        let r1 = unmark-IsReady d ids m.kmem x all r x_in in
        let r2 = IsReady-mono d ids off.kmem all (x ∷ zs) (λ a i. ground arith) r1 in
        let w1 = IsAt-body d ids m turned w refl (body-swap_next x n m.proc) in
        rw (queue_step fuel x n x m turned q1, nx1)
          (mono (ih turned (ps ++ (n ∷ [])) x zs w1 h1 r2 (rw xo (ground arith))) (λ j (hj, c, b). (
            subst (IsRam j.proc)
                (append_assoc ps (n ∷ []) (trade (accessed d ids off.kmem) (x ∷ zs))
                  ∙ ap (λ t. ps ++ t) same)
                hj,
            unmark-IsCleared d ids m.kmem j.kmem x all r x_in (
                skip-IsCleared d ids off.kmem j.kmem n all (x ∷ zs) r1 n_in (ground arith)
                  (λ a. ground arith) (bits_kept n (ground arith) ∙ f) c),
            b ∙ body-swap_next x n m.proc,
          )))

  queue_loop_lem :
      (fuel : ℕ) (m : Machine) (ps : List ℕ) (x : ℕ) (zs : List ℕ)
      → IsAt d ids m
      → IsRam m.proc (ps ++ (x ∷ zs))
      → IsReady d ids m.kmem (x ∷ zs)
      → cost m x zs ≤ fuel
      → Returns (Queued m ps (x ∷ zs)) (queue_loop fuel d x (first zs) m)
  queue_loop_lem fuel m ps x [] w h r l =
      let i : has x (x ∷ []) ≡ true = ground arith in
      rw (queue_end m x x (x ∷ []) w r i fuel)
        (returns (rw (trade_one (accessed d ids m.kmem) x) h, end-IsCleared m.kmem x, refl))
  queue_loop_lem zero m ps x (n ∷ zs) w h r l = absurd (omega arith)
  queue_loop_lem (suc fuel) m ps x (n ∷ zs) w h r l =
      let (nx, nn, new, new1) = has_two ps x n zs m h in
      elim (Bool-cases (accessed d ids m.kmem x)) [
        | inr e ↦ passed fuel m ps x n zs w h r l e (queue_loop_lem fuel)
        | inl e ↦ elim (Bool-cases (accessed d ids m.kmem n)) [
          | inl f ↦ both_used fuel m ps x n zs w h r l e f (queue_loop_lem fuel)
          | inr f ↦ traded fuel m ps x n zs w h r l e f (queue_loop_lem fuel)
        ]
      ]

  queue_run :
      (m : Machine) (xs : List ℕ)
      → IsAt d ids m
      → IsRam m.proc xs
      → IsReady d ids m.kmem xs
      → Returns (Queued m [] xs) (queue_from d (first xs) m)
  unfolding queue_from
  queue_run m [] w h r = returns (
    subst (IsRam m.proc) (sym (trade_none (accessed d ids m.kmem))) h,
    record { off = λ a i. cc; rest = λ b n. refl },
    refl,
  )
  queue_run m (x ∷ xs) w h r =
      let few = Chain-length m.proc.links none m.proc.head (x ∷ xs) h in
      let n = first-Chain m.proc.links (some x) (m.proc.links x).next xs h.4 in
      rw n (queue_loop_lem queue_fuel m [] x xs w h r (ground (arith, few)))

-- switchQueueAQ returns within its fuel and turns the list of pages in RAM, linked both ways, into the
-- list in which each used page that has an unused one behind it is behind that one; the reference
-- bits of all the pages are then off, no other word of memory is changed, and nothing else of the
-- process. The pages are different and the user may reach them, and the process uses its own
-- directory.
pub switch_queue_aq-trade :
    (m : Machine) (xs : List ℕ)
    → let d = m.proc.pgdir in
      let ids = λ (a : ℕ). (m.proc.links a).page_id in
      m.global_pgdir ≡ none
      → IsRam m.proc xs
      → IsReady d ids m.kmem xs
      → Returns
          (λ j.
            IsRam j.proc (trade (accessed d ids m.kmem) xs)
            × IsCleared d ids m.kmem j.kmem xs
            × (body j.proc ≡ body m.proc))
          (switch_queue_aq d m)
unfolding switch_queue_aq
switch_queue_aq-trade m xs g h r =
    let e = first-Chain m.proc.links none m.proc.head xs h in
    subst
      (λ (o : Option ℕ).
        Returns (Queued m.proc.pgdir (λ a. (m.proc.links a).page_id) m [] xs)
          (queue_from m.proc.pgdir o m))
      (sym e)
      (queue_run m.proc.pgdir (λ a. (m.proc.links a).page_id) m xs
        (record { alone = g; dir = refl; named = λ a. refl }) h r)
