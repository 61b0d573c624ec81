-- ===== src/Paging/SecondChance.antt =====
-- vm.c: the second chance that SCFIFO gives.
use xv6_memory_management_im.Common.{
  ℕ, zero, suc, ◌<◌, ◌≡◌, ◌≢◌, refl, ap, sym, ◌∙◌, Bool, true, false, List, [], ◌∷◌, ◌++◌, arith,
  if◌then◌else◌, ◌==◌, ==-false_of_ne, ==_iff, length, length-append, has, has-append, has-ne, none,
  some, inl, inr, Bool-cases,
}
use xv6_memory_management_im.Common.Word.{word_mod, test_bit, clear_bit}
use xv6_memory_management_im.Kernel.{ok, Returns, returns, mono, result, ◌>>=◌}
use xv6_memory_management_im.Kalloc.{Kmem}
use xv6_memory_management_im.Vm.Pte.{pte_u, pte_a}
use xv6_memory_management_im.Vm.{walk, store, is_pte_a, pte_a_off}
use xv6_memory_management_im.Vm.Table.{IsPgdir, walk-stored, stored-IsPgdir, walk-ne, page_of}
use xv6_memory_management_im.Paging.{Proc, scfifo, remove_page_from_list}
use mathlib.Core.Path.{subst}
use mathlib.Core.List.{append_assoc, append-nil}
use xv6_memory_management_im.Paging.Links.{body, body-add, body-remove}
use xv6_memory_management_im.Paging.Chain.{IsRam}
use xv6_memory_management_im.Paging.Remove.{remove_page_from_list-IsRam}
use xv6_memory_management_im.Paging.Append.{add_page_to_list-IsRam, Chain-length}
use xv6_memory_management_im.Paging.Select.{
  Machine, is_user, requeue, second_chance, scfifo_loop, scfifo_fuel, choose_page_to_swap,
}

-- Taking the head off a list of several pages and putting it at the end turns the list, and
-- changes nothing else of the process.
requeue-IsRam :
    (m : Machine) (x y : ℕ) (xs : List ℕ)
    → IsRam m.proc (x ∷ y ∷ xs)
    → Returns
        (λ j.
          IsRam j.proc ((y ∷ xs) ++ (x ∷ []))
          × (j.kmem ≡ m.kmem)
          × (j.global_pgdir ≡ m.global_pgdir)
          × (body j.proc ≡ body m.proc))
        (requeue x m)
unfolding requeue
requeue-IsRam m x y xs h =
    let r = remove_page_from_list-IsRam m.proc [] x (y ∷ xs) h in
    let (p, e, q) =
      result (add_page_to_list-IsRam (remove_page_from_list x m.proc) y xs x r h.2 h.3) in
    rw e (
      returns
        (q, refl, refl, body-add x (remove_page_from_list x m.proc) p e ∙ body-remove x m.proc))

requeue_some :
    (m : Machine) (x : ℕ) (xs : List ℕ)
    → xs ≢ []
    → IsRam m.proc (x ∷ xs)
    → Returns
        (λ j.
          IsRam j.proc (xs ++ (x ∷ []))
          × (j.kmem ≡ m.kmem)
          × (j.global_pgdir ≡ m.global_pgdir)
          × (body j.proc ≡ body m.proc))
        (requeue x m)
requeue_some m x [] ne h = absurd (ne refl)
requeue_some m x (y ∷ xs) ne h = requeue-IsRam m x y xs h

append-ne-nil : (ys : List ℕ) (z : ℕ) (zs : List ℕ) → ys ++ (z ∷ zs) ≢ []
append-ne-nil [] z zs e = cc
append-ne-nil (y ∷ ys) z zs e = cc

has_left : (a : ℕ) (xs ys : List ℕ) → has a xs ≡ true → has a (xs ++ ys) ≡ true
has_left a xs ys h = let e = has-append a xs ys in ground arith

has_middle : (a : ℕ) (xs ys : List ℕ) → has a (xs ++ (a ∷ ys)) ≡ true
has_middle a [] ys = ground arith
has_middle a (x ∷ xs) ys = ground (arith, has_middle a xs ys)

-- The first entry of `ys ++ (z ∷ zs)`.
abbrev front : List ℕ → ℕ → ℕ
front [] z = z
front (y ∷ ys) z = y

front-head :
    (p : Proc) (ys : List ℕ) (z : ℕ) (zs : List ℕ)
    → IsRam p (ys ++ (z ∷ zs))
    → p.head ≡ some (front ys z)
front-head p [] z zs h = h.0
front-head p (y ∷ ys) z zs h = h.0

module _ (d : ℕ) (ids : ℕ → ℕ) where
  -- The reference bit of a page.
  abbrev pub accessed : Kmem → ℕ → Bool
  accessed k a = test_bit (k.mem (walk k d (ids a))) pte_a

  -- `k` with the reference bit of `a` off.
  abbrev pub unmark : Kmem → ℕ → Kmem
  unmark k a = store (walk k d (ids a)) (clear_bit (k.mem (walk k d (ids a))) pte_a) k

  abbrev pub unmark_all : Kmem → List ℕ → Kmem
  unmark_all k [] = k
  unmark_all k (a ∷ xs) = unmark_all (unmark k a) xs

  -- The pages of the list are different, and each has an entry that lets the user in.
  pub record IsReady (k : Kmem) (xs : List ℕ) : Type 0 where
    pub dirs : IsPgdir k d
    pub pages :
        (a : ℕ)
        → has a xs ≡ true
        → (ids a < word_mod)
          × (walk k d (ids a) ≢ 0)
          × (test_bit (k.mem (walk k d (ids a))) pte_u ≡ true)
    pub apart :
        (a b : ℕ) → has a xs ≡ true → has b xs ≡ true → a ≢ b → page_of (ids a) ≢ page_of (ids b)

  pub unmark-IsReady :
      (k : Kmem) (x : ℕ) (xs : List ℕ) → IsReady k xs → has x xs ≡ true → IsReady (unmark k x) xs
  unmark-IsReady k x xs r m =
      let (lx, hx, ux) = r.pages x m in
      record {
        dirs = stored-IsPgdir k d (ids x) _ r.dirs hx;
        pages = λ a i.
            let (la, ha, ua) = r.pages a i in
            let e =
              walk-stored k d (ids x) (clear_bit (k.mem (walk k d (ids x))) pte_a) r.dirs hx
                (ids a) in
            (
              la,
              rw e ha,
              rw e (elim (Bool-cases (walk k d (ids a) == walk k d (ids x))) [
                | inl q ↦ rw q (let qq = (==_iff _ _).0 q in ground arith)
                | inr q ↦ rw q ua
              ]),
            );
        apart = r.apart;
      }

  pub accessed-unmark :
      (k : Kmem) (x a : ℕ) (xs : List ℕ)
      → IsReady k xs
      → has x xs ≡ true
      → has a xs ≡ true
      → x ≢ a
      → accessed (unmark k x) a ≡ accessed k a
  accessed-unmark k x a xs r mx ma ne =
      let (lx, hx, ux) = r.pages x mx in
      let (la, ha, ua) = r.pages a ma in
      let e =
        walk-stored k d (ids x) (clear_bit (k.mem (walk k d (ids x))) pte_a) r.dirs hx (ids a) in
      let q =
        ==-false_of_ne _ _
          (walk-ne k d (ids x) 0 r.dirs hx (ids a) lx la ha (r.apart x a mx ma ne)) in
      rw (e, q)

  -- The machine runs with the directory `d`, and `ids` are the pages of its entries.
  pub record IsAt (m : Machine) : Type 0 where
    pub alone : m.global_pgdir ≡ none
    pub dir : m.proc.pgdir ≡ d
    pub named : (a : ℕ) → (m.proc.links a).page_id ≡ ids a

  module _ (m : Machine) (x : ℕ) (xs : List ℕ) (w : IsAt m) (r : IsReady m.kmem xs)
      (i : has x xs ≡ true) where
    mapped : (walk m.kmem d (ids x) == 0) ≡ false
    mapped = ==-false_of_ne _ _ (r.pages x i).1

    is_user-true : is_user m.kmem d (ids x) ≡ ok true
    unfolding is_user
    is_user-true = let u = (r.pages x i).2 in rw mapped (rw u)

    pub is_pte_a_lem : is_pte_a d (ids x) m.kmem ≡ ok (if accessed m.kmem x then 1 else 0)
    unfolding is_pte_a
    is_pte_a_lem = rw mapped

    pub pte_a_off_lem : pte_a_off d (ids x) m.kmem ≡ ok (unmark m.kmem x)
    unfolding pte_a_off
    pte_a_off_lem = rw mapped

    second_chance-chosen : accessed m.kmem x ≡ false → second_chance x m ≡ ok (true, m)
    unfolding second_chance
    second_chance-chosen c = simp (w.alone, w.dir, w.named, is_user-true, is_pte_a_lem, c)

    second_chance-turned :
        accessed m.kmem x ≡ true
        → second_chance x m
          ≡ (requeue x (record m { kmem = unmark m.kmem x }) >>= λ j. ok (false, j))
    unfolding second_chance
    second_chance-turned c =
        simp (w.alone, w.dir, w.named, is_user-true, is_pte_a_lem, c, pte_a_off_lem)

  pub IsReady-mono :
      (k : Kmem) (xs ys : List ℕ)
      → ((a : ℕ) → has a ys ≡ true → has a xs ≡ true)
      → IsReady k xs
      → IsReady k ys
  IsReady-mono k xs ys sub r = record {
    dirs = r.dirs;
    pages = λ a i. r.pages a (sub a i);
    apart = λ a b i j. r.apart a b (sub a i) (sub b j);
  }

  pub IsAt-body :
      (m j : Machine)
      → IsAt m
      → j.global_pgdir ≡ m.global_pgdir
      → body j.proc ≡ body m.proc
      → IsAt j
  IsAt-body m j w g b = record {
    alone = g ∙ w.alone;
    dir = ap (λ (p : Proc). p.pgdir) b ∙ w.dir;
    named = λ a. ap (λ (p : Proc). (p.links a).page_id) b ∙ w.named a;
  }

  turned_has : (a y : ℕ) (xs : List ℕ) → has a (xs ++ (y ∷ [])) ≡ true → has a (y ∷ xs) ≡ true
  turned_has a y xs h = let e = has-append a xs (y ∷ []) in ground arith

  scfifo_loop-found :
      (n : ℕ) (m : Machine) (x : ℕ)
      → second_chance x m ≡ ok (true, m)
      → scfifo_loop (suc n) x m ≡ ok (x, m)
  unfolding scfifo_loop
  scfifo_loop-found n m x e = rw e

  -- What the loop finds after a page that was used: the list turned, that page's bit off.
  record IsTurned (m : Machine) (y : ℕ) (ys : List ℕ) (z : ℕ) (zs : List ℕ) (j : Machine)
      : Type 0 where
    done : requeue y (record m { kmem = unmark m.kmem y }) ≡ ok j
    at : IsAt j
    ram : IsRam j.proc (ys ++ (z ∷ (zs ++ (y ∷ []))))
    ready : IsReady j.kmem (ys ++ (z ∷ (zs ++ (y ∷ []))))
    same : (a : ℕ) → has a (ys ++ (z ∷ zs)) ≡ true → accessed j.kmem a ≡ accessed m.kmem a
    memory : j.kmem ≡ unmark m.kmem y
    kept : body j.proc ≡ body m.proc

  turn :
      (m : Machine) (y : ℕ) (ys : List ℕ) (z : ℕ) (zs : List ℕ)
      → IsAt m
      → IsRam m.proc (y ∷ (ys ++ (z ∷ zs)))
      → IsReady m.kmem (y ∷ (ys ++ (z ∷ zs)))
      → (j : Machine) × IsTurned m y ys z zs j
  turn m y ys z zs w h r =
      let all = y ∷ (ys ++ (z ∷ zs)) in
      let iy : has y all ≡ true = ground arith in
      let m1 : Machine = record m { kmem = unmark m.kmem y } in
      let (j, e, (h', k', g', b')) =
        result (requeue_some m1 y (ys ++ (z ∷ zs)) (append-ne-nil ys z zs) h) in
      let assoc = append_assoc ys (z ∷ zs) (y ∷ []) in
      let r1 = unmark-IsReady m.kmem y all r iy in
      let r2 =
        IsReady-mono m1.kmem all ((ys ++ (z ∷ zs)) ++ (y ∷ []))
          (λ a. turned_has a y (ys ++ (z ∷ zs))) r1 in
      (
        j,
        record {
          done = e;
          at = IsAt-body m j w g' b';
          ram = subst (IsRam j.proc) assoc h';
          ready =
              subst (λ k. IsReady k (ys ++ (z ∷ (zs ++ (y ∷ []))))) (sym k')
                (subst (IsReady m1.kmem) assoc r2);
          same = λ a i.
              ap (λ (k : Kmem). accessed k a) k'
              ∙ accessed-unmark m.kmem y a all r iy (ground arith)
                  (λ e. has-ne a y (ys ++ (z ∷ zs)) i h.3 (sym e));
          memory = k';
          kept = b';
        },
      )

  scfifo_loop-turned :
      (n : ℕ) (m m1 j : Machine) (y x : ℕ)
      → second_chance y m ≡ (requeue y m1 >>= λ i. ok (false, i))
      → requeue y m1 ≡ ok j
      → j.proc.head ≡ some x
      → scfifo_loop (suc n) y m ≡ scfifo_loop n x j
  unfolding scfifo_loop
  scfifo_loop-turned n m m1 j y x s e t = simp (s, e, t)

  scfifo_loop_lem :
      (n : ℕ) (m : Machine) (ys : List ℕ) (z : ℕ) (zs : List ℕ)
      → IsAt m
      → IsRam m.proc (ys ++ (z ∷ zs))
      → IsReady m.kmem (ys ++ (z ∷ zs))
      → ((a : ℕ) → has a ys ≡ true → accessed m.kmem a ≡ true)
      → accessed m.kmem z ≡ false
      → length ys < n
      → Returns
          (λ (o, j).
            (o ≡ z)
            × IsRam j.proc ((z ∷ zs) ++ ys)
            × (j.kmem ≡ unmark_all m.kmem ys)
            × (body j.proc ≡ body m.proc))
          (scfifo_loop n (front ys z) m)
  scfifo_loop_lem zero m ys z zs w h r used spare l = absurd (omega arith)
  scfifo_loop_lem (suc n) m [] z zs w h r used spare l =
      rw (scfifo_loop-found n m z (second_chance-chosen m z (z ∷ zs) w r (ground arith) spare))
        (returns (refl, rw append-nil h, refl, refl))
  scfifo_loop_lem (suc n) m (y ∷ ys) z zs w h r used spare l =
      let all = y ∷ (ys ++ (z ∷ zs)) in
      let (j, t) = turn m y ys z zs w h r in
      let m1 : Machine = record m { kmem = unmark m.kmem y } in
      let s = second_chance-turned m y all w r (ground arith) (used y (ground arith)) in
      let ih =
        scfifo_loop_lem n j ys z (zs ++ (y ∷ [])) t.at t.ram t.ready
          (λ a i. t.same a (has_left a ys (z ∷ zs) i) ∙ used a (ground arith))
          (t.same z (has_middle z ys zs) ∙ spare) (omega arith) in
      rw (scfifo_loop-turned n m m1 j y (front ys z) s t.done (front-head j.proc ys z _ t.ram)) (
        mono ih λ (o, q) (eo, hq, kq, bq). (
          eo,
          subst (IsRam q.proc) (ap (◌∷◌ z) (append_assoc zs (y ∷ []) ys)) hq,
          kq ∙ ap (λ k. unmark_all k ys) t.memory,
          bq ∙ t.kept,
        ))

choose_scfifo_run :
    (m j : Machine) (x o : ℕ)
    → m.proc.head ≡ some x
    → scfifo_loop scfifo_fuel x m ≡ ok (o, j)
    → choose_page_to_swap scfifo m ≡ ok (some o, j)
unfolding choose_page_to_swap
choose_scfifo_run m j x o e t = simp (e, t)

-- SCFIFO gives up the first page of the queue whose reference bit is off. The pages before it,
-- whose bits are on, lose the bit and go to the end of the queue in their order; no other word of
-- memory and nothing else of the process changes. The list holds different pages that the user may
-- reach, and the process uses its own directory.
pub choose-scfifo :
    (m : Machine) (ys : List ℕ) (z : ℕ) (zs : List ℕ)
    → let d = m.proc.pgdir in
      let ids = λ (a : ℕ). (m.proc.links a).page_id in
      m.global_pgdir ≡ none
      → IsRam m.proc (ys ++ (z ∷ zs))
      → IsReady d ids m.kmem (ys ++ (z ∷ zs))
      → ((a : ℕ) → has a ys ≡ true → accessed d ids m.kmem a ≡ true)
      → accessed d ids m.kmem z ≡ false
      → Returns
          (λ (o, j).
            (o ≡ some z)
            × IsRam j.proc ((z ∷ zs) ++ ys)
            × (j.kmem ≡ unmark_all d ids m.kmem ys)
            × (body j.proc ≡ body m.proc))
          (choose_page_to_swap scfifo m)
choose-scfifo m ys z zs g h r used spare =
    let d = m.proc.pgdir in
    let ids = λ (a : ℕ). (m.proc.links a).page_id in
    let w : IsAt d ids m = record { alone = g; dir = refl; named = λ a. refl } in
    let few = Chain-length m.proc.links none m.proc.head (ys ++ (z ∷ zs)) h in
    let run =
      scfifo_loop_lem d ids scfifo_fuel m ys z zs w h r used spare
        (omega (arith, few, length-append ys (z ∷ zs))) in
    let ((o, j), e, (eo, hq, kq, bq)) = result run in
    rw (choose_scfifo_run m j (front ys z) o (front-head m.proc ys z zs h) e)
      (returns (ap some eo, hq, kq, bq))
