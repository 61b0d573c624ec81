-- ===== src/Paging/Trade.antt =====
-- vm.c: `switchQueueAQ` lets an entry of the list change places with the one behind it.
use xv6_memory_management_im.Common.{
  ℕ, ◌≡◌, ◌≢◌, refl, ap, sym, ◌∙◌, true, false, List, [], ◌∷◌, ◌++◌, arith, if◌then◌else◌, has,
  has-append, has-ne, Option, none, some, some_eq,
}
use xv6_memory_management_im.Paging.{PageLink, Proc, set_next, set_prev}
use mathlib.Core.Path.{subst}
use mathlib.Core.List.{append_assoc}
use xv6_memory_management_im.Paging.Links.{
  link_laws, points, body, body-set_next, body-set_prev, body-set_prev_of,
}
use xv6_memory_management_im.Paging.Chain.{Chain, IsRam, Chain-frame}
use xv6_memory_management_im.Paging.Remove.{
  first, first-Chain, first-ne, points-first, points-ne, points-eq, split_last,
}
use xv6_memory_management_im.Paging.Tick.{set_next_of, head_at, swap_next}

module _ (o : Option ℕ) (a : ℕ) (v : Option ℕ) (p : Proc) where
  next-set_next_of :
      ((set_next_of o v p).links a).next ≡ (if points o a then v else (p.links a).next)
  unfolding set_next_of set_next
  next-set_next_of = ground arith

  prev-set_next_of : ((set_next_of o v p).links a).prev ≡ (p.links a).prev
  unfolding set_next_of set_next
  prev-set_next_of = ground arith

head-set_next_of : (o v : Option ℕ) (p : Proc) → (set_next_of o v p).head ≡ p.head
unfolding set_next_of set_next
head-set_next_of none v p = refl
head-set_next_of (some i) v p = refl

next-head_at :
    (o : Option ℕ) (n a : ℕ) (p : Proc) → ((head_at o n p).links a).next ≡ (p.links a).next
unfolding head_at
next-head_at none n a p = refl
next-head_at (some q) n a p = refl

prev-head_at :
    (o : Option ℕ) (n a : ℕ) (p : Proc) → ((head_at o n p).links a).prev ≡ (p.links a).prev
unfolding head_at
prev-head_at none n a p = refl
prev-head_at (some q) n a p = refl

ruleset trade_laws =
    (link_laws, next-set_next_of, prev-set_next_of, head-set_next_of, next-head_at, prev-head_at)

has-first : (zs : List ℕ) (a : ℕ) → first zs ≡ some a → has a zs ≡ true
has-first [] a e = cc
has-first (z ∷ zs) a e = let q = some_eq z a e in ground arith

-- `g` is `f` with `x` and the entry `n` behind it in each other's place, between `t` and `zs`.
record IsTraded (f g : ℕ → PageLink) (t : Option ℕ) (x n : ℕ) (zs : List ℕ) : Type 0 where
  x_prev : (g x).prev ≡ some n
  x_next : (g x).next ≡ first zs
  n_prev : (g n).prev ≡ t
  n_next : (g n).next ≡ some x
  front : (q : ℕ) → t ≡ some q → ((g q).next ≡ some n) × ((g q).prev ≡ (f q).prev)
  behind : (z : ℕ) → first zs ≡ some z → ((g z).prev ≡ some x) × ((g z).next ≡ (f z).next)
  rest :
      (a : ℕ)
      → a ≢ x
      → a ≢ n
      → t ≢ some a
      → first zs ≢ some a
      → ((g a).next ≡ (f a).next) × ((g a).prev ≡ (f a).prev)

swap_next-IsTraded :
    (p : Proc) (t : Option ℕ) (x n : ℕ) (zs : List ℕ)
    → (p.links x).prev ≡ t
    → (p.links n).next ≡ first zs
    → x ≢ n
    → has x zs ≡ false
    → has n zs ≡ false
    → t ≢ some x
    → t ≢ some n
    → ((a : ℕ) → has a zs ≡ true → t ≢ some a)
    → IsTraded p.links (swap_next x n p).links t x n zs
unfolding swap_next
swap_next-IsTraded p t x n zs b e ne nx nn tx tn tz =
    let zx = points-first x zs nx in
    let zn = points-first n zs nn in
    let ux = points-ne t x tx in
    let un = points-ne t n tn in
    record {
      x_prev = rw b (simp (trade_laws, e) (ground arith));
      x_next = rw b (simp (trade_laws, e) (ground arith));
      n_prev = rw b (simp (trade_laws, e) (ground arith));
      n_next = rw b (simp (trade_laws, e) (ground arith));
      front = λ q w.
          let pq = points-eq t q w in
          let qx : q ≢ x = λ r. tx (w ∙ ap some r) in
          let qn : q ≢ n = λ r. tn (w ∙ ap some r) in
          let pz = points-ne (first zs) q (λ r. tz q (has-first zs q r) w) in
          (rw b (simp (trade_laws, e) (ground arith)), rw b (simp (trade_laws, e) (ground arith)));
      behind = λ z w.
          let pz = points-eq (first zs) z w in
          let m = has-first zs z w in
          let zx = has-ne z x zs m nx in
          let zn = has-ne z n zs m nn in
          let pt = points-ne t z (tz z m) in
          (rw b (simp (trade_laws, e) (ground arith)), rw b (simp (trade_laws, e) (ground arith)));
      rest = λ a y z u v.
          let pt = points-ne t a u in
          let pz = points-ne (first zs) a v in
          (rw b (simp (trade_laws, e) (ground arith)), rw b (simp (trade_laws, e) (ground arith)));
    }

-- The entries behind are a chain still, with another predecessor.
behind-Chain :
    (f g : ℕ → PageLink) (t : Option ℕ) (x n : ℕ) (zs : List ℕ)
    → IsTraded f g t x n zs
    → has x zs ≡ false
    → has n zs ≡ false
    → ((a : ℕ) → has a zs ≡ true → t ≢ some a)
    → Chain f (some n) (first zs) zs
    → Chain g (some x) (first zs) zs
behind-Chain f g t x n [] j nx nn tz h = refl
behind-Chain f g t x n (z ∷ zs) j nx nn tz (e, b, l, new, h) =
    let (b1, e1) = j.behind z refl in
    (
      refl,
      b1,
      l,
      new,
      rw e1 (
          Chain-frame f g (some z) (f z).next zs
            (λ a m.
              j.rest a (has-ne a x zs m (ground arith)) (has-ne a n zs m (ground arith))
                (tz a (ground arith)) (λ r. has-ne a z zs m new (some_eq a z (sym r))))
            h),
    )

-- The two entries in their new order.
pair-Chain :
    (f g : ℕ → PageLink) (t p : Option ℕ) (x n : ℕ) (zs : List ℕ)
    → IsTraded f g t x n zs
    → ((a : ℕ) → has a zs ≡ true → t ≢ some a)
    → Chain f t p (x ∷ n ∷ zs)
    → Chain g t (some n) (n ∷ x ∷ zs)
pair-Chain f g t p x n zs j tz (e, b, l, new, (e1, b1, l1, new1, h)) =
    let w = first-Chain f (some n) (f n).next zs h in
    let q = j.n_next in
    let c =
      behind-Chain f g t x n zs j (ground arith) new1 tz
        (subst (λ (r : Option ℕ). Chain f (some n) r zs) w h) in
    (
      refl,
      j.n_prev,
      l1,
      ground arith,
      (
        q,
        j.x_prev,
        l,
        ground arith,
        subst (λ (r : Option ℕ). Chain g (some x) r zs) (sym j.x_next) c,
      ),
    )

traded-Chain :
    (f g : ℕ → PageLink) (r p : Option ℕ) (pre : List ℕ) (q x n : ℕ) (zs : List ℕ)
    → IsTraded f g (some q) x n zs
    → Chain f r p (pre ++ (q ∷ x ∷ n ∷ zs))
    → Chain g r p (pre ++ (q ∷ n ∷ x ∷ zs))
traded-Chain f g r p [] q x n zs j (e, b, l, new, h) =
    let (t, u) = j.front q refl in
    let tz = λ (a : ℕ) (m : has a zs ≡ true).
      (let w : some q ≢ some a = λ z. has-ne a q zs m (ground arith) (some_eq a q (sym z)) in w) in
    (
      e,
      u ∙ b,
      l,
      ground arith,
      subst (λ (o : Option ℕ). Chain g (some q) o (n ∷ x ∷ zs)) (sym t)
          (pair-Chain f g (some q) (f q).next x n zs j tz h),
    )
traded-Chain f g r p (y ∷ pre) q x n zs j (e, b, l, new, h) =
    let w = has-append y pre (q ∷ x ∷ n ∷ zs) in
    let v = has-append y pre (q ∷ n ∷ x ∷ zs) in
    let yz : first zs ≢ some y = first-ne y zs (ground arith) in
    let yq : some q ≢ some y = λ z. (let c = some_eq q y z in ground arith) in
    let (t, u) = j.rest y (ground arith) (ground arith) yq yz in
    (e, u ∙ b, l, ground arith, rw t (traded-Chain f g (some y) (f y).next pre q x n zs j h))

-- What a chain says of two entries in a row, the first of which has the predecessor `t`.
record IsPair (f : ℕ → PageLink) (t : Option ℕ) (x n : ℕ) (zs : List ℕ) : Type 0 where
  back : (f x).prev ≡ t
  next : (f x).next ≡ some n
  ahead : (f n).next ≡ first zs
  ne : x ≢ n
  x_new : has x zs ≡ false
  n_new : has n zs ≡ false

Chain-IsPair :
    (f : ℕ → PageLink) (t p : Option ℕ) (x n : ℕ) (zs : List ℕ)
    → Chain f t p (x ∷ n ∷ zs)
    → IsPair f t x n zs
Chain-IsPair f t p x n zs (e, b, l, new, (e1, b1, l1, new1, h)) = record {
  back = b;
  next = e1;
  ahead = first-Chain f (some n) (f n).next zs h;
  ne = ground arith;
  x_new = ground arith;
  n_new = new1;
}

head-swap_next-first :
    (p : Proc) (x n : ℕ) → (p.links x).prev ≡ none → (swap_next x n p).head ≡ some n
unfolding swap_next head_at
head-swap_next-first p x n b = rw b (simp trade_laws)

head-swap_next :
    (p : Proc) (q x n : ℕ) → (p.links x).prev ≡ some q → (swap_next x n p).head ≡ p.head
unfolding swap_next head_at
head-swap_next p q x n b = rw b (simp trade_laws)

-- A later part of a chain is a chain.
pub Chain-later :
    (f : ℕ → PageLink) (r p : Option ℕ) (pre ys : List ℕ)
    → Chain f r p (pre ++ ys)
    → (t : Option ℕ) × (o : Option ℕ) × Chain f t o ys
Chain-later f r p [] ys h = (r, p, h)
Chain-later f r p (x ∷ pre) ys (e, b, l, new, h) = Chain-later f (some x) (f x).next pre ys h

swap-head :
    (p : Proc) (x n : ℕ) (zs : List ℕ) → IsRam p (x ∷ n ∷ zs) → IsRam (swap_next x n p) (n ∷ x ∷ zs)
swap-head p x n zs h =
    let w = Chain-IsPair p.links none p.head x n zs h in
    let j =
      swap_next-IsTraded p none x n zs w.back w.ahead w.ne w.x_new w.n_new (λ e. cc) (λ e. cc)
        (λ a m e. cc) in
    subst (λ (o : Option ℕ). Chain (swap_next x n p).links none o (n ∷ x ∷ zs))
      (sym (head-swap_next-first p x n w.back))
      (pair-Chain p.links (swap_next x n p).links none p.head x n zs j (λ a m e. cc) h)

swap-mid :
    (p : Proc) (pre : List ℕ) (q x n : ℕ) (zs : List ℕ)
    → IsRam p (pre ++ (q ∷ x ∷ n ∷ zs))
    → IsRam (swap_next x n p) (pre ++ (q ∷ n ∷ x ∷ zs))
swap-mid p pre q x n zs h =
    let (t, o, (e, b, l, new, c)) = Chain-later p.links none p.head pre (q ∷ x ∷ n ∷ zs) h in
    let w = Chain-IsPair p.links (some q) (p.links q).next x n zs c in
    let j =
      swap_next-IsTraded p (some q) x n zs w.back w.ahead w.ne w.x_new w.n_new
        (λ z. let d = some_eq q x z in ground arith) (λ z. let d = some_eq q n z in ground arith)
        (λ a m z. has-ne a q zs m (ground arith) (some_eq a q (sym z))) in
    rw (head-swap_next p q x n w.back)
      (traded-Chain p.links (swap_next x n p).links none p.head pre q x n zs j h)

-- An entry anywhere on the list of pages in RAM and the one behind it change places; the list stays
-- linked both ways from the head.
pub swap_next-IsRam :
    (p : Proc) (pre : List ℕ) (x n : ℕ) (zs : List ℕ)
    → IsRam p (pre ++ (x ∷ n ∷ zs))
    → IsRam (swap_next x n p) (pre ++ (n ∷ x ∷ zs))
swap_next-IsRam p [] x n zs h = swap-head p x n zs h
swap_next-IsRam p (y ∷ pre) x n zs h =
    let (bs, q, e) = split_last y pre in
    let e1 : (y ∷ pre) ++ (x ∷ n ∷ zs) ≡ bs ++ (q ∷ x ∷ n ∷ zs) =
      ap (λ t. t ++ (x ∷ n ∷ zs)) e ∙ append_assoc bs (q ∷ []) (x ∷ n ∷ zs) in
    let e2 : (y ∷ pre) ++ (n ∷ x ∷ zs) ≡ bs ++ (q ∷ n ∷ x ∷ zs) =
      ap (λ t. t ++ (n ∷ x ∷ zs)) e ∙ append_assoc bs (q ∷ []) (n ∷ x ∷ zs) in
    subst (IsRam (swap_next x n p)) (sym e2) (swap-mid p bs q x n zs (subst (IsRam p) e1 h))

body-set_next_of : (o v : Option ℕ) (p : Proc) → body (set_next_of o v p) ≡ body p
unfolding set_next_of
body-set_next_of none v p = refl
body-set_next_of (some i) v p = body-set_next i v p

body-head_at : (o : Option ℕ) (n : ℕ) (p : Proc) → body (head_at o n p) ≡ body p
unfolding head_at
body-head_at none n p = refl
body-head_at (some q) n p = refl

-- Nothing else of the process is changed.
pub body-swap_next : (x n : ℕ) (p : Proc) → body (swap_next x n p) ≡ body p
unfolding swap_next
body-swap_next x n p =
    let t = (p.links x).prev in
    let p0 = head_at t n p in
    let p1 = set_prev x (some n) p0 in
    let p2 = set_next x (p1.links n).next p1 in
    let p3 = set_prev n t p2 in
    let p4 = set_next n (some x) p3 in
    body-set_prev_of (p.links n).next (some x) (set_next_of t (some n) p4)
    ∙ body-set_next_of t (some n) p4
    ∙ body-set_next n (some x) p3
    ∙ body-set_prev n t p2
    ∙ body-set_next x (p1.links n).next p1
    ∙ body-set_prev x (some n) p0
    ∙ body-head_at t n p
