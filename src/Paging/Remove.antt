-- ===== src/Paging/Remove.antt =====
-- vm.c: `removePageFromList` takes an entry out of the list.
use xv6_memory_management_im.Common.{
  ℕ, ◌≡◌, ◌≢◌, refl, ap, sym, ◌∙◌, true, false, List, [], ◌∷◌, ◌++◌, arith, ==-false_of_ne, has,
  has-append, has-ne, Option, none, some, some_eq,
}
use xv6_memory_management_im.Paging.{PageLink, Proc, unlink, remove_page_from_list}
use mathlib.Core.Path.{subst}
use mathlib.Core.List.{append_assoc}
use xv6_memory_management_im.Paging.Links.{link_laws, points}
use xv6_memory_management_im.Paging.Chain.{Chain, IsRam, Chain-frame}

-- The first entry of a chain.
abbrev pub first : List ℕ → Option ℕ
first [] = none
first (x ∷ xs) = some x

pub first-Chain : (f : ℕ → PageLink) (q p : Option ℕ) (xs : List ℕ) → Chain f q p xs → p ≡ first xs
first-Chain f q p [] h = h
first-Chain f q p (x ∷ xs) h = h.0

pub first-ne : (a : ℕ) (ys : List ℕ) → has a ys ≡ false → first ys ≢ some a
first-ne a [] h e = cc
first-ne a (y ∷ ys) h e = ground (arith, some_eq y a e)

-- `g` is `f` with `i` taken out between `q` and the chain `ys`.
record IsJoined (f g : ℕ → PageLink) (q i : ℕ) (ys : List ℕ) : Type 0 where
  q_next : (g q).next ≡ first ys
  q_prev : (g q).prev ≡ (f q).prev
  n_prev : (n : ℕ) → first ys ≡ some n → ((g n).prev ≡ some q) × ((g n).next ≡ (f n).next)
  rest :
      (a : ℕ)
      → a ≢ q
      → a ≢ i
      → first ys ≢ some a
      → ((g a).next ≡ (f a).next) × ((g a).prev ≡ (f a).prev)

-- The chain behind the removed entry has a new predecessor and is otherwise as it was.
tail-Chain :
    (f g : ℕ → PageLink) (q i : ℕ) (ys : List ℕ)
    → IsJoined f g q i ys
    → has q ys ≡ false
    → has i ys ≡ false
    → Chain f (some i) (first ys) ys
    → Chain g (some q) (first ys) ys
tail-Chain f g q i [] j nq ni h = refl
tail-Chain f g q i (n ∷ ys) j nq ni (e, b, l, new, h) =
    let (b', t) = j.n_prev n refl in
    (
      refl,
      b',
      l,
      new,
      rw t (
          Chain-frame f g (some n) (f n).next ys
            (λ a m.
              j.rest a (has-ne a q ys m (ground arith)) (has-ne a i ys m (ground arith))
                (λ z. has-ne a n ys m new (some_eq a n (sym z))))
            h),
    )

joined-Chain :
    (f g : ℕ → PageLink) (r p : Option ℕ) (pre : List ℕ) (q i : ℕ) (ys : List ℕ)
    → IsJoined f g q i ys
    → Chain f r p (pre ++ (q ∷ i ∷ ys))
    → Chain g r p (pre ++ (q ∷ ys))
joined-Chain f g r p [] q i ys j (e, b, l, new, (e', b', l', new', h)) = (
  e,
  j.q_prev ∙ b,
  l,
  ground arith,
  rw j.q_next
      (tail-Chain f g q i ys j (ground arith) new' (rw (first-Chain f (some i) _ ys h) at h)),
)
joined-Chain f g r p (x ∷ pre) q i ys j (e, b, l, new, h) =
    let w = has-append x pre (q ∷ i ∷ ys) in
    let v = has-append x pre (q ∷ ys) in
    let (n, z) = j.rest x (ground arith) (ground arith) (first-ne x ys (ground arith)) in
    (e, z ∙ b, l, ground arith, rw n (joined-Chain f g (some x) (f x).next pre q i ys j h))

pub points-first : (a : ℕ) (ys : List ℕ) → has a ys ≡ false → points (first ys) a ≡ false
points-first a [] h = refl
points-first a (y ∷ ys) h = ground arith

pub points-ne : (o : Option ℕ) (a : ℕ) → o ≢ some a → points o a ≡ false
points-ne none a h = refl
points-ne (some n) a h = ==-false_of_ne a n (λ e. h (ap some (sym e)))

pub points-eq : (o : Option ℕ) (a : ℕ) → o ≡ some a → points o a ≡ true
points-eq none a h = cc
points-eq (some n) a h = ground arith

-- The links around an entry that a chain holds.
remove-IsJoined :
    (p : Proc) (q i : ℕ) (ys : List ℕ)
    → (p.links i).prev ≡ some q
    → (p.links i).next ≡ first ys
    → q ≢ i
    → has q ys ≡ false
    → has i ys ≡ false
    → IsJoined p.links (remove_page_from_list i p).links q i ys
unfolding remove_page_from_list
remove-IsJoined p q i ys b t ne nq ni =
    let pq = points-first q ys nq in
    let pi = points-first i ys ni in
    record {
      q_next = rw (b, unlink) (simp (link_laws, t) (ground arith));
      q_prev = rw (b, unlink) (simp (link_laws, t) (ground arith));
      n_prev = λ n e.
          let pn = points-eq (first ys) n e in
          (
            rw (b, unlink) (simp (link_laws, t) (ground arith)),
            rw (b, unlink) (simp (link_laws, t) (ground arith)),
          );
      rest = λ a x y z.
          let pa = points-ne (first ys) a z in
          (
            rw (b, unlink) (simp (link_laws, t) (ground arith)),
            rw (b, unlink) (simp (link_laws, t) (ground arith)),
          );
    }

-- What a chain says of an entry with a predecessor.
record IsBetween (f : ℕ → PageLink) (q i : ℕ) (ys : List ℕ) : Type 0 where
  behind : (f i).prev ≡ some q
  ahead : (f i).next ≡ first ys
  ne : q ≢ i
  q_new : has q ys ≡ false
  i_new : has i ys ≡ false

Chain-IsBetween :
    (f : ℕ → PageLink) (r p : Option ℕ) (pre : List ℕ) (q i : ℕ) (ys : List ℕ)
    → Chain f r p (pre ++ (q ∷ i ∷ ys))
    → IsBetween f q i ys
Chain-IsBetween f r p [] q i ys (e, b, l, new, (e', b', l', new', h)) = record {
  behind = b';
  ahead = first-Chain f (some i) (f i).next ys h;
  ne = ground arith;
  q_new = ground arith;
  i_new = new';
}
Chain-IsBetween f r p (x ∷ pre) q i ys h = Chain-IsBetween f (some x) (f x).next pre q i ys h.4

pub kept_head :
    (p : Proc) (i q : ℕ) → (p.links i).prev ≡ some q → (remove_page_from_list i p).head ≡ p.head
unfolding remove_page_from_list
kept_head p i q b = rw (b, unlink) (simp link_laws)

remove-mid :
    (p : Proc) (pre : List ℕ) (q i : ℕ) (ys : List ℕ)
    → IsRam p (pre ++ (q ∷ i ∷ ys))
    → IsRam (remove_page_from_list i p) (pre ++ (q ∷ ys))
remove-mid p pre q i ys h =
    let w = Chain-IsBetween p.links none p.head pre q i ys h in
    let j = remove-IsJoined p q i ys w.behind w.ahead w.ne w.q_new w.i_new in
    let e = kept_head p i q w.behind in
    rw e (joined-Chain p.links (remove_page_from_list i p).links none p.head pre q i ys j h)

remove-head :
    (p : Proc) (i : ℕ) (ys : List ℕ) → IsRam p (i ∷ ys) → IsRam (remove_page_from_list i p) ys
unfolding remove_page_from_list
remove-head p i [] (e, b, l, new, h) = rw (b, unlink) (simp (link_laws, h))
remove-head p i (y ∷ ys) (e, b, l, new, (e', b', l', new', h)) =
    let g = (remove_page_from_list i p).links in
    let hd : (remove_page_from_list i p).head ≡ some y = rw (b, unlink) (simp (link_laws, e')) in
    let yp : (g y).prev ≡ none = rw (b, unlink) (simp (link_laws, e') (ground arith)) in
    let yn : (g y).next ≡ (p.links y).next = rw (b, unlink) (simp (link_laws, e') (ground arith)) in
    let same : (a : ℕ)
        → has a ys ≡ true
        → ((g a).next ≡ (p.links a).next) × ((g a).prev ≡ (p.links a).prev) =
      λ a m.
        (let ne1 = has-ne a y ys m new' in
          let ne2 = has-ne a i ys m (ground arith) in
          (
            rw (b, unlink) (simp (link_laws, e') (ground arith)),
            rw (b, unlink) (simp (link_laws, e') (ground arith)),
          )) in
    (hd, yp, l', new', rw yn (Chain-frame p.links g (some y) (p.links y).next ys same h))

pub split_last : (x : ℕ) (xs : List ℕ) → (pre : List ℕ) × (q : ℕ) × (x ∷ xs ≡ pre ++ (q ∷ []))
split_last x [] = ([], x, refl)
split_last x (y ∷ xs) = let (pre, q, e) = split_last y xs in (x ∷ pre, q, ap (◌∷◌ x) e)

-- `removePageFromList` of an entry anywhere on the list of pages in RAM leaves the list of the
-- others, in order, linked both ways from the head.
pub remove_page_from_list-IsRam :
    (p : Proc) (pre : List ℕ) (i : ℕ) (ys : List ℕ)
    → IsRam p (pre ++ (i ∷ ys))
    → IsRam (remove_page_from_list i p) (pre ++ ys)
remove_page_from_list-IsRam p [] i ys h = remove-head p i ys h
remove_page_from_list-IsRam p (x ∷ pre) i ys h =
    let (bs, q, e) = split_last x pre in
    let e1 : (x ∷ pre) ++ (i ∷ ys) ≡ bs ++ (q ∷ i ∷ ys) =
      ap (λ t. t ++ (i ∷ ys)) e ∙ append_assoc bs (q ∷ []) (i ∷ ys) in
    let e2 : (x ∷ pre) ++ ys ≡ bs ++ (q ∷ ys) = ap (λ t. t ++ ys) e ∙ append_assoc bs (q ∷ []) ys in
    subst (IsRam (remove_page_from_list i p)) (sym e2)
      (remove-mid p bs q i ys (subst (IsRam p) e1 h))
