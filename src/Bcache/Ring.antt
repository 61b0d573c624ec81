-- ===== src/Bcache/Ring.antt =====
-- bio.c: the circular list of buffers, as the list of their indices.
use xv6_memory_management_im.Common.{
  ℕ, ◌<◌, ◌≡◌, ◌≢◌, refl, ap, sym, ◌∙◌, true, false, List, [], ◌∷◌, ◌++◌, arith, if◌then◌else◌,
  ◌==◌, has, has-append, has-ne, inl, inr, Bool-cases,
}
use mathlib.Core.Path.{subst}
use mathlib.Core.List.{append_assoc}
use xv6_memory_management_im.Bcache.{Buf, nbuf, set_prev, set_next, push_front, unlink}

-- From `p` on, with `q` behind it, the buffers `xs` are linked both ways up to the head.
abbrev pub Seg : (ℕ → Buf) → ℕ → ℕ → List ℕ → Type 0
Seg f q p [] = (p ≡ nbuf) × ((f nbuf).prev ≡ q)
Seg f q p (x ∷ xs) =
    (p ≡ x) × ((f x).prev ≡ q) × (x < nbuf) × (has x xs ≡ false) × Seg f x (f x).next xs

abbrev pub IsRing : (ℕ → Buf) → List ℕ → Type 0
IsRing f xs = Seg f nbuf (f nbuf).next xs

-- The first of the buffers, or the head.
abbrev pub front : List ℕ → ℕ
front [] = nbuf
front (x ∷ xs) = x

pub front-Seg : (f : ℕ → Buf) (q p : ℕ) (xs : List ℕ) → Seg f q p xs → p ≡ front xs
front-Seg f q p [] h = h.0
front-Seg f q p (x ∷ xs) h = h.0

pub Seg-lt :
    (f : ℕ → Buf) (q p : ℕ) (xs : List ℕ) (a : ℕ) → Seg f q p xs → has a xs ≡ true → a < nbuf
Seg-lt f q p [] a h i = cc
Seg-lt f q p (x ∷ xs) a h i = ground (arith, Seg-lt f x (f x).next xs a)

pub head-has : (f : ℕ → Buf) (q p : ℕ) (xs : List ℕ) → Seg f q p xs → has nbuf xs ≡ false
head-has f q p xs h = elim (Bool-cases (has nbuf xs)) [
  | inr e ↦ e
  | inl e ↦ absurd (let l = Seg-lt f q p xs nbuf h e in omega arith)
]

front-ne : (a : ℕ) (ys : List ℕ) → a < nbuf → has a ys ≡ false → a ≢ front ys
front-ne a [] l n e = omega arith
front-ne a (y ∷ ys) l n e = ground arith

other_ne : (a b : ℕ) (xs : List ℕ) → has a (nbuf ∷ xs) ≡ true → b < nbuf → has b xs ≡ false → a ≢ b
other_ne a b xs i l new = elim (Bool-cases (a == nbuf)) [
  | inl q ↦ ground arith
  | inr q ↦ has-ne a b xs (ground arith) new
]

-- A change that spares the links.
pub Seg-frame :
    (f g : ℕ → Buf) (q p : ℕ) (xs : List ℕ)
    → ((a : ℕ) → ((g a).next ≡ (f a).next) × ((g a).prev ≡ (f a).prev))
    → Seg f q p xs
    → Seg g q p xs
Seg-frame f g q p [] same (e, b) = (e, (same nbuf).1 ∙ b)
Seg-frame f g q p (x ∷ xs) same (e, b, l, new, h) =
    let (n, r) = same x in (e, r ∙ b, l, new, rw n (Seg-frame f g x (f x).next xs same h))

-- `g` keeps the links ahead of the listed buffers, and those back from all but the first of them.
Seg-kept :
    (f g : ℕ → Buf) (q p : ℕ) (xs : List ℕ)
    → ((a : ℕ) → has a xs ≡ true → ((g a).next ≡ (f a).next) × ((g a).prev ≡ (f a).prev))
    → ((g nbuf).prev ≡ (f nbuf).prev)
    → Seg f q p xs
    → Seg g q p xs
Seg-kept f g q p [] same z (e, b) = (e, z ∙ b)
Seg-kept f g q p (x ∷ xs) same z (e, b, l, new, h) =
    let (n, r) = same x (ground arith) in
    (e, r ∙ b, l, new, rw n (Seg-kept f g x (f x).next xs (λ a i. same a (ground arith)) z h))

-- The buffers `xs` behind another one.
Seg-moved :
    (f g : ℕ → Buf) (q r n : ℕ) (xs : List ℕ)
    → (g n).prev ≡ r
    → ((a : ℕ) → has a xs ≡ true → (g a).next ≡ (f a).next)
    → ((a : ℕ) → has a (nbuf ∷ xs) ≡ true → a ≢ n → (g a).prev ≡ (f a).prev)
    → Seg f q n xs
    → Seg g r n xs
Seg-moved f g q r n [] e nexts prevs (h, b) = (h, let z = sym h in rw z e)
Seg-moved f g q r n (x ∷ xs) e nexts prevs (h, b, l, new, s) =
    let t = nexts x (ground arith) in
    (
      h,
      rw h at e,
      l,
      new,
      rw t (
          Seg-kept f g x (f x).next xs
            (λ a i.
              (nexts a (ground arith), prevs a (ground arith) (λ z. has-ne a x xs i new (z ∙ h))))
            (prevs nbuf (ground arith) (λ z. let c = z ∙ h in omega arith)) s),
    )

-- The writes of `unlink` between `q` and `n`.
record IsJoined (f g : ℕ → Buf) (q b n : ℕ) : Type 0 where
  ahead : (g q).next ≡ n
  back : (g n).prev ≡ q
  nexts : (a : ℕ) → a ≢ q → (g a).next ≡ (f a).next
  prevs : (a : ℕ) → a ≢ n → (g a).prev ≡ (f a).prev

module _ (i a v : ℕ) (f : ℕ → Buf) where
  next-set_next : (set_next i v f a).next ≡ (if a == i then v else (f a).next)
  unfolding set_next
  next-set_next = ground arith

  prev-set_next : (set_next i v f a).prev ≡ (f a).prev
  unfolding set_next
  prev-set_next = ground arith

  prev-set_prev : (set_prev i v f a).prev ≡ (if a == i then v else (f a).prev)
  unfolding set_prev
  prev-set_prev = ground arith

  next-set_prev : (set_prev i v f a).next ≡ (f a).next
  unfolding set_prev
  next-set_prev = ground arith

ruleset buf_laws = (next-set_next, prev-set_next, prev-set_prev, next-set_prev)

unlink-IsJoined :
    (f : ℕ → Buf) (q b n : ℕ)
    → (f b).prev ≡ q
    → (f b).next ≡ n
    → b ≢ q
    → b ≢ n
    → IsJoined f (unlink b f) q b n
unfolding unlink
unlink-IsJoined f q b n e h nq nn = record {
  ahead = simp (buf_laws, e, h) (ground arith);
  back = simp (buf_laws, e, h) (ground arith);
  nexts = λ a ne. simp (buf_laws, e, h) (ground arith);
  prevs = λ a ne. simp (buf_laws, e, h) (ground arith);
}

-- Only `unlink` between the head and `ys`.
unlink-first :
    (f g : ℕ → Buf) (r b : ℕ) (ys : List ℕ)
    → IsJoined f g r b (front ys)
    → has r ys ≡ false
    → Seg f b (front ys) ys
    → Seg g r (front ys) ys
unlink-first f g r b ys j u h =
    Seg-moved f g b r (front ys) ys j.back (λ a i. j.nexts a (has-ne a r ys i u))
      (λ a i n. j.prevs a n) h

unlink-later :
    (f g : ℕ → Buf) (r p : ℕ) (pre : List ℕ) (q b : ℕ) (ys : List ℕ)
    → IsJoined f g q b (front ys)
    → Seg f r p (pre ++ (q ∷ b ∷ ys))
    → Seg g r p (pre ++ (q ∷ ys))
unlink-later f g r p [] q b ys j (e, w, l, new, (e1, w1, l1, new1, h)) =
    let c = front-Seg f b (f b).next ys h in
    let s = subst (λ (t : ℕ). Seg f b t ys) c h in
    let nq : q ≢ front ys = front-ne q ys l (ground arith) in
    let t = j.ahead in
    (e, j.prevs q nq ∙ w, l, ground arith, rw t (unlink-first f g q b ys j (ground arith) s))
unlink-later f g r p (x ∷ pre) q b ys j (e, w, l, new, h) =
    let v = has-append x pre (q ∷ b ∷ ys) in
    let u = has-append x pre (q ∷ ys) in
    let nx : x ≢ front ys = front-ne x ys l (ground arith) in
    let t = j.nexts x (ground arith) in
    (e, j.prevs x nx ∙ w, l, ground arith, rw t (unlink-later f g x (f x).next pre q b ys j h))

-- What a ring says of a buffer behind `q`.
Seg-around :
    (f : ℕ → Buf) (r p : ℕ) (pre : List ℕ) (q b : ℕ) (ys : List ℕ)
    → Seg f r p (pre ++ (q ∷ b ∷ ys))
    → ((f b).prev ≡ q)
      × ((f b).next ≡ front ys)
      × (b ≢ q)
      × (b < nbuf)
      × (has b ys ≡ false)
      × (q < nbuf)
Seg-around f r p [] q b ys (e, w, l, new, (e1, w1, l1, new1, h)) =
    (w1, front-Seg f b (f b).next ys h, ground arith, l1, new1, l)
Seg-around f r p (x ∷ pre) q b ys h = Seg-around f x (f x).next pre q b ys h.4

split_last : (x : ℕ) (xs : List ℕ) → (pre : List ℕ) × (q : ℕ) × (x ∷ xs ≡ pre ++ (q ∷ []))
split_last x [] = ([], x, refl)
split_last x (y ∷ xs) = let (pre, q, e) = split_last y xs in (x ∷ pre, q, ap (◌∷◌ x) e)

unlink-mid :
    (f : ℕ → Buf) (pre : List ℕ) (q b : ℕ) (ys : List ℕ)
    → IsRing f (pre ++ (q ∷ b ∷ ys))
    → IsRing (unlink b f) (pre ++ (q ∷ ys))
unlink-mid f pre q b ys h =
    let (w, n, ne, l, new, lq) = Seg-around f nbuf (f nbuf).next pre q b ys h in
    let j = unlink-IsJoined f q b (front ys) w n ne (front-ne b ys l new) in
    let z = j.nexts nbuf (λ e. omega arith) in
    rw z (unlink-later f (unlink b f) nbuf (f nbuf).next pre q b ys j h)

-- A buffer anywhere on the list is taken off it.
pub unlink-IsRing :
    (f : ℕ → Buf) (pre : List ℕ) (b : ℕ) (ys : List ℕ)
    → IsRing f (pre ++ (b ∷ ys))
    → IsRing (unlink b f) (pre ++ ys)
unlink-IsRing f [] b ys (e, w, l, new, h) =
    let c = front-Seg f b (f b).next ys h in
    let j = unlink-IsJoined f nbuf b (front ys) w c (λ z. omega arith) (front-ne b ys l new) in
    let u : has nbuf ys ≡ false = head-has f b (f b).next ys h in
    let t = j.ahead in
    rw t (unlink-first f (unlink b f) nbuf b ys j u (subst (λ (t : ℕ). Seg f b t ys) c h))
unlink-IsRing f (x ∷ pre) b ys h =
    let (bs, q, e) = split_last x pre in
    let e1 : (x ∷ pre) ++ (b ∷ ys) ≡ bs ++ (q ∷ b ∷ ys) =
      ap (λ t. t ++ (b ∷ ys)) e ∙ append_assoc bs (q ∷ []) (b ∷ ys) in
    let e2 : (x ∷ pre) ++ ys ≡ bs ++ (q ∷ ys) = ap (λ t. t ++ ys) e ∙ append_assoc bs (q ∷ []) ys in
    subst (IsRing (unlink b f)) (sym e2) (unlink-mid f bs q b ys (subst (IsRing f) e1 h))

-- A buffer that is not on the list becomes its first.
pub push_front-IsRing :
    (f : ℕ → Buf) (b : ℕ) (xs : List ℕ)
    → b < nbuf
    → has b xs ≡ false
    → IsRing f xs
    → IsRing (push_front b f) (b ∷ xs)
unfolding push_front
push_front-IsRing f b xs l new h =
    let c = front-Seg f nbuf (f nbuf).next xs h in
    let g = push_front b f in
    let nb : b ≢ front xs = front-ne b xs l new in
    let hd : (g nbuf).next ≡ b = simp (buf_laws, c) (ground arith) in
    let wb : (g b).prev ≡ nbuf = simp (buf_laws, c) (ground arith) in
    let nx : (g b).next ≡ front xs = simp (buf_laws, c) (ground arith) in
    let wf : (g (front xs)).prev ≡ b = simp (buf_laws, c) (ground arith) in
    (
      hd,
      wb,
      l,
      new,
      rw nx (
          Seg-moved f g nbuf b (front xs) xs wf
            (λ a i.
              let na = has-ne a b xs i new in
              let la = Seg-lt f nbuf (f nbuf).next xs a h i in simp (buf_laws, c) (ground arith))
            (λ a i n. let na : a ≢ b = other_ne a b xs i l new in simp (buf_laws, c) (ground arith))
            (subst (λ (t : ℕ). Seg f nbuf t xs) c h)),
    )
