-- ===== src/Bcache/Find.antt =====
-- bio.c: the loops of `bget` find the first buffer that passes a test, in either direction.
use xv6_memory_management_im.Common.{
  ap, ◌++◌, ◌⊎◌, ℕ, zero, suc, ◌+◌, ◌≤◌, ◌<◌, ◌≡◌, refl, sym, Bool, true, false, ◌||◌, List, [],
  ◌∷◌, arith, if◌then◌else◌, ◌==◌, ==-false_of_ne, ==_iff, length, has, All, Option, none, some,
  inl, inr, Bool-cases, some_eq,
}
use xv6_memory_management_im.Kernel.{ok}
use xv6_memory_management_im.Common.Pigeon.{Distinct, length-le}
use xv6_memory_management_im.Bcache.{Buf, nbuf, find_next, find_prev}
use xv6_memory_management_im.Bcache.Ring.{Seg}

-- The first of the buffers that passes the test.
abbrev pub found : (ℕ → Bool) → List ℕ → Option ℕ
found test [] = none
found test (x ∷ xs) = let rest = found test xs in if test x then some x else rest

-- The list read backwards.
abbrev pub rev_onto : List ℕ → List ℕ → List ℕ
rev_onto [] acc = acc
rev_onto (x ∷ xs) acc = rev_onto xs (x ∷ acc)

unfoldable pub Back : (ℕ → Buf) → ℕ → List ℕ → Type 0
Back f p [] = p ≡ nbuf
Back f p (x ∷ xs) = (p ≡ x) × (x < nbuf) × Back f (f x).prev xs

pub Seg-Back :
    (f : ℕ → Buf) (q p : ℕ) (xs acc : List ℕ)
    → Seg f q p xs
    → Back f q acc
    → Back f (f nbuf).prev (rev_onto xs acc)
unfolding Back
Seg-Back f q p [] acc (e, b) h = rw b h
Seg-Back f q p (x ∷ xs) acc (e, b, l, new, s) h =
    Seg-Back f x (f x).next xs (x ∷ acc) s (refl, l, rw b h)

pub find_next_lem :
    (n : ℕ) (test : Buf → Bool) (f : ℕ → Buf) (q p : ℕ) (xs : List ℕ)
    → Seg f q p xs
    → length xs ≤ n
    → find_next (suc n) p test f ≡ ok (found (λ a. test (f a)) xs)
unfolding find_next
find_next_lem n test f q p [] (e, b) l = rw e
find_next_lem zero test f q p (x ∷ xs) h l = absurd (omega arith)
find_next_lem (suc n) test f q p (x ∷ xs) (e, b, lx, new, h) l =
    let z : (x == nbuf) ≡ false = ==-false_of_ne _ _ (λ q. omega arith) in
    let ih = find_next_lem n test f x (f x).next xs h (omega arith) in
    rw (e, z) (elim (Bool-cases (test (f x))) [ inl t ↦ rw t | inr t ↦ rw t ih ])

pub find_prev_lem :
    (n : ℕ) (test : Buf → Bool) (f : ℕ → Buf) (p : ℕ) (xs : List ℕ)
    → Back f p xs
    → length xs ≤ n
    → find_prev (suc n) p test f ≡ ok (found (λ a. test (f a)) xs)
unfolding find_prev Back
find_prev_lem n test f p [] e l = rw e
find_prev_lem zero test f p (x ∷ xs) h l = absurd (omega arith)
find_prev_lem (suc n) test f p (x ∷ xs) (e, lx, h) l =
    let z : (x == nbuf) ≡ false = ==-false_of_ne _ _ (λ q. omega arith) in
    let ih = find_prev_lem n test f (f x).prev xs h (omega arith) in
    rw (e, z) (elim (Bool-cases (test (f x))) [ inl t ↦ rw t | inr t ↦ rw t ih ])

pub length-rev : (xs acc : List ℕ) → length (rev_onto xs acc) ≡ length xs + length acc
length-rev [] acc = omega arith
length-rev (x ∷ xs) acc = omega (arith, length-rev xs (x ∷ acc))

pub has-rev : (a : ℕ) (xs acc : List ℕ) → has a (rev_onto xs acc) ≡ (has a xs || has a acc)
has-rev a [] acc = refl
has-rev a (x ∷ xs) acc = let e = has-rev a xs (x ∷ acc) in ground arith

Seg-Distinct :
    (f : ℕ → Buf) (q p : ℕ) (xs : List ℕ) → Seg f q p xs → Distinct xs × All (λ x. x < nbuf) xs
Seg-Distinct f q p [] h = (tt, tt)
Seg-Distinct f q p (x ∷ xs) (e, b, l, new, h) =
    let (d, a) = Seg-Distinct f x (f x).next xs h in ((new, d), (l, a))

pub Seg-length : (f : ℕ → Buf) (q p : ℕ) (xs : List ℕ) → Seg f q p xs → length xs ≤ nbuf
Seg-length f q p xs h = let (d, a) = Seg-Distinct f q p xs h in length-le nbuf xs d a

-- What is found is in the list and passes; if nothing is, nothing passes.
pub found-some :
    (test : ℕ → Bool) (xs : List ℕ) (a : ℕ)
    → found test xs ≡ some a
    → (has a xs ≡ true) × (test a ≡ true)
found-some test [] a e = cc
found-some test (x ∷ xs) a e = elim (Bool-cases (test x)) [
  | inl t ↦ let h = rw t at e in let q = some_eq x a h in (ground arith, rw (sym q) t)
  | inr t ↦ let h = rw t at e in let (i, u) = found-some test xs a h in (ground arith, u)
]

pub found-none :
    (test : ℕ → Bool) (xs : List ℕ)
    → found test xs ≡ none
    → (a : ℕ) → has a xs ≡ true
    → test a ≡ false
found-none test [] e a i = cc
found-none test (x ∷ xs) e a i = elim (Bool-cases (test x)) [
  | inl t ↦ let h = rw t at e in cc
  | inr t ↦
      let h = rw t at e in
      elim (Bool-cases (a == x)) [
        | inl q ↦ let z = (==_iff _ _).0 q in rw z t
        | inr q ↦ found-none test xs h a (ground arith)
      ]
]

pub found-rev :
    (test : ℕ → Bool) (xs : List ℕ) (a : ℕ)
    → found test (rev_onto xs []) ≡ some a
    → (has a xs ≡ true) × (test a ≡ true)
found-rev test xs a e =
    let (i, t) = found-some test (rev_onto xs []) a e in
    let h = has-rev a xs [] in (ground arith, t)

-- What is found from the back of a list stands in it with only failing elements behind.
pub found-last :
    (test : ℕ → Bool) (xs acc : List ℕ) (b : ℕ)
    → found test (rev_onto xs acc) ≡ some b
    → ((pre : List ℕ) × (post : List ℕ) × (xs ≡ pre ++ (b ∷ post))
        × ((a : ℕ) → has a post ≡ true → test a ≡ false))
      ⊎ ((found test acc ≡ some b) × ((a : ℕ) → has a xs ≡ true → test a ≡ false))
found-last test [] acc b e = inr (e, λ a i. cc)
found-last test (x ∷ xs) acc b e = elim (found-last test xs (x ∷ acc) b e) [
  | inl (pre, post, q, f) ↦ inl (x ∷ pre, post, ap (λ (t : List ℕ). x ∷ t) q, f)
  | inr (h, f) ↦ elim (Bool-cases (test x)) [
    | inl t ↦ let k = rw t at h in let q = some_eq x b k in inl ([], xs, ap (λ y. y ∷ xs) q, f)
    | inr t ↦
        let k = rw t at h in
        inr (
          k,
          λ a i. elim (Bool-cases (a == x)) [
            | inl q ↦ let z = (==_iff _ _).0 q in rw z t
            | inr q ↦ f a (ground arith)
          ],
        )
  ]
]
