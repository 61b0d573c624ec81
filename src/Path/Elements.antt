-- ===== src/Path/Elements.antt =====
-- fs.c: `skipelem` takes the elements of a path one after the other.
use xv6_memory_management_im.Common.{
  ℕ, zero, suc, ◌+◌, ◌≤◌, ◌<◌, ◌≡◌, refl, ap, sym, ◌∙◌, true, false, List, [], ◌∷◌, ◌++◌, arith,
  if◌then◌else◌, ◌==◌, ==-false_of_ne, ==_iff, length, update, leb, none, some, ◌⊎◌, inl, inr,
  Bool-cases,
}
use mathlib.Core.List.{append-nil, append_assoc}
use xv6_memory_management_im.Path.{
  slash, dirsiz, skip_slashes, element, move_bytes, set_name, next_element, skipelem,
}

-- A part of a path, if there is one, in front of others.
abbrev pub flush : List ℕ → List (List ℕ) → List (List ℕ)
flush [] es = es
flush (x ∷ xs) es = (x ∷ xs) ∷ es

-- The parts of a path between its slashes that are not empty, the first of them behind `acc`.
abbrev pub elements : List ℕ → List ℕ → List (List ℕ)
elements acc [] = flush acc []
elements acc (x ∷ xs) =
    let next = elements [] xs in
    let longer = elements (acc ++ (x ∷ [])) xs in if x == slash then flush acc next else longer

elements-skip_slashes : (xs : List ℕ) → elements [] (skip_slashes xs) ≡ elements [] xs
unfolding skip_slashes
elements-skip_slashes [] = refl
elements-skip_slashes (x ∷ xs) =
    let ih = elements-skip_slashes xs in
    elim (Bool-cases (x == slash)) [ inl e ↦ rw (e, ih) refl | inr e ↦ rw (e, e) refl ]

-- Not empty and not a slash in front.
abbrev pub Starts : List ℕ → Type 0
Starts [] = Unit
Starts (x ∷ xs) = (x == slash) ≡ false

skip_slashes-Starts : (xs : List ℕ) → Starts (skip_slashes xs)
unfolding skip_slashes
skip_slashes-Starts [] = tt
skip_slashes-Starts (x ∷ xs) =
    let ih = skip_slashes-Starts xs in
    elim (Bool-cases (x == slash)) [ inl e ↦ rw e ih | inr e ↦ rw e e ]

elements-element :
    (acc xs : List ℕ) → elements acc xs ≡ flush (acc ++ (element xs).0) (elements [] (element xs).1)
unfolding element
elements-element acc [] = ap (λ t. flush t []) (sym (append-nil acc))
elements-element acc (x ∷ xs) = elim (Bool-cases (x == slash)) [
  | inl e ↦ rw (e, e) (ap (λ t. flush t (elements [] xs)) (sym (append-nil acc)))
  | inr e ↦
      let ih = elements-element (acc ++ (x ∷ [])) xs in
      rw e (
        ih
        ∙ ap (λ t. flush t (elements [] (element xs).1)) (append_assoc acc (x ∷ []) (element xs).0))
]

-- The byte `k` of a list, 0 past its end.
abbrev pub byte : ℕ → List ℕ → ℕ
byte k [] = 0
byte zero (x ∷ xs) = x
byte (suc k) (x ∷ xs) = byte k xs

move_bytes-else :
    (n k : ℕ) (s : List ℕ) (f : ℕ → ℕ) (a : ℕ) → (a < k) ⊎ (k + n ≤ a) → move_bytes n k s f a ≡ f a
unfolding move_bytes
move_bytes-else zero k s f a h = refl
move_bytes-else (suc n) k [] f a h = refl
move_bytes-else (suc n) k (x ∷ s) f a h =
    let u : (a == k) ≡ false =
      ==-false_of_ne a k (λ v. elim h [ inl l ↦ omega arith | inr l ↦ omega arith ]) in
    move_bytes-else n (k + 1) s (update f k x) a (ground arith) ∙ rw u refl

move_bytes-at :
    (n k : ℕ) (s : List ℕ) (f : ℕ → ℕ) (j : ℕ)
    → j < n
    → j < length s
    → move_bytes n k s f (k + j) ≡ byte j s
unfolding move_bytes
move_bytes-at zero k s f j l m = absurd (omega arith)
move_bytes-at (suc n) k [] f j l m = absurd (omega arith)
move_bytes-at (suc n) k (x ∷ s) f zero l m =
    let u : (k + 0 == k) ≡ true = (==_iff _ _).1 (omega arith) in
    move_bytes-else n (k + 1) s (update f k x) (k + 0) (inl (omega arith)) ∙ rw u refl
move_bytes-at (suc n) k (x ∷ s) f (suc j) l m =
    let z : k + suc j ≡ k + 1 + j = omega arith in
    rw z (move_bytes-at n (k + 1) s (update f k x) j (omega arith) (omega arith))

move_bytes-first :
    (n : ℕ) (s : List ℕ) (f : ℕ → ℕ) (j : ℕ)
    → j < n
    → j < length s
    → move_bytes n 0 s f j ≡ byte j s
move_bytes-first n s f j l m =
    let z : 0 + j ≡ j = omega arith in ap (move_bytes n 0 s f) (sym z) ∙ move_bytes-at n 0 s f j l m

-- The buffer `j` has the first 14 bytes of `s`, with a 0 behind them if they are fewer, and is `name` from
-- there on.
pub record IsName (s : List ℕ) (name j : ℕ → ℕ) : Type 0 where
  pub bytes : (k : ℕ) → k < dirsiz → k < length s → j k ≡ byte k s
  pub ends : length s < dirsiz → j (length s) ≡ 0
  pub others : (a : ℕ) → dirsiz ≤ a → j a ≡ name a

set_name-IsName : (s : List ℕ) (name : ℕ → ℕ) → IsName s name (set_name s name)
unfolding set_name
set_name-IsName s name = elim (Bool-cases (leb dirsiz (length s))) [
  | inl e ↦ rw e record {
    bytes = λ k l m. move_bytes-first dirsiz s name k l m;
    ends = λ l. absurd (ground arith);
    others = λ a l. move_bytes-else dirsiz 0 s name a (inr (omega arith));
  }
  | inr e ↦ rw e record {
    bytes = λ k l m.
        let u : (k == length s) ≡ false = ==-false_of_ne k (length s) (λ v. omega arith) in
        rw u (move_bytes-first (length s) s name k m m);
    ends = λ l. let u : (length s == length s) ≡ true = (==_iff _ _).1 refl in rw u refl;
    others = λ a l.
        let u : (a == length s) ≡ false = ==-false_of_ne a (length s) (λ v. ground arith) in
        rw u (move_bytes-else (length s) 0 s name a (inr (ground arith)));
  }
]

-- `s` and then `rest` is what is taken from the path.
pub record IsTaken (path : List ℕ) (name : ℕ → ℕ) (s rest : List ℕ) (j : ℕ → ℕ) : Type 0 where
  pub parts : elements [] path ≡ s ∷ elements [] rest
  pub trimmed : Starts rest
  pub named : IsName s name j

next_element-IsTaken :
    (path : List ℕ) (name : ℕ → ℕ)
    → Starts path
    → ((next_element path name ≡ none) × (elements [] path ≡ []))
      ⊎ ((s : List ℕ) × (rest : List ℕ) × (j : ℕ → ℕ) × (next_element path name ≡ some (rest, j))
          × IsTaken path name s rest j)
unfolding next_element element
next_element-IsTaken [] name st = inl (refl, refl)
next_element-IsTaken (x ∷ xs) name st =
    let s = x ∷ (element xs).0 in
    let r = (element xs).1 in
    let e = elements-element [] (x ∷ xs) in
    let e1 = rw st at e in
    let h : elements [] (x ∷ xs) ≡ s ∷ elements [] r = rw st e1 in
    inr (
      s,
      skip_slashes r,
      set_name s name,
      rw st refl,
      record {
        parts = h ∙ ap (λ t. s ∷ t) (sym (elements-skip_slashes r));
        trimmed = skip_slashes-Starts r;
        named = set_name-IsName s name;
      },
    )

-- When the path has no element, of one byte or more and without slashes, `skipelem` returns 0. Otherwise
-- it puts the first one into the name, cut to 14 bytes, or with a 0 behind it if it has fewer, writes
-- nothing behind, and returns a path that has the other elements and does not begin with a slash.
pub skipelem-IsTaken :
    (path : List ℕ) (name : ℕ → ℕ)
    → ((skipelem path name ≡ none) × (elements [] path ≡ []))
      ⊎ ((s : List ℕ) × (rest : List ℕ) × (j : ℕ → ℕ) × (skipelem path name ≡ some (rest, j))
          × IsTaken path name s rest j)
unfolding skipelem
skipelem-IsTaken path name =
    let e = elements-skip_slashes path in
    elim (next_element-IsTaken (skip_slashes path) name (skip_slashes-Starts path)) [
      | inl (h, z) ↦ inl (h, sym e ∙ z)
      | inr (s, rest, j, h, t) ↦
          inr (
            s,
            rest,
            j,
            h,
            record { parts = sym e ∙ t.parts; trimmed = t.trimmed; named = t.named },
          )
    ]
