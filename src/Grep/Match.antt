-- ===== src/Grep/Match.antt =====
-- grep.c: the matcher decides the language of the expressions.
use xv6_memory_management_im.Common.{
  ℕ, ◌≡◌, ◌≢◌, refl, ap, sym, ◌∙◌, Bool, true, ◌||◌, ◌&&◌, List, [], ◌∷◌, ◌++◌, arith,
  if◌then◌else◌, ◌==◌, ==-false_of_ne, ==_iff, All, ◌⊎◌, inl, inr, Bool-cases, ◌↔◌,
}
use xv6_memory_management_im.Grep.{
  caret, dot, star, dollar, match_star, match_byte, at_end, match_here, match_any, match,
}

abbrev pub Fits : ℕ → ℕ → Type 0
Fits c t = (c ≡ dot) ⊎ (c ≡ t)

-- The expression matches at the beginning of the text: a byte followed by a star matches any run of
-- fitting bytes, $ at the end of the expression the end of the text, any other byte a fitting one.
pub data At : List ℕ → List ℕ → Type 0 where
  done : (text : List ℕ) → At [] text
  ends : At (dollar ∷ []) []
  last : (c t : ℕ) (text : List ℕ) → c ≢ dollar → Fits c t → At (c ∷ []) (t ∷ text)
  byte :
      (c d t : ℕ) (re text : List ℕ)
      → d ≢ star
      → Fits c t
      → At (d ∷ re) text
      → At (c ∷ d ∷ re) (t ∷ text)
  many : (c : ℕ) (re xs ys : List ℕ) → All (Fits c) xs → At re ys → At (c ∷ star ∷ re) (xs ++ ys)

Fits-iff : (c t : ℕ) → (((c == dot) || (c == t)) ≡ true) ↔ Fits c t
Fits-iff c t = ground arith

fits_star : (c t : ℕ) → (((t == c) || (c == dot)) ≡ ((c == dot) || (c == t)))
fits_star c t = ground arith

-- What a run of bytes and then `R` is.
abbrev Split : ℕ → (List ℕ → Type 0) → List ℕ → Type 0
Split c R text = (xs ys : List ℕ) × (text ≡ xs ++ ys) × All (Fits c) xs × R ys

and_true : (a b : Bool) → (a && b) ≡ true → (a ≡ true) × (b ≡ true)
and_true a b h = ground arith

or_true : (a b : Bool) → (a || b) ≡ true → (a ≡ true) ⊎ (b ≡ true)
or_true a b h = ground arith

match_star-Split :
    (rest : List ℕ → Bool) (R : List ℕ → Type 0) (c : ℕ)
    → ((ys : List ℕ) → rest ys ≡ true → R ys)
    → (text : List ℕ) → match_star rest c text ≡ true
    → Split c R text
unfolding match_star
match_star-Split rest R c f [] h = ([], [], refl, tt, f [] h)
match_star-Split rest R c f (t ∷ text) h = elim (or_true _ _ h) [
  | inl a ↦ ([], t ∷ text, refl, tt, f (t ∷ text) a)
  | inr a ↦
      let (b, m) = and_true _ _ a in
      let (xs, ys, e, g, r) = match_star-Split rest R c f text m in
      let b1 : Fits c t = (Fits-iff c t).0 (sym (fits_star c t) ∙ b) in
      (t ∷ xs, ys, ap (λ (z : List ℕ). t ∷ z) e, (b1, g), r)
]

match_star-here :
    (rest : List ℕ → Bool) (c : ℕ) (text : List ℕ)
    → rest text ≡ true
    → match_star rest c text ≡ true
unfolding match_star
match_star-here rest c [] h = h
match_star-here rest c (t ∷ text) h = rw h

match_star-many :
    (rest : List ℕ → Bool) (c : ℕ) (xs ys : List ℕ)
    → All (Fits c) xs
    → rest ys ≡ true
    → match_star rest c (xs ++ ys) ≡ true
unfolding match_star
match_star-many rest c [] ys a h = match_star-here rest c ys h
match_star-many rest c (x ∷ xs) ys (f, a) h =
    let b : ((x == c) || (c == dot)) ≡ true = fits_star c x ∙ (Fits-iff c x).1 f in
    let m = match_star-many rest c xs ys a h in rw (b, m) (ground arith)

match_byte-Fits :
    (rest : List ℕ → Bool) (c : ℕ) (text : List ℕ)
    → match_byte rest c text ≡ true
    → (t : ℕ) × (ts : List ℕ) × (text ≡ t ∷ ts) × Fits c t × (rest ts ≡ true)
unfolding match_byte
match_byte-Fits rest c [] h = cc
match_byte-Fits rest c (t ∷ text) h =
    let (a, b) = and_true _ _ h in (t, text, refl, (Fits-iff c t).0 a, b)

single : (c : ℕ) (text : List ℕ) → match_here (c ∷ []) text ≡ true → At (c ∷ []) text
unfolding match_here
single c text h = elim (Bool-cases (c == dollar)) [
  | inl e ↦ let k = (==_iff _ _).0 e in let m = rw e at h in rw (k, ended text m) ends
  | inr e ↦
      let n : c ≢ dollar = ground arith in
      let m = rw e at h in
      let (t, ts, q, f, r) = match_byte-Fits (match_here []) c text m in rw q (last c t ts n f)
]
  where
    ended : (text : List ℕ) → at_end text ≡ true → text ≡ []
    ended [] h = refl
    ended (t ∷ text) h = cc

-- Whatever `matchhere` accepts is in the language.
match_here→At : (re text : List ℕ) → match_here re text ≡ true → At re text
unfolding match_here
match_here→At [] text h = done text
match_here→At (c ∷ []) text h = single c text h
match_here→At (c ∷ d ∷ re) text h = elim (Bool-cases (d == star)) [
  | inl e ↦
      let k = (==_iff _ _).0 e in
      let m = rw e at h in
      let (xs, ys, q, f, r) =
        match_star-Split (match_here re) (At re) c (match_here→At re) text m in
      rw (k, q) (many c re xs ys f r)
  | inr e ↦
      let n : d ≢ star = ground arith in
      let m = rw e at h in
      let (t, ts, q, f, r) = match_byte-Fits (match_here (d ∷ re)) c text m in
      rw q (byte c d t re ts n f (match_here→At (d ∷ re) ts r))
]

-- And whatever is in the language is accepted.
At→match_here : (re text : List ℕ) → At re text → match_here re text ≡ true
unfolding match_here match_byte
At→match_here _ _ (done text) = refl
At→match_here _ _ ends = refl
At→match_here _ _ (last c t text n f) = rw (==-false_of_ne _ _ n, (Fits-iff c t).1 f)
At→match_here _ _ (byte c d t re text n f a) =
    rw (==-false_of_ne _ _ n, (Fits-iff c t).1 f) (At→match_here (d ∷ re) text a)
At→match_here _ _ (many c re xs ys f a) =
    match_star-many (match_here re) c xs ys f (At→match_here re ys a)

-- `matchhere` decides whether the expression matches at the beginning of the text.
pub match_here-At : (re text : List ℕ) → (match_here re text ≡ true) ↔ At re text
match_here-At re text = (match_here→At re text, At→match_here re text)

-- The language of `match`: an expression that begins with ^ matches at the beginning of the text,
-- another at any place, the end included.
abbrev pub Somewhere : List ℕ → List ℕ → Type 0
Somewhere re text = (us vs : List ℕ) × (text ≡ us ++ vs) × At re vs

abbrev pub Found : List ℕ → List ℕ → Type 0
Found [] text = Somewhere [] text
Found (c ∷ re) text = if c == caret then At re text else Somewhere (c ∷ re) text

match_any→Somewhere : (re text : List ℕ) → match_any re text ≡ true → Somewhere re text
unfolding match_any
match_any→Somewhere re [] h = ([], [], refl, match_here→At re [] h)
match_any→Somewhere re (t ∷ text) h = elim (or_true _ _ h) [
  | inl a ↦ ([], t ∷ text, refl, match_here→At re (t ∷ text) a)
  | inr a ↦
      let (us, vs, e, m) = match_any→Somewhere re text a in
      (t ∷ us, vs, ap (λ (z : List ℕ). t ∷ z) e, m)
]

match_any-here : (re text : List ℕ) → match_here re text ≡ true → match_any re text ≡ true
unfolding match_any
match_any-here re [] h = h
match_any-here re (t ∷ text) h = rw h

match_any-append : (re us vs : List ℕ) → At re vs → match_any re (us ++ vs) ≡ true
unfolding match_any
match_any-append re [] vs a = match_any-here re vs (At→match_here re vs a)
match_any-append re (u ∷ us) vs a = let m = match_any-append re us vs a in rw m (ground arith)

match_any-Somewhere : (re text : List ℕ) → (match_any re text ≡ true) ↔ Somewhere re text
match_any-Somewhere re text =
    (match_any→Somewhere re text, λ (us, vs, e, a). rw e (match_any-append re us vs a))

-- `match` decides the language of the expressions: a byte followed by a star matches any run of
-- fitting bytes, a dollar at the end the end of the text, any other byte a fitting one; an expression
-- that begins with a caret matches at the beginning of the text, another at any place.
pub match-Found : (re text : List ℕ) → (match re text ≡ true) ↔ Found re text
unfolding match
match-Found [] text = match_any-Somewhere [] text
match-Found (c ∷ re) text = elim (Bool-cases (c == caret)) [
  | inl e ↦ rw e (match_here-At re text)
  | inr e ↦ rw e (match_any-Somewhere (c ∷ re) text)
]
