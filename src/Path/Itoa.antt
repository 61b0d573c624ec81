-- ===== src/Path/Itoa.antt =====
-- fs.c: `itoa` writes the decimal digits of a number.
use xv6_memory_management_im.Common.{
  ℕ, zero, suc, ◌+◌, ◌-◌, ◌*◌, ◌/◌, ◌%◌, ◌≤◌, ◌<◌, ◌≡◌, ◌≢◌, refl, ap, ◌∙◌, Bool, true, false,
  arith, if◌then◌else◌, ◌==◌, ==-false_of_ne, ==_iff, update, ltb, leb, ◌⊎◌, inl, inr, Bool-cases,
  ltb→lt,
}
use xv6_memory_management_im.Kernel.{Returns, returns}
use xv6_memory_management_im.Path.{end_of, put_digits, itoa}

-- The number that the `n` decimal digits from `p` on stand for.
abbrev pub value : ℕ → ℕ → (ℕ → ℕ) → ℕ
value zero p b = 0
value (suc n) p b = value n p b * 10 + (b (p + n) - 48)

-- The count of digits of a number, by division.
abbrev pub digits : ℕ → ℕ → ℕ
digits zero i = 0
digits (suc n) i = let rest = digits n (i / 10) in if i / 10 == 0 then 1 else suc rest

end_of_lem : (n p i : ℕ) → end_of n p i ≡ p + digits n i
unfolding end_of
end_of_lem zero p i = omega arith
end_of_lem (suc n) p i =
    let ih = end_of_lem n (p + 1) (i / 10) in
    elim (Bool-cases (i / 10 == 0)) [ inl e ↦ rw e refl | inr e ↦ rw e (omega arith) ]

-- What the digits of `i` at the `w` bytes from `p` on, with nothing else changed, come to.
pub record IsDecimal (w p i : ℕ) (b j : ℕ → ℕ) : Type 0 where
  pub number : value w p j ≡ i
  pub digit : (k : ℕ) → k < w → (48 ≤ j (p + k)) × (j (p + k) ≤ 57)
  pub others : (a : ℕ) → (a < p) ⊎ (p + w ≤ a) → j a ≡ b a

value-same :
    (n p : ℕ) (f g : ℕ → ℕ) → ((k : ℕ) → k < n → f (p + k) ≡ g (p + k)) → value n p f ≡ value n p g
value-same zero p f g h = refl
value-same (suc n) p f g h =
    let e = h n (omega arith) in
    let ih = value-same n p f g (λ k l. h k (omega arith)) in rw (e, ih) refl

put_digits-IsDecimal :
    (n p i : ℕ) (b : ℕ → ℕ)
    → i < n
    → IsDecimal (digits n i) p i b (put_digits n (p + digits n i) i b)
unfolding put_digits
put_digits-IsDecimal zero p i b l = absurd (omega arith)
put_digits-IsDecimal (suc n) p i b l = elim (Bool-cases (i / 10 == 0)) [
  | inl e ↦
      let z : p + 1 - 1 ≡ p = omega arith in
      rw (e, z)
        (record {
          number = ground arith;
          digit = λ k q. (ground arith, ground arith);
          others = λ a q. ground arith;
        })
  | inr e ↦
      let w = digits n (i / 10) in
      let b1 = update b (p + w) (48 + i % 10) in
      let f = put_digits n (p + w) (i / 10) b1 in
      let ih = put_digits-IsDecimal n p (i / 10) b1 (ground arith) in
      let z : p + suc w - 1 ≡ p + w = omega arith in
      let t : (p + w == p + w) ≡ true = (==_iff _ _).1 refl in
      let last : f (p + w) ≡ 48 + i % 10 = ih.others (p + w) (inr (omega arith)) ∙ rw t refl in
      let most = ih.number in
      rw (e, z)
        (record {
          number = rw (most, last) (omega arith);
          digit = λ k q. elim (Bool-cases (ltb k w)) [
            | inl l ↦ ih.digit k (ltb→lt k w l)
            | inr l ↦ let v : k ≡ w = ground arith in rw (v, last) (omega arith, omega arith)
          ];
          others = λ a q.
              let ne : a ≢ p + w = λ u. elim q [ inl l ↦ omega arith | inr l ↦ omega arith ] in
              let u : (a == p + w) ≡ false = ==-false_of_ne a (p + w) ne in
              ih.others a (ground arith) ∙ rw u refl;
        })
]

if-false : (x y : ℕ) {t : Bool} → t ≡ false → (if t then x else y) ≡ y
if-false x y e = rw e refl

signed_else :
    (negative : Bool) (b : ℕ → ℕ) (a : ℕ) → 0 < a → (if negative then update b 0 45 else b) a ≡ b a
signed_else true b a l =
    let u : (a == 0) ≡ false = ==-false_of_ne a 0 (λ v. omega arith) in rw u refl
signed_else false b a l = refl

abbrev pub width : ℕ → ℕ
width i = digits (i + 1) i

-- Where the digits begin: behind the sign.
abbrev pub start : Bool → ℕ
start negative = if negative then 1 else 0

-- What `itoa` comes to.
pub record IsPrinted (negative : Bool) (i : ℕ) (b j : ℕ → ℕ) : Type 0 where
  pub number : value (width i) (start negative) j ≡ i
  pub digit : (k : ℕ) → k < width i → (48 ≤ j (start negative + k)) × (j (start negative + k) ≤ 57)
  pub ends : j (start negative + width i) ≡ 0
  pub sign : negative ≡ true → j 0 ≡ 45
  pub others : (a : ℕ) → start negative + width i < a → j a ≡ b a

-- `itoa` of an int other than the least one returns: it writes the decimal digits of the number, behind
-- a minus sign if it is negative, then the final 0, and nothing behind that. Its two loops stay within
-- their fuel.
pub itoa-IsPrinted :
    (negative : Bool) (i : ℕ) (b : ℕ → ℕ)
    → i < 0x8000_0000
    → Returns (IsPrinted negative i b) (itoa negative i b)
unfolding itoa
itoa-IsPrinted negative i b small =
    let p = start negative in
    let w = width i in
    let b1 = if negative then update b 0 45 else b in
    let b2 = update b1 (p + w) 0 in
    let e = end_of_lem (i + 1) p i in
    let t : (p + w == p + w) ≡ true = (==_iff _ _).1 refl in
    let g = put_digits-IsDecimal (i + 1) p i b2 (omega arith) in
    let v : leb 0x8000_0000 i ≡ false = ground arith in
    rw (e, v)
      (returns (record {
        number = g.number;
        digit = g.digit;
        ends = g.others (p + w) (inr (omega arith)) ∙ rw t refl;
        sign = λ n.
            let q : p ≡ 1 = ap start n in
            let u : (0 == p + w) ≡ false = ==-false_of_ne 0 (p + w) (λ v. omega arith) in
            g.others 0 (inl (omega arith))
            ∙ (if-false 0 (b1 0) u ∙ ap (λ t. (if t then update b 0 45 else b) 0) n);
        others = λ a l.
            let u : (a == p + w) ≡ false = ==-false_of_ne a (p + w) (λ v. omega arith) in
            g.others a (inr (omega arith))
            ∙ (if-false 0 (b1 a) u ∙ signed_else negative b a (omega arith));
      }))
