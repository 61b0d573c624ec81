-- ===== src/Fs/Bits.antt =====
-- fs.c: the bits of a byte of the bitmap.
use xv6_memory_management_im.Common.{
  ℕ, zero, suc, ◌+◌, ◌-◌, ◌*◌, ◌/◌, ◌%◌, ◌<◌, ◌≡◌, ◌≢◌, refl, ap, sym, ◌∙◌, true, false, arith, ltb,
  inl, inr, Bool-cases,
}
use xv6_memory_management_im.Common.Word.{test_bit, set_bit}
use mathlib.Core.Path.{subst}
use xv6_memory_management_im.Common.{◌^◌}
use native.Mathlib.Nat.{
  add-mul-div_left, add-div_right, div-div-eq-div-mul, pow-suc, mul_assoc, mul_comm,
}

-- A bit set above the bit `m`.
set-low : (x m c : ℕ) → 0 < m → test_bit (x + m * (2 * c)) m ≡ test_bit x m
set-low x m c p =
    let e = add-mul-div_left x (2 * c) p in
    let h : (x / m + 2 * c) % 2 ≡ x / m % 2 = omega arith in rw (e, h) refl

-- A bit set below.
set-high :
    (x m c : ℕ)
    → 0 < m
    → test_bit x m ≡ false
    → test_bit (x + m) (m * (2 * c)) ≡ test_bit x (m * (2 * c))
set-high x m c p e =
    let d : (y : ℕ) → y / (m * (2 * c)) ≡ y / m / 2 / c =
      λ y. (sym (div-div-eq-div-mul y m (2 * c)) ∙ sym (div-div-eq-div-mul (y / m) 2 c)) in
    let h = add-div_right x p in
    let q : (x / m + 1) / 2 ≡ x / m / 2 = ground arith in
    let d1 = d (x + m) in let d2 = d x in rw (d1, d2, h, q) refl

pub set-here : (x m : ℕ) → 0 < m → test_bit (set_bit x m) m ≡ true
set-here x m p = elim (Bool-cases (test_bit x m)) [
  | inl e ↦ rw (e, e) refl
  | inr e ↦ let h = add-div_right x p in rw e (rw h (ground arith))
]

pub pow_pos : (i : ℕ) → 0 < 2 ^ i
pow_pos zero = omega arith
pow_pos (suc i) = let h = pow-suc 2 i in let p = pow_pos i in rw h (omega arith)

pow_gap : (i d : ℕ) → 2 ^ (i + suc d) ≡ 2 ^ i * (2 * 2 ^ d)
pow_gap zero d =
    let h = pow-suc 2 d in let e : 0 + suc d ≡ suc d = omega arith in rw (e, h) (omega arith)
pow_gap (suc i) d =
    let h = pow-suc 2 i in
    let k = pow-suc 2 (i + suc d) in
    let e : suc i + suc d ≡ suc (i + suc d) = omega arith in
    let g = pow_gap i d in
    let a = 2 ^ i in
    let b = 2 * 2 ^ d in
    rw (e, k, g, h) (mul_assoc a b 2 ∙ (ap (λ t. a * t) (mul_comm b 2) ∙ sym (mul_assoc a 2 b)))

pub set-else : (x i j : ℕ) → i ≢ j → test_bit (set_bit x (2 ^ i)) (2 ^ j) ≡ test_bit x (2 ^ j)
set-else x i j ne = elim (Bool-cases (test_bit x (2 ^ i))) [
  | inl e ↦ rw e refl
  | inr e ↦ elim (Bool-cases (ltb i j)) [
    | inl l ↦
        let g : i + suc (j - suc i) ≡ j = ground arith in
        let h =
          subst (λ (t : ℕ). 2 ^ t ≡ 2 ^ i * (2 * 2 ^ (j - suc i))) g (pow_gap i (j - suc i)) in
        rw (e, h) (set-high x (2 ^ i) (2 ^ (j - suc i)) (pow_pos i) e)
    | inr l ↦
        let g : j + suc (i - suc j) ≡ i = ground arith in
        let h =
          subst (λ (t : ℕ). 2 ^ t ≡ 2 ^ j * (2 * 2 ^ (i - suc j))) g (pow_gap j (i - suc j)) in
        rw e (rw h (set-low x (2 ^ j) (2 ^ (i - suc j)) (pow_pos j)))
  ]
]
