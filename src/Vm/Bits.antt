-- ===== src/Vm/Bits.antt =====
-- `pa | perm` for an address with its low twelve bits clear and flags below 4096 is a sum.
use Prim.Native.Nat.{
  ℕ, zero, suc, ◌+◌, ◌*◌, ◌/◌, ◌%◌, ◌^◌, ◌≤◌, ◌<◌, max, bit_or, digits, bit_or-bitwise,
}
use mathlib.Core.Path.{◌≡◌, refl, ◌∙◌}
use native.Mathlib.Nat.{pow-suc}
use native.Mathlib.Omega.{arith}

abbrev or_digits : ℕ → ℕ → ℕ → ℕ
or_digits n a b = digits (λ b. b) max n a b

or_digits_fuel : (n m a b : ℕ) → a ≤ n → a ≤ m → or_digits n a b ≡ or_digits m a b
or_digits_fuel zero zero a b p q = refl
or_digits_fuel zero (suc m) zero b p q = refl
or_digits_fuel zero (suc m) (suc a) b p q = absurd (omega arith)
or_digits_fuel (suc n) zero zero b p q = refl
or_digits_fuel (suc n) zero (suc a) b p q = absurd (omega arith)
or_digits_fuel (suc n) (suc m) zero b p q = refl
or_digits_fuel (suc n) (suc m) (suc a) b p q =
    omega (arith, or_digits_fuel n m (suc a / 2) (b / 2) (omega arith) (omega arith))

zero-bit_or : (b : ℕ) → bit_or 0 b ≡ b
zero-bit_or b = bit_or-bitwise 0 b

bit_or_step : (a b : ℕ) → bit_or a b ≡ bit_or (a / 2) (b / 2) * 2 + max (a % 2) (b % 2)
bit_or_step zero b = omega (arith, zero-bit_or b, zero-bit_or (b / 2))
bit_or_step (suc a) b = omega (
  arith,
  bit_or-bitwise (suc a) b,
  bit_or-bitwise (suc a / 2) (b / 2),
  or_digits_fuel a (suc a / 2) (suc a / 2) (b / 2) (omega arith) (omega arith),
)

bit_or-zero_fuel : (n a : ℕ) → a ≤ n → bit_or a 0 ≡ a
bit_or-zero_fuel n zero h = refl
bit_or-zero_fuel zero (suc a) h = absurd (omega arith)
bit_or-zero_fuel (suc n) (suc a) h =
    omega (arith, bit_or_step (suc a) 0, bit_or-zero_fuel n (suc a / 2) (omega arith))

bit_or-mul : (n c b : ℕ) → b < 2 ^ n → bit_or (c * 2 ^ n) b ≡ c * 2 ^ n + b
bit_or-mul zero c b h =
    let e : b ≡ 0 = omega arith in
    rw e (bit_or-zero_fuel (c * 1) (c * 1) (omega arith) ∙ omega arith)
bit_or-mul (suc n) c b h =
    let p : 2 ^ suc n ≡ 2 ^ n * 2 = pow-suc 2 n in
    let half : c * 2 ^ suc n / 2 ≡ c * 2 ^ n = rw p (omega arith) in
    let even : c * 2 ^ suc n % 2 ≡ 0 = rw p (omega arith) in
    let ih = bit_or-mul n c (b / 2) (omega arith) in
    let s = bit_or_step (c * 2 ^ suc n) b in
    let t = rw half at s in omega (arith, t, ih, half, even)

pub bit_or-add : (a b : ℕ) → a % 4096 ≡ 0 → b < 4096 → bit_or a b ≡ a + b
bit_or-add a b h l =
    let e : a / 4096 * 4096 ≡ a = omega arith in
    let q = bit_or-mul 12 (a / 4096) b l in let r = rw e at q in r
