-- ===== src/Base/Bits.antt =====
-- The binary or of numbers whose digits do not overlap.
use Prim.Native.Nat.{
  ℕ, zero, suc, ◌+◌, ◌*◌, ◌/◌, ◌%◌, ◌^◌, ◌≤◌, ◌<◌, max, bit_or, digits, bit_or-bitwise,
}
use mathlib.Core.Path.{◌≡◌, refl, sym, ap, ◌∙◌}
use native.Mathlib.Nat.{mul_left_comm}
use native.Mathlib.Omega.{arith, pow_step}

abbrev or_digits : ℕ → ℕ → ℕ → ℕ
or_digits n a b = digits (λ b. b) max n a b

-- more steps than the first number needs change nothing
or_digits-enough : (n m a b : ℕ) → a ≤ n → a ≤ m → or_digits n a b ≡ or_digits m a b
or_digits-enough zero zero a b p q = refl
or_digits-enough zero (suc m) zero b p q = refl
or_digits-enough zero (suc m) (suc a) b p q = absurd (omega arith)
or_digits-enough (suc n) zero zero b p q = refl
or_digits-enough (suc n) zero (suc a) b p q = absurd (omega arith)
or_digits-enough (suc n) (suc m) zero b p q = refl
or_digits-enough (suc n) (suc m) (suc a) b p q =
    ap (λ r. r * 2 + max (suc a % 2) (b % 2))
      (or_digits-enough n m (suc a / 2) (b / 2) (omega arith) (omega arith))

-- the lowest digit
bit_or-suc : (a b : ℕ) → bit_or (suc a) b ≡ bit_or (suc a / 2) (b / 2) * 2 + max (suc a % 2) (b % 2)
bit_or-suc a b =
    bit_or-bitwise (suc a) b
    ∙ ap (λ r. r * 2 + max (suc a % 2) (b % 2))
        (or_digits-enough a (suc a / 2) (suc a / 2) (b / 2) (omega arith) (omega arith)
          ∙ sym (bit_or-bitwise (suc a / 2) (b / 2)))

zero-bit_or : (b : ℕ) → bit_or 0 b ≡ b
zero-bit_or b = bit_or-bitwise 0 b

bit_or_step : (a b : ℕ) → bit_or a b ≡ bit_or (a / 2) (b / 2) * 2 + max (a % 2) (b % 2)
bit_or_step zero b = omega (arith, zero-bit_or b, zero-bit_or (b / 2))
bit_or_step (suc a) b = bit_or-suc a b

bit_or-zero_below : (n a : ℕ) → a ≤ n → bit_or a 0 ≡ a
bit_or-zero_below n zero h = zero-bit_or 0
bit_or-zero_below zero (suc a) h = absurd (omega arith)
bit_or-zero_below (suc n) (suc a) h =
    omega (arith, bit_or_step (suc a) 0, bit_or-zero_below n (suc a / 2) (omega arith))

double : (a k : ℕ) → a * 2 ^ suc k ≡ 2 * (a * 2 ^ k)
double a k = ap (λ p. a * p) (pow_step 2 k) ∙ mul_left_comm a 2 (2 ^ k)

-- A number whose lowest `k` digits are zero, and one that has only those.
pub bit_or-add : (k a b : ℕ) → b < 2 ^ k → bit_or (a * 2 ^ k) b ≡ a * 2 ^ k + b
bit_or-add zero a b h =
    let none : b ≡ 0 = omega arith in
    ap (bit_or (a * 2 ^ 0)) none
    ∙ bit_or-zero_below (a * 2 ^ 0) (a * 2 ^ 0) (omega arith)
    ∙ omega arith
bit_or-add (suc k) a b h =
    let half : (a * 2 ^ suc k) / 2 ≡ a * 2 ^ k = omega (arith, double a k) in
    let small : b / 2 < 2 ^ k = omega (arith, pow_step 2 k) in
    let rest = ap (λ q. bit_or q (b / 2)) half ∙ bit_or-add k a (b / 2) small in
    omega (arith, double a k, bit_or_step (a * 2 ^ suc k) b, rest)
