-- ===== src/Base/Bits.antt =====
-- `bit_or` of a shifted number and a number below the shift is their sum.
use Prim.Native.Nat.{
  ℕ, zero, suc, ◌+◌, ◌*◌, ◌/◌, ◌%◌, ◌^◌, ◌≤◌, ◌<◌, max, bit_or, digits, bit_or-bitwise,
}
use mathlib.Core.Path.{◌≡◌, refl, ap}
use native.Mathlib.Nat.{pow-suc}
use native.Mathlib.Omega.{arith}

abbrev or_digits : ℕ → ℕ → ℕ → ℕ
or_digits n a b = digits (λ b. b) max n a b

or_digits_fuel : (n m a b : ℕ) → a ≤ n → a ≤ m → or_digits n a b ≡ or_digits m a b
or_digits_fuel zero zero a b ha hb = refl
or_digits_fuel zero (suc m) zero b ha hb = refl
or_digits_fuel zero (suc m) (suc a) b ha hb = absurd (omega arith)
or_digits_fuel (suc n) zero zero b ha hb = refl
or_digits_fuel (suc n) zero (suc a) b ha hb = absurd (omega arith)
or_digits_fuel (suc n) (suc m) zero b ha hb = refl
or_digits_fuel (suc n) (suc m) (suc a) b ha hb =
    omega (arith, or_digits_fuel n m (suc a / 2) (b / 2) (omega arith) (omega arith))

zero-bit_or : (b : ℕ) → bit_or 0 b ≡ b
zero-bit_or b = bit_or-bitwise 0 b

bit_or_step : (a b : ℕ) → bit_or a b ≡ bit_or (a / 2) (b / 2) * 2 + max (a % 2) (b % 2)
bit_or_step zero b = omega (arith, zero-bit_or b, zero-bit_or (b / 2))
bit_or_step (suc a) b = omega (
  arith,
  bit_or-bitwise (suc a) b,
  bit_or-bitwise (suc a / 2) (b / 2),
  or_digits_fuel a (suc a / 2) (suc a / 2) (b / 2) (omega arith) (omega arith),
)

bit_or-zero_fuel : (n a : ℕ) → a ≤ n → bit_or a 0 ≡ a
bit_or-zero_fuel n zero h = refl
bit_or-zero_fuel zero (suc a) h = absurd (omega arith)
bit_or-zero_fuel (suc n) (suc a) h =
    omega (arith, bit_or_step (suc a) 0, bit_or-zero_fuel n (suc a / 2) (omega arith))

doubled : (p b : ℕ) → bit_or (p * 2) b ≡ bit_or p (b / 2) * 2 + b % 2
doubled p b = rw (bit_or_step (p * 2) b, half) (omega arith)
  where
    half : p * 2 / 2 ≡ p
    half = omega arith

doubled_pow : (k a : ℕ) → a * 2 ^ suc k ≡ a * 2 ^ k * 2
doubled_pow k a = rw pow-suc (grind arith)

pub bit_or_shifted : (k a b : ℕ) → b < 2 ^ k → bit_or (a * 2 ^ k) b ≡ a * 2 ^ k + b
bit_or_shifted zero a zero h = omega (arith, bit_or-zero_fuel (a * 1) (a * 1) (omega arith))
bit_or_shifted zero a (suc b) h = absurd (omega arith)
bit_or_shifted (suc k) a b h =
    let small : b / 2 < 2 ^ k = omega (arith, pow-suc 2 k) in
    omega (
      arith,
      ap (λ (t : ℕ). bit_or t b) (doubled_pow k a),
      doubled (a * 2 ^ k) b,
      bit_or_shifted k a (b / 2) small,
      doubled_pow k a,
    )
