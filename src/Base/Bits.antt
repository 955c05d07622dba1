-- ===== src/Base/Bits.antt =====
-- The native bit operations at variables: `|` of two words that share no bit is their sum, and `&`
-- with a mask of low ones is a remainder.
use Prim.Native.Nat.{
  ℕ, zero, suc, ◌+◌, ◌-◌, ◌*◌, ◌/◌, ◌%◌, ◌^◌, ◌≤◌, ◌<◌, min, max, bit_and, bit_or, digits,
  bit_and-bitwise, bit_or-bitwise,
}
use mathlib.Core.Path.{◌≡◌, refl, ap}
use native.Mathlib.Omega.{arith}
use native.Mathlib.Nat.{pow-suc, one-le-pow}

module _ (f : ℕ → ℕ) (g : ℕ → ℕ → ℕ) where
  -- More fuel than the number itself changes nothing.
  digits_fuel : (m n a b : ℕ) → a ≤ m → a ≤ n → digits f g m a b ≡ digits f g n a b
  digits_fuel zero zero a b p q = refl
  digits_fuel zero (suc n) zero b p q = refl
  digits_fuel zero (suc n) (suc a) b p q = absurd (omega arith)
  digits_fuel (suc m) zero zero b p q = refl
  digits_fuel (suc m) zero (suc a) b p q = absurd (omega arith)
  digits_fuel (suc m) (suc n) zero b p q = refl
  digits_fuel (suc m) (suc n) (suc a) b p q =
      ap (λ d. d * 2 + g (suc a % 2) (b % 2))
        (digits_fuel m n (suc a / 2) (b / 2) (omega arith) (omega arith))

zero-bit_or : (b : ℕ) → bit_or 0 b ≡ b
zero-bit_or b = bit_or-bitwise 0 b

zero-bit_and : (b : ℕ) → bit_and 0 b ≡ 0
zero-bit_and b = bit_and-bitwise 0 b

bit_or_digit : (a b : ℕ) → bit_or a b ≡ bit_or (a / 2) (b / 2) * 2 + max (a % 2) (b % 2)
bit_or_digit zero b = omega (arith, zero-bit_or b, zero-bit_or (b / 2))
bit_or_digit (suc a) b = omega (
  arith,
  bit_or-bitwise (suc a) b,
  bit_or-bitwise (suc a / 2) (b / 2),
  digits_fuel (λ x. x) max a (suc a / 2) (suc a / 2) (b / 2) (omega arith) (omega arith),
)

bit_and_digit : (a b : ℕ) → bit_and a b ≡ bit_and (a / 2) (b / 2) * 2 + min (a % 2) (b % 2)
bit_and_digit zero b = omega (arith, zero-bit_and b, zero-bit_and (b / 2))
bit_and_digit (suc a) b = omega (
  arith,
  bit_and-bitwise (suc a) b,
  bit_and-bitwise (suc a / 2) (b / 2),
  digits_fuel (λ x. 0) min a (suc a / 2) (suc a / 2) (b / 2) (omega arith) (omega arith),
)

bit_or_zero_below : (n a : ℕ) → a ≤ n → bit_or a 0 ≡ a
bit_or_zero_below n zero h = refl
bit_or_zero_below zero (suc a) h = absurd (omega arith)
bit_or_zero_below (suc n) (suc a) h =
    omega (arith, bit_or_digit (suc a) 0, bit_or_zero_below n (suc a / 2) (omega arith))

bit_and_zero_below : (n a : ℕ) → a ≤ n → bit_and a 0 ≡ 0
bit_and_zero_below n zero h = refl
bit_and_zero_below zero (suc a) h = absurd (omega arith)
bit_and_zero_below (suc n) (suc a) h =
    omega (arith, bit_and_digit (suc a) 0, bit_and_zero_below n (suc a / 2) (omega arith))

shift_suc : (q k : ℕ) → q * 2 ^ suc k ≡ 2 * (q * 2 ^ k)
shift_suc q k = omega (arith, ap (λ (t : ℕ). q * t) (pow-suc 2 k))

-- `(q << k) | r`, with `r` below the shift.
pub high-bit_or-low : (k q r : ℕ) → r < 2 ^ k → bit_or (q * 2 ^ k) r ≡ q * 2 ^ k + r
high-bit_or-low zero q r h =
    let none_left : r ≡ 0 = omega arith in
    rw none_left (omega (arith, bit_or_zero_below (q * 2 ^ 0) (q * 2 ^ 0) (omega arith)))
high-bit_or-low (suc k) q r h = ground (
  arith,
  bit_or_digit (q * 2 ^ suc k) r,
  shift_suc q k,
  pow-suc 2 k,
  high-bit_or-low k q (r / 2) (omega (arith, pow-suc 2 k)),
)

-- The same the other way round.
pub low-bit_or-high : (k q r : ℕ) → r < 2 ^ k → bit_or r (q * 2 ^ k) ≡ q * 2 ^ k + r
low-bit_or-high zero q r h =
    let none_left : r ≡ 0 = omega arith in rw none_left (omega (arith, zero-bit_or (q * 2 ^ 0)))
low-bit_or-high (suc k) q r h = ground (
  arith,
  bit_or_digit r (q * 2 ^ suc k),
  shift_suc q k,
  pow-suc 2 k,
  low-bit_or-high k q (r / 2) (omega (arith, pow-suc 2 k)),
)

fields-bit_and : (k q r : ℕ) → r < 2 ^ k → bit_and (q * 2 ^ k + r) (2 ^ k - 1) ≡ r
fields-bit_and zero q r h =
    let none_left : r ≡ 0 = omega arith in
    rw none_left (bit_and_zero_below (q * 2 ^ 0 + 0) (q * 2 ^ 0 + 0) (omega arith))
fields-bit_and (suc k) q r h = ground (
  arith,
  bit_and_digit (q * 2 ^ suc k + r) (2 ^ suc k - 1),
  shift_suc q k,
  pow-suc 2 k,
  one-le-pow k 2,
  fields-bit_and k q (r / 2) (omega (arith, pow-suc 2 k)),
)

-- `a & (2^k - 1)`.
pub mask-bit_and : (k a : ℕ) → bit_and a (2 ^ k - 1) ≡ a % 2 ^ k
mask-bit_and k a = ground (arith, one-le-pow k 2, fields-bit_and k (a / 2 ^ k) (a % 2 ^ k))
