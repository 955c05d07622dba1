-- ===== src/Amount/Scaled.antt =====
-- The free functions `mul_div` and `mul_div_ceil` of src/amount.rs on `i128`.
use zec_multisig.Base.{
  ℕ, zero, suc, ◌+◌, ◌-◌, ◌^◌, Bool, false, not, Option, none, some, ltb, leb, ◌==◌, if◌then◌else◌,
  ◌>>=◌,
}
use mathlib.Core.Bool.{xor}
use zec_multisig.Base.Int.{ℤ, pos, negsuc, magnitude, is_negative}
use zec_multisig.Amount.Wide.{u128_mod, mul_full, div_256_rem, div_256_by_128}

abbrev pub i128_max : ℕ
i128_max = 2 ^ 127 - 1

-- The value fits in an `i128`.
abbrev pub in_range : ℤ → Bool
in_range (pos n) = leb n i128_max
in_range (negsuc n) = leb n i128_max

-- `i128::MIN`.
abbrev pub i128_min : ℤ
i128_min = negsuc i128_max

abbrev pub is_zero : ℤ → Bool
is_zero (pos n) = n == 0
is_zero (negsuc n) = false

-- `-(q as i128)`, for a `q` that is at most `i128::MAX`.
abbrev pub minus : ℕ → ℤ
minus zero = pos zero
minus (suc n) = negsuc n

-- The end of both functions: the sign is given back to the quotient, and the range is checked.
unfoldable pub restore_sign : Bool → ℕ → Option ℤ
restore_sign neg q =
    if neg
    then (if ltb (i128_max + 1) q
        then none
        else if q == i128_max + 1
        then some i128_min
        else some (minus q))
    else if ltb i128_max q
    then none
    else some (pos q)

abbrev pub result_sign : ℤ → ℤ → ℤ → Bool
result_sign a b den = xor (xor (is_negative a) (is_negative b)) (is_negative den)

unfoldable pub mul_div : ℤ → ℤ → ℤ → Option ℤ
mul_div a b den = if is_zero den then none else do
  let product = mul_full (magnitude a) (magnitude b)
  q ← div_256_by_128 product.0 product.1 (magnitude den)
  restore_sign (result_sign a b den) q

-- `u128::checked_add(1)`.
abbrev pub checked_succ : ℕ → Option ℕ
checked_succ q = if ltb (q + 1) u128_mod then some (q + 1) else none

unfoldable pub mul_div_ceil : ℤ → ℤ → ℤ → Option ℤ
mul_div_ceil a b den = if is_zero den then none else do
  let product = mul_full (magnitude a) (magnitude b)
  division ← div_256_rem product.0 product.1 (magnitude den)
  q ← if not (division.1 == 0) then checked_succ division.0 else some division.0
  restore_sign (result_sign a b den) q
