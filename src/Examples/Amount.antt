-- ===== src/Examples/Amount.antt =====
-- Amounts whose product needs more than 128 bits, and the `i128` limit.
use zec_multisig.Base.{◌^◌, ◌≡◌, refl, arith, none, some}
use zec_multisig.Base.Int.{ℤ, pos, negsuc, negate}
use zec_multisig.Amount
use zec_multisig.Amount.Wide.{mul_full, div_256_rem, u128_mod}
use zec_multisig.Amount.Scaled.{i128_max, i128_min, is_zero, mul_div, mul_div_ceil, result_sign}
use zec_multisig.Amount.Exact.{mul_div_exact, mul_div_ceil_exact}
use zec_multisig.Amount.Symmetry.{turned, mul_div_symmetric}

-- 2 ^ 100, whose square has 201 bits.
abbrev large : ℤ
large = pos (2 ^ 100)

mul_div_exact_example : mul_div large (negsuc 8) large ≡ some (negsuc 8)
unfolding mathlib.Core.Bool.xor
mul_div_exact_example = mul_div_exact large (negsuc 8) large refl refl refl

mul_div_ceil_exact_example : mul_div_ceil large (negsuc 8) (pos (2 ^ 101)) ≡ some (negsuc 4)
unfolding mathlib.Core.Bool.xor
mul_div_ceil_exact_example = mul_div_ceil_exact large (negsuc 8) (pos (2 ^ 101)) refl refl refl

mul_div_symmetric_example :
    mul_div (negate large) (pos 7) (pos 3) ≡ turned (mul_div large (pos 7) (pos 3))
mul_div_symmetric_example =
    mul_div_symmetric large (pos 7) (pos 3) refl refl refl refl (omega arith)

-- At `i128::MIN` the symmetry ends: one sign has a result and the other has none.
negative_limit : mul_div (negate large) (pos (2 ^ 27)) (pos 1) ≡ some i128_min
unfolding mul_div zec_multisig.Amount.Wide.div_256_by_128 div_256_rem mul_full
    zec_multisig.Amount.Scaled.restore_sign mathlib.Core.Bool.xor
negative_limit = refl

positive_limit : mul_div large (pos (2 ^ 27)) (pos 1) ≡ none
unfolding mul_div zec_multisig.Amount.Wide.div_256_by_128 div_256_rem mul_full
    zec_multisig.Amount.Scaled.restore_sign mathlib.Core.Bool.xor
positive_limit = refl
