-- ===== src/Amount.antt =====
-- src/amount.rs: `Fixed`, a signed 128-bit integer scaled by 10^18. A value is an integer; its range
-- is `in_range`, and each operation checks it as the source does. `Wide` has the 256-bit arithmetic,
-- `Scaled` the free functions, and this file the methods; the other modules prove.
pub mod Wide
pub mod Division
pub mod Exact
pub mod Symmetry
pub mod Scaled
pub mod Product
use zec_multisig.Base.{
  ℕ, zero, suc, ◌*◌, ◌^◌, Bool, true, false, Option, none, some, ltb, if◌then◌else◌,
}
use zec_multisig.Base.Int.{ℤ, pos, negsuc, magnitude, ◌+ℤ◌, ◌-ℤ◌, leb_ℤ, negate}
use Scaled.{in_range}

abbrev pub Fixed : Type 0
Fixed = ℤ

-- `WAD`.
abbrev pub wad : ℤ
wad = pos (10 ^ 18)

-- `i64::from(n) as i128 * WAD`, which no `i64` takes out of range.
unfoldable pub whole : ℤ → Fixed
whole (pos n) = pos (n * 10 ^ 18)
whole (negsuc n) = negate (pos (suc n * 10 ^ 18))

unfoldable pub is_positive : Fixed → Bool
is_positive (pos n) = ltb 0 n
is_positive (negsuc n) = false

abbrev pub checked : ℤ → Option Fixed
checked z = if in_range z then some z else none

unfoldable pub abs : Fixed → Option Fixed
abs a = checked (pos (magnitude a))

unfoldable pub neg : Fixed → Option Fixed
neg a = checked (negate a)

unfoldable pub add : Fixed → Fixed → Option Fixed
unfolding ◌+ℤ◌
add a b = checked (a +ℤ b)

unfoldable pub sub : Fixed → Fixed → Option Fixed
unfolding ◌-ℤ◌
sub a b = checked (a -ℤ b)

unfoldable pub min : Fixed → Fixed → Fixed
min a b = if leb_ℤ a b then a else b

unfoldable pub max : Fixed → Fixed → Fixed
max a b = if leb_ℤ b a then a else b

unfoldable pub mul : Fixed → Fixed → Option Fixed
mul a b = Scaled.mul_div a b wad

unfoldable pub div : Fixed → Fixed → Option Fixed
div a b = if Scaled.is_zero b then none else Scaled.mul_div a wad b

unfoldable pub mul_div : Fixed → Fixed → Fixed → Option Fixed
mul_div a num den = if Scaled.is_zero den then none else Scaled.mul_div a num den

unfoldable pub mul_div_ceil : Fixed → Fixed → Fixed → Option Fixed
mul_div_ceil a num den = if Scaled.is_zero den then none else Scaled.mul_div_ceil a num den
