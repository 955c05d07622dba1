-- ===== src/Amount/Wide.antt =====
-- The 256-bit intermediate arithmetic of src/amount.rs on `u128` words, each operation with its
-- wrap-around.
use Prim.Native.Nat.{bit_and, bit_or}
use zec_multisig.Base.{
  ℕ, zero, suc, ◌+◌, ◌-◌, ◌*◌, ◌/◌, ◌%◌, ◌^◌, ◌||◌, Option, none, some, leb, ◌==◌, if◌then◌else◌,
}

abbrev pub u128_mod : ℕ
u128_mod = 2 ^ 128

-- `u64::MAX as u128`.
abbrev pub mask : ℕ
mask = 2 ^ 64 - 1

abbrev pub add128 : ℕ → ℕ → ℕ
add128 a b = (a + b) % u128_mod

abbrev pub mul128 : ℕ → ℕ → ℕ
mul128 a b = a * b % u128_mod

abbrev pub shl128 : ℕ → ℕ → ℕ
shl128 a k = a * 2 ^ k % u128_mod

abbrev pub shr : ℕ → ℕ → ℕ
shr a k = a / 2 ^ k

-- `(high, low)` of the product.
unfoldable pub mul_full : ℕ → ℕ → ℕ × ℕ
mul_full a b =
    let a_lo = bit_and a mask in
    let a_hi = shr a 64 in
    let b_lo = bit_and b mask in
    let b_hi = shr b 64 in
    let ll = mul128 a_lo b_lo in
    let lh = mul128 a_lo b_hi in
    let hl = mul128 a_hi b_lo in
    let hh = mul128 a_hi b_hi in
    let mid = add128 (add128 (shr ll 64) (bit_and lh mask)) (bit_and hl mask) in
    let lo = bit_or (bit_and ll mask) (shl128 mid 64) in
    let hi = add128 (add128 (add128 hh (shr lh 64)) (shr hl 64)) (shr mid 64) in (hi, lo)

-- One round of the long division, for the bit at `i`: the quotient and the remainder after it.
unfoldable pub div_step : ℕ → ℕ → ℕ → ℕ → ℕ → ℕ × ℕ
div_step den lo i quo rem =
    let bit = bit_and (shr lo i) 1 in
    let carry_out = shr rem 127 in
    let rem' = bit_or (shl128 rem 1) bit in
    if carry_out == 1 || leb den rem'
    then (bit_or quo (shl128 1 i), (rem' + u128_mod - den) % u128_mod)
    else (quo, rem')

-- `while i > 0 { i -= 1; … }`.
unfoldable pub div_loop : ℕ → ℕ → ℕ → ℕ → ℕ → ℕ × ℕ
div_loop den lo zero quo rem = (quo, rem)
div_loop den lo (suc i) quo rem =
    div_loop den lo i (div_step den lo i quo rem).0 (div_step den lo i quo rem).1

unfoldable pub div_256_rem : ℕ → ℕ → ℕ → Option (ℕ × ℕ)
div_256_rem hi lo den =
    if den == 0
    then none
    else if hi == 0
    then some (lo / den, lo % den)
    else if leb den hi
    then none
    else some (div_loop den lo 128 0 hi)

unfoldable pub div_256_by_128 : ℕ → ℕ → ℕ → Option ℕ
div_256_by_128 hi lo den = elim (div_256_rem hi lo den) [ none ↦ none | some (q, r) ↦ some q ]
