-- ===== src/Amount/Exact.antt =====
-- What `mul_div` and `mul_div_ceil` of src/amount.rs compute: the exact quotient of the integers,
-- with its sign, or nothing when it does not fit.
use zec_multisig.Base.{
  ℕ, zero, suc, ◌+◌, ◌*◌, ◌/◌, ◌%◌, ◌≤◌, ◌<◌, ◌≡◌, refl, sym, ap, ◌∙◌, subst, arith, Bool, true,
  false, not, Option, none, some, ltb, ◌==◌, if◌then◌else◌, ◌>>=◌, ◌⊎◌, inl, inr, Bool-cases,
  ltb→lt, ltb_false→le, leb→le,
}
use zec_multisig.Base.Int.{ℤ, pos, negsuc, magnitude, signed}
use zec_multisig.Amount.Wide.{u128_mod, mul_full, div_256_rem, div_256_by_128}
use zec_multisig.Amount.Scaled.{
  i128_max, in_range, is_zero, restore_sign, result_sign, checked_succ, mul_div, mul_div_ceil,
}
use zec_multisig.Amount.Product.{mul_full_exact, mul_full_bound}
use zec_multisig.Amount.Division.{div_256_rem_exact, div_256_rem-none, quotient_large}

-- An integer, if an `i128` holds it.
abbrev pub checked : ℤ → Option ℤ
checked z = if in_range z then some z else none

-- The quotient rounded up.
abbrev pub ceil_div : ℕ → ℕ → ℕ
ceil_div n d = n / d + (if n % d == 0 then 0 else 1)

restore_sign_lem : (neg : Bool) (q : ℕ) → restore_sign neg q ≡ checked (signed neg q)
unfolding restore_sign
restore_sign_lem false q = ground arith
restore_sign_lem true zero = refl
restore_sign_lem true (suc q) = ground arith

restore_sign_large : (neg : Bool) (q : ℕ) → u128_mod ≤ q → restore_sign neg q ≡ none
unfolding restore_sign
restore_sign_large false q h = ground arith
restore_sign_large true q h = ground arith

magnitude_bound : (a : ℤ) → in_range a ≡ true → magnitude a < u128_mod
magnitude_bound (pos n) h = omega (arith, leb→le n i128_max h)
magnitude_bound (negsuc n) h = omega (arith, leb→le n i128_max h)

magnitude_positive : (a : ℤ) → is_zero a ≡ false → 0 < magnitude a
magnitude_positive (pos n) h = ground arith
magnitude_positive (negsuc n) h = omega arith

large_refused : (neg : Bool) (q : ℕ) → u128_mod ≤ q → checked (signed neg q) ≡ none
large_refused neg q h = sym (restore_sign_lem neg q) ∙ restore_sign_large neg q h

by_128_some :
    (hi lo den q r : ℕ) → div_256_rem hi lo den ≡ some (q, r) → div_256_by_128 hi lo den ≡ some q
unfolding div_256_by_128
by_128_some hi lo den q r e =
    ap (λ o. elim o as (λ x. Option ℕ) [ none ↦ none | some d ↦ some d.0 ]) e

by_128_none : (hi lo den : ℕ) → div_256_rem hi lo den ≡ none → div_256_by_128 hi lo den ≡ none
unfolding div_256_by_128
by_128_none hi lo den e = ap (λ o. elim o as (λ x. Option ℕ) [ none ↦ none | some d ↦ some d.0 ]) e

-- The end of `mul_div_ceil`, on the quotient and the remainder.
round_up :
    (neg : Bool) (q r : ℕ)
    → ((if not (r == 0) then checked_succ q else some q) >>= (λ n. restore_sign neg n))
      ≡ checked (signed neg (q + (if r == 0 then 0 else 1)))
round_up neg q r = elim (Bool-cases (r == 0)) [
  | inl e ↦ rw e (restore_sign_lem neg q ∙ ap (λ n. checked (signed neg n)) (omega arith))
  | inr e ↦ elim (Bool-cases (ltb (q + 1) u128_mod)) [
    | inl small ↦ rw (e, small) (restore_sign_lem neg (q + 1))
    | inr f ↦ rw (e, f) (sym (large_refused neg (q + 1) (ltb_false→le (q + 1) u128_mod f)))
  ]
]

-- The two ways the division of a product ends.
product_division :
    (x y d : ℕ)
    → x < u128_mod
    → y < u128_mod
    → 0 < d
    → d < u128_mod
    → (div_256_rem (mul_full x y).0 (mul_full x y).1 d ≡ some (x * y / d, x * y % d))
      ⊎ ((div_256_rem (mul_full x y).0 (mul_full x y).1 d ≡ none) × (u128_mod ≤ x * y / d))
product_division x y d hx hy positive hd =
    let hi = (mul_full x y).0 in
    let lo = (mul_full x y).1 in
    let product : hi * u128_mod + lo ≡ x * y = mul_full_exact x y hx hy in
    let bound : lo < u128_mod = mul_full_bound x y hx hy in
    elim (Bool-cases (ltb hi d)) [
      | inl e ↦ inl (
          div_256_rem_exact hi lo d bound positive hd (ltb→lt hi d e)
          ∙ ap (λ (n : ℕ). some (n / d, n % d)) product)
      | inr e ↦ inr (
        div_256_rem-none hi lo d bound positive hd (ltb_false→le hi d e),
        subst (λ n. u128_mod ≤ n / d) product
            (quotient_large hi lo d bound positive hd (ltb_false→le hi d e)),
      )
    ]

module _ (a b den : ℤ) where
  abbrev product : ℕ
  product = magnitude a * magnitude b

  abbrev pub quotient : ℕ
  quotient = magnitude a * magnitude b / magnitude den

  abbrev hi : ℕ
  hi = (mul_full (magnitude a) (magnitude b)).0

  abbrev lo : ℕ
  lo = (mul_full (magnitude a) (magnitude b)).1

-- The whole of both functions, on arguments that are `i128`s.
module _ (a b den : ℤ) (ha : in_range a ≡ true) (hb : in_range b ≡ true)
    (hd : in_range den ≡ true) where
  division :
      is_zero den ≡ false
      → (div_256_rem
            (mul_full (magnitude a) (magnitude b)).0
            (mul_full (magnitude a) (magnitude b)).1
            (magnitude den)
          ≡ some (
            magnitude a * magnitude b / magnitude den,
            magnitude a * magnitude b % magnitude den,
          ))
        ⊎ ((div_256_rem
                (mul_full (magnitude a) (magnitude b)).0
                (mul_full (magnitude a) (magnitude b)).1
                (magnitude den)
              ≡ none)
            × (u128_mod ≤ magnitude a * magnitude b / magnitude den))
  division h =
      product_division (magnitude a) (magnitude b) (magnitude den) (magnitude_bound a ha)
        (magnitude_bound b hb) (magnitude_positive den h) (magnitude_bound den hd)

  -- On three `i128`s, `mul_div` is the quotient of the magnitudes, rounded down, with the sign of
  -- the exact result, whatever the size of the product; it is nothing for a zero divisor or a
  -- result outside `i128`.
  pub mul_div_exact : mul_div a b den ≡ (
      if is_zero den
      then none
      else checked (signed (result_sign a b den) (magnitude a * magnitude b / magnitude den)))
  unfolding mul_div
  mul_div_exact = elim (Bool-cases (is_zero den)) [
    | inl e ↦ rw e refl
    | inr e ↦ elim (division e) [
      | inl d ↦
          let q =
            by_128_some (hi a b den) (lo a b den) (magnitude den) (quotient a b den)
              (product a b den % magnitude den) d in
          rw (e, q) (restore_sign_lem (result_sign a b den) (quotient a b den))
      | inr (d, large) ↦
          let q = by_128_none (hi a b den) (lo a b den) (magnitude den) d in
          rw (e, q) (sym (large_refused (result_sign a b den) (quotient a b den) large))
    ]
  ]

  -- The same for `mul_div_ceil`, which rounds the magnitude up.
  pub mul_div_ceil_exact : mul_div_ceil a b den ≡ (
      if is_zero den
      then none
      else checked
          (signed (result_sign a b den) (ceil_div (magnitude a * magnitude b) (magnitude den))))
  unfolding mul_div_ceil
  mul_div_ceil_exact = elim (Bool-cases (is_zero den)) [
    | inl e ↦ rw e refl
    | inr e ↦ elim (division e) [
      | inl d ↦
          rw (e, d)
            (round_up (result_sign a b den) (quotient a b den) (product a b den % magnitude den))
      | inr (d, large) ↦
          rw (e, d)
            (sym (
              large_refused (result_sign a b den) (ceil_div (product a b den) (magnitude den))
                (omega (arith, large))))
    ]
  ]
