-- ===== src/Amount/Symmetry.antt =====
-- The sign symmetry that src/amount.rs documents for `mul_div`, and where it ends.
use mathlib.Core.Bool.{xor}
use native.Mathlib.Nat.{zero-div}
use zec_multisig.Base.{
  ℕ, zero, suc, ◌+◌, ◌*◌, ◌/◌, ◌≡◌, ◌≢◌, refl, arith, Bool, true, false, not, Option, none, some,
  inl, inr, Bool-cases,
}
use zec_multisig.Base.Int.{ℤ, pos, negsuc, magnitude, is_negative, signed, negate}
use zec_multisig.Amount.Scaled.{i128_max, in_range, is_zero, result_sign, mul_div}
use zec_multisig.Amount.Exact.{checked, quotient, mul_div_exact}

-- The result with its sign turned.
abbrev pub turned : Option ℤ → Option ℤ
turned none = none
turned (some z) = some (negate z)

magnitude-negate : (a : ℤ) → magnitude (negate a) ≡ magnitude a
magnitude-negate (pos zero) = refl
magnitude-negate (pos (suc n)) = refl
magnitude-negate (negsuc n) = refl

turn :
    (s : Bool) (q : ℕ)
    → q ≢ i128_max + 1
    → checked (signed (not s) q) ≡ turned (checked (signed s q))
turn true zero h = refl
turn false zero h = refl
turn true (suc q) h = ground arith
turn false (suc q) h = ground arith

zero_turned : (s : Bool) → checked (signed s 0) ≡ turned (checked (signed s 0))
zero_turned true = refl
zero_turned false = refl

zero_quotient : (x d : ℕ) → 0 * x / d ≡ 0
zero_quotient x d = omega (arith, zero-div d)

not-xor : (x y z : Bool) → xor (xor (not x) y) z ≡ not (xor (xor x y) z)
unfolding xor
not-xor true true true = refl
not-xor true true false = refl
not-xor true false true = refl
not-xor true false false = refl
not-xor false true true = refl
not-xor false true false = refl
not-xor false false true = refl
not-xor false false false = refl

turn_sign :
    (a b den : ℤ) (q : ℕ)
    → (magnitude a ≡ 0 → q ≡ 0)
    → q ≢ i128_max + 1
    → checked (signed (result_sign (negate a) b den) q)
      ≡ turned (checked (signed (result_sign a b den) q))
turn_sign (pos zero) b den q z h = rw (z refl) (zero_turned (result_sign (pos 0) b den))
turn_sign (pos (suc n)) b den q z h =
    rw (not-xor false (is_negative b) (is_negative den))
      (turn (result_sign (pos (suc n)) b den) q h)
turn_sign (negsuc n) b den q z h =
    rw (not-xor true (is_negative b) (is_negative den)) (turn (result_sign (negsuc n) b den) q h)

-- The conditions under which the two results mirror each other.
module _ (a b den : ℤ) (ha : in_range a ≡ true) (hn : in_range (negate a) ≡ true)
    (hb : in_range b ≡ true) (hd : in_range den ≡ true) (h : quotient a b den ≢ i128_max + 1) where
  -- On `i128`s, turning the sign of the first factor turns the sign of the result of `mul_div`, unless
  -- the magnitude of the quotient is exactly that of `i128::MIN`.
  pub mul_div_symmetric : mul_div (negate a) b den ≡ turned (mul_div a b den)
  mul_div_symmetric =
      rw
        (
          mul_div_exact (negate a) b den hn hb hd,
          mul_div_exact a b den ha hb hd,
          magnitude-negate a,
        )
        (elim (Bool-cases (is_zero den)) [
          | inl e ↦ rw e refl
          | inr e ↦ rw e (
              turn_sign a b den (quotient a b den)
                (λ z. rw z (zero_quotient (magnitude b) (magnitude den))) h)
        ])
