-- ===== src/Amount/Division.antt =====
-- The shift-subtract long division of src/amount.rs is division.
use Prim.Native.Nat.{bit_and, bit_or}
use mathlib.Core.Path.{ap₂}
use native.Mathlib.Nat.{
  le-div_iff_mul-le, div-eq_of_lt, mul-le-mul, mod-lt, mod-eq_of_lt, div-add-mod', pow-suc,
  mul-add-div_right, mul-add-mod_self_right, one-le-pow, pow-le-pow_right,
}
use zec_multisig.Base.{
  ℕ, zero, suc, ◌+◌, ◌-◌, ◌*◌, ◌/◌, ◌%◌, ◌^◌, ◌≤◌, ◌<◌, ◌≡◌, refl, sym, ap, ◌∙◌, subst, arith, true,
  false, ◌||◌, none, some, ltb, leb, ◌==◌, inl, inr, Bool-cases, ltb→lt, ltb_false→le, ==_iff,
  ne→==_false, lt→leb_false, le→leb,
}
use zec_multisig.Base.Bits.{mask-bit_and, high-bit_or-low}
use zec_multisig.Amount.Wide.{u128_mod, shl128, shr, div_step, div_loop, div_256_rem}

-- The remainder with the next bit of the low word brought down.
abbrev bring_down : ℕ → ℕ → ℕ → ℕ
bring_down lo i rem = 2 * rem + lo / 2 ^ i % 2

-- One round, in the source's words: the Boolean test and the two words.
abbrev round_rem : ℕ → ℕ → ℕ → ℕ
round_rem lo i rem = bit_or (shl128 rem 1) (bit_and (shr lo i) 1)

module _ (den lo i k rem : ℕ) (hd : den < u128_mod) (hr : rem < den) (hi : i < 128) where
  round_rem_exact : round_rem lo i rem ≡ 2 * rem % u128_mod + lo / 2 ^ i % 2
  round_rem_exact =
      let shifted : shl128 rem 1 ≡ rem % 2 ^ 127 * 2 ^ 1 = omega arith in
      rw (shifted, mask-bit_and 1 (lo / 2 ^ i))
        (omega (arith, high-bit_or-low 1 (rem % 2 ^ 127) (lo / 2 ^ i % 2) (omega arith)))

  taken : den ≤ bring_down lo i rem → (shr rem 127 == 1 || leb den (round_rem lo i rem)) ≡ true
  taken h = ground (arith, round_rem_exact)

  skipped : bring_down lo i rem < den → (shr rem 127 == 1 || leb den (round_rem lo i rem)) ≡ false
  skipped h = ground (arith, round_rem_exact)

  quo_bit : bit_or (k * 2 ^ suc i) (shl128 1 i) ≡ k * 2 ^ suc i + 2 ^ i
  quo_bit =
      let small : 2 ^ i ≤ 2 ^ 127 =
        pow-le-pow_right (omega arith) {i = i} {j = 127} (omega arith) in
      let alone : shl128 1 i ≡ 2 ^ i = omega arith in
      rw alone (
        high-bit_or-low (suc i) k (2 ^ i)
          (omega (arith, pow-suc 2 i, one-le-pow i 2 (omega arith))))

  step_taken :
      den ≤ bring_down lo i rem
      → div_step den lo i (k * 2 ^ suc i) rem ≡ (k * 2 ^ suc i + 2 ^ i, bring_down lo i rem - den)
  unfolding div_step
  step_taken h =
      rw (taken h, quo_bit)
        (ap (λ (r : ℕ). (k * 2 ^ suc i + 2 ^ i, r)) (omega (arith, round_rem_exact)))

  step_skipped :
      bring_down lo i rem < den
      → div_step den lo i (k * 2 ^ suc i) rem ≡ (k * 2 ^ suc i, bring_down lo i rem)
  unfolding div_step
  step_skipped h =
      rw (skipped h) (ap (λ (r : ℕ). (k * 2 ^ suc i, r)) (omega (arith, round_rem_exact)))

-- `(q, r)` is the division of `value` by `den`.
abbrev DividesTo : ℕ → ℕ → ℕ × ℕ → Type 0
DividesTo den value d = (d.1 < den) × (d.0 * den + d.1 ≡ value)

regroup : (q p m : ℕ) → q / 2 * (p * 2) + (q % 2 * p + m) ≡ q * p + m
regroup q p m = omega (arith, ap (λ x. x * p) (div-add-mod' q 2))

bit_below : (b p m : ℕ) → b < 2 → m < p → b * p + m < p * 2
bit_below b p m h small =
    omega (arith, mul-le-mul {n₁ = b} {m₁ = p} {n₂ = 1} {m₂ = p} (omega arith) (omega arith))

bit_at : (lo i : ℕ) → lo % 2 ^ suc i ≡ lo / 2 ^ i % 2 * 2 ^ i + lo % 2 ^ i
bit_at lo i =
    let small : lo % 2 ^ i < 2 ^ i = mod-lt lo (one-le-pow i 2 (omega arith)) in
    let high : ℕ = lo / 2 ^ i / 2 in
    let low : ℕ = lo / 2 ^ i % 2 * 2 ^ i + lo % 2 ^ i in
    let whole : high * 2 ^ suc i + low ≡ lo =
      rw (pow-suc 2 i) (regroup (lo / 2 ^ i) (2 ^ i) (lo % 2 ^ i) ∙ div-add-mod' lo (2 ^ i)) in
    ap (λ x. x % 2 ^ suc i) (sym whole)
    ∙ mul-add-mod_self_right high (2 ^ suc i) low
    ∙ mod-eq_of_lt
        (rw (pow-suc 2 i) (bit_below (lo / 2 ^ i % 2) (2 ^ i) (lo % 2 ^ i) (omega arith) small))

-- The values before and after a round agree: without a subtraction, and with one.
skipped_value :
    (k p den rem b m : ℕ)
    → 2 * k * p * den + (2 * rem + b) * p + m ≡ k * (p * 2) * den + rem * (p * 2) + (b * p + m)
skipped_value k p den rem b m = omega arith

taken_value :
    (k p den rem b m r : ℕ)
    → r + den ≡ 2 * rem + b
    → (2 * k + 1) * p * den + r * p + m ≡ k * (p * 2) * den + rem * (p * 2) + (b * p + m)
taken_value k p den rem b m r e = omega (arith, ap (λ x. x * p) e)

-- The loop over one more bit, from what it does with the words the round leaves.
after_round :
    (den lo i k rem k' rem' : ℕ)
    → div_step den lo i (k * 2 ^ suc i) rem ≡ (k' * 2 ^ i, rem')
    → k' * 2 ^ i * den + rem' * 2 ^ i + lo % 2 ^ i
      ≡ k * (2 ^ i * 2) * den + rem * (2 ^ i * 2) + (lo / 2 ^ i % 2 * 2 ^ i + lo % 2 ^ i)
    → DividesTo den
        (k' * 2 ^ i * den + rem' * 2 ^ i + lo % 2 ^ i)
        (div_loop den lo i (k' * 2 ^ i) rem')
    → DividesTo den
        (k * 2 ^ suc i * den + rem * 2 ^ suc i + lo % 2 ^ suc i)
        (div_loop den lo (suc i) (k * 2 ^ suc i) rem)
unfolding div_loop
after_round den lo i k rem k' rem' step value d =
    subst
      (λ (s : ℕ × ℕ).
        DividesTo den (k * 2 ^ suc i * den + rem * 2 ^ suc i + lo % 2 ^ suc i)
          (div_loop den lo i s.0 s.1))
      (sym step) (d.0, d.1 ∙ value ∙ rw (bit_at lo i, pow-suc 2 i) refl)

-- The long division keeps the value: quotient times divisor plus remainder.
loop_value :
    (den lo : ℕ)
    → den < u128_mod
    → (i k rem : ℕ) → i ≤ 128
    → rem < den
    → DividesTo den (k * 2 ^ i * den + rem * 2 ^ i + lo % 2 ^ i) (div_loop den lo i (k * 2 ^ i) rem)
unfolding div_loop
loop_value den lo hd zero k rem hi hr = (hr, omega arith)
loop_value den lo hd (suc i) k rem hi hr = elim (Bool-cases (ltb (bring_down lo i rem) den)) [
  | inl e ↦
      let below = ltb→lt (bring_down lo i rem) den e in
      after_round den lo i k rem (2 * k) (bring_down lo i rem)
        (step_skipped den lo i k rem hd hr hi below
          ∙ ap (λ q. (q, bring_down lo i rem)) (omega (arith, ap (λ x. k * x) (pow-suc 2 i))))
        (skipped_value k (2 ^ i) den rem (lo / 2 ^ i % 2) (lo % 2 ^ i))
        (loop_value den lo hd i (2 * k) (bring_down lo i rem) (omega arith) below)
  | inr e ↦
      let above = ltb_false→le (bring_down lo i rem) den e in
      after_round den lo i k rem (2 * k + 1) (bring_down lo i rem - den)
        (step_taken den lo i k rem hd hr hi above
          ∙ ap (λ q. (q, bring_down lo i rem - den)) (omega (arith, ap (λ x. k * x) (pow-suc 2 i))))
        (taken_value k (2 ^ i) den rem (lo / 2 ^ i % 2) (lo % 2 ^ i) (bring_down lo i rem - den)
          (omega arith))
        (loop_value den lo hd i (2 * k + 1) (bring_down lo i rem - den) (omega arith) (omega arith))
]

-- Quotient and remainder are determined by the value.
unique :
    (den value : ℕ) (d : ℕ × ℕ) → 0 < den → DividesTo den value d → d ≡ (value / den, value % den)
unique den value d positive (small, e) =
    let quotient : d.0 ≡ value / den = sym (
      ap (λ x. x / den) (sym e)
      ∙ mul-add-div_right positive d.0 d.1
      ∙ omega (arith, div-eq_of_lt small)) in
    let remainder : d.1 ≡ value % den =
      sym (ap (λ x. x % den) (sym e) ∙ mul-add-mod_self_right d.0 den d.1 ∙ mod-eq_of_lt small) in
    ap₂ (λ (q r : ℕ). (q, r)) quotient remainder

module _ (hi lo den : ℕ) (hl : lo < u128_mod) (positive : 0 < den) (hd : den < u128_mod) where
  long_exact :
      hi < den → div_loop den lo 128 0 hi ≡ ((hi * u128_mod + lo) / den, (hi * u128_mod + lo) % den)
  long_exact h =
      unique den (hi * u128_mod + lo) (div_loop den lo 128 0 hi) positive
        (let d = loop_value den lo hd 128 0 hi (omega arith) h in (d.0, d.1 ∙ omega arith))

  -- The division of two words gives quotient and remainder when the quotient fits in a word.
  pub div_256_rem_exact :
      hi < den
      → div_256_rem hi lo den ≡ some ((hi * u128_mod + lo) / den, (hi * u128_mod + lo) % den)
  unfolding div_256_rem
  div_256_rem_exact h = elim (Bool-cases (hi == 0)) [
    | inl e ↦
        let none_high : hi ≡ 0 = (==_iff hi 0).0 e in
        let zero_high : lo ≡ 0 + lo = omega arith in
        rw (ne→==_false den 0 (omega arith), none_high)
          (ap (λ (n : ℕ). some (n / den, n % den)) zero_high)
    | inr e ↦
        rw (ne→==_false den 0 (omega arith), e, lt→leb_false den hi h) (ap some (long_exact h))
  ]

  pub div_256_rem-none : den ≤ hi → div_256_rem hi lo den ≡ none
  unfolding div_256_rem
  div_256_rem-none h =
      rw (ne→==_false den 0 (omega arith), ne→==_false hi 0 (omega arith), le→leb den hi h) refl

  -- When the high word is not below the divisor, the quotient has more than 128 bits.
  pub quotient_large : den ≤ hi → u128_mod ≤ (hi * u128_mod + lo) / den
  quotient_large h = (le-div_iff_mul-le positive).1 (omega arith)
