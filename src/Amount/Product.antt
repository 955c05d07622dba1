-- ===== src/Amount/Product.antt =====
-- `mul_full` of src/amount.rs is the exact 256-bit product.
use Prim.Native.Nat.{bit_and, bit_or}
use mathlib.Core.Path.{ap₂}
use native.Mathlib.Nat.{mul-le-mul}
use zec_multisig.Base.{ℕ, ◌+◌, ◌-◌, ◌*◌, ◌/◌, ◌%◌, ◌^◌, ◌≤◌, ◌<◌, ◌≡◌, ◌∙◌, arith}
use zec_multisig.Base.Bits.{mask-bit_and, low-bit_or-high}
use zec_multisig.Amount.Wide.{u128_mod, mask, add128, mul128, shl128, shr, mul_full}

-- A product of two 64-bit halves fits in a word.
half_product : (a b : ℕ) → a < 2 ^ 64 → b < 2 ^ 64 → a * b ≤ (2 ^ 64 - 1) * (2 ^ 64 - 1)
half_product a b h k = mul-le-mul {n₂ = 2 ^ 64 - 1} {m₂ = 2 ^ 64 - 1} (omega arith) (omega arith)

mul128_exact : (a b : ℕ) → a < 2 ^ 64 → b < 2 ^ 64 → mul128 a b ≡ a * b
mul128_exact a b h k = omega (arith, half_product a b h k)

abbrev mid_of : ℕ → ℕ → ℕ → ℕ
mid_of ll lh hl = add128 (add128 (shr ll 64) (bit_and lh mask)) (bit_and hl mask)

-- The two words that `mul_full` makes of its four partial products.
abbrev words_of : ℕ → ℕ → ℕ → ℕ → ℕ × ℕ
words_of ll lh hl hh = (
  add128 (add128 (add128 hh (shr lh 64)) (shr hl 64)) (shr (mid_of ll lh hl) 64),
  bit_or (bit_and ll mask) (shl128 (mid_of ll lh hl) 64),
)

-- The carries of schoolbook multiplication, over the four partial products.
module _ (ll lh hl hh : ℕ) (bll : ll ≤ (2 ^ 64 - 1) * (2 ^ 64 - 1))
    (blh : lh ≤ (2 ^ 64 - 1) * (2 ^ 64 - 1)) (bhl : hl ≤ (2 ^ 64 - 1) * (2 ^ 64 - 1))
    (bhh : hh ≤ (2 ^ 64 - 1) * (2 ^ 64 - 1)) where
  mid_exact : mid_of ll lh hl ≡ ll / 2 ^ 64 + lh % 2 ^ 64 + hl % 2 ^ 64
  mid_exact = omega (arith, mask-bit_and 64 lh, mask-bit_and 64 hl)

  low_exact : (words_of ll lh hl hh).1 ≡ ll % 2 ^ 64 + mid_of ll lh hl % 2 ^ 64 * 2 ^ 64
  low_exact =
      let shifted : shl128 (mid_of ll lh hl) 64 ≡ mid_of ll lh hl % 2 ^ 64 * 2 ^ 64 =
        omega (arith, mid_exact) in
      rw (shifted, mask-bit_and 64 ll)
        (omega (arith, low-bit_or-high 64 (mid_of ll lh hl % 2 ^ 64) (ll % 2 ^ 64) (omega arith)))

  high_exact : (words_of ll lh hl hh).0 ≡ hh + lh / 2 ^ 64 + hl / 2 ^ 64 + mid_of ll lh hl / 2 ^ 64
  high_exact = omega (arith, mid_exact)

  words_exact :
      (words_of ll lh hl hh).0 * 2 ^ 128 + (words_of ll lh hl hh).1
      ≡ hh * 2 ^ 128 + (lh + hl) * 2 ^ 64 + ll
  words_exact = omega (arith, low_exact, high_exact, mid_exact)

  words_low_bound : (words_of ll lh hl hh).1 < u128_mod
  words_low_bound = omega (arith, low_exact)

halves_product :
    (al ah bl bh : ℕ)
    → ah * bh * 2 ^ 128 + (al * bh + ah * bl) * 2 ^ 64 + al * bl
      ≡ (ah * 2 ^ 64 + al) * (bh * 2 ^ 64 + bl)
halves_product al ah bl bh = omega arith

module _ (al ah bl bh : ℕ) (hal : al < 2 ^ 64) (hah : ah < 2 ^ 64) (hbl : bl < 2 ^ 64)
    (hbh : bh < 2 ^ 64) where
  abbrev halves_words : ℕ × ℕ
  halves_words = words_of (mul128 al bl) (mul128 al bh) (mul128 ah bl) (mul128 ah bh)

  halves_exact : halves_words.0 * 2 ^ 128 + halves_words.1 ≡ (ah * 2 ^ 64 + al) * (bh * 2 ^ 64 + bl)
  halves_exact =
      rw
        (
          mul128_exact al bl hal hbl,
          mul128_exact al bh hal hbh,
          mul128_exact ah bl hah hbl,
          mul128_exact ah bh hah hbh,
        )
        (words_exact (al * bl) (al * bh) (ah * bl) (ah * bh) (half_product al bl hal hbl)
            (half_product al bh hal hbh) (half_product ah bl hah hbl) (half_product ah bh hah hbh)
          ∙ halves_product al ah bl bh)

  halves_low_bound : halves_words.1 < u128_mod
  halves_low_bound =
      rw (mul128_exact al bl hal hbl, mul128_exact al bh hal hbh, mul128_exact ah bl hah hbl)
        (words_low_bound (al * bl) (al * bh) (ah * bl) (ah * bh) (half_product al bl hal hbl)
          (half_product al bh hal hbh) (half_product ah bl hah hbl) (half_product ah bh hah hbh))

split64 : (a : ℕ) → a / 2 ^ 64 * 2 ^ 64 + a % 2 ^ 64 ≡ a
split64 a = omega arith

module _ (a b : ℕ) (ha : a < u128_mod) (hb : b < u128_mod) where
  -- The two words are the 256-bit product, whatever the factors.
  pub mul_full_exact : (mul_full a b).0 * u128_mod + (mul_full a b).1 ≡ a * b
  unfolding mul_full
  mul_full_exact =
      rw (mask-bit_and 64 a, mask-bit_and 64 b)
        (halves_exact (a % 2 ^ 64) (a / 2 ^ 64) (b % 2 ^ 64) (b / 2 ^ 64) (omega arith)
            (omega arith) (omega arith) (omega arith)
          ∙ ap₂ (λ (x y : ℕ). x * y) (split64 a) (split64 b))

  pub mul_full_bound : (mul_full a b).1 < u128_mod
  unfolding mul_full
  mul_full_bound =
      rw (mask-bit_and 64 a, mask-bit_and 64 b)
        (halves_low_bound (a % 2 ^ 64) (a / 2 ^ 64) (b % 2 ^ 64) (b / 2 ^ 64) (omega arith)
          (omega arith) (omega arith) (omega arith))
