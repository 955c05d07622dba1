-- ===== src/Memo/Field.antt =====
-- The 512-byte memo field: slices, tags and zero padding.
use zec_multisig.Base.{
  ℕ, zero, suc, ◌+◌, ◌-◌, ◌≤◌, ◌<◌, ◌≡◌, refl, sym, ap, ◌∙◌, Bool, true, false, not, [], ◌∷◌, ◌++◌,
  arith, ◌==◌, length, take, drop, any, Bytes, zeros, bytes_eq, bytes_eq_iff, take-append-drop,
  length-drop, length-take, drop-drop, IsBytes, All-take, All-drop,
}

-- `memo[a..b]`; each use in the source stands behind a test of the length.
unfoldable pub slice : ℕ → ℕ → Bytes → Bytes
slice a b memo = take (b - a) (drop a memo)

-- `memo[i]`; each use in the source stands behind a test of the length.
unfoldable pub byte_at : Bytes → ℕ → ℕ
byte_at [] i = 0
byte_at (x ∷ xs) zero = x
byte_at (x ∷ xs) (suc i) = byte_at xs i

abbrev pub memo_field : ℕ
memo_field = 512

-- A `[0u8; 512]` with these bytes written at its start.
abbrev pub field_of : Bytes → Bytes
field_of body = body ++ zeros (memo_field - length body)

-- `memo[n..].iter().any(|b| *b != 0)`.
unfoldable pub has_trailing : ℕ → Bytes → Bool
has_trailing n memo = any (λ b. not (b == 0)) (drop n memo)

abbrev pub memo_tag : Bytes
memo_tag = b'Z' ∷ b'E' ∷ b'C' ∷ []

abbrev pub anchor_tag : Bytes
anchor_tag = b'Z' ∷ b'E' ∷ b'A' ∷ []

abbrev pub publish_tag : Bytes
publish_tag = b'Z' ∷ b'E' ∷ b'P' ∷ []

abbrev pub forced_tag : Bytes
forced_tag = b'Z' ∷ b'E' ∷ b'F' ∷ []

abbrev pub app_payment_tag : Bytes
app_payment_tag = b'Z' ∷ b'E' ∷ b'B' ∷ []

abbrev pub memo_version : ℕ
memo_version = 1

abbrev pub memo_len : ℕ
memo_len = 3 + 1 + 32

-- `&memo[..3] == TAG`.
unfoldable pub has_tag : Bytes → Bytes → Bool
unfolding slice
has_tag tag memo = bytes_eq (slice 0 3 memo) tag

pub any-zeros : (n : ℕ) → any (λ b. not (b == 0)) (zeros n) ≡ false
any-zeros zero = refl
any-zeros (suc n) = any-zeros n

-- Padding that the readers accept is zero padding.
pub zeros_of_any : (xs : Bytes) → any (λ b. not (b == 0)) xs ≡ false → xs ≡ zeros (length xs)
zeros_of_any [] h = refl
zeros_of_any (zero ∷ xs) h = ap (◌∷◌ 0) (zeros_of_any xs h)
zeros_of_any (suc x ∷ xs) h = ground arith

-- The byte at a place below the length, and what follows it.
pub drop-byte_at : (i : ℕ) (xs : Bytes) → i < length xs → drop i xs ≡ byte_at xs i ∷ drop (suc i) xs
unfolding byte_at
drop-byte_at i [] h = absurd (omega arith)
drop-byte_at zero (x ∷ xs) h = refl
drop-byte_at (suc i) (x ∷ xs) h = drop-byte_at i xs (omega arith)

-- A memo that is long enough and has a tag begins with it.
pub tag_split : (tag memo : Bytes) → has_tag tag memo ≡ true → memo ≡ tag ++ drop 3 memo
unfolding has_tag
tag_split tag memo h =
    sym (take-append-drop 3 memo) ∙ ap (λ t. t ++ drop 3 memo) ((bytes_eq_iff _ tag).0 h)

-- A memo with a tag and one more byte, taken apart.
pub tag_split_one :
    (tag memo : Bytes)
    → has_tag tag memo ≡ true
    → 3 < length memo
    → memo ≡ tag ++ byte_at memo 3 ∷ drop 4 memo
tag_split_one tag memo h l = tag_split tag memo h ∙ ap (◌++◌ tag) (drop-byte_at 3 memo l)

pub length-slice :
    (a b : ℕ) (memo : Bytes) → a ≤ b → b ≤ length memo → length (slice a b memo) ≡ b - a
unfolding slice
length-slice a b memo h k = omega (arith, length-take (b - a) (drop a memo), length-drop a memo)

-- Two adjacent cuts are one.
pub slice_append : (a b : ℕ) (memo : Bytes) → a ≤ b → drop a memo ≡ slice a b memo ++ drop b memo
unfolding slice
slice_append a b memo h =
    let same : a + (b - a) ≡ b = omega arith in
    sym (take-append-drop (b - a) (drop a memo))
    ∙ ap (◌++◌ (take (b - a) (drop a memo))) (drop-drop a (b - a) memo ∙ ap (λ n. drop n memo) same)

-- What a reader that found no trailing byte may conclude.
pub drop_padding :
    (n : ℕ) (memo : Bytes) → has_trailing n memo ≡ false → drop n memo ≡ zeros (length memo - n)
unfolding has_trailing
drop_padding n memo h = zeros_of_any (drop n memo) h ∙ ap zeros (length-drop n memo)

pub slice-IsBytes : (a b : ℕ) (memo : Bytes) → IsBytes memo → IsBytes (slice a b memo)
unfolding slice
slice-IsBytes a b memo h = All-take _ (b - a) (drop a memo) (All-drop _ a memo h)
