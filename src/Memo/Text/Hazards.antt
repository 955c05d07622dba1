-- ===== src/Memo/Text/Hazards.antt =====
-- Two ways in which the reader of typed memos is not the strict reader that it is documented to be:
-- it panics on a text that is cut inside a character, and it takes a plus sign for a digit.
use zec_multisig.Base.{
  ℕ, zero, suc, ◌+◌, ◌≡◌, refl, ap, ◌∙◌, true, false, none, [], ◌∷◌, ◌++◌, arith, length, Bytes,
  bytes_eq, All, IsBytes, length-append, ◌*◌, ◌/◌, ◌-◌,
}
use zec_multisig.Memo.Text.RoundTrip.{
  IsPlain, trim_plain, hex_byte-hex_char, is_boundary_plain, hex_char-IsPlain, length-hex_text,
}
use zec_multisig.Memo.Text.{
  is_cont, trim, hex_digit, hex_byte, is_boundary, hex_pairs, decode_text, hex_text, hex_char,
}

-- `ZEC1:` and what follows.
abbrev pub typed : Bytes → Bytes
typed hex = b'Z' ∷ b'E' ∷ b'C' ∷ b'1' ∷ b':' ∷ hex

-- The loop panics at a pair whose end falls inside a character, after any good pairs.
hex_pairs_panics :
    (good : Bytes) (n a b c : ℕ) (rest : Bytes)
    → IsBytes good
    → is_cont a ≡ false
    → is_cont c ≡ true
    → hex_pairs (length good + suc n) (hex_text good ++ a ∷ b ∷ c ∷ rest) ≡ none
unfolding hex_pairs hex_text
hex_pairs_panics [] n a b c rest h first cut =
    let one : 0 + suc n ≡ suc n = omega arith in rw one (rw (cut, hex_pairs))
hex_pairs_panics (x ∷ xs) n a b c rest h first cut =
    let more : suc (length xs) + suc n ≡ suc (length xs + suc n) = omega arith in
    let ih = hex_pairs_panics xs n a b c rest h.1 first cut in
    let boundary : is_boundary (hex_text xs ++ a ∷ b ∷ c ∷ rest) ≡ true = start xs h.1 in
    rw more (rw (boundary, hex_pairs) (rw (hex_byte-hex_char x h.0, hex_pairs) (rw ih)))
  where
    start : (ys : Bytes) → IsBytes ys → is_boundary (hex_text ys ++ a ∷ b ∷ c ∷ rest) ≡ true
    start [] k = rw first
    start (y ∷ ys) k =
        is_boundary_plain (hex_char (y / 16) ∷ []) (hex_char-IsPlain (y / 16) (omega arith), tt)

-- A typed memo of the right length, that `trim` leaves alone and in which some pair of places ends
-- inside a character, makes the reader panic: here `good` are the pairs before that one.
pub decode_text_panics :
    (good : Bytes) (a b c : ℕ) (rest : Bytes)
    → IsBytes good
    → is_cont a ≡ false
    → is_cont c ≡ true
    → 2 * length good + 3 + length rest ≡ 64
    → trim (typed (hex_text good ++ a ∷ b ∷ c ∷ rest)) ≡ typed (hex_text good ++ a ∷ b ∷ c ∷ rest)
    → decode_text (typed (hex_text good ++ a ∷ b ∷ c ∷ rest)) ≡ none
unfolding decode_text bytes_eq
decode_text_panics good a b c rest h first cut l t =
    let size : length (hex_text good ++ a ∷ b ∷ c ∷ rest) ≡ 64 =
      omega (arith, length-append (hex_text good) (a ∷ b ∷ c ∷ rest), length-hex_text good) in
    let pairs : 32 ≡ length good + suc (31 - length good) = omega arith in
    rw t (
      rw size (
        ap (λ n. hex_pairs n (hex_text good ++ a ∷ b ∷ c ∷ rest)) pairs
        ∙ hex_pairs_panics good (31 - length good) a b c rest h first cut))

hex_pairs_plus :
    (n d : ℕ) (rest : Bytes) → hex_pairs n (b'+' ∷ d ∷ rest) ≡ hex_pairs n (b'0' ∷ d ∷ rest)
unfolding hex_pairs hex_byte hex_digit
hex_pairs_plus zero d rest = refl
hex_pairs_plus (suc n) d rest = ground arith

-- A plus sign in the first place of the digits reads as the digit zero, so the typed form has more
-- spellings of an account than letter case gives.
pub decode_text_plus :
    (d : ℕ) (rest : Bytes)
    → IsPlain d
    → All IsPlain rest
    → decode_text (typed (b'+' ∷ d ∷ rest)) ≡ decode_text (typed (b'0' ∷ d ∷ rest))
unfolding decode_text bytes_eq
decode_text_plus d rest p h =
    let plain : (x : ℕ) → IsPlain x → All IsPlain (typed (x ∷ d ∷ rest)) = λ x q.
      (omega arith, (omega arith, (omega arith, (omega arith, (omega arith, (q, (p, h))))))) in
    rw
      (
        trim_plain (typed (b'+' ∷ d ∷ rest)) (plain b'+' (omega arith)),
        trim_plain (typed (b'0' ∷ d ∷ rest)) (plain b'0' (omega arith)),
      )
      (rw (hex_pairs_plus 32 d rest))
