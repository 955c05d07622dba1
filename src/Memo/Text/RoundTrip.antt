-- ===== src/Memo/Text/RoundTrip.antt =====
-- The typed form reads back: texts of plain printable bytes are left alone by `trim`, and the
-- hexadecimal digits of an account give the account.
use zec_multisig.Base.{
  ℕ, zero, suc, ◌*◌, ◌/◌, ◌%◌, ◌≤◌, ◌<◌, ◌≡◌, refl, ap, true, false, some, [], ◌∷◌, arith, ◌==◌,
  length, Bytes, bytes_eq, ok, All, All-reverse, lt→ltb, IsBytes,
}
use mathlib.Core.List.{reverse, reverse-reverse}
use zec_multisig.Memo.Field.{byte_at}
use zec_multisig.Memo.Text.{
  char_width, is_utf8_within, is_utf8, space_front, space_back, strip, trim, hex_digit, hex_byte,
  is_boundary, hex_pairs, decode_text, hex_char, hex_text, encode_text,
}

-- A printable ASCII byte that is no space.
abbrev pub IsPlain : ℕ → Type 0
IsPlain b = (33 ≤ b) × (b < 127)

plain_front : (b : ℕ) (bs : Bytes) → IsPlain b → space_front (b ∷ bs) ≡ 0
unfolding space_front
plain_front b bs h = ground arith

plain_back : (b : ℕ) (bs : Bytes) → IsPlain b → space_back (b ∷ bs) ≡ 0
unfolding space_back byte_at
plain_back b bs h = ground arith

strip_plain :
    (space : Bytes → ℕ) (fuel : ℕ) (bs : Bytes)
    → ((b : ℕ) (cs : Bytes) → IsPlain b → space (b ∷ cs) ≡ 0)
    → All IsPlain bs
    → strip space fuel bs ≡ bs
unfolding strip
strip_plain space fuel [] h p = refl
strip_plain space zero (b ∷ bs) h p = refl
strip_plain space (suc fuel) (b ∷ bs) h p = rw (h b bs p.0, strip)

pub trim_plain : (bs : Bytes) → All IsPlain bs → trim bs ≡ bs
unfolding trim
trim_plain bs p = rw (strip_plain space_front (length bs) bs plain_front p) (
    rw (strip_plain space_back (length bs) (reverse bs) plain_back (All-reverse _ bs p))
      (reverse-reverse bs))

char_width_plain : (b : ℕ) (cs : Bytes) → IsPlain b → char_width (b ∷ cs) ≡ 1
unfolding char_width byte_at
char_width_plain b cs h = rw (lt→ltb b 128 (omega arith))

is_utf8_within_plain : (cs : Bytes) → All IsPlain cs → is_utf8_within (length cs) cs ≡ true
unfolding is_utf8_within
is_utf8_within_plain [] h = refl
is_utf8_within_plain (c ∷ cs) h =
    rw (char_width_plain c cs h.0, is_utf8_within) (is_utf8_within_plain cs h.1)

pub is_utf8_plain : (bs : Bytes) → All IsPlain bs → is_utf8 bs ≡ true
unfolding is_utf8
is_utf8_plain bs p = is_utf8_within_plain bs p

pub hex_char-IsPlain : (n : ℕ) → n < 16 → IsPlain (hex_char n)
unfolding hex_char
hex_char-IsPlain n h = ground arith

hex_digit-hex_char : (n : ℕ) → n < 16 → hex_digit (hex_char n) ≡ some n
unfolding hex_digit hex_char
hex_digit-hex_char n h = ground arith

hex_char-ne-plus : (n : ℕ) → n < 16 → (hex_char n == b'+') ≡ false
unfolding hex_char
hex_char-ne-plus n h = ground arith

pub hex_byte-hex_char :
    (b : ℕ) → b < 256 → hex_byte (hex_char (b / 16)) (hex_char (b % 16)) ≡ some b
unfolding hex_byte
hex_byte-hex_char b h =
    rw
      (
        hex_char-ne-plus (b / 16) (omega arith),
        hex_digit-hex_char (b / 16) (omega arith),
        hex_digit-hex_char (b % 16) (omega arith),
      )
      (ap some (omega arith))

pub hex_text-IsPlain : (a : Bytes) → IsBytes a → All IsPlain (hex_text a)
unfolding hex_text
hex_text-IsPlain [] h = tt
hex_text-IsPlain (b ∷ bs) h = (
  hex_char-IsPlain (b / 16) (omega arith),
  (hex_char-IsPlain (b % 16) (omega arith), hex_text-IsPlain bs h.1),
)

pub length-hex_text : (a : Bytes) → length (hex_text a) ≡ 2 * length a
unfolding hex_text
length-hex_text [] = omega arith
length-hex_text (b ∷ bs) = omega (arith, length-hex_text bs)

pub is_boundary_plain : (bs : Bytes) → All IsPlain bs → is_boundary bs ≡ true
is_boundary_plain [] h = refl
is_boundary_plain (b ∷ bs) h = ground arith

hex_pairs-hex_text : (a : Bytes) → IsBytes a → hex_pairs (length a) (hex_text a) ≡ some (ok a)
unfolding hex_pairs hex_text
hex_pairs-hex_text [] h = refl
hex_pairs-hex_text (b ∷ bs) h =
    rw (is_boundary_plain (hex_text bs) (hex_text-IsPlain bs h.1), hex_pairs)
      (rw (hex_byte-hex_char b h.0, hex_pairs) (rw (hex_pairs-hex_text bs h.1)))

pub encode_text-IsPlain : (a : Bytes) → IsBytes a → All IsPlain (encode_text a)
unfolding encode_text
encode_text-IsPlain a h =
    (omega arith, (omega arith, (omega arith, (omega arith, (omega arith, hex_text-IsPlain a h)))))

-- A typed memo reads back as the account that it was written for.
pub decode_text-encode_text :
    (a : Bytes) → IsBytes a → length a ≡ 32 → decode_text (encode_text a) ≡ some (ok a)
unfolding decode_text bytes_eq
decode_text-encode_text a h l =
    let boundary = is_boundary_plain (b':' ∷ hex_text a) (omega arith, hex_text-IsPlain a h) in
    let size : length (hex_text a) ≡ 64 = omega (arith, length-hex_text a) in
    rw (trim_plain (encode_text a) (encode_text-IsPlain a h))
      (unfold encode_text in rw size (rw (← l) (hex_pairs-hex_text a h)))
