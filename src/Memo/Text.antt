-- ===== src/Memo/Text.antt =====
-- The typed form of a deposit memo, `ZEC1:` and 64 hexadecimal digits. A `str` is its UTF-8 bytes.
-- A reader's answer is `none` where the source panics: a slice of a `str` whose end falls inside a
-- character.
pub mod RoundTrip
pub mod Hazards
use zec_multisig.Base.{
  ℕ, zero, suc, ◌+◌, ◌-◌, ◌*◌, ◌/◌, ◌%◌, ◌≤◌, ◌<◌, ◌≡◌, refl, Bool, true, false, not, ◌&&◌, ◌||◌,
  Option, none, some, List, [], ◌∷◌, ◌++◌, arith, ltb, leb, ◌==◌, if◌then◌else◌, ◌>>=◌, length,
  take, drop, Bytes, bytes_eq, Result, ok, err,
}
use mathlib.Core.List.{reverse}
use zec_multisig.Memo.Field.{byte_at, memo_tag, memo_version}

pub data MemoError : Type 0 where
  not_a_deposit : MemoError
  unknown_version : ℕ → MemoError
  malformed : MemoError
  trailing_bytes : MemoError

-- A byte that continues a character.
abbrev pub is_cont : ℕ → Bool
is_cont b = leb 128 b && ltb b 192

abbrev between : ℕ → ℕ → ℕ → Bool
between lo hi b = leb lo b && leb b hi

-- `from_utf8`: the bytes of the well-formed character that the text begins with, 0 if there is none.
unfoldable pub char_width : Bytes → ℕ
unfolding byte_at
char_width bs =
    let a = byte_at bs 0 in
    let b = byte_at bs 1 in
    let c = byte_at bs 2 in
    let d = byte_at bs 3 in
    if ltb a 0x80
    then 1
    else if between 0xC2 0xDF a && is_cont b
    then 2
    else if a == 0xE0 && between 0xA0 0xBF b && is_cont c
    then 3
    else if (between 0xE1 0xEC a || between 0xEE 0xEF a) && is_cont b && is_cont c
    then 3
    else if a == 0xED && between 0x80 0x9F b && is_cont c
    then 3
    else if a == 0xF0 && between 0x90 0xBF b && is_cont c && is_cont d
    then 4
    else if between 0xF1 0xF3 a && is_cont b && is_cont c && is_cont d
    then 4
    else if a == 0xF4 && between 0x80 0x8F b && is_cont c && is_cont d
    then 4
    else 0

-- A character takes a byte at least, so the text's length is fuel enough.
unfoldable pub is_utf8_within : ℕ → Bytes → Bool
is_utf8_within fuel [] = true
is_utf8_within zero (b ∷ bs) = false
is_utf8_within (suc fuel) (b ∷ bs) = elim (char_width (b ∷ bs)) [
  | zero ↦ false
  | suc w ↦ is_utf8_within fuel (drop w bs)
]

unfoldable pub is_utf8 : Bytes → Bool
unfolding is_utf8_within char_width
is_utf8 bs = is_utf8_within (length bs) bs

abbrev is_space1 : ℕ → Bool
is_space1 a = between 9 13 a || a == 32

abbrev is_space2 : ℕ → ℕ → Bool
is_space2 a b = a == 0xC2 && (b == 0x85 || b == 0xA0)

abbrev is_space3 : ℕ → ℕ → ℕ → Bool
is_space3 a b c =
    a == 0xE1 && b == 0x9A && c == 0x80
    || a == 0xE2 && b == 0x80 && (between 0x80 0x8A c || c == 0xA8 || c == 0xA9 || c == 0xAF)
    || a == 0xE2 && b == 0x81 && c == 0x9F
    || a == 0xE3 && b == 0x80 && c == 0x80

-- The bytes of the white space that the text begins with, 0 if there is none.
unfoldable pub space_front : Bytes → ℕ
unfolding byte_at
space_front bs =
    if is_space1 (byte_at bs 0)
    then 1
    else if is_space2 (byte_at bs 0) (byte_at bs 1)
    then 2
    else if is_space3 (byte_at bs 0) (byte_at bs 1) (byte_at bs 2)
    then 3
    else 0

-- The same at the end, on the reversed text.
unfoldable pub space_back : Bytes → ℕ
unfolding byte_at
space_back bs =
    if is_space1 (byte_at bs 0)
    then 1
    else if is_space2 (byte_at bs 1) (byte_at bs 0)
    then 2
    else if is_space3 (byte_at bs 2) (byte_at bs 1) (byte_at bs 0)
    then 3
    else 0

unfoldable pub strip : (Bytes → ℕ) → ℕ → Bytes → Bytes
strip space fuel [] = []
strip space zero (b ∷ bs) = b ∷ bs
strip space (suc fuel) (b ∷ bs) = elim (space (b ∷ bs)) [
  | zero ↦ b ∷ bs
  | suc w ↦ strip space fuel (drop w bs)
]

-- `str::trim`.
unfoldable pub trim : Bytes → Bytes
unfolding strip space_front space_back
trim bs =
    let front = strip space_front (length bs) bs in
    reverse (strip space_back (length front) (reverse front))

-- `char::to_digit(16)` on a byte.
unfoldable pub hex_digit : ℕ → Option ℕ
hex_digit b =
    if between b'0' b'9' b
    then some (b - b'0')
    else if between b'a' b'f' b
    then some (b - b'a' + 10)
    else if between b'A' b'F' b
    then some (b - b'A' + 10)
    else none

-- `u8::from_str_radix(text, 16)` on a text of two bytes: a leading plus sign is read as a sign.
unfoldable pub hex_byte : ℕ → ℕ → Option ℕ
unfolding hex_digit
hex_byte a b =
    if a == b'+' then hex_digit b else do hi ← hex_digit a; lo ← hex_digit b; some (16 * hi + lo)

-- A text may be cut in front of what is left of it.
abbrev pub is_boundary : Bytes → Bool
is_boundary [] = true
is_boundary (b ∷ bs) = not (is_cont b)

abbrev pub push_byte : ℕ → Option (Result MemoError Bytes) → Option (Result MemoError Bytes)
push_byte v none = none
push_byte v (some (err e)) = some (err e)
push_byte v (some (ok out)) = some (ok (v ∷ out))

-- The loop over `&hex[i * 2..i * 2 + 2]`.
unfoldable pub hex_pairs : ℕ → Bytes → Option (Result MemoError Bytes)
hex_pairs zero bs = some (ok [])
hex_pairs (suc n) [] = none
hex_pairs (suc n) (a ∷ []) = none
hex_pairs (suc n) (a ∷ b ∷ bs) = elim (is_boundary bs) [
  | false ↦ none
  | true ↦ elim (hex_byte a b) [
    | none ↦ some (err malformed)
    | some v ↦ push_byte v (hex_pairs n bs)
  ]
]

-- `decode_text` behind the version digit.
unfoldable pub decode_hex : Bytes → Option (Result MemoError Bytes)
decode_hex [] = some (err malformed)
decode_hex (colon ∷ hex) =
    if not (colon == b':')
    then some (err malformed)
    else if not (length hex == 64)
    then some (err malformed)
    else hex_pairs 32 hex

unfoldable pub decode_version : Bytes → Option (Result MemoError Bytes)
decode_version [] = some (err not_a_deposit)
decode_version (v ∷ hex) =
    let version = (v + 256 - b'0') % 256 in
    if not (is_boundary hex)
    then some (err not_a_deposit)
    else if not (between b'0' b'9' v)
    then some (err not_a_deposit)
    else if not (version == memo_version)
    then some (err (unknown_version version))
    else decode_hex hex

unfoldable pub decode_text : Bytes → Option (Result MemoError Bytes)
unfolding decode_version decode_hex
decode_text memo =
    let m = trim memo in
    if bytes_eq (take 3 m) memo_tag then decode_version (drop 3 m) else some (err not_a_deposit)

-- A digit of `{:02x}`.
unfoldable pub hex_char : ℕ → ℕ
hex_char n = if ltb n 10 then b'0' + n else b'a' + (n - 10)

unfoldable pub hex_text : Bytes → Bytes
unfolding hex_char
hex_text [] = []
hex_text (b ∷ bs) = hex_char (b / 16) ∷ hex_char (b % 16) ∷ hex_text bs

unfoldable pub encode_text : Bytes → Bytes
encode_text account = memo_tag ++ (b'0' + memo_version) ∷ b':' ∷ hex_text account
