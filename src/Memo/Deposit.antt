-- ===== src/Memo/Deposit.antt =====
-- The deposit memo: `encode` and `decode`, in the binary form and in the typed one.
pub mod RoundTrip
pub mod Exclusive
use zec_multisig.Base.{
  ℕ, zero, suc, ◌+◌, Bool, true, false, not, ◌&&◌, ◌||◌, Option, none, some, List, [], ◌∷◌, ◌++◌,
  ltb, leb, ◌==◌, if◌then◌else◌, length, take, drop, Bytes, zeros, bytes_eq, Result, ok, err, any,
}
use zec_multisig.Memo.Field.{
  slice, byte_at, field_of, has_trailing, memo_tag, memo_version, memo_len, has_tag,
}
use zec_multisig.Memo.Text.{
  MemoError, not_a_deposit, unknown_version, malformed, trailing_bytes, is_utf8, decode_text,
}

abbrev pub deposit_body : Bytes → Bytes
deposit_body account = memo_tag ++ memo_version ∷ account

unfoldable pub encode : Bytes → Bytes
encode account = field_of (deposit_body account)

-- `memo.iter().position(|b| *b == 0).unwrap_or(memo.len())`.
unfoldable pub text_end : Bytes → ℕ
text_end [] = 0
text_end (b ∷ bs) = if b == 0 then 0 else suc (text_end bs)

abbrev pub text_mark : Bytes
text_mark = b'Z' ∷ b'E' ∷ b'C' ∷ b'1' ∷ b':' ∷ []

unfoldable pub is_text_form : Bytes → Bool
is_text_form memo = leb 5 (length memo) && bytes_eq (take 5 memo) text_mark

unfoldable pub decode_text_form : Bytes → Option (Result MemoError Bytes)
decode_text_form memo =
    let end = text_end memo in
    if not (is_utf8 (take end memo))
    then some (err malformed)
    else if has_trailing end memo
    then some (err trailing_bytes)
    else decode_text (take end memo)

unfoldable pub decode_binary_form : Bytes → Result MemoError Bytes
decode_binary_form memo =
    if ltb (length memo) memo_len || not (has_tag memo_tag memo)
    then err not_a_deposit
    else if not (byte_at memo 3 == memo_version)
    then err (unknown_version (byte_at memo 3))
    else if has_trailing memo_len memo
    then err trailing_bytes
    else ok (slice 4 memo_len memo)

-- `none` is a panic of `decode_text`.
unfoldable pub decode : Bytes → Option (Result MemoError Bytes)
decode memo = if is_text_form memo then decode_text_form memo else some (decode_binary_form memo)

abbrev pub topup_account : Bytes
topup_account = zeros 32

unfoldable pub is_topup : Bytes → Option Bool
is_topup memo = elim (decode memo) [
  | none ↦ none
  | some (err e) ↦ some false
  | some (ok a) ↦ some (bytes_eq a topup_account)
]
