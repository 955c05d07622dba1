-- ===== src/Memo/Deposit/RoundTrip.antt =====
-- Deposit memos read back, and what the reader accepts.
use zec_multisig.Base.{
  ℕ, zero, suc, ◌-◌, ◌≤◌, ◌≡◌, refl, ap, ◌∙◌, true, false, some, [], ◌∷◌, ◌++◌, arith, length,
  length-append, take, drop, Bytes, zeros, bytes_eq, bytes_eq_iff, ok, All, IsBytes, ◌⊎◌, inl, inr,
  le→ltb_false, take-append_of, drop-append_of, Bool-cases,
}
use zec_multisig.Memo.Field.{
  slice, byte_at, memo_field, has_trailing, memo_tag, memo_len, has_tag, any-zeros, tag_split_one,
  slice_append, drop_padding,
}
use zec_multisig.Memo.Text.{decode_text, encode_text}
use zec_multisig.Memo.Text.RoundTrip.{
  IsPlain, is_utf8_plain, encode_text-IsPlain, decode_text-encode_text,
}
use zec_multisig.Memo.Deposit.{
  deposit_body, encode, text_end, text_mark, is_text_form, decode_text_form, decode_binary_form,
  decode,
}

decode_binary_padded :
    (a : Bytes) (n : ℕ) → length a ≡ 32 → decode_binary_form (deposit_body a ++ zeros n) ≡ ok a
unfolding decode_binary_form slice byte_at has_trailing has_tag bytes_eq
decode_binary_padded a n h =
    let size : ℕ = suc (suc (suc (suc (length (a ++ zeros n))))) in
    let long = le→ltb_false size memo_len (omega (arith, length-append a (zeros n))) in
    let kept = take-append_of 32 a (zeros n) h in
    let rest = drop-append_of 32 a (zeros n) h in
    let clean : has_trailing 32 (a ++ zeros n) ≡ false = rw rest (any-zeros n) in
    simp (long, kept, clean)

not_text_form : (a : Bytes) (n : ℕ) → is_text_form (deposit_body a ++ zeros n) ≡ false
unfolding is_text_form bytes_eq
not_text_form a n = ground arith

-- The memo that is built for an account reads back as that account.
pub decode-encode : (a : Bytes) → length a ≡ 32 → decode (encode a) ≡ some (ok a)
unfolding decode encode
decode-encode a h =
    rw (not_text_form a (memo_field - length (deposit_body a)))
      (ap some (decode_binary_padded a (memo_field - length (deposit_body a)) h))

text_end_plain : (bs : Bytes) (n : ℕ) → All IsPlain bs → text_end (bs ++ zeros n) ≡ length bs
unfolding text_end
text_end_plain [] zero h = refl
text_end_plain [] (suc n) h = refl
text_end_plain (b ∷ bs) n h = ground (arith, text_end_plain bs n h.1)

-- The memo that a person types for an account, padded with zeros or not, reads back as that account.
pub decode_typed :
    (a : Bytes) (n : ℕ)
    → IsBytes a
    → length a ≡ 32
    → decode (encode_text a ++ zeros n) ≡ some (ok a)
unfolding decode
decode_typed a n h l =
    let text : Bytes = encode_text a in
    let plain = encode_text-IsPlain a h in
    let end = text_end_plain text n plain in
    rw (is_text a n) (
      unfold decode_text_form has_trailing in
      rw end (
        rw
          (
            take-append_of (length text) text (zeros n) refl,
            drop-append_of (length text) text (zeros n) refl,
          )
          (rw (is_utf8_plain text plain, any-zeros n) (decode_text-encode_text a h l))))
  where
    is_text : (x : Bytes) (k : ℕ) → is_text_form (encode_text x ++ zeros k) ≡ true
    is_text x k = unfold is_text_form encode_text bytes_eq in ground arith

accepted_binary :
    (memo : Bytes) {a : Bytes}
    → decode_binary_form memo ≡ ok a
    → (memo_len ≤ length memo)
      × (has_tag memo_tag memo ≡ true)
      × (byte_at memo 3 ≡ 1)
      × (has_trailing memo_len memo ≡ false)
      × (a ≡ slice 4 memo_len memo)
unfolding decode_binary_form
accepted_binary memo h = ground arith

-- What the typed branch has checked when it accepts.
pub record Typed (memo a : Bytes) : Type 0 where
  pub marked : take 5 memo ≡ text_mark
  pub padded : drop (text_end memo) memo ≡ zeros (length memo - text_end memo)
  pub read : decode_text (take (text_end memo) memo) ≡ some (ok a)

accepted_text :
    (memo : Bytes) {a : Bytes}
    → is_text_form memo ≡ true
    → decode_text_form memo ≡ some (ok a)
    → Typed memo a
unfolding is_text_form decode_text_form
accepted_text memo t h = record {
  marked = (bytes_eq_iff (take 5 memo) text_mark).0 (ground arith);
  padded = drop_padding (text_end memo) memo (ground arith);
  read = ground arith;
}

-- A memo that is accepted is the account's one binary spelling, zero-padded, or a typed one that is
-- followed by zeros alone.
pub decode_canonical :
    (memo : Bytes) {a : Bytes}
    → decode memo ≡ some (ok a)
    → (memo ≡ deposit_body a ++ zeros (length memo - memo_len)) ⊎ Typed memo a
unfolding decode
decode_canonical memo {a} h = elim (Bool-cases (is_text_form memo)) [
  | inl t ↦ inr (accepted_text memo t (ground arith))
  | inr t ↦
      let binary : decode_binary_form memo ≡ ok a = ground arith in
      let (long, tag, version, pad, cut) = accepted_binary memo binary in
      inl (
        tag_split_one memo_tag memo tag (omega arith)
        ∙ rw
            (
              version,
              slice_append 4 memo_len memo (omega arith),
              drop_padding memo_len memo pad,
              ← cut,
            )
            refl)
]
