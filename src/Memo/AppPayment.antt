-- ===== src/Memo/AppPayment.antt =====
-- Purpose-bound application payments, tag `ZEB`.
use zec_multisig.Base.{
  ℕ, suc, ◌+◌, ◌-◌, ◌≤◌, ◌≡◌, ◌≢◌, ◌↔◌, sym, ap, ◌∙◌, Bool, true, false, not, ◌&&◌, ◌||◌, Option,
  none, some, ◌∷◌, ◌++◌, arith, ltb, leb, ◌==◌, if◌then◌else◌, length, length-append,
  length-replicate, take, drop, Bytes, zeros, bytes_eq, bytes_eq_iff, ne→bytes_eq, le→ltb_false,
  le→leb, ne→==_false, Result, ok, err, and_then, ok_or, take-append_of, drop-append_of,
}
use mathlib.Core.List.{append_assoc}
use zec_multisig.Memo.Field.{
  slice, byte_at, memo_field, field_of, has_trailing, app_payment_tag, has_tag, any-zeros,
  slice_append, length-slice, drop_padding, tag_split_one, drop-byte_at,
}

abbrev pub app_payment_version : ℕ
app_payment_version = 1

abbrev pub app_payment_len : ℕ
app_payment_len = 3 + 1 + 1 + 32 + 32

-- `Purpose::from_code`: zero is reserved.
abbrev pub from_code : ℕ → Option ℕ
from_code code = if not (code == 0) then some code else none

pub record AppPaymentMemo : Type 0 where
  pub purpose : ℕ
  pub reference : Bytes
  pub recipient : Bytes

pub data AppPaymentError : Type 0 where
  not_app_payment : AppPaymentError
  unknown_version : ℕ → AppPaymentError
  invalid_purpose : ℕ → AppPaymentError
  malformed : AppPaymentError
  trailing_bytes : AppPaymentError

unfoldable pub has_app_payment_tag : Bytes → Bool
has_app_payment_tag memo = leb 3 (length memo) && has_tag app_payment_tag memo

-- What `encode_app_payment` writes.
abbrev pub app_payment_body : AppPaymentMemo → Bytes
app_payment_body p =
    app_payment_tag ++ app_payment_version ∷ p.purpose ∷ (p.reference ++ p.recipient)

unfoldable pub encode_app_payment : AppPaymentMemo → Result AppPaymentError Bytes
encode_app_payment p =
    if bytes_eq p.reference (zeros 32) || bytes_eq p.recipient (zeros 32)
    then err malformed
    else ok (field_of (app_payment_body p))

unfoldable pub decode_app_payment : Bytes → Result AppPaymentError AppPaymentMemo
unfolding has_app_payment_tag
decode_app_payment memo =
    if not (has_app_payment_tag memo)
    then err not_app_payment
    else if ltb (length memo) app_payment_len
    then err malformed
    else if not (byte_at memo 3 == app_payment_version)
    then err (unknown_version (byte_at memo 3))
    else and_then (ok_or (from_code (byte_at memo 4)) (invalid_purpose (byte_at memo 4))) λ purpose.
      if has_trailing app_payment_len memo
      then err trailing_bytes
      else let reference = slice 5 37 memo in
        let recipient = slice 37 app_payment_len memo in
        if bytes_eq reference (zeros 32) || bytes_eq recipient (zeros 32)
        then err malformed
        else ok (record { purpose = purpose; reference = reference; recipient = recipient })

-- A payment that means something: its arrays are of 32 bytes, and none of its parts is zero.
pub record IsPayment (p : AppPaymentMemo) : Type 0 where
  pub purpose_set : p.purpose ≢ 0
  pub reference_len : length p.reference ≡ 32
  pub recipient_len : length p.recipient ≡ 32
  pub reference_set : p.reference ≢ zeros 32
  pub recipient_set : p.recipient ≢ zeros 32

-- The three cuts that a reader of two 32-byte arrays makes.
pub two_arrays :
    (a b c : Bytes)
    → length a ≡ 32
    → length b ≡ 32
    → (take 32 ((a ++ b) ++ c) ≡ a)
      × (take 32 (drop 32 ((a ++ b) ++ c)) ≡ b)
      × (drop 64 ((a ++ b) ++ c) ≡ c)
two_arrays a b c ha hb =
    let second : drop 32 ((a ++ b) ++ c) ≡ b ++ c =
      rw (append_assoc a b c) (drop-append_of 32 a (b ++ c) ha) in
    (
      rw (append_assoc a b c) (take-append_of 32 a (b ++ c) ha),
      rw second (take-append_of 32 b c hb),
      drop-append_of 64 (a ++ b) c (omega (arith, length-append a b)),
    )

-- The reader on a body with any amount of zero padding.
pub decode_app_payment_padded :
    (p : AppPaymentMemo) (n : ℕ)
    → IsPayment p
    → decode_app_payment (app_payment_body p ++ zeros n) ≡ ok p
unfolding decode_app_payment bytes_eq slice byte_at has_trailing has_tag
decode_app_payment_padded p n v =
    let tail : Bytes = (p.reference ++ p.recipient) ++ zeros n in
    let (first, second, rest) =
      two_arrays p.reference p.recipient (zeros n) v.reference_len v.recipient_len in
    let long : length tail ≡ 64 + n = omega (
      arith,
      length-append (p.reference ++ p.recipient) (zeros n),
      length-append p.reference p.recipient,
      length-replicate {A = ℕ} n 0,
      v.reference_len,
      v.recipient_len,
    ) in
    let size : ℕ = suc (suc (suc (suc (suc (length tail))))) in
    let big = le→ltb_false size app_payment_len (omega arith) in
    let here = le→leb 3 size (omega arith) in
    let has : has_trailing 64 tail ≡ false = rw rest (any-zeros n) in
    let reference_kept = ne→bytes_eq p.reference (zeros 32) v.reference_set in
    let recipient_kept = ne→bytes_eq p.recipient (zeros 32) v.recipient_set in
    let code = ne→==_false p.purpose 0 v.purpose_set in
    simp (here, big, code, has, first, second, reference_kept, recipient_kept)

-- What the reader has checked when it accepts.
accepted_app_payment :
    (memo : Bytes) {p : AppPaymentMemo}
    → decode_app_payment memo ≡ ok p
    → (has_tag app_payment_tag memo ≡ true)
      × (app_payment_len ≤ length memo)
      × (byte_at memo 3 ≡ 1)
      × (byte_at memo 4 ≡ p.purpose)
      × (p.purpose ≢ 0)
      × (has_trailing app_payment_len memo ≡ false)
      × (p.reference ≡ slice 5 37 memo)
      × (p.recipient ≡ slice 37 app_payment_len memo)
      × (bytes_eq p.reference (zeros 32) ≡ false)
      × (bytes_eq p.recipient (zeros 32) ≡ false)
unfolding decode_app_payment
accepted_app_payment memo h = ground arith

-- A memo without the tag is no payment.
pub untagged :
    (memo : Bytes)
    → has_app_payment_tag memo ≡ false
    → decode_app_payment memo ≡ err not_app_payment
unfolding decode_app_payment
untagged memo h = rw h

-- The reader accepts nothing but a meaningful payment in its one spelling, zero-padded.
pub decode_app_payment_canonical :
    (memo : Bytes) {p : AppPaymentMemo}
    → decode_app_payment memo ≡ ok p
    → IsPayment p × (memo ≡ app_payment_body p ++ zeros (length memo - app_payment_len))
decode_app_payment_canonical memo {p} h =
    let (tag, long, version, purpose, set, pad, ref, rec, ref_set, rec_set) =
      accepted_app_payment memo h in
    let second =
      slice_append 5 37 memo (omega arith)
      ∙ ap (◌++◌ (slice 5 37 memo)) (slice_append 37 app_payment_len memo (omega arith)) in
    (
      record {
        purpose_set = set;
        reference_len = rw ref (length-slice 5 37 memo (omega arith) (omega arith));
        recipient_len = rw rec (length-slice 37 app_payment_len memo (omega arith) (omega arith));
        reference_set = λ e. cc (ref_set, (bytes_eq_iff p.reference (zeros 32)).1 e);
        recipient_set = λ e. cc (rec_set, (bytes_eq_iff p.recipient (zeros 32)).1 e);
      },
      tag_split_one app_payment_tag memo tag (omega arith)
          ∙ rw
              (
                version,
                drop-byte_at 4 memo (omega arith),
                purpose,
                second,
                drop_padding app_payment_len memo pad,
                ← ref,
                ← rec,
              )
              (rw (append_assoc p.reference p.recipient)),
    )

-- The two directions together: the reader inverts the encoder, on every meaningful payment and on
-- every 512-byte memo that it accepts.
pub app_payment_round_trip :
    (p : AppPaymentMemo) (memo : Bytes)
    → IsPayment p
    → length memo ≡ memo_field
    → (encode_app_payment p ≡ ok memo) ↔ (decode_app_payment memo ≡ ok p)
unfolding encode_app_payment
app_payment_round_trip p memo v l =
    let reference_kept = ne→bytes_eq p.reference (zeros 32) v.reference_set in
    let recipient_kept = ne→bytes_eq p.recipient (zeros 32) v.recipient_set in
    let size : length (app_payment_body p) ≡ app_payment_len =
      omega (arith, length-append p.reference p.recipient, v.reference_len, v.recipient_len) in
    let written : encode_app_payment p
        ≡ ok (app_payment_body p ++ zeros (memo_field - app_payment_len)) =
      rw (reference_kept, recipient_kept) (rw size) in
    (
      λ e.
          let same : memo ≡ app_payment_body p ++ zeros (memo_field - app_payment_len) =
            cc (e, written) in
          rw same (decode_app_payment_padded p (memo_field - app_payment_len) v),
      λ e. written ∙ ap ok (sym ((decode_app_payment_canonical memo e).1 ∙ rw l)),
    )
