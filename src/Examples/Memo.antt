-- ===== src/Examples/Memo.antt =====
-- Memos for an account of thirty-two equal bytes, and memos that are refused.
use Prim.Native.Char.{code}
use Prim.Native.String.{String}
use zec_multisig.Base.{
  ◌-◌, ◌≤◌, ◌≡◌, refl, ◌↔◌, ◌⊎◌, true, [], ◌∷◌, ◌++◌, some, ok, err, Bytes, replicate, zeros,
  length, arith, bytes_eq, IsBytes,
}
use zec_multisig.Memo.Field.{field_of}
use zec_multisig.Memo.AppPayment.{
  AppPaymentMemo, IsPayment, app_payment_body, encode_app_payment, decode_app_payment,
  app_payment_round_trip, has_app_payment_tag,
}
use zec_multisig.Memo.Marks.{is_anchor, is_publication}
use zec_multisig.Memo.Forced.{encode_forced, forced_frame, forced_round_trip}
use zec_multisig.Memo.Text.{trim, encode_text, decode_text, not_a_deposit, is_utf8}
use zec_multisig.Memo.Text.RoundTrip.{decode_text-encode_text}
use zec_multisig.Memo.Text.Hazards.{typed}
use zec_multisig.Memo.Deposit.{encode, decode, deposit_body, is_text_form, decode_binary_form}
use zec_multisig.Memo.Deposit.RoundTrip.{decode-encode, decode_typed, decode_canonical, Typed}
use zec_multisig.Memo.Deposit.Exclusive.{count_true, is_forced, is_deposit, one_kind}

abbrev codes : String → Bytes
codes String.[] = []
codes (String.◌∷◌ c s) = code c ∷ codes s

abbrev account : Bytes
account = replicate 32 0xab

abbrev payment : AppPaymentMemo
payment = record { purpose = 3; reference = replicate 32 5; recipient = account }

payment-IsPayment : IsPayment payment
payment-IsPayment = record {
  purpose_set = λ e. absurd (omega arith);
  reference_len = refl;
  recipient_len = refl;
  reference_set = λ e. cc e;
  recipient_set = λ e. cc e;
}

app_payment_round_trip_example :
    (encode_app_payment payment ≡ ok (field_of (app_payment_body payment)))
    ↔ (decode_app_payment (field_of (app_payment_body payment)) ≡ ok payment)
app_payment_round_trip_example =
    app_payment_round_trip payment (field_of (app_payment_body payment)) payment-IsPayment refl

abbrev frame_memo : Bytes
frame_memo = b'Z' ∷ b'E' ∷ b'F' ∷ 1 ∷ 0 ∷ 2 ∷ 7 ∷ 8 ∷ zeros 504

forced_round_trip_example :
    (encode_forced (7 ∷ 8 ∷ []) ≡ some frame_memo) ↔ (forced_frame frame_memo ≡ some (7 ∷ 8 ∷ []))
forced_round_trip_example = forced_round_trip (7 ∷ 8 ∷ []) frame_memo (omega arith) refl

account-IsBytes : IsBytes account
account-IsBytes = omega arith

decode_typed_example : decode (encode_text account ++ zeros 443) ≡ some (ok account)
decode_typed_example = decode_typed account 443 account-IsBytes refl

decode-encode_text_example : decode_text (encode_text account) ≡ some (ok account)
decode-encode_text_example = decode_text-encode_text account account-IsBytes refl

decode_canonical_example :
    (encode account ≡ deposit_body account ++ zeros (length (encode account) - 36))
    ⊎ Typed (encode account) account
decode_canonical_example = decode_canonical (encode account) (decode-encode account refl)

one_kind_example :
    count_true (
      is_anchor frame_memo
      ∷ is_publication frame_memo
      ∷ is_forced frame_memo
      ∷ has_app_payment_tag frame_memo
      ∷ is_deposit frame_memo
      ∷ [])
    ≤ 1
one_kind_example = one_kind frame_memo

-- An accented letter whose two bytes stand in the second and third places.
abbrev accented : Bytes
accented = b'a' ∷ 0xC3 ∷ 0xA9 ∷ replicate 61 b'a'

accented-is_utf8 : is_utf8 (typed accented) ≡ true
unfolding is_utf8
accented-is_utf8 = refl

trim-accented : trim (typed accented) ≡ typed accented
unfolding trim
trim-accented = refl

unknown_digit : decode (codes "ZEC9:00") ≡ some (err not_a_deposit)
unfolding decode is_text_form decode_binary_form bytes_eq
unknown_digit = refl
