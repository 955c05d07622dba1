-- ===== src/Memo/Deposit/Exclusive.antt =====
-- No memo is read as two kinds.
use zec_multisig.Base.{
  ℕ, suc, ◌≤◌, ◌≡◌, refl, ap, ◌∙◌, Bool, true, false, none, some, List, [], ◌∷◌, arith,
  if◌then◌else◌, take, Bytes, bytes_eq, bytes_eq_iff, ok, err, inl, inr, Bool-cases,
}
use zec_multisig.Memo.Field.{
  slice, byte_at, has_tag, memo_tag, anchor_tag, publish_tag, forced_tag, app_payment_tag,
}
use zec_multisig.Memo.AppPayment.{has_app_payment_tag}
use zec_multisig.Memo.Marks.{is_anchor, is_publication, publication}
use zec_multisig.Memo.Forced.{forced_frame}
use zec_multisig.Memo.Deposit.{text_mark, is_text_form, decode_binary_form, decode}

abbrev pub is_forced : Bytes → Bool
is_forced memo = elim (forced_frame memo) [ none ↦ false | some _ ↦ true ]

abbrev pub is_deposit : Bytes → Bool
is_deposit memo = elim (decode memo) [ none ↦ false | some (err _) ↦ false | some (ok _) ↦ true ]

abbrev pub count_true : List Bool → ℕ
count_true [] = 0
count_true (b ∷ bs) = if b then suc (count_true bs) else count_true bs

anchor-has_tag : (memo : Bytes) → is_anchor memo ≡ true → has_tag anchor_tag memo ≡ true
unfolding is_anchor
anchor-has_tag memo h = ground arith

publication-has_tag : (memo : Bytes) → is_publication memo ≡ true → has_tag publish_tag memo ≡ true
unfolding is_publication publication
publication-has_tag memo h = ground arith

forced-has_tag : (memo : Bytes) → is_forced memo ≡ true → has_tag forced_tag memo ≡ true
unfolding forced_frame
forced-has_tag memo h = ground arith

app_payment-has_tag :
    (memo : Bytes) → has_app_payment_tag memo ≡ true → has_tag app_payment_tag memo ≡ true
unfolding has_app_payment_tag
app_payment-has_tag memo h = ground arith

take_five : (memo : Bytes) → take 5 memo ≡ text_mark → take 3 memo ≡ memo_tag
take_five memo h = take_take memo ∙ ap (take 3) h
  where
    take_take : (xs : Bytes) → take 3 xs ≡ take 3 (take 5 xs)
    take_take [] = refl
    take_take (a ∷ []) = refl
    take_take (a ∷ b ∷ []) = refl
    take_take (a ∷ b ∷ c ∷ xs) = refl

text_form-has_tag : (memo : Bytes) → is_text_form memo ≡ true → has_tag memo_tag memo ≡ true
unfolding is_text_form has_tag
text_form-has_tag memo h =
    let five : bytes_eq (take 5 memo) text_mark ≡ true = ground arith in
    (bytes_eq_iff (take 3 memo) memo_tag).1 (take_five memo ((bytes_eq_iff _ text_mark).0 five))

deposit-has_tag : (memo : Bytes) → is_deposit memo ≡ true → has_tag memo_tag memo ≡ true
unfolding decode decode_binary_form
deposit-has_tag memo h = elim (Bool-cases (is_text_form memo)) [
  | inl t ↦ text_form-has_tag memo t
  | inr t ↦ ground arith
]

-- The third byte, in which the five tags differ.
third : Bytes → ℕ
third memo = byte_at (slice 0 3 memo) 2

third-has_tag : (tag memo : Bytes) → has_tag tag memo ≡ true → third memo ≡ byte_at tag 2
unfolding third has_tag
third-has_tag tag memo h = ap (λ t. byte_at t 2) ((bytes_eq_iff _ tag).0 h)

one_of_five :
    (k : ℕ) (a b c d e : Bool)
    → (a ≡ true → k ≡ b'A')
    → (b ≡ true → k ≡ b'P')
    → (c ≡ true → k ≡ b'F')
    → (d ≡ true → k ≡ b'B')
    → (e ≡ true → k ≡ b'C')
    → count_true (a ∷ b ∷ c ∷ d ∷ e ∷ []) ≤ 1
one_of_five k a b c d e ha hb hc hd he = ground arith

-- No two of the five readers accept the same memo: the anchor, the publication, the forced intent,
-- the application payment namespace and the deposit.
pub one_kind :
    (memo : Bytes)
    → count_true (
        is_anchor memo
        ∷ is_publication memo
        ∷ is_forced memo
        ∷ has_app_payment_tag memo
        ∷ is_deposit memo
        ∷ [])
      ≤ 1
unfolding byte_at
one_kind memo =
    one_of_five (third memo) (is_anchor memo) (is_publication memo) (is_forced memo)
      (has_app_payment_tag memo) (is_deposit memo)
      (λ h. third-has_tag anchor_tag memo (anchor-has_tag memo h))
      (λ h. third-has_tag publish_tag memo (publication-has_tag memo h))
      (λ h. third-has_tag forced_tag memo (forced-has_tag memo h))
      (λ h. third-has_tag app_payment_tag memo (app_payment-has_tag memo h))
      (λ h. third-has_tag memo_tag memo (deposit-has_tag memo h))

not_both : (k a b : ℕ) (x : Bool) → (x ≡ true → k ≡ a) → k ≡ b → (a ≡ b → ⊥) → x ≡ false
not_both k a b true f e d = absurd (d (omega (arith, f refl)))
not_both k a b false f e d = refl

-- A typed memo is read by no other reader.
pub text_form_alone :
    (memo : Bytes)
    → is_text_form memo ≡ true
    → (is_anchor memo ≡ false)
      × (is_publication memo ≡ false)
      × (is_forced memo ≡ false)
      × (has_app_payment_tag memo ≡ false)
unfolding byte_at
text_form_alone memo h =
    let c : third memo ≡ b'C' = third-has_tag memo_tag memo (text_form-has_tag memo h) in
    (
      not_both (third memo) b'A' b'C' _ (λ e. third-has_tag anchor_tag memo (anchor-has_tag memo e))
          c (λ e. omega arith),
      not_both (third memo) b'P' b'C' _
          (λ e. third-has_tag publish_tag memo (publication-has_tag memo e)) c (λ e. omega arith),
      not_both (third memo) b'F' b'C' _ (λ e. third-has_tag forced_tag memo (forced-has_tag memo e))
          c (λ e. omega arith),
      not_both (third memo) b'B' b'C' _
          (λ e. third-has_tag app_payment_tag memo (app_payment-has_tag memo e)) c
          (λ e. omega arith),
    )

-- Only a typed memo makes the reader of deposits panic.
pub decode_panics-is_text_form : (memo : Bytes) → decode memo ≡ none → is_text_form memo ≡ true
unfolding decode
decode_panics-is_text_form memo h = ground arith
