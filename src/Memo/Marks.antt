-- ===== src/Memo/Marks.antt =====
-- Memos of the vault's own: anchors (`ZEA`) and publications (`ZEP`).
use zec_multisig.Base.{
  ℕ, suc, ◌+◌, ◌-◌, ◌≤◌, ◌≡◌, ◌↔◌, refl, sym, ◌∙◌, Bool, true, false, not, ◌&&◌, ◌||◌, Option, none,
  some, ◌∷◌, ◌++◌, arith, ltb, leb, ◌==◌, if◌then◌else◌, length, length-append, Bytes, zeros,
  bytes_eq, take-append_of, drop-append_of, le→ltb_false,
}
use zec_multisig.Memo.Field.{
  slice, byte_at, memo_field, field_of, has_trailing, anchor_tag, publish_tag, memo_version,
  has_tag, any-zeros, tag_split_one, slice_append, drop_padding,
}

abbrev pub anchor_len : ℕ
anchor_len = 3 + 1 + 4 + 8 + 32

abbrev pub publish_len : ℕ
publish_len = 3 + 1 + 32

unfoldable pub is_anchor : Bytes → Bool
is_anchor memo =
    leb anchor_len (length memo)
    && has_tag anchor_tag memo
    && byte_at memo 3 == memo_version
    && not (has_trailing anchor_len memo)

abbrev pub publication_body : Bytes → Bytes
publication_body digest = publish_tag ++ memo_version ∷ digest

unfoldable pub encode_publication : Bytes → Bytes
encode_publication digest = field_of (publication_body digest)

unfoldable pub publication : Bytes → Option Bytes
publication memo =
    if ltb (length memo) publish_len
      || not (has_tag publish_tag memo)
      || not (byte_at memo 3 == memo_version)
      || has_trailing publish_len memo
    then none
    else some (slice 4 publish_len memo)

unfoldable pub is_publication : Bytes → Bool
is_publication memo = elim (publication memo) [ none ↦ false | some _ ↦ true ]

publication_padded :
    (digest : Bytes) (n : ℕ)
    → length digest ≡ 32
    → publication (publication_body digest ++ zeros n) ≡ some digest
unfolding publication slice byte_at has_trailing has_tag bytes_eq
publication_padded digest n h =
    let size : ℕ = suc (suc (suc (suc (length (digest ++ zeros n))))) in
    let long = le→ltb_false size publish_len (omega (arith, length-append digest (zeros n))) in
    let kept = take-append_of 32 digest (zeros n) h in
    let rest = drop-append_of 32 digest (zeros n) h in
    let clean : has_trailing 32 (digest ++ zeros n) ≡ false = rw rest (any-zeros n) in
    simp (long, kept, clean)

accepted_publication :
    (memo : Bytes) {d : Bytes}
    → publication memo ≡ some d
    → (publish_len ≤ length memo)
      × (has_tag publish_tag memo ≡ true)
      × (byte_at memo 3 ≡ 1)
      × (has_trailing publish_len memo ≡ false)
      × (d ≡ slice 4 publish_len memo)
unfolding publication
accepted_publication memo h = ground arith

-- A 512-byte memo publishes a digest exactly when it is what the encoder writes for it.
pub publication_round_trip :
    (digest memo : Bytes)
    → length digest ≡ 32
    → length memo ≡ memo_field
    → (encode_publication digest ≡ memo) ↔ (publication memo ≡ some digest)
unfolding encode_publication
publication_round_trip digest memo h l =
    let written : encode_publication digest
        ≡ publication_body digest ++ zeros (memo_field - publish_len) =
      rw h refl in
    (
      λ e. rw (sym e ∙ written) (publication_padded digest (memo_field - publish_len) h),
      λ e.
          let (long, tag, version, pad, cut) = accepted_publication memo e in
          written
          ∙ sym (
              tag_split_one publish_tag memo tag (omega arith)
              ∙ rw
                  (
                    version,
                    slice_append 4 publish_len memo (omega arith),
                    drop_padding publish_len memo pad,
                    ← cut,
                    l,
                  )
                  refl),
    )
