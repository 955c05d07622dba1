-- ===== src/Memo/Forced.antt =====
-- Forced intents (`ZEF`): a signed frame behind a two-byte length.
use zec_multisig.Base.{
  ℕ, suc, ◌+◌, ◌-◌, ◌≤◌, ◌<◌, ◌≡◌, ◌↔◌, refl, sym, ap, ◌∙◌, true, false, not, ◌||◌, Option, none,
  some, ◌∷◌, ◌++◌, arith, ltb, ◌==◌, if◌then◌else◌, ◌>>=◌, length, length-append, length-replicate,
  take, drop, Bytes, zeros, bytes_eq, IsBytes, take-append_of, drop-append_of, le→ltb_false,
  ne→==_false, be_bytes, from_be, length-be_bytes, from_be-be_bytes, be_bytes-from_be, drop-drop,
}
use mathlib.Core.List.{append_assoc}
use zec_multisig.Account.{ed25519, secp256k1_eip712, ed25519_message, from_tag, account_of}
use zec_multisig.Memo.Field.{
  slice, byte_at, memo_field, field_of, has_trailing, forced_tag, memo_version, has_tag, any-zeros,
  tag_split_one, slice_append, length-slice, drop_padding, slice-IsBytes,
}

abbrev pub forced_header : ℕ
forced_header = 3 + 1 + 2

abbrev pub forced_max : ℕ
forced_max = memo_field - forced_header

-- What `encode_forced` writes; `frame.len() as u16`.
abbrev pub forced_body : Bytes → Bytes
forced_body frame = forced_tag ++ memo_version ∷ (be_bytes 2 (length frame) ++ frame)

unfoldable pub encode_forced : Bytes → Option Bytes
encode_forced frame =
    if length frame == 0 || ltb forced_max (length frame)
    then none
    else some (field_of (forced_body frame))

unfoldable pub forced_frame : Bytes → Option Bytes
forced_frame memo =
    if ltb (length memo) forced_header
      || not (has_tag forced_tag memo)
      || not (byte_at memo 3 == memo_version)
    then none
    else let len = from_be (slice 4 6 memo) in
      if len == 0 || ltb (length memo) (forced_header + len)
      then none
      else if has_trailing (forced_header + len) memo
      then none
      else some (slice forced_header (forced_header + len) memo)

-- `vm_id[32] ‖ valid_until u64 ‖ scheme u8 ‖ key[32] ‖ …`
unfoldable pub forced_account : (Bytes → Bytes) → Bytes → Option Bytes
forced_account sha256 frame = if ltb (length frame) (32 + 8 + 1 + 32) then none else do
  scheme ← from_tag (byte_at frame 40)
  elim scheme [
    | ed25519 ↦ some (account_of sha256 ed25519 (slice 41 73 frame))
    | ed25519_message ↦ some (account_of sha256 ed25519_message (slice 41 73 frame))
    | secp256k1_eip712 ↦ none
  ]

forced_frame_padded :
    (frame : Bytes) (n : ℕ)
    → 0 < length frame
    → length frame ≤ forced_max
    → forced_frame (forced_body frame ++ zeros n) ≡ some frame
unfolding forced_frame slice byte_at has_trailing has_tag bytes_eq
forced_frame_padded frame n pos fits =
    let len : Bytes = be_bytes 2 (length frame) in
    let tail : Bytes = (len ++ frame) ++ zeros n in
    let size : ℕ = suc (suc (suc (suc (length tail)))) in
    let regroup = append_assoc len frame (zeros n) in
    let two = length-be_bytes 2 (length frame) in
    let head : take 2 tail ≡ len = rw regroup (take-append_of 2 len (frame ++ zeros n) two) in
    let rest : drop 2 tail ≡ frame ++ zeros n =
      rw regroup (drop-append_of 2 len (frame ++ zeros n) two) in
    let total : length tail ≡ 2 + length frame + n = omega (
      arith,
      length-append (len ++ frame) (zeros n),
      length-append len frame,
      two,
      length-replicate {A = ℕ} n 0,
    ) in
    let read : from_be len ≡ length frame = from_be-be_bytes 2 (length frame) (omega arith) in
    let long = le→ltb_false size forced_header (omega arith) in
    let some_left = ne→==_false (length frame) 0 (omega arith) in
    let room = le→ltb_false size (6 + length frame) (omega arith) in
    let six : 6 + length frame ≡ suc (suc (suc (suc (2 + length frame)))) = omega arith in
    let cut : take (6 + length frame - 6) (drop 2 tail) ≡ frame =
      rw rest (take-append_of _ frame (zeros n) (omega arith)) in
    let padding : drop (2 + length frame) tail ≡ zeros n =
      sym (drop-drop 2 (length frame) tail) ∙ rw rest (drop-append_of _ frame (zeros n) refl) in
    rw (long, head, read) (rw (some_left, room, cut) (rw six (rw padding (rw (any-zeros n)))))

accepted_forced :
    (memo : Bytes) {f : Bytes}
    → forced_frame memo ≡ some f
    → let len = from_be (slice 4 6 memo) in
      (has_tag forced_tag memo ≡ true)
      × (byte_at memo 3 ≡ 1)
      × (0 < len)
      × (forced_header + len ≤ length memo)
      × (has_trailing (forced_header + len) memo ≡ false)
      × (f ≡ slice forced_header (forced_header + len) memo)
unfolding forced_frame
accepted_forced memo h = ground arith

-- The reader accepts nothing but a frame in its one spelling, zero-padded.
forced_frame_canonical :
    (memo : Bytes) {f : Bytes}
    → IsBytes memo
    → forced_frame memo ≡ some f
    → (0 < length f)
      × (forced_header + length f ≤ length memo)
      × (memo ≡ forced_body f ++ zeros (length memo - (forced_header + length f)))
forced_frame_canonical memo {f} b h =
    let (tag, version, pos, room, pad, cut) = accepted_forced memo h in
    let len : ℕ = from_be (slice 4 6 memo) in
    let size : length f ≡ len =
      ap length cut
      ∙ length-slice forced_header (forced_header + len) memo (omega arith) room
      ∙ omega arith in
    let two : length (slice 4 6 memo) ≡ 2 = length-slice 4 6 memo (omega arith) (omega arith) in
    let spelled : be_bytes 2 (length f) ≡ slice 4 6 memo =
      rw size (rw (← two) (be_bytes-from_be (slice 4 6 memo) (slice-IsBytes 4 6 memo b))) in
    (
      omega arith,
      omega arith,
      tag_split_one forced_tag memo tag (omega arith)
          ∙ rw
              (
                version,
                slice_append 4 6 memo (omega arith),
                ← spelled,
                slice_append 6 (forced_header + len) memo (omega arith),
                ← cut,
                drop_padding (forced_header + len) memo pad,
                ← size,
              )
              (rw (append_assoc (be_bytes 2 (length f)) f)),
    )

-- A 512-byte memo carries a frame exactly when it is what the encoder writes for it: the reader
-- inverts the encoder, and accepts no other spelling of the frame.
pub forced_round_trip :
    (frame memo : Bytes)
    → IsBytes memo
    → length memo ≡ memo_field
    → (encode_forced frame ≡ some memo) ↔ (forced_frame memo ≡ some frame)
unfolding encode_forced
forced_round_trip frame memo b l =
    let body = λ (f : Bytes). length-append (be_bytes 2 (length f)) f in
    let size : length (forced_body frame) ≡ forced_header + length frame =
      omega (arith, body frame, length-be_bytes 2 (length frame)) in
    (
      λ e.
          let fits : (0 < length frame)
              × (length frame ≤ forced_max)
              × (memo ≡ field_of (forced_body frame)) =
            ground arith in
          rw fits.2 (forced_frame_padded frame _ fits.0 fits.1),
      λ e.
          let (pos, room, spelled) = forced_frame_canonical memo b e in
          let some_left = ne→==_false (length frame) 0 (omega arith) in
          let fits : ltb forced_max (length frame) ≡ false = le→ltb_false _ _ (omega arith) in
          rw (some_left, fits) (ap some (rw size (sym (spelled ∙ rw l)))),
    )
