-- ===== src/Shielded/Scan/Panics.antt =====
-- A memo that makes the reader of typed memos panic makes every scan of src/shielded.rs that meets it panic.
use zec_multisig.Base.{
  ℕ, ◌+◌, ◌-◌, ◌^◌, ◌<◌, ◌≡◌, refl, Bool, true, false, Option, none, some, List, [], ◌∷◌, length,
  if◌then◌else◌, Bytes, ok, In, Option-cases, inl, inr, ◌⊎◌, arith, ne→==_false,
}
use zec_multisig.Memo.AppPayment.{untagged}
use zec_multisig.Memo.Deposit.{decode}
use zec_multisig.Memo.Forced.{forced_frame}
use zec_multisig.Memo.Deposit.Exclusive.{is_forced, text_form_alone, decode_panics-is_text_form}
use zec_multisig.Shielded.Scan.Modes.{take_lenient}
use zec_multisig.Notes.{NoteTypes}
use zec_multisig.Shielded.{Pool, orchard, ScanTypes, Scanned}
use zec_multisig.Shielded.Scan.{
  empty_scan, forced_intent, take_deposit, take_forced, take_payment, take, scan_bundle,
  scan_parsed, scan_inner, actions_in,
}

module _ (n : NoteTypes) (t : ScanTypes n) (fvk : n.ViewKey) (txid : Bytes) (height : ℕ)
    (attributions : Bytes → Option Bytes) where
  -- An action that decrypts to a note of ours whose memo makes the memo reader panic.
  abbrev pub IsPoison : Pool → t.Action → Type 0
  IsPoison pool a =
      (note : n.Note) × (memo : Bytes) × (t.decrypt pool fvk a ≡ some (note, memo))
      × (decode memo ≡ none)

  no_intent : (memo : Bytes) → is_forced memo ≡ false → forced_intent n t memo ≡ none
  unfolding forced_intent
  no_intent memo h = unread (forced_frame memo) refl
    where
      unread : (o : Option Bytes) → forced_frame memo ≡ o → forced_intent n t memo ≡ none
      unread none e = rw e refl
      unread (some f) e =
          let forced : is_forced memo ≡ true = rw (is_forced, e) refl in absurd (cc (forced, h))

  take_panics :
      (lenient : Bool) (out : Scanned n) (pool : Pool) (action : t.Action) (index : ℕ)
      (note : n.Note) (memo : Bytes)
      → decode memo ≡ none
      → take n t fvk txid height attributions lenient out pool action index (some (note, memo))
        ≡ none
  unfolding take take_forced take_deposit take_payment
  take_panics lenient out pool action index note memo h =
      let (a, p, f, b) = text_form_alone memo (decode_panics-is_text_form memo h) in
      rw (a, p) (rw (untagged memo b) (rw b (rw (no_intent memo f) (rw h refl))))

  -- An action either panics or is taken, in the lenient mode.
  take_or_panic :
      (out : Scanned n) (pool : Pool) (action : t.Action) (index : ℕ) (r : Option (n.Note × Bytes))
      → (take n t fvk txid height attributions true out pool action index r ≡ none)
        ⊎ ((s : Scanned n) × (take n t fvk txid height attributions true out pool action index r
              ≡ some (ok s)))
  take_or_panic out pool action index none = inr (
      take_lenient n t fvk txid height attributions out pool action index none
        (λ note memo e. absurd cc))
  take_or_panic out pool action index (some (note, memo)) = elim (Option-cases (decode memo)) [
    | inl e ↦ inl (take_panics true out pool action index note memo e)
    | inr (r, e) ↦ inr (
        take_lenient n t fvk txid height attributions out pool action index (some (note, memo))
          (λ m b q d. absurd cc))
  ]

  bundle_panics :
      (pool : Pool) (out : Scanned n) (index : ℕ) (as_ : List t.Action) {a : t.Action}
      → In a as_
      → IsPoison pool a
      → index + length as_ < 2 ^ 32
      → scan_bundle n t fvk txid height attributions true pool out index as_ ≡ none
  unfolding scan_bundle
  bundle_panics pool out index [] m p l = absurd m
  bundle_panics pool out index (b ∷ as_) (inl e) (note, memo, opened, bad) l =
      let here : t.decrypt pool fvk b ≡ some (note, memo) = rw (← e) opened in
      rw here (rw (take_panics true out pool b index note memo bad) refl)
  bundle_panics pool out index (b ∷ as_) (inr m) p l =
      elim (take_or_panic out pool b index (t.decrypt pool fvk b)) [
        | inl e ↦ rw e refl
        | inr (s, e) ↦
            let room = ne→==_false index (2 ^ 32 - 1) (omega arith) in
            rw e (rw (room, if◌then◌else◌) (bundle_panics pool s (index + 1) as_ m p (omega arith)))
      ]

  -- One Orchard output that pays us, with a memo on which the reader of typed memos panics, makes the
  -- lenient scan of the whole transaction panic, and no output after it is reported.
  pub scan_panics :
      (raw : Bytes) (tx : t.Transaction) {a : t.Action}
      → t.read_transaction raw ≡ some tx
      → length (actions_in n t (t.orchard_bundle tx)) < 2 ^ 32
      → In a (actions_in n t (t.orchard_bundle tx))
      → IsPoison orchard a
      → scan_inner n t fvk txid height attributions true raw ≡ none
  unfolding scan_inner scan_parsed
  scan_panics raw tx e l m p = rw e (
      rw
        (bundle_panics orchard (empty_scan n) 0 (actions_in n t (t.orchard_bundle tx)) m p
          (omega arith))
        refl)
