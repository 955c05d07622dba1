-- ===== src/Shielded/Scan/Modes.antt =====
-- The two modes of a scan of src/shielded.rs: the lenient one always succeeds on a transaction that
-- parses, and whatever the strict one reports, it reports too.
use zec_multisig.Base.{
  ℕ, ◌+◌, ◌-◌, ◌^◌, ◌<◌, ◌≡◌, refl, ap, ◌∙◌, true, false, ◌||◌, Option, none, some, List, [], ◌∷◌,
  length, if◌then◌else◌, Bytes, Result, ok, err, All, ◌≢◌, and_go-eq-ok, Bool-cases, inl, inr,
  arith, ne→==_false,
}
use zec_multisig.Memo.Marks.{is_anchor, is_publication}
use zec_multisig.Memo.AppPayment.{
  AppPaymentMemo, AppPaymentError, decode_app_payment, has_app_payment_tag,
}
use zec_multisig.Memo.Deposit.{decode}
use zec_multisig.Memo.Text.{MemoError}
use zec_multisig.Amount.{Fixed}
use zec_multisig.Notes.{NoteTypes}
use zec_multisig.Shielded.{Pool, orchard, ironwood, ScanTypes, Scanned, ScanError, amount_of}
use zec_multisig.Shielded.Scan.{
  empty_scan, forced_intent, owner, take_owned, take_deposit, take_forced, take_reserved,
  take_payment, take, next_index, scan_bundle, scan_parsed, scan_inner, actions_in,
}

module _ (n : NoteTypes) (t : ScanTypes n) (fvk : n.ViewKey) (txid : Bytes) (height : ℕ)
    (attributions : Bytes → Option Bytes) where
  owner_modes :
      (amount : Fixed) (attributed : Option Bytes) (r : Result MemoError Bytes) {a : Option Bytes}
      → owner n t false amount attributed r ≡ ok a
      → owner n t true amount attributed r ≡ ok a
  unfolding owner
  owner_modes amount attributed (ok account) h = h
  owner_modes amount (some account) (err e) h = h
  owner_modes amount none (err e) h = absurd cc

  take_owned_modes :
      (out : Scanned n) (pool : Pool) (action : t.Action) (note : n.Note) (memo : Bytes)
      (r u : Result ScanError (Option Bytes)) {s : Scanned n}
      → ((a : Option Bytes) → r ≡ ok a → u ≡ ok a)
      → take_owned n t fvk txid height attributions false out pool action note memo r ≡ ok s
      → take_owned n t fvk txid height attributions true out pool action note memo u ≡ ok s
  unfolding take_owned
  take_owned_modes out pool action note memo (err e) u f h = absurd cc
  take_owned_modes out pool action note memo (ok none) u f h = rw (f _ refl) h
  take_owned_modes out pool action note memo (ok (some account)) u f h = rw (f _ refl) h

  take_deposit_modes :
      (out : Scanned n) (pool : Pool) (action : t.Action) (note : n.Note) (memo : Bytes)
      (r : Option (Result MemoError Bytes)) {s : Scanned n}
      → take_deposit n t fvk txid height attributions false out pool action note memo r
        ≡ some (ok s)
      → take_deposit n t fvk txid height attributions true out pool action note memo r ≡ some (ok s)
  unfolding take_deposit
  take_deposit_modes out pool action note memo none h = h
  take_deposit_modes out pool action note memo (some r) h = ap some (
      take_owned_modes out pool action note memo _ _
        (λ a. owner_modes (amount_of n note) (attributions txid) r) (cc h))

  take_forced_modes :
      (out : Scanned n) (pool : Pool) (action : t.Action) (note : n.Note) (memo : Bytes)
      (r : Option (Bytes × Bytes)) {s : Scanned n}
      → take_forced n t fvk txid height attributions false out pool action note memo r ≡ some (ok s)
      → take_forced n t fvk txid height attributions true out pool action note memo r ≡ some (ok s)
  unfolding take_forced
  take_forced_modes out pool action note memo none h =
      take_deposit_modes out pool action note memo (decode memo) h
  take_forced_modes out pool action note memo (some (frame, account)) h = h

  take_payment_modes :
      (out : Scanned n) (pool : Pool) (action : t.Action) (index : ℕ) (note : n.Note) (memo : Bytes)
      (r : Result AppPaymentError AppPaymentMemo) {s : Scanned n}
      → take_payment n t fvk txid height attributions false out pool action index note memo r
        ≡ some (ok s)
      → take_payment n t fvk txid height attributions true out pool action index note memo r
        ≡ some (ok s)
  unfolding take_payment take_reserved
  take_payment_modes out pool action index note memo (ok payment) h = h
  take_payment_modes out pool action index note memo (err e) h =
      elim (Bool-cases (has_app_payment_tag memo)) [
        | inl c ↦ absurd (cc (rw (c, if◌then◌else◌) at h))
        | inr c ↦
            rw (c, if◌then◌else◌)
              (take_forced_modes out pool action note memo (forced_intent n t memo)
                (rw (c, if◌then◌else◌) at h))
      ]

  take_modes :
      (out : Scanned n) (pool : Pool) (action : t.Action) (index : ℕ) (r : Option (n.Note × Bytes))
      {s : Scanned n}
      → take n t fvk txid height attributions false out pool action index r ≡ some (ok s)
      → take n t fvk txid height attributions true out pool action index r ≡ some (ok s)
  unfolding take
  take_modes out pool action index none h = h
  take_modes out pool action index (some (note, memo)) h =
      elim (Bool-cases (is_anchor memo || is_publication memo)) [
        | inl c ↦ rw (c, if◌then◌else◌) (rw (c, if◌then◌else◌) at h)
        | inr c ↦
            rw (c, if◌then◌else◌)
              (take_payment_modes out pool action index note memo (decode_app_payment memo)
                (rw (c, if◌then◌else◌) at h))
      ]

  bundle_modes :
      (pool : Pool) (out : Scanned n) (index : ℕ) (as_ : List t.Action) {r : Scanned n × ℕ}
      → scan_bundle n t fvk txid height attributions false pool out index as_ ≡ some (ok r)
      → scan_bundle n t fvk txid height attributions true pool out index as_ ≡ some (ok r)
  unfolding scan_bundle
  bundle_modes pool out index [] h = h
  bundle_modes pool out index (a ∷ as_) h =
      let (taken, took, rest) = and_go-eq-ok _ _ h in
      let (place, moved, last) = and_go-eq-ok _ _ rest in
      let moved_to : next_index n t index taken ≡ some (ok place) = moved in
      rw (take_modes out pool a index (t.decrypt pool fvk a) took)
        (rw moved_to (bundle_modes pool place.0 place.1 as_ last))

  parsed_modes :
      (r : Option t.Transaction) {s : Scanned n}
      → scan_parsed n t fvk txid height attributions false r ≡ some (ok s)
      → scan_parsed n t fvk txid height attributions true r ≡ some (ok s)
  unfolding scan_parsed
  parsed_modes none h = absurd cc
  parsed_modes (some tx) h =
      let (first, one, rest) = and_go-eq-ok _ _ h in
      let (second, two, last) = and_go-eq-ok _ _ rest in
      rw (bundle_modes orchard (empty_scan n) 0 _ one)
        (rw (bundle_modes ironwood first.0 first.1 _ two) last)

  -- What a strict scan reports, the lenient scan of the same transaction under the same attributions
  -- reports: leniency only turns refusals into reports.
  pub scan_modes :
      (raw : Bytes) {s : Scanned n}
      → scan_inner n t fvk txid height attributions false raw ≡ some (ok s)
      → scan_inner n t fvk txid height attributions true raw ≡ some (ok s)
  unfolding scan_inner
  scan_modes raw h = parsed_modes (t.read_transaction raw) h

  -- No memo of ours among these actions makes the reader panic.
  abbrev pub Readable : Pool → List t.Action → Type 0
  Readable pool as_ =
      All
        (λ a.
          (note : n.Note) (memo : Bytes)
          → t.decrypt pool fvk a ≡ some (note, memo)
          → decode memo ≢ none)
        as_

  owner_lenient :
      (amount : Fixed) (attributed : Option Bytes) (r : Result MemoError Bytes)
      → (a : Option Bytes) × (owner n t true amount attributed r ≡ ok a)
  unfolding owner
  owner_lenient amount attributed (ok account) = (some account, refl)
  owner_lenient amount (some account) (err e) = (some account, refl)
  owner_lenient amount none (err e) = (none, refl)

  take_owned_lenient :
      (out : Scanned n) (pool : Pool) (action : t.Action) (note : n.Note) (memo : Bytes)
      (a : Option Bytes)
      → (s : Scanned n) × (take_owned n t fvk txid height attributions true out pool action note
            memo
            (ok a)
          ≡ ok s)
  unfolding take_owned
  take_owned_lenient out pool action note memo none = (_, refl)
  take_owned_lenient out pool action note memo (some account) = (_, refl)

  take_deposit_lenient :
      (out : Scanned n) (pool : Pool) (action : t.Action) (note : n.Note) (memo : Bytes)
      (r : Option (Result MemoError Bytes))
      → r ≢ none
      → (s : Scanned n) × (take_deposit n t fvk txid height attributions true out pool action note
            memo r
          ≡ some (ok s))
  unfolding take_deposit
  take_deposit_lenient out pool action note memo none h = absurd (h refl)
  take_deposit_lenient out pool action note memo (some r) h =
      let (a, e) = owner_lenient (amount_of n note) (attributions txid) r in
      let (s, q) = take_owned_lenient out pool action note memo a in (s, ap some (rw e q))

  take_forced_lenient :
      (out : Scanned n) (pool : Pool) (action : t.Action) (note : n.Note) (memo : Bytes)
      (r : Option (Bytes × Bytes))
      → decode memo ≢ none
      → (s : Scanned n) × (take_forced n t fvk txid height attributions true out pool action note
            memo r
          ≡ some (ok s))
  unfolding take_forced
  take_forced_lenient out pool action note memo none h =
      take_deposit_lenient out pool action note memo (decode memo) h
  take_forced_lenient out pool action note memo (some (frame, account)) h = (_, refl)

  take_payment_lenient :
      (out : Scanned n) (pool : Pool) (action : t.Action) (index : ℕ) (note : n.Note) (memo : Bytes)
      (r : Result AppPaymentError AppPaymentMemo)
      → decode memo ≢ none
      → (s : Scanned n) × (take_payment n t fvk txid height attributions true out pool action index
            note memo r
          ≡ some (ok s))
  unfolding take_payment take_reserved
  take_payment_lenient out pool action index note memo (ok payment) h = (_, refl)
  take_payment_lenient out pool action index note memo (err e) h =
      elim (Bool-cases (has_app_payment_tag memo)) [
        | inl c ↦ rw (c, if◌then◌else◌) (_, refl)
        | inr c ↦
            rw (c, if◌then◌else◌)
              (take_forced_lenient out pool action note memo (forced_intent n t memo) h)
      ]

  pub take_lenient :
      (out : Scanned n) (pool : Pool) (action : t.Action) (index : ℕ) (r : Option (n.Note × Bytes))
      → ((note : n.Note) (memo : Bytes) → r ≡ some (note, memo) → decode memo ≢ none)
      → (s : Scanned n) × (take n t fvk txid height attributions true out pool action index r
          ≡ some (ok s))
  unfolding take
  take_lenient out pool action index none h = (_, refl)
  take_lenient out pool action index (some (note, memo)) h =
      elim (Bool-cases (is_anchor memo || is_publication memo)) [
        | inl c ↦ rw (c, if◌then◌else◌) (_, refl)
        | inr c ↦
            rw (c, if◌then◌else◌)
              (take_payment_lenient out pool action index note memo (decode_app_payment memo)
                (h note memo refl))
      ]

  bundle_lenient :
      (pool : Pool) (out : Scanned n) (index : ℕ) (as_ : List t.Action)
      → Readable pool as_
      → index + length as_ < 2 ^ 32
      → (s : Scanned n) × (scan_bundle n t fvk txid height attributions true pool out index as_
          ≡ some (ok (s, index + length as_)))
  unfolding scan_bundle
  bundle_lenient pool out index [] h l =
      let none_more : index ≡ index + 0 = omega arith in
      (out, ap (λ k. some (ok (out, k))) none_more)
  bundle_lenient pool out index (a ∷ as_) h l =
      let (taken, took) = take_lenient out pool a index (t.decrypt pool fvk a) h.0 in
      let room = ne→==_false index (2 ^ 32 - 1) (omega arith) in
      let (s, e) = bundle_lenient pool taken (index + 1) as_ h.1 (omega arith) in
      let count : index + 1 + length as_ ≡ index + length (a ∷ as_) = omega arith in
      (s, rw took (rw (room, if◌then◌else◌) (e ∙ ap (λ k. some (ok (s, k))) count)))

  -- The lenient scan never refuses: of a transaction that parses, that has fewer than 2^32 outputs, and
  -- in which no memo of ours makes the memo reader panic, it returns a report.
  pub scan_lenient :
      (raw : Bytes) (tx : t.Transaction)
      → t.read_transaction raw ≡ some tx
      → length (actions_in n t (t.orchard_bundle tx))
          + length (actions_in n t (t.ironwood_bundle tx))
        < 2 ^ 32
      → Readable orchard (actions_in n t (t.orchard_bundle tx))
      → Readable ironwood (actions_in n t (t.ironwood_bundle tx))
      → (s : Scanned n) × (scan_inner n t fvk txid height attributions true raw ≡ some (ok s))
  unfolding scan_inner scan_parsed
  scan_lenient raw tx e l ho hi =
      let (first, one) =
        bundle_lenient orchard (empty_scan n) 0 (actions_in n t (t.orchard_bundle tx)) ho
          (omega arith) in
      let (second, two) =
        bundle_lenient ironwood first (0 + length (actions_in n t (t.orchard_bundle tx)))
          (actions_in n t (t.ironwood_bundle tx)) hi (omega arith) in
      (second, rw e (rw one (rw two refl)))
