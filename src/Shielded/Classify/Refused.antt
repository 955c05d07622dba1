-- ===== src/Shielded/Classify/Refused.antt =====
-- What `classify_addressed` of src/shielded.rs refuses.
use zec_multisig.Base.{
  ℕ, ◌≡◌, refl, Bool, true, false, ◌||◌, Option, none, some, List, [], ◌∷◌, ◌++◌, In, inl, inr, ◌⊎◌,
  Bytes, Result, ok, err, and_then,
}
use zec_multisig.Amount.{Fixed}
use zec_multisig.Notes.{NoteTypes}
use zec_multisig.Watcher.{ObservedDeposit}
use zec_multisig.Shielded.{ScannedAction, Scanned, amount_of}
use zec_multisig.Shielded.Classify.{
  issued_to, credited_to, is_payment, settled, deposit_to, judge, verdict, classify_from,
  classify_addressed,
}
use zec_multisig.Shielded.Classify.Credited.{unmarked_both}

module _ (n : NoteTypes) (spends_ours : Bool) (attributed : Option Bytes) (txid : Bytes)
    (height : ℕ) (handed_out : Bytes → Option Bytes) where
  -- A note that nobody can attribute, or a malformed application payment.
  pub record IsRefused (amount : Fixed) (a : ScannedAction n) : Type 0 where
    pub note : n.Note
    pub ours : a.ours ≡ some note
    pub amount_is : amount ≡ amount_of n note
    pub no_anchor : a.anchor ≡ false
    pub no_payment : is_payment a.app_payment ≡ false
    pub reason :
        (a.app_reserved ≡ true)
        ⊎ ((issued_to handed_out a.to_index ≡ none)
            × (a.account ≡ none)
            × (spends_ours ≡ false)
            × (attributed ≡ none))

  pub credited_refused :
      (amount : Fixed) (m k : Option Bytes) (s : Bool) {e : Fixed}
      → credited_to amount m s k ≡ err e
      → (e ≡ amount) × (m ≡ none) × (s ≡ false) × (k ≡ none)
  unfolding credited_to
  credited_refused amount (some account) k s h = absurd cc
  credited_refused amount none k true h = absurd cc
  credited_refused amount none (some account) false h = absurd cc
  credited_refused amount none none false h = (cc h, refl, refl, refl)

  settled_refused :
      (a : ScannedAction n) (note : n.Note) (i : Option Bytes) {e : Fixed}
      → settled n spends_ours attributed txid height a note i ≡ err e
      → (e ≡ amount_of n note)
        × (i ≡ none)
        × (a.account ≡ none)
        × (spends_ours ≡ false)
        × (attributed ≡ none)
  unfolding settled
  settled_refused a note (some account) h = absurd cc
  settled_refused a note none h =
      let (x, y, z, w) = credited_refused (amount_of n note) a.account attributed spends_ours h in
      (x, refl, y, z, w)

  judge-IsRefused :
      (a : ScannedAction n) (note : n.Note) (marked reserved : Bool) {e : Fixed}
      → a.ours ≡ some note
      → (a.anchor || is_payment a.app_payment) ≡ marked
      → a.app_reserved ≡ reserved
      → judge n spends_ours attributed txid height marked reserved note
          (settled n spends_ours attributed txid height a note (issued_to handed_out a.to_index))
        ≡ err e
      → IsRefused e a
  unfolding judge
  judge-IsRefused a note true reserved q x z h = absurd cc
  judge-IsRefused a note false true q x z h =
      let (p, k) =
        unmarked_both n spends_ours attributed txid height handed_out a.anchor
          (is_payment a.app_payment) x in
      record {
        note = note;
        ours = q;
        amount_is = cc h;
        no_anchor = p;
        no_payment = k;
        reason = inl z;
      }
  judge-IsRefused a note false false q x z h =
      let (p, k) =
        unmarked_both n spends_ours attributed txid height handed_out a.anchor
          (is_payment a.app_payment) x in
      let (same, i, m, w, k') =
        settled_refused a note (issued_to handed_out a.to_index) (unsettled _ h) in
      record {
        note = note;
        ours = q;
        amount_is = same;
        no_anchor = p;
        no_payment = k;
        reason = inr (i, m, w, k');
      }
    where
      unsettled :
          (r : Result Fixed (Option Bytes)) {e : Fixed}
          → and_then r
              (λ account. ok (deposit_to n spends_ours attributed txid height note account))
            ≡ err e
          → r ≡ err e
      unsettled (ok x) k = absurd cc
      unsettled (err x) k = cc k

  verdict-IsRefused :
      (a : ScannedAction n) (o : Option n.Note) {e : Fixed}
      → a.ours ≡ o
      → verdict n spends_ours attributed txid height handed_out a o ≡ err e
      → IsRefused e a
  unfolding verdict
  verdict-IsRefused a none q h = absurd cc
  verdict-IsRefused a (some note) q h =
      judge-IsRefused a note (a.anchor || is_payment a.app_payment) a.app_reserved q refl refl h

  -- The first action that is refused, or the first one after it.
  either-IsRefused :
      (a : ScannedAction n) (as_ : List (ScannedAction n))
      (v w : Result Fixed (List ObservedDeposit)) {e : Fixed}
      → verdict n spends_ours attributed txid height handed_out a a.ours ≡ v
      → (w ≡ err e → (b : ScannedAction n) × In b as_ × IsRefused e b)
      → and_then v (λ found. and_then w (λ rest. ok (found ++ rest))) ≡ err e
      → (b : ScannedAction n) × In b (a ∷ as_) × IsRefused e b
  either-IsRefused a as_ (err x) w {e} q f k =
      let same : x ≡ e = cc k in (a, inl refl, rw (← same) (verdict-IsRefused a a.ours refl q))
  either-IsRefused a as_ (ok found) (ok rest) q f k = absurd cc
  either-IsRefused a as_ (ok found) (err x) q f k = let (b, m, r) = f (cc k) in (b, inr m, r)

  classify_from_refuses :
      (as_ : List (ScannedAction n)) {e : Fixed}
      → classify_from n spends_ours attributed txid height handed_out as_ ≡ err e
      → (a : ScannedAction n) × In a as_ × IsRefused e a
  unfolding classify_from
  classify_from_refuses [] h = absurd cc
  classify_from_refuses (a ∷ as_) h =
      either-IsRefused a as_ (verdict n spends_ours attributed txid height handed_out a a.ours)
        (classify_from n spends_ours attributed txid height handed_out as_) refl
        (classify_from_refuses as_) h

  -- What classification refuses, it refuses with the amount of a note of ours that nobody can attribute:
  -- it arrived at no issued address, has no memo, its transaction does not spend our own notes and has
  -- no attribution; or of a malformed application payment.
  pub classify_refuses :
      (scanned : Scanned n) {e : Fixed}
      → classify_addressed n scanned spends_ours attributed txid height handed_out ≡ err e
      → (a : ScannedAction n) × In a scanned.actions × IsRefused e a
  unfolding classify_addressed
  classify_refuses scanned h = classify_from_refuses scanned.actions h
