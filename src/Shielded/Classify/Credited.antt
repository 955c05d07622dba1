-- ===== src/Shielded/Classify/Credited.antt =====
-- What `classify_addressed` of src/shielded.rs credits, and what it leaves alone.
use zec_multisig.Base.{
  ℕ, ◌≡◌, ◌≢◌, refl, Bool, true, false, ◌||◌, Option, none, some, List, [], ◌∷◌, ◌++◌,
  if◌then◌else◌, inl, inr, ◌⊎◌, Bool-cases, Bytes, bytes_eq, bytes_eq_iff, ok, and_then-eq-ok,
}
use zec_multisig.Amount.{Fixed}
use zec_multisig.Notes.{NoteTypes}
use zec_multisig.Watcher.{ObservedDeposit}
use zec_multisig.Shielded.{ScannedAction, Scanned, amount_of, deposit_at}
use zec_multisig.Shielded.Classify.{
  vault_index, nobody, unless_nobody, issued_to, credited_to, is_payment, settled, deposit_to,
  judge, verdict, classify_from, classify_addressed,
}

module _ (n : NoteTypes) (spends_ours : Bool) (attributed : Option Bytes) (txid : Bytes)
    (height : ℕ) (handed_out : Bytes → Option Bytes) where
  -- Why a note is an account's: it arrived at the deposit address issued to the account; or at no issued
  -- address, and its memo names the account; or it has no memo either, its transaction does not spend
  -- our own notes, and the operator attributed the transaction.
  pub data Owned (a : ScannedAction n) (account : Bytes) : Type 0 where
    by_address :
        (index : Bytes)
        → a.to_index ≡ some index
        → index ≢ vault_index
        → handed_out index ≡ some account
        → Owned a account
    by_memo : issued_to handed_out a.to_index ≡ none → a.account ≡ some account → Owned a account
    by_operator :
        issued_to handed_out a.to_index ≡ none
        → a.account ≡ none
        → spends_ours ≡ false
        → attributed ≡ some account
        → Owned a account

  -- Why an action is not credited.
  pub data Skipped (a : ScannedAction n) : Type 0 where
    not_ours : a.ours ≡ none → Skipped a
    own_commitment : a.anchor ≡ true → Skipped a
    app_payment : is_payment a.app_payment ≡ true → Skipped a
    topup : Owned a nobody → Skipped a
    change :
        issued_to handed_out a.to_index ≡ none → a.account ≡ none → spends_ours ≡ true → Skipped a

  -- One note of ours, credited in full to the account that it is for.
  pub record IsCredit (a : ScannedAction n) (d : ObservedDeposit) : Type 0 where
    pub note : n.Note
    pub ours : a.ours ≡ some note
    pub deposit : d ≡ deposit_at txid height d.account (amount_of n note)
    pub owned : Owned a d.account
    pub somebody : d.account ≢ nobody
    pub no_anchor : a.anchor ≡ false
    pub no_payment : is_payment a.app_payment ≡ false
    pub not_reserved : a.app_reserved ≡ false

  -- The deposits of a list of actions: each action is credited once or skipped, in order.
  pub data Credits : List (ScannedAction n) → List ObservedDeposit → Type 0 where
    none_left : Credits [] []
    skip :
        {a : ScannedAction n} {as_ : List (ScannedAction n)} {ds : List ObservedDeposit}
        → Skipped a
        → Credits as_ ds
        → Credits (a ∷ as_) ds
    take_one :
        {a : ScannedAction n} {as_ : List (ScannedAction n)} {d : ObservedDeposit}
        {ds : List ObservedDeposit}
        → IsCredit a d
        → Credits as_ ds
        → Credits (a ∷ as_) (d ∷ ds)

  -- What a verdict on one action may be.
  Judged : ScannedAction n → List ObservedDeposit → Type 0
  Judged a ds = (Skipped a × (ds ≡ [])) ⊎ ((d : ObservedDeposit) × (ds ≡ d ∷ []) × IsCredit a d)

  issued-Owned :
      (a : ScannedAction n) (o : Option Bytes) (account : Bytes)
      → a.to_index ≡ o
      → issued_to handed_out o ≡ some account
      → Owned a account
  unfolding issued_to
  issued-Owned a none account e h = absurd cc
  issued-Owned a (some index) account e h = elim (Bool-cases (bytes_eq index vault_index)) [
    | inl c ↦ absurd (cc (rw (c, if◌then◌else◌) at h))
    | inr c ↦
        by_address index e (λ q. cc (c, (bytes_eq_iff index vault_index).1 q))
          (rw (c, if◌then◌else◌) at h)
  ]

  -- The account that a verdict settles on, if any, owns the note.
  named-Judged :
      (a : ScannedAction n) (note : n.Note) (account : Bytes)
      → a.ours ≡ some note
      → a.anchor ≡ false
      → is_payment a.app_payment ≡ false
      → a.app_reserved ≡ false
      → Owned a account
      → Judged a (deposit_to n spends_ours attributed txid height note (unless_nobody account))
  unfolding Judged deposit_to unless_nobody
  named-Judged a note account o x y z w = elim (Bool-cases (bytes_eq account nobody)) [
    | inl c ↦
        rw (c, if◌then◌else◌) (inl (topup (rw ((bytes_eq_iff account nobody).0 c) at w), refl))
    | inr c ↦
        rw (c, if◌then◌else◌)
          (inr (
            deposit_at txid height account (amount_of n note),
            refl,
            record {
              note = note;
              ours = o;
              deposit = refl;
              owned = w;
              somebody = λ q. cc (c, (bytes_eq_iff account nobody).1 q);
              no_anchor = x;
              no_payment = y;
              not_reserved = z;
            },
          ))
  ]

  credited-Judged :
      (a : ScannedAction n) (note : n.Note) (amount : Fixed) (m k : Option Bytes) (s : Bool)
      {r : Option Bytes}
      → a.ours ≡ some note
      → a.anchor ≡ false
      → is_payment a.app_payment ≡ false
      → a.app_reserved ≡ false
      → issued_to handed_out a.to_index ≡ none
      → a.account ≡ m
      → spends_ours ≡ s
      → attributed ≡ k
      → credited_to amount m s k ≡ ok r
      → Judged a (deposit_to n spends_ours attributed txid height note r)
  unfolding credited_to Judged deposit_to
  credited-Judged a note amount (some account) k s {r} o x y z i em es ek h =
      let same : unless_nobody account ≡ r = cc h in
      rw (← same) (named-Judged a note account o x y z (by_memo i em))
  credited-Judged a note amount none k true {r} o x y z i em es ek h =
      let same : none ≡ r = cc h in rw (← same) (inl (change i em es, refl))
  credited-Judged a note amount none (some account) false {r} o x y z i em es ek h =
      let same : unless_nobody account ≡ r = cc h in
      rw (← same) (named-Judged a note account o x y z (by_operator i em es ek))
  credited-Judged a note amount none none false o x y z i em es ek h = absurd cc

  settled-Judged :
      (a : ScannedAction n) (note : n.Note) (i : Option Bytes) {r : Option Bytes}
      → a.ours ≡ some note
      → a.anchor ≡ false
      → is_payment a.app_payment ≡ false
      → a.app_reserved ≡ false
      → issued_to handed_out a.to_index ≡ i
      → settled n spends_ours attributed txid height a note i ≡ ok r
      → Judged a (deposit_to n spends_ours attributed txid height note r)
  unfolding settled
  settled-Judged a note (some account) {r} o x y z i h =
      let same : unless_nobody account ≡ r = cc h in
      rw (← same) (named-Judged a note account o x y z (issued-Owned a a.to_index account refl i))
  settled-Judged a note none o x y z i h =
      credited-Judged a note (amount_of n note) a.account attributed spends_ours o x y z i refl refl
        refl h

  marked_cases : (a : ScannedAction n) → (a.anchor || is_payment a.app_payment) ≡ true → Skipped a
  marked_cases a h = elim (Bool-cases a.anchor) [
    | inl x ↦ own_commitment x
    | inr x ↦ app_payment (or_right a.anchor _ x h)
  ]
    where
      or_right : (x y : Bool) → x ≡ false → (x || y) ≡ true → y ≡ true
      or_right true y e k = absurd cc
      or_right false y e k = k

  pub unmarked_both : (x y : Bool) → (x || y) ≡ false → (x ≡ false) × (y ≡ false)
  unmarked_both true y h = absurd cc
  unmarked_both false y h = (refl, h)

  judge-Judged :
      (a : ScannedAction n) (note : n.Note) (marked reserved : Bool) {ds : List ObservedDeposit}
      → a.ours ≡ some note
      → (a.anchor || is_payment a.app_payment) ≡ marked
      → a.app_reserved ≡ reserved
      → judge n spends_ours attributed txid height marked reserved note
          (settled n spends_ours attributed txid height a note (issued_to handed_out a.to_index))
        ≡ ok ds
      → Judged a ds
  unfolding judge Judged
  judge-Judged a note true reserved e x z h = inl (marked_cases a x, cc h)
  judge-Judged a note false true e x z h = absurd cc
  judge-Judged a note false false {ds} e x z h =
      let (r, q, d) = and_then-eq-ok _ _ h in
      let same : deposit_to n spends_ours attributed txid height note r ≡ ds = cc d in
      let (p, k) = unmarked_both a.anchor (is_payment a.app_payment) x in
      rw (← same) (settled-Judged a note (issued_to handed_out a.to_index) e p k z refl q)

  verdict-Judged :
      (a : ScannedAction n) (o : Option n.Note) {ds : List ObservedDeposit}
      → a.ours ≡ o
      → verdict n spends_ours attributed txid height handed_out a o ≡ ok ds
      → Judged a ds
  unfolding verdict Judged
  verdict-Judged a none e h = inl (not_ours e, cc h)
  verdict-Judged a (some note) e h =
      judge-Judged a note (a.anchor || is_payment a.app_payment) a.app_reserved e refl refl h

  Judged-Credits :
      (a : ScannedAction n) (found : List ObservedDeposit) {as_ : List (ScannedAction n)}
      {ds : List ObservedDeposit}
      → Judged a found
      → Credits as_ ds
      → Credits (a ∷ as_) (found ++ ds)
  unfolding Judged
  Judged-Credits a found {as_} {ds} (inl (s, e)) c = rw e (skip s c)
  Judged-Credits a found {as_} {ds} (inr (d, e, i)) c = rw e (take_one i c)

  classify_from-Credits :
      (as_ : List (ScannedAction n)) {ds : List ObservedDeposit}
      → classify_from n spends_ours attributed txid height handed_out as_ ≡ ok ds
      → Credits as_ ds
  unfolding classify_from
  classify_from-Credits [] {ds} h = let same : [] ≡ ds = cc h in rw (← same) none_left
  classify_from-Credits (a ∷ as_) {ds} h =
      let (found, one, rest) = and_then-eq-ok _ _ h in
      let (more, two, last) = and_then-eq-ok _ _ rest in
      let same : found ++ more ≡ ds = cc last in
      rw (← same)
        (Judged-Credits a found (verdict-Judged a a.ours refl one) (classify_from-Credits as_ two))

  -- What classification accepts, it credits exactly so: each note of ours in full, once, in order, to the
  -- account that owns it, and to nobody for the vault's own commitments, application payments, top-ups
  -- and change.
  pub classify-Credits :
      (scanned : Scanned n) {ds : List ObservedDeposit}
      → classify_addressed n scanned spends_ours attributed txid height handed_out ≡ ok ds
      → Credits scanned.actions ds
  unfolding classify_addressed
  classify-Credits scanned h = classify_from-Credits scanned.actions h
