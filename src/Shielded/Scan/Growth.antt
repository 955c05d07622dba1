-- ===== src/Shielded/Scan/Growth.antt =====
-- What `take` of src/shielded.rs adds to a scan: one action, and what that action stands for.
use zec_multisig.Base.{
  ℕ, ◌≡◌, refl, sym, ap, Bool, true, false, ◌||◌, Option, none, some, List, [], ◌∷◌, ◌++◌,
  if◌then◌else◌, Bytes, Result, ok, err, Bool-cases, inl, inr,
}
use mathlib.Core.List.{append-nil}
use zec_multisig.Memo.Marks.{is_anchor, is_publication}
use zec_multisig.Memo.AppPayment.{
  AppPaymentMemo, AppPaymentError, decode_app_payment, has_app_payment_tag,
}
use zec_multisig.Memo.Deposit.{decode}
use zec_multisig.Memo.Text.{MemoError}
use zec_multisig.Notes.{NoteTypes}
use zec_multisig.Watcher.{ObservedDeposit}
use zec_multisig.Shielded.{
  Pool, ScanTypes, ScannedAction, AppPaymentOutput, ForcedSighting, Scanned, ScanError, amount_of,
  deposit_at,
}
use zec_multisig.Shielded.Scan.{
  stranger, plain, push, payment_at, sighting_at, forced_intent, owner, take_owned, take_deposit,
  take_forced, take_reserved, take_payment, take,
}

module _ (n : NoteTypes) (t : ScanTypes n) where
  -- The deposit that an action stands for, if it stands for one.
  unfoldable pub deposit_of : Bytes → ℕ → Option n.Note → Option Bytes → List ObservedDeposit
  deposit_of txid height none account = []
  deposit_of txid height (some note) none = []
  deposit_of txid height (some note) (some account) =
      deposit_at txid height account (amount_of n note) ∷ []

  unfoldable pub forced_of : Bytes → ℕ → Option n.Note → Option Bytes → List ForcedSighting
  forced_of txid height none frame = []
  forced_of txid height (some note) none = []
  forced_of txid height (some note) (some frame) = sighting_at n t txid height note frame ∷ []

  unfoldable pub payment_of :
      Bytes → ℕ → ℕ → Option n.Note → Option AppPaymentMemo → List AppPaymentOutput
  payment_of txid height index none payment = []
  payment_of txid height index (some note) none = []
  payment_of txid height index (some note) (some payment) =
      payment_at n t txid height index note payment ∷ []

  -- The scan `s` is the scan `out` with one more action, and what that action stands for.
  pub record Grown (txid : Bytes) (height index : ℕ) (pool : Pool) (action : t.Action)
      (out s : Scanned n) : Type 0 where
    pub new : ScannedAction n
    pub actions : s.actions ≡ out.actions ++ new ∷ []
    pub deposits : s.deposits ≡ out.deposits ++ deposit_of txid height new.ours new.account
    pub forced : s.forced ≡ out.forced ++ forced_of txid height new.ours new.forced
    pub app_payments :
        s.app_payments ≡ out.app_payments ++ payment_of txid height index new.ours new.app_payment
    pub same_pool : new.pool ≡ pool
    pub same_cmx : new.cmx ≡ t.cmx_of action
    pub same_nullifier : new.nullifier ≡ t.nullifier_shown action

  module _ (fvk : n.ViewKey) (txid : Bytes) (height : ℕ) (attributions : Bytes → Option Bytes)
      (lenient : Bool) where
    abbrev Grows : ℕ → Pool → t.Action → Scanned n → Scanned n → Type 0
    Grows index pool action out s = Grown txid height index pool action out s

    -- `u` is `out` with what the action `a` stands for, the action itself is then pushed.
    pushed :
        (a : ScannedAction n) (out u : Scanned n) (index : ℕ) (pool : Pool) (action : t.Action)
        {s : Scanned n}
        → push n t a u ≡ s
        → u.actions ≡ out.actions
        → u.deposits ≡ out.deposits ++ deposit_of txid height a.ours a.account
        → u.forced ≡ out.forced ++ forced_of txid height a.ours a.forced
        → u.app_payments ≡ out.app_payments ++ payment_of txid height index a.ours a.app_payment
        → a.pool ≡ pool
        → a.cmx ≡ t.cmx_of action
        → a.nullifier ≡ t.nullifier_shown action
        → Grows index pool action out s
    pushed a out u index pool action h ea ed ef ep x y z = rw (← h) (record {
      new = a;
      actions = ap (λ l. l ++ a ∷ []) ea;
      deposits = ed;
      forced = ef;
      app_payments = ep;
      same_pool = x;
      same_cmx = y;
      same_nullifier = z;
    })

    take_owned-Grows :
        (out : Scanned n) (pool : Pool) (action : t.Action) (index : ℕ) (note : n.Note)
        (memo : Bytes) (r : Result ScanError (Option Bytes)) {s : Scanned n}
        → take_owned n t fvk txid height attributions lenient out pool action note memo r ≡ ok s
        → Grows index pool action out s
    unfolding take_owned deposit_of forced_of payment_of
    take_owned-Grows out pool action index note memo (err e) h = absurd cc
    take_owned-Grows out pool action index note memo (ok none) h =
        pushed (plain n t fvk pool action note memo none) out out index pool action (cc h) refl
          (sym (append-nil out.deposits)) (sym (append-nil out.forced))
          (sym (append-nil out.app_payments)) refl refl refl
    take_owned-Grows out pool action index note memo (ok (some account)) h =
        pushed (plain n t fvk pool action note memo (some account)) out _ index pool action (cc h)
          refl refl (sym (append-nil out.forced)) (sym (append-nil out.app_payments)) refl refl refl

    take_deposit-Grows :
        (out : Scanned n) (pool : Pool) (action : t.Action) (index : ℕ) (note : n.Note)
        (memo : Bytes) (r : Option (Result MemoError Bytes)) {s : Scanned n}
        → take_deposit n t fvk txid height attributions lenient out pool action note memo r
          ≡ some (ok s)
        → Grows index pool action out s
    unfolding take_deposit
    take_deposit-Grows out pool action index note memo none h = absurd cc
    take_deposit-Grows out pool action index note memo (some r) h =
        take_owned-Grows out pool action index note memo
          (owner n t lenient (amount_of n note) (attributions txid) r) (cc h)

    take_forced-Grows :
        (out : Scanned n) (pool : Pool) (action : t.Action) (index : ℕ) (note : n.Note)
        (memo : Bytes) (r : Option (Bytes × Bytes)) {s : Scanned n}
        → take_forced n t fvk txid height attributions lenient out pool action note memo r
          ≡ some (ok s)
        → Grows index pool action out s
    unfolding take_forced deposit_of forced_of payment_of
    take_forced-Grows out pool action index note memo none h =
        take_deposit-Grows out pool action index note memo (decode memo) h
    take_forced-Grows out pool action index note memo (some (frame, account)) h =
        pushed (record (plain n t fvk pool action note memo (some account)) { forced = some frame })
          out _ index pool action (cc h) refl refl refl (sym (append-nil out.app_payments)) refl
          refl refl

    take_reserved-Grows :
        (b : Bool) (out : Scanned n) (pool : Pool) (action : t.Action) (index : ℕ) (note : n.Note)
        (memo : Bytes) {s : Scanned n}
        → take_reserved n t fvk txid height attributions lenient b out pool action note memo
          ≡ some (ok s)
        → Grows index pool action out s
    unfolding take_reserved deposit_of forced_of payment_of
    take_reserved-Grows false out pool action index note memo h = absurd cc
    take_reserved-Grows true out pool action index note memo h =
        pushed (record (plain n t fvk pool action note memo none) { app_reserved = true }) out out
          index pool action (cc h) refl (sym (append-nil out.deposits))
          (sym (append-nil out.forced)) (sym (append-nil out.app_payments)) refl refl refl

    take_payment-Grows :
        (out : Scanned n) (pool : Pool) (action : t.Action) (index : ℕ) (note : n.Note)
        (memo : Bytes) (r : Result AppPaymentError AppPaymentMemo) {s : Scanned n}
        → take_payment n t fvk txid height attributions lenient out pool action index note memo r
          ≡ some (ok s)
        → Grows index pool action out s
    unfolding take_payment deposit_of forced_of payment_of
    take_payment-Grows out pool action index note memo (ok payment) h =
        pushed
          (record (plain n t fvk pool action note memo none) {
            app_payment = some payment;
            app_reserved = true;
          })
          out _ index pool action (cc h) refl (sym (append-nil out.deposits))
          (sym (append-nil out.forced)) refl refl refl refl
    take_payment-Grows out pool action index note memo (err e) h =
        elim (Bool-cases (has_app_payment_tag memo)) [
          | inl c ↦
              take_reserved-Grows lenient out pool action index note memo
                (rw (c, if◌then◌else◌) at h)
          | inr c ↦
              take_forced-Grows out pool action index note memo (forced_intent n t memo)
                (rw (c, if◌then◌else◌) at h)
        ]

    pub take-Grows :
        (out : Scanned n) (pool : Pool) (action : t.Action) (index : ℕ)
        (r : Option (n.Note × Bytes)) {s : Scanned n}
        → take n t fvk txid height attributions lenient out pool action index r ≡ some (ok s)
        → Grows index pool action out s
    unfolding take deposit_of forced_of payment_of
    take-Grows out pool action index none h =
        pushed (stranger n t pool action) out out index pool action (cc h) refl
          (sym (append-nil out.deposits)) (sym (append-nil out.forced))
          (sym (append-nil out.app_payments)) refl refl refl
    take-Grows out pool action index (some (note, memo)) h =
        elim (Bool-cases (is_anchor memo || is_publication memo)) [
          | inl c ↦
              pushed (record (plain n t fvk pool action note memo none) { anchor = true }) out out
                index pool action (cc (rw (c, if◌then◌else◌) at h)) refl
                (sym (append-nil out.deposits)) (sym (append-nil out.forced))
                (sym (append-nil out.app_payments)) refl refl refl
          | inr c ↦
              take_payment-Grows out pool action index note memo (decode_app_payment memo)
                (rw (c, if◌then◌else◌) at h)
        ]
