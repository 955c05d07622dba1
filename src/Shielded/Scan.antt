-- ===== src/Shielded/Scan.antt =====
-- `VaultKeys` of src/shielded.rs: trial decryption of every action of a transaction, and what its memo
-- makes of each note of ours.
pub mod Growth
pub mod Complete
pub mod Modes
pub mod Panics
use zec_multisig.Base.{
  ℕ, ◌+◌, ◌-◌, ◌^◌, Bool, true, false, ◌||◌, Option, none, some, List, [], ◌∷◌, ◌++◌, ◌==◌,
  if◌then◌else◌, Bytes, Result, ok, err, Answer, and_go, and_go-eq-ok, ◌>>=◌, bytes_eq,
}
use zec_multisig.Memo.Marks.{is_anchor, is_publication}
use zec_multisig.Memo.AppPayment.{
  AppPaymentMemo, AppPaymentError, decode_app_payment, has_app_payment_tag,
}
use zec_multisig.Memo.Forced.{forced_frame, forced_account}
use zec_multisig.Memo.Deposit.{decode}
use zec_multisig.Memo.Text.{MemoError}
use zec_multisig.Amount.{Fixed}
use zec_multisig.Notes.{NoteTypes}
use zec_multisig.Watcher.{ObservedDeposit}
use zec_multisig.Shielded.{
  Pool, orchard, ironwood, ScanTypes, ScannedAction, AppPaymentOutput, ForcedSighting, Scanned,
  ScanError, undecodable, unaddressed_deposit, amount_of, deposit_at,
}

-- `BTreeMap::new()`.
abbrev pub no_attributions : Bytes → Option Bytes
no_attributions txid = none

abbrev pub empty_scan : (n : NoteTypes) → Scanned n
empty_scan n = record { deposits = []; actions = []; forced = []; app_payments = [] }

module _ (n : NoteTypes) (t : ScanTypes n) where
  -- `VaultKeys::index_of`.
  unfoldable pub index_of : n.ViewKey → n.Note → Option Bytes
  index_of fvk note = t.diversifier_index fvk note

  -- The actions of a bundle, if the transaction has one.
  abbrev pub actions_in : Option (List t.Action) → List t.Action
  actions_in none = []
  actions_in (some as_) = as_

  -- `output_index.checked_add(1).ok_or(Undecodable)`.
  abbrev pub next_index : ℕ → Scanned n → Answer ScanError (Scanned n × ℕ)
  next_index index out =
      if index == 2 ^ 32 - 1 then some (err undecodable) else some (ok (out, index + 1))

  -- The action that is not ours.
  abbrev pub stranger : Pool → t.Action → ScannedAction n
  stranger pool action = record {
    pool = pool;
    cmx = t.cmx_of action;
    nullifier = t.nullifier_shown action;
    ours = none;
    account = none;
    memo = none;
    to_index = none;
    anchor = false;
    forced = none;
    app_payment = none;
    app_reserved = false;
  }

  -- An ordinary note of ours, with the account that it is for.
  abbrev pub plain : n.ViewKey → Pool → t.Action → n.Note → Bytes → Option Bytes → ScannedAction n
  plain fvk pool action note memo account = record {
    pool = pool;
    cmx = t.cmx_of action;
    nullifier = t.nullifier_shown action;
    ours = some note;
    account = account;
    memo = some memo;
    to_index = index_of fvk note;
    anchor = false;
    forced = none;
    app_payment = none;
    app_reserved = false;
  }

  abbrev pub push : ScannedAction n → Scanned n → Scanned n
  push a out = record out { actions = out.actions ++ a ∷ [] }

  abbrev pub payment_at : Bytes → ℕ → ℕ → n.Note → AppPaymentMemo → AppPaymentOutput
  payment_at txid height index note payment = record {
    txid = txid;
    height = height;
    output_index = index;
    amount = amount_of n note;
    payment = payment;
  }

  abbrev pub sighting_at : Bytes → ℕ → n.Note → Bytes → ForcedSighting
  sighting_at txid height note frame = record {
    txid = txid;
    height = height;
    amount = amount_of n note;
    frame = frame;
  }

  -- The frame that a memo carries and the account that signed it, if both can be read.
  unfoldable pub forced_intent : Bytes → Option (Bytes × Bytes)
  forced_intent memo = do
    frame ← forced_frame memo
    account ← forced_account t.sha256 frame
    some (frame, account)

  -- Whose an unmarked note is: its memo's account, else the operator's attribution of the txid.
  unfoldable pub owner :
      Bool → Fixed → Option Bytes → Result MemoError Bytes → Result ScanError (Option Bytes)
  owner lenient amount attributed (ok account) = ok (some account)
  owner lenient amount (some account) (err e) = ok (some account)
  owner true amount none (err e) = ok none
  owner false amount none (err e) = err (unaddressed_deposit amount)

  module _ (fvk : n.ViewKey) (txid : Bytes) (height : ℕ) (attributions : Bytes → Option Bytes)
      (lenient : Bool) where
    -- What `take` does with an unmarked note once its owner is known.
    unfoldable pub take_owned :
        Scanned n
        → Pool
        → t.Action
        → n.Note
        → Bytes
        → Result ScanError (Option Bytes)
        → Result ScanError (Scanned n)
    take_owned out pool action note memo (err e) = err e
    take_owned out pool action note memo (ok none) =
        ok (push (plain fvk pool action note memo none) out)
    take_owned out pool action note memo (ok (some account)) = ok (
        push (plain fvk pool action note memo (some account)) (record out {
          deposits = out.deposits ++ deposit_at txid height account (amount_of n note) ∷ [];
        }))

    -- A note without a mark: its memo names an account, or does not.
    unfoldable pub take_deposit :
        Scanned n
        → Pool
        → t.Action
        → n.Note
        → Bytes
        → Option (Result MemoError Bytes)
        → Answer ScanError (Scanned n)
    take_deposit out pool action note memo none = none
    take_deposit out pool action note memo (some read) = some (
        take_owned out pool action note memo
          (owner lenient (amount_of n note) (attributions txid) read))

    -- A note that may carry a forced intent.
    unfoldable pub take_forced :
        Scanned n
        → Pool
        → t.Action
        → n.Note
        → Bytes
        → Option (Bytes × Bytes)
        → Answer ScanError (Scanned n)
    take_forced out pool action note memo none =
        take_deposit out pool action note memo (decode memo)
    take_forced out pool action note memo (some (frame, account)) = some (
        ok (
          push (record (plain fvk pool action note memo (some account)) { forced = some frame })
            (record out {
              deposits = out.deposits ++ deposit_at txid height account (amount_of n note) ∷ [];
              forced = out.forced ++ sighting_at txid height note frame ∷ [];
            })))

    -- A note in the application namespace whose memo is malformed.
    unfoldable pub take_reserved :
        Bool → Scanned n → Pool → t.Action → n.Note → Bytes → Answer ScanError (Scanned n)
    take_reserved true out pool action note memo =
        some (ok (push (record (plain fvk pool action note memo none) { app_reserved = true }) out))
    take_reserved false out pool action note memo =
        some (err (unaddressed_deposit (amount_of n note)))

    -- A note that is not the vault's own commitment.
    unfoldable pub take_payment :
        Scanned n
        → Pool
        → t.Action
        → ℕ
        → n.Note
        → Bytes
        → Result AppPaymentError AppPaymentMemo
        → Answer ScanError (Scanned n)
    take_payment out pool action index note memo (ok payment) = some (
        ok (
          push
            (record (plain fvk pool action note memo none) {
              app_payment = some payment;
              app_reserved = true;
            })
            (record out {
              app_payments = out.app_payments ++ payment_at txid height index note payment ∷ [];
            })))
    take_payment out pool action index note memo (err e) =
        if has_app_payment_tag memo
        then take_reserved lenient out pool action note memo
        else take_forced out pool action note memo (forced_intent memo)

    unfoldable pub take :
        Scanned n → Pool → t.Action → ℕ → Option (n.Note × Bytes) → Answer ScanError (Scanned n)
    take out pool action index none = some (ok (push (stranger pool action) out))
    take out pool action index (some (note, memo)) =
        if is_anchor memo || is_publication memo
        then some (ok (push (record (plain fvk pool action note memo none) { anchor = true }) out))
        else take_payment out pool action index note memo (decode_app_payment memo)

    -- The loop over one pool's actions.
    unfoldable pub scan_bundle :
        Pool → Scanned n → ℕ → List t.Action → Answer ScanError (Scanned n × ℕ)
    scan_bundle pool out index [] = some (ok (out, index))
    scan_bundle pool out index (a ∷ as_) =
        and_go (take out pool a index (t.decrypt pool fvk a))
          λ taken. and_go (next_index index taken) λ next. scan_bundle pool next.0 next.1 as_

    unfoldable pub scan_parsed : Option t.Transaction → Answer ScanError (Scanned n)
    scan_parsed none = some (err undecodable)
    scan_parsed (some tx) =
        and_go (scan_bundle orchard (empty_scan n) 0 (actions_in (t.orchard_bundle tx))) λ first.
          and_go (scan_bundle ironwood first.0 first.1 (actions_in (t.ironwood_bundle tx)))
            λ second. some (ok second.0)

    unfoldable pub scan_inner : Bytes → Answer ScanError (Scanned n)
    scan_inner raw = scan_parsed (t.read_transaction raw)

  module _ (fvk : n.ViewKey) where
    unfoldable pub scan_actions_with :
        Bytes → Bytes → ℕ → (Bytes → Option Bytes) → Answer ScanError (Scanned n)
    scan_actions_with raw txid height attributions =
        scan_inner fvk txid height attributions false raw

    unfoldable pub scan_actions : Bytes → Bytes → ℕ → Answer ScanError (Scanned n)
    unfolding scan_actions_with
    scan_actions raw txid height = scan_actions_with raw txid height no_attributions

    unfoldable pub scan_actions_lenient : Bytes → Bytes → ℕ → Answer ScanError (Scanned n)
    scan_actions_lenient raw txid height = scan_inner fvk txid height no_attributions true raw

    unfoldable pub scan_transaction : Bytes → Bytes → ℕ → Answer ScanError (List ObservedDeposit)
    scan_transaction raw txid height =
        and_go (scan_actions raw txid height) λ s. some (ok s.deposits)
