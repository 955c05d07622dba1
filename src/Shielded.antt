-- ===== src/Shielded.antt =====
-- src/shielded.rs: seeing shielded deposits. The types of what a scan reports are here, the children
-- have the operations: `Scan` decrypts and reads memos, `Classify` decides what a note is, `Feed` puts
-- a block into the note stores, `Range` walks ranges of blocks; the rest prove what they promise.
--
-- Decryption and parsing belong to other crates: `ScanTypes` is what this file asks of them, over the
-- `NoteTypes` of Notes. A map is the function of its lookup. A scan's answer is `none` where
-- reading a memo panics.
pub mod Scan
pub mod Classify
pub mod Feed
pub mod Range
use zec_multisig.Base.{ℕ, ◌*◌, ◌^◌, Bool, Option, none, List, Bytes}
use zec_multisig.Base.Int.{pos}
use zec_multisig.Amount.{Fixed}
use zec_multisig.Memo.AppPayment.{AppPaymentMemo}
use zec_multisig.Notes.{NoteTypes}
use zec_multisig.Watcher.{ObservedDeposit}

pub data Pool : Type 0 where
  orchard ironwood : Pool

pub record ScanTypes (n : NoteTypes) : Type 1 where
  pub Transaction : Type 0
  pub Action : Type 0
  pub read_transaction : Bytes → Option Transaction
  pub orchard_bundle : Transaction → Option (List Action)
  pub ironwood_bundle : Transaction → Option (List Action)
  pub cmx_of : Action → n.Commitment
  pub nullifier_shown : Action → Bytes
  pub decrypt : Pool → n.ViewKey → Action → Option (n.Note × Bytes)
  pub diversifier_index : n.ViewKey → n.Note → Option Bytes
  pub sha256 : Bytes → Bytes

pub record ScannedAction (n : NoteTypes) : Type 0 where
  pub pool : Pool
  pub cmx : n.Commitment
  pub nullifier : Bytes
  pub ours : Option n.Note
  pub account : Option Bytes
  pub memo : Option Bytes
  pub to_index : Option Bytes
  pub anchor : Bool
  pub forced : Option Bytes
  pub app_payment : Option AppPaymentMemo
  pub app_reserved : Bool

pub record AppPaymentOutput : Type 0 where
  pub txid : Bytes
  pub height : ℕ
  pub output_index : ℕ
  pub amount : Fixed
  pub payment : AppPaymentMemo

pub record ForcedSighting : Type 0 where
  pub txid : Bytes
  pub height : ℕ
  pub amount : Fixed
  pub frame : Bytes

pub record Scanned (n : NoteTypes) : Type 0 where
  pub deposits : List ObservedDeposit
  pub actions : List (ScannedAction n)
  pub forced : List ForcedSighting
  pub app_payments : List AppPaymentOutput

pub data ScanError : Type 0 where
  undecodable : ScanError
  unaddressed_deposit : Fixed → ScanError

-- `Fixed(value as i128 * ZAT)`; a `u64` times 10^10 is an `i128`.
abbrev pub zat : ℕ
zat = 10 ^ 10

abbrev pub amount_of : (n : NoteTypes) → n.Note → Fixed
amount_of n note = pos (n.value_of note * zat)

abbrev pub deposit_at : Bytes → ℕ → Bytes → Fixed → ObservedDeposit
deposit_at txid height account amount = record {
  txid = txid;
  account = account;
  amount = amount;
  height = height;
  asset = none;
}
