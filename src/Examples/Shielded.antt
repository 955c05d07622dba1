-- ===== src/Examples/Shielded.antt =====
-- Scans over toy transactions: an action is what it decrypts to, and a transaction is read from one byte.
use zec_multisig.Base.{
  ℕ, zero, suc, ◌+◌, ◌^◌, ◌≤◌, ◌<◌, ◌≡◌, ◌≢◌, refl, sym, ap, ◌∙◌, Bool, true, false, Option, none,
  some, List, [], ◌∷◌, ◌++◌, replicate, length, arith, Bytes, zeros, Result, ok, err, All, In, inl,
  inr,
}
use zec_multisig.Memo.Deposit.{encode, decode}
use zec_multisig.Memo.Text.Hazards.{typed}
use zec_multisig.Shielded.{orchard, ironwood, ScanTypes, Scanned, deposit_at, amount_of}
use zec_multisig.Shielded.Scan.{
  no_attributions, stranger, plain, scan_inner, scan_parsed, scan_bundle, take, take_payment,
  take_forced, take_deposit, take_owned, owner, forced_intent, index_of,
}
use zec_multisig.Shielded.Scan.Complete.{IsReport, scan_reports}
use zec_multisig.Shielded.Scan.Modes.{scan_lenient}
use zec_multisig.Shielded.Scan.Panics.{scan_panics}
use zec_multisig.Examples.Notes.{toy}

abbrev pub Act : Type 0
Act = Option (ℕ × Bytes)

abbrev pub account : Bytes
account = replicate 32 0xab

abbrev pub deposit_memo : Bytes
deposit_memo = b'Z' ∷ b'E' ∷ b'C' ∷ 1 ∷ (account ++ zeros 476)

abbrev pub silent_memo : Bytes
silent_memo = b'h' ∷ b'i' ∷ zeros 510

-- An accented letter whose two bytes stand in the second and third digit places.
abbrev pub poison_memo : Bytes
poison_memo = typed (b'a' ∷ 0xC3 ∷ 0xA9 ∷ replicate 61 b'a') ++ zeros 443

abbrev pub read_toy : Bytes → Option (List Act × List Act)
read_toy (suc zero ∷ []) = some (none ∷ some (30, deposit_memo) ∷ [], some (20, silent_memo) ∷ [])
read_toy (suc (suc zero) ∷ []) = some (none ∷ some (5, poison_memo) ∷ [], [])
read_toy other = none

abbrev pub toy_scan : ScanTypes toy
toy_scan = record {
  Transaction = List Act × List Act;
  Action = Act;
  read_transaction = read_toy;
  orchard_bundle = λ x. some x.0;
  ironwood_bundle = λ x. some x.1;
  cmx_of = λ a. 1;
  nullifier_shown = λ a. replicate 32 9;
  decrypt = λ p k a. a;
  diversifier_index = λ k v. some (replicate 11 v);
  sha256 = λ b. replicate 32 1;
}

abbrev txid : Bytes
txid = replicate 32 4

abbrev report : Scanned toy
report = record {
  deposits = deposit_at txid 8 account (amount_of toy 30) ∷ [];
  actions =
      stranger toy toy_scan orchard none
      ∷ plain toy toy_scan 7 orchard (some (30, deposit_memo)) 30 deposit_memo (some account)
      ∷ plain toy toy_scan 7 ironwood (some (20, silent_memo)) 20 silent_memo none
      ∷ [];
  forced = [];
  app_payments = [];
}

scanned : scan_inner toy toy_scan 7 txid 8 no_attributions true (1 ∷ []) ≡ some (ok report)
unfolding scan_inner scan_parsed scan_bundle take take_payment take_forced take_deposit take_owned
    owner forced_intent index_of decode zec_multisig.Memo.Deposit.is_text_form
    zec_multisig.Memo.Deposit.decode_binary_form zec_multisig.Memo.Marks.is_anchor
    zec_multisig.Memo.Marks.is_publication zec_multisig.Memo.Marks.publication
    zec_multisig.Memo.AppPayment.decode_app_payment zec_multisig.Memo.AppPayment.has_app_payment_tag
    zec_multisig.Memo.Forced.forced_frame zec_multisig.Memo.Field.has_tag
    zec_multisig.Memo.Field.slice zec_multisig.Memo.Field.byte_at
    zec_multisig.Memo.Field.has_trailing zec_multisig.Base.bytes_eq
scanned = refl

scan_reports_example : IsReport toy toy_scan txid 8 (1 ∷ []) report
scan_reports_example = scan_reports toy toy_scan 7 txid 8 no_attributions true (1 ∷ []) scanned

deposit_readable : decode deposit_memo ≢ none
unfolding decode zec_multisig.Memo.Deposit.is_text_form zec_multisig.Memo.Deposit.decode_binary_form
    zec_multisig.Base.bytes_eq zec_multisig.Memo.Field.has_tag zec_multisig.Memo.Field.slice
    zec_multisig.Memo.Field.byte_at zec_multisig.Memo.Field.has_trailing
deposit_readable = λ e. cc e

silent_readable : decode silent_memo ≢ none
unfolding decode zec_multisig.Memo.Deposit.is_text_form zec_multisig.Memo.Deposit.decode_binary_form
    zec_multisig.Base.bytes_eq zec_multisig.Memo.Field.has_tag zec_multisig.Memo.Field.slice
silent_readable = λ e. cc e

-- A memo that is one of ours is the one that was read.
opened :
    {m b : Bytes} {v w : ℕ}
    → ◌≡◌ {A = Option (ℕ × Bytes)} (some (v, b)) (some (w, m))
    → decode b ≢ none
    → decode m ≢ none
opened e h = λ k. h (ap decode (cc e) ∙ k)

scan_lenient_example :
    (s : Scanned toy) × (scan_inner toy toy_scan 7 txid 8 no_attributions true (1 ∷ [])
      ≡ some (ok s))
scan_lenient_example =
    scan_lenient toy toy_scan 7 txid 8 no_attributions (1 ∷ [])
      (none ∷ some (30, deposit_memo) ∷ [], some (20, silent_memo) ∷ []) refl (omega arith)
      ((λ note memo e. absurd cc), ((λ note memo e. opened e deposit_readable), tt))
      ((λ note memo e. opened e silent_readable), tt)

poisoned : decode poison_memo ≡ none
unfolding decode zec_multisig.Memo.Deposit.is_text_form zec_multisig.Memo.Deposit.decode_text_form
    zec_multisig.Memo.Deposit.text_end zec_multisig.Base.bytes_eq
    zec_multisig.Memo.Field.has_trailing zec_multisig.Memo.Text.is_utf8
    zec_multisig.Memo.Text.decode_text zec_multisig.Memo.Text.trim zec_multisig.Memo.Text.hex_pairs
poisoned = refl

scan_panics_example : scan_inner toy toy_scan 7 txid 8 no_attributions true (2 ∷ []) ≡ none
scan_panics_example =
    scan_panics toy toy_scan 7 txid 8 no_attributions (2 ∷ [])
      (none ∷ some (5, poison_memo) ∷ [], []) refl (omega arith) (inr (inl refl))
      (5, poison_memo, refl, poisoned)
