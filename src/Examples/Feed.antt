-- ===== src/Examples/Feed.antt =====
-- Classification, blocks and passes over the toy node store and the toy transactions.
use zec_multisig.Base.{
  ℕ, zero, suc, ◌+◌, ◌-◌, ◌^◌, ◌≤◌, ◌<◌, ◌≡◌, ◌≢◌, refl, sym, ap, ◌∙◌, Bool, true, false, Option,
  none, some, List, [], ◌∷◌, ◌++◌, replicate, length, arith, Bytes, zeros, Result, ok, err, All, In,
  inl, inr, filter, Bool-cases, ltb, if◌then◌else◌,
}
use zec_multisig.Watcher.{ObservedDeposit, heights}
use zec_multisig.Notes.{NoteTypes, NoteStore, HeldNote}
use zec_multisig.Notes.Calls.{IsStore}
use zec_multisig.Shielded.{
  Pool, orchard, ironwood, ScanTypes, ScannedAction, Scanned, ScanError, deposit_at, amount_of,
  ForcedSighting,
}
use zec_multisig.Shielded.Scan.{no_attributions, stranger, plain}
use zec_multisig.Shielded.Classify.{vault_index, classify, classify_addressed, nothing_issued}
use zec_multisig.Shielded.Classify.Credited.{Credits, classify-Credits}
use zec_multisig.Shielded.Classify.Refused.{IsRefused, classify_refuses}
use zec_multisig.Shielded.Feed.{
  Node, io, rpc, unattributable, PoolStores, ScanRangeError, Found, nothing_found, feed_block,
  synced_to,
}
use zec_multisig.Shielded.Feed.Stores.{
  Since, begun, appended, marked, RewindLaws, IsRestored, failed_feed,
}
use zec_multisig.Shielded.Feed.Again.{feed_again}
use zec_multisig.Shielded.Range.{
  Scanner, Walked, new, pass, visit_blocks, forced_in, start_of, walk_to, u64_mod,
}
use zec_multisig.Shielded.Range.Passes.{Answered, DependsOnly, pass_bounds, passes_join}
use zec_multisig.Shielded.Range.Trees.{Arrived, walk_ends}
use zec_multisig.Zebra.{view}
use zec_multisig.Zebra
use zec_multisig.Zebra.Snapshot.{mined_at, deposits_at-new}
use zec_multisig.Examples.Notes.{grow, undo, toy, purse, purse-IsStore}
use zec_multisig.Examples.Shielded.{toy_scan, account, deposit_memo, silent_memo}

abbrev txid : Bytes
txid = replicate 32 4

-- A note with a memo, one at an issued address, and one that is not ours.
abbrev mixed : Scanned toy
mixed = record {
  deposits = [];
  actions =
      plain toy toy_scan 7 orchard (some (30, deposit_memo)) 30 deposit_memo (some account)
      ∷ stranger toy toy_scan orchard none
      ∷ plain toy toy_scan 7 ironwood (some (20, silent_memo)) 20 silent_memo none
      ∷ [];
  forced = [];
  app_payments = [];
}

abbrev issued : Bytes → Option Bytes
issued index = some account

abbrev both_deposits : List ObservedDeposit
both_deposits =
    deposit_at txid 8 account (amount_of toy 30) ∷ deposit_at txid 8 account (amount_of toy 20) ∷ []

credited : classify_addressed toy mixed false none txid 8 issued ≡ ok both_deposits
unfolding classify_addressed zec_multisig.Shielded.Classify.classify_from
    zec_multisig.Shielded.Classify.verdict zec_multisig.Shielded.Classify.judge
    zec_multisig.Shielded.Classify.settled zec_multisig.Shielded.Classify.deposit_to
    zec_multisig.Shielded.Classify.issued_to zec_multisig.Shielded.Classify.unless_nobody
    zec_multisig.Shielded.Scan.index_of zec_multisig.Base.bytes_eq
credited = refl

classify-Credits_example : Credits toy false none txid 8 issued mixed.actions both_deposits
classify-Credits_example = classify-Credits toy false none txid 8 issued mixed credited

refused : classify_addressed toy mixed false none txid 8 nothing_issued ≡ err (amount_of toy 20)
unfolding classify_addressed zec_multisig.Shielded.Classify.classify_from
    zec_multisig.Shielded.Classify.verdict zec_multisig.Shielded.Classify.judge
    zec_multisig.Shielded.Classify.settled zec_multisig.Shielded.Classify.deposit_to
    zec_multisig.Shielded.Classify.issued_to zec_multisig.Shielded.Classify.unless_nobody
    zec_multisig.Shielded.Classify.credited_to zec_multisig.Shielded.Scan.index_of
    zec_multisig.Base.bytes_eq
refused = refl

classify_refuses_example :
    (a : ScannedAction toy) × In a mixed.actions
    × IsRefused toy false none txid 8 nothing_issued (amount_of toy 20) a
classify_refuses_example = classify_refuses toy false none txid 8 nothing_issued mixed refused

abbrev addressed : ScannedAction toy
addressed = plain toy toy_scan 7 ironwood (some (20, silent_memo)) 20 silent_memo none

-- The two answers: a refusal and a deposit.
without_register :
    classify toy (record mixed { actions = addressed ∷ [] }) false none txid 8
    ≡ err (amount_of toy 20)
unfolding classify classify_addressed zec_multisig.Shielded.Classify.classify_from
    zec_multisig.Shielded.Classify.verdict zec_multisig.Shielded.Classify.judge
    zec_multisig.Shielded.Classify.settled zec_multisig.Shielded.Classify.credited_to
    zec_multisig.Shielded.Classify.issued_to zec_multisig.Shielded.Scan.index_of
    zec_multisig.Base.bytes_eq
without_register = refl

with_register :
    classify_addressed toy (record mixed { actions = addressed ∷ [] }) false none txid 8 issued
    ≡ ok (deposit_at txid 8 account (amount_of toy 20) ∷ [])
unfolding classify_addressed zec_multisig.Shielded.Classify.classify_from
    zec_multisig.Shielded.Classify.verdict zec_multisig.Shielded.Classify.judge
    zec_multisig.Shielded.Classify.settled zec_multisig.Shielded.Classify.unless_nobody
    zec_multisig.Shielded.Classify.deposit_to zec_multisig.Shielded.Classify.issued_to
    zec_multisig.Shielded.Scan.index_of zec_multisig.Base.bytes_eq
with_register = refl

-- A node with one transaction in every block from the height 9 on, and one without answers.
abbrev busy : Node
busy = record {
  block_count = ok 12;
  block_txids = λ h. ok (replicate 64 b'0' ∷ []);
  raw_transaction_bytes = λ hex. ok (1 ∷ []);
}

abbrev down : Node
down = record {
  block_count = err io;
  block_txids = λ h. ok (replicate 64 b'0' ∷ []);
  raw_transaction_bytes = λ hex. err io;
}

abbrev stores : PoolStores toy
stores = record { orchard = purse; ironwood = purse }

undo_any : (j k : ℕ) (cs : List ℕ) → undo (j, cs) ≡ undo (k, cs)
undo_any j k [] = refl
undo_any j k (c ∷ cs) = refl

grow-undo : (k : ℕ) (cs : List ℕ) (u : ℕ × List ℕ) → grow (k, cs) ≡ some u → undo u ≡ undo (k, cs)
grow-undo k cs u e = elim (Bool-cases (ltb k (2 ^ 32))) [
  | inl c ↦
      let same : ◌≡◌ {A = ℕ × List ℕ} (suc k, cs) u = cc (rw (c, if◌then◌else◌) at e) in
      rw (← same) (undo_any (suc k) k cs)
  | inr c ↦ absurd (cc (rw (c, if◌then◌else◌) at e))
]

toy-rewinds : (height : ℕ) (t u : ℕ × List ℕ) → Since toy t height u → undo u ≡ some t
toy-rewinds height t _ begun = refl
toy-rewinds height t u (appended {u = v} c e w) = grow-undo v.0 v.1 u e ∙ toy-rewinds height t v w
toy-rewinds height t _ (marked w) = toy-rewinds height t _ w

toy-RewindLaws : RewindLaws toy
toy-RewindLaws = record {
  Takes = λ h t. Unit;
  rewind_back = λ height t u k w. (t, toy-rewinds height t u w, refl, refl);
}

unattributed :
    feed_block toy toy_scan 7 no_attributions busy 8 stores
    ≡ some (stores, err (unattributable 8 (amount_of toy 20)))
unfolding feed_block zec_multisig.Shielded.Feed.already_in zec_multisig.Shielded.Feed.close
    zec_multisig.Shielded.Feed.feed_listed zec_multisig.Shielded.Feed.feed_txs
    zec_multisig.Shielded.Feed.feed_answered zec_multisig.Shielded.Feed.feed_raw
    zec_multisig.Shielded.Feed.txid_bytes zec_multisig.Shielded.Feed.hex_bytes
    zec_multisig.Shielded.Feed.feed_scanned zec_multisig.Shielded.Feed.settle_tx
    zec_multisig.Shielded.Feed.see_all zec_multisig.Shielded.Feed.receive_all
    zec_multisig.Shielded.Feed.spends_ours zec_multisig.Shielded.Feed.of
    zec_multisig.Shielded.Feed.change zec_multisig.Memo.Text.hex_byte
    zec_multisig.Memo.Text.hex_digit zec_multisig.Shielded.Scan.scan_actions_lenient
    zec_multisig.Shielded.Scan.scan_inner zec_multisig.Shielded.Scan.scan_parsed
    zec_multisig.Shielded.Scan.scan_bundle zec_multisig.Shielded.Scan.take
    zec_multisig.Shielded.Scan.take_payment zec_multisig.Shielded.Scan.take_forced
    zec_multisig.Shielded.Scan.take_deposit zec_multisig.Shielded.Scan.take_owned
    zec_multisig.Shielded.Scan.owner zec_multisig.Shielded.Scan.forced_intent
    zec_multisig.Shielded.Scan.index_of zec_multisig.Memo.Deposit.decode
    zec_multisig.Memo.Deposit.is_text_form zec_multisig.Memo.Deposit.decode_binary_form
    zec_multisig.Memo.Marks.is_anchor zec_multisig.Memo.Marks.is_publication
    zec_multisig.Memo.Marks.publication zec_multisig.Memo.AppPayment.decode_app_payment
    zec_multisig.Memo.AppPayment.has_app_payment_tag zec_multisig.Memo.Forced.forced_frame
    zec_multisig.Memo.Field.has_tag zec_multisig.Memo.Field.slice zec_multisig.Memo.Field.byte_at
    zec_multisig.Memo.Field.has_trailing zec_multisig.Base.bytes_eq
    zec_multisig.Shielded.Classify.classify zec_multisig.Shielded.Classify.classify_addressed
    zec_multisig.Shielded.Classify.classify_from zec_multisig.Shielded.Classify.verdict
    zec_multisig.Shielded.Classify.judge zec_multisig.Shielded.Classify.settled
    zec_multisig.Shielded.Classify.deposit_to zec_multisig.Shielded.Classify.issued_to
    zec_multisig.Shielded.Classify.unless_nobody zec_multisig.Shielded.Classify.credited_to
    zec_multisig.Notes.begin_block zec_multisig.Notes.finish_block zec_multisig.Notes.rewind
    zec_multisig.Notes.rewind_on zec_multisig.Notes.retain zec_multisig.Notes.append
    zec_multisig.Notes.append_on zec_multisig.Notes.hold zec_multisig.Notes.spend_nullifier
    zec_multisig.Notes.spend_seen zec_multisig.Notes.spend_held zec_multisig.Notes.record_spent
    zec_multisig.Notes.holds_nullifier zec_multisig.Notes.Calls.receive
    zec_multisig.Notes.Calls.hold_at zec_multisig.Base.Sets.contains
unattributed = refl

failed_feed_example : IsRestored toy purse purse × IsRestored toy purse purse
unfolding toy-RewindLaws
failed_feed_example =
    failed_feed toy toy-RewindLaws toy_scan 7 no_attributions busy 8 stores stores
      (unattributable 8 (amount_of toy 20)) purse-IsStore purse-IsStore tt tt unattributed

abbrev attributed : Bytes → Option Bytes
attributed tx = some account

abbrev kept : ℕ → ℕ → ℕ × HeldNote toy
kept value position =
    (position, record { note = value; position = position; height = 8; txid = zeros 32 })

abbrev fed : PoolStores toy
fed = record {
  orchard = record purse {
    tree = (6, 4 ∷ []);
    held = purse.held ++ kept 30 5 ∷ [];
    appended = 6;
    synced_to = some 8;
  };
  ironwood = record purse {
    tree = (5, 4 ∷ []);
    held = purse.held ++ kept 20 4 ∷ [];
    appended = 5;
    synced_to = some 8;
  };
}

abbrev fed_found : Found
fed_found = (
  deposit_at (zeros 32) 8 account (amount_of toy 30)
      ∷ deposit_at (zeros 32) 8 account (amount_of toy 20)
      ∷ [],
  [],
)

attributed_feed : feed_block toy toy_scan 7 attributed busy 8 stores ≡ some (fed, ok fed_found)
unfolding feed_block zec_multisig.Shielded.Feed.already_in zec_multisig.Shielded.Feed.close
    zec_multisig.Shielded.Feed.feed_listed zec_multisig.Shielded.Feed.feed_txs
    zec_multisig.Shielded.Feed.feed_answered zec_multisig.Shielded.Feed.feed_raw
    zec_multisig.Shielded.Feed.txid_bytes zec_multisig.Shielded.Feed.hex_bytes
    zec_multisig.Shielded.Feed.feed_scanned zec_multisig.Shielded.Feed.settle_tx
    zec_multisig.Shielded.Feed.see_all zec_multisig.Shielded.Feed.receive_all
    zec_multisig.Shielded.Feed.spends_ours zec_multisig.Shielded.Feed.of
    zec_multisig.Shielded.Feed.change zec_multisig.Memo.Text.hex_byte
    zec_multisig.Memo.Text.hex_digit zec_multisig.Shielded.Scan.scan_actions_lenient
    zec_multisig.Shielded.Scan.scan_inner zec_multisig.Shielded.Scan.scan_parsed
    zec_multisig.Shielded.Scan.scan_bundle zec_multisig.Shielded.Scan.take
    zec_multisig.Shielded.Scan.take_payment zec_multisig.Shielded.Scan.take_forced
    zec_multisig.Shielded.Scan.take_deposit zec_multisig.Shielded.Scan.take_owned
    zec_multisig.Shielded.Scan.owner zec_multisig.Shielded.Scan.forced_intent
    zec_multisig.Shielded.Scan.index_of zec_multisig.Memo.Deposit.decode
    zec_multisig.Memo.Deposit.is_text_form zec_multisig.Memo.Deposit.decode_binary_form
    zec_multisig.Memo.Marks.is_anchor zec_multisig.Memo.Marks.is_publication
    zec_multisig.Memo.Marks.publication zec_multisig.Memo.AppPayment.decode_app_payment
    zec_multisig.Memo.AppPayment.has_app_payment_tag zec_multisig.Memo.Forced.forced_frame
    zec_multisig.Memo.Field.has_tag zec_multisig.Memo.Field.slice zec_multisig.Memo.Field.byte_at
    zec_multisig.Memo.Field.has_trailing zec_multisig.Base.bytes_eq
    zec_multisig.Shielded.Classify.classify zec_multisig.Shielded.Classify.classify_addressed
    zec_multisig.Shielded.Classify.classify_from zec_multisig.Shielded.Classify.verdict
    zec_multisig.Shielded.Classify.judge zec_multisig.Shielded.Classify.settled
    zec_multisig.Shielded.Classify.deposit_to zec_multisig.Shielded.Classify.issued_to
    zec_multisig.Shielded.Classify.unless_nobody zec_multisig.Shielded.Classify.credited_to
    zec_multisig.Notes.begin_block zec_multisig.Notes.finish_block zec_multisig.Notes.rewind
    zec_multisig.Notes.rewind_on zec_multisig.Notes.retain zec_multisig.Notes.append
    zec_multisig.Notes.append_on zec_multisig.Notes.hold zec_multisig.Notes.spend_nullifier
    zec_multisig.Notes.spend_seen zec_multisig.Notes.spend_held zec_multisig.Notes.record_spent
    zec_multisig.Notes.holds_nullifier zec_multisig.Notes.Calls.receive
    zec_multisig.Notes.Calls.hold_at zec_multisig.Base.Sets.contains
attributed_feed = refl

feed_again_example : feed_block toy toy_scan 7 attributed down 8 fed ≡ some (fed, ok nothing_found)
feed_again_example =
    feed_again toy toy_scan 7 attributed busy 8 down stores fed fed_found attributed_feed

abbrev scanner : Scanner toy
scanner = record (new toy 7 5 2) { attributions = attributed }

abbrev visit : ℕ → ℕ → Bytes → Scanned toy → Result ScanRangeError (List ForcedSighting)
visit height index id found = forced_in toy toy_scan scanner busy height index id found

first_pass : pass toy toy_scan scanner busy visit 3 9 ≡ some (ok (6, []))
unfolding pass zec_multisig.Shielded.Range.new zec_multisig.Shielded.Range.visit_blocks
    zec_multisig.Shielded.Range.visit_txs zec_multisig.Shielded.Range.visit_raw
    zec_multisig.Shielded.Range.visit_scanned zec_multisig.Shielded.Feed.txid_bytes
    zec_multisig.Shielded.Feed.hex_bytes zec_multisig.Memo.Text.hex_byte
    zec_multisig.Memo.Text.hex_digit zec_multisig.Shielded.Scan.scan_actions_lenient
    zec_multisig.Shielded.Scan.scan_inner zec_multisig.Shielded.Scan.scan_parsed
    zec_multisig.Shielded.Scan.scan_bundle zec_multisig.Shielded.Scan.take
    zec_multisig.Shielded.Scan.take_payment zec_multisig.Shielded.Scan.take_forced
    zec_multisig.Shielded.Scan.take_deposit zec_multisig.Shielded.Scan.take_owned
    zec_multisig.Shielded.Scan.owner zec_multisig.Shielded.Scan.forced_intent
    zec_multisig.Shielded.Scan.index_of zec_multisig.Memo.Deposit.decode
    zec_multisig.Memo.Deposit.is_text_form zec_multisig.Memo.Deposit.decode_binary_form
    zec_multisig.Memo.Marks.is_anchor zec_multisig.Memo.Marks.is_publication
    zec_multisig.Memo.Marks.publication zec_multisig.Memo.AppPayment.decode_app_payment
    zec_multisig.Memo.AppPayment.has_app_payment_tag zec_multisig.Memo.Forced.forced_frame
    zec_multisig.Memo.Field.has_tag zec_multisig.Memo.Field.slice zec_multisig.Memo.Field.byte_at
    zec_multisig.Memo.Field.has_trailing zec_multisig.Base.bytes_eq
first_pass = refl

second_pass : pass toy toy_scan scanner busy visit 7 9 ≡ some (ok (8, []))
unfolding pass zec_multisig.Shielded.Range.new zec_multisig.Shielded.Range.visit_blocks
    zec_multisig.Shielded.Range.visit_txs zec_multisig.Shielded.Range.visit_raw
    zec_multisig.Shielded.Range.visit_scanned zec_multisig.Shielded.Feed.txid_bytes
    zec_multisig.Shielded.Feed.hex_bytes zec_multisig.Memo.Text.hex_byte
    zec_multisig.Memo.Text.hex_digit zec_multisig.Shielded.Scan.scan_actions_lenient
    zec_multisig.Shielded.Scan.scan_inner zec_multisig.Shielded.Scan.scan_parsed
    zec_multisig.Shielded.Scan.scan_bundle zec_multisig.Shielded.Scan.take
    zec_multisig.Shielded.Scan.take_payment zec_multisig.Shielded.Scan.take_forced
    zec_multisig.Shielded.Scan.take_deposit zec_multisig.Shielded.Scan.take_owned
    zec_multisig.Shielded.Scan.owner zec_multisig.Shielded.Scan.forced_intent
    zec_multisig.Shielded.Scan.index_of zec_multisig.Memo.Deposit.decode
    zec_multisig.Memo.Deposit.is_text_form zec_multisig.Memo.Deposit.decode_binary_form
    zec_multisig.Memo.Marks.is_anchor zec_multisig.Memo.Marks.is_publication
    zec_multisig.Memo.Marks.publication zec_multisig.Memo.AppPayment.decode_app_payment
    zec_multisig.Memo.AppPayment.has_app_payment_tag zec_multisig.Memo.Forced.forced_frame
    zec_multisig.Memo.Field.has_tag zec_multisig.Memo.Field.slice zec_multisig.Memo.Field.byte_at
    zec_multisig.Memo.Field.has_trailing zec_multisig.Base.bytes_eq
second_pass = refl

pass_bounds_example :
    (start_of toy toy_scan scanner busy 3 ≤ 6)
    × (6 ≤ 9)
    × (6 < start_of toy toy_scan scanner busy 3 + scanner.max_blocks)
    × Answered toy toy_scan scanner busy visit (start_of toy toy_scan scanner busy 3) 6
    × DependsOnly toy toy_scan scanner busy visit (start_of toy toy_scan scanner busy 3) 6 3 9
unfolding new
pass_bounds_example =
    pass_bounds toy toy_scan scanner busy visit 3 9 (omega arith) (omega arith) (omega arith)
      first_pass

passes_join_example :
    visit_blocks toy toy_scan scanner busy visit (heights (start_of toy toy_scan scanner busy 3) 8)
    ≡ some (ok ([] ++ []))
unfolding new
passes_join_example =
    passes_join toy toy_scan scanner busy visit 3 9 9 first_pass (omega arith) second_pass
      (omega arith)

walk_ends_example :
    (w : Walked toy toy_scan scanner busy ℕ) × (walk_to toy toy_scan scanner busy 4 9
        (some stores)
        5
      ≡ some w)
    × Arrived toy toy_scan scanner busy 9 w
unfolding new synced_to
walk_ends_example =
    walk_ends toy toy_scan scanner busy stores 9 5 4 (omega arith) (omega arith) (omega arith) refl
      (omega arith)

deposits_at-new_example :
    (view (Zebra.new 8 both_deposits)).deposits_at 8 ≡ filter (mined_at 8) both_deposits
deposits_at-new_example = deposits_at-new 8 8 both_deposits
