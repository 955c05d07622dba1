-- ===== src/Shielded/Range.antt =====
-- `Scanner` of src/shielded.rs: walks over ranges of blocks, bounded below by the vault's birth and above by
-- the blocks one pass may read. The register of issued addresses is what it is when a pass reads it.
pub mod Passes
pub mod Trees
use zec_multisig.Base.{
  ℕ, zero, suc, ◌+◌, ◌-◌, ◌^◌, ◌%◌, Bool, true, false, ◌&&◌, not, Option, none, some, List, [], ◌∷◌,
  ◌++◌, map, ltb, leb, min, max, if◌then◌else◌, Bytes, Result, ok, err, Answer, and_go, take,
  filter,
}
use zec_multisig.Amount.{Fixed}
use zec_multisig.Notes.{NoteTypes}
use zec_multisig.Memo.AppPayment.{AppPaymentMemo}
use zec_multisig.Memo.Marks.{anchor_len}
use zec_multisig.Watcher.{ObservedDeposit, heights}
use zec_multisig.Zebra.{Observed, set_forced}
use zec_multisig.Zebra
use zec_multisig.Shielded.{
  ScanTypes, ScannedAction, AppPaymentOutput, ForcedSighting, Scanned, ScanError,
}
use zec_multisig.Shielded.Scan.{scan_actions_lenient, no_attributions}
use zec_multisig.Shielded.Classify.{classify_addressed, nothing_issued}
use zec_multisig.Shielded.Feed.{
  RpcError, malformed, Node, ScanRangeError, rpc, unattributable, from_rpc, txid_bytes, PoolStores,
  synced_to, of, Found, Fed, then_feed, nothing_found, spends_ours, feed_block,
}

abbrev pub u64_mod : ℕ
u64_mod = 2 ^ 64

pub record AppPaymentSighting : Type 0 where
  pub txid : Bytes
  pub height : ℕ
  pub tx_index : ℕ
  pub output_index : ℕ
  pub amount : Fixed
  pub payment : AppPaymentMemo

pub record AnchorSighting : Type 0 where
  pub height : ℕ
  pub txid : Bytes
  pub memo : Bytes

-- The fields of `Scanner` but the shared note stores, which are passed in and out.
pub record Scanner (n : NoteTypes) : Type 0 where
  pub keys : n.ViewKey
  pub from_height : ℕ
  pub max_blocks : ℕ
  pub tree_lag : ℕ
  pub attributions : Bytes → Option Bytes
  pub addresses : Bytes → Option Bytes

unfoldable pub new : (n : NoteTypes) → n.ViewKey → ℕ → ℕ → Scanner n
new n keys from_height max_blocks = record {
  keys = keys;
  from_height = from_height;
  max_blocks = max max_blocks 1;
  tree_lag = 0;
  attributions = no_attributions;
  addresses = nothing_issued;
}

-- `start.saturating_add(max_blocks).saturating_sub(1)`.
abbrev pub pass_end : ℕ → ℕ → ℕ
pass_end start max_blocks = min (start + max_blocks) (u64_mod - 1) - 1

module _ (n : NoteTypes) (t : ScanTypes n) (sc : Scanner n) (net : Node) where
  abbrev pub start_of : ℕ → ℕ
  start_of from_ = max from_ sc.from_height

  abbrev pub end_of : ℕ → ℕ → ℕ
  end_of start to = min to (pass_end start sc.max_blocks)

  module _ {A : Type 0} (visit : ℕ → ℕ → Bytes → Scanned n → Result ScanRangeError (List A)) where
    -- What a scanned transaction adds; one that cannot be read adds nothing.
    unfoldable pub visit_scanned :
        ℕ → ℕ → Bytes → Answer ScanError (Scanned n) → Answer ScanRangeError (List A)
    visit_scanned height index txid none = none
    visit_scanned height index txid (some (err e)) = some (ok [])
    visit_scanned height index txid (some (ok scanned)) = some (visit height index txid scanned)

    unfoldable pub visit_raw : ℕ → ℕ → Bytes → Option Bytes → Answer ScanRangeError (List A)
    visit_raw height index raw none = some (ok [])
    visit_raw height index raw (some txid) =
        visit_scanned height index txid (scan_actions_lenient n t sc.keys raw txid height)

    -- The loop over a block's transactions, with their places.
    unfoldable pub visit_txs : ℕ → ℕ → List Bytes → Answer ScanRangeError (List A)
    visit_txs height index [] = some (ok [])
    visit_txs height index (hex ∷ rest) =
        and_go (some (from_rpc (net.raw_transaction_bytes hex))) λ raw.
          and_go (visit_raw height index raw (txid_bytes hex))
            λ found. and_go (visit_txs height (index + 1) rest) λ more. some (ok (found ++ more))

    -- The loop over the heights.
    unfoldable pub visit_blocks : List ℕ → Answer ScanRangeError (List A)
    visit_blocks [] = some (ok [])
    visit_blocks (height ∷ rest) = and_go (some (from_rpc (net.block_txids height))) λ txids.
        and_go (visit_txs height 0 txids)
          λ found. and_go (visit_blocks rest) λ more. some (ok (found ++ more))

    -- One bounded pass: the last height read and what was found.
    unfoldable pub pass : ℕ → ℕ → Answer ScanRangeError (ℕ × List A)
    pass from_ to =
        let start = start_of from_ in
        let last = end_of start to in
        if ltb last start
        then some (ok (min to last, []))
        else and_go (visit_blocks (heights start last)) λ found. some (ok (last, found))

  abbrev pub forced_in : ℕ → ℕ → Bytes → Scanned n → Result ScanRangeError (List ForcedSighting)
  forced_in height index txid scanned = ok scanned.forced

  unfoldable pub forced : ℕ → ℕ → Answer ScanRangeError (ℕ × List ForcedSighting)
  forced from_ to = pass forced_in from_ to

  abbrev pub payment_sighting : ℕ → AppPaymentOutput → AppPaymentSighting
  payment_sighting index output = record {
    txid = output.txid;
    height = output.height;
    tx_index = index;
    output_index = output.output_index;
    amount = output.amount;
    payment = output.payment;
  }

  -- The places of transactions are `u32`.
  unfoldable pub payments_in :
      ℕ → ℕ → Bytes → Scanned n → Result ScanRangeError (List AppPaymentSighting)
  payments_in height index txid scanned =
      if ltb index (2 ^ 32)
      then ok (map (payment_sighting index) scanned.app_payments)
      else err (rpc (malformed []))

  unfoldable pub app_payments : ℕ → ℕ → Answer ScanRangeError (ℕ × List AppPaymentSighting)
  app_payments from_ to = pass payments_in from_ to

  abbrev pub anchor_of : ℕ → Bytes → Option Bytes → List AnchorSighting
  anchor_of height txid none = []
  anchor_of height txid (some memo) =
      record { height = height; txid = txid; memo = take anchor_len memo } ∷ []

  unfoldable pub anchors_of : ℕ → Bytes → List (ScannedAction n) → List AnchorSighting
  anchors_of height txid [] = []
  anchors_of height txid (a ∷ as_) =
      let rest = anchors_of height txid as_ in
      if a.anchor then anchor_of height txid a.memo ++ rest else rest

  abbrev pub anchors_in : ℕ → ℕ → Bytes → Scanned n → Result ScanRangeError (List AnchorSighting)
  anchors_in height index txid scanned = ok (anchors_of height txid scanned.actions)

  unfoldable pub anchors : ℕ → ℕ → Answer ScanRangeError (ℕ × List AnchorSighting)
  anchors from_ to = pass anchors_in from_ to

  -- The blocks fed, in order.
  unfoldable pub feed_range : List ℕ → PoolStores n → Fed n
  feed_range [] s = some (s, ok nothing_found)
  feed_range (height ∷ rest) s =
      then_feed (feed_block n t sc.keys sc.attributions net height s) (feed_range rest)

  -- `synced_to().map(|h| h + 1).unwrap_or(from_height).max(from_height)`.
  unfoldable pub next_height : Option ℕ → ℕ
  next_height none = sc.from_height
  next_height (some h) = max ((h + 1) % u64_mod) sc.from_height

  -- The stores after a call, where the vault keeps stores, with what it returns.
  abbrev pub Walked : Type 0 → Type 0
  Walked A = Option (Option (PoolStores n) × Result ScanRangeError A)

  abbrev pub reached : ℕ → Fed n → Walked ℕ
  reached last none = none
  reached last (some (s, err e)) = some (some s, err e)
  reached last (some (s, ok found)) = some (some s, ok last)

  unfoldable pub sync_notes : Option (PoolStores n) → ℕ → Walked ℕ
  sync_notes none to = some (none, ok to)
  sync_notes (some s) to =
      let start = next_height (synced_to s) in
      let last = end_of start to in
      if ltb last start
      then some (some s, ok (min to (start - 1)))
      else reached last (feed_range (heights start last) s)

  -- The height is in the range that was fed.
  unfoldable pub in_fed : Option (ℕ × ℕ) → ℕ → Bool
  in_fed none height = false
  in_fed (some (a, b)) height = leb a height && leb height b

  unfoldable pub is_own : Option (PoolStores n) → List (ScannedAction n) → Bool
  is_own none actions = false
  is_own (some s) actions = spends_ours n t sc.keys sc.attributions net 0 actions s

  abbrev pub with_forced :
      List ForcedSighting
      → ℕ
      → Result Fixed (List ObservedDeposit)
      → Result ScanRangeError (List Found)
  with_forced forced height (err amount) = err (unattributable height amount)
  with_forced forced height (ok deposits) = ok ((deposits, forced) ∷ [])

  -- A transaction of a block that was not fed in this pass.
  unfoldable pub observe_tx :
      Option (PoolStores n) → ℕ → ℕ → Bytes → Scanned n → Result ScanRangeError (List Found)
  observe_tx s height index txid scanned = with_forced scanned.forced height (
      classify_addressed n scanned (is_own s scanned.actions) (sc.attributions txid) txid height
        sc.addresses)

  abbrev pub gather : Found → List Found → Found
  gather found [] = found
  gather found (f ∷ rest) = gather (found.0 ++ f.0, found.1 ++ f.1) rest

  unfoldable pub observed_of : ℕ → Found → Observed
  observed_of last found = set_forced (Zebra.new last found.0) found.1

  unfoldable pub finish_observe :
      ℕ → Option (PoolStores n) → Found → Answer ScanRangeError (List Found) → Walked Observed
  finish_observe last s found none = none
  finish_observe last s found (some (err e)) = some (s, err e)
  finish_observe last s found (some (ok more)) = some (s, ok (observed_of last (gather found more)))

  -- The second loop of `observe`.
  unfoldable pub observe_rest :
      ℕ → ℕ → Option (PoolStores n) → Option (ℕ × ℕ) → Found → Walked Observed
  observe_rest start last s fed found =
      finish_observe last s found
        (visit_blocks (observe_tx s) (filter (λ h. not (in_fed fed h)) (heights start last)))

  unfoldable pub observe_fed : ℕ → ℕ → ℕ × ℕ → Fed n → Walked Observed
  observe_fed start last fed none = none
  observe_fed start last fed (some (s, err e)) = some (some s, err e)
  observe_fed start last fed (some (s, ok found)) =
      observe_rest start last (some s) (some fed) found

  -- The trees first, contiguously, up to what the lag allows.
  unfoldable pub observe_trees : ℕ → ℕ → ℕ → Option (PoolStores n) → Walked Observed
  observe_trees tip start last none = observe_rest start last none none nothing_found
  observe_trees tip start last (some s) =
      let tree_from = next_height (synced_to s) in
      let tree_to = end_of tree_from (tip - sc.tree_lag) in
      if leb tree_from tree_to
      then observe_fed start last (tree_from, tree_to) (feed_range (heights tree_from tree_to) s)
      else observe_rest start last (some s) none nothing_found

  unfoldable pub observe_from : Option (PoolStores n) → ℕ → Result RpcError ℕ → Walked Observed
  observe_from s from_ (err e) = some (s, err (rpc e))
  observe_from s from_ (ok tip) =
      let start = start_of from_ in
      let last = end_of start tip in
      if ltb last start
      then some (s, ok (Zebra.new (min tip last) []))
      else observe_trees tip start last s

  unfoldable pub observe : Option (PoolStores n) → ℕ → Walked Observed
  observe s from_ = observe_from s from_ net.block_count

  -- Go on with what a pass reached.
  abbrev pub walk_on :
      Walked ℕ → (Option (PoolStores n) → ℕ → Option (Walked ℕ)) → Option (Walked ℕ)
  walk_on none f = some none
  walk_on (some (u, err e)) f = some (some (u, err e))
  walk_on (some (u, ok h)) f = f u h

  -- The loop of `reseed`: walk until the trees are complete to a height. `none` is no more fuel.
  unfoldable pub walk_to : ℕ → ℕ → Option (PoolStores n) → ℕ → Option (Walked ℕ)
  walk_to zero to s synced = if ltb synced to then none else some (some (s, ok synced))
  walk_to (suc fuel) to s synced =
      if ltb synced to
      then walk_on (sync_notes s to) (walk_to fuel to)
      else some (some (s, ok synced))
