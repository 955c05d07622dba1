-- ===== src/Shielded/Feed.antt =====
-- `feed_block` of src/shielded.rs: one block into the two note stores, and the deposits and forced intents
-- in it. The node's answers during the call are a record of functions; the locks of the two stores are
-- taken to be free. The answer is the stores with a result, and none where a scan panics.
pub mod Calls
pub mod Stores
pub mod Again
use zec_multisig.Base.{
  ℕ, Bool, true, false, ◌||◌, not, Option, none, some, List, [], ◌∷◌, ◌++◌, if◌then◌else◌, leb, min,
  any, length, ◌==◌, Bytes, Result, ok, err, and_then, ◌>>=◌, suc, zero, Answer,
}
use mathlib.Core.List.{reverse}
use zec_multisig.Amount.{Fixed}
use zec_multisig.Memo.Text.{hex_byte}
use zec_multisig.Notes.{
  NoteTypes, NoteStore, spend_nullifier, holds_nullifier, begin_block, finish_block, rewind,
}
use zec_multisig.Notes.Calls.{receive}
use zec_multisig.Watcher.{ObservedDeposit}
use zec_multisig.Shielded.{
  Pool, orchard, ironwood, ScanTypes, ScannedAction, Scanned, ScanError, ForcedSighting,
}
use zec_multisig.Shielded.Scan.{scan_actions_lenient}
use zec_multisig.Shielded.Classify.{classify}

-- `zebra::RpcError`.
pub data RpcError : Type 0 where
  io : RpcError
  malformed : Bytes → RpcError
  node : Bytes → RpcError
  refusing_mainnet : RpcError
  wrong_chain : Bytes → Bytes → RpcError
  non_integer_amount : RpcError

-- What the node answers: `block_count`, `block_txids`, `raw_transaction_bytes`.
pub record Node : Type 0 where
  pub block_count : Result RpcError ℕ
  pub block_txids : ℕ → Result RpcError (List Bytes)
  pub raw_transaction_bytes : Bytes → Result RpcError Bytes

pub data ScanRangeError : Type 0 where
  rpc : RpcError → ScanRangeError
  unattributable : ℕ → Fixed → ScanRangeError

-- `map_err` with `ScanRangeError::from`.
abbrev pub from_rpc : {A : Type 0} → Result RpcError A → Result ScanRangeError A
from_rpc (ok a) = ok a
from_rpc (err e) = err (rpc e)

-- The pairs of digits, in order.
unfoldable pub hex_bytes : ℕ → Bytes → Option Bytes
hex_bytes zero text = some []
hex_bytes (suc k) [] = none
hex_bytes (suc k) (a ∷ []) = none
hex_bytes (suc k) (a ∷ b ∷ text) = do v ← hex_byte a b; rest ← hex_bytes k text; some (v ∷ rest)

unfoldable pub txid_bytes : Bytes → Option Bytes
txid_bytes hex =
    if not (length hex == 64) then none else do out ← hex_bytes 32 hex; some (reverse out)

pub record PoolStores (n : NoteTypes) : Type 0 where
  pub orchard : NoteStore n
  pub ironwood : NoteStore n

-- `PoolStores::of`.
unfoldable pub of : {n : NoteTypes} → Pool → PoolStores n → NoteStore n
of orchard s = s.orchard
of ironwood s = s.ironwood

-- One pool's store changed.
unfoldable pub change :
    {n : NoteTypes} → Pool → (NoteStore n → NoteStore n) → PoolStores n → PoolStores n
change orchard f s = record s { orchard = f s.orchard }
change ironwood f s = record s { ironwood = f s.ironwood }

abbrev pub both : {n : NoteTypes} → (NoteStore n → NoteStore n) → PoolStores n → PoolStores n
both f s = record { orchard = f s.orchard; ironwood = f s.ironwood }

-- `PoolStores::synced_to`.
unfoldable pub synced_to : {n : NoteTypes} → PoolStores n → Option ℕ
synced_to s = do a ← s.orchard.synced_to; b ← s.ironwood.synced_to; some (min a b)

abbrev pub Found : Type 0
Found = List ObservedDeposit × List ForcedSighting

-- The stores after a call, with what it returns.
abbrev pub Fed : NoteTypes → Type 0
Fed n = Option (PoolStores n × Result ScanRangeError Found)

abbrev pub joined : {n : NoteTypes} → Found → Fed n → Fed n
joined found none = none
joined found (some (s, err e)) = some (s, err e)
joined found (some (s, ok more)) = some (s, ok (found.0 ++ more.0, found.1 ++ more.1))

-- Go on with the stores that a step leaves, unless it failed.
abbrev pub then_feed : {n : NoteTypes} → Fed n → (PoolStores n → Fed n) → Fed n
then_feed none f = none
then_feed (some (s, err e)) f = some (s, err e)
then_feed (some (s, ok found)) f = joined found (f s)

-- Both trees are complete to this height.
unfoldable pub already_in : ℕ → Option ℕ → Option ℕ → Bool
already_in height (some a) (some b) = leb height (min a b)
already_in height none b = false
already_in height (some a) none = false

abbrev pub nothing_found : Found
nothing_found = ([], [])

module _ (n : NoteTypes) (t : ScanTypes n) (fvk : n.ViewKey) (attributions : Bytes → Option Bytes)
    (net : Node) (height : ℕ) where
  -- The transaction reveals a nullifier of a note of ours.
  unfoldable pub spends_ours : List (ScannedAction n) → PoolStores n → Bool
  spends_ours actions s = any (λ a. holds_nullifier n fvk a.nullifier (of a.pool s)) actions

  abbrev pub see_action : ScannedAction n → PoolStores n → PoolStores n
  see_action a s = change a.pool (λ u. (spend_nullifier n fvk a.nullifier u).1) s

  unfoldable pub see_all : List (ScannedAction n) → PoolStores n → PoolStores n
  see_all [] s = s
  see_all (a ∷ as_) s = see_all as_ (see_action a s)

  abbrev pub receive_action : Bytes → ScannedAction n → PoolStores n → PoolStores n
  receive_action txid a s = change a.pool (receive n a.cmx a.ours height txid) s

  unfoldable pub receive_all : Bytes → List (ScannedAction n) → PoolStores n → PoolStores n
  receive_all txid [] s = s
  receive_all txid (a ∷ as_) s = receive_all txid as_ (receive_action txid a s)

  -- A transaction whose spends are applied, classified.
  unfoldable pub settle_tx :
      Bytes → Scanned n → PoolStores n → Result Fixed (List ObservedDeposit) → Fed n
  settle_tx txid scanned s (err amount) = some (s, err (unattributable height amount))
  settle_tx txid scanned s (ok deposits) =
      some (receive_all txid scanned.actions s, ok (deposits, scanned.forced))

  unfoldable pub feed_scanned : Bytes → PoolStores n → Answer ScanError (Scanned n) → Fed n
  feed_scanned txid s none = none
  feed_scanned txid s (some (err e)) = some (s, ok nothing_found)
  feed_scanned txid s (some (ok scanned)) =
      settle_tx txid scanned (see_all scanned.actions s)
        (classify n scanned (spends_ours scanned.actions s) (attributions txid) txid height)

  unfoldable pub feed_raw : PoolStores n → Bytes → Option Bytes → Fed n
  feed_raw s raw none = some (s, ok nothing_found)
  feed_raw s raw (some txid) = feed_scanned txid s (scan_actions_lenient n t fvk raw txid height)

  unfoldable pub feed_answered : PoolStores n → Bytes → Result RpcError Bytes → Fed n
  feed_answered s hex (err e) = some (s, err (rpc e))
  feed_answered s hex (ok raw) = feed_raw s raw (txid_bytes hex)

  -- The loop over the block's transactions.
  unfoldable pub feed_txs : List Bytes → PoolStores n → Fed n
  feed_txs [] s = some (s, ok nothing_found)
  feed_txs (hex ∷ rest) s =
      then_feed (feed_answered s hex (net.raw_transaction_bytes hex)) (feed_txs rest)

  unfoldable pub feed_listed : PoolStores n → Result RpcError (List Bytes) → Fed n
  feed_listed s (err e) = some (s, err (rpc e))
  feed_listed s (ok txids) = feed_txs txids s

  -- The block is completed, or rewound.
  unfoldable pub close : Fed n → Fed n
  close none = none
  close (some (s, err e)) = some (both (λ u. (rewind n u).1) s, err e)
  close (some (s, ok found)) = some (both (finish_block n height) s, ok found)

  unfoldable pub feed_block : PoolStores n → Fed n
  feed_block s =
      if already_in height s.orchard.synced_to s.ironwood.synced_to
      then some (s, ok nothing_found)
      else close (feed_listed (both (begin_block n height) s) (net.block_txids height))
