-- ===== src/Watcher.antt =====
-- src/watcher.rs: confirmed deposits into actions. `poll` and `audit` are the source's methods over
-- an explicit `Watcher`; the trait `ChainView` is a record of functions, so one value of it is what
-- the chain answers during one pass. Heights and indices are `u64`.
pub mod Batch
pub mod Poll
pub mod Credits
pub mod History
pub mod Indices
pub mod Audit
pub mod Order
use zec_multisig.Base.Sorting.{insert_by, sort_by}
use zec_multisig.Base.{
  ℕ, ◌+◌, ◌-◌, ◌^◌, ◌%◌, Bool, true, false, ◌&&◌, not, Option, none, some, List, [], ◌∷◌, ◌++◌, ltb,
  leb, ◌==◌, if◌then◌else◌, ◌>>=◌, Result, ok, err, ok_or, and_then, filter, length, Bytes, zeros,
  bytes_eq, bytes_lt, zero, suc,
}
use zec_multisig.Base.Sets.{ByteSet, contains, insert}
use zec_multisig.Amount.{Fixed, is_positive}

pub record ObservedDeposit : Type 0 where
  pub txid : Bytes
  pub account : Bytes
  pub amount : Fixed
  pub height : ℕ
  pub asset : Option Bytes

pub record ChainView : Type 0 where
  pub tip : ℕ
  pub deposits_at : ℕ → List ObservedDeposit
  pub balance_at : ℕ → Option Fixed
  pub failed : Bool
  pub balance_of : Bytes → ℕ → Option Fixed

-- The fields of `WatcherAction::Credit`.
pub record Credit : Type 0 where
  pub account : Bytes
  pub amount : Fixed
  pub index : ℕ
  pub external_ref : Bytes
  pub asset : Option Bytes

pub data WatcherAction : Type 0 where
  attest : Fixed → WatcherAction
  credit : Credit → WatcherAction
  attest_asset : Bytes → Fixed → WatcherAction

pub data WatcherError : Type 0 where
  unavailable : WatcherError
  credited_deposit_reorged_out : Bytes → WatcherError

pub record Watcher : Type 0 where
  pub confirmations : ℕ
  pub scanned_to : ℕ
  pub credited : ByteSet
  pub next_index : ℕ

unfoldable pub new : ℕ → ℕ → Watcher
new confirmations next_index = record {
  confirmations = confirmations;
  scanned_to = 0;
  credited = [];
  next_index = next_index;
}

unfoldable pub resume : ℕ → ℕ → ℕ → Watcher
resume confirmations next_index scanned_to = record {
  confirmations = confirmations;
  scanned_to = scanned_to;
  credited = [];
  next_index = next_index;
}

unfoldable pub rewind_to : Watcher → ℕ → Watcher
rewind_to w height = if ltb height w.scanned_to then record w { scanned_to = height } else w

-- `u64::checked_sub`.
abbrev pub checked_sub : ℕ → ℕ → Option ℕ
checked_sub a b = if leb b a then some (a - b) else none

unfoldable pub safe_height : Watcher → ℕ → Option ℕ
safe_height w tip = do a ← checked_sub tip (w.confirmations - 1); h ← checked_sub a 1; some (h + 1)

-- `lo, lo + 1, …`, `count` heights.
abbrev pub heights_from : ℕ → ℕ → List ℕ
heights_from lo zero = []
heights_from lo (suc count) = lo ∷ heights_from (lo + 1) count

-- `lo..=hi`.
abbrev pub heights : ℕ → ℕ → List ℕ
heights lo hi = heights_from lo (hi + 1 - lo)

-- The three `continue`s of the collecting loop.
unfoldable pub is_fresh : ByteSet → ObservedDeposit → Bool
is_fresh credited d =
    if contains d.txid credited
    then false
    else if not (is_positive d.amount)
    then false
    else if bytes_eq d.account (zeros 32)
    then false
    else true

unfoldable pub collect_fresh : ByteSet → ChainView → List ℕ → List ObservedDeposit
collect_fresh credited chain [] = []
collect_fresh credited chain (h ∷ hs) =
    filter (is_fresh credited) (chain.deposits_at h) ++ collect_fresh credited chain hs

-- The order of the keys `(d.height, d.txid)`.
unfoldable pub deposit_lt : ObservedDeposit → ObservedDeposit → Bool
deposit_lt a b =
    if ltb a.height b.height
    then true
    else if a.height == b.height
    then bytes_lt a.txid b.txid
    else false

unfoldable pub fresh_deposits : Watcher → ChainView → ℕ → List ObservedDeposit
fresh_deposits w chain safe =
    sort_by deposit_lt (collect_fresh w.credited chain (heights (w.scanned_to + 1) safe))

unfoldable pub assets_of : List ObservedDeposit → List Bytes
assets_of [] = []
assets_of (d ∷ ds) = elim d.asset [ none ↦ assets_of ds | some a ↦ a ∷ assets_of ds ]

-- `Vec::dedup`: of neighbours that are equal, the first stays.
unfoldable pub dedup_after : Bytes → List Bytes → List Bytes
dedup_after a [] = []
dedup_after a (b ∷ bs) = if bytes_eq a b then dedup_after a bs else b ∷ dedup_after b bs

unfoldable pub dedup : List Bytes → List Bytes
unfolding dedup_after
dedup [] = []
dedup (a ∷ as_) = a ∷ dedup_after a as_

unfoldable pub attest_assets : ChainView → ℕ → List Bytes → Result WatcherError (List WatcherAction)
attest_assets chain safe [] = ok []
attest_assets chain safe (a ∷ rest) =
    and_then (ok_or (chain.balance_of a safe) unavailable) λ observed.
      and_then (attest_assets chain safe rest) λ actions. ok (attest_asset a observed ∷ actions)

abbrev pub u64_mod : ℕ
u64_mod = 2 ^ 64

abbrev pub credit_of : ObservedDeposit → ℕ → Credit
credit_of d index = record {
  account = d.account;
  amount = d.amount;
  index = index;
  external_ref = d.txid;
  asset = d.asset;
}

-- The loop that emits the credits: the actions, the next index, and the credited set after it.
unfoldable pub credit_all : List ObservedDeposit → ℕ → ByteSet → List WatcherAction × ℕ × ByteSet
credit_all [] index credited = ([], index, credited)
credit_all (d ∷ ds) index credited =
    let (actions, next, all) = credit_all ds ((index + 1) % u64_mod) (insert d.txid credited) in
    (credit (credit_of d index) ∷ actions, next, all)

-- The attestations that stand before the credits of a batch.
unfoldable pub attestations :
    ChainView → ℕ → List ObservedDeposit → Result WatcherError (List WatcherAction)
attestations chain safe fresh = and_then (ok_or (chain.balance_at safe) unavailable) λ observed.
    and_then (attest_assets chain safe (dedup (sort_by bytes_lt (assets_of fresh))))
      λ assets. ok (attest observed ∷ assets)

abbrev pub Outcome : Type 0
Outcome = Watcher × Result WatcherError (List WatcherAction)

-- The body of `poll` once the batch is collected and sorted.
unfoldable pub report : Watcher → ChainView → ℕ → List ObservedDeposit → Outcome
report w chain safe [] = (record w { scanned_to = safe }, ok [])
report w chain safe (d ∷ ds) = elim (attestations chain safe (d ∷ ds)) [
  | err e ↦ (w, err e)
  | ok actions ↦
      let (credits, next, credited) = credit_all (d ∷ ds) w.next_index w.credited in
      (
        record w { next_index = next; credited = credited; scanned_to = safe },
        ok (actions ++ credits),
      )
]

unfoldable pub poll : Watcher → ChainView → Outcome
poll w chain = elim (safe_height w chain.tip) [
  | none ↦ (w, ok [])
  | some safe ↦
      if leb safe w.scanned_to
      then (w, ok [])
      else report w chain safe (fresh_deposits w chain safe)
]

-- The transactions seen between two heights.
unfoldable pub note_seen : List ObservedDeposit → ByteSet → ByteSet
note_seen [] seen = seen
note_seen (d ∷ ds) seen = note_seen ds (insert d.txid seen)

unfoldable pub seen_between : ChainView → List ℕ → ByteSet → ByteSet
seen_between chain [] seen = seen
seen_between chain (h ∷ hs) seen = seen_between chain hs (note_seen (chain.deposits_at h) seen)

unfoldable pub check_seen : ByteSet → ByteSet → Result WatcherError (Unit {0})
check_seen seen [] = ok tt
check_seen seen (txid ∷ rest) =
    if not (contains txid seen)
    then err (credited_deposit_reorged_out txid)
    else check_seen seen rest

unfoldable pub audit : Watcher → ChainView → ℕ → ℕ → Result WatcherError (Unit {0})
audit w chain from_height to_height =
    check_seen (seen_between chain (heights from_height to_height) []) w.credited
