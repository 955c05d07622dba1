-- ===== src/Shielded/Feed/Calls.antt =====
-- A block fed by src/shielded.rs is a sequence of calls of the two note stores: what every call keeps, the
-- block keeps, whether it is completed or rewound.
use zec_multisig.Base.{
  ℕ, ◌≡◌, true, Option, none, some, List, [], ◌∷◌, if◌then◌else◌, Bool-cases, inl, inr, Bytes,
  Result, ok, err, Answer,
}
use zec_multisig.Amount.{Fixed}
use zec_multisig.Notes.{NoteTypes, NoteStore, spend_nullifier, begin_block, finish_block, rewind}
use zec_multisig.Notes.Calls.{receive}
use zec_multisig.Watcher.{ObservedDeposit}
use zec_multisig.Shielded.{Pool, orchard, ironwood, ScanTypes, ScannedAction, Scanned, ScanError}
use zec_multisig.Shielded.Scan.{scan_actions_lenient}
use zec_multisig.Shielded.Feed.{
  Node, RpcError, ScanRangeError, txid_bytes, PoolStores, change, both, Found, Fed, then_feed,
  joined, see_all, receive_all, settle_tx, feed_scanned, feed_raw, feed_answered, feed_txs,
  feed_listed, close, already_in, feed_block,
}

module _ (n : NoteTypes) (t : ScanTypes n) (fvk : n.ViewKey) (attributions : Bytes → Option Bytes)
    (net : Node) (height : ℕ) where
  -- Each pool's store has its property.
  pub record Both (P : Pool → NoteStore n → Type 0) (s : PoolStores n) : Type 0 where
    pub orchard_has : P orchard s.orchard
    pub ironwood_has : P ironwood s.ironwood

  abbrev pub after_rewind : NoteStore n → NoteStore n
  after_rewind u = (rewind n u).1

  module _ (P : Pool → NoteStore n → Type 0)
      (sees_keeps : (p : Pool) (nf : Bytes) (u : NoteStore n)
        → P p u
        → P p (spend_nullifier n fvk nf u).1)
      (receives_keeps : (p : Pool) (cmx : n.Commitment) (ours : Option n.Note) (txid : Bytes)
          (u : NoteStore n)
        → P p u
        → P p (receive n cmx ours height txid u)) where
    -- What a feed's answer leaves.
    abbrev Leaves : Fed n → Type 0
    Leaves none = Unit
    Leaves (some (s, r)) = Both P s

    change-Both :
        (p : Pool) (f : NoteStore n → NoteStore n) (s : PoolStores n)
        → ((u : NoteStore n) → P p u → P p (f u))
        → Both P s
        → Both P (change p f s)
    unfolding change
    change-Both orchard f s k w = record {
      orchard_has = k s.orchard w.orchard_has;
      ironwood_has = w.ironwood_has;
    }
    change-Both ironwood f s k w = record {
      orchard_has = w.orchard_has;
      ironwood_has = k s.ironwood w.ironwood_has;
    }

    see_all-Both :
        (as_ : List (ScannedAction n)) (s : PoolStores n)
        → Both P s
        → Both P (see_all n t fvk attributions net height as_ s)
    unfolding see_all
    see_all-Both [] s w = w
    see_all-Both (a ∷ as_) s w =
        see_all-Both as_ _ (change-Both a.pool _ s (sees_keeps a.pool a.nullifier) w)

    receive_all-Both :
        (txid : Bytes) (as_ : List (ScannedAction n)) (s : PoolStores n)
        → Both P s
        → Both P (receive_all n t fvk attributions net height txid as_ s)
    unfolding receive_all
    receive_all-Both txid [] s w = w
    receive_all-Both txid (a ∷ as_) s w =
        receive_all-Both txid as_ _
          (change-Both a.pool _ s (receives_keeps a.pool a.cmx a.ours txid) w)

    settle_tx-Leaves :
        (txid : Bytes) (scanned : Scanned n) (s : PoolStores n)
        (r : Result Fixed (List ObservedDeposit))
        → Both P s
        → Leaves (settle_tx n t fvk attributions net height txid scanned s r)
    unfolding settle_tx
    settle_tx-Leaves txid scanned s (err amount) w = w
    settle_tx-Leaves txid scanned s (ok deposits) w = receive_all-Both txid scanned.actions s w

    feed_scanned-Leaves :
        (txid : Bytes) (s : PoolStores n) (r : Answer ScanError (Scanned n))
        → Both P s
        → Leaves (feed_scanned n t fvk attributions net height txid s r)
    unfolding feed_scanned
    feed_scanned-Leaves txid s none w = tt
    feed_scanned-Leaves txid s (some (err e)) w = w
    feed_scanned-Leaves txid s (some (ok scanned)) w =
        settle_tx-Leaves txid scanned _ _ (see_all-Both scanned.actions s w)

    feed_raw-Leaves :
        (s : PoolStores n) (raw : Bytes) (o : Option Bytes)
        → Both P s
        → Leaves (feed_raw n t fvk attributions net height s raw o)
    unfolding feed_raw
    feed_raw-Leaves s raw none w = w
    feed_raw-Leaves s raw (some txid) w =
        feed_scanned-Leaves txid s (scan_actions_lenient n t fvk raw txid height) w

    feed_answered-Leaves :
        (s : PoolStores n) (hex : Bytes) (r : Result RpcError Bytes)
        → Both P s
        → Leaves (feed_answered n t fvk attributions net height s hex r)
    unfolding feed_answered
    feed_answered-Leaves s hex (err e) w = w
    feed_answered-Leaves s hex (ok raw) w = feed_raw-Leaves s raw (txid_bytes hex) w

    then_feed-Leaves :
        (m : Fed n) (f : PoolStores n → Fed n)
        → Leaves m
        → ((s : PoolStores n) → Both P s → Leaves (f s))
        → Leaves (then_feed m f)
    then_feed-Leaves none f w k = tt
    then_feed-Leaves (some (s, err e)) f w k = w
    then_feed-Leaves (some (s, ok found)) f w k = joined_leaves (f s) (k s w)
      where
        joined_leaves : (r : Fed n) → Leaves r → Leaves (joined found r)
        joined_leaves none v = tt
        joined_leaves (some (u, err e)) v = v
        joined_leaves (some (u, ok more)) v = v

    feed_txs-Leaves :
        (txids : List Bytes) (s : PoolStores n)
        → Both P s
        → Leaves (feed_txs n t fvk attributions net height txids s)
    unfolding feed_txs
    feed_txs-Leaves [] s w = w
    feed_txs-Leaves (hex ∷ rest) s w =
        then_feed-Leaves
          (feed_answered n t fvk attributions net height s hex (net.raw_transaction_bytes hex)) _
          (feed_answered-Leaves s hex (net.raw_transaction_bytes hex) w) (feed_txs-Leaves rest)

    feed_listed-Leaves :
        (s : PoolStores n) (r : Result RpcError (List Bytes))
        → Both P s
        → Leaves (feed_listed n t fvk attributions net height s r)
    unfolding feed_listed
    feed_listed-Leaves s (err e) w = w
    feed_listed-Leaves s (ok txids) w = feed_txs-Leaves txids s w

    -- How a feed ends: the block was in already; or it is completed, or rewound, from stores that have the
    -- property.
    pub data Ended (s u : PoolStores n) (r : Result ScanRangeError Found) : Type 0 where
      in_already :
          already_in height s.orchard.synced_to s.ironwood.synced_to ≡ true → u ≡ s → Ended s u r
      completed :
          (v : PoolStores n) (found : Found)
          → Both P v
          → u ≡ both (finish_block n height) v
          → r ≡ ok found
          → Ended s u r
      rewound :
          (v : PoolStores n) (e : ScanRangeError)
          → Both P v
          → u ≡ both after_rewind v
          → r ≡ err e
          → Ended s u r

    close_ends :
        (s u : PoolStores n) (r : Result ScanRangeError Found) (m : Fed n)
        → Leaves m
        → close n t fvk attributions net height m ≡ some (u, r)
        → Ended s u r
    unfolding close
    close_ends s u r none w h = absurd cc
    close_ends s u r (some (v, err e)) w h = rewound v e w (cc h) (cc h)
    close_ends s u r (some (v, ok found)) w h = completed v found w (cc h) (cc h)

    pub feed_block_ends :
        (s u : PoolStores n) (r : Result ScanRangeError Found)
        → Both P (both (begin_block n height) s)
        → feed_block n t fvk attributions net height s ≡ some (u, r)
        → Ended s u r
    unfolding feed_block
    feed_block_ends s u r w h =
        elim (Bool-cases (already_in height s.orchard.synced_to s.ironwood.synced_to)) [
          | inl b ↦ in_already b (cc (rw (b, if◌then◌else◌) at h))
          | inr b ↦
              close_ends s u r _ (feed_listed-Leaves _ (net.block_txids height) w)
                (rw (b, if◌then◌else◌) at h)
        ]
