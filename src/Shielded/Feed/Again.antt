-- ===== src/Shielded/Feed/Again.antt =====
-- A block that src/shielded.rs has fed is not fed again.
use zec_multisig.Base.{ℕ, ◌≡◌, refl, true, Option, some, min, le→leb, arith, Bytes, ok}
use zec_multisig.Notes.{NoteTypes, finish_block}
use zec_multisig.Shielded.{ScanTypes}
use zec_multisig.Shielded.Feed.{
  Node, PoolStores, both, Found, nothing_found, already_in, feed_block,
}
use zec_multisig.Shielded.Feed.Calls.{in_already, completed, rewound, feed_block_ends}

module _ (n : NoteTypes) (t : ScanTypes n) (fvk : n.ViewKey) (attributions : Bytes → Option Bytes)
    (net : Node) (height : ℕ) where
  fed_is_in :
      (v : PoolStores n) {u : PoolStores n}
      → u ≡ both (finish_block n height) v
      → already_in height u.orchard.synced_to u.ironwood.synced_to ≡ true
  unfolding finish_block already_in
  fed_is_in v e = rw e (le→leb height (min height height) (omega arith))

  -- Feeding a block a second time, after it was fed, changes nothing and finds nothing: each commitment is
  -- appended once, and each deposit and forced intent of the block is reported once.
  pub feed_again :
      (other : Node) (s u : PoolStores n) (found : Found)
      → feed_block n t fvk attributions net height s ≡ some (u, ok found)
      → feed_block n t fvk attributions other height u ≡ some (u, ok nothing_found)
  unfolding feed_block already_in
  feed_again other s u found h =
      elim (feed_block_ends n t fvk attributions net height (λ p v. Unit {0}) (λ p nf v w. tt)
        (λ p cmx ours txid v w. tt) s u (ok found) (record { orchard_has = tt; ironwood_has = tt })
        h) [
          | in_already b q ↦ rw q (rw b refl)
          | completed v x k q r ↦ rw (fed_is_in v q) refl
          | rewound v e k q r ↦ absurd cc
        ]
