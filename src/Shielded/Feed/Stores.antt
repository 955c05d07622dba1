-- ===== src/Shielded/Feed/Stores.antt =====
-- What a block fed by src/shielded.rs leaves of the two note stores: well-formed stores however it ends, and
-- the tree of before when it fails.
use zec_multisig.Base.{
  ℕ, ◌%◌, ◌^◌, ◌≡◌, refl, sym, ap, ◌∙◌, subst, Bool, true, false, Option, none, some, Bytes, Result,
  err,
}
use zec_multisig.Base.Maps.{find, values}
use zec_multisig.Notes.{
  NoteTypes, NoteStore, HeldNote, append, append_on, hold, spend_nullifier, spend_seen, spend_held,
  record_spent, begin_block, rewind, rewind_on, reveals, after_position,
}
use zec_multisig.Notes.Calls.{
  TreeLaws, receive, receives, begins, finishes, rewinds, sees, call, IsStore, hold_at, is_some,
}
use zec_multisig.Notes.Invariant.{call-IsStore}
use zec_multisig.Shielded.{ScanTypes}
use zec_multisig.Shielded.Feed.{Node, ScanRangeError, PoolStores, Found, feed_block, of}
use zec_multisig.Shielded.Feed.Calls.{in_already, completed, rewound, feed_block_ends}

module _ (n : NoteTypes) (laws : TreeLaws n) (t : ScanTypes n) (fvk : n.ViewKey)
    (attributions : Bytes → Option Bytes) (net : Node) (height : ℕ) where
  abbrev pub AreStores : PoolStores n → Type 0
  AreStores s = IsStore n s.orchard × IsStore n s.ironwood

  -- Feeding a block keeps both stores well formed, whether it was in already, is completed or is rewound.
  pub feed_block-AreStores :
      (s u : PoolStores n) (r : Result ScanRangeError Found)
      → AreStores s
      → feed_block n t fvk attributions net height s ≡ some (u, r)
      → AreStores u
  unfolding call
  feed_block-AreStores s u r w h =
      elim (feed_block_ends n t fvk attributions net height (λ p v. IsStore n v)
        (λ p nf v. call-IsStore n laws (sees fvk nf) v)
        (λ p cmx ours txid v. call-IsStore n laws (receives cmx ours height txid) v) s u r
        (record {
          orchard_has = call-IsStore n laws (begins height) s.orchard w.0;
          ironwood_has = call-IsStore n laws (begins height) s.ironwood w.1;
        })
        h) [
          | in_already b e ↦ rw e w
          | completed v found k e q ↦ rw e (
            call-IsStore n laws (finishes height) v.orchard k.orchard_has,
            call-IsStore n laws (finishes height) v.ironwood k.ironwood_has,
          )
          | rewound v x k e q ↦ rw e (
            call-IsStore n laws rewinds v.orchard k.orchard_has,
            call-IsStore n laws rewinds v.ironwood k.ironwood_has,
          )
        ]

-- A tree as it was checkpointed, with commitments appended and marked since.
pub data Since (n : NoteTypes) (t : n.Tree) (height : ℕ) : n.Tree → Type 0 where
  begun : Since n t height (n.checkpoint height t)
  appended :
      {u v : n.Tree} (c : n.Commitment)
      → n.append c u ≡ some v
      → Since n t height u
      → Since n t height v
  marked : {u : n.Tree} → Since n t height u → Since n t height (n.mark u).1

-- What the crate documents of rewinding: a tree that takes a checkpoint of this height goes back to it,
-- with the root and the position that it had.
pub record RewindLaws (n : NoteTypes) : Type 1 where
  pub Takes : ℕ → n.Tree → Type 0
  pub rewind_back :
      (height : ℕ) (t u : n.Tree)
      → Takes height t
      → Since n t height u
      → (v : n.Tree) × (n.rewind u ≡ some v)
        × (n.root v ≡ n.root t)
        × (n.current_position v ≡ n.current_position t)

module _ (n : NoteTypes) where
  record_spent_keeps :
      (nf : Bytes) (o : Option (HeldNote n)) (s : NoteStore n)
      → ((record_spent n nf o s).1.tree ≡ s.tree)
        × ((record_spent n nf o s).1.synced_to ≡ s.synced_to)
  unfolding record_spent
  record_spent_keeps nf none s = (refl, refl)
  record_spent_keeps nf (some h) s = (refl, refl)

  seen_keeps_tree :
      (fvk : n.ViewKey) (nf : Bytes) (s : NoteStore n)
      → ((spend_nullifier n fvk nf s).1.tree ≡ s.tree)
        × ((spend_nullifier n fvk nf s).1.synced_to ≡ s.synced_to)
  unfolding spend_nullifier spend_seen spend_held
  seen_keeps_tree fvk nf s = in_flight_first (find (reveals n fvk nf) (values s.in_flight))
    where
      held_first :
          (o : Option (HeldNote n))
          → ((spend_held n nf s o).1.tree ≡ s.tree)
            × ((spend_held n nf s o).1.synced_to ≡ s.synced_to)
      held_first none = (refl, refl)
      held_first (some h) = record_spent_keeps nf _ _

      in_flight_first :
          (o : Option (HeldNote n))
          → ((spend_seen n fvk nf s o).1.tree ≡ s.tree)
            × ((spend_seen n fvk nf s o).1.synced_to ≡ s.synced_to)
      in_flight_first none = held_first _
      in_flight_first (some h) = record_spent_keeps nf _ _

  hold_at_keeps :
      (ours : Option n.Note) (o : Option ℕ) (height : ℕ) (txid : Bytes) (s : NoteStore n)
      → ((hold_at n ours o height txid s).tree ≡ s.tree)
        × ((hold_at n ours o height txid s).synced_to ≡ s.synced_to)
  unfolding hold_at hold
  hold_at_keeps none o height txid s = (refl, refl)
  hold_at_keeps (some note) none height txid s = (refl, refl)
  hold_at_keeps (some note) (some p) height txid s = (refl, refl)

  append-Since :
      (t : n.Tree) (height : ℕ) (cmx : n.Commitment) (ours : Bool) (s : NoteStore n)
      (o : Option n.Tree)
      → n.append cmx s.tree ≡ o
      → Since n t height s.tree
      → Since n t height (append_on n ours s o).1.tree
        × ((append_on n ours s o).1.synced_to ≡ s.synced_to)
  unfolding append_on
  append-Since t height cmx ours s none e w = (w, refl)
  append-Since t height cmx false s (some u) e w = (appended cmx e w, refl)
  append-Since t height cmx true s (some u) e w = (marked (appended cmx e w), refl)

  -- What a feed keeps of a store until it ends.
  abbrev Underway : NoteStore n → ℕ → NoteStore n → Type 0
  Underway s height u = Since n s.tree height u.tree × (u.synced_to ≡ s.synced_to)

  receive-Underway :
      (s : NoteStore n) (at_height height : ℕ) (cmx : n.Commitment) (ours : Option n.Note)
      (txid : Bytes) (u : NoteStore n)
      → Underway s at_height u
      → Underway s at_height (receive n cmx ours height txid u)
  unfolding receive append
  receive-Underway s at_height height cmx ours txid u w =
      let (grown, synced) =
        append-Since s.tree at_height cmx (is_some n ours) u (n.append cmx u.tree) refl w.0 in
      let added = append_on n (is_some n ours) u (n.append cmx u.tree) in
      let (tree, still) = hold_at_keeps ours added.0 height txid added.1 in
      (subst (Since n s.tree at_height) (sym tree) grown, still ∙ synced ∙ w.1)

  -- A store whose tree shows what it showed before.
  pub record IsRestored (s u : NoteStore n) : Type 0 where
    pub same_root : n.root u.tree ≡ n.root s.tree
    pub same_count : u.appended ≡ s.appended
    pub same_height : u.synced_to ≡ s.synced_to

  rewind-IsRestored :
      (laws : RewindLaws n) (s u : NoteStore n) (height : ℕ)
      → IsStore n s
      → laws.Takes height s.tree
      → Underway s height u
      → IsRestored s (rewind n u).1
  unfolding rewind rewind_on
  rewind-IsRestored laws s u height w k d =
      let (v, e, root, place) = laws.rewind_back height s.tree u.tree k d.0 in
      rw e (record {
        same_root = root;
        same_count = ap after_position place ∙ sym w.next;
        same_height = d.1;
      })

module _ (n : NoteTypes) (laws : RewindLaws n) (t : ScanTypes n) (fvk : n.ViewKey)
    (attributions : Bytes → Option Bytes) (net : Node) (height : ℕ) where
  -- A block that fails, whether the node did not answer or a note could not be attributed, leaves each
  -- tree as it was: the same root, the same count of commitments, the same height it is complete to. The
  -- stores are well formed, and their trees take a checkpoint of the block's height.
  pub failed_feed :
      (s u : PoolStores n) (e : ScanRangeError)
      → IsStore n s.orchard
      → IsStore n s.ironwood
      → laws.Takes (height % 2 ^ 32) s.orchard.tree
      → laws.Takes (height % 2 ^ 32) s.ironwood.tree
      → feed_block n t fvk attributions net height s ≡ some (u, err e)
      → IsRestored n s.orchard u.orchard × IsRestored n s.ironwood u.ironwood
  unfolding of begin_block
  failed_feed s u e wo wi ko ki h =
      elim (feed_block_ends n t fvk attributions net height
        (λ p v. Underway n (of p s) (height % 2 ^ 32) v)
        (λ p nf v w.
          let (tree, synced) = seen_keeps_tree n fvk nf v in
          (subst (Since n (of p s).tree (height % 2 ^ 32)) (sym tree) w.0, synced ∙ w.1))
        (λ p cmx ours txid v. receive-Underway n (of p s) (height % 2 ^ 32) height cmx ours txid v)
        s u (err e) (record { orchard_has = (begun, refl); ironwood_has = (begun, refl) }) h) [
          | in_already b q ↦ rw q (
            record { same_root = refl; same_count = refl; same_height = refl },
            record { same_root = refl; same_count = refl; same_height = refl },
          )
          | completed v found k q r ↦ absurd cc
          | rewound v x k q r ↦ rw q (
            rewind-IsRestored n laws s.orchard v.orchard (height % 2 ^ 32) wo ko k.orchard_has,
            rewind-IsRestored n laws s.ironwood v.ironwood (height % 2 ^ 32) wi ki k.ironwood_has,
          )
        ]
