-- ===== src/Notes/Calls.antt =====
-- How a note store of src/notes.rs is used: the calls that other modules make of it, the stores that
-- they reach, and what the witnessing tree promises.
use zec_multisig.Base.{ℕ, ◌^◌, ◌<◌, ◌≡◌, Bool, true, false, Option, none, some, All, Bytes, ok}
use zec_multisig.Base.Maps.{IsMap}
use zec_multisig.Notes.{
  NoteTypes, NoteStore, after_position, checkpoint_depth, new, empty_at, from_frontier, append,
  hold, begin_block, finish_block, rewind, spend, spend_nullifier,
}

-- What the crates document of the witnessing tree: positions count the commitments from zero, a tree
-- of depth 32 has fewer than 2^32, marking and checkpointing move nothing, and a mark is the current
-- position.
pub record TreeLaws (n : NoteTypes) : Type 0 where
  pub new_empty : n.current_position (n.new_tree checkpoint_depth) ≡ none
  pub frontier_last :
      (f : n.Frontier)
      → n.current_position (n.from_frontier checkpoint_depth f) ≡ some (n.position_of f)
  pub append_next :
      (c : n.Commitment) (t u : n.Tree)
      → n.append c t ≡ some u
      → n.current_position u ≡ some (after_position (n.current_position t))
  pub mark_keeps : (t : n.Tree) → n.current_position (n.mark t).1 ≡ n.current_position t
  pub mark_current : (t : n.Tree) (p : ℕ) → (n.mark t).0 ≡ some p → n.current_position t ≡ some p
  pub checkpoint_keeps :
      (h : ℕ) (t : n.Tree) → n.current_position (n.checkpoint h t) ≡ n.current_position t
  pub bounded : (t : n.Tree) (p : ℕ) → n.current_position t ≡ some p → p < 2 ^ 32

module _ (n : NoteTypes) where
  -- What a scan does with one action: its commitment is appended, and our note, if it is ours, is held
  -- at the position that the tree marked.
  unfoldable pub hold_at : Option n.Note → Option ℕ → ℕ → Bytes → NoteStore n → NoteStore n
  hold_at none position height txid s = s
  hold_at (some note) none height txid s = s
  hold_at (some note) (some position) height txid s = hold n note position height txid s

  abbrev pub is_some : Option n.Note → Bool
  is_some none = false
  is_some (some note) = true

  unfoldable pub receive : n.Commitment → Option n.Note → ℕ → Bytes → NoteStore n → NoteStore n
  receive cmx ours height txid s =
      let added = append n cmx (is_some ours) s in hold_at ours added.0 height txid added.1

  -- The calls that other modules make of a store.
  pub data Call : Type 0 where
    receives : n.Commitment → Option n.Note → ℕ → Bytes → Call
    begins finishes spends : ℕ → Call
    rewinds : Call
    sees : n.ViewKey → Bytes → Call

  unfoldable pub call : Call → NoteStore n → NoteStore n
  call (receives cmx ours height txid) s = receive cmx ours height txid s
  call (begins height) s = begin_block n height s
  call (finishes height) s = finish_block n height s
  call (spends position) s = (spend n position s).1
  call rewinds s = (rewind n s).1
  call (sees fvk nf) s = (spend_nullifier n fvk nf s).1

  -- A store that starts as the source starts one, and takes calls.
  pub data Reachable : NoteStore n → Type 0 where
    starts_new : Reachable (new n)
    starts_empty : (height : ℕ) → Reachable (empty_at n height)
    starts_at :
        (final_state : Bytes) (height : ℕ) (s : NoteStore n)
        → from_frontier n final_state height ≡ ok s
        → Reachable s
    steps : {s : NoteStore n} (c : Call) → Reachable s → Reachable (call c s)

  -- The next position is the tree's, the maps are in order of their keys, each note stands under its
  -- position, and held notes have positions that the tree has given out.
  pub record IsStore (s : NoteStore n) : Type 0 where
    pub next : s.appended ≡ after_position (n.current_position s.tree)
    pub held_map : IsMap s.held
    pub flight_map : IsMap s.in_flight
    pub held_named : All (λ x. x.1.position ≡ x.0) s.held
    pub flight_named : All (λ x. x.1.position ≡ x.0) s.in_flight
    pub held_below : All (λ x. x.0 < s.appended) s.held
