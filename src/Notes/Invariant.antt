-- ===== src/Notes/Invariant.antt =====
-- What holds of every note store of src/notes.rs that its operations can reach, given what the
-- witnessing tree promises.
use zec_multisig.Base.{ℕ, ◌%◌, ◌^◌, ◌≡◌, refl, Option, none, some, [], ok, ok_or, and_then}
use zec_multisig.Base.Maps.{lookup}
use zec_multisig.Notes.{
  NoteTypes, NoteStore, bad_frontier, after_position, new, empty_at, from_frontier, tree_of,
  appended_of, begin_block, finish_block, rewind, spend, spend_nullifier,
}
use zec_multisig.Notes.Calls.{
  TreeLaws, Call, receives, begins, finishes, spends, rewinds, sees, call, Reachable, starts_new,
  starts_empty, starts_at, steps, IsStore,
}
use zec_multisig.Notes.Steps.{receive_step, rewind_step, spend_step, seen_step}

module _ (n : NoteTypes) (laws : TreeLaws n) where
  pub call-IsStore : (c : Call n) (s : NoteStore n) → IsStore n s → IsStore n (call n c s)
  unfolding call begin_block finish_block spend rewind spend_nullifier
  call-IsStore (receives cmx ours height txid) s w = receive_step n laws cmx ours height txid s w
  call-IsStore (begins height) s w = record {
    next = rw (laws.checkpoint_keeps (height % 2 ^ 32) s.tree) w.next;
    held_map = w.held_map;
    flight_map = w.flight_map;
    held_named = w.held_named;
    flight_named = w.flight_named;
    held_below = w.held_below;
  }
  call-IsStore (finishes height) s w = record {
    next = w.next;
    held_map = w.held_map;
    flight_map = w.flight_map;
    held_named = w.held_named;
    flight_named = w.flight_named;
    held_below = w.held_below;
  }
  call-IsStore (spends position) s w = spend_step n laws position s (lookup position s.held) refl w
  call-IsStore rewinds s w = rewind_step n laws s (n.rewind s.tree) w
  call-IsStore (sees fvk nf) s w = seen_step n laws fvk nf s _ w

  started :
      (s : NoteStore n)
      → s.appended ≡ after_position (n.current_position s.tree)
      → s.held ≡ []
      → s.in_flight ≡ []
      → IsStore n s
  started s e h f = record {
    next = e;
    held_map = rw h tt;
    flight_map = rw f tt;
    held_named = rw h tt;
    flight_named = rw f tt;
    held_below = rw h tt;
  }

  frontier_next :
      (o : Option n.Frontier) → appended_of n o ≡ after_position (n.current_position (tree_of n o))
  frontier_next none = rw laws.new_empty refl
  frontier_next (some f) = rw (laws.frontier_last f) refl

  start_at :
      (o : Option (Option n.Frontier)) (height : ℕ) (s : NoteStore n)
      → and_then (ok_or o bad_frontier) (λ f. ok (record {
        tree = tree_of n f;
        held = [];
        in_flight = [];
        spent = [];
        appended = appended_of n f;
        synced_to = some height;
      }))
        ≡ ok s
      → IsStore n s
  start_at none height s e = absurd cc
  start_at (some f) height s e =
      let same : record {
        tree = tree_of n f;
        held = [];
        in_flight = [];
        spent = [];
        appended = appended_of n f;
        synced_to = some height;
      }
          ≡ s =
        cc e in
      rw (← same) (started _ (frontier_next f) refl refl)

  -- Whatever calls a store has taken since it was made, with rewinds among them: its count of
  -- commitments is the tree's, its maps are in the order of their keys, each note stands under its
  -- own position, and every held note's position is one that the tree still has.
  pub Reachable-IsStore : (s : NoteStore n) → Reachable n s → IsStore n s
  unfolding new empty_at from_frontier
  Reachable-IsStore _ starts_new = started _ (frontier_next none) refl refl
  Reachable-IsStore _ (starts_empty height) = started _ (frontier_next none) refl refl
  Reachable-IsStore s (starts_at final_state height _ e) =
      start_at (n.read_frontier final_state) height s e
  Reachable-IsStore _ (steps {s} c r) = call-IsStore c s (Reachable-IsStore s r)
