-- ===== src/Notes.antt =====
-- src/notes.rs: what the vault holds, and the tree that proves it. Notes, keys and the witnessing tree
-- belong to the `orchard` and `bridgetree` crates: `NoteTypes` is what this file asks of them. A
-- nullifier is its 32 bytes. A `u64` has its wrap-around written out.
pub mod Steps
pub mod Invariant
pub mod Entries
pub mod Calls
pub mod Keeping
pub mod Recognition
pub mod Ranking
pub mod Selection
use zec_multisig.Base.Sets.{ByteSet, contains}
use zec_multisig.Base.Sets
use zec_multisig.Base.Maps.{remove, values, find}
use zec_multisig.Base.Maps
use zec_multisig.Base.Sorting.{sort_by}
use zec_multisig.Base.{
  ℕ, zero, suc, ◌+◌, ◌-◌, ◌%◌, ◌^◌, min, Bool, true, false, not, ◌||◌, Option, none, some, List, [],
  ◌∷◌, ◌++◌, ltb, leb, ◌==◌, if◌then◌else◌, length, any, filter, Bytes, bytes_eq, Result, ok, err,
  ok_or, and_then,
}

pub record NoteTypes : Type 1 where
  pub Note : Type 0
  pub ViewKey : Type 0
  pub Commitment : Type 0
  pub Tree : Type 0
  pub Frontier : Type 0
  pub Hash : Type 0
  pub value_of : Note → ℕ
  pub nullifier_of : ViewKey → Note → Bytes
  pub new_tree : ℕ → Tree
  pub from_frontier : ℕ → Frontier → Tree
  pub read_frontier : Bytes → Option (Option Frontier)
  pub position_of : Frontier → ℕ
  pub append : Commitment → Tree → Option Tree
  pub mark : Tree → Option ℕ × Tree
  pub checkpoint : ℕ → Tree → Tree
  pub rewind : Tree → Option Tree
  pub current_position : Tree → Option ℕ
  pub root : Tree → Option Hash
  pub witness : ℕ → Tree → Option (List Hash)
  pub hash_bytes : Hash → Bytes

abbrev pub u64_mod : ℕ
u64_mod = 2 ^ 64

abbrev pub checkpoint_depth : ℕ
checkpoint_depth = 100

abbrev pub depth : ℕ
depth = 32

pub data NoteError : Type 0 where
  no_witness : NoteError
  no_anchor : NoteError
  insufficient : ℕ → ℕ → NoteError
  bad_frontier : NoteError

-- Positions appended up to a current position.
abbrev pub after_position : Option ℕ → ℕ
after_position none = 0
after_position (some p) = (p + 1) % u64_mod

module _ (n : NoteTypes) where
  pub record HeldNote : Type 0 where
    pub note : n.Note
    pub position : ℕ
    pub height : ℕ
    pub txid : Bytes

  abbrev pub note_value : HeldNote → ℕ
  note_value h = n.value_of h.note

  pub record NoteStore : Type 0 where
    pub tree : n.Tree
    pub held : List (ℕ × HeldNote)
    pub in_flight : List (ℕ × HeldNote)
    pub spent : ByteSet
    pub appended : ℕ
    pub synced_to : Option ℕ

  unfoldable pub new : NoteStore
  new = record {
    tree = n.new_tree checkpoint_depth;
    held = [];
    in_flight = [];
    spent = [];
    appended = 0;
    synced_to = none;
  }

  unfoldable pub empty_at : ℕ → NoteStore
  unfolding new
  empty_at height = record new { synced_to = some height }

  abbrev pub tree_of : Option n.Frontier → n.Tree
  tree_of none = n.new_tree checkpoint_depth
  tree_of (some f) = n.from_frontier checkpoint_depth f

  abbrev pub appended_of : Option n.Frontier → ℕ
  appended_of none = 0
  appended_of (some f) = (n.position_of f + 1) % u64_mod

  unfoldable pub from_frontier : Bytes → ℕ → Result NoteError NoteStore
  from_frontier final_state height =
      and_then (ok_or (n.read_frontier final_state) bad_frontier) λ frontier. ok (record {
        tree = tree_of frontier;
        held = [];
        in_flight = [];
        spent = [];
        appended = appended_of frontier;
        synced_to = some height;
      })

  unfoldable pub root_bytes : NoteStore → Option Bytes
  root_bytes s = elim (n.root s.tree) [ none ↦ none | some h ↦ some (n.hash_bytes h) ]

  unfoldable pub finish_block : ℕ → NoteStore → NoteStore
  finish_block height s = record s { synced_to = some height }

  -- What `append` does once the tree has taken the commitment, or has not.
  unfoldable pub append_on : Bool → NoteStore → Option n.Tree → Option ℕ × NoteStore
  append_on ours s none = (none, s)
  append_on false s (some t) = (none, record s { tree = t; appended = (s.appended + 1) % u64_mod })
  append_on true s (some t) =
      ((n.mark t).0, record s { tree = (n.mark t).1; appended = (s.appended + 1) % u64_mod })

  unfoldable pub append : n.Commitment → Bool → NoteStore → Option ℕ × NoteStore
  append cmx ours s = append_on ours s (n.append cmx s.tree)

  unfoldable pub hold : n.Note → ℕ → ℕ → Bytes → NoteStore → NoteStore
  hold note position height txid s = record s {
    held =
        Maps.insert position
          (record { note = note; position = position; height = height; txid = txid }) s.held;
  }

  unfoldable pub begin_block : ℕ → NoteStore → NoteStore
  begin_block height s = record s { tree = n.checkpoint (height % 2 ^ 32) s.tree }

  -- The notes whose positions the rewound tree still has.
  unfoldable pub retain : Option ℕ → List (ℕ × HeldNote) → List (ℕ × HeldNote)
  retain none held = []
  retain (some top) held = filter (λ x. leb x.0 top) held

  unfoldable pub rewind_on : NoteStore → Option n.Tree → Bool × NoteStore
  rewind_on s none = (false, s)
  rewind_on s (some t) = (
    true,
    record s {
      tree = t;
      held = retain (n.current_position t) s.held;
      appended = after_position (n.current_position t);
    },
  )

  unfoldable pub rewind : NoteStore → Bool × NoteStore
  rewind s = rewind_on s (n.rewind s.tree)

  unfoldable pub anchor : NoteStore → Result NoteError n.Hash
  anchor s = ok_or (n.root s.tree) no_anchor

  -- The path's position is cut to a `u32`, and its length is checked.
  unfoldable pub witness : ℕ → NoteStore → Result NoteError (ℕ × List n.Hash)
  witness position s =
      and_then (ok_or (n.witness position s.tree) no_witness)
        λ path. if length path == depth then ok (position % 2 ^ 32, path) else err no_witness

  abbrev pub total_of : List HeldNote → ℕ
  total_of [] = 0
  total_of (h ∷ hs) = note_value h + total_of hs

  unfoldable pub balance : NoteStore → ℕ
  balance s = total_of (values s.held) % u64_mod

  unfoldable pub len : NoteStore → ℕ
  len s = length s.held

  unfoldable pub is_empty : NoteStore → Bool
  is_empty s = length s.held == 0

  -- Largest first, and by position among equals.
  unfoldable pub larger_first : HeldNote → HeldNote → Bool
  larger_first a b =
      if ltb (note_value b) (note_value a)
      then true
      else if note_value a == note_value b
      then ltb a.position b.position
      else false

  abbrev pub saturating_add : ℕ → ℕ → ℕ
  saturating_add a b = min (a + b) (u64_mod - 1)

  -- The loop of `select`: the notes chosen and the total.
  unfoldable pub choose : ℕ → ℕ → List HeldNote → List HeldNote × ℕ
  choose amount total [] = ([], total)
  choose amount total (h ∷ hs) =
      let rest = choose amount (saturating_add total (note_value h)) hs in
      if leb amount total then ([], total) else (h ∷ rest.0, rest.1)

  unfoldable pub select : ℕ → NoteStore → Result NoteError (List HeldNote)
  select amount s =
      let chosen = choose amount 0 (sort_by larger_first (values s.held)) in
      if ltb chosen.1 amount then err (insufficient chosen.1 amount) else ok chosen.0

  abbrev pub reveals : n.ViewKey → Bytes → HeldNote → Bool
  reveals fvk nf h = bytes_eq (n.nullifier_of fvk h.note) nf

  -- The note that leaves, if any, is what the map holds at the position that the note names; its
  -- nullifier is then recorded as spent.
  unfoldable pub record_spent : Bytes → Option HeldNote → NoteStore → Option HeldNote × NoteStore
  record_spent nf none s = (none, s)
  record_spent nf (some h) s = (some h, record s { spent = Sets.insert nf s.spent })

  unfoldable pub spend_held : Bytes → NoteStore → Option HeldNote → Option HeldNote × NoteStore
  spend_held nf s none = (none, s)
  spend_held nf s (some h) =
      record_spent nf (Maps.lookup h.position s.held) (record s { held = remove h.position s.held })

  unfoldable pub spend_seen :
      n.ViewKey → Bytes → NoteStore → Option HeldNote → Option HeldNote × NoteStore
  spend_seen fvk nf s none = spend_held nf s (find (reveals fvk nf) (values s.held))
  spend_seen fvk nf s (some h) =
      record_spent nf (Maps.lookup h.position s.in_flight)
        (record s { in_flight = remove h.position s.in_flight })

  unfoldable pub spend_nullifier : n.ViewKey → Bytes → NoteStore → Option HeldNote × NoteStore
  spend_nullifier fvk nf s = spend_seen fvk nf s (find (reveals fvk nf) (values s.in_flight))

  unfoldable pub holds_nullifier : n.ViewKey → Bytes → NoteStore → Bool
  holds_nullifier fvk nf s =
      contains nf s.spent || any (reveals fvk nf) (values s.held ++ values s.in_flight)

  unfoldable pub spend_on : ℕ → NoteStore → Option HeldNote → Option HeldNote × NoteStore
  spend_on position s none = (none, s)
  spend_on position s (some h) = (
    some h,
    record s { held = remove position s.held; in_flight = Maps.insert position h s.in_flight },
  )

  unfoldable pub spend : ℕ → NoteStore → Option HeldNote × NoteStore
  spend position s = spend_on position s (Maps.lookup position s.held)

  unfoldable pub in_flight_count : NoteStore → ℕ
  in_flight_count s = length s.in_flight

  unfoldable pub in_flight_balance : NoteStore → ℕ
  in_flight_balance s = total_of (values s.in_flight) % u64_mod
