-- ===== src/Examples/Notes.antt =====
-- A note store over a toy tree: how many commitments it has, and the counts at its checkpoints.
use zec_multisig.Base.{
  ℕ, zero, suc, ◌+◌, ◌^◌, ◌≤◌, ◌<◌, ◌≡◌, refl, sym, ap, ◌∙◌, Bool, true, false, Option, none, some,
  List, [], ◌∷◌, ◌++◌, ltb, leb, if◌then◌else◌, replicate, length, take, filter, ◌⊎◌, inl, inr,
  Bool-cases, leb→le, le→leb, ltb→lt, arith, Bytes, Result, ok, err, All,
}
use zec_multisig.Base.Maps.{values}
use zec_multisig.Notes.{
  NoteTypes, NoteStore, HeldNote, new, total_of, insufficient, select, choose, larger_first,
  after_position,
}
use zec_multisig.Notes.Calls.{
  TreeLaws, Call, receives, begins, finishes, spends, rewinds, call, Reachable, starts_new, steps,
  IsStore,
}
use zec_multisig.Notes.Ranking.{sorted}
use zec_multisig.Notes.Selection.{select_answers, select_fewest}
use zec_multisig.Notes.Invariant.{Reachable-IsStore}

abbrev count_position : ℕ → Option ℕ
count_position zero = none
count_position (suc k) = some k

-- A tree with a count out of range is an empty one.
abbrev current : ℕ × List ℕ → Option ℕ
current (k, cs) = if leb k (2 ^ 32) then count_position k else none

abbrev pub grow : ℕ × List ℕ → Option (ℕ × List ℕ)
grow (k, cs) = if ltb k (2 ^ 32) then some (suc k, cs) else none

abbrev pub undo : ℕ × List ℕ → Option (ℕ × List ℕ)
undo (k, []) = none
undo (k, c ∷ cs) = some (c, cs)

abbrev pub toy : NoteTypes
toy = record {
  Note = ℕ;
  ViewKey = ℕ;
  Commitment = ℕ;
  Tree = ℕ × List ℕ;
  Frontier = Unit {0};
  Hash = ℕ;
  value_of = λ v. v;
  nullifier_of = λ k v. replicate 32 v;
  new_tree = λ d. (0, []);
  from_frontier = λ d f. (5, []);
  read_frontier = λ b. some none;
  position_of = λ f. 4;
  append = λ c t. grow t;
  mark = λ t. (current t, t);
  checkpoint = λ h t. (t.0, t.0 ∷ t.1);
  rewind = undo;
  current_position = current;
  root = λ t. some t.0;
  witness = λ p t. some (replicate 32 p);
  hash_bytes = λ h. replicate 32 h;
}

grow_next : (t u : ℕ × List ℕ) → grow t ≡ some u → current u ≡ some (after_position (current t))
grow_next (zero, cs) u e = let same : ◌≡◌ {A = ℕ × List ℕ} (1, cs) u = cc e in rw (← same) refl
grow_next (suc k, cs) u e = elim (Bool-cases (ltb (suc k) (2 ^ 32))) [
  | inl c ↦
      let same : ◌≡◌ {A = ℕ × List ℕ} (suc (suc k), cs) u = cc (rw (c, if◌then◌else◌) at e) in
      let below = ltb→lt (suc k) (2 ^ 32) c in
      rw (← same) (
        rw
          (
            le→leb (suc (suc k)) (2 ^ 32) (omega (arith, below)),
            le→leb (suc k) (2 ^ 32) (omega (arith, below)),
          )
          (ap some (omega (arith, below))))
  | inr c ↦ absurd (cc (rw (c, if◌then◌else◌) at e))
]

current_bounded : (t : ℕ × List ℕ) (p : ℕ) → current t ≡ some p → p < 2 ^ 32
current_bounded (zero, cs) p e = absurd (ground arith)
current_bounded (suc k, cs) p e = ground arith

pub toy-TreeLaws : TreeLaws toy
toy-TreeLaws = record {
  new_empty = refl;
  frontier_last = λ f. refl;
  append_next = λ c t u e. grow_next t u e;
  mark_keeps = λ t. refl;
  mark_current = λ t p e. e;
  checkpoint_keeps = λ h t. refl;
  bounded = current_bounded;
}

-- Three notes of values 30, 20 and 10, the first spent.
abbrev calls : List (Call toy)
calls =
    begins 5
    ∷ receives 1 (some 30) 5 (replicate 32 1)
    ∷ receives 2 none 5 (replicate 32 2)
    ∷ receives 3 (some 20) 5 (replicate 32 3)
    ∷ receives 4 (some 10) 5 (replicate 32 4)
    ∷ finishes 5
    ∷ spends 0
    ∷ []

abbrev history : NoteStore toy → List (Call toy) → NoteStore toy
history s [] = s
history s (c ∷ cs) = history (call toy c s) cs

reaches :
    (cs : List (Call toy)) (s : NoteStore toy) → Reachable toy s → Reachable toy (history s cs)
reaches [] s r = r
reaches (c ∷ cs) s r = reaches cs (call toy c s) (steps c r)

Reachable-IsStore_example : IsStore toy (history (new toy) (calls ++ (rewinds ∷ [])))
Reachable-IsStore_example =
    Reachable-IsStore toy toy-TreeLaws (history (new toy) (calls ++ (rewinds ∷ [])))
      (reaches (calls ++ (rewinds ∷ [])) (new toy) starts_new)

abbrev note_at : ℕ → ℕ → HeldNote toy
note_at value position = record {
  note = value;
  position = position;
  height = 5;
  txid = replicate 32 9;
}

abbrev pub purse : NoteStore toy
purse = record {
  tree = (4, []);
  held = (0, note_at 30 0) ∷ (2, note_at 20 2) ∷ (3, note_at 10 3) ∷ [];
  in_flight = [];
  spent = [];
  appended = 4;
  synced_to = some 5;
}

pub purse-IsStore : IsStore toy purse
purse-IsStore = record {
  next = refl;
  held_map = omega arith;
  flight_map = tt;
  held_named = omega arith;
  flight_named = tt;
  held_below = omega arith;
}

selected : select toy 45 purse ≡ ok (note_at 30 0 ∷ note_at 20 2 ∷ [])
unfolding select choose larger_first zec_multisig.Base.Sorting.sort_by
    zec_multisig.Base.Sorting.insert_by
selected = refl

select_answers_example :
    ((total_of toy (values purse.held) < 61)
      × (select toy 61 purse ≡ err (insufficient (total_of toy (values purse.held)) 61)))
    ⊎ ((ns : List (HeldNote toy)) × (select toy 61 purse ≡ ok ns)
        × (61 ≤ total_of toy ns)
        × (ns ≡ take (length ns) (sorted toy purse)))
select_answers_example = select_answers toy 61 purse (omega arith)

select_fewest_example :
    length (note_at 30 0 ∷ note_at 20 2 ∷ []) ≤ length (filter (λ h. true) (values purse.held))
select_fewest_example =
    select_fewest toy 45 purse (note_at 30 0 ∷ note_at 20 2 ∷ []) (λ h. true) (omega arith) selected
      (omega arith)
