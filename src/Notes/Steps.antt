-- ===== src/Notes/Steps.antt =====
-- Each operation of a note store of src/notes.rs keeps the store well formed, given what the witnessing tree
-- promises.
use zec_multisig.Base.{
  ℕ, ◌+◌, ◌%◌, ◌^◌, ◌≤◌, ◌<◌, ◌≡◌, refl, sym, ap, ◌∙◌, Bool, true, false, Option, none, some, List,
  [], ◌∷◌, leb, All, Option-cases, Bool-cases, inl, inr, if◌then◌else◌, leb→le, arith, ◌==◌, ==_iff,
  Bytes,
}
use zec_multisig.Base.Maps.{
  IsMap, From, remove, lookup, insert-IsMap, remove-IsMap, filter-IsMap, All-insert, All-remove,
  All-filter,
}
use zec_multisig.Base.Maps
use zec_multisig.Notes.{
  NoteTypes, NoteStore, HeldNote, u64_mod, after_position, append, append_on, hold, rewind_on,
  retain, spend_on, spend_seen, spend_held, record_spent,
}
use zec_multisig.Notes.Calls.{TreeLaws, is_some, hold_at, receive, IsStore}

module _ (n : NoteTypes) (laws : TreeLaws n) where
  pub after_bounded : (t : n.Tree) → after_position (n.current_position t) ≤ 2 ^ 32
  after_bounded t = elim (Option-cases (n.current_position t)) [
    | inl e ↦ rw e (omega arith)
    | inr (p, e) ↦ rw e (omega (arith, laws.bounded t p e))
  ]

  All-weaken_below :
      (a b : ℕ) (m : List (ℕ × HeldNote n)) → a ≤ b → All (λ x. x.0 < a) m → All (λ x. x.0 < b) m
  All-weaken_below a b [] h k = tt
  All-weaken_below a b (x ∷ m) h k = (omega (arith, k.0), All-weaken_below a b m h k.1)

  named_at :
      (k : ℕ) (m : List (ℕ × HeldNote n)) {h : HeldNote n}
      → Maps.lookup k m ≡ some h
      → All (λ x. x.1.position ≡ x.0) m
      → h.position ≡ k
  named_at k [] e w = absurd cc
  named_at k ((i, g) ∷ m) {h} e w = elim (Bool-cases (i == k)) [
    | inl c ↦
        let same : g ≡ h = cc (rw (c, if◌then◌else◌) at e) in
        ap (λ x. x.position) (sym same) ∙ w.0 ∙ (==_iff i k).0 c
    | inr c ↦ named_at k m (rw (c, if◌then◌else◌) at e) w.1
  ]

  -- A store whose tree has just taken a commitment.
  taken :
      (cmx : n.Commitment) (s : NoteStore n) (t u : n.Tree)
      → n.append cmx s.tree ≡ some t
      → n.current_position u ≡ n.current_position t
      → IsStore n s
      → IsStore n (record s { tree = u; appended = (s.appended + 1) % u64_mod })
  taken cmx s t u e same w =
      let position : n.current_position u ≡ some s.appended =
        same ∙ laws.append_next cmx s.tree t e ∙ ap some (sym w.next) in
      record {
        next = rw position refl;
        held_map = w.held_map;
        flight_map = w.flight_map;
        held_named = w.held_named;
        flight_named = w.flight_named;
        held_below =
            All-weaken_below s.appended ((s.appended + 1) % u64_mod) s.held
              (omega (arith, w.next, after_bounded s.tree)) w.held_below;
      }

  append_step :
      (cmx : n.Commitment) (ours : Bool) (s : NoteStore n) (o : Option n.Tree)
      → n.append cmx s.tree ≡ o
      → IsStore n s
      → IsStore n (append_on n ours s o).1
  unfolding append_on
  append_step cmx ours s none e w = w
  append_step cmx false s (some t) e w = taken cmx s t t e refl w
  append_step cmx true s (some t) e w = taken cmx s t (n.mark t).1 e (laws.mark_keeps t) w

  -- A mark is a position that the store has given out.
  pub mark_below :
      (cmx : n.Commitment) (ours : Bool) (s : NoteStore n) (o : Option n.Tree) {p : ℕ}
      → n.append cmx s.tree ≡ o
      → IsStore n s
      → (append_on n ours s o).0 ≡ some p
      → (p ≡ s.appended) × (p < (append_on n ours s o).1.appended)
  unfolding append_on
  mark_below cmx ours s none e w m = absurd cc
  mark_below cmx false s (some t) e w m = absurd cc
  mark_below cmx true s (some t) {p} e w m =
      let position : some s.appended ≡ some p =
        sym (laws.append_next cmx s.tree t e ∙ ap some (sym w.next)) ∙ laws.mark_current t p m in
      let same : s.appended ≡ p = cc position in
      (sym same, omega (arith, same, w.next, after_bounded s.tree))

  held_step :
      (note : n.Note) (p height : ℕ) (txid : Bytes) (s : NoteStore n)
      → IsStore n s
      → p < s.appended
      → IsStore n (hold n note p height txid s)
  unfolding hold
  held_step note p height txid s w b = record {
    next = w.next;
    held_map = insert-IsMap p _ s.held w.held_map;
    flight_map = w.flight_map;
    held_named = All-insert (λ x. x.1.position ≡ x.0) p _ s.held refl w.held_named;
    flight_named = w.flight_named;
    held_below = All-insert (λ x. x.0 < s.appended) p _ s.held b w.held_below;
  }

  hold_at_step :
      (ours : Option n.Note) (o : Option ℕ) (height : ℕ) (txid : Bytes) (s : NoteStore n)
      → IsStore n s
      → ((p : ℕ) → o ≡ some p → p < s.appended)
      → IsStore n (hold_at n ours o height txid s)
  unfolding hold_at
  hold_at_step none o height txid s w b = w
  hold_at_step (some note) none height txid s w b = w
  hold_at_step (some note) (some p) height txid s w b = held_step note p height txid s w (b p refl)

  pub receive_step :
      (cmx : n.Commitment) (ours : Option n.Note) (height : ℕ) (txid : Bytes) (s : NoteStore n)
      → IsStore n s
      → IsStore n (receive n cmx ours height txid s)
  unfolding receive append
  receive_step cmx ours height txid s w =
      hold_at_step ours _ height txid _
        (append_step cmx (is_some n ours) s (n.append cmx s.tree) refl w)
        (λ p m. (mark_below cmx (is_some n ours) s (n.append cmx s.tree) refl w m).1)

  retained_below :
      (o : Option ℕ) (m : List (ℕ × HeldNote n))
      → ((p : ℕ) → o ≡ some p → p < 2 ^ 32)
      → All (λ x. x.0 < after_position o) (retain n o m)
  unfolding retain
  retained_below none m b = tt
  retained_below (some top) [] b = tt
  retained_below (some top) ((i, h) ∷ m) b = elim (Bool-cases (leb i top)) [
    | inl e ↦ rw e (omega (arith, leb→le i top e, b top refl), retained_below (some top) m b)
    | inr e ↦ rw e (retained_below (some top) m b)
  ]

  retain-IsMap : (o : Option ℕ) (m : List (ℕ × HeldNote n)) → IsMap m → IsMap (retain n o m)
  unfolding retain
  retain-IsMap none m w = tt
  retain-IsMap (some top) m w = filter-IsMap _ m w

  All-retain :
      (P : ℕ × HeldNote n → Type 0) (o : Option ℕ) (m : List (ℕ × HeldNote n))
      → All P m
      → All P (retain n o m)
  unfolding retain
  All-retain P none m w = tt
  All-retain P (some top) m w = All-filter P _ m w

  pub rewind_step :
      (s : NoteStore n) (o : Option n.Tree) → IsStore n s → IsStore n (rewind_on n s o).1
  unfolding rewind_on
  rewind_step s none w = w
  rewind_step s (some t) w = record {
    next = refl;
    held_map = retain-IsMap (n.current_position t) s.held w.held_map;
    flight_map = w.flight_map;
    held_named = All-retain (λ x. x.1.position ≡ x.0) (n.current_position t) s.held w.held_named;
    flight_named = w.flight_named;
    held_below = retained_below (n.current_position t) s.held (λ p e. laws.bounded t p e);
  }

  pub spend_step :
      (position : ℕ) (s : NoteStore n) (o : Option (HeldNote n))
      → Maps.lookup position s.held ≡ o
      → IsStore n s
      → IsStore n (spend_on n position s o).1
  unfolding spend_on
  spend_step position s none e w = w
  spend_step position s (some h) e w = record {
    next = w.next;
    held_map = remove-IsMap position s.held w.held_map;
    flight_map = insert-IsMap position h s.in_flight w.flight_map;
    held_named = All-remove (λ x. x.1.position ≡ x.0) position s.held w.held_named;
    flight_named =
        All-insert (λ x. x.1.position ≡ x.0) position h s.in_flight
          (named_at position s.held e w.held_named) w.flight_named;
    held_below = All-remove (λ x. x.0 < s.appended) position s.held w.held_below;
  }

  record_step :
      (nf : Bytes) (o : Option (HeldNote n)) (s : NoteStore n)
      → IsStore n s
      → IsStore n (record_spent n nf o s).1
  unfolding record_spent
  record_step nf none s w = w
  record_step nf (some h) s w = record {
    next = w.next;
    held_map = w.held_map;
    flight_map = w.flight_map;
    held_named = w.held_named;
    flight_named = w.flight_named;
    held_below = w.held_below;
  }

  without_held :
      (k : ℕ) (s : NoteStore n) → IsStore n s → IsStore n (record s { held = remove k s.held })
  without_held k s w = record {
    next = w.next;
    held_map = remove-IsMap k s.held w.held_map;
    flight_map = w.flight_map;
    held_named = All-remove (λ x. x.1.position ≡ x.0) k s.held w.held_named;
    flight_named = w.flight_named;
    held_below = All-remove (λ x. x.0 < s.appended) k s.held w.held_below;
  }

  without_flight :
      (k : ℕ) (s : NoteStore n)
      → IsStore n s
      → IsStore n (record s { in_flight = remove k s.in_flight })
  without_flight k s w = record {
    next = w.next;
    held_map = w.held_map;
    flight_map = remove-IsMap k s.in_flight w.flight_map;
    held_named = w.held_named;
    flight_named = All-remove (λ x. x.1.position ≡ x.0) k s.in_flight w.flight_named;
    held_below = w.held_below;
  }

  seen_held_step :
      (nf : Bytes) (s : NoteStore n) (o : Option (HeldNote n))
      → IsStore n s
      → IsStore n (spend_held n nf s o).1
  unfolding spend_held
  seen_held_step nf s none w = w
  seen_held_step nf s (some h) w = record_step nf _ _ (without_held h.position s w)

  pub seen_step :
      (fvk : n.ViewKey) (nf : Bytes) (s : NoteStore n) (o : Option (HeldNote n))
      → IsStore n s
      → IsStore n (spend_seen n fvk nf s o).1
  unfolding spend_seen
  seen_step fvk nf s none w = seen_held_step nf s _ w
  seen_step fvk nf s (some h) w = record_step nf _ _ (without_flight h.position s w)
