-- ===== src/Notes/Keeping.antt =====
-- What a note store of src/notes.rs knows of its own nullifiers, call by call.
use zec_multisig.Base.{
  ℕ, ◌≤◌, ◌<◌, ◌≡◌, refl, sym, ap, ◌∙◌, Bool, true, false, ◌||◌, Option, none, some, List, [], ◌∷◌,
  All, any, Option-cases, inl, inr, ◌⊎◌, arith, Bytes, bytes_eq, bytes_eq_iff, bytes_eq_refl,
  ne→==_false,
}
use zec_multisig.Base.Maps.{
  lookup, remove, values, find, IsMap, lookup-remove, lookup-remove-none, lookup-insert, All-insert,
  All-remove, All-at, lookup_above,
}
use zec_multisig.Base.Maps
use zec_multisig.Base.Sets.{contains, contains-insert}
use zec_multisig.Base.Sets
use zec_multisig.Notes.{
  NoteTypes, NoteStore, HeldNote, spend_on, spend_seen, spend_held, record_spent, reveals,
  holds_nullifier,
}
use zec_multisig.Notes.Entries.{any-append, any-insert, any-insert-new, any-remove, find_named}
use zec_multisig.Notes.Calls.{Call, rewinds, sees, call, IsStore}

module _ (n : NoteTypes) where
  -- A position in flight is one that the tree has given out and that nothing held stands under.
  abbrev pub Apart : NoteStore n → Type 0
  Apart s = All (λ x. (lookup x.0 s.held ≡ none) × (x.0 < s.appended)) s.in_flight

  -- Every call but a rewind, with nullifiers computed by one viewing key.
  abbrev pub Steady : n.ViewKey → Call n → Type 0
  Steady fvk rewinds = ⊥
  Steady fvk (sees key nf) = key ≡ fvk
  Steady fvk other = Unit

  unfoldable pub run : List (Call n) → NoteStore n → NoteStore n
  run [] s = s
  run (c ∷ cs) s = run cs (call n c s)

  -- The parts of a store that recognition reads.
  abbrev pub Known : n.ViewKey → Bytes → NoteStore n → Type 0
  Known fvk nf s =
      (contains nf s.spent ≡ true)
      ⊎ ((any (reveals n fvk nf) (values s.held) ≡ true)
          ⊎ (any (reveals n fvk nf) (values s.in_flight) ≡ true))

  pub three : (a b c : Bool) → (a || (b || c)) ≡ true → (a ≡ true) ⊎ ((b ≡ true) ⊎ (c ≡ true))
  three true b c h = inl refl
  three false true c h = inr (inl refl)
  three false false c h = inr (inr h)

  pub one_of_three :
      (a b c : Bool) → (a ≡ true) ⊎ ((b ≡ true) ⊎ (c ≡ true)) → (a || (b || c)) ≡ true
  one_of_three true b c h = refl
  one_of_three false true c h = refl
  one_of_three false false c (inl h) = cc
  one_of_three false false c (inr (inl h)) = cc
  one_of_three false false c (inr (inr h)) = h

  pub known :
      (fvk : n.ViewKey) (nf : Bytes) (s : NoteStore n)
      → holds_nullifier n fvk nf s ≡ true
      → Known fvk nf s
  unfolding holds_nullifier
  known fvk nf s h =
      three (contains nf s.spent) (any (reveals n fvk nf) (values s.held))
        (any (reveals n fvk nf) (values s.in_flight))
        (rw (any-append (reveals n fvk nf) (values s.held) (values s.in_flight)) at h)

  pub Known-holds :
      (fvk : n.ViewKey) (nf : Bytes) (s : NoteStore n)
      → Known fvk nf s
      → holds_nullifier n fvk nf s ≡ true
  unfolding holds_nullifier
  Known-holds fvk nf s h = rw (any-append (reveals n fvk nf) (values s.held) (values s.in_flight)) (
      one_of_three (contains nf s.spent) (any (reveals n fvk nf) (values s.held))
        (any (reveals n fvk nf) (values s.in_flight)) h)

  -- One store after another: what was known is known, and the positions stay apart.
  pub record Keeps (fvk : n.ViewKey) (s t : NoteStore n) : Type 0 where
    pub knows : (nf : Bytes) → Known fvk nf s → Known fvk nf t
    pub apart : Apart s → Apart t

  pub contains-insert_same : (nf : Bytes) (s : Sets.ByteSet) → contains nf (Sets.insert nf s) ≡ true
  contains-insert_same nf s = rw (contains-insert nf nf s, bytes_eq_refl nf) refl

  pub contains-insert_old :
      (j k : Bytes) (s : Sets.ByteSet) → contains j s ≡ true → contains j (Sets.insert k s) ≡ true
  contains-insert_old j k s h = rw (contains-insert j k s, h) (or_true (bytes_eq j k))
    where
      or_true : (a : Bool) → (a || true) ≡ true
      or_true true = refl
      or_true false = refl

  pub still_apart :
      (k : ℕ) (held : List (ℕ × HeldNote n)) (b : ℕ) (m : List (ℕ × HeldNote n))
      → All (λ x. (lookup x.0 held ≡ none) × (x.0 < b)) m
      → All (λ x. (lookup x.0 (remove k held) ≡ none) × (x.0 < b)) m
  still_apart k held b [] h = tt
  still_apart k held b (x ∷ m) h =
      ((lookup-remove-none x.0 k held h.0.0, h.0.1), still_apart k held b m h.1)

  pub spends-Keeps :
      (fvk : n.ViewKey) (position : ℕ) (s : NoteStore n) (o : Option (HeldNote n))
      → lookup position s.held ≡ o
      → IsStore n s
      → Apart s
      → Keeps fvk s (spend_on n position s o).1
  unfolding spend_on
  spends-Keeps fvk position s none e w a = record { knows = λ nf k. k; apart = λ x. x }
  spends-Keeps fvk position s (some h) e w a =
      let fresh : lookup position s.in_flight ≡ none =
        elim (Option-cases (lookup position s.in_flight)) [
          | inl q ↦ q
          | inr (g, q) ↦ absurd (
              cc (
                (All-at (λ x. (lookup x.0 s.held ≡ none) × (x.0 < s.appended)) position s.in_flight
                    a q).0,
                e,
              ))
        ] in
      record {
        knows = λ nf. elim [
          | inl k ↦ inl k
          | inr (inl k) ↦ elim (any-remove (reveals n fvk nf) position s.held w.held_map k) [
            | inl r ↦ inr (inl r)
            | inr (g, q, r) ↦
                let same : g ≡ h = cc (sym q ∙ e) in
                inr (
                  inr (
                    any-insert (reveals n fvk nf) position h s.in_flight
                      (ap (reveals n fvk nf) (sym same) ∙ r)))
          ]
          | inr (inr k) ↦
              inr (inr (any-insert-new (reveals n fvk nf) position h s.in_flight fresh k))
        ];
        apart = λ x.
            All-insert (λ y. (lookup y.0 (remove position s.held) ≡ none) × (y.0 < s.appended))
              position h s.in_flight
              (
                lookup-remove position s.held,
                All-at (λ y. y.0 < s.appended) position s.held w.held_below e,
              )
              (still_apart position s.held s.appended s.in_flight a);
      }

  -- What leaves a map by its nullifier is recorded, so nothing is forgotten.
  pub left :
      (fvk : n.ViewKey) (nf seen : Bytes) (h : HeldNote n) (m : List (ℕ × HeldNote n))
      (spent : Sets.ByteSet)
      → IsMap m
      → lookup h.position m ≡ some h
      → reveals n fvk seen h ≡ true
      → any (reveals n fvk nf) (values m) ≡ true
      → (contains nf (Sets.insert seen spent) ≡ true)
        ⊎ (any (reveals n fvk nf) (values (remove h.position m)) ≡ true)
  left fvk nf seen h m spent w e r k = elim (any-remove (reveals n fvk nf) h.position m w k) [
    | inl q ↦ inr q
    | inr (g, q, c) ↦
        let held : g ≡ h = cc (sym q ∙ e) in
        let same : nf ≡ seen =
          sym ((bytes_eq_iff (n.nullifier_of fvk g.note) nf).0 c)
          ∙ ap (λ x. n.nullifier_of fvk x.note) held
          ∙ (bytes_eq_iff (n.nullifier_of fvk h.note) seen).0 r in
        inl (rw same (contains-insert_same seen spent))
  ]

  pub seen_held-Keeps :
      (fvk : n.ViewKey) (seen : Bytes) (s : NoteStore n) (o : Option (HeldNote n))
      → find (reveals n fvk seen) (values s.held) ≡ o
      → IsStore n s
      → Keeps fvk s (spend_held n seen s o).1
  unfolding spend_held record_spent
  seen_held-Keeps fvk seen s none e w = record { knows = λ nf k. k; apart = λ x. x }
  seen_held-Keeps fvk seen s (some h) e w =
      let (at, r) =
        find_named (reveals n fvk seen) (λ x. x.position) s.held w.held_map w.held_named e in
      rw at (record {
        knows = λ nf. elim [
          | inl k ↦ inl (contains-insert_old nf seen s.spent k)
          | inr (inl k) ↦ elim (left fvk nf seen h s.held s.spent w.held_map at r k) [
            | inl q ↦ inl q
            | inr q ↦ inr (inl q)
          ]
          | inr (inr k) ↦ inr (inr k)
        ];
        apart = λ x. still_apart h.position s.held s.appended s.in_flight x;
      })

  pub seen-Keeps :
      (fvk : n.ViewKey) (seen : Bytes) (s : NoteStore n) (o : Option (HeldNote n))
      → find (reveals n fvk seen) (values s.in_flight) ≡ o
      → IsStore n s
      → Keeps fvk s (spend_seen n fvk seen s o).1
  unfolding spend_seen record_spent
  seen-Keeps fvk seen s none e w =
      seen_held-Keeps fvk seen s (find (reveals n fvk seen) (values s.held)) refl w
  seen-Keeps fvk seen s (some h) e w =
      let (at, r) =
        find_named (reveals n fvk seen) (λ x. x.position) s.in_flight w.flight_map w.flight_named
          e in
      rw at (record {
        knows = λ nf. elim [
          | inl k ↦ inl (contains-insert_old nf seen s.spent k)
          | inr (inl k) ↦ inr (inl k)
          | inr (inr k) ↦ elim (left fvk nf seen h s.in_flight s.spent w.flight_map at r k) [
            | inl q ↦ inl q
            | inr q ↦ inr (inr q)
          ]
        ];
        apart = λ x.
            All-remove (λ y. (lookup y.0 s.held ≡ none) × (y.0 < s.appended)) h.position s.in_flight
              x;
      })

  pub raised :
      (a b : ℕ) (held : List (ℕ × HeldNote n)) (m : List (ℕ × HeldNote n))
      → a ≤ b
      → All (λ x. (lookup x.0 held ≡ none) × (x.0 < a)) m
      → All (λ x. (lookup x.0 held ≡ none) × (x.0 < b)) m
  raised a b held [] l h = tt
  raised a b held (x ∷ m) l h = ((h.0.0, omega (arith, h.0.1)), raised a b held m l h.1)

  pub beside :
      (p : ℕ) (v : HeldNote n) (b : ℕ) (held : List (ℕ × HeldNote n)) (m : List (ℕ × HeldNote n))
      → All (λ x. (lookup x.0 held ≡ none) × (x.0 < p)) m
      → p < b
      → All (λ x. (lookup x.0 (Maps.insert p v held) ≡ none) × (x.0 < b)) m
  beside p v b held [] h l = tt
  beside p v b held (x ∷ m) h l = (
    (
      rw (lookup-insert x.0 p v held, ne→==_false p x.0 (λ e. absurd (omega (arith, e, h.0.1))))
          h.0.0,
      omega (arith, h.0.1),
    ),
    beside p v b held m h.1 l,
  )
