-- ===== src/Notes/Ranking.antt =====
-- The order in which `select` of src/notes.rs takes notes, and what a first part of it is worth.
use zec_multisig.Base.{
  ℕ, zero, suc, ◌+◌, ◌≤◌, ◌≡◌, refl, sym, ◌∙◌, Bool, true, false, List, [], ◌∷◌, if◌then◌else◌,
  length, take, filter, All, inl, inr, Bool-cases, arith,
}
use zec_multisig.Base.Maps.{values}
use zec_multisig.Base.Sorting.{Sorted, sort_by, sort_by-Sorted, sum_by, sum_by-sort_by}
use zec_multisig.Notes.{NoteTypes, NoteStore, HeldNote, note_value, total_of, larger_first}

module _ (n : NoteTypes) where
  -- Values do not increase along the list.
  abbrev pub Falling : List (HeldNote n) → Type 0
  Falling [] = Unit
  Falling (h ∷ hs) = All (λ g. note_value n g ≤ note_value n h) hs × Falling hs

  larger_first_asym : (a b : HeldNote n) → larger_first n a b ≡ true → larger_first n b a ≡ false
  unfolding larger_first
  larger_first_asym a b h = ground arith

  larger_first_cotrans :
      (a b c : HeldNote n)
      → larger_first n b a ≡ false
      → larger_first n c b ≡ false
      → larger_first n c a ≡ false
  unfolding larger_first
  larger_first_cotrans a b c h k = ground arith

  bounded :
      (x : HeldNote n) (ys : List (HeldNote n))
      → All (λ y. larger_first n y x ≡ false) ys
      → All (λ y. note_value n y ≤ note_value n x) ys
  unfolding larger_first
  bounded x [] h = tt
  bounded x (y ∷ ys) h = (ground (arith, h.0), bounded x ys h.1)

  falls : (xs : List (HeldNote n)) → Sorted (larger_first n) xs → Falling xs
  falls [] h = tt
  falls (x ∷ xs) h = (bounded x xs h.0, falls xs h.1)

  unfoldable pub sorted : NoteStore n → List (HeldNote n)
  sorted s = sort_by (larger_first n) (values s.held)

  pub sorted-Falling : (s : NoteStore n) → Falling (sorted s)
  unfolding sorted
  sorted-Falling s =
      falls (sorted s)
        (sort_by-Sorted (larger_first n) larger_first_asym larger_first_cotrans (values s.held))

  -- One more note adds at most what bounds them all.
  take_more :
      (b m : ℕ) (hs : List (HeldNote n))
      → All (λ g. note_value n g ≤ b) hs
      → total_of n (take (suc m) hs) ≤ b + total_of n (take m hs)
  take_more b m [] h = omega arith
  take_more b zero (g ∷ hs) h = omega (arith, h.0)
  take_more b (suc m) (g ∷ hs) h = omega (arith, take_more b m hs h.1)

  take_longer :
      (x : HeldNote n) (m : ℕ) (hs : List (HeldNote n))
      → All (λ g. note_value n g ≤ note_value n x) hs
      → total_of n (take m hs) ≤ total_of n (take m (x ∷ hs))
  take_longer x zero hs h = omega arith
  take_longer x (suc m) hs h = omega (arith, take_more (note_value n x) m hs h)

  -- No choice of as many notes is worth more than the first ones.
  pub top_total :
      (p : HeldNote n → Bool) (hs : List (HeldNote n))
      → Falling hs
      → total_of n (filter p hs) ≤ total_of n (take (length (filter p hs)) hs)
  top_total p [] f = omega arith
  top_total p (h ∷ hs) f = elim (Bool-cases (p h)) [
    | inl e ↦ rw e (omega (arith, top_total p hs f.1))
    | inr e ↦ rw e (omega (arith, top_total p hs f.1, take_longer h (length (filter p hs)) hs f.0))
  ]

  -- Counting and summing a choice do not depend on the order of the list.
  length-filter-sum :
      (p : HeldNote n → Bool) (hs : List (HeldNote n))
      → length (filter p hs) ≡ sum_by (λ h. if p h then 1 else 0) hs
  length-filter-sum p [] = refl
  length-filter-sum p (h ∷ hs) = ground (arith, length-filter-sum p hs)

  total-filter-sum :
      (p : HeldNote n → Bool) (hs : List (HeldNote n))
      → total_of n (filter p hs) ≡ sum_by (λ h. if p h then note_value n h else 0) hs
  total-filter-sum p [] = refl
  total-filter-sum p (h ∷ hs) = ground (arith, total-filter-sum p hs)

  total-sum : (hs : List (HeldNote n)) → total_of n hs ≡ sum_by (note_value n) hs
  total-sum [] = refl
  total-sum (h ∷ hs) = omega (arith, total-sum hs)

  pub length-filter-sorted :
      (p : HeldNote n → Bool) (s : NoteStore n)
      → length (filter p (sorted s)) ≡ length (filter p (values s.held))
  unfolding sorted
  length-filter-sorted p s =
      length-filter-sum p (sorted s)
      ∙ sum_by-sort_by (larger_first n) (λ h. if p h then 1 else 0) (values s.held)
      ∙ sym (length-filter-sum p (values s.held))

  pub total-filter-sorted :
      (p : HeldNote n → Bool) (s : NoteStore n)
      → total_of n (filter p (sorted s)) ≡ total_of n (filter p (values s.held))
  unfolding sorted
  total-filter-sorted p s =
      total-filter-sum p (sorted s)
      ∙ sum_by-sort_by (larger_first n) (λ h. if p h then note_value n h else 0) (values s.held)
      ∙ sym (total-filter-sum p (values s.held))

  pub total-sorted : (s : NoteStore n) → total_of n (sorted s) ≡ total_of n (values s.held)
  unfolding sorted
  total-sorted s =
      total-sum (sorted s)
      ∙ sum_by-sort_by (larger_first n) (note_value n) (values s.held)
      ∙ sym (total-sum (values s.held))
