-- ===== src/Notes/Selection.antt =====
-- Which notes `select` of src/notes.rs chooses: enough, largest first, and as few as can be.
use zec_multisig.Base.{
  ℕ, zero, suc, ◌+◌, ◌-◌, ◌≤◌, ◌<◌, min, ◌≡◌, refl, ◌∙◌, Bool, List, [], ◌∷◌, ltb, leb,
  if◌then◌else◌, length, take, filter, ◌⊎◌, inl, inr, Bool-cases, arith, ok, err, leb→le, ltb→lt,
  ltb_false→le,
}
use zec_multisig.Base.Maps.{values}
use zec_multisig.Notes.{
  NoteTypes, NoteStore, HeldNote, insufficient, note_value, total_of, saturating_add, choose,
  select, u64_mod,
}
use zec_multisig.Notes.Ranking.{
  sorted, sorted-Falling, top_total, length-filter-sorted, total-filter-sorted, total-sorted,
}

module _ (n : NoteTypes) where
  -- The loop takes a first part of the list.
  choose_prefix :
      (amount total : ℕ) (hs : List (HeldNote n))
      → (choose n amount total hs).0 ≡ take (length (choose n amount total hs).0) hs
  unfolding choose
  choose_prefix amount total [] = refl
  choose_prefix amount total (h ∷ hs) = elim (Bool-cases (leb amount total)) [
    | inl e ↦ rw e refl
    | inr e ↦ rw (e, ← choose_prefix amount (saturating_add n total (note_value n h)) hs) refl
  ]

  -- Its total is that of the part it took, as far as a `u64` goes.
  choose_total :
      (amount total : ℕ) (hs : List (HeldNote n))
      → total < u64_mod
      → (choose n amount total hs).1
        ≡ min (total + total_of n (choose n amount total hs).0) (u64_mod - 1)
  unfolding choose
  choose_total amount total [] b = omega arith
  choose_total amount total (h ∷ hs) b = elim (Bool-cases (leb amount total)) [
    | inl e ↦ rw e (omega arith)
    | inr e ↦ rw e (
        omega
          (arith, choose_total amount (saturating_add n total (note_value n h)) hs (omega arith)))
  ]

  -- While it goes on, the amount is not reached.
  choose_short :
      (amount total m : ℕ) (hs : List (HeldNote n))
      → amount < u64_mod
      → m < length (choose n amount total hs).0
      → total + total_of n (take m hs) < amount
  unfolding choose
  choose_short amount total m [] b l = absurd (omega arith)
  choose_short amount total zero (h ∷ hs) b l = elim (Bool-cases (leb amount total)) [
    | inl e ↦ absurd (omega (arith, rw (e, if◌then◌else◌) at l))
    | inr e ↦ ground (arith, e)
  ]
  choose_short amount total (suc m) (h ∷ hs) b l = elim (Bool-cases (leb amount total)) [
    | inl e ↦ absurd (omega (arith, rw (e, if◌then◌else◌) at l))
    | inr e ↦
        let next =
          choose_short amount (saturating_add n total (note_value n h)) m hs b
            (omega (arith, rw (e, if◌then◌else◌) at l)) in
        omega (arith, next)
  ]

  -- If it ends short of the amount, it took the whole list.
  choose_all :
      (amount total : ℕ) (hs : List (HeldNote n))
      → amount < u64_mod
      → (choose n amount total hs).1 < amount
      → (choose n amount total hs).1 ≡ total + total_of n hs
  unfolding choose
  choose_all amount total [] b h = omega arith
  choose_all amount total (x ∷ hs) b h = elim (Bool-cases (leb amount total)) [
    | inl e ↦ absurd (omega (arith, rw (e, if◌then◌else◌) at h, leb→le amount total e))
    | inr e ↦
        let rest =
          choose_all amount (saturating_add n total (note_value n x)) hs b
            (rw (e, if◌then◌else◌) at h) in
        rw e (omega (arith, rest, rw (e, if◌then◌else◌) at h))
  ]

  -- It reaches every amount that the list holds.
  choose_enough :
      (amount total : ℕ) (hs : List (HeldNote n))
      → amount < u64_mod
      → amount ≤ total + total_of n hs
      → amount ≤ (choose n amount total hs).1
  unfolding choose
  choose_enough amount total [] b h = omega arith
  choose_enough amount total (x ∷ hs) b h = elim (Bool-cases (leb amount total)) [
    | inl e ↦ rw e (leb→le amount total e)
    | inr e ↦
        rw e (choose_enough amount (saturating_add n total (note_value n x)) hs b (omega arith))
  ]

  -- A part of the list is worth at most the list.
  take_total : (m : ℕ) (hs : List (HeldNote n)) → total_of n (take m hs) ≤ total_of n hs
  take_total zero hs = omega arith
  take_total (suc m) [] = omega arith
  take_total (suc m) (h ∷ hs) = omega (arith, take_total m hs)

  abbrev picked : ℕ → NoteStore n → List (HeldNote n)
  picked amount s = (choose n amount 0 (sorted n s)).0

  picked_total :
      (amount : ℕ) (s : NoteStore n)
      → (choose n amount 0 (sorted n s)).1 ≤ total_of n (picked amount s)
  picked_total amount s = omega (arith, choose_total amount 0 (sorted n s) (omega arith))

  picked_within :
      (amount : ℕ) (s : NoteStore n) → total_of n (picked amount s) ≤ total_of n (values s.held)
  picked_within amount s =
      rw (choose_prefix amount 0 (sorted n s))
        (omega (arith, take_total (length (picked amount s)) (sorted n s), total-sorted n s))

  -- What `select` answers for an amount of 64 bits: notes that cover it, taken from the front of the
  -- held ones in the order of falling value, if all held notes together do; and otherwise the error,
  -- with what is held.
  pub select_answers :
      (amount : ℕ) (s : NoteStore n)
      → amount < u64_mod
      → ((total_of n (values s.held) < amount)
          × (select n amount s ≡ err (insufficient (total_of n (values s.held)) amount)))
        ⊎ ((ns : List (HeldNote n)) × (select n amount s ≡ ok ns)
            × (amount ≤ total_of n ns)
            × (ns ≡ take (length ns) (sorted n s)))
  unfolding select sorted
  select_answers amount s b = elim (Bool-cases (ltb (choose n amount 0 (sorted n s)).1 amount)) [
    | inl e ↦
        let short = ltb→lt (choose n amount 0 (sorted n s)).1 amount e in
        let whole : (choose n amount 0 (sorted n s)).1 ≡ total_of n (values s.held) =
          choose_all amount 0 (sorted n s) b short ∙ omega (arith, total-sorted n s) in
        inl (omega (arith, short, whole), rw (e, whole) refl)
    | inr e ↦ inr (
      picked amount s,
      rw e refl,
      omega
          (arith, picked_total amount s, ltb_false→le (choose n amount 0 (sorted n s)).1 amount e),
      choose_prefix amount 0 (sorted n s),
    )
  ]

  fewest :
      (amount : ℕ) (s : NoteStore n) (p : HeldNote n → Bool)
      → amount < u64_mod
      → amount ≤ total_of n (filter p (values s.held))
      → length (picked amount s) ≤ length (filter p (values s.held))
  fewest amount s p b c =
      elim (Bool-cases (ltb (length (filter p (values s.held))) (length (picked amount s)))) [
        | inr e ↦ ltb_false→le (length (filter p (values s.held))) (length (picked amount s)) e
        | inl e ↦
            let fewer = ltb→lt (length (filter p (values s.held))) (length (picked amount s)) e in
            absurd (
              omega (
                arith,
                choose_short amount 0 (length (filter p (values s.held))) (sorted n s) b fewer,
                rw (length-filter-sorted n p s, total-filter-sorted n p s) at
                    (top_total n p (sorted n s) (sorted-Falling n s)),
              ))
      ]

  -- No choice of held notes that covers a 64-bit amount has fewer notes than the selection.
  pub select_fewest :
      (amount : ℕ) (s : NoteStore n) (ns : List (HeldNote n)) (p : HeldNote n → Bool)
      → amount < u64_mod
      → select n amount s ≡ ok ns
      → amount ≤ total_of n (filter p (values s.held))
      → length ns ≤ length (filter p (values s.held))
  unfolding select sorted
  select_fewest amount s ns p b h c =
      elim (Bool-cases (ltb (choose n amount 0 (sorted n s)).1 amount)) [
        | inl e ↦ absurd (cc (rw (e, if◌then◌else◌) at h))
        | inr e ↦
            let taken : picked amount s ≡ ns = cc (rw (e, if◌then◌else◌) at h) in
            rw (← taken) (fewest amount s p b c)
      ]
