-- ===== src/Notes/Entries.antt =====
-- Searching the values of a map by a property, through insertion and removal.
use zec_multisig.Base.{
  ℕ, ◌+◌, ◌≡◌, refl, sym, Bool, true, ◌||◌, none, some, List, [], ◌∷◌, ◌++◌, ◌==◌, if◌then◌else◌,
  any, All, ◌⊎◌, inl, inr, Bool-cases, ==_iff, arith,
}
use zec_multisig.Base.Maps.{lookup, insert, remove, values, find, IsMap, lookup_below, remove_below}

module _ {A : Type 0} (r : A → Bool) where
  pub any-append : (xs ys : List A) → any r (xs ++ ys) ≡ (any r xs || any r ys)
  any-append [] ys = refl
  any-append (x ∷ xs) ys = ground (arith, any-append xs ys)

  pub any-insert :
      (k : ℕ) (v : A) (m : List (ℕ × A)) → r v ≡ true → any r (values (insert k v m)) ≡ true
  any-insert k v [] h = ground arith
  any-insert k v ((i, a) ∷ m) h = ground (arith, any-insert k v m h)

  -- A value that is held stays held when another key is written.
  pub any-insert-new :
      (k : ℕ) (v : A) (m : List (ℕ × A))
      → lookup k m ≡ none
      → any r (values m) ≡ true
      → any r (values (insert k v m)) ≡ true
  any-insert-new k v [] n h = ground arith
  any-insert-new k v ((i, a) ∷ m) n h = elim (Bool-cases (i == k)) [
    | inl d ↦ absurd (ground (arith, n))
    | inr d ↦ elim (Bool-cases (r a)) [
      | inl c ↦ ground arith
      | inr c ↦
          let rest =
            any-insert-new k v m (rw (d, if◌then◌else◌) at n) (rw (c, if◌then◌else◌) at h) in
          ground arith
    ]
  ]

  -- Removing a key loses what the key held and nothing else.
  pub any-remove :
      (k : ℕ) (m : List (ℕ × A))
      → IsMap m
      → any r (values m) ≡ true
      → (any r (values (remove k m)) ≡ true) ⊎ ((a : A) × (lookup k m ≡ some a) × (r a ≡ true))
  any-remove k [] w h = absurd cc
  any-remove k ((i, a) ∷ m) w h = elim (Bool-cases (i == k)) [
    | inl d ↦ elim (Bool-cases (r a)) [
      | inl c ↦ inr (a, rw d refl, c)
      | inr c ↦
          let same : remove k m ≡ m = remove_below k (i + 1) m (ground arith) w.0 in
          inl (rw (d, same) (rw (c, if◌then◌else◌) at h))
    ]
    | inr d ↦ elim (Bool-cases (r a)) [
      | inl c ↦ inl (rw (d, c) refl)
      | inr c ↦ elim (any-remove k m w.1 (rw (c, if◌then◌else◌) at h)) [
        | inl e ↦ inl (rw (d, c) e)
        | inr (b, e, s) ↦ inr (b, rw d e, s)
      ]
    ]
  ]

  -- What a search finds has the property, and stands under the key that it names.
  pub find_named :
      (name : A → ℕ) (m : List (ℕ × A)) {a : A}
      → IsMap m
      → All (λ x. name x.1 ≡ x.0) m
      → find r (values m) ≡ some a
      → (lookup (name a) m ≡ some a) × (r a ≡ true)
  find_named name [] w l e = absurd cc
  find_named name ((i, b) ∷ m) {a} w l e = elim (Bool-cases (r b)) [
    | inl c ↦
        let same : b ≡ a = cc (rw (c, if◌then◌else◌) at e) in
        rw (← same) (rw ((==_iff i (name b)).1 (sym l.0)) refl, c)
    | inr c ↦
        let rest = find_named name m w.1 l.1 (rw (c, if◌then◌else◌) at e) in
        elim (Bool-cases (i == name a)) [
          | inl d ↦ absurd (cc (rest.0, lookup_below (name a) (i + 1) m (ground arith) w.0))
          | inr d ↦ (rw d rest.0, rest.1)
        ]
  ]
