-- ===== src/Base/Maps.antt =====
-- `BTreeMap<u64, _>`: an association list in increasing order of its keys, and what lookup, removal,
-- insertion and a filter do to one another.
use Prim.Native.Nat.{ℕ, ◌+◌, ◌≤◌, ◌<◌}
use mathlib.Core.Path.{◌≡◌, refl}
use mathlib.Core.Logic.{inl, inr}
use mathlib.Core.Bool.{Bool}
use mathlib.Core.Option.{Option, none, some}
use mathlib.Core.List.{List, [], ◌∷◌}
use native.Mathlib.Omega.{arith}
use zec_multisig.Base.Tests.{◌==◌, ltb, if◌then◌else◌, Bool-cases, ==_iff}
use zec_multisig.Base.Lists.{filter, All}

module _ {A : Type 0} where
  abbrev pub lookup : ℕ → List (ℕ × A) → Option A
  lookup k [] = none
  lookup k ((i, a) ∷ m) = if i == k then some a else lookup k m

  abbrev pub remove : ℕ → List (ℕ × A) → List (ℕ × A)
  remove k [] = []
  remove k ((i, a) ∷ m) = if i == k then remove k m else (i, a) ∷ remove k m

  abbrev pub insert : ℕ → A → List (ℕ × A) → List (ℕ × A)
  insert k v [] = (k, v) ∷ []
  insert k v ((i, a) ∷ m) =
      if ltb k i then (k, v) ∷ (i, a) ∷ m else if i == k then (k, v) ∷ m else (i, a) ∷ insert k v m

  abbrev pub values : List (ℕ × A) → List A
  values [] = []
  values ((i, a) ∷ m) = a ∷ values m

  -- The first value with the property.
  abbrev pub find : (A → Bool) → List A → Option A
  find p [] = none
  find p (a ∷ xs) = if p a then some a else find p xs

  pub lookup-remove : (k : ℕ) (m : List (ℕ × A)) → lookup k (remove k m) ≡ none
  lookup-remove k [] = refl
  lookup-remove k ((i, a) ∷ m) = elim (Bool-cases (i == k)) [
    | inl e ↦ rw e (lookup-remove k m)
    | inr e ↦ rw (e, e) (lookup-remove k m)
  ]

  pub lookup-remove-none :
      (k j : ℕ) (m : List (ℕ × A)) → lookup k m ≡ none → lookup k (remove j m) ≡ none
  lookup-remove-none k j [] h = refl
  lookup-remove-none k j ((i, a) ∷ m) h = elim (Bool-cases (i == k)) [
    | inl e ↦ absurd (ground arith)
    | inr e ↦
        let rest = lookup-remove-none k j m (ground arith) in
        elim (Bool-cases (i == j)) [ inl c ↦ rw c rest | inr c ↦ rw (c, e) rest ]
  ]

  pub lookup-filter-none :
      (p : ℕ × A → Bool) (k : ℕ) (m : List (ℕ × A))
      → lookup k m ≡ none
      → lookup k (filter p m) ≡ none
  lookup-filter-none p k [] h = refl
  lookup-filter-none p k ((i, a) ∷ m) h = elim (Bool-cases (i == k)) [
    | inl e ↦ absurd (ground arith)
    | inr e ↦
        let rest = lookup-filter-none p k m (ground arith) in
        elim (Bool-cases (p (i, a))) [ inl c ↦ rw (c, e) rest | inr c ↦ rw c rest ]
  ]

  pub All-filter :
      (P : ℕ × A → Type 0) (p : ℕ × A → Bool) (m : List (ℕ × A)) → All P m → All P (filter p m)
  All-filter P p [] h = tt
  All-filter P p (x ∷ m) h = elim (Bool-cases (p x)) [
    | inl c ↦ rw c (h.0, All-filter P p m h.1)
    | inr c ↦ rw c (All-filter P p m h.1)
  ]

  pub All-remove : (P : ℕ × A → Type 0) (k : ℕ) (m : List (ℕ × A)) → All P m → All P (remove k m)
  All-remove P k [] h = tt
  All-remove P k ((i, a) ∷ m) h = elim (Bool-cases (i == k)) [
    | inl c ↦ rw c (All-remove P k m h.1)
    | inr c ↦ rw c (h.0, All-remove P k m h.1)
  ]

  -- A held request has what every member of the map has.
  pub All-lookup :
      (P : A → Type 0) (k : ℕ) (m : List (ℕ × A)) {a : A}
      → All (λ x. P x.1) m
      → lookup k m ≡ some a
      → P a
  All-lookup P k [] h e = absurd cc
  All-lookup P k ((i, b) ∷ m) {a} h e = elim (Bool-cases (i == k)) [
    | inl c ↦
        let same : some b ≡ some a = ground arith in let held : b ≡ a = cc same in rw (← held) h.0
    | inr c ↦ All-lookup P k m h.1 (ground arith)
  ]

  -- Every key is at least `b`.
  abbrev pub From : ℕ → List (ℕ × A) → Type 0
  From b m = All (λ x. b ≤ x.0) m

  -- The keys increase.
  abbrev pub IsMap : List (ℕ × A) → Type 0
  IsMap [] = Unit
  IsMap ((i, a) ∷ m) = From (i + 1) m × IsMap m

  pub From-weaken : (b c : ℕ) (m : List (ℕ × A)) → c ≤ b → From b m → From c m
  From-weaken b c [] h k = tt
  From-weaken b c (x ∷ m) h k = (omega (arith, k.0), From-weaken b c m h k.1)

  pub lookup_below : (k b : ℕ) (m : List (ℕ × A)) → k < b → From b m → lookup k m ≡ none
  lookup_below k b [] h f = refl
  lookup_below k b ((i, a) ∷ m) h f = ground (arith, lookup_below k b m h f.1)

  pub remove_below : (k b : ℕ) (m : List (ℕ × A)) → k < b → From b m → remove k m ≡ m
  remove_below k b [] h f = refl
  remove_below k b ((i, a) ∷ m) h f = ground (arith, remove_below k b m h f.1)

  pub All-insert :
      (P : ℕ × A → Type 0) (k : ℕ) (v : A) (m : List (ℕ × A))
      → P (k, v)
      → All P m
      → All P (insert k v m)
  All-insert P k v [] p h = (p, tt)
  All-insert P k v ((i, a) ∷ m) p h = elim (Bool-cases (ltb k i)) [
    | inl c ↦ rw c (p, h)
    | inr c ↦ elim (Bool-cases (i == k)) [
      | inl d ↦ rw (c, d) (p, h.1)
      | inr d ↦ rw (c, d) (h.0, All-insert P k v m p h.1)
    ]
  ]

  pub insert-IsMap : (k : ℕ) (v : A) (m : List (ℕ × A)) → IsMap m → IsMap (insert k v m)
  insert-IsMap k v [] h = (tt, tt)
  insert-IsMap k v ((i, a) ∷ m) h = elim (Bool-cases (ltb k i)) [
    | inl c ↦ rw c ((ground arith, From-weaken (i + 1) (k + 1) m (ground arith) h.0), h)
    | inr c ↦ elim (Bool-cases (i == k)) [
      | inl d ↦ rw (c, d) (From-weaken (i + 1) (k + 1) m (ground arith) h.0, h.1)
      | inr d ↦
          rw (c, d) (All-insert (λ x. i + 1 ≤ x.0) k v m (ground arith) h.0, insert-IsMap k v m h.1)
    ]
  ]

  pub remove-IsMap : (k : ℕ) (m : List (ℕ × A)) → IsMap m → IsMap (remove k m)
  remove-IsMap k [] h = tt
  remove-IsMap k ((i, a) ∷ m) h = elim (Bool-cases (i == k)) [
    | inl c ↦ rw c (remove-IsMap k m h.1)
    | inr c ↦ rw c (All-remove (λ x. i + 1 ≤ x.0) k m h.0, remove-IsMap k m h.1)
  ]

  pub filter-IsMap : (p : ℕ × A → Bool) (m : List (ℕ × A)) → IsMap m → IsMap (filter p m)
  filter-IsMap p [] h = tt
  filter-IsMap p ((i, a) ∷ m) h = elim (Bool-cases (p (i, a))) [
    | inl c ↦ rw c (All-filter (λ x. i + 1 ≤ x.0) p m h.0, filter-IsMap p m h.1)
    | inr c ↦ rw c (filter-IsMap p m h.1)
  ]

  pub lookup-insert :
      (j k : ℕ) (v : A) (m : List (ℕ × A))
      → lookup j (insert k v m) ≡ (if k == j then some v else lookup j m)
  lookup-insert j k v [] = refl
  lookup-insert j k v ((i, a) ∷ m) = ground (arith, lookup-insert j k v m)

  pub lookup-remove_if :
      (j k : ℕ) (m : List (ℕ × A)) → lookup j (remove k m) ≡ (if k == j then none else lookup j m)
  lookup-remove_if j k [] = ground arith
  lookup-remove_if j k ((i, a) ∷ m) = ground (arith, lookup-remove_if j k m)

  pub lookup-filter :
      (p : ℕ × A → Bool) (k : ℕ) (m : List (ℕ × A)) {a : A}
      → lookup k (filter p m) ≡ some a
      → IsMap m
      → lookup k m ≡ some a
  lookup-filter p k [] e h = e
  lookup-filter p k ((i, b) ∷ m) {a} e h = elim (Bool-cases (p (i, b))) [
    | inl c ↦ elim (Bool-cases (i == k)) [
      | inl d ↦ ground arith
      | inr d ↦ rw d (lookup-filter p k m (ground arith) h.1)
    ]
    | inr c ↦
        let held = lookup-filter p k m (rw (c, if◌then◌else◌) at e) h.1 in
        elim (Bool-cases (i == k)) [
          | inl d ↦ absurd (ground (arith, lookup_below k (i + 1) m (ground arith) h.0))
          | inr d ↦ rw d held
        ]
  ]

  -- What every entry has, the entry that a lookup finds has.
  pub All-at :
      (P : ℕ × A → Type 0) (k : ℕ) (m : List (ℕ × A)) {a : A}
      → All P m
      → lookup k m ≡ some a
      → P (k, a)
  All-at P k [] h e = absurd cc
  All-at P k ((i, b) ∷ m) {a} h e = elim (Bool-cases (i == k)) [
    | inl c ↦
        let same : b ≡ a = cc (rw (c, if◌then◌else◌) at e) in rw (← same, ← (==_iff i k).0 c) h.0
    | inr c ↦ All-at P k m h.1 (rw (c, if◌then◌else◌) at e)
  ]

  pub lookup_above : (k b : ℕ) (m : List (ℕ × A)) → All (λ x. x.0 < b) m → b ≤ k → lookup k m ≡ none
  lookup_above k b [] h l = refl
  lookup_above k b ((i, a) ∷ m) h l = ground (arith, lookup_above k b m h.1 l)
