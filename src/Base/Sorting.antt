-- ===== src/Base/Sorting.antt =====
-- Stable insertion sort, which is what the standard library's stable sorts compute.
use Prim.Native.Nat.{ℕ, ◌+◌}
use mathlib.Core.Path.{◌≡◌, refl}
use mathlib.Core.Logic.{◌↔◌, ◌⊎◌, inl, inr}
use mathlib.Core.Bool.{Bool, true, false}
use mathlib.Core.List.{List, [], ◌∷◌}
use native.Mathlib.Omega.{arith}
use zec_multisig.Base.Tests.{if◌then◌else◌, Bool-cases}
use zec_multisig.Base.Lists.{All, In}

-- `sort_by_key` is stable: an element goes in front of the later ones that its key does not exceed.
unfoldable pub insert_by {ℓ} : {A : Type ℓ} → (A → A → Bool) → A → List A → List A
insert_by lt x [] = x ∷ []
insert_by lt x (y ∷ ys) = if lt y x then y ∷ insert_by lt x ys else x ∷ y ∷ ys

unfoldable pub sort_by {ℓ} : {A : Type ℓ} → (A → A → Bool) → List A → List A
sort_by lt [] = []
sort_by lt (x ∷ xs) = insert_by lt x (sort_by lt xs)

module _ {A : Type 0} (lt : A → A → Bool) (a : A) where
  In-insert_by : (x : A) (ys : List A) → In a (insert_by lt x ys) ↔ ((a ≡ x) ⊎ In a ys)
  unfolding insert_by
  In-insert_by x [] = (λ m. m, λ m. m)
  In-insert_by x (y ∷ ys) = elim (Bool-cases (lt y x)) [
    | inl e ↦
        rw (e, if◌then◌else◌)
          (
            elim [
              | inl q ↦ inr (inl q)
              | inr m ↦ elim ((In-insert_by x ys).0 m) [ inl q ↦ inl q | inr n ↦ inr (inr n) ]
            ],
            elim [
              | inl q ↦ inr ((In-insert_by x ys).1 (inl q))
              | inr (inl q) ↦ inl q
              | inr (inr m) ↦ inr ((In-insert_by x ys).1 (inr m))
            ],
          )
    | inr e ↦ rw (e, if◌then◌else◌) (λ m. m, λ m. m)
  ]

  pub In-sort_by : (xs : List A) → In a (sort_by lt xs) ↔ In a xs
  unfolding sort_by
  In-sort_by [] = (λ m. m, λ m. m)
  In-sort_by (x ∷ xs) =
      let i = In-insert_by x (sort_by lt xs) in
      (
        λ m. elim (i.0 m) [ inl q ↦ inl q | inr n ↦ inr ((In-sort_by xs).0 n) ],
        elim [ inl q ↦ i.1 (inl q) | inr n ↦ i.1 (inr ((In-sort_by xs).1 n)) ],
      )

-- Nothing stands behind an element that its key comes before.
abbrev pub Sorted : {A : Type 0} → (A → A → Bool) → List A → Type 0
Sorted lt [] = Unit
Sorted lt (x ∷ xs) = All (λ y. lt y x ≡ false) xs × Sorted lt xs

module _ {A : Type 0} (lt : A → A → Bool) (asym : (x y : A) → lt x y ≡ true → lt y x ≡ false)
    (cotrans : (x y z : A) → lt y x ≡ false → lt z y ≡ false → lt z x ≡ false) where
  All-insert_by :
      (x y : A) (ys : List A)
      → lt y x ≡ false
      → All (λ z. lt z x ≡ false) ys
      → All (λ z. lt z x ≡ false) (insert_by lt y ys)
  unfolding insert_by
  All-insert_by x y [] h hs = (h, tt)
  All-insert_by x y (z ∷ zs) h hs = elim (Bool-cases (lt z y)) [
    | inl e ↦ rw (e, if◌then◌else◌) (hs.0, All-insert_by x y zs h hs.1)
    | inr e ↦ rw (e, if◌then◌else◌) (h, hs)
  ]

  All-cotrans :
      (x y : A) (ys : List A)
      → lt y x ≡ false
      → All (λ z. lt z y ≡ false) ys
      → All (λ z. lt z x ≡ false) ys
  All-cotrans x y [] h hs = tt
  All-cotrans x y (z ∷ zs) h hs = (cotrans x y z h hs.0, All-cotrans x y zs h hs.1)

  insert_by-Sorted : (x : A) (ys : List A) → Sorted lt ys → Sorted lt (insert_by lt x ys)
  unfolding insert_by
  insert_by-Sorted x [] s = (tt, tt)
  insert_by-Sorted x (y ∷ ys) s = elim (Bool-cases (lt y x)) [
    | inl e ↦
        rw (e, if◌then◌else◌) (All-insert_by y x ys (asym y x e) s.0, insert_by-Sorted x ys s.1)
    | inr e ↦ rw (e, if◌then◌else◌) ((e, All-cotrans x y ys e s.0), s)
  ]

  pub sort_by-Sorted : (xs : List A) → Sorted lt (sort_by lt xs)
  unfolding sort_by
  sort_by-Sorted [] = tt
  sort_by-Sorted (x ∷ xs) = insert_by-Sorted x (sort_by lt xs) (sort_by-Sorted xs)

-- A sum over a list, which sorting keeps.
abbrev pub sum_by : {A : Type 0} → (A → ℕ) → List A → ℕ
sum_by g [] = 0
sum_by g (x ∷ xs) = g x + sum_by g xs

module _ {A : Type 0} (lt : A → A → Bool) (g : A → ℕ) where
  sum_by-insert_by : (x : A) (ys : List A) → sum_by g (insert_by lt x ys) ≡ g x + sum_by g ys
  unfolding insert_by
  sum_by-insert_by x [] = refl
  sum_by-insert_by x (y ∷ ys) = ground (arith, sum_by-insert_by x ys)

  pub sum_by-sort_by : (xs : List A) → sum_by g (sort_by lt xs) ≡ sum_by g xs
  unfolding sort_by
  sum_by-sort_by [] = refl
  sum_by-sort_by (x ∷ xs) = omega (arith, sum_by-insert_by x (sort_by lt xs), sum_by-sort_by xs)
