-- ===== src/Compact/Reading.antt =====
-- A reader that inverts a writer, in either direction, and what lists of them do.
use native.Mathlib.Nat.{mod-eq_of_lt}
use zec_multisig.Base.{
  ℕ, ◌%◌, ◌^◌, ◌<◌, ◌≡◌, refl, Option, some, List, [], ◌∷◌, ◌++◌, length, Bytes, le_bytes, arith,
  All, le→leb, take-append_of, drop-append_of, from_le-le_bytes, length-le_bytes, length-append,
}
use mathlib.Core.List.{append_assoc}
use zec_multisig.Compact.{take_bytes, read_int, read_all, read_counted, write_all, write_counted}

-- The reader gives back what was written, whatever follows.
abbrev pub Inverts {ℓ κ} :
    {A : Type ℓ} → (A → Type κ) → (A → Bytes) → (Bytes → Option (A × Bytes)) → Type (ℓ ⊔ κ)
Inverts {A = A} P write read =
    (a : A) (rest : Bytes) → P a → read (write a ++ rest) ≡ some (a, rest)

pub take_bytes_append :
    (n : ℕ) (xs rest : Bytes) → length xs ≡ n → take_bytes n (xs ++ rest) ≡ some (xs, rest)
unfolding take_bytes
take_bytes_append n xs rest h =
    rw
      (
        le→leb n (length (xs ++ rest)) (omega (arith, length-append xs rest)),
        take-append_of n xs rest h,
        drop-append_of n xs rest h,
      )
      refl

pub read_int_append :
    (w n : ℕ) (rest : Bytes) → n < 256 ^ w → read_int w (le_bytes w n ++ rest) ≡ some (n, rest)
unfolding read_int
read_int_append w n rest h =
    rw (take_bytes_append w (le_bytes w n) rest (length-le_bytes w n), from_le-le_bytes w n h) refl

module _ {ℓ κ} {A : Type ℓ} (P : A → Type κ) (write : A → Bytes) (read : Bytes → Option (A × Bytes))
    (inverts : Inverts P write read) where
  pub read_all_append :
      (xs : List A) (rest : Bytes)
      → All P xs
      → read_all read (length xs) (write_all write xs ++ rest) ≡ some (xs, rest)
  unfolding read_all
  read_all_append [] rest h = refl
  read_all_append (a ∷ xs) rest h =
      rw
        (
          append_assoc (write a) (write_all write xs) rest,
          inverts a (write_all write xs ++ rest) h.0,
          read_all_append xs rest h.1,
        )
        refl

  pub read_counted_append :
      (xs : List A) (rest : Bytes)
      → All P xs
      → length xs < 2 ^ 32
      → read_counted read (write_counted write xs ++ rest) ≡ some (xs, rest)
  unfolding read_counted
  read_counted_append xs rest h small =
      rw
        (
          append_assoc (le_bytes 4 (length xs % 2 ^ 32)) (write_all write xs) rest,
          mod-eq_of_lt small,
          read_int_append 4 (length xs) (write_all write xs ++ rest) (omega arith),
          read_all_append xs rest h,
        )
        refl
