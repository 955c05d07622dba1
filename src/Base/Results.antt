-- ===== src/Base/Results.antt =====
-- `Result<A, E>` and chains of `Option`.
use mathlib.Core.Path.{◌≡◌, refl}
use mathlib.Core.Option.{Option, none, some}

pub data Result {ℓ κ} (E : Type κ) (A : Type ℓ) : Type (ℓ ⊔ κ) where
  ok : A → Result E A
  err : E → Result E A

-- `?` on an `Option`.
infixl 5 ◌>>=◌
abbrev pub ◌>>=◌ {ℓ κ} : {A : Type ℓ} {B : Type κ} → Option A → (A → Option B) → Option B
none >>= f = none
some a >>= f = f a

-- `?` on a `Result`.
abbrev pub and_then {ℓ κ μ} :
    {E : Type μ} {A : Type ℓ} {B : Type κ} → Result E A → (A → Result E B) → Result E B
and_then (ok a) f = f a
and_then (err e) f = err e

-- `ok_or`.
abbrev pub ok_or {ℓ κ} : {A : Type ℓ} {E : Type κ} → Option A → E → Result E A
ok_or none e = err e
ok_or (some a) e = ok a

pub >>=-eq-some {ℓ κ} :
    {A : Type ℓ} {B : Type κ} (m : Option A) (f : A → Option B) {b : B}
    → (m >>= f) ≡ some b
    → (a : A) × (m ≡ some a) × (f a ≡ some b)
>>=-eq-some none f h = cc
>>=-eq-some (some a) f h = (a, refl, h)

pub and_then-eq-ok {ℓ κ μ} :
    {E : Type μ} {A : Type ℓ} {B : Type κ} (m : Result E A) (f : A → Result E B) {b : B}
    → and_then m f ≡ ok b
    → (a : A) × (m ≡ ok a) × (f a ≡ ok b)
and_then-eq-ok (ok a) f h = (a, refl, h)
and_then-eq-ok (err e) f h = cc

-- What may fail, and may panic: `none` is a panic.
abbrev pub Answer : Type 0 → Type 0 → Type 0
Answer E A = Option (Result E A)

-- `?` on an answer.
abbrev pub and_go : {E A B : Type 0} → Answer E A → (A → Answer E B) → Answer E B
and_go none f = none
and_go (some (err e)) f = some (err e)
and_go (some (ok a)) f = f a

pub and_go-eq-ok :
    {E A B : Type 0} (m : Answer E A) (f : A → Answer E B) {b : B}
    → and_go m f ≡ some (ok b)
    → (a : A) × (m ≡ some (ok a)) × (f a ≡ some (ok b))
and_go-eq-ok none f h = absurd cc
and_go-eq-ok (some (err e)) f h = absurd cc
and_go-eq-ok (some (ok a)) f h = (a, refl, h)
