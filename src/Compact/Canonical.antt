-- ===== src/Compact/Canonical.antt =====
-- What the reader of compact blocks accepts is the binary form of what it returns, and no other bytes.
use mathlib.Core.List.{append_assoc}
use zec_multisig.Base.{
  ℕ, zero, suc, ◌^◌, ◌<◌, ◌≡◌, refl, sym, ap, ◌∙◌, subst, Option, none, some, List, ◌++◌, leb,
  length, take, drop, Bytes, IsBytes, le_bytes, from_le, arith, All, Bool-cases, leb→le,
  take-append-drop, length-take, >>=-eq-some, le_bytes-from_le, from_le-lt, All-take, All-drop, inl,
  inr,
}
use native.Mathlib.Nat.{mod-eq_of_lt}
use zec_multisig.Compact.{
  CompactOutput, take_bytes, read_int, read_all, read_counted, write_all, write_counted,
  write_output, read_output,
}
use zec_multisig.Compact.RoundTrip.{SizedOutput}

-- The reader took the bytes that `written` names, and left the rest.
abbrev pub Consumes : Bytes → Bytes → Bytes → Type 0
Consumes bytes written rest = (bytes ≡ written ++ rest) × IsBytes rest

-- Two parts read one after the other.
pub took_two :
    (a b bytes mid rest : Bytes)
    → Consumes bytes a mid
    → Consumes mid b rest
    → Consumes bytes (a ++ b) rest
took_two a b bytes mid rest (e, h) (f, k) =
    (e ∙ ap (λ r. a ++ r) f ∙ sym (append_assoc a b rest), k)

pub took_bytes :
    (n : ℕ) (bytes x rest : Bytes)
    → IsBytes bytes
    → take_bytes n bytes ≡ some (x, rest)
    → (length x ≡ n) × IsBytes x × Consumes bytes x rest
unfolding take_bytes
took_bytes n bytes x rest h e = elim (Bool-cases (leb n (length bytes))) [
  | inl c ↦
      let pair : ◌≡◌ {A = Option (Bytes × Bytes)} (some (take n bytes, drop n bytes))
          (some (x, rest)) =
        ground arith in
      let taken : take n bytes ≡ x = cc pair in
      let left : drop n bytes ≡ rest = cc pair in
      rw (← taken, ← left)
        (
          omega (arith, length-take n bytes, leb→le n (length bytes) c),
          All-take _ n bytes h,
          (sym (take-append-drop n bytes), All-drop _ n bytes h),
        )
  | inr c ↦ absurd (ground arith)
]

pub took_int :
    (w n : ℕ) (bytes rest : Bytes)
    → IsBytes bytes
    → read_int w bytes ≡ some (n, rest)
    → (n < 256 ^ w) × Consumes bytes (le_bytes w n) rest
unfolding read_int
took_int w n bytes rest h e =
    let (s, t, r) = >>=-eq-some (take_bytes w bytes) (λ s. some (from_le s.0, s.1)) e in
    let (size, b, took) = took_bytes w bytes s.0 s.1 h t in
    let value : from_le s.0 ≡ n = cc r in
    let left : s.1 ≡ rest = cc r in
    rw (← value, ← left, ← size) (from_le-lt s.0 b, rw (le_bytes-from_le s.0 b) took)

-- A reader's last step names what was read.
pub last_step {ℓ κ} :
    {A : Type ℓ} (P : A → Bytes → Type κ) {a b : A} {r s : Bytes}
    → ◌≡◌ {A = Option (A × Bytes)} (some (a, r)) (some (b, s))
    → P a r
    → P b s
last_step {A = A} P {a} {r = r} e p =
    subst
      (λ (q : Option (A × Bytes)). elim q as (λ x. Type _) [ none ↦ P a r | some q ↦ P q.0 q.1 ]) e
      p

took_fields :
    (o : CompactOutput) (bytes r1 r2 r3 rest : Bytes)
    → Consumes bytes o.nullifier r1
    → Consumes r1 o.cmx r2
    → Consumes r2 o.epk r3
    → Consumes r3 o.ciphertext rest
    → Consumes bytes (write_output o) rest
unfolding write_output
took_fields o bytes r1 r2 r3 rest a b c d =
    took_two o.nullifier (o.cmx ++ (o.epk ++ o.ciphertext)) bytes r1 rest a (
      took_two o.cmx (o.epk ++ o.ciphertext) r1 r2 rest b
        (took_two o.epk o.ciphertext r2 r3 rest c d))

pub took_output :
    (bytes : Bytes) (o : CompactOutput) (rest : Bytes)
    → IsBytes bytes
    → read_output bytes ≡ some (o, rest)
    → SizedOutput o × Consumes bytes (write_output o) rest
unfolding read_output
took_output bytes o rest h e =
    let (nullifier, t1, e1) = >>=-eq-some (take_bytes 32 bytes) _ e in
    let (l1, b1, k1) = took_bytes 32 bytes nullifier.0 nullifier.1 h t1 in
    let (cmx, t2, e2) = >>=-eq-some (take_bytes 32 nullifier.1) _ e1 in
    let (l2, b2, k2) = took_bytes 32 nullifier.1 cmx.0 cmx.1 k1.1 t2 in
    let (epk, t3, e3) = >>=-eq-some (take_bytes 32 cmx.1) _ e2 in
    let (l3, b3, k3) = took_bytes 32 cmx.1 epk.0 epk.1 k2.1 t3 in
    let (ciphertext, t4, e4) = >>=-eq-some (take_bytes 52 epk.1) _ e3 in
    let (l4, b4, k4) = took_bytes 52 epk.1 ciphertext.0 ciphertext.1 k3.1 t4 in
    last_step (λ o r. SizedOutput o × Consumes bytes (write_output o) r) e4
      (
        record { nullifier_len = l1; cmx_len = l2; epk_len = l3; ciphertext_len = l4 },
        took_fields _ bytes nullifier.1 cmx.1 epk.1 ciphertext.1 k1 k2 k3 k4,
      )

-- Lists of what a reader accepts.
module _ {A : Type 0} (P : A → Type 0) (write : A → Bytes) (read : Bytes → Option (A × Bytes))
    (took : (bytes : Bytes) (a : A) (rest : Bytes)
      → IsBytes bytes
      → read bytes ≡ some (a, rest)
      → P a × Consumes bytes (write a) rest) where
  took_list :
      (n : ℕ) (bytes : Bytes) (xs : List A) (rest : Bytes)
      → IsBytes bytes
      → read_all read n bytes ≡ some (xs, rest)
      → (length xs ≡ n) × All P xs × Consumes bytes (write_all write xs) rest
  unfolding read_all
  took_list zero bytes xs rest h e =
      last_step (λ xs r. (length xs ≡ 0) × All P xs × Consumes bytes (write_all write xs) r) e
        (refl, tt, (refl, h))
  took_list (suc n) bytes xs rest h e =
      let (a, r1, e1) = >>=-eq-some (read bytes) _ e in
      let (p, k1) = took bytes a.0 a.1 h r1 in
      let (ys, r2, e2) = >>=-eq-some (read_all read n a.1) _ e1 in
      let (l, ps, k2) = took_list n a.1 ys.0 ys.1 k1.1 r2 in
      last_step (λ xs r. (length xs ≡ suc n) × All P xs × Consumes bytes (write_all write xs) r) e2
        (ap suc l, (p, ps), took_two (write a.0) (write_all write ys.0) bytes a.1 ys.1 k1 k2)

  pub took_counted :
      (bytes : Bytes) (xs : List A) (rest : Bytes)
      → IsBytes bytes
      → read_counted read bytes ≡ some (xs, rest)
      → (length xs < 2 ^ 32) × All P xs × Consumes bytes (write_counted write xs) rest
  unfolding read_counted
  took_counted bytes xs rest h e =
      let (n, r1, e1) = >>=-eq-some (read_int 4 bytes) _ e in
      let (bound, k1) = took_int 4 n.0 bytes n.1 h r1 in
      let (l, ps, k2) = took_list n.0 n.1 xs rest k1.1 e1 in
      let small : length xs < 2 ^ 32 = omega (arith, bound, l) in
      (
        small,
        ps,
        rw (mod-eq_of_lt small)
            (took_two (le_bytes 4 (length xs)) (write_all write xs) bytes n.1 rest (rw l k1) k2),
      )
