-- ===== src/CustodyNet/Remote.antt =====
-- A request of src/custody_net.rs that a coordinator writes is, at the daemon, the participant's own round.
use native.Mathlib.Nat.{mod-eq_of_lt}
use zec_multisig.Base.{
  ℕ, ◌^◌, ◌<◌, ◌≡◌, refl, true, Option, some, List, [], ◌∷◌, ◌++◌, map, length, All, arith, Bytes,
  be_bytes, from_be-be_bytes, length-be_bytes, ◌==◌, ==_iff,
}
use mathlib.Core.List.{append_assoc}
use zec_multisig.Compact.Reading.{take_bytes_append}
use zec_multisig.Custodian.{Frost}
use zec_multisig.Custodian
use zec_multisig.Custodian.Ed25519.{Signer}
use zec_multisig.CustodyNet.{
  Wire, op_round1, put_u32, put_bytes, put_all, read_be, read_bytes, read_fields, exactly_32,
  encode_round1, read_alpha, read_round1, do_round1, reply_round1, zcash_op, SignerWire, Daemon,
  serve_zcash, handle,
}

read_be-be_bytes :
    (w n : ℕ) (rest : Bytes) → n < 256 ^ w → read_be w (be_bytes w n ++ rest) ≡ some (n, rest)
unfolding read_be
read_be-be_bytes w n rest h =
    rw (take_bytes_append w (be_bytes w n) rest (length-be_bytes w n))
      (rw (from_be-be_bytes w n h) refl)

read_count : (n : ℕ) (rest : Bytes) → n < 2 ^ 32 → read_be 4 (put_u32 n ++ rest) ≡ some (n, rest)
read_count n rest h = rw (mod-eq_of_lt h) (read_be-be_bytes 4 n rest (omega arith))

read_bytes-put_bytes :
    (b rest : Bytes) → length b < 2 ^ 32 → read_bytes (put_bytes b ++ rest) ≡ some (b, rest)
unfolding read_bytes
read_bytes-put_bytes b rest h =
    rw (append_assoc (put_u32 (length b)) b rest)
      (rw (read_count (length b) (b ++ rest) h) (take_bytes_append (length b) b rest refl))

module _ {A : Type 0} (write : A → Bytes) (read : Bytes → Option A) where
  -- An element that is read as it is written, in a field that a length fits.
  abbrev pub IsField : A → Type 0
  IsField a = (length (write a) < 2 ^ 32) × (read (write a) ≡ some a)

  read_fields-map :
      (as_ : List A)
      → All IsField as_
      → read_fields read (length as_) (put_all (map write as_)) ≡ some as_
  unfolding read_fields
  read_fields-map [] h = refl
  read_fields-map (a ∷ as_) h =
      rw (read_bytes-put_bytes (write a) (put_all (map write as_)) h.0.0)
        (rw h.0.1 (rw (read_fields-map as_ h.1) refl))

module _ (f : Frost) (w : Wire f) where
  -- The body of a round-one request, read and applied.
  remote_round1 :
      (request : ℕ) (digest : Bytes) (alphas : List f.Randomizer) (now : ℕ) (rng : f.Rng)
      (p : Custodian.Participant f)
      → request < 2 ^ 64
      → length digest ≡ 32
      → length alphas < 2 ^ 32
      → All
          (λ a.
            (length (w.randomizer_bytes a) ≡ 32)
            × (w.read_randomizer (w.randomizer_bytes a) ≡ some a))
          alphas
      → (body : Bytes) → encode_round1 f w request digest alphas ≡ op_round1 ∷ body
      → zcash_op f w op_round1 body now rng p
        ≡ reply_round1 f w (Custodian.round1 f request digest alphas now rng p)
  unfolding encode_round1 zcash_op read_round1 do_round1 exactly_32
  remote_round1 request digest alphas now rng p h d l k body e =
      let same : be_bytes 8 request
            ++ (put_bytes digest
                ++ (put_u32 (length alphas) ++ put_all (map w.randomizer_bytes alphas)))
          ≡ body =
        cc e in
      let small : length digest < 2 ^ 32 = omega (arith, d) in
      let exact : (length digest == 32) ≡ true = (==_iff (length digest) 32).1 d in
      rw (← same) (
        rw (read_be-be_bytes 8 request _ (omega arith)) (
          rw (read_bytes-put_bytes digest _ small) (
            rw (exact, read_count (length alphas) _ l)
              (rw (read_fields-map w.randomizer_bytes (read_alpha f w) alphas (fields alphas k))
                refl))))
    where
      fields :
          (as_ : List f.Randomizer)
          → All
              (λ a.
                (length (w.randomizer_bytes a) ≡ 32)
                × (w.read_randomizer (w.randomizer_bytes a) ≡ some a))
              as_
          → All (IsField w.randomizer_bytes (read_alpha f w)) as_
      fields [] m = tt
      fields (a ∷ as_) m =
          let exact : (length (w.randomizer_bytes a) == 32) ≡ true =
            (==_iff (length (w.randomizer_bytes a)) 32).1 m.0.0 in
          ((omega (arith, m.0.0), rw exact m.0.1), fields as_ m.1)

module _ (f : Frost) (w : Wire f) (g : Signer) (v : SignerWire g) where
  -- A round-one request as the coordinator writes it, with a digest of 32 bytes and randomizers that are
  -- read as they are written in 32 bytes, is answered by the daemon with what its participant's own round
  -- one gives; the daemon's participant is then what that round leaves, and its other shares are
  -- untouched.
  pub handle-encode_round1 :
      (request : ℕ) (digest : Bytes) (alphas : List f.Randomizer) (now : ℕ) (rng : f.Rng)
      (srng : g.Rng) (d : Daemon f w g v) (p : Custodian.Participant f)
      → request < 2 ^ 64
      → length digest ≡ 32
      → length alphas < 2 ^ 32
      → All
          (λ a.
            (length (w.randomizer_bytes a) ≡ 32)
            × (w.read_randomizer (w.randomizer_bytes a) ≡ some a))
          alphas
      → d.zcash ≡ some p
      → let reply = reply_round1 f w (Custodian.round1 f request digest alphas now rng p) in
        handle f w g v (encode_round1 f w request digest alphas) now rng srng d
        ≡ (record d { zcash = some reply.0 }, reply.1)
  unfolding handle encode_round1 serve_zcash
  handle-encode_round1 request digest alphas now rng srng d p h l k m e =
      rw e (rw (remote_round1 f w request digest alphas now rng p h l k m _ refl) refl)
