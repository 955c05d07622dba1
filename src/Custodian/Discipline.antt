-- ===== src/Custodian/Discipline.antt =====
-- The one discipline of src/custodian.rs: a request is opened once and signed once.
use zec_multisig.Base.{
  ℕ, ◌≡◌, ◌≢◌, refl, ap, Option, none, some, List, [], ◌∷◌, All, ne→==_false, Bytes, err,
}
use zec_multisig.Custodian.{
  Frost, Live, Participant, no_such_request, drop_expired, is_current, round1, round1_on, round2,
  round2_on,
}
use zec_multisig.Base.Maps.{lookup, lookup-remove, lookup-remove-none, lookup-filter-none}

module _ (f : Frost) where
  -- What the world does with a participant.
  pub data Op : Type 0 where
    commit : ℕ → Bytes → List f.Randomizer → ℕ → f.Rng → Op
    sign : ℕ → List f.Package → Op
    expire : ℕ → Op

  unfoldable pub apply : Op → Participant f → Participant f
  apply (commit request sighash alphas now rng) p = (round1 f request sighash alphas now rng p).0
  apply (sign request packages) p = (round2 f request packages p).0
  apply (expire now) p = drop_expired f now p

  unfoldable pub run : List Op → Participant f → Participant f
  run [] p = p
  run (o ∷ os) p = run os (apply o p)

  -- The operation does not open the request.
  abbrev pub NotOpening : ℕ → Op → Type 0
  NotOpening k (commit request sighash alphas now rng) = request ≢ k
  NotOpening k (sign request packages) = Unit
  NotOpening k (expire now) = Unit

  abbrev IsClosed : ℕ → Participant f → Type 0
  IsClosed k p = lookup k p.live ≡ none

  drop_expired-IsClosed :
      (k now : ℕ) (p : Participant f) → IsClosed k p → IsClosed k (drop_expired f now p)
  unfolding drop_expired
  drop_expired-IsClosed k now p h = lookup-filter-none (is_current f now) k p.live h

  round1_on-IsClosed :
      (k request : ℕ) (sighash : Bytes) (alphas : List f.Randomizer) (now : ℕ) (rng : f.Rng)
      (p : Participant f) (o : Option (Live f))
      → request ≢ k
      → IsClosed k p
      → IsClosed k (round1_on f request sighash alphas now rng p o).0
  unfolding round1_on
  round1_on-IsClosed k request sighash alphas now rng p none other h =
      rw (ne→==_false request k other) h
  round1_on-IsClosed k request sighash alphas now rng p (some r) other h = h

  round2_on-IsClosed :
      (k request : ℕ) (packages : List f.Package) (p : Participant f) (o : Option (Live f))
      → IsClosed k p
      → IsClosed k (round2_on f request packages p o).0
  unfolding round2_on
  round2_on-IsClosed k request packages p none h = h
  round2_on-IsClosed k request packages p (some r) h = lookup-remove-none k request p.live h

  apply-IsClosed :
      (k : ℕ) (o : Op) (p : Participant f) → NotOpening k o → IsClosed k p → IsClosed k (apply o p)
  unfolding apply round1 round2
  apply-IsClosed k (commit request sighash alphas now rng) p n h =
      round1_on-IsClosed k request sighash alphas now rng (drop_expired f now p)
        (lookup request (drop_expired f now p).live) n (drop_expired-IsClosed k now p h)
  apply-IsClosed k (sign request packages) p n h =
      round2_on-IsClosed k request packages p (lookup request p.live) h
  apply-IsClosed k (expire now) p n h = drop_expired-IsClosed k now p h

  run-IsClosed :
      (k : ℕ) (os : List Op) (p : Participant f)
      → All (NotOpening k) os
      → IsClosed k p
      → IsClosed k (run os p)
  unfolding run
  run-IsClosed k [] p n h = h
  run-IsClosed k (o ∷ os) p n h = run-IsClosed k os (apply o p) n.1 (apply-IsClosed k o p n.0 h)

  sign_on_closes :
      (k : ℕ) (packages : List f.Package) (p : Participant f) (o : Option (Live f))
      → lookup k p.live ≡ o
      → IsClosed k (round2_on f k packages p o).0
  unfolding round2_on
  sign_on_closes k packages p none e = e
  sign_on_closes k packages p (some r) e = lookup-remove k p.live

  sign_closes :
      (k : ℕ) (packages : List f.Package) (p : Participant f) → IsClosed k (round2 f k packages p).0
  unfolding round2
  sign_closes k packages p = sign_on_closes k packages p (lookup k p.live) refl

  closed_refused :
      (k : ℕ) (packages : List f.Package) (p : Participant f)
      → IsClosed k p
      → round2 f k packages p ≡ (p, some (err no_such_request))
  unfolding round2 round2_on
  closed_refused k packages p h = ap (round2_on f k packages p) h

  -- Once a request has been put to round two, whatever came of it, every later round two for it is
  -- refused and changes nothing, through any operations that do not open the request anew.
  pub signed_once :
      (k : ℕ) (first second : List f.Package) (os : List Op) (p : Participant f)
      → All (NotOpening k) os
      → round2 f k second (run os (round2 f k first p).0)
        ≡ (run os (round2 f k first p).0, some (err no_such_request))
  signed_once k first second os p n =
      closed_refused k second (run os (round2 f k first p).0)
        (run-IsClosed k os (round2 f k first p).0 n (sign_closes k first p))
