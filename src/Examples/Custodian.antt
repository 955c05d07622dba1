-- ===== src/Examples/Custodian.antt =====
-- A participant over a toy signer, whose sessions are the numbers that the generator counts.
use zec_multisig.Base.Maps.{lookup}
use zec_multisig.Base.{
  ℕ, ◌+◌, ◌≡◌, ◌≢◌, refl, arith, Option, some, none, List, [], ◌∷◌, Bytes, replicate, Result, ok,
  err, length, All,
}
use zec_multisig.Custodian.{
  Frost, Live, Participant, no_such_request, new, round1, round2, round1_on, round2_on,
  drop_expired, begin_all, sign_all,
}
use zec_multisig.Custodian.Discipline.{commit, expire, run, signed_once}
use zec_multisig.Custodian.Signing.{round2_never_panics, round2_honours, Honoured}
use zec_multisig.Custodian.Ed25519.{Signer}
use zec_multisig.Custodian.Ed25519

abbrev pub toy : Frost
toy = record {
  Keys = ℕ;
  Identifier = ℕ;
  Session = ℕ;
  Commitments = ℕ;
  Package = Bytes;
  Share = ℕ;
  Randomizer = ℕ;
  Rng = ℕ;
  identifier = λ k. k;
  begin_session = λ i k n. (n, n + 1);
  commitments_of = λ s. s;
  message_of = λ p. p;
  sign_share = λ s k p a. some (s + a);
}

abbrev pub toy_signer : Signer
toy_signer = record {
  Keys = ℕ;
  Identifier = ℕ;
  Session = ℕ;
  Commitments = ℕ;
  Package = Bytes;
  Share = ℕ;
  Rng = ℕ;
  identifier = λ k. k;
  begin_session = λ i k n. (n, n + 1);
  commitments_of = λ s. s;
  message_of = λ p. p;
  sign_with = λ s k p. some (s + k);
}

abbrev sighash : Bytes
sighash = replicate 32 0x42

-- Request 7 open with two actions.
abbrev opened : Participant toy
opened = record {
  keys = 1;
  live =
      (
        7,
        record {
          sighash = sighash;
          alphas = 11 ∷ 12 ∷ [];
          sessions = some 100 ∷ some 101 ∷ [];
          opened_at = 5;
        },
      )
      ∷ [];
}

opened_by : (round1 toy 7 sighash (11 ∷ 12 ∷ []) 5 100 (new toy 1)).0 ≡ opened
unfolding round1 round1_on new drop_expired begin_all
opened_by = refl

releases_shares : (round2 toy 7 (sighash ∷ sighash ∷ []) opened).1 ≡ some (ok (111 ∷ 113 ∷ []))
unfolding round2 round2_on sign_all zec_multisig.Base.bytes_eq
releases_shares = refl

signed_once_example :
    round2 toy 7 [] (
      run toy
        (expire 6 ∷ commit 8 sighash [] 9 0 ∷ [])
        (round2 toy 7 (sighash ∷ sighash ∷ []) opened).0)
    ≡ (
      run toy
          (expire 6 ∷ commit 8 sighash [] 9 0 ∷ [])
          (round2 toy 7 (sighash ∷ sighash ∷ []) opened).0,
      some (err no_such_request),
    )
signed_once_example =
    signed_once toy 7 (sighash ∷ sighash ∷ []) [] (expire 6 ∷ commit 8 sighash [] 9 0 ∷ []) opened
      (tt, (omega arith, tt))

round2_never_panics_example :
    (round2 toy 7
      (sighash ∷ sighash ∷ [])
      (run toy (commit 7 sighash (11 ∷ 12 ∷ []) 5 100 ∷ []) (new toy 1))).1
    ≢ none
round2_never_panics_example =
    round2_never_panics toy 1 (commit 7 sighash (11 ∷ 12 ∷ []) 5 100 ∷ []) 7
      (sighash ∷ sighash ∷ [])

round2_honours_example :
    (r : Live toy) × (lookup 7 opened.live ≡ some r)
    × Honoured toy r (sighash ∷ sighash ∷ []) (111 ∷ 113 ∷ [])
round2_honours_example = round2_honours toy 7 (sighash ∷ sighash ∷ []) opened releases_shares

abbrev single : Ed25519.Participant toy_signer
single = record {
  keys = 1;
  live = (7, record { message = sighash; session = some 100; opened_at = 5 }) ∷ [];
}

released_once_example :
    Ed25519.round2 toy_signer 7 sighash (
      Ed25519.run toy_signer (Ed25519.expire 6 ∷ []) (Ed25519.round2 toy_signer 7 sighash single).0)
    ≡ (
      Ed25519.run toy_signer (Ed25519.expire 6 ∷ []) (Ed25519.round2 toy_signer 7 sighash single).0,
      err no_such_request,
    )
released_once_example =
    Ed25519.released_once toy_signer 7 sighash sighash (Ed25519.expire 6 ∷ []) single (tt, tt)
