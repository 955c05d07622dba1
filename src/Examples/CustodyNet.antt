-- ===== src/Examples/CustodyNet.antt =====
-- A daemon with a share of every vault, over the toy signature schemes.
use zec_multisig.Base.{
  ℕ, ◌≡◌, refl, Option, none, some, [], ◌∷◌, ◌++◌, replicate, arith, Bytes, ◌⊎◌,
}
use zec_multisig.Custodian
use zec_multisig.Custodian.Ed25519
use zec_multisig.CustodyNet.{
  Wire, SignerWire, Daemon, handle, encode_round1, reply_round1, op_round1, op_round2,
  op_ed25519_round1, op_ed25519_round2, op_treasury_round1, op_treasury_round2,
}
use zec_multisig.CustodyNet.Remote.{handle-encode_round1}
use zec_multisig.CustodyNet.Routing.{handle_routes}
use zec_multisig.Examples.Custodian.{toy, toy_signer}

-- A number in 32 bytes, the first of which counts.
abbrev number_bytes : ℕ → Bytes
number_bytes k = k ∷ replicate 31 0

abbrev read_number : Bytes → Option ℕ
read_number [] = none
read_number (k ∷ rest) = some k

abbrev toy_wire : Wire toy
toy_wire = record {
  randomizer_bytes = number_bytes;
  read_randomizer = read_number;
  package_bytes = λ p. some p;
  read_package = λ b. some b;
  commitments_bytes = λ c. some (number_bytes c);
  read_commitments = read_number;
  share_bytes = number_bytes;
  read_share = read_number;
  identifier_bytes = number_bytes;
  read_identifier = read_number;
}

abbrev toy_signer_wire : SignerWire toy_signer
toy_signer_wire = record {
  package_bytes = λ p. some p;
  read_package = λ b. some b;
  commitments_bytes = λ c. some (number_bytes c);
  read_commitments = read_number;
  share_bytes = number_bytes;
  read_share = read_number;
  identifier_bytes = number_bytes;
  read_identifier = read_number;
}

abbrev participant : Custodian.Participant toy
participant = record { keys = 1; live = [] }

abbrev vault : Ed25519.Participant toy_signer
vault = record { keys = 2; live = [] }

abbrev daemon : Daemon toy toy_wire toy_signer toy_signer_wire
daemon = record { zcash = some participant; ed25519 = some vault; treasury = some vault }

abbrev digest : Bytes
digest = replicate 32 0x42

handle-encode_round1_example :
    handle toy toy_wire toy_signer toy_signer_wire
      (encode_round1 toy toy_wire 7 digest (11 ∷ 12 ∷ []))
      5
      100
      200
      daemon
    ≡ (
      record daemon {
        zcash =
            some
              (reply_round1 toy toy_wire
                (Custodian.round1 toy 7 digest (11 ∷ 12 ∷ []) 5 100 participant)).0;
      },
      (reply_round1 toy toy_wire
          (Custodian.round1 toy 7 digest (11 ∷ 12 ∷ []) 5 100 participant)).1,
    )
handle-encode_round1_example =
    handle-encode_round1 toy toy_wire toy_signer toy_signer_wire 7 digest (11 ∷ 12 ∷ []) 5 100 200
      daemon participant (omega arith) refl (omega arith) ((refl, refl), ((refl, refl), tt)) refl

abbrev treasury_frame : Bytes
treasury_frame = replicate 8 0 ++ (0 ∷ 0 ∷ 0 ∷ 1 ∷ 9 ∷ [])

handle_routes_example :
    let after =
      (handle toy toy_wire toy_signer toy_signer_wire (5 ∷ treasury_frame) 5 100 200 daemon).0 in
    ((5 ≡ op_round1) ⊎ ((5 ≡ op_round2) ⊎ (after.zcash ≡ some participant)))
    × ((5 ≡ op_ed25519_round1) ⊎ ((5 ≡ op_ed25519_round2) ⊎ (after.ed25519 ≡ some vault)))
    × ((5 ≡ op_treasury_round1) ⊎ ((5 ≡ op_treasury_round2) ⊎ (after.treasury ≡ some vault)))
handle_routes_example =
    handle_routes toy toy_wire toy_signer toy_signer_wire 5 treasury_frame 5 100 200 daemon
