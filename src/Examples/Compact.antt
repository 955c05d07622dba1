-- ===== src/Examples/Compact.antt =====
-- A compact block of one transaction with one output in each pool, and a block that a wallet scans.
use zec_multisig.Base.{
  if◌then◌else◌, ◌==◌, In, Option, none, List, ℕ, ◌+◌, ◌≡◌, refl, ◌↔◌, true, some, [], ◌∷◌, Bytes,
  IsBytes, replicate, arith, all, ltb, ltb→lt, le_bytes, Bool-cases, inl, inr,
}
use zec_multisig.Compact.{
  ChainTypes, from_block, CompactOutput, CompactBlock, write_tx, write_output, encode, decode,
}
use zec_multisig.Compact.Scan.{TrialDecryption, Hit, ironwood, scan}
use zec_multisig.Compact.Hits.{CompactActions}
use zec_multisig.Compact.Found.{IsReceived, scan-from_block}
use zec_multisig.Compact.RoundTrip.{SizedOutput, SizedBlock}
use zec_multisig.Compact.Blocks.{block_round_trip}

abbrev output : CompactOutput
output = record {
  nullifier = replicate 32 1;
  cmx = replicate 32 2;
  epk = replicate 32 3;
  ciphertext = replicate 52 4;
}

abbrev block : CompactBlock
block = record {
  height = 2500000;
  hash = replicate 32 7;
  txs =
      record { index = 3; txid = replicate 32 8; orchard = output ∷ []; ironwood = output ∷ [] }
      ∷ [];
}

bytes_checked : (bs : Bytes) → all (λ b. ltb b 256) bs ≡ true → IsBytes bs
bytes_checked [] h = tt
bytes_checked (b ∷ bs) h = elim (Bool-cases (ltb b 256)) [
  | inl c ↦ (ltb→lt b 256 c, bytes_checked bs (ground arith))
  | inr c ↦ absurd (ground arith)
]

block-IsBytes : IsBytes (encode block)
unfolding encode write_tx write_output le_bytes
block-IsBytes = bytes_checked (encode block) refl

output-SizedOutput : SizedOutput output
output-SizedOutput = record {
  nullifier_len = refl;
  cmx_len = refl;
  epk_len = refl;
  ciphertext_len = refl;
}

block-SizedBlock : SizedBlock block
block-SizedBlock = record {
  height_bound = omega arith;
  hash_len = refl;
  txs_each = (
    record {
      index_bound = omega arith;
      txid_len = refl;
      orchard_outputs = (output-SizedOutput, tt);
      orchard_bound = omega arith;
      ironwood_outputs = (output-SizedOutput, tt);
      ironwood_bound = omega arith;
    },
    tt,
  );
  txs_bound = omega arith;
}

read_back : decode (encode block) ≡ some block
read_back = (block_round_trip (encode block) block block-IsBytes).1 (block-SizedBlock, refl)

block_round_trip_example :
    (decode (encode block) ≡ some block) ↔ (SizedBlock block × (encode block ≡ encode block))
block_round_trip_example = block_round_trip (encode block) block block-IsBytes

-- A chain whose transactions are pairs of numbers of actions, one for each pool, and whose actions are
-- numbers; a key opens the actions of its own number.
abbrev toy_chain : ChainTypes
toy_chain = record {
  Block = List (ℕ × ℕ);
  Transaction = ℕ × ℕ;
  Action = ℕ;
  vtx = λ b. b;
  block_hash = λ b. replicate 32 0;
  transaction_id = λ tx. replicate 32 tx.0;
  orchard_bundle = λ tx. if tx.0 == 0 then none else some (replicate tx.0 9);
  ironwood_bundle = λ tx. if tx.1 == 0 then none else some (replicate tx.1 7);
  action_nullifier = λ a. a ∷ [];
  action_cmx = λ a. (a + 1) ∷ [];
  action_epk = λ a. a ∷ [];
  action_ciphertext = λ a. replicate 580 a;
}

abbrev first_byte : Bytes → Option ℕ
first_byte [] = none
first_byte (b ∷ bs) = some b

abbrev toy_decryption : TrialDecryption
toy_decryption = record {
  Nullifier = ℕ;
  ExtractedNoteCommitment = ℕ;
  CompactAction = ℕ;
  Domain = ℕ;
  ViewKey = ℕ;
  Note = ℕ;
  Address = Unit;
  nullifier_from_bytes = first_byte;
  commitment_from_bytes = first_byte;
  from_parts = λ nf cmx epk text. nf;
  orchard_domain = λ act. 0;
  ironwood_domain = λ act. 1;
  try_compact_note_decryption = λ dom ivk act. if act == ivk then some (100 + dom, tt) else none;
  value = λ note. note;
}

abbrev toy_actions : CompactActions toy_chain toy_decryption
toy_actions = record {
  of_action = λ a. a;
  nullifier = λ a. a;
  cmx = λ a. a + 1;
  nullifier_bytes = λ a. refl;
  cmx_bytes = λ a. refl;
  parts = λ a. refl;
}

-- The second transaction has its actions in the second pool alone.
abbrev toy_block : List (ℕ × ℕ)
toy_block = (0, 0) ∷ (0, 2) ∷ (1, 0) ∷ []

abbrev toy_hit : Hit
toy_hit = record {
  tx_index = 1;
  txid = replicate 32 0;
  pool = ironwood;
  action = 1;
  cmx = 8 ∷ [];
  value = 101;
}

scan-from_block_example :
    In toy_hit (scan toy_decryption 7 (from_block toy_chain 5 toy_block))
    ↔ IsReceived toy_chain toy_decryption toy_actions 7 toy_block toy_hit
scan-from_block_example = scan-from_block toy_chain toy_decryption toy_actions 7 5 toy_block toy_hit

found_hit : In toy_hit (scan toy_decryption 7 (from_block toy_chain 5 toy_block))
found_hit = scan-from_block_example.1 (record {
  place = 1;
  tx = (0, 2);
  tx_at = refl;
  a = 7;
  action_at = refl;
  opens = (101, tt, refl, refl);
  index_is = omega arith;
  txid_is = refl;
  cmx_is = refl;
})
