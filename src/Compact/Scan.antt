-- ===== src/Compact/Scan.antt =====
-- `CompactOutput::to_action` and `scan` of src/compact.rs: trial decryption of a compact block with one
-- incoming viewing key. Keys, notes and decryption belong to the crates `orchard` and
-- `zcash_note_encryption`: `TrialDecryption` is what this code asks of them.
use zec_multisig.Base.{ℕ, ◌+◌, Option, none, some, List, [], ◌∷◌, ◌++◌, ◌>>=◌, Bytes}
use zec_multisig.Compact.{CompactOutput, CompactTx, CompactBlock}

pub record TrialDecryption : Type 1 where
  pub Nullifier : Type 0
  pub ExtractedNoteCommitment : Type 0
  pub CompactAction : Type 0
  pub Domain : Type 0
  pub ViewKey : Type 0
  pub Note : Type 0
  pub Address : Type 0
  pub nullifier_from_bytes : Bytes → Option Nullifier
  pub commitment_from_bytes : Bytes → Option ExtractedNoteCommitment
  pub from_parts : Nullifier → ExtractedNoteCommitment → Bytes → Bytes → CompactAction
  pub orchard_domain : CompactAction → Domain
  pub ironwood_domain : CompactAction → Domain
  pub try_compact_note_decryption : Domain → ViewKey → CompactAction → Option (Note × Address)
  pub value : Note → ℕ

-- The pools of the crate `orchard` that the code tells apart.
pub data ValuePool : Type 0 where
  orchard : ValuePool
  ironwood : ValuePool

pub record Hit : Type 0 where
  pub tx_index : ℕ
  pub txid : Bytes
  pub pool : ValuePool
  pub action : ℕ
  pub cmx : Bytes
  pub value : ℕ

module _ (d : TrialDecryption) where
  unfoldable pub to_action : CompactOutput → Option d.CompactAction
  to_action o = do
    nf ← d.nullifier_from_bytes o.nullifier
    cmx ← d.commitment_from_bytes o.cmx
    some (d.from_parts nf cmx o.epk o.ciphertext)

  abbrev pub domain_of : ValuePool → d.CompactAction → d.Domain
  domain_of orchard act = d.orchard_domain act
  domain_of ironwood act = d.ironwood_domain act

  module _ (ivk : d.ViewKey) where
    -- The `match` on the pool, with the note's value.
    unfoldable pub value_in : ValuePool → d.CompactAction → Option ℕ
    value_in pool act = do
      opened ← d.try_compact_note_decryption (domain_of pool act) ivk act
      some (d.value opened.0)

    abbrev pub hit_of : CompactTx → ValuePool → ℕ → CompactOutput → Option ℕ → List Hit
    hit_of t pool i out none = []
    hit_of t pool i out (some value) =
        record {
          tx_index = t.index;
          txid = t.txid;
          pool = pool;
          action = i;
          cmx = out.cmx;
          value = value;
        }
        ∷ []

    -- The innermost loop's body: an output that is no action, or that does not decrypt, adds nothing.
    unfoldable pub push_hit :
        CompactTx → ValuePool → ℕ → CompactOutput → Option d.CompactAction → List Hit
    push_hit t pool i out none = []
    push_hit t pool i out (some act) = hit_of t pool i out (value_in pool act)

    -- The loop over the outputs of one pool, with their places from `i` on.
    unfoldable pub scan_outputs : CompactTx → ValuePool → ℕ → List CompactOutput → List Hit
    scan_outputs t pool i [] = []
    scan_outputs t pool i (out ∷ rest) =
        push_hit t pool i out (to_action out) ++ scan_outputs t pool (i + 1) rest

    -- The loops over the transactions and their two pools.
    unfoldable pub scan_txs : List CompactTx → List Hit
    scan_txs [] = []
    scan_txs (t ∷ rest) =
        scan_outputs t orchard 0 t.orchard
        ++ (scan_outputs t ironwood 0 t.ironwood ++ scan_txs rest)

    unfoldable pub scan : CompactBlock → List Hit
    scan block = scan_txs block.txs
