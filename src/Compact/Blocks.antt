-- ===== src/Compact/Blocks.antt =====
-- The binary form of compact blocks, in both directions.
use mathlib.Core.List.{append-nil}
use zec_multisig.Base.{
  ◌≡◌, refl, sym, ◌∙◌, subst, Bool, true, false, not, Option, none, some, [], ◌∷◌, ◌++◌, ◌==◌,
  if◌then◌else◌, length, Bytes, IsBytes, le_bytes, arith, >>=-eq-some, bytes_eq, bytes_eq_iff, ◌↔◌,
}
use zec_multisig.Compact.{
  CompactTx, CompactBlock, magic, take_bytes, read_int, read_counted, write_counted, write_output,
  write_tx, read_output, read_tx, encode, decode,
}
use zec_multisig.Compact.RoundTrip.{SizedOutput, SizedTx, SizedBlock, decode_written}
use zec_multisig.Compact.Canonical.{
  Consumes, took_two, took_bytes, took_int, took_output, took_counted, last_step,
}

took_parts :
    (t : CompactTx) (bytes r1 r2 r3 rest : Bytes)
    → Consumes bytes (le_bytes 4 t.index) r1
    → Consumes r1 t.txid r2
    → Consumes r2 (write_counted write_output t.orchard) r3
    → Consumes r3 (write_counted write_output t.ironwood) rest
    → Consumes bytes (write_tx t) rest
unfolding write_tx
took_parts t bytes r1 r2 r3 rest a b c d =
    let orchard : Bytes = write_counted write_output t.orchard in
    let ironwood : Bytes = write_counted write_output t.ironwood in
    took_two (le_bytes 4 t.index) (t.txid ++ (orchard ++ ironwood)) bytes r1 rest a (
      took_two t.txid (orchard ++ ironwood) r1 r2 rest b (took_two orchard ironwood r2 r3 rest c d))

took_tx :
    (bytes : Bytes) (t : CompactTx) (rest : Bytes)
    → IsBytes bytes
    → read_tx bytes ≡ some (t, rest)
    → SizedTx t × Consumes bytes (write_tx t) rest
unfolding read_tx
took_tx bytes t rest h e =
    let (index, t1, e1) = >>=-eq-some (read_int 4 bytes) _ e in
    let (l1, k1) = took_int 4 index.0 bytes index.1 h t1 in
    let (txid, t2, e2) = >>=-eq-some (take_bytes 32 index.1) _ e1 in
    let (l2, b2, k2) = took_bytes 32 index.1 txid.0 txid.1 k1.1 t2 in
    let (orchard, t3, e3) = >>=-eq-some (read_counted read_output txid.1) _ e2 in
    let (l3, p3, k3) =
      took_counted SizedOutput write_output read_output took_output txid.1 orchard.0 orchard.1 k2.1
        t3 in
    let (ironwood, t4, e4) = >>=-eq-some (read_counted read_output orchard.1) _ e3 in
    let (l4, p4, k4) =
      took_counted SizedOutput write_output read_output took_output orchard.1 ironwood.0 ironwood.1
        k3.1 t4 in
    last_step (λ t r. SizedTx t × Consumes bytes (write_tx t) r) e4
      (
        record {
          index_bound = l1;
          txid_len = l2;
          orchard_outputs = p3;
          orchard_bound = l3;
          ironwood_outputs = p4;
          ironwood_bound = l4;
        },
        took_parts _ bytes index.1 txid.1 orchard.1 ironwood.1 k1 k2 k3 k4,
      )

took_block :
    (b : CompactBlock) (bytes r1 r2 r3 : Bytes)
    → Consumes bytes magic r1
    → Consumes r1 (le_bytes 8 b.height) r2
    → Consumes r2 b.hash r3
    → Consumes r3 (write_counted write_tx b.txs) []
    → encode b ≡ bytes
unfolding encode
took_block b bytes r1 r2 r3 c d e f =
    let txs : Bytes = write_counted write_tx b.txs in
    sym (
      (took_two magic (le_bytes 8 b.height ++ (b.hash ++ txs)) bytes r1 [] c (
        took_two (le_bytes 8 b.height) (b.hash ++ txs) r1 r2 [] d
          (took_two b.hash txs r2 r3 [] e f))).0
      ∙ append-nil _)

empty_rest : (r : Bytes) → (length r == 0) ≡ true → r ≡ []
empty_rest [] h = refl
empty_rest (x ∷ r) h = absurd (ground arith)

passed_test {ℓ} :
    {A : Type ℓ} (c : Bool) (x : Option A) {a : A}
    → (if not c then none else x) ≡ some a
    → (c ≡ true) × (x ≡ some a)
passed_test true x e = (refl, e)
passed_test false x e = cc

accepted_block :
    (bytes : Bytes) (b : CompactBlock)
    → IsBytes bytes
    → decode bytes ≡ some b
    → SizedBlock b × (encode b ≡ bytes)
unfolding decode
accepted_block bytes b h e =
    let (tag, t0, e0) = >>=-eq-some (take_bytes 6 bytes) _ e in
    let (l0, b0, k0) = took_bytes 6 bytes tag.0 tag.1 h t0 in
    let (tagged, e1) = passed_test (bytes_eq tag.0 magic) _ e0 in
    let (height, t1, e2) = >>=-eq-some (read_int 8 tag.1) _ e1 in
    let (l1, k1) = took_int 8 height.0 tag.1 height.1 k0.1 t1 in
    let (hash, t2, e3) = >>=-eq-some (take_bytes 32 height.1) _ e2 in
    let (l2, b2, k2) = took_bytes 32 height.1 hash.0 hash.1 k1.1 t2 in
    let (txs, t3, e4) = >>=-eq-some (read_counted read_tx hash.1) _ e3 in
    let (l3, p3, k3) = took_counted SizedTx write_tx read_tx took_tx hash.1 txs.0 txs.1 k2.1 t3 in
    let (ended, e5) = passed_test (length txs.1 == 0) _ e4 in
    subst
      (λ (o : Option CompactBlock). elim o as (λ x. Type 0) [
        | none ↦ Unit
        | some b ↦ SizedBlock b × (encode b ≡ bytes)
      ])
      e5
      (
        record { height_bound = l1; hash_len = l2; txs_each = p3; txs_bound = l3 },
        took_block _ bytes tag.1 height.1 hash.1
            (subst (λ m. Consumes bytes m tag.1) ((bytes_eq_iff tag.0 magic).0 tagged) k0) k1 k2
            (subst (λ r. Consumes hash.1 (write_counted write_tx txs.0) r) (empty_rest txs.1 ended)
              k3),
      )

-- The reader returns a block exactly from the binary form of that block, where the block's fields
-- have the sizes of their types and its lists have fewer than 2^32 members: what is written is read
-- back, and no other bytes are accepted.
pub block_round_trip :
    (bytes : Bytes) (b : CompactBlock)
    → IsBytes bytes
    → (decode bytes ≡ some b) ↔ (SizedBlock b × (encode b ≡ bytes))
block_round_trip bytes b h = (
  λ e. accepted_block bytes b h e,
  λ (v, e). subst (λ x. decode x ≡ some b) e (decode_written b v),
)
