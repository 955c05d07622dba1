-- ===== src/Compact/RoundTrip.antt =====
-- A compact block that is written is read back.
use zec_multisig.Base.{
  ◌^◌, ◌<◌, ◌≡◌, refl, sym, some, [], ◌++◌, length, Bytes, le_bytes, arith, All, bytes_eq_refl,
}
use mathlib.Core.List.{append_assoc, append-nil}
use zec_multisig.Compact.{
  CompactOutput, CompactTx, CompactBlock, magic, write_counted, write_output, write_tx, read_output,
  read_tx, encode, decode,
}
use zec_multisig.Compact.Reading.{take_bytes_append, read_int_append, read_counted_append}

-- The sizes that the types of the source fix.
pub record SizedOutput (o : CompactOutput) : Type 0 where
  pub nullifier_len : length o.nullifier ≡ 32
  pub cmx_len : length o.cmx ≡ 32
  pub epk_len : length o.epk ≡ 32
  pub ciphertext_len : length o.ciphertext ≡ 52

pub record SizedTx (t : CompactTx) : Type 0 where
  pub index_bound : t.index < 2 ^ 32
  pub txid_len : length t.txid ≡ 32
  pub orchard_outputs : All SizedOutput t.orchard
  pub orchard_bound : length t.orchard < 2 ^ 32
  pub ironwood_outputs : All SizedOutput t.ironwood
  pub ironwood_bound : length t.ironwood < 2 ^ 32

pub record SizedBlock (b : CompactBlock) : Type 0 where
  pub height_bound : b.height < 2 ^ 64
  pub hash_len : length b.hash ≡ 32
  pub txs_each : All SizedTx b.txs
  pub txs_bound : length b.txs < 2 ^ 32

read_output_append :
    (o : CompactOutput) (rest : Bytes)
    → SizedOutput o
    → read_output (write_output o ++ rest) ≡ some (o, rest)
unfolding read_output write_output
read_output_append o rest h =
    rw
      (
        append_assoc o.nullifier (o.cmx ++ (o.epk ++ o.ciphertext)) rest,
        take_bytes_append 32 o.nullifier ((o.cmx ++ (o.epk ++ o.ciphertext)) ++ rest)
            h.nullifier_len,
        append_assoc o.cmx (o.epk ++ o.ciphertext) rest,
        take_bytes_append 32 o.cmx ((o.epk ++ o.ciphertext) ++ rest) h.cmx_len,
        append_assoc o.epk o.ciphertext rest,
        take_bytes_append 32 o.epk (o.ciphertext ++ rest) h.epk_len,
        take_bytes_append 52 o.ciphertext rest h.ciphertext_len,
      )
      refl

read_tx_append :
    (t : CompactTx) (rest : Bytes) → SizedTx t → read_tx (write_tx t ++ rest) ≡ some (t, rest)
unfolding read_tx write_tx
read_tx_append t rest h =
    let orchard : Bytes = write_counted write_output t.orchard in
    let ironwood : Bytes = write_counted write_output t.ironwood in
    rw
      (
        append_assoc (le_bytes 4 t.index) (t.txid ++ (orchard ++ ironwood)) rest,
        read_int_append 4 t.index ((t.txid ++ (orchard ++ ironwood)) ++ rest)
            (omega (arith, h.index_bound)),
        append_assoc t.txid (orchard ++ ironwood) rest,
        take_bytes_append 32 t.txid ((orchard ++ ironwood) ++ rest) h.txid_len,
        append_assoc orchard ironwood rest,
        read_counted_append SizedOutput write_output read_output read_output_append t.orchard
            (ironwood ++ rest) h.orchard_outputs h.orchard_bound,
        read_counted_append SizedOutput write_output read_output read_output_append t.ironwood rest
            h.ironwood_outputs h.ironwood_bound,
      )
      refl

-- A block whose fields have the sizes of their types, with fewer than 2^32 transactions and outputs,
-- is read back from its binary form.
pub decode_written : (b : CompactBlock) → SizedBlock b → decode (encode b) ≡ some b
unfolding decode encode
decode_written b h =
    let txs : Bytes = write_counted write_tx b.txs in
    rw
      (
        take_bytes_append 6 magic (le_bytes 8 b.height ++ (b.hash ++ txs)) refl,
        bytes_eq_refl magic,
        read_int_append 8 b.height (b.hash ++ txs) (omega (arith, h.height_bound)),
        take_bytes_append 32 b.hash txs h.hash_len,
        sym (append-nil txs),
        read_counted_append SizedTx write_tx read_tx read_tx_append b.txs [] h.txs_each h.txs_bound,
      )
      refl
