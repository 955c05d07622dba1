-- ===== src/Compact.antt =====
-- src/compact.rs: compact blocks, what a wallet needs for trial decryption, and their binary form.
-- A reader takes what is left of the input and returns what it read with the rest; `take(n)?` of the
-- source is `take_bytes`. Blocks, transactions and actions belong to other crates: `ChainTypes` is
-- what this file asks of them.
pub mod Reading
pub mod RoundTrip
pub mod Canonical
pub mod Blocks
pub mod Selection
pub mod Scan
pub mod Hits
pub mod Found
use zec_multisig.Base.{
  ℕ, zero, suc, ◌+◌, ◌%◌, ◌^◌, Bool, true, false, not, ◌||◌, Option, none, some, List, [], ◌∷◌,
  ◌++◌, map, leb, ◌==◌, if◌then◌else◌, ◌>>=◌, length, take, drop, filter, Bytes, bytes_eq, le_bytes,
  from_le,
}

pub record CompactOutput : Type 0 where
  pub nullifier : Bytes
  pub cmx : Bytes
  pub epk : Bytes
  pub ciphertext : Bytes

pub record CompactTx : Type 0 where
  pub index : ℕ
  pub txid : Bytes
  pub orchard : List CompactOutput
  pub ironwood : List CompactOutput

pub record CompactBlock : Type 0 where
  pub height : ℕ
  pub hash : Bytes
  pub txs : List CompactTx

-- What the crates `zcash_primitives` and `orchard` offer of a block.
pub record ChainTypes : Type 1 where
  pub Block : Type 0
  pub Transaction : Type 0
  pub Action : Type 0
  pub vtx : Block → List Transaction
  pub block_hash : Block → Bytes
  pub transaction_id : Transaction → Bytes
  pub orchard_bundle : Transaction → Option (List Action)
  pub ironwood_bundle : Transaction → Option (List Action)
  pub action_nullifier : Action → Bytes
  pub action_cmx : Action → Bytes
  pub action_epk : Action → Bytes
  pub action_ciphertext : Action → Bytes

abbrev pub magic : Bytes
magic = b'Z' ∷ b'E' ∷ b'C' ∷ b'C' ∷ b'B' ∷ b'1' ∷ []

module _ (c : ChainTypes) where
  unfoldable pub outputs : List c.Action → List CompactOutput
  outputs [] = []
  outputs (a ∷ xs) =
      record {
        nullifier = c.action_nullifier a;
        cmx = c.action_cmx a;
        epk = c.action_epk a;
        ciphertext = take 52 (c.action_ciphertext a);
      }
      ∷ outputs xs

  abbrev pub outputs_or_default : Option (List c.Action) → List CompactOutput
  outputs_or_default none = []
  outputs_or_default (some xs) = outputs xs

  unfoldable pub from_transaction : ℕ → c.Transaction → CompactTx
  from_transaction index tx = record {
    index = index;
    txid = c.transaction_id tx;
    orchard = outputs_or_default (c.orchard_bundle tx);
    ironwood = outputs_or_default (c.ironwood_bundle tx);
  }

  abbrev pub is_empty : List CompactOutput → Bool
  is_empty [] = true
  is_empty (o ∷ os) = false

  abbrev pub is_shielded : CompactTx → Bool
  is_shielded t = not (is_empty t.orchard) || not (is_empty t.ironwood)

  -- `enumerate` and `map`, from the position `i` on; the position is cut to a `u32`.
  unfoldable pub from_transactions : ℕ → List c.Transaction → List CompactTx
  from_transactions i [] = []
  from_transactions i (tx ∷ txs) = from_transaction (i % 2 ^ 32) tx ∷ from_transactions (i + 1) txs

  unfoldable pub from_block : ℕ → c.Block → CompactBlock
  from_block height block = record {
    height = height;
    hash = c.block_hash block;
    txs = filter is_shielded (from_transactions 0 (c.vtx block));
  }

unfoldable pub write_output : CompactOutput → Bytes
write_output o = o.nullifier ++ (o.cmx ++ (o.epk ++ o.ciphertext))

-- The `for` loop over a list, each element's bytes after the last one's.
abbrev pub write_all {ℓ} : {A : Type ℓ} → (A → Bytes) → List A → Bytes
write_all write [] = []
write_all write (a ∷ xs) = write a ++ write_all write xs

-- A list with its length in front, as a `u32`.
abbrev pub write_counted {ℓ} : {A : Type ℓ} → (A → Bytes) → List A → Bytes
write_counted write xs = le_bytes 4 (length xs % 2 ^ 32) ++ write_all write xs

unfoldable pub write_tx : CompactTx → Bytes
write_tx t =
    le_bytes 4 t.index
    ++ (t.txid ++ (write_counted write_output t.orchard ++ write_counted write_output t.ironwood))

unfoldable pub encode : CompactBlock → Bytes
encode b = magic ++ (le_bytes 8 b.height ++ (b.hash ++ write_counted write_tx b.txs))

unfoldable pub take_bytes : ℕ → Bytes → Option (Bytes × Bytes)
take_bytes n b = if leb n (length b) then some (take n b, drop n b) else none

unfoldable pub read_int : ℕ → Bytes → Option (ℕ × Bytes)
read_int w b = do s ← take_bytes w b; some (from_le s.0, s.1)

unfoldable pub read_output : Bytes → Option (CompactOutput × Bytes)
read_output b = do
  nullifier ← take_bytes 32 b
  cmx ← take_bytes 32 nullifier.1
  epk ← take_bytes 32 cmx.1
  ciphertext ← take_bytes 52 epk.1
  some (
    record { nullifier = nullifier.0; cmx = cmx.0; epk = epk.0; ciphertext = ciphertext.0 },
    ciphertext.1,
  )

-- The `for _ in 0..n` loop.
unfoldable pub read_all {ℓ} :
    {A : Type ℓ} → (Bytes → Option (A × Bytes)) → ℕ → Bytes → Option (List A × Bytes)
read_all read zero b = some ([], b)
read_all read (suc n) b = do a ← read b; xs ← read_all read n a.1; some (a.0 ∷ xs.0, xs.1)

unfoldable pub read_counted {ℓ} :
    {A : Type ℓ} → (Bytes → Option (A × Bytes)) → Bytes → Option (List A × Bytes)
read_counted read b = do n ← read_int 4 b; read_all read n.0 n.1

unfoldable pub read_tx : Bytes → Option (CompactTx × Bytes)
read_tx b = do
  index ← read_int 4 b
  txid ← take_bytes 32 index.1
  orchard ← read_counted read_output txid.1
  ironwood ← read_counted read_output orchard.1
  some (
    record { index = index.0; txid = txid.0; orchard = orchard.0; ironwood = ironwood.0 },
    ironwood.1,
  )

unfoldable pub decode : Bytes → Option CompactBlock
decode b = do
  tag ← take_bytes 6 b
  if not (bytes_eq tag.0 magic) then none else do
    height ← read_int 8 tag.1
    hash ← take_bytes 32 height.1
    txs ← read_counted read_tx hash.1
    if not (length txs.1 == 0)
        then none
        else some (record { height = height.0; hash = hash.0; txs = txs.0 })
