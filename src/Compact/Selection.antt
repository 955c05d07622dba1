-- ===== src/Compact/Selection.antt =====
-- Which transactions of a block its compact form keeps.
use zec_multisig.Base.{
  ℕ, zero, suc, ◌+◌, ◌%◌, ◌^◌, ◌≡◌, refl, sym, ap, ◌∙◌, true, some, List, [], ◌∷◌, In, In-filter,
  In-filter_of, get_elem?, ◌↔◌, inl, inr, arith,
}
use zec_multisig.Compact.{
  ChainTypes, CompactTx, from_transaction, from_transactions, from_block, is_shielded,
}

module _ (c : ChainTypes) where
  -- The compact form of the transaction at a place of the list, for a list that starts at `i`.
  abbrev pub Compacted : ℕ → List c.Transaction → CompactTx → Type 0
  Compacted i txs t =
      (k : ℕ) × (tx : c.Transaction) × (get_elem? txs k ≡ some tx)
      × (t ≡ from_transaction c ((i + k) % 2 ^ 32) tx)

  place_of :
      (i : ℕ) (txs : List c.Transaction) (t : CompactTx)
      → In t (from_transactions c i txs)
      → Compacted i txs t
  unfolding from_transactions
  place_of i [] t h = absurd h
  place_of i (tx ∷ txs) t (inl e) =
      (0, tx, refl, e ∙ ap (λ n. from_transaction c (n % 2 ^ 32) tx) (omega arith))
  place_of i (tx ∷ txs) t (inr h) =
      let (k, u, e, m) = place_of (i + 1) txs t h in
      (suc k, u, e, m ∙ ap (λ n. from_transaction c (n % 2 ^ 32) u) (omega arith))

  placed_from :
      (i : ℕ) (txs : List c.Transaction) (t : CompactTx)
      → Compacted i txs t
      → In t (from_transactions c i txs)
  unfolding from_transactions
  placed_from i [] t (k, u, e, m) = absurd cc
  placed_from i (tx ∷ txs) t (zero, u, e, m) =
      let same : tx ≡ u = cc e in
      inl (
        m
        ∙ ap (λ n. from_transaction c (n % 2 ^ 32) u) (omega arith)
        ∙ ap (from_transaction c (i % 2 ^ 32)) (sym same))
  placed_from i (tx ∷ txs) t (suc k, u, e, m) = inr (
      placed_from (i + 1) txs t
        (k, u, e, m ∙ ap (λ n. from_transaction c (n % 2 ^ 32) u) (omega arith)))

  -- A compact transaction is in the compact block exactly when it has a shielded output and is the
  -- compact form of the block's transaction at some position, with that position, as a 32-bit number,
  -- for its index.
  pub from_block_keeps :
      (height : ℕ) (block : c.Block) (t : CompactTx)
      → In t (from_block c height block).txs
        ↔ (Compacted 0 (c.vtx block) t × (is_shielded c t ≡ true))
  unfolding from_block
  from_block_keeps height block t = (
    λ h.
        let (i, s) = In-filter t (is_shielded c) (from_transactions c 0 (c.vtx block)) h in
        (place_of 0 (c.vtx block) t i, s),
    λ (w, s).
        In-filter_of t (is_shielded c) (from_transactions c 0 (c.vtx block))
          (placed_from 0 (c.vtx block) t w) s,
  )
