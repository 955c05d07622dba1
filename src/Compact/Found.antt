-- ===== src/Compact/Found.antt =====
-- `from_block` and `scan` of src/compact.rs together: what a wallet finds in the compact form of a block.
use zec_multisig.Base.{
  ℕ, ◌+◌, ◌%◌, ◌^◌, ◌≡◌, refl, sym, ap, ◌∙◌, subst, true, false, Option, none, some, List, [], ◌∷◌,
  get_elem?, In, ◌↔◌, ◌⊎◌, inl, inr, arith,
}
use zec_multisig.Compact.{
  ChainTypes, outputs, outputs_or_default, from_transaction, from_block, is_shielded, is_empty,
}
use zec_multisig.Compact.Selection.{from_block_keeps}
use zec_multisig.Compact.Scan.{
  TrialDecryption, ValuePool, orchard, ironwood, Hit, scan_outputs, scan,
}
use zec_multisig.Compact.Hits.{CompactActions, Opens, HitAmong, hit_among, among_hit, In-scan_txs}

module _ (c : ChainTypes) (d : TrialDecryption) (full : CompactActions c d) (ivk : d.ViewKey) where
  abbrev pub in_bundle : Option (List c.Action) → List c.Action
  in_bundle none = []
  in_bundle (some as_) = as_

  abbrev pub actions_in : ValuePool → c.Transaction → List c.Action
  actions_in orchard tx = in_bundle (c.orchard_bundle tx)
  actions_in ironwood tx = in_bundle (c.ironwood_bundle tx)

  -- A hit is an action of the block's transactions that the key opens, with its place and its value.
  pub record IsReceived (block : c.Block) (h : Hit) : Type 0 where
    pub place : ℕ
    pub tx : c.Transaction
    pub tx_at : get_elem? (c.vtx block) place ≡ some tx
    pub a : c.Action
    pub action_at : get_elem? (actions_in h.pool tx) h.action ≡ some a
    pub opens : Opens c d full ivk h.pool (full.of_action a) h.value
    pub index_is : h.tx_index ≡ place % 2 ^ 32
    pub txid_is : h.txid ≡ c.transaction_id tx
    pub cmx_is : h.cmx ≡ c.action_cmx a

  -- The compact outputs of a pool of a transaction.
  bundle_outputs : (b : Option (List c.Action)) → outputs_or_default c b ≡ outputs c (in_bundle b)
  unfolding outputs
  bundle_outputs none = refl
  bundle_outputs (some as_) = refl

  -- The hits in the compact form of a transaction.
  In-scan_compact :
      (i : ℕ) (tx : c.Transaction) (h : Hit)
      → let t = from_transaction c i tx in
        (In h (scan_outputs d ivk t orchard 0 t.orchard)
          ⊎ In h (scan_outputs d ivk t ironwood 0 t.ironwood))
        ↔ ((p : ValuePool) × HitAmong c d full ivk t p 0 (actions_in p tx) h)
  unfolding from_transaction
  In-scan_compact i tx h =
      let t = from_transaction c i tx in
      (
        elim [
          | inl m ↦ (
            orchard,
            hit_among c d full ivk t orchard 0 _ h (
                subst (λ os. In h (scan_outputs d ivk (from_transaction c i tx) orchard 0 os))
                  (bundle_outputs (c.orchard_bundle tx)) m),
          )
          | inr m ↦ (
            ironwood,
            hit_among c d full ivk t ironwood 0 _ h (
                subst (λ os. In h (scan_outputs d ivk (from_transaction c i tx) ironwood 0 os))
                  (bundle_outputs (c.ironwood_bundle tx)) m),
          )
        ],
        λ (p, m). among_of p m,
      )
    where
      among_of :
          (p : ValuePool)
          → HitAmong c d full ivk (from_transaction c i tx) p 0 (actions_in p tx) h
          → In h (
              scan_outputs d ivk
                (from_transaction c i tx)
                orchard
                0
                (from_transaction c i tx).orchard)
            ⊎ In h (
                scan_outputs d ivk
                  (from_transaction c i tx)
                  ironwood
                  0
                  (from_transaction c i tx).ironwood)
      among_of orchard m = inl (
          subst (λ os. In h (scan_outputs d ivk (from_transaction c i tx) orchard 0 os))
            (sym (bundle_outputs (c.orchard_bundle tx))) (among_hit c d full ivk _ orchard 0 _ h m))
      among_of ironwood m = inr (
          subst (λ os. In h (scan_outputs d ivk (from_transaction c i tx) ironwood 0 os))
            (sym (bundle_outputs (c.ironwood_bundle tx)))
            (among_hit c d full ivk _ ironwood 0 _ h m))

  some_output :
      (b : Option (List c.Action)) (k : ℕ) (a : c.Action)
      → get_elem? (in_bundle b) k ≡ some a
      → is_empty c (outputs_or_default c b) ≡ false
  unfolding outputs
  some_output none k a e = absurd cc
  some_output (some []) k a e = absurd cc
  some_output (some (x ∷ as_)) k a e = refl

  -- A transaction with an action in some pool is kept.
  kept :
      (i : ℕ) (tx : c.Transaction) (p : ValuePool) (k : ℕ) (a : c.Action)
      → get_elem? (actions_in p tx) k ≡ some a
      → is_shielded c (from_transaction c i tx) ≡ true
  unfolding from_transaction
  kept i tx orchard k a e = ground (arith, some_output (c.orchard_bundle tx) k a e)
  kept i tx ironwood k a e = ground (arith, some_output (c.ironwood_bundle tx) k a e)

  received :
      (block : c.Block) (h : Hit) (k : ℕ) (tx : c.Transaction)
      → get_elem? (c.vtx block) k ≡ some tx
      → (p : ValuePool)
      → HitAmong c d full ivk (from_transaction c ((0 + k) % 2 ^ 32) tx) p 0 (actions_in p tx) h
      → IsReceived block h
  unfolding from_transaction
  received block h k tx q p (j, a, r, z) =
      let place : h.action ≡ j = z.action_is ∙ omega arith in
      record {
        place = k;
        tx = tx;
        tx_at = q;
        a = a;
        action_at = rw (z.pool_is, place) r;
        opens =
            subst (λ u. Opens c d full ivk u (full.of_action a) h.value) (sym z.pool_is) z.opens;
        index_is = z.index_is ∙ ap (λ m. m % 2 ^ 32) (omega arith);
        txid_is = z.txid_is;
        cmx_is = z.cmx_is;
      }

  -- What a wallet finds by scanning the compact form of a block is exactly what its key opens of the
  -- actions of the block's transactions in both pools, each with its transaction's position in the block,
  -- as a 32-bit number, its place in its pool, its commitment and its value; for a conversion of actions
  -- to compact ones that has its laws.
  pub scan-from_block :
      (height : ℕ) (block : c.Block) (h : Hit)
      → In h (scan d ivk (from_block c height block)) ↔ IsReceived block h
  unfolding scan from_transaction
  scan-from_block height block h = (
    λ m.
        let (t, i, x) = (In-scan_txs c d full ivk (from_block c height block).txs h).0 m in
        let (at, some_one) = (from_block_keeps c height block t).0 i in
        let (k, tx, q, e) = at in
        let (p, found) = (In-scan_compact ((0 + k) % 2 ^ 32) tx h).0 (rw e at x) in
        received block h k tx q p found,
    λ r.
        let i = r.place % 2 ^ 32 in
        let place : (0 + r.place) % 2 ^ 32 ≡ i = ap (λ k. k % 2 ^ 32) (omega arith) in
        let t = from_transaction c i r.tx in
        (In-scan_txs c d full ivk (from_block c height block).txs h).1 (
          t,
          (from_block_keeps c height block t).1 (
            (r.place, r.tx, r.tx_at, ap (λ k. from_transaction c k r.tx) (sym place)),
            kept i r.tx h.pool h.action r.a r.action_at,
          ),
          (In-scan_compact i r.tx h).1 (
            h.pool,
            (
              h.action,
              r.a,
              r.action_at,
              record {
                pool_is = refl;
                action_is = omega arith;
                opens = r.opens;
                index_is = r.index_is;
                txid_is = r.txid_is;
                cmx_is = r.cmx_is;
              },
            ),
          ),
        ),
  )
