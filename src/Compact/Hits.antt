-- ===== src/Compact/Hits.antt =====
-- The loops of `scan` of src/compact.rs over the compact outputs of full actions: which actions their hits
-- are.
use zec_multisig.Base.{
  ℕ, zero, suc, ◌+◌, ◌≡◌, refl, sym, ap, ◌∙◌, subst, Option, none, some, List, [], ◌∷◌, take,
  get_elem?, In, In-append_left, In-append_right, In-append_cases, ◌↔◌, ◌⊎◌, inl, inr, arith, ◌>>=◌,
}
use zec_multisig.Compact.{ChainTypes, CompactOutput, CompactTx, outputs}
use zec_multisig.Compact.Scan.{
  TrialDecryption, ValuePool, orchard, ironwood, Hit, to_action, value_in, hit_of, push_hit,
  scan_outputs, scan_txs,
}

-- The conversion of a full action of the crate `orchard` to a compact one, and its laws: the action's
-- nullifier and commitment are read back from their bytes, and the compact action is made of them, the
-- ephemeral key and the first 52 bytes of the ciphertext.
pub record CompactActions (c : ChainTypes) (d : TrialDecryption) : Type 0 where
  pub of_action : c.Action → d.CompactAction
  pub nullifier : c.Action → d.Nullifier
  pub cmx : c.Action → d.ExtractedNoteCommitment
  pub nullifier_bytes :
      (a : c.Action) → d.nullifier_from_bytes (c.action_nullifier a) ≡ some (nullifier a)
  pub cmx_bytes : (a : c.Action) → d.commitment_from_bytes (c.action_cmx a) ≡ some (cmx a)
  pub parts :
      (a : c.Action)
      → d.from_parts (nullifier a) (cmx a) (c.action_epk a) (take 52 (c.action_ciphertext a))
        ≡ of_action a

module _ (c : ChainTypes) (d : TrialDecryption) (full : CompactActions c d) (ivk : d.ViewKey) where
  -- The key opens an action of a pool, to a note of a value.
  abbrev pub Opens : ValuePool → d.CompactAction → ℕ → Type 0
  Opens orchard act v =
      (note : d.Note) × (to : d.Address) × (d.try_compact_note_decryption (d.orchard_domain act) ivk
          act
        ≡ some (note, to))
      × (v ≡ d.value note)
  Opens ironwood act v =
      (note : d.Note) × (to : d.Address) × (d.try_compact_note_decryption (d.ironwood_domain act)
          ivk act
        ≡ some (note, to))
      × (v ≡ d.value note)

  abbrev output_of : c.Action → CompactOutput
  output_of a = record {
    nullifier = c.action_nullifier a;
    cmx = c.action_cmx a;
    epk = c.action_epk a;
    ciphertext = take 52 (c.action_ciphertext a);
  }

  to_action-output_of : (a : c.Action) → to_action d (output_of a) ≡ some (full.of_action a)
  unfolding to_action
  to_action-output_of a = rw (full.nullifier_bytes a, full.cmx_bytes a, full.parts a) refl

  -- What decryption answers.
  opened :
      (dom : d.Domain) (act : d.CompactAction) (v : ℕ) (r : Option (d.Note × d.Address))
      → (r >>= λ o. some (d.value o.0)) ≡ some v
      → (note : d.Note) × (to : d.Address) × (r ≡ some (note, to)) × (v ≡ d.value note)
  opened dom act v none e = absurd cc
  opened dom act v (some (note, to)) e = (note, to, refl, cc e)

  value_in-Opens :
      (pool : ValuePool) (act : d.CompactAction) (v : ℕ)
      → (value_in d ivk pool act ≡ some v) ↔ Opens pool act v
  unfolding value_in
  value_in-Opens orchard act v =
      (opened (d.orchard_domain act) act v _, λ (note, to, e, q). rw (e, q) refl)
  value_in-Opens ironwood act v =
      (opened (d.ironwood_domain act) act v _, λ (note, to, e, q). rw (e, q) refl)

  -- A hit at a place of a pool of a compact transaction, for a full action.
  pub record HitAt (t : CompactTx) (pool : ValuePool) (i : ℕ) (a : c.Action) (h : Hit)
      : Type 0 where
    pub pool_is : h.pool ≡ pool
    pub action_is : h.action ≡ i
    pub opens : Opens pool (full.of_action a) h.value
    pub index_is : h.tx_index ≡ t.index
    pub txid_is : h.txid ≡ t.txid
    pub cmx_is : h.cmx ≡ c.action_cmx a

  In-hit_of :
      (t : CompactTx) (pool : ValuePool) (i : ℕ) (a : c.Action) (h : Hit) (r : Option ℕ)
      → value_in d ivk pool (full.of_action a) ≡ r
      → In h (hit_of d ivk t pool i (output_of a) r) ↔ HitAt t pool i a h
  In-hit_of t pool i a h none q =
      (λ m. absurd m, λ z. absurd (cc (q, (value_in-Opens pool _ h.value).1 z.opens)))
  In-hit_of t pool i a h (some v) q = (
    elim [
      | inl e ↦ record {
        pool_is = ap (λ x. x.pool) e;
        action_is = ap (λ x. x.action) e;
        opens = (value_in-Opens pool _ h.value).0 (q ∙ ap (λ x. some x.value) (sym e));
        index_is = ap (λ x. x.tx_index) e;
        txid_is = ap (λ x. x.txid) e;
        cmx_is = ap (λ x. x.cmx) e;
      }
      | inr m ↦ absurd m
    ],
    λ z.
        let w : h.value ≡ v = cc (q, (value_in-Opens pool _ h.value).1 z.opens) in
        inl (λ j. record {
          tx_index = z.index_is j;
          txid = z.txid_is j;
          pool = z.pool_is j;
          action = z.action_is j;
          cmx = z.cmx_is j;
          value = w j;
        }),
  )

  In-push_hit :
      (t : CompactTx) (pool : ValuePool) (i : ℕ) (a : c.Action) (h : Hit)
      → In h (push_hit d ivk t pool i (output_of a) (to_action d (output_of a)))
        ↔ HitAt t pool i a h
  unfolding push_hit
  In-push_hit t pool i a h =
      rw (to_action-output_of a)
        (In-hit_of t pool i a h (value_in d ivk pool (full.of_action a)) refl)

  -- The hits among the outputs of some actions, from the place `i` on.
  abbrev pub HitAmong : CompactTx → ValuePool → ℕ → List c.Action → Hit → Type 0
  HitAmong t pool i as_ h =
      (k : ℕ) × (a : c.Action) × (get_elem? as_ k ≡ some a) × HitAt t pool (i + k) a h

  moved :
      (t : CompactTx) (pool : ValuePool) (i j : ℕ) (b a : c.Action) (h : Hit)
      → b ≡ a
      → i ≡ j
      → HitAt t pool i b h
      → HitAt t pool j a h
  moved t pool i j b a h e q z =
      subst (λ k. HitAt t pool k a h) q (subst (λ x. HitAt t pool i x h) e z)

  pub hit_among :
      (t : CompactTx) (pool : ValuePool) (i : ℕ) (as_ : List c.Action) (h : Hit)
      → In h (scan_outputs d ivk t pool i (outputs c as_))
      → HitAmong t pool i as_ h
  unfolding scan_outputs outputs
  hit_among t pool i [] h m = absurd m
  hit_among t pool i (a ∷ as_) h m = elim (In-append_cases h (push_hit d ivk t pool i _ _) _ m) [
    | inl l ↦
        let z = (In-push_hit t pool i a h).0 l in
        (0, a, refl, moved t pool _ _ _ _ h refl (omega arith) z)
    | inr l ↦
        let (k, b, q, z) = hit_among t pool (i + 1) as_ h l in
        (suc k, b, q, moved t pool _ _ _ _ h refl (omega arith) z)
  ]

  pub among_hit :
      (t : CompactTx) (pool : ValuePool) (i : ℕ) (as_ : List c.Action) (h : Hit)
      → HitAmong t pool i as_ h
      → In h (scan_outputs d ivk t pool i (outputs c as_))
  unfolding scan_outputs outputs
  among_hit t pool i [] h (k, b, q, z) = absurd cc
  among_hit t pool i (a ∷ as_) h (zero, b, q, z) =
      let same : b ≡ a = cc q in
      In-append_left h (push_hit d ivk t pool i _ _) _
        ((In-push_hit t pool i a h).1 (moved t pool (i + 0) i b a h same (omega arith) z))
  among_hit t pool i (a ∷ as_) h (suc k, b, q, z) =
      In-append_right h (push_hit d ivk t pool i _ _) _
        (among_hit t pool (i + 1) as_ h (k, b, q, moved t pool _ _ _ _ h refl (omega arith) z))

  -- The hits of a list of compact transactions are those of each.
  pub In-scan_txs :
      (ts : List CompactTx) (h : Hit)
      → In h (scan_txs d ivk ts) ↔ (
          (t : CompactTx) × In t ts
          × (In h (scan_outputs d ivk t orchard 0 t.orchard)
              ⊎ In h (scan_outputs d ivk t ironwood 0 t.ironwood)))
  unfolding scan_txs
  In-scan_txs [] h = (λ m. absurd m, λ (t, i, m). absurd i)
  In-scan_txs (t ∷ ts) h = (
    λ m. elim (In-append_cases h (scan_outputs d ivk t orchard 0 t.orchard) _ m) [
      | inl l ↦ (t, inl refl, inl l)
      | inr r ↦ elim (In-append_cases h (scan_outputs d ivk t ironwood 0 t.ironwood) _ r) [
        | inl l ↦ (t, inl refl, inr l)
        | inr l ↦ let (u, i, x) = (In-scan_txs ts h).0 l in (u, inr i, x)
      ]
    ],
    λ (u, i, x). elim i [
      | inl e ↦ elim (rw e at x) [
        | inl l ↦ In-append_left h _ _ l
        | inr l ↦
            In-append_right h (scan_outputs d ivk t orchard 0 t.orchard) _ (In-append_left h _ _ l)
      ]
      | inr j ↦ In-append_right h (scan_outputs d ivk t orchard 0 t.orchard) _ (
          In-append_right h (scan_outputs d ivk t ironwood 0 t.ironwood) _
            ((In-scan_txs ts h).1 (u, j, x)))
    ],
  )
