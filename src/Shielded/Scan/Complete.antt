-- ===== src/Shielded/Scan/Complete.antt =====
-- A scan of src/shielded.rs reports every output of a transaction, once and in order.
use zec_multisig.Base.{
  ℕ, ◌+◌, ◌≡◌, refl, sym, ap, ◌∙◌, Bool, Option, none, some, List, [], ◌∷◌, ◌++◌, map, length,
  Bytes, ok, and_go-eq-ok, arith, length-append,
}
use mathlib.Core.List.{append_assoc, append-nil}
use zec_multisig.Notes.{NoteTypes}
use zec_multisig.Watcher.{ObservedDeposit}
use zec_multisig.Shielded.{
  Pool, orchard, ironwood, ScanTypes, ScannedAction, AppPaymentOutput, ForcedSighting, Scanned,
}
use zec_multisig.Shielded.Scan.{
  empty_scan, next_index, scan_bundle, scan_parsed, scan_inner, actions_in,
}
use zec_multisig.Shielded.Scan.Growth.{deposit_of, forced_of, payment_of, Grown, take-Grows}

module _ (n : NoteTypes) (t : ScanTypes n) where
  abbrev Shown : Type 0
  Shown = Pool × n.Commitment × Bytes

  abbrev pub shown : ScannedAction n → Shown
  shown a = (a.pool, a.cmx, a.nullifier)

  -- The outputs of a pool, as a scan should report them.
  abbrev pub outputs_of : Pool → List t.Action → List Shown
  outputs_of pool as_ = map (λ a. (pool, t.cmx_of a, t.nullifier_shown a)) as_

  unfoldable pub all_deposits : Bytes → ℕ → List (ScannedAction n) → List ObservedDeposit
  all_deposits txid height [] = []
  all_deposits txid height (a ∷ as_) =
      deposit_of n t txid height a.ours a.account ++ all_deposits txid height as_

  unfoldable pub all_forced : Bytes → ℕ → List (ScannedAction n) → List ForcedSighting
  all_forced txid height [] = []
  all_forced txid height (a ∷ as_) =
      forced_of n t txid height a.ours a.forced ++ all_forced txid height as_

  unfoldable pub all_payments : Bytes → ℕ → ℕ → List (ScannedAction n) → List AppPaymentOutput
  all_payments txid height index [] = []
  all_payments txid height index (a ∷ as_) =
      payment_of n t txid height index a.ours a.app_payment
      ++ all_payments txid height (index + 1) as_

  all_deposits-append :
      (txid : Bytes) (height : ℕ) (as_ : List (ScannedAction n)) (a : ScannedAction n)
      → all_deposits txid height (as_ ++ a ∷ [])
        ≡ all_deposits txid height as_ ++ deposit_of n t txid height a.ours a.account
  unfolding all_deposits
  all_deposits-append txid height [] a = append-nil _
  all_deposits-append txid height (b ∷ as_) a =
      rw (all_deposits-append txid height as_ a)
        (sym (append_assoc (deposit_of n t txid height b.ours b.account) _ _))

  all_forced-append :
      (txid : Bytes) (height : ℕ) (as_ : List (ScannedAction n)) (a : ScannedAction n)
      → all_forced txid height (as_ ++ a ∷ [])
        ≡ all_forced txid height as_ ++ forced_of n t txid height a.ours a.forced
  unfolding all_forced
  all_forced-append txid height [] a = append-nil _
  all_forced-append txid height (b ∷ as_) a =
      rw (all_forced-append txid height as_ a)
        (sym (append_assoc (forced_of n t txid height b.ours b.forced) _ _))

  all_payments-append :
      (txid : Bytes) (height i : ℕ) (as_ : List (ScannedAction n)) (a : ScannedAction n)
      → all_payments txid height i (as_ ++ a ∷ [])
        ≡ all_payments txid height i as_
          ++ payment_of n t txid height (i + length as_) a.ours a.app_payment
  unfolding all_payments
  all_payments-append txid height i [] a =
      append-nil _ ∙ ap (λ k. payment_of n t txid height k a.ours a.app_payment) (omega arith)
  all_payments-append txid height i (b ∷ as_) a =
      let place : i + 1 + length as_ ≡ i + length (b ∷ as_) = omega arith in
      rw (all_payments-append txid height (i + 1) as_ a)
        (rw place (sym (append_assoc (payment_of n t txid height i b.ours b.app_payment) _ _)))

  -- A scan's lists say what its actions say, and `index` counts the actions.
  record Reports (txid : Bytes) (height : ℕ) (s : Scanned n) (index : ℕ) : Type 0 where
    deposits : s.deposits ≡ all_deposits txid height s.actions
    forced : s.forced ≡ all_forced txid height s.actions
    app_payments : s.app_payments ≡ all_payments txid height 0 s.actions
    counted : index ≡ length s.actions

  Grown-Reports :
      (txid : Bytes) (height index : ℕ) (pool : Pool) (action : t.Action) (out s : Scanned n)
      → Grown n t txid height index pool action out s
      → Reports txid height out index
      → Reports txid height s (index + 1)
  Grown-Reports txid height index pool action out s g r = record {
    deposits =
        g.deposits
        ∙ ap (λ l. l ++ deposit_of n t txid height g.new.ours g.new.account) r.deposits
        ∙ sym (
            ap (all_deposits txid height) g.actions
            ∙ all_deposits-append txid height out.actions g.new);
    forced =
        g.forced
        ∙ ap (λ l. l ++ forced_of n t txid height g.new.ours g.new.forced) r.forced
        ∙ sym (
            ap (all_forced txid height) g.actions
            ∙ all_forced-append txid height out.actions g.new);
    app_payments =
        let place : index ≡ 0 + length out.actions = omega (arith, r.counted) in
        g.app_payments
        ∙ ap (λ l. l ++ payment_of n t txid height index g.new.ours g.new.app_payment)
            r.app_payments
        ∙ ap
            (λ k.
              all_payments txid height 0 out.actions
              ++ payment_of n t txid height k g.new.ours g.new.app_payment)
            place
        ∙ sym (
            ap (all_payments txid height 0) g.actions
            ∙ all_payments-append txid height 0 out.actions g.new);
    counted = rw g.actions (omega (arith, r.counted, length-append out.actions (g.new ∷ [])));
  }

  map-append :
      (xs ys : List (ScannedAction n)) → map shown (xs ++ ys) ≡ map shown xs ++ map shown ys
  map-append [] ys = refl
  map-append (x ∷ xs) ys = ap (◌∷◌ (shown x)) (map-append xs ys)

  Grown-shown :
      (txid : Bytes) (height index : ℕ) (pool : Pool) (action : t.Action) (out s : Scanned n)
      → Grown n t txid height index pool action out s
      → map shown s.actions ≡ map shown out.actions ++ outputs_of pool (action ∷ [])
  Grown-shown txid height index pool action out s g =
      rw g.actions
        (map-append out.actions (g.new ∷ []) ∙ rw (g.same_pool, g.same_cmx, g.same_nullifier))

  -- One action for every output of the transaction, in order, Orchard before Ironwood; deposits, forced
  -- intents and application payments are exactly what those actions say.
  pub record IsReport (txid : Bytes) (height : ℕ) (raw : Bytes) (s : Scanned n) : Type 0 where
    pub tx : t.Transaction
    pub read : t.read_transaction raw ≡ some tx
    pub listed :
        map shown s.actions
        ≡ outputs_of orchard (actions_in n t (t.orchard_bundle tx))
          ++ outputs_of ironwood (actions_in n t (t.ironwood_bundle tx))
    pub deposits : s.deposits ≡ all_deposits txid height s.actions
    pub forced : s.forced ≡ all_forced txid height s.actions
    pub app_payments : s.app_payments ≡ all_payments txid height 0 s.actions

  module _ (fvk : n.ViewKey) (txid : Bytes) (height : ℕ) (attributions : Bytes → Option Bytes)
      (lenient : Bool) where
    bundle-Reports :
        (pool : Pool) (out : Scanned n) (index : ℕ) (as_ : List t.Action) {s : Scanned n} {next : ℕ}
        → scan_bundle n t fvk txid height attributions lenient pool out index as_
          ≡ some (ok (s, next))
        → Reports txid height out index
        → Reports txid height s next
          × (map shown s.actions ≡ map shown out.actions ++ outputs_of pool as_)
    unfolding scan_bundle
    bundle-Reports pool out index [] {s} {next} h r =
        let same : out ≡ s = cc h in
        let count : index ≡ next = cc h in
        (rw (← same, ← count) r, rw (← same) (sym (append-nil (map shown out.actions))))
    bundle-Reports pool out index (a ∷ as_) h r =
        let (taken, took, rest) = and_go-eq-ok _ _ h in
        let (place, moved, last) = and_go-eq-ok _ _ rest in
        let g =
          take-Grows n t fvk txid height attributions lenient out pool a index
            (t.decrypt pool fvk a) took in
        let (same, up) = next_index_moves index taken place moved in
        let step : Reports txid height place.0 place.1 =
          rw (same, up) (Grown-Reports txid height index pool a out taken g r) in
        let (done, listed) = bundle-Reports pool place.0 place.1 as_ last step in
        (
          done,
          listed
              ∙ rw
                  (
                    ap (λ u. map shown u.actions) same,
                    Grown-shown txid height index pool a out taken g,
                  )
                  (append_assoc (map shown out.actions) (outputs_of pool (a ∷ []))
                    (outputs_of pool as_)),
        )
      where
        next_index_moves :
            (i : ℕ) (taken : Scanned n) (place : Scanned n × ℕ)
            → next_index n t i taken ≡ some (ok place)
            → (place.0 ≡ taken) × (place.1 ≡ i + 1)
        next_index_moves i taken (u, j) e = ground arith

    parsed-IsReport :
        (raw : Bytes) (r : Option t.Transaction) {s : Scanned n}
        → t.read_transaction raw ≡ r
        → scan_parsed n t fvk txid height attributions lenient r ≡ some (ok s)
        → IsReport txid height raw s
    unfolding scan_parsed all_deposits all_forced all_payments
    parsed-IsReport raw none e k = absurd cc
    parsed-IsReport raw (some tx) {s} e k =
        let (first, one, rest) = and_go-eq-ok _ _ k in
        let (second, two, last) = and_go-eq-ok _ _ rest in
        let same : second.0 ≡ s = cc last in
        let empty : Reports txid height (empty_scan n) 0 = record {
          deposits = refl;
          forced = refl;
          app_payments = refl;
          counted = refl;
        } in
        let (r1, l1) = bundle-Reports orchard (empty_scan n) 0 _ one empty in
        let (r2, l2) = bundle-Reports ironwood first.0 first.1 _ two r1 in
        rw (← same) (record {
          tx = tx;
          read = e;
          listed = l2 ∙ rw l1;
          deposits = r2.deposits;
          forced = r2.forced;
          app_payments = r2.app_payments;
        })

    -- Whatever the mode and the attributions: a scan that succeeds reports one action for every output of
    -- the transaction, in order, Orchard before Ironwood; its deposits, its forced intents and its
    -- application payments are exactly what those actions say, and a payment's index is its action's
    -- place.
    pub scan_reports :
        (raw : Bytes) {s : Scanned n}
        → scan_inner n t fvk txid height attributions lenient raw ≡ some (ok s)
        → IsReport txid height raw s
    unfolding scan_inner
    scan_reports raw h = parsed-IsReport raw (t.read_transaction raw) refl h
