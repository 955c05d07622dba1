-- ===== src/Watcher/Order.antt =====
-- The order of a poll's actions: the batch is sorted, and each attestation stands before the credits
-- that it covers.
use zec_multisig.Base.Sorting.{Sorted, sort_by, In-sort_by, sort_by-Sorted}
use zec_multisig.Base.{
  ℕ, ◌≡◌, refl, sym, ap, ◌∙◌, subst, true, false, some, List, [], ◌∷◌, ◌++◌, arith, ok, ok_or,
  and_then-eq-ok, In, Bool-cases, if◌then◌else◌, leb, ◌⊎◌, inl, inr, Bytes, bytes_lt,
  bytes_lt_irrefl, bytes_eq, bytes_eq_iff, bytes_lt_trans, bytes_lt_cotrans, Option-cases,
}
use zec_multisig.Base.Sets.{ByteSet}
use zec_multisig.Amount.{Fixed}
use zec_multisig.Watcher.Batch.{batch}
use zec_multisig.Watcher.Poll.{PollCase, idle, quiet, refused, reported, poll-PollCase}
use zec_multisig.Watcher.Credits.{
  credits_in, numbered, credits_in-attest_assets, credits_in-credit_all,
}
use zec_multisig.Watcher.{
  ObservedDeposit, ChainView, Watcher, WatcherAction, attest, attest_asset, Credit, unavailable,
  Outcome, safe_height, fresh_deposits, attest_assets, attestations, credit_all, poll, deposit_lt,
  dedup, dedup_after, assets_of,
}

bytes_lt_asym : (xs ys : Bytes) → bytes_lt xs ys ≡ true → bytes_lt ys xs ≡ false
bytes_lt_asym xs ys h = elim (Bool-cases (bytes_lt ys xs)) [
  | inl e ↦ absurd (cc (bytes_lt_trans xs ys xs h e, bytes_lt_irrefl xs))
  | inr e ↦ e
]

deposit_lt_asym : (a b : ObservedDeposit) → deposit_lt a b ≡ true → deposit_lt b a ≡ false
unfolding deposit_lt
deposit_lt_asym a b h = ground (arith, bytes_lt_asym a.txid b.txid)

deposit_lt_cotrans :
    (a b c : ObservedDeposit)
    → deposit_lt b a ≡ false
    → deposit_lt c b ≡ false
    → deposit_lt c a ≡ false
unfolding deposit_lt
deposit_lt_cotrans a b c h k = ground (arith, bytes_lt_cotrans a.txid b.txid c.txid)

-- The deposits of a batch stand in the order of height and transaction.
pub batch-Sorted : (w : Watcher) (chain : ChainView) → Sorted deposit_lt (batch w chain)
unfolding fresh_deposits
batch-Sorted w chain = elim (Option-cases (safe_height w chain.tip)) [
  | inl e ↦ rw (e, batch) tt
  | inr (safe, e) ↦ elim (Bool-cases (leb safe w.scanned_to)) [
    | inl t ↦ rw (e, batch) (rw t tt)
    | inr t ↦ rw (e, batch) (rw t (sort_by-Sorted deposit_lt deposit_lt_asym deposit_lt_cotrans _))
  ]
]

In-dedup_after : (a b : Bytes) (bs : List Bytes) → In a (b ∷ bs) → In a (b ∷ dedup_after b bs)
unfolding dedup_after
In-dedup_after a b bs (inl e) = inl e
In-dedup_after a b [] (inr i) = absurd i
In-dedup_after a b (c ∷ cs) (inr i) = elim (Bool-cases (bytes_eq b c)) [
  | inl e ↦
      let same = (bytes_eq_iff b c).0 e in
      rw (e, if◌then◌else◌) (In-dedup_after a b cs (elim i [ inl q ↦ inl (cc) | inr j ↦ inr j ]))
  | inr e ↦ rw (e, if◌then◌else◌) (inr (In-dedup_after a c cs i))
]

In-dedup : (a : Bytes) (bs : List Bytes) → In a bs → In a (dedup bs)
unfolding dedup
In-dedup a [] i = i
In-dedup a (b ∷ bs) i = In-dedup_after a b bs i

In-assets_of :
    (d : ObservedDeposit) (a : Bytes) (ds : List ObservedDeposit)
    → In d ds
    → d.asset ≡ some a
    → In a (assets_of ds)
unfolding assets_of
In-assets_of d a [] i e = absurd i
In-assets_of d a (x ∷ ds) (inl q) e =
    let known : x.asset ≡ some a = ap (λ (y : ObservedDeposit). y.asset) (sym q) ∙ e in
    rw (known, assets_of) (inl refl)
In-assets_of d a (x ∷ ds) (inr i) e = elim (Option-cases x.asset) [
  | inl n ↦ rw (n, assets_of) (In-assets_of d a ds i e)
  | inr (b, s) ↦ rw (s, assets_of) (inr (In-assets_of d a ds i e))
]

-- An attestation of each listed asset, with the balance that the chain gives.
attest_assets-In :
    (chain : ChainView) (safe : ℕ) (bs : List Bytes) (as_ : List WatcherAction) (a : Bytes)
    → attest_assets chain safe bs ≡ ok as_
    → In a bs
    → (b : Fixed) × In (attest_asset a b) as_ × (chain.balance_of a safe ≡ some b)
unfolding attest_assets
attest_assets-In chain safe [] as_ a h i = absurd i
attest_assets-In chain safe (c ∷ bs) as_ a h i =
    let (o, p, q) = and_then-eq-ok (ok_or (chain.balance_of c safe) unavailable) _ h in
    let (rest, r, t) = and_then-eq-ok (attest_assets chain safe bs) _ q in
    let same : as_ ≡ attest_asset c o ∷ rest = cc t in
    elim i [
      | inl e ↦
          let known : chain.balance_of c safe ≡ some o = ground arith in
          (o, rw same (inl (cc)), ap (λ k. chain.balance_of k safe) e ∙ known)
      | inr j ↦ let (b, k, s) = attest_assets-In chain safe bs rest a r j in (b, rw same (inr k), s)
    ]

-- What a non-empty answer of a poll looks like.
pub record Attested (chain : ChainView) (safe : ℕ) (as_ : List WatcherAction) : Type 0 where
  pub observed : Fixed
  pub others : List WatcherAction
  pub credits : List WatcherAction
  pub shape : as_ ≡ attest observed ∷ others ++ credits
  pub read : chain.balance_at safe ≡ some observed
  pub no_early_credit : credits_in others ≡ []
  pub covered :
      (c : Credit) (a : Bytes)
      → In c (credits_in credits)
      → c.asset ≡ some a
      → (b : Fixed) × In (attest_asset a b) others × (chain.balance_of a safe ≡ some b)

In-numbered_asset :
    (ds : List ObservedDeposit) (n : ℕ) (c : Credit)
    → In c (numbered n ds)
    → (d : ObservedDeposit) × In d ds × (c.asset ≡ d.asset)
In-numbered_asset [] n c i = absurd i
In-numbered_asset (d ∷ ds) n c (inl e) = (d, inl refl, ap (λ (x : Credit). x.asset) e)
In-numbered_asset (d ∷ ds) n c (inr i) = let (x, j, e) = In-numbered_asset ds _ c i in (x, inr j, e)

attestations-Attested :
    (chain : ChainView) (safe : ℕ) (ds : List ObservedDeposit) (n : ℕ) (s : ByteSet)
    (actions : List WatcherAction)
    → attestations chain safe ds ≡ ok actions
    → Attested chain safe (actions ++ (credit_all ds n s).0)
unfolding attestations
attestations-Attested chain safe ds n s actions h =
    let bs = dedup (sort_by bytes_lt (assets_of ds)) in
    let (o, p, q) = and_then-eq-ok (ok_or (chain.balance_at safe) unavailable) _ h in
    let (others, r, t) = and_then-eq-ok (attest_assets chain safe bs) _ q in
    let same : actions ≡ attest o ∷ others = cc t in
    record {
      observed = o;
      others = others;
      credits = (credit_all ds n s).0;
      shape = ap (λ l. l ++ (credit_all ds n s).0) same;
      read = ground arith;
      no_early_credit = credits_in-attest_assets chain safe bs r;
      covered = λ c a i e.
          let (d, j, k) = In-numbered_asset ds n c (rw (credits_in-credit_all ds n s) at i) in
          let listed =
            (In-sort_by bytes_lt a (assets_of ds)).1 (In-assets_of d a ds j (cc (e, k))) in
          attest_assets-In chain safe bs others a r (In-dedup a _ listed);
    }

-- A successful poll that says anything first attests the balance at its new height; then come the
-- attestations of other assets, with no credit among them; and each asset that some credit names is
-- attested there with its balance at that height.
pub poll-Attested :
    (w : Watcher) (chain : ChainView) {as_ : List WatcherAction}
    → (poll w chain).1 ≡ ok as_
    → (as_ ≡ []) ⊎ Attested chain (poll w chain).0.scanned_to as_
poll-Attested w chain {as_} h = go (poll w chain) (poll-PollCase w chain) h
  where
    go :
        (o : Outcome)
        → PollCase w chain o
        → o.1 ≡ ok as_
        → (as_ ≡ []) ⊎ Attested chain o.0.scanned_to as_
    go _ (idle f) e = inl (cc)
    go _ (quiet safe s l q) e = inl (cc)
    go _ (refused safe x s l q) e = absurd (cc)
    go _ (reported safe d ds actions s l q a) e = inr (
        subst (Attested chain safe) (cc e)
          (attestations-Attested chain safe (d ∷ ds) w.next_index w.credited actions a))
