-- ===== src/Watcher/Audit.antt =====
-- What `audit` decides.
use zec_multisig.Base.{
  ℕ, ◌+◌, ◌-◌, ◌≤◌, ◌≡◌, refl, ap, true, false, List, [], ◌∷◌, arith, ok, err, In, Bool-cases,
  if◌then◌else◌, ◌⊎◌, inl, inr, ◌↔◌, Bytes, bytes_eq, bytes_eq_iff, Result,
}
use zec_multisig.Base.Sets.{ByteSet, contains, insert, contains-insert}
use zec_multisig.Watcher.Batch.{In-heights_from}
use zec_multisig.Watcher.{
  ObservedDeposit, ChainView, Watcher, WatcherError, unavailable, credited_deposit_reorged_out,
  note_seen, seen_between, check_seen, audit, heights,
}

-- The transaction of some deposit that the chain shows at one of these heights.
abbrev pub Shown : ChainView → List ℕ → Bytes → Type 0
Shown chain hs k =
    (h : ℕ) × (d : ObservedDeposit) × In h hs × In d (chain.deposits_at h) × (k ≡ d.txid)

contains-note_seen :
    (ds : List ObservedDeposit) (seen : ByteSet) (k : Bytes)
    → (contains k (note_seen ds seen) ≡ true)
      ↔ ((contains k seen ≡ true) ⊎ ((d : ObservedDeposit) × In d ds × (k ≡ d.txid)))
unfolding note_seen
contains-note_seen [] seen k = (λ h. inl h, elim [ inl h ↦ h | inr (d, i, e) ↦ absurd i ])
contains-note_seen (d ∷ ds) seen k =
    let ih = contains-note_seen ds (insert d.txid seen) k in
    let one = contains-insert k d.txid seen in
    (
      λ h. elim (ih.0 h) [
        | inl c ↦ elim (Bool-cases (bytes_eq k d.txid)) [
          | inl e ↦ inr (d, inl refl, (bytes_eq_iff k d.txid).0 e)
          | inr e ↦ inl (ground arith)
        ]
        | inr (x, i, e) ↦ inr (x, inr i, e)
      ],
      elim [
        | inl c ↦ ih.1 (inl (ground arith))
        | inr (x, inl q, e) ↦
            let t = (bytes_eq_iff k d.txid).1 (cc (e, q)) in ih.1 (inl (ground arith))
        | inr (x, inr i, e) ↦ ih.1 (inr (x, i, e))
      ],
    )

contains-seen_between :
    (chain : ChainView) (hs : List ℕ) (seen : ByteSet) (k : Bytes)
    → (contains k (seen_between chain hs seen) ≡ true)
      ↔ ((contains k seen ≡ true) ⊎ Shown chain hs k)
unfolding seen_between
contains-seen_between chain [] seen k =
    (λ h. inl h, elim [ inl h ↦ h | inr (h, d, i, j, e) ↦ absurd i ])
contains-seen_between chain (h ∷ hs) seen k =
    let ih = contains-seen_between chain hs (note_seen (chain.deposits_at h) seen) k in
    let here = contains-note_seen (chain.deposits_at h) seen k in
    (
      λ c. elim (ih.0 c) [
        | inl l ↦ elim (here.0 l) [ inl old ↦ inl old | inr (d, j, e) ↦ inr (h, d, inl refl, j, e) ]
        | inr (g, d, i, j, e) ↦ inr (g, d, inr i, j, e)
      ],
      elim [
        | inl old ↦ ih.1 (inl (here.1 (inl old)))
        | inr (g, d, inl q, j, e) ↦
            ih.1 (inl (here.1 (inr (d, rw (ap chain.deposits_at q) at j, e))))
        | inr (g, d, inr i, j, e) ↦ ih.1 (inr (g, d, i, j, e))
      ],
    )

-- The audit passes only if every credited transaction is shown, and else names the first, in the
-- set's order, that is not.
Verdict : ByteSet → ByteSet → Result WatcherError (Unit {0}) → Type 0
Verdict seen credited (ok _) = (k : Bytes) → In k credited → contains k seen ≡ true
Verdict seen credited (err unavailable) = ⊥
Verdict seen credited (err (credited_deposit_reorged_out k)) =
    In k credited × (contains k seen ≡ false)

check_seen-Verdict : (seen credited : ByteSet) → Verdict seen credited (check_seen seen credited)
unfolding check_seen Verdict
check_seen-Verdict seen [] = λ k i. absurd i
check_seen-Verdict seen (x ∷ xs) = elim (Bool-cases (contains x seen)) [
  | inl e ↦ rw (e, if◌then◌else◌) (go (check_seen seen xs) (check_seen-Verdict seen xs) e)
  | inr e ↦ rw (e, if◌then◌else◌) (inl refl, e)
]
  where
    go :
        (r : Result WatcherError (Unit {0}))
        → Verdict seen xs r
        → contains x seen ≡ true
        → Verdict seen (x ∷ xs) r
    go (ok _) v e = λ k. elim [ inl q ↦ rw q e | inr i ↦ v k i ]
    go (err unavailable) v e = v
    go (err (credited_deposit_reorged_out k)) v e = (inr v.0, v.1)

-- A deposit of the transaction stands on the chain between the two heights.
abbrev pub ShownBetween : ChainView → ℕ → ℕ → Bytes → Type 0
ShownBetween chain lo hi k =
    (h : ℕ) × (d : ObservedDeposit) × (lo ≤ h)
    × (h ≤ hi)
    × In d (chain.deposits_at h)
    × (k ≡ d.txid)

contains_shown :
    (chain : ChainView) (lo hi : ℕ) (k : Bytes)
    → (contains k (seen_between chain (heights lo hi) []) ≡ true) ↔ ShownBetween chain lo hi k
unfolding contains
contains_shown chain lo hi k =
    let both = contains-seen_between chain (heights lo hi) [] k in
    (
      λ c. elim (both.0 c) [
        | inl no_key ↦ absurd (cc)
        | inr (h, d, i, j, e) ↦
            let r = (In-heights_from h lo (hi + 1 - lo)).0 i in (h, d, r.0, omega arith, j, e)
      ],
      λ s.
          let (h, d, l, u, j, e) = s in
          both.1
            (inr (h, d, (In-heights_from h lo (hi + 1 - lo)).1 (omega arith, omega arith), j, e)),
    )

-- Both answers of the audit.
audit_verdict :
    (w : Watcher) (chain : ChainView) (lo hi : ℕ)
    → ((audit w chain lo hi ≡ ok tt) ↔ ((k : Bytes) → In k w.credited → ShownBetween chain lo hi k))
      × ((e : WatcherError)
          → audit w chain lo hi ≡ err e
          → (k : Bytes) × (e ≡ credited_deposit_reorged_out k)
            × In k w.credited
            × ¬ ShownBetween chain lo hi k)
unfolding audit Verdict
audit_verdict w chain lo hi = go (check_seen seen w.credited) (check_seen-Verdict seen w.credited)
  where
    seen : ByteSet
    seen = seen_between chain (heights lo hi) []

    go :
        (r : Result WatcherError (Unit {0}))
        → Verdict seen w.credited r
        → ((r ≡ ok tt) ↔ ((k : Bytes) → In k w.credited → ShownBetween chain lo hi k))
          × ((e : WatcherError)
              → r ≡ err e
              → (k : Bytes) × (e ≡ credited_deposit_reorged_out k)
                × In k w.credited
                × ¬ ShownBetween chain lo hi k)
    go (ok u) v =
        ((λ _ k i. (contains_shown chain lo hi k).0 (v k i), λ _. refl), λ e h. absurd (cc))
    go (err unavailable) v = absurd v
    go (err (credited_deposit_reorged_out k)) v =
        let lost : ¬ ShownBetween chain lo hi k =
          λ s. cc (v.1, (contains_shown chain lo hi k).1 s) in
        ((λ h. absurd (cc), λ f. absurd (lost (f k v.0))), λ e h. (k, cc, v.0, lost))

-- The audit passes exactly when each credited transaction stands on the chain between the two
-- heights.
pub audit_passes :
    (w : Watcher) (chain : ChainView) (lo hi : ℕ)
    → (audit w chain lo hi ≡ ok tt) ↔ ((k : Bytes) → In k w.credited → ShownBetween chain lo hi k)
audit_passes w chain lo hi = (audit_verdict w chain lo hi).0

-- An audit that fails names a credited transaction that does not stand on the chain between the two
-- heights.
pub audit_blames :
    (w : Watcher) (chain : ChainView) (lo hi : ℕ) {e : WatcherError}
    → audit w chain lo hi ≡ err e
    → (k : Bytes) × (e ≡ credited_deposit_reorged_out k)
      × In k w.credited
      × ¬ ShownBetween chain lo hi k
audit_blames w chain lo hi {e} h = (audit_verdict w chain lo hi).1 e h
