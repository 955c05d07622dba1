-- ===== src/Watcher/Batch.antt =====
-- The batch of a poll: which deposits it holds.
use zec_multisig.Base.Sorting.{In-sort_by}
use zec_multisig.Base.{
  ℕ, zero, suc, ◌+◌, ◌-◌, ◌≤◌, ◌<◌, ◌≡◌, ◌≢◌, refl, true, false, Option, none, some, List, [], ◌∷◌,
  arith, In, In-append_left, In-append_right, In-append_cases, In-filter, In-filter_of, Bool-cases,
  if◌then◌else◌, leb, inl, inr, ◌↔◌, filter, leb→le, zeros, bytes_eq_iff,
}
use zec_multisig.Base.Sets.{ByteSet, contains}
use zec_multisig.Amount.{is_positive}
use zec_multisig.Watcher.{
  ObservedDeposit, ChainView, Watcher, safe_height, heights_from, heights, is_fresh, collect_fresh,
  fresh_deposits, deposit_lt,
}

-- The deposits that a poll reports: those between the watcher's progress and the safe height.
abbrev pub batch : Watcher → ChainView → List ObservedDeposit
batch w chain = elim (safe_height w chain.tip) [
  | none ↦ []
  | some safe ↦ if leb safe w.scanned_to then [] else fresh_deposits w chain safe
]

-- A deposit that ought to be reported now: mined above the watcher's progress, buried deep enough,
-- not credited before, of a positive amount, and to somebody.
pub record Reportable (w : Watcher) (chain : ChainView) (d : ObservedDeposit) : Type 0 where
  pub mined_at : ℕ
  pub above : w.scanned_to < mined_at
  pub buried : mined_at + (w.confirmations - 1) ≤ chain.tip
  pub seen : In d (chain.deposits_at mined_at)
  pub is_new : contains d.txid w.credited ≡ false
  pub positive : is_positive d.amount ≡ true
  pub somebody : d.account ≢ zeros 32

-- The safe height is the highest that has `confirmations` blocks from it to the tip.
pub safe_height-some :
    (w : Watcher) (tip safe : ℕ)
    → safe_height w tip ≡ some safe
    → (safe + (w.confirmations - 1) ≡ tip) × (0 < safe)
unfolding safe_height
safe_height-some w tip safe h = ground arith

pub safe_height-none :
    (w : Watcher) (tip h : ℕ) → safe_height w tip ≡ none → 0 < h → tip < h + (w.confirmations - 1)
unfolding safe_height
safe_height-none w tip h e p = ground arith

pub In-heights_from :
    (h lo count : ℕ) → In h (heights_from lo count) ↔ ((lo ≤ h) × (h < lo + count))
In-heights_from h lo zero = (λ m. absurd m, λ b. omega arith)
In-heights_from h lo (suc count) =
    let ih = In-heights_from h (lo + 1) count in
    (
      elim [
        | inl e ↦ (omega arith, omega arith)
        | inr m ↦ let b = ih.0 m in (omega arith, omega arith)
      ],
      λ b. elim (Bool-cases (leb h lo)) [
        | inl e ↦ inl (ground arith)
        | inr e ↦ inr (ih.1 (ground arith, ground arith))
      ],
    )

module _ (credited : ByteSet) (chain : ChainView) (d : ObservedDeposit) where
  In-collect_fresh :
      (hs : List ℕ)
      → In d (collect_fresh credited chain hs)
      → (h : ℕ) × In h hs × In d (chain.deposits_at h) × (is_fresh credited d ≡ true)
  unfolding collect_fresh
  In-collect_fresh [] m = absurd m
  In-collect_fresh (h ∷ hs) m = elim (In-append_cases d (filter _ (chain.deposits_at h)) _ m) [
    | inl l ↦ let r = In-filter d _ (chain.deposits_at h) l in (h, inl refl, r.0, r.1)
    | inr r ↦ let (k, i, s, f) = In-collect_fresh hs r in (k, inr i, s, f)
  ]

  In-collect_fresh_of :
      (h : ℕ) (hs : List ℕ)
      → In h hs
      → In d (chain.deposits_at h)
      → is_fresh credited d ≡ true
      → In d (collect_fresh credited chain hs)
  unfolding collect_fresh
  In-collect_fresh_of h [] i s f = absurd i
  In-collect_fresh_of h (k ∷ hs) (inl e) s f =
      In-append_left d (filter (is_fresh credited) (chain.deposits_at k)) _
        (In-filter_of d _ (chain.deposits_at k) (rw e at s) f)
  In-collect_fresh_of h (k ∷ hs) (inr i) s f =
      In-append_right d (filter _ (chain.deposits_at k)) _ (In-collect_fresh_of h hs i s f)

  is_fresh_iff : (is_fresh credited d ≡ true) ↔ (
      (contains d.txid credited ≡ false) × (is_positive d.amount ≡ true) × (d.account ≢ zeros 32))
  unfolding is_fresh
  is_fresh_iff = ground (arith, bytes_eq_iff d.account (zeros 32))

module _ (w : Watcher) (chain : ChainView) (d : ObservedDeposit) (safe : ℕ) where
  In-fresh_deposits :
      w.scanned_to < safe
      → safe + (w.confirmations - 1) ≡ chain.tip
      → In d (fresh_deposits w chain safe) ↔ Reportable w chain d
  unfolding fresh_deposits
  In-fresh_deposits l t =
      let hs = heights (w.scanned_to + 1) safe in
      let sorted = In-sort_by deposit_lt d (collect_fresh w.credited chain hs) in
      let fresh = is_fresh_iff w.credited chain d in
      (
        λ m.
            let (h, i, s, f) = In-collect_fresh w.credited chain d hs (sorted.0 m) in
            let range = (In-heights_from h (w.scanned_to + 1) _).0 i in
            let (new, positive, somebody) = fresh.0 f in
            record {
              mined_at = h;
              above = omega arith;
              buried = omega arith;
              seen = s;
              is_new = new;
              positive = positive;
              somebody = somebody;
            },
        λ r.
            let i =
              (In-heights_from r.mined_at (w.scanned_to + 1) (safe + 1 - (w.scanned_to + 1))).1
                (omega arith, omega arith) in
            sorted.1 (
              In-collect_fresh_of w.credited chain d r.mined_at hs i r.seen
                (fresh.1 (r.is_new, r.positive, r.somebody))),
      )

-- The batch of a poll holds exactly the deposits that ought to be reported now: none is missed, and
-- nothing else is let in.
pub In-batch :
    (w : Watcher) (chain : ChainView) (d : ObservedDeposit)
    → In d (batch w chain) ↔ Reportable w chain d
In-batch w chain d = go (safe_height w chain.tip) refl
  where
    go : (o : Option ℕ) → safe_height w chain.tip ≡ o → In d (batch w chain) ↔ Reportable w chain d
    go none q =
        rw (q, batch)
          (
            λ m. absurd m,
            λ r.
                let far = safe_height-none w chain.tip r.mined_at q (omega arith) in
                absurd (omega arith),
          )
    go (some safe) q =
        let (tip, first) = safe_height-some w chain.tip safe q in
        elim (Bool-cases (leb safe w.scanned_to)) [
          | inl t ↦
              rw (q, batch)
                (rw (t, if◌then◌else◌)
                  (
                    λ m. absurd m,
                    λ r. let late = leb→le safe w.scanned_to t in absurd (omega arith),
                  ))
          | inr t ↦
              rw (q, batch)
                (rw (t, if◌then◌else◌) (In-fresh_deposits w chain d safe (ground arith) tip))
        ]
