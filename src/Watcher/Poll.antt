-- ===== src/Watcher/Poll.antt =====
-- The ways in which `poll` returns, and what the batch of a poll holds.
use zec_multisig.Base.{
  ℕ, ◌≤◌, ◌<◌, ◌≡◌, refl, Option, none, some, List, [], ◌∷◌, ◌++◌, arith, Result, ok, err,
  Bool-cases, leb, inl, inr, leb→le,
}
use zec_multisig.Watcher.{
  ObservedDeposit, ChainView, Watcher, WatcherAction, WatcherError, Outcome, safe_height,
  fresh_deposits, attestations, credit_all, report, poll,
}

-- Every way in which a poll returns, with what led there.
pub data PollCase (w : Watcher) (chain : ChainView) : Outcome → Type 0 where
  idle :
      ((safe : ℕ) → safe_height w chain.tip ≡ some safe → safe ≤ w.scanned_to)
      → PollCase w chain (w, ok [])
  quiet :
      (safe : ℕ)
      → safe_height w chain.tip ≡ some safe
      → w.scanned_to < safe
      → fresh_deposits w chain safe ≡ []
      → PollCase w chain (record w { scanned_to = safe }, ok [])
  refused :
      (safe : ℕ) (e : WatcherError)
      → safe_height w chain.tip ≡ some safe
      → w.scanned_to < safe
      → attestations chain safe (fresh_deposits w chain safe) ≡ err e
      → PollCase w chain (w, err e)
  reported :
      (safe : ℕ) (d : ObservedDeposit) (ds : List ObservedDeposit) (actions : List WatcherAction)
      → safe_height w chain.tip ≡ some safe
      → w.scanned_to < safe
      → fresh_deposits w chain safe ≡ d ∷ ds
      → attestations chain safe (d ∷ ds) ≡ ok actions
      → PollCase w chain (
        record w {
          next_index = (credit_all (d ∷ ds) w.next_index w.credited).1;
          credited = (credit_all (d ∷ ds) w.next_index w.credited).2;
          scanned_to = safe;
        },
        ok (actions ++ (credit_all (d ∷ ds) w.next_index w.credited).0),
      )

report-PollCase :
    (w : Watcher) (chain : ChainView) (safe : ℕ) (fresh : List ObservedDeposit)
    → safe_height w chain.tip ≡ some safe
    → w.scanned_to < safe
    → fresh_deposits w chain safe ≡ fresh
    → PollCase w chain (report w chain safe fresh)
unfolding report
report-PollCase w chain safe [] s l e = quiet safe s l e
report-PollCase w chain safe (d ∷ ds) s l e = go (attestations chain safe (d ∷ ds)) refl
  where
    go :
        (r : Result WatcherError (List WatcherAction))
        → attestations chain safe (d ∷ ds) ≡ r
        → PollCase w chain (report w chain safe (d ∷ ds))
    go (ok actions) q = rw (q, report) (reported safe d ds actions s l e q)
    go (err x) q = rw (q, report) (refused safe x s l (rw e q))

pub poll-PollCase : (w : Watcher) (chain : ChainView) → PollCase w chain (poll w chain)
unfolding poll
poll-PollCase w chain = go (safe_height w chain.tip) refl
  where
    go : (o : Option ℕ) → safe_height w chain.tip ≡ o → PollCase w chain (poll w chain)
    go none q = rw (q, poll) (idle (λ safe s. cc))
    go (some safe) q = elim (Bool-cases (leb safe w.scanned_to)) [
      | inl t ↦ rw (q, poll) (rw t (idle (λ h s. ground (arith, leb→le safe w.scanned_to t))))
      | inr t ↦ rw (q, poll) (rw t (report-PollCase w chain safe _ q (ground arith) refl))
    ]
