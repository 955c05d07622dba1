-- ===== src/Watcher/Credits.antt =====
-- What a poll credits: a numbering of its batch, and the deposits that the batch holds.
use zec_multisig.Base.{
  ℕ, ◌+◌, ◌%◌, ◌≤◌, ◌<◌, ◌≡◌, refl, sym, ap, ◌∙◌, false, some, List, [], ◌∷◌, ◌++◌, arith, Result,
  ok, err, ok_or, and_then-eq-ok, leb, inl, inr, le→leb, Option-cases, Bytes, bytes_lt,
}
use zec_multisig.Base.Sets.{ByteSet}
use zec_multisig.Watcher.Batch.{batch}
use zec_multisig.Watcher.Poll.{PollCase, idle, quiet, refused, reported, poll-PollCase}
use zec_multisig.Watcher.{
  ObservedDeposit, ChainView, Watcher, WatcherAction, attest, attest_asset, credit, Credit,
  credit_of, WatcherError, unavailable, Outcome, safe_height, sort_by, fresh_deposits,
  attest_assets, attestations, credit_all, poll, u64_mod, dedup, assets_of,
}

-- The credits among the actions, in order.
abbrev pub credits_in : List WatcherAction → List Credit
credits_in [] = []
credits_in (credit c ∷ as_) = c ∷ credits_in as_
credits_in (attest b ∷ as_) = credits_in as_
credits_in (attest_asset a b ∷ as_) = credits_in as_

abbrev pub credits_of : Result WatcherError (List WatcherAction) → List Credit
credits_of (ok as_) = credits_in as_
credits_of (err e) = []

-- The credits of a batch, numbered from an index on.
abbrev pub numbered : ℕ → List ObservedDeposit → List Credit
numbered index [] = []
numbered index (d ∷ ds) = credit_of d index ∷ numbered ((index + 1) % u64_mod) ds

pub credits_in-append :
    (xs ys : List WatcherAction) → credits_in (xs ++ ys) ≡ credits_in xs ++ credits_in ys
credits_in-append [] ys = refl
credits_in-append (credit c ∷ xs) ys = ap (◌∷◌ c) (credits_in-append xs ys)
credits_in-append (attest b ∷ xs) ys = credits_in-append xs ys
credits_in-append (attest_asset a b ∷ xs) ys = credits_in-append xs ys

pub credits_in-credit_all :
    (ds : List ObservedDeposit) (n : ℕ) (s : ByteSet)
    → credits_in (credit_all ds n s).0 ≡ numbered n ds
unfolding credit_all
credits_in-credit_all [] n s = refl
credits_in-credit_all (d ∷ ds) n s = ap (◌∷◌ (credit_of d n)) (credits_in-credit_all ds _ _)

-- Attestations of other assets hold no credit, and fail only for want of a balance.
pub credits_in-attest_assets :
    (chain : ChainView) (safe : ℕ) (bs : List Bytes) {as_ : List WatcherAction}
    → attest_assets chain safe bs ≡ ok as_
    → credits_in as_ ≡ []
unfolding attest_assets
credits_in-attest_assets chain safe [] h = ground arith
credits_in-attest_assets chain safe (b ∷ bs) h =
    let (o, p, q) = and_then-eq-ok (ok_or (chain.balance_of b safe) unavailable) _ h in
    let (rest, r, t) = and_then-eq-ok (attest_assets chain safe bs) _ q in
    let ih = credits_in-attest_assets chain safe bs r in ground (arith, ih)

pub credits_in-attestations :
    (chain : ChainView) (safe : ℕ) (ds : List ObservedDeposit) {as_ : List WatcherAction}
    → attestations chain safe ds ≡ ok as_
    → credits_in as_ ≡ []
unfolding attestations
credits_in-attestations chain safe ds h =
    let (o, p, q) = and_then-eq-ok (ok_or (chain.balance_at safe) unavailable) _ h in
    let (rest, r, t) = and_then-eq-ok (attest_assets chain safe _) _ q in
    let ih = credits_in-attest_assets chain safe _ r in ground (arith, ih)

attest_assets-err :
    (chain : ChainView) (safe : ℕ) (bs : List Bytes) (e : WatcherError)
    → attest_assets chain safe bs ≡ err e
    → e ≡ unavailable
unfolding attest_assets
attest_assets-err chain safe [] e h = cc
attest_assets-err chain safe (b ∷ bs) e h = ground (arith, attest_assets-err chain safe bs e)

attestations-err :
    (chain : ChainView) (safe : ℕ) (ds : List ObservedDeposit) (e : WatcherError)
    → attestations chain safe ds ≡ err e
    → e ≡ unavailable
unfolding attestations
attestations-err chain safe ds e h =
    ground (arith, attest_assets-err chain safe (dedup (sort_by bytes_lt (assets_of ds))) e)

refused-PollCase :
    (w : Watcher) (chain : ChainView) (e : WatcherError) (o : Outcome)
    → PollCase w chain o
    → o.1 ≡ err e
    → (o.0 ≡ w) × (e ≡ unavailable)
refused-PollCase w chain e _ (idle f) h = absurd (cc)
refused-PollCase w chain e _ (quiet safe s l q) h = absurd (cc)
refused-PollCase w chain e _ (refused safe x s l q) h =
    (refl, attestations-err chain safe _ e (q ∙ h))
refused-PollCase w chain e _ (reported safe d ds as_ s l q a) h = absurd (cc)

-- A poll that returns an error leaves the watcher as it was, and the error is `Unavailable`: no
-- height is marked scanned, no index is used and nothing is recorded as credited.
pub poll_refused :
    (w : Watcher) (chain : ChainView) {e : WatcherError}
    → (poll w chain).1 ≡ err e
    → ((poll w chain).0 ≡ w) × (e ≡ unavailable)
poll_refused w chain h = refused-PollCase w chain _ (poll w chain) (poll-PollCase w chain) h

batch_idle :
    (w : Watcher) (chain : ChainView)
    → ((safe : ℕ) → safe_height w chain.tip ≡ some safe → safe ≤ w.scanned_to)
    → batch w chain ≡ []
batch_idle w chain f = elim (Option-cases (safe_height w chain.tip)) [
  | inl e ↦ rw (e, batch)
  | inr (safe, e) ↦ rw (e, batch) (rw (le→leb safe w.scanned_to (f safe e)))
]

batch_busy :
    (w : Watcher) (chain : ChainView) (safe : ℕ)
    → safe_height w chain.tip ≡ some safe
    → w.scanned_to < safe
    → batch w chain ≡ fresh_deposits w chain safe
batch_busy w chain safe e l =
    let t : leb safe w.scanned_to ≡ false = ground arith in rw (e, batch) (rw t)

pub credits_in_reported :
    (chain : ChainView) (safe : ℕ) (ds : List ObservedDeposit) (n : ℕ) (s : ByteSet)
    {actions : List WatcherAction}
    → attestations chain safe ds ≡ ok actions
    → credits_in (actions ++ (credit_all ds n s).0) ≡ numbered n ds
credits_in_reported chain safe ds n s {actions} a =
    credits_in-append actions (credit_all ds n s).0
    ∙ rw (credits_in-attestations chain safe ds a) (credits_in-credit_all ds n s)

credits_in-PollCase :
    (w : Watcher) (chain : ChainView) (o : Outcome) (as_ : List WatcherAction)
    → PollCase w chain o
    → o.1 ≡ ok as_
    → credits_in as_ ≡ numbered w.next_index (batch w chain)
credits_in-PollCase w chain _ as_ (idle f) h = rw (batch_idle w chain f) (ground arith)
credits_in-PollCase w chain _ as_ (quiet safe s l q) h =
    rw (batch_busy w chain safe s l, q) (ground arith)
credits_in-PollCase w chain _ as_ (refused safe x s l q) h = cc
credits_in-PollCase w chain _ as_ (reported safe d ds actions s l q a) h =
    rw (batch_busy w chain safe s l, q)
      (ap credits_of (sym h) ∙ credits_in_reported chain safe (d ∷ ds) _ _ a)

-- The credits of a successful poll are its batch in its order, one for each deposit, numbered from
-- the watcher's next index on.
pub poll-credits :
    (w : Watcher) (chain : ChainView) {as_ : List WatcherAction}
    → (poll w chain).1 ≡ ok as_
    → credits_in as_ ≡ numbered w.next_index (batch w chain)
poll-credits w chain {as_} h =
    credits_in-PollCase w chain (poll w chain) as_ (poll-PollCase w chain) h
