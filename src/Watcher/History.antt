-- ===== src/Watcher/History.antt =====
-- Whole histories of a watcher: polls against whatever the chain answers each time, reorganised or
-- not, with rewinds between them.
use zec_multisig.Base.{
  ℕ, ◌≡◌, ◌≢◌, refl, ap, true, false, List, [], ◌∷◌, ◌++◌, arith, In, In-append_cases, Bool-cases,
  inl, inr, Bytes, bytes_eq_refl,
}
use zec_multisig.Base.Sets.{ByteSet, contains, insert, contains-insert}
use zec_multisig.Watcher.Batch.{batch, In-batch}
use zec_multisig.Watcher.Poll.{PollCase, idle, quiet, refused, reported, poll-PollCase}
use zec_multisig.Watcher.Credits.{credits_of, numbered, poll-credits, credits_in_reported}
use zec_multisig.Watcher.{
  ObservedDeposit, ChainView, Watcher, Credit, Outcome, credit_all, poll, rewind_to,
}

pub data Event : Type 0 where
  polls : ChainView → Event
  rewinds : ℕ → Event

-- The credits of each poll, one batch for each poll.
unfoldable pub run : Watcher → List Event → List (List Credit)
run w [] = []
run w (polls chain ∷ es) = credits_of (poll w chain).1 ∷ run (poll w chain).0 es
run w (rewinds height ∷ es) = run (rewind_to w height) es

abbrev pub concat {ℓ} : {A : Type ℓ} → List (List A) → List A
concat [] = []
concat (xs ∷ xss) = xs ++ concat xss

-- No two batches hold a credit of the same transaction.
abbrev pub Apart : List Credit → List Credit → Type 0
Apart xs ys = (c d : Credit) → In c xs → In d ys → c.external_ref ≢ d.external_ref

abbrev pub PairwiseApart : List (List Credit) → Type 0
PairwiseApart [] = Unit
PairwiseApart (b ∷ bs) = Apart b (concat bs) × PairwiseApart bs

-- What a poll does to the watcher, whichever way it returns.
record Advance (w w' : Watcher) (cs : List Credit) : Type 0 where
  fresh : (c : Credit) → In c cs → contains c.external_ref w.credited ≡ false
  kept : (k : Bytes) → contains k w.credited ≡ true → contains k w'.credited ≡ true
  recorded : (c : Credit) → In c cs → contains c.external_ref w'.credited ≡ true

credit_all-contains :
    (ds : List ObservedDeposit) (n : ℕ) (s : ByteSet) (k : Bytes)
    → contains k s ≡ true
    → contains k (credit_all ds n s).2 ≡ true
unfolding credit_all
credit_all-contains [] n s k h = h
credit_all-contains (d ∷ ds) n s k h =
    credit_all-contains ds _ (insert d.txid s) k (ground (arith, contains-insert k d.txid s))

credit_all_recorded :
    (ds : List ObservedDeposit) (n m : ℕ) (s : ByteSet) (c : Credit)
    → In c (numbered m ds)
    → contains c.external_ref (credit_all ds n s).2 ≡ true
unfolding credit_all
credit_all_recorded [] n m s c i = absurd i
credit_all_recorded (d ∷ ds) n m s c (inl e) =
    credit_all-contains ds _ (insert d.txid s) c.external_ref (
      rw (ap (λ (x : Credit). x.external_ref) e)
        (ground (arith, contains-insert d.txid d.txid s, bytes_eq_refl d.txid)))
credit_all_recorded (d ∷ ds) n m s c (inr i) = credit_all_recorded ds _ _ (insert d.txid s) c i

In-numbered :
    (ds : List ObservedDeposit) (n : ℕ) (c : Credit)
    → In c (numbered n ds)
    → (d : ObservedDeposit) × In d ds × (c.external_ref ≡ d.txid)
In-numbered [] n c i = absurd i
In-numbered (d ∷ ds) n c (inl e) = (d, inl refl, ap (λ (x : Credit). x.external_ref) e)
In-numbered (d ∷ ds) n c (inr i) = let (x, j, e) = In-numbered ds _ c i in (x, inr j, e)

batch-fresh :
    (w : Watcher) (chain : ChainView) (n : ℕ) (c : Credit)
    → In c (numbered n (batch w chain))
    → contains c.external_ref w.credited ≡ false
batch-fresh w chain n c i =
    let (d, j, e) = In-numbered (batch w chain) n c i in rw e ((In-batch w chain d).0 j).is_new

poll-Advance :
    (w : Watcher) (chain : ChainView) → Advance w (poll w chain).0 (credits_of (poll w chain).1)
poll-Advance w chain = go (poll w chain) (poll-PollCase w chain) refl
  where
    go :
        (o : Outcome) → PollCase w chain o → (poll w chain).1 ≡ o.1 → Advance w o.0 (credits_of o.1)
    go _ (idle f) h = record { fresh = λ c. absurd; kept = λ k e. e; recorded = λ c. absurd }
    go _ (quiet safe s l q) h = record {
      fresh = λ c. absurd;
      kept = λ k e. e;
      recorded = λ c. absurd;
    }
    go _ (refused safe e s l q) h = record {
      fresh = λ c. absurd;
      kept = λ k e. e;
      recorded = λ c. absurd;
    }
    go _ (reported safe d ds actions s l q a) h =
        let emitted = credits_in_reported chain safe (d ∷ ds) w.next_index w.credited a in
        record {
          fresh = λ c i. batch-fresh w chain w.next_index c (rw (poll-credits w chain h) at i);
          kept = credit_all-contains (d ∷ ds) w.next_index w.credited;
          recorded = λ c i.
              credit_all_recorded (d ∷ ds) w.next_index w.next_index w.credited c (rw emitted at i);
        }

rewind_to-credited : (w : Watcher) (h : ℕ) → (rewind_to w h).credited ≡ w.credited
unfolding rewind_to
rewind_to-credited w h = ground arith

-- No later batch credits what is already recorded.
run-fresh :
    (w : Watcher) (es : List Event) (c : Credit)
    → In c (concat (run w es))
    → contains c.external_ref w.credited ≡ false
unfolding run
run-fresh w [] c i = absurd i
run-fresh w (rewinds h ∷ es) c i = rw (← rewind_to-credited w h) (run-fresh (rewind_to w h) es c i)
run-fresh w (polls chain ∷ es) c i = elim (In-append_cases c (credits_of (poll w chain).1) _ i) [
  | inl l ↦ (poll-Advance w chain).fresh c l
  | inr r ↦ elim (Bool-cases (contains c.external_ref w.credited)) [
    | inl old ↦
        let kept = (poll-Advance w chain).kept c.external_ref old in
        absurd (cc (kept, run-fresh (poll w chain).0 es c r))
    | inr new ↦ new
  ]
]

-- Over any history of polls and rewinds, whatever the chain answers each time, no transaction is
-- credited by two different polls.
pub run-PairwiseApart : (w : Watcher) (es : List Event) → PairwiseApart (run w es)
unfolding run
run-PairwiseApart w [] = tt
run-PairwiseApart w (rewinds h ∷ es) = run-PairwiseApart (rewind_to w h) es
run-PairwiseApart w (polls chain ∷ es) = (
  λ c d i j e.
      let old = (poll-Advance w chain).recorded c i in
      let new = run-fresh (poll w chain).0 es d j in cc (old, new, e),
  run-PairwiseApart (poll w chain).0 es,
)
