-- ===== src/Watcher/Indices.antt =====
-- The indices that a history of polls hands out.
use zec_multisig.Base.{
  ℕ, zero, suc, ◌+◌, ◌%◌, ◌≤◌, ◌≡◌, refl, sym, ap, ◌∙◌, List, [], ◌∷◌, ◌++◌, arith, length,
  length-append, map,
}
use mathlib.Core.List.{map-append}
use zec_multisig.Base.Sets.{ByteSet, insert}
use zec_multisig.Watcher.Poll.{PollCase, idle, quiet, refused, reported, poll-PollCase}
use zec_multisig.Watcher.Credits.{credits_of, numbered, credits_in_reported}
use zec_multisig.Watcher.History.{Event, polls, rewinds, run, concat}
use zec_multisig.Watcher.{
  ObservedDeposit, ChainView, Watcher, Credit, Outcome, heights_from, credit_all, poll, u64_mod,
  rewind_to,
}

abbrev index_of : Credit → ℕ
index_of c = c.index

-- `count` steps of the wrapping counter.
indices_from : ℕ → ℕ → List ℕ
indices_from n zero = []
indices_from n (suc count) = n ∷ indices_from ((n + 1) % u64_mod) count

index_after : ℕ → ℕ → ℕ
index_after n zero = n
index_after n (suc count) = index_after ((n + 1) % u64_mod) count

indices_from-add :
    (n j k : ℕ) → indices_from n (j + k) ≡ indices_from n j ++ indices_from (index_after n j) k
unfolding indices_from index_after
indices_from-add n zero k = ap (indices_from n) (omega arith)
indices_from-add n (suc j) k =
    let e : suc j + k ≡ suc (j + k) = omega arith in
    rw e (ap (◌∷◌ n) (indices_from-add ((n + 1) % u64_mod) j k))

indices-numbered :
    (n : ℕ) (ds : List ObservedDeposit)
    → map index_of (numbered n ds) ≡ indices_from n (length (numbered n ds))
unfolding indices_from
indices-numbered n [] = refl
indices-numbered n (d ∷ ds) = ap (◌∷◌ n) (indices-numbered ((n + 1) % u64_mod) ds)

next-credit_all :
    (ds : List ObservedDeposit) (n : ℕ) (s : ByteSet)
    → (credit_all ds n s).1 ≡ index_after n (length (numbered n ds))
unfolding credit_all index_after
next-credit_all [] n s = refl
next-credit_all (d ∷ ds) n s = next-credit_all ds _ (insert d.txid s)

poll_indices :
    (w : Watcher) (chain : ChainView)
    → let cs = credits_of (poll w chain).1 in
      (map index_of cs ≡ indices_from w.next_index (length cs))
      × ((poll w chain).0.next_index ≡ index_after w.next_index (length cs))
unfolding indices_from index_after
poll_indices w chain = go (poll w chain) (poll-PollCase w chain)
  where
    go :
        (o : Outcome)
        → PollCase w chain o
        → (map index_of (credits_of o.1) ≡ indices_from w.next_index (length (credits_of o.1)))
          × (o.0.next_index ≡ index_after w.next_index (length (credits_of o.1)))
    go _ (idle f) = (refl, refl)
    go _ (quiet safe s l q) = (refl, refl)
    go _ (refused safe e s l q) = (refl, refl)
    go _ (reported safe d ds actions s l q a) =
        let emitted = credits_in_reported chain safe (d ∷ ds) w.next_index w.credited a in
        rw emitted
          (indices-numbered w.next_index (d ∷ ds), next-credit_all (d ∷ ds) w.next_index w.credited)

rewind_to-next_index : (w : Watcher) (h : ℕ) → (rewind_to w h).next_index ≡ w.next_index
unfolding rewind_to
rewind_to-next_index w h = ground arith

run_indices :
    (w : Watcher) (es : List Event)
    → map index_of (concat (run w es)) ≡ indices_from w.next_index (length (concat (run w es)))
unfolding run indices_from
run_indices w [] = refl
run_indices w (rewinds h ∷ es) =
    run_indices (rewind_to w h) es
    ∙ ap (λ n. indices_from n (length (concat (run (rewind_to w h) es)))) (rewind_to-next_index w h)
run_indices w (polls chain ∷ es) =
    let cs = credits_of (poll w chain).1 in
    let later = concat (run (poll w chain).0 es) in
    let (here, next) = poll_indices w chain in
    map-append index_of cs later
    ∙ rw (here, run_indices (poll w chain).0 es, next, length-append cs later)
        (sym (indices_from-add w.next_index (length cs) (length later)))

indices_from-heights_from :
    (n count : ℕ) → n + count ≤ u64_mod → indices_from n count ≡ heights_from n count
unfolding indices_from
indices_from-heights_from n zero h = refl
indices_from-heights_from n (suc zero) h = refl
indices_from-heights_from n (suc (suc count)) h =
    let e : (n + 1) % u64_mod ≡ n + 1 = omega arith in
    rw e (ap (◌∷◌ n) (indices_from-heights_from (n + 1) (suc count) (omega arith)))

-- Over any history of polls and rewinds the credits, in the order in which they are emitted, carry
-- the consecutive indices from the watcher's next index on: no gap and no repeat, as long as the
-- indices fit in 64 bits.
pub run_sequential :
    (w : Watcher) (es : List Event)
    → w.next_index + length (concat (run w es)) ≤ u64_mod
    → map (λ (c : Credit). c.index) (concat (run w es))
      ≡ heights_from w.next_index (length (concat (run w es)))
run_sequential w es h = run_indices w es ∙ indices_from-heights_from w.next_index _ h
