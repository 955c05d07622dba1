-- ===== src/Examples/Watcher.antt =====
-- A chain of six blocks with three deposits, polled with three confirmations.
use zec_multisig.Base.Sorting.{insert_by, sort_by}
use zec_multisig.Base.{
  ℕ, ◌≡◌, refl, ◌↔◌, ◌⊎◌, false, List, [], ◌∷◌, Option, none, some, ok, err, Bytes, replicate, ◌==◌,
  if◌then◌else◌, In, length, map, arith, bytes_eq, bytes_lt,
}
use zec_multisig.Base.Int.{pos}
use zec_multisig.Base.Sets.{contains, insert}
use zec_multisig.Amount.{Fixed, is_positive}
use zec_multisig.Watcher.{
  ObservedDeposit, ChainView, Watcher, WatcherAction, attest, credit, Credit, credit_of,
  unavailable, credited_deposit_reorged_out, poll, audit, safe_height, heights_from, is_fresh,
  collect_fresh, deposit_lt, fresh_deposits, assets_of, dedup, attest_assets, attestations,
  credit_all, report, note_seen, seen_between, check_seen, rewind_to,
}
use zec_multisig.Watcher.Batch.{batch, Reportable, In-batch}
use zec_multisig.Watcher.Credits.{credits_in, numbered, poll-credits, poll_refused}
use zec_multisig.Watcher.History.{
  Event, polls, rewinds, run, concat, PairwiseApart, run-PairwiseApart,
}
use zec_multisig.Watcher.Indices.{run_sequential}
use zec_multisig.Watcher.Order.{Attested, poll-Attested}
use zec_multisig.Watcher.Audit.{ShownBetween, audit_passes, audit_blames}

abbrev deposit : ℕ → ℕ → ℕ → ObservedDeposit
deposit tx height units = record {
  txid = replicate 32 tx;
  account = replicate 32 7;
  amount = pos units;
  height = height;
  asset = none;
}

-- The second transaction comes first at height three, and one deposit is of nothing.
abbrev deposits : ℕ → List ObservedDeposit
deposits h =
    if h == 3
    then deposit 9 3 20 ∷ deposit 4 3 10 ∷ deposit 5 3 0 ∷ []
    else if h == 6
    then deposit 1 6 30 ∷ []
    else []

abbrev chain_at : ℕ → Option Fixed → ChainView
chain_at tip balance = record {
  tip = tip;
  deposits_at = deposits;
  balance_at = λ _. balance;
  failed = false;
  balance_of = λ _ _. none;
}

abbrev start : Watcher
start = record { confirmations = 3; scanned_to = 0; credited = []; next_index = 5 }

abbrev first_batch : List ObservedDeposit
first_batch = deposit 4 3 10 ∷ deposit 9 3 20 ∷ []

abbrev first_actions : List WatcherAction
first_actions =
    attest (pos 30)
    ∷ credit (credit_of (deposit 4 3 10) 5)
    ∷ credit (credit_of (deposit 9 3 20) 6)
    ∷ []

poll_first : (poll start (chain_at 6 (some (pos 30)))).1 ≡ ok first_actions
unfolding poll report credit_all attestations attest_assets fresh_deposits collect_fresh is_fresh
    is_positive safe_height contains bytes_eq sort_by insert_by deposit_lt bytes_lt assets_of dedup
    insert
poll_first = refl

poll_unanswered : (poll start (chain_at 6 none)).1 ≡ err unavailable
unfolding poll report attestations fresh_deposits collect_fresh is_fresh is_positive safe_height
    contains bytes_eq sort_by insert_by deposit_lt bytes_lt
poll_unanswered = refl

poll_refused_example : ((poll start (chain_at 6 none)).0 ≡ start) × (unavailable ≡ unavailable)
poll_refused_example = poll_refused start (chain_at 6 none) poll_unanswered

poll-credits_example :
    credits_in first_actions ≡ numbered 5 (batch start (chain_at 6 (some (pos 30))))
poll-credits_example = poll-credits start (chain_at 6 (some (pos 30))) poll_first

poll-Attested_example :
    (first_actions ≡ [])
    ⊎ Attested
        (chain_at 6 (some (pos 30)))
        (poll start (chain_at 6 (some (pos 30)))).0.scanned_to
        first_actions
poll-Attested_example = poll-Attested start (chain_at 6 (some (pos 30))) poll_first

In-batch_example :
    In (deposit 9 3 20) (batch start (chain_at 6 none))
    ↔ Reportable start (chain_at 6 none) (deposit 9 3 20)
In-batch_example = In-batch start (chain_at 6 none) (deposit 9 3 20)

-- A poll, a rewind, the same heights again, and a longer chain.
abbrev events : List Event
events =
    polls (chain_at 6 (some (pos 30)))
    ∷ rewinds 1
    ∷ polls (chain_at 6 (some (pos 30)))
    ∷ polls (chain_at 8 (some (pos 60)))
    ∷ []

run_lengths : map length (run start events) ≡ 2 ∷ 0 ∷ 1 ∷ []
unfolding run poll report credit_all attestations attest_assets fresh_deposits collect_fresh
    is_fresh is_positive safe_height contains bytes_eq sort_by insert_by deposit_lt bytes_lt
    assets_of dedup insert rewind_to
run_lengths = refl

run_total : length (concat (run start events)) ≡ 3
unfolding run poll report credit_all attestations attest_assets fresh_deposits collect_fresh
    is_fresh is_positive safe_height contains bytes_eq sort_by insert_by deposit_lt bytes_lt
    assets_of dedup insert rewind_to
run_total = refl

run-PairwiseApart_example : PairwiseApart (run start events)
run-PairwiseApart_example = run-PairwiseApart start events

run_sequential_example :
    map (λ (c : Credit). c.index) (concat (run start events))
    ≡ heights_from 5 (length (concat (run start events)))
run_sequential_example = run_sequential start events (omega (arith, run_total))

abbrev orphaned : Watcher
orphaned = record {
  confirmations = 3;
  scanned_to = 6;
  credited = replicate 32 8 ∷ [];
  next_index = 6;
}

lost_deposit :
    audit orphaned (chain_at 9 none) 0 9 ≡ err (credited_deposit_reorged_out (replicate 32 8))
unfolding audit check_seen seen_between note_seen contains insert bytes_eq bytes_lt
lost_deposit = refl

audit_passes_example :
    (audit orphaned (chain_at 9 none) 0 9 ≡ ok tt)
    ↔ ((k : Bytes) → In k orphaned.credited → ShownBetween (chain_at 9 none) 0 9 k)
audit_passes_example = audit_passes orphaned (chain_at 9 none) 0 9

audit_blames_example :
    (k : Bytes) × (credited_deposit_reorged_out (replicate 32 8) ≡ credited_deposit_reorged_out k)
    × In k orphaned.credited
    × ¬ ShownBetween (chain_at 9 none) 0 9 k
audit_blames_example = audit_blames orphaned (chain_at 9 none) 0 9 lost_deposit
