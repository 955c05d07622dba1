-- ===== src/Shielded/Range/Passes.antt =====
-- The bounded passes of src/shielded.rs: a pass makes progress within its bound, and passes that follow one
-- another find what one uninterrupted walk finds.
use zec_multisig.Base.{
  ℕ, zero, suc, ◌+◌, ◌-◌, ◌≤◌, ◌<◌, ◌≡◌, refl, sym, ap, ◌∙◌, some, List, [], ◌∷◌, ◌++◌, ltb, min,
  arith, inl, inr, if◌then◌else◌, Bytes, Result, ok, err, Answer, Option, none, In, and_go,
  and_go-eq-ok, Bool-cases, ltb→lt, le→ltb_false,
}
use mathlib.Core.List.{append_assoc}
use mathlib.Core.Path.{fun_ext}
use zec_multisig.Notes.{NoteTypes}
use zec_multisig.Watcher.{heights, heights_from}
use zec_multisig.Watcher.Batch.{In-heights_from}
use zec_multisig.Shielded.{ScanTypes, Scanned, ScanError}
use zec_multisig.Shielded.Scan.{scan_actions_lenient}
use zec_multisig.Shielded.Feed.{Node, RpcError, ScanRangeError, from_rpc, txid_bytes}
use zec_multisig.Shielded.Range.{
  Scanner, u64_mod, start_of, end_of, visit_scanned, visit_raw, visit_txs, visit_blocks, pass,
}

pub heights_from-append :
    (lo a b : ℕ) → heights_from lo a ++ heights_from (lo + a) b ≡ heights_from lo (a + b)
heights_from-append lo zero b =
    let here : lo + 0 ≡ lo = omega arith in
    let count : 0 + b ≡ b = omega arith in rw (here, count) refl
heights_from-append lo (suc a) b =
    let count : suc a + b ≡ suc (a + b) = omega arith in
    let next : lo + suc a ≡ lo + 1 + a = omega arith in
    rw (count, next) (ap (◌∷◌ lo) (heights_from-append (lo + 1) a b))

-- Two ranges that meet are one.
heights-append : (lo a b : ℕ) → lo ≤ a → a ≤ b → heights lo a ++ heights (a + 1) b ≡ heights lo b
heights-append lo a b h k =
    let next : a + 1 ≡ lo + (a + 1 - lo) = omega arith in
    let rest : b + 1 - (a + 1) ≡ b - a = omega arith in
    let total : a + 1 - lo + (b - a) ≡ b + 1 - lo = omega arith in
    ap (λ m. heights lo a ++ heights_from m (b + 1 - (a + 1))) next
    ∙ rw (rest, heights_from-append lo (a + 1 - lo) (b - a), total) refl

module _ (n : NoteTypes) (t : ScanTypes n) (sc : Scanner n) (net : Node) {A : Type 0}
    (visit : ℕ → ℕ → Bytes → Scanned n → Result ScanRangeError (List A)) where
  visit_blocks-append :
      (xs ys : List ℕ) {f g : List A}
      → visit_blocks n t sc net visit xs ≡ some (ok f)
      → visit_blocks n t sc net visit ys ≡ some (ok g)
      → visit_blocks n t sc net visit (xs ++ ys) ≡ some (ok (f ++ g))
  unfolding visit_blocks
  visit_blocks-append [] ys {f} {g} h k = let empty : [] ≡ f = cc h in rw (← empty) k
  visit_blocks-append (x ∷ xs) ys {f} {g} h k =
      let (txids, one, more) = and_go-eq-ok (some (from_rpc (net.block_txids x))) _ h in
      let (found, two, rest) = and_go-eq-ok (visit_txs n t sc net visit x 0 txids) _ more in
      let (others, three, last) = and_go-eq-ok (visit_blocks n t sc net visit xs) _ rest in
      let same : found ++ others ≡ f = cc last in
      let listed : from_rpc (net.block_txids x) ≡ ok txids = cc one in
      let read : visit_txs n t sc net visit x 0 txids ≡ some (ok found) = two in
      rw listed (
        rw read (
          rw (visit_blocks-append xs ys three k)
            (ap (λ l. some (ok l)) (sym (append_assoc found others g) ∙ ap (λ l. l ++ g) same))))

  -- What a pass that read blocks has done.
  read_blocks :
      (from_ to : ℕ) {last : ℕ} {found : List A}
      → pass n t sc net visit from_ to ≡ some (ok (last, found))
      → start_of n t sc net from_ ≤ last
      → (last ≡ end_of n t sc net (start_of n t sc net from_) to)
        × (visit_blocks n t sc net visit (heights (start_of n t sc net from_) last)
            ≡ some (ok found))
  unfolding pass
  read_blocks from_ to {last} {found} h k =
      let start = start_of n t sc net from_ in
      let stop = end_of n t sc net start to in
      elim (Bool-cases (ltb stop start)) [
        | inl c ↦
            let early : min to stop ≡ last = cc (rw (c, if◌then◌else◌) at h) in
            let behind = ltb→lt stop start c in absurd (omega arith)
        | inr c ↦
            let (all, read, end) = and_go-eq-ok _ _ (rw (c, if◌then◌else◌) at h) in
            let same : stop ≡ last = cc end in
            let whole : all ≡ found = cc end in (sym same, rw (← same, ← whole) read)
      ]

  from_rpc-ok : {B : Type 0} (r : Result RpcError B) {b : B} → from_rpc r ≡ ok b → r ≡ ok b
  from_rpc-ok (ok x) h = ap ok (cc h)
  from_rpc-ok (err e) h = absurd cc

  -- Every block of a walk that succeeded was asked for, and the node answered.
  visit_blocks_asks :
      (xs : List ℕ) {f : List A}
      → visit_blocks n t sc net visit xs ≡ some (ok f)
      → (h : ℕ) → In h xs
      → (txids : List Bytes) × (net.block_txids h ≡ ok txids)
  unfolding visit_blocks
  visit_blocks_asks [] e h m = absurd m
  visit_blocks_asks (x ∷ xs) e h m =
      let (txids, one, more) = and_go-eq-ok (some (from_rpc (net.block_txids x))) _ e in
      let (found, two, rest) = and_go-eq-ok (visit_txs n t sc net visit x 0 txids) _ more in
      let (others, three, last) = and_go-eq-ok (visit_blocks n t sc net visit xs) _ rest in
      elim m [
        | inl q ↦ (txids, rw q (from_rpc-ok (net.block_txids x) (cc one)))
        | inr i ↦ visit_blocks_asks xs three h i
      ]

  visit_raw_same :
      (lists : ℕ → Result RpcError (List Bytes)) (height index : ℕ) (raw : Bytes)
      (txid : Option Bytes)
      → visit_raw n t sc (record net { block_txids = lists }) visit height index raw txid
        ≡ visit_raw n t sc net visit height index raw txid
  unfolding visit_raw visit_scanned
  visit_raw_same lists height index raw none = refl
  visit_raw_same lists height index raw (some txid) =
      scanned_same (scan_actions_lenient n t sc.keys raw txid height)
    where
      scanned_same :
          (r : Answer ScanError (Scanned n))
          → visit_scanned n t sc (record net { block_txids = lists }) visit height index txid r
            ≡ visit_scanned n t sc net visit height index txid r
      scanned_same none = refl
      scanned_same (some (err e)) = refl
      scanned_same (some (ok scanned)) = refl

  -- The transactions are read without the lists of blocks.
  visit_txs_same :
      (lists : ℕ → Result RpcError (List Bytes)) (height index : ℕ) (txids : List Bytes)
      → visit_txs n t sc (record net { block_txids = lists }) visit height index txids
        ≡ visit_txs n t sc net visit height index txids
  unfolding visit_txs
  visit_txs_same lists height index [] = refl
  visit_txs_same lists height index (hex ∷ rest) =
      ap (and_go (some (from_rpc (net.raw_transaction_bytes hex)))) (
        fun_ext λ raw.
          rw
            (
              visit_raw_same lists height index raw (txid_bytes hex),
              visit_txs_same lists height (index + 1) rest,
            )
            refl)

  -- A walk asks for no other block.
  visit_blocks_same :
      (lists : ℕ → Result RpcError (List Bytes)) (xs : List ℕ)
      → ((h : ℕ) → In h xs → lists h ≡ net.block_txids h)
      → visit_blocks n t sc (record net { block_txids = lists }) visit xs
        ≡ visit_blocks n t sc net visit xs
  unfolding visit_blocks
  visit_blocks_same lists [] g = refl
  visit_blocks_same lists (x ∷ xs) g = rw (g x (inl refl)) (
      ap (and_go (some (from_rpc (net.block_txids x)))) (
        fun_ext λ txids.
          rw (visit_txs_same lists x 0 txids, visit_blocks_same lists xs (λ h m. g h (inr m)))
            refl))

  -- The node answered for every block from one height to another.
  abbrev pub Answered : ℕ → ℕ → Type 0
  Answered lo hi = (h : ℕ) → lo ≤ h → h ≤ hi → (txids : List Bytes) × (net.block_txids h ≡ ok txids)

  -- A pass ends the same way at any node that lists the same transactions for the blocks from one height
  -- to another, whatever it says of other blocks.
  abbrev pub DependsOnly : ℕ → ℕ → ℕ → ℕ → Type 0
  DependsOnly lo hi from_ to =
      (lists : ℕ → Result RpcError (List Bytes))
      → ((h : ℕ) → lo ≤ h → h ≤ hi → lists h ≡ net.block_txids h)
      → pass n t sc (record net { block_txids = lists }) visit from_ to
        ≡ pass n t sc net visit from_ to

  -- A successful pass that has a block to read, with a start below 2^64 - 1, reports a height that is
  -- neither below its start, nor above the ceiling, nor further than the most blocks a pass may read. It
  -- has had an answer of the node for every block from its start to that height, and its result depends
  -- on the node's lists of those blocks alone.
  pub pass_bounds :
      (from_ to : ℕ) {last : ℕ} {found : List A}
      → 0 < sc.max_blocks
      → start_of n t sc net from_ < u64_mod - 1
      → start_of n t sc net from_ ≤ to
      → pass n t sc net visit from_ to ≡ some (ok (last, found))
      → (start_of n t sc net from_ ≤ last)
        × (last ≤ to)
        × (last < start_of n t sc net from_ + sc.max_blocks)
        × Answered (start_of n t sc net from_) last
        × DependsOnly (start_of n t sc net from_) last from_ to
  unfolding pass
  pass_bounds from_ to {last} {found} m l k h =
      let start = start_of n t sc net from_ in
      let ahead = le→ltb_false (end_of n t sc net start to) start (omega arith) in
      let (all, read, end) =
        and_go-eq-ok (visit_blocks n t sc net visit (heights start (end_of n t sc net start to))) _
          (rw (ahead, if◌then◌else◌) at h) in
      let same : end_of n t sc net start to ≡ last = cc end in
      let up : start ≤ last = omega arith in
      (
        up,
        omega arith,
        omega arith,
        λ x lo hi. visit_blocks_asks (heights start (end_of n t sc net start to)) read x (
            (In-heights_from x start (end_of n t sc net start to + 1 - start)).1
              (omega arith, omega arith)),
        λ lists g.
            rw
              (
                ahead,
                if◌then◌else◌,
                same,
                visit_blocks_same lists (heights start last) (λ x i.
                    let (lo, hi) = (In-heights_from x start (last + 1 - start)).0 i in
                    g x lo (omega arith)),
              )
              refl,
      )

  -- Two passes, the second from where the first stopped, find together what one walk over all their
  -- blocks finds, in order: no block is skipped and none is read twice.
  pub passes_join :
      (from_ to next : ℕ) {last end : ℕ} {f g : List A}
      → pass n t sc net visit from_ to ≡ some (ok (last, f))
      → start_of n t sc net from_ ≤ last
      → pass n t sc net visit (last + 1) next ≡ some (ok (end, g))
      → last < end
      → visit_blocks n t sc net visit (heights (start_of n t sc net from_) end) ≡ some (ok (f ++ g))
  passes_join from_ to next {last} {end} {f} {g} h k h' k' =
      let (stop, first) = read_blocks from_ to h k in
      let from_next : start_of n t sc net (last + 1) ≡ last + 1 = omega arith in
      let (stop', second) = read_blocks (last + 1) next h' (omega arith) in
      rw (← heights-append (start_of n t sc net from_) last end k (omega arith)) (
        visit_blocks-append _ _ first
          (ap (λ s. visit_blocks n t sc net visit (heights s end)) (sym from_next) ∙ second))
