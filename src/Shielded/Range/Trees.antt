-- ===== src/Shielded/Range/Trees.antt =====
-- Bringing the note trees of src/shielded.rs up to a height: the loop of `reseed` ends.
use zec_multisig.Base.{
  ℕ, zero, suc, ◌+◌, ◌-◌, ◌%◌, ◌≤◌, ◌<◌, ◌≡◌, refl, sym, ap, ◌∙◌, false, Option, none, some, ltb,
  min, max, arith, inl, inr, ◌⊎◌, if◌then◌else◌, ◌>>=◌, ok, err, Bool-cases, ltb→lt, ltb_false→le,
  le→ltb_false, lt→leb_false,
}
use zec_multisig.Notes.{NoteTypes, finish_block}
use zec_multisig.Watcher.{heights, heights_from}
use zec_multisig.Shielded.{ScanTypes}
use zec_multisig.Shielded.Feed.{
  Node, PoolStores, Found, Fed, joined, then_feed, already_in, feed_block, synced_to,
}
use zec_multisig.Shielded.Feed.Calls.{in_already, completed, rewound, feed_block_ends}
use zec_multisig.Shielded.Range.{
  Scanner, u64_mod, end_of, feed_range, next_height, Walked, reached, sync_notes, walk_on, walk_to,
}

module _ (n : NoteTypes) (t : ScanTypes n) (sc : Scanner n) (net : Node) where
  -- A block that is not in, and is fed, is what both trees are then complete to.
  fed_synced :
      (height : ℕ) (s u : PoolStores n) (found : Found)
      → already_in height s.orchard.synced_to s.ironwood.synced_to ≡ false
      → feed_block n t sc.keys sc.attributions net height s ≡ some (u, ok found)
      → (u.orchard.synced_to ≡ some height) × (u.ironwood.synced_to ≡ some height)
  unfolding finish_block
  fed_synced height s u found b h =
      elim (feed_block_ends n t sc.keys sc.attributions net height (λ p v. Unit {0})
        (λ p nf v w. tt) (λ p cmx ours txid v w. tt) s u (ok found)
        (record { orchard_has = tt; ironwood_has = tt }) h) [
          | in_already c q ↦ absurd cc
          | completed v x k q r ↦ rw q (refl, refl)
          | rewound v e k q r ↦ absurd cc
        ]

  -- The two parts of a feed that succeeded.
  then_feed-ok :
      (m : Fed n) (f : PoolStores n → Fed n) {u : PoolStores n} {found : Found}
      → then_feed m f ≡ some (u, ok found)
      → (s : PoolStores n) × (one : Found) × (two : Found) × (m ≡ some (s, ok one))
        × (f s ≡ some (u, ok two))
  then_feed-ok none f h = absurd cc
  then_feed-ok (some (s, err e)) f h = absurd cc
  then_feed-ok (some (s, ok one)) f {u} {found} h =
      let (two, e) = rest (f s) h in (s, one, two, refl, e)
    where
      rest :
          (r : Fed n) → joined one r ≡ some (u, ok found) → (two : Found) × (r ≡ some (u, ok two))
      rest none h = absurd cc
      rest (some (v, err e)) h = absurd cc
      rest (some (v, ok two)) h = let same : v ≡ u = cc h in (two, ap (λ w. some (w, ok two)) same)

  range_synced :
      (height k : ℕ) (s u : PoolStores n) (found : Found)
      → already_in height s.orchard.synced_to s.ironwood.synced_to ≡ false
      → feed_range n t sc net (heights_from height (suc k)) s ≡ some (u, ok found)
      → (u.orchard.synced_to ≡ some (height + k)) × (u.ironwood.synced_to ≡ some (height + k))
  unfolding feed_range already_in
  range_synced height zero s u found b h =
      let (v, one, two, first, rest) = then_feed-ok _ _ h in
      let same : v ≡ u = cc rest in
      let here : height + 0 ≡ height = omega arith in
      rw (here, ← same) (fed_synced height s v one b first)
  range_synced height (suc k) s u found b h =
      let next : height + suc k ≡ height + 1 + k = omega arith in
      let (v, one, two, first, rest) = then_feed-ok _ _ h in
      let (o, i) = fed_synced height s v one b first in
      let fresh : already_in (height + 1) v.orchard.synced_to v.ironwood.synced_to ≡ false =
        rw (o, i) (lt→leb_false (height + 1) (min height height) (omega arith)) in
      rw next (range_synced (height + 1) k v u two fresh rest)

  fresh_above :
      (height h : ℕ) (s : PoolStores n)
      → synced_to s ≡ some h
      → h < height
      → already_in height s.orchard.synced_to s.ironwood.synced_to ≡ false
  unfolding synced_to already_in
  fresh_above height h s e l = above s.orchard.synced_to s.ironwood.synced_to e
    where
      above :
          (a b : Option ℕ)
          → (a >>= λ x. b >>= λ y. some (min x y)) ≡ some h
          → already_in height a b ≡ false
      above none b e = refl
      above (some x) none e = refl
      above (some x) (some y) e =
          let low : min x y ≡ h = cc e in lt→leb_false height (min x y) (omega arith)

  -- What a pass of the trees that succeeded has fed.
  reached-ok :
      (last : ℕ) (m : Fed n) {u : Option (PoolStores n)} {h : ℕ}
      → reached n t sc net last m ≡ some (u, ok h)
      → (v : PoolStores n) × (found : Found) × (m ≡ some (v, ok found)) × (u ≡ some v) × (h ≡ last)
  reached-ok last none k = absurd cc
  reached-ok last (some (v, err x)) k = absurd cc
  reached-ok last (some (v, ok found)) k = (v, found, refl, cc k, cc k)

  -- It brings the trees to the height that it reports.
  reached_synced :
      (s : PoolStores n) (start last : ℕ) {u : Option (PoolStores n)} {h : ℕ}
      → already_in start s.orchard.synced_to s.ironwood.synced_to ≡ false
      → start ≤ last
      → reached n t sc net last (feed_range n t sc net (heights start last) s) ≡ some (u, ok h)
      → (h ≡ last) × ((v : PoolStores n) × (u ≡ some v) × (synced_to v ≡ some last))
  unfolding synced_to
  reached_synced s start last b l e =
      let count : last + 1 - start ≡ suc (last - start) = omega arith in
      let top : start + (last - start) ≡ last = omega arith in
      let low : min last last ≡ last = omega arith in
      let (v, found, fed, is, at) =
        reached-ok last (feed_range n t sc net (heights start last) s) e in
      let (o, i) =
        range_synced start (last - start) s v found b
          (ap (λ k. feed_range n t sc net (heights_from start k) s) (sym count) ∙ fed) in
      (at, (v, is, rw (o, i) (rw top (ap some low))))

  -- A walk has gone far enough, unless it stopped at an error or panicked.
  abbrev pub Arrived : ℕ → Walked n t sc net ℕ → Type 0
  Arrived to none = Unit
  Arrived to (some (s, err e)) = Unit
  Arrived to (some (s, ok h)) = to ≤ h

  -- One turn of the loop.
  sync_step :
      (s : PoolStores n) (to synced : ℕ)
      → 0 < sc.max_blocks
      → sc.from_height < u64_mod - 1
      → to < u64_mod - 1
      → synced_to s ≡ some synced
      → synced < to
      → (u : Option (PoolStores n)) (h : ℕ) → sync_notes n t sc net (some s) to ≡ some (u, ok h)
      → (to ≤ h) ⊎ ((v : PoolStores n) × (u ≡ some v) × (synced_to v ≡ some h) × (synced < h))
  unfolding sync_notes next_height
  sync_step s to synced m f l e k u h q =
      turned (max ((synced + 1) % u64_mod) sc.from_height) (omega arith) (omega arith) (omega arith)
        (rw e at q)
    where
      turned :
          (start : ℕ)
          → synced < start
          → start < u64_mod - 1
          → (to < start → to ≤ start - 1)
          → (if ltb (end_of n t sc net start to) start
              then some (some s, ok (min to (start - 1)))
              else reached n t sc net
                  (end_of n t sc net start to)
                  (feed_range n t sc net (heights start (end_of n t sc net start to)) s))
            ≡ some (u, ok h)
          → (to ≤ h) ⊎ ((v : PoolStores n) × (u ≡ some v) × (synced_to v ≡ some h) × (synced < h))
      turned start above small over r = elim (Bool-cases (ltb (end_of n t sc net start to) start)) [
        | inl c ↦
            let back = ltb→lt (end_of n t sc net start to) start c in
            let same : min to (start - 1) ≡ h = cc (rw (c, if◌then◌else◌) at r) in inl (omega arith)
        | inr c ↦
            let ahead = ltb_false→le (end_of n t sc net start to) start c in
            let (p, fed) =
              reached_synced s start (end_of n t sc net start to)
                (fresh_above start synced s e above) ahead (rw (c, if◌then◌else◌) at r) in
            let (v, is, done) = fed in inr (v, is, rw p done, omega arith)
      ]

  -- The trees are far enough already.
  walk_done :
      (fuel to : ℕ) (u : Option (PoolStores n)) (h : ℕ)
      → to ≤ h
      → walk_to n t sc net fuel to u h ≡ some (some (u, ok h))
  unfolding walk_to
  walk_done zero to u h l = rw (le→ltb_false h to l) refl
  walk_done (suc fuel) to u h l = rw (le→ltb_false h to l) refl

  walk_on_ends :
      (to : ℕ) (m : Walked n t sc net ℕ)
      (f : Option (PoolStores n) → ℕ → Option (Walked n t sc net ℕ))
      → ((u : Option (PoolStores n)) (h : ℕ)
          → m ≡ some (u, ok h)
          → (w : Walked n t sc net ℕ) × (f u h ≡ some w) × Arrived to w)
      → (w : Walked n t sc net ℕ) × (walk_on n t sc net m f ≡ some w) × Arrived to w
  walk_on_ends to none f g = (none, refl, tt)
  walk_on_ends to (some (u, err e)) f g = (some (u, err e), refl, tt)
  walk_on_ends to (some (u, ok h)) f g = g u h refl

  -- The loop that brings the trees up to a height ends: as many turns as there are heights to go are enough,
  -- and when it succeeds it has reached the height. Each pass reads a block at least, and heights are below
  -- the largest number of 64 bits.
  pub walk_ends :
      (s : PoolStores n) (to synced fuel : ℕ)
      → 0 < sc.max_blocks
      → sc.from_height < u64_mod - 1
      → to < u64_mod - 1
      → synced_to s ≡ some synced
      → to ≤ synced + fuel
      → (w : Walked n t sc net ℕ) × (walk_to n t sc net fuel to (some s) synced ≡ some w)
        × Arrived to w
  unfolding walk_to
  walk_ends s to synced zero m f l e k =
      let done = le→ltb_false synced to (omega arith) in
      (some (some s, ok synced), rw done refl, omega arith)
  walk_ends s to synced (suc fuel) m f l e k = elim (Bool-cases (ltb synced to)) [
    | inr c ↦ (some (some s, ok synced), rw c refl, ltb_false→le synced to c)
    | inl c ↦
        rw (c, if◌then◌else◌)
          (walk_on_ends to (sync_notes n t sc net (some s) to) (walk_to n t sc net fuel to)
            (λ u h q. elim (sync_step s to synced m f l e (ltb→lt synced to c) u h q) [
              | inl far ↦ (some (u, ok h), walk_done fuel to u h far, far)
              | inr (v, is, at, up) ↦ rw is (walk_ends v to h fuel m f l at (omega arith))
            ]))
  ]
