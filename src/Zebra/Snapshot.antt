-- ===== src/Zebra/Snapshot.antt =====
-- The snapshot of src/zebra.rs answers the watcher with the deposits it was made from.
use zec_multisig.Base.{
  ℕ, ◌≡◌, refl, sym, ap, ◌∙◌, Bool, List, [], ◌∷◌, ◌++◌, ◌==◌, inl, inr, if◌then◌else◌, filter,
  Bool-cases, ==_iff,
}
use mathlib.Core.List.{append_assoc, append-nil}
use zec_multisig.Base.Maps.{lookup, lookup-insert}
use zec_multisig.Watcher.{ObservedDeposit}
use zec_multisig.Zebra.{or_empty, push_at, by_height, new, deposits_at, view}

abbrev pub mined_at : ℕ → ObservedDeposit → Bool
mined_at h d = d.height == h

by_height_at :
    (h : ℕ) (ds : List ObservedDeposit) (m : List (ℕ × List ObservedDeposit))
    → or_empty (lookup h (by_height ds m)) ≡ or_empty (lookup h m) ++ filter (mined_at h) ds
unfolding by_height push_at
by_height_at h [] m = sym (append-nil (or_empty (lookup h m)))
by_height_at h (d ∷ ds) m =
    let here = lookup-insert h d.height (or_empty (lookup d.height m) ++ d ∷ []) m in
    elim (Bool-cases (d.height == h)) [
      | inl e ↦
          let looked : lookup d.height m ≡ lookup h m =
            ap (λ k. lookup k m) ((==_iff d.height h).0 e) in
          by_height_at h ds _
          ∙ rw here (
              rw (e, if◌then◌else◌)
                (rw looked
                  (append_assoc (or_empty (lookup h m)) (d ∷ []) (filter (mined_at h) ds))))
      | inr e ↦ by_height_at h ds _ ∙ rw here (rw (e, if◌then◌else◌) refl)
    ]

-- At every height the watcher reads, from a snapshot, the deposits of that height that the scan found, in
-- the order in which it found them, and no others.
pub deposits_at-new :
    (tip h : ℕ) (ds : List ObservedDeposit)
    → (view (new tip ds)).deposits_at h ≡ filter (mined_at h) ds
unfolding view new deposits_at
deposits_at-new tip h ds = by_height_at h ds []
