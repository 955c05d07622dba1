-- ===== src/CustodyNet/Routing.antt =====
-- Requests of src/custody_net.rs reach the share that their operation names, and no other.
use zec_multisig.Base.{
  ℕ, ◌≡◌, refl, true, ◌||◌, Option, none, some, ◌∷◌, ◌==◌, if◌then◌else◌, Bytes, Bool-cases, inl,
  inr, ◌⊎◌, ==_iff,
}
use zec_multisig.Custodian.{Frost}
use zec_multisig.Custodian
use zec_multisig.Custodian.Ed25519.{Signer}
use zec_multisig.Custodian.Ed25519
use zec_multisig.CustodyNet.{
  Wire, SignerWire, op_round1, op_round2, op_ed25519_round1, op_ed25519_round2, op_treasury_round1,
  op_treasury_round2, Daemon, serve_zcash, serve_ed25519, serve_treasury, handle,
}

module _ (f : Frost) (w : Wire f) (g : Signer) (v : SignerWire g) where
  serve_zcash_apart :
      (op : ℕ) (b : Bytes) (now : ℕ) (rng : f.Rng) (d : Daemon f w g v)
      (o : Option (Custodian.Participant f))
      → ((serve_zcash f w g v op b now rng d o).0.ed25519 ≡ d.ed25519)
        × ((serve_zcash f w g v op b now rng d o).0.treasury ≡ d.treasury)
  unfolding serve_zcash
  serve_zcash_apart op b now rng d none = (refl, refl)
  serve_zcash_apart op b now rng d (some p) = (refl, refl)

  serve_ed25519_apart :
      (op : ℕ) (b : Bytes) (now : ℕ) (rng : g.Rng) (d : Daemon f w g v)
      (o : Option (Ed25519.Participant g))
      → ((serve_ed25519 f w g v op b now rng d o).0.zcash ≡ d.zcash)
        × ((serve_ed25519 f w g v op b now rng d o).0.treasury ≡ d.treasury)
  unfolding serve_ed25519
  serve_ed25519_apart op b now rng d none = (refl, refl)
  serve_ed25519_apart op b now rng d (some p) = (refl, refl)

  serve_treasury_apart :
      (op : ℕ) (b : Bytes) (now : ℕ) (rng : g.Rng) (d : Daemon f w g v)
      (o : Option (Ed25519.Participant g))
      → ((serve_treasury f w g v op b now rng d o).0.zcash ≡ d.zcash)
        × ((serve_treasury f w g v op b now rng d o).0.ed25519 ≡ d.ed25519)
  unfolding serve_treasury
  serve_treasury_apart op b now rng d none = (refl, refl)
  serve_treasury_apart op b now rng d (some p) = (refl, refl)

  -- Whatever the frame says after its operation, each share is touched by its own two operations alone:
  -- the vault's shares by no treasury request, and the treasury's by none for a vault.
  pub handle_routes :
      (op : ℕ) (b : Bytes) (now : ℕ) (rng : f.Rng) (srng : g.Rng) (d : Daemon f w g v)
      → let after = (handle f w g v (op ∷ b) now rng srng d).0 in
        ((op ≡ op_round1) ⊎ ((op ≡ op_round2) ⊎ (after.zcash ≡ d.zcash)))
        × ((op ≡ op_ed25519_round1) ⊎ ((op ≡ op_ed25519_round2) ⊎ (after.ed25519 ≡ d.ed25519)))
        × ((op ≡ op_treasury_round1) ⊎ ((op ≡ op_treasury_round2) ⊎ (after.treasury ≡ d.treasury)))
  unfolding handle
  handle_routes op b now rng srng d = elim (Bool-cases (op == op_round1 || op == op_round2)) [
    | inl x ↦
        let (e, t) = serve_zcash_apart op b now rng d d.zcash in
        rw (x, if◌then◌else◌) (one_of op op_round1 op_round2 x, inr (inr e), inr (inr t))
    | inr x ↦ elim (Bool-cases (op == op_ed25519_round1 || op == op_ed25519_round2)) [
      | inl y ↦
          let (z, t) = serve_ed25519_apart op b now srng d d.ed25519 in
          rw (x, y, if◌then◌else◌)
            (inr (inr z), one_of op op_ed25519_round1 op_ed25519_round2 y, inr (inr t))
      | inr y ↦ elim (Bool-cases (op == op_treasury_round1 || op == op_treasury_round2)) [
        | inl q ↦
            let (z, e) = serve_treasury_apart op b now srng d d.treasury in
            rw (x, y, q, if◌then◌else◌)
              (inr (inr z), inr (inr e), one_of op op_treasury_round1 op_treasury_round2 q)
        | inr q ↦ rw (x, y, q, if◌then◌else◌) (inr (inr refl), inr (inr refl), inr (inr refl))
      ]
    ]
  ]
    where
      one_of : {A : Type 0} (k a c : ℕ) → (k == a || k == c) ≡ true → (k ≡ a) ⊎ ((k ≡ c) ⊎ A)
      one_of k a c h = elim (Bool-cases (k == a)) [
        | inl l ↦ inl ((==_iff k a).0 l)
        | inr l ↦ inr (inl ((==_iff k c).0 (rw (l, ◌||◌) at h)))
      ]
