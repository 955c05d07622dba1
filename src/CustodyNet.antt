-- ===== src/CustodyNet.antt =====
-- src/custody_net.rs: the custody protocol's bodies, and the dispatch of a share-holder's daemon over the
-- participants of Custodian. `Wire` and `SignerWire` are what the file asks of FROST's serialization. A
-- reader takes what is left of the frame. The operating system's generator is an argument of each
-- call. An answer is `none` where a participant panics.
pub mod Remote
pub mod Routing
use zec_multisig.Base.{
  ℕ, zero, suc, ◌%◌, ◌^◌, Bool, true, false, ◌||◌, not, Option, none, some, List, [], ◌∷◌, ◌++◌,
  map, ◌==◌, if◌then◌else◌, ◌>>=◌, length, Bytes, be_bytes, from_be, Result, ok, err, ok_or,
  and_then, Answer,
}
use zec_multisig.Compact.{take_bytes}
use zec_multisig.Custodian.{Frost, CustodyError}
use zec_multisig.Custodian
use zec_multisig.Custodian.Ed25519.{Signer}
use zec_multisig.Custodian.Ed25519

pub record Wire (f : Frost) : Type 0 where
  pub randomizer_bytes : f.Randomizer → Bytes
  pub read_randomizer : Bytes → Option f.Randomizer
  pub package_bytes : f.Package → Option Bytes
  pub read_package : Bytes → Option f.Package
  pub commitments_bytes : f.Commitments → Option Bytes
  pub read_commitments : Bytes → Option f.Commitments
  pub share_bytes : f.Share → Bytes
  pub read_share : Bytes → Option f.Share
  pub identifier_bytes : f.Identifier → Bytes
  pub read_identifier : Bytes → Option f.Identifier

pub record SignerWire (g : Signer) : Type 0 where
  pub package_bytes : g.Package → Option Bytes
  pub read_package : Bytes → Option g.Package
  pub commitments_bytes : g.Commitments → Option Bytes
  pub read_commitments : Bytes → Option g.Commitments
  pub share_bytes : g.Share → Bytes
  pub read_share : Bytes → Option g.Share
  pub identifier_bytes : g.Identifier → Bytes
  pub read_identifier : Bytes → Option g.Identifier

-- The texts of the daemon's refusals.
pub data NetError : Type 0 where
  empty request_id sighash count alpha bad_package bad_commitments no_message unknown_op : NetError
  no_zcash_share no_ed25519_share no_treasury_share : NetError
  custody : CustodyError → NetError

abbrev pub op_round1 : ℕ
op_round1 = 1

abbrev pub op_round2 : ℕ
op_round2 = 2

abbrev pub op_ed25519_round1 : ℕ
op_ed25519_round1 = 3

abbrev pub op_ed25519_round2 : ℕ
op_ed25519_round2 = 4

abbrev pub op_treasury_round1 : ℕ
op_treasury_round1 = 5

abbrev pub op_treasury_round2 : ℕ
op_treasury_round2 = 6

abbrev pub put_u32 : ℕ → Bytes
put_u32 n = be_bytes 4 (n % 2 ^ 32)

abbrev pub put_bytes : Bytes → Bytes
put_bytes b = put_u32 (length b) ++ b

abbrev pub put_all : List Bytes → Bytes
put_all [] = []
put_all (b ∷ bs) = put_bytes b ++ put_all bs

-- `Reader::u32` and `Reader::u64`.
unfoldable pub read_be : ℕ → Bytes → Option (ℕ × Bytes)
read_be w b = do s ← take_bytes w b; some (from_be s.0, s.1)

-- `Reader::bytes`.
unfoldable pub read_bytes : Bytes → Option (Bytes × Bytes)
read_bytes b = do n ← read_be 4 b; take_bytes n.0 n.1

-- The fields that a count announces, each read by `read`.
unfoldable pub read_fields : {A : Type 0} → (Bytes → Option A) → ℕ → Bytes → Option (List A)
read_fields read zero b = some []
read_fields read (suc n) b = do
  field ← read_bytes b
  a ← read field.0
  rest ← read_fields read n field.1
  some (a ∷ rest)

-- Every one serializes.
unfoldable pub serialize_all : {A : Type 0} → (A → Option Bytes) → List A → Option (List Bytes)
serialize_all write [] = some []
serialize_all write (a ∷ as_) = do b ← write a; rest ← serialize_all write as_; some (b ∷ rest)

-- `try_into` a `[u8; 32]`.
unfoldable pub exactly_32 : Bytes → Option Bytes
exactly_32 b = if length b == 32 then some b else none

module _ (f : Frost) (w : Wire f) where
  unfoldable pub encode_round1 : ℕ → Bytes → List f.Randomizer → Bytes
  encode_round1 request digest alphas =
      op_round1
      ∷ (be_bytes 8 request
          ++ (put_bytes digest
              ++ (put_u32 (length alphas) ++ put_all (map w.randomizer_bytes alphas))))

  unfoldable pub encode_round2 : ℕ → List f.Package → Result NetError Bytes
  encode_round2 request packages =
      and_then (ok_or (serialize_all w.package_bytes packages) bad_package) λ fields.
        ok (op_round2 ∷ (be_bytes 8 request ++ (put_u32 (length packages) ++ put_all fields)))

  unfoldable pub encode_commitments : f.Identifier → List f.Commitments → Result NetError Bytes
  encode_commitments id cs =
      and_then (ok_or (serialize_all w.commitments_bytes cs) bad_commitments)
        λ fields. ok (put_bytes (w.identifier_bytes id) ++ (put_u32 (length cs) ++ put_all fields))

  unfoldable pub encode_shares : f.Identifier → List f.Share → Bytes
  encode_shares id shares =
      put_bytes (w.identifier_bytes id)
      ++ (put_u32 (length shares) ++ put_all (map w.share_bytes shares))

  -- `decode_commitments` and `decode_shares`.
  unfoldable pub decode_reply :
      {A : Type 0} → (Bytes → Option A) → Bytes → Option (f.Identifier × List A)
  decode_reply read b = do
    field ← read_bytes b
    id ← w.read_identifier field.0
    n ← read_be 4 field.1
    out ← read_fields read n.0 n.1
    some (id, out)

  unfoldable pub decode_commitments : Bytes → Option (f.Identifier × List f.Commitments)
  unfolding decode_reply
  decode_commitments b = decode_reply w.read_commitments b

  unfoldable pub decode_shares : Bytes → Option (f.Identifier × List f.Share)
  unfolding decode_reply
  decode_shares b = decode_reply w.read_share b

  abbrev pub Zcash : Type 0
  Zcash = Custodian.Participant f

  abbrev pub read_alpha : Bytes → Option f.Randomizer
  read_alpha b = do a ← exactly_32 b; w.read_randomizer a

  -- What round one of a frame asks for.
  unfoldable pub read_round1 : Bytes → Result NetError (ℕ × Bytes × List f.Randomizer)
  read_round1 b = and_then (ok_or (read_be 8 b) request_id) λ r.
      and_then (ok_or (read_bytes r.1) sighash) λ s.
        and_then (ok_or (exactly_32 s.0) sighash) λ digest.
          and_then (ok_or (read_be 4 s.1) count) λ n.
            and_then (ok_or (read_fields read_alpha n.0 n.1) alpha)
              λ alphas. ok (r.0, digest, alphas)

  unfoldable pub read_round2 : Bytes → Result NetError (ℕ × List f.Package)
  read_round2 b = and_then (ok_or (read_be 8 b) request_id) λ r.
      and_then (ok_or (read_be 4 r.1) count) λ n.
        and_then (ok_or (read_fields w.read_package n.0 n.1) bad_package)
          λ packages. ok (r.0, packages)

  -- The reply to a round, or its refusal.
  unfoldable pub reply_round1 :
      Zcash × Result CustodyError (List f.Commitments) × f.Rng → Zcash × Answer NetError Bytes
  reply_round1 (p, err e, rng) = (p, some (err (custody e)))
  reply_round1 (p, ok cs, rng) = (p, some (encode_commitments (Custodian.id f p) cs))

  unfoldable pub reply_round2 :
      Zcash × Answer CustodyError (List f.Share) → Zcash × Answer NetError Bytes
  reply_round2 (p, none) = (p, none)
  reply_round2 (p, some (err e)) = (p, some (err (custody e)))
  reply_round2 (p, some (ok shares)) = (p, some (ok (encode_shares (Custodian.id f p) shares)))

  unfoldable pub do_round1 :
      ℕ
      → f.Rng
      → Zcash
      → Result NetError (ℕ × Bytes × List f.Randomizer)
      → Zcash × Answer NetError Bytes
  do_round1 now rng p (err e) = (p, some (err e))
  do_round1 now rng p (ok (request, digest, alphas)) =
      reply_round1 (Custodian.round1 f request digest alphas now rng p)

  unfoldable pub do_round2 :
      Zcash → Result NetError (ℕ × List f.Package) → Zcash × Answer NetError Bytes
  do_round2 p (err e) = (p, some (err e))
  do_round2 p (ok (request, packages)) = reply_round2 (Custodian.round2 f request packages p)

  unfoldable pub zcash_op : ℕ → Bytes → ℕ → f.Rng → Zcash → Zcash × Answer NetError Bytes
  zcash_op op b now rng p =
      if op == op_round1
      then do_round1 now rng p (read_round1 b)
      else if op == op_round2
      then do_round2 p (read_round2 b)
      else (p, some (err unknown_op))

module _ (g : Signer) (w : SignerWire g) where
  abbrev pub Vault : Type 0
  Vault = Ed25519.Participant g

  unfoldable pub encode_message : ℕ → ℕ → Bytes → Bytes
  encode_message op request message = op ∷ (be_bytes 8 request ++ put_bytes message)

  unfoldable pub encode_package : ℕ → ℕ → g.Package → Result NetError Bytes
  encode_package op request m =
      and_then (ok_or (w.package_bytes m) bad_package)
        λ b. ok (op ∷ (be_bytes 8 request ++ put_bytes b))

  abbrev pub encode_treasury_round1 : ℕ → Bytes → Bytes
  encode_treasury_round1 request message = encode_message op_treasury_round1 request message

  abbrev pub encode_treasury_round2 : ℕ → g.Package → Result NetError Bytes
  encode_treasury_round2 request m = encode_package op_treasury_round2 request m

  abbrev pub encode_sol_round1 : ℕ → Bytes → Bytes
  encode_sol_round1 request message = encode_message op_ed25519_round1 request message

  abbrev pub encode_sol_round2 : ℕ → g.Package → Result NetError Bytes
  encode_sol_round2 request m = encode_package op_ed25519_round2 request m

  unfoldable pub read_ed25519_commitments : Bytes → Option (g.Identifier × g.Commitments)
  read_ed25519_commitments b = do
    i ← read_bytes b
    id ← w.read_identifier i.0
    c ← read_bytes i.1
    commitments ← w.read_commitments c.0
    some (id, commitments)

  unfoldable pub read_ed25519_share : Bytes → Option (g.Identifier × g.Share)
  read_ed25519_share b = do
    i ← read_bytes b
    id ← w.read_identifier i.0
    s ← read_bytes i.1
    share ← w.read_share s.0
    some (id, share)

  abbrev pub field_reply : g.Identifier → Bytes → Bytes
  field_reply id b = put_bytes (w.identifier_bytes id) ++ put_bytes b

  unfoldable pub reply_commit :
      Vault × Result CustodyError g.Commitments × g.Rng → Vault × Answer NetError Bytes
  reply_commit (p, err e, rng) = (p, some (err (custody e)))
  reply_commit (p, ok c, rng) = (
    p,
    some (
        and_then (ok_or (w.commitments_bytes c) bad_commitments)
          λ b. ok (field_reply (Ed25519.id g p) b)),
  )

  unfoldable pub reply_sign : Vault × Result CustodyError g.Share → Vault × Answer NetError Bytes
  reply_sign (p, err e) = (p, some (err (custody e)))
  reply_sign (p, ok s) = (p, some (ok (field_reply (Ed25519.id g p) (w.share_bytes s))))

  unfoldable pub read_message : Bytes → Result NetError (ℕ × Bytes)
  read_message b =
      and_then (ok_or (read_be 8 b) request_id)
        λ r. and_then (ok_or (read_bytes r.1) no_message) λ m. ok (r.0, m.0)

  unfoldable pub read_signing : Bytes → Result NetError (ℕ × g.Package)
  read_signing b = and_then (ok_or (read_be 8 b) request_id) λ r.
      and_then (ok_or (read_bytes r.1) bad_package) λ m.
        and_then (ok_or (w.read_package m.0) bad_package) λ package_read. ok (r.0, package_read)

  unfoldable pub do_commit :
      ℕ → g.Rng → Vault → Result NetError (ℕ × Bytes) → Vault × Answer NetError Bytes
  do_commit now rng p (err e) = (p, some (err e))
  do_commit now rng p (ok (request, message)) =
      reply_commit (Ed25519.round1 g request message now rng p)

  unfoldable pub do_sign : Vault → Result NetError (ℕ × g.Package) → Vault × Answer NetError Bytes
  do_sign p (err e) = (p, some (err e))
  do_sign p (ok (request, m)) = reply_sign (Ed25519.round2 g request m p)

  unfoldable pub ed25519_op : ℕ → Bytes → ℕ → g.Rng → Vault → Vault × Answer NetError Bytes
  ed25519_op op b now rng p =
      if op == op_ed25519_round1
      then do_commit now rng p (read_message b)
      else if op == op_ed25519_round2
      then do_sign p (read_signing b)
      else (p, some (err unknown_op))

module _ (f : Frost) (w : Wire f) (g : Signer) (v : SignerWire g) where
  -- The source's `Custodian`.
  pub record Daemon : Type 0 where
    pub zcash : Option (Custodian.Participant f)
    pub ed25519 : Option (Ed25519.Participant g)
    pub treasury : Option (Ed25519.Participant g)

  abbrev pub Served : Type 0
  Served = Daemon × Answer NetError Bytes

  unfoldable pub serve_zcash :
      ℕ → Bytes → ℕ → f.Rng → Daemon → Option (Custodian.Participant f) → Served
  serve_zcash op b now rng d none = (d, some (err no_zcash_share))
  serve_zcash op b now rng d (some p) =
      let done = zcash_op f w op b now rng p in (record d { zcash = some done.0 }, done.1)

  unfoldable pub serve_ed25519 :
      ℕ → Bytes → ℕ → g.Rng → Daemon → Option (Ed25519.Participant g) → Served
  serve_ed25519 op b now rng d none = (d, some (err no_ed25519_share))
  serve_ed25519 op b now rng d (some p) =
      let done = ed25519_op g v op b now rng p in (record d { ed25519 = some done.0 }, done.1)

  unfoldable pub serve_treasury :
      ℕ → Bytes → ℕ → g.Rng → Daemon → Option (Ed25519.Participant g) → Served
  serve_treasury op b now rng d none = (d, some (err no_treasury_share))
  serve_treasury op b now rng d (some p) =
      let inner = if op == op_treasury_round1 then op_ed25519_round1 else op_ed25519_round2 in
      let done = ed25519_op g v inner b now rng p in (record d { treasury = some done.0 }, done.1)

  unfoldable pub handle : Bytes → ℕ → f.Rng → g.Rng → Daemon → Served
  handle [] now rng srng d = (d, some (err empty))
  handle (op ∷ b) now rng srng d =
      if op == op_round1 || op == op_round2
      then serve_zcash op b now rng d d.zcash
      else if op == op_ed25519_round1 || op == op_ed25519_round2
      then serve_ed25519 op b now srng d d.ed25519
      else if op == op_treasury_round1 || op == op_treasury_round2
      then serve_treasury op b now srng d d.treasury
      else (d, some (err unknown_op))

  abbrev pub expire_zcash : ℕ → Option (Custodian.Participant f) → Option (Custodian.Participant f)
  expire_zcash now none = none
  expire_zcash now (some p) = some (Custodian.drop_expired f now p)

  abbrev pub expire_vault : ℕ → Option (Ed25519.Participant g) → Option (Ed25519.Participant g)
  expire_vault now none = none
  expire_vault now (some p) = some (Ed25519.drop_expired g now p)

  unfoldable pub drop_expired : ℕ → Daemon → Daemon
  drop_expired now d = record {
    zcash = expire_zcash now d.zcash;
    ed25519 = expire_vault now d.ed25519;
    treasury = expire_vault now d.treasury;
  }
