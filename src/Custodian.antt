-- ===== src/Custodian.antt =====
-- src/custodian.rs: one share-holder's part in a distributed signature over Orchard actions. The map
-- of open requests is a list of identifiers with what each holds; FROST is `Frost`, what the file
-- asks of the crate. A signature's answer is `none` where an index is out of range and the source
-- panics.
pub mod Discipline
pub mod Signing
pub mod Ed25519
use zec_multisig.Base.Maps.{lookup, remove}
use zec_multisig.Base.{
  ℕ, zero, suc, ◌-◌, Bool, true, false, not, Option, none, some, List, [], ◌∷◌, ltb, ◌==◌,
  if◌then◌else◌, length, any, filter, Bytes, bytes_eq, Result, ok, err,
}

pub record Frost : Type 1 where
  pub Keys : Type 0
  pub Identifier : Type 0
  pub Session : Type 0
  pub Commitments : Type 0
  pub Package : Type 0
  pub Share : Type 0
  pub Randomizer : Type 0
  pub Rng : Type 0
  pub identifier : Keys → Identifier
  pub begin_session : Identifier → Keys → Rng → Session × Rng
  pub commitments_of : Session → Commitments
  pub message_of : Package → Bytes
  pub sign_share : Session → Keys → Package → Randomizer → Option Share

abbrev pub request_ttl_secs : ℕ
request_ttl_secs = 300

pub data CustodyError : Type 0 where
  already_open : CustodyError
  no_such_request : CustodyError
  shape_mismatch : CustodyError
  wrong_message : CustodyError
  crypto : CustodyError

module _ (f : Frost) where
  pub record Live : Type 0 where
    pub sighash : Bytes
    pub alphas : List f.Randomizer
    pub sessions : List (Option f.Session)
    pub opened_at : ℕ

  pub record Participant : Type 0 where
    pub keys : f.Keys
    pub live : List (ℕ × Live)

  unfoldable pub new : f.Keys → Participant
  new keys = record { keys = keys; live = [] }

  unfoldable pub id : Participant → f.Identifier
  id p = f.identifier p.keys

  -- `saturating_sub` is subtraction on the numbers.
  abbrev pub is_current : ℕ → ℕ × Live → Bool
  is_current now r = ltb (now - r.1.opened_at) request_ttl_secs

  unfoldable pub drop_expired : ℕ → Participant → Participant
  drop_expired now p = record p { live = filter (is_current now) p.live }

  unfoldable pub open_requests : Participant → ℕ
  open_requests p = length p.live

  -- The loop of round one: a session for each action, their commitments, and the generator after it.
  unfoldable pub begin_all :
      f.Identifier
      → f.Keys
      → List f.Randomizer
      → f.Rng
      → List (Option f.Session) × List f.Commitments × f.Rng
  begin_all i keys [] rng = ([], [], rng)
  begin_all i keys (a ∷ alphas) rng =
      let s = f.begin_session i keys rng in
      let rest = begin_all i keys alphas s.1 in
      (some s.0 ∷ rest.0, f.commitments_of s.0 ∷ rest.1, rest.2)

  -- Round one, by what the request holds once the expired ones are gone.
  unfoldable pub round1_on :
      ℕ
      → Bytes
      → List f.Randomizer
      → ℕ
      → f.Rng
      → Participant
      → Option Live
      → Participant × Result CustodyError (List f.Commitments) × f.Rng
  round1_on request sighash alphas now rng p (some r) = (p, err already_open, rng)
  round1_on request sighash alphas now rng p none =
      let begun = begin_all (id p) p.keys alphas rng in
      (
        record p {
          live =
              (
                request,
                record { sighash = sighash; alphas = alphas; sessions = begun.0; opened_at = now },
              )
              ∷ p.live;
        },
        ok begun.1,
        begun.2,
      )

  unfoldable pub round1 :
      ℕ
      → Bytes
      → List f.Randomizer
      → ℕ
      → f.Rng
      → Participant
      → Participant × Result CustodyError (List f.Commitments) × f.Rng
  round1 request sighash alphas now rng q =
      let p = drop_expired now q in
      round1_on request sighash alphas now rng p (lookup request p.live)

  -- `ok` in front of the shares that follow.
  abbrev pub push_share :
      f.Share
      → Option (Result CustodyError (List f.Share))
      → Option (Result CustodyError (List f.Share))
  push_share s none = none
  push_share s (some (err e)) = some (err e)
  push_share s (some (ok ss)) = some (ok (s ∷ ss))

  -- One signature and the ones after it.
  abbrev pub share_then :
      Option f.Share
      → Option (Result CustodyError (List f.Share))
      → Option (Result CustodyError (List f.Share))
  share_then none rest = some (err crypto)
  share_then (some s) rest = push_share s rest

  -- The loop of round two over the packages, the sessions and the randomizers: a session is taken as
  -- it signs.
  unfoldable pub sign_all :
      f.Keys
      → List f.Package
      → List (Option f.Session)
      → List f.Randomizer
      → Option (Result CustodyError (List f.Share))
  sign_all keys [] sessions alphas = some (ok [])
  sign_all keys (p ∷ ps) [] alphas = none
  sign_all keys (p ∷ ps) (none ∷ sessions) alphas = some (err no_such_request)
  sign_all keys (p ∷ ps) (some s ∷ sessions) [] = none
  sign_all keys (p ∷ ps) (some s ∷ sessions) (a ∷ alphas) =
      share_then (f.sign_share s keys p a) (sign_all keys ps sessions alphas)

  -- Round two, by what the request holds.
  unfoldable pub round2_on :
      ℕ
      → List f.Package
      → Participant
      → Option Live
      → Participant × Option (Result CustodyError (List f.Share))
  round2_on request packages q none = (q, some (err no_such_request))
  round2_on request packages q (some req) = (
    record q { live = remove request q.live },
    if not (length packages == length req.sessions)
        then some (err shape_mismatch)
        else if any (λ p. not (bytes_eq (f.message_of p) req.sighash)) packages
        then some (err wrong_message)
        else sign_all q.keys packages req.sessions req.alphas,
  )

  unfoldable pub round2 :
      ℕ → List f.Package → Participant → Participant × Option (Result CustodyError (List f.Share))
  round2 request packages q = round2_on request packages q (lookup request q.live)
