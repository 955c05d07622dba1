-- ===== src/Custodian/Ed25519.antt =====
-- The `ed25519` module of src/custodian.rs: the same two rounds for one message and one nonce a
-- request. `Signer` is what it asks of FROST; the type of errors and the lifetime are the parent's.
use zec_multisig.Base.{
  ℕ, ◌-◌, ◌≡◌, ◌≢◌, refl, ap, Bool, not, Option, none, some, List, [], ◌∷◌, ltb, if◌then◌else◌,
  length, filter, All, ne→==_false, ok_or, Bytes, bytes_eq, Result, ok, err,
}
use zec_multisig.Custodian.{
  CustodyError, already_open, no_such_request, wrong_message, crypto, request_ttl_secs,
}
use zec_multisig.Base.Maps.{lookup, remove, lookup-remove, lookup-remove-none, lookup-filter-none}

pub record Signer : Type 1 where
  pub Keys : Type 0
  pub Identifier : Type 0
  pub Session : Type 0
  pub Commitments : Type 0
  pub Package : Type 0
  pub Share : Type 0
  pub Rng : Type 0
  pub identifier : Keys → Identifier
  pub begin_session : Identifier → Keys → Rng → Session × Rng
  pub commitments_of : Session → Commitments
  pub message_of : Package → Bytes
  pub sign_with : Session → Keys → Package → Option Share

module _ (f : Signer) where
  pub record Live : Type 0 where
    pub message : Bytes
    pub session : Option f.Session
    pub opened_at : ℕ

  pub record Participant : Type 0 where
    pub keys : f.Keys
    pub live : List (ℕ × Live)

  unfoldable pub new : f.Keys → Participant
  new keys = record { keys = keys; live = [] }

  unfoldable pub id : Participant → f.Identifier
  id p = f.identifier p.keys

  abbrev is_current : ℕ → ℕ × Live → Bool
  is_current now r = ltb (now - r.1.opened_at) request_ttl_secs

  unfoldable pub drop_expired : ℕ → Participant → Participant
  drop_expired now p = record p { live = filter (is_current now) p.live }

  unfoldable pub open_requests : Participant → ℕ
  open_requests p = length p.live

  unfoldable pub round1_on :
      ℕ
      → Bytes
      → ℕ
      → f.Rng
      → Participant
      → Option Live
      → Participant × Result CustodyError f.Commitments × f.Rng
  round1_on request message now rng p (some r) = (p, err already_open, rng)
  round1_on request message now rng p none =
      let s = f.begin_session (id p) p.keys rng in
      (
        record p {
          live =
              (request, record { message = message; session = some s.0; opened_at = now }) ∷ p.live;
        },
        ok (f.commitments_of s.0),
        s.1,
      )

  unfoldable pub round1 :
      ℕ → Bytes → ℕ → f.Rng → Participant → Participant × Result CustodyError f.Commitments × f.Rng
  round1 request message now rng q =
      let p = drop_expired now q in round1_on request message now rng p (lookup request p.live)

  -- The session signs, if the request still has it.
  unfoldable pub sign_taken : f.Keys → f.Package → Option f.Session → Result CustodyError f.Share
  sign_taken keys p none = err no_such_request
  sign_taken keys p (some s) = ok_or (f.sign_with s keys p) crypto

  unfoldable pub round2_on :
      ℕ → f.Package → Participant → Option Live → Participant × Result CustodyError f.Share
  round2_on request p q none = (q, err no_such_request)
  round2_on request p q (some req) = (
    record q { live = remove request q.live },
    if not (bytes_eq (f.message_of p) req.message)
        then err wrong_message
        else sign_taken q.keys p req.session,
  )

  unfoldable pub round2 : ℕ → f.Package → Participant → Participant × Result CustodyError f.Share
  round2 request p q = round2_on request p q (lookup request q.live)

  pub data Op : Type 0 where
    commit : ℕ → Bytes → ℕ → f.Rng → Op
    sign : ℕ → f.Package → Op
    expire : ℕ → Op

  unfoldable pub apply : Op → Participant → Participant
  apply (commit request message now rng) p = (round1 request message now rng p).0
  apply (sign request m) p = (round2 request m p).0
  apply (expire now) p = drop_expired now p

  unfoldable pub run : List Op → Participant → Participant
  run [] p = p
  run (o ∷ os) p = run os (apply o p)

  abbrev pub NotOpening : ℕ → Op → Type 0
  NotOpening k (commit request message now rng) = request ≢ k
  NotOpening k (sign request p) = Unit
  NotOpening k (expire now) = Unit

  abbrev IsClosed : ℕ → Participant → Type 0
  IsClosed k p = lookup k p.live ≡ none

  drop_expired-IsClosed :
      (k now : ℕ) (p : Participant) → IsClosed k p → IsClosed k (drop_expired now p)
  unfolding drop_expired
  drop_expired-IsClosed k now p h = lookup-filter-none (is_current now) k p.live h

  round1_on-IsClosed :
      (k request : ℕ) (message : Bytes) (now : ℕ) (rng : f.Rng) (p : Participant) (o : Option Live)
      → request ≢ k
      → IsClosed k p
      → IsClosed k (round1_on request message now rng p o).0
  unfolding round1_on
  round1_on-IsClosed k request message now rng p none other h = rw (ne→==_false request k other) h
  round1_on-IsClosed k request message now rng p (some r) other h = h

  round2_on-IsClosed :
      (k request : ℕ) (m : f.Package) (p : Participant) (o : Option Live)
      → IsClosed k p
      → IsClosed k (round2_on request m p o).0
  unfolding round2_on
  round2_on-IsClosed k request m p none h = h
  round2_on-IsClosed k request m p (some r) h = lookup-remove-none k request p.live h

  apply-IsClosed :
      (k : ℕ) (o : Op) (p : Participant) → NotOpening k o → IsClosed k p → IsClosed k (apply o p)
  unfolding apply round1 round2
  apply-IsClosed k (commit request message now rng) p n h =
      round1_on-IsClosed k request message now rng (drop_expired now p)
        (lookup request (drop_expired now p).live) n (drop_expired-IsClosed k now p h)
  apply-IsClosed k (sign request m) p n h =
      round2_on-IsClosed k request m p (lookup request p.live) h
  apply-IsClosed k (expire now) p n h = drop_expired-IsClosed k now p h

  run-IsClosed :
      (k : ℕ) (os : List Op) (p : Participant)
      → All (NotOpening k) os
      → IsClosed k p
      → IsClosed k (run os p)
  unfolding run
  run-IsClosed k [] p n h = h
  run-IsClosed k (o ∷ os) p n h = run-IsClosed k os (apply o p) n.1 (apply-IsClosed k o p n.0 h)

  sign_on_closes :
      (k : ℕ) (m : f.Package) (p : Participant) (o : Option Live)
      → lookup k p.live ≡ o
      → IsClosed k (round2_on k m p o).0
  unfolding round2_on
  sign_on_closes k m p none e = e
  sign_on_closes k m p (some r) e = lookup-remove k p.live

  sign_closes : (k : ℕ) (m : f.Package) (p : Participant) → IsClosed k (round2 k m p).0
  unfolding round2
  sign_closes k m p = sign_on_closes k m p (lookup k p.live) refl

  closed_refused :
      (k : ℕ) (m : f.Package) (p : Participant)
      → IsClosed k p
      → round2 k m p ≡ (p, err no_such_request)
  unfolding round2 round2_on
  closed_refused k m p h = ap (round2_on k m p) h

  -- Once an Ed25519 request has been put to round two, whatever came of it, every later round two for
  -- it is refused and changes nothing, through any operations that do not open the request anew.
  pub released_once :
      (k : ℕ) (first second : f.Package) (os : List Op) (p : Participant)
      → All (NotOpening k) os
      → round2 k second (run os (round2 k first p).0)
        ≡ (run os (round2 k first p).0, err no_such_request)
  released_once k first second os p n =
      closed_refused k second (run os (round2 k first p).0)
        (run-IsClosed k os (round2 k first p).0 n (sign_closes k first p))
