-- ===== src/Custodian/Signing.antt =====
-- Round two of src/custodian.rs over any history: its indices are in range, and it signs what round
-- one committed to.
use zec_multisig.Base.{
  ℕ, suc, ◌≡◌, ◌≢◌, refl, sym, ap, ◌∙◌, false, not, Option, none, some, List, [], ◌∷◌, ◌==◌, length,
  any, All, inl, inr, Bool-cases, ==_iff, arith, Bytes, bytes_eq, bytes_eq_iff, Result, ok, err,
}
use zec_multisig.Custodian.{
  Frost, Live, Participant, CustodyError, new, drop_expired, is_current, begin_all, round1,
  round1_on, round2, round2_on, sign_all, push_share, share_then, id,
}
use zec_multisig.Base.Maps.{lookup, All-filter, All-remove, All-lookup}
use zec_multisig.Custodian.Discipline.{Op, commit, sign, expire, apply, run}

module _ (f : Frost) where
  -- A session waits for each action.
  pub record IsReady (r : Live f) : Type 0 where
    pub same_length : length r.alphas ≡ length r.sessions
    pub each : All (λ s. s ≢ none) r.sessions

  abbrev WellFormed : Participant f → Type 0
  WellFormed p = All (λ x. IsReady x.1) p.live

  begin_all-IsReady :
      (i : f.Identifier) (keys : f.Keys) (alphas : List f.Randomizer) (rng : f.Rng)
      → (length alphas ≡ length (begin_all f i keys alphas rng).0)
        × All (λ s. s ≢ none) (begin_all f i keys alphas rng).0
  unfolding begin_all
  begin_all-IsReady i keys [] rng = (refl, tt)
  begin_all-IsReady i keys (a ∷ alphas) rng =
      let s = f.begin_session i keys rng in
      let rest = begin_all-IsReady i keys alphas s.1 in (ap suc rest.0, (λ e. cc e, rest.1))

  drop_expired-WellFormed :
      (now : ℕ) (p : Participant f) → WellFormed p → WellFormed (drop_expired f now p)
  unfolding drop_expired
  drop_expired-WellFormed now p h = All-filter _ (is_current f now) p.live h

  round1_on-WellFormed :
      (request : ℕ) (sighash : Bytes) (alphas : List f.Randomizer) (now : ℕ) (rng : f.Rng)
      (p : Participant f) (o : Option (Live f))
      → WellFormed p
      → WellFormed (round1_on f request sighash alphas now rng p o).0
  unfolding round1_on
  round1_on-WellFormed request sighash alphas now rng p none h =
      let begun = begin_all-IsReady (id f p) p.keys alphas rng in
      (record { same_length = begun.0; each = begun.1 }, h)
  round1_on-WellFormed request sighash alphas now rng p (some r) h = h

  round2_on-WellFormed :
      (request : ℕ) (packages : List f.Package) (p : Participant f) (o : Option (Live f))
      → WellFormed p
      → WellFormed (round2_on f request packages p o).0
  unfolding round2_on
  round2_on-WellFormed request packages p none h = h
  round2_on-WellFormed request packages p (some r) h = All-remove _ request p.live h

  apply-WellFormed : (o : Op f) (p : Participant f) → WellFormed p → WellFormed (apply f o p)
  unfolding apply round1 round2
  apply-WellFormed (commit request sighash alphas now rng) p h =
      round1_on-WellFormed request sighash alphas now rng (drop_expired f now p)
        (lookup request (drop_expired f now p).live) (drop_expired-WellFormed now p h)
  apply-WellFormed (sign request packages) p h =
      round2_on-WellFormed request packages p (lookup request p.live) h
  apply-WellFormed (expire now) p h = drop_expired-WellFormed now p h

  run-WellFormed : (os : List (Op f)) (p : Participant f) → WellFormed p → WellFormed (run f os p)
  unfolding run
  run-WellFormed [] p h = h
  run-WellFormed (o ∷ os) p h = run-WellFormed os (apply f o p) (apply-WellFormed o p h)

  push_share_total :
      (s : f.Share) (r : Option (Result CustodyError (List f.Share)))
      → r ≢ none
      → push_share f s r ≢ none
  push_share_total s none h = h
  push_share_total s (some (ok ss)) h = λ e. cc e
  push_share_total s (some (err x)) h = λ e. cc e

  share_then_total :
      (s : Option f.Share) (r : Option (Result CustodyError (List f.Share)))
      → r ≢ none
      → share_then f s r ≢ none
  share_then_total none r h = λ e. cc e
  share_then_total (some s) r h = push_share_total s r h

  sign_all_total :
      (keys : f.Keys) (packages : List f.Package) (sessions : List (Option f.Session))
      (alphas : List f.Randomizer)
      → length packages ≡ length sessions
      → length alphas ≡ length sessions
      → sign_all f keys packages sessions alphas ≢ none
  unfolding sign_all
  sign_all_total keys [] sessions alphas h k = λ e. cc e
  sign_all_total keys (p ∷ ps) [] alphas h k = absurd (omega arith)
  sign_all_total keys (p ∷ ps) (none ∷ sessions) alphas h k = λ e. cc e
  sign_all_total keys (p ∷ ps) (some s ∷ sessions) [] h k = absurd (omega arith)
  sign_all_total keys (p ∷ ps) (some s ∷ sessions) (a ∷ alphas) h k =
      share_then_total (f.sign_share s keys p a) (sign_all f keys ps sessions alphas)
        (sign_all_total keys ps sessions alphas (omega arith) (omega arith))

  round2_on_total :
      (request : ℕ) (packages : List f.Package) (p : Participant f) (o : Option (Live f))
      → lookup request p.live ≡ o
      → WellFormed p
      → (round2_on f request packages p o).1 ≢ none
  unfolding round2_on
  round2_on_total request packages p none e h = λ c. cc c
  round2_on_total request packages p (some r) e h =
      elim (Bool-cases (length packages == length r.sessions)) [
        | inr c ↦ rw c (λ n. cc n)
        | inl c ↦
            elim (Bool-cases (any (λ p. not (bytes_eq (f.message_of p) r.sighash)) packages)) [
              | inl d ↦ rw (c, d) (λ n. cc n)
              | inr d ↦
                  rw (c, d)
                    (sign_all_total p.keys packages r.sessions r.alphas
                      ((==_iff (length packages) (length r.sessions)).0 c)
                      (All-lookup (λ r. IsReady r) request p.live h e).same_length)
            ]
      ]

  -- Whatever a new participant has been through, round two never indexes out of range: it returns
  -- shares or one of the source's errors.
  pub round2_never_panics :
      (keys : f.Keys) (os : List (Op f)) (request : ℕ) (packages : List f.Package)
      → (round2 f request packages (run f os (new f keys))).1 ≢ none
  unfolding round2 new
  round2_never_panics keys os request packages =
      let p = run f os (new f keys) in
      round2_on_total request packages p (lookup request p.live) refl
        (run-WellFormed os (new f keys) tt)

  accepts_message :
      (sighash : Bytes) (packages : List f.Package)
      → any (λ p. not (bytes_eq (f.message_of p) sighash)) packages ≡ false
      → All (λ p. f.message_of p ≡ sighash) packages
  accepts_message sighash [] h = tt
  accepts_message sighash (p ∷ ps) h = elim (Bool-cases (bytes_eq (f.message_of p) sighash)) [
    | inl c ↦
        ((bytes_eq_iff (f.message_of p) sighash).0 c, accepts_message sighash ps (ground arith))
    | inr c ↦ absurd (ground arith)
  ]

  pushed_length :
      (s : Option f.Share) (r : Option (Result CustodyError (List f.Share))) {shares : List f.Share}
      → share_then f s r ≡ some (ok shares)
      → (rest : List f.Share) × (r ≡ some (ok rest)) × (length shares ≡ suc (length rest))
  pushed_length none r h = absurd cc
  pushed_length (some s) none h = absurd cc
  pushed_length (some s) (some (err e)) h = absurd cc
  pushed_length (some s) (some (ok rest)) {shares} h =
      let same : s ∷ rest ≡ shares = cc h in (rest, refl, ap length (sym same))

  sign_all-length :
      (keys : f.Keys) (packages : List f.Package) (sessions : List (Option f.Session))
      (alphas : List f.Randomizer) {shares : List f.Share}
      → sign_all f keys packages sessions alphas ≡ some (ok shares)
      → length shares ≡ length packages
  unfolding sign_all
  sign_all-length keys [] sessions alphas {shares} h =
      let same : [] ≡ shares = cc h in ap length (sym same)
  sign_all-length keys (p ∷ ps) [] alphas h = absurd cc
  sign_all-length keys (p ∷ ps) (none ∷ sessions) alphas h = absurd cc
  sign_all-length keys (p ∷ ps) (some s ∷ sessions) [] h = absurd cc
  sign_all-length keys (p ∷ ps) (some s ∷ sessions) (a ∷ alphas) h =
      let (rest, e, l) =
        pushed_length (f.sign_share s keys p a) (sign_all f keys ps sessions alphas) h in
      l ∙ ap suc (sign_all-length keys ps sessions alphas e)

  -- What a round two that returned shares says of the request it used.
  abbrev pub Honoured : Live f → List f.Package → List f.Share → Type 0
  Honoured r packages shares =
      (length packages ≡ length r.sessions)
      × All (λ p. f.message_of p ≡ r.sighash) packages
      × (length shares ≡ length packages)

  round2_on_honours :
      (request : ℕ) (packages : List f.Package) (p : Participant f) (o : Option (Live f))
      {shares : List f.Share}
      → (round2_on f request packages p o).1 ≡ some (ok shares)
      → (r : Live f) × (o ≡ some r) × Honoured r packages shares
  unfolding round2_on
  round2_on_honours request packages p none h = absurd cc
  round2_on_honours request packages p (some r) h =
      elim (Bool-cases (length packages == length r.sessions)) [
        | inr c ↦ absurd (ground arith)
        | inl c ↦
            elim (Bool-cases (any (λ p. not (bytes_eq (f.message_of p) r.sighash)) packages)) [
              | inl d ↦ absurd (ground arith)
              | inr d ↦ (
                r,
                refl,
                (
                  (==_iff (length packages) (length r.sessions)).0 c,
                  accepts_message r.sighash packages d,
                  sign_all-length p.keys packages r.sessions r.alphas (ground arith),
                ),
              )
            ]
      ]

  -- Shares are released for an open request alone, one for each package and one package for each
  -- action it committed to, and every package is over the message that round one was given.
  pub round2_honours :
      (request : ℕ) (packages : List f.Package) (p : Participant f) {shares : List f.Share}
      → (round2 f request packages p).1 ≡ some (ok shares)
      → (r : Live f) × (lookup request p.live ≡ some r) × Honoured r packages shares
  unfolding round2
  round2_honours request packages p h =
      round2_on_honours request packages p (lookup request p.live) h
