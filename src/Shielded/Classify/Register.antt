-- ===== src/Shielded/Classify/Register.antt =====
-- Deposit indices and the register of issued addresses in the classification of src/shielded.rs: the
-- answer on one action without the register beside the answer with it.
use zec_multisig.Base.{
  ℕ, ◌≡◌, ◌≢◌, refl, false, Option, none, some, [], ◌∷◌, ◌++◌, if◌then◌else◌, Bytes, bytes_eq, ok,
  err, All, In, ◌||◌, ◌⊎◌, Bool, true, Result, List, arith, and_then, take, Bool-cases, inl, inr,
  bytes_eq_iff,
}
use zec_multisig.Notes.{NoteTypes}
use zec_multisig.Shielded.{ScannedAction, amount_of, deposit_at}
use zec_multisig.Amount.{Fixed}
use zec_multisig.Watcher.{ObservedDeposit}
use zec_multisig.Shielded.Classify.Refused.{credited_refused}
use zec_multisig.Shielded.Classify.Credited.{unmarked_both}
use zec_multisig.Shielded.Classify.{
  nothing_issued, index_domain, nonzero_index, deposit_index, vault_index, nobody, unless_nobody,
  issued_to, credited_to, is_payment, settled, deposit_to, judge, verdict,
}

-- A deposit address is never the vault's own.
pub deposit_index_elsewhere :
    (sha256 : Bytes → Bytes) (account : Bytes) → deposit_index sha256 account ≢ vault_index
unfolding deposit_index nonzero_index
deposit_index_elsewhere sha256 account h = nonzero (take 11 (sha256 (index_domain ++ account))) h
  where
    nonzero : (idx : Bytes) → nonzero_index idx ≢ vault_index
    nonzero idx e = elim (Bool-cases (bytes_eq idx vault_index)) [
      | inl c ↦ cc (rw (c, if◌then◌else◌) at e)
      | inr c ↦ absurd (cc (c, (bytes_eq_iff idx vault_index).1 (rw (c, if◌then◌else◌) at e)))
    ]

module _ (n : NoteTypes) (spends_ours : Bool) (attributed : Option Bytes) (txid : Bytes)
    (height : ℕ) (handed_out : Bytes → Option Bytes) where
  -- A note of ours at an address that the register names an account for.
  pub record IsIssued (a : ScannedAction n) : Type 0 where
    pub note : n.Note
    pub ours : a.ours ≡ some note
    pub account : Bytes
    pub issued : issued_to handed_out a.to_index ≡ some account

  -- A deposit to the account that the register names.
  abbrev pub ByAddress : List (ScannedAction n) → ObservedDeposit → Type 0
  ByAddress as_ d =
      (a : ScannedAction n) × In a as_
      × ((i : IsIssued a) × (d ≡ deposit_at txid height i.account (amount_of n i.note)))

  -- A deposit of a note that the register names an account for.
  abbrev pub Replaced : List (ScannedAction n) → ObservedDeposit → Type 0
  Replaced as_ d =
      (a : ScannedAction n) × In a as_
      × ((i : IsIssued a) × (d ≡ deposit_at txid height d.account (amount_of n i.note)))

  -- A refusal that the register lifts: a note without a memo, which nothing else attributes.
  pub record IsLifted (amount : Fixed) (a : ScannedAction n) : Type 0 where
    pub by_register : IsIssued a
    pub amount_is : amount ≡ amount_of n by_register.note
    pub no_anchor : a.anchor ≡ false
    pub no_payment : is_payment a.app_payment ≡ false
    pub not_reserved : a.app_reserved ≡ false
    pub no_memo : a.account ≡ none
    pub not_change : spends_ours ≡ false
    pub not_attributed : attributed ≡ none

  abbrev pub Lifts : List (ScannedAction n) → Fixed → List ObservedDeposit → Type 0
  Lifts as_ e ds =
      (a : ScannedAction n) × In a as_
      × ((l : IsLifted e a) × ((l.by_register.account ≡ nobody)
            ⊎ In (deposit_at txid height l.by_register.account e) ds))

  -- The answer without the register beside the answer with it.
  abbrev pub Compared :
      List (ScannedAction n)
      → Result Fixed (List ObservedDeposit)
      → Result Fixed (List ObservedDeposit)
      → Type 0
  Compared as_ (ok ds) (ok with_register) =
      All (λ d. In d with_register ⊎ Replaced as_ d) ds
      × All (λ d. In d ds ⊎ ByAddress as_ d) with_register
  Compared as_ (ok ds) (err e) = ⊥
  Compared as_ (err e) (ok with_register) = Lifts as_ e with_register
  Compared as_ (err e) (err with_register) =
      (e ≡ with_register) ⊎ ((a : ScannedAction n) × In a as_ × IsLifted e a)

  each_kept :
      (P : ObservedDeposit → Type 0) (ds es : List ObservedDeposit)
      → ((d : ObservedDeposit) → In d ds → In d es)
      → All (λ d. In d es ⊎ P d) ds
  each_kept P [] es f = tt
  each_kept P (d ∷ ds) es f = (inl (f d (inl refl)), each_kept P ds es (λ e m. f e (inr m)))

  Compared-refl :
      (as_ : List (ScannedAction n)) (r : Result Fixed (List ObservedDeposit)) → Compared as_ r r
  Compared-refl as_ (ok ds) =
      (each_kept (Replaced as_) ds ds (λ d m. m), each_kept (ByAddress as_) ds ds (λ d m. m))
  Compared-refl as_ (err e) = inl refl

  issued_nothing : (o : Option Bytes) → issued_to nothing_issued o ≡ none
  unfolding issued_to
  issued_nothing none = refl
  issued_nothing (some index) = ground arith

  -- The deposit of an account, if any, of a note that the register names another account for.
  deposit_to-Replaced :
      (a : ScannedAction n) (i : IsIssued a) (to : Option Bytes) (es : List ObservedDeposit)
      → All
          (λ d. In d es ⊎ Replaced (a ∷ []) d)
          (deposit_to n spends_ours attributed txid height i.note to)
  unfolding deposit_to
  deposit_to-Replaced a i none es = tt
  deposit_to-Replaced a i (some account) es = (inr (a, inl refl, (i, refl)), tt)

  deposit_to-ByAddress :
      (a : ScannedAction n) (i : IsIssued a) (es : List ObservedDeposit)
      → All
          (λ d. In d es ⊎ ByAddress (a ∷ []) d)
          (deposit_to n spends_ours attributed txid height i.note (unless_nobody i.account))
  unfolding deposit_to unless_nobody
  deposit_to-ByAddress a i es = elim (Bool-cases (bytes_eq i.account nobody)) [
    | inl c ↦ rw (c, if◌then◌else◌) tt
    | inr c ↦ rw (c, if◌then◌else◌) (inr (a, inl refl, (i, refl)), tt)
  ]

  deposited :
      (note : n.Note) (account : Bytes)
      → (account ≡ nobody)
        ⊎ In
            (deposit_at txid height account (amount_of n note))
            (deposit_to n spends_ours attributed txid height note (unless_nobody account))
  unfolding deposit_to unless_nobody
  deposited note account = elim (Bool-cases (bytes_eq account nobody)) [
    | inl c ↦ inl ((bytes_eq_iff account nobody).0 c)
    | inr c ↦ inr (rw (c, if◌then◌else◌) (inl refl))
  ]

  -- A note that the register names an account for.
  issued-Compared :
      (a : ScannedAction n) (i : IsIssued a) (r : Result Fixed (Option Bytes))
      → a.anchor ≡ false
      → is_payment a.app_payment ≡ false
      → a.app_reserved ≡ false
      → credited_to (amount_of n i.note) a.account spends_ours attributed ≡ r
      → Compared
          (a ∷ [])
          (and_then r (λ to. ok (deposit_to n spends_ours attributed txid height i.note to)))
          (ok (deposit_to n spends_ours attributed txid height i.note (unless_nobody i.account)))
  issued-Compared a i (ok to) x y z h = (deposit_to-Replaced a i to _, deposit_to-ByAddress a i _)
  issued-Compared a i (err e) x y z h =
      let (same, m, s, k) =
        credited_refused n spends_ours attributed txid height handed_out (amount_of n i.note)
          a.account attributed spends_ours h in
      (
        a,
        inl refl,
        (
          record {
            by_register = i;
            amount_is = same;
            no_anchor = x;
            no_payment = y;
            not_reserved = z;
            no_memo = m;
            not_change = s;
            not_attributed = k;
          },
          rw same (deposited i.note i.account),
        ),
      )

  -- The accounts that an unmarked note is settled on, by the answer of the register.
  settled-Compared :
      (a : ScannedAction n) (note : n.Note) (i : Option Bytes)
      → a.ours ≡ some note
      → a.anchor ≡ false
      → is_payment a.app_payment ≡ false
      → a.app_reserved ≡ false
      → issued_to handed_out a.to_index ≡ i
      → Compared
          (a ∷ [])
          (and_then
            (settled n spends_ours attributed txid height a note none)
            (λ to. ok (deposit_to n spends_ours attributed txid height note to)))
          (and_then
            (settled n spends_ours attributed txid height a note i)
            (λ to. ok (deposit_to n spends_ours attributed txid height note to)))
  unfolding settled
  settled-Compared a note none o x y z q = Compared-refl (a ∷ []) _
  settled-Compared a note (some account) o x y z q =
      issued-Compared a (record { note = note; ours = o; account = account; issued = q }) _ x y z
        refl

  judge-Compared :
      (a : ScannedAction n) (note : n.Note) (marked reserved : Bool)
      → a.ours ≡ some note
      → (a.anchor || is_payment a.app_payment) ≡ marked
      → a.app_reserved ≡ reserved
      → Compared
          (a ∷ [])
          (judge n spends_ours attributed txid height marked reserved note
            (settled n spends_ours attributed txid height a note none))
          (judge n spends_ours attributed txid height marked reserved note
            (settled n spends_ours attributed txid height a note (issued_to handed_out a.to_index)))
  unfolding judge
  judge-Compared a note true reserved o x z = (tt, tt)
  judge-Compared a note false true o x z = inl refl
  judge-Compared a note false false o x z =
      let (p, k) =
        unmarked_both n spends_ours attributed txid height handed_out a.anchor
          (is_payment a.app_payment) x in
      settled-Compared a note (issued_to handed_out a.to_index) o p k z refl

  pub verdict-Compared :
      (a : ScannedAction n) (o : Option n.Note)
      → a.ours ≡ o
      → Compared
          (a ∷ [])
          (verdict n spends_ours attributed txid height nothing_issued a o)
          (verdict n spends_ours attributed txid height handed_out a o)
  unfolding verdict
  verdict-Compared a none q = (tt, tt)
  verdict-Compared a (some note) q =
      rw (issued_nothing a.to_index)
        (judge-Compared a note (a.anchor || is_payment a.app_payment) a.app_reserved q refl refl)
