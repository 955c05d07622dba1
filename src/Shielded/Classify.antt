-- ===== src/Shielded/Classify.antt =====
-- `deposit_index`, `classify` and `classify_addressed` of src/shielded.rs: what a transaction's notes to
-- us are. The register of addresses handed out is the function of its lookup.
pub mod Credited
pub mod Refused
pub mod Register
pub mod Divergence
use zec_multisig.Base.{
  ℕ, Bool, true, false, ◌||◌, not, Option, none, some, List, [], ◌∷◌, ◌++◌, if◌then◌else◌, take,
  drop, Bytes, zeros, bytes_eq, Result, ok, err, and_then, ◌>>=◌,
}
use zec_multisig.Amount.{Fixed}
use zec_multisig.Notes.{NoteTypes}
use zec_multisig.Watcher.{ObservedDeposit}
use zec_multisig.Memo.AppPayment.{AppPaymentMemo}
use zec_multisig.Shielded.{ScannedAction, Scanned, amount_of, deposit_at}

-- `zec.deposit.index.v1`
abbrev pub index_domain : Bytes
index_domain =
    b'z' ∷ b'e' ∷ b'c' ∷ b'.' ∷ b'd' ∷ b'e' ∷ b'p' ∷ b'o' ∷ b's' ∷ b'i' ∷ b't' ∷ b'.' ∷ b'i' ∷ b'n'
    ∷ b'd' ∷ b'e' ∷ b'x' ∷ b'.' ∷ b'v' ∷ b'1' ∷ []

abbrev pub vault_index : Bytes
vault_index = zeros 11

unfoldable pub nonzero_index : Bytes → Bytes
nonzero_index idx = if bytes_eq idx vault_index then 1 ∷ drop 1 idx else idx

unfoldable pub deposit_index : (Bytes → Bytes) → Bytes → Bytes
unfolding nonzero_index
deposit_index sha256 account = nonzero_index (take 11 (sha256 (index_domain ++ account)))

abbrev pub nothing_issued : Bytes → Option Bytes
nothing_issued index = none

abbrev pub nobody : Bytes
nobody = zeros 32

-- The all-zero account is never credited.
unfoldable pub unless_nobody : Bytes → Option Bytes
unless_nobody account = if bytes_eq account nobody then none else some account

-- The account whose deposit address the note arrived at.
unfoldable pub issued_to : (Bytes → Option Bytes) → Option Bytes → Option Bytes
issued_to handed_out none = none
issued_to handed_out (some index) = if bytes_eq index vault_index then none else handed_out index

-- The last `match` of the loop: the memo's account, whether the transaction spends our own note, and the
-- operator's attribution of it.
unfoldable pub credited_to :
    Fixed → Option Bytes → Bool → Option Bytes → Result Fixed (Option Bytes)
credited_to amount (some account) spends_ours attributed = ok (unless_nobody account)
credited_to amount none true attributed = ok none
credited_to amount none false (some account) = ok (unless_nobody account)
credited_to amount none false none = err amount

abbrev pub is_payment : Option AppPaymentMemo → Bool
is_payment none = false
is_payment (some payment) = true

module _ (n : NoteTypes) (spends_ours : Bool) (attributed : Option Bytes) (txid : Bytes)
    (height : ℕ) where
  -- The account that the register names settles it.
  unfoldable pub settled : ScannedAction n → n.Note → Option Bytes → Result Fixed (Option Bytes)
  settled a note (some account) = ok (unless_nobody account)
  settled a note none = credited_to (amount_of n note) a.account spends_ours attributed

  unfoldable pub deposit_to : n.Note → Option Bytes → List ObservedDeposit
  deposit_to note none = []
  deposit_to note (some account) = deposit_at txid height account (amount_of n note) ∷ []

  -- The tests of the loop's body: a note of the vault's own or an application payment adds nothing, and
  -- a note in the application namespace that is no payment is refused.
  unfoldable pub judge :
      Bool → Bool → n.Note → Result Fixed (Option Bytes) → Result Fixed (List ObservedDeposit)
  judge true app_reserved note account = ok []
  judge false true note account = err (amount_of n note)
  judge false false note account = and_then account λ to. ok (deposit_to note to)

  module _ (handed_out : Bytes → Option Bytes) where
    -- The loop's body: the deposits that one action adds.
    unfoldable pub verdict : ScannedAction n → Option n.Note → Result Fixed (List ObservedDeposit)
    verdict a none = ok []
    verdict a (some note) =
        judge (a.anchor || is_payment a.app_payment) a.app_reserved note
          (settled a note (issued_to handed_out a.to_index))

    unfoldable pub classify_from : List (ScannedAction n) → Result Fixed (List ObservedDeposit)
    classify_from [] = ok []
    classify_from (a ∷ as_) =
        and_then (verdict a a.ours) λ found. and_then (classify_from as_) λ rest. ok (found ++ rest)

unfoldable pub classify_addressed :
    (n : NoteTypes)
    → Scanned n
    → Bool
    → Option Bytes
    → Bytes
    → ℕ
    → (Bytes → Option Bytes)
    → Result Fixed (List ObservedDeposit)
classify_addressed n scanned spends_ours attributed txid height handed_out =
    classify_from n spends_ours attributed txid height handed_out scanned.actions

unfoldable pub classify :
    (n : NoteTypes)
    → Scanned n
    → Bool
    → Option Bytes
    → Bytes
    → ℕ
    → Result Fixed (List ObservedDeposit)
unfolding classify_addressed
classify n scanned spends_ours attributed txid height =
    classify_addressed n scanned spends_ours attributed txid height nothing_issued
