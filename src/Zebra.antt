-- ===== src/Zebra.antt =====
-- src/zebra.rs: the snapshot of a scan that the watcher reads, and the small decoders. `deposits` is the
-- `BTreeMap` of heights. The node's own answers are outside: the RPC calls are not modelled.
pub mod Snapshot
use zec_multisig.Base.{
  ℕ, zero, suc, ◌+◌, ◌-◌, ◌*◌, ◌/◌, ◌%◌, ◌^◌, Bool, true, false, not, Option, none, some, List, [],
  ◌∷◌, ◌++◌, ltb, leb, ◌==◌, if◌then◌else◌, ◌>>=◌, length, Bytes, get_elem?,
}
use zec_multisig.Base.Int.{pos}
use zec_multisig.Base.Maps.{lookup, insert}
use zec_multisig.Amount.{Fixed, add}
use zec_multisig.Watcher.{ObservedDeposit, ChainView}
use zec_multisig.Memo.Text.{hex_byte}
use zec_multisig.Shielded.{ForcedSighting}

pub record Observed : Type 0 where
  pub tip : ℕ
  pub deposits : List (ℕ × List ObservedDeposit)
  pub forced : List ForcedSighting

abbrev pub or_empty : Option (List ObservedDeposit) → List ObservedDeposit
or_empty none = []
or_empty (some ds) = ds

-- `by_height.entry(d.height).or_default().push(d)`.
unfoldable pub push_at :
    ObservedDeposit → List (ℕ × List ObservedDeposit) → List (ℕ × List ObservedDeposit)
push_at d m = insert d.height (or_empty (lookup d.height m) ++ d ∷ []) m

unfoldable pub by_height :
    List ObservedDeposit → List (ℕ × List ObservedDeposit) → List (ℕ × List ObservedDeposit)
by_height [] m = m
by_height (d ∷ ds) m = by_height ds (push_at d m)

unfoldable pub new : ℕ → List ObservedDeposit → Observed
new tip deposits = record { tip = tip; deposits = by_height deposits []; forced = [] }

unfoldable pub set_forced : Observed → List ForcedSighting → Observed
set_forced o forced = record o { forced = forced }

unfoldable pub deposits_at : Observed → ℕ → List ObservedDeposit
deposits_at o height = or_empty (lookup height o.deposits)

-- `total = total.add(d.amount)?`
unfoldable pub sum_amounts : Fixed → List ObservedDeposit → Option Fixed
sum_amounts total [] = some total
sum_amounts total (d ∷ ds) = do next ← add total d.amount; sum_amounts next ds

unfoldable pub sum_to : ℕ → Fixed → List (ℕ × List ObservedDeposit) → Option Fixed
sum_to height total [] = some total
sum_to height total ((h, ds) ∷ m) =
    if ltb height h then some total else do next ← sum_amounts total ds; sum_to height next m

unfoldable pub balance_at : Observed → ℕ → Option Fixed
balance_at o height = if ltb o.tip height then none else sum_to height (pos 0) o.deposits

-- The snapshot as the watcher's chain; `failed` and `balance_of` are the trait's defaults.
unfoldable pub view : Observed → ChainView
view o = record {
  tip = o.tip;
  deposits_at = deposits_at o;
  balance_at = balance_at o;
  failed = false;
  balance_of = λ asset height. none;
}

-- `unhex` and `hex32` cut the text in pairs; a pair that is not two digits is refused.
unfoldable pub hex_pairs : ℕ → Bytes → Option Bytes
hex_pairs zero text = some []
hex_pairs (suc k) [] = none
hex_pairs (suc k) (a ∷ []) = none
hex_pairs (suc k) (a ∷ b ∷ text) = do v ← hex_byte a b; rest ← hex_pairs k text; some (v ∷ rest)

unfoldable pub unhex : Bytes → Option Bytes
unfolding hex_pairs
unhex text = if not (length text % 2 == 0) then none else hex_pairs (length text / 2) text

unfoldable pub hex32 : Bytes → Option Bytes
unfolding hex_pairs
hex32 text = if not (length text == 64) then none else hex_pairs 32 text

-- The character of six bits.
unfoldable pub base64_char : ℕ → ℕ
base64_char v =
    if ltb v 26
    then b'A' + v
    else if ltb v 52
    then b'a' + (v - 26)
    else if ltb v 62
    then b'0' + (v - 52)
    else if v == 62
    then b'+'
    else b'/'

-- `n >> k & 63`.
abbrev pub sextet : ℕ → ℕ → ℕ
sextet n k = n / 2 ^ k % 64

-- A chunk of three bytes, or what is left of one.
unfoldable pub base64 : Bytes → Bytes
unfolding base64_char
base64 [] = []
base64 (a ∷ []) =
    let n = a * 2 ^ 16 in base64_char (sextet n 18) ∷ base64_char (sextet n 12) ∷ b'=' ∷ b'=' ∷ []
base64 (a ∷ b ∷ []) =
    let n = a * 2 ^ 16 + b * 2 ^ 8 in
    base64_char (sextet n 18) ∷ base64_char (sextet n 12) ∷ base64_char (sextet n 6) ∷ b'=' ∷ []
base64 (a ∷ b ∷ c ∷ rest) =
    let n = a * 2 ^ 16 + b * 2 ^ 8 + c in
    base64_char (sextet n 18)
    ∷ base64_char (sextet n 12)
    ∷ base64_char (sextet n 6)
    ∷ base64_char (sextet n 0)
    ∷ base64 rest
