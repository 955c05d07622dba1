-- ===== src/Base/Sets.antt =====
-- `BTreeSet<[u8; 32]>`: a list of keys in increasing order.
use zec_multisig.Base.Tests.{if◌then◌else◌}
use zec_multisig.Base.Encoding.{Bytes, bytes_eq, bytes_lt, bytes_eq_iff}
use mathlib.Core.Path.{◌≡◌}
use mathlib.Core.Bool.{Bool, true, false, ◌||◌}
use mathlib.Core.List.{List, [], ◌∷◌}
use native.Mathlib.Omega.{arith}

abbrev pub ByteSet : Type 0
ByteSet = List Bytes

unfoldable pub contains : Bytes → ByteSet → Bool
contains k [] = false
contains k (x ∷ s) = if bytes_eq k x then true else contains k s

unfoldable pub insert : Bytes → ByteSet → ByteSet
insert k [] = k ∷ []
insert k (x ∷ s) =
    if bytes_eq k x then x ∷ s else if bytes_lt k x then k ∷ x ∷ s else x ∷ insert k s

-- Inserting adds the key and nothing else.
pub contains-insert :
    (j k : Bytes) (s : ByteSet) → contains j (insert k s) ≡ (bytes_eq j k || contains j s)
unfolding contains insert
contains-insert j k [] = ground arith
contains-insert j k (x ∷ s) =
    ground (arith, contains-insert j k s, bytes_eq_iff k x, bytes_eq_iff j k, bytes_eq_iff j x)
