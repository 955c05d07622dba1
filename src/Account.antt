-- ===== src/Account.antt =====
-- src/account.rs: the account that a key controls under a scheme. SHA-256 is an argument.
use zec_multisig.Base.{
  ℕ, ◌≡◌, refl, sym, ap, ◌∙◌, Option, none, some, [], ◌∷◌, ◌++◌, arith, length, if◌then◌else◌, ◌==◌,
  Bytes, be_bytes, length-be_bytes,
}
use zec_multisig.Base.{drop-append_of, drop}

pub data Scheme : Type 0 where
  ed25519 secp256k1_eip712 ed25519_message : Scheme

unfoldable pub tag : Scheme → ℕ
tag ed25519 = 1
tag secp256k1_eip712 = 2
tag ed25519_message = 3

unfoldable pub from_tag : ℕ → Option Scheme
from_tag t =
    if t == 1
    then some ed25519
    else if t == 2
    then some secp256k1_eip712
    else if t == 3
    then some ed25519_message
    else none

unfoldable pub key_len : Scheme → ℕ
key_len ed25519 = 32
key_len ed25519_message = 32
key_len secp256k1_eip712 = 20

-- `b"zec.account.v1"`.
abbrev pub account_domain : Bytes
account_domain =
    b'z' ∷ b'e' ∷ b'c' ∷ b'.' ∷ b'a' ∷ b'c' ∷ b'c' ∷ b'o' ∷ b'u' ∷ b'n' ∷ b't' ∷ b'.' ∷ b'v' ∷ b'1'
    ∷ []

-- The bytes that are hashed: `key.len() as u32` is big-endian.
unfoldable pub account_preimage : Scheme → Bytes → Bytes
account_preimage scheme key = account_domain ++ tag scheme ∷ (be_bytes 4 (length key) ++ key)

unfoldable pub account_of : (Bytes → Bytes) → Scheme → Bytes → Bytes
account_of sha256 scheme key = sha256 (account_preimage scheme key)

-- A tag is read back as its scheme, and every tag that is read is that scheme's.
pub from_tag-tag : (s : Scheme) → from_tag (tag s) ≡ some s
unfolding from_tag tag
from_tag-tag ed25519 = refl
from_tag-tag secp256k1_eip712 = refl
from_tag-tag ed25519_message = refl

pub tag-from_tag : (t : ℕ) {s : Scheme} → from_tag t ≡ some s → tag s ≡ t
unfolding from_tag tag
tag-from_tag t h = ground arith

tag-injective : (s t : Scheme) → tag s ≡ tag t → s ≡ t
tag-injective s t h = let read = sym (from_tag-tag s) ∙ ap from_tag h ∙ from_tag-tag t in cc read

-- The bytes that are hashed determine the scheme and the key, so under a hash with no collision two
-- accounts are the same only for the same key under the same scheme.
pub account_preimage-injective :
    (s t : Scheme) (k l : Bytes) → account_preimage s k ≡ account_preimage t l → (s ≡ t) × (k ≡ l)
unfolding account_preimage
account_preimage-injective s t k l h =
    let same : tag s ∷ (be_bytes 4 (length k) ++ k) ≡ tag t ∷ (be_bytes 4 (length l) ++ l) =
      ap (drop 14) h in
    let keys : be_bytes 4 (length k) ++ k ≡ be_bytes 4 (length l) ++ l = cc same in
    (
      tag-injective s t (cc same),
      sym (drop-append_of 4 (be_bytes 4 (length k)) k (length-be_bytes 4 (length k)))
          ∙ ap (drop 4) keys
          ∙ drop-append_of 4 (be_bytes 4 (length l)) l (length-be_bytes 4 (length l)),
    )
