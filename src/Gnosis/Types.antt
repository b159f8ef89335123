-- ===== src/Gnosis/Types.antt =====
-- src/gnosis/eth_data_types.rs: transaction values, addresses and transaction hashes. The crate
-- `hex` is the parameter `Hex`.
pub mod Laws
use reserve_auditor.Prelude.{
  ℕ, ◌^◌, ◌<◌, ◌≡◌, Bool, not, Option, none, some, List, [], ◌∷◌, ◌++◌, length, drop, All, ◌==◌,
  ltb, if◌then◌else◌,
}
use reserve_auditor.Prelude.Text.{Text, text, text_eq, starts_with, to_lowercase}
use reserve_auditor.Result.{Result, ok, err, panic, ◌>>=◌, ◌>>◌, ok_or, err_if}
use reserve_auditor.Gnosis.Error.{GnosisError, invalid_address, invalid_tx_hash, invalid_tx_value}

-- `hex::encode` and `hex::decode`
pub record Hex : Type 0 where
  pub encode : Text → Text
  pub decode : Text → Option Text

-- `EthTxValue(pub u128)`
abbrev pub EthTxValue : Type 0
EthTxValue = ℕ

abbrev pub u128_mod : ℕ
u128_mod = 2 ^ 128

-- `EthAddr(pub String)`: the capitals are kept.
pub record EthAddr : Type 0 where
  pub string : Text

abbrev pub addr_len : ℕ
addr_len = 20

abbrev pub prefix_0x : Text
prefix_0x = text "0x"

-- `EthAddr::eq`: on the lower-case texts
unfoldable pub addr_eq : EthAddr → EthAddr → Bool
addr_eq a b = text_eq (to_lowercase a.string) (to_lowercase b.string)

-- `EthTxHash(pub [u8; 32])`; that there are 32 bytes is `IsHash`.
pub record EthTxHash : Type 0 where
  pub bytes : Text

abbrev pub hash_len : ℕ
hash_len = 32

abbrev pub IsHash : EthTxHash → Type 0
IsHash h = length h.bytes ≡ hash_len

abbrev pub hash_eq : EthTxHash → EthTxHash → Bool
hash_eq a b = text_eq a.bytes b.bytes

-- `TryFrom<&[u8]>`
unfoldable pub hash_try_from : Text → Result GnosisError EthTxHash
hash_try_from src =
    if length src == hash_len then ok (record { bytes = src }) else err invalid_tx_hash

module _ (hex : Hex) where
  -- `EthAddr::from_str`
  unfoldable pub addr_from_str : Text → Result GnosisError EthAddr
  addr_from_str src = do
    err_if (length src == 0) invalid_address
    err_if (not (starts_with src prefix_0x)) invalid_address
    bytes ← ok_or (hex.decode (drop 2 src)) invalid_address
    err_if (not (length bytes == addr_len)) invalid_address
    ok (record { string = src })

  -- `EthTxHash::from_str`
  unfoldable pub hash_from_str : Text → Result GnosisError EthTxHash
  unfolding hash_try_from
  hash_from_str src = do
    err_if (not (starts_with src prefix_0x)) invalid_tx_hash
    bytes ← ok_or (hex.decode (drop 2 src)) invalid_tx_hash
    hash_try_from bytes

  -- `Display for EthTxHash`
  unfoldable pub hash_to_string : EthTxHash → Text
  hash_to_string h = prefix_0x ++ hex.encode h.bytes
