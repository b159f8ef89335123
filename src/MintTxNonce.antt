-- ===== src/MintTxNonce.antt =====
-- src/mint_tx_nonce.rs: what a MintTx nonce encodes. NONCE_LENGTH comes from mc_transaction_core;
-- it is 64, as the tests of that file have it.
pub mod RoundTrip
use reserve_auditor.Prelude.{
  ℕ, ◌+◌, ◌-◌, ◌==◌, Bool, not, List, [], ◌∷◌, ◌++◌, length, take, drop, replicate, if◌then◌else◌,
}
use reserve_auditor.Prelude.Text.{Text, text_eq}
use reserve_auditor.Result.{Result, ok, err, map_err, ◌>>=◌, ◌>>◌, err_if}
use reserve_auditor.Gnosis.Types.{EthTxHash, hash_len, hash_try_from}
use reserve_auditor.Error.{Error, invalid_length, invalid_nonce_identifier, gnosis}

abbrev pub nonce_length : ℕ
nonce_length = 64

abbrev pub identifier_len : ℕ
identifier_len = 1

abbrev pub ethereum_gnosis_deposit_identifier : Text
ethereum_gnosis_deposit_identifier = 0x01 ∷ []

pub data MintTxNonce : Type 0 where
  ethereum_gnosis_deposit : EthTxHash → MintTxNonce

-- `dst[0..].copy_from_slice(src)` at a position, for a source that fits
abbrev pub copy_at : ℕ → Text → Text → Text
copy_at at src dst = take at dst ++ (src ++ drop (at + length src) dst)

unfoldable pub to_bytes : MintTxNonce → Text
to_bytes (ethereum_gnosis_deposit eth_tx_hash) =
    copy_at identifier_len eth_tx_hash.bytes
      (copy_at 0 ethereum_gnosis_deposit_identifier (replicate nonce_length 0))

-- the 32 bytes behind the identifier
abbrev pub decode_deposit : Text → Result Error MintTxNonce
decode_deposit bytes = do
  eth_tx_hash ← map_err gnosis (hash_try_from (take hash_len (drop identifier_len bytes)))
  ok (ethereum_gnosis_deposit eth_tx_hash)

-- `TryFrom<&[u8]>`
unfoldable pub try_from : Text → Result Error MintTxNonce
try_from bytes = do
  err_if (not (length bytes == nonce_length)) (invalid_length nonce_length (length bytes))
  if text_eq (take identifier_len bytes) ethereum_gnosis_deposit_identifier
      then decode_deposit bytes
      else err invalid_nonce_identifier
