-- ===== src/Core.antt =====
-- What the program uses of the MobileCoin crates, which are not part of the repository: the fields
-- that it reads of their structs, and their functions as the parameter `External`. Signatures,
-- signer sets and keys are only handed on; they are bytes here.
use reserve_auditor.Prelude.{ℕ, Bool, Option, List}
use reserve_auditor.Prelude.Text.{Text}
use reserve_auditor.Gnosis.Types.{Hex}

-- `mc_transaction_core::mint::MintConfig`
pub record CoreMintConfig : Type 0 where
  pub token_id : ℕ
  pub signer_set : Text
  pub mint_limit : ℕ

-- `mc_transaction_core::mint::MintConfigTx`, with the fields of its prefix
pub record CoreMintConfigTx : Type 0 where
  pub token_id : ℕ
  pub configs : List CoreMintConfig
  pub nonce : Text
  pub total_mint_limit : ℕ
  pub tombstone_block : ℕ
  pub signature : Text

-- `mc_transaction_core::mint::MintTx`, with the fields of its prefix
pub record CoreMintTx : Type 0 where
  pub token_id : ℕ
  pub amount : ℕ
  pub nonce : Text
  pub view_public_key : Text
  pub spend_public_key : Text
  pub tombstone_block : ℕ
  pub signature : Text

-- `mc_transaction_core::Amount`
pub record Amount : Type 0 where
  pub value : ℕ
  pub token_id : ℕ

-- `mc_transaction_core::tx::TxOut`: the public key, and the rest that only the crates read
pub record TxOut : Type 0 where
  pub public_key : Text
  pub rest : Text

-- `mc_blockchain_types::Block`
pub record Block : Type 0 where
  pub index : ℕ

-- `mc_blockchain_types::BlockContents`
pub record BlockContents : Type 0 where
  pub validated_mint_config_txs : List CoreMintConfigTx
  pub mint_txs : List CoreMintTx
  pub outputs : List TxOut

pub record External : Type 0 where
  pub hex : Hex
  -- `mc_util_serial::{encode, decode}`
  pub encode_mint_config_tx : CoreMintConfigTx → Text
  pub decode_mint_config_tx : Text → Option CoreMintConfigTx
  pub encode_mint_config : CoreMintConfig → Text
  pub decode_mint_config : Text → Option CoreMintConfig
  pub encode_mint_tx : CoreMintTx → Text
  pub encode_tx_out : TxOut → Text
  -- `prefix.hash()`
  pub prefix_hash : CoreMintTx → Text
  -- `signer_set.verify(message, signature).is_ok()`
  pub verify : Text → Text → Text → Bool
  -- `PrintableWrapper::b58_encode` of the address of a spend key and a view key
  pub b58_encode : Text → Text → Option Text
  -- `view_key_match(&burn_address_view_private())`
  pub view_key_match : TxOut → Option Amount
