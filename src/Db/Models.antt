-- ===== src/Db/Models.antt =====
-- The rows of the tables (the structs of src/db/models) and the database.
use reserve_auditor.Prelude.{ℕ, Option, List}
use reserve_auditor.Prelude.Int.{ℤ}
use reserve_auditor.Prelude.Text.{Text}
use reserve_auditor.Gnosis.Types.{EthAddr, EthTxHash, EthTxValue}

pub record BlockAuditData : Type 0 where
  pub block_index : ℤ

pub record BlockBalance : Type 0 where
  pub block_index : ℤ
  pub token_id : ℤ
  pub balance : ℤ

pub record MintConfigTx : Type 0 where
  pub id : Option ℕ
  pub block_index : ℤ
  pub block_timestamp : Option ℕ
  pub token_id : ℤ
  pub nonce_hex : Text
  pub total_mint_limit : ℤ
  pub tombstone_block : ℤ
  pub protobuf : Text

pub record MintConfig : Type 0 where
  pub id : Option ℕ
  pub mint_config_tx_id : ℕ
  pub mint_limit : ℤ
  pub protobuf : Text

pub record MintTx : Type 0 where
  pub id : Option ℕ
  pub block_index : ℤ
  pub block_timestamp : Option ℕ
  pub token_id : ℤ
  pub amount : ℤ
  pub nonce_hex : Text
  pub recipient_b58_addr : Text
  pub tombstone_block : ℤ
  pub protobuf : Text
  pub mint_config_id : Option ℕ

pub record BurnTxOut : Type 0 where
  pub id : Option ℕ
  pub block_index : ℤ
  pub block_timestamp : Option ℕ
  pub token_id : ℤ
  pub amount : ℤ
  pub public_key_hex : Text
  pub protobuf : Text

pub record GnosisSafeTx : Type 0 where
  pub eth_tx_hash : Text
  pub raw_tx_json : Text

pub record GnosisSafeDeposit : Type 0 where
  pub id : Option ℕ
  pub eth_tx_hash : EthTxHash
  pub execution_date : ℕ
  pub eth_tx_value : EthTxValue
  pub eth_block_number : ℤ
  pub safe_addr : EthAddr
  pub token_addr : EthAddr
  pub from_addr : EthAddr
  pub amount : ℤ
  pub expected_mc_mint_tx_nonce_hex : Text

pub record GnosisSafeWithdrawal : Type 0 where
  pub id : Option ℕ
  pub eth_tx_hash : EthTxHash
  pub execution_date : ℕ
  pub eth_tx_value : EthTxValue
  pub eth_block_number : ℤ
  pub safe_addr : EthAddr
  pub token_addr : EthAddr
  pub to_addr : EthAddr
  pub amount : ℤ
  pub mc_tx_out_public_key_hex : Text

pub record AuditedMint : Type 0 where
  pub id : Option ℕ
  pub mint_tx_id : ℕ
  pub gnosis_safe_deposit_id : ℕ

pub record AuditedBurn : Type 0 where
  pub id : Option ℕ
  pub burn_tx_out_id : ℕ
  pub gnosis_safe_withdrawal_id : ℕ

-- The counters are `i64` columns that start at 0 and are only ever increased by one; that no column
-- reaches 2 ^ 63 is taken for granted, and they are numbers.
pub record Counters : Type 0 where
  pub num_blocks_synced : ℕ
  pub num_burns_exceeding_balance : ℕ
  pub num_mint_txs_without_matching_mint_config : ℕ
  pub num_mismatching_mints_and_deposits : ℕ
  pub num_mismatching_burns_and_withdrawals : ℕ
  pub num_unknown_ethereum_token_deposits : ℕ
  pub num_unknown_ethereum_token_withdrawals : ℕ
  pub num_mints_to_unknown_safe : ℕ
  pub num_burns_from_unknown_safe : ℕ
  pub num_invalid_ethereum_transactions : ℕ
  pub num_invalid_multi_sig_transactions : ℕ
  pub num_unexpected_errors_matching_deposits_to_mints : ℕ
  pub num_unexpected_errors_matching_mints_to_deposits : ℕ
  pub num_unexpected_errors_matching_withdrawals_to_burns : ℕ
  pub num_unexpected_errors_matching_burns_to_withdrawals : ℕ

pub record Db : Type 0 where
  pub block_audit_data : List BlockAuditData
  pub block_balance : List BlockBalance
  pub mint_config_txs : List MintConfigTx
  pub mint_configs : List MintConfig
  pub mint_txs : List MintTx
  pub burn_tx_outs : List BurnTxOut
  pub gnosis_safe_txs : List GnosisSafeTx
  pub gnosis_safe_deposits : List GnosisSafeDeposit
  pub gnosis_safe_withdrawals : List GnosisSafeWithdrawal
  pub audited_mints : List AuditedMint
  pub audited_burns : List AuditedBurn
  pub counters : List Counters
