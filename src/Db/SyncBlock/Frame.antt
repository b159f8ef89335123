-- ===== src/Db/SyncBlock/Frame.antt =====
-- What the first steps of a block leave alone: mint configurations, mints and burns are stored, and
-- anomalies counted, but no other table changes, nor the number of the blocks that were synced.
use reserve_auditor.Prelude.{ℕ, Option, List, [], ◌∷◌, ◌≡◌, arith}
use reserve_auditor.Core.{CoreMintConfigTx, CoreMintTx, External}
use reserve_auditor.Db.Models.{
  Db, BlockAuditData, BlockBalance, GnosisSafeTx, GnosisSafeDeposit, GnosisSafeWithdrawal,
  AuditedMint, AuditedBurn, MintConfig, MintConfigTx, MintTx, BurnTxOut,
}
use reserve_auditor.Db.Monad.Steps.{Keeps}
use reserve_auditor.Db.Counters.{
  inc, bump, num_burns_exceeding_balance, num_mint_txs_without_matching_mint_config,
}
use reserve_auditor.Db.MintTxs.{insert_mint_tx}
use reserve_auditor.Db.MintConfigs.{insert_mint_config, insert_config_tx_row}
use reserve_auditor.Db.BurnTxOuts.{insert_burn}
use reserve_auditor.Db.BlockAudit.{BalanceMap}
use reserve_auditor.Db.SyncBlock.{store_config_txs, process_mints, process_burns}
use reserve_auditor.Db.SyncBlock.Parts.{
  StoresKeep, config_txs-Keeps, process_mints-Keeps, process_burns-Keeps,
}

abbrev pub blocks_synced : Db → ℕ
blocks_synced db = elim db.counters [ [] ↦ 0 | c ∷ _ ↦ c.num_blocks_synced ]

pub record View : Type 0 where
  pub synced : ℕ
  pub audit : List BlockAuditData
  pub balances : List BlockBalance
  pub safe_txs : List GnosisSafeTx
  pub deposits : List GnosisSafeDeposit
  pub withdrawals : List GnosisSafeWithdrawal
  pub mints : List AuditedMint
  pub burns : List AuditedBurn

abbrev pub view : Db → View
view db = record {
  synced = blocks_synced db;
  audit = db.block_audit_data;
  balances = db.block_balance;
  safe_txs = db.gnosis_safe_txs;
  deposits = db.gnosis_safe_deposits;
  withdrawals = db.gnosis_safe_withdrawals;
  mints = db.audited_mints;
  burns = db.audited_burns;
}

module _ (v : View) where
  abbrev pub Shows : Db → Type 0
  Shows db = view db ≡ v

  inc_mint-Shows : Keeps Shows (inc num_mint_txs_without_matching_mint_config)
  unfolding inc bump
  inc_mint-Shows db h = ground arith

  inc_burn-Shows : Keeps Shows (inc num_burns_exceeding_balance)
  unfolding inc bump
  inc_burn-Shows db h = ground arith

  insert_mint-Shows : (m : MintTx) → Keeps Shows (insert_mint_tx m)
  unfolding insert_mint_tx
  insert_mint-Shows m db h = ground arith

  insert_burn-Shows : (b : BurnTxOut) → Keeps Shows (insert_burn b)
  unfolding insert_burn
  insert_burn-Shows b db h = ground arith

  insert_config-Shows : (c : MintConfig) → Keeps Shows (insert_mint_config c)
  unfolding insert_mint_config
  insert_config-Shows c db h = ground arith

  config_row-Shows : (x : External) (t : MintConfigTx) → Keeps Shows (insert_config_tx_row x t)
  unfolding insert_config_tx_row
  config_row-Shows x t db h = ground arith

  Shows-StoresKeep : StoresKeep Shows
  Shows-StoresKeep = record {
    mint_counter = inc_mint-Shows;
    burn_counter = inc_burn-Shows;
    mint = insert_mint-Shows;
    burn = insert_burn-Shows;
    config = insert_config-Shows;
    config_row = config_row-Shows;
  }

  pub config_txs-Shows :
      (x : External) (i : ℕ) (ts : Option ℕ) (txs : List CoreMintConfigTx)
      → Keeps Shows (store_config_txs x i ts txs)
  config_txs-Shows x = config_txs-Keeps Shows Shows-StoresKeep x

  pub process_mints-Shows :
      (x : External) (i : ℕ) (ts : Option ℕ) (txs : List CoreMintTx) (m : BalanceMap)
      → Keeps Shows (process_mints x i ts txs m)
  process_mints-Shows x = process_mints-Keeps Shows Shows-StoresKeep x

  pub process_burns-Shows :
      (burns : List BurnTxOut) (m : BalanceMap) → Keeps Shows (process_burns burns m)
  process_burns-Shows = process_burns-Keeps Shows Shows-StoresKeep
