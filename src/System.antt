-- ===== src/System.antt =====
-- The auditor's operations on its database as steps, in any order: blocks are synced by one thread
-- (src/bin/main.rs), transactions of the safe are stored by another (src/gnosis/sync.rs), and both
-- match what they have stored. Each step is one call on a connection, whatever its result; that
-- SQLite runs the transactions of two connections one after the other is taken for granted. What
-- is matched is a row of the database, as the callers hand on rows that they inserted or loaded.
pub mod Kept
pub mod Matching
pub mod Processing
pub mod Polling
pub mod Again
pub mod NewDeposits
pub mod EthereumTxs
pub mod DepositTxs
pub mod Rows
pub mod Sound
use reserve_auditor.Prelude.{ℕ, Option, [], ◌∷◌, In}
use reserve_auditor.Prelude.Text.{Text}
use reserve_auditor.Core.{Block, BlockContents, External}
use reserve_auditor.Gnosis.Config.{AuditedSafeConfig, GnosisSafeConfig}
use reserve_auditor.Db.Models.{Db, MintTx, BurnTxOut, GnosisSafeDeposit, GnosisSafeWithdrawal}
use reserve_auditor.Db.Counters.{
  inc, zero_counters, num_invalid_ethereum_transactions, num_invalid_multi_sig_transactions,
}
use reserve_auditor.Db.Deposits.{insert_deposit, insert_safe_tx}
use reserve_auditor.Db.Withdrawals.{insert_withdrawal}
use reserve_auditor.Db.SyncBlock.{sync_block_with_conn}
use reserve_auditor.Audit.Mint.{try_match_deposit_with_mint, try_match_mint_with_deposit}
use reserve_auditor.Audit.Burn.{try_match_withdrawal_with_burn, try_match_burn_with_withdrawal}
use reserve_auditor.Audit.Mint.Keeps.{IsStoredDeposit, IsStoredMint}
use reserve_auditor.Audit.Burn.Keeps.{IsStoredWithdrawal, IsStoredBurn}

-- the database that the migrations and `Counters::ensure_exists` leave
abbrev pub initial_db : Db
initial_db = record {
  block_audit_data = [];
  block_balance = [];
  mint_config_txs = [];
  mint_configs = [];
  mint_txs = [];
  burn_tx_outs = [];
  gnosis_safe_txs = [];
  gnosis_safe_deposits = [];
  gnosis_safe_withdrawals = [];
  audited_mints = [];
  audited_burns = [];
  counters = zero_counters ∷ [];
}

-- the databases that steps lead to
pub data Reachable (x : External) (config : GnosisSafeConfig) : Db → Type 0 where
  start : Reachable x config initial_db
  sync_block :
      (db : Db) (block : Block) (contents : BlockContents) (timestamp : Option ℕ)
      → Reachable x config db
      → Reachable x config (sync_block_with_conn x block contents timestamp db).1
  store_safe_tx :
      (db : Db) (eth_tx_hash raw_tx_json : Text)
      → Reachable x config db
      → Reachable x config (insert_safe_tx eth_tx_hash raw_tx_json db).1
  store_deposit :
      (db : Db) (d : GnosisSafeDeposit)
      → Reachable x config db
      → Reachable x config (insert_deposit x.hex d db).1
  store_withdrawal :
      (db : Db) (w : GnosisSafeWithdrawal)
      → Reachable x config db
      → Reachable x config (insert_withdrawal x.hex w db).1
  match_deposit :
      (db : Db) (safe : AuditedSafeConfig) (d : GnosisSafeDeposit)
      → In safe config.safes
      → IsStoredDeposit db d
      → Reachable x config db
      → Reachable x config (try_match_deposit_with_mint d safe db).1
  match_mint :
      (db : Db) (m : MintTx)
      → IsStoredMint db m
      → Reachable x config db
      → Reachable x config (try_match_mint_with_deposit m config db).1
  match_withdrawal :
      (db : Db) (safe : AuditedSafeConfig) (w : GnosisSafeWithdrawal)
      → In safe config.safes
      → IsStoredWithdrawal db w
      → Reachable x config db
      → Reachable x config (try_match_withdrawal_with_burn w safe db).1
  match_burn :
      (db : Db) (b : BurnTxOut)
      → IsStoredBurn db b
      → Reachable x config db
      → Reachable x config (try_match_burn_with_withdrawal b config db).1
  -- a transaction that cannot be read is counted
  count_invalid_ethereum_transaction :
      (db : Db)
      → Reachable x config db
      → Reachable x config (inc num_invalid_ethereum_transactions db).1
  count_invalid_multi_sig_transaction :
      (db : Db)
      → Reachable x config db
      → Reachable x config (inc num_invalid_multi_sig_transactions db).1
