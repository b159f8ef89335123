-- ===== src/MainLoop.antt =====
-- src/bin/main.rs: `sync_loop` and `audit_block_data`. The ledger database and the watcher database
-- belong to the MobileCoin crates; they are the parameter `Ledger`.
pub mod Audits
pub mod Progress
pub mod Rounds
pub mod Ends
use reserve_auditor.Prelude.{
  ℕ, zero, suc, ◌+◌, ⊤, Bool, true, false, Option, none, some, List, ltb, if◌then◌else◌,
}
use reserve_auditor.Result.{Result, ok, err, panic}
use reserve_auditor.Error.{Error}
use reserve_auditor.Core.{Block, BlockContents, External}
use reserve_auditor.Gnosis.Config.{GnosisSafeConfig}
use reserve_auditor.Db.Models.{Db}
use reserve_auditor.Db.Monad.{Sql, pure, lift, gets, atomic, for_each, log_outcome, ◌>>=◌, ◌>>◌}
use reserve_auditor.Db.BlockAudit.{last_synced_block_index}
use reserve_auditor.Db.SyncBlock.{SyncBlockData, sync_block_with_conn}
use reserve_auditor.Audit.Mint.{try_match_mint_with_deposit}
use reserve_auditor.Audit.Burn.{try_match_burn_with_withdrawal}

-- `LedgerDB::{num_blocks, get_block_data}` and `WatcherDB::poll_block_timestamp`. The ledger grows
-- while the loop runs, so the number of its blocks is that of a round of the loop; a block that is
-- there stays as it is. Without a watcher there is no timestamp.
pub record Ledger : Type 0 where
  pub num_blocks : ℕ → Result Error ℕ
  pub get_block_data : ℕ → Result Error (Block × BlockContents)
  pub poll_block_timestamp : ℕ → Option ℕ

unfoldable pub audit_block_data : SyncBlockData → GnosisSafeConfig → Sql ⊤
audit_block_data sync_block_data config = do
  for_each (λ m. log_outcome (try_match_mint_with_deposit m config)) sync_block_data.mint_txs
  for_each (λ b. log_outcome (try_match_burn_with_withdrawal b config)) sync_block_data.burn_tx_outs

-- without a configuration nothing is audited
abbrev pub audit_if_configured : Option GnosisSafeConfig → SyncBlockData → Sql ⊤
audit_if_configured none sync_block_data = pure tt
audit_if_configured (some config) sync_block_data = audit_block_data sync_block_data config

-- `map(|block_index| block_index + 1).unwrap_or(0)`
abbrev pub next_index : Option ℕ → ℕ
next_index none = 0
next_index (some block_index) = block_index + 1

module _ (x : External) (config : Option GnosisSafeConfig) (ledger : Ledger) where
  -- the closure of `exclusive_transaction`
  unfoldable pub sync_and_audit : Block → BlockContents → Sql ⊤
  sync_and_audit block contents =
      sync_block_with_conn x block contents (ledger.poll_block_timestamp block.index)
      >>= audit_if_configured config

  unfoldable pub sync_next : ℕ → Sql Bool
  sync_next num_blocks_synced = do
    block_data ← lift (ledger.get_block_data num_blocks_synced)
    atomic (sync_and_audit block_data.0 block_data.1)
    pure true

  -- One round of the loop: does it go on? It ends where nothing more is to be synced, and where
  -- more was synced than there is in the ledger.
  unfoldable pub sync_round : ℕ → Sql Bool
  sync_round round = do
    num_blocks_in_ledger ← lift (ledger.num_blocks round)
    num_blocks_synced ← gets (λ db. next_index (last_synced_block_index db))
    if ltb num_blocks_synced num_blocks_in_ledger then sync_next num_blocks_synced else pure false

  -- The `loop`, on fuel; with none left there is no result.
  unfoldable pub sync_loop : ℕ → ℕ → Db → Option (Result Error ⊤ × Db)
  sync_loop zero round db = none
  sync_loop (suc fuel) round db =
      let (r, db') = sync_round round db in
      let rest = sync_loop fuel (round + 1) db' in
      elim r [
        | ok more ↦ (if more then rest else some (ok tt, db'))
        | err e ↦ some (err e, db')
        | panic ↦ some (panic, db')
      ]
