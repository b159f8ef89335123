-- ===== src/Examples/Steps.antt =====
-- A first block, and then a deposit.
use reserve_auditor.Prelude.{none}
use reserve_auditor.Prelude.Text.{text}
use reserve_auditor.Db.Models.{Db, GnosisSafeDeposit}
use reserve_auditor.Db.Deposits.{insert_deposit, insert_safe_tx}
use reserve_auditor.Db.SyncBlock.{sync_block_with_conn}
use reserve_auditor.Gnosis.Types.{hash_to_string}
use reserve_auditor.System.{Reachable, initial_db, start, sync_block, store_safe_tx, store_deposit}
use reserve_auditor.System.Kept.{AuditIsSound}
use reserve_auditor.System.Sound.{Reachable-AuditIsSound}
use reserve_auditor.Examples.Data.{external, hex, config, block, contents, deposit, tx_hash}

abbrev incoming_deposit : GnosisSafeDeposit
incoming_deposit = record deposit { id = none }

-- after the block
abbrev synced_db : Db
synced_db = (sync_block_with_conn external block contents none initial_db).1

-- after the transaction of the safe
abbrev safe_tx_db : Db
safe_tx_db = (insert_safe_tx (hash_to_string hex tx_hash) (text "{}") synced_db).1

-- after its deposit
abbrev deposit_db : Db
deposit_db = (insert_deposit hex incoming_deposit safe_tx_db).1

deposit_db-Reachable : Reachable external config deposit_db
deposit_db-Reachable = store_deposit safe_tx_db incoming_deposit (
    store_safe_tx synced_db (hash_to_string hex tx_hash) (text "{}")
      (sync_block initial_db block contents none start))

Reachable-AuditIsSound_example : AuditIsSound config deposit_db
Reachable-AuditIsSound_example =
    Reachable-AuditIsSound external config deposit_db deposit_db-Reachable
