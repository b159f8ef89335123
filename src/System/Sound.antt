-- ===== src/System/Sound.antt =====
-- Whatever the order of the steps, the audit tables are sound.
use reserve_auditor.Prelude.{refl}
use reserve_auditor.Core.{External}
use reserve_auditor.Gnosis.Config.{GnosisSafeConfig}
use reserve_auditor.Db.Models.{Db}
use reserve_auditor.Db.Counters.{
  zero_counters, num_invalid_ethereum_transactions, num_invalid_multi_sig_transactions,
}
use reserve_auditor.Db.SyncBlock.Parts.{sync_block-Keeps}
use reserve_auditor.System.Kept.{
  AuditIsSound, AuditIsSound-core, safe_tx_core, deposit-AuditIsSound, withdrawal-AuditIsSound,
  stores, finishes, inc-AuditIsSound,
}
use reserve_auditor.System.Matching.{
  match_deposit-AuditIsSound, match_mint-AuditIsSound, match_withdrawal-AuditIsSound,
  match_burn-AuditIsSound,
}
use reserve_auditor.System.{
  Reachable, initial_db, start, sync_block, store_safe_tx, store_deposit, store_withdrawal,
  match_deposit, match_mint, match_withdrawal, match_burn, count_invalid_ethereum_transaction,
  count_invalid_multi_sig_transaction,
}

pub initial-AuditIsSound : (config : GnosisSafeConfig) → AuditIsSound config initial_db
initial-AuditIsSound config = record {
  mints = record { mints = tt; deposits = tt; rows = tt; one_mint = tt; one_deposit = tt };
  burns = record { burns = tt; withdrawals = tt; rows = tt; one_burn = tt; one_withdrawal = tt };
  counters = zero_counters;
  one = refl;
}

-- In every database that the steps lead to from the initial one, in any order and with any results,
-- both audit tables are sound: every row of them refers to a mint and a deposit, or a burn and a
-- withdrawal, that belong together in a safe of the configuration, and none of these is in two
-- rows. The counters have exactly one row.
pub Reachable-AuditIsSound :
    (x : External) (config : GnosisSafeConfig) (db : Db)
    → Reachable x config db
    → AuditIsSound config db
Reachable-AuditIsSound x config _ start = initial-AuditIsSound config
Reachable-AuditIsSound x config _ (sync_block db b c t r) =
    sync_block-Keeps (AuditIsSound config) (stores config) (finishes config) x b c t db
      (Reachable-AuditIsSound x config db r)
Reachable-AuditIsSound x config _ (store_safe_tx db k j r) =
    AuditIsSound-core config db _ (safe_tx_core config k j db)
      (Reachable-AuditIsSound x config db r)
Reachable-AuditIsSound x config _ (store_deposit db d r) =
    deposit-AuditIsSound config x.hex d db (Reachable-AuditIsSound x config db r)
Reachable-AuditIsSound x config _ (store_withdrawal db w r) =
    withdrawal-AuditIsSound config x.hex w db (Reachable-AuditIsSound x config db r)
Reachable-AuditIsSound x config _ (match_deposit db safe d i stored r) =
    match_deposit-AuditIsSound config db safe d i stored (Reachable-AuditIsSound x config db r)
Reachable-AuditIsSound x config _ (match_mint db m stored r) =
    match_mint-AuditIsSound config db m stored (Reachable-AuditIsSound x config db r)
Reachable-AuditIsSound x config _ (match_withdrawal db safe w i stored r) =
    match_withdrawal-AuditIsSound config db safe w i stored (Reachable-AuditIsSound x config db r)
Reachable-AuditIsSound x config _ (match_burn db b stored r) =
    match_burn-AuditIsSound config db b stored (Reachable-AuditIsSound x config db r)
Reachable-AuditIsSound x config _ (count_invalid_ethereum_transaction db r) =
    inc-AuditIsSound config num_invalid_ethereum_transactions db
      (Reachable-AuditIsSound x config db r)
Reachable-AuditIsSound x config _ (count_invalid_multi_sig_transaction db r) =
    inc-AuditIsSound config num_invalid_multi_sig_transactions db
      (Reachable-AuditIsSound x config db r)
