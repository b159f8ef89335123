-- ===== src/System/Kept.antt =====
-- Steps that store or count keep the audit tables sound.
use reserve_auditor.Prelude.{◌≡◌, refl, ap, ◌∙◌, [], ◌∷◌, inl, inr, arith}
use reserve_auditor.Prelude.Text.{Text}
use reserve_auditor.Core.{External}
use reserve_auditor.Gnosis.Types.{Hex}
use reserve_auditor.Gnosis.Config.{GnosisSafeConfig}
use reserve_auditor.Db.Models.{
  Db, Counters, MintTx, BurnTxOut, GnosisSafeDeposit, GnosisSafeWithdrawal, MintConfig,
  MintConfigTx, BlockAuditData, BlockBalance,
}
use reserve_auditor.Db.Monad.Steps.{Keeps}
use reserve_auditor.Db.Counters.{
  CounterName, inc, bump, num_blocks_synced, num_burns_exceeding_balance,
  num_mint_txs_without_matching_mint_config,
}
use reserve_auditor.Db.Counters.Laws.{inc_lem}
use reserve_auditor.Db.MintTxs.{insert_mint_tx}
use reserve_auditor.Db.MintTxs.Insertion.{insert_mint_tx_cases}
use reserve_auditor.Db.BurnTxOuts.{insert_burn}
use reserve_auditor.Db.BurnTxOuts.Insertion.{insert_burn_cases}
use reserve_auditor.Db.MintConfigs.{insert_mint_config, insert_config_tx_row}
use reserve_auditor.Db.Deposits.{insert_deposit, insert_safe_tx}
use reserve_auditor.Db.Deposits.Insertion.{insert_deposit_cases}
use reserve_auditor.Db.Withdrawals.{insert_withdrawal}
use reserve_auditor.Db.Withdrawals.Insertion.{insert_withdrawal_cases}
use reserve_auditor.Db.BlockAudit.{set_block_audit_data, insert_block_balance}
use reserve_auditor.Db.SyncBlock.Parts.{StoresKeep, FinishKeeps}
use reserve_auditor.Audit.Mint.Sound.{MintsAreSound}
use reserve_auditor.Audit.Burn.Sound.{BurnsAreSound}
use reserve_auditor.Audit.Mint.Keeps.{
  MintsAreSound-frame, insert_mint_tx-MintsAreSound, insert_deposit-MintsAreSound,
}
use reserve_auditor.Audit.Burn.Keeps.{
  BurnsAreSound-frame, insert_burn-BurnsAreSound, insert_withdrawal-BurnsAreSound,
  insert_withdrawal-BurnsAreSound,
}
use reserve_auditor.System.{initial_db}

-- Both audit tables are sound, and there is one counters row.
pub record AuditIsSound (config : GnosisSafeConfig) (db : Db) : Type 0 where
  pub mints : MintsAreSound config db
  pub burns : BurnsAreSound config db
  pub counters : Counters
  pub one : db.counters ≡ counters ∷ []

module _ (config : GnosisSafeConfig) where
  AuditIsSound-frame :
      (db db' : Db) (c : Counters)
      → db'.mint_txs ≡ db.mint_txs
      → db'.gnosis_safe_deposits ≡ db.gnosis_safe_deposits
      → db'.audited_mints ≡ db.audited_mints
      → db'.burn_tx_outs ≡ db.burn_tx_outs
      → db'.gnosis_safe_withdrawals ≡ db.gnosis_safe_withdrawals
      → db'.audited_burns ≡ db.audited_burns
      → db'.counters ≡ c ∷ []
      → AuditIsSound config db
      → AuditIsSound config db'
  AuditIsSound-frame db db' c m d a b w e one h = record {
    mints = MintsAreSound-frame config db db' m d a h.mints;
    burns = BurnsAreSound-frame config db db' b w e h.burns;
    counters = c;
    one = one;
  }

  -- the parts of the database that matter
  abbrev core : Db → Db
  core db = record initial_db {
    mint_txs = db.mint_txs;
    burn_tx_outs = db.burn_tx_outs;
    gnosis_safe_deposits = db.gnosis_safe_deposits;
    gnosis_safe_withdrawals = db.gnosis_safe_withdrawals;
    audited_mints = db.audited_mints;
    audited_burns = db.audited_burns;
    counters = db.counters;
  }

  pub AuditIsSound-core :
      (db db' : Db) → core db' ≡ core db → AuditIsSound config db → AuditIsSound config db'
  AuditIsSound-core db db' e h =
      AuditIsSound-frame db db' h.counters (ap (λ (d : Db). d.mint_txs) e)
        (ap (λ (d : Db). d.gnosis_safe_deposits) e) (ap (λ (d : Db). d.audited_mints) e)
        (ap (λ (d : Db). d.burn_tx_outs) e) (ap (λ (d : Db). d.gnosis_safe_withdrawals) e)
        (ap (λ (d : Db). d.audited_burns) e) (ap (λ (d : Db). d.counters) e ∙ h.one) h

  -- what is counted or stored elsewhere does not matter
  pub inc-AuditIsSound : (n : CounterName) → Keeps (AuditIsSound config) (inc n)
  inc-AuditIsSound n db h = rw (inc_lem n db h.counters h.one) (
      AuditIsSound-frame db (record db { counters = bump n h.counters ∷ [] }) (bump n h.counters)
        refl refl refl refl refl refl refl h)

  insert_config_core : (c : MintConfig) (db : Db) → core (insert_mint_config c db).1 ≡ core db
  unfolding insert_mint_config
  insert_config_core c db = ground arith

  config_row_core :
      (x : External) (t : MintConfigTx) (db : Db) → core (insert_config_tx_row x t db).1 ≡ core db
  unfolding insert_config_tx_row
  config_row_core x t db = ground arith

  pub safe_tx_core : (k j : Text) (db : Db) → core (insert_safe_tx k j db).1 ≡ core db
  unfolding insert_safe_tx
  safe_tx_core k j db = ground arith

  audit_core : (b : BlockAuditData) (db : Db) → core (set_block_audit_data b db).1 ≡ core db
  unfolding set_block_audit_data
  audit_core b db = refl

  balance_core : (b : BlockBalance) (db : Db) → core (insert_block_balance b db).1 ≡ core db
  unfolding insert_block_balance
  balance_core b db = ground arith

  mint-AuditIsSound : (m : MintTx) → Keeps (AuditIsSound config) (insert_mint_tx m)
  mint-AuditIsSound m db h =
      let sound = insert_mint_tx-MintsAreSound config m db h.mints in
      elim (insert_mint_tx_cases m db) [
        | inl stored ↦ record {
          mints = sound;
          burns = rw stored (BurnsAreSound-frame config db _ refl refl refl h.burns);
          counters = h.counters;
          one = rw stored h.one;
        }
        | inr (e, refused) ↦ rw refused h
      ]

  pub deposit-AuditIsSound :
      (hex : Hex) (d : GnosisSafeDeposit) → Keeps (AuditIsSound config) (insert_deposit hex d)
  deposit-AuditIsSound hex d db h =
      let sound = insert_deposit-MintsAreSound config hex d db h.mints in
      elim (insert_deposit_cases hex d db) [
        | inl stored ↦ record {
          mints = sound;
          burns = rw stored (BurnsAreSound-frame config db _ refl refl refl h.burns);
          counters = h.counters;
          one = rw stored h.one;
        }
        | inr (e, refused) ↦ rw refused h
      ]

  burn-AuditIsSound : (b : BurnTxOut) → Keeps (AuditIsSound config) (insert_burn b)
  burn-AuditIsSound b db h =
      let sound = insert_burn-BurnsAreSound config b db h.burns in
      elim (insert_burn_cases b db) [
        | inl stored ↦ record {
          mints = rw stored (MintsAreSound-frame config db _ refl refl refl h.mints);
          burns = sound;
          counters = h.counters;
          one = rw stored h.one;
        }
        | inr (e, refused) ↦ rw refused h
      ]

  pub withdrawal-AuditIsSound :
      (hex : Hex) (w : GnosisSafeWithdrawal) → Keeps (AuditIsSound config) (insert_withdrawal hex w)
  withdrawal-AuditIsSound hex w db h =
      let sound = insert_withdrawal-BurnsAreSound config hex w db h.burns in
      elim (insert_withdrawal_cases hex w db) [
        | inl stored ↦ record {
          mints = rw stored (MintsAreSound-frame config db _ refl refl refl h.mints);
          burns = sound;
          counters = h.counters;
          one = rw stored h.one;
        }
        | inr (e, refused) ↦ rw refused h
      ]

  pub stores : StoresKeep (AuditIsSound config)
  stores = record {
    mint_counter = inc-AuditIsSound num_mint_txs_without_matching_mint_config;
    burn_counter = inc-AuditIsSound num_burns_exceeding_balance;
    mint = mint-AuditIsSound;
    burn = burn-AuditIsSound;
    config = λ c db. AuditIsSound-core db _ (insert_config_core c db);
    config_row = λ x t db. AuditIsSound-core db _ (config_row_core x t db);
  }

  pub finishes : FinishKeeps (AuditIsSound config)
  finishes = record {
    block_counter = inc-AuditIsSound num_blocks_synced;
    audit = λ b db. AuditIsSound-core db _ (audit_core b db);
    balance = λ b db. AuditIsSound-core db _ (balance_core b db);
  }
