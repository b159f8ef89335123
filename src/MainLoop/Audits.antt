-- ===== src/MainLoop/Audits.antt =====
-- The audit of a block that was synced keeps the audit tables sound, and touches neither the tables
-- of the blocks and their balances nor those of mints and burns.
use reserve_auditor.Prelude.{
  ℕ, ◌≡◌, ◌≢◌, ◌∙◌, refl, sym, ap, subst, by_key, some, List, [], ◌∷◌, All, arith,
}
use reserve_auditor.Result.{panic}
use reserve_auditor.Error.{Error}
use reserve_auditor.Gnosis.Config.{GnosisSafeConfig}
use reserve_auditor.Db.Models.{
  Db, Counters, MintTx, BurnTxOut, GnosisSafeDeposit, GnosisSafeWithdrawal, BlockAuditData,
  BlockBalance,
}
use reserve_auditor.Db.Monad.{log_outcome, for_each}
use reserve_auditor.Db.Monad.Calm.{CalmKeeps, CalmKeeps-bind, CalmKeeps-for_each_of}
use reserve_auditor.Db.Counters.{bump}
use reserve_auditor.Db.MintTxs.{mint_key}
use reserve_auditor.Db.BurnTxOuts.{burn_key}
use reserve_auditor.Db.SyncBlock.{SyncBlockData}
use reserve_auditor.Db.SyncBlock.Frame.{blocks_synced}
use reserve_auditor.Audit.Mint.{mint_error_counter, try_match_mint_with_deposit}
use reserve_auditor.Audit.Burn.{burn_error_counter, try_match_burn_with_withdrawal}
use reserve_auditor.Audit.Mint.OutcomeOfMint.{MintMatched, try_match_mint_lem}
use reserve_auditor.Audit.Burn.OutcomeOfBurn.{BurnMatched, try_match_burn_lem}
use reserve_auditor.Audit.Mint.Keeps.{IsStoredMint, deposits_keyed_of_own}
use reserve_auditor.Audit.Burn.Keeps.{IsStoredBurn, withdrawals_keyed_of_own}
use reserve_auditor.System.Kept.{AuditIsSound}
use reserve_auditor.System.Matching.{counted-rest, match_mint-AuditIsSound, match_burn-AuditIsSound}
use reserve_auditor.System.Processing.{log_outcome-db}
use reserve_auditor.System.NewDeposits.{no_panic, log_outcome-no_panic}
use reserve_auditor.Audit.Counting.{Counted}
use reserve_auditor.System.Rows.{HasRows}
use reserve_auditor.MainLoop.{audit_block_data}

-- the tables that the matching only reads, and the number of the blocks
pub record Tables : Type 0 where
  pub synced : ℕ
  pub blocks : List BlockAuditData
  pub balances : List BlockBalance
  pub mints : List MintTx
  pub burns : List BurnTxOut

abbrev pub tables : Db → Tables
tables db = record {
  synced = blocks_synced db;
  blocks = db.block_audit_data;
  balances = db.block_balance;
  mints = db.mint_txs;
  burns = db.burn_tx_outs;
}

mint_counter-blocks :
    (e : Error) (c : Counters)
    → (bump (mint_error_counter e) c).num_blocks_synced ≡ c.num_blocks_synced
unfolding bump
mint_counter-blocks e c = ground arith

burn_counter-blocks :
    (e : Error) (c : Counters)
    → (bump (burn_error_counter e) c).num_blocks_synced ≡ c.num_blocks_synced
unfolding bump
burn_counter-blocks e c = ground arith

module _ (config : GnosisSafeConfig) (t : Tables) where
  -- sound, with these tables
  abbrev pub Audits : Db → Type 0
  Audits db = AuditIsSound config db × (tables db ≡ t)

  counted-tables :
      (db : Db) (c c' : Counters)
      → db.counters ≡ c ∷ []
      → c'.num_blocks_synced ≡ c.num_blocks_synced
      → tables db ≡ t
      → tables (record db { counters = c' ∷ [] }) ≡ t
  counted-tables db c c' one same e =
      let before : blocks_synced db ≡ c.num_blocks_synced = rw one refl in
      ap (λ n. record (tables db) { synced = n }) (same ∙ sym before) ∙ e

  abbrev HasMint : MintTx → Type 0
  HasMint m = (j : ℕ) → m.id ≡ some j → by_key mint_key j t.mints ≡ some m

  abbrev HasBurn : BurnTxOut → Type 0
  HasBurn b = (j : ℕ) → b.id ≡ some j → by_key burn_key j t.burns ≡ some b

  match_mint-Audits :
      (m : MintTx)
      → HasMint m
      → CalmKeeps Audits (log_outcome (try_match_mint_with_deposit m config))
  match_mint-Audits m stored db (h, e) =
      let row : IsStoredMint db m =
        subst (λ (u : Tables). (j : ℕ) → m.id ≡ some j → by_key mint_key j u.mints ≡ some m) (sym e)
          stored in
      let outcome : Counted (MintMatched config m db) mint_error_counter db h.counters
          (try_match_mint_with_deposit m config db) =
        try_match_mint_lem m config db h.counters h.one
          (deposits_keyed_of_own db h.mints.deposits) in
      let matched : Audits (try_match_mint_with_deposit m config db).1 = (
        match_mint-AuditIsSound config db m row h,
        counted-rest config (λ db'. tables db' ≡ t) (MintMatched config m db) mint_error_counter db
            h.counters _
            (λ x.
              counted-tables db h.counters (bump (mint_error_counter x) h.counters) h.one
                (mint_counter-blocks x h.counters) e)
            (λ d db' w. rw w.recorded e) outcome,
      ) in
      (
        subst Audits
            (sym (log_outcome-db {A = GnosisSafeDeposit} (try_match_mint_with_deposit m config) db))
            matched,
        log_outcome-no_panic {A = GnosisSafeDeposit} (try_match_mint_with_deposit m config) db
            (no_panic (MintMatched config m db) mint_error_counter db h.counters _ outcome),
      )

  match_burn-Audits :
      (b : BurnTxOut)
      → HasBurn b
      → CalmKeeps Audits (log_outcome (try_match_burn_with_withdrawal b config))
  match_burn-Audits b stored db (h, e) =
      let row : IsStoredBurn db b =
        subst (λ (u : Tables). (j : ℕ) → b.id ≡ some j → by_key burn_key j u.burns ≡ some b) (sym e)
          stored in
      let outcome : Counted (BurnMatched config b db) burn_error_counter db h.counters
          (try_match_burn_with_withdrawal b config db) =
        try_match_burn_lem b config db h.counters h.one
          (withdrawals_keyed_of_own db h.burns.withdrawals) in
      let matched : Audits (try_match_burn_with_withdrawal b config db).1 = (
        match_burn-AuditIsSound config db b row h,
        counted-rest config (λ db'. tables db' ≡ t) (BurnMatched config b db) burn_error_counter db
            h.counters _
            (λ x.
              counted-tables db h.counters (bump (burn_error_counter x) h.counters) h.one
                (burn_counter-blocks x h.counters) e)
            (λ d db' w. rw w.recorded e) outcome,
      ) in
      (
        subst Audits
            (sym (
              log_outcome-db {A = GnosisSafeWithdrawal} (try_match_burn_with_withdrawal b config)
                db))
            matched,
        log_outcome-no_panic {A = GnosisSafeWithdrawal} (try_match_burn_with_withdrawal b config) db
            (no_panic (BurnMatched config b db) burn_error_counter db h.counters _ outcome),
      )

  audit-Audits :
      (r : SyncBlockData)
      → All HasMint r.mint_txs
      → All HasBurn r.burn_tx_outs
      → CalmKeeps Audits (audit_block_data r config)
  unfolding audit_block_data
  audit-Audits r ms bs =
      CalmKeeps-bind Audits
        (for_each (λ m. log_outcome (try_match_mint_with_deposit m config)) r.mint_txs)
        (λ _. for_each (λ b. log_outcome (try_match_burn_with_withdrawal b config)) r.burn_tx_outs)
        (CalmKeeps-for_each_of Audits HasMint
          (λ m. log_outcome (try_match_mint_with_deposit m config)) match_mint-Audits r.mint_txs ms)
        (λ _.
          CalmKeeps-for_each_of Audits HasBurn
            (λ b. log_outcome (try_match_burn_with_withdrawal b config)) match_burn-Audits
            r.burn_tx_outs bs)

-- Auditing the rows of a block that are in the database does not panic, keeps the audit tables
-- sound, and leaves the other tables as they are.
pub audit_block_data-Audits :
    (config : GnosisSafeConfig) (r : SyncBlockData) (db : Db)
    → AuditIsSound config db
    → HasRows r.mint_txs r.burn_tx_outs db
    → Audits config (tables db) (audit_block_data r config db).1
      × ((audit_block_data r config db).0 ≢ panic)
audit_block_data-Audits config r db h rows =
    audit-Audits config (tables db) r rows.0 rows.1 db (h, refl)
