-- ===== src/MainLoop/Rounds.antt =====
-- How a round of the loop ends.
use reserve_auditor.Prelude.{
  ℕ, suc, ◌+◌, ◌<◌, ◌^◌, ◌≡◌, ◌≢◌, ◌∙◌, refl, sym, ap, subst, ⊤, Option, none, some, arith,
}
use reserve_auditor.Result.{Result, ok, err, panic}
use reserve_auditor.Error.{Error}
use reserve_auditor.Core.{Block, BlockContents, External}
use reserve_auditor.Gnosis.Config.{GnosisSafeConfig}
use reserve_auditor.Db.Models.{Db}
use reserve_auditor.Db.Monad.{atomic}
use reserve_auditor.Db.Monad.Outcome.{Outcome, Ends, Outcome-atomic}
use reserve_auditor.Db.Monad.Steps.{Keeps, bind-eq, outcome_then}
use reserve_auditor.Db.SyncBlock.{SyncBlockData, sync_block_with_conn}
use reserve_auditor.Db.SyncBlock.Frame.{blocks_synced}
use reserve_auditor.Db.SyncBlock.Maps.{MintsAreU64}
use reserve_auditor.Db.SyncBlock.Parts.{sync_block-Keeps}
use reserve_auditor.Reserve.{Reserve, apply_block}
use reserve_auditor.Reserve.Refines.{Refined, sync_block_refines}
use reserve_auditor.System.Kept.{AuditIsSound, stores, finishes}
use reserve_auditor.System.Rows.{HasRows, sync_block-HasRows}
use reserve_auditor.MainLoop.{Ledger, audit_block_data, audit_if_configured, sync_and_audit}
use reserve_auditor.MainLoop.Audits.{Tables, tables, audit_block_data-Audits}
use reserve_auditor.MainLoop.Progress.{
  SoundFor, Synchronized, replay, replay_next, reserve_of-tables, InOrder-tables,
}

module _ (x : External) where
  block-SoundFor :
      (config : Option GnosisSafeConfig) (block : Block) (contents : BlockContents) (ts : Option ℕ)
      → Keeps (SoundFor config) (sync_block_with_conn x block contents ts)
  block-SoundFor none block contents ts db h = tt
  block-SoundFor (some config) block contents ts db h =
      sync_block-Keeps (AuditIsSound config) (stores config) (finishes config) x block contents ts
        db h

  -- the audit of a block, where there is one
  Ends-audit :
      (config : GnosisSafeConfig) (db : Db) (r : Result Error ⊤ × Db)
      → AuditIsSound config r.1 × (tables r.1 ≡ tables db)
      → r.0 ≢ panic
      → Ends (λ _ db'. AuditIsSound config db' × (tables db' ≡ tables db)) r
  Ends-audit config db (ok a, db') h n = h
  Ends-audit config db (err e, db') h n = tt
  Ends-audit config db (panic, db') h n = absurd (n refl)

  Ends-audit_if :
      (config : Option GnosisSafeConfig) (result : SyncBlockData) (db : Db)
      → SoundFor config db
      → HasRows result.mint_txs result.burn_tx_outs db
      → Ends
          (λ _ db'. SoundFor config db' × (tables db' ≡ tables db))
          (audit_if_configured config result db)
  Ends-audit_if none r db h rows = (tt, refl)
  Ends-audit_if (some config) r db h rows =
      let (kept, calm) = audit_block_data-Audits config r db h rows in
      Ends-audit config db (audit_block_data r config db) kept calm

Ends-map :
    {A : Type 0} (P Q : A → Db → Type 0) (r : Result Error A × Db)
    → ((a : A) (db' : Db) → P a db' → Q a db')
    → Ends P r
    → Ends Q r
Ends-map P Q (ok a, db') f h = f a db' h
Ends-map P Q (err e, db') f h = tt
Ends-map P Q (panic, db') f h = h

module _ (x : External) (config : Option GnosisSafeConfig) (ledger : Ledger) (db : Db)
    (at : Synchronized x config ledger db) (small : blocks_synced db < 2 ^ 63) (block : Block)
    (contents : BlockContents)
    (next : ledger.get_block_data (blocks_synced db) ≡ ok (block, contents))
    (tokens : MintsAreU64 contents.mint_txs) where
  abbrev ts : Option ℕ
  ts = ledger.poll_block_timestamp block.index

  -- one more block is synced
  abbrev pub Advanced : {A : Type 0} → A → Db → Type 0
  Advanced _ db' = Synchronized x config ledger db' × (blocks_synced db' ≡ blocks_synced db + 1)

  synced_block :
      (r : SyncBlockData) (db' : Db)
      → SoundFor config db'
      → Refined x block contents ts db tokens at.order (omega (arith, small)) r db'
      → Advanced r db'
  synced_block r db' sound (order, shows) =
      let one_more : blocks_synced db' ≡ blocks_synced db + 1 =
        ap (λ (r : Reserve). r.height) shows in
      let as_suc : blocks_synced db' ≡ suc (blocks_synced db) = omega (arith, one_more) in
      (
        record {
          sound = sound;
          order = order;
          reserve =
              shows
              ∙ ap (apply_block x block contents ts) at.reserve
              ∙ ap (λ b. replay_next x ledger b (replay x ledger (blocks_synced db))) (sym next)
              ∙ ap (replay x ledger) (sym as_suc);
        },
        one_more,
      )

  audited_block :
      (r : SyncBlockData) (db1 db2 : Db)
      → Advanced r db1
      → SoundFor config db2 × (tables db2 ≡ tables db1)
      → Advanced tt db2
  audited_block r db1 db2 (s, n) (sound, same) =
      let count : blocks_synced db2 ≡ blocks_synced db1 = ap (λ (t : Tables). t.synced) same in
      (
        record {
          sound = sound;
          order = InOrder-tables x db1 db2 same s.order;
          reserve = reserve_of-tables x db1 db2 same ∙ s.reserve ∙ ap (replay x ledger) (sym count);
        },
        count ∙ n,
      )

  Ends-block :
      (r : Result Error SyncBlockData × Db)
      → sync_block_with_conn x block contents ts db ≡ r
      → SoundFor config r.1
      → Outcome (Refined x block contents ts db tokens at.order (omega (arith, small))) db r
      → Ends Advanced (outcome_then (audit_if_configured config) r)
  Ends-block (ok r, db1) e sound o =
      let s = synced_block r db1 sound o in
      Ends-map (λ _ db2. SoundFor config db2 × (tables db2 ≡ tables db1)) Advanced
        (audit_if_configured config r db1) (λ _ db2 h. audited_block r db1 db2 s h)
        (Ends-audit_if x config r db1 sound (sync_block-HasRows x block contents ts db db1 r e))
  Ends-block (err x, db1) e sound o = tt
  Ends-block (panic, db1) e sound o = o

  sync_and_audit-Ends : Ends Advanced (sync_and_audit x config ledger block contents db)
  unfolding sync_and_audit
  sync_and_audit-Ends =
      subst (Ends Advanced)
        (sym (bind-eq (sync_block_with_conn x block contents ts) (audit_if_configured config) db))
        (Ends-block (sync_block_with_conn x block contents ts db) refl
          (block-SoundFor x config block contents ts db at.sound)
          (sync_block_refines x block contents ts db tokens at.order (omega (arith, small))))

  -- The transaction of a round ends without a panic: one more block is synced, or there is an error
  -- and nothing has changed.
  pub sync_and_audit_lem :
      Outcome Advanced db (atomic (sync_and_audit x config ledger block contents) db)
  sync_and_audit_lem =
      Outcome-atomic Advanced (sync_and_audit x config ledger block contents) db sync_and_audit-Ends
