-- ===== src/Examples/Loop.antt =====
-- A ledger with one block, and the loop over it from the initial database.
use reserve_auditor.Prelude.{
  ◌≡◌, ◌==◌, refl, subst, none, some, Bool-cases, inl, inr, if◌then◌else◌, arith,
}
use reserve_auditor.Result.{Result, ok, err}
use reserve_auditor.Error.{Error, ledger_db}
use reserve_auditor.Core.{BlockContents}
use reserve_auditor.Db.BlockAudit.{balance_of}
use reserve_auditor.Db.Monad.Outcome.{Outcome}
use reserve_auditor.Db.SyncBlock.{sync_block_with_conn, previous_balances}
use reserve_auditor.Db.SyncBlock.Maps.{MintsAreU64}
use reserve_auditor.Reserve.{InOrder}
use reserve_auditor.Reserve.Refines.{Refined, sync_block_refines}
use reserve_auditor.System.{initial_db}
use reserve_auditor.System.Sound.{initial-AuditIsSound}
use reserve_auditor.MainLoop.{Ledger, sync_loop}
use reserve_auditor.MainLoop.Progress.{Synchronized}
use reserve_auditor.MainLoop.Ends.{IsLedger, LoopEnds, sync_loop_ends}
use reserve_auditor.Db.Models.{Db}
use reserve_auditor.Examples.Data.{external, config, block, contents}

abbrev ledger : Ledger
ledger = record {
  num_blocks = λ _. ok 1;
  get_block_data = λ n. if n == 0 then ok (block, contents) else err ledger_db;
  poll_block_timestamp = λ _. none;
}

contents-u64 : MintsAreU64 contents.mint_txs
contents-u64 = (omega arith, tt)

ledger-IsLedger : IsLedger ledger 1
ledger-IsLedger = record {
  small = omega arith;
  bounded = λ round n e. ground arith;
  tokens = λ n b cs e. elim (Bool-cases (n == 0)) [
    | inl first ↦
        let same : contents ≡ cs = ground arith in
        subst (λ (c : BlockContents). MintsAreU64 c.mint_txs) same contents-u64
    | inr later ↦ ground arith
  ];
  counts = λ round. cc;
  answers = λ n. ground arith;
}

initial-InOrder : InOrder initial_db
initial-InOrder = record { blocks = refl; balances = tt }

initial-Synchronized : Synchronized external (some config) ledger initial_db
unfolding previous_balances balance_of
initial-Synchronized = record {
  sound = initial-AuditIsSound config;
  order = initial-InOrder;
  reserve = refl;
}

sync_loop_ends_example :
    (r : Result Error Unit × Db) × (sync_loop external (some config) ledger 2 0 initial_db ≡ some r)
    × LoopEnds external (some config) ledger 1 ledger-IsLedger r
sync_loop_ends_example =
    sync_loop_ends external (some config) ledger 1 ledger-IsLedger 2 0 initial_db
      initial-Synchronized (omega arith) (omega arith)

sync_block_refines_example :
    Outcome
      (Refined external block contents none initial_db contents-u64 initial-InOrder (omega arith))
      initial_db
      (sync_block_with_conn external block contents none initial_db)
sync_block_refines_example =
    sync_block_refines external block contents none initial_db contents-u64 initial-InOrder
      (omega arith)
