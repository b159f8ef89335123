-- ===== src/Reserve.antt =====
-- What src/db/mod.rs promises of a block, without tables: a height and a balance for each token.
pub mod Refines
use reserve_auditor.Prelude.{ℕ, ◌+◌, ◌-◌, ◌%◌, Option, List, [], ◌++◌, ◌∷◌, zero, suc, All, ◌≡◌}
use reserve_auditor.Prelude.Int.{u64_mod}
use reserve_auditor.Core.{Block, BlockContents, External}
use reserve_auditor.Db.Models.{Db, BlockAuditData}
use reserve_auditor.Db.BlockAudit.{balance_of, new_block_audit_data}
use reserve_auditor.Db.BlockAudit.Stored.{IsBalanceRow}
use reserve_auditor.Db.SyncBlock.{previous_balances, burns_of}
use reserve_auditor.Db.SyncBlock.Frame.{blocks_synced}
use reserve_auditor.Db.SyncBlock.Accounting.{minted_of, burned_of}

pub record Reserve : Type 0 where
  pub height : ℕ
  pub balance : ℕ → ℕ

-- A block adds its mints to the balances, modulo 2 ^ 64, and takes its burns away, down to 0.
abbrev pub apply_block : External → Block → BlockContents → Option ℕ → Reserve → Reserve
apply_block x block contents timestamp r = record {
  height = r.height + 1;
  balance = λ k.
      (r.balance k + minted_of k contents.mint_txs) % u64_mod
      - burned_of k (burns_of x block.index timestamp contents.outputs);
}

-- what a database says of the reserve: the stored balances of the last block
abbrev pub reserve_of : External → Db → Reserve
reserve_of x db = record {
  height = blocks_synced db;
  balance = λ k. balance_of k (previous_balances x (blocks_synced db) db);
}

-- the rows of the first blocks
abbrev pub first_blocks : ℕ → List BlockAuditData
first_blocks zero = []
first_blocks (suc n) = first_blocks n ++ new_block_audit_data n ∷ []

-- The recorded blocks are the first ones, as many as were counted; balances are of recorded blocks.
pub record InOrder (db : Db) : Type 0 where
  pub blocks : db.block_audit_data ≡ first_blocks (blocks_synced db)
  pub balances : All (IsBalanceRow (blocks_synced db)) db.block_balance
