-- ===== src/Db/SyncBlock/Outcome.antt =====
-- How the syncing of a block ends.
use reserve_auditor.Prelude.{ℕ, ⊤, Bool, true, false, not, Option, ◌≡◌, ◌==◌, refl, ap, arith}
use reserve_auditor.Result.{Result, ok, err, panic}
use reserve_auditor.Error.{Error, unexpected_block_index}
use reserve_auditor.Core.{Block, BlockContents, External}
use reserve_auditor.Db.Models.{Db}
use reserve_auditor.Db.Monad.{Sql, raise_if, gets, ◌>>=◌}
use reserve_auditor.Db.Monad.Outcome.{Outcome, Ends, Outcome-transaction}
use reserve_auditor.Db.Monad.Steps.{NeverPanics, NeverPanics-bind}
use reserve_auditor.Db.Counters.{get_counters}
use reserve_auditor.Db.SyncBlock.{
  SyncBlockData, store_config_txs, previous_balances, process_contents, sync_steps,
  sync_block_with_conn,
}
use reserve_auditor.Db.SyncBlock.Synced.{Synced, sync_steps-ok}
use reserve_auditor.Db.SyncBlock.Calm.{contents-calm, config_txs-calm}

module _ (x : External) (block : Block) (contents : BlockContents) (ts : Option ℕ) where
  counters-calm : NeverPanics get_counters
  unfolding get_counters
  counters-calm db = ground arith

  raise_if-calm : (c : Bool) (e : Error) → NeverPanics (raise_if c e)
  raise_if-calm true e db = cc
  raise_if-calm false e db = cc

  steps-calm : NeverPanics (sync_steps x block contents ts)
  unfolding sync_steps
  steps-calm =
      let body : ⊤ → Sql SyncBlockData = λ _.
        gets (previous_balances x block.index) >>= process_contents x block.index contents ts in
      let rest : ⊤ → Sql SyncBlockData =
        λ _. store_config_txs x block.index ts contents.validated_mint_config_txs >>= body in
      NeverPanics-bind get_counters
        (λ counters.
          raise_if (not (block.index == counters.num_blocks_synced))
            (unexpected_block_index block.index counters.num_blocks_synced)
          >>= rest)
        counters-calm
        (λ c.
          NeverPanics-bind
            (raise_if (not (block.index == c.num_blocks_synced))
              (unexpected_block_index block.index c.num_blocks_synced))
            rest (raise_if-calm _ _)
            (λ _.
              NeverPanics-bind
                (store_config_txs x block.index ts contents.validated_mint_config_txs) body
                (config_txs-calm x block.index ts contents.validated_mint_config_txs)
                (λ _.
                  NeverPanics-bind (gets (previous_balances x block.index))
                    (process_contents x block.index contents ts) (λ db. cc)
                    (λ before. contents-calm x block.index contents ts before))))

  steps-Ends :
      (db : Db) (r : Result Error SyncBlockData × Db)
      → sync_steps x block contents ts db ≡ r
      → Ends (Synced x block contents ts db) r
  steps-Ends db (ok a, db') e = sync_steps-ok x block contents ts db db' a e
  steps-Ends db (err _, db') e = tt
  steps-Ends db (panic, db') e = steps-calm db (ap (λ (p : Result Error SyncBlockData × Db). p.0) e)

  -- Syncing a block ends in one of two ways, and never in a panic. It succeeds: the block was the
  -- next one in order, it is now counted and recorded, the balance of every token is the one after
  -- the previous block, with the block's mints of that token added modulo 2 ^ 64 and its burns
  -- taken away down to 0 (where that earlier balance is below 2 ^ 64), and the balances are a map
  -- of 64-bit numbers (where the earlier ones were, and the tokens of the mints are such numbers).
  -- The rows of the blocks and the balances are those from before with the new ones at the end, and
  -- deposits, withdrawals and the audit tables are as they were. Or it fails, and the database is
  -- exactly as it was.
  pub sync_block_lem :
      (db : Db)
      → Outcome (Synced x block contents ts db) db (sync_block_with_conn x block contents ts db)
  unfolding sync_block_with_conn
  sync_block_lem db =
      Outcome-transaction (Synced x block contents ts db) (sync_steps x block contents ts) db
        (steps-Ends db (sync_steps x block contents ts db) refl)
