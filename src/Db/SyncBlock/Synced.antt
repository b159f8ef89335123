-- ===== src/Db/SyncBlock/Synced.antt =====
-- What it means that a block was synced.
use reserve_auditor.Prelude.{
  ℕ, ◌+◌, ◌-◌, ◌%◌, ◌<◌, ◌≡◌, ◌∙◌, refl, sym, ap, subst, not, ◌==◌, ◌++◌, Option, List, ⊤, arith,
}
use reserve_auditor.Prelude.Int.{u64_mod}
use reserve_auditor.Result.{Result, ok}
use reserve_auditor.Error.{Error, unexpected_block_index}
use reserve_auditor.Core.{Block, BlockContents, External}
use reserve_auditor.Db.Models.{Db, Counters, MintTx, BurnTxOut}
use reserve_auditor.Db.Monad.{Sql, raise_if, gets, ◌>>=◌}
use reserve_auditor.Db.Monad.Steps.{passed}
use reserve_auditor.Db.Counters.{get_counters}
use reserve_auditor.Db.BlockAudit.{
  BalanceMap, balance_of, get_block_audit_data, get_balances_for_block,
}
use reserve_auditor.Db.SyncBlock.{
  SyncBlockData, store_config_txs, previous_balances, process_mints, process_burns, burns_of,
  finish_block, process_contents, sync_steps,
}
use reserve_auditor.Db.SyncBlock.Frame.{
  View, view, blocks_synced, config_txs-Shows, process_mints-Shows, process_burns-Shows,
}
use reserve_auditor.Db.SyncBlock.Accounting.{
  minted_of, burned_of, process_mints-balance_of, process_burns-balance_of,
}
use reserve_auditor.Db.BlockAudit.Maps.{IsMap}
use reserve_auditor.Db.SyncBlock.Maps.{
  MintsAreU64, process_mints-IsMap, process_burns-IsMap, burns_of-u64,
}
use reserve_auditor.Db.SyncBlock.Finish.{finish-ok, recorded_rows, balance_rows}

module _ (x : External) (block : Block) (contents : BlockContents) (timestamp : Option ℕ) where
  -- The block was the next one, and is now counted and recorded. The balance of each token is the
  -- one before the block, with its mints added modulo 2 ^ 64 and its burns taken away down to 0;
  -- the balances are a map of 64-bit numbers if those before were, and the tokens of the mints are
  -- such numbers. The rows of the blocks and of the balances are those from before, with the row of
  -- this block and one row for each of its balances at the end. Deposits, withdrawals and the audit
  -- tables are as they were.
  pub record Synced (db : Db) (result : SyncBlockData) (db' : Db) : Type 0 where
    pub in_order : block.index ≡ blocks_synced db
    pub advanced : blocks_synced db' ≡ block.index + 1
    pub recorded : get_block_audit_data block.index db' ≡ ok result.block_audit
    pub balances :
        (k : ℕ)
        → balance_of k (previous_balances x block.index db) < u64_mod
        → balance_of k result.balance_map
          ≡ (balance_of k (previous_balances x block.index db) + minted_of k contents.mint_txs)
              % u64_mod
            - burned_of k (burns_of x block.index timestamp contents.outputs)
    pub same_deposits : db'.gnosis_safe_deposits ≡ db.gnosis_safe_deposits
    pub same_withdrawals : db'.gnosis_safe_withdrawals ≡ db.gnosis_safe_withdrawals
    pub same_mints : db'.audited_mints ≡ db.audited_mints
    pub same_burns : db'.audited_burns ≡ db.audited_burns
    pub map :
        IsMap (previous_balances x block.index db)
        → MintsAreU64 contents.mint_txs
        → IsMap result.balance_map
    pub audit_rows : db'.block_audit_data ≡ recorded_rows block.index db.block_audit_data
    pub stored : db'.block_balance ≡ db.block_balance ++ balance_rows block.index result.balance_map

module _ (x : External) (block : Block) (contents : BlockContents) (timestamp : Option ℕ) where
  contents-ok :
      (before : BalanceMap) (db db' : Db) (r : SyncBlockData)
      → process_contents x block.index contents timestamp before db ≡ (ok r, db')
      → (minted : BalanceMap × List MintTx) × (burned : BalanceMap × List BurnTxOut) × (db1 : Db)
        × (db2 : Db) × (process_mints x block.index timestamp contents.mint_txs before db
            ≡ (ok minted, db1))
        × (process_burns (burns_of x block.index timestamp contents.outputs) minted.0 db1
            ≡ (ok burned, db2))
        × (finish_block block.index minted burned db2 ≡ (ok r, db'))
  unfolding process_contents
  contents-ok before db db' r h =
      let burns = burns_of x block.index timestamp contents.outputs in
      let (minted, db1, h1, h2) =
        passed (process_mints x block.index timestamp contents.mint_txs before)
          (λ minted.
            process_burns burns minted.0 >>= λ burned. finish_block block.index minted burned)
          db h in
      let (burned, db2, h3, h4) =
        passed (process_burns burns minted.0) (λ burned. finish_block block.index minted burned) db1
          h2 in
      (minted, burned, db1, db2, h1, h3, h4)

  get_counters-ok :
      (db db' : Db) (c : Counters)
      → get_counters db ≡ (ok c, db')
      → (c.num_blocks_synced ≡ blocks_synced db) × (db' ≡ db)
  unfolding get_counters
  get_counters-ok db db' c h = ground arith

  -- the balances before a block are read from a table that the first steps leave alone
  previous_balances-view :
      (i : ℕ) (db db' : Db)
      → view db' ≡ view db
      → previous_balances x i db' ≡ previous_balances x i db
  unfolding previous_balances get_balances_for_block
  previous_balances-view i db db' e =
      let rows : db'.block_balance ≡ db.block_balance = ap (λ (u : View). u.balances) e in
      rw rows refl

  pub sync_steps-ok :
      (db db' : Db) (r : SyncBlockData)
      → sync_steps x block contents timestamp db ≡ (ok r, db')
      → Synced x block contents timestamp db r db'
  unfolding sync_steps previous_balances
  sync_steps-ok db db' r h =
      let body : ⊤ → Sql SyncBlockData = λ _.
        gets (previous_balances x block.index)
        >>= process_contents x block.index contents timestamp in
      let rest : ⊤ → Sql SyncBlockData =
        λ _. store_config_txs x block.index timestamp contents.validated_mint_config_txs >>= body in
      let (c, db1, h1, h2) =
        passed get_counters
          (λ counters.
            raise_if (not (block.index == counters.num_blocks_synced))
              (unexpected_block_index block.index counters.num_blocks_synced)
            >>= rest)
          db h in
      let (_, db2, h3, h4) =
        passed
          (raise_if (not (block.index == c.num_blocks_synced))
            (unexpected_block_index block.index c.num_blocks_synced))
          rest db1 h2 in
      let (_, db3, h5, h6) =
        passed (store_config_txs x block.index timestamp contents.validated_mint_config_txs) body
          db2 h4 in
      let (before, db4, h7, h8) =
        passed (gets (previous_balances x block.index))
          (process_contents x block.index contents timestamp) db3 h6 in
      let (minted, burned, db5, db6, h9, h10, h11) = contents-ok before db4 db' r h8 in
      let ends = finish-ok block.index minted burned db6 db' r h11 in
      let synced = get_counters-ok db db1 c h1 in
      let same2 : db2 ≡ db = sym (ap (λ (p : Result Error ⊤ × Db). p.1) h3) ∙ synced.1 in
      let v3 : view db3 ≡ view db =
        subst (λ (p : Result Error ⊤ × Db). view p.1 ≡ view db) h5
          (config_txs-Shows (view db) x block.index timestamp contents.validated_mint_config_txs db2
            (ap view same2)) in
      let v4 : view db4 ≡ view db =
        sym (ap (λ (p : Result Error BalanceMap × Db). view p.1) h7) ∙ v3 in
      let v5 : view db5 ≡ view db =
        subst (λ (p : Result Error (BalanceMap × List MintTx) × Db). view p.1 ≡ view db) h9
          (process_mints-Shows (view db) x block.index timestamp contents.mint_txs before db4 v4) in
      let v6 : view db6 ≡ view db =
        subst (λ (p : Result Error (BalanceMap × List BurnTxOut) × Db). view p.1 ≡ view db) h10
          (process_burns-Shows (view db) (burns_of x block.index timestamp contents.outputs)
            minted.0 db5 v5) in
      let index : block.index ≡ c.num_blocks_synced = ground arith in
      let read : before ≡ previous_balances x block.index db =
        ground arith ∙ previous_balances-view block.index db db3 v3 in
      record {
        in_order = index ∙ synced.0;
        advanced =
            ends.1 ∙ ap (λ (u : View). u.synced + 1) v6 ∙ ap (λ n. n + 1) (sym (index ∙ synced.0));
        recorded = ends.2;
        balances = λ k b.
            ap (balance_of k) ends.0
            ∙ process_burns-balance_of k (burns_of x block.index timestamp contents.outputs)
                minted.0 db5 db6 burned h10
            ∙ ap (λ n. n - burned_of k (burns_of x block.index timestamp contents.outputs))
                (process_mints-balance_of x k block.index timestamp contents.mint_txs before db4 db5
                    minted (rw read b) h9
                  ∙ ap (λ m. (balance_of k m + minted_of k contents.mint_txs) % u64_mod) read);
        same_deposits = ends.3 ∙ ap (λ (u : View). u.deposits) v6;
        same_withdrawals = ends.4 ∙ ap (λ (u : View). u.withdrawals) v6;
        same_mints = ends.5 ∙ ap (λ (u : View). u.mints) v6;
        same_burns = ends.6 ∙ ap (λ (u : View). u.burns) v6;
        map = λ k u. subst IsMap (sym ends.0) (
            process_burns-IsMap (burns_of x block.index timestamp contents.outputs) minted.0 db5 db6
              burned (burns_of-u64 x block.index timestamp contents.outputs)
              (process_mints-IsMap x block.index timestamp contents.mint_txs before db4 db5 minted u
                (subst IsMap (sym read) k) h9)
              h10);
        audit_rows = ends.7 ∙ ap (λ (u : View). recorded_rows block.index u.audit) v6;
        stored =
            ends.8 ∙ ap (λ (u : View). u.balances ++ balance_rows block.index r.balance_map) v6;
      }
