-- ===== src/Db/SyncBlock/Parts.antt =====
-- What a block's storing and counting keeps, if its parts do: a property of databases that every
-- insertion and every count keeps holds through the loops over configurations, mints and burns.
use reserve_auditor.Prelude.{
  ◌==◌, ℕ, ⊤, Bool, true, false, not, Option, some, List, [], ◌∷◌, arith, ltb,
}
use reserve_auditor.Result.{ok_or}
use reserve_auditor.Error.{Error}
use reserve_auditor.Core.{CoreMintConfig, CoreMintConfigTx, CoreMintTx, External}
use reserve_auditor.Db.Models.{
  Db, BlockAuditData, BlockBalance, MintConfig, MintConfigTx, MintTx, BurnTxOut,
}
use reserve_auditor.Db.Monad.{Sql, pure, lift, transaction, ◌>>=◌, ◌>>◌}
use reserve_auditor.Db.Monad.Steps.{Keeps, Keeps-bind, Keeps-transaction, Keeps-for_each}
use reserve_auditor.Db.Counters.{
  inc, num_burns_exceeding_balance, num_mint_txs_without_matching_mint_config,
}
use reserve_auditor.Db.MintTxs.{is_some, insert_mint_tx, from_core_mint_tx}
use reserve_auditor.Db.MintConfigs.{
  insert_mint_config, insert_config_tx_row, insert_mint_config_tx, insert_from_core_mint_config_tx,
  insert_from_core_mint_config, insert_configs, insert_config_tx_rows, from_core_mint_config,
  from_core_mint_config_tx,
}
use reserve_auditor.Db.BurnTxOuts.{insert_burn, burn_token_id, burn_amount}
use reserve_auditor.Db.BlockAudit.{BalanceMap, balance_of}
use reserve_auditor.Error.{unexpected_block_index}
use reserve_auditor.Core.{Block, BlockContents}
use reserve_auditor.Db.Monad.{raise_if, for_each, gets}
use reserve_auditor.Db.Counters.{get_counters, num_blocks_synced}
use reserve_auditor.Db.BlockAudit.{
  set_block_audit_data, new_block_audit_data, insert_block_balance, new_block_balance,
  set_balances_for_block,
}
use reserve_auditor.Db.SyncBlock.{
  SyncBlockData, finish_block, process_contents, burns_of, previous_balances, sync_steps,
  sync_block_with_conn, when, count_unmatched, store_config_txs, credit, debit, store_mint,
  store_burn, process_mints, process_burns, insert_from_core_mint_tx, lookup_mint_config, config_id,
}

-- the steps that store and count
pub record StoresKeep (P : Db → Type 0) : Type 0 where
  pub mint_counter : Keeps P (inc num_mint_txs_without_matching_mint_config)
  pub burn_counter : Keeps P (inc num_burns_exceeding_balance)
  pub mint : (m : MintTx) → Keeps P (insert_mint_tx m)
  pub burn : (b : BurnTxOut) → Keeps P (insert_burn b)
  pub config : (c : MintConfig) → Keeps P (insert_mint_config c)
  pub config_row : (x : External) (t : MintConfigTx) → Keeps P (insert_config_tx_row x t)

-- the steps that end a block
pub record FinishKeeps (P : Db → Type 0) : Type 0 where
  pub block_counter : Keeps P (inc num_blocks_synced)
  pub audit : (b : BlockAuditData) → Keeps P (set_block_audit_data b)
  pub balance : (b : BlockBalance) → Keeps P (insert_block_balance b)

module _ (P : Db → Type 0) where
  when-Keeps : (c : Bool) (m : Sql ⊤) → Keeps P m → Keeps P (when c m)
  when-Keeps true m k db h = k db h
  when-Keeps false m k db h = h

  then_pure : {A B : Type 0} (m : Sql A) (f : A → B) → Keeps P m → Keeps P (m >>= λ a. pure (f a))
  then_pure m f k = Keeps-bind P m (λ a. pure (f a)) k (λ _ db h. h)

module _ (P : Db → Type 0) (parts : StoresKeep P) where
  store_burn-Keeps : (m : BalanceMap) (b : BurnTxOut) → Keeps P (store_burn m b)
  unfolding store_burn
  store_burn-Keeps m b =
      Keeps-bind {A = ⊤} {B = BurnTxOut} P _ (λ _. insert_burn b)
        (when-Keeps P (ltb (balance_of (burn_token_id b) m) (burn_amount b))
          (inc num_burns_exceeding_balance) parts.burn_counter)
        (λ _. parts.burn b)

  pub process_burns-Keeps :
      (burns : List BurnTxOut) (m : BalanceMap) → Keeps P (process_burns burns m)
  unfolding process_burns
  process_burns-Keeps [] m db h = h
  process_burns-Keeps (b ∷ burns) m db h =
      let m' = debit (burn_token_id b) (burn_amount b) m in
      Keeps-bind P (store_burn m b)
        (λ row. process_burns burns m' >>= λ rest. pure (rest.0, row ∷ rest.1))
        (store_burn-Keeps m b)
        (λ row.
          then_pure P (process_burns burns m') (λ rest. (rest.0, row ∷ rest.1))
            (process_burns-Keeps burns m'))
        db h

module _ (P : Db → Type 0) (parts : StoresKeep P) (x : External) where
  config-Keeps : (k : ℕ) (c : CoreMintConfig) → Keeps P (insert_from_core_mint_config x k c)
  unfolding insert_from_core_mint_config
  config-Keeps k c = parts.config (from_core_mint_config x k c)

  config_tx_rows-Keeps :
      (t : MintConfigTx) (cs : List CoreMintConfig) → Keeps P (insert_config_tx_rows x t cs)
  unfolding insert_config_tx_rows
  config_tx_rows-Keeps t cs =
      Keeps-bind {A = ℕ} {B = ℕ} P (insert_config_tx_row x t) (λ k. insert_configs x k cs >> pure k)
        (parts.config_row x t)
        (λ k.
          then_pure P (insert_configs x k cs) (λ _. k)
            (Keeps-for_each P (λ c. insert_from_core_mint_config x k c >>= λ _. pure tt)
              (λ c. then_pure P (insert_from_core_mint_config x k c) (λ _. tt) (config-Keeps k c))
              cs))

  insert_config_tx-Keeps : (t : MintConfigTx) → Keeps P (insert_mint_config_tx x t)
  unfolding insert_mint_config_tx
  insert_config_tx-Keeps t =
      Keeps-bind {A = CoreMintConfigTx} {B = MintConfigTx} P
        (lift (ok_or (x.decode_mint_config_tx t.protobuf) Error.decode))
        (λ core. transaction (insert_config_tx_rows x t core.configs) >>= λ k.
          pure (record t { id = some k }))
        (λ db h. h)
        (λ core.
          then_pure P (transaction (insert_config_tx_rows x t core.configs))
            (λ k. record t { id = some k })
            (Keeps-transaction P (insert_config_tx_rows x t core.configs)
              (config_tx_rows-Keeps t core.configs)))

  pub config_txs-Keeps :
      (i : ℕ) (ts : Option ℕ) (txs : List CoreMintConfigTx) → Keeps P (store_config_txs x i ts txs)
  unfolding insert_from_core_mint_config_tx
  config_txs-Keeps i ts =
      Keeps-for_each P (λ t. insert_from_core_mint_config_tx x i ts t >>= λ _. pure tt)
        (λ t.
          then_pure P (insert_mint_config_tx x (from_core_mint_config_tx x i ts t)) (λ _. tt)
            (insert_config_tx-Keeps (from_core_mint_config_tx x i ts t)))

  insert_core-Keeps :
      (i : ℕ) (ts : Option ℕ) (k : Option ℕ) (tx : CoreMintTx)
      → Keeps P (insert_from_core_mint_tx x i ts k tx)
  unfolding insert_from_core_mint_tx
  insert_core-Keeps i ts k tx =
      Keeps-bind P (lift (from_core_mint_tx x i ts k tx)) insert_mint_tx (λ s h. h)
        (λ m. parts.mint m)

  store_mint-Keeps : (i : ℕ) (ts : Option ℕ) (tx : CoreMintTx) → Keeps P (store_mint x i ts tx)
  unfolding store_mint
  store_mint-Keeps i ts tx db0 =
      Keeps-bind {A = Option MintConfig} {B = MintTx} P (lift (lookup_mint_config x i tx db0))
        (λ c. count_unmatched x c >> insert_from_core_mint_tx x i ts (config_id c) tx) (λ s h. h)
        (λ c.
          Keeps-bind {A = ⊤} {B = MintTx} P (count_unmatched x c)
            (λ _. insert_from_core_mint_tx x i ts (config_id c) tx)
            (when-Keeps P (not (is_some c)) (inc num_mint_txs_without_matching_mint_config)
              parts.mint_counter)
            (λ _. insert_core-Keeps i ts (config_id c) tx))
        db0

  pub process_mints-Keeps :
      (i : ℕ) (ts : Option ℕ) (txs : List CoreMintTx) (m : BalanceMap)
      → Keeps P (process_mints x i ts txs m)
  unfolding process_mints
  process_mints-Keeps i ts [] m db h = h
  process_mints-Keeps i ts (tx ∷ txs) m db h =
      let m' = credit tx.token_id tx.amount m in
      Keeps-bind P (store_mint x i ts tx)
        (λ row. process_mints x i ts txs m' >>= λ rest. pure (rest.0, row ∷ rest.1))
        (store_mint-Keeps i ts tx)
        (λ row.
          then_pure P (process_mints x i ts txs m') (λ rest. (rest.0, row ∷ rest.1))
            (process_mints-Keeps i ts txs m'))
        db h

module _ (P : Db → Type 0) (parts : StoresKeep P) (ends : FinishKeeps P) where
  pub finish-Keeps :
      (i : ℕ) (minted : BalanceMap × List MintTx) (burned : BalanceMap × List BurnTxOut)
      → Keeps P (finish_block i minted burned)
  unfolding finish_block set_balances_for_block
  finish-Keeps i minted burned =
      let result : SyncBlockData = record {
        block_audit = new_block_audit_data i;
        balance_map = burned.0;
        mint_txs = minted.1;
        burn_tx_outs = burned.1;
      } in
      Keeps-bind {A = ⊤} {B = SyncBlockData} P (inc num_blocks_synced)
        (λ _.
          set_block_audit_data (new_block_audit_data i)
          >> (set_balances_for_block i burned.0 >> pure result))
        ends.block_counter
        (λ _.
          Keeps-bind {A = ⊤} {B = SyncBlockData} P (set_block_audit_data (new_block_audit_data i))
            (λ _. set_balances_for_block i burned.0 >> pure result)
            (ends.audit (new_block_audit_data i))
            (λ _.
              then_pure P (set_balances_for_block i burned.0) (λ _. result)
                (Keeps-transaction P
                  (for_each (λ b. insert_block_balance (new_block_balance i b)) burned.0)
                  (Keeps-for_each P (λ b. insert_block_balance (new_block_balance i b))
                    (λ b. ends.balance (new_block_balance i b)) burned.0))))

  contents-Keeps :
      (x : External) (i : ℕ) (contents : BlockContents) (ts : Option ℕ) (before : BalanceMap)
      → Keeps P (process_contents x i contents ts before)
  unfolding process_contents
  contents-Keeps x i contents ts before =
      let burns = burns_of x i ts contents.outputs in
      Keeps-bind P (process_mints x i ts contents.mint_txs before)
        (λ minted. process_burns burns minted.0 >>= λ burned. finish_block i minted burned)
        (process_mints-Keeps P parts x i ts contents.mint_txs before)
        (λ minted.
          Keeps-bind P (process_burns burns minted.0) (λ burned. finish_block i minted burned)
            (process_burns-Keeps P parts burns minted.0) (λ burned. finish-Keeps i minted burned))

  -- A property that the parts of a block keep holds after the block, whether it succeeds or fails.
  pub sync_block-Keeps :
      (x : External) (block : Block) (contents : BlockContents) (ts : Option ℕ)
      → Keeps P (sync_block_with_conn x block contents ts)
  unfolding sync_block_with_conn sync_steps get_counters
  sync_block-Keeps x block contents ts =
      let body : ⊤ → Sql SyncBlockData = λ _.
        gets (previous_balances x block.index) >>= process_contents x block.index contents ts in
      let rest : ⊤ → Sql SyncBlockData =
        λ _. store_config_txs x block.index ts contents.validated_mint_config_txs >>= body in
      Keeps-transaction P (sync_steps x block contents ts) (
        Keeps-bind P get_counters
          (λ counters.
            raise_if (not (block.index == counters.num_blocks_synced))
              (unexpected_block_index block.index counters.num_blocks_synced)
            >>= rest)
          (λ db h. ground arith)
          (λ c.
            Keeps-bind P
              (raise_if (not (block.index == c.num_blocks_synced))
                (unexpected_block_index block.index c.num_blocks_synced))
              rest (λ db h. h)
              (λ _.
                Keeps-bind P (store_config_txs x block.index ts contents.validated_mint_config_txs)
                  body
                  (config_txs-Keeps P parts x block.index ts contents.validated_mint_config_txs)
                  (λ _.
                    Keeps-bind P (gets (previous_balances x block.index))
                      (process_contents x block.index contents ts) (λ db h. h)
                      (λ before. contents-Keeps x block.index contents ts before)))))
