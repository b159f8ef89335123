-- ===== src/Db/SyncBlock/Calm.antt =====
-- The steps of a block never panic.
use reserve_auditor.Prelude.{
  ℕ, ⊤, Bool, true, false, not, Option, some, List, [], ◌∷◌, ◌≢◌, arith, ltb, Option-cases, inl,
  inr,
}
use reserve_auditor.Result.{panic, ok_or}
use reserve_auditor.Error.{Error}
use reserve_auditor.Core.{BlockContents, CoreMintConfig, CoreMintConfigTx, CoreMintTx, External}
use reserve_auditor.Db.Models.{Db, MintConfig, MintConfigTx, MintTx, BurnTxOut, BlockBalance}
use reserve_auditor.Db.Monad.{Sql, pure, lift, for_each, transaction, ◌>>=◌, ◌>>◌}
use reserve_auditor.Db.Monad.Steps.{
  NeverPanics, NeverPanics-bind, NeverPanics-transaction, NeverPanics-for_each,
}
use reserve_auditor.Db.Counters.{
  inc, num_blocks_synced, num_burns_exceeding_balance, num_mint_txs_without_matching_mint_config,
}
use reserve_auditor.Db.Counters.Laws.{inc-no_panic}
use reserve_auditor.Db.MintTxs.{is_some, insert_mint_tx, from_core_mint_tx}
use reserve_auditor.Db.MintConfigs.{
  most_recent_for_token, get_by_mint_config_tx_id, id_or_zero, insert_mint_config,
  insert_config_tx_row, insert_config_tx_rows, insert_mint_config_tx,
  insert_from_core_mint_config_tx, insert_from_core_mint_config, insert_configs,
  from_core_mint_config, from_core_mint_config_tx,
}
use reserve_auditor.Db.BurnTxOuts.{insert_burn, burn_token_id, burn_amount}
use reserve_auditor.Db.BlockAudit.{
  BalanceMap, balance_of, insert_block_balance, new_block_balance, set_block_audit_data,
  new_block_audit_data, set_balances_for_block,
}
use reserve_auditor.Db.SyncBlock.{
  SyncBlockData, when, count_unmatched, store_config_txs, credit, debit, store_mint, store_burn,
  process_mints, process_burns, burns_of, insert_from_core_mint_tx, lookup_mint_config,
  first_config, config_id, finish_block, process_contents,
}

insert_mint-calm : (m : MintTx) → NeverPanics (insert_mint_tx m)
unfolding insert_mint_tx
insert_mint-calm m db = ground arith

insert_burn-calm : (b : BurnTxOut) → NeverPanics (insert_burn b)
unfolding insert_burn
insert_burn-calm b db = ground arith

insert_config-calm : (c : MintConfig) → NeverPanics (insert_mint_config c)
unfolding insert_mint_config
insert_config-calm c db = ground arith

insert_balance-calm : (b : BlockBalance) → NeverPanics (insert_block_balance b)
unfolding insert_block_balance
insert_balance-calm b db = ground arith

config_row-calm : (x : External) (t : MintConfigTx) → NeverPanics (insert_config_tx_row x t)
unfolding insert_config_tx_row
config_row-calm x t db = ground arith

when-calm : (c : Bool) (m : Sql ⊤) → NeverPanics m → NeverPanics (when c m)
when-calm true m k db = k db
when-calm false m k db = cc

then_pure :
    {A B : Type 0} (m : Sql A) (f : A → B) → NeverPanics m → NeverPanics (m >>= λ a. pure (f a))
then_pure m f k = NeverPanics-bind m (λ a. pure (f a)) k (λ _ db. cc)

store_burn-calm : (m : BalanceMap) (b : BurnTxOut) → NeverPanics (store_burn m b)
unfolding store_burn
store_burn-calm m b =
    NeverPanics-bind {A = ⊤} _ (λ _. insert_burn b)
      (when-calm (ltb (balance_of (burn_token_id b) m) (burn_amount b))
        (inc num_burns_exceeding_balance) (inc-no_panic num_burns_exceeding_balance))
      (λ _. insert_burn-calm b)

process_burns-calm : (burns : List BurnTxOut) (m : BalanceMap) → NeverPanics (process_burns burns m)
unfolding process_burns
process_burns-calm [] m db = cc
process_burns-calm (b ∷ burns) m db =
    let m' = debit (burn_token_id b) (burn_amount b) m in
    NeverPanics-bind (store_burn m b)
      (λ row. process_burns burns m' >>= λ rest. pure (rest.0, row ∷ rest.1)) (store_burn-calm m b)
      (λ row.
        then_pure (process_burns burns m') (λ rest. (rest.0, row ∷ rest.1))
          (process_burns-calm burns m'))
      db

finish-calm :
    (i : ℕ) (minted : BalanceMap × List MintTx) (burned : BalanceMap × List BurnTxOut)
    → NeverPanics (finish_block i minted burned)
unfolding finish_block set_balances_for_block set_block_audit_data
finish-calm i minted burned =
    let result : SyncBlockData = record {
      block_audit = new_block_audit_data i;
      balance_map = burned.0;
      mint_txs = minted.1;
      burn_tx_outs = burned.1;
    } in
    NeverPanics-bind {A = ⊤} (inc num_blocks_synced)
      (λ _.
        set_block_audit_data (new_block_audit_data i)
        >> (set_balances_for_block i burned.0 >> pure result))
      (inc-no_panic num_blocks_synced)
      (λ _.
        NeverPanics-bind {A = ⊤} (set_block_audit_data (new_block_audit_data i))
          (λ _. set_balances_for_block i burned.0 >> pure result) (λ db. cc)
          (λ _.
            then_pure (set_balances_for_block i burned.0) (λ _. result)
              (NeverPanics-transaction
                (for_each (λ b. insert_block_balance (new_block_balance i b)) burned.0)
                (NeverPanics-for_each (λ b. insert_block_balance (new_block_balance i b))
                  (λ b. insert_balance-calm (new_block_balance i b)) burned.0))))

module _ (x : External) where
  config-calm : (k : ℕ) (c : CoreMintConfig) → NeverPanics (insert_from_core_mint_config x k c)
  unfolding insert_from_core_mint_config
  config-calm k c = insert_config-calm (from_core_mint_config x k c)

  config_tx_rows-calm :
      (t : MintConfigTx) (cs : List CoreMintConfig) → NeverPanics (insert_config_tx_rows x t cs)
  unfolding insert_config_tx_rows
  config_tx_rows-calm t cs =
      NeverPanics-bind {A = ℕ} {B = ℕ} (insert_config_tx_row x t)
        (λ k. insert_configs x k cs >> pure k) (config_row-calm x t)
        (λ k.
          then_pure (insert_configs x k cs) (λ _. k)
            (NeverPanics-for_each (λ c. insert_from_core_mint_config x k c >>= λ _. pure tt)
              (λ c. then_pure (insert_from_core_mint_config x k c) (λ _. tt) (config-calm k c)) cs))

  decoded-calm : {A : Type 0} (o : Option A) (e : Error) → NeverPanics (lift (ok_or o e))
  decoded-calm o e db = ground arith

  insert_config_tx-calm : (t : MintConfigTx) → NeverPanics (insert_mint_config_tx x t)
  unfolding insert_mint_config_tx
  insert_config_tx-calm t =
      NeverPanics-bind {A = CoreMintConfigTx} {B = MintConfigTx}
        (lift (ok_or (x.decode_mint_config_tx t.protobuf) Error.decode))
        (λ core. transaction (insert_config_tx_rows x t core.configs) >>= λ k.
          pure (record t { id = some k }))
        (decoded-calm (x.decode_mint_config_tx t.protobuf) Error.decode)
        (λ core.
          then_pure (transaction (insert_config_tx_rows x t core.configs))
            (λ k. record t { id = some k })
            (NeverPanics-transaction (insert_config_tx_rows x t core.configs)
              (config_tx_rows-calm t core.configs)))

  pub config_txs-calm :
      (i : ℕ) (ts : Option ℕ) (txs : List CoreMintConfigTx)
      → NeverPanics (store_config_txs x i ts txs)
  unfolding insert_from_core_mint_config_tx
  config_txs-calm i ts =
      NeverPanics-for_each (λ t. insert_from_core_mint_config_tx x i ts t >>= λ _. pure tt)
        (λ t.
          then_pure (insert_mint_config_tx x (from_core_mint_config_tx x i ts t)) (λ _. tt)
            (insert_config_tx-calm (from_core_mint_config_tx x i ts t)))

  first-calm :
      (i : ℕ) (tx : CoreMintTx) (db : Db) (cs : List MintConfig) → first_config x i tx db cs ≢ panic
  unfolding first_config
  first-calm i tx db [] = cc
  first-calm i tx db (c ∷ cs) = ground (arith, first-calm i tx db cs)

  lookup-calm : (i : ℕ) (tx : CoreMintTx) (db : Db) → lookup_mint_config x i tx db ≢ panic
  unfolding lookup_mint_config
  lookup-calm i tx db = elim (Option-cases (most_recent_for_token i tx.token_id db)) [
    | inl e ↦ ground arith
    | inr (t, e) ↦
        ground (arith, first-calm i tx db (get_by_mint_config_tx_id (id_or_zero t.id) db))
  ]

  core_mint-calm :
      (i : ℕ) (ts : Option ℕ) (k : Option ℕ) (tx : CoreMintTx)
      → from_core_mint_tx x i ts k tx ≢ panic
  unfolding from_core_mint_tx
  core_mint-calm i ts k tx = ground arith

  insert_core-calm :
      (i : ℕ) (ts : Option ℕ) (k : Option ℕ) (tx : CoreMintTx)
      → NeverPanics (insert_from_core_mint_tx x i ts k tx)
  unfolding insert_from_core_mint_tx
  insert_core-calm i ts k tx =
      NeverPanics-bind (lift (from_core_mint_tx x i ts k tx)) insert_mint_tx
        (λ s. core_mint-calm i ts k tx) insert_mint-calm

  store_mint-calm : (i : ℕ) (ts : Option ℕ) (tx : CoreMintTx) → NeverPanics (store_mint x i ts tx)
  unfolding store_mint
  store_mint-calm i ts tx db0 =
      NeverPanics-bind {A = Option MintConfig} {B = MintTx} (lift (lookup_mint_config x i tx db0))
        (λ c. count_unmatched x c >> insert_from_core_mint_tx x i ts (config_id c) tx)
        (λ s. lookup-calm i tx db0)
        (λ c.
          NeverPanics-bind {A = ⊤} {B = MintTx} (count_unmatched x c)
            (λ _. insert_from_core_mint_tx x i ts (config_id c) tx)
            (when-calm (not (is_some c)) (inc num_mint_txs_without_matching_mint_config)
              (inc-no_panic num_mint_txs_without_matching_mint_config))
            (λ _. insert_core-calm i ts (config_id c) tx))
        db0

  process_mints-calm :
      (i : ℕ) (ts : Option ℕ) (txs : List CoreMintTx) (m : BalanceMap)
      → NeverPanics (process_mints x i ts txs m)
  unfolding process_mints
  process_mints-calm i ts [] m db = cc
  process_mints-calm i ts (tx ∷ txs) m db =
      let m' = credit tx.token_id tx.amount m in
      NeverPanics-bind (store_mint x i ts tx)
        (λ row. process_mints x i ts txs m' >>= λ rest. pure (rest.0, row ∷ rest.1))
        (store_mint-calm i ts tx)
        (λ row.
          then_pure (process_mints x i ts txs m') (λ rest. (rest.0, row ∷ rest.1))
            (process_mints-calm i ts txs m'))
        db

  pub contents-calm :
      (i : ℕ) (contents : BlockContents) (ts : Option ℕ) (before : BalanceMap)
      → NeverPanics (process_contents x i contents ts before)
  unfolding process_contents
  contents-calm i contents ts before =
      let burns = burns_of x i ts contents.outputs in
      NeverPanics-bind (process_mints x i ts contents.mint_txs before)
        (λ minted. process_burns burns minted.0 >>= λ burned. finish_block i minted burned)
        (process_mints-calm i ts contents.mint_txs before)
        (λ minted.
          NeverPanics-bind (process_burns burns minted.0) (λ burned. finish_block i minted burned)
            (process_burns-calm burns minted.0) (λ burned. finish-calm i minted burned))
