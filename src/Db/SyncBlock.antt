-- ===== src/Db/SyncBlock.antt =====
-- `ReserveAuditorDb::sync_block_with_conn` and `lookup_mint_config` of src/db/mod.rs.
pub mod Accounting
pub mod Maps
pub mod Parts
pub mod Frame
pub mod Lookup
pub mod Newest
pub mod Totals
pub mod Choice
pub mod Finish
pub mod Synced
pub mod Calm
pub mod Outcome
use reserve_auditor.Prelude.{
  ℕ, ◌+◌, ◌-◌, ◌%◌, ⊤, Bool, true, false, not, Option, none, some, List, [], ◌∷◌, ltb, ◌==◌,
  if◌then◌else◌,
}
use reserve_auditor.Prelude.Int.{as_u64, u64_mod}
use reserve_auditor.Result.{Result, ok, err, panic}
use reserve_auditor.Error.{Error, unexpected_block_index}
use reserve_auditor.Core.{CoreMintTx, CoreMintConfigTx, Block, BlockContents, TxOut, External}
use reserve_auditor.Db.Models.{Db, BlockAuditData, MintTx, MintConfig, MintConfigTx, BurnTxOut}
use reserve_auditor.Db.Monad.{Sql, pure, raise_if, lift, gets, for_each, transaction, ◌>>=◌, ◌>>◌}
use reserve_auditor.Db.Counters.{
  inc, get_counters, num_blocks_synced, num_burns_exceeding_balance,
  num_mint_txs_without_matching_mint_config,
}
use reserve_auditor.Db.MintTxs.{is_some, from_core_mint_tx, insert_mint_tx}
use reserve_auditor.Db.MintConfigs.{
  id_or_zero, most_recent_for_token, tx_minted_before_block, config_minted_before_block,
  get_by_mint_config_tx_id, insert_from_core_mint_config_tx,
}
use reserve_auditor.Db.BurnTxOuts.{burn_token_id, burn_amount, from_core_tx_out, insert_burn}
use reserve_auditor.Db.BlockAudit.{
  BalanceMap, balance_of, set_balance, new_block_audit_data, set_block_audit_data,
  get_balances_for_block, set_balances_for_block,
}

-- `SyncBlockData`
pub record SyncBlockData : Type 0 where
  pub block_audit : BlockAuditData
  pub balance_map : BalanceMap
  pub mint_txs : List MintTx
  pub burn_tx_outs : List BurnTxOut

-- does `a.checked_add(b)` give a sum within the limit?
abbrev pub add_is_within : ℕ → ℕ → ℕ → Bool
add_is_within a b limit = if ltb (a + b) u64_mod then not (ltb limit (a + b)) else false

-- `*mint_balance += amount`, which wraps around in a release build
unfoldable pub credit : ℕ → ℕ → BalanceMap → BalanceMap
credit token_id amount m = set_balance token_id ((balance_of token_id m + amount) % u64_mod) m

-- a burn sets the balance to 0 where it exceeds it
unfoldable pub debit : ℕ → ℕ → BalanceMap → BalanceMap
debit token_id amount m =
    set_balance token_id
      (if ltb (balance_of token_id m) amount then 0 else balance_of token_id m - amount) m

abbrev pub when : Bool → Sql ⊤ → Sql ⊤
when c m db = if c then m db else (ok tt, db)

abbrev pub config_id : Option MintConfig → Option ℕ
config_id none = none
config_id (some c) = c.id

-- one burn: count it if it exceeds the balance, and store it
unfoldable pub store_burn : BalanceMap → BurnTxOut → Sql BurnTxOut
store_burn balance_map b = do
  when (ltb (balance_of (burn_token_id b) balance_map) (burn_amount b))
      (inc num_burns_exceeding_balance)
  insert_burn b

unfoldable pub process_burns : List BurnTxOut → BalanceMap → Sql (BalanceMap × List BurnTxOut)
process_burns [] balance_map = pure (balance_map, [])
process_burns (b ∷ burns) balance_map = do
  row ← store_burn balance_map b
  rest ← process_burns burns (debit (burn_token_id b) (burn_amount b) balance_map)
  pure (rest.0, row ∷ rest.1)

-- the end of a block: it is counted and recorded, and its balances are stored
unfoldable pub finish_block :
    ℕ → BalanceMap × List MintTx → BalanceMap × List BurnTxOut → Sql SyncBlockData
finish_block block_index minted burned = do
  inc num_blocks_synced
  set_block_audit_data (new_block_audit_data block_index)
  set_balances_for_block block_index burned.0
  pure (record {
    block_audit = new_block_audit_data block_index;
    balance_map = burned.0;
    mint_txs = minted.1;
    burn_tx_outs = burned.1;
  })

module _ (x : External) where
  -- the loop over the mint configs
  unfoldable pub first_config :
      ℕ → CoreMintTx → Db → List MintConfig → Result Error (Option MintConfig)
  first_config block_index mint_tx db [] = ok none
  first_config block_index mint_tx db (c ∷ configs) =
      let rest = first_config block_index mint_tx db configs in
      elim (x.decode_mint_config c.protobuf) [
        | none ↦ err Error.decode
        | some config ↦
            if x.verify config.signer_set (x.prefix_hash mint_tx) mint_tx.signature
            then if add_is_within (config_minted_before_block c block_index db) mint_tx.amount
                (as_u64 c.mint_limit)
              then ok (some c)
              else rest
            else rest
      ]

  unfoldable pub lookup_mint_config : ℕ → CoreMintTx → Db → Result Error (Option MintConfig)
  lookup_mint_config block_index mint_tx db =
      elim (most_recent_for_token block_index mint_tx.token_id db) [
        | none ↦ ok none
        | some t ↦
            if add_is_within (tx_minted_before_block t block_index db) mint_tx.amount
              (as_u64 t.total_mint_limit)
            then first_config block_index mint_tx db (get_by_mint_config_tx_id (id_or_zero t.id) db)
            else ok none
      ]

  unfoldable pub insert_from_core_mint_tx : ℕ → Option ℕ → Option ℕ → CoreMintTx → Sql MintTx
  insert_from_core_mint_tx block_index block_timestamp mint_config_id tx =
      lift (from_core_mint_tx x block_index block_timestamp mint_config_id tx) >>= insert_mint_tx

  abbrev pub store_config_txs : ℕ → Option ℕ → List CoreMintConfigTx → Sql ⊤
  store_config_txs block_index block_timestamp =
      for_each
        (λ t. insert_from_core_mint_config_tx x block_index block_timestamp t >>= λ _. pure tt)

  abbrev pub count_unmatched : Option MintConfig → Sql ⊤
  count_unmatched mint_config =
      when (not (is_some mint_config)) (inc num_mint_txs_without_matching_mint_config)

  -- one mint: look its configuration up, count it if there is none, and store it
  unfoldable pub store_mint : ℕ → Option ℕ → CoreMintTx → Sql MintTx
  store_mint block_index block_timestamp tx = do
    db ← gets (λ db. db)
    mint_config ← lift (lookup_mint_config block_index tx db)
    count_unmatched mint_config
    insert_from_core_mint_tx block_index block_timestamp (config_id mint_config) tx

  unfoldable pub process_mints :
      ℕ → Option ℕ → List CoreMintTx → BalanceMap → Sql (BalanceMap × List MintTx)
  process_mints block_index block_timestamp [] balance_map = pure (balance_map, [])
  process_mints block_index block_timestamp (tx ∷ txs) balance_map = do
    row ← store_mint block_index block_timestamp tx
    rest ← process_mints block_index block_timestamp txs (credit tx.token_id tx.amount balance_map)
    pure (rest.0, row ∷ rest.1)

  abbrev pub cons_burn : Option BurnTxOut → List BurnTxOut → List BurnTxOut
  cons_burn none bs = bs
  cons_burn (some b) bs = b ∷ bs

  -- the outputs that are burns
  unfoldable pub burns_of : ℕ → Option ℕ → List TxOut → List BurnTxOut
  burns_of block_index block_timestamp [] = []
  burns_of block_index block_timestamp (o ∷ outputs) =
      cons_burn (from_core_tx_out x block_index block_timestamp o)
        (burns_of block_index block_timestamp outputs)

  unfoldable pub previous_balances : ℕ → Db → BalanceMap
  previous_balances block_index db =
      if block_index == 0 then [] else get_balances_for_block (block_index - 1) db

  -- the mints and then the burns of a block
  unfoldable pub process_contents : ℕ → BlockContents → Option ℕ → BalanceMap → Sql SyncBlockData
  process_contents block_index contents block_timestamp before = do
    minted ← process_mints block_index block_timestamp contents.mint_txs before
    burned ← process_burns (burns_of block_index block_timestamp contents.outputs) minted.0
    finish_block block_index minted burned

  -- what `sync_block_with_conn` does inside its transaction
  unfoldable pub sync_steps : Block → BlockContents → Option ℕ → Sql SyncBlockData
  sync_steps block contents block_timestamp = do
    counters ← get_counters
    raise_if (not (block.index == counters.num_blocks_synced))
        (unexpected_block_index block.index counters.num_blocks_synced)
    store_config_txs block.index block_timestamp contents.validated_mint_config_txs
    before ← gets (previous_balances block.index)
    process_contents block.index contents block_timestamp before

  unfoldable pub sync_block_with_conn : Block → BlockContents → Option ℕ → Sql SyncBlockData
  sync_block_with_conn block contents block_timestamp =
      transaction (sync_steps block contents block_timestamp)
