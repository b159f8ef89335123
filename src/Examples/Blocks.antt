-- ===== src/Examples/Blocks.antt =====
-- A first block, with a mint configuration, a mint and a burn.
use reserve_auditor.Prelude.{
  ◌+◌, ◌-◌, ◌%◌, ◌≡◌, ◌∙◌, sym, inl, inr, refl, none, some, List, [], ◌∷◌, ◌<◌, next_key, arith,
}
use reserve_auditor.Prelude.Int.{u64_mod, as_i64, as_u64, pos}
use reserve_auditor.Result.{ok}
use reserve_auditor.Core.{CoreMintTx}
use reserve_auditor.Db.Models.{Db, MintTx, BurnTxOut}
use reserve_auditor.Db.Monad.Outcome.{Outcome}
use reserve_auditor.Db.MintTxs.{mint_key, insert_mint_tx, from_core_mint_tx}
use reserve_auditor.Db.MintConfigs.{
  most_recent_for_token, tx_minted_before_block, config_minted_before_block, total_minted,
  get_by_mint_config_tx_id,
}
use reserve_auditor.Db.BurnTxOuts.{burn_key, insert_burn}
use reserve_auditor.Db.BlockAudit.{BalanceMap, balance_of, set_balance}
use reserve_auditor.Db.SyncBlock.{
  lookup_mint_config, first_config, process_mints, process_burns, store_mint, store_burn,
  insert_from_core_mint_tx, sync_block_with_conn, credit, debit,
}
use reserve_auditor.Db.SyncBlock.Accounting.{
  minted_of, burned_of, process_mints-balance_of, process_burns-balance_of,
}
use reserve_auditor.Db.SyncBlock.Newest.{OnePerBlock}
use reserve_auditor.Db.SyncBlock.Choice.{
  Accommodates, lookup_mint_config-Accommodates, lookup_mint_config_complete,
}
use reserve_auditor.Db.SyncBlock.Synced.{Synced}
use reserve_auditor.Db.SyncBlock.Outcome.{sync_block_lem}
use reserve_auditor.Examples.Data.{
  hex, external, block, contents, core_mint, mint_config, configured_db, fresh_db, burn,
}

sync_block_lem_example :
    Outcome
      (Synced external block contents none fresh_db)
      fresh_db
      (sync_block_with_conn external block contents none fresh_db)
sync_block_lem_example = sync_block_lem external block contents none fresh_db

found : lookup_mint_config external 2 core_mint configured_db ≡ ok (some mint_config)
unfolding lookup_mint_config most_recent_for_token tx_minted_before_block config_minted_before_block
    total_minted get_by_mint_config_tx_id first_config as_i64 as_u64
found = refl

lookup_mint_config-Accommodates_example :
    Accommodates external 2 core_mint configured_db mint_config
lookup_mint_config-Accommodates_example =
    lookup_mint_config-Accommodates external 2 core_mint configured_db mint_config found

-- more than the configuration may mint
abbrev large_mint : CoreMintTx
large_mint = record core_mint { amount = 1500 }

nothing_found : lookup_mint_config external 2 large_mint configured_db ≡ ok none
unfolding lookup_mint_config most_recent_for_token tx_minted_before_block config_minted_before_block
    total_minted get_by_mint_config_tx_id first_config as_i64 as_u64
nothing_found = refl

one-OnePerBlock : OnePerBlock configured_db
one-OnePerBlock t u (inl e) (inl f) _ _ = e ∙ sym f
one-OnePerBlock t u (inl e) (inr absent) _ _ = absurd absent
one-OnePerBlock t u (inr absent) j _ _ = absurd absent

lookup_mint_config_complete_example :
    ¬ (Accommodates external 2 large_mint configured_db mint_config)
lookup_mint_config_complete_example =
    lookup_mint_config_complete external 2 large_mint configured_db mint_config one-OnePerBlock
      nothing_found

abbrev unsaved_burn : BurnTxOut
unsaved_burn = record burn { id = none }

-- a burn of 200 where there are 500
abbrev burned : BalanceMap × List BurnTxOut
burned = ((1, 300) ∷ [], record burn { id = some (next_key burn_key fresh_db.burn_tx_outs) } ∷ [])

abbrev burned_db : Db
burned_db = record fresh_db { burn_tx_outs = burned.1 }

burns_processed :
    process_burns (unsaved_burn ∷ []) ((1, 500) ∷ []) fresh_db ≡ (ok burned, burned_db)
unfolding process_burns store_burn insert_burn debit balance_of set_balance as_i64 as_u64
burns_processed = refl

process_burns-balance_of_example :
    balance_of 1 burned.0 ≡ balance_of 1 ((1, 500) ∷ []) - burned_of 1 (unsaved_burn ∷ [])
process_burns-balance_of_example =
    process_burns-balance_of 1 (unsaved_burn ∷ []) ((1, 500) ∷ []) fresh_db burned_db burned
      burns_processed

-- a mint of 500 where there are 100
abbrev minted : BalanceMap × List MintTx
minted = (
  (1, 600) ∷ [],
  record {
    id = some (next_key mint_key fresh_db.mint_txs);
    block_index = pos 2;
    block_timestamp = none;
    token_id = pos 1;
    amount = pos 500;
    nonce_hex = hex.encode (6 ∷ []);
    recipient_b58_addr = 2 ∷ (1 ∷ []);
    tombstone_block = pos 100;
    protobuf = [];
    mint_config_id = some 1;
  }
      ∷ [],
)

abbrev minted_db : Db
minted_db = record configured_db { mint_txs = minted.1 }

mints_processed :
    process_mints external 2 none (core_mint ∷ []) ((1, 100) ∷ []) configured_db
    ≡ (ok minted, minted_db)
unfolding process_mints store_mint insert_from_core_mint_tx from_core_mint_tx insert_mint_tx credit
    balance_of set_balance lookup_mint_config most_recent_for_token tx_minted_before_block
    config_minted_before_block total_minted get_by_mint_config_tx_id first_config as_i64 as_u64
mints_processed = refl

small : balance_of 1 ((1, 100) ∷ []) < u64_mod
unfolding balance_of
small = omega arith

process_mints-balance_of_example :
    balance_of 1 minted.0 ≡ (balance_of 1 ((1, 100) ∷ []) + minted_of 1 (core_mint ∷ [])) % u64_mod
process_mints-balance_of_example =
    process_mints-balance_of external 1 2 none (core_mint ∷ []) ((1, 100) ∷ []) configured_db
      minted_db minted small mints_processed
