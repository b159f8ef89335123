-- ===== src/Db/MintTxs.antt =====
-- src/db/models/mint_tx.rs: the table `mint_txs`, with its UNIQUE nonce and its reference to
-- `mint_configs`.
pub mod Insertion
use reserve_auditor.Prelude.{
  ℕ, ◌≡◌, Bool, true, not, Option, none, some, List, [], ◌∷◌, ◌++◌, map, ◌&&◌, any, find, filter,
  is_id, by_key, next_key,
}
use reserve_auditor.Prelude.Int.{ℤ, as_i64, as_u64, ◌==ℤ◌}
use reserve_auditor.Prelude.Text.{Text, text_eq}
use reserve_auditor.Result.{Result, ok, ok_or}
use reserve_auditor.Result as Result
use reserve_auditor.Error.{Error, from_diesel, DieselError, api_display}
use reserve_auditor.Core.{CoreMintTx, External}
use reserve_auditor.Db.Models.{Db, MintTx, MintConfig}
use reserve_auditor.Db.Monad.{Sql, pure, raise_if, gets, modify, ◌>>=◌, ◌>>◌}

abbrev pub mint_key : MintTx → Option ℕ
mint_key m = m.id

abbrev pub config_key : MintConfig → Option ℕ
config_key c = c.id

-- the getters `token_id` and `amount`
abbrev pub mint_token_id : MintTx → ℕ
mint_token_id m = as_u64 m.token_id

abbrev pub mint_amount : MintTx → ℕ
mint_amount m = as_u64 m.amount

abbrev pub is_some : {A : Type 0} → Option A → Bool
is_some none = Bool.false
is_some (some _) = true

-- `FOREIGN KEY (mint_config_id) REFERENCES mint_configs(id)`: NULL refers to nothing
abbrev pub config_exists : Option ℕ → Db → Bool
config_exists none db = true
config_exists (some k) db = is_some (by_key config_key k db.mint_configs)

unfoldable pub insert_mint_tx : MintTx → Sql MintTx
insert_mint_tx m = do
  raise_if (is_some m.id) Error.already_exists
  db ← gets (λ db. db)
  raise_if (any (λ r. text_eq r.nonce_hex m.nonce_hex) db.mint_txs)
      (from_diesel DieselError.unique_violation)
  raise_if (not (config_exists m.mint_config_id db)) (from_diesel DieselError.foreign_key_violation)
  let row = record m { id = some (next_key mint_key db.mint_txs) }
  modify (λ s. record s { mint_txs = s.mint_txs ++ row ∷ [] })
  pure row

-- `exists(audited_mints where mint_tx_id = mint_txs.id)`
abbrev pub mint_is_audited : Db → MintTx → Bool
mint_is_audited db m = any (λ a. is_id a.mint_tx_id m.id) db.audited_mints

unfoldable pub find_unaudited_mint_txs : Db → List MintTx
find_unaudited_mint_txs db = filter (λ m. not (mint_is_audited db m)) db.mint_txs

unfoldable pub find_unaudited_mint_tx_by_nonce : Text → Db → Option MintTx
find_unaudited_mint_tx_by_nonce nonce_hex db =
    find (λ m. text_eq m.nonce_hex nonce_hex && not (mint_is_audited db m)) db.mint_txs

unfoldable pub get_mint_amounts : ℕ → Db → List (ℕ × ℕ)
get_mint_amounts token_id db =
    map (λ m. (as_u64 m.token_id, as_u64 m.amount))
      (filter (λ m. m.token_id ==ℤ as_i64 token_id) db.mint_txs)

unfoldable pub get_mint_txs_by_block_index : ℕ → Db → List MintTx
get_mint_txs_by_block_index block_index db =
    filter (λ m. m.block_index ==ℤ as_i64 block_index) db.mint_txs

module _ (x : External) where
  unfoldable pub from_core_mint_tx : ℕ → Option ℕ → Option ℕ → CoreMintTx → Result Error MintTx
  from_core_mint_tx block_index block_timestamp mint_config_id tx =
      Result.◌>>=◌ (ok_or (x.b58_encode tx.spend_public_key tx.view_public_key) api_display)
        λ recipient_b58_addr. ok (record {
          id = none;
          block_index = as_i64 block_index;
          block_timestamp = block_timestamp;
          token_id = as_i64 tx.token_id;
          amount = as_i64 tx.amount;
          nonce_hex = x.hex.encode tx.nonce;
          recipient_b58_addr = recipient_b58_addr;
          tombstone_block = as_i64 tx.tombstone_block;
          protobuf = x.encode_mint_tx tx;
          mint_config_id = mint_config_id;
        })
