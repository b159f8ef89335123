-- ===== src/Db/MintConfigs.antt =====
-- src/db/models/{mint_config_tx,mint_config}.rs: the tables `mint_config_txs`, with its UNIQUE
-- nonce and its UNIQUE pair of block and token, and `mint_configs`, whose rows refer to it. The
-- amounts minted under a configuration are added up as `u64`, which wraps around in a release
-- build.
use reserve_auditor.Prelude.{
  ℕ, ◌+◌, ◌%◌, Bool, false, not, Option, none, some, List, [], ◌∷◌, ◌++◌, map, ⊤, ◌&&◌, ◌||◌, ◌==◌,
  any, filter, is_id, by_key, next_key, if◌then◌else◌,
}
use reserve_auditor.Prelude.Int.{as_i64, as_u64, ◌==ℤ◌, ltb_ℤ, u64_mod}
use reserve_auditor.Prelude.Text.{text_eq}
use reserve_auditor.Result.{ok_or}
use reserve_auditor.Error.{Error, from_diesel, DieselError}
use reserve_auditor.Core.{CoreMintConfig, CoreMintConfigTx, External}
use reserve_auditor.Db.Models.{Db, MintTx, MintConfig, MintConfigTx}
use reserve_auditor.Db.Monad.{
  Sql, pure, raise_if, lift, gets, modify, for_each, transaction, ◌>>=◌, ◌>>◌,
}
use reserve_auditor.Db.MintTxs.{is_some, config_key}

abbrev pub config_tx_key : MintConfigTx → Option ℕ
config_tx_key t = t.id

-- the key of a row that is inserted: its own, or a new one in place of NULL
abbrev key_or : Option ℕ → ℕ → ℕ
key_or none k = k
key_or (some n) k = n

-- is the row's own key in use?
abbrev taken : {A : Type 0} → (A → Option ℕ) → Option ℕ → List A → Bool
taken key none rows = false
taken key (some k) rows = is_some (by_key key k rows)

-- `id.unwrap_or_default()`
abbrev pub id_or_zero : Option ℕ → ℕ
id_or_zero o = key_or o 0

abbrev pub sum_u64 : List ℕ → ℕ
sum_u64 [] = 0
sum_u64 (n ∷ ns) = (n + sum_u64 ns) % u64_mod

unfoldable pub insert_mint_config : MintConfig → Sql MintConfig
insert_mint_config c = do
  db ← gets (λ db. db)
  raise_if (taken config_key c.id db.mint_configs) (from_diesel DieselError.unique_violation)
  raise_if (not (is_some (by_key config_tx_key c.mint_config_tx_id db.mint_config_txs)))
      (from_diesel DieselError.foreign_key_violation)
  let row = record c { id = some (key_or c.id (next_key config_key db.mint_configs)) }
  modify (λ s. record s { mint_configs = s.mint_configs ++ row ∷ [] })
  pure row

-- the configurations of a transaction
unfoldable pub get_by_mint_config_tx_id : ℕ → Db → List MintConfig
get_by_mint_config_tx_id mint_config_tx_id db =
    filter (λ c. c.mint_config_tx_id == mint_config_tx_id) db.mint_configs

-- the row of the join of `mint_txs` with `mint_configs` and `mint_config_txs`
unfoldable pub join_config : Db → MintTx → Option (MintConfig × MintConfigTx)
join_config db m = elim m.mint_config_id [
  | none ↦ none
  | some k ↦ elim (by_key config_key k db.mint_configs) [
    | none ↦ none
    | some c ↦ elim (by_key config_tx_key c.mint_config_tx_id db.mint_config_txs) [
      | none ↦ none
      | some t ↦ some (c, t)
    ]
  ]
]

-- was it minted after its configuration and before the block, with a configuration that passes?
unfoldable pub minted_before : ℕ → Db → (MintConfig → MintConfigTx → Bool) → MintTx → Bool
minted_before block_index db p m = elim (join_config db m) [
  | none ↦ false
  | some (c, t) ↦
      ltb_ℤ t.block_index m.block_index && p c t && ltb_ℤ m.block_index (as_i64 block_index)
]

unfoldable pub total_minted : ℕ → Db → (MintConfig → MintConfigTx → Bool) → ℕ
total_minted block_index db p =
    sum_u64 (map (λ m. as_u64 m.amount) (filter (minted_before block_index db p) db.mint_txs))

-- `MintConfig::get_total_minted_before_block`
unfoldable pub config_minted_before_block : MintConfig → ℕ → Db → ℕ
config_minted_before_block self block_index db =
    total_minted block_index db (λ c t. is_id (id_or_zero self.id) c.id)

-- `MintConfigTx::get_total_minted_before_block`
unfoldable pub tx_minted_before_block : MintConfigTx → ℕ → Db → ℕ
tx_minted_before_block self block_index db =
    total_minted block_index db (λ c t. is_id (id_or_zero self.id) t.id)

-- the first row of the largest block
abbrev pub later : MintConfigTx → Option MintConfigTx → MintConfigTx
later t none = t
later t (some u) = if ltb_ℤ t.block_index u.block_index then u else t

abbrev pub latest : List MintConfigTx → Option MintConfigTx
latest [] = none
latest (t ∷ ts) = some (later t (latest ts))

unfoldable pub most_recent_for_token : ℕ → ℕ → Db → Option MintConfigTx
most_recent_for_token block_index token_id db = latest (
    filter (λ t. t.token_id ==ℤ as_i64 token_id && ltb_ℤ t.block_index (as_i64 block_index))
      db.mint_config_txs)

unfoldable pub get_config_txs_by_block_index : ℕ → Db → List MintConfigTx
get_config_txs_by_block_index block_index db =
    filter (λ t. t.block_index ==ℤ as_i64 block_index) db.mint_config_txs

module _ (x : External) where
  unfoldable pub from_core_mint_config : ℕ → CoreMintConfig → MintConfig
  from_core_mint_config mint_config_tx_id config = record {
    id = none;
    mint_config_tx_id = mint_config_tx_id;
    mint_limit = as_i64 config.mint_limit;
    protobuf = x.encode_mint_config config;
  }

  unfoldable pub from_core_mint_config_tx : ℕ → Option ℕ → CoreMintConfigTx → MintConfigTx
  from_core_mint_config_tx block_index block_timestamp tx = record {
    id = none;
    block_index = as_i64 block_index;
    block_timestamp = block_timestamp;
    token_id = as_i64 tx.token_id;
    nonce_hex = x.hex.encode tx.nonce;
    total_mint_limit = as_i64 tx.total_mint_limit;
    tombstone_block = as_i64 tx.tombstone_block;
    protobuf = x.encode_mint_config_tx tx;
  }

  -- the INSERT of the row itself; its value is `last_insert_rowid`
  unfoldable pub insert_config_tx_row : MintConfigTx → Sql ℕ
  insert_config_tx_row t = do
    db ← gets (λ db. db)
    raise_if
        (taken config_tx_key t.id db.mint_config_txs
          || any (λ r. text_eq r.nonce_hex t.nonce_hex) db.mint_config_txs
          || any (λ r. r.block_index ==ℤ t.block_index && r.token_id ==ℤ t.token_id)
              db.mint_config_txs)
        (from_diesel DieselError.unique_violation)
    let k = key_or t.id (next_key config_tx_key db.mint_config_txs)
    modify (λ s. record s { mint_config_txs = s.mint_config_txs ++ record t { id = some k } ∷ [] })
    pure k

  unfoldable pub insert_from_core_mint_config : ℕ → CoreMintConfig → Sql MintConfig
  insert_from_core_mint_config mint_config_tx_id config =
      insert_mint_config (from_core_mint_config mint_config_tx_id config)

  abbrev pub insert_configs : ℕ → List CoreMintConfig → Sql ⊤
  insert_configs mint_config_tx_id =
      for_each (λ c. insert_from_core_mint_config mint_config_tx_id c >>= λ _. pure tt)

  -- the row and its configurations
  unfoldable pub insert_config_tx_rows : MintConfigTx → List CoreMintConfig → Sql ℕ
  insert_config_tx_rows t configs = do k ← insert_config_tx_row t; insert_configs k configs; pure k

  -- `MintConfigTx::insert`, in one transaction
  unfoldable pub insert_mint_config_tx : MintConfigTx → Sql MintConfigTx
  insert_mint_config_tx t = do
    core ← lift (ok_or (x.decode_mint_config_tx t.protobuf) Error.decode)
    k ← transaction (insert_config_tx_rows t core.configs)
    pure (record t { id = some k })

  unfoldable pub insert_from_core_mint_config_tx :
      ℕ → Option ℕ → CoreMintConfigTx → Sql MintConfigTx
  insert_from_core_mint_config_tx block_index block_timestamp config_tx =
      insert_mint_config_tx (from_core_mint_config_tx block_index block_timestamp config_tx)
