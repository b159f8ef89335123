-- ===== src/Db/BurnTxOuts.antt =====
-- src/db/models/burn_tx_out.rs: the table `burn_tx_outs`, with its UNIQUE public key.
pub mod Insertion
use reserve_auditor.Prelude.{
  ℕ, Bool, not, Option, none, some, List, [], ◌∷◌, ◌++◌, map, ◌&&◌, any, find, filter, is_id,
  next_key,
}
use reserve_auditor.Prelude.Int.{as_i64, as_u64, ◌==ℤ◌}
use reserve_auditor.Prelude.Text.{Text, text_eq}
use reserve_auditor.Error.{Error, from_diesel, DieselError}
use reserve_auditor.Core.{TxOut, External}
use reserve_auditor.Db.Models.{Db, BurnTxOut}
use reserve_auditor.Db.Monad.{Sql, pure, raise_if, gets, modify, ◌>>=◌, ◌>>◌}
use reserve_auditor.Db.MintTxs.{is_some}

abbrev pub burn_key : BurnTxOut → Option ℕ
burn_key b = b.id

-- the getters `token_id` and `amount`
abbrev pub burn_token_id : BurnTxOut → ℕ
burn_token_id b = as_u64 b.token_id

abbrev pub burn_amount : BurnTxOut → ℕ
burn_amount b = as_u64 b.amount

unfoldable pub insert_burn : BurnTxOut → Sql BurnTxOut
insert_burn b = do
  raise_if (is_some b.id) Error.already_exists
  db ← gets (λ db. db)
  raise_if (any (λ r. text_eq r.public_key_hex b.public_key_hex) db.burn_tx_outs)
      (from_diesel DieselError.unique_violation)
  let row = record b { id = some (next_key burn_key db.burn_tx_outs) }
  modify (λ s. record s { burn_tx_outs = s.burn_tx_outs ++ row ∷ [] })
  pure row

-- `exists(audited_burns where burn_tx_out_id = burn_tx_outs.id)`
abbrev pub burn_is_audited : Db → BurnTxOut → Bool
burn_is_audited db b = any (λ a. is_id a.burn_tx_out_id b.id) db.audited_burns

unfoldable pub find_unaudited_burn_tx_outs : Db → List BurnTxOut
find_unaudited_burn_tx_outs db = filter (λ b. not (burn_is_audited db b)) db.burn_tx_outs

unfoldable pub find_unaudited_burn_tx_out_by_public_key : Text → Db → Option BurnTxOut
find_unaudited_burn_tx_out_by_public_key public_key_hex db =
    find (λ b. text_eq b.public_key_hex public_key_hex && not (burn_is_audited db b))
      db.burn_tx_outs

unfoldable pub get_burn_amounts : ℕ → Db → List (ℕ × ℕ)
get_burn_amounts token_id db =
    map (λ b. (as_u64 b.token_id, as_u64 b.amount))
      (filter (λ b. b.token_id ==ℤ as_i64 token_id) db.burn_tx_outs)

unfoldable pub get_burn_txs_by_block : ℕ → Db → List BurnTxOut
get_burn_txs_by_block block_index db =
    filter (λ b. b.block_index ==ℤ as_i64 block_index) db.burn_tx_outs

module _ (x : External) where
  -- A TxOut that the burn key does not own is no burn.
  unfoldable pub from_core_tx_out : ℕ → Option ℕ → TxOut → Option BurnTxOut
  from_core_tx_out block_index block_timestamp tx_out = elim (x.view_key_match tx_out) [
    | none ↦ none
    | some amount ↦ some (record {
      id = none;
      block_index = as_i64 block_index;
      block_timestamp = block_timestamp;
      token_id = as_i64 amount.token_id;
      amount = as_i64 amount.value;
      public_key_hex = x.hex.encode tx_out.public_key;
      protobuf = x.encode_tx_out tx_out;
    })
  ]
