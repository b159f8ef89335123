-- ===== src/Db/Deposits.antt =====
-- src/db/models/gnosis_safe_deposit.rs: the table `gnosis_safe_deposits`, with its UNIQUE
-- transaction hash and its reference to `gnosis_safe_txs`, and
-- src/db/models/gnosis_safe_tx.rs: that table, with its UNIQUE hash.
pub mod Insertion
use reserve_auditor.Prelude.{
  ℕ, ⊤, Bool, not, Option, none, some, List, [], ◌∷◌, ◌++◌, ◌&&◌, any, find, filter, is_id,
  next_key,
}
use reserve_auditor.Prelude.Int.{ℤ, as_i64, as_u64}
use reserve_auditor.Prelude.Text.{Text, text_eq}
use reserve_auditor.Error.{Error, from_diesel, DieselError}
use reserve_auditor.Gnosis.Types.{EthAddr, EthTxHash, EthTxValue, Hex, hash_eq, hash_to_string}
use reserve_auditor.MintTxNonce.{ethereum_gnosis_deposit, to_bytes}
use reserve_auditor.Db.Models.{Db, GnosisSafeDeposit}
use reserve_auditor.Db.Monad.{Sql, pure, raise_if, gets, modify, ◌>>=◌, ◌>>◌}
use reserve_auditor.Db.MintTxs.{is_some}

abbrev pub deposit_key : GnosisSafeDeposit → Option ℕ
deposit_key d = d.id

-- the getter `amount`
abbrev pub deposit_amount : GnosisSafeDeposit → ℕ
deposit_amount d = as_u64 d.amount

-- `exists(audited_mints where gnosis_safe_deposit_id = gnosis_safe_deposits.id)`
abbrev pub deposit_is_audited : Db → GnosisSafeDeposit → Bool
deposit_is_audited db d = any (λ a. is_id a.gnosis_safe_deposit_id d.id) db.audited_mints

unfoldable pub find_unaudited_deposits : Db → List GnosisSafeDeposit
find_unaudited_deposits db = filter (λ d. not (deposit_is_audited db d)) db.gnosis_safe_deposits

unfoldable pub find_unaudited_deposit_by_nonce : Text → Db → Option GnosisSafeDeposit
find_unaudited_deposit_by_nonce nonce_hex db =
    find (λ d. text_eq d.expected_mc_mint_tx_nonce_hex nonce_hex && not (deposit_is_audited db d))
      db.gnosis_safe_deposits

-- `GnosisSafeTx::insert`, with the hash of the raw transaction as a text and its JSON
unfoldable pub insert_safe_tx : Text → Text → Sql ⊤
insert_safe_tx eth_tx_hash raw_tx_json = do
  db ← gets (λ db. db)
  raise_if (any (λ t. text_eq t.eth_tx_hash eth_tx_hash) db.gnosis_safe_txs)
      (from_diesel DieselError.unique_violation)
  modify λ s. record s {
    gnosis_safe_txs =
        s.gnosis_safe_txs ++ record { eth_tx_hash = eth_tx_hash; raw_tx_json = raw_tx_json } ∷ [];
  }

module _ (hex : Hex) where
  -- `GnosisSafeDeposit::new`
  unfoldable pub new_deposit :
      Option ℕ
      → EthTxHash
      → ℕ
      → EthTxValue
      → ℕ
      → EthAddr
      → EthAddr
      → EthAddr
      → ℕ
      → GnosisSafeDeposit
  new_deposit id eth_tx_hash execution_date eth_tx_value eth_block_number safe_addr token_addr
        from_addr amount =
      record {
        id = id;
        eth_tx_hash = eth_tx_hash;
        execution_date = execution_date;
        eth_tx_value = eth_tx_value;
        eth_block_number = as_i64 eth_block_number;
        safe_addr = safe_addr;
        token_addr = token_addr;
        from_addr = from_addr;
        amount = as_i64 amount;
        expected_mc_mint_tx_nonce_hex = hex.encode (to_bytes (ethereum_gnosis_deposit eth_tx_hash));
      }

  unfoldable pub insert_deposit : GnosisSafeDeposit → Sql GnosisSafeDeposit
  insert_deposit d = do
    raise_if (is_some d.id) Error.already_exists
    db ← gets (λ db. db)
    raise_if (any (λ r. hash_eq r.eth_tx_hash d.eth_tx_hash) db.gnosis_safe_deposits)
        (from_diesel DieselError.unique_violation)
    raise_if
        (not
          (any (λ t. text_eq t.eth_tx_hash (hash_to_string hex d.eth_tx_hash)) db.gnosis_safe_txs))
        (from_diesel DieselError.foreign_key_violation)
    let row = record d { id = some (next_key deposit_key db.gnosis_safe_deposits) }
    modify (λ s. record s { gnosis_safe_deposits = s.gnosis_safe_deposits ++ row ∷ [] })
    pure row
