-- ===== src/Db/Withdrawals.antt =====
-- src/db/models/gnosis_safe_withdrawal.rs: the table `gnosis_safe_withdrawals`, with its UNIQUE
-- transaction hash and its reference to `gnosis_safe_txs`.
pub mod Insertion
use reserve_auditor.Prelude.{
  ℕ, Bool, not, Option, none, some, List, [], ◌∷◌, ◌++◌, ◌&&◌, any, find, filter, is_id, next_key,
}
use reserve_auditor.Prelude.Int.{ℤ, as_i64, as_u64}
use reserve_auditor.Prelude.Text.{Text, text_eq}
use reserve_auditor.Error.{Error, from_diesel, DieselError}
use reserve_auditor.Gnosis.Types.{EthAddr, EthTxHash, EthTxValue, Hex, hash_eq, hash_to_string}
use reserve_auditor.Db.Models.{Db, GnosisSafeWithdrawal}
use reserve_auditor.Db.Monad.{Sql, pure, raise_if, gets, modify, ◌>>=◌, ◌>>◌}
use reserve_auditor.Db.MintTxs.{is_some}

abbrev pub withdrawal_key : GnosisSafeWithdrawal → Option ℕ
withdrawal_key d = d.id

-- the getter `amount`
abbrev pub withdrawal_amount : GnosisSafeWithdrawal → ℕ
withdrawal_amount d = as_u64 d.amount

-- `exists(audited_burns where gnosis_safe_withdrawal_id = gnosis_safe_withdrawals.id)`
abbrev pub withdrawal_is_audited : Db → GnosisSafeWithdrawal → Bool
withdrawal_is_audited db d = any (λ a. is_id a.gnosis_safe_withdrawal_id d.id) db.audited_burns

unfoldable pub find_unaudited_withdrawals : Db → List GnosisSafeWithdrawal
find_unaudited_withdrawals db =
    filter (λ d. not (withdrawal_is_audited db d)) db.gnosis_safe_withdrawals

unfoldable pub find_unaudited_withdrawal_by_public_key : Text → Db → Option GnosisSafeWithdrawal
find_unaudited_withdrawal_by_public_key public_key_hex db =
    find
      (λ d. text_eq d.mc_tx_out_public_key_hex public_key_hex && not (withdrawal_is_audited db d))
      db.gnosis_safe_withdrawals

-- `GnosisSafeWithdrawal::new`
unfoldable pub new_withdrawal :
    Option ℕ
    → EthTxHash
    → ℕ
    → EthTxValue
    → ℕ
    → EthAddr
    → EthAddr
    → EthAddr
    → ℕ
    → Text
    → GnosisSafeWithdrawal
new_withdrawal id eth_tx_hash execution_date eth_tx_value eth_block_number safe_addr token_addr
      to_addr amount mc_tx_out_public_key_hex =
    record {
      id = id;
      eth_tx_hash = eth_tx_hash;
      execution_date = execution_date;
      eth_tx_value = eth_tx_value;
      eth_block_number = as_i64 eth_block_number;
      safe_addr = safe_addr;
      token_addr = token_addr;
      to_addr = to_addr;
      amount = as_i64 amount;
      mc_tx_out_public_key_hex = mc_tx_out_public_key_hex;
    }

module _ (hex : Hex) where
  unfoldable pub insert_withdrawal : GnosisSafeWithdrawal → Sql GnosisSafeWithdrawal
  insert_withdrawal d = do
    raise_if (is_some d.id) Error.already_exists
    db ← gets (λ db. db)
    raise_if (any (λ r. hash_eq r.eth_tx_hash d.eth_tx_hash) db.gnosis_safe_withdrawals)
        (from_diesel DieselError.unique_violation)
    raise_if
        (not
          (any (λ t. text_eq t.eth_tx_hash (hash_to_string hex d.eth_tx_hash)) db.gnosis_safe_txs))
        (from_diesel DieselError.foreign_key_violation)
    let row = record d { id = some (next_key withdrawal_key db.gnosis_safe_withdrawals) }
    modify (λ s. record s { gnosis_safe_withdrawals = s.gnosis_safe_withdrawals ++ row ∷ [] })
    pure row
