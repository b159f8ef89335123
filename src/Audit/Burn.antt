-- ===== src/Audit/Burn.antt =====
-- src/db/models/audited_burn.rs: burns are matched with withdrawals.
pub mod Outcome
pub mod OutcomeOfBurn
pub mod Sound
pub mod Keeps
pub mod Succeeds
pub mod Reasons
pub mod Counts
pub mod Ends
pub mod Complete
use reserve_auditor.Prelude.{
  ℕ, ⊤, Bool, true, false, not, Option, none, some, List, [], ◌∷◌, ◌++◌, ◌==◌, by_key, next_key,
  if◌then◌else◌,
}
use reserve_auditor.Prelude.Text.{Text}
use reserve_auditor.Result.{Result, ok_or}
use reserve_auditor.Error.{
  Error, DieselError, from_diesel, not_found, already_exists, object_not_saved,
  withdrawal_and_burn_mismatch, ethereum_token_not_audited, gnosis_safe_not_audited, other,
}
use reserve_auditor.Gnosis.Types.{EthTxHash, addr_eq}
use reserve_auditor.Gnosis.Config.{
  AuditedSafeConfig, GnosisSafeConfig, get_audited_safe_config_by_safe_addr,
}
use reserve_auditor.Db.Models.{Db, BurnTxOut, GnosisSafeWithdrawal, AuditedBurn}
use reserve_auditor.Db.Monad.{
  Sql, pure, raise, lift, gets, modify, raise_if, ◌>>=◌, ◌>>◌, transaction,
}
use reserve_auditor.Db.Counters.{
  inc, CounterName, num_mismatching_burns_and_withdrawals, num_unknown_ethereum_token_withdrawals,
  num_burns_from_unknown_safe, num_unexpected_errors_matching_withdrawals_to_burns,
  num_unexpected_errors_matching_burns_to_withdrawals,
}
use reserve_auditor.Db.MintTxs.{is_some}
use reserve_auditor.Db.BurnTxOuts.{burn_key, find_unaudited_burn_tx_out_by_public_key}
use reserve_auditor.Db.Withdrawals.{withdrawal_key, find_unaudited_withdrawal_by_public_key}
use reserve_auditor.Audit.Counting.{or_else, expect_id, counted}
use reserve_auditor.Audit.VerifyBurn.{verify_burn_tx_out_matches_withdrawal}

abbrev pub audited_burn_key : AuditedBurn → Option ℕ
audited_burn_key a = a.id

abbrev pub burn_by_id : ℕ → Db → Option BurnTxOut
burn_by_id k db = by_key burn_key k db.burn_tx_outs

abbrev pub withdrawal_by_id : ℕ → Db → Option GnosisSafeWithdrawal
withdrawal_by_id k db = by_key withdrawal_key k db.gnosis_safe_withdrawals

-- one row of the join of `audited_burns` with the two tables that it refers to
unfoldable pub join_burn : Db → AuditedBurn → Option (Text × EthTxHash)
join_burn db a = elim (burn_by_id a.burn_tx_out_id db) [
  | none ↦ none
  | some m ↦ elim (withdrawal_by_id a.gnosis_safe_withdrawal_id db) [
    | none ↦ none
    | some d ↦ some (m.public_key_hex, d.eth_tx_hash)
  ]
]

-- the first row of the join whose audit row passes
unfoldable pub first_joined :
    Db → (AuditedBurn → Bool) → List AuditedBurn → Option (Text × EthTxHash)
first_joined db p [] = none
first_joined db p (a ∷ rows) =
    or_else (if p a then join_burn db a else none) (first_joined db p rows)

-- the query for `existing_match`, by withdrawal and by burn
unfoldable pub existing_match_of_withdrawal : ℕ → Db → Option (Text × EthTxHash)
existing_match_of_withdrawal withdrawal_id db =
    first_joined db (λ a. a.gnosis_safe_withdrawal_id == withdrawal_id) db.audited_burns

unfoldable pub existing_match_of_burn : ℕ → Db → Option (Text × EthTxHash)
existing_match_of_burn burn_tx_out_id db =
    first_joined db (λ a. a.burn_tx_out_id == burn_tx_out_id) db.audited_burns

-- an INSERT, with the foreign keys of the table
unfoldable pub associate_withdrawal_with_burn : ℕ → ℕ → Sql ⊤
associate_withdrawal_with_burn gnosis_safe_withdrawal_id burn_tx_out_id = do
  db ← gets (λ db. db)
  raise_if (not (is_some (burn_by_id burn_tx_out_id db)))
      (from_diesel DieselError.foreign_key_violation)
  raise_if (not (is_some (withdrawal_by_id gnosis_safe_withdrawal_id db)))
      (from_diesel DieselError.foreign_key_violation)
  modify (λ s. record s {
    audited_burns =
        s.audited_burns
        ++ record {
          id = some (next_key audited_burn_key s.audited_burns);
          burn_tx_out_id = burn_tx_out_id;
          gnosis_safe_withdrawal_id = gnosis_safe_withdrawal_id;
        }
          ∷ [];
  })

-- what `try_match_withdrawal_with_burn` does inside its transaction
unfoldable pub withdrawal_to_burn : GnosisSafeWithdrawal → AuditedSafeConfig → ℕ → Sql BurnTxOut
withdrawal_to_burn withdrawal config withdrawal_id = do
  existing_match ← gets (existing_match_of_withdrawal withdrawal_id)
  raise_if (is_some existing_match) already_exists
  found ← gets (find_unaudited_burn_tx_out_by_public_key withdrawal.mc_tx_out_public_key_hex)
  burn_tx_out ← lift (ok_or found not_found)
  lift (verify_burn_tx_out_matches_withdrawal burn_tx_out withdrawal config)
  burn_tx_out_id ← expect_id burn_tx_out.id
  associate_withdrawal_with_burn withdrawal_id burn_tx_out_id
  pure burn_tx_out

-- the closure whose value is `result`
unfoldable pub match_withdrawal : GnosisSafeWithdrawal → AuditedSafeConfig → Sql BurnTxOut
match_withdrawal withdrawal config = do
  withdrawal_id ← lift (ok_or withdrawal.id object_not_saved)
  raise_if (not (addr_eq withdrawal.safe_addr config.safe_addr)) other
  transaction (withdrawal_to_burn withdrawal config withdrawal_id)

-- the counter of an error, outside of the transaction
abbrev pub withdrawal_error_counter : Error → CounterName
withdrawal_error_counter withdrawal_and_burn_mismatch = num_mismatching_burns_and_withdrawals
withdrawal_error_counter (ethereum_token_not_audited _ _ _) = num_unknown_ethereum_token_withdrawals
withdrawal_error_counter _ = num_unexpected_errors_matching_withdrawals_to_burns

unfoldable pub try_match_withdrawal_with_burn :
    GnosisSafeWithdrawal → AuditedSafeConfig → Sql BurnTxOut
try_match_withdrawal_with_burn withdrawal config =
    counted withdrawal_error_counter (match_withdrawal withdrawal config)

-- what `try_match_burn_with_withdrawal` does inside its transaction
unfoldable pub burn_to_withdrawal : BurnTxOut → GnosisSafeConfig → ℕ → Sql GnosisSafeWithdrawal
burn_to_withdrawal burn_tx_out config burn_tx_out_id = do
  existing_match ← gets (existing_match_of_burn burn_tx_out_id)
  raise_if (is_some existing_match) already_exists
  found ← gets (find_unaudited_withdrawal_by_public_key burn_tx_out.public_key_hex)
  withdrawal ← lift (ok_or found not_found)
  audited_safe_config ← lift (
      ok_or (get_audited_safe_config_by_safe_addr config withdrawal.safe_addr)
        (gnosis_safe_not_audited withdrawal.safe_addr))
  lift (verify_burn_tx_out_matches_withdrawal burn_tx_out withdrawal audited_safe_config)
  withdrawal_id ← expect_id withdrawal.id
  associate_withdrawal_with_burn withdrawal_id burn_tx_out_id
  pure withdrawal

unfoldable pub match_burn : BurnTxOut → GnosisSafeConfig → Sql GnosisSafeWithdrawal
match_burn burn_tx_out config = do
  burn_tx_out_id ← lift (ok_or burn_tx_out.id object_not_saved)
  transaction (burn_to_withdrawal burn_tx_out config burn_tx_out_id)

abbrev pub burn_error_counter : Error → CounterName
burn_error_counter (gnosis_safe_not_audited _) = num_burns_from_unknown_safe
burn_error_counter withdrawal_and_burn_mismatch = num_mismatching_burns_and_withdrawals
burn_error_counter (ethereum_token_not_audited _ _ _) = num_unknown_ethereum_token_withdrawals
burn_error_counter _ = num_unexpected_errors_matching_burns_to_withdrawals

unfoldable pub try_match_burn_with_withdrawal :
    BurnTxOut → GnosisSafeConfig → Sql GnosisSafeWithdrawal
try_match_burn_with_withdrawal burn_tx_out config =
    counted burn_error_counter (match_burn burn_tx_out config)
