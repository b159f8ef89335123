-- ===== src/Audit/Mint.antt =====
-- src/db/models/audited_mint.rs: mints are matched with deposits.
pub mod Outcome
pub mod OutcomeOfMint
pub mod Sound
pub mod Keeps
pub mod Succeeds
pub mod Reasons
pub mod Counts
pub mod Ends
pub mod Complete
use reserve_auditor.Prelude.{
  ℕ, ⊤, Bool, true, false, not, Option, none, some, List, [], ◌∷◌, ◌++◌, ◌==◌, by_key, next_key,
  if◌then◌else◌,
}
use reserve_auditor.Prelude.Text.{Text}
use reserve_auditor.Result.{Result, ok_or}
use reserve_auditor.Error.{
  Error, DieselError, from_diesel, not_found, already_exists, object_not_saved,
  deposit_and_mint_mismatch, ethereum_token_not_audited, gnosis_safe_not_audited, other,
}
use reserve_auditor.Gnosis.Types.{EthTxHash, addr_eq}
use reserve_auditor.Gnosis.Config.{
  AuditedSafeConfig, GnosisSafeConfig, get_audited_safe_config_by_safe_addr,
}
use reserve_auditor.Db.Models.{Db, MintTx, GnosisSafeDeposit, AuditedMint}
use reserve_auditor.Db.Monad.{
  Sql, pure, raise, lift, gets, modify, raise_if, ◌>>=◌, ◌>>◌, transaction,
}
use reserve_auditor.Db.Counters.{
  inc, CounterName, num_mismatching_mints_and_deposits, num_unknown_ethereum_token_deposits,
  num_mints_to_unknown_safe, num_unexpected_errors_matching_deposits_to_mints,
  num_unexpected_errors_matching_mints_to_deposits,
}
use reserve_auditor.Db.MintTxs.{is_some, mint_key, find_unaudited_mint_tx_by_nonce}
use reserve_auditor.Db.Deposits.{deposit_key, find_unaudited_deposit_by_nonce}
use reserve_auditor.Audit.Counting.{or_else, expect_id, counted}
use reserve_auditor.Audit.Verify.{verify_mint_tx_matches_deposit}

abbrev pub audited_mint_key : AuditedMint → Option ℕ
audited_mint_key a = a.id

abbrev pub mint_by_id : ℕ → Db → Option MintTx
mint_by_id k db = by_key mint_key k db.mint_txs

abbrev pub deposit_by_id : ℕ → Db → Option GnosisSafeDeposit
deposit_by_id k db = by_key deposit_key k db.gnosis_safe_deposits

-- one row of the join of `audited_mints` with the two tables that it refers to
unfoldable pub join_mint : Db → AuditedMint → Option (Text × EthTxHash)
join_mint db a = elim (mint_by_id a.mint_tx_id db) [
  | none ↦ none
  | some m ↦ elim (deposit_by_id a.gnosis_safe_deposit_id db) [
    | none ↦ none
    | some d ↦ some (m.nonce_hex, d.eth_tx_hash)
  ]
]

-- the first row of the join whose audit row passes
unfoldable pub first_joined :
    Db → (AuditedMint → Bool) → List AuditedMint → Option (Text × EthTxHash)
first_joined db p [] = none
first_joined db p (a ∷ rows) =
    or_else (if p a then join_mint db a else none) (first_joined db p rows)

-- the query for `existing_match`, by deposit and by mint
unfoldable pub existing_match_of_deposit : ℕ → Db → Option (Text × EthTxHash)
existing_match_of_deposit deposit_id db =
    first_joined db (λ a. a.gnosis_safe_deposit_id == deposit_id) db.audited_mints

unfoldable pub existing_match_of_mint : ℕ → Db → Option (Text × EthTxHash)
existing_match_of_mint mint_tx_id db =
    first_joined db (λ a. a.mint_tx_id == mint_tx_id) db.audited_mints

-- an INSERT, with the foreign keys of the table
unfoldable pub associate_deposit_with_mint : ℕ → ℕ → Sql ⊤
associate_deposit_with_mint gnosis_safe_deposit_id mint_tx_id = do
  db ← gets (λ db. db)
  raise_if (not (is_some (mint_by_id mint_tx_id db)))
      (from_diesel DieselError.foreign_key_violation)
  raise_if (not (is_some (deposit_by_id gnosis_safe_deposit_id db)))
      (from_diesel DieselError.foreign_key_violation)
  modify (λ s. record s {
    audited_mints =
        s.audited_mints
        ++ record {
          id = some (next_key audited_mint_key s.audited_mints);
          mint_tx_id = mint_tx_id;
          gnosis_safe_deposit_id = gnosis_safe_deposit_id;
        }
          ∷ [];
  })

-- if the deposit has a match, count that and fail
abbrev pub fail_if_matched : Option (Text × EthTxHash) → Sql ⊤
fail_if_matched none = pure tt
fail_if_matched (some _) =
    inc num_unexpected_errors_matching_deposits_to_mints >> raise already_exists

-- what `try_match_deposit_with_mint` does inside its transaction
unfoldable pub deposit_to_mint : GnosisSafeDeposit → AuditedSafeConfig → ℕ → Sql MintTx
deposit_to_mint deposit config deposit_id = do
  existing_match ← gets (existing_match_of_deposit deposit_id)
  fail_if_matched existing_match
  found ← gets (find_unaudited_mint_tx_by_nonce deposit.expected_mc_mint_tx_nonce_hex)
  mint_tx ← lift (ok_or found not_found)
  lift (verify_mint_tx_matches_deposit mint_tx deposit config)
  mint_tx_id ← expect_id mint_tx.id
  associate_deposit_with_mint deposit_id mint_tx_id
  pure mint_tx

-- the closure whose value is `result`
unfoldable pub match_deposit : GnosisSafeDeposit → AuditedSafeConfig → Sql MintTx
match_deposit deposit config = do
  deposit_id ← lift (ok_or deposit.id object_not_saved)
  raise_if (not (addr_eq deposit.safe_addr config.safe_addr)) other
  transaction (deposit_to_mint deposit config deposit_id)

-- the counter of an error, outside of the transaction
abbrev pub deposit_error_counter : Error → CounterName
deposit_error_counter deposit_and_mint_mismatch = num_mismatching_mints_and_deposits
deposit_error_counter (ethereum_token_not_audited _ _ _) = num_unknown_ethereum_token_deposits
deposit_error_counter _ = num_unexpected_errors_matching_deposits_to_mints

unfoldable pub try_match_deposit_with_mint : GnosisSafeDeposit → AuditedSafeConfig → Sql MintTx
try_match_deposit_with_mint deposit config =
    counted deposit_error_counter (match_deposit deposit config)

-- what `try_match_mint_with_deposit` does inside its transaction
unfoldable pub mint_to_deposit : MintTx → GnosisSafeConfig → ℕ → Sql GnosisSafeDeposit
mint_to_deposit mint_tx config mint_tx_id = do
  existing_match ← gets (existing_match_of_mint mint_tx_id)
  raise_if (is_some existing_match) already_exists
  found ← gets (find_unaudited_deposit_by_nonce mint_tx.nonce_hex)
  deposit ← lift (ok_or found not_found)
  audited_safe_config ← lift (
      ok_or (get_audited_safe_config_by_safe_addr config deposit.safe_addr)
        (gnosis_safe_not_audited deposit.safe_addr))
  lift (verify_mint_tx_matches_deposit mint_tx deposit audited_safe_config)
  deposit_id ← expect_id deposit.id
  associate_deposit_with_mint deposit_id mint_tx_id
  pure deposit

unfoldable pub match_mint : MintTx → GnosisSafeConfig → Sql GnosisSafeDeposit
match_mint mint_tx config = do
  mint_tx_id ← lift (ok_or mint_tx.id object_not_saved)
  transaction (mint_to_deposit mint_tx config mint_tx_id)

abbrev pub mint_error_counter : Error → CounterName
mint_error_counter (gnosis_safe_not_audited _) = num_mints_to_unknown_safe
mint_error_counter deposit_and_mint_mismatch = num_mismatching_mints_and_deposits
mint_error_counter (ethereum_token_not_audited _ _ _) = num_unknown_ethereum_token_deposits
mint_error_counter _ = num_unexpected_errors_matching_mints_to_deposits

unfoldable pub try_match_mint_with_deposit : MintTx → GnosisSafeConfig → Sql GnosisSafeDeposit
try_match_mint_with_deposit mint_tx config = counted mint_error_counter (match_mint mint_tx config)
