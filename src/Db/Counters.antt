-- ===== src/Db/Counters.antt =====
-- src/db/models/counters.rs. The macro makes a getter and an increment for each column: `value` and
-- `inc`. The Prometheus gauges, which copy the counters, are left out.
pub mod Laws
use reserve_auditor.Prelude.{ℕ, ◌+◌, ⊤, List, [], ◌∷◌, ◌++◌, map}
use reserve_auditor.Result.{ok, err}
use reserve_auditor.Error.{Error, other}
use reserve_auditor.Db.Models.{Db, Counters}
use reserve_auditor.Db.Monad.{Sql, pure, transaction}

pub data CounterName : Type 0 where
  num_blocks_synced num_burns_exceeding_balance : CounterName
  num_mint_txs_without_matching_mint_config : CounterName
  num_mismatching_mints_and_deposits num_mismatching_burns_and_withdrawals : CounterName
  num_unknown_ethereum_token_deposits num_unknown_ethereum_token_withdrawals : CounterName
  num_mints_to_unknown_safe num_burns_from_unknown_safe : CounterName
  num_invalid_ethereum_transactions num_invalid_multi_sig_transactions : CounterName
  num_unexpected_errors_matching_deposits_to_mints : CounterName
  num_unexpected_errors_matching_mints_to_deposits : CounterName
  num_unexpected_errors_matching_withdrawals_to_burns : CounterName
  num_unexpected_errors_matching_burns_to_withdrawals : CounterName

-- `Counters::default()`
abbrev pub zero_counters : Counters
zero_counters = record {
  num_blocks_synced = 0;
  num_burns_exceeding_balance = 0;
  num_mint_txs_without_matching_mint_config = 0;
  num_mismatching_mints_and_deposits = 0;
  num_mismatching_burns_and_withdrawals = 0;
  num_unknown_ethereum_token_deposits = 0;
  num_unknown_ethereum_token_withdrawals = 0;
  num_mints_to_unknown_safe = 0;
  num_burns_from_unknown_safe = 0;
  num_invalid_ethereum_transactions = 0;
  num_invalid_multi_sig_transactions = 0;
  num_unexpected_errors_matching_deposits_to_mints = 0;
  num_unexpected_errors_matching_mints_to_deposits = 0;
  num_unexpected_errors_matching_withdrawals_to_burns = 0;
  num_unexpected_errors_matching_burns_to_withdrawals = 0;
}

-- the getters
unfoldable pub value : CounterName → Counters → ℕ
value num_blocks_synced c = c.num_blocks_synced
value num_burns_exceeding_balance c = c.num_burns_exceeding_balance
value num_mint_txs_without_matching_mint_config c = c.num_mint_txs_without_matching_mint_config
value num_mismatching_mints_and_deposits c = c.num_mismatching_mints_and_deposits
value num_mismatching_burns_and_withdrawals c = c.num_mismatching_burns_and_withdrawals
value num_unknown_ethereum_token_deposits c = c.num_unknown_ethereum_token_deposits
value num_unknown_ethereum_token_withdrawals c = c.num_unknown_ethereum_token_withdrawals
value num_mints_to_unknown_safe c = c.num_mints_to_unknown_safe
value num_burns_from_unknown_safe c = c.num_burns_from_unknown_safe
value num_invalid_ethereum_transactions c = c.num_invalid_ethereum_transactions
value num_invalid_multi_sig_transactions c = c.num_invalid_multi_sig_transactions
value num_unexpected_errors_matching_deposits_to_mints c =
    c.num_unexpected_errors_matching_deposits_to_mints
value num_unexpected_errors_matching_mints_to_deposits c =
    c.num_unexpected_errors_matching_mints_to_deposits
value num_unexpected_errors_matching_withdrawals_to_burns c =
    c.num_unexpected_errors_matching_withdrawals_to_burns
value num_unexpected_errors_matching_burns_to_withdrawals c =
    c.num_unexpected_errors_matching_burns_to_withdrawals

-- `column = column + 1`
unfoldable pub bump : CounterName → Counters → Counters
bump num_blocks_synced c = record c { num_blocks_synced = c.num_blocks_synced + 1 }
bump num_burns_exceeding_balance c = record c {
  num_burns_exceeding_balance = c.num_burns_exceeding_balance + 1;
}
bump num_mint_txs_without_matching_mint_config c = record c {
  num_mint_txs_without_matching_mint_config = c.num_mint_txs_without_matching_mint_config + 1;
}
bump num_mismatching_mints_and_deposits c = record c {
  num_mismatching_mints_and_deposits = c.num_mismatching_mints_and_deposits + 1;
}
bump num_mismatching_burns_and_withdrawals c = record c {
  num_mismatching_burns_and_withdrawals = c.num_mismatching_burns_and_withdrawals + 1;
}
bump num_unknown_ethereum_token_deposits c = record c {
  num_unknown_ethereum_token_deposits = c.num_unknown_ethereum_token_deposits + 1;
}
bump num_unknown_ethereum_token_withdrawals c = record c {
  num_unknown_ethereum_token_withdrawals = c.num_unknown_ethereum_token_withdrawals + 1;
}
bump num_mints_to_unknown_safe c = record c {
  num_mints_to_unknown_safe = c.num_mints_to_unknown_safe + 1;
}
bump num_burns_from_unknown_safe c = record c {
  num_burns_from_unknown_safe = c.num_burns_from_unknown_safe + 1;
}
bump num_invalid_ethereum_transactions c = record c {
  num_invalid_ethereum_transactions = c.num_invalid_ethereum_transactions + 1;
}
bump num_invalid_multi_sig_transactions c = record c {
  num_invalid_multi_sig_transactions = c.num_invalid_multi_sig_transactions + 1;
}
bump num_unexpected_errors_matching_deposits_to_mints c = record c {
  num_unexpected_errors_matching_deposits_to_mints =
      c.num_unexpected_errors_matching_deposits_to_mints + 1;
}
bump num_unexpected_errors_matching_mints_to_deposits c = record c {
  num_unexpected_errors_matching_mints_to_deposits =
      c.num_unexpected_errors_matching_mints_to_deposits + 1;
}
bump num_unexpected_errors_matching_withdrawals_to_burns c = record c {
  num_unexpected_errors_matching_withdrawals_to_burns =
      c.num_unexpected_errors_matching_withdrawals_to_burns + 1;
}
bump num_unexpected_errors_matching_burns_to_withdrawals c = record c {
  num_unexpected_errors_matching_burns_to_withdrawals =
      c.num_unexpected_errors_matching_burns_to_withdrawals + 1;
}

-- `Counters::get`: the row, or the default where there is none
unfoldable pub get_counters : Sql Counters
get_counters s = elim s.counters [ [] ↦ (ok zero_counters, s) | c ∷ _ ↦ (ok c, s) ]

-- The increment: an UPDATE without a WHERE, and an error unless it changed exactly one row.
unfoldable pub inc : CounterName → Sql ⊤
inc n s =
    let s' = record s { counters = map (bump n) s.counters } in
    elim s.counters [
      | [] ↦ (err Error.not_found, s')
      | _ ∷ r ↦ elim r [ [] ↦ (ok tt, s') | _ ∷ _ ↦ (err Error.other, s') ]
    ]

unfoldable pub ensure_exists : Sql ⊤
ensure_exists = transaction λ s. elim s.counters [
  | [] ↦ (ok tt, record s { counters = zero_counters ∷ [] })
  | _ ∷ _ ↦ (ok tt, s)
]
