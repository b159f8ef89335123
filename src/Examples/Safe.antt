-- ===== src/Examples/Safe.antt =====
-- The Gnosis sync on transactions of a safe.
use reserve_auditor.Prelude.{ℕ, ◌≡◌, ◌↔◌, ◌∙◌, ap, sym, refl, true, none, [], ◌∷◌, ◌++◌, inl}
use reserve_auditor.Prelude.Text.{text, text_eq, starts_with}
use reserve_auditor.Result.{Result, ok, panic}
use reserve_auditor.Gnosis.Types.{hash_to_string, hash_from_str, hash_try_from, addr_eq}
use reserve_auditor.Gnosis.Config.{contains_addr, get_token_by_eth_contract_addr}
use reserve_auditor.Gnosis.Utils.{truncate_value}
use reserve_auditor.Gnosis.Api as Api
use reserve_auditor.Gnosis.Api.{decode}
use reserve_auditor.Gnosis.Parse.{
  parse_deposit, parse_withdrawal_with_pub_key_multi_sig_tx, token_of,
}
use reserve_auditor.Gnosis.Parse.Withdraws.{MultiSend, TokenTransfer, Withdraws}
use reserve_auditor.Gnosis.Parse.Withdrawals.{parse_withdrawal_iff, parse_withdrawal_no_transfer}
use reserve_auditor.Gnosis.Sync.{process_transaction, process_transactions}
use reserve_auditor.Db.Models.{Db}
use reserve_auditor.Error.{Error}
use reserve_auditor.Db.Monad.{for_each}
use reserve_auditor.Db.Monad.Steps.{after_ok}
use reserve_auditor.Db.Counters.{zero_counters}
use reserve_auditor.Db.Deposits.Insertion.{keyed_deposit}
use reserve_auditor.System.{initial_db}
use reserve_auditor.System.Kept.{AuditIsSound}
use reserve_auditor.System.Sound.{initial-AuditIsSound}
use reserve_auditor.System.Polling.{process_transactions-AuditIsSound}
use reserve_auditor.System.Again.{process_transactions_again}
use reserve_auditor.System.NewDeposits.{NewEthereumTx, opened, with_invalid}
use reserve_auditor.System.EthereumTxs.{ether_panics, unknown_token_ends}
use reserve_auditor.System.DepositTxs.{Deposits, deposit_is_stored, two_deposits_panic}
use reserve_auditor.Examples.Data.{hex, safe, config, token, tx_hash}
use reserve_auditor.Examples.SafeData.{
  serde, raw, transfer, ether_transfer, foreign_transfer, deposit_tx, ether_tx, foreign_tx,
  double_tx, new_row, withdrawal_tx, parsed_withdrawal, token_value, aux_value, amount_param,
}

parse_withdrawal_iff_example :
    (parse_withdrawal_with_pub_key_multi_sig_tx hex safe withdrawal_tx ≡ ok parsed_withdrawal)
    ↔ Withdraws hex safe withdrawal_tx parsed_withdrawal
parse_withdrawal_iff_example = parse_withdrawal_iff hex safe withdrawal_tx parsed_withdrawal

process_transactions-AuditIsSound_example :
    AuditIsSound config (process_transactions serde hex safe (raw 0 ∷ (raw 1 ∷ [])) initial_db).1
process_transactions-AuditIsSound_example =
    process_transactions-AuditIsSound serde hex config safe (inl refl) (raw 0 ∷ (raw 1 ∷ []))
      initial_db (initial-AuditIsSound config)

new_tx :
    (n : ℕ) (e : Api.EthereumTransaction)
    → decode serde hex (raw n) ≡ ok (Api.ethereum e)
    → NewEthereumTx serde hex safe initial_db (raw n) e
unfolding Api.tx_hash hash_from_str hash_try_from starts_with hash_to_string text_eq
new_tx n e d = record { hash = tx_hash; known = refl; absent = refl; decoded = d }

deposit_new : NewEthereumTx serde hex safe initial_db (raw 0) deposit_tx
unfolding decode
deposit_new = new_tx 0 deposit_tx refl

ether_new : NewEthereumTx serde hex safe initial_db (raw 1) ether_tx
unfolding decode
ether_new = new_tx 1 ether_tx refl

foreign_new : NewEthereumTx serde hex safe initial_db (raw 2) foreign_tx
unfolding decode
foreign_new = new_tx 2 foreign_tx refl

double_new : NewEthereumTx serde hex safe initial_db (raw 3) double_tx
unfolding decode
double_new = new_tx 3 double_tx refl

into_safe : addr_eq transfer.to safe.safe_addr ≡ true
unfolding addr_eq text_eq
into_safe = refl

ether_panics_example : process_transaction serde hex safe (raw 1) initial_db ≡ (panic, initial_db)
ether_panics_example =
    ether_panics serde hex safe initial_db zero_counters refl (raw 1) ether_tx ether_new
      ether_transfer [] refl into_safe refl

foreign-none : token_of safe (record { string = text "0xf0" }) ≡ none
unfolding contains_addr addr_eq text_eq
foreign-none = refl

unknown_token_ends_example : process_transaction serde hex safe (raw 2) initial_db ≡ (
  ok tt,
  with_invalid zero_counters (opened serde hex safe initial_db (raw 2) foreign_new.hash),
)
unknown_token_ends_example =
    unknown_token_ends serde hex safe initial_db zero_counters refl (raw 2) foreign_tx foreign_new
      foreign_transfer (transfer ∷ []) refl into_safe (record { string = text "0xf0" }) refl
      foreign-none

parsed : parse_deposit hex safe deposit_tx transfer ≡ ok new_row
unfolding parse_deposit contains_addr addr_eq text_eq truncate_value
parsed = refl

first : Deposits hex safe deposit_tx deposit_new.hash transfer new_row
unfolding deposit_new new_tx
first = record { into = into_safe; parsed = parsed; own = refl }

deposit_done :
    (db' : Db) × (process_transaction serde hex safe (raw 0) initial_db ≡ (ok tt, db'))
    × (db'.gnosis_safe_deposits ≡ [] ++ keyed_deposit new_row initial_db ∷ [])
deposit_done =
    deposit_is_stored serde hex config safe initial_db (initial-AuditIsSound config) (raw 0)
      deposit_tx deposit_new transfer new_row first refl refl

deposit_is_stored_example :
    (db' : Db) × (process_transaction serde hex safe (raw 0) initial_db ≡ (ok tt, db'))
    × (db'.gnosis_safe_deposits ≡ [] ++ keyed_deposit new_row initial_db ∷ [])
deposit_is_stored_example =
    deposit_is_stored serde hex config safe initial_db (initial-AuditIsSound config) (raw 0)
      deposit_tx deposit_new transfer new_row first refl refl

double_parsed : parse_deposit hex safe double_tx transfer ≡ ok new_row
unfolding parse_deposit contains_addr addr_eq text_eq truncate_value
double_parsed = refl

double_first : Deposits hex safe double_tx double_new.hash transfer new_row
unfolding double_new new_tx
double_first = record { into = into_safe; parsed = double_parsed; own = refl }

two_deposits_panic_example :
    process_transaction serde hex safe (raw 3) initial_db ≡ (panic, initial_db)
two_deposits_panic_example =
    two_deposits_panic serde hex config safe initial_db (initial-AuditIsSound config) (raw 3)
      double_tx double_new transfer new_row double_first refl transfer new_row [] refl double_first

-- the database with the deposit
abbrev stored_db : Db
stored_db = (process_transactions serde hex safe (raw 0 ∷ []) initial_db).1

deposit_processed : process_transactions serde hex safe (raw 0 ∷ []) initial_db ≡ (ok tt, stored_db)
unfolding process_transactions
deposit_processed =
    let (db', done, _) = deposit_done in
    let whole : process_transactions serde hex safe (raw 0 ∷ []) initial_db ≡ (ok tt, db') =
      after_ok (process_transaction serde hex safe (raw 0))
        (λ _. for_each (process_transaction serde hex safe) []) initial_db db' tt done in
    whole ∙ ap (λ (r : Result Error Unit × Db). (ok tt, r.1)) (sym whole)

process_transactions_again_example :
    process_transactions serde hex safe (raw 0 ∷ []) stored_db ≡ (ok tt, stored_db)
process_transactions_again_example =
    process_transactions_again serde hex config safe (inl refl) (raw 0 ∷ []) initial_db stored_db
      (initial-AuditIsSound config) deposit_processed

-- the withdrawal without the list of its transfers
abbrev unlisted_tx : Api.MultiSigTransaction
unlisted_tx = record withdrawal_tx { transfer_data = [] }

sends : MultiSend unlisted_tx token_value aux_value
sends = record {
  decoded = _;
  param = _;
  has_data = refl;
  is_multi_send = refl;
  only_param = refl;
  two_values = refl;
}

moves : TokenTransfer safe token_value token amount_param
unfolding get_token_by_eth_contract_addr contains_addr addr_eq text_eq
moves = record {
  decoded = _;
  recipient = _;
  audited = refl;
  has_data = refl;
  is_transfer = refl;
  two_params = refl;
}

parse_withdrawal_no_transfer_example :
    parse_withdrawal_with_pub_key_multi_sig_tx hex safe unlisted_tx ≡ panic
parse_withdrawal_no_transfer_example =
    parse_withdrawal_no_transfer hex safe unlisted_tx token_value aux_value token amount_param sends
      moves refl
