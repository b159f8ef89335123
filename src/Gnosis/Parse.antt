-- ===== src/Gnosis/Parse.antt =====
-- The parsing of src/gnosis/sync.rs: a transfer into the safe becomes a deposit, and a multi-sig
-- transaction that moves a token out of the safe and calls the auxiliary contract a withdrawal.
pub mod Withdraws
pub mod Withdrawals
use reserve_auditor.Prelude.{
  ℕ, ◌+◌, ◌-◌, not, Option, none, some, List, [], ◌∷◌, length, drop, find, ltb,
}
use reserve_auditor.Prelude.Text.{Text, text, text_eq, starts_with}
use reserve_auditor.Result.{Result, ok, err, panic, ◌>>=◌, ◌>>◌, ok_or, err_if, unwrap}
use reserve_auditor.Gnosis.Error.{GnosisError, api_result_parse, invalid_address, unknown_token}
use reserve_auditor.Gnosis.Types.{EthAddr, EthTxValue, Hex, addr_eq, prefix_0x}
use reserve_auditor.Gnosis.Config.{
  AuditedToken, AuditedSafeConfig, contains_addr, get_token_by_eth_contract_addr,
}
use reserve_auditor.Gnosis.Utils.{truncate_value}
use reserve_auditor.Gnosis.Values.{parse_u128}
use reserve_auditor.Gnosis.Api.{
  DataDecoded, DataDecodedParameter, ValueDecoded, EthereumTransfer, MultiSigTransaction,
  EthereumTransaction, method, parameters, parameter_value, parameter_values, value_to, value_raw,
  value_data,
}
use reserve_auditor.Db.Models.{GnosisSafeDeposit, GnosisSafeWithdrawal}
use reserve_auditor.Db.Deposits.{new_deposit}
use reserve_auditor.Db.Withdrawals.{new_withdrawal}

module _ {A : Type 0} where
  -- `if xs.len() != 1 { return Err(e); }`, and then `xs[0]`
  abbrev pub sole : GnosisError → List A → Result GnosisError A
  sole e [] = err e
  sole e (a ∷ []) = ok a
  sole e (a ∷ (b ∷ xs)) = err e

  -- `if xs.len() != 2 { return Err(e); }`, and then `xs[0]` and `xs[1]`
  abbrev pub pair_of : GnosisError → List A → Result GnosisError (A × A)
  pair_of e [] = err e
  pair_of e (a ∷ []) = err e
  pair_of e (a ∷ (b ∷ [])) = ok (a, b)
  pair_of e (a ∷ (b ∷ (c ∷ xs))) = err e

  -- `xs[0]`
  abbrev pub at_0 : List A → Result GnosisError A
  at_0 [] = panic
  at_0 (a ∷ xs) = ok a

-- `transfer.value.unwrap()` and the truncation of a value for a token
abbrev pub truncated : AuditedSafeConfig → AuditedToken → EthTxValue → Result GnosisError ℕ
truncated safe token value = truncate_value value token.decimals safe.token_decimals_max

abbrev pub token_of : AuditedSafeConfig → EthAddr → Option AuditedToken
token_of safe addr = find (λ token. contains_addr token.eth_token_contract_addrs addr) safe.tokens

-- the two values in the only parameter of a `multiSend`
unfoldable pub parse_multi_send :
    MultiSigTransaction → Result GnosisError (ValueDecoded × ValueDecoded)
parse_multi_send tx = do
  decoded ← ok_or tx.data_decoded api_result_parse
  err_if (not (text_eq (method decoded) (text "multiSend"))) api_result_parse
  param ← sole api_result_parse (parameters decoded)
  values ← ok_or (parameter_values param) api_result_parse
  pair_of api_result_parse values

-- the first value: a transfer of an audited token, whose second parameter is the amount
unfoldable pub parse_transfer :
    AuditedSafeConfig → ValueDecoded → Result GnosisError (AuditedToken × DataDecodedParameter)
parse_transfer safe transfer_data = do
  audited_token ←
      ok_or (get_token_by_eth_contract_addr safe (value_to transfer_data)) api_result_parse
  decoded ← ok_or (value_data transfer_data) api_result_parse
  err_if (not (text_eq (method decoded) (text "transfer"))) api_result_parse
  params ← pair_of api_result_parse (parameters decoded)
  ok (audited_token, params.1)

abbrev pub key_len : ℕ
key_len = 32

-- the second value: a call of the auxiliary contract, whose data ends in the public key
unfoldable pub parse_aux_value : Hex → AuditedToken → ValueDecoded → Result GnosisError Text
parse_aux_value hex token aux = do
  err_if (not (addr_eq (value_to aux) token.aux_burn_contract_addr)) api_result_parse
  err_if (not (starts_with (value_raw aux) prefix_0x)) api_result_parse
  bytes ← ok_or (hex.decode (drop 2 (value_raw aux))) api_result_parse
  err_if (not (starts_with bytes token.aux_burn_function_sig)) api_result_parse
  err_if (ltb (length bytes) (length token.aux_burn_function_sig + key_len)) api_result_parse
  ok (drop (length bytes - key_len) bytes)

module _ (hex : Hex) (safe : AuditedSafeConfig) where
  -- the closure whose value is `result` in `process_eth_transaction`
  unfoldable pub parse_deposit :
      EthereumTransaction → EthereumTransfer → Result GnosisError GnosisSafeDeposit
  parse_deposit tx transfer = do
    token_addr ← ok_or transfer.token_addr api_result_parse
    token_config ← ok_or (token_of safe token_addr) unknown_token
    value ← unwrap transfer.value
    amount ← truncated safe token_config value
    ok (
        new_deposit hex none transfer.tx_hash tx.execution_date value tx.eth_block_number
          transfer.to token_addr transfer.from amount)

  -- The first of the transfers is taken: where there is not exactly one, an error is made but not
  -- returned, and with none the index panics.
  unfoldable pub parse_withdrawal_with_pub_key_multi_sig_tx :
      MultiSigTransaction → Result GnosisError GnosisSafeWithdrawal
  parse_withdrawal_with_pub_key_multi_sig_tx tx = do
    values ← parse_multi_send tx
    transfer ← parse_transfer safe values.0
    token_transfer ← at_0 tx.transfer_data
    eth_tx_value ← unwrap token_transfer.value
    tx_out_pub_key ← parse_aux_value hex transfer.0 values.1
    token_config ← ok_or (token_of safe (value_to values.0)) invalid_address
    value ← unwrap (parse_u128 (parameter_value transfer.1))
    amount ← truncated safe token_config value
    ok (
        new_withdrawal none tx.tx_hash tx.execution_date eth_tx_value tx.eth_block_number tx.safe
          (value_to values.0) token_transfer.to amount (hex.encode tx_out_pub_key))
