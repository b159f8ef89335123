-- ===== src/Gnosis/Parse/Withdraws.antt =====
-- What makes a multi-sig transaction a withdrawal.
use reserve_auditor.Prelude.{ℕ, ◌≤◌, ◌≡◌, true, none, some, List, [], ◌∷◌, ◌++◌, length, drop}
use reserve_auditor.Prelude.Text.{Text, text, starts_with}
use reserve_auditor.Result.{ok}
use reserve_auditor.Gnosis.Types.{EthTxValue, Hex, addr_eq, prefix_0x}
use reserve_auditor.Gnosis.Config.{AuditedToken, AuditedSafeConfig, get_token_by_eth_contract_addr}
use reserve_auditor.Gnosis.Utils.{truncate_value}
use reserve_auditor.Gnosis.Values.{parse_u128}
use reserve_auditor.Gnosis.Api.{
  DataDecoded, DataDecodedParameter, ValueDecoded, EthereumTransfer, MultiSigTransaction, method,
  parameters, parameter_value, parameter_values, value_to, value_raw, value_data,
}
use reserve_auditor.Db.Models.{GnosisSafeWithdrawal}
use reserve_auditor.Db.Withdrawals.{new_withdrawal}

-- a `multiSend` of two values
pub record MultiSend (tx : MultiSigTransaction) (first second : ValueDecoded) : Type 0 where
  pub decoded : DataDecoded
  pub param : DataDecodedParameter
  pub has_data : tx.data_decoded ≡ some decoded
  pub is_multi_send : method decoded ≡ text "multiSend"
  pub only_param : parameters decoded ≡ param ∷ []
  pub two_values : parameter_values param ≡ some (first ∷ (second ∷ []))

-- a transfer of a token of the safe, with a recipient and an amount
pub record TokenTransfer (safe : AuditedSafeConfig) (v : ValueDecoded) (token : AuditedToken)
    (amount : DataDecodedParameter) : Type 0 where
  pub decoded : DataDecoded
  pub recipient : DataDecodedParameter
  pub audited : get_token_by_eth_contract_addr safe (value_to v) ≡ some token
  pub has_data : value_data v ≡ some decoded
  pub is_transfer : method decoded ≡ text "transfer"
  pub two_params : parameters decoded ≡ recipient ∷ (amount ∷ [])

-- A call of the token's auxiliary contract: the data is a text of hexadecimal digits of bytes that
-- begin with the function signature and end, behind it, in the 32 bytes of a public key.
pub record AuxCall (hex : Hex) (token : AuditedToken) (v : ValueDecoded) (key : Text) : Type 0 where
  pub bytes : Text
  pub front : Text
  pub to_contract : addr_eq (value_to v) token.aux_burn_contract_addr ≡ true
  pub is_hex : starts_with (value_raw v) prefix_0x ≡ true
  pub decodes : hex.decode (drop 2 (value_raw v)) ≡ some bytes
  pub signed : starts_with bytes token.aux_burn_function_sig ≡ true
  pub splits : bytes ≡ front ++ key
  pub key_len : length key ≡ 32
  pub room : length token.aux_burn_function_sig ≤ length front

-- The multi-sig transaction withdraws: a `multiSend` of a token transfer and a call of the
-- auxiliary contract with the public key. The row has the amount of the call, truncated, and the
-- value and the recipient of the first transfer that the API lists.
pub record Withdraws (hex : Hex) (safe : AuditedSafeConfig) (tx : MultiSigTransaction)
    (w : GnosisSafeWithdrawal) : Type 0 where
  pub first : ValueDecoded
  pub second : ValueDecoded
  pub multi_send : MultiSend tx first second
  pub token : AuditedToken
  pub amount_param : DataDecodedParameter
  pub token_transfer : TokenTransfer safe first token amount_param
  pub transfer : EthereumTransfer
  pub others : List EthereumTransfer
  pub transfers : tx.transfer_data ≡ transfer ∷ others
  pub eth_tx_value : EthTxValue
  pub has_value : transfer.value ≡ some eth_tx_value
  pub key : Text
  pub aux_call : AuxCall hex token second key
  pub value : ℕ
  pub reads : parse_u128 (parameter_value amount_param) ≡ some value
  pub amount : ℕ
  pub fits : truncate_value value token.decimals safe.token_decimals_max ≡ ok amount
  pub row :
      w
      ≡ new_withdrawal none tx.tx_hash tx.execution_date eth_tx_value tx.eth_block_number tx.safe
          (value_to first)
          transfer.to
          amount
          (hex.encode key)
