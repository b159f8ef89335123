-- ===== src/Examples/SafeData.antt =====
-- Transactions of a safe: a deposit, a transfer of ether, one of an unknown token, two deposits at
-- once, and a withdrawal.
use reserve_auditor.Prelude.{ℕ, ◌==◌, none, some, Option, [], ◌∷◌, ◌++◌, replicate, if◌then◌else◌}
use reserve_auditor.Prelude.Text.{Text, text, text_eq}
use reserve_auditor.Gnosis.Types.{hash_to_string}
use reserve_auditor.Gnosis.Api.{
  ValueDecoded, EthereumTransfer, MultiSigTransaction, EthereumTransaction, Transaction,
  RawGnosisTransaction, Serde, DataDecodedParameter, parameter, value_decoded, data_decoded,
  no_parameter, one_parameter, no_value, one_value, values_missing, values_present, data_missing,
  data_present, ethereum,
}
use reserve_auditor.Db.Models.{GnosisSafeDeposit, GnosisSafeWithdrawal}
use reserve_auditor.Db.Deposits.{new_deposit}
use reserve_auditor.Db.Withdrawals.{new_withdrawal}
use reserve_auditor.Examples.Data.{hex, safe_addr, token_addr, token, tx_hash, encode_hex}

abbrev pub transfer : EthereumTransfer
transfer = record {
  from = token_addr;
  to = safe_addr;
  token_addr = some token_addr;
  tx_hash = tx_hash;
  tx_type = text "ERC20_TRANSFER";
  token_info = none;
  value = some 500;
}

abbrev pub ether_transfer : EthereumTransfer
ether_transfer = record transfer { token_addr = none }

abbrev pub foreign_transfer : EthereumTransfer
foreign_transfer = record transfer { token_addr = some (record { string = text "0xf0" }) }

abbrev pub deposit_tx : EthereumTransaction
deposit_tx = record {
  tx_hash = tx_hash;
  eth_block_number = 9;
  transfers = transfer ∷ [];
  execution_date = 0;
}

abbrev pub ether_tx : EthereumTransaction
ether_tx = record deposit_tx { transfers = ether_transfer ∷ [] }

abbrev pub foreign_tx : EthereumTransaction
foreign_tx = record deposit_tx { transfers = foreign_transfer ∷ (transfer ∷ []) }

abbrev pub double_tx : EthereumTransaction
double_tx = record deposit_tx { transfers = transfer ∷ (transfer ∷ []) }

abbrev pub new_row : GnosisSafeDeposit
new_row = new_deposit hex none tx_hash 0 500 9 safe_addr token_addr token_addr 500

abbrev pub public_key : Text
public_key = replicate 32 1

abbrev pub amount_param : DataDecodedParameter
amount_param = parameter (text "value") (text "200") values_missing

abbrev pub token_value : ValueDecoded
token_value = value_decoded 0 token_addr (text "0") [] (
    data_present (
      data_decoded (text "transfer") (
        one_parameter (parameter (text "to") (text "0xdead") values_missing)
          (one_parameter amount_param no_parameter))))

abbrev pub aux_value : ValueDecoded
aux_value =
    value_decoded 0 token.aux_burn_contract_addr (text "0")
      (text "0x" ++ encode_hex (token.aux_burn_function_sig ++ public_key)) data_missing

abbrev pub withdrawal_tx : MultiSigTransaction
withdrawal_tx = record {
  safe = safe_addr;
  to = token_addr;
  value = 0;
  raw_data = none;
  eth_block_number = 9;
  tx_hash = tx_hash;
  data_decoded = some (
      data_decoded (text "multiSend") (
        one_parameter
          (parameter (text "transactions") []
            (values_present (one_value token_value (one_value aux_value no_value))))
          no_parameter));
  transfer_data = transfer ∷ [];
  execution_date = 0;
}

abbrev pub parsed_withdrawal : GnosisSafeWithdrawal
parsed_withdrawal =
    new_withdrawal none tx_hash 0 500 9 safe_addr token_addr safe_addr 200 (hex.encode public_key)

-- JSON values as numbers: the transactions are 0 to 3, and 9 is the text of their hash.
abbrev from_number : ℕ → Option (Transaction ℕ)
from_number n =
    if n == 0
    then some (ethereum deposit_tx)
    else if n == 1
    then some (ethereum ether_tx)
    else if n == 2
    then some (ethereum foreign_tx)
    else if n == 3
    then some (ethereum double_tx)
    else none

abbrev pub serde : Serde ℕ
serde = record {
  from_str = λ _. none;
  to_string = λ _. text "{}";
  get = λ v key. if text_eq key (text "txHash") then some 9 else none;
  as_str = λ v. if v == 9 then some (hash_to_string hex tx_hash) else none;
  from_value = from_number;
}

abbrev pub raw : ℕ → RawGnosisTransaction ℕ
raw n = record { raw = n }
