-- ===== src/Gnosis/Api.antt =====
-- src/gnosis/api_data_types.rs: what the API of the safe returns. The JSON of `serde_json`, with
-- the decoding that `serde` derives, is the parameter `Serde`; texts of errors are left out.
use reserve_auditor.Prelude.{ℕ, Option, none, some, List, [], ◌∷◌}
use reserve_auditor.Prelude.Text.{Text, text}
use reserve_auditor.Result.{Result, ok, ◌>>=◌, ok_or, map_err}
use reserve_auditor.Gnosis.Error.{GnosisError, json, other}
use reserve_auditor.Gnosis.Types.{EthAddr, EthTxHash, EthTxValue, Hex, hash_from_str}

-- Decoded data, its parameters and the decoded values in them refer to one another; the lists and
-- the options in them are types of their own.
mutual
  -- the method and the parameters
  pub data DataDecoded : Type 0 where
    data_decoded : Text → Parameters → DataDecoded

  -- the name, the value and the decoded value
  pub data DataDecodedParameter : Type 0 where
    parameter : Text → Text → MaybeValues → DataDecodedParameter

  -- the operation, the destination address, the value, the raw data and the decoded data
  pub data ValueDecoded : Type 0 where
    value_decoded : ℕ → EthAddr → Text → Text → MaybeData → ValueDecoded

  pub data Parameters : Type 0 where
    no_parameter : Parameters
    one_parameter : DataDecodedParameter → Parameters → Parameters

  pub data Values : Type 0 where
    no_value : Values
    one_value : ValueDecoded → Values → Values

  pub data MaybeValues : Type 0 where
    values_missing : MaybeValues
    values_present : Values → MaybeValues

  pub data MaybeData : Type 0 where
    data_missing : MaybeData
    data_present : DataDecoded → MaybeData

abbrev parameter_list : Parameters → List DataDecodedParameter
parameter_list no_parameter = []
parameter_list (one_parameter p ps) = p ∷ parameter_list ps

abbrev value_list : Values → List ValueDecoded
value_list no_value = []
value_list (one_value v vs) = v ∷ value_list vs

abbrev value_list_option : MaybeValues → Option (List ValueDecoded)
value_list_option values_missing = none
value_list_option (values_present vs) = some (value_list vs)

abbrev data_option : MaybeData → Option DataDecoded
data_option data_missing = none
data_option (data_present d) = some d

-- the fields
abbrev pub method : DataDecoded → Text
method (data_decoded m _) = m

abbrev pub parameters : DataDecoded → List DataDecodedParameter
parameters (data_decoded _ ps) = parameter_list ps

abbrev pub parameter_value : DataDecodedParameter → Text
parameter_value (parameter _ v _) = v

abbrev pub parameter_values : DataDecodedParameter → Option (List ValueDecoded)
parameter_values (parameter _ _ vs) = value_list_option vs

abbrev pub value_to : ValueDecoded → EthAddr
value_to (value_decoded _ to _ _ _) = to

abbrev pub value_raw : ValueDecoded → Text
value_raw (value_decoded _ _ _ raw _) = raw

abbrev pub value_data : ValueDecoded → Option DataDecoded
value_data (value_decoded _ _ _ _ d) = data_option d

pub record TokenInfo : Type 0 where
  pub decimals : Option ℕ
  pub address : Text

pub record EthereumTransfer : Type 0 where
  pub from : EthAddr
  pub to : EthAddr
  pub token_addr : Option EthAddr
  pub tx_hash : EthTxHash
  pub tx_type : Text
  pub token_info : Option TokenInfo
  pub value : Option EthTxValue

pub record MultiSigTransaction : Type 0 where
  pub safe : EthAddr
  pub to : EthAddr
  pub value : EthTxValue
  pub raw_data : Option Text
  pub eth_block_number : ℕ
  pub tx_hash : EthTxHash
  pub data_decoded : Option DataDecoded
  pub transfer_data : List EthereumTransfer
  pub execution_date : ℕ

pub record EthereumTransaction : Type 0 where
  pub tx_hash : EthTxHash
  pub eth_block_number : ℕ
  pub transfers : List EthereumTransfer
  pub execution_date : ℕ

pub data Transaction (Value : Type 0) : Type 0 where
  multi_sig : MultiSigTransaction → Transaction Value
  ethereum : EthereumTransaction → Transaction Value
  module_tx : Value → Transaction Value

-- `serde_json::Value`, as the type of its values: `from_str`, `to_string`, `get` and `as_str`, and
-- `from_value` for a transaction
pub record Serde (Value : Type 0) : Type 0 where
  pub from_str : Text → Option Value
  pub to_string : Value → Text
  pub get : Value → Text → Option Value
  pub as_str : Value → Option Text
  pub from_value : Value → Option (Transaction Value)

pub record RawGnosisTransaction (Value : Type 0) : Type 0 where
  pub raw : Value

module _ {Value : Type 0} (serde : Serde Value) (hex : Hex) where
  unfoldable pub from_json : Text → Result GnosisError (RawGnosisTransaction Value)
  from_json src = do value ← ok_or (serde.from_str src) json; ok (record { raw = value })

  abbrev pub to_json_string : RawGnosisTransaction Value → Text
  to_json_string tx = serde.to_string tx.raw

  unfoldable pub decode : RawGnosisTransaction Value → Result GnosisError (Transaction Value)
  decode tx = ok_or (serde.from_value tx.raw) json

  -- the field `transactionHash`, or `txHash` where there is none
  abbrev pub hash_field : Value → Option Value
  hash_field v = elim (serde.get v (text "transactionHash")) [
    | none ↦ serde.get v (text "txHash")
    | some h ↦ some h
  ]

  abbrev pub and_then_str : Option Value → Option Text
  and_then_str none = none
  and_then_str (some v) = serde.as_str v

  unfoldable pub tx_hash : RawGnosisTransaction Value → Result GnosisError EthTxHash
  tx_hash tx = do
    hash_str ← ok_or (and_then_str (hash_field tx.raw)) other
    map_err (λ _. other) (hash_from_str hex hash_str)
