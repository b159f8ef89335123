-- ===== src/Convert.antt =====
-- src/convert: rows of the database as messages of the gRPC interface, and back. The messages are
-- generated from the interface's definition, and their fields are those of the records here; the
-- dates of the crate `chrono` are the parameter `Chrono`.
pub mod RoundTrip
use reserve_auditor.Prelude.{ℕ, Option, none, some, ◌==◌, if◌then◌else◌}
use reserve_auditor.Prelude.Int.{ℤ, as_i64, as_u64}
use reserve_auditor.Prelude.Text.{Text}
use reserve_auditor.Result.{Result, ok, unwrap, map_err, ◌>>=◌}
use reserve_auditor.Error.{Error, gnosis}
use reserve_auditor.Gnosis.Types.{Hex, hash_from_str, hash_to_string, addr_from_str}
use reserve_auditor.Gnosis.Values.{value_from_str, value_to_string}
use reserve_auditor.Db.Models.{GnosisSafeDeposit, GnosisSafeTx}
use reserve_auditor.Db.MintConfigs.{id_or_zero}
use reserve_auditor.Db.Deposits.{deposit_amount, new_deposit}

-- `timestamp_nanos_opt` and `timestamp_nanos`
pub record Chrono : Type 0 where
  pub timestamp_nanos_opt : ℕ → Option ℤ
  pub timestamp_nanos : ℤ → ℕ

pub record ProtoGnosisSafeTx : Type 0 where
  pub eth_tx_hash : Text
  pub raw_tx_json : Text

pub record ProtoGnosisSafeDeposit : Type 0 where
  pub id : ℕ
  pub eth_tx_hash : Text
  pub eth_tx_value : Text
  pub eth_block_number : ℕ
  pub safe_addr : Text
  pub token_addr : Text
  pub from_addr : Text
  pub amount : ℕ
  pub expected_mc_mint_tx_nonce_hex : Text
  pub execution_date : ℕ

abbrev pub safe_tx_to_proto : GnosisSafeTx → ProtoGnosisSafeTx
safe_tx_to_proto src = record { eth_tx_hash = src.eth_tx_hash; raw_tx_json = src.raw_tx_json }

abbrev pub safe_tx_of_proto : ProtoGnosisSafeTx → GnosisSafeTx
safe_tx_of_proto src = record { eth_tx_hash = src.eth_tx_hash; raw_tx_json = src.raw_tx_json }

-- an `id` of 0 stands for none
abbrev pub id_of_proto : ℕ → Option ℕ
id_of_proto id = if id == 0 then none else some id

module _ (hex : Hex) (chrono : Chrono) where
  unfoldable pub deposit_to_proto : GnosisSafeDeposit → Result Error ProtoGnosisSafeDeposit
  deposit_to_proto src = do
    nanos ← unwrap (chrono.timestamp_nanos_opt src.execution_date)
    ok (record {
      id = id_or_zero src.id;
      eth_tx_hash = hash_to_string hex src.eth_tx_hash;
      eth_tx_value = value_to_string src.eth_tx_value;
      eth_block_number = as_u64 src.eth_block_number;
      safe_addr = src.safe_addr.string;
      token_addr = src.token_addr.string;
      from_addr = src.from_addr.string;
      amount = deposit_amount src;
      expected_mc_mint_tx_nonce_hex = src.expected_mc_mint_tx_nonce_hex;
      execution_date = as_u64 nanos;
    })

  unfoldable pub deposit_of_proto : ProtoGnosisSafeDeposit → Result Error GnosisSafeDeposit
  deposit_of_proto src = do
    eth_tx_hash ← map_err gnosis (hash_from_str hex src.eth_tx_hash)
    eth_tx_value ← map_err gnosis (value_from_str src.eth_tx_value)
    safe_addr ← map_err gnosis (addr_from_str hex src.safe_addr)
    token_addr ← map_err gnosis (addr_from_str hex src.token_addr)
    from_addr ← map_err gnosis (addr_from_str hex src.from_addr)
    ok (
        new_deposit hex (id_of_proto src.id) eth_tx_hash
          (chrono.timestamp_nanos (as_i64 src.execution_date)) eth_tx_value src.eth_block_number
          safe_addr token_addr from_addr src.amount)
