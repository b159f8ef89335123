-- ===== src/Convert/RoundTrip.antt =====
-- A deposit that becomes a message is read back.
use reserve_auditor.Prelude.{ℕ, ◌<◌, ◌≡◌, ◌≢◌, refl, sym, Option, none, some, arith}
use reserve_auditor.Prelude.Int.{ℤ, IsI64, as_i64-as_u64}
use reserve_auditor.Result.{ok, ◌>>=◌}
use reserve_auditor.Gnosis.Types.{Hex, IsHash, addr_from_str, u128_mod}
use reserve_auditor.Gnosis.Types.Laws.{hash_from_str-to_string}
use reserve_auditor.Gnosis.Values.RoundTrip.{value_from_str-to_string}
use reserve_auditor.MintTxNonce.{ethereum_gnosis_deposit, to_bytes}
use reserve_auditor.Db.Models.{GnosisSafeDeposit}
use reserve_auditor.Db.MintConfigs.{id_or_zero}
use reserve_auditor.Db.Deposits.{new_deposit}
use reserve_auditor.Convert.{Chrono, id_of_proto, deposit_to_proto, deposit_of_proto}

-- A deposit as the program makes them: a hash of 32 bytes that `hex` reads back, a value of 128
-- bits, addresses that are read as they are, columns of 64 bits, the nonce of the hash, no id that
-- is 0, and a date that `chrono` gives in nanoseconds and takes back.
pub record IsDeposit (hex : Hex) (chrono : Chrono) (d : GnosisSafeDeposit) : Type 0 where
  pub id : d.id ≢ some 0
  pub hash : IsHash d.eth_tx_hash
  pub hex_law : hex.decode (hex.encode d.eth_tx_hash.bytes) ≡ some d.eth_tx_hash.bytes
  pub value : d.eth_tx_value < u128_mod
  pub block_number : IsI64 d.eth_block_number
  pub amount : IsI64 d.amount
  pub safe_addr : addr_from_str hex d.safe_addr.string ≡ ok d.safe_addr
  pub token_addr : addr_from_str hex d.token_addr.string ≡ ok d.token_addr
  pub from_addr : addr_from_str hex d.from_addr.string ≡ ok d.from_addr
  pub nonce :
      d.expected_mc_mint_tx_nonce_hex
      ≡ hex.encode (to_bytes (ethereum_gnosis_deposit d.eth_tx_hash))
  pub nanos : ℤ
  pub has_nanos : chrono.timestamp_nanos_opt d.execution_date ≡ some nanos
  pub nanos_fit : IsI64 nanos
  pub date : chrono.timestamp_nanos nanos ≡ d.execution_date

id_back : (id : Option ℕ) → id ≢ some 0 → id_of_proto (id_or_zero id) ≡ id
id_back none h = refl
id_back (some n) h = ground arith

-- A deposit as the program makes them is read back from the message that it becomes.
pub deposit_of_proto-to_proto :
    (hex : Hex) (chrono : Chrono) (d : GnosisSafeDeposit)
    → IsDeposit hex chrono d
    → (deposit_to_proto hex chrono d >>= deposit_of_proto hex chrono) ≡ ok d
unfolding deposit_to_proto deposit_of_proto new_deposit
deposit_of_proto-to_proto hex chrono d h = simp (
  h.has_nanos,
  hash_from_str-to_string hex d.eth_tx_hash h.hash h.hex_law,
  value_from_str-to_string d.eth_tx_value h.value,
  h.safe_addr,
  h.token_addr,
  h.from_addr,
  id_back d.id h.id,
  as_i64-as_u64 h.nanos h.nanos_fit,
  h.date,
  as_i64-as_u64 d.eth_block_number h.block_number,
  as_i64-as_u64 d.amount h.amount,
  sym h.nonce,
)
