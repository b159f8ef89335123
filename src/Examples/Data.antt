-- ===== src/Examples/Data.antt =====
-- A small configuration, a deposit with its mint, a withdrawal with its burn, a block, and
-- databases that hold them.
use reserve_auditor.Prelude.{
  ℕ, ◌+◌, ◌-◌, ◌*◌, ◌/◌, ◌%◌, ltb, true, Option, none, some, [], ◌∷◌, ◌++◌, replicate,
  if◌then◌else◌,
}
use reserve_auditor.Prelude.Int.{pos}
use reserve_auditor.Prelude.Text.{Text, text}
use reserve_auditor.Gnosis.Types.{Hex, EthAddr, EthTxHash}
use reserve_auditor.Gnosis.Config.{AuditedToken, AuditedSafeConfig, GnosisSafeConfig}
use reserve_auditor.Core.{
  CoreMintConfig, CoreMintConfigTx, CoreMintTx, Block, BlockContents, External,
}
use reserve_auditor.Db.Models.{
  Db, MintConfig, MintConfigTx, MintTx, BurnTxOut, GnosisSafeDeposit, GnosisSafeWithdrawal,
}
use reserve_auditor.Db.Counters.{zero_counters}

abbrev digit : ℕ → ℕ
digit n = if ltb n 10 then 48 + n else 87 + n

abbrev undigit : ℕ → ℕ
undigit c = if ltb c 58 then c - 48 else c - 87

abbrev pub encode_hex : Text → Text
encode_hex [] = []
encode_hex (b ∷ bs) = digit (b / 16) ∷ (digit (b % 16) ∷ encode_hex bs)

abbrev prepend : ℕ → Option Text → Option Text
prepend b none = none
prepend b (some bs) = some (b ∷ bs)

abbrev pub decode_hex : Text → Option Text
decode_hex [] = some []
decode_hex (_ ∷ []) = none
decode_hex (a ∷ (b ∷ s)) = prepend (16 * undigit a + undigit b) (decode_hex s)

abbrev pub hex : Hex
hex = record { encode = encode_hex; decode = decode_hex }

abbrev pub safe_addr : EthAddr
safe_addr = record { string = text "0xABcd" }

abbrev pub token_addr : EthAddr
token_addr = record { string = text "0x70ken" }

abbrev pub token : AuditedToken
token = record {
  token_id = 1;
  token_type = text "ERC20";
  eth_token_contract_addrs = token_addr ∷ [];
  name = text "Token";
  symbol = text "TKN";
  decimals = 6;
  logo_uri = [];
  aux_burn_contract_addr = record { string = text "0xb0b" };
  aux_burn_function_sig = 199 ∷ (111 ∷ (6 ∷ (53 ∷ [])));
}

abbrev pub safe : AuditedSafeConfig
safe = record { safe_addr = safe_addr; api_url = []; tokens = token ∷ []; token_decimals_max = 6 }

abbrev pub config : GnosisSafeConfig
config = record { safes = safe ∷ [] }

abbrev pub tx_hash : EthTxHash
tx_hash = record { bytes = replicate 32 7 }

abbrev pub nonce : Text
nonce = text "aa01"

abbrev pub deposit : GnosisSafeDeposit
deposit = record {
  id = some 1;
  eth_tx_hash = tx_hash;
  execution_date = 0;
  eth_tx_value = 500;
  eth_block_number = pos 9;
  safe_addr = safe_addr;
  token_addr = token_addr;
  from_addr = token_addr;
  amount = pos 500;
  expected_mc_mint_tx_nonce_hex = nonce;
}

abbrev pub mint : MintTx
mint = record {
  id = some 1;
  block_index = pos 3;
  block_timestamp = none;
  token_id = pos 1;
  amount = pos 500;
  nonce_hex = nonce;
  recipient_b58_addr = [];
  tombstone_block = pos 100;
  protobuf = [];
  mint_config_id = none;
}

abbrev pub withdrawal : GnosisSafeWithdrawal
withdrawal = record {
  id = some 1;
  eth_tx_hash = tx_hash;
  execution_date = 0;
  eth_tx_value = 500;
  eth_block_number = pos 9;
  safe_addr = safe_addr;
  token_addr = token_addr;
  to_addr = token_addr;
  amount = pos 200;
  mc_tx_out_public_key_hex = nonce;
}

abbrev pub burn : BurnTxOut
burn = record {
  id = some 1;
  block_index = pos 3;
  block_timestamp = none;
  token_id = pos 1;
  amount = pos 200;
  public_key_hex = nonce;
  protobuf = [];
}

-- nothing synced yet
abbrev pub fresh_db : Db
fresh_db = record {
  block_audit_data = [];
  block_balance = [];
  mint_config_txs = [];
  mint_configs = [];
  mint_txs = [];
  burn_tx_outs = [];
  gnosis_safe_txs = [];
  gnosis_safe_deposits = [];
  gnosis_safe_withdrawals = [];
  audited_mints = [];
  audited_burns = [];
  counters = zero_counters ∷ [];
}

-- a deposit and its mint, a withdrawal and its burn, none of them matched
abbrev pub open_db : Db
open_db = record fresh_db {
  mint_txs = mint ∷ [];
  burn_tx_outs = burn ∷ [];
  gnosis_safe_deposits = deposit ∷ [];
  gnosis_safe_withdrawals = withdrawal ∷ [];
}

abbrev pub core_config : CoreMintConfig
core_config = record { token_id = 1; signer_set = text "set"; mint_limit = 1000 }

abbrev pub core_config_tx : CoreMintConfigTx
core_config_tx = record {
  token_id = 1;
  configs = core_config ∷ [];
  nonce = 5 ∷ [];
  total_mint_limit = 2000;
  tombstone_block = 100;
  signature = [];
}

abbrev pub core_mint : CoreMintTx
core_mint = record {
  token_id = 1;
  amount = 500;
  nonce = 6 ∷ [];
  view_public_key = 1 ∷ [];
  spend_public_key = 2 ∷ [];
  tombstone_block = 100;
  signature = [];
}

abbrev pub external : External
external = record {
  hex = hex;
  encode_mint_config_tx = λ _. [];
  decode_mint_config_tx = λ _. some core_config_tx;
  encode_mint_config = λ _. [];
  decode_mint_config = λ _. some core_config;
  encode_mint_tx = λ _. [];
  encode_tx_out = λ _. [];
  prefix_hash = λ tx. tx.nonce;
  verify = λ _ _ _. true;
  b58_encode = λ s v. some (s ++ v);
  view_key_match = λ _. some (record { value = 200; token_id = 1 });
}

abbrev pub block : Block
block = record { index = 0 }

abbrev pub contents : BlockContents
contents = record {
  validated_mint_config_txs = core_config_tx ∷ [];
  mint_txs = core_mint ∷ [];
  outputs = record { public_key = 8 ∷ []; rest = [] } ∷ [];
}

abbrev pub mint_config_tx : MintConfigTx
mint_config_tx = record {
  id = some 1;
  block_index = pos 0;
  block_timestamp = none;
  token_id = pos 1;
  nonce_hex = nonce;
  total_mint_limit = pos 2000;
  tombstone_block = pos 100;
  protobuf = [];
}

abbrev pub mint_config : MintConfig
mint_config = record { id = some 1; mint_config_tx_id = 1; mint_limit = pos 1000; protobuf = [] }

-- one configuration, stored in block 0
abbrev pub configured_db : Db
configured_db = record fresh_db {
  mint_config_txs = mint_config_tx ∷ [];
  mint_configs = mint_config ∷ [];
}
