-- ===== src/Gnosis/Config.antt =====
-- src/gnosis/config.rs: the safes and tokens that are audited. Reading the file is left out.
use reserve_auditor.Prelude.{ℕ, Bool, Option, List, any, find}
use reserve_auditor.Prelude.Text.{Text}
use reserve_auditor.Gnosis.Types.{EthAddr, addr_eq}

-- `TokenId` is a `u64`.
pub record AuditedToken : Type 0 where
  pub token_id : ℕ
  pub token_type : Text
  pub eth_token_contract_addrs : List EthAddr
  pub name : Text
  pub symbol : Text
  pub decimals : ℕ
  pub logo_uri : Text
  pub aux_burn_contract_addr : EthAddr
  pub aux_burn_function_sig : Text

pub record AuditedSafeConfig : Type 0 where
  pub safe_addr : EthAddr
  pub api_url : Text
  pub tokens : List AuditedToken
  pub token_decimals_max : ℕ

pub record GnosisSafeConfig : Type 0 where
  pub safes : List AuditedSafeConfig

-- `addrs.contains(addr)`
unfoldable pub contains_addr : List EthAddr → EthAddr → Bool
contains_addr addrs addr = any (λ a. addr_eq a addr) addrs

unfoldable pub get_token_by_eth_contract_addr : AuditedSafeConfig → EthAddr → Option AuditedToken
get_token_by_eth_contract_addr config addr =
    find (λ token. contains_addr token.eth_token_contract_addrs addr) config.tokens

unfoldable pub get_audited_safe_config_by_safe_addr :
    GnosisSafeConfig → EthAddr → Option AuditedSafeConfig
get_audited_safe_config_by_safe_addr config safe_addr =
    find (λ safe. addr_eq safe.safe_addr safe_addr) config.safes
