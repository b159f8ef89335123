-- ===== src/Error.antt =====
-- src/error.rs: the program's errors. Texts and most foreign errors that the constructors carry
-- are left out, since no code reads them; `DieselError` has the cases that the code tells apart.
use reserve_auditor.Prelude.{ℕ, Bool, true, false}
use reserve_auditor.Gnosis.Error.{GnosisError}
use reserve_auditor.Gnosis.Types.{EthAddr, EthTxHash}

pub data DieselError : Type 0 where
  not_found unique_violation foreign_key_violation other : DieselError

pub data Error : Type 0 where
  not_found : Error
  already_exists : Error
  object_not_saved : Error
  deposit_and_mint_mismatch : Error
  withdrawal_and_burn_mismatch : Error
  ethereum_token_not_audited : EthAddr → EthAddr → EthTxHash → Error
  gnosis_safe_not_audited : EthAddr → Error
  io : Error
  ledger_db : Error
  decode : Error
  unexpected_block_index : ℕ → ℕ → Error
  diesel : DieselError → Error
  diesel_migrations : Error
  r2d2_pool : Error
  gnosis : GnosisError → Error
  api_display : Error
  hex_parse : Error
  key : Error
  invalid_length : ℕ → ℕ → Error
  invalid_nonce_identifier : Error
  view_key_match : Error
  memo_decoding : Error
  invalid_memo_type : Error
  signature : Error
  other : Error

-- `From<DieselError>`
abbrev pub from_diesel : DieselError → Error
from_diesel DieselError.not_found = Error.not_found
from_diesel DieselError.unique_violation = Error.already_exists
from_diesel DieselError.foreign_key_violation = Error.diesel DieselError.foreign_key_violation
from_diesel DieselError.other = Error.diesel DieselError.other

-- `TransactionRetriableError`
abbrev pub should_retry : Error → Bool
should_retry Error.r2d2_pool = true
should_retry _ = false
