-- ===== src/Gnosis/Utils.antt =====
-- src/gnosis/utils.rs: an Ethereum value in the precision of the MobileCoin token.
pub mod Rounding
use reserve_auditor.Prelude.{ℕ, ◌-◌, ◌/◌, ◌%◌, ◌^◌, ltb, ◌==◌, if◌then◌else◌}
use reserve_auditor.Prelude.Int.{u64_mod}
use reserve_auditor.Gnosis.Types.{EthTxValue, u128_mod}
use reserve_auditor.Gnosis.Error.{GnosisError}
use reserve_auditor.Result.{Result, ok, panic, ◌>>=◌}

-- `10_u128.pow(n)`: release builds have no overflow checks, so it wraps
unfoldable pub pow10_u128 : ℕ → ℕ
pow10_u128 n = 10 ^ n % u128_mod

-- `a / b` of `u128`
abbrev pub div_u128 : ℕ → ℕ → Result GnosisError ℕ
div_u128 a b = if b == 0 then panic else ok (a / b)

-- `u64::try_from(n).expect(..)`
abbrev pub expect_u64 : ℕ → Result GnosisError ℕ
expect_u64 n = if ltb n u64_mod then ok n else panic

unfoldable pub truncate_value : EthTxValue → ℕ → ℕ → Result GnosisError ℕ
truncate_value raw_token_value token_decimals max_decimals = do
  token_value ←
      if ltb max_decimals token_decimals
      then div_u128 raw_token_value (pow10_u128 (token_decimals - max_decimals))
      else ok raw_token_value
  expect_u64 token_value
