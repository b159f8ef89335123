-- ===== src/Gnosis/Values.antt =====
-- `FromStr` and `ToString` for `EthTxValue` of src/gnosis/eth_data_types.rs, with `parse` and
-- `to_string` of `u128`: decimal digits, after an optional plus sign where they are read.
pub mod RoundTrip
use reserve_auditor.Prelude.{
  ℕ, zero, suc, ◌+◌, ◌-◌, ◌*◌, ◌/◌, ◌%◌, Bool, ◌&&◌, Option, none, some, List, [], ◌∷◌, ltb, leb,
  ◌==◌, if◌then◌else◌,
}
use reserve_auditor.Prelude.Text.{Text}
use reserve_auditor.Result.{Result, ok_or}
use reserve_auditor.Gnosis.Error.{GnosisError, invalid_tx_value}
use reserve_auditor.Gnosis.Types.{EthTxValue, u128_mod}

abbrev pub is_digit : ℕ → Bool
is_digit c = leb b'0' c && leb c b'9'

-- the digits that are left, after a number; an overflow is an error
unfoldable pub parse_digits : ℕ → Text → Option ℕ
parse_digits n [] = some n
parse_digits n (c ∷ s) =
    let rest = parse_digits (10 * n + (c - b'0')) s in
    if is_digit c && ltb (10 * n + (c - b'0')) u128_mod then rest else none

abbrev parse_nonempty : Text → Option ℕ
parse_nonempty [] = none
parse_nonempty (c ∷ s) = parse_digits 0 (c ∷ s)

-- `parse::<u128>().ok()`
unfoldable pub parse_u128 : Text → Option ℕ
parse_u128 [] = none
parse_u128 (c ∷ s) = if c == b'+' then parse_nonempty s else parse_digits 0 (c ∷ s)

unfoldable pub value_from_str : Text → Result GnosisError EthTxValue
value_from_str src = ok_or (parse_u128 src) invalid_tx_value

-- `to_string` of a `u128`: its decimal digits, of which there are at most 39
unfoldable pub show_digits : ℕ → ℕ → Text → Text
show_digits zero n s = s
show_digits (suc fuel) n s =
    let rest = show_digits fuel (n / 10) ((b'0' + n % 10) ∷ s) in
    if ltb n 10 then (b'0' + n) ∷ s else rest

unfoldable pub value_to_string : EthTxValue → Text
value_to_string value = show_digits 39 value []
