-- ===== src/Examples/Basics.antt =====
-- Addresses, hashes, nonces, amounts, counters and transactions.
use reserve_auditor.Prelude.{
  ℕ, ◌+◌, ◌*◌, ◌^◌, ◌≤◌, ◌<◌, ◌≡◌, ◌↔◌, refl, true, some, [], ◌∷◌, ◌++◌, length, drop, replicate,
  arith, ltb, if◌then◌else◌, ◌-◌,
}
use reserve_auditor.Prelude.Int.{u64_mod}
use reserve_auditor.Prelude.Text.{Text, text, starts_with}
use reserve_auditor.Result.{ok, err}
use reserve_auditor.Gnosis.Types.{addr_from_str, hash_from_str, hash_to_string, prefix_0x}
use reserve_auditor.Gnosis.Types.Laws.{hash_from_str-to_string, addr_from_str_sound}
use reserve_auditor.Gnosis.Utils.{truncate_value}
use reserve_auditor.Gnosis.Utils.Rounding.{truncate_value_iff}
use reserve_auditor.MintTxNonce.{ethereum_gnosis_deposit, to_bytes, try_from}
use reserve_auditor.MintTxNonce.RoundTrip.{try_from-to_bytes, try_from_lem}
use reserve_auditor.Db.Monad.{Sql, retry}
use reserve_auditor.Db.Transaction.{Decides, retry-Decides_lem}
use reserve_auditor.Db.Counters.{inc, bump, zero_counters, num_blocks_synced}
use reserve_auditor.Db.Counters.Laws.{inc_lem}
use reserve_auditor.Error.{Error}
use reserve_auditor.Examples.Data.{hex, tx_hash, fresh_db}

hash_from_str-to_string_example : hash_from_str hex (hash_to_string hex tx_hash) ≡ ok tx_hash
hash_from_str-to_string_example = hash_from_str-to_string hex tx_hash refl refl

abbrev addr_text : Text
addr_text = text "0x00112233445566778899aabbccddeeff00112233"

addr_read : addr_from_str hex addr_text ≡ ok (record { string = addr_text })
unfolding addr_from_str starts_with
addr_read = refl

addr_from_str_sound_example :
    (addr_text ≡ addr_text)
    × (starts_with addr_text prefix_0x ≡ true)
    × (b : Text) × (hex.decode (drop 2 addr_text) ≡ some b)
    × (length b ≡ 20)
addr_from_str_sound_example =
    addr_from_str_sound hex addr_text (record { string = addr_text }) addr_read

truncate_value_iff_example :
    (truncate_value 1234567 9 6 ≡ ok 1234)
    ↔ ((1234 < u64_mod) × (1234 * 10 ^ (9 - 6) ≤ 1234567) × (1234567 < (1234 + 1) * 10 ^ (9 - 6)))
truncate_value_iff_example = truncate_value_iff 1234567 9 6 1234 (omega arith)

try_from-to_bytes_example :
    try_from (to_bytes (ethereum_gnosis_deposit tx_hash)) ≡ ok (ethereum_gnosis_deposit tx_hash)
try_from-to_bytes_example = try_from-to_bytes tx_hash refl

try_from_lem_example :
    try_from (0x01 ∷ (tx_hash.bytes ++ replicate 31 9)) ≡ ok (ethereum_gnosis_deposit tx_hash)
try_from_lem_example = try_from_lem tx_hash (replicate 31 9) refl refl

inc_lem_example :
    inc num_blocks_synced fresh_db
    ≡ (ok tt, record fresh_db { counters = bump num_blocks_synced zero_counters ∷ [] })
inc_lem_example = inc_lem num_blocks_synced fresh_db zero_counters refl

-- a connection that fails in the first two rounds
abbrev busy : ℕ → Sql ℕ
busy i s = (if ltb i 2 then err Error.r2d2_pool else ok i, s)

retry-Decides_lem_example : (n : ℕ) × Decides busy fresh_db 0 n (retry 5 0 busy fresh_db)
retry-Decides_lem_example = retry-Decides_lem busy fresh_db
