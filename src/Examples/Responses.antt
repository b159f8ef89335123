-- ===== src/Examples/Responses.antt =====
-- Deposits as messages, and responses of the service.
use reserve_auditor.Prelude.{◌≡◌, refl, some, [], ◌∷◌, map, take, drop, arith, inl, ◌⊎◌}
use reserve_auditor.Prelude.Int.{pos, as_i64, as_u64}
use reserve_auditor.Result.{ok, ◌>>=◌}
use reserve_auditor.Prelude.Text.{text, starts_with, text_eq}
use reserve_auditor.Gnosis.Types.{EthAddr, addr_from_str, addr_eq}
use reserve_auditor.Gnosis.Config.{get_token_by_eth_contract_addr, contains_addr}
use reserve_auditor.MintTxNonce.{ethereum_gnosis_deposit, to_bytes}
use reserve_auditor.Db.Models.{Db, GnosisSafeDeposit}
use reserve_auditor.Db.BlockAudit.{new_block_audit_data, new_block_balance}
use reserve_auditor.Db.Counters.{zero_counters}
use reserve_auditor.Audit.Verify.{Matches}
use reserve_auditor.Audit.Mint.Sound.{MintsAreSound}
use reserve_auditor.Reserve.{InOrder}
use reserve_auditor.Convert.{Chrono, deposit_to_proto, deposit_of_proto}
use reserve_auditor.Convert.RoundTrip.{IsDeposit, deposit_of_proto-to_proto}
use reserve_auditor.Http.{BlockAuditDataResponse, get_audited_mints, get_last_block_audit_data}
use reserve_auditor.Http.Pages.{row_of, get_audited_mints-page}
use reserve_auditor.Http.Unaudited.{ShownAudited, ShownUnaudited, deposit_is_shown_once}
use reserve_auditor.Http.Blocks.{ShowsReserve, get_last_block_audit_data-reserve_of}
use reserve_auditor.Examples.Data.{
  hex, external, config, safe, deposit, mint, tx_hash, fresh_db, open_db, token,
}

abbrev addr : EthAddr
addr = record { string = text "0x00112233445566778899aabbccddeeff00112233" }

abbrev read_deposit : GnosisSafeDeposit
read_deposit = record deposit {
  safe_addr = addr;
  token_addr = addr;
  from_addr = addr;
  expected_mc_mint_tx_nonce_hex = hex.encode (to_bytes (ethereum_gnosis_deposit tx_hash));
}

-- dates that are seconds
abbrev chrono : Chrono
chrono = record {
  timestamp_nanos_opt = λ date. some (pos date);
  timestamp_nanos = λ nanos. as_u64 nanos;
}

addr_read : addr_from_str hex addr.string ≡ ok addr
unfolding addr_from_str starts_with
addr_read = refl

read-IsDeposit : IsDeposit hex chrono read_deposit
unfolding as_u64
read-IsDeposit = record {
  id = λ e. ground arith;
  hash = refl;
  hex_law = refl;
  value = omega arith;
  block_number = omega arith;
  amount = omega arith;
  safe_addr = addr_read;
  token_addr = addr_read;
  from_addr = addr_read;
  nonce = refl;
  nanos = pos 0;
  has_nanos = refl;
  nanos_fit = omega arith;
  date = refl;
}

deposit_of_proto-to_proto_example :
    (deposit_to_proto hex chrono read_deposit >>= deposit_of_proto hex chrono) ≡ ok read_deposit
deposit_of_proto-to_proto_example = deposit_of_proto-to_proto hex chrono read_deposit read-IsDeposit

deposit-belongs : Matches safe mint deposit
unfolding as_u64 get_token_by_eth_contract_addr addr_eq contains_addr text_eq
deposit-belongs = record {
  safe = refl;
  token = token;
  audited = refl;
  token_id = refl;
  nonce = refl;
  amount = refl;
}

-- the deposit and the mint are matched
abbrev matched_db : Db
matched_db = record open_db {
  audited_mints = record { id = some 1; mint_tx_id = 1; gnosis_safe_deposit_id = 1 } ∷ [];
}

matched-MintsAreSound : MintsAreSound config matched_db
matched-MintsAreSound = record {
  mints = ((1, refl, refl), tt);
  deposits = ((1, refl, refl), tt);
  rows = (
    record {
      mint = mint;
      deposit = deposit;
      mint_row = refl;
      deposit_row = refl;
      safe = safe;
      audited = inl refl;
      matches = deposit-belongs;
    },
    tt,
  );
  one_mint = (refl, tt);
  one_deposit = (refl, tt);
}

get_audited_mints-page_example :
    map row_of (get_audited_mints (some 0) (some 10) matched_db)
    ≡ take 10 (drop 0 matched_db.audited_mints)
get_audited_mints-page_example =
    get_audited_mints-page config 0 10 matched_db matched-MintsAreSound (omega arith) (omega arith)

deposit_is_shown_once_example :
    (ShownAudited deposit matched_db × (¬ ShownUnaudited deposit matched_db))
    ⊎ (ShownUnaudited deposit matched_db × (¬ ShownAudited deposit matched_db))
deposit_is_shown_once_example =
    deposit_is_shown_once config matched_db matched-MintsAreSound deposit (inl refl)

-- one block, with a balance
abbrev synced_db : Db
synced_db = record fresh_db {
  block_audit_data = new_block_audit_data 0 ∷ [];
  block_balance = new_block_balance 0 (1, 300) ∷ [];
  counters = record zero_counters { num_blocks_synced = 1 } ∷ [];
}

synced-InOrder : InOrder synced_db
unfolding as_i64
synced-InOrder = record {
  blocks = refl;
  balances = (((0, omega arith, refl), omega arith, omega arith), tt);
}

get_last_block_audit_data-reserve_of_example :
    (r : BlockAuditDataResponse) × (get_last_block_audit_data synced_db ≡ ok r)
    × ShowsReserve external synced_db 0 r
get_last_block_audit_data-reserve_of_example =
    get_last_block_audit_data-reserve_of external synced_db 0 synced-InOrder refl (omega arith)
