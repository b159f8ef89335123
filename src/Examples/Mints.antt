-- ===== src/Examples/Mints.antt =====
-- A deposit that is matched with its mint.
use reserve_auditor.Prelude.{◌≡◌, ◌↔◌, refl, inl, inr, none, [], arith}
use reserve_auditor.Result.{ok}
use reserve_auditor.Db.Models.{MintTx, GnosisSafeDeposit}
use reserve_auditor.Db.Counters.{zero_counters}
use reserve_auditor.Db.MintTxs.{insert_mint_tx}
use reserve_auditor.Db.Deposits.{insert_deposit}
use reserve_auditor.Audit.Counting.{Ended}
use reserve_auditor.Audit.Verify.{Matches, verify_mint_tx_matches_deposit, verify_iff}
use reserve_auditor.Audit.Mint.{try_match_deposit_with_mint, try_match_mint_with_deposit}
use reserve_auditor.Audit.Mint.Complete.{
  AreOpen, try_match_deposit_succeeds, try_match_mint_succeeds,
}
use reserve_auditor.Audit.Mint.Counts.{CountsForDeposit, CountsForMint}
use reserve_auditor.Audit.Mint.Ends.{
  DepositPaired, MintPaired, try_match_deposit_ends, try_match_mint_ends,
}
use reserve_auditor.Prelude.Text.{text_eq}
use reserve_auditor.Prelude.Int.{as_u64}
use reserve_auditor.Gnosis.Types.{addr_eq}
use reserve_auditor.Gnosis.Config.{contains_addr, get_token_by_eth_contract_addr}
use reserve_auditor.Audit.Mint.Outcome.{with_pair}
use reserve_auditor.Audit.Mint.Sound.{MintsAreSound}
use reserve_auditor.Audit.Mint.Keeps.{
  IsStoredDeposit, IsStoredMint, try_match_deposit-MintsAreSound, try_match_mint-MintsAreSound,
  insert_mint_tx-MintsAreSound, insert_deposit-MintsAreSound,
}
use reserve_auditor.Examples.Data.{token, hex, safe, config, deposit, mint, open_db}

verify_iff_example :
    (verify_mint_tx_matches_deposit mint deposit safe ≡ ok tt) ↔ Matches safe mint deposit
verify_iff_example = verify_iff mint deposit safe

open-MintsAreSound : MintsAreSound config open_db
open-MintsAreSound = record {
  mints = ((1, refl, refl), tt);
  deposits = ((1, refl, refl), tt);
  rows = tt;
  one_mint = tt;
  one_deposit = tt;
}

deposit-stored : IsStoredDeposit open_db deposit
deposit-stored k e = ground arith

mint-stored : IsStoredMint open_db mint
mint-stored k e = ground arith

try_match_deposit_ends_example :
    Ended
      (DepositPaired safe deposit open_db)
      (CountsForDeposit safe deposit open_db)
      open_db
      zero_counters
      (try_match_deposit_with_mint deposit safe open_db)
try_match_deposit_ends_example =
    try_match_deposit_ends config open_db open-MintsAreSound zero_counters refl safe deposit

try_match_mint_ends_example :
    Ended
      (MintPaired config mint open_db)
      (CountsForMint config mint open_db)
      open_db
      zero_counters
      (try_match_mint_with_deposit mint config open_db)
try_match_mint_ends_example =
    try_match_mint_ends config open_db open-MintsAreSound zero_counters refl mint

try_match_deposit-MintsAreSound_example :
    MintsAreSound config (try_match_deposit_with_mint deposit safe open_db).1
try_match_deposit-MintsAreSound_example =
    try_match_deposit-MintsAreSound config safe deposit open_db zero_counters refl (inl refl)
      deposit-stored open-MintsAreSound

try_match_mint-MintsAreSound_example :
    MintsAreSound config (try_match_mint_with_deposit mint config open_db).1
try_match_mint-MintsAreSound_example =
    try_match_mint-MintsAreSound config mint open_db zero_counters refl mint-stored
      open-MintsAreSound

abbrev unsaved_mint : MintTx
unsaved_mint = record mint { id = none; nonce_hex = [] }

insert_mint_tx-MintsAreSound_example : MintsAreSound config (insert_mint_tx unsaved_mint open_db).1
insert_mint_tx-MintsAreSound_example =
    insert_mint_tx-MintsAreSound config unsaved_mint open_db open-MintsAreSound

abbrev unsaved_deposit : GnosisSafeDeposit
unsaved_deposit = record deposit { id = none; eth_tx_hash = record { bytes = [] } }

insert_deposit-MintsAreSound_example :
    MintsAreSound config (insert_deposit hex unsaved_deposit open_db).1
insert_deposit-MintsAreSound_example =
    insert_deposit-MintsAreSound config hex unsaved_deposit open_db open-MintsAreSound

belong : Matches safe mint deposit
unfolding addr_eq get_token_by_eth_contract_addr contains_addr as_u64 text_eq
belong = record {
  safe = refl;
  token = token;
  audited = refl;
  token_id = refl;
  nonce = refl;
  amount = refl;
}

both-AreOpen : AreOpen open_db mint deposit 1 1
both-AreOpen = record {
  mint_row = inl refl;
  mint_keyed = refl;
  deposit_row = inl refl;
  deposit_keyed = refl;
  free_mint = refl;
  free_deposit = refl;
}

try_match_deposit_succeeds_example :
    try_match_deposit_with_mint deposit safe open_db ≡ (ok mint, with_pair 1 1 open_db)
try_match_deposit_succeeds_example =
    try_match_deposit_succeeds safe deposit mint open_db 1 1 both-AreOpen belong
      (λ n i same. elim i [ inl e ↦ e | inr absent ↦ absurd absent ])

try_match_mint_succeeds_example :
    try_match_mint_with_deposit mint config open_db ≡ (ok deposit, with_pair 1 1 open_db)
try_match_mint_succeeds_example =
    try_match_mint_succeeds config safe mint deposit open_db 1 1 both-AreOpen (inl refl) belong
      (λ n i same. elim i [ inl e ↦ e | inr absent ↦ absurd absent ])
      (λ s i same. elim i [ inl e ↦ e | inr absent ↦ absurd absent ])
