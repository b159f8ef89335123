-- ===== src/Examples/Burns.antt =====
-- A withdrawal that is matched with its burn.
use reserve_auditor.Prelude.{◌≡◌, ◌↔◌, refl, inl, inr, none, [], arith}
use reserve_auditor.Result.{ok}
use reserve_auditor.Db.Models.{BurnTxOut, GnosisSafeWithdrawal}
use reserve_auditor.Db.Counters.{zero_counters}
use reserve_auditor.Db.BurnTxOuts.{insert_burn}
use reserve_auditor.Db.Withdrawals.{insert_withdrawal}
use reserve_auditor.Audit.Counting.{Ended}
use reserve_auditor.Audit.VerifyBurn.{
  Matches, verify_burn_tx_out_matches_withdrawal, verify_burn_iff,
}
use reserve_auditor.Audit.Burn.{try_match_withdrawal_with_burn, try_match_burn_with_withdrawal}
use reserve_auditor.Audit.Burn.Complete.{
  AreOpen, try_match_withdrawal_succeeds, try_match_burn_succeeds,
}
use reserve_auditor.Audit.Burn.Counts.{CountsForWithdrawal, CountsForBurn}
use reserve_auditor.Audit.Burn.Ends.{
  WithdrawalPaired, BurnPaired, try_match_withdrawal_ends, try_match_burn_ends,
}
use reserve_auditor.Prelude.Text.{text_eq}
use reserve_auditor.Prelude.Int.{as_u64}
use reserve_auditor.Gnosis.Types.{addr_eq}
use reserve_auditor.Gnosis.Config.{contains_addr, get_token_by_eth_contract_addr}
use reserve_auditor.Audit.Burn.Outcome.{with_pair}
use reserve_auditor.Audit.Burn.Sound.{BurnsAreSound}
use reserve_auditor.Audit.Burn.Keeps.{
  IsStoredWithdrawal, IsStoredBurn, try_match_withdrawal-BurnsAreSound,
  try_match_burn-BurnsAreSound, insert_burn-BurnsAreSound, insert_withdrawal-BurnsAreSound,
}
use reserve_auditor.Examples.Data.{token, hex, safe, config, withdrawal, burn, open_db}

verify_burn_iff_example :
    (verify_burn_tx_out_matches_withdrawal burn withdrawal safe ≡ ok tt)
    ↔ Matches safe burn withdrawal
verify_burn_iff_example = verify_burn_iff burn withdrawal safe

open-BurnsAreSound : BurnsAreSound config open_db
open-BurnsAreSound = record {
  burns = ((1, refl, refl), tt);
  withdrawals = ((1, refl, refl), tt);
  rows = tt;
  one_burn = tt;
  one_withdrawal = tt;
}

withdrawal-stored : IsStoredWithdrawal open_db withdrawal
withdrawal-stored k e = ground arith

burn-stored : IsStoredBurn open_db burn
burn-stored k e = ground arith

try_match_withdrawal_ends_example :
    Ended
      (WithdrawalPaired safe withdrawal open_db)
      (CountsForWithdrawal safe withdrawal open_db)
      open_db
      zero_counters
      (try_match_withdrawal_with_burn withdrawal safe open_db)
try_match_withdrawal_ends_example =
    try_match_withdrawal_ends config open_db open-BurnsAreSound zero_counters refl safe withdrawal

try_match_burn_ends_example :
    Ended
      (BurnPaired config burn open_db)
      (CountsForBurn config burn open_db)
      open_db
      zero_counters
      (try_match_burn_with_withdrawal burn config open_db)
try_match_burn_ends_example =
    try_match_burn_ends config open_db open-BurnsAreSound zero_counters refl burn

try_match_withdrawal-BurnsAreSound_example :
    BurnsAreSound config (try_match_withdrawal_with_burn withdrawal safe open_db).1
try_match_withdrawal-BurnsAreSound_example =
    try_match_withdrawal-BurnsAreSound config safe withdrawal open_db zero_counters refl (inl refl)
      withdrawal-stored open-BurnsAreSound

try_match_burn-BurnsAreSound_example :
    BurnsAreSound config (try_match_burn_with_withdrawal burn config open_db).1
try_match_burn-BurnsAreSound_example =
    try_match_burn-BurnsAreSound config burn open_db zero_counters refl burn-stored
      open-BurnsAreSound

abbrev unsaved_burn : BurnTxOut
unsaved_burn = record burn { id = none; public_key_hex = [] }

insert_burn-BurnsAreSound_example : BurnsAreSound config (insert_burn unsaved_burn open_db).1
insert_burn-BurnsAreSound_example =
    insert_burn-BurnsAreSound config unsaved_burn open_db open-BurnsAreSound

abbrev unsaved_withdrawal : GnosisSafeWithdrawal
unsaved_withdrawal = record withdrawal { id = none; eth_tx_hash = record { bytes = [] } }

insert_withdrawal-BurnsAreSound_example :
    BurnsAreSound config (insert_withdrawal hex unsaved_withdrawal open_db).1
insert_withdrawal-BurnsAreSound_example =
    insert_withdrawal-BurnsAreSound config hex unsaved_withdrawal open_db open-BurnsAreSound

belong : Matches safe burn withdrawal
unfolding addr_eq get_token_by_eth_contract_addr contains_addr as_u64 text_eq
belong = record {
  safe = refl;
  token = token;
  audited = refl;
  token_id = refl;
  public_key = refl;
  amount = refl;
}

both-AreOpen : AreOpen open_db burn withdrawal 1 1
both-AreOpen = record {
  burn_row = inl refl;
  burn_keyed = refl;
  withdrawal_row = inl refl;
  withdrawal_keyed = refl;
  free_burn = refl;
  free_withdrawal = refl;
}

try_match_withdrawal_succeeds_example :
    try_match_withdrawal_with_burn withdrawal safe open_db ≡ (ok burn, with_pair 1 1 open_db)
try_match_withdrawal_succeeds_example =
    try_match_withdrawal_succeeds safe withdrawal burn open_db 1 1 both-AreOpen belong
      (λ n i same. elim i [ inl e ↦ e | inr absent ↦ absurd absent ])

try_match_burn_succeeds_example :
    try_match_burn_with_withdrawal burn config open_db ≡ (ok withdrawal, with_pair 1 1 open_db)
try_match_burn_succeeds_example =
    try_match_burn_succeeds config safe burn withdrawal open_db 1 1 both-AreOpen (inl refl) belong
      (λ n i same. elim i [ inl e ↦ e | inr absent ↦ absurd absent ])
      (λ s i same. elim i [ inl e ↦ e | inr absent ↦ absurd absent ])
