-- ===== src/Audit/Burn/Ends.antt =====
-- How an attempt to match ends, in the words of the tables, where the audit table is sound.
use reserve_auditor.Prelude.{ℕ, false, ◌==◌, ◌≡◌, some, [], ◌∷◌, any, In, find-In}
use reserve_auditor.Gnosis.Config.{
  AuditedSafeConfig, GnosisSafeConfig, get_audited_safe_config_by_safe_addr,
}
use reserve_auditor.Db.Models.{Db, Counters, BurnTxOut, GnosisSafeWithdrawal}
use reserve_auditor.Audit.Counting.{Ended, counted-Ended}
use reserve_auditor.Audit.VerifyBurn.{Matches}
use reserve_auditor.Audit.Burn.{
  existing_match_of_withdrawal, existing_match_of_burn, withdrawal_error_counter,
  burn_error_counter, match_withdrawal, match_burn, try_match_withdrawal_with_burn,
  try_match_burn_with_withdrawal,
}
use reserve_auditor.Audit.Burn.Outcome.{with_pair, WithdrawalMatched, match_withdrawal-Outcome}
use reserve_auditor.Audit.Burn.OutcomeOfBurn.{BurnMatched, match_burn-Outcome}
use reserve_auditor.Audit.Burn.Sound.{
  BurnsAreSound, first_joined_burn-none, unaudited_burn, unaudited_withdrawal,
}
use reserve_auditor.Audit.Burn.Keeps.{keyed_of_own, withdrawals_keyed_of_own}
use reserve_auditor.Audit.Burn.Counts.{
  CountsForWithdrawal, CountsForBurn, counter_of_withdrawal, counter_of_burn,
}

-- no row of the audit table refers to the burn, or to the withdrawal
abbrev pub BurnIsFree : ℕ → Db → Type 0
BurnIsFree j db = any (λ a. a.burn_tx_out_id == j) db.audited_burns ≡ false

abbrev pub WithdrawalIsFree : ℕ → Db → Type 0
WithdrawalIsFree k db = any (λ a. a.gnosis_safe_withdrawal_id == k) db.audited_burns ≡ false

-- The burn `j` and the withdrawal `k` were free, and are now in a row of the audit table; nothing
-- else changed.
pub record PairRecorded (db : Db) (m : BurnTxOut) (d : GnosisSafeWithdrawal) (db' : Db)
    : Type 0 where
  pub burn_id : ℕ
  pub keyed : m.id ≡ some burn_id
  pub withdrawal_id : ℕ
  pub saved : d.id ≡ some withdrawal_id
  pub free_burn : BurnIsFree burn_id db
  pub free_withdrawal : WithdrawalIsFree withdrawal_id db
  pub recorded : db' ≡ with_pair burn_id withdrawal_id db

-- A burn of the table, free before, belongs to the withdrawal, and the pair is recorded.
abbrev pub WithdrawalPaired :
    AuditedSafeConfig → GnosisSafeWithdrawal → Db → BurnTxOut → Db → Type 0
WithdrawalPaired c d db m db' = In m db.burn_tx_outs × Matches c m d × PairRecorded db m d db'

-- A withdrawal of the table, free before, belongs to the burn in a safe of the configuration, and
-- the pair is recorded.
abbrev pub BurnPaired : GnosisSafeConfig → BurnTxOut → Db → GnosisSafeWithdrawal → Db → Type 0
BurnPaired config m db d db' =
    In d db.gnosis_safe_withdrawals
    × ((safe : AuditedSafeConfig) × In safe config.safes × Matches safe m d)
    × PairRecorded db m d db'

module _ (config : GnosisSafeConfig) (db : Db) (sound : BurnsAreSound config db) where
  withdrawal_paired :
      (c : AuditedSafeConfig) (d : GnosisSafeWithdrawal) (m : BurnTxOut) (db' : Db)
      → WithdrawalMatched c d db m db'
      → WithdrawalPaired c d db m db'
  unfolding existing_match_of_withdrawal
  withdrawal_paired c d m db' w =
      let (row, free) = unaudited_burn _ db m w.burn_id sound.burns w.found w.keyed in
      (
        find-In _ db.burn_tx_outs row,
        w.matches,
        record {
          burn_id = w.burn_id;
          keyed = w.keyed;
          withdrawal_id = w.withdrawal_id;
          saved = w.saved;
          free_burn = free;
          free_withdrawal =
              first_joined_burn-none config db _ db.audited_burns sound.rows w.unmatched;
          recorded = w.recorded;
        },
      )

  burn_paired :
      (m : BurnTxOut) (d : GnosisSafeWithdrawal) (db' : Db)
      → BurnMatched config m db d db'
      → BurnPaired config m db d db'
  unfolding existing_match_of_burn get_audited_safe_config_by_safe_addr
  burn_paired m d db' w =
      let (row, free) =
        unaudited_withdrawal _ db d w.withdrawal_id sound.withdrawals w.found w.saved in
      (
        find-In _ db.gnosis_safe_withdrawals row,
        (w.safe, find-In _ config.safes w.audited, w.matches),
        record {
          burn_id = w.burn_id;
          keyed = w.keyed;
          withdrawal_id = w.withdrawal_id;
          saved = w.saved;
          free_burn = first_joined_burn-none config db _ db.audited_burns sound.rows w.unmatched;
          free_withdrawal = free;
          recorded = w.recorded;
        },
      )

  module _ (counters : Counters) (one : db.counters ≡ counters ∷ []) where
    -- Where the audit table is sound and there is one counters row, an attempt to match a
    -- withdrawal never panics. Either it returns a burn of the table that belongs to the
    -- withdrawal, no row of the audit table had one of the two, the pair is now recorded there,
    -- and nothing else changed; or it fails, has added one to a counter, and has changed nothing
    -- else: the counter of mismatches, where a burn of the public key does not belong to the
    -- withdrawal, the counter of unknown tokens, where the safe does not have the token, or that
    -- of unexpected errors, with any other error.
    pub try_match_withdrawal_ends :
        (c : AuditedSafeConfig) (d : GnosisSafeWithdrawal)
        → Ended
            (WithdrawalPaired c d db)
            (CountsForWithdrawal c d db)
            db
            counters
            (try_match_withdrawal_with_burn d c db)
    unfolding try_match_withdrawal_with_burn
    try_match_withdrawal_ends c d =
        counted-Ended (WithdrawalMatched c d db) (WithdrawalPaired c d db) withdrawal_error_counter
          (CountsForWithdrawal c d db) db counters one (withdrawal_paired c d)
          (match_withdrawal d c) (counter_of_withdrawal c d db)
          (match_withdrawal-Outcome d c db (keyed_of_own db sound.burns))

    -- Where the audit table is sound and there is one counters row, an attempt to match a burn
    -- never panics. Either it returns a withdrawal of the table that belongs to the burn in a safe
    -- of the configuration, no row of the audit table had one of the two, the pair is now recorded
    -- there, and nothing else changed; or it fails, has added one to a counter, and has changed
    -- nothing else: where a withdrawal names the public key, the counter of unknown safes, if no
    -- safe has its address, the counter of mismatches, if it does not belong to the burn in the
    -- safe of its address, the counter of unknown tokens, if that safe does not have its token, or
    -- that of unexpected errors, with any other error.
    pub try_match_burn_ends :
        (m : BurnTxOut)
        → Ended
            (BurnPaired config m db)
            (CountsForBurn config m db)
            db
            counters
            (try_match_burn_with_withdrawal m config db)
    unfolding try_match_burn_with_withdrawal
    try_match_burn_ends m =
        counted-Ended (BurnMatched config m db) (BurnPaired config m db) burn_error_counter
          (CountsForBurn config m db) db counters one (burn_paired m) (match_burn m config)
          (counter_of_burn config m db)
          (match_burn-Outcome m config db (withdrawals_keyed_of_own db sound.withdrawals))
