-- ===== src/Audit/Mint/Ends.antt =====
-- How an attempt to match ends, in the words of the tables, where the audit table is sound.
use reserve_auditor.Prelude.{ℕ, false, ◌==◌, ◌≡◌, some, [], ◌∷◌, any, In, find-In}
use reserve_auditor.Gnosis.Config.{
  AuditedSafeConfig, GnosisSafeConfig, get_audited_safe_config_by_safe_addr,
}
use reserve_auditor.Db.Models.{Db, Counters, MintTx, GnosisSafeDeposit}
use reserve_auditor.Audit.Counting.{Ended, counted-Ended}
use reserve_auditor.Audit.Verify.{Matches}
use reserve_auditor.Audit.Mint.{
  existing_match_of_deposit, existing_match_of_mint, deposit_error_counter, mint_error_counter,
  match_deposit, match_mint, try_match_deposit_with_mint, try_match_mint_with_deposit,
}
use reserve_auditor.Audit.Mint.Outcome.{with_pair, DepositMatched, match_deposit-Outcome}
use reserve_auditor.Audit.Mint.OutcomeOfMint.{MintMatched, match_mint-Outcome}
use reserve_auditor.Audit.Mint.Sound.{
  MintsAreSound, first_joined-none, unaudited_mint, unaudited_deposit,
}
use reserve_auditor.Audit.Mint.Keeps.{keyed_of_own, deposits_keyed_of_own}
use reserve_auditor.Audit.Mint.Counts.{
  CountsForDeposit, CountsForMint, counter_of_deposit, counter_of_mint,
}

-- no row of the audit table refers to the mint, or to the deposit
abbrev pub MintIsFree : ℕ → Db → Type 0
MintIsFree j db = any (λ a. a.mint_tx_id == j) db.audited_mints ≡ false

abbrev pub DepositIsFree : ℕ → Db → Type 0
DepositIsFree k db = any (λ a. a.gnosis_safe_deposit_id == k) db.audited_mints ≡ false

-- The mint `j` and the deposit `k` were free, and are now in a row of the audit table; nothing else
-- changed.
pub record PairRecorded (db : Db) (m : MintTx) (d : GnosisSafeDeposit) (db' : Db) : Type 0 where
  pub mint_id : ℕ
  pub keyed : m.id ≡ some mint_id
  pub deposit_id : ℕ
  pub saved : d.id ≡ some deposit_id
  pub free_mint : MintIsFree mint_id db
  pub free_deposit : DepositIsFree deposit_id db
  pub recorded : db' ≡ with_pair mint_id deposit_id db

-- A mint of the table, free before, belongs to the deposit, and the pair is recorded.
abbrev pub DepositPaired : AuditedSafeConfig → GnosisSafeDeposit → Db → MintTx → Db → Type 0
DepositPaired c d db m db' = In m db.mint_txs × Matches c m d × PairRecorded db m d db'

-- A deposit of the table, free before, belongs to the mint in a safe of the configuration, and the
-- pair is recorded.
abbrev pub MintPaired : GnosisSafeConfig → MintTx → Db → GnosisSafeDeposit → Db → Type 0
MintPaired config m db d db' =
    In d db.gnosis_safe_deposits
    × ((safe : AuditedSafeConfig) × In safe config.safes × Matches safe m d)
    × PairRecorded db m d db'

module _ (config : GnosisSafeConfig) (db : Db) (sound : MintsAreSound config db) where
  deposit_paired :
      (c : AuditedSafeConfig) (d : GnosisSafeDeposit) (m : MintTx) (db' : Db)
      → DepositMatched c d db m db'
      → DepositPaired c d db m db'
  unfolding existing_match_of_deposit
  deposit_paired c d m db' w =
      let (row, free) = unaudited_mint _ db m w.mint_id sound.mints w.found w.keyed in
      (
        find-In _ db.mint_txs row,
        w.matches,
        record {
          mint_id = w.mint_id;
          keyed = w.keyed;
          deposit_id = w.deposit_id;
          saved = w.saved;
          free_mint = free;
          free_deposit = first_joined-none config db _ db.audited_mints sound.rows w.unmatched;
          recorded = w.recorded;
        },
      )

  mint_paired :
      (m : MintTx) (d : GnosisSafeDeposit) (db' : Db)
      → MintMatched config m db d db'
      → MintPaired config m db d db'
  unfolding existing_match_of_mint get_audited_safe_config_by_safe_addr
  mint_paired m d db' w =
      let (row, free) = unaudited_deposit _ db d w.deposit_id sound.deposits w.found w.saved in
      (
        find-In _ db.gnosis_safe_deposits row,
        (w.safe, find-In _ config.safes w.audited, w.matches),
        record {
          mint_id = w.mint_id;
          keyed = w.keyed;
          deposit_id = w.deposit_id;
          saved = w.saved;
          free_mint = first_joined-none config db _ db.audited_mints sound.rows w.unmatched;
          free_deposit = free;
          recorded = w.recorded;
        },
      )

  module _ (counters : Counters) (one : db.counters ≡ counters ∷ []) where
    -- Where the audit table is sound and there is one counters row, an attempt to match a deposit
    -- never panics. Either it returns a mint of the table that belongs to the deposit, no row of
    -- the audit table had one of the two, the pair is now recorded there, and nothing else changed;
    -- or it fails, has added one to a counter, and has changed nothing else: the counter of
    -- mismatches, where a mint of the nonce does not belong to the deposit, the counter of unknown
    -- tokens, where the safe does not have the token, or that of unexpected errors, with any other
    -- error.
    pub try_match_deposit_ends :
        (c : AuditedSafeConfig) (d : GnosisSafeDeposit)
        → Ended
            (DepositPaired c d db)
            (CountsForDeposit c d db)
            db
            counters
            (try_match_deposit_with_mint d c db)
    unfolding try_match_deposit_with_mint
    try_match_deposit_ends c d =
        counted-Ended (DepositMatched c d db) (DepositPaired c d db) deposit_error_counter
          (CountsForDeposit c d db) db counters one (deposit_paired c d) (match_deposit d c)
          (counter_of_deposit c d db) (match_deposit-Outcome d c db (keyed_of_own db sound.mints))

    -- Where the audit table is sound and there is one counters row, an attempt to match a mint
    -- never panics. Either it returns a deposit of the table that belongs to the mint in a safe of
    -- the configuration, no row of the audit table had one of the two, the pair is now recorded
    -- there, and nothing else changed; or it fails, has added one to a counter, and has changed
    -- nothing else: where a deposit expects the nonce, the counter of unknown safes, if no safe has
    -- its address, the counter of mismatches, if it does not belong to the mint in the safe of its
    -- address, the counter of unknown tokens, if that safe does not have its token, or that of
    -- unexpected errors, with any other error.
    pub try_match_mint_ends :
        (m : MintTx)
        → Ended
            (MintPaired config m db)
            (CountsForMint config m db)
            db
            counters
            (try_match_mint_with_deposit m config db)
    unfolding try_match_mint_with_deposit
    try_match_mint_ends m =
        counted-Ended (MintMatched config m db) (MintPaired config m db) mint_error_counter
          (CountsForMint config m db) db counters one (mint_paired m) (match_mint m config)
          (counter_of_mint config m db)
          (match_mint-Outcome m config db (deposits_keyed_of_own db sound.deposits))
