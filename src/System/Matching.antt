-- ===== src/System/Matching.antt =====
-- Steps that match keep the audit tables sound, each its own and the other one.
use reserve_auditor.Prelude.{◌≡◌, refl, [], ◌∷◌, In}
use reserve_auditor.Result.{Result, ok, err, panic}
use reserve_auditor.Error.{Error}
use reserve_auditor.Gnosis.Config.{AuditedSafeConfig, GnosisSafeConfig}
use reserve_auditor.Db.Models.{
  Db, Counters, MintTx, BurnTxOut, GnosisSafeDeposit, GnosisSafeWithdrawal,
}
use reserve_auditor.Db.Counters.{CounterName, bump}
use reserve_auditor.Audit.Counting.{Counted}
use reserve_auditor.Audit.Mint.{
  deposit_error_counter, mint_error_counter, try_match_deposit_with_mint,
  try_match_mint_with_deposit,
}
use reserve_auditor.Audit.Burn.{
  withdrawal_error_counter, burn_error_counter, try_match_withdrawal_with_burn,
  try_match_burn_with_withdrawal,
}
use reserve_auditor.Audit.Mint.Outcome.{DepositMatched, try_match_deposit_lem}
use reserve_auditor.Audit.Mint.OutcomeOfMint.{MintMatched, try_match_mint_lem}
use reserve_auditor.Audit.Burn.Outcome.{WithdrawalMatched, try_match_withdrawal_lem}
use reserve_auditor.Audit.Burn.OutcomeOfBurn.{BurnMatched, try_match_burn_lem}
use reserve_auditor.Audit.Mint.Sound.{MintsAreSound}
use reserve_auditor.Audit.Burn.Sound.{BurnsAreSound}
use reserve_auditor.Audit.Mint.Keeps.{
  IsStoredDeposit, IsStoredMint, MintsAreSound-frame, keyed_of_own, deposits_keyed_of_own,
  try_match_deposit-MintsAreSound, try_match_mint-MintsAreSound,
}
use reserve_auditor.Audit.Burn.Keeps as Burns
use reserve_auditor.Audit.Burn.Keeps.{
  IsStoredWithdrawal, IsStoredBurn, BurnsAreSound-frame, withdrawals_keyed_of_own,
  try_match_withdrawal-BurnsAreSound, try_match_burn-BurnsAreSound, insert_burn-BurnsAreSound,
  insert_withdrawal-BurnsAreSound,
}
use reserve_auditor.System.Kept.{AuditIsSound}

module _ (config : GnosisSafeConfig) where
  -- what the outcome of a matching function says of the rest of the database
  pub counted-rest :
      {A : Type 0} (Q : Db → Type 0) (P : A → Db → Type 0) (counter : Error → CounterName) (db : Db)
      (c : Counters) (r : Result Error A × Db)
      → ((e : Error) → Q (record db { counters = bump (counter e) c ∷ [] }))
      → ((a : A) (db' : Db) → P a db' → Q db')
      → Counted P counter db c r
      → Q r.1
  counted-rest Q P counter db c (ok a, db') k f o = f a db' o
  counted-rest Q P counter db c (err e, db') k f o = rw o (k e)
  counted-rest Q P counter db c (panic, db') k f o = absurd o

  -- burns, and one counters row
  abbrev OtherBurns : Db → Type 0
  OtherBurns db = BurnsAreSound config db × ((c : Counters) × (db.counters ≡ c ∷ []))

  abbrev OtherMints : Db → Type 0
  OtherMints db = MintsAreSound config db × ((c : Counters) × (db.counters ≡ c ∷ []))

  pub match_deposit-AuditIsSound :
      (db : Db) (safe : AuditedSafeConfig) (d : GnosisSafeDeposit)
      → In safe config.safes
      → IsStoredDeposit db d
      → AuditIsSound config db
      → AuditIsSound config (try_match_deposit_with_mint d safe db).1
  match_deposit-AuditIsSound db safe d i stored h =
      let rest =
        counted-rest OtherBurns (DepositMatched safe d db) deposit_error_counter db h.counters _
          (λ e. (
            BurnsAreSound-frame config db _ refl refl refl h.burns,
            (bump (deposit_error_counter e) h.counters, refl),
          ))
          (λ m db' w.
            rw w.recorded
              (BurnsAreSound-frame config db _ refl refl refl h.burns, (h.counters, h.one)))
          (try_match_deposit_lem d safe db h.counters h.one (keyed_of_own db h.mints.mints)) in
      record {
        mints = try_match_deposit-MintsAreSound config safe d db h.counters h.one i stored h.mints;
        burns = rest.0;
        counters = rest.1.0;
        one = rest.1.1;
      }

  pub match_mint-AuditIsSound :
      (db : Db) (m : MintTx)
      → IsStoredMint db m
      → AuditIsSound config db
      → AuditIsSound config (try_match_mint_with_deposit m config db).1
  match_mint-AuditIsSound db m stored h =
      let rest =
        counted-rest OtherBurns (MintMatched config m db) mint_error_counter db h.counters _
          (λ e. (
            BurnsAreSound-frame config db _ refl refl refl h.burns,
            (bump (mint_error_counter e) h.counters, refl),
          ))
          (λ d db' w.
            rw w.recorded
              (BurnsAreSound-frame config db _ refl refl refl h.burns, (h.counters, h.one)))
          (try_match_mint_lem m config db h.counters h.one
            (deposits_keyed_of_own db h.mints.deposits)) in
      record {
        mints = try_match_mint-MintsAreSound config m db h.counters h.one stored h.mints;
        burns = rest.0;
        counters = rest.1.0;
        one = rest.1.1;
      }

  pub match_withdrawal-AuditIsSound :
      (db : Db) (safe : AuditedSafeConfig) (w : GnosisSafeWithdrawal)
      → In safe config.safes
      → IsStoredWithdrawal db w
      → AuditIsSound config db
      → AuditIsSound config (try_match_withdrawal_with_burn w safe db).1
  match_withdrawal-AuditIsSound db safe w i stored h =
      let rest =
        counted-rest OtherMints (WithdrawalMatched safe w db) withdrawal_error_counter db h.counters
          _
          (λ e. (
            MintsAreSound-frame config db _ refl refl refl h.mints,
            (bump (withdrawal_error_counter e) h.counters, refl),
          ))
          (λ b db' p.
            rw p.recorded
              (MintsAreSound-frame config db _ refl refl refl h.mints, (h.counters, h.one)))
          (try_match_withdrawal_lem w safe db h.counters h.one
            (Burns.keyed_of_own db h.burns.burns)) in
      record {
        mints = rest.0;
        burns =
            try_match_withdrawal-BurnsAreSound config safe w db h.counters h.one i stored h.burns;
        counters = rest.1.0;
        one = rest.1.1;
      }

  pub match_burn-AuditIsSound :
      (db : Db) (b : BurnTxOut)
      → IsStoredBurn db b
      → AuditIsSound config db
      → AuditIsSound config (try_match_burn_with_withdrawal b config db).1
  match_burn-AuditIsSound db b stored h =
      let rest =
        counted-rest OtherMints (BurnMatched config b db) burn_error_counter db h.counters _
          (λ e. (
            MintsAreSound-frame config db _ refl refl refl h.mints,
            (bump (burn_error_counter e) h.counters, refl),
          ))
          (λ w db' p.
            rw p.recorded
              (MintsAreSound-frame config db _ refl refl refl h.mints, (h.counters, h.one)))
          (try_match_burn_lem b config db h.counters h.one
            (withdrawals_keyed_of_own db h.burns.withdrawals)) in
      record {
        mints = rest.0;
        burns = try_match_burn-BurnsAreSound config b db h.counters h.one stored h.burns;
        counters = rest.1.0;
        one = rest.1.1;
      }
