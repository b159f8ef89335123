-- ===== src/Audit/Burn/Succeeds.antt =====
-- A match that is there is made: what an attempt records is not only right, it is recorded.
use reserve_auditor.Prelude.{◌≡◌, sym, ap, ◌∙◌, arith}
use reserve_auditor.Result.{Result, ok}
use reserve_auditor.Error.{Error}
use reserve_auditor.Gnosis.Config.{AuditedSafeConfig, GnosisSafeConfig}
use reserve_auditor.Db.Models.{Db, BurnTxOut, GnosisSafeWithdrawal}
use reserve_auditor.Db.Monad.{Sql, transaction}
use reserve_auditor.Db.Transaction.{transaction-eq-atomic, atomic-ok}
use reserve_auditor.Db.Counters.{CounterName}
use reserve_auditor.Audit.Counting.{counted}
use reserve_auditor.Audit.VerifyBurn.{verify_burn_iff}
use reserve_auditor.Audit.Burn.{
  associate_withdrawal_with_burn, withdrawal_to_burn, match_withdrawal, withdrawal_error_counter,
  try_match_withdrawal_with_burn, burn_to_withdrawal, match_burn, burn_error_counter,
  try_match_burn_with_withdrawal,
}
use reserve_auditor.Audit.Burn.Outcome.{WithdrawalMatched}
use reserve_auditor.Audit.Burn.OutcomeOfBurn.{BurnMatched}

transaction-ok :
    {A : Type 0} (f : Sql A) (db db' : Db) (a : A)
    → f db ≡ (ok a, db')
    → transaction f db ≡ (ok a, db')
transaction-ok {A} f db db' a h =
    transaction-eq-atomic f db
    ∙ atomic-ok f db (ap (λ (p : Result Error A × Db). p.0) h)
    ∙ ap (λ (p : Result Error A × Db). (ok a, p.1)) h

counted-ok :
    {A : Type 0} (counter : Error → CounterName) (m : Sql A) (db db' : Db) (a : A)
    → m db ≡ (ok a, db')
    → counted counter m db ≡ (ok a, db')
counted-ok counter m db db' a h = ground arith

withdrawal_to_burn-ok :
    (c : AuditedSafeConfig) (d : GnosisSafeWithdrawal) (db db' : Db) (m : BurnTxOut)
    → (w : WithdrawalMatched c d db m db') → withdrawal_to_burn d c w.withdrawal_id db ≡ (ok m, db')
unfolding withdrawal_to_burn associate_withdrawal_with_burn
withdrawal_to_burn-ok c d db db' m w =
    let same = (verify_burn_iff m d c).1 w.matches in
    simp (w.unmatched, w.found, same, w.keyed, w.burn_exists, w.withdrawal_exists)
      (ap (λ s. (ok m, s)) (sym w.recorded))

match_withdrawal-ok :
    (c : AuditedSafeConfig) (d : GnosisSafeWithdrawal) (db db' : Db) (m : BurnTxOut)
    → WithdrawalMatched c d db m db'
    → match_withdrawal d c db ≡ (ok m, db')
unfolding match_withdrawal
match_withdrawal-ok c d db db' m w =
    simp (w.saved, w.matches.safe)
      (transaction-ok (withdrawal_to_burn d c w.withdrawal_id) db db' m
        (withdrawal_to_burn-ok c d db db' m w))

-- Where each part of a match is as it should be, the withdrawal is matched.
pub withdrawal_is_matched :
    (c : AuditedSafeConfig) (d : GnosisSafeWithdrawal) (db db' : Db) (m : BurnTxOut)
    → WithdrawalMatched c d db m db'
    → try_match_withdrawal_with_burn d c db ≡ (ok m, db')
unfolding try_match_withdrawal_with_burn
withdrawal_is_matched c d db db' m w =
    counted-ok withdrawal_error_counter (match_withdrawal d c) db db' m
      (match_withdrawal-ok c d db db' m w)

burn_to_withdrawal-ok :
    (c : GnosisSafeConfig) (m : BurnTxOut) (db db' : Db) (d : GnosisSafeWithdrawal)
    → (w : BurnMatched c m db d db') → burn_to_withdrawal m c w.burn_id db ≡ (ok d, db')
unfolding burn_to_withdrawal associate_withdrawal_with_burn
burn_to_withdrawal-ok c m db db' d w =
    let same = (verify_burn_iff m d w.safe).1 w.matches in
    simp (w.unmatched, w.found, w.audited, same, w.saved, w.burn_exists, w.withdrawal_exists)
      (ap (λ s. (ok d, s)) (sym w.recorded))

match_burn-ok :
    (c : GnosisSafeConfig) (m : BurnTxOut) (db db' : Db) (d : GnosisSafeWithdrawal)
    → BurnMatched c m db d db'
    → match_burn m c db ≡ (ok d, db')
unfolding match_burn
match_burn-ok c m db db' d w = simp w.keyed (
    transaction-ok (burn_to_withdrawal m c w.burn_id) db db' d
      (burn_to_withdrawal-ok c m db db' d w))

pub burn_is_matched :
    (c : GnosisSafeConfig) (m : BurnTxOut) (db db' : Db) (d : GnosisSafeWithdrawal)
    → BurnMatched c m db d db'
    → try_match_burn_with_withdrawal m c db ≡ (ok d, db')
unfolding try_match_burn_with_withdrawal
burn_is_matched c m db db' d w =
    counted-ok burn_error_counter (match_burn m c) db db' d (match_burn-ok c m db db' d w)
