-- ===== src/Audit/Mint/Succeeds.antt =====
-- From the parts of a match to the result of an attempt.
use reserve_auditor.Prelude.{◌≡◌, sym, ap, ◌∙◌, arith}
use reserve_auditor.Result.{Result, ok}
use reserve_auditor.Error.{Error}
use reserve_auditor.Gnosis.Config.{AuditedSafeConfig, GnosisSafeConfig}
use reserve_auditor.Db.Models.{Db, MintTx, GnosisSafeDeposit}
use reserve_auditor.Db.Monad.{Sql, transaction}
use reserve_auditor.Db.Transaction.{transaction-eq-atomic, atomic-ok}
use reserve_auditor.Db.Counters.{CounterName}
use reserve_auditor.Audit.Counting.{counted}
use reserve_auditor.Audit.Verify.{verify_iff}
use reserve_auditor.Audit.Mint.{
  associate_deposit_with_mint, deposit_to_mint, match_deposit, deposit_error_counter,
  try_match_deposit_with_mint, mint_to_deposit, match_mint, mint_error_counter,
  try_match_mint_with_deposit,
}
use reserve_auditor.Audit.Mint.Outcome.{DepositMatched}
use reserve_auditor.Audit.Mint.OutcomeOfMint.{MintMatched}

transaction-ok :
    {A : Type 0} (f : Sql A) (db db' : Db) (a : A)
    → f db ≡ (ok a, db')
    → transaction f db ≡ (ok a, db')
transaction-ok {A} f db db' a h =
    transaction-eq-atomic f db
    ∙ atomic-ok f db (ap (λ (p : Result Error A × Db). p.0) h)
    ∙ ap (λ (p : Result Error A × Db). (ok a, p.1)) h

counted-ok :
    {A : Type 0} (counter : Error → CounterName) (m : Sql A) (db db' : Db) (a : A)
    → m db ≡ (ok a, db')
    → counted counter m db ≡ (ok a, db')
counted-ok counter m db db' a h = ground arith

deposit_to_mint-ok :
    (c : AuditedSafeConfig) (d : GnosisSafeDeposit) (db db' : Db) (m : MintTx)
    → (w : DepositMatched c d db m db') → deposit_to_mint d c w.deposit_id db ≡ (ok m, db')
unfolding deposit_to_mint associate_deposit_with_mint
deposit_to_mint-ok c d db db' m w =
    let same = (verify_iff m d c).1 w.matches in
    simp (w.unmatched, w.found, same, w.keyed, w.mint_exists, w.deposit_exists)
      (ap (λ s. (ok m, s)) (sym w.recorded))

match_deposit-ok :
    (c : AuditedSafeConfig) (d : GnosisSafeDeposit) (db db' : Db) (m : MintTx)
    → DepositMatched c d db m db'
    → match_deposit d c db ≡ (ok m, db')
unfolding match_deposit
match_deposit-ok c d db db' m w =
    simp (w.saved, w.matches.safe)
      (transaction-ok (deposit_to_mint d c w.deposit_id) db db' m
        (deposit_to_mint-ok c d db db' m w))

-- Where each part of a match is as it should be, the deposit is matched.
pub deposit_is_matched :
    (c : AuditedSafeConfig) (d : GnosisSafeDeposit) (db db' : Db) (m : MintTx)
    → DepositMatched c d db m db'
    → try_match_deposit_with_mint d c db ≡ (ok m, db')
unfolding try_match_deposit_with_mint
deposit_is_matched c d db db' m w =
    counted-ok deposit_error_counter (match_deposit d c) db db' m (match_deposit-ok c d db db' m w)

mint_to_deposit-ok :
    (c : GnosisSafeConfig) (m : MintTx) (db db' : Db) (d : GnosisSafeDeposit)
    → (w : MintMatched c m db d db') → mint_to_deposit m c w.mint_id db ≡ (ok d, db')
unfolding mint_to_deposit associate_deposit_with_mint
mint_to_deposit-ok c m db db' d w =
    let same = (verify_iff m d w.safe).1 w.matches in
    simp (w.unmatched, w.found, w.audited, same, w.saved, w.mint_exists, w.deposit_exists)
      (ap (λ s. (ok d, s)) (sym w.recorded))

match_mint-ok :
    (c : GnosisSafeConfig) (m : MintTx) (db db' : Db) (d : GnosisSafeDeposit)
    → MintMatched c m db d db'
    → match_mint m c db ≡ (ok d, db')
unfolding match_mint
match_mint-ok c m db db' d w =
    simp w.keyed
      (transaction-ok (mint_to_deposit m c w.mint_id) db db' d (mint_to_deposit-ok c m db db' d w))

pub mint_is_matched :
    (c : GnosisSafeConfig) (m : MintTx) (db db' : Db) (d : GnosisSafeDeposit)
    → MintMatched c m db d db'
    → try_match_mint_with_deposit m c db ≡ (ok d, db')
unfolding try_match_mint_with_deposit
mint_is_matched c m db db' d w =
    counted-ok mint_error_counter (match_mint m c) db db' d (match_mint-ok c m db db' d w)
