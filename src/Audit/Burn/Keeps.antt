-- ===== src/Audit/Burn/Keeps.antt =====
-- Matching keeps the audit table of burns sound, whatever the outcome, and so do the operations
-- that add a burn or a withdrawal.
use reserve_auditor.Prelude.{
  ℕ, some, [], ◌∷◌, ◌≡◌, ◌∙◌, refl, sym, ap, subst, inl, inr, All, All-map, by_key, find-append,
  OwnKeys, OwnKeys-append, In, find-In,
}
use reserve_auditor.Result.{Result, ok, err, panic}
use reserve_auditor.Error.{Error}
use reserve_auditor.Gnosis.Types.{Hex}
use reserve_auditor.Gnosis.Config.{
  AuditedSafeConfig, GnosisSafeConfig, get_audited_safe_config_by_safe_addr,
}
use reserve_auditor.Db.Models.{Db, Counters, BurnTxOut, GnosisSafeWithdrawal}
use reserve_auditor.Db.Counters.{CounterName}
use reserve_auditor.Db.MintTxs.{is_some}
use reserve_auditor.Db.BurnTxOuts.{burn_key, insert_burn}
use reserve_auditor.Db.BurnTxOuts.Insertion.{with_burn, insert_burn_cases}
use reserve_auditor.Db.Withdrawals.{withdrawal_key, insert_withdrawal}
use reserve_auditor.Db.Withdrawals.Insertion.{with_withdrawal, insert_withdrawal_cases}
use reserve_auditor.Audit.Counting.{Counted}
use reserve_auditor.Audit.Burn.{
  burn_by_id, withdrawal_by_id, existing_match_of_withdrawal, existing_match_of_burn,
  try_match_withdrawal_with_burn, try_match_burn_with_withdrawal, withdrawal_error_counter,
  burn_error_counter,
}
use reserve_auditor.Audit.Burn.Outcome.{WithdrawalMatched, BurnsAreKeyed, try_match_withdrawal_lem}
use reserve_auditor.Audit.Burn.OutcomeOfBurn.{BurnMatched, WithdrawalsAreKeyed, try_match_burn_lem}
use reserve_auditor.Audit.Burn.Sound.{
  BurnsAreSound, RowIsSound, RowIsSound-grow, first_joined_burn-none, pair-BurnsAreSound,
  unaudited_burn, unaudited_withdrawal,
}

-- The object is the row of its id, as it is once it has been inserted.
abbrev pub IsStoredWithdrawal : Db → GnosisSafeWithdrawal → Type 0
IsStoredWithdrawal db d = (k : ℕ) → d.id ≡ some k → withdrawal_by_id k db ≡ some d

abbrev pub IsStoredBurn : Db → BurnTxOut → Type 0
IsStoredBurn db m = (j : ℕ) → m.id ≡ some j → burn_by_id j db ≡ some m

WithdrawalMatched-sound :
    (config : GnosisSafeConfig) (c : AuditedSafeConfig) (d : GnosisSafeWithdrawal) (db db' : Db)
    (m : BurnTxOut)
    → In c config.safes
    → IsStoredWithdrawal db d
    → BurnsAreSound config db
    → WithdrawalMatched c d db m db'
    → BurnsAreSound config db'
unfolding existing_match_of_withdrawal
WithdrawalMatched-sound config c d db db' m audited stored h w =
    let (row, free) = unaudited_burn _ db m w.burn_id h.burns w.found w.keyed in
    rw w.recorded (
      pair-BurnsAreSound config db w.burn_id w.withdrawal_id m d c h row (stored _ w.saved) audited
        w.matches free (first_joined_burn-none config db _ db.audited_burns h.rows w.unmatched))

BurnMatched-sound :
    (config : GnosisSafeConfig) (m : BurnTxOut) (db db' : Db) (d : GnosisSafeWithdrawal)
    → IsStoredBurn db m
    → BurnsAreSound config db
    → BurnMatched config m db d db'
    → BurnsAreSound config db'
unfolding existing_match_of_burn get_audited_safe_config_by_safe_addr
BurnMatched-sound config m db db' d stored h w =
    let (row, free) = unaudited_withdrawal _ db d w.withdrawal_id h.withdrawals w.found w.saved in
    rw w.recorded (
      pair-BurnsAreSound config db w.burn_id w.withdrawal_id m d w.safe h (stored _ w.keyed) row
        (find-In _ config.safes w.audited) w.matches
        (first_joined_burn-none config db _ db.audited_burns h.rows w.unmatched) free)

pub keyed_of_own : (db : Db) → OwnKeys burn_key db.burn_tx_outs → BurnsAreKeyed db
keyed_of_own db h = All-map _ _ (λ m (k, key, _). ap is_some key) db.burn_tx_outs h

pub withdrawals_keyed_of_own :
    (db : Db) → OwnKeys withdrawal_key db.gnosis_safe_withdrawals → WithdrawalsAreKeyed db
withdrawals_keyed_of_own db h =
    All-map _ _ (λ d (k, key, _). ap is_some key) db.gnosis_safe_withdrawals h

-- Other tables do not matter.
pub BurnsAreSound-frame :
    (config : GnosisSafeConfig) (db db' : Db)
    → db'.burn_tx_outs ≡ db.burn_tx_outs
    → db'.gnosis_safe_withdrawals ≡ db.gnosis_safe_withdrawals
    → db'.audited_burns ≡ db.audited_burns
    → BurnsAreSound config db
    → BurnsAreSound config db'
BurnsAreSound-frame config db db' em ed ea h = record {
  burns = rw em h.burns;
  withdrawals = rw ed h.withdrawals;
  rows = subst (All (RowIsSound config db')) (sym ea) (
      All-map _ _
        (RowIsSound-grow config db db' (λ k m e. ap (by_key burn_key k) em ∙ e)
          (λ k d e. ap (by_key withdrawal_key k) ed ∙ e))
        db.audited_burns h.rows);
  one_burn = rw ea h.one_burn;
  one_withdrawal = rw ea h.one_withdrawal;
}

Counted-sound :
    {A : Type 0} (config : GnosisSafeConfig) (P : A → Db → Type 0) (counter : Error → CounterName)
    (db : Db) (c : Counters) (r : Result Error A × Db)
    → BurnsAreSound config db
    → ((a : A) (db' : Db) → P a db' → BurnsAreSound config db')
    → Counted P counter db c r
    → BurnsAreSound config r.1
Counted-sound config P counter db c (ok a, db') h f o = f a db' o
Counted-sound config P counter db c (err e, db') h f o =
    rw o (BurnsAreSound-frame config db _ refl refl refl h)
Counted-sound config P counter db c (panic, db') h f o = absurd o

-- Where there is one counters row, matching a stored withdrawal, in a safe of the configuration,
-- keeps the audit table sound: whatever the outcome, every row still refers to a burn and a
-- withdrawal that belong together, and no burn and no withdrawal is in two rows.
pub try_match_withdrawal-BurnsAreSound :
    (config : GnosisSafeConfig) (c : AuditedSafeConfig) (d : GnosisSafeWithdrawal) (db : Db)
    (counters : Counters)
    → db.counters ≡ counters ∷ []
    → In c config.safes
    → IsStoredWithdrawal db d
    → BurnsAreSound config db
    → BurnsAreSound config (try_match_withdrawal_with_burn d c db).1
try_match_withdrawal-BurnsAreSound config c d db counters one audited stored h =
    Counted-sound config (WithdrawalMatched c d db) withdrawal_error_counter db counters _ h
      (λ m db' w. WithdrawalMatched-sound config c d db db' m audited stored h w)
      (try_match_withdrawal_lem d c db counters one (keyed_of_own db h.burns))

-- Where there is one counters row, matching a stored burn keeps the audit table sound, whatever the
-- outcome.
pub try_match_burn-BurnsAreSound :
    (config : GnosisSafeConfig) (m : BurnTxOut) (db : Db) (counters : Counters)
    → db.counters ≡ counters ∷ []
    → IsStoredBurn db m
    → BurnsAreSound config db
    → BurnsAreSound config (try_match_burn_with_withdrawal m config db).1
try_match_burn-BurnsAreSound config m db counters one stored h =
    Counted-sound config (BurnMatched config m db) burn_error_counter db counters _ h
      (λ d db' w. BurnMatched-sound config m db db' d stored h w)
      (try_match_burn_lem m config db counters one (withdrawals_keyed_of_own db h.withdrawals))

add_burn_sound :
    (config : GnosisSafeConfig) (db : Db) (m : BurnTxOut)
    → BurnsAreSound config db
    → BurnsAreSound config (with_burn m db)
add_burn_sound config db m h = record {
  burns = OwnKeys-append burn_key db.burn_tx_outs _ h.burns refl;
  withdrawals = h.withdrawals;
  rows =
      All-map _ _
        (RowIsSound-grow config db (with_burn m db) (λ k n e. find-append _ db.burn_tx_outs _ e)
          (λ _ _ e. e))
        db.audited_burns h.rows;
  one_burn = h.one_burn;
  one_withdrawal = h.one_withdrawal;
}

add_withdrawal_sound :
    (config : GnosisSafeConfig) (db : Db) (d : GnosisSafeWithdrawal)
    → BurnsAreSound config db
    → BurnsAreSound config (with_withdrawal d db)
add_withdrawal_sound config db d h = record {
  burns = h.burns;
  withdrawals = OwnKeys-append withdrawal_key db.gnosis_safe_withdrawals _ h.withdrawals refl;
  rows =
      All-map _ _
        (RowIsSound-grow config db (with_withdrawal d db) (λ _ _ e. e)
          (λ k n e. find-append _ db.gnosis_safe_withdrawals _ e))
        db.audited_burns h.rows;
  one_burn = h.one_burn;
  one_withdrawal = h.one_withdrawal;
}

-- An insertion of a burn, stored or refused, keeps the audit table sound.
pub insert_burn-BurnsAreSound :
    (config : GnosisSafeConfig) (m : BurnTxOut) (db : Db)
    → BurnsAreSound config db
    → BurnsAreSound config (insert_burn m db).1
insert_burn-BurnsAreSound config m db h = elim (insert_burn_cases m db) [
  | inl stored ↦ rw stored (add_burn_sound config db m h)
  | inr (e, refused) ↦ rw refused h
]

-- An insertion of a withdrawal, stored or refused, keeps the audit table sound.
pub insert_withdrawal-BurnsAreSound :
    (config : GnosisSafeConfig) (hex : Hex) (d : GnosisSafeWithdrawal) (db : Db)
    → BurnsAreSound config db
    → BurnsAreSound config (insert_withdrawal hex d db).1
insert_withdrawal-BurnsAreSound config hex d db h = elim (insert_withdrawal_cases hex d db) [
  | inl stored ↦ rw stored (add_withdrawal_sound config db d h)
  | inr (e, refused) ↦ rw refused h
]
