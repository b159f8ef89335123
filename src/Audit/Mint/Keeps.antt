-- ===== src/Audit/Mint/Keeps.antt =====
-- Matching keeps the audit table of mints sound, whatever the outcome, and so do the operations
-- that add a mint or a deposit.
use reserve_auditor.Prelude.{
  ℕ, some, [], ◌∷◌, ◌≡◌, ◌∙◌, refl, sym, ap, subst, inl, inr, All, All-map, by_key, find-append,
  OwnKeys, OwnKeys-append, In, find-In,
}
use reserve_auditor.Result.{Result, ok, err, panic}
use reserve_auditor.Error.{Error}
use reserve_auditor.Gnosis.Types.{Hex}
use reserve_auditor.Gnosis.Config.{
  AuditedSafeConfig, GnosisSafeConfig, get_audited_safe_config_by_safe_addr,
}
use reserve_auditor.Db.Models.{Db, Counters, MintTx, GnosisSafeDeposit}
use reserve_auditor.Db.Counters.{CounterName}
use reserve_auditor.Db.MintTxs.{mint_key, is_some, insert_mint_tx}
use reserve_auditor.Db.MintTxs.Insertion.{with_mint, insert_mint_tx_cases}
use reserve_auditor.Db.Deposits.{deposit_key, insert_deposit}
use reserve_auditor.Db.Deposits.Insertion.{with_deposit, insert_deposit_cases}
use reserve_auditor.Audit.Counting.{Counted}
use reserve_auditor.Audit.Mint.{
  mint_by_id, deposit_by_id, existing_match_of_deposit, existing_match_of_mint,
  try_match_deposit_with_mint, try_match_mint_with_deposit, deposit_error_counter,
  mint_error_counter,
}
use reserve_auditor.Audit.Mint.Outcome.{DepositMatched, MintsAreKeyed, try_match_deposit_lem}
use reserve_auditor.Audit.Mint.OutcomeOfMint.{MintMatched, DepositsAreKeyed, try_match_mint_lem}
use reserve_auditor.Audit.Mint.Sound.{
  MintsAreSound, RowIsSound, RowIsSound-grow, first_joined-none, pair-MintsAreSound, unaudited_mint,
  unaudited_deposit,
}

-- The object is the row of its id, as it is once it has been inserted.
abbrev pub IsStoredDeposit : Db → GnosisSafeDeposit → Type 0
IsStoredDeposit db d = (k : ℕ) → d.id ≡ some k → deposit_by_id k db ≡ some d

abbrev pub IsStoredMint : Db → MintTx → Type 0
IsStoredMint db m = (j : ℕ) → m.id ≡ some j → mint_by_id j db ≡ some m

DepositMatched-sound :
    (config : GnosisSafeConfig) (c : AuditedSafeConfig) (d : GnosisSafeDeposit) (db db' : Db)
    (m : MintTx)
    → In c config.safes
    → IsStoredDeposit db d
    → MintsAreSound config db
    → DepositMatched c d db m db'
    → MintsAreSound config db'
unfolding existing_match_of_deposit
DepositMatched-sound config c d db db' m audited stored h w =
    let (row, free) = unaudited_mint _ db m w.mint_id h.mints w.found w.keyed in
    rw w.recorded (
      pair-MintsAreSound config db w.mint_id w.deposit_id m d c h row (stored _ w.saved) audited
        w.matches free (first_joined-none config db _ db.audited_mints h.rows w.unmatched))

MintMatched-sound :
    (config : GnosisSafeConfig) (m : MintTx) (db db' : Db) (d : GnosisSafeDeposit)
    → IsStoredMint db m
    → MintsAreSound config db
    → MintMatched config m db d db'
    → MintsAreSound config db'
unfolding existing_match_of_mint get_audited_safe_config_by_safe_addr
MintMatched-sound config m db db' d stored h w =
    let (row, free) = unaudited_deposit _ db d w.deposit_id h.deposits w.found w.saved in
    rw w.recorded (
      pair-MintsAreSound config db w.mint_id w.deposit_id m d w.safe h (stored _ w.keyed) row
        (find-In _ config.safes w.audited) w.matches
        (first_joined-none config db _ db.audited_mints h.rows w.unmatched) free)

pub keyed_of_own : (db : Db) → OwnKeys mint_key db.mint_txs → MintsAreKeyed db
keyed_of_own db h = All-map _ _ (λ m (k, key, _). ap is_some key) db.mint_txs h

pub deposits_keyed_of_own :
    (db : Db) → OwnKeys deposit_key db.gnosis_safe_deposits → DepositsAreKeyed db
deposits_keyed_of_own db h = All-map _ _ (λ d (k, key, _). ap is_some key) db.gnosis_safe_deposits h

-- Other tables do not matter.
pub MintsAreSound-frame :
    (config : GnosisSafeConfig) (db db' : Db)
    → db'.mint_txs ≡ db.mint_txs
    → db'.gnosis_safe_deposits ≡ db.gnosis_safe_deposits
    → db'.audited_mints ≡ db.audited_mints
    → MintsAreSound config db
    → MintsAreSound config db'
MintsAreSound-frame config db db' em ed ea h = record {
  mints = rw em h.mints;
  deposits = rw ed h.deposits;
  rows = subst (All (RowIsSound config db')) (sym ea) (
      All-map _ _
        (RowIsSound-grow config db db' (λ k m e. ap (by_key mint_key k) em ∙ e)
          (λ k d e. ap (by_key deposit_key k) ed ∙ e))
        db.audited_mints h.rows);
  one_mint = rw ea h.one_mint;
  one_deposit = rw ea h.one_deposit;
}

Counted-sound :
    {A : Type 0} (config : GnosisSafeConfig) (P : A → Db → Type 0) (counter : Error → CounterName)
    (db : Db) (c : Counters) (r : Result Error A × Db)
    → MintsAreSound config db
    → ((a : A) (db' : Db) → P a db' → MintsAreSound config db')
    → Counted P counter db c r
    → MintsAreSound config r.1
Counted-sound config P counter db c (ok a, db') h f o = f a db' o
Counted-sound config P counter db c (err e, db') h f o =
    rw o (MintsAreSound-frame config db _ refl refl refl h)
Counted-sound config P counter db c (panic, db') h f o = absurd o

-- Where there is one counters row, matching a stored deposit, in a safe of the configuration, keeps
-- the audit table sound: whatever the outcome, every row still refers to a mint and a deposit that
-- belong together, and no mint and no deposit is in two rows.
pub try_match_deposit-MintsAreSound :
    (config : GnosisSafeConfig) (c : AuditedSafeConfig) (d : GnosisSafeDeposit) (db : Db)
    (counters : Counters)
    → db.counters ≡ counters ∷ []
    → In c config.safes
    → IsStoredDeposit db d
    → MintsAreSound config db
    → MintsAreSound config (try_match_deposit_with_mint d c db).1
try_match_deposit-MintsAreSound config c d db counters one audited stored h =
    Counted-sound config (DepositMatched c d db) deposit_error_counter db counters _ h
      (λ m db' w. DepositMatched-sound config c d db db' m audited stored h w)
      (try_match_deposit_lem d c db counters one (keyed_of_own db h.mints))

-- Where there is one counters row, matching a stored mint keeps the audit table sound, whatever the
-- outcome.
pub try_match_mint-MintsAreSound :
    (config : GnosisSafeConfig) (m : MintTx) (db : Db) (counters : Counters)
    → db.counters ≡ counters ∷ []
    → IsStoredMint db m
    → MintsAreSound config db
    → MintsAreSound config (try_match_mint_with_deposit m config db).1
try_match_mint-MintsAreSound config m db counters one stored h =
    Counted-sound config (MintMatched config m db) mint_error_counter db counters _ h
      (λ d db' w. MintMatched-sound config m db db' d stored h w)
      (try_match_mint_lem m config db counters one (deposits_keyed_of_own db h.deposits))

add_mint_sound :
    (config : GnosisSafeConfig) (db : Db) (m : MintTx)
    → MintsAreSound config db
    → MintsAreSound config (with_mint m db)
add_mint_sound config db m h = record {
  mints = OwnKeys-append mint_key db.mint_txs _ h.mints refl;
  deposits = h.deposits;
  rows =
      All-map _ _
        (RowIsSound-grow config db (with_mint m db) (λ k n e. find-append _ db.mint_txs _ e)
          (λ _ _ e. e))
        db.audited_mints h.rows;
  one_mint = h.one_mint;
  one_deposit = h.one_deposit;
}

add_deposit_sound :
    (config : GnosisSafeConfig) (db : Db) (d : GnosisSafeDeposit)
    → MintsAreSound config db
    → MintsAreSound config (with_deposit d db)
add_deposit_sound config db d h = record {
  mints = h.mints;
  deposits = OwnKeys-append deposit_key db.gnosis_safe_deposits _ h.deposits refl;
  rows =
      All-map _ _
        (RowIsSound-grow config db (with_deposit d db) (λ _ _ e. e)
          (λ k n e. find-append _ db.gnosis_safe_deposits _ e))
        db.audited_mints h.rows;
  one_mint = h.one_mint;
  one_deposit = h.one_deposit;
}

-- An insertion of a mint, stored or refused, keeps the audit table sound.
pub insert_mint_tx-MintsAreSound :
    (config : GnosisSafeConfig) (m : MintTx) (db : Db)
    → MintsAreSound config db
    → MintsAreSound config (insert_mint_tx m db).1
insert_mint_tx-MintsAreSound config m db h = elim (insert_mint_tx_cases m db) [
  | inl stored ↦ rw stored (add_mint_sound config db m h)
  | inr (e, refused) ↦ rw refused h
]

-- An insertion of a deposit, stored or refused, keeps the audit table sound.
pub insert_deposit-MintsAreSound :
    (config : GnosisSafeConfig) (hex : Hex) (d : GnosisSafeDeposit) (db : Db)
    → MintsAreSound config db
    → MintsAreSound config (insert_deposit hex d db).1
insert_deposit-MintsAreSound config hex d db h = elim (insert_deposit_cases hex d db) [
  | inl stored ↦ rw stored (add_deposit_sound config db d h)
  | inr (e, refused) ↦ rw refused h
]
