-- ===== src/Audit/Burn/Sound.antt =====
-- The audit table of burns is sound: an invariant that every operation on its tables keeps.
use reserve_auditor.Prelude.{
  ℕ, Bool, true, false, ◌==◌, none, some, List, [], ◌∷◌, ◌≡◌, ◌∙◌, refl, sym, arith, All,
  All-append, All-map, any, is_id, OwnKeys, OwnKeys-find, Distinct, Distinct-append, any_flip, In,
  find_passes,
}
use reserve_auditor.Prelude.Text.{Text}
use reserve_auditor.Gnosis.Config.{AuditedSafeConfig, GnosisSafeConfig}
use reserve_auditor.Db.Models.{Db, BurnTxOut, GnosisSafeWithdrawal, AuditedBurn}
use reserve_auditor.Db.MintTxs.{is_some}
use reserve_auditor.Db.BurnTxOuts.{burn_key, find_unaudited_burn_tx_out_by_public_key}
use reserve_auditor.Db.Withdrawals.{withdrawal_key, find_unaudited_withdrawal_by_public_key}
use reserve_auditor.Audit.VerifyBurn.{Matches}
use reserve_auditor.Audit.Burn.{burn_by_id, withdrawal_by_id, join_burn, first_joined}
use reserve_auditor.Audit.Burn.Outcome.{with_pair}

-- A row of the audit table refers to a burn and a withdrawal that belong together, in a safe of the
-- configuration.
pub record RowIsSound (config : GnosisSafeConfig) (db : Db) (a : AuditedBurn) : Type 0 where
  pub burn : BurnTxOut
  pub withdrawal : GnosisSafeWithdrawal
  pub burn_row : burn_by_id a.burn_tx_out_id db ≡ some burn
  pub withdrawal_row : withdrawal_by_id a.gnosis_safe_withdrawal_id db ≡ some withdrawal
  pub safe : AuditedSafeConfig
  pub audited : In safe config.safes
  pub matches : Matches safe burn withdrawal

-- The tables are keyed, every row of the audit table is sound, and no burn and no withdrawal is in
-- it twice.
pub record BurnsAreSound (config : GnosisSafeConfig) (db : Db) : Type 0 where
  pub burns : OwnKeys burn_key db.burn_tx_outs
  pub withdrawals : OwnKeys withdrawal_key db.gnosis_safe_withdrawals
  pub rows : All (RowIsSound config db) db.audited_burns
  pub one_burn : Distinct (λ a. a.burn_tx_out_id) db.audited_burns
  pub one_withdrawal : Distinct (λ a. a.gnosis_safe_withdrawal_id) db.audited_burns

join_burn_sound :
    (config : GnosisSafeConfig) (db : Db) (a : AuditedBurn)
    → RowIsSound config db a
    → is_some (join_burn db a) ≡ true
unfolding join_burn
join_burn_sound config db a h = ground (arith, h.burn_row, h.withdrawal_row)

-- Where every row joins, a search of the join that finds nothing has found no row of the table.
pub first_joined_burn-none :
    (config : GnosisSafeConfig) (db : Db) (p : AuditedBurn → Bool) (rows : List AuditedBurn)
    → All (RowIsSound config db) rows
    → first_joined db p rows ≡ none
    → any p rows ≡ false
unfolding first_joined
first_joined_burn-none config db p [] h e = refl
first_joined_burn-none config db p (a ∷ rows) h e =
    ground (arith, join_burn_sound config db a h.0, first_joined_burn-none config db p rows h.1)

-- A sound row stays sound when the tables that it refers to keep their rows.
pub RowIsSound-grow :
    (config : GnosisSafeConfig) (db db' : Db)
    → ((k : ℕ) (m : BurnTxOut) → burn_by_id k db ≡ some m → burn_by_id k db' ≡ some m)
    → ((k : ℕ) (d : GnosisSafeWithdrawal)
        → withdrawal_by_id k db ≡ some d
        → withdrawal_by_id k db' ≡ some d)
    → (a : AuditedBurn) → RowIsSound config db a
    → RowIsSound config db' a
RowIsSound-grow config db db' gm gd a h = record {
  burn = h.burn;
  withdrawal = h.withdrawal;
  burn_row = gm _ _ h.burn_row;
  withdrawal_row = gd _ _ h.withdrawal_row;
  safe = h.safe;
  audited = h.audited;
  matches = h.matches;
}

-- A burn and a withdrawal that belong together and are in no row can be recorded.
pub pair-BurnsAreSound :
    (config : GnosisSafeConfig) (db : Db) (j k : ℕ) (m : BurnTxOut) (d : GnosisSafeWithdrawal)
    (safe : AuditedSafeConfig)
    → BurnsAreSound config db
    → burn_by_id j db ≡ some m
    → withdrawal_by_id k db ≡ some d
    → In safe config.safes
    → Matches safe m d
    → any (λ a. a.burn_tx_out_id == j) db.audited_burns ≡ false
    → any (λ a. a.gnosis_safe_withdrawal_id == k) db.audited_burns ≡ false
    → BurnsAreSound config (with_pair j k db)
pair-BurnsAreSound config db j k m d safe h mr dr audited matches no_burn no_withdrawal = record {
  burns = h.burns;
  withdrawals = h.withdrawals;
  rows =
      All-append (RowIsSound config (with_pair j k db)) db.audited_burns _
        (All-map _ _ (RowIsSound-grow config db (with_pair j k db) (λ _ _ e. e) (λ _ _ e. e))
          db.audited_burns h.rows)
        (
          record {
            burn = m;
            withdrawal = d;
            burn_row = mr;
            withdrawal_row = dr;
            safe = safe;
            audited = audited;
            matches = matches;
          },
          tt,
        );
  one_burn = Distinct-append (λ a. a.burn_tx_out_id) db.audited_burns _ h.one_burn no_burn;
  one_withdrawal =
      Distinct-append (λ a. a.gnosis_safe_withdrawal_id) db.audited_burns _ h.one_withdrawal
        no_withdrawal;
}

-- A burn that a query for unaudited ones finds is in its table, and in no row of the audit table.
pub unaudited_burn :
    (public_key : Text) (db : Db) (m : BurnTxOut) (j : ℕ)
    → OwnKeys burn_key db.burn_tx_outs
    → find_unaudited_burn_tx_out_by_public_key public_key db ≡ some m
    → m.id ≡ some j
    → (burn_by_id j db ≡ some m) × (any (λ a. a.burn_tx_out_id == j) db.audited_burns ≡ false)
unfolding find_unaudited_burn_tx_out_by_public_key
unaudited_burn public_key db m j own f e =
    let (k, key, row) = OwnKeys-find burn_key _ db.burn_tx_outs own f in
    let same : k ≡ j = ground arith in
    let passes = find_passes _ db.burn_tx_outs f in
    let free : any (λ a. is_id a.burn_tx_out_id m.id) db.audited_burns ≡ false = ground arith in
    (rw same at row, sym (any_flip (λ a. a.burn_tx_out_id) j db.audited_burns) ∙ (rw e at free))

pub unaudited_withdrawal :
    (public_key : Text) (db : Db) (d : GnosisSafeWithdrawal) (k : ℕ)
    → OwnKeys withdrawal_key db.gnosis_safe_withdrawals
    → find_unaudited_withdrawal_by_public_key public_key db ≡ some d
    → d.id ≡ some k
    → (withdrawal_by_id k db ≡ some d)
      × (any (λ a. a.gnosis_safe_withdrawal_id == k) db.audited_burns ≡ false)
unfolding find_unaudited_withdrawal_by_public_key
unaudited_withdrawal public_key db d k own f e =
    let (j, key, row) = OwnKeys-find withdrawal_key _ db.gnosis_safe_withdrawals own f in
    let same : j ≡ k = ground arith in
    let passes = find_passes _ db.gnosis_safe_withdrawals f in
    let free : any (λ a. is_id a.gnosis_safe_withdrawal_id d.id) db.audited_burns ≡ false =
      ground arith in
    (
      rw same at row,
      sym (any_flip (λ a. a.gnosis_safe_withdrawal_id) k db.audited_burns) ∙ (rw e at free),
    )
