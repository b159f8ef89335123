-- ===== src/Audit/Mint/Sound.antt =====
-- The audit table of mints is sound: an invariant that every operation on its tables keeps.
use reserve_auditor.Prelude.{
  ℕ, Bool, true, false, ◌==◌, none, some, List, [], ◌∷◌, ◌≡◌, ◌∙◌, refl, sym, arith, All,
  All-append, All-map, any, is_id, OwnKeys, OwnKeys-find, Distinct, Distinct-append, any_flip, In,
  find_passes,
}
use reserve_auditor.Prelude.Text.{Text}
use reserve_auditor.Gnosis.Config.{AuditedSafeConfig, GnosisSafeConfig}
use reserve_auditor.Db.Models.{Db, MintTx, GnosisSafeDeposit, AuditedMint}
use reserve_auditor.Db.MintTxs.{mint_key, is_some, find_unaudited_mint_tx_by_nonce}
use reserve_auditor.Db.Deposits.{deposit_key, find_unaudited_deposit_by_nonce}
use reserve_auditor.Audit.Verify.{Matches}
use reserve_auditor.Audit.Mint.{mint_by_id, deposit_by_id, join_mint, first_joined}
use reserve_auditor.Audit.Mint.Outcome.{with_pair}

-- A row of the audit table refers to a mint and a deposit that belong together, in a safe of the
-- configuration.
pub record RowIsSound (config : GnosisSafeConfig) (db : Db) (a : AuditedMint) : Type 0 where
  pub mint : MintTx
  pub deposit : GnosisSafeDeposit
  pub mint_row : mint_by_id a.mint_tx_id db ≡ some mint
  pub deposit_row : deposit_by_id a.gnosis_safe_deposit_id db ≡ some deposit
  pub safe : AuditedSafeConfig
  pub audited : In safe config.safes
  pub matches : Matches safe mint deposit

-- The tables are keyed, every row of the audit table is sound, and no mint and no deposit is in it
-- twice.
pub record MintsAreSound (config : GnosisSafeConfig) (db : Db) : Type 0 where
  pub mints : OwnKeys mint_key db.mint_txs
  pub deposits : OwnKeys deposit_key db.gnosis_safe_deposits
  pub rows : All (RowIsSound config db) db.audited_mints
  pub one_mint : Distinct (λ a. a.mint_tx_id) db.audited_mints
  pub one_deposit : Distinct (λ a. a.gnosis_safe_deposit_id) db.audited_mints

join_mint_sound :
    (config : GnosisSafeConfig) (db : Db) (a : AuditedMint)
    → RowIsSound config db a
    → is_some (join_mint db a) ≡ true
unfolding join_mint
join_mint_sound config db a h = ground (arith, h.mint_row, h.deposit_row)

-- Where every row joins, a search of the join that finds nothing has found no row of the table.
pub first_joined-none :
    (config : GnosisSafeConfig) (db : Db) (p : AuditedMint → Bool) (rows : List AuditedMint)
    → All (RowIsSound config db) rows
    → first_joined db p rows ≡ none
    → any p rows ≡ false
unfolding first_joined
first_joined-none config db p [] h e = refl
first_joined-none config db p (a ∷ rows) h e =
    ground (arith, join_mint_sound config db a h.0, first_joined-none config db p rows h.1)

-- A sound row stays sound when the tables that it refers to keep their rows.
pub RowIsSound-grow :
    (config : GnosisSafeConfig) (db db' : Db)
    → ((k : ℕ) (m : MintTx) → mint_by_id k db ≡ some m → mint_by_id k db' ≡ some m)
    → ((k : ℕ) (d : GnosisSafeDeposit) → deposit_by_id k db ≡ some d → deposit_by_id k db' ≡ some d)
    → (a : AuditedMint) → RowIsSound config db a
    → RowIsSound config db' a
RowIsSound-grow config db db' gm gd a h = record {
  mint = h.mint;
  deposit = h.deposit;
  mint_row = gm _ _ h.mint_row;
  deposit_row = gd _ _ h.deposit_row;
  safe = h.safe;
  audited = h.audited;
  matches = h.matches;
}

-- A mint and a deposit that belong together and are in no row can be recorded.
pub pair-MintsAreSound :
    (config : GnosisSafeConfig) (db : Db) (j k : ℕ) (m : MintTx) (d : GnosisSafeDeposit)
    (safe : AuditedSafeConfig)
    → MintsAreSound config db
    → mint_by_id j db ≡ some m
    → deposit_by_id k db ≡ some d
    → In safe config.safes
    → Matches safe m d
    → any (λ a. a.mint_tx_id == j) db.audited_mints ≡ false
    → any (λ a. a.gnosis_safe_deposit_id == k) db.audited_mints ≡ false
    → MintsAreSound config (with_pair j k db)
pair-MintsAreSound config db j k m d safe h mr dr audited matches no_mint no_deposit = record {
  mints = h.mints;
  deposits = h.deposits;
  rows =
      All-append (RowIsSound config (with_pair j k db)) db.audited_mints _
        (All-map _ _ (RowIsSound-grow config db (with_pair j k db) (λ _ _ e. e) (λ _ _ e. e))
          db.audited_mints h.rows)
        (
          record {
            mint = m;
            deposit = d;
            mint_row = mr;
            deposit_row = dr;
            safe = safe;
            audited = audited;
            matches = matches;
          },
          tt,
        );
  one_mint = Distinct-append (λ a. a.mint_tx_id) db.audited_mints _ h.one_mint no_mint;
  one_deposit =
      Distinct-append (λ a. a.gnosis_safe_deposit_id) db.audited_mints _ h.one_deposit no_deposit;
}

-- A mint that a query for unaudited ones finds is in its table, and in no row of the audit table.
pub unaudited_mint :
    (nonce : Text) (db : Db) (m : MintTx) (j : ℕ)
    → OwnKeys mint_key db.mint_txs
    → find_unaudited_mint_tx_by_nonce nonce db ≡ some m
    → m.id ≡ some j
    → (mint_by_id j db ≡ some m) × (any (λ a. a.mint_tx_id == j) db.audited_mints ≡ false)
unfolding find_unaudited_mint_tx_by_nonce
unaudited_mint nonce db m j own f e =
    let (k, key, row) = OwnKeys-find mint_key _ db.mint_txs own f in
    let same : k ≡ j = ground arith in
    let passes = find_passes _ db.mint_txs f in
    let free : any (λ a. is_id a.mint_tx_id m.id) db.audited_mints ≡ false = ground arith in
    (rw same at row, sym (any_flip (λ a. a.mint_tx_id) j db.audited_mints) ∙ (rw e at free))

pub unaudited_deposit :
    (nonce : Text) (db : Db) (d : GnosisSafeDeposit) (k : ℕ)
    → OwnKeys deposit_key db.gnosis_safe_deposits
    → find_unaudited_deposit_by_nonce nonce db ≡ some d
    → d.id ≡ some k
    → (deposit_by_id k db ≡ some d)
      × (any (λ a. a.gnosis_safe_deposit_id == k) db.audited_mints ≡ false)
unfolding find_unaudited_deposit_by_nonce
unaudited_deposit nonce db d k own f e =
    let (j, key, row) = OwnKeys-find deposit_key _ db.gnosis_safe_deposits own f in
    let same : j ≡ k = ground arith in
    let passes = find_passes _ db.gnosis_safe_deposits f in
    let free : any (λ a. is_id a.gnosis_safe_deposit_id d.id) db.audited_mints ≡ false =
      ground arith in
    (
      rw same at row,
      sym (any_flip (λ a. a.gnosis_safe_deposit_id) k db.audited_mints) ∙ (rw e at free),
    )
