-- ===== src/Audit/Mint/Complete.antt =====
-- When an attempt to match succeeds, in the words of the tables.
use reserve_auditor.Prelude.{
  ℕ, Bool, true, false, ==-refl, ◌≡◌, ◌∙◌, refl, sym, ap, some, none, [], ◌∷◌, List, any, is_id, In,
  any_flip, arith,
}
use reserve_auditor.Prelude.Text.{text_eq, text_eq_refl, eq_of_text_eq}
use reserve_auditor.Prelude.Members.{find-only, find-In_some}
use reserve_auditor.Result.{ok}
use reserve_auditor.Gnosis.Types.{addr_eq}
use reserve_auditor.Gnosis.Types.Laws.{addr_eq_sym}
use reserve_auditor.Gnosis.Config.{
  AuditedSafeConfig, GnosisSafeConfig, get_audited_safe_config_by_safe_addr,
}
use reserve_auditor.Db.Models.{Db, MintTx, GnosisSafeDeposit, AuditedMint}
use reserve_auditor.Db.MintTxs.{is_some, find_unaudited_mint_tx_by_nonce}
use reserve_auditor.Db.Deposits.{find_unaudited_deposit_by_nonce}
use reserve_auditor.Audit.Verify.{Matches}
use reserve_auditor.Audit.Mint.{
  mint_by_id, deposit_by_id, existing_match_of_deposit, existing_match_of_mint, first_joined,
  try_match_deposit_with_mint, try_match_mint_with_deposit,
}
use reserve_auditor.Audit.Mint.Outcome.{with_pair}
use reserve_auditor.Audit.Mint.Ends.{MintIsFree, DepositIsFree}
use reserve_auditor.Audit.Mint.Succeeds.{deposit_is_matched, mint_is_matched}

-- Where no row passes, the search of the join finds nothing.
joined_free :
    (db : Db) (p : AuditedMint → Bool) (rows : List AuditedMint)
    → any p rows ≡ false
    → first_joined db p rows ≡ none
unfolding first_joined
joined_free db p [] h = refl
joined_free db p (a ∷ rows) h = ground (arith, joined_free db p rows)

module _ (db : Db) (m : MintTx) (d : GnosisSafeDeposit) (j k : ℕ) where
  -- The mint `j` and the deposit `k` are in their tables and in no row of the audit table.
  pub record AreOpen : Type 0 where
    pub mint_row : In m db.mint_txs
    pub mint_keyed : m.id ≡ some j
    pub deposit_row : In d db.gnosis_safe_deposits
    pub deposit_keyed : d.id ≡ some k
    pub free_mint : MintIsFree j db
    pub free_deposit : DepositIsFree k db

  module _ (o : AreOpen) (same : m.nonce_hex ≡ d.expected_mc_mint_tx_nonce_hex) where
    -- the query for an unaudited mint finds the only mint of the nonce
    mint_found :
        ((n : MintTx) → In n db.mint_txs → n.nonce_hex ≡ m.nonce_hex → n ≡ m)
        → find_unaudited_mint_tx_by_nonce d.expected_mc_mint_tx_nonce_hex db ≡ some m
    unfolding find_unaudited_mint_tx_by_nonce
    mint_found only =
        let free : any (λ a. is_id a.mint_tx_id m.id) db.audited_mints ≡ false =
          rw o.mint_keyed (any_flip (λ a. a.mint_tx_id) j db.audited_mints ∙ o.free_mint) in
        let nonce : text_eq m.nonce_hex d.expected_mc_mint_tx_nonce_hex ≡ true =
          rw same (text_eq_refl _) in
        find-only _ db.mint_txs m (ground arith) o.mint_row
          (λ n i passes. only n i (eq_of_text_eq _ _ (ground arith) ∙ sym same))

    deposit_found :
        ((n : GnosisSafeDeposit)
          → In n db.gnosis_safe_deposits
          → n.expected_mc_mint_tx_nonce_hex ≡ d.expected_mc_mint_tx_nonce_hex
          → n ≡ d)
        → find_unaudited_deposit_by_nonce m.nonce_hex db ≡ some d
    unfolding find_unaudited_deposit_by_nonce
    deposit_found only =
        let free : any (λ a. is_id a.gnosis_safe_deposit_id d.id) db.audited_mints ≡ false =
          rw o.deposit_keyed
            (any_flip (λ a. a.gnosis_safe_deposit_id) k db.audited_mints ∙ o.free_deposit) in
        let nonce : text_eq d.expected_mc_mint_tx_nonce_hex m.nonce_hex ≡ true =
          rw same (text_eq_refl _) in
        find-only _ db.gnosis_safe_deposits d (ground arith) o.deposit_row
          (λ n i passes. only n i (eq_of_text_eq _ _ (ground arith) ∙ same))

    mint_there : is_some (mint_by_id j db) ≡ true
    mint_there =
        let own : is_id j m.id ≡ true = rw o.mint_keyed (==-refl j) in
        let (n, e) = find-In_some (λ m. is_id j m.id) db.mint_txs own o.mint_row in ap is_some e

    deposit_there : is_some (deposit_by_id k db) ≡ true
    deposit_there =
        let own : is_id k d.id ≡ true = rw o.deposit_keyed (==-refl k) in
        let (n, e) = find-In_some (λ d. is_id k d.id) db.gnosis_safe_deposits own o.deposit_row in
        ap is_some e

-- A deposit and a mint that belong together, and that are in their tables and in no row of the
-- audit table, are matched, where no other mint has the nonce: the attempt for the deposit returns
-- the mint, adds a row with the pair to the audit table, and changes nothing else.
pub try_match_deposit_succeeds :
    (c : AuditedSafeConfig) (d : GnosisSafeDeposit) (m : MintTx) (db : Db) (j k : ℕ)
    → AreOpen db m d j k
    → Matches c m d
    → ((n : MintTx) → In n db.mint_txs → n.nonce_hex ≡ m.nonce_hex → n ≡ m)
    → try_match_deposit_with_mint d c db ≡ (ok m, with_pair j k db)
unfolding existing_match_of_deposit
try_match_deposit_succeeds c d m db j k o belong only = deposit_is_matched c d db _ m (record {
  deposit_id = k;
  saved = o.deposit_keyed;
  unmatched = joined_free db _ db.audited_mints o.free_deposit;
  found = mint_found db m d j k o belong.nonce only;
  matches = belong;
  mint_id = j;
  keyed = o.mint_keyed;
  mint_exists = mint_there db m d j k o belong.nonce;
  deposit_exists = deposit_there db m d j k o belong.nonce;
  recorded = refl;
})

-- A mint and a deposit that belong together in a safe of the configuration, and that are in their
-- tables and in no row of the audit table, are matched, where no other deposit expects the nonce
-- and no other safe has the address: the attempt for the mint returns the deposit, adds a row with
-- the pair to the audit table, and changes nothing else.
pub try_match_mint_succeeds :
    (config : GnosisSafeConfig) (safe : AuditedSafeConfig) (m : MintTx) (d : GnosisSafeDeposit)
    (db : Db) (j k : ℕ)
    → AreOpen db m d j k
    → In safe config.safes
    → Matches safe m d
    → ((n : GnosisSafeDeposit)
        → In n db.gnosis_safe_deposits
        → n.expected_mc_mint_tx_nonce_hex ≡ d.expected_mc_mint_tx_nonce_hex
        → n ≡ d)
    → ((s : AuditedSafeConfig)
        → In s config.safes
        → addr_eq s.safe_addr d.safe_addr ≡ true
        → s ≡ safe)
    → try_match_mint_with_deposit m config db ≡ (ok d, with_pair j k db)
unfolding existing_match_of_mint get_audited_safe_config_by_safe_addr
try_match_mint_succeeds config safe m d db j k o audited belong only only_safe =
    mint_is_matched config m db _ d (record {
      mint_id = j;
      keyed = o.mint_keyed;
      unmatched = joined_free db _ db.audited_mints o.free_mint;
      found = deposit_found db m d j k o belong.nonce only;
      safe = safe;
      audited =
          find-only _ config.safes safe (addr_eq_sym _ _ belong.safe) audited
            (λ s i passes. only_safe s i passes);
      matches = belong;
      deposit_id = k;
      saved = o.deposit_keyed;
      mint_exists = mint_there db m d j k o belong.nonce;
      deposit_exists = deposit_there db m d j k o belong.nonce;
      recorded = refl;
    })
