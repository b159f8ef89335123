-- ===== src/Audit/Burn/Complete.antt =====
-- When an attempt to match succeeds, in the words of the tables.
use reserve_auditor.Prelude.{
  ℕ, Bool, true, false, ==-refl, ◌≡◌, ◌∙◌, refl, sym, ap, some, none, [], ◌∷◌, List, any, is_id, In,
  any_flip, arith,
}
use reserve_auditor.Prelude.Text.{text_eq, text_eq_refl, eq_of_text_eq}
use reserve_auditor.Prelude.Members.{find-only, find-In_some}
use reserve_auditor.Result.{ok}
use reserve_auditor.Gnosis.Types.{addr_eq}
use reserve_auditor.Gnosis.Types.Laws.{addr_eq_sym}
use reserve_auditor.Gnosis.Config.{
  AuditedSafeConfig, GnosisSafeConfig, get_audited_safe_config_by_safe_addr,
}
use reserve_auditor.Db.Models.{Db, BurnTxOut, GnosisSafeWithdrawal, AuditedBurn}
use reserve_auditor.Db.MintTxs.{is_some}
use reserve_auditor.Db.BurnTxOuts.{find_unaudited_burn_tx_out_by_public_key}
use reserve_auditor.Db.Withdrawals.{find_unaudited_withdrawal_by_public_key}
use reserve_auditor.Audit.VerifyBurn.{Matches}
use reserve_auditor.Audit.Burn.{
  burn_by_id, withdrawal_by_id, existing_match_of_withdrawal, existing_match_of_burn, first_joined,
  try_match_withdrawal_with_burn, try_match_burn_with_withdrawal,
}
use reserve_auditor.Audit.Burn.Outcome.{with_pair}
use reserve_auditor.Audit.Burn.Ends.{BurnIsFree, WithdrawalIsFree}
use reserve_auditor.Audit.Burn.Succeeds.{withdrawal_is_matched, burn_is_matched}

-- Where no row passes, the search of the join finds nothing.
joined_free :
    (db : Db) (p : AuditedBurn → Bool) (rows : List AuditedBurn)
    → any p rows ≡ false
    → first_joined db p rows ≡ none
unfolding first_joined
joined_free db p [] h = refl
joined_free db p (a ∷ rows) h = ground (arith, joined_free db p rows)

module _ (db : Db) (m : BurnTxOut) (d : GnosisSafeWithdrawal) (j k : ℕ) where
  -- The burn `j` and the withdrawal `k` are in their tables and in no row of the audit table.
  pub record AreOpen : Type 0 where
    pub burn_row : In m db.burn_tx_outs
    pub burn_keyed : m.id ≡ some j
    pub withdrawal_row : In d db.gnosis_safe_withdrawals
    pub withdrawal_keyed : d.id ≡ some k
    pub free_burn : BurnIsFree j db
    pub free_withdrawal : WithdrawalIsFree k db

  module _ (o : AreOpen) (same : m.public_key_hex ≡ d.mc_tx_out_public_key_hex) where
    -- the query for an unaudited burn finds the only burn of the public key
    burn_found :
        ((n : BurnTxOut) → In n db.burn_tx_outs → n.public_key_hex ≡ m.public_key_hex → n ≡ m)
        → find_unaudited_burn_tx_out_by_public_key d.mc_tx_out_public_key_hex db ≡ some m
    unfolding find_unaudited_burn_tx_out_by_public_key
    burn_found only =
        let free : any (λ a. is_id a.burn_tx_out_id m.id) db.audited_burns ≡ false =
          rw o.burn_keyed (any_flip (λ a. a.burn_tx_out_id) j db.audited_burns ∙ o.free_burn) in
        let public_key : text_eq m.public_key_hex d.mc_tx_out_public_key_hex ≡ true =
          rw same (text_eq_refl _) in
        find-only _ db.burn_tx_outs m (ground arith) o.burn_row
          (λ n i passes. only n i (eq_of_text_eq _ _ (ground arith) ∙ sym same))

    withdrawal_found :
        ((n : GnosisSafeWithdrawal)
          → In n db.gnosis_safe_withdrawals
          → n.mc_tx_out_public_key_hex ≡ d.mc_tx_out_public_key_hex
          → n ≡ d)
        → find_unaudited_withdrawal_by_public_key m.public_key_hex db ≡ some d
    unfolding find_unaudited_withdrawal_by_public_key
    withdrawal_found only =
        let free : any (λ a. is_id a.gnosis_safe_withdrawal_id d.id) db.audited_burns ≡ false =
          rw o.withdrawal_keyed
            (any_flip (λ a. a.gnosis_safe_withdrawal_id) k db.audited_burns ∙ o.free_withdrawal) in
        let public_key : text_eq d.mc_tx_out_public_key_hex m.public_key_hex ≡ true =
          rw same (text_eq_refl _) in
        find-only _ db.gnosis_safe_withdrawals d (ground arith) o.withdrawal_row
          (λ n i passes. only n i (eq_of_text_eq _ _ (ground arith) ∙ same))

    burn_there : is_some (burn_by_id j db) ≡ true
    burn_there =
        let own : is_id j m.id ≡ true = rw o.burn_keyed (==-refl j) in
        let (n, e) = find-In_some (λ m. is_id j m.id) db.burn_tx_outs own o.burn_row in ap is_some e

    withdrawal_there : is_some (withdrawal_by_id k db) ≡ true
    withdrawal_there =
        let own : is_id k d.id ≡ true = rw o.withdrawal_keyed (==-refl k) in
        let (n, e) =
          find-In_some (λ d. is_id k d.id) db.gnosis_safe_withdrawals own o.withdrawal_row in
        ap is_some e

-- A withdrawal and a burn that belong together, and that are in their tables and in no row of the
-- audit table, are matched, where no other burn has the public key: the attempt for the withdrawal
-- returns the burn, adds a row with the pair to the audit table, and changes nothing else.
pub try_match_withdrawal_succeeds :
    (c : AuditedSafeConfig) (d : GnosisSafeWithdrawal) (m : BurnTxOut) (db : Db) (j k : ℕ)
    → AreOpen db m d j k
    → Matches c m d
    → ((n : BurnTxOut) → In n db.burn_tx_outs → n.public_key_hex ≡ m.public_key_hex → n ≡ m)
    → try_match_withdrawal_with_burn d c db ≡ (ok m, with_pair j k db)
unfolding existing_match_of_withdrawal
try_match_withdrawal_succeeds c d m db j k o belong only =
    withdrawal_is_matched c d db _ m (record {
      withdrawal_id = k;
      saved = o.withdrawal_keyed;
      unmatched = joined_free db _ db.audited_burns o.free_withdrawal;
      found = burn_found db m d j k o belong.public_key only;
      matches = belong;
      burn_id = j;
      keyed = o.burn_keyed;
      burn_exists = burn_there db m d j k o belong.public_key;
      withdrawal_exists = withdrawal_there db m d j k o belong.public_key;
      recorded = refl;
    })

-- A burn and a withdrawal that belong together in a safe of the configuration, and that are in
-- their tables and in no row of the audit table, are matched, where no other withdrawal names the
-- public key and no other safe has the address: the attempt for the burn returns the withdrawal,
-- adds a row with the pair to the audit table, and changes nothing else.
pub try_match_burn_succeeds :
    (config : GnosisSafeConfig) (safe : AuditedSafeConfig) (m : BurnTxOut)
    (d : GnosisSafeWithdrawal) (db : Db) (j k : ℕ)
    → AreOpen db m d j k
    → In safe config.safes
    → Matches safe m d
    → ((n : GnosisSafeWithdrawal)
        → In n db.gnosis_safe_withdrawals
        → n.mc_tx_out_public_key_hex ≡ d.mc_tx_out_public_key_hex
        → n ≡ d)
    → ((s : AuditedSafeConfig)
        → In s config.safes
        → addr_eq s.safe_addr d.safe_addr ≡ true
        → s ≡ safe)
    → try_match_burn_with_withdrawal m config db ≡ (ok d, with_pair j k db)
unfolding existing_match_of_burn get_audited_safe_config_by_safe_addr
try_match_burn_succeeds config safe m d db j k o audited belong only only_safe =
    burn_is_matched config m db _ d (record {
      burn_id = j;
      keyed = o.burn_keyed;
      unmatched = joined_free db _ db.audited_burns o.free_burn;
      found = withdrawal_found db m d j k o belong.public_key only;
      safe = safe;
      audited =
          find-only _ config.safes safe (addr_eq_sym _ _ belong.safe) audited
            (λ s i passes. only_safe s i passes);
      matches = belong;
      withdrawal_id = k;
      saved = o.withdrawal_keyed;
      burn_exists = burn_there db m d j k o belong.public_key;
      withdrawal_exists = withdrawal_there db m d j k o belong.public_key;
      recorded = refl;
    })
