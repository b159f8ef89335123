-- ===== src/Audit/Burn/OutcomeOfBurn.antt =====
-- How an attempt to match a burn with a withdrawal ends, on every branch.
use reserve_auditor.Prelude.{
  ℕ, true, none, some, [], ◌∷◌, ◌≡◌, ◌≢◌, refl, ap, inl, inr, arith, Option-cases, All, All-find,
}
use reserve_auditor.Prelude.Text.{Text}
use reserve_auditor.Result.{Result, ok, err, panic}
use reserve_auditor.Error.{Error}
use reserve_auditor.Gnosis.Config.{
  AuditedSafeConfig, GnosisSafeConfig, get_audited_safe_config_by_safe_addr,
}
use reserve_auditor.Db.Models.{Db, Counters, BurnTxOut, GnosisSafeWithdrawal}
use reserve_auditor.Db.Monad.Outcome.{Outcome, Ends, Outcome-transaction}
use reserve_auditor.Db.MintTxs.{is_some}
use reserve_auditor.Db.Withdrawals.{find_unaudited_withdrawal_by_public_key}
use reserve_auditor.Audit.Counting.{Counted, counted-Counted}
use reserve_auditor.Audit.VerifyBurn.{Matches, verify_burn_iff}
use reserve_auditor.Audit.Burn.{
  burn_by_id, withdrawal_by_id, existing_match_of_burn, burn_to_withdrawal, match_burn,
  burn_error_counter, try_match_burn_with_withdrawal,
}
use reserve_auditor.Audit.Burn.Outcome.{
  with_pair, associate_burn-ok, verify_burn-no_panic, associate_burn-no_panic,
}

-- A burn and a withdrawal were found to belong together, in one of the audited safes, and recorded:
-- neither was in the audit table before, both are in their tables, and nothing else changed.
pub record BurnMatched (config : GnosisSafeConfig) (m : BurnTxOut) (db : Db)
    (d : GnosisSafeWithdrawal) (db' : Db) : Type 0 where
  pub burn_id : ℕ
  pub keyed : m.id ≡ some burn_id
  pub unmatched : existing_match_of_burn burn_id db ≡ none
  pub found : find_unaudited_withdrawal_by_public_key m.public_key_hex db ≡ some d
  pub safe : AuditedSafeConfig
  pub audited : get_audited_safe_config_by_safe_addr config d.safe_addr ≡ some safe
  pub matches : Matches safe m d
  pub withdrawal_id : ℕ
  pub saved : d.id ≡ some withdrawal_id
  pub burn_exists : is_some (burn_by_id burn_id db) ≡ true
  pub withdrawal_exists : is_some (withdrawal_by_id withdrawal_id db) ≡ true
  pub recorded : db' ≡ with_pair burn_id withdrawal_id db

to_withdrawal-ok :
    (m : BurnTxOut) (c : GnosisSafeConfig) (j : ℕ) (db db' : Db) (d : GnosisSafeWithdrawal)
    → m.id ≡ some j
    → burn_to_withdrawal m c j db ≡ (ok d, db')
    → BurnMatched c m db d db'
unfolding burn_to_withdrawal
to_withdrawal-ok m c j db db' d keyed h = elim (Option-cases (existing_match_of_burn j db)) [
  | inr (r, e) ↦ ground arith
  | inl e ↦ elim (Option-cases (find_unaudited_withdrawal_by_public_key m.public_key_hex db)) [
    | inl f ↦ ground arith
    | inr (n, f) ↦ elim (Option-cases (get_audited_safe_config_by_safe_addr c n.safe_addr)) [
      | inl g ↦ ground arith
      | inr (s, g) ↦ elim (Option-cases n.id) [
        | inl i ↦ ground arith
        | inr (k, i) ↦
            let n_is : n ≡ d = ground arith in
            let parts = associate_burn-ok k j db db' (ground arith) in
            record {
              burn_id = j;
              keyed = keyed;
              unmatched = e;
              found = rw (← n_is) f;
              safe = s;
              audited = rw (← n_is) g;
              matches = rw (← n_is) ((verify_burn_iff m n s).0 (ground arith));
              withdrawal_id = k;
              saved = rw (← n_is) i;
              burn_exists = parts.0;
              withdrawal_exists = parts.1;
              recorded = parts.2;
            }
      ]
    ]
  ]
]

-- Every row of `gnosis_safe_withdrawals` has its key.
abbrev pub WithdrawalsAreKeyed : Db → Type 0
WithdrawalsAreKeyed db = All (λ d. is_some d.id ≡ true) db.gnosis_safe_withdrawals

found-keyed :
    (public_key : Text) (db : Db) (d : GnosisSafeWithdrawal)
    → WithdrawalsAreKeyed db
    → find_unaudited_withdrawal_by_public_key public_key db ≡ some d
    → is_some d.id ≡ true
unfolding find_unaudited_withdrawal_by_public_key
found-keyed public_key db d h e =
    All-find (λ d. is_some d.id ≡ true) _ db.gnosis_safe_withdrawals h e

to_withdrawal-no_panic :
    (m : BurnTxOut) (c : GnosisSafeConfig) (j : ℕ) (db : Db)
    → WithdrawalsAreKeyed db
    → (burn_to_withdrawal m c j db).0 ≢ panic
unfolding burn_to_withdrawal
to_withdrawal-no_panic m c j db h =
    elim (Option-cases (find_unaudited_withdrawal_by_public_key m.public_key_hex db)) [
      | inl f ↦ ground arith
      | inr (n, f) ↦ elim (Option-cases (get_audited_safe_config_by_safe_addr c n.safe_addr)) [
        | inl g ↦ ground arith
        | inr (s, g) ↦ elim (Option-cases n.id) [
          | inl i ↦ ground (arith, found-keyed _ db n h f)
          | inr (k, i) ↦ ground (arith, verify_burn-no_panic m n s, associate_burn-no_panic k j db)
        ]
      ]
    ]

to_withdrawal-Ends :
    (m : BurnTxOut) (c : GnosisSafeConfig) (j : ℕ) (db : Db)
    (r : Result Error GnosisSafeWithdrawal × Db)
    → m.id ≡ some j
    → WithdrawalsAreKeyed db
    → burn_to_withdrawal m c j db ≡ r
    → Ends (BurnMatched c m db) r
to_withdrawal-Ends m c j db (ok d, db') keyed h e = to_withdrawal-ok m c j db db' d keyed e
to_withdrawal-Ends m c j db (err x, db') keyed h e = tt
to_withdrawal-Ends m c j db (panic, db') keyed h e =
    to_withdrawal-no_panic m c j db h (ap (λ (p : Result Error GnosisSafeWithdrawal × Db). p.0) e)

-- Before the counting: a match is recorded, or nothing has changed.
pub match_burn-Outcome :
    (m : BurnTxOut) (c : GnosisSafeConfig) (db : Db)
    → WithdrawalsAreKeyed db
    → Outcome (BurnMatched c m db) db (match_burn m c db)
unfolding match_burn
match_burn-Outcome m c db h = elim (Option-cases m.id) [
  | inl e ↦ simp e refl
  | inr (j, e) ↦ simp e (
      Outcome-transaction (BurnMatched c m db) (burn_to_withdrawal m c j) db
        (to_withdrawal-Ends m c j db _ e h refl))
]

-- Where there is one counters row, an attempt to match a burn never panics if every withdrawal has
-- its key. It ends in one of two ways: the withdrawal that it returns belongs to the burn, in one
-- of the audited safes, neither was in the audit table, and the pair is now recorded there, with
-- nothing else changed; or it fails, has added one to the counter of its error, and has changed
-- nothing else.
pub try_match_burn_lem :
    (m : BurnTxOut) (c : GnosisSafeConfig) (db : Db) (counters : Counters)
    → db.counters ≡ counters ∷ []
    → WithdrawalsAreKeyed db
    → Counted
        (BurnMatched c m db)
        burn_error_counter
        db
        counters
        (try_match_burn_with_withdrawal m c db)
unfolding try_match_burn_with_withdrawal
try_match_burn_lem m c db counters one h =
    counted-Counted (BurnMatched c m db) burn_error_counter (match_burn m c) db counters one
      (match_burn-Outcome m c db h)
