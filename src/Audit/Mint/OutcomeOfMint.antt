-- ===== src/Audit/Mint/OutcomeOfMint.antt =====
-- How an attempt to match a mint with a deposit ends, on every branch.
use reserve_auditor.Prelude.{
  ℕ, true, none, some, [], ◌∷◌, ◌≡◌, ◌≢◌, refl, ap, inl, inr, arith, Option-cases, All, All-find,
}
use reserve_auditor.Prelude.Text.{Text}
use reserve_auditor.Result.{Result, ok, err, panic}
use reserve_auditor.Error.{Error}
use reserve_auditor.Gnosis.Config.{
  AuditedSafeConfig, GnosisSafeConfig, get_audited_safe_config_by_safe_addr,
}
use reserve_auditor.Db.Models.{Db, Counters, MintTx, GnosisSafeDeposit}
use reserve_auditor.Db.Monad.Outcome.{Outcome, Ends, Outcome-transaction}
use reserve_auditor.Db.MintTxs.{is_some}
use reserve_auditor.Db.Deposits.{find_unaudited_deposit_by_nonce}
use reserve_auditor.Audit.Counting.{Counted, counted-Counted}
use reserve_auditor.Audit.Verify.{Matches, verify_iff}
use reserve_auditor.Audit.Mint.{
  mint_by_id, deposit_by_id, existing_match_of_mint, mint_to_deposit, match_mint,
  mint_error_counter, try_match_mint_with_deposit,
}
use reserve_auditor.Audit.Mint.Outcome.{
  with_pair, associate-ok, verify-no_panic, associate-no_panic,
}

-- A mint and a deposit were found to belong together, in one of the audited safes, and recorded:
-- neither was in the audit table before, both are in their tables, and nothing else changed.
pub record MintMatched (config : GnosisSafeConfig) (m : MintTx) (db : Db) (d : GnosisSafeDeposit)
    (db' : Db) : Type 0 where
  pub mint_id : ℕ
  pub keyed : m.id ≡ some mint_id
  pub unmatched : existing_match_of_mint mint_id db ≡ none
  pub found : find_unaudited_deposit_by_nonce m.nonce_hex db ≡ some d
  pub safe : AuditedSafeConfig
  pub audited : get_audited_safe_config_by_safe_addr config d.safe_addr ≡ some safe
  pub matches : Matches safe m d
  pub deposit_id : ℕ
  pub saved : d.id ≡ some deposit_id
  pub mint_exists : is_some (mint_by_id mint_id db) ≡ true
  pub deposit_exists : is_some (deposit_by_id deposit_id db) ≡ true
  pub recorded : db' ≡ with_pair mint_id deposit_id db

to_deposit-ok :
    (m : MintTx) (c : GnosisSafeConfig) (j : ℕ) (db db' : Db) (d : GnosisSafeDeposit)
    → m.id ≡ some j
    → mint_to_deposit m c j db ≡ (ok d, db')
    → MintMatched c m db d db'
unfolding mint_to_deposit
to_deposit-ok m c j db db' d keyed h = elim (Option-cases (existing_match_of_mint j db)) [
  | inr (r, e) ↦ ground arith
  | inl e ↦ elim (Option-cases (find_unaudited_deposit_by_nonce m.nonce_hex db)) [
    | inl f ↦ ground arith
    | inr (n, f) ↦ elim (Option-cases (get_audited_safe_config_by_safe_addr c n.safe_addr)) [
      | inl g ↦ ground arith
      | inr (s, g) ↦ elim (Option-cases n.id) [
        | inl i ↦ ground arith
        | inr (k, i) ↦
            let n_is : n ≡ d = ground arith in
            let parts = associate-ok k j db db' (ground arith) in
            record {
              mint_id = j;
              keyed = keyed;
              unmatched = e;
              found = rw (← n_is) f;
              safe = s;
              audited = rw (← n_is) g;
              matches = rw (← n_is) ((verify_iff m n s).0 (ground arith));
              deposit_id = k;
              saved = rw (← n_is) i;
              mint_exists = parts.0;
              deposit_exists = parts.1;
              recorded = parts.2;
            }
      ]
    ]
  ]
]

-- Every row of `gnosis_safe_deposits` has its key.
abbrev pub DepositsAreKeyed : Db → Type 0
DepositsAreKeyed db = All (λ d. is_some d.id ≡ true) db.gnosis_safe_deposits

found-keyed :
    (nonce : Text) (db : Db) (d : GnosisSafeDeposit)
    → DepositsAreKeyed db
    → find_unaudited_deposit_by_nonce nonce db ≡ some d
    → is_some d.id ≡ true
unfolding find_unaudited_deposit_by_nonce
found-keyed nonce db d h e = All-find (λ d. is_some d.id ≡ true) _ db.gnosis_safe_deposits h e

to_deposit-no_panic :
    (m : MintTx) (c : GnosisSafeConfig) (j : ℕ) (db : Db)
    → DepositsAreKeyed db
    → (mint_to_deposit m c j db).0 ≢ panic
unfolding mint_to_deposit
to_deposit-no_panic m c j db h =
    elim (Option-cases (find_unaudited_deposit_by_nonce m.nonce_hex db)) [
      | inl f ↦ ground arith
      | inr (n, f) ↦ elim (Option-cases (get_audited_safe_config_by_safe_addr c n.safe_addr)) [
        | inl g ↦ ground arith
        | inr (s, g) ↦ elim (Option-cases n.id) [
          | inl i ↦ ground (arith, found-keyed _ db n h f)
          | inr (k, i) ↦ ground (arith, verify-no_panic m n s, associate-no_panic k j db)
        ]
      ]
    ]

to_deposit-Ends :
    (m : MintTx) (c : GnosisSafeConfig) (j : ℕ) (db : Db) (r : Result Error GnosisSafeDeposit × Db)
    → m.id ≡ some j
    → DepositsAreKeyed db
    → mint_to_deposit m c j db ≡ r
    → Ends (MintMatched c m db) r
to_deposit-Ends m c j db (ok d, db') keyed h e = to_deposit-ok m c j db db' d keyed e
to_deposit-Ends m c j db (err x, db') keyed h e = tt
to_deposit-Ends m c j db (panic, db') keyed h e =
    to_deposit-no_panic m c j db h (ap (λ (p : Result Error GnosisSafeDeposit × Db). p.0) e)

-- Before the counting: a match is recorded, or nothing has changed.
pub match_mint-Outcome :
    (m : MintTx) (c : GnosisSafeConfig) (db : Db)
    → DepositsAreKeyed db
    → Outcome (MintMatched c m db) db (match_mint m c db)
unfolding match_mint
match_mint-Outcome m c db h = elim (Option-cases m.id) [
  | inl e ↦ simp e refl
  | inr (j, e) ↦ simp e (
      Outcome-transaction (MintMatched c m db) (mint_to_deposit m c j) db
        (to_deposit-Ends m c j db _ e h refl))
]

-- Where there is one counters row, an attempt to match a mint never panics if every deposit has its
-- key. It ends in one of two ways: the deposit that it returns belongs to the mint, in one of the
-- audited safes, neither was in the audit table, and the pair is now recorded there, with nothing
-- else changed; or it fails, has added one to the counter of its error, and has changed nothing
-- else.
pub try_match_mint_lem :
    (m : MintTx) (c : GnosisSafeConfig) (db : Db) (counters : Counters)
    → db.counters ≡ counters ∷ []
    → DepositsAreKeyed db
    → Counted
        (MintMatched c m db)
        mint_error_counter
        db
        counters
        (try_match_mint_with_deposit m c db)
unfolding try_match_mint_with_deposit
try_match_mint_lem m c db counters one h =
    counted-Counted (MintMatched c m db) mint_error_counter (match_mint m c) db counters one
      (match_mint-Outcome m c db h)
