-- ===== src/Audit/Mint/Outcome.antt =====
-- How an attempt to match a deposit or a mint ends, on every branch.
use reserve_auditor.Prelude.{
  ℕ, true, none, some, [], ◌∷◌, ◌++◌, ◌≡◌, ◌≢◌, refl, ap, inl, inr, arith, Option-cases, Bool-cases,
  next_key, All, All-find,
}
use reserve_auditor.Result.{Result, ok, err, panic}
use reserve_auditor.Error.{Error}
use reserve_auditor.Gnosis.Types.{addr_eq}
use reserve_auditor.Gnosis.Config.{AuditedSafeConfig}
use reserve_auditor.Db.Models.{Db, Counters, MintTx, GnosisSafeDeposit}
use reserve_auditor.Db.Monad.Outcome.{Outcome, Ends, Outcome-transaction}
use reserve_auditor.Db.Counters.{num_unexpected_errors_matching_deposits_to_mints}
use reserve_auditor.Db.Counters.Laws.{inc-no_panic}
use reserve_auditor.Prelude.Text.{Text}
use reserve_auditor.Db.MintTxs.{is_some, find_unaudited_mint_tx_by_nonce}
use reserve_auditor.Audit.Counting.{Counted, counted-Counted}
use reserve_auditor.Audit.Verify.{Matches, verify_iff, verify_mint_tx_matches_deposit}
use reserve_auditor.Audit.Mint.{
  audited_mint_key, mint_by_id, deposit_by_id, existing_match_of_deposit,
  associate_deposit_with_mint, deposit_to_mint, match_deposit, deposit_error_counter,
  try_match_deposit_with_mint,
}

-- the database with one more audited mint
abbrev pub with_pair : ℕ → ℕ → Db → Db
with_pair mint_tx_id deposit_id db = record db {
  audited_mints =
      db.audited_mints
      ++ record {
        id = some (next_key audited_mint_key db.audited_mints);
        mint_tx_id = mint_tx_id;
        gnosis_safe_deposit_id = deposit_id;
      }
        ∷ [];
}

-- A deposit and a mint were found to belong together and recorded: neither was in the audit table
-- before, both are in their tables, and nothing else changed.
pub record DepositMatched (config : AuditedSafeConfig) (d : GnosisSafeDeposit) (db : Db)
    (m : MintTx) (db' : Db) : Type 0 where
  pub deposit_id : ℕ
  pub saved : d.id ≡ some deposit_id
  pub unmatched : existing_match_of_deposit deposit_id db ≡ none
  pub found : find_unaudited_mint_tx_by_nonce d.expected_mc_mint_tx_nonce_hex db ≡ some m
  pub matches : Matches config m d
  pub mint_id : ℕ
  pub keyed : m.id ≡ some mint_id
  pub mint_exists : is_some (mint_by_id mint_id db) ≡ true
  pub deposit_exists : is_some (deposit_by_id deposit_id db) ≡ true
  pub recorded : db' ≡ with_pair mint_id deposit_id db

pub associate-ok :
    (k j : ℕ) (db db' : Db)
    → associate_deposit_with_mint k j db ≡ (ok tt, db')
    → (is_some (mint_by_id j db) ≡ true)
      × (is_some (deposit_by_id k db) ≡ true)
      × (db' ≡ with_pair j k db)
unfolding associate_deposit_with_mint
associate-ok k j db db' h = ground arith

-- the parts of a success inside the transaction
to_mint-ok :
    (d : GnosisSafeDeposit) (c : AuditedSafeConfig) (k : ℕ) (db db' : Db) (m : MintTx)
    → d.id ≡ some k
    → deposit_to_mint d c k db ≡ (ok m, db')
    → DepositMatched c d db m db'
unfolding deposit_to_mint
to_mint-ok d c k db db' m saved h = elim (Option-cases (existing_match_of_deposit k db)) [
  | inr (r, e) ↦ ground arith
  | inl e ↦
      elim (Option-cases (find_unaudited_mint_tx_by_nonce d.expected_mc_mint_tx_nonce_hex db)) [
        | inl f ↦ ground arith
        | inr (n, f) ↦ elim (Option-cases n.id) [
          | inl i ↦ ground arith
          | inr (j, i) ↦
              let n_is : n ≡ m = ground arith in
              let parts = associate-ok k j db db' (ground arith) in
              record {
                deposit_id = k;
                saved = saved;
                unmatched = e;
                found = rw (← n_is) f;
                matches = rw (← n_is) ((verify_iff n d c).0 (ground arith));
                mint_id = j;
                keyed = rw (← n_is) i;
                mint_exists = parts.0;
                deposit_exists = parts.1;
                recorded = parts.2;
              }
        ]
      ]
]

-- Every row of `mint_txs` has its key.
abbrev pub MintsAreKeyed : Db → Type 0
MintsAreKeyed db = All (λ m. is_some m.id ≡ true) db.mint_txs

pub verify-no_panic :
    (m : MintTx) (d : GnosisSafeDeposit) (c : AuditedSafeConfig)
    → verify_mint_tx_matches_deposit m d c ≢ panic
unfolding verify_mint_tx_matches_deposit
verify-no_panic m d c = ground arith

pub associate-no_panic : (k j : ℕ) (db : Db) → (associate_deposit_with_mint k j db).0 ≢ panic
unfolding associate_deposit_with_mint
associate-no_panic k j db = ground arith

found-keyed :
    (nonce : Text) (db : Db) (m : MintTx)
    → MintsAreKeyed db
    → find_unaudited_mint_tx_by_nonce nonce db ≡ some m
    → is_some m.id ≡ true
unfolding find_unaudited_mint_tx_by_nonce
found-keyed nonce db m h e = All-find (λ m. is_some m.id ≡ true) _ db.mint_txs h e

to_mint-no_panic :
    (d : GnosisSafeDeposit) (c : AuditedSafeConfig) (k : ℕ) (db : Db)
    → MintsAreKeyed db
    → (deposit_to_mint d c k db).0 ≢ panic
unfolding deposit_to_mint
to_mint-no_panic d c k db h =
    elim (Option-cases (find_unaudited_mint_tx_by_nonce d.expected_mc_mint_tx_nonce_hex db)) [
      | inl f ↦ ground (arith, inc-no_panic num_unexpected_errors_matching_deposits_to_mints db)
      | inr (n, f) ↦ elim (Option-cases n.id) [
        | inl i ↦ ground (arith, found-keyed _ db n h f)
        | inr (j, i) ↦ ground (
          arith,
          inc-no_panic num_unexpected_errors_matching_deposits_to_mints db,
          verify-no_panic n d c,
          associate-no_panic k j db,
        )
      ]
    ]

to_mint-Ends :
    (d : GnosisSafeDeposit) (c : AuditedSafeConfig) (k : ℕ) (db : Db) (r : Result Error MintTx × Db)
    → d.id ≡ some k
    → MintsAreKeyed db
    → deposit_to_mint d c k db ≡ r
    → Ends (DepositMatched c d db) r
to_mint-Ends d c k db (ok m, db') saved h e = to_mint-ok d c k db db' m saved e
to_mint-Ends d c k db (err x, db') saved h e = tt
to_mint-Ends d c k db (panic, db') saved h e =
    to_mint-no_panic d c k db h (ap (λ (p : Result Error MintTx × Db). p.0) e)

-- Before the counting: a match is recorded, or nothing has changed.
pub match_deposit-Outcome :
    (d : GnosisSafeDeposit) (c : AuditedSafeConfig) (db : Db)
    → MintsAreKeyed db
    → Outcome (DepositMatched c d db) db (match_deposit d c db)
unfolding match_deposit
match_deposit-Outcome d c db h = elim (Option-cases d.id) [
  | inl e ↦ simp e refl
  | inr (k, e) ↦ elim (Bool-cases (addr_eq d.safe_addr c.safe_addr)) [
    | inr other_safe ↦ simp (e, other_safe) refl
    | inl same ↦
        simp (e, same)
          (Outcome-transaction (DepositMatched c d db) (deposit_to_mint d c k) db
            (to_mint-Ends d c k db _ e h refl))
  ]
]

-- Where there is one counters row, an attempt to match a deposit never panics if every mint has its
-- key. It ends in one of two ways: the mint that it returns belongs to the deposit, neither was in
-- the audit table, and the pair is now recorded there, with nothing else changed; or it fails, has
-- added one to the counter of its error, and has changed nothing else (what an error counted inside
-- the transaction is taken back with it).
pub try_match_deposit_lem :
    (d : GnosisSafeDeposit) (c : AuditedSafeConfig) (db : Db) (counters : Counters)
    → db.counters ≡ counters ∷ []
    → MintsAreKeyed db
    → Counted
        (DepositMatched c d db)
        deposit_error_counter
        db
        counters
        (try_match_deposit_with_mint d c db)
unfolding try_match_deposit_with_mint
try_match_deposit_lem d c db counters one h =
    counted-Counted (DepositMatched c d db) deposit_error_counter (match_deposit d c) db counters
      one (match_deposit-Outcome d c db h)
