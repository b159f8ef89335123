-- ===== src/Audit/Burn/Outcome.antt =====
-- How an attempt to match a withdrawal or a burn ends, on every branch.
use reserve_auditor.Prelude.{
  ℕ, true, none, some, [], ◌∷◌, ◌++◌, ◌≡◌, ◌≢◌, refl, ap, inl, inr, arith, Option-cases, Bool-cases,
  next_key, All, All-find,
}
use reserve_auditor.Result.{Result, ok, err, panic}
use reserve_auditor.Error.{Error}
use reserve_auditor.Gnosis.Types.{addr_eq}
use reserve_auditor.Gnosis.Config.{AuditedSafeConfig}
use reserve_auditor.Db.Models.{Db, Counters, BurnTxOut, GnosisSafeWithdrawal}
use reserve_auditor.Db.Monad.Outcome.{Outcome, Ends, Outcome-transaction}
use reserve_auditor.Prelude.Text.{Text}
use reserve_auditor.Db.MintTxs.{is_some}
use reserve_auditor.Db.BurnTxOuts.{find_unaudited_burn_tx_out_by_public_key}
use reserve_auditor.Audit.Counting.{Counted, counted-Counted}
use reserve_auditor.Audit.VerifyBurn.{
  Matches, verify_burn_iff, verify_burn_tx_out_matches_withdrawal,
}
use reserve_auditor.Audit.Burn.{
  audited_burn_key, burn_by_id, withdrawal_by_id, existing_match_of_withdrawal,
  associate_withdrawal_with_burn, withdrawal_to_burn, match_withdrawal, withdrawal_error_counter,
  try_match_withdrawal_with_burn,
}

-- the database with one more audited burn
abbrev pub with_pair : ℕ → ℕ → Db → Db
with_pair burn_tx_out_id withdrawal_id db = record db {
  audited_burns =
      db.audited_burns
      ++ record {
        id = some (next_key audited_burn_key db.audited_burns);
        burn_tx_out_id = burn_tx_out_id;
        gnosis_safe_withdrawal_id = withdrawal_id;
      }
        ∷ [];
}

-- A withdrawal and a burn were found to belong together and recorded: neither was in the audit
-- table before, both are in their tables, and nothing else changed.
pub record WithdrawalMatched (config : AuditedSafeConfig) (d : GnosisSafeWithdrawal) (db : Db)
    (m : BurnTxOut) (db' : Db) : Type 0 where
  pub withdrawal_id : ℕ
  pub saved : d.id ≡ some withdrawal_id
  pub unmatched : existing_match_of_withdrawal withdrawal_id db ≡ none
  pub found : find_unaudited_burn_tx_out_by_public_key d.mc_tx_out_public_key_hex db ≡ some m
  pub matches : Matches config m d
  pub burn_id : ℕ
  pub keyed : m.id ≡ some burn_id
  pub burn_exists : is_some (burn_by_id burn_id db) ≡ true
  pub withdrawal_exists : is_some (withdrawal_by_id withdrawal_id db) ≡ true
  pub recorded : db' ≡ with_pair burn_id withdrawal_id db

pub associate_burn-ok :
    (k j : ℕ) (db db' : Db)
    → associate_withdrawal_with_burn k j db ≡ (ok tt, db')
    → (is_some (burn_by_id j db) ≡ true)
      × (is_some (withdrawal_by_id k db) ≡ true)
      × (db' ≡ with_pair j k db)
unfolding associate_withdrawal_with_burn
associate_burn-ok k j db db' h = ground arith

-- the parts of a success inside the transaction
to_burn-ok :
    (d : GnosisSafeWithdrawal) (c : AuditedSafeConfig) (k : ℕ) (db db' : Db) (m : BurnTxOut)
    → d.id ≡ some k
    → withdrawal_to_burn d c k db ≡ (ok m, db')
    → WithdrawalMatched c d db m db'
unfolding withdrawal_to_burn
to_burn-ok d c k db db' m saved h = elim (Option-cases (existing_match_of_withdrawal k db)) [
  | inr (r, e) ↦ ground arith
  | inl e ↦
      elim (Option-cases (find_unaudited_burn_tx_out_by_public_key d.mc_tx_out_public_key_hex db)) [
        | inl f ↦ ground arith
        | inr (n, f) ↦ elim (Option-cases n.id) [
          | inl i ↦ ground arith
          | inr (j, i) ↦
              let n_is : n ≡ m = ground arith in
              let parts = associate_burn-ok k j db db' (ground arith) in
              record {
                withdrawal_id = k;
                saved = saved;
                unmatched = e;
                found = rw (← n_is) f;
                matches = rw (← n_is) ((verify_burn_iff n d c).0 (ground arith));
                burn_id = j;
                keyed = rw (← n_is) i;
                burn_exists = parts.0;
                withdrawal_exists = parts.1;
                recorded = parts.2;
              }
        ]
      ]
]

-- Every row of `burn_tx_outs` has its key.
abbrev pub BurnsAreKeyed : Db → Type 0
BurnsAreKeyed db = All (λ m. is_some m.id ≡ true) db.burn_tx_outs

pub verify_burn-no_panic :
    (m : BurnTxOut) (d : GnosisSafeWithdrawal) (c : AuditedSafeConfig)
    → verify_burn_tx_out_matches_withdrawal m d c ≢ panic
unfolding verify_burn_tx_out_matches_withdrawal
verify_burn-no_panic m d c = ground arith

pub associate_burn-no_panic :
    (k j : ℕ) (db : Db) → (associate_withdrawal_with_burn k j db).0 ≢ panic
unfolding associate_withdrawal_with_burn
associate_burn-no_panic k j db = ground arith

found-keyed :
    (public_key : Text) (db : Db) (m : BurnTxOut)
    → BurnsAreKeyed db
    → find_unaudited_burn_tx_out_by_public_key public_key db ≡ some m
    → is_some m.id ≡ true
unfolding find_unaudited_burn_tx_out_by_public_key
found-keyed public_key db m h e = All-find (λ m. is_some m.id ≡ true) _ db.burn_tx_outs h e

to_burn-no_panic :
    (d : GnosisSafeWithdrawal) (c : AuditedSafeConfig) (k : ℕ) (db : Db)
    → BurnsAreKeyed db
    → (withdrawal_to_burn d c k db).0 ≢ panic
unfolding withdrawal_to_burn
to_burn-no_panic d c k db h =
    elim (Option-cases (find_unaudited_burn_tx_out_by_public_key d.mc_tx_out_public_key_hex db)) [
      | inl f ↦ ground arith
      | inr (n, f) ↦ elim (Option-cases n.id) [
        | inl i ↦ ground (arith, found-keyed _ db n h f)
        | inr (j, i) ↦ ground (arith, verify_burn-no_panic n d c, associate_burn-no_panic k j db)
      ]
    ]

to_burn-Ends :
    (d : GnosisSafeWithdrawal) (c : AuditedSafeConfig) (k : ℕ) (db : Db)
    (r : Result Error BurnTxOut × Db)
    → d.id ≡ some k
    → BurnsAreKeyed db
    → withdrawal_to_burn d c k db ≡ r
    → Ends (WithdrawalMatched c d db) r
to_burn-Ends d c k db (ok m, db') saved h e = to_burn-ok d c k db db' m saved e
to_burn-Ends d c k db (err x, db') saved h e = tt
to_burn-Ends d c k db (panic, db') saved h e =
    to_burn-no_panic d c k db h (ap (λ (p : Result Error BurnTxOut × Db). p.0) e)

-- Before the counting: a match is recorded, or nothing has changed.
pub match_withdrawal-Outcome :
    (d : GnosisSafeWithdrawal) (c : AuditedSafeConfig) (db : Db)
    → BurnsAreKeyed db
    → Outcome (WithdrawalMatched c d db) db (match_withdrawal d c db)
unfolding match_withdrawal
match_withdrawal-Outcome d c db h = elim (Option-cases d.id) [
  | inl e ↦ simp e refl
  | inr (k, e) ↦ elim (Bool-cases (addr_eq d.safe_addr c.safe_addr)) [
    | inr other_safe ↦ simp (e, other_safe) refl
    | inl same ↦
        simp (e, same)
          (Outcome-transaction (WithdrawalMatched c d db) (withdrawal_to_burn d c k) db
            (to_burn-Ends d c k db _ e h refl))
  ]
]

-- Where there is one counters row, an attempt to match a withdrawal never panics if every burn has
-- its key. It ends in one of two ways: the burn that it returns belongs to the withdrawal, neither
-- was in the audit table, and the pair is now recorded there, with nothing else changed; or it
-- fails, has added one to the counter of its error, and has changed nothing else.
pub try_match_withdrawal_lem :
    (d : GnosisSafeWithdrawal) (c : AuditedSafeConfig) (db : Db) (counters : Counters)
    → db.counters ≡ counters ∷ []
    → BurnsAreKeyed db
    → Counted
        (WithdrawalMatched c d db)
        withdrawal_error_counter
        db
        counters
        (try_match_withdrawal_with_burn d c db)
unfolding try_match_withdrawal_with_burn
try_match_withdrawal_lem d c db counters one h =
    counted-Counted (WithdrawalMatched c d db) withdrawal_error_counter (match_withdrawal d c) db
      counters one (match_withdrawal-Outcome d c db h)
