-- ===== src/Db/Withdrawals/Insertion.antt =====
-- What an insertion into `gnosis_safe_withdrawals` does.
use reserve_auditor.Prelude.{
  some, [], ◌∷◌, ◌++◌, ◌≡◌, ◌⊎◌, refl, inl, inr, Bool-cases, any, next_key,
}
use reserve_auditor.Prelude.Text.{text_eq}
use reserve_auditor.Result.{ok, err}
use reserve_auditor.Error.{Error, from_diesel, DieselError}
use reserve_auditor.Gnosis.Types.{Hex, hash_eq, hash_to_string}
use reserve_auditor.Db.Models.{Db, GnosisSafeWithdrawal}
use reserve_auditor.Db.MintTxs.{is_some}
use reserve_auditor.Db.Withdrawals.{withdrawal_key, insert_withdrawal}

-- the row with its key
abbrev pub keyed_withdrawal : GnosisSafeWithdrawal → Db → GnosisSafeWithdrawal
keyed_withdrawal d db = record d { id = some (next_key withdrawal_key db.gnosis_safe_withdrawals) }

abbrev pub with_withdrawal : GnosisSafeWithdrawal → Db → Db
with_withdrawal d db = record db {
  gnosis_safe_withdrawals = db.gnosis_safe_withdrawals ++ keyed_withdrawal d db ∷ [];
}

-- An insertion adds the row under a new key, or fails and changes nothing.
pub insert_withdrawal_cases :
    (hex : Hex) (d : GnosisSafeWithdrawal) (db : Db)
    → (insert_withdrawal hex d db ≡ (ok (keyed_withdrawal d db), with_withdrawal d db))
      ⊎ ((e : Error) × (insert_withdrawal hex d db ≡ (err e, db)))
unfolding insert_withdrawal
insert_withdrawal_cases hex d db = elim (Bool-cases (is_some d.id)) [
  | inl saved ↦ inr (Error.already_exists, rw saved refl)
  | inr fresh ↦
      elim (Bool-cases
        (any (λ r. hash_eq r.eth_tx_hash d.eth_tx_hash) db.gnosis_safe_withdrawals)) [
          | inl taken ↦ inr (from_diesel DieselError.unique_violation, rw (fresh, taken) refl)
          | inr free ↦
              elim (Bool-cases (
                any (λ t. text_eq t.eth_tx_hash (hash_to_string hex d.eth_tx_hash))
                  db.gnosis_safe_txs)) [
                    | inl there ↦ inl (rw (fresh, free, there) refl)
                    | inr missing ↦ inr (
                      from_diesel DieselError.foreign_key_violation,
                      rw (fresh, free, missing) refl,
                    )
                  ]
        ]
]
