-- ===== src/Db/Deposits/Insertion.antt =====
-- What an insertion into `gnosis_safe_deposits` does.
use reserve_auditor.Prelude.{
  some, [], ◌∷◌, ◌++◌, ◌≡◌, ◌⊎◌, refl, inl, inr, Bool-cases, any, next_key,
}
use reserve_auditor.Prelude.Text.{text_eq}
use reserve_auditor.Result.{ok, err}
use reserve_auditor.Error.{Error, from_diesel, DieselError}
use reserve_auditor.Gnosis.Types.{Hex, hash_eq, hash_to_string}
use reserve_auditor.Db.Models.{Db, GnosisSafeDeposit}
use reserve_auditor.Db.MintTxs.{is_some}
use reserve_auditor.Db.Deposits.{deposit_key, insert_deposit}

-- the row with its key
abbrev pub keyed_deposit : GnosisSafeDeposit → Db → GnosisSafeDeposit
keyed_deposit d db = record d { id = some (next_key deposit_key db.gnosis_safe_deposits) }

abbrev pub with_deposit : GnosisSafeDeposit → Db → Db
with_deposit d db = record db {
  gnosis_safe_deposits = db.gnosis_safe_deposits ++ keyed_deposit d db ∷ [];
}

-- An insertion adds the row under a new key, or fails and changes nothing.
pub insert_deposit_cases :
    (hex : Hex) (d : GnosisSafeDeposit) (db : Db)
    → (insert_deposit hex d db ≡ (ok (keyed_deposit d db), with_deposit d db))
      ⊎ ((e : Error) × (insert_deposit hex d db ≡ (err e, db)))
unfolding insert_deposit
insert_deposit_cases hex d db = elim (Bool-cases (is_some d.id)) [
  | inl saved ↦ inr (Error.already_exists, rw saved refl)
  | inr fresh ↦
      elim (Bool-cases (any (λ r. hash_eq r.eth_tx_hash d.eth_tx_hash) db.gnosis_safe_deposits)) [
        | inl taken ↦ inr (from_diesel DieselError.unique_violation, rw (fresh, taken) refl)
        | inr free ↦
            elim (Bool-cases (
              any (λ t. text_eq t.eth_tx_hash (hash_to_string hex d.eth_tx_hash))
                db.gnosis_safe_txs)) [
                  | inl there ↦ inl (rw (fresh, free, there) refl)
                  | inr missing ↦ inr (
                    from_diesel DieselError.foreign_key_violation,
                    rw (fresh, free, missing) refl,
                  )
                ]
      ]
]
