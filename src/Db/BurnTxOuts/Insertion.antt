-- ===== src/Db/BurnTxOuts/Insertion.antt =====
-- What an insertion into `burn_tx_outs` does.
use reserve_auditor.Prelude.{
  some, [], ◌∷◌, ◌++◌, ◌≡◌, ◌⊎◌, refl, inl, inr, Bool-cases, any, next_key,
}
use reserve_auditor.Prelude.Text.{text_eq}
use reserve_auditor.Result.{ok, err}
use reserve_auditor.Error.{Error, from_diesel, DieselError}
use reserve_auditor.Db.Models.{Db, BurnTxOut}
use reserve_auditor.Db.MintTxs.{is_some}
use reserve_auditor.Db.BurnTxOuts.{burn_key, insert_burn}

-- the row with its key
abbrev pub keyed_burn : BurnTxOut → Db → BurnTxOut
keyed_burn b db = record b { id = some (next_key burn_key db.burn_tx_outs) }

abbrev pub with_burn : BurnTxOut → Db → Db
with_burn b db = record db { burn_tx_outs = db.burn_tx_outs ++ keyed_burn b db ∷ [] }

-- An insertion adds the row under a new key, or fails and changes nothing.
pub insert_burn_cases :
    (b : BurnTxOut) (db : Db)
    → (insert_burn b db ≡ (ok (keyed_burn b db), with_burn b db))
      ⊎ ((e : Error) × (insert_burn b db ≡ (err e, db)))
unfolding insert_burn
insert_burn_cases b db = elim (Bool-cases (is_some b.id)) [
  | inl saved ↦ inr (Error.already_exists, rw saved refl)
  | inr fresh ↦
      elim (Bool-cases (any (λ r. text_eq r.public_key_hex b.public_key_hex) db.burn_tx_outs)) [
        | inl taken ↦ inr (from_diesel DieselError.unique_violation, rw (fresh, taken) refl)
        | inr free ↦ inl (rw (fresh, free) refl)
      ]
]
