-- ===== src/Db/MintTxs/Insertion.antt =====
-- What an insertion into `mint_txs` does.
use reserve_auditor.Prelude.{
  some, [], ◌∷◌, ◌++◌, ◌≡◌, ◌⊎◌, refl, inl, inr, Bool-cases, any, next_key,
}
use reserve_auditor.Prelude.Text.{text_eq}
use reserve_auditor.Result.{ok, err}
use reserve_auditor.Error.{Error, from_diesel, DieselError}
use reserve_auditor.Db.Models.{Db, MintTx}
use reserve_auditor.Db.MintTxs.{mint_key, is_some, config_exists, insert_mint_tx}

-- the row with its key
abbrev pub keyed_mint : MintTx → Db → MintTx
keyed_mint m db = record m { id = some (next_key mint_key db.mint_txs) }

abbrev pub with_mint : MintTx → Db → Db
with_mint m db = record db { mint_txs = db.mint_txs ++ keyed_mint m db ∷ [] }

-- An insertion adds the row under a new key, or fails and changes nothing.
pub insert_mint_tx_cases :
    (m : MintTx) (db : Db)
    → (insert_mint_tx m db ≡ (ok (keyed_mint m db), with_mint m db))
      ⊎ ((e : Error) × (insert_mint_tx m db ≡ (err e, db)))
unfolding insert_mint_tx
insert_mint_tx_cases m db = elim (Bool-cases (is_some m.id)) [
  | inl saved ↦ inr (Error.already_exists, rw saved refl)
  | inr fresh ↦ elim (Bool-cases (any (λ r. text_eq r.nonce_hex m.nonce_hex) db.mint_txs)) [
    | inl taken ↦ inr (from_diesel DieselError.unique_violation, rw (fresh, taken) refl)
    | inr free ↦ elim (Bool-cases (config_exists m.mint_config_id db)) [
      | inl there ↦ inl (rw (fresh, free, there) refl)
      | inr missing ↦
          inr (from_diesel DieselError.foreign_key_violation, rw (fresh, free, missing) refl)
    ]
  ]
]
