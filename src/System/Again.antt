-- ===== src/System/Again.antt =====
-- The sync thread asks for all transactions of the safe again and again (src/gnosis/sync.rs,
-- `poll`): what is stored is passed over.
use reserve_auditor.Prelude.{
  ⊤, ◌≡◌, ◌∙◌, ◌⊎◌, refl, sym, ap, subst, false, List, [], ◌∷◌, ◌++◌, inl, inr, In, All, any,
  any-append, arith, Bool-cases,
}
use reserve_auditor.Prelude.Text.{Text, text_eq, text_eq_refl}
use reserve_auditor.Result.{Result, ok, err, panic}
use reserve_auditor.Error.{Error, gnosis}
use reserve_auditor.Gnosis.Error.{GnosisError}
use reserve_auditor.Gnosis.Types.{Hex, EthTxHash, hash_to_string}
use reserve_auditor.Gnosis.Config.{AuditedSafeConfig, GnosisSafeConfig}
use reserve_auditor.Gnosis.Api.{RawGnosisTransaction, Serde, tx_hash, to_json_string}
use reserve_auditor.Gnosis.Sync.{
  expect_ok, insert_raw_tx, decode_and_process, process_steps, process_transaction,
  process_transactions,
}
use reserve_auditor.Db.Models.{Db}
use reserve_auditor.Db.Monad.{Sql, atomic, for_each}
use reserve_auditor.Db.Monad.Steps.{passed, after_ok}
use reserve_auditor.Db.Deposits.{insert_safe_tx}
use reserve_auditor.System.Kept.{AuditIsSound, AuditIsSound-core}
use reserve_auditor.System.Processing.{decode_and_process-Keeps}
use reserve_auditor.System.Polling.{
  Stored, SoundAnd, processing-SoundAnd, process_transaction-AuditIsSound,
  process_transactions-Stored,
}

expect_ok_ok :
    (m : Sql ⊤) (db db' : Db) → expect_ok (atomic m) db ≡ (ok tt, db') → m db ≡ (ok tt, db')
unfolding atomic
expect_ok_ok m db db' h = ground arith

pub of_ok : (m : Sql ⊤) (db db' : Db) → m db ≡ (ok tt, db') → expect_ok (atomic m) db ≡ (ok tt, db')
unfolding atomic
of_ok m db db' h = ground arith

Result-cases :
    {E A : Type 0} (r : Result E A)
    → ((a : A) × (r ≡ ok a)) ⊎ (((e : E) × (r ≡ err e)) ⊎ (r ≡ panic))
Result-cases (ok a) = inl (a, refl)
Result-cases (err e) = inr (inl (e, refl))
Result-cases panic = inr (inr refl)

abbrev pub with_tx : Text → Text → Db → Db
with_tx k json db = record db {
  gnosis_safe_txs = db.gnosis_safe_txs ++ record { eth_tx_hash = k; raw_tx_json = json } ∷ [];
}

module _ {Value : Type 0} (serde : Serde Value) (hex : Hex) (safe : AuditedSafeConfig) where
  -- the transaction is stored, under the text of its hash
  abbrev pub IsStored : Db → RawGnosisTransaction Value → Type 0
  IsStored db tx =
      (hash : EthTxHash) × (tx_hash serde hex tx ≡ ok hash)
      × Stored (hash_to_string hex hash) db.gnosis_safe_txs

  present_already :
      (tx : RawGnosisTransaction Value) (db : Db) (hash : EthTxHash)
      → tx_hash serde hex tx ≡ ok hash
      → Stored (hash_to_string hex hash) db.gnosis_safe_txs
      → process_steps serde hex safe tx db ≡ (ok tt, db)
  unfolding process_steps insert_raw_tx insert_safe_tx
  present_already tx db hash known there = simp (known, there)

  -- A transaction that is stored is passed over: it is not an error, and nothing changes.
  pub passed_over :
      (tx : RawGnosisTransaction Value) (db : Db)
      → IsStored db tx
      → process_transaction serde hex safe tx db ≡ (ok tt, db)
  passed_over tx db (hash, known, there) =
      of_ok (process_steps serde hex safe tx) db db (present_already tx db hash known there)

  pub steps_fresh :
      (tx : RawGnosisTransaction Value) (db : Db) (hash : EthTxHash)
      → tx_hash serde hex tx ≡ ok hash
      → any (λ t. text_eq t.eth_tx_hash (hash_to_string hex hash)) db.gnosis_safe_txs ≡ false
      → process_steps serde hex safe tx db
        ≡ decode_and_process serde hex safe tx
            (with_tx (hash_to_string hex hash) (to_json_string serde hex tx) db)
  unfolding process_steps insert_raw_tx insert_safe_tx
  steps_fresh tx db hash known absent = simp (known, absent)

  steps_err :
      (tx : RawGnosisTransaction Value) (db : Db) (e : GnosisError)
      → tx_hash serde hex tx ≡ err e
      → process_steps serde hex safe tx db ≡ (err (gnosis e), db)
  unfolding process_steps insert_raw_tx
  steps_err tx db e h = simp h

  steps_panic :
      (tx : RawGnosisTransaction Value) (db : Db)
      → tx_hash serde hex tx ≡ panic
      → process_steps serde hex safe tx db ≡ (panic, db)
  unfolding process_steps insert_raw_tx
  steps_panic tx db h = simp h

  pub Stored-with_tx : (k json : Text) (db : Db) → Stored k (with_tx k json db).gnosis_safe_txs
  Stored-with_tx k json db = any-append _ db.gnosis_safe_txs _ ∙ ground (arith, text_eq_refl k)

  repassed :
      (txs : List (RawGnosisTransaction Value)) (db : Db)
      → All (IsStored db) txs
      → process_transactions serde hex safe txs db ≡ (ok tt, db)
  unfolding process_transactions
  repassed [] db h = refl
  repassed (tx ∷ txs) db h =
      after_ok (process_transaction serde hex safe tx)
        (λ _. for_each (process_transaction serde hex safe) txs) db db tt (passed_over tx db h.0)
      ∙ repassed txs db h.1

module _ {Value : Type 0} (serde : Serde Value) (hex : Hex) (config : GnosisSafeConfig)
    (safe : AuditedSafeConfig) (audited : In safe config.safes) where
  decoded-Stored :
      (tx : RawGnosisTransaction Value) (k json : Text) (db db' : Db)
      → AuditIsSound config db
      → decode_and_process serde hex safe tx (with_tx k json db) ≡ (ok tt, db')
      → Stored k db'.gnosis_safe_txs
  decoded-Stored tx k json db db' h e =
      subst (λ (r : Result Error ⊤ × Db). Stored k r.1.gnosis_safe_txs) e
        (decode_and_process-Keeps hex safe (SoundAnd (Stored k) config)
          (processing-SoundAnd (Stored k) hex config safe audited) serde tx (with_tx k json db)
          (
            AuditIsSound-core config db (with_tx k json db) refl h,
            Stored-with_tx serde hex safe k json db,
          )).1

  -- A transaction that was processed is stored.
  processed-IsStored :
      (tx : RawGnosisTransaction Value) (db db' : Db)
      → AuditIsSound config db
      → process_transaction serde hex safe tx db ≡ (ok tt, db')
      → IsStored serde hex safe db' tx
  processed-IsStored tx db db' h e =
      let steps = expect_ok_ok (process_steps serde hex safe tx) db db' e in
      elim (Result-cases (tx_hash serde hex tx)) [
        | inl (hash, known) ↦
            elim (Bool-cases
              (any (λ t. text_eq t.eth_tx_hash (hash_to_string hex hash)) db.gnosis_safe_txs)) [
                | inl there ↦
                    let same : db ≡ db' =
                      ap (λ (r : Result Error ⊤ × Db). r.1)
                        (sym (passed_over serde hex safe tx db (hash, known, there)) ∙ e) in
                    (
                      hash,
                      known,
                      subst (λ (d : Db). Stored (hash_to_string hex hash) d.gnosis_safe_txs) same
                          there,
                    )
                | inr absent ↦ (
                  hash,
                  known,
                  decoded-Stored tx (hash_to_string hex hash) (to_json_string serde hex tx) db db' h
                      (sym (steps_fresh serde hex safe tx db hash known absent) ∙ steps),
                )
              ]
        | inr (inl (x, unknown)) ↦
            let no : Path (Result Error ⊤ × Db) (err (gnosis x), db) (ok tt, db') =
              sym (steps_err serde hex safe tx db x unknown) ∙ steps in
            cc
        | inr (inr broken) ↦
            let no : Path (Result Error ⊤ × Db) (panic, db) (ok tt, db') =
              sym (steps_panic serde hex safe tx db broken) ∙ steps in
            cc
      ]

  run-IsStored :
      (txs : List (RawGnosisTransaction Value)) (db db' : Db)
      → AuditIsSound config db
      → process_transactions serde hex safe txs db ≡ (ok tt, db')
      → All (IsStored serde hex safe db') txs
  unfolding process_transactions
  run-IsStored [] db db' h e = tt
  run-IsStored (tx ∷ txs) db db' h e =
      let (_, db1, e1, e2) =
        passed (process_transaction serde hex safe tx)
          (λ _. for_each (process_transaction serde hex safe) txs) db e in
      let h1 : AuditIsSound config db1 =
        subst (λ (r : Result Error ⊤ × Db). AuditIsSound config r.1) e1
          (process_transaction-AuditIsSound serde hex config safe audited tx db h) in
      let (hash, known, there) = processed-IsStored tx db db1 h e1 in
      let kept =
        process_transactions-Stored serde hex config safe audited (hash_to_string hex hash) txs db1
          (h1, there) in
      (
        (
          hash,
          known,
          subst (λ (r : Result Error ⊤ × Db). Stored (hash_to_string hex hash) r.1.gnosis_safe_txs)
              e2 kept.1,
        ),
        run-IsStored txs db1 db' h1 e2,
      )

  -- Processing the same transactions of a safe of the configuration again changes nothing: when a
  -- run over them ended without a panic, from a database whose audit tables were sound, a second
  -- run over them from where the first one ended succeeds and leaves the database as it is.
  pub process_transactions_again :
      (txs : List (RawGnosisTransaction Value)) (db db' : Db)
      → AuditIsSound config db
      → process_transactions serde hex safe txs db ≡ (ok tt, db')
      → process_transactions serde hex safe txs db' ≡ (ok tt, db')
  process_transactions_again txs db db' h e =
      repassed serde hex safe txs db' (run-IsStored txs db db' h e)
