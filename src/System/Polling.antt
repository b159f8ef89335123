-- ===== src/System/Polling.antt =====
-- What the processing of a list of transactions keeps: the audit tables are sound, and what is
-- stored of the safe's transactions stays stored.
use reserve_auditor.Prelude.{
  ⊤, ◌≡◌, ◌∙◌, sym, ap, subst, true, ◌||◌, List, ◌++◌, inl, inr, In, any, any-append, Bool-cases,
}
use reserve_auditor.Prelude.Text.{Text, text_eq}
use reserve_auditor.Result.{Result, map_err}
use reserve_auditor.Error.{Error, gnosis}
use reserve_auditor.Gnosis.Types.{Hex, hash_to_string}
use reserve_auditor.Gnosis.Config.{AuditedSafeConfig, GnosisSafeConfig}
use reserve_auditor.Gnosis.Api.{RawGnosisTransaction, Serde, tx_hash, to_json_string}
use reserve_auditor.Gnosis.Sync.{
  store_deposit, store_withdrawal, insert_raw_tx, process_transaction, process_transactions,
}
use reserve_auditor.Db.Models.{
  Db, MintTx, BurnTxOut, GnosisSafeDeposit, GnosisSafeWithdrawal, GnosisSafeTx,
}
use reserve_auditor.Db.Monad.{Sql, log_outcome, lift}
use reserve_auditor.Db.Monad.Steps.{Keeps, Keeps-bind, holds_after_ok, holds_after_err}
use reserve_auditor.Db.Counters.{
  CounterName, inc, num_invalid_ethereum_transactions, num_invalid_multi_sig_transactions,
}
use reserve_auditor.Db.Counters.Laws.{inc_lem}
use reserve_auditor.Db.Deposits.{insert_deposit, insert_safe_tx}
use reserve_auditor.Db.Deposits.Insertion.{keyed_deposit, with_deposit, insert_deposit_cases}
use reserve_auditor.Db.Withdrawals.{insert_withdrawal}
use reserve_auditor.Db.Withdrawals.Insertion.{
  keyed_withdrawal, with_withdrawal, insert_withdrawal_cases,
}
use reserve_auditor.Audit.Mint.{deposit_error_counter, try_match_deposit_with_mint}
use reserve_auditor.Audit.Burn.{withdrawal_error_counter, try_match_withdrawal_with_burn}
use reserve_auditor.Audit.Mint.Outcome.{DepositMatched, try_match_deposit_lem}
use reserve_auditor.Audit.Burn.Outcome.{WithdrawalMatched, try_match_withdrawal_lem}
use reserve_auditor.Audit.Mint.Keeps.{keyed_of_own}
use reserve_auditor.Audit.Burn.Keeps as Burns
use reserve_auditor.System.Kept.{
  AuditIsSound, AuditIsSound-core, safe_tx_core, deposit-AuditIsSound, withdrawal-AuditIsSound,
  inc-AuditIsSound,
}
use reserve_auditor.System.Matching.{
  counted-rest, match_deposit-AuditIsSound, match_withdrawal-AuditIsSound,
}
use reserve_auditor.System.Processing.{
  ProcessingKeeps, log_outcome-db, keyed-IsStoredDeposit, keyed-IsStoredWithdrawal,
  process_transaction-Keeps, process_transactions-Keeps,
}

-- a transaction with this hash is stored
abbrev pub Stored : Text → List GnosisSafeTx → Type 0
Stored k txs = any (λ t. text_eq t.eth_tx_hash k) txs ≡ true

-- the audit tables are sound, and the stored transactions have a property
abbrev pub SoundAnd : (List GnosisSafeTx → Type 0) → GnosisSafeConfig → Db → Type 0
SoundAnd Q config db = AuditIsSound config db × Q db.gnosis_safe_txs

module _ (Q : List GnosisSafeTx → Type 0) (hex : Hex) (config : GnosisSafeConfig)
    (safe : AuditedSafeConfig) (audited : In safe config.safes) where
  inc-SoundAnd : (n : CounterName) → Keeps (SoundAnd Q config) (inc n)
  inc-SoundAnd n db (h, q) = (inc-AuditIsSound config n db h, rw (inc_lem n db h.counters h.one) q)

  match_deposit-SoundAnd :
      (d : GnosisSafeDeposit) (db : Db)
      → SoundAnd Q config (with_deposit d db)
      → SoundAnd Q config
          (try_match_deposit_with_mint (keyed_deposit d db) safe (with_deposit d db)).1
  match_deposit-SoundAnd d db (h, q) = (
    match_deposit-AuditIsSound config (with_deposit d db) safe (keyed_deposit d db) audited
        (keyed-IsStoredDeposit d db) h,
    counted-rest config (λ db'. Q db'.gnosis_safe_txs)
        (DepositMatched safe (keyed_deposit d db) (with_deposit d db)) deposit_error_counter
        (with_deposit d db) h.counters _ (λ n. q) (λ m db' w. rw w.recorded q)
        (try_match_deposit_lem (keyed_deposit d db) safe (with_deposit d db) h.counters h.one
          (keyed_of_own (with_deposit d db) h.mints.mints)),
  )

  store_deposit-SoundAnd :
      (d : GnosisSafeDeposit) → Keeps (SoundAnd Q config) (store_deposit hex safe d)
  unfolding store_deposit
  store_deposit-SoundAnd d db (h, q) =
      let kept = deposit-AuditIsSound config hex d db h in
      let next : GnosisSafeDeposit → Sql ⊤ =
        λ row. log_outcome (try_match_deposit_with_mint row safe) in
      elim (insert_deposit_cases hex d db) [
        | inl stored ↦
            let added =
              subst (λ (r : Result Error GnosisSafeDeposit × Db). AuditIsSound config r.1) stored
                kept in
            let same : (next (keyed_deposit d db) (with_deposit d db)).1
                ≡ (try_match_deposit_with_mint (keyed_deposit d db) safe (with_deposit d db)).1 =
              log_outcome-db {A = MintTx} (try_match_deposit_with_mint (keyed_deposit d db) safe)
                (with_deposit d db) in
            holds_after_ok (SoundAnd Q config) (insert_deposit hex d) next db (with_deposit d db)
              (keyed_deposit d db) stored
              (subst (SoundAnd Q config) (sym same) (match_deposit-SoundAnd d db (added, q)))
        | inr (e, refused) ↦
            holds_after_err (SoundAnd Q config) (insert_deposit hex d) next db db e refused (h, q)
      ]

  match_withdrawal-SoundAnd :
      (w : GnosisSafeWithdrawal) (db : Db)
      → SoundAnd Q config (with_withdrawal w db)
      → SoundAnd Q config
          (try_match_withdrawal_with_burn (keyed_withdrawal w db) safe (with_withdrawal w db)).1
  match_withdrawal-SoundAnd w db (h, q) = (
    match_withdrawal-AuditIsSound config (with_withdrawal w db) safe (keyed_withdrawal w db) audited
        (keyed-IsStoredWithdrawal w db) h,
    counted-rest config (λ db'. Q db'.gnosis_safe_txs)
        (WithdrawalMatched safe (keyed_withdrawal w db) (with_withdrawal w db))
        withdrawal_error_counter (with_withdrawal w db) h.counters _ (λ n. q)
        (λ b db' p. rw p.recorded q)
        (try_match_withdrawal_lem (keyed_withdrawal w db) safe (with_withdrawal w db) h.counters
          h.one (Burns.keyed_of_own (with_withdrawal w db) h.burns.burns)),
  )

  store_withdrawal-SoundAnd :
      (w : GnosisSafeWithdrawal) → Keeps (SoundAnd Q config) (store_withdrawal hex safe w)
  unfolding store_withdrawal
  store_withdrawal-SoundAnd w db (h, q) =
      let kept = withdrawal-AuditIsSound config hex w db h in
      let next : GnosisSafeWithdrawal → Sql ⊤ =
        λ row. log_outcome (try_match_withdrawal_with_burn row safe) in
      elim (insert_withdrawal_cases hex w db) [
        | inl stored ↦
            let added =
              subst (λ (r : Result Error GnosisSafeWithdrawal × Db). AuditIsSound config r.1) stored
                kept in
            let same : (next (keyed_withdrawal w db) (with_withdrawal w db)).1
                ≡ (try_match_withdrawal_with_burn (keyed_withdrawal w db) safe
                    (with_withdrawal w db)).1 =
              log_outcome-db {A = BurnTxOut}
                (try_match_withdrawal_with_burn (keyed_withdrawal w db) safe)
                (with_withdrawal w db) in
            holds_after_ok (SoundAnd Q config) (insert_withdrawal hex w) next db
              (with_withdrawal w db) (keyed_withdrawal w db) stored
              (subst (SoundAnd Q config) (sym same) (match_withdrawal-SoundAnd w db (added, q)))
        | inr (e, refused) ↦
            holds_after_err (SoundAnd Q config) (insert_withdrawal hex w) next db db e refused
              (h, q)
      ]

  pub processing-SoundAnd : ProcessingKeeps hex safe (SoundAnd Q config)
  processing-SoundAnd = record {
    ethereum_counter = inc-SoundAnd num_invalid_ethereum_transactions;
    multi_sig_counter = inc-SoundAnd num_invalid_multi_sig_transactions;
    deposit = store_deposit-SoundAnd;
    withdrawal = store_withdrawal-SoundAnd;
  }

module _ (k : Text) where
  HasTx-append : (xs ys : List GnosisSafeTx) → Stored k xs → Stored k (xs ++ ys)
  HasTx-append xs ys h = any-append _ xs ys ∙ ap (λ b. b || any (λ t. text_eq t.eth_tx_hash k) ys) h

  insert_safe_tx-HasTx :
      (key json : Text) → Keeps (λ db. Stored k db.gnosis_safe_txs) (insert_safe_tx key json)
  unfolding insert_safe_tx
  insert_safe_tx-HasTx key json db h =
      elim (Bool-cases (any (λ t. text_eq t.eth_tx_hash key) db.gnosis_safe_txs)) [
        | inl there ↦ rw there h
        | inr absent ↦ rw absent (HasTx-append db.gnosis_safe_txs _ h)
      ]

-- with no more than soundness
abbrev Any : List GnosisSafeTx → Type 0
Any _ = ⊤

module _ {Value : Type 0} (serde : Serde Value) (hex : Hex) (config : GnosisSafeConfig)
    (safe : AuditedSafeConfig) (audited : In safe config.safes) where
  insert_raw-AuditIsSound :
      (tx : RawGnosisTransaction Value) → Keeps (AuditIsSound config) (insert_raw_tx serde hex tx)
  unfolding insert_raw_tx
  insert_raw-AuditIsSound tx =
      Keeps-bind (AuditIsSound config) (lift (map_err gnosis (tx_hash serde hex tx)))
        (λ hash. insert_safe_tx (hash_to_string hex hash) (to_json_string serde hex tx)) (λ db h. h)
        (λ hash db h. AuditIsSound-core config db _ (safe_tx_core config _ _ db) h)

  insert_raw-Stored :
      (k : Text) (tx : RawGnosisTransaction Value)
      → Keeps (λ db. Stored k db.gnosis_safe_txs) (insert_raw_tx serde hex tx)
  unfolding insert_raw_tx
  insert_raw-Stored k tx =
      Keeps-bind (λ db. Stored k db.gnosis_safe_txs) (lift (map_err gnosis (tx_hash serde hex tx)))
        (λ hash. insert_safe_tx (hash_to_string hex hash) (to_json_string serde hex tx)) (λ db h. h)
        (λ hash. insert_safe_tx-HasTx k (hash_to_string hex hash) (to_json_string serde hex tx))

  pub process_transaction-AuditIsSound :
      (tx : RawGnosisTransaction Value)
      → Keeps (AuditIsSound config) (process_transaction serde hex safe tx)
  process_transaction-AuditIsSound tx db h =
      (process_transaction-Keeps hex safe (SoundAnd Any config)
        (processing-SoundAnd Any hex config safe audited) serde tx
        (λ db h. (insert_raw-AuditIsSound tx db h.0, tt)) db (h, tt)).0

  -- Processing any list of transactions of a safe of the configuration keeps both audit tables
  -- sound, whatever is in the transactions and however their processing ends.
  pub process_transactions-AuditIsSound :
      (txs : List (RawGnosisTransaction Value)) (db : Db)
      → AuditIsSound config db
      → AuditIsSound config (process_transactions serde hex safe txs db).1
  process_transactions-AuditIsSound txs db h =
      (process_transactions-Keeps hex safe (SoundAnd Any config)
        (processing-SoundAnd Any hex config safe audited) serde
        (λ tx db h. (insert_raw-AuditIsSound tx db h.0, tt)) txs db (h, tt)).0

  pub process_transactions-Stored :
      (k : Text) (txs : List (RawGnosisTransaction Value))
      → Keeps (SoundAnd (Stored k) config) (process_transactions serde hex safe txs)
  process_transactions-Stored k txs =
      process_transactions-Keeps hex safe (SoundAnd (Stored k) config)
        (processing-SoundAnd (Stored k) hex config safe audited) serde
        (λ tx db h. (insert_raw-AuditIsSound tx db h.0, insert_raw-Stored k tx db h.1)) txs
