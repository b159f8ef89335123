-- ===== src/System/Processing.antt =====
-- The Gnosis sync keeps the audit tables sound: what it hands on to the matching is the row that it
-- has just stored, in the safe that it audits.
use reserve_auditor.Prelude.{
  ⊤, ◌≡◌, ◌∙◌, sym, subst, some, List, [], ◌∷◌, inl, inr, Bool-cases, by_key, next_key,
  by_key-next_key, find-append_none, ==-refl, arith,
}
use reserve_auditor.Result.{Result, ok, err, panic, map_err}
use reserve_auditor.Error.{Error, gnosis}
use reserve_auditor.Gnosis.Error.{GnosisError}
use reserve_auditor.Gnosis.Types.{Hex, addr_eq}
use reserve_auditor.Gnosis.Config.{AuditedSafeConfig}
use reserve_auditor.Gnosis.Api.{
  EthereumTransfer, MultiSigTransaction, EthereumTransaction, Transaction, RawGnosisTransaction,
  Serde, multi_sig, ethereum, module_tx, decode,
}
use reserve_auditor.Gnosis.Parse.{parse_deposit, parse_withdrawal_with_pub_key_multi_sig_tx}
use reserve_auditor.Gnosis.Sync.{
  expect_ok, count_invalid_ethereum, or_unknown_token, store_deposit, process_deposit,
  process_transfer, process_eth_transaction, store_withdrawal, process_parsed,
  process_multi_sig_transaction, insert_raw_tx, process_decoded, decode_and_process, skip_processed,
  after_insert, process_steps, process_transaction, process_transactions,
}
use reserve_auditor.Db.Models.{Db, GnosisSafeDeposit, GnosisSafeWithdrawal}
use reserve_auditor.Db.Monad.{Sql, log_outcome, lift, atomic, ◌>>=◌}
use reserve_auditor.Db.Monad.Steps.{Keeps, Keeps-bind, Keeps-for_each, Keeps-atomic}
use reserve_auditor.Db.Counters.{
  inc, num_invalid_ethereum_transactions, num_invalid_multi_sig_transactions,
}
use reserve_auditor.Db.Deposits.{deposit_key}
use reserve_auditor.Db.Deposits.Insertion.{keyed_deposit, with_deposit}
use reserve_auditor.Db.Withdrawals.{withdrawal_key}
use reserve_auditor.Db.Withdrawals.Insertion.{keyed_withdrawal, with_withdrawal}
use reserve_auditor.Audit.Mint.Keeps.{IsStoredDeposit}
use reserve_auditor.Audit.Burn.Keeps.{IsStoredWithdrawal}

-- A row that was just added under its new key is found by it.
pub keyed-IsStoredDeposit :
    (d : GnosisSafeDeposit) (db : Db) → IsStoredDeposit (with_deposit d db) (keyed_deposit d db)
keyed-IsStoredDeposit d db k e =
    let key : next_key deposit_key db.gnosis_safe_deposits ≡ k = cc in
    subst
      (λ n.
        by_key deposit_key n (with_deposit d db).gnosis_safe_deposits ≡ some (keyed_deposit d db))
      key
      (find-append_none _ db.gnosis_safe_deposits (keyed_deposit d db ∷ [])
          (by_key-next_key deposit_key db.gnosis_safe_deposits)
        ∙ simp (==-refl (next_key deposit_key db.gnosis_safe_deposits)))

pub keyed-IsStoredWithdrawal :
    (w : GnosisSafeWithdrawal) (db : Db)
    → IsStoredWithdrawal (with_withdrawal w db) (keyed_withdrawal w db)
keyed-IsStoredWithdrawal w db k e =
    let key : next_key withdrawal_key db.gnosis_safe_withdrawals ≡ k = cc in
    subst
      (λ n.
        by_key withdrawal_key n (with_withdrawal w db).gnosis_safe_withdrawals
        ≡ some (keyed_withdrawal w db))
      key
      (find-append_none _ db.gnosis_safe_withdrawals (keyed_withdrawal w db ∷ [])
          (by_key-next_key withdrawal_key db.gnosis_safe_withdrawals)
        ∙ simp (==-refl (next_key withdrawal_key db.gnosis_safe_withdrawals)))

pub log_outcome-db : {A : Type 0} (m : Sql A) (db : Db) → (log_outcome m db).1 ≡ (m db).1
log_outcome-db m db = ground arith

-- what the wrappers make of a result leaves the database alone
module _ (P : Db → Type 0) where
  Keeps-or_unknown_token : (m : Sql ⊤) → Keeps P m → Keeps P (or_unknown_token m)
  Keeps-or_unknown_token m h db p =
      let same : (or_unknown_token m db).1 ≡ (m db).1 = ground arith in subst P (sym same) (h db p)

  Keeps-expect_ok : (m : Sql ⊤) → Keeps P m → Keeps P (expect_ok m)
  Keeps-expect_ok m h db p =
      let same : (expect_ok m db).1 ≡ (m db).1 = ground arith in subst P (sym same) (h db p)

-- what is asked of a property that the processing of a transaction keeps, once that is stored
pub record ProcessingKeeps (hex : Hex) (safe : AuditedSafeConfig) (P : Db → Type 0) : Type 0 where
  pub ethereum_counter : Keeps P (inc num_invalid_ethereum_transactions)
  pub multi_sig_counter : Keeps P (inc num_invalid_multi_sig_transactions)
  pub deposit : (d : GnosisSafeDeposit) → Keeps P (store_deposit hex safe d)
  pub withdrawal : (w : GnosisSafeWithdrawal) → Keeps P (store_withdrawal hex safe w)

module _ (hex : Hex) (safe : AuditedSafeConfig) (P : Db → Type 0)
    (keeps : ProcessingKeeps hex safe P) where
  count-Keeps : {A : Type 0} (r : Result GnosisError A) → Keeps P (count_invalid_ethereum r)
  count-Keeps (ok a) db p = p
  count-Keeps (err e) db p = keeps.ethereum_counter db p
  count-Keeps panic db p = p

  process_deposit-Keeps :
      (tx : EthereumTransaction) (t : EthereumTransfer) → Keeps P (process_deposit hex safe tx t)
  unfolding process_deposit
  process_deposit-Keeps tx t =
      let parsed = parse_deposit hex safe tx t in
      Keeps-bind P (count_invalid_ethereum parsed)
        (λ _. lift (map_err gnosis parsed) >>= store_deposit hex safe) (count-Keeps parsed)
        (λ _.
          Keeps-bind P (lift (map_err gnosis parsed)) (store_deposit hex safe) (λ db p. p)
            keeps.deposit)

  process_transfer-Keeps :
      (tx : EthereumTransaction) (t : EthereumTransfer) → Keeps P (process_transfer hex safe tx t)
  process_transfer-Keeps tx t db p = elim (Bool-cases (addr_eq t.to safe.safe_addr)) [
    | inl into ↦ rw into (process_deposit-Keeps tx t db p)
    | inr elsewhere ↦ rw elsewhere p
  ]

  eth-Keeps : (tx : EthereumTransaction) → Keeps P (process_eth_transaction hex safe tx)
  unfolding process_eth_transaction
  eth-Keeps tx =
      Keeps-for_each P (process_transfer hex safe tx) (process_transfer-Keeps tx) tx.transfers

  parsed-Keeps : (r : Result GnosisError GnosisSafeWithdrawal) → Keeps P (process_parsed hex safe r)
  parsed-Keeps (ok w) db p = keeps.withdrawal w db p
  parsed-Keeps (err e) db p = keeps.multi_sig_counter db p
  parsed-Keeps panic db p = p

  multi_sig-Keeps : (tx : MultiSigTransaction) → Keeps P (process_multi_sig_transaction hex safe tx)
  unfolding process_multi_sig_transaction
  multi_sig-Keeps tx db p = elim (Bool-cases (addr_eq tx.safe safe.safe_addr)) [
    | inl ours ↦
        rw ours (parsed-Keeps (parse_withdrawal_with_pub_key_multi_sig_tx hex safe tx) db p)
    | inr theirs ↦ rw theirs p
  ]

  module _ {Value : Type 0} (serde : Serde Value) where
    decoded-Keeps : (tx : Transaction Value) → Keeps P (process_decoded serde hex safe tx)
    unfolding process_decoded
    decoded-Keeps (ethereum tx) db p =
        Keeps-or_unknown_token P (process_eth_transaction hex safe tx) (eth-Keeps tx) db p
    decoded-Keeps (multi_sig tx) db p = multi_sig-Keeps tx db p
    decoded-Keeps (module_tx value) db p = p

    pub decode_and_process-Keeps :
        (tx : RawGnosisTransaction Value) → Keeps P (decode_and_process serde hex safe tx)
    decode_and_process-Keeps tx =
        Keeps-bind P (lift (map_err gnosis (decode serde hex tx))) (process_decoded serde hex safe)
          (λ db p. p) decoded-Keeps

    skip-Keeps : (e : Error) → Keeps P (skip_processed serde hex safe e)
    skip-Keeps e db p =
        let same : (skip_processed serde hex safe e db).1 ≡ db = ground arith in
        subst P (sym same) p

    after_insert-Keeps :
        (tx : RawGnosisTransaction Value) (r : Result Error ⊤)
        → Keeps P (after_insert serde hex safe tx r)
    after_insert-Keeps tx (ok _) db p = decode_and_process-Keeps tx db p
    after_insert-Keeps tx (err e) db p = skip-Keeps e db p
    after_insert-Keeps tx panic db p = p

    pub process_transaction-Keeps :
        (tx : RawGnosisTransaction Value)
        → Keeps P (insert_raw_tx serde hex tx)
        → Keeps P (process_transaction serde hex safe tx)
    unfolding process_steps
    process_transaction-Keeps tx h = Keeps-expect_ok P (atomic (process_steps serde hex safe tx)) (
        Keeps-atomic P (process_steps serde hex safe tx)
          (λ db p. after_insert-Keeps tx (insert_raw_tx serde hex tx db).0 _ (h db p)))

    pub process_transactions-Keeps :
        ((tx : RawGnosisTransaction Value) → Keeps P (insert_raw_tx serde hex tx))
        → (txs : List (RawGnosisTransaction Value))
        → Keeps P (process_transactions serde hex safe txs)
    unfolding process_transactions
    process_transactions-Keeps h =
        Keeps-for_each P (process_transaction serde hex safe)
          (λ tx. process_transaction-Keeps tx (h tx))
