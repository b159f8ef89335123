-- ===== src/System/DepositTxs.antt =====
-- A new Ethereum transaction with a deposit of an audited token, and one with two of them
-- (src/gnosis/sync.rs).
use reserve_auditor.Prelude.{
  ⊤, ◌≡◌, ◌∙◌, refl, sym, ap, subst, true, false, none, List, [], ◌∷◌, ◌++◌, any, any-append, arith,
}
use reserve_auditor.Prelude.Text.{text_eq, text_eq_refl}
use reserve_auditor.Result.{ok, err, panic}
use reserve_auditor.Error.{already_exists}
use reserve_auditor.Gnosis.Types.{Hex, EthTxHash, addr_eq, hash_eq, hash_to_string}
use reserve_auditor.Gnosis.Config.{AuditedSafeConfig, GnosisSafeConfig}
use reserve_auditor.Gnosis.Api.{
  EthereumTransfer, EthereumTransaction, RawGnosisTransaction, Serde, to_json_string,
}
use reserve_auditor.Gnosis.Parse.{parse_deposit}
use reserve_auditor.Gnosis.Sync.{
  process_transfer, store_deposit, process_eth_transaction, process_steps, process_transaction,
}
use reserve_auditor.Db.Models.{Db, GnosisSafeDeposit}
use reserve_auditor.Db.Monad.{Sql, for_each, log_outcome}
use reserve_auditor.Db.Monad.Steps.{after_ok, after_err}
use reserve_auditor.Db.Deposits.{insert_deposit}
use reserve_auditor.Db.Deposits.Insertion.{keyed_deposit}
use reserve_auditor.Audit.Mint.{try_match_deposit_with_mint}
use reserve_auditor.System.Kept.{AuditIsSound, AuditIsSound-core}
use reserve_auditor.System.Again.{of_ok, Stored-with_tx}
use reserve_auditor.System.NewDeposits.{
  NewEthereumTx, opened, good_deposit, parsed_hash, refused_deposit, store_new, eth_steps,
}
use reserve_auditor.System.EthereumTxs.{of_err, pass_ok, fail_exists, into_safe}

-- there is no deposit of the transaction
abbrev pub NoDeposit : EthTxHash → List GnosisSafeDeposit → Type 0
NoDeposit hash ds = any (λ d. hash_eq d.eth_tx_hash hash) ds ≡ false

-- A transfer into the safe that can be read as a deposit.
pub record Deposits (hex : Hex) (safe : AuditedSafeConfig) (e : EthereumTransaction)
    (hash : EthTxHash) (t : EthereumTransfer) (d : GnosisSafeDeposit) : Type 0 where
  pub into : addr_eq t.to safe.safe_addr ≡ true
  pub parsed : parse_deposit hex safe e t ≡ ok d
  pub own : t.tx_hash ≡ hash

module _ (hex : Hex) (safe : AuditedSafeConfig) where
  deposit_hash :
      (e : EthereumTransaction) (hash : EthTxHash) (t : EthereumTransfer) (d : GnosisSafeDeposit)
      → Deposits hex safe e hash t d
      → (d.id ≡ none) × (d.eth_tx_hash ≡ hash)
  deposit_hash e hash t d p =
      let (new, own) = parsed_hash hex safe e t d p.parsed in (new, own ∙ p.own)

  -- the first transfer is stored
  transfer_stored :
      (config : GnosisSafeConfig) (e : EthereumTransaction) (hash : EthTxHash)
      (t : EthereumTransfer) (d : GnosisSafeDeposit) (db : Db)
      → AuditIsSound config db
      → Deposits hex safe e hash t d
      → NoDeposit hash db.gnosis_safe_deposits
      → any (λ r. text_eq r.eth_tx_hash (hash_to_string hex hash)) db.gnosis_safe_txs ≡ true
      → (db' : Db) × (process_transfer hex safe e t db ≡ (ok tt, db'))
        × (db'.gnosis_safe_deposits ≡ db.gnosis_safe_deposits ++ keyed_deposit d db ∷ [])
  transfer_stored config e hash t d db h p free there =
      let (new, same) = deposit_hash e hash t d p in
      let (db', stored, rows) =
        store_new hex safe config d db h new
          (subst (λ k. NoDeposit k db.gnosis_safe_deposits) (sym same) free)
          (subst
            (λ k. any (λ r. text_eq r.eth_tx_hash (hash_to_string hex k)) db.gnosis_safe_txs ≡ true)
            (sym same) there) in
      (
        db',
        into_safe hex safe e t db p.into ∙ good_deposit hex safe e t d db p.parsed ∙ stored,
        rows,
      )

  -- A transfer of a transaction that has a deposit is refused.
  transfer_refused :
      (e : EthereumTransaction) (hash : EthTxHash) (t : EthereumTransfer) (d : GnosisSafeDeposit)
      (db : Db)
      → Deposits hex safe e hash t d
      → any (λ r. hash_eq r.eth_tx_hash hash) db.gnosis_safe_deposits ≡ true
      → process_transfer hex safe e t db ≡ (err already_exists, db)
  unfolding store_deposit
  transfer_refused e hash t d db p taken =
      let (new, same) = deposit_hash e hash t d p in
      into_safe hex safe e t db p.into
      ∙ good_deposit hex safe e t d db p.parsed
      ∙ after_err (insert_deposit hex d) (λ row. log_outcome (try_match_deposit_with_mint row safe))
          db db already_exists
          (refused_deposit hex safe d db new (
            subst (λ k. any (λ r. hash_eq r.eth_tx_hash k) db.gnosis_safe_deposits ≡ true)
              (sym same) taken))

hash_taken :
    (hash : EthTxHash) (ds : List GnosisSafeDeposit) (d : GnosisSafeDeposit)
    → d.eth_tx_hash ≡ hash
    → any (λ r. hash_eq r.eth_tx_hash hash) (ds ++ d ∷ []) ≡ true
hash_taken hash ds d same =
    let own : hash_eq d.eth_tx_hash hash ≡ true = rw same (text_eq_refl hash.bytes) in
    any-append (λ (r : GnosisSafeDeposit). hash_eq r.eth_tx_hash hash) ds (d ∷ [])
    ∙ ground (arith, own)

module _ {Value : Type 0} (serde : Serde Value) (hex : Hex) (config : GnosisSafeConfig)
    (safe : AuditedSafeConfig) (db : Db) (sound : AuditIsSound config db)
    (tx : RawGnosisTransaction Value) (e : EthereumTransaction)
    (n : NewEthereumTx serde hex safe db tx e) (t : EthereumTransfer) (d : GnosisSafeDeposit)
    (first : Deposits hex safe e n.hash t d) (free : NoDeposit n.hash db.gnosis_safe_deposits) where
  abbrev start : Db
  start = opened serde hex safe db tx n.hash

  first_stored :
      (db' : Db) × (process_transfer hex safe e t start ≡ (ok tt, db'))
      × (db'.gnosis_safe_deposits ≡ db.gnosis_safe_deposits ++ keyed_deposit d db ∷ [])
  first_stored =
      transfer_stored hex safe config e n.hash t d start
        (AuditIsSound-core config db start refl sound) first free
        (Stored-with_tx serde hex safe (hash_to_string hex n.hash) (to_json_string serde hex tx) db)

  -- A new Ethereum transaction with one transfer, which moves an audited token into the safe and
  -- can be read as a deposit, is processed without an error, and exactly that deposit is added,
  -- where the audit tables are sound and there is no deposit of this hash.
  pub deposit_is_stored :
      e.transfers ≡ t ∷ []
      → (db' : Db) × (process_transaction serde hex safe tx db ≡ (ok tt, db'))
        × (db'.gnosis_safe_deposits ≡ db.gnosis_safe_deposits ++ keyed_deposit d db ∷ [])
  unfolding process_eth_transaction
  deposit_is_stored listed =
      let (db', stored, rows) = first_stored in
      let whole : process_eth_transaction hex safe e start ≡ (ok tt, db') =
        ap (λ ts. for_each (process_transfer hex safe e) ts start) listed
        ∙ after_ok (process_transfer hex safe e t) (λ _. for_each (process_transfer hex safe e) [])
            start db' tt stored in
      (
        db',
        of_ok (process_steps serde hex safe tx) db db' (
            eth_steps serde hex safe db tx e n
            ∙ pass_ok (process_eth_transaction hex safe e) start db' whole),
        rows,
      )

  -- A new Ethereum transaction whose first two transfers both move an audited token into the safe
  -- and can be read as deposits panics and leaves the database as it was, where the audit tables
  -- are sound and there is no deposit of this hash: the table has room for one deposit per hash.
  pub two_deposits_panic :
      (u : EthereumTransfer) (d' : GnosisSafeDeposit) (rest : List EthereumTransfer)
      → e.transfers ≡ t ∷ (u ∷ rest)
      → Deposits hex safe e n.hash u d'
      → process_transaction serde hex safe tx db ≡ (panic, db)
  unfolding process_eth_transaction
  two_deposits_panic u d' rest listed second =
      let (db', stored, rows) = first_stored in
      let (_, same) = deposit_hash hex safe e n.hash t d first in
      let taken : any (λ r. hash_eq r.eth_tx_hash n.hash) db'.gnosis_safe_deposits ≡ true =
        ap (any (λ (r : GnosisSafeDeposit). hash_eq r.eth_tx_hash n.hash)) rows
        ∙ hash_taken n.hash db.gnosis_safe_deposits (keyed_deposit d db) same in
      let others : ⊤ → Sql ⊤ = λ _. for_each (process_transfer hex safe e) rest in
      let whole : process_eth_transaction hex safe e start ≡ (err already_exists, db') =
        ap (λ ts. for_each (process_transfer hex safe e) ts start) listed
        ∙ after_ok (process_transfer hex safe e t)
            (λ _. for_each (process_transfer hex safe e) (u ∷ rest)) start db' tt stored
        ∙ after_err (process_transfer hex safe e u) others db' db' already_exists
            (transfer_refused hex safe e n.hash u d' db' second taken) in
      of_err (process_steps serde hex safe tx) db db' already_exists (
        eth_steps serde hex safe db tx e n
        ∙ fail_exists (process_eth_transaction hex safe e) start db' whole)
