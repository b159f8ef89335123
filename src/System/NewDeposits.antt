-- ===== src/System/NewDeposits.antt =====
-- How the processing of an Ethereum transaction that is not stored before ends, by its transfers.
use reserve_auditor.Prelude.{
  ⊤, ◌≡◌, ◌≢◌, ◌∙◌, refl, sym, ap, subst, true, false, none, some, [], ◌∷◌, ◌++◌, any, arith,
}
use reserve_auditor.Prelude.Text.{text_eq}
use reserve_auditor.Result.{Result, ok, err, panic, map_err}
use reserve_auditor.Result.Inversion.{ok_or_ok, unwrap_ok, bind_ok, ok_injective}
use reserve_auditor.Error.{Error, gnosis, already_exists}
use reserve_auditor.Gnosis.Error.{GnosisError, unknown_token, api_result_parse}
use reserve_auditor.Gnosis.Types.{Hex, EthAddr, EthTxHash, hash_eq, hash_to_string}
use reserve_auditor.Gnosis.Config.{AuditedSafeConfig, GnosisSafeConfig}
use reserve_auditor.Gnosis.Api.{
  EthereumTransfer, EthereumTransaction, RawGnosisTransaction, Serde, ethereum, decode, tx_hash,
  to_json_string,
}
use reserve_auditor.Gnosis.Parse.{parse_deposit, token_of, truncated}
use reserve_auditor.Gnosis.Sync.{
  count_invalid_ethereum, or_unknown_token, store_deposit, process_deposit, process_eth_transaction,
  process_decoded, process_steps,
}
use reserve_auditor.Db.Models.{Db, Counters, MintTx, GnosisSafeDeposit}
use reserve_auditor.Db.Monad.{Sql, log_outcome, lift, ◌>>=◌, ◌>>◌}
use reserve_auditor.Db.Monad.Steps.{after_ok}
use reserve_auditor.Db.Counters.{CounterName, inc, bump, num_invalid_ethereum_transactions}
use reserve_auditor.Db.Counters.Laws.{inc_lem}
use reserve_auditor.Db.Deposits.{new_deposit, insert_deposit}
use reserve_auditor.Db.Deposits.Insertion.{keyed_deposit, with_deposit}
use reserve_auditor.Audit.Counting.{Counted}
use reserve_auditor.Audit.Mint.{deposit_error_counter, try_match_deposit_with_mint}
use reserve_auditor.Audit.Mint.Outcome.{DepositMatched, try_match_deposit_lem}
use reserve_auditor.Audit.Mint.Keeps.{keyed_of_own}
use reserve_auditor.System.Kept.{AuditIsSound, deposit-AuditIsSound}
use reserve_auditor.System.Matching.{counted-rest}
use reserve_auditor.System.Again.{with_tx, steps_fresh}

-- one more transaction that could not be read
abbrev pub with_invalid : Counters → Db → Db
with_invalid c db = record db { counters = bump num_invalid_ethereum_transactions c ∷ [] }

pub no_panic :
    {A : Type 0} (P : A → Db → Type 0) (n : Error → CounterName) (db : Db) (c : Counters)
    (r : Result Error A × Db)
    → Counted P n db c r
    → r.0 ≢ panic
no_panic P n db c (ok a, db') k = cc
no_panic P n db c (err e, db') k = cc
no_panic P n db c (panic, db') k = absurd k

pub log_outcome-no_panic :
    {A : Type 0} (m : Sql A) (db : Db) → (m db).0 ≢ panic → (log_outcome m db).0 ≢ panic
log_outcome-no_panic m db h = ground arith

module _ (hex : Hex) (safe : AuditedSafeConfig) where
  pub good_deposit :
      (e : EthereumTransaction) (t : EthereumTransfer) (d : GnosisSafeDeposit) (db : Db)
      → parse_deposit hex safe e t ≡ ok d
      → process_deposit hex safe e t db ≡ store_deposit hex safe d db
  unfolding process_deposit
  good_deposit e t d db h = simp h

  pub bad_deposit :
      (e : EthereumTransaction) (t : EthereumTransfer) (x : GnosisError) (db : Db) (c : Counters)
      → db.counters ≡ c ∷ []
      → parse_deposit hex safe e t ≡ err x
      → process_deposit hex safe e t db ≡ (err (gnosis x), with_invalid c db)
  unfolding process_deposit
  bad_deposit e t x db c one h =
      let body : Result GnosisError GnosisSafeDeposit → Sql ⊤ =
        λ r. count_invalid_ethereum r >> (lift (map_err gnosis r) >>= store_deposit hex safe) in
      let next : ⊤ → Sql ⊤ = λ _. lift (err (gnosis x)) >>= store_deposit hex safe in
      ap (λ r. body r db) h
      ∙ after_ok (inc num_invalid_ethereum_transactions) next db (with_invalid c db) tt
          (inc_lem num_invalid_ethereum_transactions db c one)

  pub no_token :
      (e : EthereumTransaction) (t : EthereumTransfer)
      → t.token_addr ≡ none
      → parse_deposit hex safe e t ≡ err api_result_parse
  unfolding parse_deposit
  no_token e t h = simp h

  pub foreign_token :
      (e : EthereumTransaction) (t : EthereumTransfer) (a : EthAddr)
      → t.token_addr ≡ some a
      → token_of safe a ≡ none
      → parse_deposit hex safe e t ≡ err unknown_token
  unfolding parse_deposit
  foreign_token e t a h k = simp (h, k)

  pub parsed_hash :
      (e : EthereumTransaction) (t : EthereumTransfer) (d : GnosisSafeDeposit)
      → parse_deposit hex safe e t ≡ ok d
      → (d.id ≡ none) × (d.eth_tx_hash ≡ t.tx_hash)
  unfolding parse_deposit new_deposit
  parsed_hash e t d h =
      let (a, _, h1) = ok_or_ok t.token_addr api_result_parse _ h in
      let (token, _, h2) = ok_or_ok (token_of safe a) unknown_token _ h1 in
      let (value, _, h3) = unwrap_ok t.value _ h2 in
      let (amount, _, h4) = bind_ok (truncated safe token value) _ h3 in
      let same = ok_injective _ d h4 in
      (
        ap (λ (d : GnosisSafeDeposit). d.id) (sym same),
        ap (λ (d : GnosisSafeDeposit). d.eth_tx_hash) (sym same),
      )

  pub stored_deposit :
      (d : GnosisSafeDeposit) (db : Db)
      → d.id ≡ none
      → any (λ r. hash_eq r.eth_tx_hash d.eth_tx_hash) db.gnosis_safe_deposits ≡ false
      → any (λ t. text_eq t.eth_tx_hash (hash_to_string hex d.eth_tx_hash)) db.gnosis_safe_txs
        ≡ true
      → insert_deposit hex d db ≡ (ok (keyed_deposit d db), with_deposit d db)
  unfolding insert_deposit
  stored_deposit d db new free there = rw (new, free, there) refl

  pub refused_deposit :
      (d : GnosisSafeDeposit) (db : Db)
      → d.id ≡ none
      → any (λ r. hash_eq r.eth_tx_hash d.eth_tx_hash) db.gnosis_safe_deposits ≡ true
      → insert_deposit hex d db ≡ (err already_exists, db)
  unfolding insert_deposit
  refused_deposit d db new taken = rw (new, taken) refl

  log_outcome-calm :
      {A : Type 0} (m : Sql A) (db : Db) → (m db).0 ≢ panic → log_outcome m db ≡ (ok tt, (m db).1)
  log_outcome-calm m db h = ground arith

  -- Where audit tables are sound, a new deposit is stored, and then matched or not.
  pub store_new :
      (config : GnosisSafeConfig) (d : GnosisSafeDeposit) (db : Db)
      → AuditIsSound config db
      → d.id ≡ none
      → any (λ r. hash_eq r.eth_tx_hash d.eth_tx_hash) db.gnosis_safe_deposits ≡ false
      → any (λ t. text_eq t.eth_tx_hash (hash_to_string hex d.eth_tx_hash)) db.gnosis_safe_txs
        ≡ true
      → (db' : Db) × (store_deposit hex safe d db ≡ (ok tt, db'))
        × (db'.gnosis_safe_deposits ≡ db.gnosis_safe_deposits ++ keyed_deposit d db ∷ [])
  unfolding store_deposit
  store_new config d db h new free there =
      let row = keyed_deposit d db in
      let db1 = with_deposit d db in
      let stored = stored_deposit d db new free there in
      let sound : AuditIsSound config db1 =
        subst (λ (r : Result Error GnosisSafeDeposit × Db). AuditIsSound config r.1) stored
          (deposit-AuditIsSound config hex d db h) in
      let matched : Counted (DepositMatched safe row db1) deposit_error_counter db1 sound.counters
          (try_match_deposit_with_mint row safe db1) =
        try_match_deposit_lem row safe db1 sound.counters sound.one
          (keyed_of_own db1 sound.mints.mints) in
      let next : GnosisSafeDeposit → Sql ⊤ =
        λ r. log_outcome (try_match_deposit_with_mint r safe) in
      (
        (try_match_deposit_with_mint row safe db1).1,
        after_ok (insert_deposit hex d) next db db1 row stored
            ∙ log_outcome-calm {A = MintTx} (try_match_deposit_with_mint row safe) db1 (
                no_panic (DepositMatched safe row db1) deposit_error_counter db1 sound.counters _
                  matched),
        counted-rest config (λ db'. db'.gnosis_safe_deposits ≡ db1.gnosis_safe_deposits)
            (DepositMatched safe row db1) deposit_error_counter db1 sound.counters _ (λ n. refl)
            (λ m db' w. rw w.recorded refl) matched,
      )

module _ {Value : Type 0} (serde : Serde Value) (hex : Hex) (safe : AuditedSafeConfig) where
  -- an Ethereum transaction whose hash is not stored
  pub record NewEthereumTx (db : Db) (tx : RawGnosisTransaction Value) (e : EthereumTransaction)
      : Type 0 where
    pub hash : EthTxHash
    pub known : tx_hash serde hex tx ≡ ok hash
    pub absent :
        any (λ t. text_eq t.eth_tx_hash (hash_to_string hex hash)) db.gnosis_safe_txs ≡ false
    pub decoded : decode serde hex tx ≡ ok (ethereum e)

  -- the database with the transaction
  abbrev pub opened : Db → RawGnosisTransaction Value → EthTxHash → Db
  opened db tx hash = with_tx (hash_to_string hex hash) (to_json_string serde hex tx) db

  pub eth_steps :
      (db : Db) (tx : RawGnosisTransaction Value) (e : EthereumTransaction)
      (n : NewEthereumTx db tx e)
      → process_steps serde hex safe tx db
        ≡ or_unknown_token (process_eth_transaction hex safe e) (opened db tx n.hash)
  unfolding process_decoded
  eth_steps db tx e n = steps_fresh serde hex safe tx db n.hash n.known n.absent ∙ simp n.decoded
