-- ===== src/Gnosis/Sync.antt =====
-- src/gnosis/sync.rs: the transactions of a safe are stored, each in a transaction of the database,
-- with the deposits and withdrawals in them, which are matched at once. `GnosisSafeTx::insert` and
-- `decode` of src/db/models/gnosis_safe_tx.rs stand here, too.
use reserve_auditor.Prelude.{⊤, not, List, if◌then◌else◌}
use reserve_auditor.Result.{Result, ok, err, panic, map_err}
use reserve_auditor.Error.{Error, gnosis, already_exists}
use reserve_auditor.Gnosis.Error.{GnosisError, unknown_token}
use reserve_auditor.Gnosis.Types.{Hex, addr_eq, hash_to_string}
use reserve_auditor.Gnosis.Config.{AuditedSafeConfig}
use reserve_auditor.Gnosis.Api.{
  EthereumTransfer, MultiSigTransaction, EthereumTransaction, Transaction, RawGnosisTransaction,
  Serde, multi_sig, ethereum, module_tx, decode, tx_hash, to_json_string, from_json,
}
use reserve_auditor.Gnosis.Parse.{parse_deposit, parse_withdrawal_with_pub_key_multi_sig_tx}
use reserve_auditor.Db.Models.{GnosisSafeDeposit, GnosisSafeWithdrawal, GnosisSafeTx}
use reserve_auditor.Db.Monad.{
  Sql, log_outcome, pure, raise, crash, lift, atomic, for_each, ◌>>=◌, ◌>>◌,
}
use reserve_auditor.Db.Counters.{
  inc, num_invalid_ethereum_transactions, num_invalid_multi_sig_transactions,
}
use reserve_auditor.Db.Deposits.{insert_deposit, insert_safe_tx}
use reserve_auditor.Db.Withdrawals.{insert_withdrawal}
use reserve_auditor.Audit.Mint.{try_match_deposit_with_mint}
use reserve_auditor.Audit.Burn.{try_match_withdrawal_with_burn}

-- `expect(..)`
abbrev pub expect_ok : Sql ⊤ → Sql ⊤
expect_ok m s =
    let (r, s') = m s in elim r [ ok a ↦ (ok tt, s') | err e ↦ (panic, s') | panic ↦ (panic, s') ]

abbrev pub count_invalid_ethereum : {A : Type 0} → Result GnosisError A → Sql ⊤
count_invalid_ethereum (ok _) = pure tt
count_invalid_ethereum (err _) = inc num_invalid_ethereum_transactions
count_invalid_ethereum panic = crash

-- an unknown token is logged, any other error is returned
abbrev pub allow_unknown_token : Error → Sql ⊤
allow_unknown_token (gnosis unknown_token) = pure tt
allow_unknown_token e = raise e

abbrev pub or_unknown_token : Sql ⊤ → Sql ⊤
or_unknown_token m s =
    let (r, s') = m s in
    elim r [ ok a ↦ (ok tt, s') | err e ↦ allow_unknown_token e s' | panic ↦ (panic, s') ]

module _ (hex : Hex) (safe : AuditedSafeConfig) where
  -- a deposit that was parsed: store and match it
  unfoldable pub store_deposit : GnosisSafeDeposit → Sql ⊤
  store_deposit deposit = do
    row ← insert_deposit hex deposit
    log_outcome (try_match_deposit_with_mint row safe)

  unfoldable pub process_deposit : EthereumTransaction → EthereumTransfer → Sql ⊤
  process_deposit tx transfer = do
    count_invalid_ethereum (parse_deposit hex safe tx transfer)
    deposit ← lift (map_err gnosis (parse_deposit hex safe tx transfer))
    store_deposit deposit

  -- a transfer to another address is only logged
  abbrev pub process_transfer : EthereumTransaction → EthereumTransfer → Sql ⊤
  process_transfer tx transfer s =
      if addr_eq transfer.to safe.safe_addr then process_deposit tx transfer s else (ok tt, s)

  unfoldable pub process_eth_transaction : EthereumTransaction → Sql ⊤
  process_eth_transaction tx = for_each (process_transfer tx) tx.transfers

  -- a withdrawal that was parsed: store and match it
  unfoldable pub store_withdrawal : GnosisSafeWithdrawal → Sql ⊤
  store_withdrawal withdrawal = do
    row ← insert_withdrawal hex withdrawal
    log_outcome (try_match_withdrawal_with_burn row safe)

  abbrev pub process_parsed : Result GnosisError GnosisSafeWithdrawal → Sql ⊤
  process_parsed (ok withdrawal) = store_withdrawal withdrawal
  process_parsed (err e) = inc num_invalid_multi_sig_transactions
  process_parsed panic = crash

  unfoldable pub process_multi_sig_transaction : MultiSigTransaction → Sql ⊤
  process_multi_sig_transaction tx s =
      if not (addr_eq tx.safe safe.safe_addr)
      then (ok tt, s)
      else process_parsed (parse_withdrawal_with_pub_key_multi_sig_tx hex safe tx) s

module _ {Value : Type 0} (serde : Serde Value) (hex : Hex) where
  -- `GnosisSafeTx::insert`
  unfoldable pub insert_raw_tx : RawGnosisTransaction Value → Sql ⊤
  insert_raw_tx tx = do
    hash ← lift (map_err gnosis (tx_hash serde hex tx))
    insert_safe_tx (hash_to_string hex hash) (to_json_string serde hex tx)

  -- `GnosisSafeTx::decode`
  unfoldable pub decode_safe_tx : GnosisSafeTx → Result Error (RawGnosisTransaction Value)
  decode_safe_tx tx = map_err gnosis (from_json serde hex tx.raw_tx_json)

  module _ (safe : AuditedSafeConfig) where
    unfoldable pub process_decoded : Transaction Value → Sql ⊤
    process_decoded (ethereum tx) = or_unknown_token (process_eth_transaction hex safe tx)
    process_decoded (multi_sig tx) = process_multi_sig_transaction hex safe tx
    process_decoded (module_tx value) = pure tt

    abbrev pub decode_and_process : RawGnosisTransaction Value → Sql ⊤
    decode_and_process tx = lift (map_err gnosis (decode serde hex tx)) >>= process_decoded

    -- a transaction that is there already ends the closure without an error
    abbrev pub skip_processed : Error → Sql ⊤
    skip_processed already_exists = pure tt
    skip_processed e = raise e

    abbrev pub after_insert : RawGnosisTransaction Value → Result Error ⊤ → Sql ⊤
    after_insert tx (ok _) = decode_and_process tx
    after_insert tx (err e) = skip_processed e
    after_insert tx panic = crash

    -- the closure of `exclusive_transaction`
    unfoldable pub process_steps : RawGnosisTransaction Value → Sql ⊤
    process_steps tx s = let (r, s') = insert_raw_tx tx s in after_insert tx r s'

    abbrev pub process_transaction : RawGnosisTransaction Value → Sql ⊤
    process_transaction tx = expect_ok (atomic (process_steps tx))

    unfoldable pub process_transactions : List (RawGnosisTransaction Value) → Sql ⊤
    process_transactions txs = for_each process_transaction txs
