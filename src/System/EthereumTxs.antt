-- ===== src/System/EthereumTxs.antt =====
-- How the processing of an Ethereum transaction that is not stored before ends, by its transfers
-- (src/gnosis/sync.rs, `process_transactions` and `process_eth_transaction`).
use reserve_auditor.Prelude.{⊤, ◌≡◌, ◌∙◌, refl, ap, true, none, some, List, [], ◌∷◌, arith}
use reserve_auditor.Result.{ok, err, panic}
use reserve_auditor.Error.{Error, gnosis, already_exists}
use reserve_auditor.Gnosis.Error.{GnosisError, unknown_token, api_result_parse}
use reserve_auditor.Gnosis.Types.{Hex, EthAddr, addr_eq}
use reserve_auditor.Gnosis.Config.{AuditedSafeConfig}
use reserve_auditor.Gnosis.Api.{EthereumTransfer, EthereumTransaction, RawGnosisTransaction, Serde}
use reserve_auditor.Gnosis.Parse.{parse_deposit, token_of}
use reserve_auditor.Gnosis.Sync.{
  expect_ok, or_unknown_token, process_transfer, process_deposit, process_eth_transaction,
  process_steps, process_transaction,
}
use reserve_auditor.Db.Models.{Db, Counters}
use reserve_auditor.Db.Monad.{Sql, atomic, for_each}
use reserve_auditor.Db.Monad.Steps.{after_err}
use reserve_auditor.System.Again.{of_ok}
use reserve_auditor.System.NewDeposits.{
  NewEthereumTx, opened, with_invalid, bad_deposit, no_token, foreign_token, eth_steps,
}

-- an error of the closure panics, after the writes are taken back
pub of_err :
    (m : Sql ⊤) (db db1 : Db) (e : Error)
    → m db ≡ (err e, db1)
    → expect_ok (atomic m) db ≡ (panic, db)
unfolding atomic
of_err m db db1 e h = ground arith

skip_unknown :
    (m : Sql ⊤) (db db1 : Db)
    → m db ≡ (err (gnosis unknown_token), db1)
    → or_unknown_token m db ≡ (ok tt, db1)
skip_unknown m db db1 h = ground arith

pub pass_ok : (m : Sql ⊤) (db db1 : Db) → m db ≡ (ok tt, db1) → or_unknown_token m db ≡ (ok tt, db1)
pass_ok m db db1 h = ground arith

fail_api :
    (m : Sql ⊤) (db db1 : Db)
    → m db ≡ (err (gnosis api_result_parse), db1)
    → or_unknown_token m db ≡ (err (gnosis api_result_parse), db1)
fail_api m db db1 h = ground arith

pub fail_exists :
    (m : Sql ⊤) (db db1 : Db)
    → m db ≡ (err already_exists, db1)
    → or_unknown_token m db ≡ (err already_exists, db1)
fail_exists m db db1 h = ground arith

module _ (hex : Hex) (safe : AuditedSafeConfig) where
  pub into_safe :
      (e : EthereumTransaction) (t : EthereumTransfer) (db : Db)
      → addr_eq t.to safe.safe_addr ≡ true
      → process_transfer hex safe e t db ≡ process_deposit hex safe e t db
  into_safe e t db h = rw h refl

  -- the first transfer fails, and ends the loop
  first_fails :
      (e : EthereumTransaction) (t : EthereumTransfer) (rest : List EthereumTransfer)
      (x : GnosisError) (db : Db) (c : Counters)
      → e.transfers ≡ t ∷ rest
      → addr_eq t.to safe.safe_addr ≡ true
      → db.counters ≡ c ∷ []
      → parse_deposit hex safe e t ≡ err x
      → process_eth_transaction hex safe e db ≡ (err (gnosis x), with_invalid c db)
  unfolding process_eth_transaction
  first_fails e t rest x db c listed into one bad =
      ap (λ ts. for_each (process_transfer hex safe e) ts db) listed
      ∙ after_err (process_transfer hex safe e t) (λ _. for_each (process_transfer hex safe e) rest)
          db (with_invalid c db) (gnosis x)
          (into_safe e t db into ∙ bad_deposit hex safe e t x db c one bad)

module _ {Value : Type 0} (serde : Serde Value) (hex : Hex) (safe : AuditedSafeConfig) (db : Db)
    (c : Counters) (one : db.counters ≡ c ∷ []) (tx : RawGnosisTransaction Value)
    (e : EthereumTransaction) (n : NewEthereumTx serde hex safe db tx e) (t : EthereumTransfer)
    (rest : List EthereumTransfer) (listed : e.transfers ≡ t ∷ rest)
    (into : addr_eq t.to safe.safe_addr ≡ true) where
  -- A new Ethereum transaction whose first transfer moves ether into the safe, so that it has no
  -- token address, panics and leaves the database as it was, where there is one counters row.
  pub ether_panics : t.token_addr ≡ none → process_transaction serde hex safe tx db ≡ (panic, db)
  ether_panics ether =
      of_err (process_steps serde hex safe tx) db
        (with_invalid c (opened serde hex safe db tx n.hash)) (gnosis api_result_parse)
        (eth_steps serde hex safe db tx e n
          ∙ fail_api (process_eth_transaction hex safe e) (opened serde hex safe db tx n.hash) _ (
              first_fails hex safe e t rest api_result_parse (opened serde hex safe db tx n.hash) c
                listed into one (no_token hex safe e t ether)))

  -- A new Ethereum transaction whose first transfer moves a token that is not audited into the
  -- safe is stored and counted as invalid, where there is one counters row; no deposit is stored,
  -- whatever the transfers behind it are.
  pub unknown_token_ends :
      (a : EthAddr)
      → t.token_addr ≡ some a
      → token_of safe a ≡ none
      → process_transaction serde hex safe tx db
        ≡ (ok tt, with_invalid c (opened serde hex safe db tx n.hash))
  unknown_token_ends a token foreign =
      of_ok (process_steps serde hex safe tx) db
        (with_invalid c (opened serde hex safe db tx n.hash))
        (eth_steps serde hex safe db tx e n
          ∙ skip_unknown (process_eth_transaction hex safe e) (opened serde hex safe db tx n.hash) _
              (first_fails hex safe e t rest unknown_token (opened serde hex safe db tx n.hash) c
                listed into one (foreign_token hex safe e t a token foreign)))
