-- ===== src/Lib.antt =====
-- The reserve auditor, a service that checks that every token minted on the MobileCoin blockchain
-- is backed by a deposit to a Gnosis safe on Ethereum, and every token burned by a withdrawal from
-- it. It keeps an SQLite database. One part reads blocks from the ledger and stores mint
-- configurations, mints and burns with the balance of each token (src/db/mod.rs); another reads the
-- safe's transactions and stores deposits and withdrawals (src/gnosis); both then try to match what
-- they stored with the other side and record the pair (src/db/models/audited_mint.rs and
-- audited_burn.rs). Anomalies are counted (src/db/models/counters.rs).
--
-- What models which part:
--   Prelude, Result  shared names, lists, primary keys, `i64` and texts, and results that may panic
--   Error            src/error.rs and the errors of src/gnosis/error.rs (Gnosis/Error)
--   Gnosis           src/gnosis/eth_data_types.rs (Types, Values), config.rs (Config), utils.rs
--                    (Utils), api_data_types.rs (Api), and sync.rs (Parse for what is read out of a
--                    transaction, Sync for what is stored)
--   MintTxNonce      src/mint_tx_nonce.rs
--   Core             what is used of the MobileCoin crates: fields of their structs, and a record
--                    `External` of their functions, which is a parameter
--   Db.Models        the rows of src/db/models and the tables of migrations
--   Db.Monad         code on a connection, and `transaction` of src/db/transaction.rs
--   Db.Counters, Db.MintTxs, Db.BurnTxOuts, Db.Deposits, Db.Withdrawals, Db.MintConfigs,
--   Db.BlockAudit    the insertions and queries of the files of src/db/models
--   Db.SyncBlock     `sync_block_with_conn` and `lookup_mint_config` of src/db/mod.rs; Newest and
--                    Totals say what its queries mean in terms of the tables
--   Audit            `try_match_…`, `verify_…` and `associate_…` of audited_mint.rs (Mint, Verify)
--                    and audited_burn.rs (Burn, VerifyBurn)
--   Reserve          what a block does to a height and balances, and that syncing refines it
--   System           all of these as steps that may come in any order, and the processing of a
--                    safe's transactions
--   MainLoop         `sync_loop` and `audit_block_data` of src/bin/main.rs
--   Convert          src/convert for deposits and transactions
--   Http             src/http_api/service.rs and api_types.rs
--   Examples         the theorems at concrete inputs
--
-- A table is the list of its rows in the order of insertion, a query a search in it. An insertion
-- has the UNIQUE and FOREIGN KEY constraints of migrations as tests, and gives a row without a key
-- one more than the largest key. Code on a connection is a function from a database to a result
-- and a database; a result is a value, an error or a panic. A transaction that fails takes its
-- writes back. Numbers of the program are numbers, with the casts between `u64` and `i64` and the
-- sums that wrap around written out as in a release build. The retry loop runs on fuel: its five
-- rounds, which are enough for it never to reach the panic behind the loop. `sync_loop` runs on fuel
-- for its rounds, of which more than the blocks that are left are enough. Every other loop is
-- structural.
--
-- Not modelled: the texts of error messages and logs, the delays between retries, the metrics for
-- Prometheus, errors of SQLite itself other than violated constraints, and row keys beyond 31
-- bits. The threads, the requests to the API, the gRPC service, the routes of the HTTP service and
-- its report on the mints of a block are not modelled. The ledger, JSON, dates and the decryption
-- of memos are parameters. The order of the program's map of balances is that of first
-- insertions.
pub mod Prelude
pub mod Result
pub mod Gnosis
pub mod Error
pub mod MintTxNonce
pub mod Core
pub mod Db
pub mod Audit
pub mod Convert
pub mod Http
pub mod Reserve
pub mod MainLoop
pub mod System
pub mod Examples
