-- ===== src/Db.antt =====
-- The SQLite database behind src/db. `Models` has the tables that migrations/ creates, each the
-- list of its rows in the order of insertion; `Monad` is code that runs on a connection. A query is
-- a search over the rows of a table; SQLite's integers are signed, so `i64` columns hold `ℤ`.
pub mod Models
pub mod Monad
pub mod Counters
pub mod Transaction
pub mod MintTxs
pub mod Deposits
pub mod Withdrawals
pub mod BurnTxOuts
pub mod MintConfigs
pub mod BlockAudit
pub mod SyncBlock
