-- ===== src/Audit.antt =====
-- src/db/models/audited_mint.rs and audited_burn.rs: matching what happened on the MobileCoin
-- blockchain with what happened in a Gnosis safe.
pub mod Verify
pub mod Counting
pub mod Mint
pub mod VerifyBurn
pub mod Burn
