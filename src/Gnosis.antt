-- ===== src/Gnosis.antt =====
-- src/gnosis: the errors, the Ethereum data types, the configuration and the data of the Gnosis
-- API. What the sync thread does with them is in GnosisSync.
pub mod Error
pub mod Types
pub mod Config
pub mod Utils
pub mod Values
pub mod Api
pub mod Parse
pub mod Sync
