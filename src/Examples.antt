-- ===== src/Examples.antt =====
-- The theorems at concrete inputs.
pub mod Data
mod Basics
mod Mints
mod Burns
mod Blocks
mod Steps
mod Loop
mod SafeData
mod Safe
mod Responses
