-- ===== src/Msig.antt =====
-- eosio.msig: proposals of transactions, and their approvals.
pub mod State
pub mod Approvals
pub mod Actions
pub mod Executing
pub mod Safety
pub mod Levels
pub mod Invalidating
mod Registry
mod Following
mod History
mod Places
mod Tests
mod HistoryTests
