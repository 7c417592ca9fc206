-- ===== src/Token.antt =====
-- twig.token
pub mod State
pub mod Pairs
pub mod Accounts
pub mod Config
pub mod Admin
pub mod User
pub mod Amounts
pub mod Effects
pub mod IssueLoop
pub mod RetireLoop
pub mod Held
pub mod TransferLoop
pub mod Ledger
pub mod Supplying
pub mod Limits
pub mod Opening
pub mod Transferring
pub mod Wrapping
pub mod History
mod Tests
