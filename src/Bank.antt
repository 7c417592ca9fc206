-- ===== src/Bank.antt =====
-- eosio.bank: the vesting of what producers and the team are paid.
pub mod State
pub mod Actions
pub mod Vested
pub mod Recipients
pub mod Settling
pub mod Solvency
pub mod Payout
pub mod Releasing
pub mod Integers
mod Tests
