-- ===== src/System.antt =====
-- eosio.system: accounts, recent blocks, random numbers, the lucky number, producers and finalizers,
-- and the action of each block that joins them.
pub mod State
pub mod Blocks
pub mod Window
pub mod Recording
pub mod Batches
pub mod Accounts
pub mod Authorities
pub mod Contracts
pub mod Calls
pub mod Random
pub mod Lucky
pub mod Producers
pub mod Onblock
pub mod Natives
pub mod Config
pub mod Limits
pub mod Startup
mod LimitsTests
mod Tests
