-- ===== src/Flow.antt =====
-- How eosio.bank and twig.token run together (contracts/eosio.bank, contracts/twig.token): a
-- transfer, its notification and the inline actions that follow it, as one transaction on the
-- tables of both contracts.
pub mod Delivery
mod Owed
mod Balances
mod Payouts
mod Solvent
mod Deposits
mod Others
mod Chunk
mod Events
mod History
mod Paying
mod Delivering
mod Epoch
mod Rewards
mod Tests
