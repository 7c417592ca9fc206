-- ===== src/Names.antt =====
-- eosio.names: auctions of account names.
pub mod State
pub mod Actions
pub mod Escrow
pub mod Auction
mod History
mod Books
mod Tests
