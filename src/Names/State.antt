-- ===== src/Names/State.antt =====
-- The tables of eosio.names (contracts/eosio.names/include/eosio.names.hpp).
use twig_system_contracts.Prelude.{ℕ, Option}
use twig_system_contracts.Chain.{MultiIndex, Table, Asset}

-- "eosio.token"_n
abbrev pub token_account : ℕ
token_account = 6138663591592764928

pub record NameBid : Type 0 where
  pub newname : ℕ
  pub high_bidder : ℕ
  pub high_bid : Asset
  pub last_bid_time : ℕ

pub record BidRefund : Type 0 where
  pub bidder : ℕ
  pub amount : Asset

pub record Tables ⦃mi : MultiIndex⦄ : Type 0 where
  -- the symbol in the singleton `config`
  pub config : Option ℕ
  pub namebids : Table NameBid
  -- one table for each name that is bid on
  pub bidrefunds : ℕ → Table BidRefund
