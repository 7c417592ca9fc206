-- ===== src/System/State.antt =====
-- The row of the lucky number and its constants
-- (contracts/eosio.system/include/eosio.system.hpp). The header of the bank,
-- contracts/eosio.bank/include/headers/eosio.system.hpp, declares the same row.
use twig_system_contracts.Prelude.{ℕ, List, ◌*◌, ◌/◌}

abbrev pub lucky_number_odds : ℕ
lucky_number_odds = 16 * 16

-- An integer division.
abbrev pub lucky_number_chunks : ℕ
lucky_number_chunks = 6 * 30 * 24 * 3600 / lucky_number_odds

pub record LuckyNumber : Type 0 where
  -- the bytes of a `checksum256`
  pub seed : List ℕ
  pub odds : ℕ
  pub epoch : ℕ
  pub chunks_remaining : ℕ
  pub blocks_since : ℕ
  pub total_blocks : ℕ
  pub producer : ℕ

-- "eosio.token"_n, "eosio.chunks"_n, "eosio.world"_n, "eosio.bank"_n and "eosio.board"_n
abbrev pub token_account : ℕ
token_account = 6138663591592764928

abbrev pub chunks_account : ℕ
chunks_account = 6138663582353908096

abbrev pub world_account : ℕ
world_account = 6138663593207157248

abbrev pub bank_account : ℕ
bank_account = 6138663581695868928

abbrev pub board_account : ℕ
board_account = 6138663581924053504
