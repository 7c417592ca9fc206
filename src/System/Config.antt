-- ===== src/System/Config.antt =====
-- The parameters of the chain and the rows that the system starts with
-- (contracts/eosio.system/src/actions/1.config.cpp: init, setparams).
use twig_system_contracts.Prelude.{ℕ, Bool, Option, none, some, ◌*◌, ◌^◌, leb, fill, if◌then◌else◌}
use twig_system_contracts.Chain.{
  MultiIndex, Env, require_auth, Result, ok, no_singleton, ◌>>=◌, ◌>>◌, check, or_fail,
}
use twig_system_contracts.System.State.{LuckyNumber, lucky_number_odds, lucky_number_chunks}
use twig_system_contracts.System.Producers.{Global}
use twig_system_contracts.System.Onblock.{Core}

-- `eosio::blockchain_parameters` and what the host does with them.
pub record Parameters : Type 1 where
  pub P : Type 0
  pub max_authority_depth : P → ℕ
  -- `get_blockchain_parameters`
  pub current : P
  -- `set_blockchain_parameters`
  pub set : P → Result (Unit {0})

-- "eosio"_n
abbrev pub eosio_account : ℕ
eosio_account = 6138663577826885632

pub record ChainParams (params : Parameters) : Type 0 where
  pub blockchain : params.P
  pub max_ram_size : ℕ

-- The members that a new row starts with.
abbrev pub first_global : Global
first_global = record { last_producer_schedule_update = 0; last_producer_schedule_size = 0 }

abbrev pub first_lucky : LuckyNumber
first_lucky = record {
  seed = fill 0 32 (λ i. 0);
  odds = lucky_number_odds;
  epoch = 1;
  chunks_remaining = lucky_number_chunks;
  blocks_since = 0;
  total_blocks = 0;
  producer = eosio_account;
}

module _ ⦃mi : MultiIndex⦄ where
  -- The rows of the tables with the two singletons replaced.
  abbrev pub with_singletons : Option Global → Option LuckyNumber → Core → Core
  with_singletons global lucky s = record s {
    registry = record s.registry { global = global };
    lucky = lucky;
  }

  unfoldable pub init :
      (params : Parameters)
      → Env
      → Bool
      → Option (ChainParams params)
      → Core
      → Result (Option (ChainParams params) × Core)
  init params e destruct chainparams s = do
    require_auth e e.self
    ok (
        if destruct then (none, with_singletons none none s) else (
          some (record { blockchain = params.current; max_ram_size = 512 * 1024 ^ 5 }),
          with_singletons (some first_global) (some first_lucky) s,
        ))

abbrev pub setparams :
    (params : Parameters)
    → Env
    → params.P
    → Option (ChainParams params)
    → Result (ChainParams params)
setparams params e given stored = do
  require_auth e e.self
  chainparams ← or_fail stored no_singleton
  check (leb 3 (params.max_authority_depth given)) "max_authority_depth should be at least 3"
  params.set given
  ok (record chainparams { blockchain = given })
