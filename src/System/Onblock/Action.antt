-- ===== src/System/Onblock/Action.antt =====
-- The action of each block (contracts/eosio.system/src/actions/4.tokenomics.cpp: onblock).
use twig_system_contracts.Prelude.{
  ℕ, Bool, Option, some, List, ◌++◌, ◌+◌, ◌-◌, ◌%◌, ◌^◌, ltb, if◌then◌else◌,
}
use twig_system_contracts.Chain.{
  MultiIndex, Table, NameLib, Env, require_auth, Result, ok, or_fail, no_singleton, ◌>>=◌, ◌>>◌,
  Send,
}
use twig_system_contracts.System.State.{LuckyNumber}
use twig_system_contracts.System.Blocks.{BlockInfo, add_to_blockinfo_table}
use twig_system_contracts.System.Calls.{RngCall}
use twig_system_contracts.System.Random.{Provider, Scale, Hashes, new_provider, get_blend}
use twig_system_contracts.System.Lucky.{on_a_lucky_block, process_rng_calls}
use twig_system_contracts.System.Producers.{Registry, Global, Host, anew, update_elected_producers}

abbrev pub blocks_per_minute : ℕ
blocks_per_minute = 60

-- What is read of the header of the block; the time is a slot.
pub record BlockHeader : Type 0 where
  pub timestamp : ℕ
  pub producer : ℕ
  pub previous : List ℕ

-- The tables that `onblock` works on.
pub record Core ⦃mi : MultiIndex⦄ : Type 0 where
  pub registry : Registry
  pub lucky : Option LuckyNumber
  pub blockinfo : Table BlockInfo
  pub rngcalls : Table RngCall

-- What the action takes from the contract library: random numbers, the host, and the time of a
-- slot.
pub record Library : Type 1 where
  pub scale : Scale
  pub hashes : Hashes
  pub host : Host
  pub time_of : ℕ → ℕ

module _ (lib : Library) where
  -- The blend that the block makes of the seed, and the object that it is made with.
  abbrev pub blended : BlockHeader → LuckyNumber → List ℕ × Provider
  blended header lucky =
      get_blend lib.hashes header.previous header.producer
        (new_provider lucky.seed ((lucky.total_blocks + 1) % 2 ^ 64))

  abbrev pub seeded : BlockHeader → LuckyNumber → LuckyNumber
  seeded header lucky = record lucky { seed = (blended header lucky).0 }

  -- Whether the last update is more than a minute ago, in slots of 32 bits.
  abbrev pub is_due : ℕ → Global → Bool
  is_due slot global =
      ltb blocks_per_minute ((slot + 2 ^ 32 - global.last_producer_schedule_update) % 2 ^ 32)

  module _ ⦃mi : MultiIndex⦄ ⦃names : NameLib⦄ where
    -- `update_elected_producers`, once a minute.
    unfoldable pub updated : ℕ → Global → Registry → Result Registry
    updated slot global registry =
        if is_due slot global
        then update_elected_producers lib.host slot (anew registry)
        else ok (anew registry)

    unfoldable pub onblock : Env → BlockHeader → Core → Result (Core × List Send)
    onblock e header s = do
      require_auth e e.self
      global ← or_fail s.registry.global no_singleton
      lucky ← or_fail s.lucky no_singleton
      blockinfo ← add_to_blockinfo_table header.previous (lib.time_of header.timestamp) s.blockinfo
      let drawn =
          on_a_lucky_block lib.scale e header.producer (seeded header lucky)
            (blended header lucky).1
      let called = process_rng_calls lib.hashes drawn.0.0 drawn.1 s.rngcalls
      registry ← updated header.timestamp global s.registry
      ok (
        record {
          -- the copy of the row that was read first
          registry = record registry { global = some global };
          lucky = some drawn.0.0;
          blockinfo = blockinfo;
          rngcalls = s.rngcalls;
        },
        drawn.0.1 ++ called.0,
      )
