-- ===== src/System/Lucky/Blocks.antt =====
-- What a block does to the lucky number
-- (contracts/eosio.system/src/functions/functions.tokenomics.cpp, and feedthebeast of
-- contracts/eosio.system/src/actions/4.tokenomics.cpp).
use twig_system_contracts.Prelude.{
  ℕ, Option, List, [], ◌∷◌, ◌+◌, ◌-◌, ◌*◌, ◌%◌, ◌^◌, ltb, leb, ◌==◌, if◌then◌else◌,
}
use twig_system_contracts.Chain.{
  MultiIndex, Table, rows, Env, Send, Call, Result, ok, or_fail, no_singleton, ◌>>=◌,
}
use twig_system_contracts.System.State.{LuckyNumber, lucky_number_chunks, bank_account}
use twig_system_contracts.System.Random.{
  Provider, Scale, Hashes, u32_max, new_provider, get_rand, get_blend,
}
use twig_system_contracts.System.Calls.{RngCall}

-- What follows a hit: a chunk, or a new epoch where none is left.
abbrev pub hit : Env → ℕ → LuckyNumber → LuckyNumber × List Send
hit e producer lucky =
    let won = record lucky { blocks_since = 0; producer = producer } in
    if ltb 0 lucky.chunks_remaining
    then (
      record won { chunks_remaining = lucky.chunks_remaining - 1 },
      record { actor = e.self; contract = e.self; call = Call.onchunk } ∷ [],
    )
    else (
      record won { chunks_remaining = lucky_number_chunks; epoch = (lucky.epoch + 1) % 2 ^ 32 },
      record {
        actor = bank_account;
        contract = bank_account;
        call = Call.onepoch ((lucky.epoch + 1) % 2 ^ 32);
      }
          ∷ [],
    )

-- `luck_roll` is the random number that is drawn.
unfoldable pub roll_of : Scale → LuckyNumber → Provider → ℕ
roll_of scale lucky p = (get_rand scale (lucky.odds * 16 % 2 ^ 32) p).0

unfoldable pub on_a_lucky_block :
    Scale → Env → ℕ → LuckyNumber → Provider → (LuckyNumber × List Send) × Provider
unfolding roll_of
on_a_lucky_block scale e producer lucky p =
    let counted = record lucky { total_blocks = (lucky.total_blocks + 1) % 2 ^ 64 } in
    (
      (if leb 16 (roll_of scale lucky p)
          then (record counted { blocks_since = (lucky.blocks_since + 1) % 2 ^ 32 }, [])
          else hit e producer counted),
      (get_rand scale (lucky.odds * 16 % 2 ^ 32) p).1,
    )

-- The loop of `process_rng_calls`: each call that is active gets a seed of its own.
unfoldable pub rng_loop : Hashes → List ℕ → List (ℕ × RngCall) → Provider → List Send × Provider
rng_loop hashes seed [] p = ([], p)
rng_loop hashes seed ((index, row) ∷ rest) p =
    let blended = get_blend hashes seed row.contract p in
    let others = rng_loop hashes seed rest (if row.active == 0 then p else blended.1) in
    if row.active == 0 then others else (
      record {
        actor = row.contract;
        contract = row.contract;
        call = Call.with_seed row.action blended.0;
      }
          ∷ others.0,
      others.1,
    )

module _ ⦃mi : MultiIndex⦄ where
  unfoldable pub process_rng_calls :
      Hashes → LuckyNumber → Provider → Table RngCall → List Send × Provider
  unfolding rng_loop
  process_rng_calls hashes lucky p calls = rng_loop hashes lucky.seed (rows calls) p

-- Anybody may send it: no authority is asked for.
unfoldable pub feedthebeast : Hashes → List ℕ → Option LuckyNumber → Result LuckyNumber
feedthebeast hashes seed stored = do
  lucky ← or_fail stored no_singleton
  ok (record lucky { seed = (get_blend hashes lucky.seed u32_max (new_provider seed u32_max)).0 })
