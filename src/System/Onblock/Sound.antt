-- ===== src/System/Onblock/Sound.antt =====
-- A block goes through, and what it leaves
-- (contracts/eosio.system/src/actions/4.tokenomics.cpp: onblock).
use twig_system_contracts.Prelude.{
  ℕ, suc, some, List, ◌++◌, ◌+◌, ◌^◌, ◌<◌, true, ◌≡◌, refl, sym, ap, ◌∙◌, Bool-cases, inl, inr,
  arith,
}
use twig_system_contracts.Chain.{
  MultiIndex, rows, NameLib, Env, require_auth, ok, or_fail, no_singleton, Send, demand,
  missing_authority, >>=-ok, >>=-eq-ok, ok-injective,
}
use twig_system_contracts.System.State.{LuckyNumber}
use twig_system_contracts.System.Blocks.{add_to_blockinfo_table, block_height_from_id}
use twig_system_contracts.System.Window.{IsRecent}
use twig_system_contracts.System.Recording.{MovesOn, add_to_blockinfo_table-MovesOn}
use twig_system_contracts.System.Lucky.{
  on_a_lucky_block, process_rng_calls, IsLucky, Advances, hit_of, on_a_lucky_block-Advances,
  active_calls, AreCalls, process_rng_calls-active_calls,
}
use twig_system_contracts.System.Producers.{
  Registry, Global, anew, IsUnvoted, update_elected_producers-IsUnvoted,
}
use twig_system_contracts.System.Onblock.Action.{
  BlockHeader, Core, Library, blended, seeded, is_due, updated, onblock,
}

module _ (lib : Library) ⦃mi : MultiIndex⦄ ⦃names : NameLib⦄ where
  -- What a block leaves of each table, and what it sends.
  pub record Blocks (e : Env) (header : BlockHeader) (lucky : LuckyNumber) (s s' : Core)
      (sends : List Send) : Type 0 where
    pub next : LuckyNumber
    pub told : List Send
    pub called : List Send
    pub stored : s'.lucky ≡ some next
    pub sent : sends ≡ told ++ called
    pub advanced :
        Advances e
          (hit_of lib.scale (seeded lib header lucky) (blended lib header lucky).1)
          (seeded lib header lucky)
          next
          told
    pub calls : AreCalls (active_calls (rows s.rngcalls)) called
    pub moved :
        MovesOn
          (suc (block_height_from_id header.previous))
          (lib.time_of header.timestamp)
          s.blockinfo
          s'.blockinfo
    pub same_registry : s'.registry ≡ anew s.registry

  unvoted-updated :
      (slot : ℕ) (global : Global) (registry : Registry)
      → registry.global ≡ some global
      → IsUnvoted registry.producers
      → updated lib slot global registry ≡ ok (anew registry)
  unfolding updated
  unvoted-updated slot global registry there none_yet = elim (Bool-cases (is_due lib slot global)) [
    | inl due ↦
        rw due
          (update_elected_producers-IsUnvoted lib.host slot global (anew registry) none_yet there)
    | inr early ↦ rw early refl
  ]

  -- Where the contract itself asks for it, its rows are there, the lucky number is well formed, the
  -- table of recent blocks is as the block before left it, no number wraps round and no producer
  -- has votes, a block always goes through. It records the block, advances the lucky number
  -- by a hit or by none, sends what follows the hit and then one call for each active random call,
  -- under its contract's authority, and nothing else, and leaves the registers of producers as they
  -- were.
  pub onblock-Blocks :
      (e : Env) (header : BlockHeader) (global : Global) (lucky : LuckyNumber) (s : Core)
      → e.has_auth e.self ≡ true
      → s.registry.global ≡ some global
      → s.lucky ≡ some lucky
      → IsLucky lucky
      → lucky.epoch + 1 < 2 ^ 32
      → suc (block_height_from_id header.previous) < 2 ^ 32
      → IsRecent (block_height_from_id header.previous) s.blockinfo
      → IsUnvoted s.registry.producers
      → (s' : Core) × (sends : List Send) × (onblock lib e header s ≡ ok (s', sends))
        × Blocks e header lucky s s' sends
  unfolding onblock
  onblock-Blocks e header global lucky s signed there stored well room small recent none_yet =
      let (blockinfo, recorded, moved) =
        add_to_blockinfo_table-MovesOn header.previous (lib.time_of header.timestamp) s.blockinfo
          small recent in
      let start = seeded lib header lucky in
      let p = (blended lib header lucky).1 in
      let drawn = on_a_lucky_block lib.scale e header.producer start p in
      let called = process_rng_calls lib.hashes drawn.0.0 drawn.1 s.rngcalls in
      let s' : Core = record {
        registry = record (anew s.registry) { global = some global };
        lucky = some drawn.0.0;
        blockinfo = blockinfo;
        rngcalls = s.rngcalls;
      } in
      (
        s',
        drawn.0.1 ++ called.0,
        >>=-ok (require_auth e e.self) _ (ap (λ b. demand b (missing_authority e.self)) signed)
            ∙ >>=-ok (or_fail s.registry.global no_singleton) _
                (ap (λ o. or_fail o no_singleton) there)
            ∙ >>=-ok (or_fail s.lucky no_singleton) _ (ap (λ o. or_fail o no_singleton) stored)
            ∙ >>=-ok
                (add_to_blockinfo_table header.previous (lib.time_of header.timestamp) s.blockinfo)
                _ recorded
            ∙ >>=-ok (updated lib header.timestamp global s.registry) _
                (unvoted-updated header.timestamp global s.registry there none_yet),
        record {
          next = drawn.0.0;
          told = drawn.0.1;
          called = called.0;
          stored = refl;
          sent = refl;
          advanced =
              on_a_lucky_block-Advances lib.scale e header.producer start p
                (record { chunks = well.chunks; begun = well.begun }) room;
          calls = process_rng_calls-active_calls lib.hashes drawn.0.0 drawn.1 s.rngcalls;
          moved = moved;
          same_registry = ap (λ g. record (anew s.registry) { global = g }) (sym there);
        },
      )

  -- However the election goes, a block that goes through leaves the global row as it was: the time
  -- and the size that `update_elected_producers` stores are overwritten.
  pub onblock-global :
      (e : Env) (header : BlockHeader) (s s' : Core) (sends : List Send)
      → onblock lib e header s ≡ ok (s', sends)
      → s'.registry.global ≡ s.registry.global
  unfolding onblock
  onblock-global e header s s' sends h =
      let (_, _, h) = >>=-eq-ok (require_auth e e.self) _ h in
      let (global, there, h) = >>=-eq-ok (or_fail s.registry.global no_singleton) _ h in
      let (lucky, _, h) = >>=-eq-ok (or_fail s.lucky no_singleton) _ h in
      let (blockinfo, _, h) =
        >>=-eq-ok
          (add_to_blockinfo_table header.previous (lib.time_of header.timestamp) s.blockinfo) _ h in
      let (registry, _, h) = >>=-eq-ok (updated lib header.timestamp global s.registry) _ h in
      let was : s.registry.global ≡ some global = ground arith in
      sym (was ∙ ap (λ r. r.0.registry.global) (ok-injective h))
