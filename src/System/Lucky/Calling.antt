-- ===== src/System/Lucky/Calling.antt =====
-- Whom the random calls of a block go to
-- (contracts/eosio.system/src/functions/functions.tokenomics.cpp: process_rng_calls).
use twig_system_contracts.Prelude.{
  ℕ, List, [], ◌∷◌, ◌==◌, if◌then◌else◌, ◌≡◌, refl, Bool-cases, inl, inr,
}
use twig_system_contracts.Chain.{MultiIndex, Table, rows, Send, Call}
use twig_system_contracts.System.State.{LuckyNumber}
use twig_system_contracts.System.Random.{Provider, Hashes, get_blend}
use twig_system_contracts.System.Calls.{RngCall}
use twig_system_contracts.System.Lucky.Blocks.{rng_loop, process_rng_calls}

-- The calls that are made: all but the inactive ones.
abbrev pub active_calls : List (ℕ × RngCall) → List RngCall
active_calls [] = []
active_calls ((index, row) ∷ calls) =
    let rest = active_calls calls in if row.active == 0 then rest else row ∷ rest

-- What is sent are these calls and nothing else, in their order: each is the action that the row
-- names, with some seed, under the authority of the contract that is called.
abbrev pub AreCalls : List RngCall → List Send → Type 0
AreCalls [] [] = Unit {0}
AreCalls [] (send ∷ sends) = ⊥
AreCalls (row ∷ calls) [] = ⊥
AreCalls (row ∷ calls) (send ∷ sends) =
    ((seed : List ℕ) × (send ≡ record {
      actor = row.contract;
      contract = row.contract;
      call = Call.with_seed row.action seed;
    }))
    × AreCalls calls sends

rng_loop-AreCalls :
    (hashes : Hashes) (seed : List ℕ) (calls : List (ℕ × RngCall)) (p : Provider)
    → AreCalls (active_calls calls) (rng_loop hashes seed calls p).0
unfolding rng_loop
rng_loop-AreCalls hashes seed [] p = tt
rng_loop-AreCalls hashes seed ((index, row) ∷ calls) p = elim (Bool-cases (row.active == 0)) [
  | inl idle ↦ rw idle (rng_loop-AreCalls hashes seed calls p)
  | inr active ↦
      let blended = get_blend hashes seed row.contract p in
      rw active ((blended.0, refl), rng_loop-AreCalls hashes seed calls blended.1)
]

module _ ⦃mi : MultiIndex⦄ where
  -- Whatever the seed, a block sends one call for each active row of the random calls, in the order
  -- of their indices, with the row's action and under the authority of the contract that is called,
  -- and it sends nothing else.
  pub process_rng_calls-active_calls :
      (hashes : Hashes) (lucky : LuckyNumber) (p : Provider) (calls : Table RngCall)
      → AreCalls (active_calls (rows calls)) (process_rng_calls hashes lucky p calls).0
  unfolding process_rng_calls
  process_rng_calls-active_calls hashes lucky p calls =
      rng_loop-AreCalls hashes lucky.seed (rows calls) p
