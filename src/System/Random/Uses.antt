-- ===== src/System/Random/Uses.antt =====
-- Any sequence of uses of the random numbers stays in bounds
-- (contracts/eosio.system/include/headers/RandomnessProvider.hpp).
use twig_system_contracts.Prelude.{ℕ, List, [], ◌∷◌, ◌^◌, ◌≤◌, ◌<◌, arith, ◌≡◌, IsArray}
use twig_system_contracts.System.Random.Rolls.{
  u32_max, Hashes, Scale, Provider, new_provider, rounds, get_rand, get_blend, get_seed,
}
use twig_system_contracts.System.Random.Bounds.{
  IsProvider, IsInside, first_round, rounds-IsInside, AreHashes, Scales, get_rand-IsProvider,
  get_rand-lt, new_provider-IsProvider, get_blend-IsProvider, get_seed-IsProvider,
}

-- The uses of an object: their arguments are the bound, the seed and pepper, and the pepper.
pub data Use : Type 0 where
  rand : ℕ → Use
  blended : List ℕ → ℕ → Use
  seeded : ℕ → Use

module _ (hashes : Hashes) (scale : Scale) where
  abbrev pub after_use : Use → Provider → Provider
  after_use (rand max_value) p = (get_rand scale max_value p).1
  after_use (blended seed pepper) p = (get_blend hashes seed pepper p).1
  after_use (seeded pepper) p = (get_seed hashes scale pepper p).1

  abbrev pub after_uses : List Use → Provider → Provider
  after_uses [] p = p
  after_uses (u ∷ uses) p = after_uses uses (after_use u p)

  after_uses-IsProvider :
      (uses : List Use) (p : Provider)
      → AreHashes hashes
      → IsProvider p
      → IsProvider (after_uses uses p)
  after_uses-IsProvider [] p laws h = h
  after_uses-IsProvider (rand max_value ∷ uses) p laws h =
      after_uses-IsProvider uses (get_rand scale max_value p).1 laws
        (get_rand-IsProvider scale max_value p h)
  after_uses-IsProvider (blended seed pepper ∷ uses) p laws h =
      after_uses-IsProvider uses (get_blend hashes seed pepper p).1 laws
        (get_blend-IsProvider hashes seed pepper p laws h).1
  after_uses-IsProvider (seeded pepper ∷ uses) p laws h =
      after_uses-IsProvider uses (get_seed hashes scale pepper p).1 laws
        (get_seed-IsProvider hashes scale pepper p laws h).1

  -- Where the hash functions give 32 and 64 bytes, and the numbers scale as IEEE 754 says: after any
  -- uses of an object that is made from 32 bytes of seed and a 64-bit pepper, the object is in its
  -- bounds. In the thirteen rounds that draw its next number, the index that is read at the start of
  -- a round and at its end is below 32, and 32 bytes are there. That number is below its bound.
  pub after_uses-get_rand :
      (uses : List Use) (seed : List ℕ) (pepper max_value : ℕ)
      → AreHashes hashes
      → Scales scale
      → IsArray 32 seed
      → pepper < 2 ^ 64
      → 0 < max_value
      → let p = after_uses uses (new_provider seed pepper) in
        IsProvider p
        × ((n : ℕ) → n ≤ 13 → IsInside (rounds n (first_round p)))
        × ((get_rand scale max_value p).0 < max_value)
  after_uses-get_rand uses seed pepper max_value laws scales a w some_value =
      let h =
        after_uses-IsProvider uses (new_provider seed pepper) laws
          (new_provider-IsProvider seed pepper a w) in
      (
        h,
        λ n few. rounds-IsInside n (after_uses uses (new_provider seed pepper)) few h,
        (get_rand-lt scale max_value (after_uses uses (new_provider seed pepper)) scales some_value
            h).0,
      )

-- A pepper below 2^32 is no pepper: the object starts as with the default.
new_provider_same :
    (seed : List ℕ) (pepper : ℕ)
    → pepper ≤ u32_max
    → new_provider seed pepper ≡ new_provider seed u32_max
unfolding new_provider
new_provider_same seed pepper h = ground arith
