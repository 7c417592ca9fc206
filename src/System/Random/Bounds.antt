-- ===== src/System/Random/Bounds.antt =====
-- The state of the random numbers stays in its bounds, and so do the numbers
-- (contracts/eosio.system/include/headers/RandomnessProvider.hpp).
use mathlib.Core.WellFounded.{Acc}
use native.Mathlib.Nat.{mod-lt}
use twig_system_contracts.Prelude.{
  ℕ, zero, suc, List, ◌+◌, ◌*◌, ◌/◌, ◌%◌, ◌^◌, ◌≤◌, ◌<◌, ltb, leb, if◌then◌else◌, arith, lt_wf,
  byte, set_byte, set_byte-IsArray, byte_small, fill, fill-IsArray, IsArray, subst, ◌≡◌, refl, ◌-◌,
  Bool-cases, inl, inr,
}
use twig_system_contracts.System.Random.Rolls.{
  u32_max, Hashes, Scale, Provider, new_provider, fold_acc, fold, Round, mix, round, rounds,
  get_uint64, get_rand, interleave, get_blend, get_seed,
}

-- The index that the loop leaves is one of the 32 bytes.
fold_acc_small : (shuffle : ℕ) (w : Acc ◌<◌ shuffle) → fold_acc shuffle w < 32
unfolding fold_acc
fold_acc_small shuffle (Acc.intro _ smaller) = grind (
  arith,
  λ (p : shuffle / 2 % 2 ^ 8 < shuffle).
      fold_acc_small (shuffle / 2 % 2 ^ 8) (smaller (shuffle / 2 % 2 ^ 8) p),
)

fold_small : (shuffle : ℕ) → fold shuffle < 32
unfolding fold
fold_small shuffle = fold_acc_small shuffle (lt_wf.apply shuffle)

-- An object of the class: 32 bytes of seed, a 64-bit salt, and a cycle that is not zero.
pub record IsProvider (p : Provider) : Type 0 where
  pub array : IsArray 32 p.seed_bytes
  pub word : p.salt < 2 ^ 64
  pub positive : 0 < p.cycle
  pub few : p.cycle ≤ 296

-- What is documented of the hash functions.
pub record AreHashes (h : Hashes) : Type 0 where
  pub sha256_size : (l : List ℕ) → IsArray 32 (h.sha256 l)
  pub sha512_size : (l : List ℕ) → IsArray 64 (h.sha512 l)

-- The state after some rounds of the loop of `get_uint64`.
record IsRound (left : ℕ) (r : Round) : Type 0 where
  array : IsArray 32 r.provider.seed_bytes
  word : r.provider.salt < 2 ^ 64
  positive : 0 < r.provider.cycle
  few : r.provider.cycle + left ≤ 296
  index : r.shuffle < 32
  result : r.value < 2 ^ 64

round-IsRound : (left : ℕ) (r : Round) → IsRound (suc left) r → IsRound left (round r)
unfolding round
round-IsRound left r h =
    let salt =
      mix r.provider.salt 12 (byte r.shuffle r.provider.seed_bytes)
        (byte (r.provider.salt % 32) r.provider.seed_bytes) in
    let p = h.positive in
    let f = h.few in
    record {
      array =
          set_byte-IsArray 32 (salt % 2 ^ 16 % 32) (salt % 255) r.provider.seed_bytes (omega arith)
            h.array;
      word = omega arith;
      positive = omega arith;
      few = omega arith;
      index = fold_small (salt % (9001 * r.provider.cycle));
      result = omega arith;
    }

some_rounds-IsRound :
    (n left whole : ℕ) (r : Round) → whole ≡ n + left → IsRound whole r → IsRound left (rounds n r)
unfolding rounds
some_rounds-IsRound zero left whole r e h =
    let same : whole ≡ left = omega arith in subst (λ k. IsRound k r) same h
some_rounds-IsRound (suc n) left whole r e h =
    let same : whole ≡ suc (n + left) = omega arith in
    let start : IsRound (suc (n + left)) r = subst (λ k. IsRound k r) same h in
    some_rounds-IsRound n left (n + left) (round r) refl (round-IsRound (n + left) r start)

-- The variables of the loop of `get_uint64` at its start.
abbrev pub first_round : Provider → Round
first_round p = record {
  provider = record p { cycle = if ltb 283 p.cycle then p.salt % 88 + 1 else p.cycle };
  shuffle = 0;
  value = u32_max;
}

-- The index that the loop has made is one of the bytes that are there.
pub record IsInside (r : Round) : Type 0 where
  pub index : r.shuffle < 32
  pub bytes : IsArray 32 r.provider.seed_bytes

start-IsRound : (p : Provider) → IsProvider p → IsRound 13 (first_round p)
start-IsRound p h =
    let a = h.positive in
    let b = h.few in
    record {
      array = h.array;
      word = h.word;
      positive = ground arith;
      few = ground arith;
      index = omega arith;
      result = omega arith;
    }

pub rounds-IsInside :
    (n : ℕ) (p : Provider) → n ≤ 13 → IsProvider p → IsInside (rounds n (first_round p))
rounds-IsInside n p few h =
    let r = some_rounds-IsRound n (13 - n) 13 (first_round p) (omega arith) (start-IsRound p h) in
    record { index = r.index; bytes = r.array }

get_uint64-IsProvider :
    (p : Provider) → IsProvider p → IsProvider (get_uint64 p).1 × ((get_uint64 p).0 < 2 ^ 64)
unfolding get_uint64
get_uint64-IsProvider p h =
    let last = some_rounds-IsRound 13 0 13 (first_round p) refl (start-IsRound p h) in
    (
      record {
        array = last.array;
        word = last.word;
        positive = last.positive;
        few = let f = last.few in omega arith;
      },
      last.result,
    )

-- What IEEE 754 gives for a number times a fraction, as long as the numerator is below 2^51: the
-- two roundings do not reach the next integer, so that the part before the point is right but for
-- an exact multiple.
pub record Scales (s : Scale) : Type 0 where
  pub truncated :
      (roll size whole : ℕ)
      → 0 < whole
      → roll * size < 2 ^ 51
      → s.to_uint32 (s.times (s.of_uint roll) (s.over (s.of_uint size) (s.of_uint whole))) * whole
        ≤ roll * size

pub get_rand-IsProvider :
    (scale : Scale) (max_value : ℕ) (p : Provider)
    → IsProvider p
    → IsProvider (get_rand scale max_value p).1
unfolding get_rand
get_rand-IsProvider scale max_value p h =
    let kept = (get_uint64-IsProvider p h).0 in
    elim (Bool-cases (leb 65535 max_value)) [
      | inl large ↦ rw large kept
      | inr small ↦ rw small kept
    ]

product_small : (r m : ℕ) → r < 1000000 → m < 65535 → r * m < 2 ^ 51
product_small r m hr hm = grind arith

below_whole : (r m q : ℕ) → r < 1000000 → 0 < m → q * 1000000 ≤ r * m → q < m
below_whole r m q hr hm h = grind arith

-- Where the numbers scale as IEEE 754 says, a random number is below its bound, and the object
-- stays in its own.
pub get_rand-lt :
    (scale : Scale) (max_value : ℕ) (p : Provider)
    → Scales scale
    → 0 < max_value
    → IsProvider p
    → ((get_rand scale max_value p).0 < max_value) × IsProvider (get_rand scale max_value p).1
unfolding get_rand
get_rand-lt scale max_value p scales some_value h =
    let (kept, word) = get_uint64-IsProvider p h in
    let roll = (get_uint64 p).0 in
    elim (Bool-cases (leb 65535 max_value)) [
      | inl large ↦ rw large (mod-lt roll some_value, kept)
      | inr small ↦
          let few : roll % 1000000 < 1000000 = omega arith in
          let size : roll % 1000000 * max_value < 2 ^ 51 =
            product_small (roll % 1000000) max_value few (ground arith) in
          let law = scales.truncated (roll % 1000000) max_value 1000000 (omega arith) size in
          rw small (
            below_whole (roll % 1000000) max_value
                (scale.to_uint32 (
                  scale.times (scale.of_uint (roll % 1000000))
                    (scale.over (scale.of_uint max_value) (scale.of_uint 1000000))))
                few some_value law,
            kept,
          )
    ]

pub new_provider-IsProvider :
    (seed : List ℕ) (pepper : ℕ)
    → IsArray 32 seed
    → pepper < 2 ^ 64
    → IsProvider (new_provider seed pepper)
unfolding new_provider
new_provider-IsProvider seed pepper a w = record {
  array = a;
  word = omega arith;
  positive = omega arith;
  few = omega arith;
}

-- A blended seed is 32 bytes, and the object stays in its bounds.
pub get_blend-IsProvider :
    (hashes : Hashes) (seed : List ℕ) (pepper : ℕ) (p : Provider)
    → AreHashes hashes
    → IsProvider p
    → IsArray 32 (get_blend hashes seed pepper p).0 × IsProvider (get_blend hashes seed pepper p).1
unfolding get_blend
get_blend-IsProvider hashes seed pepper p laws h =
    let raw64 = hashes.sha512 (interleave seed p.seed_bytes) in
    let bytes = (laws.sha512_size (interleave seed p.seed_bytes)).all_bytes in
    (
      laws.sha256_size (fill 0 32 (λ i. byte (i * 3 / 2 + 4) raw64)),
      record {
        array = fill-IsArray 32 (λ i. byte (i * 2) raw64) (λ i. byte_small (i * 2) raw64 bytes);
        word = h.word;
        positive = h.positive;
        few = h.few;
      },
    )

-- A new seed is 32 bytes, and the object stays in its bounds.
pub get_seed-IsProvider :
    (hashes : Hashes) (scale : Scale) (given : ℕ) (p : Provider)
    → AreHashes hashes
    → IsProvider p
    → IsArray 32 (get_seed hashes scale given p).0 × IsProvider (get_seed hashes scale given p).1
unfolding get_seed
get_seed-IsProvider hashes scale given p laws h =
    let pepper = if ltb 1000 given then given else u32_max in
    let peppered : Provider = record p {
      seed_bytes = set_byte (pepper % 32) (pepper % 256) p.seed_bytes;
    } in
    let start : IsProvider peppered = record {
      array = set_byte-IsArray 32 (pepper % 32) (pepper % 256) p.seed_bytes (omega arith) h.array;
      word = h.word;
      positive = h.positive;
      few = h.few;
    } in
    let drawn = get_rand-IsProvider scale (pepper % 2 ^ 32) peppered start in
    let mixer = (get_rand scale (pepper % 2 ^ 32) peppered).0 in
    let after = (get_rand scale (pepper % 2 ^ 32) peppered).1 in
    let size = laws.sha256_size (set_byte (mixer % 32) (mixer % 256) after.seed_bytes) in
    (size, record { array = size; word = drawn.word; positive = drawn.positive; few = drawn.few })
