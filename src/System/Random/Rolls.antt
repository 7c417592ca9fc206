-- ===== src/System/Random/Rolls.antt =====
-- The class RandomnessProvider (contracts/eosio.system/include/headers/RandomnessProvider.hpp). A
-- method that changes the object returns the new one beside its result.
use mathlib.Core.Logic.{dite}
use mathlib.Core.WellFounded.{Acc}
use native.Mathlib.Decide.{dec_lt}
use twig_system_contracts.Prelude.{
  ℕ, zero, suc, List, [], ◌∷◌, ◌+◌, ◌*◌, ◌/◌, ◌%◌, ◌^◌, ◌<◌, max, bit_or, ltb, leb, if◌then◌else◌,
  arith, lt_wf, byte, set_byte, fill,
}

abbrev pub u32_max : ℕ
u32_max = 4294967295

-- The hash functions of the host, on bytes.
pub record Hashes : Type 0 where
  pub sha256 : List ℕ → List ℕ
  pub sha512 : List ℕ → List ℕ

-- The operations on `double` that scale a roll.
pub record Scale : Type 1 where
  pub D : Type 0
  pub of_uint : ℕ → D
  pub times : D → D → D
  pub over : D → D → D
  pub to_uint32 : D → ℕ

-- raw32, raw64 and pass512 are written before they are read by each method, so that they are no
-- part of the state.
pub record Provider : Type 0 where
  pub seed_bytes : List ℕ
  pub salt : ℕ
  pub cycle : ℕ

-- The constructor.
unfoldable pub new_provider : List ℕ → ℕ → Provider
new_provider seed pepper = record { seed_bytes = seed; salt = max pepper u32_max; cycle = 1 }

abbrev pub regen : List ℕ → ℕ → Provider
regen seed pepper = record { seed_bytes = seed; salt = max pepper u32_max; cycle = 1 }

-- `while (shuffle >= 32) shuffle = (shuffle >> 1) & 255`
unfoldable pub fold_acc : (shuffle : ℕ) → Acc ◌<◌ shuffle → ℕ
fold_acc shuffle (Acc.intro _ smaller) =
    dite (dec_lt 31 shuffle)
      (λ big. fold_acc (shuffle / 2 % 2 ^ 8) (smaller (shuffle / 2 % 2 ^ 8) (omega arith)))
      (λ _. shuffle)

unfoldable pub fold : ℕ → ℕ
unfolding fold_acc lt_wf dec_lt
fold shuffle = fold_acc shuffle (lt_wf.apply shuffle)

-- The variables of the loop of `get_uint64`.
pub record Round : Type 0 where
  pub provider : Provider
  pub shuffle : ℕ
  pub value : ℕ

-- `((a << shift) | (high << 8)) | low`, on 64 bits
abbrev pub mix : ℕ → ℕ → ℕ → ℕ → ℕ
mix a shift high low = bit_or (bit_or (a * 2 ^ shift % 2 ^ 64) (high * 2 ^ 8)) low % 2 ^ 64

unfoldable pub round : Round → Round
unfolding fold
round r =
    let p = r.provider in
    let salt = mix p.salt 12 (byte r.shuffle p.seed_bytes) (byte (p.salt % 32) p.seed_bytes) in
    let seed_bytes = set_byte (salt % 2 ^ 16 % 32) (salt % 255) p.seed_bytes in
    let shuffle = fold (salt % (9001 * p.cycle)) in
    record {
      provider = record { seed_bytes = seed_bytes; salt = salt; cycle = p.cycle + 1 };
      shuffle = shuffle;
      value = mix r.value 16 (byte (salt % 32) seed_bytes) (byte shuffle seed_bytes);
    }

unfoldable pub rounds : ℕ → Round → Round
unfolding round
rounds zero r = r
rounds (suc n) r = rounds n (round r)

unfoldable pub get_uint64 : Provider → ℕ × Provider
unfolding rounds
get_uint64 p =
    let cycle = if ltb 283 p.cycle then p.salt % 88 + 1 else p.cycle in
    let last =
      rounds 13 (record { provider = record p { cycle = cycle }; shuffle = 0; value = u32_max }) in
    (last.value, last.provider)

module _ (scale : Scale) where
  unfoldable pub get_rand : ℕ → Provider → ℕ × Provider
  unfolding get_uint64
  get_rand max_value p =
      let (roll, p') = get_uint64 p in
      if leb 65535 max_value then (roll % max_value, p') else (
        scale.to_uint32 (
            scale.times (scale.of_uint (roll % 1000000))
              (scale.over (scale.of_uint max_value) (scale.of_uint 1000000))),
        p',
      )

-- `raw64[2 * i] = raw32[i]; raw64[2 * i + 1] = seed_bytes[i]`
abbrev pub interleave : List ℕ → List ℕ → List ℕ
interleave [] m = []
interleave (a ∷ l) [] = []
interleave (a ∷ l) (b ∷ m) = a ∷ b ∷ interleave l m

module _ (hashes : Hashes) where
  -- `blend`, with the bytes of raw32 that it leaves. It computes a pepper and does not use it.
  unfoldable pub blend : List ℕ → ℕ → Provider → List ℕ × Provider
  blend seed pepper p =
      let raw64 = hashes.sha512 (interleave seed p.seed_bytes) in
      (
        fill 0 32 (λ i. byte (i * 3 / 2 + 4) raw64),
        record p { seed_bytes = fill 0 32 (λ i. byte (i * 2) raw64) },
      )

  unfoldable pub get_blend : List ℕ → ℕ → Provider → List ℕ × Provider
  unfolding blend
  get_blend seed pepper p = let (raw32, p') = blend seed pepper p in (hashes.sha256 raw32, p')

  unfoldable pub get_seed : Scale → ℕ → Provider → List ℕ × Provider
  unfolding get_rand
  get_seed scale given p =
      let pepper = if ltb 1000 given then given else u32_max in
      let peppered = record p { seed_bytes = set_byte (pepper % 32) (pepper % 256) p.seed_bytes } in
      let (mixer, p') = get_rand scale (pepper % 2 ^ 32) peppered in
      let new_seed = hashes.sha256 (set_byte (mixer % 32) (mixer % 256) p'.seed_bytes) in
      (new_seed, record p' { seed_bytes = new_seed })
