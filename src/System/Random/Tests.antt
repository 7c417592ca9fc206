-- ===== src/System/Random/Tests.antt =====
-- The theorems on random numbers at a concrete input.
use native.Mathlib.Nat.{div-mul-le_self}
use twig_system_contracts.Prelude.{
  ◌≡◌, ℕ, List, [], ◌∷◌, ◌*◌, ◌/◌, ◌<◌, ◌≤◌, arith, fill, fill-IsArray, IsArray,
}
use twig_system_contracts.System.Random.Rolls.{fold, rounds, Hashes, Scale, new_provider, get_rand}
use twig_system_contracts.System.Random.Halving.{halved_times, fold-halved_times}
use twig_system_contracts.System.Random.Bounds.{
  IsProvider, IsInside, first_round, AreHashes, Scales,
}
use twig_system_contracts.System.Random.Uses.{Use, after_uses, after_uses-get_rand}

-- Fractions for the numbers of `double`.
abbrev fractions : Scale
fractions = record {
  D = ℕ × ℕ;
  of_uint = λ n. (n, 1);
  times = λ a b. (a.0 * b.0, a.1 * b.1);
  over = λ a b. (a.0 * b.1, a.1 * b.0);
  to_uint32 = λ a. a.0 / a.1;
}

fractions-Scales : Scales fractions
fractions-Scales = record {
  truncated = λ roll size whole some_whole small.
      let a : size * 1 ≡ size = omega arith in
      let b : 1 * (1 * whole) ≡ whole = omega arith in
      rw (a, b) (div-mul-le_self (roll * size) whole);
}

abbrev sevens : ℕ → List ℕ
sevens n = fill 0 n (λ i. 7)

sevens-IsArray : (n : ℕ) → IsArray n (sevens n)
sevens-IsArray n = fill-IsArray n (λ i. 7) (λ i. omega arith)

abbrev constant : Hashes
constant = record { sha256 = λ l. sevens 32; sha512 = λ l. sevens 64 }

constant-AreHashes : AreHashes constant
constant-AreHashes = record {
  sha256_size = λ l. sevens-IsArray 32;
  sha512_size = λ l. sevens-IsArray 64;
}

abbrev uses : List Use
uses = Use.rand 4096 ∷ Use.blended (sevens 32) 3 ∷ Use.seeded 5000 ∷ []

after_uses-get_rand_example :
    IsProvider (after_uses constant fractions uses (new_provider (sevens 32) 9))
    × ((n : ℕ)
        → n ≤ 13
        → IsInside (
            rounds n
              (first_round (after_uses constant fractions uses (new_provider (sevens 32) 9)))))
    × ((get_rand fractions 4096 (after_uses constant fractions uses (new_provider (sevens 32) 9))).0
        < 4096)
after_uses-get_rand_example =
    after_uses-get_rand constant fractions uses (sevens 32) 9 4096 constant-AreHashes
      fractions-Scales (sevens-IsArray 32) (omega arith) (omega arith)

fold-halved_times_example : (fold 2000 ≡ halved_times 4 2000) × (halved_times 4 2000 < 32)
fold-halved_times_example = fold-halved_times 2000
