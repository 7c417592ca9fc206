-- ===== src/Bank/State.antt =====
-- The table of eosio.bank (contracts/eosio.bank/include/eosio.bank.hpp), and floating-point numbers
-- as an interface.
use Prim.Native.String.{◌++◌}
use twig_system_contracts.Prelude.{
  String, ℕ, Bool, true, ℤ, pos, pos_part, neg_part, ◌-ℤ◌, ◌≤ℤ◌, ltb_ℤ, ◌≤◌, ◌^◌, ◌≡◌,
}
use twig_system_contracts.Chain.{Asset, NameLib, name_text, Result, ok}

-- "eosio.token"_n, "eosio.chunks"_n and "eosio.twig"_n
abbrev pub token_account : ℕ
token_account = 6138663591592764928

abbrev pub chunks_account : ℕ
chunks_account = 6138663582353908096

abbrev pub team_account : ℕ
team_account = 6138663591725957120

pub record Vesting : Type 0 where
  pub producer : ℕ
  pub vested : Asset
  pub unvesting_total : Asset
  pub unvested : Asset
  pub epoch : ℕ

-- The operations on `double` that the bank uses.
pub record Double : Type 1 where
  pub D : Type 0
  pub of_int : ℤ → D
  pub minus : D → D → D
  pub times : D → D → D
  pub positive : D → Bool
  -- a conversion that the machine may refuse
  pub to_int64 : D → Result ℤ

-- A magnitude of at most 2^53.
abbrev pub IsExact : ℤ → Type 0
IsExact n = (pos_part n ≤ 2 ^ 53) × (neg_part n ≤ 2 ^ 53)

-- What IEEE 754 says of these operations: integers up to 2^53 are exact, one is neutral, and a
-- product of a positive number and one that is not negative is not negative.
pub record Ieee (double : Double) : Type 0 where
  pub minus_int :
      (a b : ℤ)
      → IsExact a
      → IsExact b
      → double.minus (double.of_int a) (double.of_int b) ≡ double.of_int (a -ℤ b)
  pub positive_int : (a : ℤ) → IsExact a → double.positive (double.of_int a) ≡ ltb_ℤ (pos 0) a
  pub times_one : (a : ℤ) → double.times (double.of_int (pos 1)) (double.of_int a) ≡ double.of_int a
  pub to_int64_int : (a : ℤ) → IsExact a → double.to_int64 (double.of_int a) ≡ ok a
  pub times_sign :
      (r : double.D) (a v : ℤ)
      → double.positive r ≡ true
      → pos 0 ≤ℤ a
      → double.to_int64 (double.times r (double.of_int a)) ≡ ok v
      → pos 0 ≤ℤ v

abbrev pub reward_memo : ⦃names : NameLib⦄ → ℕ → String
reward_memo producer = "Distributing unvested production rewards for " ++ name_text producer
