-- ===== src/Chain/Types.antt =====
-- What every contract takes from the chain: the account that runs it, the authorizations of the
-- transaction, the clock, and the types of the contract library. A `name` and a `symbol` are their
-- 64-bit values; an amount is an `int64_t`.
use Prim.Native.String.{len}
use twig_system_contracts.Prelude.{ℕ, Bool, List, String, ℤ, ◌||◌}
use twig_system_contracts.Chain.Outcome.{Result, demand, missing_authority}

pub record Env : Type 0 where
  pub self : ℕ
  pub has_auth : ℕ → Bool
  pub is_account : ℕ → Bool
  pub now : ℕ

abbrev pub require_auth : Env → ℕ → Result (Unit {0})
require_auth e who = demand (e.has_auth who) (missing_authority who)

-- `has_auth(get_self()) || has_auth(owner)`
abbrev pub self_or_owner : Env → ℕ → Bool
self_or_owner e owner = e.has_auth e.self || e.has_auth owner

abbrev pub size : String → ℕ
size = len

pub record Asset : Type 0 where
  pub amount : ℤ
  pub symbol : ℕ

-- `std::map<symbol, int64_t>`
abbrev pub Pairs : Type 0
Pairs = List (ℕ × ℤ)

-- What the contract library offers on names: the part behind the last dot, and the text of a name.
pub record NameLib : Type 0 where
  pub suffix : ℕ → ℕ
  pub text : ℕ → String

module _ ⦃names : NameLib⦄ where
  abbrev pub suffix : ℕ → ℕ
  suffix = names.suffix

  abbrev pub name_text : ℕ → String
  name_text = names.text
