-- ===== src/Boot.antt =====
-- eosio.boot: the actions that do something (contracts/eosio.boot/src/eosio.boot.cpp,
-- contracts/eosio.boot/include/eosio.boot.hpp). The other actions have empty bodies.
use twig_system_contracts.Prelude.{ℕ, Bool, false, List}
use twig_system_contracts.Chain.{Env, require_auth, Result, check, ◌>>◌}

-- The protocol features, as the host keeps them; a digest is its bytes.
pub record Features : Type 0 where
  pub preactivate_feature : List ℕ → Result (Unit {0})
  pub is_feature_activated : List ℕ → Bool

abbrev pub activate : Features → Env → List ℕ → Result (Unit {0})
activate features e feature_digest = do
  require_auth e e.self
  features.preactivate_feature feature_digest

abbrev pub reqactivated : Features → List ℕ → Result (Unit {0})
reqactivated features feature_digest =
    check (features.is_feature_activated feature_digest) "protocol feature is not activated"

abbrev pub onerror : Result (Unit {0})
onerror = check false "the onerror action cannot be called directly"
