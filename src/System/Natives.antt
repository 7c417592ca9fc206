-- ===== src/System/Natives.antt =====
-- The actions of eosio.system that check who may call them and leave the rest to the host
-- (contracts/eosio.system/include/eosio.system.hpp, contracts/eosio.system/src/actions/1.config.cpp,
-- contracts/eosio.system/src/actions/2.admin.cpp, contracts/eosio.system/src/actions/10.logs.cpp).
use twig_system_contracts.Prelude.{
  ℕ, Bool, false, Option, String, List, [], ◌∷◌, ◌++◌, ◌*◌, ◌/◌, ◌%◌, ◌^◌,
}
use twig_system_contracts.Chain.{MultiIndex, Table, Asset, Env, require_auth, Result, check, ◌>>◌}
use twig_system_contracts.System.Accounts.{LimitAuth, check_auth_change}

-- What the host does; a feature digest and a packed buffer are their bytes.
pub record NativeHost : Type 0 where
  pub has_level : ℕ → ℕ → Bool
  pub set_privileged : ℕ → ℕ → Result (Unit {0})
  pub preactivate_feature : List ℕ → Result (Unit {0})
  pub set_wasm_parameters_packed : List ℕ → Result (Unit {0})

module _ ⦃mi : MultiIndex⦄ (host : NativeHost) where
  abbrev pub updateauth : ℕ → ℕ → ℕ → Option ℕ → Table LimitAuth → Result (Unit {0})
  updateauth account permission parent authorized_by limits =
      check_auth_change host.has_level account authorized_by limits

  abbrev pub deleteauth : ℕ → ℕ → Option ℕ → Table LimitAuth → Result (Unit {0})
  deleteauth account permission authorized_by limits =
      check_auth_change host.has_level account authorized_by limits

  abbrev pub linkauth : ℕ → ℕ → ℕ → ℕ → Option ℕ → Table LimitAuth → Result (Unit {0})
  linkauth account code type_name requirement authorized_by limits =
      check_auth_change host.has_level account authorized_by limits

  abbrev pub unlinkauth : ℕ → ℕ → ℕ → Option ℕ → Table LimitAuth → Result (Unit {0})
  unlinkauth account code type_name authorized_by limits =
      check_auth_change host.has_level account authorized_by limits

abbrev pub onerror : Result (Unit {0})
onerror = check false "the onerror action cannot be called directly"

-- The members of `wasm_parameters`, in their order.
abbrev pub default_wasm_limits : List ℕ
default_wasm_limits =
    8192
    ∷ 8192
    ∷ 65536
    ∷ 512 * 1024
    ∷ 65536
    ∷ 65536
    ∷ 8192
    ∷ 100 * 1024 * 1024
    ∷ 100 * 1024 * 1024
    ∷ 1040
    ∷ 501
    ∷ []

-- A `uint32_t` in memory.
abbrev pub little_endian : ℕ → List ℕ
little_endian n = n % 256 ∷ n / 2 ^ 8 % 256 ∷ n / 2 ^ 16 % 256 ∷ n / 2 ^ 24 % 256 ∷ []

abbrev pub packed : List ℕ → List ℕ
packed [] = []
packed (n ∷ ns) = little_endian n ++ packed ns

module _ (host : NativeHost) where
  -- The buffer starts with four zeros, the version.
  abbrev pub wasmcfg : Env → ℕ → Result (Unit {0})
  wasmcfg e settings = do
    require_auth e e.self
    host.set_wasm_parameters_packed (packed (0 ∷ default_wasm_limits))

  abbrev pub activate : Env → List ℕ → Result (Unit {0})
  activate e feature_digest = do require_auth e e.self; host.preactivate_feature feature_digest

  abbrev pub setpriv : Env → ℕ → ℕ → Result (Unit {0})
  setpriv e account ispriv = do require_auth e e.self; host.set_privileged account ispriv

abbrev pub logsystemfee : Env → ℕ → Asset → String → Result (Unit {0})
logsystemfee e protocol fee memo = require_auth e e.self
