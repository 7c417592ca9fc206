-- ===== src/Token/Config.antt =====
-- The configuration actions of twig.token (contracts/twig.token/src/actions/contract.config.cpp).
use twig_system_contracts.Prelude.{ℕ, none, some, List, []}
use twig_system_contracts.Chain.{
  MultiIndex, find, store, erase, emplace, AssetLib, Env, require_auth, Result, ok, no_singleton,
  ◌>>=◌, ◌>>◌, or_fail, Pairs,
}
use twig_system_contracts.Token.State.{
  Tables, ConfigParams, FungibleParams, FungibleRng, twig_symbol,
}
use twig_system_contracts.Token.Pairs.{set_supply_loop, remove_supply_loop}

module _ ⦃mi : MultiIndex⦄ where
  unfoldable pub cfginit : Env → Tables → Result Tables
  cfginit e st = do
    require_auth e e.self
    ok (record st {
      config = some (record { core_symbol = twig_symbol; preserved = [] });
      fungibles = some [];
      supplies = some (record { supply = []; max_supply = [] });
    })

  unfoldable pub cfgdestruct : Env → Tables → Result Tables
  cfgdestruct e st = do
    require_auth e e.self
    ok (record st { config = none; fungibles = none; supplies = none })

  unfoldable pub cfgsetparams : Env → ConfigParams → Tables → Result Tables
  cfgsetparams e params st = do
    require_auth e e.self
    config ← or_fail st.config no_singleton
    ok (record st { config = some params })

  unfoldable pub setfungibles : Env → FungibleParams → Tables → Result Tables
  setfungibles e params st = do
    require_auth e e.self
    fungibles ← or_fail st.fungibles no_singleton
    ok (record st { fungibles = some params })

  unfoldable pub setsupplies : ⦃lib : AssetLib⦄ → Env → Pairs → Tables → Result Tables
  setsupplies e max_supply st = do
    require_auth e e.self
    supplies ← or_fail st.supplies no_singleton
    supplies' ← set_supply_loop max_supply supplies
    ok (record st { supplies = some supplies' })

  unfoldable pub rmvsupply : Env → Pairs → Tables → Result Tables
  rmvsupply e max_supply st = do
    require_auth e e.self
    supplies ← or_fail st.supplies no_singleton
    supplies' ← remove_supply_loop max_supply supplies
    ok (record st { supplies = some supplies' })

  -- Both branches write the whole row.
  unfoldable pub setdrops : Env → ℕ → List FungibleRng → Tables → Result Tables
  setdrops e index params st = do
    require_auth e e.self
    elim (find index st.drops) [
      | none ↦ do
        drops ← emplace index (record { index = index; params = params }) st.drops
        ok (record st { drops = drops })
      | some row ↦
          ok
            (record st { drops = store index (record { index = index; params = params }) st.drops })
    ]

  unfoldable pub rmvdrops : Env → ℕ → Tables → Result Tables
  rmvdrops e index st = do
    require_auth e e.self
    elim (find index st.drops) [
      | none ↦ ok st
      | some row ↦ ok (record st { drops = erase index st.drops })
    ]
