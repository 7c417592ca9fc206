-- ===== src/Token/History.antt =====
-- Histories of twig.token: any sequence of its actions, each by any sender. An action that fails
-- changes nothing. `cfginit` and `cfgdestruct`, which start the supplies anew, are not among them.
use twig_system_contracts.Prelude.{ℕ, some, List, [], ◌∷◌, String, ◌≡◌, refl, arith, pos}
use twig_system_contracts.Chain.{MultiIndex, AssetLib, Asset, Env, Pairs, Result, ok, err}
use twig_system_contracts.Token.State.{
  Tables, twig_symbol, ConfigParams, FungibleParams, FungibleRng,
}
use twig_system_contracts.Token.Config.{
  cfginit, cfgsetparams, setfungibles, setsupplies, rmvsupply, setdrops, rmvdrops,
}
use twig_system_contracts.Token.Admin.{issue, retire, rolldrops, execdrops}
use twig_system_contracts.Token.User.{open_account, close, claimdrops, transfer}
use twig_system_contracts.Token.Effects.{IsModest}
use twig_system_contracts.Token.RetireLoop.{IsHeld}
use twig_system_contracts.Token.Held.{held, IsFunded}
use twig_system_contracts.Token.Ledger.{IsSound}
use twig_system_contracts.Token.Supplying.{issue-SupplyMoves, retire-SupplyMoves}
use twig_system_contracts.Token.Limits.{setsupplies-IsSound, rmvsupply-IsSound}
use twig_system_contracts.Token.Opening.{open_account-IsSound, close-IsSound}
use twig_system_contracts.Token.Transferring.{transfer-TransferMoves}

pub data Action : Type 0 where
  sets_params : ConfigParams → Action
  sets_fungibles : FungibleParams → Action
  sets_supplies : Pairs → Action
  removes_supply : Pairs → Action
  sets_drops : ℕ → List FungibleRng → Action
  removes_drops : ℕ → Action
  issues : ℕ → Pairs → Action
  retires : ℕ → Pairs → Action
  rolls_drops : Action
  runs_drops : Action
  opens : ℕ → Action
  closes : ℕ → Action
  claims_drops : List ℕ → ℕ → Action
  transfers : ℕ → ℕ → List Asset → String → Action

-- The state that an action leaves behind: the old one if it fails.
abbrev pub settled {ℓ} : {A : Type ℓ} → A → Result A → A
settled old (ok new) = new
settled old (err e) = old

abbrev pub first {ℓ κ} : {A : Type ℓ} {B : Type κ} → Result (A × B) → Result A
first (ok r) = ok r.0
first (err e) = err e

module _ ⦃mi : MultiIndex⦄ ⦃lib : AssetLib⦄ where
  unfoldable pub act : Env → Action → Tables → Result Tables
  act e (sets_params p) st = cfgsetparams e p st
  act e (sets_fungibles p) st = setfungibles e p st
  act e (sets_supplies m) st = setsupplies e m st
  act e (removes_supply m) st = rmvsupply e m st
  act e (sets_drops i p) st = setdrops e i p st
  act e (removes_drops i) st = rmvdrops e i st
  act e (issues owner m) st = issue e owner m st
  act e (retires owner m) st = retire e owner m st
  act e rolls_drops st = rolldrops e st
  act e runs_drops st = execdrops e st
  act e (opens owner) st = open_account e owner st
  act e (closes owner) st = close e owner st
  act e (claims_drops indices owner) st = first (claimdrops e indices owner st)
  act e (transfers from to tokens memo) st = first (transfer e from to tokens memo st)

  unfoldable pub run : List (Env × Action) → Tables → Tables
  run [] st = st
  run ((e, a) ∷ rest) st = run rest (settled st (act e a st))

-- Amounts fit: what is issued is below 2^62, what is retired is an `int64_t`.
abbrev pub Fits : Action → Type 0
Fits (issues owner m) = IsModest m
Fits (retires owner m) = IsHeld m
Fits (sets_params p) = Unit {0}
Fits other = Unit {0}

abbrev pub AllFit : List (Env × Action) → Type 0
AllFit [] = Unit {0}
AllFit ((e, a) ∷ rest) = Fits a × AllFit rest

module _ ⦃mi : MultiIndex⦄ ⦃lib : AssetLib⦄ where
  keeps {ℓ} :
      {A : Type ℓ} (P : A → Type 0) (old : A) (r : Result A)
      → P old
      → ((new : A) → r ≡ ok new → P new)
      → P (settled old r)
  keeps P old (ok new) h f = f new refl
  keeps P old (err e) h f = h

  keeps_first {ℓ κ} :
      {A : Type ℓ} {B : Type κ} (P : A → Type 0) (old : A) (r : Result (A × B))
      → P old
      → ((new : A × B) → r ≡ ok new → P new.0)
      → P (settled old (first r))
  keeps_first P old (ok new) h f = f new refl
  keeps_first P old (err e) h f = h

  -- Whatever the action and whoever sends it, a sound ledger stays sound.
  pub act-IsSound :
      (e : Env) (a : Action) (st : Tables) → Fits a → IsSound st → IsSound (settled st (act e a st))
  unfolding act cfgsetparams setfungibles setdrops rmvdrops rolldrops execdrops claimdrops
  act-IsSound e (sets_params p) st fits sound = ground arith
  act-IsSound e (sets_fungibles p) st fits sound = ground arith
  act-IsSound e (sets_supplies m) st fits sound =
      keeps IsSound st _ sound (λ st' h. (setsupplies-IsSound e m st st' sound h).0)
  act-IsSound e (removes_supply m) st fits sound =
      keeps IsSound st _ sound (λ st' h. (rmvsupply-IsSound e m st st' sound h).0)
  act-IsSound e (sets_drops i p) st fits sound = ground arith
  act-IsSound e (removes_drops i) st fits sound = ground arith
  act-IsSound e (issues owner m) st fits sound =
      keeps IsSound st _ sound (λ st' h. (issue-SupplyMoves e owner m st st' sound fits h).sound)
  act-IsSound e (retires owner m) st fits sound =
      keeps IsSound st _ sound (λ st' h. (retire-SupplyMoves e owner m st st' sound fits h).sound)
  act-IsSound e rolls_drops st fits sound = ground arith
  act-IsSound e runs_drops st fits sound = ground arith
  act-IsSound e (opens owner) st fits sound =
      keeps IsSound st _ sound (λ st' h. (open_account-IsSound e owner st st' sound h).0)
  act-IsSound e (closes owner) st fits sound =
      keeps IsSound st _ sound (λ st' h. (close-IsSound e owner st st' sound h).0)
  act-IsSound e (claims_drops indices owner) st fits sound = ground arith
  act-IsSound e (transfers from to tokens memo) st fits sound =
      keeps_first IsSound st _ sound
        (λ r h. (transfer-TransferMoves e from to tokens memo st r sound h).sound)

  -- Whatever the history of actions of the token contract, except cfginit and cfgdestruct, each by
  -- any sender: where each amount that is issued is below 2^62 and each amount that is retired is an
  -- int64_t, a ledger that is sound at its start is sound at its end. No balance is negative, the
  -- balances of each symbol add up to its supply, and no supply exceeds its limit.
  pub run-IsSound :
      (acts : List (Env × Action)) (st : Tables) → AllFit acts → IsSound st → IsSound (run acts st)
  unfolding run
  run-IsSound [] st fits sound = sound
  run-IsSound ((e, a) ∷ rest) st fits sound =
      run-IsSound rest (settled st (act e a st)) fits.1 (act-IsSound e a st fits.0 sound)

  -- Where no account holds anything, `cfginit` sets up a sound ledger.
  pub cfginit-IsSound :
      (e : Env) (st st' : Tables)
      → IsFunded st.accounts
      → ((s : ℕ) → held s st.accounts ≡ pos 0)
      → cfginit e st ≡ ok st'
      → IsSound st'
  unfolding cfginit
  cfginit-IsSound e st st' funded none_held h =
      let es : st' ≡ record st {
        config = some (record { core_symbol = twig_symbol; preserved = [] });
        fungibles = some [];
        supplies = some (record { supply = []; max_supply = [] });
      } =
        ground arith in
      rw es (record {
        supplied = record {
          ranged = λ s. omega arith;
          capped = λ s. omega arith;
          limited = λ s. omega arith;
          same_keys = λ s. refl;
        };
        funded = funded;
        total = none_held;
      })
