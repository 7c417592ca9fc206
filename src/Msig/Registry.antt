-- ===== src/Msig/Registry.antt =====
-- What eosio.msig promises of its proposals, as a plain registry: under each proposer and name at
-- most one transaction, which stays as it was proposed until it is run or cancelled. Approvals,
-- clocks and expirations are left out.
use twig_system_contracts.Prelude.{ℕ, Option, none, some, List, [], ◌==◌, ◌&&◌, if◌then◌else◌, ◌≡◌}
use twig_system_contracts.Chain.{MultiIndex, find, ok, Result, ◌>>=◌}
use twig_system_contracts.Msig.State.{Level, Bytes, Packing, Caller, Proposal, Tables}
use twig_system_contracts.Msig.Actions.{propose, approve, unapprove}
use twig_system_contracts.Msig.Executing.{cancel, exec, invalidate}

pub data Action : Type 0 where
  proposes : ℕ → ℕ → List Level → Bytes → Action
  approves : ℕ → ℕ → Level → Option Bytes → Action
  unapproves : ℕ → ℕ → Level → Action
  cancels : ℕ → ℕ → ℕ → Action
  executes : ℕ → ℕ → ℕ → Action
  invalidates : ℕ → Action

-- The transaction under a proposer and a name.
abbrev pub Registry : Type 0
Registry = ℕ → ℕ → Option Bytes

abbrev pub put_at : ℕ → ℕ → Option Bytes → Registry → Registry
put_at p n o reg q m = if q == p && m == n then o else reg q m

-- The registry after an action.
abbrev pub registered : Action → Registry → Registry
registered (Action.proposes p n levels trx) reg = put_at p n (some trx) reg
registered (Action.cancels p n canceler) reg = put_at p n none reg
registered (Action.executes p n executer) reg = put_at p n none reg
registered (Action.approves p n level hash) reg = reg
registered (Action.unapproves p n level) reg = reg
registered (Action.invalidates account) reg = reg

-- There is a transaction, of which `P` holds.
abbrev pub Holds : Option Bytes → (Bytes → Type 0) → Type 0
Holds none P = ⊥
Holds (some trx) P = P trx

-- When the registry allows an action, and what it then runs: a proposal wants its place to be
-- free, all else wants it taken, and what is run are the actions of the transaction there.
abbrev pub Allows : Packing → Action → Registry → List ℕ → Type 0
Allows host (Action.proposes p n levels trx) reg out = (reg p n ≡ none) × (out ≡ [])
Allows host (Action.cancels p n canceler) reg out = Holds (reg p n) (λ trx. out ≡ [])
Allows host (Action.executes p n executer) reg out =
    Holds (reg p n) (λ trx. host.actions trx ≡ ok out)
Allows host (Action.approves p n level hash) reg out = Holds (reg p n) (λ trx. out ≡ [])
Allows host (Action.unapproves p n level) reg out = Holds (reg p n) (λ trx. out ≡ [])
Allows host (Action.invalidates account) reg out = out ≡ []

abbrev pub packed : Option Proposal → Option Bytes
packed none = none
packed (some row) = some row.packed_transaction

abbrev quiet : {T : Type 0} → Result T → Result (T × List ℕ)
quiet r = r >>= λ st. ok (st, [])

module _ ⦃mi : MultiIndex⦄ where
  -- The registry that the tables hold.
  abbrev pub registry : Tables → Registry
  registry st p n = packed (find n (st.proposals p))

  -- An action of the contract, with the actions that it runs.
  unfoldable pub act : Packing → Caller → Action → Tables → Result (Tables × List ℕ)
  act host c (Action.proposes p n levels trx) st = quiet (propose host c p n levels trx st)
  act host c (Action.approves p n level hash) st = quiet (approve host c p n level hash st)
  act host c (Action.unapproves p n level) st = quiet (unapprove host c p n level st)
  act host c (Action.cancels p n canceler) st = quiet (cancel host c p n canceler st)
  act host c (Action.executes p n executer) st = exec host c p n executer st
  act host c (Action.invalidates account) st = quiet (invalidate c account st)
