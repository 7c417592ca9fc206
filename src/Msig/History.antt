-- ===== src/Msig/History.antt =====
-- Histories of eosio.msig: any sequence of its actions, each by any caller. An action that fails
-- changes nothing (contracts/eosio.msig/src/eosio.msig.cpp).
use mathlib.Core.Path.{fun_ext}
use twig_system_contracts.Prelude.{ℕ, List, [], ◌∷◌, ◌++◌, ◌≡◌, refl, subst}
use twig_system_contracts.Chain.{MultiIndex, Result, ok, err, state_after, noted}
use twig_system_contracts.Msig.State.{Packing, Caller, Tables}
use twig_system_contracts.Msig.Registry.{Action, Registry, registered, Allows, registry, act}
use twig_system_contracts.Msig.Following.{act-Follows}

-- The actions that went through, in their order, each with what it ran.
abbrev pub Log : Type 0
Log = List (Action × List ℕ)

unfoldable pub run : ⦃mi : MultiIndex⦄ → Packing → List (Caller × Action) → Tables → Tables × Log
run host [] st = (st, [])
run host ((c, a) ∷ rest) st =
    let r = act host c a st in
    let later = run host rest (state_after st r) in (later.0, noted a r ++ later.1)

-- The registry after a log.
unfoldable pub replay : Log → Registry → Registry
replay [] reg = reg
replay ((a, out) ∷ log) reg = replay log (registered a reg)

-- The registry allows each entry of a log where it stands.
unfoldable pub AllAllowed : Packing → Log → Registry → Type 0
AllAllowed host [] reg = Unit {0}
AllAllowed host ((a, out) ∷ log) reg =
    Allows host a reg out × AllAllowed host log (registered a reg)

-- A run ends at the registry that its log leaves, which allows each entry.
abbrev Refines : ⦃mi : MultiIndex⦄ → Packing → Tables × Log → Registry → Type 0
Refines host r reg = AllAllowed host r.1 reg × (registry r.0 ≡ replay r.1 reg)

module _ ⦃mi : MultiIndex⦄ (host : Packing) where
  -- One action before the rest of a run.
  run-step :
      (c : Caller) (a : Action) (st : Tables) (r : Result (Tables × List ℕ)) (later : Tables × Log)
      → act host c a st ≡ r
      → Refines host later (registry (state_after st r))
      → Refines host (later.0, noted a r ++ later.1) (registry st)
  unfolding AllAllowed replay
  run-step c a st (err e) later h ih = ih
  run-step c a st (ok r) later h ih =
      let f = act-Follows host c a st r h in
      let same : registry r.0 ≡ registered a (registry st) =
        fun_ext (λ q. fun_ext (λ m. f.after q m)) in
      let ih' : Refines host later (registered a (registry st)) =
        subst (Refines host later) same ih in
      ((f.allowed, ih'.0), ih'.1)

  -- Whatever the history, the registry allows each action that went through at its turn, with the
  -- actions that it ran, and at the end the tables hold the registry that these leave. So what runs
  -- under a proposer and a name are the actions of the transaction that was last proposed there, and
  -- after it has run or been cancelled nothing runs there until a new proposal.
  pub run_refines :
      (acts : List (Caller × Action)) (st : Tables)
      → AllAllowed host (run host acts st).1 (registry st)
        × (registry (run host acts st).0 ≡ replay (run host acts st).1 (registry st))
  unfolding run AllAllowed replay
  run_refines [] st = (tt, refl)
  run_refines ((c, a) ∷ rest) st =
      let r = act host c a st in
      run-step c a st r (run host rest (state_after st r)) refl
        (run_refines rest (state_after st r))
