-- ===== src/Msig/Approvals.antt =====
-- The lists of approvals of eosio.msig (contracts/eosio.msig/src/eosio.msig.cpp).
use twig_system_contracts.Prelude.{
  ℕ, Bool, true, false, Option, none, some, List, [], ◌∷◌, ltb, if◌then◌else◌,
}
use twig_system_contracts.Chain.{MultiIndex, Table, find}
use twig_system_contracts.Msig.State.{Level, eq_level, Approval, Invalid, Tables}

-- `find_if` for the level and `erase` of what it finds: the list without its first approval of the
-- level, or `none` if it has none.
unfoldable pub take_out : Level → List Approval → Option (List Approval)
take_out level [] = none
take_out level (a ∷ rest) = elim (eq_level a.level level) [
  | true ↦ some rest
  | false ↦ elim (take_out level rest) [ none ↦ none | some left ↦ some (a ∷ left) ]
]

-- An approval counts unless its actor has invalidated at its time or later.
unfoldable pub counts : Option Invalid → Approval → Bool
counts none a = true
counts (some row) a = ltb row.last_invalidation_time a.time

module _ ⦃mi : MultiIndex⦄ where
  -- The loop of `get_approvals_and_adjust_table`.
  unfoldable pub valid_levels : Table Invalid → List Approval → List Level
  unfolding counts
  valid_levels invalids [] = []
  valid_levels invalids (a ∷ rest) =
      let others = valid_levels invalids rest in
      if counts (find a.level.actor invalids) a then a.level ∷ others else others

  -- `get_approvals_and_adjust_table` with the operation that changes nothing.
  unfoldable pub get_approvals : ℕ → ℕ → Tables → List Level
  unfolding valid_levels
  get_approvals proposer proposal_name st = elim (find proposal_name (st.approvals proposer)) [
    | none ↦ []
    | some row ↦ valid_levels st.invalids row.provided_approvals
  ]
