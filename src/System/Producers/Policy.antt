-- ===== src/System/Producers/Policy.antt =====
-- The finalizer policy (contracts/eosio.system/src/functions/functions.producers.cpp:
-- get_last_proposed_finalizers, is_savanna_consensus, set_proposed_finalizers).
use twig_system_contracts.Prelude.{
  Bool, true, false, not, Option, none, some, List, [], ◌∷◌, ◌+◌, ◌*◌, ◌/◌, length, map, sort_by,
  if◌then◌else◌,
}
use twig_system_contracts.Chain.{MultiIndex, find, store, Result, ok, ◌>>◌}
use twig_system_contracts.System.Producers.State.{
  FinalizerPolicy, FinalizerAuthInfo, Host, Registry, same_infos,
}

abbrev pub is_empty {ℓ} : {A : Type ℓ} → List A → Bool
is_empty [] = true
is_empty (x ∷ xs) = false

abbrev pub policy_of : List FinalizerAuthInfo → FinalizerPolicy
policy_of proposed = record {
  threshold = length (map (λ k. k.fin_authority) proposed) * 2 / 3 + 1;
  finalizers = map (λ k. k.fin_authority) proposed;
}

module _ ⦃mi : MultiIndex⦄ (host : Host) where
  -- The cache, filled from the table if it is empty. An assignment of `{}` leaves it empty.
  abbrev pub filled : Registry → Option (List FinalizerAuthInfo)
  filled s = elim s.cached [ none ↦ find 0 s.lastpropfins | some l ↦ some l ]

  unfoldable pub get_last_proposed_finalizers : Registry → List FinalizerAuthInfo
  get_last_proposed_finalizers s = elim (filled s) [ none ↦ host.unset | some l ↦ l ]

  unfoldable pub is_savanna_consensus : Registry → Bool
  unfolding get_last_proposed_finalizers
  is_savanna_consensus s = not (is_empty (get_last_proposed_finalizers s))

  unfoldable pub set_proposed_finalizers : List FinalizerAuthInfo → Registry → Result Registry
  unfolding sort_by get_last_proposed_finalizers
  set_proposed_finalizers proposed s =
      let sorted = sort_by (λ k. k.key_id) proposed in
      if same_infos sorted (get_last_proposed_finalizers s)
      then ok (record s { cached = filled s })
      else (do
        host.set_finalizers (policy_of sorted)
        ok (record s {
          lastpropfins = store 0 sorted s.lastpropfins;
          cached = some sorted;
          policies = policy_of sorted ∷ s.policies;
        }))
