-- ===== src/Token/Wrapping.antt =====
-- The guards of `issue` at their edges (contracts/twig.token/src/actions/contract.admin.cpp).
use twig_system_contracts.Prelude.{
  ℕ, ◌≤◌, ◌<◌, ◌^◌, ◌+◌, some, pos, add64, lookup, insert, lookup-insert, arith, ◌≡◌,
}
use twig_system_contracts.Chain.{Pairs, ok, err, message}
use twig_system_contracts.Token.State.{Supplies}
use twig_system_contracts.Token.Pairs.{issue_one, credit}
use twig_system_contracts.Token.Effects.{IsSupplied}

-- Where the sum of the supply and the amount passes 2^63 the guard of the limit does not refuse it:
-- the round goes through, and the supplies are no longer in order.
pub issue_one-wraps :
    (sym cur amount limit : ℕ) (x : Supplies) (b : Pairs)
    → lookup sym x.supply ≡ some (pos cur)
    → lookup sym x.max_supply ≡ some (pos limit)
    → cur < 2 ^ 62
    → amount < 2 ^ 63
    → 2 ^ 63 ≤ cur + amount
    → let y : Supplies × Pairs = (
      record x { supply = insert sym (add64 (pos cur) (pos amount)) x.supply },
      credit sym (pos amount) b,
    ) in
      (issue_one sym (pos amount) x b ≡ ok y) × (¬ IsSupplied y.0)
unfolding issue_one add64
issue_one-wraps sym cur amount limit x b ec el hc ha hs = (
  ground arith,
  λ sup.
      ground (arith, sup.ranged sym, lookup-insert sym sym (add64 (pos cur) (pos amount)) x.supply),
)

-- A request that would bring the supply exactly to its limit is refused.
pub issue_one_at_limit :
    (sym cur amount : ℕ) (x : Supplies) (b : Pairs)
    → lookup sym x.supply ≡ some (pos cur)
    → lookup sym x.max_supply ≡ some (pos (cur + amount))
    → cur + amount < 2 ^ 62
    → issue_one sym (pos amount) x b ≡ err (message "cannot issue above fungible max supply: ")
unfolding issue_one add64
issue_one_at_limit sym cur amount x b ec el h = ground arith
