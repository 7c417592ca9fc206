-- ===== src/Token/IssueLoop.antt =====
-- The loop of `issue` (contracts/twig.token/src/actions/contract.admin.cpp).
use twig_system_contracts.Prelude.{
  ℕ, ◌<◌, ◌^◌, [], ◌∷◌, ℤ, pos, pos_part, ◌+ℤ◌, add64, add64_exact, lookup-insert, arith, ◌≡◌,
  subst,
}
use twig_system_contracts.Chain.{Pairs, ok, >>=-eq-ok}
use twig_system_contracts.Token.State.{Supplies}
use twig_system_contracts.Token.Pairs.{issue_one, issue_loop}
use twig_system_contracts.Token.Amounts.{amount_of, amount_of-credit}
use twig_system_contracts.Token.Effects.{
  IsSupplied, IsPart, only, requested, Moves, IsModest, MovesAt, Moves-of_each, Moves-trans,
  Moves-none,
}

module _ (s sym : ℕ) (amount : ℤ) (x : Supplies) (b : Pairs) (y : Supplies × Pairs)
    (sup : IsSupplied x) (part : IsPart b x) (modest : pos_part amount < 2 ^ 62) where
  issue_one-amounts : issue_one sym amount x b ≡ ok y → MovesAt s (only s sym amount) x b y
  unfolding issue_one ◌+ℤ◌
  issue_one-amounts h = ground (
    arith,
    sup.ranged sym,
    sup.ranged s,
    sup.capped s,
    sup.limited sym,
    part sym,
    part s,
    lookup-insert s sym (add64 (amount_of sym x.supply) amount) x.supply,
    add64_exact (amount_of sym x.supply) amount,
    amount_of-credit s sym amount b,
  )

issue_one-Moves :
    (sym : ℕ) (amount : ℤ) (x : Supplies) (b : Pairs) (y : Supplies × Pairs)
    → IsSupplied x
    → IsPart b x
    → pos_part amount < 2 ^ 62
    → issue_one sym amount x b ≡ ok y
    → Moves (λ s. only s sym amount) (x, b) y
issue_one-Moves sym amount x b y sup part modest h =
    Moves-of_each (λ s. only s sym amount) x b y sup
      λ s. issue_one-amounts s sym amount x b y sup part modest h

-- An `issue` that goes through adds what was asked for, to the supplies and to the balance alike.
pub issue_loop-Moves :
    (tokens : Pairs) (x : Supplies) (b : Pairs) (y : Supplies × Pairs)
    → IsSupplied x
    → IsPart b x
    → IsModest tokens
    → issue_loop tokens x b ≡ ok y
    → Moves (λ s. requested s tokens) (x, b) y
unfolding issue_loop
issue_loop-Moves [] x b y sup part modest h =
    subst (Moves (λ s. pos 0) (x, b)) (cc) (Moves-none x b sup part)
issue_loop-Moves ((k, v) ∷ rest) x b y sup part modest h =
    let (mid, e, go) = >>=-eq-ok (issue_one k v x b) _ h in
    let first = issue_one-Moves k v x b mid sup part modest.0 e in
    Moves-trans first (issue_loop-Moves rest mid.0 mid.1 y first.sound first.part modest.1 go)
