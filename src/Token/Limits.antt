-- ===== src/Token/Limits.antt =====
-- `setsupplies` and `rmvsupply` against the ledger
-- (contracts/twig.token/src/actions/contract.config.cpp).
use twig_system_contracts.Prelude.{
  ℕ, some, [], ◌∷◌, ℤ, pos, ◌≤ℤ◌, lookup, lookup-insert, lookup-remove, arith, ◌≡◌, refl, sym,
  subst, ◌∙◌,
}
use twig_system_contracts.Chain.{
  MultiIndex, Table, AssetLib, Env, Pairs, ok, or_fail, require_auth, no_singleton, is_some,
  >>=-eq-ok,
}
use twig_system_contracts.Token.State.{Tables, Supplies, Account}
use twig_system_contracts.Token.Pairs.{
  set_supply_one, set_supply_loop, remove_supply_one, remove_supply_loop,
}
use twig_system_contracts.Token.Config.{setsupplies, rmvsupply}
use twig_system_contracts.Token.Amounts.{amount_of, FromZero}
use twig_system_contracts.Token.Effects.{IsSupplied}
use twig_system_contracts.Token.Ledger.{IsSound, BacksAny, Backs}

-- The limits may have changed; the supplies are as they were, and in order.
pub record Relimits (x x' : Supplies) : Type 0 where
  pub sound : IsSupplied x'
  pub same : (s : ℕ) → amount_of s x'.supply ≡ amount_of s x.supply

abbrev RelimitsAt : ℕ → Supplies → Supplies → Type 0
RelimitsAt s x x' =
    FromZero (amount_of s x'.supply)
    × (amount_of s x'.supply ≤ℤ amount_of s x'.max_supply)
    × FromZero (amount_of s x'.max_supply)
    × (is_some (lookup s x'.supply) ≡ is_some (lookup s x'.max_supply))
    × (amount_of s x'.supply ≡ amount_of s x.supply)

Relimits-of_each : (x x' : Supplies) → ((s : ℕ) → RelimitsAt s x x') → Relimits x x'
Relimits-of_each x x' h = record {
  sound = record {
    ranged = λ s. (h s).0;
    capped = λ s. (h s).1;
    limited = λ s. (h s).2;
    same_keys = λ s. (h s).3;
  };
  same = λ s. (h s).4;
}

Relimits-trans : (x y z : Supplies) → Relimits x y → Relimits y z → Relimits x z
Relimits-trans x y z p q = record { sound = q.sound; same = λ s. q.same s ∙ p.same s }

module _ (s sym : ℕ) (x x' : Supplies) (sup : IsSupplied x) where
  remove_supply_one-At : remove_supply_one sym x ≡ ok x' → RelimitsAt s x x'
  unfolding remove_supply_one
  remove_supply_one-At h = ground (
    arith,
    sup.ranged s,
    sup.capped s,
    sup.limited s,
    sup.same_keys s,
    lookup-remove s sym x.supply,
    lookup-remove s sym x.max_supply,
  )

  set_supply_one-At :
      ⦃lib : AssetLib⦄ (amount : ℤ) → set_supply_one sym amount x ≡ ok x' → RelimitsAt s x x'
  unfolding set_supply_one
  set_supply_one-At ⦃lib⦄ amount h = grind (
    arith,
    sup.ranged s,
    sup.capped s,
    sup.limited s,
    sup.same_keys s,
    sup.same_keys sym,
    lookup-insert s sym (pos 0) x.supply,
    lookup-insert s sym amount x.max_supply,
    lib.make_fields,
    lib.valid_range,
  )

Relimits-self : (x : Supplies) → IsSupplied x → Relimits x x
Relimits-self x sup = record { sound = sup; same = λ s. refl }

remove_supply_loop-Relimits :
    (pairs : Pairs) (x x' : Supplies)
    → IsSupplied x
    → remove_supply_loop pairs x ≡ ok x'
    → Relimits x x'
unfolding remove_supply_loop
remove_supply_loop-Relimits [] x x' sup h = subst (Relimits x) (cc) (Relimits-self x sup)
remove_supply_loop-Relimits ((k, v) ∷ rest) x x' sup h =
    let (mid, e, go) = >>=-eq-ok (remove_supply_one k x) _ h in
    let first = Relimits-of_each x mid (λ s. remove_supply_one-At s k x mid sup e) in
    Relimits-trans x mid x' first (remove_supply_loop-Relimits rest mid x' first.sound go)

set_supply_loop-Relimits :
    ⦃lib : AssetLib⦄ (pairs : Pairs) (x x' : Supplies)
    → IsSupplied x
    → set_supply_loop pairs x ≡ ok x'
    → Relimits x x'
unfolding set_supply_loop
set_supply_loop-Relimits [] x x' sup h = subst (Relimits x) (cc) (Relimits-self x sup)
set_supply_loop-Relimits ((k, v) ∷ rest) x x' sup h =
    let (mid, e, go) = >>=-eq-ok (set_supply_one k v x) _ h in
    let first = Relimits-of_each x mid (λ s. set_supply_one-At s k x mid sup v e) in
    Relimits-trans x mid x' first (set_supply_loop-Relimits rest mid x' first.sound go)

module _ ⦃mi : MultiIndex⦄ where
  Relimits-Backs :
      (x x' : Supplies) (t : Table Account)
      → Backs x t
      → (IsSupplied x → Relimits x x')
      → Backs x' t
  Relimits-Backs x x' t b f =
      let r = f b.supplied in
      record { supplied = r.sound; funded = b.funded; total = λ s. b.total s ∙ sym (r.same s) }

  relimited :
      (st st' : Tables) (x x' : Supplies)
      → IsSound st
      → st.supplies ≡ some x
      → (IsSupplied x → Relimits x x')
      → st' ≡ record st { supplies = some x' }
      → IsSound st' × (st'.accounts ≡ st.accounts)
  relimited st st' x x' sound ex f es =
      rw es (Relimits-Backs x x' st.accounts (subst (λ o. BacksAny o st.accounts) ex sound) f, refl)

  -- New limits leave a sound ledger sound, and every account as it was.
  pub setsupplies-IsSound :
      ⦃lib : AssetLib⦄ (e : Env) (pairs : Pairs) (st st' : Tables)
      → IsSound st
      → setsupplies e pairs st ≡ ok st'
      → IsSound st' × (st'.accounts ≡ st.accounts)
  unfolding setsupplies
  setsupplies-IsSound e pairs st st' sound h =
      let (_, _, h1) = >>=-eq-ok (require_auth e e.self) _ h in
      let (x, ex, h2) = >>=-eq-ok (or_fail st.supplies no_singleton) _ h1 in
      let (x', ex', h3) = >>=-eq-ok (set_supply_loop pairs x) _ h2 in
      relimited st st' x x' sound (ground arith)
        (λ sup. set_supply_loop-Relimits pairs x x' sup ex') (cc)

  -- Removed limits leave a sound ledger sound, and every account as it was.
  pub rmvsupply-IsSound :
      (e : Env) (pairs : Pairs) (st st' : Tables)
      → IsSound st
      → rmvsupply e pairs st ≡ ok st'
      → IsSound st' × (st'.accounts ≡ st.accounts)
  unfolding rmvsupply
  rmvsupply-IsSound e pairs st st' sound h =
      let (_, _, h1) = >>=-eq-ok (require_auth e e.self) _ h in
      let (x, ex, h2) = >>=-eq-ok (or_fail st.supplies no_singleton) _ h1 in
      let (x', ex', h3) = >>=-eq-ok (remove_supply_loop pairs x) _ h2 in
      relimited st st' x x' sound (ground arith)
        (λ sup. remove_supply_loop-Relimits pairs x x' sup ex') (cc)
