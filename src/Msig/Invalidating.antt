-- ===== src/Msig/Invalidating.antt =====
-- What `invalidate` does to the approvals that count
-- (contracts/eosio.msig/src/eosio.msig.cpp).
use twig_system_contracts.Prelude.{
  ℕ, false, List, [], ◌∷◌, ◌≤◌, ◌==◌, if◌then◌else◌, arith, ◌≡◌, refl, Option-cases, inl, inr,
}
use twig_system_contracts.Chain.{
  MultiIndex, Table, find, store, find-store, ok, >>=-eq-ok, require_auth,
}
use twig_system_contracts.Msig.State.{Level, Caller, Approval, Invalid, Tables}
use twig_system_contracts.Msig.Approvals.{counts, valid_levels}
use twig_system_contracts.Msig.Executing.{invalidate}

-- The levels without those of an account.
abbrev pub without_account : ℕ → List Level → List Level
without_account account [] = []
without_account account (level ∷ rest) =
    let others = without_account account rest in
    if level.actor == account then others else level ∷ others

-- No approval is from after `now`.
abbrev pub AllBefore : ℕ → List Approval → Type 0
AllBefore now [] = Unit
AllBefore now (a ∷ rest) = (a.time ≤ now) × AllBefore now rest

module _ ⦃mi : MultiIndex⦄ where
  invalidate-eq-ok :
      (c : Caller) (account : ℕ) (st st' : Tables)
      → invalidate c account st ≡ ok st'
      → (row : Invalid) × (row.last_invalidation_time ≡ c.now)
        × (st'.invalids ≡ store account row st.invalids)
  unfolding invalidate
  invalidate-eq-ok c account st st' h =
      let (_, _, h1) = >>=-eq-ok (require_auth c.env account) _ h in
      elim (Option-cases (find account st.invalids)) [
        | inl new ↦
            (record { account = account; last_invalidation_time = c.now }, refl, ground arith)
        | inr (row, old) ↦ (record row { last_invalidation_time = c.now }, refl, ground arith)
      ]

  counts_after :
      (account now : ℕ) (row : Invalid) (invalids : Table Invalid) (a : Approval)
      → row.last_invalidation_time ≡ now
      → a.time ≤ now
      → counts (find a.level.actor (store account row invalids)) a
        ≡ (if a.level.actor == account then false else counts (find a.level.actor invalids) a)
  unfolding counts
  counts_after account now row invalids a e before =
      ground (arith, find-store a.level.actor account row invalids)

  valid_levels-store :
      (account now : ℕ) (row : Invalid) (invalids : Table Invalid) (l : List Approval)
      → row.last_invalidation_time ≡ now
      → AllBefore now l
      → valid_levels (store account row invalids) l
        ≡ without_account account (valid_levels invalids l)
  unfolding valid_levels
  valid_levels-store account now row invalids [] e b = refl
  valid_levels-store account now row invalids (a ∷ l) e (b, bs) =
      let ih = valid_levels-store account now row invalids l e bs in
      let here = counts_after account now row invalids a e b in ground arith

  -- Once an account has invalidated, the approvals that count of any proposal are those that
  -- counted before, less the account's own, as long as none of them is from the future.
  pub invalidate_lem :
      (c : Caller) (account : ℕ) (st st' : Tables) (l : List Approval)
      → invalidate c account st ≡ ok st'
      → AllBefore c.now l
      → valid_levels st'.invalids l ≡ without_account account (valid_levels st.invalids l)
  invalidate_lem c account st st' l h before =
      let (row, e, eq) = invalidate-eq-ok c account st st' h in
      rw eq (valid_levels-store account c.now row st.invalids l e before)
