-- ===== src/Token/Supplying.antt =====
-- `issue` and `retire` against the ledger (contracts/twig.token/src/actions/contract.admin.cpp).
use twig_system_contracts.Prelude.{ℕ, some, ℤ, ◌+ℤ◌, arith, ◌≡◌, refl, subst, ◌≢◌}
use twig_system_contracts.Chain.{
  MultiIndex, find, store, find-store, Env, Pairs, ok, or_fail, require_auth, no_singleton, message,
  >>=-eq-ok,
}
use twig_system_contracts.Token.State.{Tables, Supplies, Account}
use twig_system_contracts.Token.Pairs.{issue_loop, retire_loop}
use twig_system_contracts.Token.Accounts.{balance_of, put_balance}
use twig_system_contracts.Token.Admin.{issue, retire}
use twig_system_contracts.Token.Amounts.{amount_of}
use twig_system_contracts.Token.Effects.{requested, Moves, IsModest}
use twig_system_contracts.Token.IssueLoop.{issue_loop-Moves}
use twig_system_contracts.Token.RetireLoop.{IsHeld, returned, retire_loop-Moves}
use twig_system_contracts.Token.Held.{held}
use twig_system_contracts.Token.Ledger.{
  IsSound, BacksAny, Backs, balance-IsPart, Moves-Backs, put_balance-eq-ok,
}

module _ ⦃mi : MultiIndex⦄ where
  -- What the owner has of a symbol.
  abbrev pub has : ℕ → ℕ → Tables → ℤ
  has s owner st = amount_of s (balance_of (find owner st.accounts))

  -- The action has moved the supply and the owner's balance by `delta`, no other account, and has
  -- left the ledger sound.
  pub record SupplyMoves (delta : ℕ → ℤ) (owner : ℕ) (st st' : Tables) : Type 0 where
    pub sound : IsSound st'
    pub total : (s : ℕ) → held s st'.accounts ≡ held s st.accounts +ℤ delta s
    pub own : (s : ℕ) → has s owner st' ≡ has s owner st +ℤ delta s
    pub others : (other : ℕ) → other ≢ owner → find other st'.accounts ≡ find other st.accounts

  Moves-SupplyMoves :
      (delta : ℕ → ℤ) (owner : ℕ) (st : Tables) (x : Supplies) (y : Supplies × Pairs)
      (row : Account)
      → st.supplies ≡ some x
      → IsSound st
      → Moves delta (x, balance_of (find owner st.accounts)) y
      → row.balance ≡ y.1
      → SupplyMoves delta owner st
          (record st { accounts = store owner row st.accounts; supplies = some y.0 })
  Moves-SupplyMoves delta owner st x y row ex sound m eb =
      let b : Backs x st.accounts = subst (λ o. BacksAny o st.accounts) ex sound in
      let b' = Moves-Backs delta x st.accounts owner y row b m eb in
      record {
        sound = b';
        total = λ s. rw (b'.total s, m.supplied s, b.total s);
        own = λ s. ground (arith, find-store owner owner row st.accounts, eb, m.balanced s);
        others = λ other ne. ground (arith, find-store other owner row st.accounts);
      }

  pub issue-eq-ok :
      (e : Env) (owner : ℕ) (tokens : Pairs) (st st' : Tables)
      → issue e owner tokens st ≡ ok st'
      → (x : Supplies) × (y : Supplies × Pairs) × (row : Account) × (st.supplies ≡ some x)
        × (issue_loop tokens x (balance_of (find owner st.accounts)) ≡ ok y)
        × (row.balance ≡ y.1)
        × (st' ≡ record st { accounts = store owner row st.accounts; supplies = some y.0 })
  unfolding issue
  issue-eq-ok e owner tokens st st' h =
      let (_, _, h1) = >>=-eq-ok (require_auth e e.self) _ h in
      let (x, ex, h2) = >>=-eq-ok (or_fail st.supplies no_singleton) _ h1 in
      let (y, ey, h3) =
        >>=-eq-ok (issue_loop tokens x (balance_of (find owner st.accounts))) _ h2 in
      let (t, et, h4) =
        >>=-eq-ok (put_balance (find owner st.accounts) owner y.1 st.accounts) _ h3 in
      let (row, er, eb) = put_balance-eq-ok (find owner st.accounts) owner y.1 st.accounts t et in
      (x, y, row, ground arith, ey, eb, cc)

  retire-eq-ok :
      (e : Env) (owner : ℕ) (tokens : Pairs) (st st' : Tables)
      → retire e owner tokens st ≡ ok st'
      → (x : Supplies) × (y : Supplies × Pairs) × (row : Account) × (st.supplies ≡ some x)
        × (retire_loop tokens x (balance_of (find owner st.accounts)) ≡ ok y)
        × (row.balance ≡ y.1)
        × (st' ≡ record st { accounts = store owner row st.accounts; supplies = some y.0 })
  unfolding retire
  retire-eq-ok e owner tokens st st' h =
      let (_, _, h1) = >>=-eq-ok (require_auth e e.self) _ h in
      let (x, ex, h2) = >>=-eq-ok (or_fail st.supplies no_singleton) _ h1 in
      let (row, er, h3) =
        >>=-eq-ok (or_fail (find owner st.accounts) (message "owner account not found")) _ h2 in
      let (y, ey, h4) = >>=-eq-ok (retire_loop tokens x row.balance) _ h3 in
      let there : find owner st.accounts ≡ some row = ground arith in
      (x, y, record row { balance = y.1 }, ground arith, rw there ey, refl, cc)

  -- On a sound ledger, with no amount of 2^62 or more, an `issue` that goes through leaves the
  -- ledger sound. Of each symbol it raises the sum of all balances and the owner's balance by what
  -- was asked for, and it changes no other account.
  pub issue-SupplyMoves :
      (e : Env) (owner : ℕ) (tokens : Pairs) (st st' : Tables)
      → IsSound st
      → IsModest tokens
      → issue e owner tokens st ≡ ok st'
      → SupplyMoves (λ s. requested s tokens) owner st st'
  issue-SupplyMoves e owner tokens st st' sound modest h =
      let (x, y, row, ex, ey, eb, es) = issue-eq-ok e owner tokens st st' h in
      let b : Backs x st.accounts = subst (λ o. BacksAny o st.accounts) ex sound in
      let part = balance-IsPart x st.accounts owner b in
      rw es (
        Moves-SupplyMoves (λ s. requested s tokens) owner st x y row ex sound
          (issue_loop-Moves tokens x _ y b.supplied part modest ey) eb)

  -- On a sound ledger, with amounts that are each an int64_t, a `retire` that goes through leaves the
  -- ledger sound. Of each symbol it lowers
  -- the sum of all balances and the owner's balance by what was asked for, and it changes no other
  -- account.
  pub retire-SupplyMoves :
      (e : Env) (owner : ℕ) (tokens : Pairs) (st st' : Tables)
      → IsSound st
      → IsHeld tokens
      → retire e owner tokens st ≡ ok st'
      → SupplyMoves (λ s. returned s tokens) owner st st'
  retire-SupplyMoves e owner tokens st st' sound fits h =
      let (x, y, row, ex, ey, eb, es) = retire-eq-ok e owner tokens st st' h in
      let b : Backs x st.accounts = subst (λ o. BacksAny o st.accounts) ex sound in
      let part = balance-IsPart x st.accounts owner b in
      rw es (
        Moves-SupplyMoves (λ s. returned s tokens) owner st x y row ex sound
          (retire_loop-Moves tokens x _ y b.supplied part fits ey) eb)
