-- ===== src/Token/Admin.antt =====
-- The administration of twig.token (contracts/twig.token/src/actions/contract.admin.cpp). The memos
-- are read by nothing.
use twig_system_contracts.Prelude.{ℕ, some}
use twig_system_contracts.Chain.{
  MultiIndex, find, store, Env, require_auth, Result, ok, no_singleton, message, ◌>>=◌, ◌>>◌,
  or_fail, Pairs,
}
use twig_system_contracts.Token.State.{Tables}
use twig_system_contracts.Token.Pairs.{issue_loop, retire_loop}
use twig_system_contracts.Token.Accounts.{balance_of, put_balance}

module _ ⦃mi : MultiIndex⦄ where
  unfoldable pub issue : Env → ℕ → Pairs → Tables → Result Tables
  unfolding put_balance
  issue e owner tokens st = do
    require_auth e e.self
    supplies ← or_fail st.supplies no_singleton
    let itr = find owner st.accounts
    (supplies', balance) ← issue_loop tokens supplies (balance_of itr)
    accounts ← put_balance itr owner balance st.accounts
    ok (record st { accounts = accounts; supplies = some supplies' })

  unfoldable pub retire : Env → ℕ → Pairs → Tables → Result Tables
  retire e owner tokens st = do
    require_auth e e.self
    supplies ← or_fail st.supplies no_singleton
    row ← or_fail (find owner st.accounts) (message "owner account not found")
    (supplies', balance) ← retire_loop tokens supplies row.balance
    ok (record st {
      accounts = store owner (record row { balance = balance }) st.accounts;
      supplies = some supplies';
    })

  -- Only the authority is checked: the drawing is not written yet.
  unfoldable pub rolldrops : Env → Tables → Result Tables
  rolldrops e st = do require_auth e e.self; ok st

  unfoldable pub execdrops : Env → Tables → Result Tables
  execdrops e st = do require_auth e e.self; ok st
