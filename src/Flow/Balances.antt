-- ===== src/Flow/Balances.antt =====
-- What the actions of twig.token, transfers aside, do to the balance of one account
-- (contracts/twig.token/src/actions).
use twig_system_contracts.Prelude.{
  ℕ, some, [], ◌∷◌, ℤ, pos, ◌≤ℤ◌, int_laws, ◌==◌, arith, ◌≡◌, refl, Bool-cases, inl, inr, eqb_ℤ,
}
use twig_system_contracts.Chain.{
  MultiIndex, Env, Pairs, ok, >>=-eq-ok, find, find-erase, find-store, self_or_owner, check,
  or_fail, message, erase,
}
use twig_system_contracts.Token.State.{Tables, Supplies}
use twig_system_contracts.Token.Pairs.{issue_one, issue_loop}
use twig_system_contracts.Token.Accounts.{balance_of, check_empty}
use twig_system_contracts.Token.Admin.{issue}
use twig_system_contracts.Token.User.{close, open_account}
use twig_system_contracts.Token.Amounts.{amount_of}
use twig_system_contracts.Token.Effects.{requested, IsModest}
use twig_system_contracts.Token.Ledger.{IsSound}
use twig_system_contracts.Token.Supplying.{has, issue-SupplyMoves, issue-eq-ok}

issue_one-positive :
    (sym : ℕ) (amount : ℤ) (x : Supplies) (b : Pairs) (y : Supplies × Pairs)
    → issue_one sym amount x b ≡ ok y
    → pos 0 ≤ℤ amount
unfolding issue_one
issue_one-positive sym amount x b y h = ground arith

-- What is issued of a symbol is not negative.
requested-sign :
    (s : ℕ) (tokens : Pairs) (x : Supplies) (b : Pairs) (y : Supplies × Pairs)
    → issue_loop tokens x b ≡ ok y
    → pos 0 ≤ℤ requested s tokens
unfolding issue_loop
requested-sign s [] x b y h = omega arith
requested-sign s ((k, v) ∷ rest) x b y h =
    let (mid, e, go) = >>=-eq-ok (issue_one k v x b) _ h in
    let here = issue_one-positive k v x b mid e in
    let there = requested-sign s rest mid.0 mid.1 y go in
    elim (Bool-cases (s == k)) [
      | inl same ↦ rw same (omega int_laws)
      | inr other ↦ rw other (omega int_laws)
    ]

empty_amount : (s : ℕ) (m : Pairs) → check_empty m ≡ ok tt → amount_of s m ≡ pos 0
unfolding check_empty
empty_amount s [] h = refl
empty_amount s ((k, v) ∷ rest) h =
    let (_, zero_here, go) = >>=-eq-ok (check (eqb_ℤ v (pos 0)) _) _ h in
    let ih = empty_amount s rest go in ground arith

module _ ⦃mi : MultiIndex⦄ where
  pub issue-raises :
      (e : Env) (owner other s : ℕ) (tokens : Pairs) (st st' : Tables)
      → IsSound st
      → IsModest tokens
      → issue e owner tokens st ≡ ok st'
      → has s other st ≤ℤ has s other st'
  issue-raises e owner other s tokens st st' sound modest h =
      let (x, y, row, ex, ey, eb, es) = issue-eq-ok e owner tokens st st' h in
      let sign = requested-sign s tokens x (balance_of (find owner st.accounts)) y ey in
      let m = issue-SupplyMoves e owner tokens st st' sound modest h in
      elim (Bool-cases (other == owner)) [
        | inl same ↦
            let here : other ≡ owner = ground arith in rw (here, m.own s) (omega (int_laws, sign))
        | inr apart ↦ rw (m.others other (ground arith)) (omega int_laws)
      ]

  pub close-keeps :
      (e : Env) (owner other s : ℕ) (st st' : Tables)
      → close e owner st ≡ ok st'
      → has s other st' ≡ has s other st
  unfolding close
  close-keeps e owner other s st st' h =
      let (_, _, h1) = >>=-eq-ok (check (self_or_owner e owner) "missing auth") _ h in
      let (row, er, h2) =
        >>=-eq-ok (or_fail (find owner st.accounts) (message "owner account not found")) _ h1 in
      let (_, empty, h3) = >>=-eq-ok (check_empty row.balance) _ h2 in
      let there : find owner st.accounts ≡ some row = ground arith in
      let es : st' ≡ record st { accounts = erase owner st.accounts } = cc in
      rw es (ground (arith, find-erase other owner st.accounts, empty_amount s row.balance empty))

  pub open_account-keeps :
      (e : Env) (owner other s : ℕ) (st st' : Tables)
      → open_account e owner st ≡ ok st'
      → has s other st' ≡ has s other st
  unfolding open_account
  open_account-keeps e owner other s st st' h =
      ground (arith, find-store other owner (record { owner = owner; balance = [] }) st.accounts)
