-- ===== src/Token/User.antt =====
-- The actions of users of twig.token (contracts/twig.token/src/actions/user.cpp).
use twig_system_contracts.Prelude.{
  ℕ, none, some, not, List, [], ◌∷◌, String, ltb, leb, ◌==◌, ◌&&◌, length,
}
use twig_system_contracts.Chain.{
  MultiIndex, Table, find, store, erase, emplace, AssetLib, Env, require_auth, self_or_owner, size,
  Asset, Result, ok, message, ◌>>=◌, ◌>>◌, check, or_fail, Pairs, Send, Call,
}
use twig_system_contracts.Token.State.{Tables, Unboxed}
use twig_system_contracts.Token.Pairs.{credit, transfer_loop}
use twig_system_contracts.Token.Accounts.{balance_of, put_balance, check_empty}

-- The inner loop of `claimdrops`.
unfoldable pub credit_all : Pairs → Pairs → Pairs
unfolding credit
credit_all [] acc = acc
credit_all ((sym, amount) ∷ tokens) acc = credit_all tokens (credit sym amount acc)

module _ ⦃mi : MultiIndex⦄ where
  unfoldable pub open_account : Env → ℕ → Tables → Result Tables
  open_account e owner st = do
    check (self_or_owner e owner) "missing auth"
    elim (find owner st.accounts) [
      | none ↦ do
        accounts ← emplace owner (record { owner = owner; balance = [] }) st.accounts
        ok (record st { accounts = accounts })
      | some row ↦ ok st
    ]

  unfoldable pub close : Env → ℕ → Tables → Result Tables
  unfolding check_empty
  close e owner st = do
    check (self_or_owner e owner) "missing auth"
    row ← or_fail (find owner st.accounts) (message "owner account not found")
    check_empty row.balance
    ok (record st { accounts = erase owner st.accounts })

  -- The outer loop of `claimdrops`.
  unfoldable pub claim_loop : List ℕ → ℕ → Pairs → Table Unboxed → Result (Pairs × Table Unboxed)
  unfolding credit_all
  claim_loop [] owner acc unboxed = ok (acc, unboxed)
  claim_loop (index ∷ indices) owner acc unboxed = do
    row ← or_fail (find index unboxed) (message "index not found")
    check (row.owner == owner) "missing ownership"
    claim_loop indices owner (credit_all row.tokens acc) (erase index unboxed)

  unfoldable pub claimdrops : Env → List ℕ → ℕ → Tables → Result (Tables × List Send)
  claimdrops e indices owner st = do
    check (self_or_owner e owner) "missing auth"
    (tokens, unboxed) ← claim_loop indices owner [] st.unboxed
    ok (
      record st { unboxed = unboxed },
      record {
        actor = e.self;
        contract = e.self;
        call = Call.issue owner tokens "claiming token drops";
      }
          ∷ [],
    )

  -- The second part of the result is the accounts that are notified.
  unfoldable pub transfer :
      ⦃lib : AssetLib⦄ → Env → ℕ → ℕ → List Asset → String → Tables → Result (Tables × List ℕ)
  unfolding put_balance
  transfer e from to tokens memo st = do
    require_auth e from
    check (not (from == to)) "cannot transfer to self"
    check (e.is_account to) "to account does not exist"
    check (leb (size memo) 256) "memo has more than 256 bytes"
    check (ltb 0 (length tokens) && ltb (length tokens) 100) "invalid tokens.size()"
    row ← or_fail (find from st.accounts) (message "from account not found")
    let to_itr = find to st.accounts
    (from_balance, to_balance) ← transfer_loop tokens row.balance (balance_of to_itr)
    accounts ←
        put_balance to_itr to to_balance
          (store from (record row { balance = from_balance }) st.accounts)
    ok (record st { accounts = accounts }, from ∷ to ∷ [])
