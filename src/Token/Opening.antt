-- ===== src/Token/Opening.antt =====
-- `open`, `close` and `claimdrops` against the ledger (contracts/twig.token/src/actions/user.cpp).
use twig_system_contracts.Prelude.{
  ℕ, Option, none, some, [], ◌∷◌, pos, pos_part, neg_part, ◌+ℤ◌, int_laws, arith, true, ◌≡◌, ◌≢◌,
  refl, subst, ap, ◌∙◌, ◌⊎◌, inl, inr,
}
use twig_system_contracts.Chain.{
  MultiIndex, Table, find, store, erase, find-erase, Env, self_or_owner, Pairs, ok, or_fail, check,
  message, >>=-eq-ok,
}
use twig_system_contracts.Token.State.{Tables, Supplies, Account}
use twig_system_contracts.Token.Accounts.{balance_of, check_empty}
use twig_system_contracts.Token.User.{open_account, close}
use twig_system_contracts.Token.Amounts.{amount_of}
use twig_system_contracts.Token.Held.{
  held, IsFunded, held-store, held-erase, store-IsFunded, erase-IsFunded,
}
use twig_system_contracts.Token.Ledger.{IsSound, BacksAny}

-- A balance that passes the loop of `close` holds nothing.
check_empty-amount : (s : ℕ) (m : Pairs) → check_empty m ≡ ok tt → amount_of s m ≡ pos 0
unfolding check_empty
check_empty-amount s [] h = refl
check_empty-amount s (e ∷ m) h = ground (arith, check_empty-amount s m)

module _ ⦃mi : MultiIndex⦄ where
  -- Other accounts, with the same totals, back what the old ones did.
  pub BacksAny-same :
      (o : Option Supplies) (t t' : Table Account)
      → (IsFunded t → IsFunded t')
      → ((s : ℕ) → held s t' ≡ held s t)
      → BacksAny o t
      → BacksAny o t'
  BacksAny-same none t t' f same b = b
  BacksAny-same (some x) t t' f same b = record {
    supplied = b.supplied;
    funded = f b.funded;
    total = λ s. same s ∙ b.total s;
  }

  open_account-eq-ok :
      (e : Env) (owner : ℕ) (st st' : Tables)
      → open_account e owner st ≡ ok st'
      → let new : Account = record { owner = owner; balance = [] } in
        ((find owner st.accounts ≡ none)
          × (st' ≡ record st { accounts = store owner new st.accounts }))
        ⊎ (st' ≡ st)
  unfolding open_account
  open_account-eq-ok e owner st st' h = ground arith

  -- `open` leaves a sound ledger sound and the sums of the balances as they were; the account is
  -- there afterwards.
  pub open_account-IsSound :
      (e : Env) (owner : ℕ) (st st' : Tables)
      → IsSound st
      → open_account e owner st ≡ ok st'
      → IsSound st' × ((s : ℕ) → held s st'.accounts ≡ held s st.accounts)
  open_account-IsSound e owner st st' sound h = elim (open_account-eq-ok e owner st st' h) [
    | inr same ↦ rw same (sound, λ s. refl)
    | inl (new, es) ↦
        let row : Account = record { owner = owner; balance = [] } in
        let same : (s : ℕ) → held s (store owner row st.accounts) ≡ held s st.accounts = λ s.
          let g = held-store s owner row st.accounts in
          let g' : held s (store owner row st.accounts) +ℤ pos 0 ≡ held s st.accounts +ℤ pos 0 =
            rw new at g in
          omega (int_laws, ap pos_part g', ap neg_part g') in
        rw es (
          BacksAny-same st.supplies st.accounts _
              (λ f. store-IsFunded owner row st.accounts f (λ s. omega arith)) same sound,
          same,
        )
  ]

  -- On a sound ledger, a `close` that goes through was sent by the contract or the owner, for an
  -- account that was there and held nothing of any symbol. The account is gone; every other account
  -- and the supplies are as they were, and so are the sums of the balances and the soundness.
  pub close-IsSound :
      (e : Env) (owner : ℕ) (st st' : Tables)
      → IsSound st
      → close e owner st ≡ ok st'
      → IsSound st'
        × ((s : ℕ) → held s st'.accounts ≡ held s st.accounts)
        × (self_or_owner e owner ≡ true)
        × ((row : Account) × (find owner st.accounts ≡ some row)
            × ((s : ℕ) → amount_of s row.balance ≡ pos 0))
        × (find owner st'.accounts ≡ none)
        × ((other : ℕ) → other ≢ owner → find other st'.accounts ≡ find other st.accounts)
        × (st'.supplies ≡ st.supplies)
  unfolding close
  close-IsSound e owner st st' sound h =
      let (_, signed, h1) = >>=-eq-ok (check (self_or_owner e owner) "missing auth") _ h in
      let (row, er, h2) =
        >>=-eq-ok (or_fail (find owner st.accounts) (message "owner account not found")) _ h1 in
      let (_, empty, h3) = >>=-eq-ok (check_empty row.balance) _ h2 in
      let there : find owner st.accounts ≡ some row = ground arith in
      let es : st' ≡ record st { accounts = erase owner st.accounts } = cc in
      let same : (s : ℕ) → held s (erase owner st.accounts) ≡ held s st.accounts = λ s.
        let g = held-erase s owner st.accounts in
        let g' : held s (erase owner st.accounts) +ℤ amount_of s row.balance ≡ held s st.accounts =
          subst
            (λ o.
              held s (erase owner st.accounts) +ℤ amount_of s (balance_of o) ≡ held s st.accounts)
            there g in
        let z = check_empty-amount s row.balance empty in
        let g2 : held s (erase owner st.accounts) +ℤ pos 0 ≡ held s st.accounts = rw z at g' in
        omega (int_laws, ap pos_part g2, ap neg_part g2) in
      rw es (
        BacksAny-same st.supplies st.accounts _ (erase-IsFunded owner st.accounts) same sound,
        same,
        ground arith,
        (row, there, λ s. check_empty-amount s row.balance empty),
        ground (arith, find-erase owner owner st.accounts),
        λ other apart. ground (arith, find-erase other owner st.accounts),
        refl,
      )
