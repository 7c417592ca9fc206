-- ===== src/Token/Held.antt =====
-- What the accounts hold of a symbol between them, and how a written or erased row changes it.
use twig_system_contracts.Prelude.{
  ℕ, Option, none, some, List, [], ◌∷◌, ℤ, pos, ◌+ℤ◌, ◌≤ℤ◌, int_laws, lookup, insert, remove, arith,
  ◌≡◌, refl,
}
use twig_system_contracts.Chain.{
  sum_in, sum, sum-store, sum-erase, weight_of, MultiIndex, Table, find, rows, store, erase,
  find-rows, rows-store, rows-erase, empty_table, rows-empty,
}
use twig_system_contracts.Token.State.{Account}
use twig_system_contracts.Token.Accounts.{balance_of}
use twig_system_contracts.Token.Amounts.{amount_of}

abbrev holding : ℕ → Account → ℤ
holding s row = amount_of s row.balance

weight-balance : (s : ℕ) (o : Option Account) → weight_of (holding s) o ≡ amount_of s (balance_of o)
weight-balance s none = refl
weight-balance s (some row) = refl

-- No account holds a negative amount.
abbrev pub AllFunded : List (ℕ × Account) → Type 0
AllFunded [] = Unit {0}
AllFunded ((k, row) ∷ m) = ((s : ℕ) → pos 0 ≤ℤ amount_of s row.balance) × AllFunded m

AllFunded-insert :
    (k : ℕ) (row : Account) (m : List (ℕ × Account))
    → AllFunded m
    → ((s : ℕ) → pos 0 ≤ℤ amount_of s row.balance)
    → AllFunded (insert k row m)
AllFunded-insert k row [] all new = (new, tt)
AllFunded-insert k row (e ∷ m) all new = ground (arith, AllFunded-insert k row m all.1 new)

AllFunded-remove : (k : ℕ) (m : List (ℕ × Account)) → AllFunded m → AllFunded (remove k m)
AllFunded-remove k [] all = tt
AllFunded-remove k (e ∷ m) all = ground (arith, AllFunded-remove k m all.1)

sum_in_nonneg : (s : ℕ) (m : List (ℕ × Account)) → AllFunded m → pos 0 ≤ℤ sum_in (holding s) m
unfolding sum_in
sum_in_nonneg s [] all = omega arith
sum_in_nonneg s (e ∷ m) all = omega (int_laws, all.0 s, sum_in_nonneg s m all.1)

sum_in_part :
    (s k : ℕ) (m : List (ℕ × Account))
    → AllFunded m
    → (pos 0 ≤ℤ amount_of s (balance_of (lookup k m)))
      × (amount_of s (balance_of (lookup k m)) ≤ℤ sum_in (holding s) m)
unfolding sum_in
sum_in_part s k [] all = omega arith
sum_in_part s k (e ∷ m) all =
    grind (int_laws, all.0 s, sum_in_nonneg s m all.1, sum_in_part s k m all.1)

module _ ⦃mi : MultiIndex⦄ where
  -- The total over the table.
  unfoldable pub held : ℕ → Table Account → ℤ
  unfolding sum
  held s t = sum (λ (row : Account). amount_of s row.balance) t

  unfoldable pub IsFunded : Table Account → Type 0
  IsFunded t = AllFunded (rows t)

  pub held-store :
      (s k : ℕ) (row : Account) (t : Table Account)
      → held s (store k row t) +ℤ amount_of s (balance_of (find k t))
        ≡ held s t +ℤ amount_of s row.balance
  unfolding held sum_in
  held-store s k row t = rw (← weight-balance s (find k t)) (sum-store (holding s) k row t)

  pub held-erase :
      (s k : ℕ) (t : Table Account)
      → held s (erase k t) +ℤ amount_of s (balance_of (find k t)) ≡ held s t
  unfolding held sum_in
  held-erase s k t = rw (← weight-balance s (find k t)) (sum-erase (holding s) k t)

  pub store-IsFunded :
      (k : ℕ) (row : Account) (t : Table Account)
      → IsFunded t
      → ((s : ℕ) → pos 0 ≤ℤ amount_of s row.balance)
      → IsFunded (store k row t)
  unfolding IsFunded
  store-IsFunded k row t all new = rw (rows-store k row t) (AllFunded-insert k row (rows t) all new)

  pub erase-IsFunded : (k : ℕ) (t : Table Account) → IsFunded t → IsFunded (erase k t)
  unfolding IsFunded
  erase-IsFunded k t all = rw (rows-erase k t) (AllFunded-remove k (rows t) all)

  -- No account holds more than all of them do.
  pub held_part :
      (s k : ℕ) (t : Table Account)
      → IsFunded t
      → (pos 0 ≤ℤ amount_of s (balance_of (find k t)))
        × (amount_of s (balance_of (find k t)) ≤ℤ held s t)
  unfolding held IsFunded
  held_part s k t all = rw (find-rows k t) (sum_in_part s k (rows t) all)

  pub held-empty : (s : ℕ) → held s (empty_table Account) ≡ pos 0
  unfolding held sum_in
  held-empty s = rw (rows-empty Account)

  pub empty-IsFunded : IsFunded (empty_table Account)
  unfolding IsFunded
  empty-IsFunded = rw (rows-empty Account) tt
