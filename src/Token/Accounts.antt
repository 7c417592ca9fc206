-- ===== src/Token/Accounts.antt =====
-- The rows of the table `accounts`: what an action reads of them, and how it writes a balance back.
use twig_system_contracts.Prelude.{ℕ, Option, none, some, [], ◌∷◌, pos, eqb_ℤ}
use twig_system_contracts.Chain.{MultiIndex, Table, store, emplace, Result, ok, ◌>>◌, check, Pairs}
use twig_system_contracts.Token.State.{Account}

-- `if (itr != end) balance = itr->balance`
abbrev pub balance_of : Option Account → Pairs
balance_of none = []
balance_of (some row) = row.balance

-- `if (itr == end) emplace else modify`, for the iterator that the action holds.
unfoldable pub put_balance :
    ⦃mi : MultiIndex⦄ → Option Account → ℕ → Pairs → Table Account → Result (Table Account)
put_balance none owner balance t = emplace owner (record { owner = owner; balance = balance }) t
put_balance (some row) owner balance t = ok (store owner (record row { balance = balance }) t)

-- The loop of `close`.
unfoldable pub check_empty : Pairs → Result (Unit {0})
check_empty [] = ok tt
check_empty ((sym, amount) ∷ rest) = do
  check (eqb_ℤ amount (pos 0)) "cannot close an account with a non-zero fungible balance: "
  check_empty rest
