-- ===== src/Token/Tests.antt =====
-- Runs of twig.token at concrete states, and each theorem at a concrete input.
use twig_system_contracts.Prelude.{
  ℕ, ◌^◌, true, none, some, List, [], ◌∷◌, pos, ◌+ℤ◌, ◌-◌, add64, sub64, insert, arith, ◌≡◌, ◌≢◌,
  refl,
}
use twig_system_contracts.Chain.{
  self_or_owner, sum_in, Table, find, rows, store, erase, empty_table, Asset, Env, Pairs, ok, err,
  message,
}
use twig_system_contracts.Chain.Listed.{listed, bounded}
use twig_system_contracts.Token.State.{Tables, Supplies, Account, Unboxed, Drops, twig_symbol}
use twig_system_contracts.Token.Pairs.{
  issue_one, issue_loop, retire_one, retire_loop, transfer_one, transfer_loop, set_supply_one,
  remove_supply_one, credit, settle, set_supply_loop, remove_supply_loop,
}
use twig_system_contracts.Token.Amounts.{amount_of}
use twig_system_contracts.Token.Accounts.{put_balance, check_empty}
use twig_system_contracts.Token.Config.{cfginit, setsupplies, rmvsupply}
use twig_system_contracts.Token.Admin.{issue, retire}
use twig_system_contracts.Token.User.{open_account, close, transfer}
use twig_system_contracts.Token.Effects.{requested, IsSupplied}
use twig_system_contracts.Token.RetireLoop.{returned}
use twig_system_contracts.Token.Held.{held, IsFunded, held-empty, empty-IsFunded}
use twig_system_contracts.Token.TransferLoop.{moved}
use twig_system_contracts.Token.Ledger.{IsSound}
use twig_system_contracts.Token.Supplying.{SupplyMoves, issue-SupplyMoves, retire-SupplyMoves}
use twig_system_contracts.Token.Transferring.{TransferMoves, transfer-TransferMoves}
use twig_system_contracts.Token.Opening.{open_account-IsSound, close-IsSound}
use twig_system_contracts.Token.Wrapping.{issue_one-wraps, issue_one_at_limit}
use twig_system_contracts.Token.History.{
  Action, act, run, settled, act-IsSound, run-IsSound, cfginit-IsSound,
}

-- Account 5 runs the contract; every account has signed.
abbrev env : Env
env = record { self = 5; has_auth = λ n. true; is_account = λ n. true; now = 0 }

abbrev row : ℕ → Pairs → Account
row owner balance = record { owner = owner; balance = balance }

abbrev accounts : Table Account
accounts = ((7, row 7 ((1, pos 100) ∷ [])) ∷ (9, row 9 ((1, pos 20) ∷ [])) ∷ [], omega arith)

abbrev supplies : Supplies
supplies = record {
  supply = (1, pos 120) ∷ (2, pos 0) ∷ [];
  max_supply = (1, pos 1000) ∷ (2, pos 50) ∷ [];
}

abbrev tables : Tables
tables = record {
  config = none;
  fungibles = none;
  supplies = some supplies;
  drops = empty_table Drops;
  accounts = accounts;
  unboxed = empty_table Unboxed;
}

tables-IsSound : IsSound tables
unfolding held sum_in IsFunded rows ◌+ℤ◌
tables-IsSound = record {
  supplied = record {
    ranged = λ s. ground arith;
    capped = λ s. ground arith;
    limited = λ s. ground arith;
    same_keys = λ s. ground arith;
  };
  funded = (λ s. ground arith, (λ s. ground arith, tt));
  total = λ s. ground arith;
}

abbrev issued : Tables
issued = record tables {
  accounts = store 9 (row 9 ((1, pos 50) ∷ [])) accounts;
  supplies = some (record supplies { supply = (1, pos 150) ∷ (2, pos 0) ∷ [] });
}

issue-tables : issue env 9 ((1, pos 30) ∷ []) tables ≡ ok issued
unfolding issue issue_loop issue_one put_balance credit find store add64
issue-tables = refl

issue-SupplyMoves_example : SupplyMoves (λ s. requested s ((1, pos 30) ∷ [])) 9 tables issued
issue-SupplyMoves_example =
    issue-SupplyMoves env 9 ((1, pos 30) ∷ []) tables issued tables-IsSound (omega arith)
      issue-tables

abbrev retired : Tables
retired = record tables {
  accounts = store 9 (row 9 []) accounts;
  supplies = some (record supplies { supply = (1, pos 100) ∷ (2, pos 0) ∷ [] });
}

retire-tables : retire env 9 ((1, pos 20) ∷ []) tables ≡ ok retired
unfolding retire retire_loop retire_one settle find store sub64
retire-tables = refl

retire-SupplyMoves_example : SupplyMoves (λ s. returned s ((1, pos 20) ∷ [])) 9 tables retired
retire-SupplyMoves_example =
    retire-SupplyMoves env 9 ((1, pos 20) ∷ []) tables retired tables-IsSound (omega arith)
      retire-tables

abbrev paid : List Asset
paid = record { amount = pos 20; symbol = 1 } ∷ record { amount = pos 80; symbol = 1 } ∷ []

abbrev transferred : Tables
transferred = record tables {
  accounts = store 3 (row 3 ((1, pos 100) ∷ [])) (store 7 (row 7 []) accounts);
}

transfer-tables : transfer env 7 3 paid "rent" tables ≡ ok (transferred, 7 ∷ 3 ∷ [])
unfolding transfer transfer_loop transfer_one settle credit put_balance find store sub64 add64
transfer-tables = refl

transfer-TransferMoves_example : TransferMoves (λ s. moved s paid) 7 3 tables transferred
transfer-TransferMoves_example =
    transfer-TransferMoves env 7 3 paid "rent" tables (transferred, 7 ∷ 3 ∷ []) tables-IsSound
      transfer-tables

transfer_self : transfer env 7 7 paid "" tables ≡ err (message "cannot transfer to self")
unfolding transfer
transfer_self = refl

abbrev opened : Tables
opened = record tables { accounts = store 3 (row 3 []) accounts }

open_account-tables : open_account env 3 tables ≡ ok opened
unfolding open_account find store
open_account-tables = refl

open_account-IsSound_example :
    IsSound opened × ((s : ℕ) → held s opened.accounts ≡ held s tables.accounts)
open_account-IsSound_example =
    open_account-IsSound env 3 tables opened tables-IsSound open_account-tables

transferred-IsSound : IsSound transferred
transferred-IsSound =
    (transfer-TransferMoves env 7 3 paid "rent" tables (transferred, 7 ∷ 3 ∷ []) tables-IsSound
      transfer-tables).sound

abbrev closed : Tables
closed = record transferred { accounts = erase 7 transferred.accounts }

close-transferred : close env 7 transferred ≡ ok closed
unfolding close check_empty find store erase
close-transferred = refl

close-IsSound_example :
    IsSound closed
    × ((s : ℕ) → held s closed.accounts ≡ held s transferred.accounts)
    × (self_or_owner env 7 ≡ true)
    × ((r : Account) × (find 7 transferred.accounts ≡ some r)
        × ((s : ℕ) → amount_of s r.balance ≡ pos 0))
    × (find 7 closed.accounts ≡ none)
    × ((other : ℕ) → other ≢ 7 → find other closed.accounts ≡ find other transferred.accounts)
    × (closed.supplies ≡ transferred.supplies)
close-IsSound_example = close-IsSound env 7 transferred closed transferred-IsSound close-transferred

abbrev limited : Tables
limited = record tables {
  supplies = some (record {
    supply = (1, pos 120) ∷ (2, pos 0) ∷ (3, pos 0) ∷ [];
    max_supply = (1, pos 1000) ∷ (2, pos 50) ∷ (3, pos 7) ∷ [];
  });
}

setsupplies-tables : setsupplies env ((3, pos 7) ∷ []) tables ≡ ok limited
unfolding setsupplies set_supply_loop set_supply_one
setsupplies-tables = refl

abbrev unlimited : Tables
unlimited = record tables {
  supplies = some (record { supply = (1, pos 120) ∷ []; max_supply = (1, pos 1000) ∷ [] });
}

rmvsupply-tables : rmvsupply env ((2, pos 0) ∷ []) tables ≡ ok unlimited
unfolding rmvsupply remove_supply_loop remove_supply_one
rmvsupply-tables = refl

abbrev history : List (Env × Action)
history =
    (env, Action.issues 9 ((1, pos 30) ∷ []))
    ∷ (env, Action.transfers 7 9 paid "")
    ∷ (env, Action.closes 9)
    ∷ (env, Action.closes 7)
    ∷ []

act-IsSound_example : IsSound (settled tables (act env (Action.closes 9) tables))
act-IsSound_example = act-IsSound env (Action.closes 9) tables tt tables-IsSound

run-IsSound_example : IsSound (run history tables)
run-IsSound_example = run-IsSound history tables (omega arith) tables-IsSound

abbrev deployed : Tables
deployed = record tables { supplies = none; accounts = empty_table Account }

abbrev set_up : Tables
set_up = record deployed {
  config = some (record { core_symbol = twig_symbol; preserved = [] });
  fungibles = some [];
  supplies = some (record { supply = []; max_supply = [] });
}

cfginit-deployed : cfginit env deployed ≡ ok set_up
unfolding cfginit
cfginit-deployed = refl

cfginit-IsSound_example : IsSound set_up
cfginit-IsSound_example =
    cfginit-IsSound env deployed set_up empty-IsFunded held-empty cfginit-deployed

abbrev huge : Supplies × Pairs
huge = (
  record supplies { supply = insert 1 (add64 (pos 120) (pos (2 ^ 63 - 1))) supplies.supply },
  credit 1 (pos (2 ^ 63 - 1)) [],
)

issue_one-wraps_example :
    (issue_one 1 (pos (2 ^ 63 - 1)) supplies [] ≡ ok huge) × (¬ IsSupplied huge.0)
issue_one-wraps_example =
    issue_one-wraps 1 120 (2 ^ 63 - 1) 1000 supplies [] refl refl (omega arith) (omega arith)
      (omega arith)

issue_one_at_limit_example :
    issue_one 2 (pos 50) supplies [] ≡ err (message "cannot issue above fungible max supply: ")
issue_one_at_limit_example = issue_one_at_limit 2 0 50 supplies [] refl refl (omega arith)
