-- ===== src/Bank/Tests.antt =====
-- Runs of eosio.bank at concrete tables, and each theorem at a concrete input.
use twig_system_contracts.Prelude.{
  ℕ, true, none, some, [], ◌∷◌, pos, ◌-ℤ◌, ◌+ℤ◌, ltb, add64, sub64, ◌≡◌, refl, if◌then◌else◌, arith,
  ◌≤ℤ◌,
}
use twig_system_contracts.Chain.{
  Table, find, rows, store, empty_table, NameLib, Env, Asset, ok, Send, Call, InRange,
}
use twig_system_contracts.Chain.Listed.{listed, bounded}
use twig_system_contracts.Token.State.{twig_symbol}
use twig_system_contracts.System.State.{LuckyNumber, lucky_number_chunks}
use twig_system_contracts.Bank.State.{Vesting, chunks_account, token_account, team_account}
use twig_system_contracts.Bank.Actions.{
  release, token_deposit, deposit, deposit_row, onepoch, finish_loop, finish_row,
}
use twig_system_contracts.Bank.Vested.{IsFair}
use twig_system_contracts.Bank.Recipients.{PaysAll, PaysPayee}
use twig_system_contracts.Bank.Settling.{AllFair, AllFair-store, Settles}
use twig_system_contracts.Bank.Solvency.{received, onepoch-Settles, token_deposit-Settles}
use twig_system_contracts.Bank.Integers.{integers, integers-Ieee}
use twig_system_contracts.Bank.Payout.{IsOpen, release_all}

instance abbrev plain : NameLib
plain = record { suffix = λ n. n; text = λ n. "team" }

abbrev env : Env
env = record { self = 77; has_auth = λ n. true; is_account = λ n. true; now = 60 }

abbrev coins : ℕ → Asset
coins n = record { amount = pos n; symbol = twig_symbol }

abbrev lucky : LuckyNumber
lucky = record {
  seed = [];
  odds = 256;
  epoch = 3;
  chunks_remaining = 60749;
  blocks_since = 0;
  total_blocks = 900;
  producer = 8;
}

abbrev row : Vesting
row = record {
  producer = team_account;
  vested = coins 20;
  unvesting_total = coins 100;
  unvested = coins 40;
  epoch = 2;
}

abbrev table : Table Vesting
table = store team_account row (empty_table Vesting)

row-IsFair : IsFair row
row-IsFair = record {
  vested_sign = omega arith;
  vested_range = (omega arith, omega arith);
  unvested_sign = omega arith;
  part = omega arith;
  total_sign = omega arith;
  total_range = (omega arith, omega arith);
}

row-IsOpen : IsOpen row
row-IsOpen = record { fair = row-IsFair; left = omega arith; small = omega arith }

release-row : release integers lucky twig_symbol row ≡ ok (some (coins 60))
unfolding release ◌-ℤ◌ sub64 add64
release-row = refl

release_all_example : some (coins 60) ≡ (
    if ltb lucky.chunks_remaining lucky_number_chunks
    then some (record {
      amount = row.unvesting_total.amount -ℤ row.unvested.amount;
      symbol = twig_symbol;
    })
    else none)
release_all_example =
    release_all integers lucky twig_symbol row (some (coins 60)) integers-Ieee row-IsOpen
      (omega arith) release-row

empty-AllFair : AllFair (empty_table Vesting)
unfolding find empty_table
empty-AllFair k r h = absurd (ground arith)

table-AllFair : AllFair table
table-AllFair = AllFair-store team_account row (empty_table Vesting) empty-AllFair row-IsFair

abbrev rolled : Vesting
rolled = record row { vested = coins 0; unvesting_total = coins 20; unvested = coins 0; epoch = 3 }

abbrev final_payment : Send
final_payment = record {
  actor = 77;
  contract = token_account;
  call = Call.transfer 77 team_account (coins 60 ∷ []) "Distributing end of Epoch rewards...";
}

onepoch-table :
    onepoch env 3 (some lucky) table ≡ ok (store team_account rolled table, final_payment ∷ [])
unfolding onepoch finish_loop finish_row rows find store empty_table sub64
onepoch-table = refl

onepoch-Settles_example :
    Settles table (pos 0) (store team_account rolled table) (final_payment ∷ [])
    × PaysAll 77 (rows table) (final_payment ∷ [])
onepoch-Settles_example =
    onepoch-Settles env 3 (some lucky) table (store team_account rolled table, final_payment ∷ [])
      table-AllFair onepoch-table

abbrev topped_up : Vesting
topped_up = record row { vested = coins 25; unvested = coins 100 }

abbrev reward : Send
reward = record {
  actor = 77;
  contract = token_account;
  call =
      Call.transfer 77 team_account (coins 60 ∷ [])
        "Distributing unvested production rewards for team";
}

token_deposit-table :
    token_deposit integers env (some lucky) chunks_account 77 (coins 5 ∷ []) "team_share" table
    ≡ ok (store team_account topped_up table, reward ∷ [])
unfolding token_deposit deposit deposit_row release find store empty_table ◌-ℤ◌ add64 sub64
token_deposit-table = refl

only_row : (k : ℕ) (r : Vesting) → find k table ≡ some r → r.vested ≡ coins 20
unfolding find store empty_table
only_row k r h = ground arith

coin_of : (q : Asset) → coins 5 ∷ [] ≡ q ∷ [] → q ≡ coins 5
coin_of q e = cc

room_left :
    (q : Asset) (k : ℕ) (r : Vesting)
    → coins 5 ∷ [] ≡ q ∷ []
    → find k table ≡ some r
    → InRange (r.vested.amount +ℤ q.amount)
unfolding ◌+ℤ◌
room_left q k r e h = rw (only_row k r h, coin_of q e) (omega arith, omega arith)

small_coin : (q : Asset) → coins 5 ∷ [] ≡ q ∷ [] → (pos 0 ≤ℤ q.amount) × InRange q.amount
small_coin q e = rw (coin_of q e) (omega arith, (omega arith, omega arith))

token_deposit-Settles_example :
    Settles table
      (received env chunks_account 77 (coins 5 ∷ []) "team_share")
      (store team_account topped_up table)
      (reward ∷ [])
    × PaysPayee 77 (some lucky) "team_share" table (reward ∷ [])
token_deposit-Settles_example =
    token_deposit-Settles integers env (some lucky) chunks_account 77 (coins 5 ∷ []) "team_share"
      table (store team_account topped_up table, reward ∷ []) integers-Ieee table-AllFair small_coin
      room_left token_deposit-table
