-- ===== src/Flow/Tests.antt =====
-- Runs of both contracts together at concrete tables, and each theorem at a concrete input.
use twig_system_contracts.Prelude.{
  ℕ, Bool, true, false, ◌*◌, pos_part, none, some, List, [], ◌∷◌, pos, ◌≤ℤ◌, ◌+ℤ◌, ◌-ℤ◌, add64,
  sub64, ◌≡◌, refl, subst, arith,
}
use twig_system_contracts.Chain.{
  Table, find, rows, store, empty_table, sum, sum_in, NameLib, Env, Asset, Result, ok, err,
}
use twig_system_contracts.Chain.Listed.{listed, bounded}
use twig_system_contracts.Token.State.{Tables, Supplies, Account, Unboxed, Drops, twig_symbol}
use twig_system_contracts.Token.Pairs.{
  transfer_one, transfer_loop, credit, settle, issue_loop, issue_one,
}
use twig_system_contracts.Token.Accounts.{put_balance}
use twig_system_contracts.Token.User.{transfer}
use twig_system_contracts.Token.Admin.{issue}
use twig_system_contracts.Token.Held.{held, IsFunded}
use twig_system_contracts.Token.Ledger.{IsSound}
use twig_system_contracts.Token.History.{Action}
use twig_system_contracts.System.State.{LuckyNumber, bank_account}
use twig_system_contracts.System.Lucky.{Shares, onchunk}
use twig_system_contracts.Bank.State.{Vesting, chunks_account, team_account}
use twig_system_contracts.Bank.Actions.{token_deposit, deposit, deposit_row, release}
use twig_system_contracts.Bank.Integers.{integers, integers-Ieee}
use twig_system_contracts.Bank.Vested.{IsFair, due}
use twig_system_contracts.Bank.Settling.{AllFair, AllFair-store, owed}
use twig_system_contracts.Flow.Delivery.{
  World, onchunk_all, transfer_all, onepoch_all, transfer_heard, notify, deliver, receive,
}
use twig_system_contracts.Flow.Solvent.{Covers}
use twig_system_contracts.Flow.Paying.{TakesTwig, IsOk}
use twig_system_contracts.Flow.Rewards.{IsReward, TakesReward, reward_all-goes}
use twig_system_contracts.Token.Supplying.{has}
use twig_system_contracts.Flow.Epoch.{IsServed, onepoch_all-goes}
use twig_system_contracts.Flow.Chunk.{IsSmall}
use twig_system_contracts.Flow.Events.{Event, Step, run_steps}
use twig_system_contracts.Flow.History.{run_steps-Covers}

instance abbrev plain : NameLib
plain = record { suffix = λ n. n; text = λ n. "team" }

abbrev env : Env
env = record { self = 1; has_auth = λ n. true; is_account = λ n. true; now = 60 }

abbrev coins : ℕ → Asset
coins n = record { amount = pos n; symbol = twig_symbol }

abbrev holds : ℕ → ℕ → Account
holds owner n = record { owner = owner; balance = (twig_symbol, pos n) ∷ [] }

abbrev accounts : Table Account
accounts = (
  (bank_account, holds bank_account 80) ∷ (chunks_account, holds chunks_account 100) ∷ [],
  omega arith,
)

abbrev supplies : Supplies
supplies = record {
  supply = (twig_symbol, pos 180) ∷ [];
  max_supply = (twig_symbol, pos 1000) ∷ [];
}

abbrev ledger : Tables
ledger = record {
  config = none;
  fungibles = none;
  supplies = some supplies;
  drops = empty_table Drops;
  accounts = accounts;
  unboxed = empty_table Unboxed;
}

abbrev row : Vesting
row = record {
  producer = team_account;
  vested = coins 20;
  unvesting_total = coins 100;
  unvested = coins 40;
  epoch = 2;
}

abbrev world : World
world = record { ledger = ledger; vestings = store team_account row (empty_table Vesting) }

row-IsFair : IsFair row
row-IsFair = record {
  vested_sign = omega arith;
  vested_range = (omega arith, omega arith);
  unvested_sign = omega arith;
  part = omega arith;
  total_sign = omega arith;
  total_range = (omega arith, omega arith);
}

ledger-IsSound : IsSound ledger
unfolding held sum_in IsFunded rows ◌+ℤ◌
ledger-IsSound = record {
  supplied = record {
    ranged = λ s. ground arith;
    capped = λ s. ground arith;
    limited = λ s. ground arith;
    same_keys = λ s. ground arith;
  };
  funded = (λ s. ground arith, (λ s. ground arith, tt));
  total = λ s. ground arith;
}

empty-AllFair : AllFair (empty_table Vesting)
unfolding find empty_table
empty-AllFair k r h = absurd (ground arith)

world-Covers : Covers bank_account (pos 0) world
unfolding owed sum sum_in due rows store find empty_table ◌+ℤ◌ ◌-ℤ◌
world-Covers = record {
  sound = ledger-IsSound;
  fair = AllFair-store team_account row (empty_table Vesting) empty-AllFair row-IsFair;
  backed = omega arith;
}

abbrev lucky : LuckyNumber
lucky = record {
  seed = [];
  odds = 256;
  epoch = 3;
  chunks_remaining = 60749;
  blocks_since = 0;
  total_blocks = 900;
  producer = 8;
}

-- A reward of 5 for the team comes in, and the 60 that were left to unvest go out.
abbrev rewarded : World
rewarded = record {
  ledger = record ledger {
    accounts = store team_account (holds team_account 60) (
        store bank_account (holds bank_account 25) (
          store bank_account (holds bank_account 85)
            (store chunks_account (holds chunks_account 95) accounts)));
  };
  vestings =
      store team_account (record row { vested = coins 25; unvested = coins 100 }) world.vestings;
}

transfer_all-world :
    transfer_all integers bank_account 2 env
      (some lucky)
      chunks_account
      bank_account
      (coins 5 ∷ [])
      "team_share"
      world
    ≡ ok rewarded
unfolding transfer_all transfer_heard notify deliver receive transfer transfer_loop transfer_one
    settle credit put_balance token_deposit deposit deposit_row release find rows store empty_table
    add64 sub64 ◌-ℤ◌
transfer_all-world = refl

-- Each share is one unit.
abbrev ones : Shares
ones = record {
  D = ℕ;
  of_int = pos_part;
  decimal = λ n d. n;
  minus = λ a b. a;
  times = λ a b. a * b;
  over = λ a b. a;
  to_int64 = λ a. ok (pos 1);
}

ones-IsSmall : IsSmall ones
ones-IsSmall = record { small = λ n v range h. ground arith }

abbrev went : Result World → Bool
went (ok w) = true
went (err e) = false

-- A chunk is issued and shared out, and the bank books its two shares and pays the 60.
onchunk_all-world : went (onchunk_all integers bank_account ones 2 env (some lucky) world) ≡ true
unfolding onchunk_all onchunk issue issue_loop issue_one transfer_heard notify deliver receive
    transfer transfer_loop transfer_one settle credit put_balance token_deposit deposit deposit_row
    release find rows store empty_table add64 sub64 ◌-ℤ◌
onchunk_all-world = refl

abbrev steps : List Step
steps =
    record {
      env = env;
      lucky = some lucky;
      event = Event.acts (Action.transfers chunks_account bank_account (coins 5 ∷ []) "team_share");
    }
    ∷ record { env = env; lucky = some lucky; event = Event.finds_chunk }
    ∷ record { env = env; lucky = some lucky; event = Event.ends_epoch 3 }
    ∷ record { env = env; lucky = none; event = Event.cleans_up }
    ∷ []

run_steps-Covers_example :
    Covers bank_account (pos 0) (run_steps integers ones bank_account 2 steps world)
run_steps-Covers_example =
    run_steps-Covers integers ones bank_account 2 steps world integers-Ieee ones-IsSmall
      (omega arith) world-Covers

bounded-TakesTwig : TakesTwig bounded
bounded-TakesTwig = record { makes = λ n h. ground arith; valid = λ n h. ground arith }

world-IsServed :
    (k : ℕ) (r : Vesting) → find k world.vestings ≡ some r → IsServed env bank_account r
unfolding find store empty_table
world-IsServed k r h =
    let same : row ≡ r = ground arith in
    subst (IsServed env bank_account) same (record { apart = refl; there = refl; core = refl })

onepoch_all-goes_example : IsOk (onepoch_all integers bank_account 1 env 3 (some lucky) world)
onepoch_all-goes_example =
    onepoch_all-goes integers bank_account 0 env lucky world bounded-TakesTwig world-IsServed refl
      world-Covers

coins-IsReward : IsReward bank_account lucky (coins 5) "team_share"
coins-IsReward = record {
  core = refl;
  positive = refl;
  range = (omega arith, omega arith);
  short = refl;
  meant = refl;
  booked = refl;
  apart = refl;
  few = omega arith;
}

world-TakesReward :
    (k : ℕ) (r : Vesting) → find k world.vestings ≡ some r → TakesReward env bank_account r
unfolding find store empty_table
world-TakesReward k r h =
    let same : row ≡ r = ground arith in
    subst (λ z. TakesReward env bank_account z) same
      (record {
        served = record { apart = refl; there = refl; core = refl };
        short = refl;
        small = omega arith;
      })

chunks-enough : pos 5 ≤ℤ has twig_symbol chunks_account ledger
unfolding find
chunks-enough = omega arith

reward_all-goes_example : IsOk (
    transfer_all integers bank_account 1 env
      (some lucky)
      chunks_account
      bank_account
      (coins 5 ∷ [])
      "team_share"
      world)
reward_all-goes_example =
    reward_all-goes integers bank_account 0 env lucky (coins 5) "team_share" world integers-Ieee
      bounded-TakesTwig coins-IsReward world-TakesReward refl refl chunks-enough world-Covers
