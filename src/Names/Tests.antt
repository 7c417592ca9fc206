-- ===== src/Names/Tests.antt =====
-- Runs of eosio.names at concrete states, and each theorem at a concrete input.
use twig_system_contracts.Prelude.{
  ℕ, ◌+◌, ◌/◌, ◌<◌, true, some, List, [], ◌∷◌, pos, ◌≤ℤ◌, sub64, ◌≡◌, ◌≢◌, refl, arith, ◌==◌,
}
use twig_system_contracts.Chain.{
  find, store, erase, empty_table, at_scope, NameLib, Env, Asset, Result, ok, Send, Call,
}
use twig_system_contracts.Chain.Listed.{listed, bounded}
use twig_system_contracts.Names.State.{Tables, NameBid, BidRefund, token_account}
use twig_system_contracts.Names.Actions.{bidname, bidrefund, exec}
use twig_system_contracts.Names.History.{Action, act, run, Balances}
use twig_system_contracts.Names.Books.{run-Balances}
use twig_system_contracts.Names.Auction.{bidname_outbids}

instance abbrev plain : NameLib
plain = record { suffix = λ n. n; text = λ n. "twig" }

abbrev env : Env
env = record { self = 5; has_auth = λ n. true; is_account = λ n. n == 5; now = 60 }

-- The 64-bit value of the name "twig".
abbrev twig : ℕ
twig = 14924014371431514112

abbrev coins : ℕ → Asset
coins n = record { amount = pos n; symbol = 4 }

abbrev high : NameBid
high = record { newname = twig; high_bidder = 8; high_bid = coins 100; last_bid_time = 30 }

abbrev tables : Tables
tables = record {
  config = some 4;
  namebids = store twig high (empty_table NameBid);
  bidrefunds = λ n. empty_table BidRefund;
}

abbrev after : Tables
after = record tables {
  namebids =
      store twig (record high { high_bidder = 9; high_bid = coins 120; last_bid_time = 60 })
        tables.namebids;
  bidrefunds =
      at_scope twig (store 8 (record { bidder = 8; amount = coins 100 }) (empty_table BidRefund))
        tables.bidrefunds;
}

abbrev payment : Send
payment = record {
  actor = 9;
  contract = token_account;
  call = Call.transfer_one 9 5 (coins 120) "bid name twig";
}

bidname-tables : bidname env 9 twig (coins 120) tables ≡ ok (after, payment ∷ [])
unfolding bidname find store empty_table sub64
bidname-tables = refl

there : find twig tables.namebids ≡ some high
unfolding find store empty_table
there = refl

bidname_outbids_example :
    (pos 1 ≤ℤ pos 100)
    × (100 + 100 / 10 < 120)
    × (◌≢◌ {A = ℕ} 8 9)
    × (find twig after.namebids
        ≡ some (record high { high_bidder = 9; high_bid = coins 120; last_bid_time = 60 }))
bidname_outbids_example =
    bidname_outbids env 9 twig (coins 120) high tables (after, payment ∷ []) there (omega arith)
      (omega arith) bidname-tables

abbrev refunded : Tables
refunded = record after {
  bidrefunds = at_scope twig (erase 8 (after.bidrefunds twig)) after.bidrefunds;
}

abbrev repayment : Send
repayment = record {
  actor = 5;
  contract = token_account;
  call = Call.transfer_one 5 8 (coins 100) "refund bid on name twig";
}

bidrefund-after : bidrefund env 8 twig after ≡ ok (refunded, repayment ∷ [])
unfolding bidrefund find store erase empty_table
bidrefund-after = refl

abbrev acts : List (Env × Action)
acts =
    (env, Action.refunds 8 twig)
    ∷ (env, Action.bids 9 twig (coins 120))
    ∷ (env, Action.execs)
    ∷ (env, Action.refunds 8 twig)
    ∷ (env, Action.refunds 8 twig)
    ∷ []

abbrev any_symbol : ℕ → Result (Unit {0})
any_symbol n = ok tt

run-acts : run any_symbol acts tables ≡ (
  refunded,
  ((env, Action.bids 9 twig (coins 120)), payment ∷ [])
      ∷ ((env, Action.refunds 8 twig), repayment ∷ [])
      ∷ [],
)
unfolding run act exec bidname bidrefund find store erase empty_table sub64
run-acts = refl

run-Balances_example : Balances 4 twig tables (run any_symbol acts tables)
run-Balances_example =
    run-Balances any_symbol 4 twig acts tables
      (omega arith, (omega arith, (tt, (omega arith, (omega arith, tt)))))
