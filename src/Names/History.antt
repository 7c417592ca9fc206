-- ===== src/Names/History.antt =====
-- Histories of eosio.names: any sequence of its actions, each by any account, and what comes in and
-- goes out for one name (contracts/eosio.names/src/eosio.names.cpp).
use twig_system_contracts.Prelude.{
  ℕ, Bool, false, List, [], ◌∷◌, ◌++◌, ℤ, pos, ◌+ℤ◌, ◌==◌, ◌&&◌, if◌then◌else◌, ◌≡◌, ◌≢◌,
}
use twig_system_contracts.Chain.{
  MultiIndex, AssetLib, NameLib, Env, Asset, Result, ok, ◌>>=◌, state_after, noted, Send, Call,
}
use twig_system_contracts.Names.State.{Tables, token_account}
use twig_system_contracts.Names.Actions.{init, exec, cleanup, bidname, bidrefund}
use twig_system_contracts.Names.Escrow.{owed, value_in}

pub data Action : Type 0 where
  inits : Bool → ℕ → Action
  execs : Action
  cleans_up : ℕ → Action
  bids : ℕ → ℕ → Asset → Action
  refunds : ℕ → ℕ → Action

-- The actions that went through, by whom, and what they sent.
abbrev pub Log : Type 0
Log = List ((Env × Action) × List Send)

-- What a list of assets is worth in one symbol.
abbrev worth : ℕ → List Asset → ℤ
worth symbol [] = pos 0
worth symbol (a ∷ more) = value_in symbol a +ℤ worth symbol more

-- What a transfer of the token contract brings an account.
abbrev brings : ℕ → ℕ → Call → ℤ
brings symbol account (Call.transfer_one from to tokens memo) =
    if to == account then value_in symbol tokens else pos 0
brings symbol account (Call.transfer from to tokens memo) =
    if to == account then worth symbol tokens else pos 0
brings symbol account other = pos 0

-- What a transfer of the token contract takes from an account.
abbrev takes : ℕ → ℕ → Call → ℤ
takes symbol account (Call.transfer_one from to tokens memo) =
    if from == account then value_in symbol tokens else pos 0
takes symbol account (Call.transfer from to tokens memo) =
    if from == account then worth symbol tokens else pos 0
takes symbol account other = pos 0

-- A transfer that the token contract carries out: the account it takes from has signed.
abbrev is_paid : Send → Bool
is_paid s = s.contract == token_account && elim s.call [
  | Call.transfer_one from to tokens memo ↦ s.actor == from
  | Call.transfer from to tokens memo ↦ s.actor == from
  | _ ↦ false
]

-- What the inline actions of a list bring an account, and what they take from it.
unfoldable pub brought : ℕ → ℕ → List Send → ℤ
brought symbol account [] = pos 0
brought symbol account (s ∷ rest) =
    (if is_paid s then brings symbol account s.call else pos 0) +ℤ brought symbol account rest

unfoldable pub taken : ℕ → ℕ → List Send → ℤ
taken symbol account [] = pos 0
taken symbol account (s ∷ rest) =
    (if is_paid s then takes symbol account s.call else pos 0) +ℤ taken symbol account rest

-- The action is a bid on the name or a refund for it.
abbrev pub is_about : ℕ → Action → Bool
is_about n (Action.bids bidder m bid) = n == m
is_about n (Action.refunds bidder m) = n == m
is_about n other = false

-- What the bids and refunds of a name bring the contract, and what they take from it.
unfoldable pub came_in : ℕ → ℕ → Log → ℤ
came_in symbol n [] = pos 0
came_in symbol n (((e, a), out) ∷ log) =
    (if is_about n a then brought symbol e.self out else pos 0) +ℤ came_in symbol n log

unfoldable pub went_out : ℕ → ℕ → Log → ℤ
went_out symbol n [] = pos 0
went_out symbol n (((e, a), out) ∷ log) =
    (if is_about n a then taken symbol e.self out else pos 0) +ℤ went_out symbol n log

module _ ⦃mi : MultiIndex⦄ where
  -- What is owed for a name, what has gone out and what has come in add up.
  abbrev pub Balances : ℕ → ℕ → Tables → Tables × Log → Type 0
  Balances symbol n st r =
      owed symbol n r.0 +ℤ went_out symbol n r.1 ≡ owed symbol n st +ℤ came_in symbol n r.1

module _ ⦃mi : MultiIndex⦄ ⦃lib : AssetLib⦄ ⦃names : NameLib⦄ (exists : ℕ → Result (Unit {0})) where
  unfoldable pub act : Env → Action → Tables → Result (Tables × List Send)
  act e (Action.inits destruct core) st = init exists e destruct core st >>= λ st'. ok (st', [])
  act e Action.execs st = exec e st >>= λ st'. ok (st', [])
  act e (Action.cleans_up n) st = cleanup e n st >>= λ st'. ok (st', [])
  act e (Action.bids bidder n bid) st = bidname e bidder n bid st
  act e (Action.refunds bidder n) st = bidrefund e bidder n st

  unfoldable pub run : List (Env × Action) → Tables → Tables × Log
  run [] st = (st, [])
  run ((e, a) ∷ rest) st =
      let r = act e a st in
      let later = run rest (state_after st r) in (later.0, noted (e, a) r ++ later.1)

-- The action does not clean the name up, and is no bid of the contract itself and no refund to it.
abbrev pub Spares : ℕ → Env × Action → Type 0
Spares n (e, Action.cleans_up m) = n ≢ m
Spares n (e, Action.bids bidder m bid) = bidder ≢ e.self
Spares n (e, Action.refunds bidder m) = bidder ≢ e.self
Spares n (e, other) = Unit {0}

abbrev pub AllSpare : ℕ → List (Env × Action) → Type 0
AllSpare n [] = Unit {0}
AllSpare n (step ∷ rest) = Spares n step × AllSpare n rest
