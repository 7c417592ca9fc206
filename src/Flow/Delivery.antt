-- ===== src/Flow/Delivery.antt =====
-- A transaction on the tables of twig.token and eosio.bank. As nodeos documents it, a notified
-- contract runs in the transaction that notifies it, and the inline actions that it sends run after
-- it, each under the authority of its sender, to a bounded depth. A failure aborts all of it.
use twig_system_contracts.Prelude.{
  ℕ, zero, suc, Bool, true, false, List, [], ◌∷◌, String, ◌==◌, ◌||◌, Option,
}
use twig_system_contracts.Chain.{
  MultiIndex, Table, AssetLib, Asset, NameLib, Env, Result, ok, err, refused, ◌>>=◌, ◌>>◌, demand,
  Send, Call,
}
use twig_system_contracts.Token.State.{Tables}
use twig_system_contracts.Token.User.{transfer}
use twig_system_contracts.Token.Admin.{issue}
use twig_system_contracts.System.State.{LuckyNumber}
use twig_system_contracts.System.Config.{eosio_account}
use twig_system_contracts.System.Lucky.{Shares, onchunk}
use twig_system_contracts.Bank.State.{Vesting, Double, token_account}
use twig_system_contracts.Bank.Actions.{token_deposit, onepoch, cleanup}

-- The tables of both contracts.
pub record World ⦃mi : MultiIndex⦄ : Type 0 where
  pub ledger : Tables
  pub vestings : Table Vesting

-- A call as the contract sees it that runs it.
abbrev pub run_by : ℕ → Env → Env
run_by contract e = record e { self = contract }

-- An inline action has the authority of its sender alone.
abbrev pub sent_by : ℕ → Env → Env
sent_by actor e = record e { has_auth = λ n. n == actor }

abbrev pub contains : ℕ → List ℕ → Bool
contains n [] = false
contains n (m ∷ rest) = (n == m) || contains n rest

module _ ⦃mi : MultiIndex⦄ ⦃lib : AssetLib⦄ ⦃names : NameLib⦄ (double : Double) (bank : ℕ) where
  -- The bank's handler, where the bank is among the accounts that are notified.
  unfoldable pub notify :
      List ℕ
      → Env
      → Option LuckyNumber
      → ℕ
      → ℕ
      → List Asset
      → String
      → Table Vesting
      → Result (Table Vesting × List Send)
  notify accounts e lucky from to tokens memo t = elim (contains bank accounts) [
    | true ↦ token_deposit double (run_by bank e) lucky from to tokens memo t
    | false ↦ ok (t, [])
  ]

  -- `transfer` with the notifications that it sends.
  unfoldable pub transfer_heard :
      Env → Option LuckyNumber → ℕ → ℕ → List Asset → String → World → Result (World × List Send)
  transfer_heard e lucky from to tokens memo w = do
    paid ← transfer (run_by token_account e) from to tokens memo w.ledger
    told ← notify paid.1 e lucky from to tokens memo w.vestings
    ok (record { ledger = paid.0; vestings = told.0 }, told.1)

  -- An inline action to the token contract.
  unfoldable pub receive : Env → Option LuckyNumber → Call → World → Result (World × List Send)
  receive e lucky (Call.transfer from to tokens memo) w =
      transfer_heard e lucky from to tokens memo w
  receive e lucky (Call.issue owner tokens memo) w = do
    ledger ← issue (run_by token_account e) owner tokens w.ledger
    ok (record w { ledger = ledger }, [])
  receive e lucky other w = err refused

  -- Inline actions in turn, each followed by those that it sends.
  unfoldable pub deliver : ℕ → Env → Option LuckyNumber → List Send → World → Result World
  deliver depth e lucky [] w = ok w
  deliver zero e lucky (s ∷ rest) w = err refused
  deliver (suc depth) e lucky (s ∷ rest) w = do
    demand (s.contract == token_account) refused
    one ← receive (sent_by s.actor e) lucky s.call w
    inner ← deliver depth e lucky one.1 one.0
    deliver (suc depth) e lucky rest inner

  -- A transfer that somebody asks for, to its end.
  unfoldable pub transfer_all :
      ℕ → Env → Option LuckyNumber → ℕ → ℕ → List Asset → String → World → Result World
  transfer_all depth e lucky from to tokens memo w = do
    heard ← transfer_heard e lucky from to tokens memo w
    deliver depth e lucky heard.1 heard.0

  -- The bank's end of an epoch, to its end.
  unfoldable pub onepoch_all : ℕ → Env → ℕ → Option LuckyNumber → World → Result World
  onepoch_all depth e epoch lucky w = do
    done ← onepoch (run_by bank e) epoch lucky w.vestings
    deliver depth e lucky done.1 (record w { vestings = done.0 })

  unfoldable pub cleanup_all : Env → World → Result World
  cleanup_all e w = do left ← cleanup (run_by bank e) w.vestings; ok (record w { vestings = left })

  -- `onchunk` of the system contract, which reads the tables of the token contract, to its end.
  unfoldable pub onchunk_all : Shares → ℕ → Env → Option LuckyNumber → World → Result World
  onchunk_all shares depth e lucky w = do
    sends ← onchunk shares (run_by eosio_account e) lucky w.ledger.accounts w.ledger.supplies
    deliver depth e lucky sends w
