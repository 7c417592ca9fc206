-- ===== src/Flow/Events.antt =====
-- Transactions of eosio.bank, twig.token and the chunks of eosio.system together. One that fails
-- changes nothing. The `issue` that `claimdrops` sends is among the inline actions of others.
use twig_system_contracts.Prelude.{
  ℕ, Option, List, [], ◌∷◌, pos, ◌≤ℤ◌, int_laws, arith, ◌≡◌, ◌≢◌, refl, sym, subst,
}
use twig_system_contracts.Chain.{
  MultiIndex, AssetLib, NameLib, Env, Result, ok, err, ◌>>=◌, >>=-eq-ok, ok-injective, Send,
}
use twig_system_contracts.Token.State.{Tables, twig_symbol}
use twig_system_contracts.Token.Config.{cfgsetparams, setfungibles, setdrops, rmvdrops}
use twig_system_contracts.Token.Admin.{rolldrops, execdrops}
use twig_system_contracts.Token.User.{claimdrops, transfer}
use twig_system_contracts.Token.Ledger.{IsSound}
use twig_system_contracts.Token.Supplying.{has, retire-SupplyMoves}
use twig_system_contracts.Token.Limits.{setsupplies-IsSound, rmvsupply-IsSound}
use twig_system_contracts.Token.RetireLoop.{IsHeld}
use twig_system_contracts.Token.History.{Action, act, first, settled, Fits}
use twig_system_contracts.System.State.{LuckyNumber}
use twig_system_contracts.System.Lucky.{Shares}
use twig_system_contracts.Flow.Others.{AllOthers}
use twig_system_contracts.Bank.State.{Double, token_account, chunks_account}
use twig_system_contracts.Flow.Delivery.{
  World, run_by, transfer_all, onepoch_all, cleanup_all, onchunk_all, deliver,
}
use twig_system_contracts.Flow.Balances.{issue-raises, close-keeps, open_account-keeps}
use twig_system_contracts.Flow.Solvent.{Covers, transfer-raises}

pub data Event : Type 0 where
  -- an action of the token contract
  acts : Action → Event
  -- `onepoch` of the bank
  ends_epoch : ℕ → Event
  -- `cleanup` of the bank
  cleans_up : Event
  -- `onchunk` of the system contract
  finds_chunk : Event
  -- inline actions that other contracts send to the token contract
  sends : List Send → Event

-- A transaction: who sends it and when, the lucky number of that time, and what it does.
pub record Step : Type 0 where
  pub env : Env
  pub lucky : Option LuckyNumber
  pub event : Event

-- Nobody else spends the bank's tokens, and the token contract does not retire them; amounts fit.
abbrev pub IsFit : ℕ → Event → Type 0
IsFit bank (Event.acts (Action.transfers from to tokens memo)) = bank ≢ from
IsFit bank (Event.acts (Action.retires owner m)) = (bank ≢ owner) × IsHeld m
IsFit bank (Event.acts a) = Fits a
IsFit bank Event.finds_chunk = (bank ≢ token_account) × (bank ≢ chunks_account)
IsFit bank (Event.sends l) = AllOthers bank l
IsFit bank other = Unit {0}

abbrev pub AllFitIn : ℕ → List Step → Type 0
AllFitIn bank [] = Unit {0}
AllFitIn bank (s ∷ rest) = IsFit bank s.event × AllFitIn bank rest

first-eq-ok {ℓ κ} :
    {A : Type ℓ} {B : Type κ} (r : Result (A × B)) (a : A)
    → first r ≡ ok a
    → (x : A × B) × (r ≡ ok x) × (a ≡ x.0)
first-eq-ok (ok x) a h = (x, refl, sym (ok-injective h))
first-eq-ok (err e) a h = cc

module _ ⦃mi : MultiIndex⦄ ⦃lib : AssetLib⦄ ⦃names : NameLib⦄ (double : Double) (shares : Shares)
    (bank depth : ℕ) where
  unfoldable pub token_all : Env → Option LuckyNumber → Action → World → Result World
  token_all e lucky (Action.transfers from to tokens memo) w =
      transfer_all double bank depth e lucky from to tokens memo w
  token_all e lucky a w = do
    ledger ← act (run_by token_account e) a w.ledger
    ok (record w { ledger = ledger })

  unfoldable pub perform : Env → Option LuckyNumber → Event → World → Result World
  perform e lucky (Event.acts a) w = token_all e lucky a w
  perform e lucky (Event.ends_epoch epoch) w = onepoch_all double bank depth e epoch lucky w
  perform e lucky Event.cleans_up w = cleanup_all double bank e w
  perform e lucky Event.finds_chunk w = onchunk_all double bank shares depth e lucky w
  perform e lucky (Event.sends l) w = deliver double bank depth e lucky l w

  unfoldable pub run_steps : List Step → World → World
  run_steps [] w = w
  run_steps (s ∷ rest) w = run_steps rest (settled w (perform s.env s.lucky s.event w))

  -- A change of the ledger that takes nothing from the bank.
  pub ledger-Covers :
      (w w' : World) (r : Result Tables)
      → Covers bank (pos 0) w
      → (r >>= λ st. ok (record w { ledger = st })) ≡ ok w'
      → ((st : Tables)
          → r ≡ ok st
          → IsSound st × (has twig_symbol bank w.ledger ≤ℤ has twig_symbol bank st))
      → Covers bank (pos 0) w'
  ledger-Covers w w' r c h f =
      let (st, es, h1) = >>=-eq-ok r _ h in
      let (sound, up) = f st es in
      let b = c.backed in
      subst (Covers bank (pos 0)) (ok-injective h1)
        (record { sound = sound; fair = c.fair; backed = omega int_laws })

  -- The accounts are as they were.
  same-up :
      (st st' : Tables)
      → st'.accounts ≡ st.accounts
      → has twig_symbol bank st ≤ℤ has twig_symbol bank st'
  same-up st st' e = rw e (omega int_laws)

  -- No action that fits takes anything from the bank.
  pub act-up :
      (e : Env) (a : Action) (st st' : Tables)
      → IsFit bank (Event.acts a)
      → IsSound st
      → act e a st ≡ ok st'
      → has twig_symbol bank st ≤ℤ has twig_symbol bank st'
  unfolding act cfgsetparams setfungibles setdrops rmvdrops rolldrops execdrops claimdrops
  act-up e (Action.sets_params p) st st' fit sound h = same-up st st' (ground arith)
  act-up e (Action.sets_fungibles p) st st' fit sound h = same-up st st' (ground arith)
  act-up e (Action.sets_supplies m) st st' fit sound h =
      same-up st st' (setsupplies-IsSound e m st st' sound h).1
  act-up e (Action.removes_supply m) st st' fit sound h =
      same-up st st' (rmvsupply-IsSound e m st st' sound h).1
  act-up e (Action.sets_drops i p) st st' fit sound h = same-up st st' (ground arith)
  act-up e (Action.removes_drops i) st st' fit sound h = same-up st st' (ground arith)
  act-up e (Action.issues owner m) st st' fit sound h =
      issue-raises e owner bank twig_symbol m st st' sound fit h
  act-up e (Action.retires owner m) st st' (ne, fit) sound h =
      let moves = retire-SupplyMoves e owner m st st' sound fit h in
      rw (moves.others bank ne) (omega int_laws)
  act-up e Action.rolls_drops st st' fit sound h = same-up st st' (ground arith)
  act-up e Action.runs_drops st st' fit sound h = same-up st st' (ground arith)
  act-up e (Action.opens owner) st st' fit sound h =
      let same = open_account-keeps e owner bank twig_symbol st st' h in rw same (omega int_laws)
  act-up e (Action.closes owner) st st' fit sound h =
      let same = close-keeps e owner bank twig_symbol st st' h in rw same (omega int_laws)
  act-up e (Action.claims_drops indices owner) st st' fit sound h = same-up st st' (ground arith)
  act-up e (Action.transfers from to tokens memo) st st' fit sound h =
      let (r, er, same) = first-eq-ok (transfer e from to tokens memo st) st' h in
      rw same (transfer-raises e from to tokens memo st r sound er twig_symbol bank fit)
