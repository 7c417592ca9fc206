-- ===== src/Flow/History.antt =====
-- Whatever the history of token actions and of the bank's, the bank has what it owes
-- (contracts/eosio.bank, contracts/twig.token).
use twig_system_contracts.Prelude.{ℕ, Option, List, [], ◌∷◌, pos, ◌≡◌, refl}
use twig_system_contracts.Chain.{MultiIndex, AssetLib, NameLib, Env, Result, ok, err, ◌>>=◌}
use twig_system_contracts.Token.Ledger.{IsSound}
use twig_system_contracts.Token.History.{Action, act, settled, Fits, act-IsSound}
use twig_system_contracts.System.State.{LuckyNumber}
use twig_system_contracts.Bank.State.{Double, Ieee}
use twig_system_contracts.Flow.Delivery.{World}
use twig_system_contracts.System.Lucky.{Shares}
use twig_system_contracts.Flow.Solvent.{Covers}
use twig_system_contracts.Flow.Others.{others-Covers}
use twig_system_contracts.Flow.Chunk.{IsSmall, onchunk_all-Covers}
use twig_system_contracts.Flow.Deposits.{
  transfer_all-Covers, onepoch_all-Covers, cleanup_all-Covers,
}
use twig_system_contracts.Flow.Events.{
  Event, Step, IsFit, AllFitIn, token_all, perform, run_steps, ledger-Covers, act-up,
}

module _ ⦃mi : MultiIndex⦄ ⦃lib : AssetLib⦄ ⦃names : NameLib⦄ (double : Double) (shares : Shares)
    (bank depth : ℕ) where
  act-Covers :
      (e : Env) (a : Action) (w w' : World)
      → IsFit bank (Event.acts a)
      → Fits a
      → Covers bank (pos 0) w
      → (act e a w.ledger >>= λ st. ok (record w { ledger = st })) ≡ ok w'
      → Covers bank (pos 0) w'
  act-Covers e a w w' fit fits c h =
      ledger-Covers double shares bank depth w w' (act e a w.ledger) c h λ st es.
        let kept : IsSound (settled w.ledger (act e a w.ledger)) =
          act-IsSound e a w.ledger fits c.sound in
        (rw es at kept, act-up double shares bank depth e a w.ledger st fit c.sound es)

  token_all-Covers :
      (e : Env) (lucky : Option LuckyNumber) (a : Action) (w w' : World)
      → Ieee double
      → IsFit bank (Event.acts a)
      → Covers bank (pos 0) w
      → token_all double shares bank depth e lucky a w ≡ ok w'
      → Covers bank (pos 0) w'
  unfolding token_all
  token_all-Covers e lucky (Action.transfers from to tokens memo) w w' ieee fit c h =
      transfer_all-Covers double bank depth e lucky from to tokens memo w w' ieee fit c h
  token_all-Covers e lucky (Action.retires owner m) w w' ieee fit c h =
      act-Covers _ (Action.retires owner m) w w' fit fit.1 c h
  token_all-Covers e lucky (Action.issues owner m) w w' ieee fit c h =
      act-Covers _ (Action.issues owner m) w w' fit fit c h
  token_all-Covers e lucky (Action.sets_params p) w w' ieee fit c h =
      act-Covers _ (Action.sets_params p) w w' fit fit c h
  token_all-Covers e lucky (Action.sets_fungibles p) w w' ieee fit c h =
      act-Covers _ (Action.sets_fungibles p) w w' fit fit c h
  token_all-Covers e lucky (Action.sets_supplies m) w w' ieee fit c h =
      act-Covers _ (Action.sets_supplies m) w w' fit fit c h
  token_all-Covers e lucky (Action.removes_supply m) w w' ieee fit c h =
      act-Covers _ (Action.removes_supply m) w w' fit fit c h
  token_all-Covers e lucky (Action.sets_drops i p) w w' ieee fit c h =
      act-Covers _ (Action.sets_drops i p) w w' fit fit c h
  token_all-Covers e lucky (Action.removes_drops i) w w' ieee fit c h =
      act-Covers _ (Action.removes_drops i) w w' fit fit c h
  token_all-Covers e lucky Action.rolls_drops w w' ieee fit c h =
      act-Covers _ Action.rolls_drops w w' fit fit c h
  token_all-Covers e lucky Action.runs_drops w w' ieee fit c h =
      act-Covers _ Action.runs_drops w w' fit fit c h
  token_all-Covers e lucky (Action.opens owner) w w' ieee fit c h =
      act-Covers _ (Action.opens owner) w w' fit fit c h
  token_all-Covers e lucky (Action.closes owner) w w' ieee fit c h =
      act-Covers _ (Action.closes owner) w w' fit fit c h
  token_all-Covers e lucky (Action.claims_drops indices owner) w w' ieee fit c h =
      act-Covers _ (Action.claims_drops indices owner) w w' fit fit c h

  perform-Covers :
      (e : Env) (lucky : Option LuckyNumber) (x : Event) (w w' : World)
      → Ieee double
      → IsSmall shares
      → IsFit bank x
      → Covers bank (pos 0) w
      → perform double shares bank depth e lucky x w ≡ ok w'
      → Covers bank (pos 0) w'
  unfolding perform
  perform-Covers e lucky (Event.acts a) w w' ieee sm fit c h =
      token_all-Covers e lucky a w w' ieee fit c h
  perform-Covers e lucky (Event.ends_epoch epoch) w w' ieee sm fit c h =
      onepoch_all-Covers double bank depth e epoch lucky w w' c h
  perform-Covers e lucky Event.cleans_up w w' ieee sm fit c h =
      cleanup_all-Covers double bank e w w' c h
  perform-Covers e lucky Event.finds_chunk w w' ieee sm fit c h =
      onchunk_all-Covers double bank shares depth e lucky w w' ieee sm fit.0 fit.1 c h
  perform-Covers e lucky (Event.sends l) w w' ieee sm fit c h =
      others-Covers double bank depth e lucky l w w' ieee fit c h

  settled-Covers :
      (w : World) (r : Result World)
      → Covers bank (pos 0) w
      → ((w' : World) → r ≡ ok w' → Covers bank (pos 0) w')
      → Covers bank (pos 0) (settled w r)
  settled-Covers w (ok w') c f = f w' refl
  settled-Covers w (err e) c f = c

  -- Where the numbers follow IEEE 754, a chunk is a part of the supply, nobody but the bank's own code
  -- spends the bank's tokens, the token contract does not retire them, and what is issued or retired
  -- is in range: whatever the history of token actions except cfginit and cfgdestruct, which start
  -- the supplies anew, chunks, inline actions of other contracts, ends of epochs and clean-ups, with
  -- the deposits and payouts that transfers bring about, if the ledger is sound, the vesting rows are
  -- fair and the bank has what it owes on all of them at its start, then so it is at its end.
  pub run_steps-Covers :
      (steps : List Step) (w : World)
      → Ieee double
      → IsSmall shares
      → AllFitIn bank steps
      → Covers bank (pos 0) w
      → Covers bank (pos 0) (run_steps double shares bank depth steps w)
  unfolding run_steps
  run_steps-Covers [] w ieee sm fit c = c
  run_steps-Covers (s ∷ rest) w ieee sm fit c =
      run_steps-Covers rest (settled w (perform double shares bank depth s.env s.lucky s.event w))
        ieee sm fit.1
        (settled-Covers w (perform double shares bank depth s.env s.lucky s.event w) c
          (λ w' h. perform-Covers s.env s.lucky s.event w w' ieee sm fit.0 c h))
