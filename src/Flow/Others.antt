-- ===== src/Flow/Others.antt =====
-- Inline actions that other contracts send to the token contract, with what the bank makes of them:
-- the `issue` and the transfers of a chunk, the `issue` of `claimdrops`
-- (contracts/eosio.system/src/actions/4.tokenomics.cpp, contracts/twig.token/src/actions/user.cpp).
use twig_system_contracts.Prelude.{
  ℕ, zero, suc, String, Option, List, [], ◌∷◌, pos, int_laws, ◌==◌, arith, ◌≡◌, ◌≢◌, sym, ◌∙◌,
  subst,
}
use twig_system_contracts.Chain.{
  MultiIndex, AssetLib, NameLib, Env, Asset, ok, refused, >>=-eq-ok, ok-injective, demand,
  require_auth, Send, Call,
}
use twig_system_contracts.Token.State.{twig_symbol}
use twig_system_contracts.Token.User.{transfer}
use twig_system_contracts.Token.Admin.{issue}
use twig_system_contracts.Token.Effects.{IsModest}
use twig_system_contracts.Token.Supplying.{issue-SupplyMoves}
use twig_system_contracts.System.State.{LuckyNumber}
use twig_system_contracts.Bank.State.{Double, Ieee, token_account}
use twig_system_contracts.Bank.Vested.{paid}
use twig_system_contracts.Flow.Delivery.{World, run_by, sent_by, transfer_heard, receive, deliver}
use twig_system_contracts.Flow.Balances.{issue-raises}
use twig_system_contracts.Flow.Payouts.{ArePayouts}
use twig_system_contracts.Flow.Solvent.{Covers, deliver-Covers, deliver-nil}
use twig_system_contracts.Flow.Deposits.{transfer_heard-Covers}

-- What is issued is in range.
abbrev pub IsModestCall : Call → Type 0
IsModestCall (Call.issue owner tokens memo) = IsModest tokens
IsModestCall other = Unit {0}

-- The actions are sent by others than the bank.
abbrev pub AllOthers : ℕ → List Send → Type 0
AllOthers bank [] = Unit {0}
AllOthers bank (s ∷ rest) = (bank ≢ s.actor) × IsModestCall s.call × AllOthers bank rest

module _ ⦃mi : MultiIndex⦄ ⦃lib : AssetLib⦄ ⦃names : NameLib⦄ (double : Double) (bank : ℕ) where
  -- Only its sender spends an account's tokens.
  transfer_heard-signed :
      (actor : ℕ) (e : Env) (lucky : Option LuckyNumber) (from to : ℕ) (tokens : List Asset)
      (memo : String) (w : World) (r : World × List Send)
      → transfer_heard double bank (sent_by actor e) lucky from to tokens memo w ≡ ok r
      → from ≡ actor
  unfolding transfer_heard transfer
  transfer_heard-signed actor e lucky from to tokens memo w r h =
      let te = run_by token_account (sent_by actor e) in
      let (done, ed, _) = >>=-eq-ok (transfer te from to tokens memo w.ledger) _ h in
      let (_, signed, _) = >>=-eq-ok (require_auth te from) _ ed in ground arith

  receive-Covers :
      (e : Env) (lucky : Option LuckyNumber) (actor : ℕ) (c : Call) (w : World)
      (r : World × List Send)
      → Ieee double
      → bank ≢ actor
      → IsModestCall c
      → Covers bank (pos 0) w
      → receive double bank (sent_by actor e) lucky c w ≡ ok r
      → ArePayouts bank r.1 × Covers bank (paid r.1) r.0
  unfolding receive paid
  receive-Covers e lucky actor (Call.transfer from to tokens memo) w r ieee ne fit c h =
      let same = transfer_heard-signed actor e lucky from to tokens memo w r h in
      let apart : bank ≢ from = λ eq. ne (eq ∙ same) in
      transfer_heard-Covers double bank (sent_by actor e) lucky from to tokens memo w r ieee apart c
        h
  receive-Covers e lucky actor (Call.issue owner tokens memo) w r ieee ne fit c h =
      let te = run_by token_account (sent_by actor e) in
      let (st, es, h1) = >>=-eq-ok (issue te owner tokens w.ledger) _ h in
      let m = issue-SupplyMoves te owner tokens w.ledger st c.sound fit es in
      let up = issue-raises te owner bank twig_symbol tokens w.ledger st c.sound fit es in
      let b = c.backed in
      subst (λ (z : World × List Send). ArePayouts bank z.1 × Covers bank (paid z.1) z.0)
        (ok-injective h1) (tt, record { sound = m.sound; fair = c.fair; backed = omega int_laws })
  receive-Covers e lucky actor (Call.transfer_one from to a memo) w r ieee ne fit c h =
      absurd (ground arith)
  receive-Covers e lucky actor Call.onchunk w r ieee ne fit c h = absurd (ground arith)
  receive-Covers e lucky actor (Call.onepoch n) w r ieee ne fit c h = absurd (ground arith)
  receive-Covers e lucky actor (Call.with_seed n seed) w r ieee ne fit c h = absurd (ground arith)
  receive-Covers e lucky actor (Call.unpacked n) w r ieee ne fit c h = absurd (ground arith)

  -- Where the numbers follow IEEE 754, what others send, and all that follows from it, leaves the
  -- bank with what it owes.
  pub others-Covers :
      (depth : ℕ) (e : Env) (lucky : Option LuckyNumber) (sends : List Send) (w w' : World)
      → Ieee double
      → AllOthers bank sends
      → Covers bank (pos 0) w
      → deliver double bank depth e lucky sends w ≡ ok w'
      → Covers bank (pos 0) w'
  unfolding deliver
  others-Covers depth e lucky [] w w' ieee all c h =
      subst (Covers bank (pos 0)) (ok-injective (sym (deliver-nil double bank depth e lucky w) ∙ h))
        c
  others-Covers zero e lucky (s ∷ rest) w w' ieee all c h = absurd (ground arith)
  others-Covers (suc depth) e lucky (s ∷ rest) w w' ieee (ne, fit, all) c h =
      let (_, _, h1) = >>=-eq-ok (demand (s.contract == token_account) refused) _ h in
      let (one, eo, h2) = >>=-eq-ok (receive double bank (sent_by s.actor e) lucky s.call w) _ h1 in
      let (out, c') = receive-Covers e lucky s.actor s.call w one ieee ne fit c eo in
      let (inner, ei, h3) = >>=-eq-ok (deliver double bank depth e lucky one.1 one.0) _ h2 in
      let c'' = deliver-Covers double bank depth e lucky one.1 one.0 inner out c' ei in
      others-Covers (suc depth) e lucky rest inner w' ieee all c'' h3
