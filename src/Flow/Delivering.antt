-- ===== src/Flow/Delivering.antt =====
-- Payouts that the bank has the tokens for go through, one after the other
-- (contracts/eosio.bank/src/eosio.bank.cpp, contracts/twig.token/src/actions/user.cpp).
use twig_system_contracts.Prelude.{
  ℕ, suc, true, false, String, leb, ltb_ℤ, Option, List, [], ◌∷◌, ◌++◌, ℤ, pos, ◌+ℤ◌, ◌≤ℤ◌,
  int_laws, ◌==◌, arith, ◌≡◌, refl, Bool-cases, inl, inr,
}
use twig_system_contracts.Chain.{
  MultiIndex, Table, AssetLib, is_valid, NameLib, Env, Asset, Result, ok, Send, Call, InRange, size,
}
use twig_system_contracts.Token.State.{twig_symbol}
use twig_system_contracts.Token.User.{transfer}
use twig_system_contracts.Token.Supplying.{has}
use twig_system_contracts.System.State.{LuckyNumber}
use twig_system_contracts.Bank.State.{Vesting, Double, token_account}
use twig_system_contracts.Bank.Actions.{token_deposit, is_ignored}
use twig_system_contracts.Bank.Vested.{paid, taken_by}
use twig_system_contracts.Bank.Settling.{owed}
use twig_system_contracts.Flow.Delivery.{
  World, run_by, sent_by, contains, notify, transfer_heard, receive, deliver,
}
use twig_system_contracts.Flow.Owed.{owed-sign}
use twig_system_contracts.Flow.Payouts.{IsPayout}
use twig_system_contracts.Flow.Solvent.{Covers, has-FromZero, receive-Covers, deliver-nil}
use twig_system_contracts.Flow.Paying.{TakesTwig, IsOk, IsOk-then, transfer-goes}

-- A payment that the token contract has no reason to refuse.
pub record CanTake (e : Env) (bank to : ℕ) (tokens : Asset) (memo : String) : Type 0 where
  pub apart : (bank == to) ≡ false
  pub there : e.is_account to ≡ true
  pub short : leb (size memo) 256 ≡ true
  pub positive : ltb_ℤ (pos 0) tokens.amount ≡ true
  pub range : InRange tokens.amount
  pub core : tokens.symbol ≡ twig_symbol

-- A payout of the bank that is such a payment.
pub record IsPayable (e : Env) (bank : ℕ) (s : Send) : Type 0 where
  pub to : ℕ
  pub tokens : Asset
  pub memo : String
  pub sent : s ≡ record {
    actor = bank;
    contract = token_account;
    call = Call.transfer bank to (tokens ∷ []) memo;
  }
  pub taken : CanTake e bank to tokens memo

abbrev pub AllPayable : Env → ℕ → List Send → Type 0
AllPayable e bank [] = Unit {0}
AllPayable e bank (s ∷ rest) = IsPayable e bank s × AllPayable e bank rest

-- The step goes through, and what it sends is payable.
abbrev pub Pays {ℓ} : Env → ℕ → {T : Type ℓ} → Result (T × List Send) → Type ℓ
Pays e bank {T} r = (x : T × List Send) × (r ≡ ok x) × AllPayable e bank x.1

pub AllPayable-append :
    (e : Env) (bank : ℕ) (a b : List Send)
    → AllPayable e bank a
    → AllPayable e bank b
    → AllPayable e bank (a ++ b)
AllPayable-append e bank [] b ha hb = hb
AllPayable-append e bank (s ∷ rest) b ha hb = (ha.0, AllPayable-append e bank rest b ha.1 hb)

payable-IsPayout : (e : Env) (bank : ℕ) (s : Send) → IsPayable e bank s → IsPayout bank s
payable-IsPayout e bank s p = (p.to, p.tokens, p.memo, p.sent)

pub eq_self : (n : ℕ) → (n == n) ≡ true
eq_self n = ground arith

positive_sign : (n : ℤ) → ltb_ℤ (pos 0) n ≡ true → pos 0 ≤ℤ n
positive_sign n h = ground arith

pay_least :
    (a p : ℤ) (all owes : ℤ) → pos 0 ≤ℤ p → pos 0 ≤ℤ owes → owes +ℤ (a +ℤ p) ≤ℤ all → a ≤ℤ all
pay_least a p all owes hp ho h = omega int_laws

module _ ⦃mi : MultiIndex⦄ ⦃lib : AssetLib⦄ ⦃names : NameLib⦄ (double : Double) (bank : ℕ) where
  notify-goes :
      (accounts : List ℕ) (e : Env) (lucky : Option LuckyNumber) (to : ℕ) (a : Asset)
      (memo : String) (t : Table Vesting)
      → IsOk (notify double bank accounts e lucky bank to (a ∷ []) memo t)
  unfolding notify token_deposit
  notify-goes accounts e lucky to a memo t =
      let own : is_ignored (run_by bank e) bank to (a ∷ []) memo ≡ true = ground arith in
      elim (Bool-cases (contains bank accounts)) [
        | inl told ↦ ((t, []), rw (told, notify, own) refl)
        | inr untold ↦ ((t, []), rw (untold, notify) refl)
      ]

  pub core_valid :
      (a : Asset) → TakesTwig lib → a.symbol ≡ twig_symbol → InRange a.amount → is_valid a ≡ true
  core_valid a takes core range =
      let same : a ≡ record { amount = a.amount; symbol = twig_symbol } = cc in
      rw same (takes.valid a.amount range)

  -- The bank has the tokens for a payout that it is covered for.
  transfer_heard-goes :
      (e : Env) (lucky : Option LuckyNumber) (to : ℕ) (a : Asset) (memo : String) (w : World)
      (pending : ℤ)
      → TakesTwig lib
      → CanTake e bank to a memo
      → e.has_auth bank ≡ true
      → pos 0 ≤ℤ pending
      → Covers bank (a.amount +ℤ pending) w
      → IsOk (transfer_heard double bank e lucky bank to (a ∷ []) memo w)
  unfolding transfer_heard
  transfer_heard-goes e lucky to a memo w pending takes p signed more c =
      let n = run_by token_account e in
      let b = c.backed in
      let sign = owed-sign w.vestings c.fair in
      let enough0 : a.amount ≤ℤ has twig_symbol bank w.ledger =
        pay_least a.amount pending _ (owed w.vestings) more sign b in
      let enough : a.amount ≤ℤ has a.symbol bank w.ledger = rw p.core enough0 in
      let range = has-FromZero a.symbol bank w.ledger c.sound in
      let (done, ed) =
        transfer-goes n bank to a memo w.ledger signed p.apart p.there p.short
          (core_valid a takes p.core p.range) p.positive enough range in
      let (told, et) = notify-goes done.1 e lucky to a memo w.vestings in
      IsOk-then (transfer n bank to (a ∷ []) memo w.ledger) _ done ed (
        IsOk-then (notify double bank done.1 e lucky bank to (a ∷ []) memo w.vestings) _ told et
          ((record { ledger = done.0; vestings = told.0 }, told.1), refl))

  paid-sign : (e : Env) (sends : List Send) → AllPayable e bank sends → pos 0 ≤ℤ paid sends
  unfolding paid
  paid-sign e [] all = omega arith
  paid-sign e (s ∷ rest) all =
      let p = all.0 in
      let ih = paid-sign e rest all.1 in
      let here : pos 0 ≤ℤ taken_by s.call =
        rw p.sent (positive_sign p.tokens.amount p.taken.positive) in
      omega int_laws

  receive-goes :
      (e : Env) (lucky : Option LuckyNumber) (s : Send) (w : World) (pending : ℤ)
      → TakesTwig lib
      → IsPayable e bank s
      → e.has_auth bank ≡ true
      → pos 0 ≤ℤ pending
      → Covers bank (taken_by s.call +ℤ pending) w
      → IsOk (receive double bank e lucky s.call w)
  unfolding receive
  receive-goes e lucky s w pending takes p signed more c =
      rw (p.sent, receive)
        (transfer_heard-goes e lucky p.to p.tokens p.memo w pending takes p.taken signed more
          (rw p.sent at c))

  actor_signs : (e : Env) (s : Send) → IsPayable e bank s → (sent_by s.actor e).has_auth bank ≡ true
  actor_signs e s p = rw p.sent (eq_self bank)

  actor-IsPayable : (e : Env) (s : Send) → IsPayable e bank s → IsPayable (sent_by s.actor e) bank s
  actor-IsPayable e s p =
      let t = p.taken in
      record {
        to = p.to;
        tokens = p.tokens;
        memo = p.memo;
        sent = p.sent;
        taken = record {
          apart = t.apart;
          there = t.there;
          short = t.short;
          positive = t.positive;
          range = t.range;
          core = t.core;
        };
      }

  -- Payouts that are covered and payable go through, one after the other.
  pub deliver-goes :
      (depth : ℕ) (e : Env) (lucky : Option LuckyNumber) (sends : List Send) (w : World)
      → TakesTwig lib
      → AllPayable e bank sends
      → Covers bank (paid sends) w
      → IsOk (deliver double bank (suc depth) e lucky sends w)
  unfolding deliver paid
  deliver-goes depth e lucky [] w takes all c = (w, refl)
  deliver-goes depth e lucky (s ∷ rest) w takes (p, all) c =
      let f = sent_by s.actor e in
      let more = paid-sign e rest all in
      let ours : (s.contract == token_account) ≡ true = rw p.sent refl in
      let (one, eo) =
        receive-goes f lucky s w (paid rest) takes (actor-IsPayable e s p) (actor_signs e s p) more
          c in
      let (quiet, c') =
        receive-Covers double bank f lucky s w one (paid rest) (payable-IsPayout e bank s p) c eo in
      let done : deliver double bank depth e lucky one.1 one.0 ≡ ok one.0 =
        rw quiet (deliver-nil double bank depth e lucky one.0) in
      rw ours (
        IsOk-then (receive double bank f lucky s.call w) _ one eo (
          IsOk-then (deliver double bank depth e lucky one.1 one.0) _ one.0 done
            (deliver-goes depth e lucky rest one.0 takes all c')))
