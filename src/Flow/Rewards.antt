-- ===== src/Flow/Rewards.antt =====
-- A reward that reaches the bank goes through, with the payout that it brings about
-- (contracts/eosio.bank/src/eosio.bank.cpp, `bank::token_deposit`).
use twig_system_contracts.Prelude.{
  ℕ, suc, true, false, String, leb, ltb_ℤ, some, List, [], ◌∷◌, pos, pos_part, ◌≤ℤ◌, add64, ◌==◌,
  ◌≤◌, ◌^◌, arith, ◌≡◌, ◌≢◌, refl, ◌∙◌, Bool-cases, Option-cases, inl, inr,
}
use twig_system_contracts.Chain.{
  MultiIndex, Table, find, store, AssetLib, make_asset, NameLib, Env, Asset, ok, >>=-ok, InRange,
  size,
}
use twig_system_contracts.Token.State.{twig_symbol}
use twig_system_contracts.Token.User.{transfer}
use twig_system_contracts.Token.Supplying.{has}
use twig_system_contracts.System.State.{LuckyNumber, lucky_number_chunks}
use twig_system_contracts.Bank.State.{
  Vesting, Double, Ieee, token_account, chunks_account, reward_memo,
}
use twig_system_contracts.Bank.Actions.{
  token_deposit, deposit, deposit_row, release, pay, payee, is_ignored, eq_text,
}
use twig_system_contracts.Bank.Vested.{IsFair}
use twig_system_contracts.Bank.Releasing.{release-Releases}
use twig_system_contracts.Flow.Delivery.{
  World, run_by, contains, notify, transfer_heard, transfer_all,
}
use twig_system_contracts.Flow.Solvent.{Covers, has-FromZero}
use twig_system_contracts.Flow.Deposits.{transfer_heard-Covers}
use twig_system_contracts.Flow.Paying.{TakesTwig, IsOk, IsOk-then, transfer-goes}
use twig_system_contracts.Flow.Delivering.{Pays, core_valid, deliver-goes, eq_self}
use twig_system_contracts.Flow.Epoch.{IsServed}

-- A row that a reward can be booked on: its account can be paid under a memo of the token contract,
-- and its total is a whole number that a `double` holds.
pub record TakesReward (e : Env) (bank : ℕ) ⦃names : NameLib⦄ (row : Vesting) : Type 0 where
  pub served : IsServed e bank row
  pub short : leb (size (reward_memo row.producer)) 256 ≡ true
  pub small : pos_part row.unvesting_total.amount ≤ 2 ^ 53

-- A reward that the bank does not refuse.
pub record IsReward (bank : ℕ) (lucky : LuckyNumber) (q : Asset) (memo : String) : Type 0 where
  pub core : q.symbol ≡ twig_symbol
  pub positive : ltb_ℤ (pos 0) q.amount ≡ true
  pub range : InRange q.amount
  pub short : leb (size memo) 256 ≡ true
  pub meant : eq_text memo "ignore_memo" ≡ false
  pub booked : (payee memo lucky == 0) ≡ false
  pub apart : (chunks_account == bank) ≡ false
  pub few : lucky.chunks_remaining ≤ lucky_number_chunks

module _ ⦃mi : MultiIndex⦄ ⦃lib : AssetLib⦄ ⦃names : NameLib⦄ (double : Double) (bank : ℕ) where
  deposit_row-Pays :
      (e : Env) (lucky : LuckyNumber) (q : Asset) (row : Vesting)
      → Ieee double
      → TakesTwig lib
      → IsFair row
      → TakesReward e bank row
      → q.symbol ≡ twig_symbol
      → lucky.chunks_remaining ≤ lucky_number_chunks
      → Pays e bank (deposit_row double (run_by bank e) lucky q row)
  unfolding deposit_row
  deposit_row-Pays e lucky q row ieee takes fair reward core few =
      let total = row.unvesting_total.amount in
      let made : make_asset total q.symbol ≡ ok (record { amount = total; symbol = q.symbol }) =
        rw core (takes.makes total fair.total_range) in
      let r = release-Releases double lucky q.symbol row ieee fair reward.small few made in
      let vested' : Asset = record row.vested { amount = add64 row.vested.amount q.amount } in
      elim (Option-cases r.released) [
        | inl nothing ↦ (
          (record row { vested = vested' }, []),
          >>=-ok (release double lucky q.symbol row) _ r.done ∙ rw nothing refl,
          tt,
        )
        | inr (tokens, out) ↦ (
          (
            record row {
              vested = vested';
              unvested = record row.unvested { amount = add64 row.unvested.amount tokens.amount };
            },
            pay (run_by bank e) row.producer tokens (reward_memo row.producer) ∷ [],
          ),
          >>=-ok (release double lucky q.symbol row) _ r.done ∙ rw out refl,
          (
            record {
              to = row.producer;
              tokens = tokens;
              memo = reward_memo row.producer;
              sent = refl;
              taken = record {
                apart = reward.served.apart;
                there = reward.served.there;
                short = reward.short;
                positive = r.positive tokens out;
                range = r.range tokens out;
                core = r.core tokens out ∙ core;
              };
            },
            tt,
          ),
        )
      ]

  deposit-Pays :
      (e : Env) (lucky : LuckyNumber) (producer : ℕ) (q : Asset) (t : Table Vesting)
      → Ieee double
      → TakesTwig lib
      → ((row : Vesting) → find producer t ≡ some row → IsFair row × TakesReward e bank row)
      → q.symbol ≡ twig_symbol
      → lucky.chunks_remaining ≤ lucky_number_chunks
      → Pays e bank (deposit double (run_by bank e) lucky producer q t)
  unfolding deposit
  deposit-Pays e lucky producer q t ieee takes rows core few =
      elim (Option-cases (find producer t)) [
        | inl new ↦
            let zero : Asset = record { amount = pos 0; symbol = q.symbol } in
            let row : Vesting = record {
              producer = producer;
              vested = q;
              unvesting_total = zero;
              unvested = zero;
              epoch = lucky.epoch;
            } in
            let made : make_asset (pos 0) q.symbol ≡ ok zero =
              rw core (takes.makes (pos 0) (omega arith, omega arith)) in
            ((store producer row t, []), rw (new, deposit, made) refl, tt)
        | inr (row, there) ↦
            let (fair, reward) = rows row there in
            let (changed, ec, payable) =
              deposit_row-Pays e lucky q row ieee takes fair reward core few in
            (
              (store producer changed.0 t, changed.1),
              rw (there, deposit) (>>=-ok (deposit_row double (run_by bank e) lucky q row) _ ec),
              payable,
            )
      ]

  not_ignored :
      (e : Env) (lucky : LuckyNumber) (q : Asset) (memo : String)
      → IsReward bank lucky q memo
      → is_ignored (run_by bank e) chunks_account bank (q ∷ []) memo ≡ false
  not_ignored e lucky q memo i = rw (i.meant, i.apart, i.core, eq_self bank) refl

  notify-Pays :
      (accounts : List ℕ) (e : Env) (lucky : LuckyNumber) (q : Asset) (memo : String)
      (t : Table Vesting)
      → Ieee double
      → TakesTwig lib
      → IsReward bank lucky q memo
      → ((k : ℕ) (row : Vesting) → find k t ≡ some row → IsFair row × TakesReward e bank row)
      → Pays e bank (notify double bank accounts e (some lucky) chunks_account bank (q ∷ []) memo t)
  unfolding notify token_deposit
  notify-Pays accounts e lucky q memo t ieee takes i rows =
      let heard = not_ignored e lucky q memo i in
      let (done, ed, payable) =
        deposit-Pays e lucky (payee memo lucky) q t ieee takes (rows (payee memo lucky)) i.core
          i.few in
      elim (Bool-cases (contains bank accounts)) [
        | inl told ↦ (done, rw (told, notify, heard, i.booked, ed) refl, payable)
        | inr untold ↦ ((t, []), rw (untold, notify) refl, tt)
      ]

  -- Where the numbers follow IEEE 754, assets take the core symbol, the bank has what it owes, and
  -- each row is of another account that exists, in the core symbol, with a total of at most 2^53: a
  -- reward that the account of the chunks has the tokens for and has signed, under a memo that books
  -- it for an account, goes through to its end, with the payout of what it releases.
  pub reward_all-goes :
      (depth : ℕ) (e : Env) (lucky : LuckyNumber) (q : Asset) (memo : String) (w : World)
      → Ieee double
      → TakesTwig lib
      → IsReward bank lucky q memo
      → ((k : ℕ) (row : Vesting) → find k w.vestings ≡ some row → TakesReward e bank row)
      → e.has_auth chunks_account ≡ true
      → e.is_account bank ≡ true
      → q.amount ≤ℤ has twig_symbol chunks_account w.ledger
      → Covers bank (pos 0) w
      → IsOk
          (transfer_all double bank (suc depth) e (some lucky) chunks_account bank (q ∷ []) memo w)
  unfolding transfer_all transfer_heard
  reward_all-goes depth e lucky q memo w ieee takes i rows signed there enough c =
      let n = run_by token_account e in
      let enough' : q.amount ≤ℤ has q.symbol chunks_account w.ledger = rw i.core enough in
      let (moved, em) =
        transfer-goes n chunks_account bank q memo w.ledger signed i.apart there i.short
          (core_valid double bank q takes i.core i.range) i.positive enough'
          (has-FromZero q.symbol chunks_account w.ledger c.sound) in
      let (told, et, payable) =
        notify-Pays moved.1 e lucky q memo w.vestings ieee takes i
          (λ k row found. (c.fair k row found, rows k row found)) in
      let after : World = record { ledger = moved.0; vestings = told.0 } in
      let heard : transfer_heard double bank e (some lucky) chunks_account bank (q ∷ []) memo w
          ≡ ok (after, told.1) =
        >>=-ok (transfer n chunks_account bank (q ∷ []) memo w.ledger) _ em
        ∙ >>=-ok
            (notify double bank moved.1 e (some lucky) chunks_account bank (q ∷ []) memo w.vestings)
            _ et in
      let apart : bank ≢ chunks_account = λ same. let e = i.apart in ground arith in
      let (_, covers) =
        transfer_heard-Covers double bank e (some lucky) chunks_account bank (q ∷ []) memo w
          (after, told.1) ieee apart c heard in
      IsOk-then (transfer_heard double bank e (some lucky) chunks_account bank (q ∷ []) memo w) _
        (after, told.1) heard
        (deliver-goes double bank depth e (some lucky) told.1 after takes payable covers)
