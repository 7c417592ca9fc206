-- ===== src/Flow/Epoch.antt =====
-- The end of an epoch goes through, all its payouts included
-- (contracts/eosio.bank/src/eosio.bank.cpp, `bank::onepoch`).
use twig_system_contracts.Prelude.{
  ℕ, suc, true, false, ltb_ℤ, sub64, some, List, [], ◌∷◌, ◌++◌, pos, pos_part, neg_part, int_laws,
  ◌==◌, ◌+◌, ◌%◌, ◌^◌, if◌then◌else◌, arith, ◌≡◌, refl, ◌∙◌, ap, Bool-cases, inl, inr,
}
use twig_system_contracts.Chain.{
  MultiIndex, Table, find, store, rows, AssetLib, make_asset, NameLib, Env, Asset, ok, >>=-ok,
  InRange,
}
use twig_system_contracts.Token.State.{twig_symbol}
use twig_system_contracts.System.State.{LuckyNumber}
use twig_system_contracts.Bank.State.{Vesting, Double}
use twig_system_contracts.Bank.Actions.{finish_row, finish_loop, onepoch, pay, roll_over}
use twig_system_contracts.Bank.Vested.{IsFair, paid}
use twig_system_contracts.Bank.Settling.{AllFair, Found, rows-Found}
use twig_system_contracts.Bank.Solvency.{onepoch-Settles}
use twig_system_contracts.Flow.Delivery.{World, run_by, onepoch_all}
use twig_system_contracts.Flow.Solvent.{Covers}
use twig_system_contracts.Flow.Paying.{TakesTwig, IsOk, IsOk-then}
use twig_system_contracts.Flow.Delivering.{
  Pays, AllPayable, AllPayable-append, deliver-goes, eq_self,
}

-- A row of another account that exists, in the core symbol.
pub record IsServed (e : Env) (bank : ℕ) (row : Vesting) : Type 0 where
  pub apart : (bank == row.producer) ≡ false
  pub there : e.is_account row.producer ≡ true
  pub core : row.vested.symbol ≡ twig_symbol

abbrev EachServed : Env → ℕ → List (ℕ × Vesting) → Type 0
EachServed e bank [] = Unit {0}
EachServed e bank ((k, row) ∷ m) = IsFair row × IsServed e bank row × EachServed e bank m

left_range :
    (row : Vesting) → IsFair row → InRange (sub64 row.unvesting_total.amount row.unvested.amount)
unfolding sub64
left_range row fair = (ground arith, ground arith)

module _ ⦃mi : MultiIndex⦄ ⦃lib : AssetLib⦄ ⦃names : NameLib⦄ (double : Double) (bank : ℕ) where
  final_payment :
      (e : Env) (row : Vesting) (tokens : Asset)
      → IsServed e bank row
      → InRange tokens.amount
      → tokens.symbol ≡ twig_symbol
      → AllPayable e bank (
          if ltb_ℤ (pos 0) tokens.amount
          then pay (run_by bank e) row.producer tokens "Distributing end of Epoch rewards..." ∷ []
          else [])
  final_payment e row tokens served range core = elim (Bool-cases (ltb_ℤ (pos 0) tokens.amount)) [
    | inr nothing ↦ rw nothing tt
    | inl some_left ↦ rw some_left (
      record {
        to = row.producer;
        tokens = tokens;
        memo = "Distributing end of Epoch rewards...";
        sent = refl;
        taken = record {
          apart = served.apart;
          there = served.there;
          short = refl;
          positive = some_left;
          range = range;
          core = core;
        };
      },
      tt,
    )
  ]

  finish_row-Pays :
      (e : Env) (epoch : ℕ) (row : Vesting)
      → TakesTwig lib
      → IsFair row
      → IsServed e bank row
      → Pays e bank (finish_row (run_by bank e) epoch row)
  unfolding finish_row
  finish_row-Pays e epoch row takes fair served =
      elim (Bool-cases ((row.epoch + 1) % 2 ^ 32 == epoch)) [
        | inr later ↦ ((row, []), rw later refl, tt)
        | inl now ↦
            let left = sub64 row.unvesting_total.amount row.unvested.amount in
            let made : make_asset left row.vested.symbol
                ≡ ok (record { amount = left; symbol = twig_symbol }) =
              rw served.core (takes.makes left (left_range row fair)) in
            let tokens : Asset = record { amount = left; symbol = twig_symbol } in
            (
              (
                roll_over epoch row,
                if ltb_ℤ (pos 0) left
                    then pay (run_by bank e) row.producer tokens
                        "Distributing end of Epoch rewards..."
                      ∷ []
                    else [],
              ),
              rw (now, made) refl,
              final_payment e row tokens served (left_range row fair) refl,
            )
      ]

  finish_loop-Pays :
      (e : Env) (epoch : ℕ) (m : List (ℕ × Vesting)) (t : Table Vesting)
      → TakesTwig lib
      → EachServed e bank m
      → Pays e bank (finish_loop (run_by bank e) epoch m t)
  unfolding finish_loop
  finish_loop-Pays e epoch [] t takes all = ((t, []), refl, tt)
  finish_loop-Pays e epoch ((k, row) ∷ m) t takes (fair, served, all) =
      let b = run_by bank e in
      let (changed, ec, first) = finish_row-Pays e epoch row takes fair served in
      let (others, eo, later) = finish_loop-Pays e epoch m (store k changed.0 t) takes all in
      (
        (others.0, changed.1 ++ others.1),
        >>=-ok (finish_row b epoch row) _ ec
            ∙ >>=-ok (finish_loop b epoch m (store k changed.0 t)) _ eo,
        AllPayable-append e bank changed.1 others.1 first later,
      )

  Found-EachServed :
      (e : Env) (m : List (ℕ × Vesting)) (t : Table Vesting)
      → AllFair t
      → ((k : ℕ) (row : Vesting) → find k t ≡ some row → IsServed e bank row)
      → Found m t
      → EachServed e bank m
  Found-EachServed e [] t fair served there = tt
  Found-EachServed e ((k, row) ∷ m) t fair served (here, others) =
      (fair k row here, served k row here, Found-EachServed e m t fair served others)

  -- Where the bank has what it owes on fair rows, each row is of another account that exists and in
  -- the core symbol, which assets take: `onepoch` for the epoch of the lucky number, under the bank's
  -- authority and with room for one level of inline actions, goes through with all its payouts.
  pub onepoch_all-goes :
      (depth : ℕ) (e : Env) (lucky : LuckyNumber) (w : World)
      → TakesTwig lib
      → ((k : ℕ) (row : Vesting) → find k w.vestings ≡ some row → IsServed e bank row)
      → e.has_auth bank ≡ true
      → Covers bank (pos 0) w
      → IsOk (onepoch_all double bank (suc depth) e lucky.epoch (some lucky) w)
  unfolding onepoch_all onepoch
  onepoch_all-goes depth e lucky w takes served signed c =
      let b = run_by bank e in
      let t = w.vestings in
      let each = Found-EachServed e (rows t) t c.fair served (rows-Found t) in
      let (done, ed, payable) = finish_loop-Pays e lucky.epoch (rows t) t takes each in
      let went : onepoch b lucky.epoch (some lucky) t ≡ ok done =
        rw (signed, eq_self lucky.epoch) ed in
      let settles = (onepoch-Settles b lucky.epoch (some lucky) t done c.fair went).0 in
      let g = settles.balanced in
      let backed = c.backed in
      let c' : Covers bank (paid done.1) (record w { vestings = done.0 }) = record {
        sound = c.sound;
        fair = settles.all_fair;
        backed = omega (int_laws, ap pos_part g, ap neg_part g);
      } in
      IsOk-then (onepoch b lucky.epoch (some lucky) t) _ done went (
        deliver-goes double bank depth e (some lucky) done.1 (record w { vestings = done.0 }) takes
          payable c')
