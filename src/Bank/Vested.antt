-- ===== src/Bank/Vested.antt =====
-- What the bank owes on a vesting row, and how a deposit and the end of an epoch change it
-- (contracts/eosio.bank/src/eosio.bank.cpp).
use twig_system_contracts.Prelude.{
  ℕ, String, some, List, [], ◌∷◌, ℤ, pos, pos_part, neg_part, ◌+ℤ◌, ◌-ℤ◌, ◌≤ℤ◌, ltb_ℤ, int_laws,
  add64, sub64, ◌+◌, ◌%◌, ◌^◌, ◌==◌, if◌then◌else◌, subst, arith, ◌≡◌, ap, Bool-cases, Option-cases,
  inl, inr,
}
use twig_system_contracts.Chain.{
  AssetLib, make_asset, NameLib, Env, Asset, ok, >>=-eq-ok, ok-injective, Send, Call, InRange,
}
use twig_system_contracts.System.State.{LuckyNumber}
use twig_system_contracts.Bank.State.{Vesting, Double, Ieee, reward_memo}
use twig_system_contracts.Bank.Actions.{
  pay, release, capped, deposit_row, finish_row, roll_over, inverse_paidout, chunks_ratio,
}

-- Amounts are not negative and below 2^62, and no more is unvested than there is to unvest.
pub record IsFair (row : Vesting) : Type 0 where
  pub vested_sign : pos 0 ≤ℤ row.vested.amount
  pub vested_range : InRange row.vested.amount
  pub unvested_sign : pos 0 ≤ℤ row.unvested.amount
  pub part : row.unvested.amount ≤ℤ row.unvesting_total.amount
  pub total_sign : pos 0 ≤ℤ row.unvesting_total.amount
  pub total_range : InRange row.unvesting_total.amount

-- What is still to be paid on a row.
unfoldable pub due : Vesting → ℤ
due row = row.vested.amount +ℤ (row.unvesting_total.amount -ℤ row.unvested.amount)

-- What a call takes out of the account that sends it: the first asset of a transfer.
abbrev pub taken_by : Call → ℤ
taken_by (Call.transfer from to (tokens ∷ more) memo) = tokens.amount
taken_by other = pos 0

-- What a list of transfers takes out of the bank.
unfoldable pub paid : List Send → ℤ
paid [] = pos 0
paid (s ∷ rest) = taken_by s.call +ℤ paid rest

capped-IsPart :
    (row : Vesting) (n : ℤ)
    → IsFair row
    → pos 0 ≤ℤ n
    → InRange n
    → (pos 0 ≤ℤ capped row n) × (capped row n +ℤ row.unvested.amount ≤ℤ row.unvesting_total.amount)
unfolding add64 sub64 ◌+ℤ◌
capped-IsPart row n fair sign range = ground arith

pub left_exact :
    (row : Vesting)
    → IsFair row
    → sub64 row.unvesting_total.amount row.unvested.amount
      ≡ row.unvesting_total.amount -ℤ row.unvested.amount
unfolding sub64 ◌-ℤ◌
left_exact row fair = ground arith

-- `row'` is fair, and what is due has risen by `quantity`, less what is paid out, which is not
-- negative.
pub record Accounted (row : Vesting) (quantity : ℤ) (row' : Vesting) (sent : List Send)
    : Type 0 where
  pub fair : IsFair row'
  pub balanced : due row' +ℤ paid sent ≡ due row +ℤ quantity
  pub sign : pos 0 ≤ℤ paid sent

module _ ⦃lib : AssetLib⦄ where
  -- What a deposit releases is neither negative nor more than what is left to unvest, and of the
  -- symbol of the deposit.
  pub release-IsPart :
      (double : Double) (lucky : LuckyNumber) (symbol : ℕ) (row : Vesting) (tokens : Asset)
      → Ieee double
      → IsFair row
      → release double lucky symbol row ≡ ok (some tokens)
      → (pos 0 ≤ℤ tokens.amount)
        × (tokens.amount +ℤ row.unvested.amount ≤ℤ row.unvesting_total.amount)
        × (tokens.symbol ≡ symbol)
  unfolding release
  release-IsPart double lucky symbol row tokens ieee fair h =
      let total = row.unvesting_total.amount in
      let ratio =
        double.minus (double.of_int (inverse_paidout row)) (double.of_int (chunks_ratio lucky)) in
      elim (Bool-cases (ltb_ℤ (pos 0) total)) [
        | inr never ↦ absurd (ground arith)
        | inl here ↦ elim (Bool-cases (double.positive ratio)) [
          | inr never ↦ absurd (ground arith)
          | inl up ↦
              let h1 = rw (here, up) at h in
              let (n, en, h2) =
                >>=-eq-ok (double.to_int64 (double.times ratio (double.of_int total))) _ h1 in
              let (made, em, h3) = >>=-eq-ok (make_asset n symbol) _ h2 in
              let fields = lib.make_fields n symbol made em in
              let same : capped row n ≡ tokens.amount = cc in
              let sign = ieee.times_sign ratio total n up fair.total_sign en in
              let kept : tokens.symbol ≡ symbol = cc in
              let (up_to, part) =
                subst (λ m. (pos 0 ≤ℤ m) × (m +ℤ row.unvested.amount ≤ℤ total)) same
                  (capped-IsPart row n fair sign (lib.make_range n symbol made em)) in
              (up_to, part, kept)
        ]
      ]

  deposit_nothing :
      (quantity : Asset) (row : Vesting)
      → IsFair row
      → pos 0 ≤ℤ quantity.amount
      → InRange (row.vested.amount +ℤ quantity.amount)
      → Accounted row quantity.amount
          (record row {
            vested = record row.vested { amount = add64 row.vested.amount quantity.amount };
          })
          []
  unfolding due paid ◌+ℤ◌ ◌-ℤ◌ add64
  deposit_nothing quantity row fair sign range = record {
    fair = record {
      vested_sign = ground arith;
      vested_range = ground arith;
      unvested_sign = fair.unvested_sign;
      part = fair.part;
      total_sign = fair.total_sign;
      total_range = fair.total_range;
    };
    balanced = ground arith;
    sign = ground arith;
  }

  deposit_sums :
      (quantity tokens : Asset) (row : Vesting)
      → IsFair row
      → pos 0 ≤ℤ quantity.amount
      → InRange (row.vested.amount +ℤ quantity.amount)
      → pos 0 ≤ℤ tokens.amount
      → tokens.amount +ℤ row.unvested.amount ≤ℤ row.unvesting_total.amount
      → (add64 row.vested.amount quantity.amount ≡ row.vested.amount +ℤ quantity.amount)
        × (add64 row.unvested.amount tokens.amount ≡ row.unvested.amount +ℤ tokens.amount)
  unfolding add64 ◌+ℤ◌
  deposit_sums quantity tokens row fair sign range more part = (ground arith, ground arith)

  deposit_part :
      (quantity tokens : Asset) (row : Vesting) (e : Env) (memo : String)
      → IsFair row
      → pos 0 ≤ℤ quantity.amount
      → InRange (row.vested.amount +ℤ quantity.amount)
      → pos 0 ≤ℤ tokens.amount
      → tokens.amount +ℤ row.unvested.amount ≤ℤ row.unvesting_total.amount
      → Accounted row quantity.amount
          (record row {
            vested = record row.vested { amount = add64 row.vested.amount quantity.amount };
            unvested = record row.unvested { amount = add64 row.unvested.amount tokens.amount };
          })
          (pay e row.producer tokens memo ∷ [])
  unfolding due paid
  deposit_part quantity tokens row e memo fair sign range more part =
      let (v, u) = deposit_sums quantity tokens row fair sign range more part in
      let vs = fair.vested_sign in
      let us = fair.unvested_sign in
      let vested_more : pos 0 ≤ℤ row.vested.amount +ℤ quantity.amount = omega int_laws in
      let unvested_more : pos 0 ≤ℤ row.unvested.amount +ℤ tokens.amount = omega int_laws in
      let part_more : row.unvested.amount +ℤ tokens.amount ≤ℤ row.unvesting_total.amount =
        omega int_laws in
      record {
        fair = record {
          vested_sign = rw v vested_more;
          vested_range = rw v range;
          unvested_sign = rw u unvested_more;
          part = rw u part_more;
          total_sign = fair.total_sign;
          total_range = fair.total_range;
        };
        balanced = omega (int_laws, ap pos_part v, ap neg_part v, ap pos_part u, ap neg_part u);
        sign = omega int_laws;
      }

  -- A deposit on a row adds its amount to what is due on the row, less what it pays out, and
  -- keeps the row fair.
  pub deposit_row-due :
      ⦃names : NameLib⦄ (double : Double) (e : Env) (lucky : LuckyNumber) (quantity : Asset)
      (row : Vesting) (r : Vesting × List Send)
      → Ieee double
      → IsFair row
      → pos 0 ≤ℤ quantity.amount
      → InRange (row.vested.amount +ℤ quantity.amount)
      → deposit_row double e lucky quantity row ≡ ok r
      → Accounted row quantity.amount r.0 r.1
  unfolding deposit_row
  deposit_row-due double e lucky quantity row r ieee fair sign range h =
      let (released, er, h1) = >>=-eq-ok (release double lucky quantity.symbol row) _ h in
      elim (Option-cases released) [
        | inl nothing ↦
            let h2 = rw nothing at h1 in
            subst (λ z. Accounted row quantity.amount z.0 z.1) (ok-injective h2)
              (deposit_nothing quantity row fair sign range)
        | inr (tokens, some_tokens) ↦
            let h2 = rw some_tokens at h1 in
            let er' = rw some_tokens at er in
            let (more, part, _) =
              release-IsPart double lucky quantity.symbol row tokens ieee fair er' in
            subst (λ z. Accounted row quantity.amount z.0 z.1) (ok-injective h2)
              (deposit_part quantity tokens row e (reward_memo row.producer) fair sign range more
                part)
      ]

  rolled :
      (e : Env) (epoch : ℕ) (finished : Asset) (row : Vesting)
      → IsFair row
      → finished.amount ≡ row.unvesting_total.amount -ℤ row.unvested.amount
      → Accounted row (pos 0) (roll_over epoch row) (
          if ltb_ℤ (pos 0) finished.amount
          then pay e row.producer finished "Distributing end of Epoch rewards..." ∷ []
          else [])
  unfolding due paid ◌+ℤ◌ ◌-ℤ◌
  rolled e epoch finished row fair h = record {
    fair = record {
      vested_sign = ground arith;
      vested_range = ground arith;
      unvested_sign = ground arith;
      part = ground arith;
      total_sign = fair.vested_sign;
      total_range = fair.vested_range;
    };
    balanced = ground arith;
    sign = ground arith;
  }

  kept : (row : Vesting) → IsFair row → Accounted row (pos 0) row []
  unfolding due paid ◌+ℤ◌ ◌-ℤ◌
  kept row fair = record { fair = fair; balanced = ground arith; sign = ground arith }

  -- The end of an epoch pays what is left of a row and turns what has vested into what is
  -- unvesting: what is due falls by what is paid.
  pub finish_row-due :
      (e : Env) (epoch : ℕ) (row : Vesting) (r : Vesting × List Send)
      → IsFair row
      → finish_row e epoch row ≡ ok r
      → Accounted row (pos 0) r.0 r.1
  unfolding finish_row
  finish_row-due e epoch row r fair h = elim (Bool-cases ((row.epoch + 1) % 2 ^ 32 == epoch)) [
    | inr later ↦
        let h1 = rw later at h in
        subst (λ z. Accounted row (pos 0) z.0 z.1) (ok-injective h1) (kept row fair)
    | inl now ↦
        let h1 = rw now at h in
        let left = sub64 row.unvesting_total.amount row.unvested.amount in
        let (finished, ef, h2) = >>=-eq-ok (make_asset left row.vested.symbol) _ h1 in
        let fields = lib.make_fields left row.vested.symbol finished ef in
        let exact = left_exact row fair in
        let amount : finished.amount ≡ row.unvesting_total.amount -ℤ row.unvested.amount = cc in
        subst (λ z. Accounted row (pos 0) z.0 z.1) (ok-injective h2)
          (rolled e epoch finished row fair amount)
  ]
