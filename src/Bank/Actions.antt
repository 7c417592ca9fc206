-- ===== src/Bank/Actions.antt =====
-- The actions of eosio.bank (contracts/eosio.bank/src/eosio.bank.cpp).
use Prim.Native.Nat.{Ordering}
use Prim.Native.String.{compare}
use twig_system_contracts.Prelude.{
  ℕ, Bool, true, false, not, Option, none, some, List, [], ◌∷◌, ◌++◌, String, ℤ, pos, pos_part,
  neg_part, ◌-ℤ◌, ltb_ℤ, add64, sub64, ◌+◌, ◌/◌, ◌%◌, ◌^◌, ◌==◌, ◌||◌, if◌then◌else◌,
}
use twig_system_contracts.Chain.{
  MultiIndex, Table, find, rows, store, erase, AssetLib, make_asset, NameLib, Env, Asset,
  require_auth, Result, ok, check, or_fail, no_singleton, ◌>>=◌, ◌>>◌, Send, Call,
}
use twig_system_contracts.Token.State.{twig_symbol}
use twig_system_contracts.System.State.{LuckyNumber, lucky_number_chunks}
use twig_system_contracts.Bank.State.{
  Vesting, Double, token_account, chunks_account, team_account, reward_memo,
}

abbrev pub eq_text : String → String → Bool
eq_text a b = elim (compare a b) [ Ordering.eq ↦ true | _ ↦ false ]

-- A quotient of `int64_t` by a positive one, which the machine rounds towards zero.
abbrev pub quotient : ℤ → ℤ → ℤ
quotient a b = pos (pos_part a / pos_part b) -ℤ pos (neg_part a / pos_part b)

-- `((unvested / unvesting_total) - 1) * -1`, on integers as the operands are.
abbrev pub inverse_paidout : Vesting → ℤ
inverse_paidout row =
    sub64 (pos 0) (sub64 (quotient row.unvested.amount row.unvesting_total.amount) (pos 1))

-- `chunks_remaining / lucky_number_chunks`, also on integers.
abbrev pub chunks_ratio : LuckyNumber → ℤ
chunks_ratio lucky = pos (lucky.chunks_remaining / lucky_number_chunks)

-- The account that a deposit is for: none has the number zero.
abbrev pub payee : String → LuckyNumber → ℕ
payee memo lucky =
    if eq_text memo "team_share"
    then team_account
    else if eq_text memo "producer_share"
    then lucky.producer
    else 0

-- Transfers that are no deposit.
abbrev pub is_ignored : Env → ℕ → ℕ → List Asset → String → Bool
is_ignored e from to [] memo = true
is_ignored e from to (a ∷ b ∷ rest) memo = true
is_ignored e from to (a ∷ []) memo =
    not (to == e.self)
    || from == e.self
    || not (from == chunks_account)
    || eq_text memo "ignore_memo"
    || not (a.symbol == twig_symbol)

-- The rounding that is put right.
abbrev pub capped : Vesting → ℤ → ℤ
capped row n =
    if ltb_ℤ row.unvesting_total.amount (add64 n row.unvested.amount)
    then sub64 row.unvesting_total.amount row.unvested.amount
    else n

module _ ⦃lib : AssetLib⦄ where
  -- What a deposit releases of the part that is unvesting, where it releases any.
  unfoldable pub release : Double → LuckyNumber → ℕ → Vesting → Result (Option Asset)
  release double lucky symbol row =
      let ratio =
        double.minus (double.of_int (inverse_paidout row)) (double.of_int (chunks_ratio lucky)) in
      if ltb_ℤ (pos 0) row.unvesting_total.amount
      then (if double.positive ratio
          then (do
            n ← double.to_int64 (double.times ratio (double.of_int row.unvesting_total.amount))
            tokens ← make_asset n symbol
            ok (some (record tokens { amount = capped row tokens.amount })))
          else ok none)
      else ok none

  abbrev pub pay : Env → ℕ → Asset → String → Send
  pay e producer tokens memo = record {
    actor = e.self;
    contract = token_account;
    call = Call.transfer e.self producer (tokens ∷ []) memo;
  }

  -- The `modify` of a deposit for an account that has a row.
  unfoldable pub deposit_row :
      ⦃names : NameLib⦄
      → Double
      → Env
      → LuckyNumber
      → Asset
      → Vesting
      → Result (Vesting × List Send)
  deposit_row double e lucky quantity row = do
    released ← release double lucky quantity.symbol row
    let vested' = record row.vested { amount = add64 row.vested.amount quantity.amount } in
        elim released [
          | none ↦ ok (record row { vested = vested' }, [])
          | some tokens ↦ ok (
            record row {
              vested = vested';
              unvested = record row.unvested { amount = add64 row.unvested.amount tokens.amount };
            },
            pay e row.producer tokens (reward_memo row.producer) ∷ [],
          )
        ]

  -- `asset{0, symbol}`
  abbrev pub first_row : LuckyNumber → ℕ → Asset → Result Vesting
  first_row lucky producer quantity = do
    zero ← make_asset (pos 0) quantity.symbol
    ok (record {
      producer = producer;
      vested = quantity;
      unvesting_total = zero;
      unvested = zero;
      epoch = lucky.epoch;
    })

  -- The `modify` of the end of an epoch.
  abbrev pub roll_over : ℕ → Vesting → Vesting
  roll_over epoch row = record row {
    unvesting_total = record row.unvesting_total { amount = row.vested.amount };
    unvested = record row.unvested { amount = pos 0 };
    vested = record row.vested { amount = pos 0 };
    epoch = epoch;
  }

  -- One round of the loop of `onepoch`.
  unfoldable pub finish_row : Env → ℕ → Vesting → Result (Vesting × List Send)
  finish_row e epoch row =
      if (row.epoch + 1) % 2 ^ 32 == epoch
      then (do
        finished ←
            make_asset (sub64 row.unvesting_total.amount row.unvested.amount) row.vested.symbol
        ok (
          roll_over epoch row,
          (if ltb_ℤ (pos 0) finished.amount
              then pay e row.producer finished "Distributing end of Epoch rewards..." ∷ []
              else []),
        ))
      else ok (row, [])

  module _ ⦃mi : MultiIndex⦄ where
    -- A deposit that is not ignored.
    unfoldable pub deposit :
        ⦃names : NameLib⦄
        → Double
        → Env
        → LuckyNumber
        → ℕ
        → Asset
        → Table Vesting
        → Result (Table Vesting × List Send)
    unfolding deposit_row
    deposit double e lucky producer quantity t = elim (find producer t) [
      | none ↦ do row ← first_row lucky producer quantity; ok (store producer row t, [])
      | some row ↦ do
        changed ← deposit_row double e lucky quantity row
        ok (store producer changed.0 t, changed.1)
    ]

    unfoldable pub token_deposit :
        ⦃names : NameLib⦄
        → Double
        → Env
        → Option LuckyNumber
        → ℕ
        → ℕ
        → List Asset
        → String
        → Table Vesting
        → Result (Table Vesting × List Send)
    unfolding deposit
    token_deposit double e stored from to [] memo t = ok (t, [])
    token_deposit double e stored from to (quantity ∷ more) memo t =
        if is_ignored e from to (quantity ∷ more) memo then ok (t, []) else (do
          lucky ← or_fail stored no_singleton
          check (not (payee memo lucky == 0)) "invalid memo"
          deposit double e lucky (payee memo lucky) quantity t)

    -- The loop, over the rows that the table has at its start.
    unfoldable pub finish_loop :
        Env → ℕ → List (ℕ × Vesting) → Table Vesting → Result (Table Vesting × List Send)
    unfolding finish_row
    finish_loop e epoch [] t = ok (t, [])
    finish_loop e epoch ((key, row) ∷ rest) t = do
      changed ← finish_row e epoch row
      others ← finish_loop e epoch rest (store key changed.0 t)
      ok (others.0, changed.1 ++ others.1)

    unfoldable pub onepoch :
        Env → ℕ → Option LuckyNumber → Table Vesting → Result (Table Vesting × List Send)
    unfolding finish_loop
    onepoch e epoch stored t = do
      require_auth e e.self
      lucky ← or_fail stored no_singleton
      check (lucky.epoch == epoch) "invalid epoch"
      finish_loop e epoch (rows t) t

    abbrev pub erase_rows : List (ℕ × Vesting) → Table Vesting → Table Vesting
    erase_rows [] t = t
    erase_rows ((key, row) ∷ rest) t = erase_rows rest (erase key t)

    unfoldable pub cleanup : Env → Table Vesting → Result (Table Vesting)
    cleanup e t = do require_auth e e.self; ok (erase_rows (rows t) t)
