-- ===== src/Bank/Recipients.antt =====
-- Whom the bank pays, in what, and at most how much (contracts/eosio.bank/src/eosio.bank.cpp).
use twig_system_contracts.Prelude.{
  ℕ, false, String, not, Option, some, List, [], ◌∷◌, ◌++◌, ℤ, pos, pos_part, neg_part, ◌+ℤ◌, ◌≤ℤ◌,
  ltb_ℤ, int_laws, sub64, ◌+◌, ◌%◌, ◌^◌, ◌==◌, ◌-ℤ◌, arith, ◌≡◌, sym, ap, subst, Bool-cases,
  Option-cases, inl, inr, ◌⊎◌,
}
use twig_system_contracts.Chain.{
  MultiIndex, Table, find, store, check, or_fail, no_singleton, AssetLib, make_asset, NameLib, Env,
  Asset, ok, >>=-eq-ok, ok-injective, Send, Call,
}
use twig_system_contracts.Token.State.{twig_symbol}
use twig_system_contracts.System.State.{LuckyNumber}
use twig_system_contracts.Bank.State.{Vesting, Double, Ieee, token_account, reward_memo}
use twig_system_contracts.Bank.Actions.{
  release, deposit_row, finish_row, finish_loop, first_row, deposit, token_deposit, is_ignored,
  payee,
}
use twig_system_contracts.Bank.Vested.{IsFair, release-IsPart, left_exact}

-- What is sent for a row: nothing, or one transfer of the token contract from the bank to the row's
-- producer, of one amount of the symbol, not negative and no more than what is left to unvest.
abbrev pub Pays : ℕ → ℕ → Vesting → List Send → Type 0
Pays bank symbol row [] = Unit {0}
Pays bank symbol row (s ∷ t ∷ rest) = ⊥
Pays bank symbol row (s ∷ []) =
    (amount : ℤ) × (memo : String) × (s ≡ record {
      actor = bank;
      contract = token_account;
      call =
          Call.transfer bank row.producer (record { amount = amount; symbol = symbol } ∷ []) memo;
    })
    × (pos 0 ≤ℤ amount)
    × (amount +ℤ row.unvested.amount ≤ℤ row.unvesting_total.amount)

-- What is sent for each row, one after the other.
abbrev pub PaysAll : ℕ → List (ℕ × Vesting) → List Send → Type 0
PaysAll bank [] sends = sends ≡ []
PaysAll bank ((k, row) ∷ m) sends =
    (first : List Send) × (rest : List Send) × (sends ≡ first ++ rest)
    × Pays bank row.vested.symbol row first
    × PaysAll bank m rest

abbrev pub AllRowsFair : List (ℕ × Vesting) → Type 0
AllRowsFair [] = Unit
AllRowsFair ((k, row) ∷ m) = IsFair row × AllRowsFair m

heard_symbol :
    (e : Env) (from to : ℕ) (q : Asset) (more : List Asset) (memo : String)
    → is_ignored e from to (q ∷ more) memo ≡ false
    → q.symbol ≡ twig_symbol
heard_symbol e from to q [] memo h = ground arith
heard_symbol e from to q (a ∷ more) memo h = absurd (ground arith)

-- A step that goes through pays what it says.
sent-Pays {ℓ} :
    {T : Type ℓ} (bank symbol : ℕ) (row : Vesting) (x : T) (sent : List Send) (r : T × List Send)
    → ok (x, sent) ≡ ok r
    → Pays bank symbol row sent
    → Pays bank symbol row r.1
sent-Pays {T = T} bank symbol row x sent r h pays =
    subst (λ (z : T × List Send). Pays bank symbol row z.1) (ok-injective h) pays

of_symbol :
    (a : Asset) (symbol : ℕ) → a.symbol ≡ symbol → a ≡ record { amount = a.amount; symbol = symbol }
of_symbol a symbol h = ap (λ s. record { amount = a.amount; symbol = s }) h

module _ ⦃lib : AssetLib⦄ where
  pub deposit_row-Pays :
      ⦃names : NameLib⦄ (double : Double) (e : Env) (lucky : LuckyNumber) (quantity : Asset)
      (row : Vesting) (r : Vesting × List Send)
      → Ieee double
      → IsFair row
      → deposit_row double e lucky quantity row ≡ ok r
      → Pays e.self quantity.symbol row r.1
  unfolding deposit_row
  deposit_row-Pays double e lucky quantity row r ieee fair h =
      let (released, er, h1) = >>=-eq-ok (release double lucky quantity.symbol row) _ h in
      elim (Option-cases released) [
        | inl nothing ↦
            let h2 = rw nothing at h1 in sent-Pays e.self quantity.symbol row _ _ r h2 tt
        | inr (tokens, some_tokens) ↦
            let h2 = rw some_tokens at h1 in
            let er' = rw some_tokens at er in
            let (more, part, symbol) =
              release-IsPart double lucky quantity.symbol row tokens ieee fair er' in
            sent-Pays e.self quantity.symbol row _ _ r h2 (
              tokens.amount,
              reward_memo row.producer,
              ap
                  (λ (a : Asset). record {
                    actor = e.self;
                    contract = token_account;
                    call = Call.transfer e.self row.producer (a ∷ []) (reward_memo row.producer);
                  })
                  (of_symbol tokens quantity.symbol symbol),
              more,
              part,
            )
      ]

  finish_row-Pays :
      (e : Env) (epoch : ℕ) (row : Vesting) (r : Vesting × List Send)
      → IsFair row
      → finish_row e epoch row ≡ ok r
      → Pays e.self row.vested.symbol row r.1
  unfolding finish_row
  finish_row-Pays e epoch row r fair h = elim (Bool-cases ((row.epoch + 1) % 2 ^ 32 == epoch)) [
    | inr later ↦ let h1 = rw later at h in sent-Pays e.self row.vested.symbol row _ _ r h1 tt
    | inl now ↦
        let h1 = rw now at h in
        let left = sub64 row.unvesting_total.amount row.unvested.amount in
        let (finished, ef, h2) = >>=-eq-ok (make_asset left row.vested.symbol) _ h1 in
        let fields = lib.make_fields left row.vested.symbol finished ef in
        let exact = left_exact row fair in
        let amount : finished.amount ≡ row.unvesting_total.amount -ℤ row.unvested.amount = cc in
        let symbol : finished.symbol ≡ row.vested.symbol = cc in
        elim (Bool-cases (ltb_ℤ (pos 0) finished.amount)) [
          | inr nothing ↦
              let h3 = rw nothing at h2 in sent-Pays e.self row.vested.symbol row _ _ r h3 tt
          | inl some_left ↦
              let h3 = rw some_left at h2 in
              let up : pos 0 ≤ℤ finished.amount = ground arith in
              sent-Pays e.self row.vested.symbol row _ _ r h3 (
                finished.amount,
                "Distributing end of Epoch rewards...",
                ap
                    (λ (a : Asset). record {
                      actor = e.self;
                      contract = token_account;
                      call =
                          Call.transfer e.self row.producer (a ∷ [])
                            "Distributing end of Epoch rewards...";
                    })
                    (of_symbol finished row.vested.symbol symbol),
                up,
                omega (int_laws, ap pos_part amount, ap neg_part amount),
              )
        ]
  ]

  module _ ⦃mi : MultiIndex⦄ where
    pub finish_loop-PaysAll :
        (e : Env) (epoch : ℕ) (m : List (ℕ × Vesting)) (t : Table Vesting)
        (r : Table Vesting × List Send)
        → AllRowsFair m
        → finish_loop e epoch m t ≡ ok r
        → PaysAll e.self m r.1
    unfolding finish_loop
    finish_loop-PaysAll e epoch [] t r fair h =
        sym (ap (λ (z : Table Vesting × List Send). z.1) (ok-injective h))
    finish_loop-PaysAll e epoch ((k, row) ∷ m) t r (row_fair, fair) h =
        let (changed, ec, h1) = >>=-eq-ok (finish_row e epoch row) _ h in
        let (rest, er, h2) = >>=-eq-ok (finish_loop e epoch m (store k changed.0 t)) _ h1 in
        (
          changed.1,
          rest.1,
          sym (ap (λ (z : Table Vesting × List Send). z.1) (ok-injective h2)),
          finish_row-Pays e epoch row changed row_fair ec,
          finish_loop-PaysAll e epoch m (store k changed.0 t) rest fair er,
        )

    deposit-Pays :
        ⦃names : NameLib⦄ (double : Double) (e : Env) (lucky : LuckyNumber) (producer : ℕ)
        (quantity : Asset) (t : Table Vesting) (r : Table Vesting × List Send)
        → Ieee double
        → ((row : Vesting) → find producer t ≡ some row → IsFair row)
        → deposit double e lucky producer quantity t ≡ ok r
        → (r.1 ≡ [])
          ⊎ ((row : Vesting) × (find producer t ≡ some row) × Pays e.self quantity.symbol row r.1)
    unfolding deposit
    deposit-Pays double e lucky producer quantity t r ieee fair h =
        elim (Option-cases (find producer t)) [
          | inl new ↦
              let h1 = rw (new, deposit) at h in
              let (row, er, h2) = >>=-eq-ok (first_row lucky producer quantity) _ h1 in
              inl (sym (ap (λ (z : Table Vesting × List Send). z.1) (ok-injective h2)))
          | inr (row, there) ↦
              let h1 = rw (there, deposit) at h in
              let (changed, ec, h2) = >>=-eq-ok (deposit_row double e lucky quantity row) _ h1 in
              inr (
                row,
                there,
                sent-Pays e.self quantity.symbol row _ _ r h2
                    (deposit_row-Pays double e lucky quantity row changed ieee (fair row there) ec),
              )
        ]

    -- What a deposit sends: nothing, or the payment for the row of the account that the memo names.
    abbrev pub PaysPayee : ℕ → Option LuckyNumber → String → Table Vesting → List Send → Type 0
    PaysPayee bank stored memo t sends =
        (sends ≡ [])
        ⊎ ((lucky : LuckyNumber) × (row : Vesting) × (stored ≡ some lucky)
            × (find (payee memo lucky) t ≡ some row)
            × Pays bank twig_symbol row sends)

    pub token_deposit-PaysPayee :
        ⦃names : NameLib⦄ (double : Double) (e : Env) (stored : Option LuckyNumber) (from to : ℕ)
        (tokens : List Asset) (memo : String) (t : Table Vesting) (r : Table Vesting × List Send)
        → Ieee double
        → ((k : ℕ) (row : Vesting) → find k t ≡ some row → IsFair row)
        → token_deposit double e stored from to tokens memo t ≡ ok r
        → PaysPayee e.self stored memo t r.1
    unfolding token_deposit
    token_deposit-PaysPayee double e stored from to [] memo t r ieee fair h =
        inl (sym (ap (λ (z : Table Vesting × List Send). z.1) (ok-injective h)))
    token_deposit-PaysPayee double e stored from to (q ∷ more) memo t r ieee fair h =
        elim (Bool-cases (is_ignored e from to (q ∷ more) memo)) [
          | inl ignored ↦
              let h1 = rw ignored at h in
              inl (sym (ap (λ (z : Table Vesting × List Send). z.1) (ok-injective h1)))
          | inr heard ↦
              let h1 = rw heard at h in
              let (lucky, el, h2) = >>=-eq-ok (or_fail stored no_singleton) _ h1 in
              let (_, _, h3) =
                >>=-eq-ok (check (not (payee memo lucky == 0)) "invalid memo") _ h2 in
              let there : stored ≡ some lucky = ground arith in
              let symbol : q.symbol ≡ twig_symbol = heard_symbol e from to q more memo heard in
              elim (deposit-Pays double e lucky (payee memo lucky) q t r ieee
                (fair (payee memo lucky)) h3) [
                  | inl nothing ↦ inl nothing
                  | inr (row, found, pays) ↦
                      inr (lucky, row, there, found, subst (λ s. Pays e.self s row r.1) symbol pays)
                ]
        ]
