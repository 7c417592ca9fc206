-- ===== src/Flow/Payouts.antt =====
-- What eosio.bank sends, and what a transfer of the token contract does to the bank's balance
-- (contracts/eosio.bank/src/eosio.bank.cpp, contracts/twig.token/src/actions/user.cpp).
use twig_system_contracts.Prelude.{
  ℕ, String, Option, not, List, [], ◌∷◌, ◌++◌, pos, ◌≤ℤ◌, int_laws, ltb_ℤ, sub64, ◌+◌, ◌%◌, ◌^◌,
  ◌==◌, arith, ◌≡◌, refl, subst, Bool-cases, Option-cases, inl, inr,
}
use twig_system_contracts.Chain.{
  MultiIndex, Table, find, store, rows, AssetLib, make_asset, NameLib, Env, Asset, Pairs, ok,
  >>=-eq-ok, ok-injective, check, or_fail, no_singleton, require_auth, is_valid, is_valid-InRange,
  InRange, Send, Call,
}
use twig_system_contracts.Token.Pairs.{transfer_one, transfer_loop}
use twig_system_contracts.Token.TransferLoop.{moved}
use twig_system_contracts.System.State.{LuckyNumber}
use twig_system_contracts.Bank.State.{Vesting, Double, token_account, reward_memo}
use twig_system_contracts.Bank.Actions.{
  release, deposit_row, finish_row, finish_loop, onepoch, deposit, token_deposit, is_ignored, payee,
  first_row,
}

-- A transfer of one asset from the bank.
abbrev pub IsPayout : ℕ → Send → Type 0
IsPayout bank s =
    (to : ℕ) × (a : Asset) × (memo : String) × (s ≡ record {
      actor = bank;
      contract = token_account;
      call = Call.transfer bank to (a ∷ []) memo;
    })

abbrev pub ArePayouts : ℕ → List Send → Type 0
ArePayouts bank [] = Unit {0}
ArePayouts bank (s ∷ rest) = IsPayout bank s × ArePayouts bank rest

ArePayouts-append :
    (bank : ℕ) (a b : List Send) → ArePayouts bank a → ArePayouts bank b → ArePayouts bank (a ++ b)
ArePayouts-append bank [] b ha hb = hb
ArePayouts-append bank (s ∷ rest) b ha hb = (ha.0, ArePayouts-append bank rest b ha.1 hb)

-- A step that goes through sends what it says.
sent-ArePayouts {ℓ} :
    {T : Type ℓ} (bank : ℕ) (x : T) (sent : List Send) (r : T × List Send)
    → ok (x, sent) ≡ ok r
    → ArePayouts bank sent
    → ArePayouts bank r.1
sent-ArePayouts {T = T} bank x sent r h all =
    subst (λ (z : T × List Send). ArePayouts bank z.1) (ok-injective h) all

module _ ⦃lib : AssetLib⦄ where
  deposit_row-ArePayouts :
      ⦃names : NameLib⦄ (double : Double) (e : Env) (lucky : LuckyNumber) (quantity : Asset)
      (row : Vesting) (r : Vesting × List Send)
      → deposit_row double e lucky quantity row ≡ ok r
      → ArePayouts e.self r.1
  unfolding deposit_row
  deposit_row-ArePayouts double e lucky quantity row r h =
      let (released, er, h1) = >>=-eq-ok (release double lucky quantity.symbol row) _ h in
      elim (Option-cases released) [
        | inl nothing ↦ let h2 = rw nothing at h1 in sent-ArePayouts e.self _ _ r h2 tt
        | inr (tokens, some_tokens) ↦
            let h2 = rw some_tokens at h1 in
            sent-ArePayouts e.self _ _ r h2
              ((row.producer, tokens, reward_memo row.producer, refl), tt)
      ]

  finish_row-ArePayouts :
      (e : Env) (epoch : ℕ) (row : Vesting) (r : Vesting × List Send)
      → finish_row e epoch row ≡ ok r
      → ArePayouts e.self r.1
  unfolding finish_row
  finish_row-ArePayouts e epoch row r h = elim (Bool-cases ((row.epoch + 1) % 2 ^ 32 == epoch)) [
    | inr later ↦ let h1 = rw later at h in sent-ArePayouts e.self _ _ r h1 tt
    | inl now ↦
        let h1 = rw now at h in
        let left = sub64 row.unvesting_total.amount row.unvested.amount in
        let (finished, ef, h2) = >>=-eq-ok (make_asset left row.vested.symbol) _ h1 in
        elim (Bool-cases (ltb_ℤ (pos 0) finished.amount)) [
          | inr nothing ↦ let h3 = rw nothing at h2 in sent-ArePayouts e.self _ _ r h3 tt
          | inl some_left ↦
              let h3 = rw some_left at h2 in
              sent-ArePayouts e.self _ _ r h3
                ((row.producer, finished, "Distributing end of Epoch rewards...", refl), tt)
        ]
  ]

  module _ ⦃mi : MultiIndex⦄ where
    finish_loop-ArePayouts :
        (e : Env) (epoch : ℕ) (m : List (ℕ × Vesting)) (t : Table Vesting)
        (r : Table Vesting × List Send)
        → finish_loop e epoch m t ≡ ok r
        → ArePayouts e.self r.1
    unfolding finish_loop
    finish_loop-ArePayouts e epoch [] t r h = sent-ArePayouts e.self _ _ r h tt
    finish_loop-ArePayouts e epoch ((k, row) ∷ m) t r h =
        let (changed, ec, h1) = >>=-eq-ok (finish_row e epoch row) _ h in
        let (rest, er, h2) = >>=-eq-ok (finish_loop e epoch m (store k changed.0 t)) _ h1 in
        sent-ArePayouts e.self _ _ r h2 (
          ArePayouts-append e.self changed.1 rest.1 (finish_row-ArePayouts e epoch row changed ec)
            (finish_loop-ArePayouts e epoch m (store k changed.0 t) rest er))

    pub onepoch-ArePayouts :
        (e : Env) (epoch : ℕ) (stored : Option LuckyNumber) (t : Table Vesting)
        (r : Table Vesting × List Send)
        → onepoch e epoch stored t ≡ ok r
        → ArePayouts e.self r.1
    unfolding onepoch
    onepoch-ArePayouts e epoch stored t r h =
        let (_, _, h1) = >>=-eq-ok (require_auth e e.self) _ h in
        let (lucky, _, h2) = >>=-eq-ok (or_fail stored no_singleton) _ h1 in
        let (_, _, h3) = >>=-eq-ok (check (lucky.epoch == epoch) "invalid epoch") _ h2 in
        finish_loop-ArePayouts e epoch (rows t) t r h3

    deposit-ArePayouts :
        ⦃names : NameLib⦄ (double : Double) (e : Env) (lucky : LuckyNumber) (producer : ℕ)
        (quantity : Asset) (t : Table Vesting) (r : Table Vesting × List Send)
        → deposit double e lucky producer quantity t ≡ ok r
        → ArePayouts e.self r.1
    unfolding deposit
    deposit-ArePayouts double e lucky producer quantity t r h =
        elim (Option-cases (find producer t)) [
          | inl new ↦
              let h1 = rw (new, deposit) at h in
              let (row, er, h2) = >>=-eq-ok (first_row lucky producer quantity) _ h1 in
              sent-ArePayouts e.self _ _ r h2 tt
          | inr (row, there) ↦
              let h1 = rw (there, deposit) at h in
              let (changed, ec, h2) = >>=-eq-ok (deposit_row double e lucky quantity row) _ h1 in
              sent-ArePayouts e.self _ _ r h2
                (deposit_row-ArePayouts double e lucky quantity row changed ec)
        ]

    pub token_deposit-ArePayouts :
        ⦃names : NameLib⦄ (double : Double) (e : Env) (stored : Option LuckyNumber) (from to : ℕ)
        (tokens : List Asset) (memo : String) (t : Table Vesting) (r : Table Vesting × List Send)
        → token_deposit double e stored from to tokens memo t ≡ ok r
        → ArePayouts e.self r.1
    unfolding token_deposit
    token_deposit-ArePayouts double e stored from to [] memo t r h =
        sent-ArePayouts e.self _ _ r h tt
    token_deposit-ArePayouts double e stored from to (q ∷ more) memo t r h =
        elim (Bool-cases (is_ignored e from to (q ∷ more) memo)) [
          | inl ignored ↦ let h1 = rw ignored at h in sent-ArePayouts e.self _ _ r h1 tt
          | inr heard ↦
              let h1 = rw heard at h in
              let (lucky, _, h2) = >>=-eq-ok (or_fail stored no_singleton) _ h1 in
              let (_, _, h3) =
                >>=-eq-ok (check (not (payee memo lucky == 0)) "invalid memo") _ h2 in
              deposit-ArePayouts double e lucky (payee memo lucky) q t r h3
        ]

  transfer_one-sign :
      (a : Asset) (f t : Pairs) (y : Pairs × Pairs) → transfer_one a f t ≡ ok y → pos 0 ≤ℤ a.amount
  unfolding transfer_one
  transfer_one-sign a f t y h = ground arith

  -- What is moved of a symbol is not negative.
  pub moved-sign :
      (s : ℕ) (tokens : List Asset) (f t : Pairs) (y : Pairs × Pairs)
      → transfer_loop tokens f t ≡ ok y
      → pos 0 ≤ℤ moved s tokens
  unfolding transfer_loop
  moved-sign s [] f t y h = omega arith
  moved-sign s (a ∷ rest) f t y h =
      let (mid, e, go) = >>=-eq-ok (transfer_one a f t) _ h in
      let here = transfer_one-sign a f t mid e in
      let there = moved-sign s rest mid.0 mid.1 y go in
      elim (Bool-cases (s == a.symbol)) [
        | inl same ↦ rw same (omega int_laws)
        | inr other ↦ rw other (omega int_laws)
      ]

  -- One asset alone that is moved is valid.
  pub one-InRange :
      (a : Asset) (f t : Pairs) (y : Pairs × Pairs)
      → transfer_loop (a ∷ []) f t ≡ ok y
      → (pos 0 ≤ℤ a.amount) × InRange a.amount
  unfolding transfer_loop transfer_one
  one-InRange a f t y h =
      let (mid, e, go) = >>=-eq-ok (transfer_one a f t) _ h in
      let (_, valid, _) = >>=-eq-ok (check (is_valid a) _) _ e in
      (transfer_one-sign a f t mid e, is_valid-InRange a (ground arith))

  -- One asset alone takes no more than its amount of any symbol.
  pub moved-one :
      (s : ℕ) (a : Asset) (f t : Pairs) (y : Pairs × Pairs)
      → transfer_loop (a ∷ []) f t ≡ ok y
      → moved s (a ∷ []) ≤ℤ a.amount
  unfolding transfer_loop
  moved-one s a f t y h =
      let (mid, e, go) = >>=-eq-ok (transfer_one a f t) _ h in
      let here = transfer_one-sign a f t mid e in
      elim (Bool-cases (s == a.symbol)) [
        | inl same ↦ rw same (omega int_laws)
        | inr other ↦ rw other (omega int_laws)
      ]
