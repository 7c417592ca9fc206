-- ===== src/Bank/Solvency.antt =====
-- What the bank owes in all, against what it receives and pays
-- (contracts/eosio.bank/src/eosio.bank.cpp).
use twig_system_contracts.Prelude.{
  ℕ, String, not, Option, some, List, [], ◌∷◌, ℤ, pos, ◌+ℤ◌, ◌≤ℤ◌, ◌==◌, if◌then◌else◌, ◌≡◌, refl,
  subst, Bool-cases, inl, inr,
}
use twig_system_contracts.Chain.{
  MultiIndex, Table, find, rows, rows-IsAscending, AssetLib, NameLib, Env, Asset, ok, check,
  or_fail, no_singleton, >>=-eq-ok, ok-injective, Send, InRange, require_auth,
}
use twig_system_contracts.System.State.{LuckyNumber}
use twig_system_contracts.Bank.State.{Vesting, Double, Ieee}
use twig_system_contracts.Bank.Actions.{onepoch, token_deposit, is_ignored, payee}
use twig_system_contracts.Bank.Settling.{
  AllFair, Settles, rows-Found, Found-fair, nothing-Settles, finish_loop-Settles, deposit-Settles,
}
use twig_system_contracts.Bank.Recipients.{
  PaysAll, finish_loop-PaysAll, PaysPayee, token_deposit-PaysPayee,
}
use twig_system_contracts.Bank.Vested.{}

module _ ⦃mi : MultiIndex⦄ ⦃lib : AssetLib⦄ where
  -- Where all rows are fair, the end of an epoch that goes through sends for each row, in the order
  -- of the rows, nothing or one transfer from the bank to the row's producer, in the symbol of the
  -- row, of no more than what is left to unvest. The amounts add up to the fall of what is owed on
  -- all rows, none is negative, and the rows stay fair.
  pub onepoch-Settles :
      (e : Env) (epoch : ℕ) (stored : Option LuckyNumber) (t : Table Vesting)
      (r : Table Vesting × List Send)
      → AllFair t
      → onepoch e epoch stored t ≡ ok r
      → Settles t (pos 0) r.0 r.1 × PaysAll e.self (rows t) r.1
  unfolding onepoch
  onepoch-Settles e epoch stored t r fair h =
      let (_, _, h1) = >>=-eq-ok (require_auth e e.self) _ h in
      let (lucky, _, h2) = >>=-eq-ok (or_fail stored no_singleton) _ h1 in
      let (_, _, h3) = >>=-eq-ok (check (lucky.epoch == epoch) "invalid epoch") _ h2 in
      (
        finish_loop-Settles 0 e epoch (rows t) t r (rows-IsAscending t) (rows-Found t) fair h3,
        finish_loop-PaysAll e epoch (rows t) t r (Found-fair (rows t) t fair (rows-Found t)) h3,
      )

  -- What a notification brings in: nothing where it is ignored, else the amount of its one asset.
  abbrev pub received : Env → ℕ → ℕ → List Asset → String → ℤ
  received e from to [] memo = pos 0
  received e from to (quantity ∷ more) memo =
      if is_ignored e from to (quantity ∷ more) memo then pos 0 else quantity.amount

  token_deposit-settled :
      ⦃names : NameLib⦄ (double : Double) (e : Env) (stored : Option LuckyNumber) (from to : ℕ)
      (tokens : List Asset) (memo : String) (t : Table Vesting) (r : Table Vesting × List Send)
      → Ieee double
      → AllFair t
      → ((q : Asset) → tokens ≡ q ∷ [] → (pos 0 ≤ℤ q.amount) × InRange q.amount)
      → ((q : Asset) (k : ℕ) (row : Vesting)
          → tokens ≡ q ∷ []
          → find k t ≡ some row
          → InRange (row.vested.amount +ℤ q.amount))
      → token_deposit double e stored from to tokens memo t ≡ ok r
      → Settles t (received e from to tokens memo) r.0 r.1
  unfolding token_deposit
  token_deposit-settled double e stored from to [] memo t r ieee fair good room h =
      subst (λ z. Settles t (pos 0) z.0 z.1) (ok-injective h) (nothing-Settles t fair)
  token_deposit-settled double e stored from to (q ∷ a ∷ more) memo t r ieee fair good room h =
      subst (λ z. Settles t (pos 0) z.0 z.1) (ok-injective h) (nothing-Settles t fair)
  token_deposit-settled double e stored from to (q ∷ []) memo t r ieee fair good room h =
      elim (Bool-cases (is_ignored e from to (q ∷ []) memo)) [
        | inl ignored ↦
            let h1 = rw ignored at h in
            rw ignored
              (subst (λ z. Settles t (pos 0) z.0 z.1) (ok-injective h1) (nothing-Settles t fair))
        | inr heard ↦
            let h1 = rw heard at h in
            let (lucky, _, h2) = >>=-eq-ok (or_fail stored no_singleton) _ h1 in
            let (_, _, h3) = >>=-eq-ok (check (not (payee memo lucky == 0)) "invalid memo") _ h2 in
            let (sign, range) = good q refl in
            rw heard (
              deposit-Settles double e lucky (payee memo lucky) q t r ieee fair sign range
                (λ row there. room q (payee memo lucky) row refl there) h3)
      ]

  -- Where all rows are fair, the numbers follow IEEE 754, the amount received is not negative and
  -- in the range of an asset, and so is its sum with what has vested on any row: a transfer that
  -- the bank is told of, and that goes through, raises what it owes on all rows by exactly what it
  -- receives less what it pays out, which is not negative, and the rows stay fair. It sends nothing,
  -- or one transfer from the bank to the producer of the row that the memo names, in the system
  -- token and of no more than what is left to unvest on the row.
  pub token_deposit-Settles :
      ⦃names : NameLib⦄ (double : Double) (e : Env) (stored : Option LuckyNumber) (from to : ℕ)
      (tokens : List Asset) (memo : String) (t : Table Vesting) (r : Table Vesting × List Send)
      → Ieee double
      → AllFair t
      → ((q : Asset) → tokens ≡ q ∷ [] → (pos 0 ≤ℤ q.amount) × InRange q.amount)
      → ((q : Asset) (k : ℕ) (row : Vesting)
          → tokens ≡ q ∷ []
          → find k t ≡ some row
          → InRange (row.vested.amount +ℤ q.amount))
      → token_deposit double e stored from to tokens memo t ≡ ok r
      → Settles t (received e from to tokens memo) r.0 r.1 × PaysPayee e.self stored memo t r.1
  token_deposit-Settles double e stored from to tokens memo t r ieee fair good room h = (
    token_deposit-settled double e stored from to tokens memo t r ieee fair good room h,
    token_deposit-PaysPayee double e stored from to tokens memo t r ieee fair h,
  )
