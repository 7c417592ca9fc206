-- ===== src/Flow/Paying.antt =====
-- A payout that the bank has the tokens for goes through
-- (contracts/twig.token/src/actions/user.cpp).
use twig_system_contracts.Prelude.{
  ℕ, true, false, String, leb, ltb_ℤ, leb_ℤ, sub64, some, [], ◌∷◌, ℤ, pos, ◌≤ℤ◌, lookup, ◌==◌,
  arith, ◌≡◌, refl, ◌∙◌, Option-cases, inl, inr,
}
use twig_system_contracts.Chain.{
  MultiIndex, Table, find, store, find-store, AssetLib, is_valid, Env, Asset, Result, ok, ◌>>=◌,
  >>=-ok, InRange, Pairs, size,
}
use twig_system_contracts.Token.State.{Tables, Account, twig_symbol}
use twig_system_contracts.Token.User.{transfer}
use twig_system_contracts.Token.Pairs.{transfer_one, transfer_loop, settle, credit}
use twig_system_contracts.Token.Accounts.{balance_of, put_balance}
use twig_system_contracts.Token.Amounts.{amount_of, FromZero}
use twig_system_contracts.Token.Supplying.{has}

-- What `asset` documents of the core symbol: it is valid, with every amount in range.
pub record TakesTwig (lib : AssetLib) : Type 0 where
  pub makes :
      (n : ℤ)
      → InRange n
      → lib.make n twig_symbol ≡ ok (record { amount = n; symbol = twig_symbol })
  pub valid :
      (n : ℤ) → InRange n → lib.is_valid (record { amount = n; symbol = twig_symbol }) ≡ true

-- The step goes through.
abbrev pub IsOk {ℓ} : {T : Type ℓ} → Result T → Type ℓ
IsOk {T = T} r = (x : T) × (r ≡ ok x)

pub IsOk-then {ℓ κ} :
    {T : Type ℓ} {U : Type κ} (step : Result T) (next : T → Result U) (t : T)
    → step ≡ ok t
    → IsOk (next t)
    → IsOk (step >>= next)
IsOk-then step next t e (x, h) = (x, >>=-ok step next e ∙ h)

module _ ⦃lib : AssetLib⦄ where
  transfer_one-goes :
      (a : Asset) (f t : Pairs)
      → is_valid a ≡ true
      → ltb_ℤ (pos 0) a.amount ≡ true
      → a.amount ≤ℤ amount_of a.symbol f
      → FromZero (amount_of a.symbol f)
      → IsOk (transfer_one a f t)
  unfolding transfer_one sub64
  transfer_one-goes a f t valid positive enough range = elim (Option-cases (lookup a.symbol f)) [
    | inl nothing ↦ absurd (ground arith)
    | inr (held, there) ↦
        let held_range : FromZero held = rw there at range in
        let left : leb_ℤ (pos 0) (sub64 held a.amount) ≡ true = ground arith in
        (
          (settle a.symbol (sub64 held a.amount) f, credit a.symbol a.amount t),
          rw (valid, positive, there, left) refl,
        )
  ]

  transfer_loop-goes :
      (a : Asset) (f t : Pairs)
      → is_valid a ≡ true
      → ltb_ℤ (pos 0) a.amount ≡ true
      → a.amount ≤ℤ amount_of a.symbol f
      → FromZero (amount_of a.symbol f)
      → IsOk (transfer_loop (a ∷ []) f t)
  unfolding transfer_loop
  transfer_loop-goes a f t valid positive enough range =
      let (y, e) = transfer_one-goes a f t valid positive enough range in
      (y, >>=-ok (transfer_one a f t) _ e)

  module _ ⦃mi : MultiIndex⦄ where
    put_balance-goes :
        (from to : ℕ) (b : Pairs) (row : Account) (t : Table Account)
        → (from == to) ≡ false
        → IsOk (put_balance (find to t) to b (store from row t))
    unfolding put_balance
    put_balance-goes from to b row t ne =
        let same : find to (store from row t) ≡ find to t =
          ground (arith, find-store to from row t) in
        elim (Option-cases (find to t)) [
          | inl new ↦
              let bare : Account = record { owner = to; balance = b } in
              (store to bare (store from row t), rw (new, put_balance, same, new) refl)
          | inr (old, there) ↦
              let kept : Account = record old { balance = b } in
              (store to kept (store from row t), rw (there, put_balance) refl)
        ]

    -- A balance that is not empty has a row.
    has-found :
        (s owner : ℕ) (n : ℤ) (st : Tables)
        → ltb_ℤ (pos 0) n ≡ true
        → n ≤ℤ has s owner st
        → (row : Account) × (find owner st.accounts ≡ some row)
    has-found s owner n st positive enough = elim (Option-cases (find owner st.accounts)) [
      | inl nothing ↦ absurd (let enough' : n ≤ℤ pos 0 = rw nothing at enough in ground arith)
      | inr found ↦ found
    ]

    -- A transfer of one asset goes through where its sender has signed and has the tokens, the
    -- receiver is another account that exists, and the memo is short.
    pub transfer-goes :
        (e : Env) (from to : ℕ) (a : Asset) (memo : String) (st : Tables)
        → e.has_auth from ≡ true
        → (from == to) ≡ false
        → e.is_account to ≡ true
        → leb (size memo) 256 ≡ true
        → is_valid a ≡ true
        → ltb_ℤ (pos 0) a.amount ≡ true
        → a.amount ≤ℤ has a.symbol from st
        → FromZero (has a.symbol from st)
        → IsOk (transfer e from to (a ∷ []) memo st)
    unfolding transfer
    transfer-goes e from to a memo st signed ne there short valid positive enough range =
        let (row, found) = has-found a.symbol from a.amount st positive enough in
        let enough' : a.amount ≤ℤ amount_of a.symbol row.balance = rw found at enough in
        let range' : FromZero (amount_of a.symbol row.balance) = rw found at range in
        let (y, ey) =
          transfer_loop-goes a row.balance (balance_of (find to st.accounts)) valid positive enough'
            range' in
        let (t, et) = put_balance-goes from to y.1 (record row { balance = y.0 }) st.accounts ne in
        (
          (record st { accounts = t }, from ∷ to ∷ []),
          rw (signed, ne, there, short, found, ey, et) refl,
        )
