-- ===== src/Bank/Releasing.antt =====
-- A deposit does not fail over what it releases (contracts/eosio.bank/src/eosio.bank.cpp).
use twig_system_contracts.Prelude.{
  ℕ, true, false, Option, none, some, ℤ, pos, pos_part, neg_part, negsuc, ◌-ℤ◌, ◌≤ℤ◌, ltb_ℤ, sub64,
  ◌/◌, ◌≤◌, ◌<◌, ◌^◌, ltb, ◌⊎◌, arith, ◌≡◌, refl, ap, Bool-cases, inl, inr,
}
use native.Mathlib.Nat.{div-eq_of_lt, div_self}
use twig_system_contracts.Chain.{AssetLib, make_asset, Asset, Result, ok, InRange}
use twig_system_contracts.System.State.{LuckyNumber, lucky_number_chunks}
use twig_system_contracts.Bank.State.{Vesting, Double, Ieee}
use twig_system_contracts.Bank.Actions.{release, capped, quotient, inverse_paidout, chunks_ratio}
use twig_system_contracts.Bank.Vested.{IsFair}
use twig_system_contracts.Bank.Payout.{
  IsOpen, ratio_gone, ratio_full, capped_left, total_positive, total-IsExact,
}

-- All is unvested of a total that is there.
pub record IsSpent (row : Vesting) : Type 0 where
  pub fair : IsFair row
  pub spent : pos_part row.unvested.amount ≡ pos_part row.unvesting_total.amount
  pub some_total : 0 < pos_part row.unvesting_total.amount

spent_quotient :
    (a b : ℤ)
    → pos 0 ≤ℤ a
    → pos 0 ≤ℤ b
    → pos_part a ≡ pos_part b
    → 0 < pos_part b
    → quotient a b ≡ pos 1
unfolding ◌-ℤ◌
spent_quotient a b ha hb same some_b =
    let p : pos_part a / pos_part b ≡ 1 = rw same (div_self some_b) in
    let n : neg_part a / pos_part b ≡ 0 = div-eq_of_lt (ground arith) in rw (p, n) refl

inverse_zero : (row : Vesting) → IsSpent row → inverse_paidout row ≡ pos 0
unfolding sub64
inverse_zero row s =
    let f = s.fair in
    rw
      (spent_quotient row.unvested.amount row.unvesting_total.amount f.unvested_sign f.total_sign
        s.spent s.some_total)
      refl

chunks_part :
    (lucky : LuckyNumber)
    → lucky.chunks_remaining ≤ lucky_number_chunks
    → (chunks_ratio lucky ≡ pos 0) ⊎ (chunks_ratio lucky ≡ pos 1)
chunks_part lucky few = elim (Bool-cases (ltb lucky.chunks_remaining lucky_number_chunks)) [
  | inl less ↦ inl (ap pos (ground arith))
  | inr all ↦ inr (ap pos (ground arith))
]

spent_total : (row : Vesting) → IsSpent row → ltb_ℤ (pos 0) row.unvesting_total.amount ≡ true
spent_total row s = let f = s.fair.total_sign in let g = s.some_total in ground arith

minus_not_positive :
    (double : Double) (c : ℤ)
    → Ieee double
    → (c ≡ pos 0) ⊎ (c ≡ pos 1)
    → double.positive (double.minus (double.of_int (pos 0)) (double.of_int c)) ≡ false
unfolding ◌-ℤ◌
minus_not_positive double c ieee (inl none_gone) =
    rw
      (
        none_gone,
        ieee.minus_int (pos 0) (pos 0) (omega arith, omega arith) (omega arith, omega arith),
      )
      (ieee.positive_int (pos 0) (omega arith, omega arith))
minus_not_positive double c ieee (inr one_gone) =
    rw
      (
        one_gone,
        ieee.minus_int (pos 0) (pos 1) (omega arith, omega arith) (omega arith, omega arith),
      )
      (ieee.positive_int (negsuc 0) (omega arith, omega arith))

not_positive :
    (double : Double) (lucky : LuckyNumber) (row : Vesting)
    → Ieee double
    → IsSpent row
    → lucky.chunks_remaining ≤ lucky_number_chunks
    → double.positive
        (double.minus (double.of_int (inverse_paidout row)) (double.of_int (chunks_ratio lucky)))
      ≡ false
not_positive double lucky row ieee s few =
    rw (inverse_zero row s)
      (minus_not_positive double (chunks_ratio lucky) ieee (chunks_part lucky few))

left_over :
    (row : Vesting)
    → IsOpen row
    → (ltb_ℤ (pos 0) (capped row row.unvesting_total.amount) ≡ true)
      × InRange (capped row row.unvesting_total.amount)
unfolding ◌-ℤ◌
left_over row o =
    let f = o.fair in
    let a = f.unvested_sign in
    let b = f.part in
    let c = f.total_sign in
    let d = o.small in
    let l = o.left in rw (capped_left row o) (ground arith, (ground arith, ground arith))

module _ ⦃lib : AssetLib⦄ where
  -- What is released goes through, and is a positive amount in the symbol of the deposit.
  pub record Releases (symbol : ℕ) (r : Result (Option Asset)) : Type 0 where
    pub released : Option Asset
    pub done : r ≡ ok released
    pub positive : (a : Asset) → released ≡ some a → ltb_ℤ (pos 0) a.amount ≡ true
    pub range : (a : Asset) → released ≡ some a → InRange a.amount
    pub core : (a : Asset) → released ≡ some a → a.symbol ≡ symbol

  nothing-Releases : (symbol : ℕ) (r : Result (Option Asset)) → r ≡ ok none → Releases symbol r
  nothing-Releases symbol r h = record {
    released = none;
    done = h;
    positive = λ a e. cc;
    range = λ a e. absurd (ground arith);
    core = λ a e. cc;
  }

  no_total-Releases :
      (double : Double) (lucky : LuckyNumber) (symbol : ℕ) (row : Vesting)
      → ltb_ℤ (pos 0) row.unvesting_total.amount ≡ false
      → Releases symbol (release double lucky symbol row)
  unfolding release
  no_total-Releases double lucky symbol row e = nothing-Releases symbol _ (rw e refl)

  all_spent-Releases :
      (double : Double) (lucky : LuckyNumber) (symbol : ℕ) (row : Vesting)
      → Ieee double
      → IsSpent row
      → lucky.chunks_remaining ≤ lucky_number_chunks
      → Releases symbol (release double lucky symbol row)
  unfolding release
  all_spent-Releases double lucky symbol row ieee s few =
      let total : ltb_ℤ (pos 0) row.unvesting_total.amount ≡ true = spent_total row s in
      let flag = not_positive double lucky row ieee s few in
      nothing-Releases symbol _ (rw (total, flag) refl)

  full-Releases :
      (double : Double) (lucky : LuckyNumber) (symbol : ℕ) (row : Vesting)
      → Ieee double
      → IsOpen row
      → lucky.chunks_remaining ≡ lucky_number_chunks
      → Releases symbol (release double lucky symbol row)
  unfolding release
  full-Releases double lucky symbol row ieee o full =
      let total = total_positive row o in
      let down : double.positive (double.of_int (pos 0)) ≡ false =
        ieee.positive_int (pos 0) (omega arith, omega arith) in
      nothing-Releases symbol _ (rw (total, ratio_full double lucky row ieee o full, down) refl)

  gone-Releases :
      (double : Double) (lucky : LuckyNumber) (symbol : ℕ) (row : Vesting)
      → Ieee double
      → IsOpen row
      → lucky.chunks_remaining < lucky_number_chunks
      → make_asset row.unvesting_total.amount symbol
        ≡ ok (record { amount = row.unvesting_total.amount; symbol = symbol })
      → Releases symbol (release double lucky symbol row)
  unfolding release
  gone-Releases double lucky symbol row ieee o few made =
      let total = row.unvesting_total.amount in
      let tokens : Asset = record { amount = capped row total; symbol = symbol } in
      let up : double.positive (double.of_int (pos 1)) ≡ true =
        ieee.positive_int (pos 1) (omega arith, omega arith) in
      let left = left_over row o in
      record {
        released = some tokens;
        done =
            rw
              (
                total_positive row o,
                ratio_gone double lucky row ieee o few,
                up,
                ieee.times_one total,
                ieee.to_int64_int total (total-IsExact row o),
                made,
              )
              refl;
        positive = λ a e. let same : tokens ≡ a = cc in rw (← same) left.0;
        range = λ a e. let same : tokens ≡ a = cc in rw (← same) left.1;
        core = λ a e. cc;
      }

  -- On a fair row, with no more chunks left than an epoch has, whatever has been unvested.
  pub release-Releases :
      (double : Double) (lucky : LuckyNumber) (symbol : ℕ) (row : Vesting)
      → Ieee double
      → IsFair row
      → pos_part row.unvesting_total.amount ≤ 2 ^ 53
      → lucky.chunks_remaining ≤ lucky_number_chunks
      → make_asset row.unvesting_total.amount symbol
        ≡ ok (record { amount = row.unvesting_total.amount; symbol = symbol })
      → Releases symbol (release double lucky symbol row)
  release-Releases double lucky symbol row ieee fair small few made =
      elim (Bool-cases (ltb_ℤ (pos 0) row.unvesting_total.amount)) [
        | inr nothing ↦ no_total-Releases double lucky symbol row nothing
        | inl total ↦
            elim (Bool-cases
              (ltb (pos_part row.unvested.amount) (pos_part row.unvesting_total.amount))) [
                | inr all ↦
                    let p = fair.part in
                    let u = fair.unvested_sign in
                    let t = fair.total_sign in
                    all_spent-Releases double lucky symbol row ieee
                      (record { fair = fair; spent = ground arith; some_total = ground arith }) few
                | inl less ↦
                    let o : IsOpen row = record {
                      fair = fair;
                      left = ground arith;
                      small = small;
                    } in
                    elim (Bool-cases (ltb lucky.chunks_remaining lucky_number_chunks)) [
                      | inl gone ↦ gone-Releases double lucky symbol row ieee o (ground arith) made
                      | inr full ↦ full-Releases double lucky symbol row ieee o (ground arith)
                    ]
              ]
      ]
