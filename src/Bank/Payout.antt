-- ===== src/Bank/Payout.antt =====
-- How much of the unvesting part a deposit releases (contracts/eosio.bank/src/eosio.bank.cpp).
use twig_system_contracts.Prelude.{
  ℕ, true, false, Option, none, some, ℤ, pos, pos_part, neg_part, ◌-ℤ◌, ◌≤ℤ◌, ltb_ℤ, add64, sub64,
  ◌/◌, ◌≤◌, ◌<◌, ◌^◌, ltb, if◌then◌else◌, arith, ◌≡◌, ◌∙◌, refl, sym, ap, Bool-cases, inl, inr,
}
use native.Mathlib.Nat.{div-eq_of_lt}
use twig_system_contracts.Chain.{AssetLib, make_asset, Asset, ok, >>=-eq-ok, ok-injective}
use twig_system_contracts.System.State.{LuckyNumber, lucky_number_chunks}
use twig_system_contracts.Bank.State.{Vesting, Double, Ieee, IsExact}
use twig_system_contracts.Bank.Actions.{release, capped, quotient, inverse_paidout, chunks_ratio}
use twig_system_contracts.Bank.Vested.{IsFair}

-- Something is left to unvest, and the total is at most 2^53.
pub record IsOpen (row : Vesting) : Type 0 where
  pub fair : IsFair row
  pub left : pos_part row.unvested.amount < pos_part row.unvesting_total.amount
  pub small : pos_part row.unvesting_total.amount ≤ 2 ^ 53

quotient_below : (a b : ℤ) → pos 0 ≤ℤ a → pos_part a < pos_part b → quotient a b ≡ pos 0
unfolding ◌-ℤ◌
quotient_below a b sign below =
    let p : pos_part a / pos_part b ≡ 0 = div-eq_of_lt below in
    let n : neg_part a / pos_part b ≡ 0 = div-eq_of_lt (ground arith) in rw (p, n) refl

pub total_positive : (row : Vesting) → IsOpen row → ltb_ℤ (pos 0) row.unvesting_total.amount ≡ true
total_positive row o = let b = o.left in let c = o.fair.total_sign in ground arith

inverse_one : (row : Vesting) → IsOpen row → inverse_paidout row ≡ pos 1
unfolding sub64
inverse_one row o =
    rw (quotient_below row.unvested.amount row.unvesting_total.amount o.fair.unvested_sign o.left)
      refl

pub capped_left :
    (row : Vesting)
    → IsOpen row
    → capped row row.unvesting_total.amount ≡ row.unvesting_total.amount -ℤ row.unvested.amount
unfolding add64 sub64 ◌-ℤ◌
capped_left row o =
    let f = o.fair in
    let a = f.unvested_sign in
    let b = f.part in let c = f.total_sign in let d = o.small in ground arith

pub total-IsExact : (row : Vesting) → IsOpen row → IsExact row.unvesting_total.amount
total-IsExact row o = let b = o.small in let c = o.fair.total_sign in (ground arith, ground arith)

pub ratio_gone :
    (double : Double) (lucky : LuckyNumber) (row : Vesting)
    → Ieee double
    → IsOpen row
    → lucky.chunks_remaining < lucky_number_chunks
    → double.minus (double.of_int (inverse_paidout row)) (double.of_int (chunks_ratio lucky))
      ≡ double.of_int (pos 1)
unfolding ◌-ℤ◌
ratio_gone double lucky row ieee o few =
    let c : chunks_ratio lucky ≡ pos 0 = ap pos (omega arith) in
    rw (inverse_one row o, c)
      (ieee.minus_int (pos 1) (pos 0) (omega arith, omega arith) (omega arith, omega arith))

pub ratio_full :
    (double : Double) (lucky : LuckyNumber) (row : Vesting)
    → Ieee double
    → IsOpen row
    → lucky.chunks_remaining ≡ lucky_number_chunks
    → double.minus (double.of_int (inverse_paidout row)) (double.of_int (chunks_ratio lucky))
      ≡ double.of_int (pos 0)
unfolding ◌-ℤ◌
ratio_full double lucky row ieee o full =
    let c : chunks_ratio lucky ≡ pos 1 = ap pos (omega arith) in
    rw (inverse_one row o, c)
      (ieee.minus_int (pos 1) (pos 1) (omega arith, omega arith) (omega arith, omega arith))

capped_made :
    (row : Vesting) (made : Asset) (n m : ℤ) (symbol : ℕ)
    → made ≡ record { amount = n; symbol = symbol }
    → capped row n ≡ m
    → some (record made { amount = capped row made.amount })
      ≡ some (record { amount = m; symbol = symbol })
capped_made row made n m symbol e c = rw (e, c) refl

module _ ⦃lib : AssetLib⦄ where
  -- Where the numbers follow IEEE 754 and no more chunks remain than an epoch has, a deposit on an
  -- open row releases all that is left or nothing: all that is left as soon as one of the chunks is
  -- gone, and nothing before.
  pub release_all :
      (double : Double) (lucky : LuckyNumber) (symbol : ℕ) (row : Vesting) (released : Option Asset)
      → Ieee double
      → IsOpen row
      → lucky.chunks_remaining ≤ lucky_number_chunks
      → release double lucky symbol row ≡ ok released
      → released ≡ (
          if ltb lucky.chunks_remaining lucky_number_chunks
          then some (record {
            amount = row.unvesting_total.amount -ℤ row.unvested.amount;
            symbol = symbol;
          })
          else none)
  unfolding release
  release_all double lucky symbol row released ieee o few h =
      let total = row.unvesting_total.amount in
      let some_total : ltb_ℤ (pos 0) total ≡ true = total_positive row o in
      elim (Bool-cases (ltb lucky.chunks_remaining lucky_number_chunks)) [
        | inl gone ↦
            let total_fits = total-IsExact row o in
            let up : double.positive (double.of_int (pos 1)) ≡ true =
              ieee.positive_int (pos 1) (omega arith, omega arith) in
            let h1 = rw (some_total, ratio_gone double lucky row ieee o (ground arith), up) at h in
            let h2 = rw (ieee.times_one total, ieee.to_int64_int total total_fits) at h1 in
            let (made, em, h3) = >>=-eq-ok (make_asset total symbol) _ h2 in
            let fields = lib.make_fields total symbol made em in
            let left_over = total -ℤ row.unvested.amount in
            let left = capped_left row o in
            rw gone
              (sym (ok-injective h3) ∙ capped_made row made total left_over symbol fields left)
        | inr all ↦
            let down : double.positive (double.of_int (pos 0)) ≡ false =
              ieee.positive_int (pos 0) (omega arith, omega arith) in
            let h1 =
              rw (some_total, ratio_full double lucky row ieee o (ground arith), down) at h in
            rw all (sym (ok-injective h1))
      ]
