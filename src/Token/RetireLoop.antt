-- ===== src/Token/RetireLoop.antt =====
-- The loop of `retire` (contracts/twig.token/src/actions/contract.admin.cpp).
use twig_system_contracts.Prelude.{
  ℕ, ◌<◌, ◌^◌, true, [], ◌∷◌, ℤ, pos, pos_part, ◌+ℤ◌, ◌-ℤ◌, ◌≤ℤ◌, +ℤ_parts, sub64, lookup, insert,
  lookup-insert, arith, ◌≡◌, subst,
}
use twig_system_contracts.Chain.{Pairs, ok, is_some, >>=-eq-ok}
use twig_system_contracts.Token.State.{Supplies}
use twig_system_contracts.Token.Pairs.{retire_one, retire_loop, settle}
use twig_system_contracts.Token.Amounts.{amount_of, FromZero, amount_of-settle}
use twig_system_contracts.Token.Effects.{
  IsSupplied, IsPart, only, Moves, MovesAt, Moves-of_each, add_zero, Moves-trans, Moves-none,
}

-- Every amount of the list is one that an `int64_t` can hold.
abbrev pub IsHeld : Pairs → Type 0
IsHeld [] = Unit {0}
IsHeld ((k, v) ∷ rest) = (pos_part v < 2 ^ 63) × IsHeld rest

-- The negative of what a list of pairs asks for of one symbol.
abbrev pub returned : ℕ → Pairs → ℤ
returned s [] = pos 0
returned s ((k, v) ∷ rest) = only s k (pos 0 -ℤ v) +ℤ returned s rest

-- What a round of `retire` that goes through has tested and written.
retire_one-eq-ok :
    (sym : ℕ) (amount : ℤ) (x : Supplies) (b : Pairs) (y : Supplies × Pairs)
    → retire_one sym amount x b ≡ ok y
    → let current = amount_of sym x.supply in
      let held = amount_of sym b in
      (pos 1 ≤ℤ amount)
      × (pos 0 ≤ℤ sub64 current amount)
      × (pos 0 ≤ℤ sub64 held amount)
      × (is_some (lookup sym x.supply) ≡ true)
      × (y.0.supply ≡ insert sym (sub64 current amount) x.supply)
      × (y.0.max_supply ≡ x.max_supply)
      × (y.1 ≡ settle sym (sub64 held amount) b)
unfolding retire_one
retire_one-eq-ok sym amount x b y h = ground arith

-- A difference that is tested not to be negative is the true one.
pub sub64_tested :
    (a d : ℤ)
    → FromZero a
    → pos 1 ≤ℤ d
    → pos_part d < 2 ^ 63
    → (sub64 a d ≡ a +ℤ (pos 0 -ℤ d)) × (sub64 a d ≤ℤ a)
unfolding sub64 ◌+ℤ◌ ◌-ℤ◌
sub64_tested a d ha hd modest = ground arith

retire_one-amounts :
    (s sym : ℕ) (amount : ℤ) (x : Supplies) (b : Pairs) (y : Supplies × Pairs)
    → IsSupplied x
    → IsPart b x
    → pos_part amount < 2 ^ 63
    → retire_one sym amount x b ≡ ok y
    → MovesAt s (only s sym (pos 0 -ℤ amount)) x b y
retire_one-amounts s sym amount x b y sup part modest h =
    let (positive, left, kept, there, e, em, eb) = retire_one-eq-ok sym amount x b y h in
    rw (e, em, eb)
      (ground (
        arith,
        sup.ranged sym,
        sup.ranged s,
        sup.capped s,
        part sym,
        part s,
        lookup-insert s sym (sub64 (amount_of sym x.supply) amount) x.supply,
        sub64_tested (amount_of sym x.supply) amount,
        sub64_tested (amount_of sym b) amount,
        +ℤ_parts (amount_of s x.supply) (pos 0 -ℤ amount),
        +ℤ_parts (amount_of s b) (pos 0 -ℤ amount),
        amount_of-settle s sym (sub64 (amount_of sym b) amount) b,
        add_zero (amount_of s b),
        add_zero (amount_of s x.supply),
      ))

retire_one-Moves :
    (sym : ℕ) (amount : ℤ) (x : Supplies) (b : Pairs) (y : Supplies × Pairs)
    → IsSupplied x
    → IsPart b x
    → pos_part amount < 2 ^ 63
    → retire_one sym amount x b ≡ ok y
    → Moves (λ s. only s sym (pos 0 -ℤ amount)) (x, b) y
retire_one-Moves sym amount x b y sup part modest h =
    Moves-of_each (λ s. only s sym (pos 0 -ℤ amount)) x b y sup
      λ s. retire_one-amounts s sym amount x b y sup part modest h

-- A `retire` that goes through takes what was asked for, from the supplies and from the balance
-- alike.
pub retire_loop-Moves :
    (tokens : Pairs) (x : Supplies) (b : Pairs) (y : Supplies × Pairs)
    → IsSupplied x
    → IsPart b x
    → IsHeld tokens
    → retire_loop tokens x b ≡ ok y
    → Moves (λ s. returned s tokens) (x, b) y
unfolding retire_loop
retire_loop-Moves [] x b y sup part held h =
    subst (Moves (λ s. pos 0) (x, b)) (cc) (Moves-none x b sup part)
retire_loop-Moves ((k, v) ∷ rest) x b y sup part held h =
    let (mid, e, go) = >>=-eq-ok (retire_one k v x b) _ h in
    let first = retire_one-Moves k v x b mid sup part held.0 e in
    Moves-trans first (retire_loop-Moves rest mid.0 mid.1 y first.sound first.part held.1 go)
