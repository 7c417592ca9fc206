-- ===== src/Token/TransferLoop.antt =====
-- The loop of `transfer` (contracts/twig.token/src/actions/user.cpp) moves amounts from one balance
-- to the other.
use twig_system_contracts.Prelude.{
  ℕ, true, List, [], ◌∷◌, ℤ, pos, ◌+ℤ◌, ◌-ℤ◌, ◌≤ℤ◌, sub64, int_laws, lookup, arith, ◌≡◌, sym, subst,
}
use twig_system_contracts.Chain.{
  AssetLib, Asset, is_valid, is_valid-InRange, Pairs, ok, is_some, >>=-eq-ok,
}
use twig_system_contracts.Token.Pairs.{transfer_one, transfer_loop, credit, settle}
use twig_system_contracts.Token.Amounts.{amount_of, FromZero, amount_of-credit, amount_of-settle}
use twig_system_contracts.Token.Effects.{only, add_zero}
use twig_system_contracts.Token.RetireLoop.{sub64_tested}

-- What a list of assets moves of one symbol.
abbrev pub moved : ℕ → List Asset → ℤ
moved s [] = pos 0
moved s (a ∷ rest) = only s a.symbol a.amount +ℤ moved s rest

-- Two balances that are not negative and together below 2^62.
abbrev pub Shared : Pairs → Pairs → Type 0
Shared f t =
    (s : ℕ)
    → (pos 0 ≤ℤ amount_of s f)
      × (pos 0 ≤ℤ amount_of s t)
      × FromZero (amount_of s f +ℤ amount_of s t)

-- The first balance has lost `delta`, the second has gained it.
pub record Passes (delta : ℕ → ℤ) (f t f' t' : Pairs) : Type 0 where
  pub lost : (s : ℕ) → amount_of s f' +ℤ delta s ≡ amount_of s f
  pub gained : (s : ℕ) → amount_of s t' ≡ amount_of s t +ℤ delta s
  pub shared : Shared f' t'

-- What is there before the gain is there after it.
pub Passes-total :
    (delta : ℕ → ℤ) (f t f' t' : Pairs)
    → Passes delta f t f' t'
    → (s : ℕ) → amount_of s f' +ℤ amount_of s t' ≡ amount_of s f +ℤ amount_of s t
Passes-total delta f t f' t' p s = rw (← p.lost s, p.gained s) (omega int_laws)

Passes-trans :
    (d e : ℕ → ℤ) (f t f' t' f'' t'' : Pairs)
    → Passes d f t f' t'
    → Passes e f' t' f'' t''
    → Passes (λ s. d s +ℤ e s) f t f'' t''
Passes-trans d e f t f' t' f'' t'' p q = record {
  lost = λ s. rw (← p.lost s, ← q.lost s) (omega int_laws);
  gained = λ s. rw (q.gained s, p.gained s) (omega int_laws);
  shared = q.shared;
}

module _ ⦃lib : AssetLib⦄ where
  -- What a round of `transfer` that goes through has tested and written.
  transfer_one-eq-ok :
      (a : Asset) (f t : Pairs) (y : Pairs × Pairs)
      → transfer_one a f t ≡ ok y
      → (is_valid a ≡ true)
        × (pos 1 ≤ℤ a.amount)
        × (pos 0 ≤ℤ sub64 (amount_of a.symbol f) a.amount)
        × (is_some (lookup a.symbol f) ≡ true)
        × (y.0 ≡ settle a.symbol (sub64 (amount_of a.symbol f) a.amount) f)
        × (y.1 ≡ credit a.symbol a.amount t)
  unfolding transfer_one
  transfer_one-eq-ok a f t y h = ground arith

  transfer_one-amounts :
      (s : ℕ) (a : Asset) (f t : Pairs) (y : Pairs × Pairs)
      → Shared f t
      → transfer_one a f t ≡ ok y
      → (amount_of s y.0 +ℤ only s a.symbol a.amount ≡ amount_of s f)
        × (amount_of s y.1 ≡ amount_of s t +ℤ only s a.symbol a.amount)
        × (pos 0 ≤ℤ amount_of s y.0)
        × (pos 0 ≤ℤ amount_of s y.1)
        × FromZero (amount_of s y.0 +ℤ amount_of s y.1)
  unfolding ◌+ℤ◌ ◌-ℤ◌
  transfer_one-amounts s a f t y sh h =
      let (valid, positive, left, there, ef, et) = transfer_one-eq-ok a f t y h in
      let d = sub64 (amount_of a.symbol f) a.amount in
      rw (ef, et)
        (ground (
          arith,
          is_valid-InRange a valid,
          sh a.symbol,
          sh s,
          sub64_tested (amount_of a.symbol f) a.amount,
          amount_of-settle s a.symbol (sub64 (amount_of a.symbol f) a.amount) f,
          amount_of-credit s a.symbol a.amount t,
        ))

  transfer_one-Passes :
      (a : Asset) (f t : Pairs) (y : Pairs × Pairs)
      → Shared f t
      → transfer_one a f t ≡ ok y
      → Passes (λ s. only s a.symbol a.amount) f t y.0 y.1
  transfer_one-Passes a f t y sh h =
      let facts = λ (s : ℕ). transfer_one-amounts s a f t y sh h in
      record {
        lost = λ s. (facts s).0;
        gained = λ s. (facts s).1;
        shared = λ s. ((facts s).2, (facts s).3, (facts s).4);
      }

  -- A transfer that goes through takes what was asked for from the one and gives it to the other.
  pub transfer_loop-Passes :
      (tokens : List Asset) (f t : Pairs) (y : Pairs × Pairs)
      → Shared f t
      → transfer_loop tokens f t ≡ ok y
      → Passes (λ s. moved s tokens) f t y.0 y.1
  unfolding transfer_loop
  transfer_loop-Passes [] f t y sh h =
      let e : ◌≡◌ {A = Pairs × Pairs} (f, t) y = cc in
      subst (λ z. Passes (λ s. pos 0) f t z.0 z.1) e
        (record { lost = λ s. add_zero _; gained = λ s. sym (add_zero _); shared = sh })
  transfer_loop-Passes (a ∷ rest) f t y sh h =
      let (mid, e, go) = >>=-eq-ok (transfer_one a f t) _ h in
      let first = transfer_one-Passes a f t mid sh e in
      Passes-trans (λ s. only s a.symbol a.amount) (λ s. moved s rest) f t mid.0 mid.1 y.0 y.1 first
        (transfer_loop-Passes rest mid.0 mid.1 y first.shared go)
