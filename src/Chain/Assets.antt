-- ===== src/Chain/Assets.antt =====
-- `eosio::asset` as an interface: its validity test, its constructor and its sum, which abort on a
-- bad symbol or on a magnitude of 2^62 or more.
use twig_system_contracts.Prelude.{ℕ, ◌≡◌, ◌<◌, ◌^◌, Bool, true, ℤ, pos_part, neg_part, ◌+ℤ◌}
use twig_system_contracts.Chain.Outcome.{Result, ok}
use twig_system_contracts.Chain.Types.{Asset}

-- Below 2^62 in magnitude, as the library documents of a valid amount.
abbrev pub InRange : ℤ → Type 0
InRange a = (pos_part a < 2 ^ 62) × (neg_part a < 2 ^ 62)

pub record AssetLib : Type 0 where
  pub is_valid : Asset → Bool
  pub make : ℤ → ℕ → Result Asset
  pub plus : Asset → Asset → Result Asset
  pub valid_range : (a : Asset) → is_valid a ≡ true → InRange a.amount
  pub make_fields :
      (n : ℤ) (s : ℕ) (a : Asset) → make n s ≡ ok a → a ≡ record { amount = n; symbol = s }
  pub make_range : (n : ℤ) (s : ℕ) (a : Asset) → make n s ≡ ok a → InRange n
  pub plus_fields :
      (a b c : Asset)
      → plus a b ≡ ok c
      → (a.symbol ≡ b.symbol) × (c ≡ record { amount = a.amount +ℤ b.amount; symbol = a.symbol })

module _ ⦃lib : AssetLib⦄ where
  abbrev pub is_valid : Asset → Bool
  is_valid = lib.is_valid

  abbrev pub make_asset : ℤ → ℕ → Result Asset
  make_asset = lib.make

  abbrev pub plus_asset : Asset → Asset → Result Asset
  plus_asset = lib.plus

  pub is_valid-InRange : (a : Asset) → is_valid a ≡ true → InRange a.amount
  is_valid-InRange = lib.valid_range

  pub plus_asset-fields :
      (a b c : Asset)
      → plus_asset a b ≡ ok c
      → (a.symbol ≡ b.symbol) × (c ≡ record { amount = a.amount +ℤ b.amount; symbol = a.symbol })
  plus_asset-fields = lib.plus_fields
