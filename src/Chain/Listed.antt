-- ===== src/Chain/Listed.antt =====
-- The interfaces can be met: tables as ascending lists, and assets with the documented bound, every
-- symbol counting as valid. The witnesses run on these.
use twig_system_contracts.Prelude.{
  ℕ, ◌≤◌, ◌^◌, Bool, true, List, [], ℤ, pos_part, neg_part, ◌+ℤ◌, ltb, ◌==◌, ◌&&◌, if◌then◌else◌,
  lookup, insert, remove, IsAscending, insert-AscendingFrom, remove-AscendingFrom, ◌≡◌, refl, arith,
}
use twig_system_contracts.Chain.Outcome.{Result, ok, err, refused}
use twig_system_contracts.Chain.Tables.{MultiIndex}
use twig_system_contracts.Chain.Types.{Asset}
use twig_system_contracts.Chain.Assets.{AssetLib, InRange}

abbrev Ascending : Type 0 → Type 0
Ascending V = (l : List (ℕ × V)) × IsAscending l

pub zero_le : (n : ℕ) → 0 ≤ n
zero_le n = omega arith

abbrev put_row : (V : Type 0) → ℕ → V → Ascending V → Ascending V
put_row V k v t = (insert k v t.0, insert-AscendingFrom 0 k v t.0 (zero_le k) t.1)

abbrev drop_row : (V : Type 0) → ℕ → Ascending V → Ascending V
drop_row V k t = (remove k t.0, remove-AscendingFrom 0 k t.0 t.1)

instance abbrev pub listed : MultiIndex
listed = record {
  Rows = Ascending;
  void = λ V. ([], tt);
  at = λ V k t. lookup k t.0;
  put = put_row;
  drop = drop_row;
  list = λ V t. t.0;
  list_void = λ V. refl;
  at_list = λ V k t. refl;
  list_put = λ V k v t. refl;
  list_drop = λ V k t. refl;
  list_ascending = λ V t. t.1;
}

abbrev in_range : ℤ → Bool
in_range n = ltb (pos_part n) (2 ^ 62) && ltb (neg_part n) (2 ^ 62)

abbrev asset_of : ℤ → ℕ → Asset
asset_of n s = record { amount = n; symbol = s }

abbrev make_listed : ℤ → ℕ → Result Asset
make_listed n s = if in_range n then ok (asset_of n s) else err refused

abbrev plus_listed : Asset → Asset → Result Asset
plus_listed a b =
    if a.symbol == b.symbol && in_range (a.amount +ℤ b.amount)
    then ok (asset_of (a.amount +ℤ b.amount) a.symbol)
    else err refused

pub in_range-InRange : (n : ℤ) → in_range n ≡ true → InRange n
in_range-InRange n h = ground arith

pub make_listed-fields : (n : ℤ) (s : ℕ) (a : Asset) → make_listed n s ≡ ok a → a ≡ asset_of n s
make_listed-fields n s a h = ground arith

pub make_listed-range : (n : ℤ) (s : ℕ) (a : Asset) → make_listed n s ≡ ok a → InRange n
make_listed-range n s a h = ground arith

pub plus_listed-fields :
    (a b c : Asset)
    → plus_listed a b ≡ ok c
    → (a.symbol ≡ b.symbol) × (c ≡ asset_of (a.amount +ℤ b.amount) a.symbol)
plus_listed-fields a b c h = ground arith

instance abbrev pub bounded : AssetLib
bounded = record {
  is_valid = λ a. in_range a.amount;
  make = make_listed;
  plus = plus_listed;
  valid_range = λ a h. in_range-InRange a.amount h;
  make_fields = make_listed-fields;
  make_range = make_listed-range;
  plus_fields = plus_listed-fields;
}
