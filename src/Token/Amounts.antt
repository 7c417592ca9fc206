-- ===== src/Token/Amounts.antt =====
-- The amount that a map of pairs holds of each symbol, and what the map operations of the token
-- contract do to it.
use twig_system_contracts.Prelude.{
  ℕ, ◌≤◌, ◌<◌, ◌^◌, Option, none, some, ℤ, pos, pos_part, neg_part, ◌+ℤ◌, add64, add64_exact, ◌==◌,
  if◌then◌else◌, lookup, insert, lookup-insert, lookup-remove, arith, ◌≡◌, Option-cases, inl, inr,
}
use twig_system_contracts.Chain.{Pairs}
use twig_system_contracts.Token.Pairs.{credit, settle}

abbrev pub value_or_zero : Option ℤ → ℤ
value_or_zero none = pos 0
value_or_zero (some v) = v

-- An absent symbol counts as zero.
abbrev pub amount_of : ℕ → Pairs → ℤ
amount_of s m = value_or_zero (lookup s m)

abbrev pub FromZero : ℤ → Type 0
FromZero v = (neg_part v ≤ 0) × (pos_part v < 2 ^ 62)

-- What is left of the symbol is as written, whether or not the entry went.
pub amount_of-settle :
    (s k : ℕ) (left : ℤ) (m : Pairs)
    → amount_of s (settle k left m) ≡ (if s == k then left else amount_of s m)
unfolding settle
amount_of-settle s k left m =
    ground (arith, lookup-insert s k left m, lookup-remove s k (insert k left m))

-- Where the sum fits, a credit raises one symbol by the amount and no other.
pub amount_of-credit :
    (s k : ℕ) (v : ℤ) (m : Pairs)
    → FromZero v
    → FromZero (amount_of k m)
    → amount_of s (credit k v m) ≡ (if s == k then amount_of s m +ℤ v else amount_of s m)
unfolding credit ◌+ℤ◌
amount_of-credit s k v m hv hm = elim (Option-cases (lookup k m)) [
  | inl e ↦ ground (arith, lookup-insert s k v m)
  | inr (old, e) ↦ ground (arith, lookup-insert s k (add64 old v) m, add64_exact old v)
]
