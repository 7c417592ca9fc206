-- ===== src/Chain/Sums.antt =====
-- The sum of a quantity over the rows of a table, and how a written or erased row changes it.
use twig_system_contracts.Prelude.{
  ℕ, suc, Option, none, some, List, [], ◌∷◌, ℤ, pos, pos_part, neg_part, ◌+ℤ◌, int_laws, lookup,
  insert, remove, AscendingFrom, lookup_below, remove_absent, arith, ◌≡◌, ap, ltb, ◌==◌, Bool-cases,
  inl, inr,
}
use twig_system_contracts.Chain.Tables.{
  MultiIndex, Table, find, rows, store, erase, find-rows, rows-store, rows-erase, rows-IsAscending,
}

module _ {V : Type 0} (weight : V → ℤ) where
  abbrev pub weight_of : Option V → ℤ
  weight_of none = pos 0
  weight_of (some v) = weight v

  unfoldable pub sum_in : List (ℕ × V) → ℤ
  sum_in [] = pos 0
  sum_in ((k, v) ∷ m) = weight v +ℤ sum_in m

  sum_in-insert :
      (n k : ℕ) (v : V) (m : List (ℕ × V))
      → AscendingFrom n m
      → sum_in (insert k v m) +ℤ weight_of (lookup k m) ≡ sum_in m +ℤ weight v
  unfolding sum_in
  sum_in-insert n k v [] up = omega int_laws
  sum_in-insert n k v (e ∷ m) up =
      let ih = sum_in-insert (suc e.0) k v m up.1 in
      elim (Bool-cases (k == e.0)) [
        | inl here ↦ rw here (omega int_laws)
        | inr other ↦ elim (Bool-cases (ltb k e.0)) [
          | inl below ↦
              rw (other, below)
                (rw (lookup_below (suc e.0) k m up.1 (ground arith)) (omega int_laws))
          | inr above ↦ rw (other, above) (omega (int_laws, ap pos_part ih, ap neg_part ih))
        ]
      ]

  sum_in-remove :
      (n k : ℕ) (m : List (ℕ × V))
      → AscendingFrom n m
      → sum_in (remove k m) +ℤ weight_of (lookup k m) ≡ sum_in m
  unfolding sum_in
  sum_in-remove n k [] up = omega int_laws
  sum_in-remove n k (e ∷ m) up =
      let ih = sum_in-remove (suc e.0) k m up.1 in
      elim (Bool-cases (k == e.0)) [
        | inl here ↦ rw here (
            rw (remove_absent k m (lookup_below (suc e.0) k m up.1 (ground arith)))
              (omega int_laws))
        | inr other ↦ rw other (omega (int_laws, ap pos_part ih, ap neg_part ih))
      ]

  module _ ⦃mi : MultiIndex⦄ where
    unfoldable pub sum : Table V → ℤ
    sum t = sum_in (rows t)

    -- Writing a row adds its weight and takes that of the old one.
    pub sum-store :
        (k : ℕ) (v : V) (t : Table V)
        → sum (store k v t) +ℤ weight_of (find k t) ≡ sum t +ℤ weight v
    unfolding sum
    sum-store k v t =
        rw (rows-store k v t, find-rows k t) (sum_in-insert 0 k v (rows t) (rows-IsAscending t))

    -- Erasing a row takes its weight.
    pub sum-erase : (k : ℕ) (t : Table V) → sum (erase k t) +ℤ weight_of (find k t) ≡ sum t
    unfolding sum
    sum-erase k t =
        rw (rows-erase k t, find-rows k t) (sum_in-remove 0 k (rows t) (rows-IsAscending t))
