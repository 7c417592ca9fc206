-- ===== src/Prelude/Assoc.antt =====
-- Association lists in ascending order of their keys: `std::map`, and the rows of a table.
use Prim.Native.Nat.{ℕ, suc, ◌<◌, ◌≤◌}
use mathlib.Core.Path.{◌≡◌, refl}
use mathlib.Core.Bool.{Bool, true, false}
use mathlib.Core.Option.{Option, none, some}
use mathlib.Core.List.{List, [], ◌∷◌}
use native.Mathlib.Omega.{arith}
use twig_system_contracts.Prelude.Tests.{ltb, ◌==◌, if◌then◌else◌}

module _ {ℓ} {V : Type ℓ} where
  -- `find`, with `none` for `end()`.
  abbrev pub lookup : ℕ → List (ℕ × V) → Option V
  lookup k [] = none
  lookup k ((j, v) ∷ m) = if k == j then some v else lookup k m

  abbrev pub contains : ℕ → List (ℕ × V) → Bool
  contains k m = elim (lookup k m) [ none ↦ false | some v ↦ true ]

  -- Puts the value at its place in the order of the keys, over an old one if there is one.
  abbrev pub insert : ℕ → V → List (ℕ × V) → List (ℕ × V)
  insert k v [] = (k, v) ∷ []
  insert k v ((j, w) ∷ m) =
      if k == j then (k, v) ∷ m else if ltb k j then (k, v) ∷ (j, w) ∷ m else (j, w) ∷ insert k v m

  -- `erase(key)`
  abbrev pub remove : ℕ → List (ℕ × V) → List (ℕ × V)
  remove k [] = []
  remove k ((j, w) ∷ m) = if k == j then remove k m else (j, w) ∷ remove k m

  -- The keys rise along the list, all of them from `n` on.
  abbrev pub AscendingFrom : ℕ → List (ℕ × V) → Type 0
  AscendingFrom n [] = Unit
  AscendingFrom n ((k, v) ∷ m) = (n ≤ k) × AscendingFrom (suc k) m

  abbrev pub IsAscending : List (ℕ × V) → Type 0
  IsAscending = AscendingFrom 0

  pub lookup-insert :
      (j k : ℕ) (v : V) (m : List (ℕ × V))
      → lookup j (insert k v m) ≡ (if j == k then some v else lookup j m)
  lookup-insert j k v [] = refl
  lookup-insert j k v (e ∷ m) = ground (arith, lookup-insert j k v m)

  pub lookup-remove :
      (j k : ℕ) (m : List (ℕ × V)) → lookup j (remove k m) ≡ (if j == k then none else lookup j m)
  lookup-remove j k [] = ground arith
  lookup-remove j k (e ∷ m) = ground (arith, lookup-remove j k m)

  AscendingFrom-mono : (a b : ℕ) (m : List (ℕ × V)) → a ≤ b → AscendingFrom b m → AscendingFrom a m
  AscendingFrom-mono a b [] h s = tt
  AscendingFrom-mono a b (e ∷ m) h s = (omega arith, s.1)

  pub insert-AscendingFrom :
      (n k : ℕ) (v : V) (m : List (ℕ × V))
      → n ≤ k
      → AscendingFrom n m
      → AscendingFrom n (insert k v m)
  insert-AscendingFrom n k v [] h s = (h, tt)
  insert-AscendingFrom n k v (e ∷ m) h s =
      ground (arith, insert-AscendingFrom (suc e.0) k v m, AscendingFrom-mono (suc k) (suc e.0) m)

  pub remove-AscendingFrom :
      (n k : ℕ) (m : List (ℕ × V)) → AscendingFrom n m → AscendingFrom n (remove k m)
  remove-AscendingFrom n k [] s = tt
  remove-AscendingFrom n k (e ∷ m) s =
      ground
        (arith, remove-AscendingFrom (suc e.0) k m s.1, AscendingFrom-mono n (suc e.0) (remove k m))

  -- Below the first key there is nothing to find.
  pub lookup_below : (n k : ℕ) (m : List (ℕ × V)) → AscendingFrom n m → k < n → lookup k m ≡ none
  lookup_below n k [] s h = refl
  lookup_below n k (e ∷ m) s h = ground (arith, lookup_below (suc e.0) k m s.1)

  -- Nothing to remove where nothing is found.
  pub remove_absent : (k : ℕ) (m : List (ℕ × V)) → lookup k m ≡ none → remove k m ≡ m
  remove_absent k [] h = refl
  remove_absent k (e ∷ m) h = ground (arith, remove_absent k m)
