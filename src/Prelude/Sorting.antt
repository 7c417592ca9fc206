-- ===== src/Prelude/Sorting.antt =====
-- `std::sort` with a number for the key, as a stable insertion sort, and the order of a table's
-- second index, in which rows of equal keys keep the order of their primary keys.
use Prim.Native.Nat.{ℕ, ◌≤◌, ◌+◌}
use mathlib.Core.Bool.{Bool}
use mathlib.Core.Logic.{inl, inr}
use mathlib.Core.Path.{◌≡◌, refl, ap, ◌∙◌}
use mathlib.Core.List.{List, [], ◌∷◌}
use native.Mathlib.Omega.{arith}
use twig_system_contracts.Prelude.Tests.{leb, if◌then◌else◌, Bool-cases}

module _ {ℓ} {A : Type ℓ} (key : A → ℕ) where
  abbrev pub insert_by : A → List A → List A
  insert_by x [] = x ∷ []
  insert_by x (y ∷ ys) = if leb (key x) (key y) then x ∷ y ∷ ys else y ∷ insert_by x ys

  unfoldable pub sort_by : List A → List A
  sort_by [] = []
  sort_by (x ∷ xs) = insert_by x (sort_by xs)

  -- The keys never fall along the list, all of them from `n` on.
  abbrev pub SortedFrom : ℕ → List A → Type 0
  SortedFrom n [] = Unit
  SortedFrom n (x ∷ xs) = (n ≤ key x) × SortedFrom (key x) xs

  SortedFrom-mono : (a b : ℕ) (xs : List A) → a ≤ b → SortedFrom b xs → SortedFrom a xs
  SortedFrom-mono a b [] h s = tt
  SortedFrom-mono a b (x ∷ xs) h s = (omega arith, s.1)

  insert_by-SortedFrom :
      (n : ℕ) (x : A) (xs : List A) → n ≤ key x → SortedFrom n xs → SortedFrom n (insert_by x xs)
  insert_by-SortedFrom n x [] h s = (h, tt)
  insert_by-SortedFrom n x (y ∷ ys) h s = ground (arith, insert_by-SortedFrom (key y) x ys, s.1)

  pub sort_by-SortedFrom : (xs : List A) → SortedFrom 0 (sort_by xs)
  unfolding sort_by
  sort_by-SortedFrom [] = tt
  sort_by-SortedFrom (x ∷ xs) =
      insert_by-SortedFrom 0 x (sort_by xs) (omega arith) (sort_by-SortedFrom xs)

-- In how many places of a list a test holds: two lists on which every test counts the same are
-- permutations of each other.
module _ {ℓ} {A : Type ℓ} (p : A → Bool) where
  abbrev pub count : List A → ℕ
  count [] = 0
  count (x ∷ xs) = (if p x then 1 else 0) + count xs

  count-insert_by :
      (key : A → ℕ) (x : A) (xs : List A)
      → count (insert_by key x xs) ≡ (if p x then 1 else 0) + count xs
  count-insert_by key x [] = refl
  count-insert_by key x (y ∷ ys) =
      let ih = count-insert_by key x ys in
      elim (Bool-cases (leb (key x) (key y))) [
        | inl before ↦ rw before refl
        | inr after ↦ rw (after, ih) (omega arith)
      ]

  pub count-sort_by : (key : A → ℕ) (xs : List A) → count (sort_by key xs) ≡ count xs
  unfolding sort_by
  count-sort_by key [] = refl
  count-sort_by key (x ∷ xs) =
      count-insert_by key x (sort_by key xs)
      ∙ ap (λ n. (if p x then 1 else 0) + n) (count-sort_by key xs)
