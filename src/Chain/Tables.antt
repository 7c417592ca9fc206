-- ===== src/Chain/Tables.antt =====
-- `eosio::multi_index` as an interface. A table is one of some type; what the contracts rely on is
-- that its rows have unique primary keys, in ascending order, and what the four operations do to
-- them. Rows are paired with their primary keys.
use twig_system_contracts.Prelude.{
  ℕ, Option, none, some, List, [], ◌≡◌, ◌==◌, if◌then◌else◌, lookup, insert, remove, IsAscending,
  lookup-insert, lookup-remove, arith,
}
use twig_system_contracts.Chain.Outcome.{
  Result, ok, key_taken, end_iterator, ◌>>◌, demand, is_some, is_none,
}

pub record MultiIndex : Type 1 where
  pub Rows : Type 0 → Type 0
  pub void : (V : Type 0) → Rows V
  pub at : (V : Type 0) → ℕ → Rows V → Option V
  pub put : (V : Type 0) → ℕ → V → Rows V → Rows V
  pub drop : (V : Type 0) → ℕ → Rows V → Rows V
  pub list : (V : Type 0) → Rows V → List (ℕ × V)
  pub list_void : (V : Type 0) → list V (void V) ≡ []
  pub at_list : (V : Type 0) (k : ℕ) (t : Rows V) → at V k t ≡ lookup k (list V t)
  pub list_put :
      (V : Type 0) (k : ℕ) (v : V) (t : Rows V) → list V (put V k v t) ≡ insert k v (list V t)
  pub list_drop : (V : Type 0) (k : ℕ) (t : Rows V) → list V (drop V k t) ≡ remove k (list V t)
  pub list_ascending : (V : Type 0) (t : Rows V) → IsAscending (list V t)

abbrev pub Table : ⦃mi : MultiIndex⦄ → Type 0 → Type 0
Table ⦃mi⦄ V = mi.Rows V

module _ ⦃mi : MultiIndex⦄ {V : Type 0} where
  -- `find(key)`, with `none` for `end()`.
  unfoldable pub find : ℕ → Table V → Option V
  find k t = mi.at V k t

  -- From `begin()` to `end()`.
  unfoldable pub rows : Table V → List (ℕ × V)
  rows t = mi.list V t

  -- `modify` through the iterator at the key, or a new row under it.
  unfoldable pub store : ℕ → V → Table V → Table V
  store k v t = mi.put V k v t

  -- `erase` of the row under the key.
  unfoldable pub erase : ℕ → Table V → Table V
  erase k t = mi.drop V k t

  -- `emplace` refuses a key that is taken.
  abbrev pub emplace : ℕ → V → Table V → Result (Table V)
  emplace k v t = do demand (is_none (find k t)) key_taken; ok (store k v t)

  -- `erase(find(key))`: an `end()` iterator is refused.
  abbrev pub erase_found : ℕ → Table V → Result (Table V)
  erase_found k t = do demand (is_some (find k t)) end_iterator; ok (erase k t)

  pub emplace-ok :
      (k : ℕ) (v : V) (t t' : Table V)
      → emplace k v t ≡ ok t'
      → (find k t ≡ none) × (store k v t ≡ t')
  emplace-ok k v t t' h = ground arith

  pub find-rows : (k : ℕ) (t : Table V) → find k t ≡ lookup k (rows t)
  unfolding find rows
  find-rows k t = mi.at_list V k t

  pub rows-store : (k : ℕ) (v : V) (t : Table V) → rows (store k v t) ≡ insert k v (rows t)
  unfolding rows store
  rows-store k v t = mi.list_put V k v t

  pub rows-erase : (k : ℕ) (t : Table V) → rows (erase k t) ≡ remove k (rows t)
  unfolding rows erase
  rows-erase k t = mi.list_drop V k t

  pub rows-IsAscending : (t : Table V) → IsAscending (rows t)
  unfolding rows
  rows-IsAscending t = mi.list_ascending V t

  -- What is found after a row is written.
  pub find-store :
      (j k : ℕ) (v : V) (t : Table V) → find j (store k v t) ≡ (if j == k then some v else find j t)
  find-store j k v t =
      rw (find-rows j (store k v t), rows-store k v t, find-rows j t) (lookup-insert j k v (rows t))

  -- What is found after a row is erased.
  pub find-erase :
      (j k : ℕ) (t : Table V) → find j (erase k t) ≡ (if j == k then none else find j t)
  find-erase j k t =
      rw (find-rows j (erase k t), rows-erase k t, find-rows j t) (lookup-remove j k (rows t))

unfoldable pub empty_table : ⦃mi : MultiIndex⦄ (V : Type 0) → Table V
empty_table ⦃mi⦄ V = mi.void V

pub rows-empty : ⦃mi : MultiIndex⦄ (V : Type 0) → rows (empty_table V) ≡ []
unfolding empty_table rows
rows-empty ⦃mi⦄ V = mi.list_void V
