-- ===== src/System/Producers/Ring.antt =====
-- The agreement of the registers of keys and of finalizers
-- (contracts/eosio.system/src/actions/3.producers.cpp).
use twig_system_contracts.Prelude.{
  ℕ, suc, Option, none, some, List, [], ◌∷◌, ◌≤◌, ◌<◌, ◌==◌, if◌then◌else◌, ℤ, pos, arith, ◌≡◌, sym,
  ap, ◌∙◌, false, Bool-cases, inl, inr, lookup, AscendingFrom,
}
use twig_system_contracts.Chain.{MultiIndex, Table, find, rows, find-rows, rows-IsAscending, sum}
use twig_system_contracts.System.Producers.State.{FinKey, Finalizer, Host}
use twig_system_contracts.System.Producers.Keys.{by_fin_key, first_with, find_key}

-- One for a key of the finalizer, and zero for another.
abbrev pub owned : ℕ → FinKey → ℤ
owned n row = if row.finalizer_name == n then pos 1 else pos 0

abbrev pub count_of : Option Finalizer → ℕ
count_of none = 0
count_of (some f) = f.finalizer_key_count

module _ (host : Host) where
  first_with-lookup :
      (n hash : ℕ) (m : List (ℕ × FinKey)) (row : FinKey)
      → AscendingFrom n m
      → first_with host hash m ≡ some row
      → (k : ℕ) × (n ≤ k) × (lookup k m ≡ some row) × (by_fin_key host row ≡ hash)
  first_with-lookup n hash [] row up h = absurd (ground arith)
  first_with-lookup n hash (e ∷ m) row up h = elim (Bool-cases (by_fin_key host e.1 == hash)) [
    | inl here ↦ (e.0, up.0, ground arith, ground arith)
    | inr other ↦
        let (k, above, there, same) = first_with-lookup (suc e.0) hash m row up.1 (ground arith) in
        (k, omega arith, ground arith, same)
  ]

  first_with-none :
      (hash k : ℕ) (m : List (ℕ × FinKey)) (row : FinKey)
      → first_with host hash m ≡ none
      → lookup k m ≡ some row
      → (by_fin_key host row == hash) ≡ false
  first_with-none hash k [] row h there = absurd (ground arith)
  first_with-none hash k (e ∷ m) row h there = ground (arith, first_with-none hash k m row)

  module _ ⦃mi : MultiIndex⦄ where
    -- Keys stand under their ids, of which none is beyond the last one given out, no two have one
    -- hash, each finalizer has as many as are counted for it, at least one, and the active one of
    -- them is its own and has the bytes that are noted.
    pub record IsKeyRing (finkeys : Table FinKey) (finkeyidgen : Table ℕ)
        (finalizers : Table Finalizer) : Type 0 where
      pub keyed : (k : ℕ) (row : FinKey) → find k finkeys ≡ some row → row.id ≡ k
      pub given :
          (k : ℕ) (row : FinKey)
          → find k finkeys ≡ some row
          → (last : ℕ) × (find 0 finkeyidgen ≡ some last) × (k ≤ last)
      pub distinct :
          (j k : ℕ) (a b : FinKey)
          → find j finkeys ≡ some a
          → find k finkeys ≡ some b
          → by_fin_key host a ≡ by_fin_key host b
          → j ≡ k
      pub counts : (n : ℕ) → sum (owned n) finkeys ≡ pos (count_of (find n finalizers))
      pub registered :
          (n : ℕ) (f : Finalizer)
          → find n finalizers ≡ some f
          → (f.finalizer_name ≡ n) × (0 < f.finalizer_key_count)
      pub active :
          (n : ℕ) (f : Finalizer)
          → find n finalizers ≡ some f
          → (row : FinKey) × (find f.active_key_id finkeys ≡ some row)
            × (row.finalizer_name ≡ n)
            × (f.active_key_binary ≡ row.finalizer_key_binary)

    pub find_key-find :
        {finkeys : Table FinKey} {finkeyidgen : Table ℕ} {finalizers : Table Finalizer} (hash : ℕ)
        (row : FinKey)
        → IsKeyRing finkeys finkeyidgen finalizers
        → find_key host hash finkeys ≡ some row
        → (find row.id finkeys ≡ some row) × (by_fin_key host row ≡ hash)
    unfolding find_key
    find_key-find {finkeys} hash row ring h =
        let (k, _, there, same) =
          first_with-lookup 0 hash (rows finkeys) row (rows-IsAscending finkeys) h in
        let found = find-rows k finkeys ∙ there in
        (ap (λ i. find i finkeys) (ring.keyed k row found) ∙ found, same)

    pub find_key-none :
        (hash k : ℕ) (row : FinKey) (finkeys : Table FinKey)
        → find_key host hash finkeys ≡ none
        → find k finkeys ≡ some row
        → (by_fin_key host row == hash) ≡ false
    unfolding find_key
    find_key-none hash k row finkeys h there =
        first_with-none hash k (rows finkeys) row h (sym (find-rows k finkeys) ∙ there)
