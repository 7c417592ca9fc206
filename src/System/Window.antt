-- ===== src/System/Window.antt =====
-- The window keeps the ten latest blocks, and what is read from it
-- (contracts/eosio.system/src/functions/functions.producers.cpp).
use twig_system_contracts.Prelude.{
  ℕ, zero, suc, true, false, some, List, [], ◌∷◌, ◌+◌, ◌≤◌, ◌<◌, leb, lookup, AscendingFrom,
  lookup_below, arith, ◌≡◌, ◌∙◌, refl, sym, ap, Bool-cases, inl, inr,
}
use twig_system_contracts.Chain.{MultiIndex, Table, find, erase, find-erase}
use twig_system_contracts.System.Blocks.{BlockInfo, rolling_window_size, prune}

module _ ⦃mi : MultiIndex⦄ where
  -- Each row stands under its height.
  abbrev pub IsKeyed : Table BlockInfo → Type 0
  IsKeyed t = (k : ℕ) (row : BlockInfo) → find k t ≡ some row → row.block_height ≡ k

  -- The rows of the table are among those listed.
  abbrev pub Listed : List (ℕ × BlockInfo) → Table BlockInfo → Type 0
  Listed m t = (k : ℕ) (row : BlockInfo) → find k t ≡ some row → lookup k m ≡ some row

  -- Rows are listed under their heights.
  abbrev pub Keyed : List (ℕ × BlockInfo) → Type 0
  Keyed [] = Unit
  Keyed ((k, row) ∷ m) = (row.block_height ≡ k) × Keyed m

  prune-old :
      (last count j : ℕ) (r : BlockInfo) (m : List (ℕ × BlockInfo)) (t : Table BlockInfo)
      → leb r.block_height last ≡ true
      → prune last (suc count) ((j, r) ∷ m) t ≡ prune last count m (erase j t)
  unfolding prune
  prune-old last count j r m t e = rw (prune, e) refl

  prune-young :
      (last count j : ℕ) (r : BlockInfo) (m : List (ℕ × BlockInfo)) (t : Table BlockInfo)
      → leb r.block_height last ≡ false
      → prune last (suc count) ((j, r) ∷ m) t ≡ t
  unfolding prune
  prune-young last count j r m t e = rw (prune, e) refl

  -- What pruning leaves was there before, and is above the last prunable height, if no more rows
  -- are prunable than may be pruned.
  pub prune-above :
      (n last count : ℕ) (m : List (ℕ × BlockInfo)) (t : Table BlockInfo)
      → AscendingFrom n m
      → last < n + count
      → Listed m t
      → Keyed m
      → (k : ℕ) (row : BlockInfo) → find k (prune last count m t) ≡ some row
      → (find k t ≡ some row) × (last < k)
  unfolding prune
  prune-above n last count [] t up few listed keyed k row h =
      absurd (ground (arith, listed k row h))
  prune-above n last zero (e ∷ m) t up few listed keyed k row h =
      (h, ground (arith, listed k row h, lookup_below n k (e ∷ m) up))
  prune-above n last (suc count) ((j, r) ∷ m) t up few listed keyed k row h =
      elim (Bool-cases (leb r.block_height last)) [
        | inl old ↦
            let h1 = sym (ap (λ z. find k z) (prune-old last count j r m t old)) ∙ h in
            let (there, above) =
              prune-above (suc j) last count m (erase j t) up.1 (ground arith)
                (λ k' row' h'. ground (arith, find-erase k' j t, listed k' row')) keyed.1 k row
                h1 in
            (ground (arith, find-erase k j t), above)
        | inr young ↦
            let h1 = sym (ap (λ z. find k z) (prune-young last count j r m t young)) ∙ h in
            (h1, ground (arith, listed k row h1, lookup_below (suc j) k m up.1))
      ]

  -- Pruning leaves what is above the last prunable height as it was.
  pub prune-keeps :
      (last count : ℕ) (m : List (ℕ × BlockInfo)) (t : Table BlockInfo) (k : ℕ)
      → Keyed m
      → last < k
      → find k (prune last count m t) ≡ find k t
  unfolding prune
  prune-keeps last count [] t k keyed above = refl
  prune-keeps last zero (e ∷ m) t k keyed above = refl
  prune-keeps last (suc count) ((j, r) ∷ m) t k keyed above =
      elim (Bool-cases (leb r.block_height last)) [
        | inl old ↦
            ap (λ z. find k z) (prune-old last count j r m t old)
            ∙ prune-keeps last count m (erase j t) k keyed.1 above
            ∙ ground (arith, find-erase k j t)
        | inr young ↦ ap (λ z. find k z) (prune-young last count j r m t young)
      ]

  pub lookup-Keyed :
      (n : ℕ) (m : List (ℕ × BlockInfo))
      → AscendingFrom n m
      → ((k : ℕ) (row : BlockInfo) → lookup k m ≡ some row → row.block_height ≡ k)
      → Keyed m
  lookup-Keyed n [] up h = tt
  lookup-Keyed n ((j, r) ∷ m) up h = (
    h j r (ground arith),
    lookup-Keyed (suc j) m up.1
        (λ k row e. h k row (ground (arith, lookup_below (suc j) k m up.1))),
  )

  pub lookup-AscendingFrom :
      (b n : ℕ) (m : List (ℕ × BlockInfo))
      → AscendingFrom n m
      → ((k : ℕ) (row : BlockInfo) → lookup k m ≡ some row → b ≤ k)
      → AscendingFrom b m
  lookup-AscendingFrom b n [] up h = tt
  lookup-AscendingFrom b n ((j, r) ∷ m) up h = (h j r (ground arith), up.1)

  -- The rows are of blocks up to `height`, each under its height, and not more than ten blocks old.
  pub record IsRecent (height : ℕ) (t : Table BlockInfo) : Type 0 where
    pub keyed : IsKeyed t
    pub past : (k : ℕ) (row : BlockInfo) → find k t ≡ some row → k ≤ height
    pub fresh : (k : ℕ) (row : BlockInfo) → find k t ≡ some row → height < k + rolling_window_size

  abbrev pub info_of : ℕ → ℕ → BlockInfo
  info_of height timestamp = record {
    version = 0;
    block_height = height;
    block_timestamp = timestamp;
  }
